-- ===== src/Sni/Samples.antt =====
-- src/sni.rs: a ClientHello that a client sends in two records.
use symphony.Prelude.{take, drop, replicate, Bytes, refl, [], ◌∷◌, arith}
use symphony.Sni.Parser.{extension}
use symphony.Sni.HelloRoundTrip.{Fields, IsFields, message}
use symphony.Sni.NameRoundTrip.{sni_data}
use symphony.Sni.Whole.{Sent, IsSent}

-- "a.io"
abbrev pub name : Bytes
name = b'a' ∷ b'.' ∷ b'i' ∷ b'o' ∷ []

abbrev pub hello : Fields
hello = record {
  random = replicate 32 7;
  session_id = [];
  compression = 0 ∷ [];
  hello = record {
    legacy_version = 0x0303;
    cipher_suites = 0x13 ∷ 0x01 ∷ [];
    extensions = extension 0 (sni_data name);
  };
}

pub hello-IsFields : IsFields hello
hello-IsFields = record {
  random_sized = refl;
  session_id_fits = omega arith;
  compression_fits = omega arith;
  version_fits = omega arith;
  suites_fit = omega arith;
  extensions_fit = omega arith;
}

-- The first three bytes of the message come in a record of their own.
abbrev pub sent : Sent
sent = record {
  fields = hello;
  extra = [];
  fragments = record { major = 3; minor = 1; payload = take 3 (message hello) } ∷ [];
  last = record { major = 3; minor = 3; payload = drop 3 (message hello) };
  tail = 0x17 ∷ [];
}

pub sent-IsSent : IsSent sent
sent-IsSent = record {
  fields_fit = hello-IsFields;
  records_fit = (omega arith, (omega arith, tt));
  carried = refl;
  completed_last = omega arith;
  within = omega arith;
}
