-- ===== src/Sni/ServerNames.antt =====
-- src/sni.rs: which host names are extracted.
use symphony.Prelude.{
  length, Bytes, ◌==◌, Bool-cases, Option-cases, ℕ, zero, suc, ◌≤◌, ◌<◌, ◌≡◌, refl, subst, ◌≢◌, inl,
  inr, false, none, some, [], ◌∷◌, arith,
}
use symphony.Sni.Parser.{read_u16, next_extension}
use symphony.Sni.ServerName.{
  max_name, attach, next_name, trim_dots, mentions, no_bytes, host_name, names_loop, server_name,
  sni_loop, extract_sni,
}

-- The last byte is not a dot.
abbrev pub IsTrimmed : Bytes → Type 0
IsTrimmed [] = Unit {0}
IsTrimmed (b ∷ []) = (b == b'.') ≡ false
IsTrimmed (b ∷ c ∷ bytes) = IsTrimmed (c ∷ bytes)

pub record IsHostName (name : Bytes) : Type 0 where
  pub some_bytes : 0 < length name
  pub short : length name ≤ max_name
  pub no_colon : mentions b':' name ≡ false
  pub no_slash : mentions b'/' name ≡ false
  pub trimmed : IsTrimmed name

attach-IsTrimmed : (b : ℕ) (rest : Bytes) → IsTrimmed rest → IsTrimmed (attach b rest)
attach-IsTrimmed b [] h = elim (Bool-cases (b == b'.')) [ inl e ↦ rw e tt | inr e ↦ rw e e ]
attach-IsTrimmed b (c ∷ rest) h = h

trim_dots-IsTrimmed : (bytes : Bytes) → IsTrimmed (trim_dots bytes)
unfolding trim_dots
trim_dots-IsTrimmed [] = tt
trim_dots-IsTrimmed (b ∷ bytes) = attach-IsTrimmed b (trim_dots bytes) (trim_dots-IsTrimmed bytes)

pub trim_dots-trimmed : (bytes : Bytes) → IsTrimmed bytes → trim_dots bytes ≡ bytes
unfolding trim_dots
trim_dots-trimmed [] h = refl
trim_dots-trimmed (b ∷ []) h = ground arith
trim_dots-trimmed (b ∷ c ∷ bytes) h = rw (trim_dots-trimmed (c ∷ bytes) h) refl

no_bytes-false : (bytes : Bytes) → no_bytes bytes ≡ false → 0 < length bytes
no_bytes-false [] h = ground arith
no_bytes-false (b ∷ bytes) h = omega arith

host_name-IsHostName : (name_data name : Bytes) → host_name name_data ≡ some name → IsHostName name
unfolding host_name
host_name-IsHostName name_data name h =
    let trimmed = trim_dots-IsTrimmed name_data in
    let same : trim_dots name_data ≡ name = ground arith in
    record {
      some_bytes = no_bytes-false name (ground arith);
      short = ground arith;
      no_colon = ground arith;
      no_slash = ground arith;
      trimmed = subst IsTrimmed same trimmed;
    }

some-inj : {A : Type 0} {a b : A} → some a ≡ some b → a ≡ b
some-inj h = cc

none-ne-some : {A : Type 0} {a : A} → none ≢ some a
none-ne-some h = cc

names_loop-IsHostName :
    (fuel : ℕ) (sp name : Bytes) → names_loop fuel sp ≡ some (some name) → IsHostName name
unfolding names_loop
names_loop-IsHostName zero sp name h = absurd (none-ne-some h)
names_loop-IsHostName (suc fuel) sp name h = elim (Option-cases (next_name sp)) [
  | inl e ↦ absurd (ground arith)
  | inr ((ty, name_data, rest), e) ↦ elim (Bool-cases (ty == 0)) [
    | inl k ↦ host_name-IsHostName name_data name (ground arith)
    | inr k ↦ names_loop-IsHostName fuel rest name (ground arith)
  ]
]

server_name-IsHostName :
    (ext_data name : Bytes) → server_name ext_data ≡ some (some name) → IsHostName name
unfolding server_name
server_name-IsHostName ext_data name h = elim (Option-cases (read_u16 ext_data)) [
  | inl e ↦ absurd (ground arith)
  | inr ((list_len, sp), e) ↦ names_loop-IsHostName (length sp) sp name (ground arith)
]

sni_loop-IsHostName : (fuel : ℕ) (p name : Bytes) → sni_loop fuel p ≡ some name → IsHostName name
unfolding sni_loop
sni_loop-IsHostName zero p name h = absurd (none-ne-some h)
sni_loop-IsHostName (suc fuel) p name h = elim (Option-cases (next_extension p)) [
  | inl e ↦ absurd (ground arith)
  | inr ((ty, ext_data, rest), e) ↦ elim (Option-cases (server_name ext_data)) [
    | inl k ↦ sni_loop-IsHostName fuel rest name (ground arith)
    | inr (verdict, k) ↦ elim (Bool-cases (ty == 0)) [
      | inl z ↦ server_name-IsHostName ext_data name (ground arith)
      | inr z ↦ sni_loop-IsHostName fuel rest name (ground arith)
    ]
  ]
]

-- A name that is extracted, from any bytes whatever, is one that an upstream can be looked up by:
-- not empty, at most 253 bytes, with no colon, no slash and no dot at its end.
pub extract_sni-IsHostName :
    (extensions name : Bytes) → extract_sni extensions ≡ some name → IsHostName name
unfolding extract_sni
extract_sni-IsHostName extensions name h = sni_loop-IsHostName (length extensions) extensions name h
