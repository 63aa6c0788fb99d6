-- ===== src/Tls.antt =====
-- src/tls.rs: the cache of TLS configurations. The configuration itself, which rustls builds, and the
-- digest are parameters, and so is which configurations something besides the cache holds.
pub mod Cached
use symphony.Prelude.{
  length, replicate, Bytes, eq_bytes, Result, ok, err, ltb, if◌then◌else◌, ℕ, ◌*◌, max, Bool, true,
  false, not, ◌&&◌, ◌||◌, Option, none, some, List, [], ◌∷◌, ◌++◌,
}
use symphony.Errors.{SymphonyError}

pub record CertSpec : Type 0 where
  pub cert_chain_pem : Bytes
  pub private_key_pem : Bytes

pub record MtlsSpec : Type 0 where
  pub client_ca_pem : Bytes
  pub require_client_cert : Bool

abbrev pub CacheKey : Type 0
CacheKey = Bytes × Bytes × Bool

abbrev pub eq_bool : Bool → Bool → Bool
eq_bool true b = b
eq_bool false b = not b

abbrev pub eq_key : CacheKey → CacheKey → Bool
eq_key a b = eq_bytes a.0 b.0 && eq_bytes a.1 b.1 && eq_bool a.2 b.2

abbrev pub bit_of : Bool → ℕ
bit_of true = 1
bit_of false = 0

abbrev pub zero_digest : Bytes
zero_digest = replicate 32 0

-- MIN_EVICT_AT
abbrev pub min_evict_at : ℕ
min_evict_at = 256

pub record TlsConfigCache (Config : Type 0) : Type 0 where
  pub cache : List (CacheKey × Config)
  pub used : List CacheKey
  pub evict_at : ℕ

-- What rustls and the digest do for the program.
pub record TlsLibrary (Config : Type 0) : Type 0 where
  pub sha256 : Bytes → Bytes
  pub build_server_config : CertSpec → Option MtlsSpec → Bool → Option Config

unfoldable pub has_key : CacheKey → List CacheKey → Bool
has_key key [] = false
has_key key (k ∷ keys) = eq_key k key || has_key key keys

module _ {Config : Type 0} where
  abbrev pub new_cache : TlsConfigCache Config
  new_cache = record { cache = []; used = []; evict_at = min_evict_at }

  unfoldable pub cached : CacheKey → List (CacheKey × Config) → Option Config
  cached key [] = none
  cached key ((k, config) ∷ entries) = if eq_key k key then some config else cached key entries

  -- `HashMap::retain`
  unfoldable pub retain : (CacheKey → Bool) → List (CacheKey × Config) → List (CacheKey × Config)
  retain keep [] = []
  retain keep ((k, config) ∷ entries) =
      let rest = retain keep entries in if keep k then (k, config) ∷ rest else rest

  unfoldable pub evict_unreferenced :
      (CacheKey → Bool) → TlsConfigCache Config → TlsConfigCache Config
  evict_unreferenced is_held c =
      let entries = retain is_held c.cache in
      record c { cache = entries; evict_at = max min_evict_at (length entries * 2) }

  unfoldable pub clear_used : (CacheKey → Bool) → TlsConfigCache Config → TlsConfigCache Config
  clear_used is_held c = evict_unreferenced is_held (record c { used = [] })

  unfoldable pub retain_used : (CacheKey → Bool) → TlsConfigCache Config → TlsConfigCache Config
  retain_used is_held c = record c {
    cache = retain (λ k. has_key k c.used || is_held k) c.cache;
    used = [];
  }

  -- The new configuration is held by the caller too.
  unfoldable pub insert :
      (CacheKey → Bool) → CacheKey → Config → TlsConfigCache Config → TlsConfigCache Config
  insert is_held key config c =
      let entries = (key, config) ∷ c.cache in
      if ltb c.evict_at (length entries)
      then evict_unreferenced (λ k. eq_key k key || is_held k) (record c { cache = entries })
      else record c { cache = entries }

module _ {Config : Type 0} (lib : TlsLibrary Config) where
  unfoldable pub mtls_key : Option MtlsSpec → Bytes
  mtls_key none = zero_digest
  mtls_key (some m) = lib.sha256 (m.client_ca_pem ++ bit_of m.require_client_cert ∷ [])

  unfoldable pub cache_key : CertSpec → Option MtlsSpec → Bool → CacheKey
  cache_key cert mtls http2 =
      (lib.sha256 (cert.cert_chain_pem ++ cert.private_key_pem), mtls_key mtls, http2)

  unfoldable pub lookup_or_build :
      (CacheKey → Bool)
      → CertSpec
      → Option MtlsSpec
      → Bool
      → TlsConfigCache Config
      → Result SymphonyError Config × TlsConfigCache Config
  lookup_or_build is_held cert mtls http2 c =
      let key = cache_key cert mtls http2 in
      elim (cached key c.cache) [
        | some config ↦ (ok config, c)
        | none ↦ elim (lib.build_server_config cert mtls http2) [
          | none ↦ (err SymphonyError.tls, c)
          | some config ↦ (ok config, insert is_held key config c)
        ]
      ]

  abbrev pub marked :
      CacheKey
      → Result SymphonyError Config × TlsConfigCache Config
      → Result SymphonyError Config × TlsConfigCache Config
  marked key (ok config, c) = (ok config, record c { used = key ∷ c.used })
  marked key (err e, c) = (err e, c)

  unfoldable pub get_or_build :
      (CacheKey → Bool)
      → CertSpec
      → Option MtlsSpec
      → Bool
      → TlsConfigCache Config
      → Result SymphonyError Config × TlsConfigCache Config
  get_or_build is_held cert mtls http2 c =
      marked (cache_key cert mtls http2) (lookup_or_build is_held cert mtls http2 c)

  unfoldable pub get_or_build_unmarked :
      (CacheKey → Bool)
      → CertSpec
      → Option MtlsSpec
      → Bool
      → TlsConfigCache Config
      → Result SymphonyError Config × TlsConfigCache Config
  get_or_build_unmarked is_held cert mtls http2 c = lookup_or_build is_held cert mtls http2 c
