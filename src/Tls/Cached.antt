-- ===== src/Tls/Cached.antt =====
-- src/tls.rs: where the configurations of the cache come from, and what their keys tell apart.
use symphony.Prelude.{
  length, length-append, Bytes, eq_bytes_iff, Result, ok, err, ltb, Bool-cases, Option-cases, ℕ,
  suc, ◌≡◌, refl, sym, ap, subst, ◌≢◌, ◌↔◌, inl, inr, Bool, true, ◌||◌, Option, none, some, List,
  [], ◌∷◌, ◌++◌, arith,
}
use symphony.Errors.{SymphonyError}
use symphony.Tls.{
  CertSpec, MtlsSpec, CacheKey, eq_bool, eq_key, zero_digest, TlsConfigCache, TlsLibrary, has_key,
  cached, retain, evict_unreferenced, clear_used, retain_used, insert, mtls_key, cache_key,
  lookup_or_build, marked, get_or_build,
}

pub eq_bool_iff : (a b : Bool) → (eq_bool a b ≡ true) ↔ (a ≡ b)
eq_bool_iff a b = ground arith

eq_key_eq : (a b : CacheKey) → eq_key a b ≡ true → a ≡ b
eq_key_eq a b h = ground (arith, eq_bytes_iff a.0 b.0, eq_bytes_iff a.1 b.1, eq_bool_iff a.2 b.2)

-- No two texts that are hashed have one digest, and none has the digest of zeros.
pub record IsCollisionFree {Config : Type 0} (lib : TlsLibrary Config) : Type 0 where
  pub sha256-inj : (a b : Bytes) → lib.sha256 a ≡ lib.sha256 b → a ≡ b
  pub sha256-ne-zero : (a : Bytes) → lib.sha256 a ≢ zero_digest

append_last : (a b : Bytes) (x y : ℕ) → a ++ x ∷ [] ≡ b ++ y ∷ [] → (a ≡ b) × (x ≡ y)
append_last [] [] x y h = ground arith
append_last [] (c ∷ b) x y h = absurd (omega (arith, ap length h, length-append {0} b (y ∷ [])))
append_last (c ∷ a) [] x y h = absurd (omega (arith, ap length h, length-append {0} a (x ∷ [])))
append_last (c ∷ a) (d ∷ b) x y h = ground (arith, append_last a b x y)

module _ {Config : Type 0} (lib : TlsLibrary Config) where
  pub record IsBuilt (key : CacheKey) (config : Config) : Type 0 where
    pub cert : CertSpec
    pub mtls : Option MtlsSpec
    pub http2 : Bool
    pub keyed : key ≡ cache_key lib cert mtls http2
    pub built : lib.build_server_config cert mtls http2 ≡ some config

  abbrev pub AllBuilt : List (CacheKey × Config) → Type 0
  AllBuilt [] = Unit {0}
  AllBuilt ((key, config) ∷ entries) = IsBuilt key config × AllBuilt entries

  cached-IsBuilt :
      (key : CacheKey) (entries : List (CacheKey × Config)) (config : Config)
      → AllBuilt entries
      → cached key entries ≡ some config
      → IsBuilt key config
  unfolding cached
  cached-IsBuilt key [] config a h = absurd (ground arith)
  cached-IsBuilt key ((k, c) ∷ entries) config a h = elim (Bool-cases (eq_key k key)) [
    | inl e ↦
        let same : c ≡ config = ground arith in
        subst (λ x. IsBuilt key x) same (subst (λ x. IsBuilt x c) (eq_key_eq k key e) a.0)
    | inr e ↦ cached-IsBuilt key entries config a.1 (ground arith)
  ]

  retain-AllBuilt :
      (keep : CacheKey → Bool) (entries : List (CacheKey × Config))
      → AllBuilt entries
      → AllBuilt (retain keep entries)
  unfolding retain
  retain-AllBuilt keep [] a = tt
  retain-AllBuilt keep ((k, c) ∷ entries) a = elim (Bool-cases (keep k)) [
    | inl e ↦ rw e (a.0, retain-AllBuilt keep entries a.1)
    | inr e ↦ rw e (retain-AllBuilt keep entries a.1)
  ]

  pub clear_used-AllBuilt :
      (is_held : CacheKey → Bool) (c : TlsConfigCache Config)
      → AllBuilt c.cache
      → AllBuilt (clear_used is_held c).cache
  unfolding clear_used evict_unreferenced
  clear_used-AllBuilt is_held c a = retain-AllBuilt is_held c.cache a

  pub retain_used-AllBuilt :
      (is_held : CacheKey → Bool) (c : TlsConfigCache Config)
      → AllBuilt c.cache
      → AllBuilt (retain_used is_held c).cache
  unfolding retain_used
  retain_used-AllBuilt is_held c a = retain-AllBuilt (λ k. has_key k c.used || is_held k) c.cache a

  insert-AllBuilt :
      (is_held : CacheKey → Bool) (key : CacheKey) (config : Config) (c : TlsConfigCache Config)
      → IsBuilt key config
      → AllBuilt c.cache
      → AllBuilt (insert is_held key config c).cache
  unfolding insert evict_unreferenced
  insert-AllBuilt is_held key config c b a =
      let held = λ (k : CacheKey). eq_key k key || is_held k in
      elim (Bool-cases (ltb c.evict_at (suc (length c.cache)))) [
        | inl e ↦ rw (e, insert) (retain-AllBuilt held ((key, config) ∷ c.cache) (b, a))
        | inr e ↦ rw (e, insert) (b, a)
      ]

  -- What a request leaves in the cache, and what it is given.
  pub record IsAnswered (key : CacheKey)
      (result : Result SymphonyError Config × TlsConfigCache Config) : Type 0 where
    pub all_built : AllBuilt result.1.cache
    pub is_built : (config : Config) → result.0 ≡ ok config → IsBuilt key config

  marked-IsAnswered :
      (key : CacheKey) (r : Result SymphonyError Config × TlsConfigCache Config)
      → IsAnswered key r
      → IsAnswered key (marked lib key r)
  marked-IsAnswered key (ok config, c) a = record { all_built = a.all_built; is_built = a.is_built }
  marked-IsAnswered key (err e, c) a = record { all_built = a.all_built; is_built = a.is_built }

  module _ (is_held : CacheKey → Bool) (cert : CertSpec) (mtls : Option MtlsSpec) (http2 : Bool)
      (c : TlsConfigCache Config) (a : AllBuilt c.cache) where
    lookup_or_build-IsAnswered :
        IsAnswered (cache_key lib cert mtls http2) (lookup_or_build lib is_held cert mtls http2 c)
    unfolding lookup_or_build
    lookup_or_build-IsAnswered =
        let key = cache_key lib cert mtls http2 in
        elim (Option-cases (cached key c.cache)) [
          | inr (config, e) ↦
              rw (e, lookup_or_build)
                (record {
                  all_built = a;
                  is_built = λ x same.
                      let eq : config ≡ x = ground arith in
                      subst (λ y. IsBuilt key y) eq (cached-IsBuilt key c.cache config a e);
                })
          | inl e ↦ elim (Option-cases (lib.build_server_config cert mtls http2)) [
            | inl k ↦
                rw (e, k, lookup_or_build)
                  (record { all_built = a; is_built = λ x same. absurd (ground arith) })
            | inr (config, k) ↦
                let made : IsBuilt key config = record {
                  cert = cert;
                  mtls = mtls;
                  http2 = http2;
                  keyed = refl;
                  built = k;
                } in
                rw (e, k, lookup_or_build)
                  (record {
                    all_built = insert-AllBuilt is_held key config c made a;
                    is_built = λ x same.
                        let eq : config ≡ x = ground arith in subst (λ y. IsBuilt key y) eq made;
                  })
          ]
        ]

    pub get_or_build-IsAnswered :
        IsAnswered (cache_key lib cert mtls http2) (get_or_build lib is_held cert mtls http2 c)
    unfolding get_or_build
    get_or_build-IsAnswered =
        marked-IsAnswered (cache_key lib cert mtls http2)
          (lookup_or_build lib is_held cert mtls http2 c) lookup_or_build-IsAnswered

  pub mtls_key-inj :
      (m m' : Option MtlsSpec) → IsCollisionFree lib → mtls_key lib m ≡ mtls_key lib m' → m ≡ m'
  unfolding mtls_key
  mtls_key-inj none none f h = refl
  mtls_key-inj none (some m) f h = absurd (f.sha256-ne-zero _ (sym h))
  mtls_key-inj (some m) none f h = absurd (f.sha256-ne-zero _ h)
  mtls_key-inj (some m) (some m') f h =
      let same = append_last _ _ _ _ (f.sha256-inj _ _ h) in ground (arith, same)
