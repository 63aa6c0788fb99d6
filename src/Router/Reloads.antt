-- ===== src/Router/Reloads.antt =====
-- src/router.rs: the tables of a listener, one reload after the other.
use symphony.Prelude.{
  length, Bytes, ◌==◌, Bool-cases, ℕ, ◌≡◌, sym, ap, ◌∙◌, subst, ◌⊎◌, inl, inr, Bool, true, false,
  Option, none, some, List, [], ◌∷◌, arith,
}
use symphony.Net.{IpAddr}
use symphony.Tls.{CacheKey, TlsConfigCache, new_cache, clear_used, retain_used}
use symphony.Tls.Cached.{IsCollisionFree, AllBuilt, clear_used-AllBuilt, retain_used-AllBuilt}
use symphony.Router.{Route, RouteTable, strip_wildcard, lookup, get_for_spec_sni, resolve_with}
use symphony.Router.Spec.{RouteSpec, ListenerTlsSpec, IpNetwork}
use symphony.Router.Build.{Outside}
use symphony.Router.Table.{Building, is_listed, empty_table, build_route_table}
use symphony.Router.Admitted.{IsFaulty, requested_auth}
use symphony.Router.Names.{entry-build_all}
use symphony.Router.Caching.{build_all-AllBuilt}
use symphony.Router.Deciding.{deciding, refused, served}
use symphony.Router.Enforced.{Enforces, EnforcedBefore, Follows-Enforces}
use symphony.Router.Resolved.{
  IsServedBy, built_table, deciding-sni, build_route_table-Decided, resolve_with-configured,
}

deciding-listed :
    {F : Type 0} (n : Bytes) (specs : List (RouteSpec F))
    → is_listed n specs ≡ true
    → (spec : RouteSpec F) × (deciding n specs ≡ some spec)
unfolding is_listed
deciding-listed n [] h = absurd (ground arith)
deciding-listed n (one ∷ specs) h = elim (Bool-cases (is_listed n specs)) [
  | inl k ↦ let (spec, e) = deciding-listed n specs k in (spec, rw k e)
  | inr k ↦ (one, ground arith)
]

module _ {F Config : Type 0} (out : Outside F Config) (parse_ip : Bytes → Option IpAddr)
    (listener : ListenerTlsSpec) (previous : Option (RouteTable F Config IpNetwork)) where
  get_for_spec_sni-exact :
      (n : Bytes) (t : RouteTable F Config IpNetwork)
      → strip_wildcard n ≡ none
      → (length n == 0) ≡ false
      → get_for_spec_sni t n ≡ lookup n t.exact
  unfolding get_for_spec_sni
  get_for_spec_sni-exact n t exact named = rw (exact, named, get_for_spec_sni)

  abbrev start_of : TlsConfigCache Config → Building F Config
  start_of c = record {
    table = empty_table out parse_ip listener previous;
    configured_wildcards = [];
    cache = clear_used out.is_held c;
  }

  -- The new table enforces the policy that it gives for a name, if the one before did.
  build_route_table-EnforcedBefore :
      (n : Bytes) (specs : List (RouteSpec F)) (base : ℕ) (c : TlsConfigCache Config)
      → strip_wildcard n ≡ none
      → (length n == 0) ≡ false
      → IsCollisionFree out.tls
      → AllBuilt out.tls c.cache
      → EnforcedBefore out parse_ip listener previous n
      → EnforcedBefore out parse_ip listener
          (some (built_table out parse_ip listener previous specs base c))
          n
  unfolding build_route_table lookup
  build_route_table-EnforcedBefore n specs base c exact named free a before auth p known found =
      let t = built_table out parse_ip listener previous specs base c in
      let held = sym (get_for_spec_sni-exact n t exact named) ∙ found in
      elim (Bool-cases (is_listed n specs)) [
        | inr h ↦
            let none_yet =
              ap (λ x. x.0)
                (entry-build_all out parse_ip listener previous n specs base (start_of c) h) in
            absurd (ground arith)
        | inl h ↦
            let (spec, e) = deciding-listed n specs h in
            elim (build_route_table-Decided out parse_ip listener previous n specs base c spec exact
              named a e) [
                | refused absent dropped why ↦ absurd (ground arith)
                | served r r_found r_auth follows ↦
                    let same_route : r ≡ p = ground arith in
                    let same_auth : requested_auth out parse_ip listener previous spec ≡ auth =
                      ground arith in
                    let at_name =
                      subst (EnforcedBefore out parse_ip listener previous)
                        (sym (deciding-sni out parse_ip listener previous n specs spec e)) before in
                    subst (λ x. Enforces out.tls x p) same_auth
                      (subst
                        (λ x.
                          Enforces out.tls (requested_auth out parse_ip listener previous spec) x)
                        same_route
                        (Follows-Enforces out parse_ip listener previous spec r free at_name
                          follows))
              ]
      ]

  build_route_table-AllBuilt :
      (specs : List (RouteSpec F)) (base : ℕ) (c : TlsConfigCache Config)
      → AllBuilt out.tls c.cache
      → AllBuilt out.tls (build_route_table out parse_ip listener previous specs base c).1.cache
  unfolding build_route_table
  build_route_table-AllBuilt specs base c a =
      build_all-AllBuilt out parse_ip listener previous specs base (start_of c)
        (clear_used-AllBuilt out.tls out.is_held c a)

module _ {F Config : Type 0} (out : Outside F Config) (parse_ip : Bytes → Option IpAddr) where
  -- The program's surroundings at one reload: the clock, and what is held besides the cache.
  abbrev pub at_reload : ℕ → (CacheKey → Bool) → Outside F Config
  at_reload now is_held = record out { now_ns = now; is_held = is_held }

  abbrev pub reloaded :
      ℕ
      → (CacheKey → Bool)
      → ListenerTlsSpec
      → Option (RouteTable F Config IpNetwork)
      → List (RouteSpec F)
      → ℕ
      → TlsConfigCache Config
      → RouteTable F Config IpNetwork × TlsConfigCache Config
  reloaded now is_held listener previous specs base c =
      build_route_table (at_reload now is_held) parse_ip listener previous specs base c

  -- The tables and caches that any reloads lead to, each of which is committed, with the sweep of the
  -- cache, or abandoned.
  pub data Reach : Option (RouteTable F Config IpNetwork) → TlsConfigCache Config → Type 0 where
    boot : Reach none new_cache
    commit :
        {p : Option (RouteTable F Config IpNetwork)} {c : TlsConfigCache Config} (now : ℕ)
        (is_held held_then : CacheKey → Bool) (listener : ListenerTlsSpec)
        (specs : List (RouteSpec F)) (base : ℕ)
        → Reach p c
        → Reach
            (some (reloaded now is_held listener p specs base c).0)
            (retain_used held_then (reloaded now is_held listener p specs base c).1)
    abandon :
        {p : Option (RouteTable F Config IpNetwork)} {c : TlsConfigCache Config} (now : ℕ)
        (is_held : CacheKey → Bool) (listener : ListenerTlsSpec) (specs : List (RouteSpec F))
        (base : ℕ)
        → Reach p c
        → Reach p (reloaded now is_held listener p specs base c).1

  Reach-AllBuilt :
      {p : Option (RouteTable F Config IpNetwork)} {c : TlsConfigCache Config}
      → Reach p c
      → AllBuilt out.tls c.cache
  Reach-AllBuilt boot = tt
  Reach-AllBuilt (commit {p} {c} now is_held held_then listener specs base r) =
      retain_used-AllBuilt out.tls held_then (reloaded now is_held listener p specs base c).1 (
        build_route_table-AllBuilt (at_reload now is_held) parse_ip listener p specs base c
          (Reach-AllBuilt r))
  Reach-AllBuilt (abandon {p} {c} now is_held listener specs base r) =
      build_route_table-AllBuilt (at_reload now is_held) parse_ip listener p specs base c
        (Reach-AllBuilt r)

  module _ (n : Bytes) (exact : strip_wildcard n ≡ none) (named : (length n == 0) ≡ false)
      (free : IsCollisionFree out.tls) where
    Reach-EnforcedBefore :
        {p : Option (RouteTable F Config IpNetwork)} {c : TlsConfigCache Config}
        (listener : ListenerTlsSpec)
        → Reach p c
        → EnforcedBefore out parse_ip listener p n
    Reach-EnforcedBefore listener boot = λ auth p known found. absurd (ground arith)
    Reach-EnforcedBefore listener (commit {p} {c} now is_held held_then l specs base r) =
        build_route_table-EnforcedBefore (at_reload now is_held) parse_ip l p n specs base c exact
          named free (Reach-AllBuilt r) (Reach-EnforcedBefore l r)
    Reach-EnforcedBefore listener (abandon now is_held l specs base r) =
        Reach-EnforcedBefore listener r

  -- After any reloads, committed or abandoned: a host name that the new configuration names is answered
  -- by the route of the last spec for it, which admits the sources that the spec lists, has the
  -- failover that it asks for, with its peers in their order, its drain, its times and its spill-over,
  -- none where it asks for none or a faulty one and no spill-over likewise, and enforces the client certificates it asks for, also when the route of
  -- the table before had to be kept; or else by no route at all, never by a wildcard or the default,
  -- and only if the spec is faulty. No two texts are taken to have one digest.
  pub resolve_with-reloaded :
      {p : Option (RouteTable F Config IpNetwork)} {c : TlsConfigCache Config} (now : ℕ)
      (is_held : CacheKey → Bool) (listener : ListenerTlsSpec) (specs : List (RouteSpec F))
      (base : ℕ) (n : Bytes) (spec : RouteSpec F) (allow_default : Bool)
      → Reach p c
      → IsCollisionFree out.tls
      → strip_wildcard n ≡ none
      → (length n == 0) ≡ false
      → deciding n specs ≡ some spec
      → ((resolve_with (reloaded now is_held listener p specs base c).0 (some n) allow_default
            ≡ none)
          × IsFaulty (at_reload now is_held) parse_ip listener p spec)
        ⊎ ((r : Route F Config IpNetwork) × (resolve_with
                (reloaded now is_held listener p specs base c).0
                (some n)
                allow_default
              ≡ some r)
            × IsServedBy (at_reload now is_held) parse_ip listener p spec r)
  resolve_with-reloaded {p} {c} now is_held listener specs base n spec allow_default reach free
        exact named h =
      resolve_with-configured (at_reload now is_held) parse_ip listener p n specs base c spec
        allow_default exact named h free (Reach-AllBuilt reach)
        (Reach-EnforcedBefore n exact named free listener reach)
