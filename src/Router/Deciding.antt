-- ===== src/Router/Deciding.antt =====
-- src/router.rs: the spec that decides an exact name, and what the table says of the name.
use symphony.Prelude.{
  length, Bytes, eq_bytes, eq_bytes_iff, ok, ◌==◌, if◌then◌else◌, Bool-cases, ℕ, ◌+◌, ◌≡◌, refl,
  sym, ap, ◌∙◌, subst, inl, inr, Bool, true, false, Option, none, some, List, [], ◌∷◌, arith,
}
use symphony.Net.{IpAddr}
use symphony.Failover.Policy.{FailoverPolicy}
use symphony.Tls.{TlsConfigCache}
use symphony.Tls.Cached.{AllBuilt}
use symphony.Router.{Route, RouteTable, ClientAuth, lookup, strip_wildcard}
use symphony.Router.Spec.{
  RouteSpec, ListenerTlsSpec, IpNetwork, validate_route_protocol_declaration, parse_allowlist,
}
use symphony.Router.Build.{Outside}
use symphony.Router.Install.{complete}
use symphony.Router.Table.{
  Building, is_listed, is_overridden, previous_route, admit, step, build_all,
}
use symphony.Router.Asked.{IsAsked}
use symphony.Router.Planned.{policy_plan}
use symphony.Router.Admitted.{IsFaulty, Origin, rejected, installed, requested_auth, admit-Settled}
use symphony.Router.Names.{
  entry, entry-reject_self, entry-install_self, entry-step, entry-build_all,
}
use symphony.Router.Caching.{step-AllBuilt}

-- The last spec of a name.
abbrev pub deciding : {F : Type 0} → Bytes → List (RouteSpec F) → Option (RouteSpec F)
deciding n [] = none
deciding n (spec ∷ specs) =
    if is_listed n specs then deciding n specs else if eq_bytes spec.sni n then some spec else none

module _ {F Config : Type 0} (out : Outside F Config) (parse_ip : Bytes → Option IpAddr)
    (listener : ListenerTlsSpec) (previous : Option (RouteTable F Config IpNetwork)) where
  pub record Follows (spec : RouteSpec F) (r : Route F Config IpNetwork) : Type 0 where
    pub base_route : Route F Config IpNetwork
    pub allowed : Option (List IpNetwork)
    pub policy : Option (FailoverPolicy F)
    pub cache : TlsConfigCache Config
    pub all_built : AllBuilt out.tls cache.cache
    pub declared : validate_route_protocol_declaration spec ≡ none
    pub parsed : parse_allowlist out.parse_network spec.allowed_sources ≡ ok allowed
    pub from : IsAsked out.floats parse_ip spec (policy_plan policy)
    pub origin : Origin out parse_ip listener previous spec policy cache base_route
    pub made : r ≡ complete out spec allowed policy (previous_route previous spec.sni) base_route

  -- A name is refused, or its route follows the spec.
  pub data Decided (spec : RouteSpec F)
      (e : Option (Route F Config IpNetwork) × Bool × Option ClientAuth) : Type 0 where
    refused :
        e.0 ≡ none → e.1 ≡ true → IsFaulty out parse_ip listener previous spec → Decided spec e
    served :
        (r : Route F Config IpNetwork)
        → e.0 ≡ some r
        → e.2 ≡ some (requested_auth out parse_ip listener previous spec)
        → Follows spec r
        → Decided spec e

  admit-Decided :
      (spec : RouteSpec F) (base : ℕ) (t : RouteTable F Config IpNetwork)
      (c : TlsConfigCache Config)
      → strip_wildcard spec.sni ≡ none
      → (length spec.sni == 0) ≡ false
      → lookup spec.sni t.exact ≡ none
      → AllBuilt out.tls c.cache
      → Decided spec (entry spec.sni (admit out parse_ip listener previous spec base t c).0)
  admit-Decided spec base t c exact named absent a =
      elim (admit-Settled out parse_ip listener previous spec base t c) [
        | rejected u h why e ↦
            let now = ap (entry spec.sni) e ∙ entry-reject_self spec.sni exact u in
            refused (ap (λ x. x.0) now ∙ ap (lookup spec.sni) h.exact ∙ absent) (ap (λ x. x.1) now)
              why
        | installed u r allowed policy h d p f o e ↦
            let now = ap (entry spec.sni) e ∙ entry-install_self spec.sni exact _ _ u named in
            served _ (ap (λ x. x.0) now) (ap (λ x. x.2) now) (record {
              base_route = r;
              allowed = allowed;
              policy = policy;
              cache = c;
              all_built = a;
              declared = d;
              parsed = p;
              from = f;
              origin = o;
              made = refl;
            })
      ]

  module _ (n : Bytes) (exact : strip_wildcard n ≡ none) (named : (length n == 0) ≡ false) where
    step-Decided :
        (spec : RouteSpec F) (later : List (RouteSpec F)) (base : ℕ) (b : Building F Config)
        → eq_bytes spec.sni n ≡ true
        → is_listed n later ≡ false
        → lookup n b.table.exact ≡ none
        → AllBuilt out.tls b.cache.cache
        → Decided spec (entry n (step out parse_ip listener previous spec later base b).table)
    unfolding step is_overridden
    step-Decided spec later base b e last absent a =
        let same : spec.sni ≡ n = (eq_bytes_iff spec.sni n).0 e in
        subst
          (λ x.
            Decided spec (entry x (step out parse_ip listener previous spec later base b).table))
          same
          (rw
            (
              subst (λ x. strip_wildcard x ≡ none) (sym same) exact,
              step,
              is_overridden,
              subst (λ x. is_listed x later ≡ false) (sym same) last,
            )
            (admit-Decided spec base b.table b.cache
              (subst (λ x. strip_wildcard x ≡ none) (sym same) exact)
              (subst (λ x. (length x == 0) ≡ false) (sym same) named)
              (subst (λ x. lookup x b.table.exact ≡ none) (sym same) absent) a))

    step-overridden :
        (spec : RouteSpec F) (later : List (RouteSpec F)) (base : ℕ) (b : Building F Config)
        → is_listed n later ≡ true
        → entry n (step out parse_ip listener previous spec later base b).table ≡ entry n b.table
    unfolding step is_overridden
    step-overridden spec later base b listed = elim (Bool-cases (eq_bytes spec.sni n)) [
      | inr e ↦ entry-step out parse_ip listener previous n spec later base b e
      | inl e ↦
          let same : n ≡ spec.sni = sym ((eq_bytes_iff spec.sni n).0 e) in
          rw (
            subst (λ x. strip_wildcard x ≡ none) same exact,
            step,
            is_overridden,
            subst (λ x. is_listed x later ≡ true) same listed,
          )
    ]

    pub build_all-Decided :
        (specs : List (RouteSpec F)) (base : ℕ) (b : Building F Config) (spec : RouteSpec F)
        → lookup n b.table.exact ≡ none
        → AllBuilt out.tls b.cache.cache
        → deciding n specs ≡ some spec
        → Decided spec (entry n (build_all out parse_ip listener previous specs base b).table)
    unfolding build_all
    build_all-Decided [] base b spec absent a h = absurd (ground arith)
    build_all-Decided (one ∷ specs) base b spec absent a h =
        let b' = step out parse_ip listener previous one specs base b in
        elim (Bool-cases (is_listed n specs)) [
          | inl listed ↦
              build_all-Decided specs (base + 4) b' spec
                (ap (λ x. x.0) (step-overridden one specs base b listed) ∙ absent)
                (step-AllBuilt out parse_ip listener previous one specs base b a) (rw listed at h)
          | inr last ↦ elim (Bool-cases (eq_bytes one.sni n)) [
            | inr e ↦ absurd (ground arith)
            | inl e ↦
                let same : one ≡ spec = ground arith in
                subst
                  (λ x.
                    Decided x (
                      entry n
                        (build_all out parse_ip listener previous (one ∷ specs) base b).table))
                  same
                  (rw (entry-build_all out parse_ip listener previous n specs (base + 4) b' last)
                    (step-Decided one specs base b e last absent a))
          ]
        ]
