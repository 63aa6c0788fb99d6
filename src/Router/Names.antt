-- ===== src/Router/Names.antt =====
-- src/router.rs: what the table says of one exact name, and the specs that leave it alone.
use symphony.Prelude.{
  length, Bytes, eq_bytes, eq_bytes_iff, ◌==◌, Bool-cases, Option-cases, ℕ, ◌+◌, ◌≡◌, refl, ap, ◌∙◌,
  inl, inr, Bool, true, false, Option, none, some, List, [], ◌∷◌, arith,
}
use symphony.Net.{IpAddr}
use symphony.Tls.{TlsConfigCache}
use symphony.Router.{Route, RouteTable, ClientAuth, has, insert, lookup, put, strip_wildcard}
use symphony.Router.Spec.{RouteSpec, ListenerTlsSpec, IpNetwork}
use symphony.Router.Build.{Outside}
use symphony.Router.Install.{tombstone, put_route, install, reject}
use symphony.Router.Table.{Building, is_listed, is_overridden, admit, step, build_all}
use symphony.Router.Admitted.{Untouched, rejected, installed, admit-Settled}

eq_bytes_self : (a : Bytes) → eq_bytes a a ≡ true
eq_bytes_self a = ground (arith, eq_bytes_iff a a)

pub lookup-put_self {ℓ} :
    {A : Type ℓ} (name : Bytes) (a : A) (pairs : List (Bytes × A))
    → lookup name (put name a pairs) ≡ some a
unfolding lookup put
lookup-put_self name a [] = rw (eq_bytes_self name)
lookup-put_self name a ((n, b) ∷ pairs) = ground (arith, lookup-put_self name a pairs)

pub lookup-put_other {ℓ} :
    {A : Type ℓ} (name n : Bytes) (a : A) (pairs : List (Bytes × A))
    → eq_bytes name n ≡ false
    → lookup n (put name a pairs) ≡ lookup n pairs
unfolding lookup put
lookup-put_other name n a [] h = rw h
lookup-put_other name n a ((m, b) ∷ pairs) h =
    ground (arith, lookup-put_other name n a pairs, eq_bytes_iff m name, eq_bytes_iff m n)

pub has-insert_self : (name : Bytes) (names : List Bytes) → has name (insert name names) ≡ true
unfolding has insert
has-insert_self name names = ground (arith, eq_bytes_self name)

pub has-insert_other :
    (name n : Bytes) (names : List Bytes)
    → eq_bytes name n ≡ false
    → has n (insert name names) ≡ has n names
unfolding has insert
has-insert_other name n names h = ground arith

module _ {F Config : Type 0} where
  -- The route for a name, whether the name is refused, and the policy of its clients.
  abbrev pub entry :
      Bytes
      → RouteTable F Config IpNetwork
      → Option (Route F Config IpNetwork) × Bool × Option ClientAuth
  entry n t = (lookup n t.exact, has n t.dropped_exact, lookup n t.client_auth)

  pub entry-Untouched :
      (n : Bytes) (t u : RouteTable F Config IpNetwork) → Untouched t u → entry n u ≡ entry n t
  entry-Untouched n t u h = rw (h.exact, h.dropped_exact, h.client_auth)

  entry-reject :
      (n sni : Bytes) (t : RouteTable F Config IpNetwork)
      → eq_bytes sni n ≡ false
      → entry n (reject sni t) ≡ entry n t
  unfolding tombstone
  entry-reject n sni t h = elim (Option-cases (strip_wildcard sni)) [
    | inl e ↦ rw (e, tombstone, has-insert_other sni n t.dropped_exact h)
    | inr (suffix, e) ↦ rw (e, tombstone)
  ]

  entry-install :
      (n sni : Bytes) (auth : ClientAuth) (r : Route F Config IpNetwork)
      (t : RouteTable F Config IpNetwork)
      → eq_bytes sni n ≡ false
      → entry n (install sni auth r t) ≡ entry n t
  unfolding install put_route
  entry-install n sni auth r t h = elim (Option-cases (strip_wildcard sni)) [
    | inr (suffix, e) ↦ rw (e, install, put_route, lookup-put_other sni n auth t.client_auth h)
    | inl e ↦ elim (Bool-cases (length sni == 0)) [
      | inl z ↦ rw (e, z, install, put_route, lookup-put_other sni n auth t.client_auth h)
      | inr z ↦ rw (
        e,
        z,
        install,
        put_route,
        lookup-put_other sni n auth t.client_auth h,
        lookup-put_other sni n r t.exact h,
      )
    ]
  ]

module _ {F Config : Type 0} (sni : Bytes) (exact : strip_wildcard sni ≡ none) where
  pub entry-reject_self :
      (t : RouteTable F Config IpNetwork)
      → entry sni (reject sni t) ≡ (lookup sni t.exact, true, lookup sni t.client_auth)
  unfolding tombstone
  entry-reject_self t = rw (exact, tombstone, has-insert_self sni t.dropped_exact)

  pub entry-install_self :
      (auth : ClientAuth) (r : Route F Config IpNetwork) (t : RouteTable F Config IpNetwork)
      → (length sni == 0) ≡ false
      → entry sni (install sni auth r t) ≡ (some r, has sni t.dropped_exact, some auth)
  unfolding install put_route
  entry-install_self auth r t named = rw (
    exact,
    named,
    install,
    put_route,
    lookup-put_self sni auth t.client_auth,
    lookup-put_self sni r t.exact,
  )

module _ {F Config : Type 0} (out : Outside F Config) (parse_ip : Bytes → Option IpAddr)
    (listener : ListenerTlsSpec) (previous : Option (RouteTable F Config IpNetwork))
    (n : Bytes) where
  entry-admit :
      (spec : RouteSpec F) (base : ℕ) (t : RouteTable F Config IpNetwork)
      (c : TlsConfigCache Config)
      → eq_bytes spec.sni n ≡ false
      → entry n (admit out parse_ip listener previous spec base t c).0 ≡ entry n t
  entry-admit spec base t c h = elim (admit-Settled out parse_ip listener previous spec base t c) [
    | rejected u same why e ↦
        ap (entry n) e ∙ entry-reject n spec.sni u h ∙ entry-Untouched n t u same
    | installed u r allowed policy same d p f o e ↦
        ap (entry n) e ∙ entry-install n spec.sni _ _ u h ∙ entry-Untouched n t u same
  ]

  pub entry-step :
      (spec : RouteSpec F) (later : List (RouteSpec F)) (base : ℕ) (b : Building F Config)
      → eq_bytes spec.sni n ≡ false
      → entry n (step out parse_ip listener previous spec later base b).table ≡ entry n b.table
  unfolding step
  entry-step spec later base b h = elim (Bool-cases (is_overridden spec later)) [
    | inl o ↦ rw (o, step)
    | inr o ↦ elim (Option-cases (strip_wildcard spec.sni)) [
      | inl e ↦ rw (o, e, step) (entry-admit spec base b.table b.cache h)
      | inr (suffix, e) ↦ elim (Bool-cases (has suffix b.configured_wildcards)) [
        | inl k ↦ rw (o, e, k, step)
        | inr k ↦ rw (o, e, k, step) (entry-admit spec base b.table b.cache h)
      ]
    ]
  ]

  -- Specs of other names leave a name alone.
  pub entry-build_all :
      (specs : List (RouteSpec F)) (base : ℕ) (b : Building F Config)
      → is_listed n specs ≡ false
      → entry n (build_all out parse_ip listener previous specs base b).table ≡ entry n b.table
  unfolding build_all is_listed
  entry-build_all [] base b h = refl
  entry-build_all (spec ∷ specs) base b h =
      entry-build_all specs (base + 4) (step out parse_ip listener previous spec specs base b)
        (ground arith)
      ∙ entry-step spec specs base b (ground arith)
