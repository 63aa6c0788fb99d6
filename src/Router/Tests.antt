-- ===== src/Router/Tests.antt =====
-- src/router.rs: two reloads, and the theorems applied to them.
use symphony.Prelude.{ℕ, ◌≡◌, refl, ◌⊎◌, true, false, Option, none, some, [], ◌∷◌, arith}
use symphony.Tls
use symphony.Tls.{
  CacheKey, new_cache, retain_used, TlsConfigCache, zero_digest, has_key, cached, retain,
  evict_unreferenced, clear_used, mtls_key, cache_key, lookup_or_build, get_or_build,
}
use symphony.Tls.Cached.{IsCollisionFree}
use symphony.Router.{
  Route, RouteTable, strip_wildcard, has, insert, lookup, put, has_dot, wildcard_suffix_matches,
  first_match, matches_any, or_default, resolve_name, resolve_with, get_for_spec_sni,
  requires_http_protocol,
}
use symphony.Router.Spec.{
  IpNetwork, effective_mtls, client_auth_of, validate_route_protocol_declaration, canonical_network,
  parse_source_network, parse_all, parse_allowlist,
}
use symphony.Router.Build.{
  build_destination_for, build_h2, build_destinations, or_listener, build_tls, check_h2,
  requires_cert, assemble, build_from, build_route,
}
use symphony.Router.Slots.{is_h2, only}
use symphony.Router.Install.{
  eq_auth, tombstone, monitored, with_affinity, all_track, down_before, inherit_from,
  retracked_route, continued_identity, failover_of, complete, push_failover, put_route, install,
}
use symphony.Router.Table.{
  is_listed, is_overridden, failover_policy, is_auth, carry, settle, admit, step, build_all,
  build_route_table,
}
use symphony.Router.Admitted.{IsFaulty}
use symphony.Router.Resolved.{IsServedBy}
use symphony.Router.Reloads.{Reach, boot, commit, at_reload, reloaded, resolve_with-reloaded}
use symphony.Router.Samples.{
  tls, nothing_held, around, parse_ip, listener, name, spec_with, specs, rotating,
}

program : Unit {0}
unfolding strip_wildcard is_listed is_overridden has insert lookup put has_dot
    wildcard_suffix_matches first_match matches_any or_default resolve_name resolve_with
    get_for_spec_sni requires_http_protocol effective_mtls client_auth_of
    validate_route_protocol_declaration canonical_network parse_source_network parse_all
    parse_allowlist is_h2 only build_destination_for build_h2 build_destinations or_listener
    build_tls check_h2 requires_cert assemble build_from build_route eq_auth tombstone monitored
    with_affinity all_track down_before inherit_from retracked_route continued_identity failover_of
    complete push_failover put_route install failover_policy is_auth carry settle admit step
    build_all build_route_table has_key cached retain evict_unreferenced clear_used retain_used
    Tls.insert mtls_key cache_key lookup_or_build get_or_build
program = tt

tls-IsCollisionFree : IsCollisionFree tls
tls-IsCollisionFree = record {
  sha256-inj = λ a b h. ground arith;
  sha256-ne-zero = λ a h. ground arith;
}

abbrev first_table : RouteTable ℕ ℕ IpNetwork × TlsConfigCache ℕ
first_table = reloaded around parse_ip 1 nothing_held listener none specs 4 new_cache

first_table-Reach :
    Reach around parse_ip (some first_table.0) (retain_used nothing_held first_table.1)
first_table-Reach = commit 1 nothing_held nothing_held listener specs 4 boot

abbrev second_table : RouteTable ℕ ℕ IpNetwork × TlsConfigCache ℕ
second_table =
    reloaded around parse_ip 2 nothing_held listener (some first_table.0) rotating 12
      (retain_used nothing_held first_table.1)

resolve_with-reloaded_example :
    ((resolve_with second_table.0 (some name) true ≡ none)
      × IsFaulty
          (at_reload around parse_ip 2 nothing_held)
          parse_ip
          listener
          (some first_table.0)
          (spec_with name (0 ∷ [])))
    ⊎ ((r : Route ℕ ℕ IpNetwork) × (resolve_with second_table.0 (some name) true ≡ some r)
        × IsServedBy
            (at_reload around parse_ip 2 nothing_held)
            parse_ip
            listener
            (some first_table.0)
            (spec_with name (0 ∷ []))
            r)
unfolding program
resolve_with-reloaded_example =
    resolve_with-reloaded around parse_ip 2 nothing_held listener rotating 12 name
      (spec_with name (0 ∷ [])) true first_table-Reach tls-IsCollisionFree refl refl refl

-- The TLS configuration that a name leads to.
abbrev tls_at : Option (Route ℕ ℕ IpNetwork) → Option ℕ
tls_at none = none
tls_at (some r) = r.tls_config

-- The route is kept while its key does not fit.
rotating_keeps_the_route : tls_at (resolve_with second_table.0 (some name) true) ≡ some 2
unfolding program
rotating_keeps_the_route = refl

-- It is not kept where the client certificates asked for are others; nor does the default answer.
relaxed_is_refused :
    resolve_with
      (reloaded around parse_ip 2 nothing_held listener
        (some first_table.0)
        (spec_with [] (1 ∷ [])
          ∷ record (spec_with name (0 ∷ [])) { require_client_cert = false }
          ∷ [])
        12
        new_cache).0
      (some name)
      true
    ≡ none
unfolding program
relaxed_is_refused = refl
