-- ===== src/Router/Slots.antt =====
-- src/router.rs: the upstreams of a spec by their protocol, and the slots of the local ones.
use symphony.Prelude.{
  Bytes, eq_bytes, if◌then◌else◌, ℕ, zero, suc, Bool, true, false, Option, none, some, List, [],
  ◌∷◌, ◌++◌,
}
use symphony.Balancer.Rebuild.{UdsSlotSpec}
use symphony.Router.Spec.{UpstreamSpec}

-- The tag of an HTTP/2 upstream.
abbrev pub h2_name : Bytes
h2_name = b'h' ∷ b'2' ∷ []

unfoldable pub is_h2 : UpstreamSpec → Bool
is_h2 (UpstreamSpec.tcp host port) = false
is_h2 (UpstreamSpec.uds paths pids tids aff ttl none) = false
is_h2 (UpstreamSpec.uds paths pids tids aff ttl (some p)) = eq_bytes p h2_name

unfoldable pub only : Bool → List UpstreamSpec → List UpstreamSpec
only true [] = []
only false [] = []
only true (u ∷ us) = let rest = only true us in if is_h2 u then u ∷ rest else rest
only false (u ∷ us) = let rest = only false us in if is_h2 u then rest else u ∷ rest

-- `pids.get(i).copied().flatten()`
abbrev pub flat_get : List (Option ℕ) → ℕ → Option ℕ
flat_get [] i = none
flat_get (x ∷ xs) zero = x
flat_get (x ∷ xs) (suc i) = flat_get xs i

unfoldable pub slots_from : ℕ → List Bytes → List (Option ℕ) → List (Option ℕ) → List UdsSlotSpec
slots_from i [] pids tids = []
slots_from i (path ∷ paths) pids tids =
    record { path = path; pid = flat_get pids i; tid = flat_get tids i }
    ∷ slots_from (suc i) paths pids tids

pub record Gathered : Type 0 where
  pub slots : List UdsSlotSpec
  pub ip_affinity : Bool
  pub affinity_ttl_ms : ℕ

-- The loop over the upstreams: all slots, the affinity of the last.
unfoldable pub gather : List UpstreamSpec → Gathered → Gathered
gather [] g = g
gather (UpstreamSpec.tcp host port ∷ us) g = gather us g
gather (UpstreamSpec.uds paths pids tids aff ttl protocol ∷ us) g = gather us (record {
  slots = g.slots ++ slots_from 0 paths pids tids;
  ip_affinity = aff;
  affinity_ttl_ms = ttl;
})

abbrev pub nothing_gathered : Gathered
nothing_gathered = record { slots = []; ip_affinity = false; affinity_ttl_ms = 300000 }
