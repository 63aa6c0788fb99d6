-- ===== src/Destination.antt =====
-- src/router.rs: where a route leads, and the load of what it leads to.
use symphony.Prelude.{ltb, if◌then◌else◌, ℕ, ◌/◌, ◌%◌, min, max, Option, none, some, List, [], ◌∷◌}
use symphony.Net.{SocketAddr}
use symphony.Balancer.{UdsBalancer}

pub data Destination : Type 0 where
  tcp : SocketAddr → Destination
  uds_set : UdsBalancer → Destination

-- src/thread_cpu.rs: `LoadEwma::get`, from the word that is published.
unfoldable pub get : ℕ → ℕ → Option (ℕ × ℕ)
get now packed =
    let until_ms = packed / 1024 in
    if ltb (now / 1000000) until_ms then some (packed % 1024, until_ms) else none

-- `published` leads from the place of a `LoadEwma` to its word.
unfoldable pub destination_load : (ℕ → ℕ) → ℕ → Destination → Option (ℕ × ℕ)
destination_load published now (tcp addr) = none
destination_load published now (uds_set balancer) = get now (published balancer.load)

abbrev pub busier : ℕ × ℕ → ℕ × ℕ → ℕ × ℕ
busier a b = (max a.0 b.0, min a.1 b.1)

unfoldable pub route_load : (ℕ → ℕ) → Destination → Option Destination → ℕ → Option (ℕ × ℕ)
route_load published destination destination_h2 now =
    elim (destination_load published now destination) [
      | none ↦ none
      | some load ↦ elim destination_h2 [
        | none ↦ some load
        | some h2 ↦ elim (destination_load published now h2) [
          | none ↦ none
          | some h2_load ↦ some (busier load h2_load)
        ]
      ]
    ]

abbrev pub all_of : Destination → Option Destination → List Destination
all_of destination none = destination ∷ []
all_of destination (some h2) = destination ∷ h2 ∷ []
