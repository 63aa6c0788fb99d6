-- ===== src/Suspended.antt =====
-- src/suspended.rs: the connections that wait for their route. A `oneshot` channel is its two ends:
-- the registry holds the sender, the connection the receiver, which a resolution fills once. What is
-- sent is a parameter, and `none` closes the connection.
pub mod Answers
pub mod Resolution
mod Tests
use symphony.Prelude.{◌==◌, if◌then◌else◌, ℕ, ◌+◌, ◌%◌, Bool, true, false, ◌||◌, List, [], ◌∷◌}

pub record SuspendedRegistry : Type 0 where
  pub pending : List ℕ
  pub counter : ℕ

abbrev pub new_registry : SuspendedRegistry
new_registry = record { pending = []; counter = 1 }

unfoldable pub contains : List ℕ → ℕ → Bool
contains [] id = false
contains (k ∷ ids) id = k == id || contains ids id

-- `DashMap::remove`
unfoldable pub without : ℕ → List ℕ → List ℕ
without id [] = []
without id (k ∷ ids) = let rest = without id ids in if k == id then rest else k ∷ rest

-- The id is drawn and its sender put in.
unfoldable pub register : SuspendedRegistry → ℕ × SuspendedRegistry
register r = (
  r.counter,
  record {
    pending = r.counter ∷ without r.counter r.pending;
    counter = (r.counter + 1) % 18446744073709551616;
  },
)

unfoldable pub remove : ℕ → SuspendedRegistry → SuspendedRegistry
remove id r = record r { pending = without id r.pending }

-- Whether there was a sender for the id; it is used up.
unfoldable pub resolve : ℕ → SuspendedRegistry → Bool × SuspendedRegistry
resolve id r =
    if contains r.pending id
    then (true, record r { pending = without id r.pending })
    else (false, r)
