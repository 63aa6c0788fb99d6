-- ===== src/Protection/Connections.antt =====
-- src/protection.rs: a listener's history. A connection that is allowed keeps its `Arc<IpState>`
-- until it closes; checks, closes, evictions and configuration changes come in any order.
use symphony.Prelude.{
  length, get_elem?, ◌==◌, if◌then◌else◌, ℕ, zero, suc, ◌+◌, ◌<◌, Bool, none, some, List, [], ◌∷◌,
}
use symphony.Sni.{PeekInfo}
use symphony.Net.{IpAddr, to_canonical}
use symphony.TokenBucket.{Floats, u32_max}
use symphony.Protection.{
  ProtectionConfig, ProtectionState, Decision, allow, allow_bypassed, block, eq_ip,
}
use symphony.Protection.Table.{check_at, evict_at, release_at, configure}

-- The address of an open connection, in its canonical form, and the place that it counts in.
abbrev pub Guard : Type 0
Guard = IpAddr × ℕ

module _ (F Network : Type 0) where
  pub record World : Type 0 where
    pub state : ProtectionState F Network
    pub guards : List Guard

  pub data Event : Type 0 where
    arrives : IpAddr → PeekInfo → ℕ → ℕ → Event
    closes : ℕ → Event
    evicts : ℕ → Event
    configures : ProtectionConfig F Network → Event

abbrev pub remove_at {ℓ} : {A : Type ℓ} → ℕ → List A → List A
remove_at i [] = []
remove_at zero (x ∷ xs) = xs
remove_at (suc i) (x ∷ xs) = x ∷ remove_at i xs

abbrev pub count_at : ℕ → List Guard → ℕ
count_at at [] = 0
count_at at ((ip, k) ∷ guards) = (if k == at then 1 else 0) + count_at at guards

-- The open connections of an address that are counted.
abbrev pub count_ip : IpAddr → List Guard → ℕ
count_ip ip [] = 0
count_ip ip ((k, at) ∷ guards) = (if eq_ip k ip then 1 else 0) + count_ip ip guards

module _ {F Network : Type 0} where
  unfoldable pub note : IpAddr → List Guard → Decision × ProtectionState F Network → World F Network
  note ip guards (allow at, s) = record { state = s; guards = (ip, at) ∷ guards }
  note ip guards (allow_bypassed, s) = record { state = s; guards = guards }
  note ip guards (block reason, s) = record { state = s; guards = guards }

module _ {F Network : Type 0} (fl : Floats F) (contains : Network → IpAddr → Bool) where
  unfoldable pub after : World F Network → Event F Network → World F Network
  unfolding note
  after w (arrives ip peek now clock) =
      note (to_canonical ip) w.guards (check_at fl contains w.state ip peek now clock)
  after w (closes i) = elim (get_elem? w.guards i) [
    | none ↦ w
    | some (ip, at) ↦ record { state = release_at w.state at; guards = remove_at i w.guards }
  ]
  after w (evicts now) = record w { state = evict_at fl w.state now }
  after w (configures cfg) = record w { state = configure w.state cfg }

  -- A new listener.
  abbrev pub fresh : ProtectionConfig F Network → World F Network
  fresh cfg = record { state = record { config = cfg; cells = []; ip_table = [] }; guards = [] }

  -- The worlds that a listener comes to. Fewer connections are open at any time than a `u32` counts.
  pub data Reach : World F Network → Type 0 where
    start : (cfg : ProtectionConfig F Network) → Reach (fresh cfg)
    next :
        {w : World F Network} (e : Event F Network)
        → Reach w
        → length w.guards < u32_max
        → Reach (after w e)
