-- ===== src/Protection/Concurrency.antt =====
-- src/protection.rs: the limit on the connections of one address, and why eviction cannot reset it.
use symphony.Prelude.{
  length, set, length-append, length-set, ◌==◌, ==_iff, Bool-cases, Option-cases, ℕ, zero, suc, ◌+◌,
  ◌≤◌, ◌<◌, ◌≡◌, refl, ap, ◌∙◌, inl, inr, Bool, true, Option, none, some, List, [], ◌∷◌, ◌++◌,
  arith,
}
use symphony.Net.{IpAddr}
use symphony.Protection.{ProtectionState, IpState, BlockReason, eq_ip_iff, lookup, new_state}
use symphony.Protection.Table.{cell_at, get_or_create_state, retain, decided}
use symphony.Protection.Connections.{Guard, World, remove_at, count_at, count_ip, note}
use symphony.Protection.Counting.{
  admitted, cell_at-set, cell_at-append, cell_at-length, lookup-retain,
}

-- Every open connection's address is in the table, at the place that the connection counts in.
abbrev pub AllHeld : List (IpAddr × ℕ) → List Guard → Type 0
AllHeld table [] = Unit {0}
AllHeld table ((ip, at) ∷ guards) = (lookup ip table ≡ some at) × AllHeld table guards

abbrev pub AllBelow : ℕ → List (IpAddr × ℕ) → Type 0
AllBelow n [] = Unit {0}
AllBelow n ((ip, at) ∷ table) = (at < n) × AllBelow n table

pub record Tracks {F Network : Type 0} (w : World F Network) : Type 0 where
  pub counted : (at : ℕ) → (cell_at w.state.cells at).active ≡ count_at at w.guards
  pub held : AllHeld w.state.ip_table w.guards
  pub in_range : AllBelow (length w.state.cells) w.state.ip_table

pub lookup-AllBelow :
    (n : ℕ) (ip : IpAddr) (at : ℕ) (table : List (IpAddr × ℕ))
    → AllBelow n table
    → lookup ip table ≡ some at
    → at < n
unfolding lookup
lookup-AllBelow n ip at [] b h = absurd (none-ne-some h)
  where
    none-ne-some : ◌≡◌ {A = Option ℕ} none (some at) → ⊥
    none-ne-some e = cc
lookup-AllBelow n ip at ((j, i) ∷ table) b h = ground (arith, lookup-AllBelow n ip at table)

AllBelow-mono : (m n : ℕ) (table : List (IpAddr × ℕ)) → m ≤ n → AllBelow m table → AllBelow n table
AllBelow-mono m n [] h b = tt
AllBelow-mono m n ((ip, at) ∷ table) h b = (omega arith, AllBelow-mono m n table h b.1)

pub AllBelow-retain :
    (n : ℕ) (keep : ℕ → Bool) (table : List (IpAddr × ℕ))
    → AllBelow n table
    → AllBelow n (retain keep table)
unfolding retain
AllBelow-retain n keep [] b = tt
AllBelow-retain n keep ((ip, at) ∷ table) b = ground (arith, AllBelow-retain n keep table b.1)

-- A new address in front hides no other one.
AllHeld-cons :
    (ip : IpAddr) (at : ℕ) (table : List (IpAddr × ℕ)) (guards : List Guard)
    → lookup ip table ≡ none
    → AllHeld table guards
    → AllHeld ((ip, at) ∷ table) guards
unfolding lookup
AllHeld-cons ip at table [] h a = tt
AllHeld-cons ip at table ((j, i) ∷ guards) h a =
    (ground (arith, eq_ip_iff ip j), AllHeld-cons ip at table guards h a.1)

pub AllHeld-remove_at :
    (i : ℕ) (table : List (IpAddr × ℕ)) (guards : List Guard)
    → AllHeld table guards
    → AllHeld table (remove_at i guards)
AllHeld-remove_at i table [] a = tt
AllHeld-remove_at zero table (g ∷ guards) a = a.1
AllHeld-remove_at (suc i) table (g ∷ guards) a = (a.0, AllHeld-remove_at i table guards a.1)

pub AllHeld-retain :
    (keep : ℕ → Bool) (table : List (IpAddr × ℕ)) (guards : List Guard)
    → ((at : ℕ) → 0 < count_at at guards → keep at ≡ true)
    → AllHeld table guards
    → AllHeld (retain keep table) guards
AllHeld-retain keep table [] k a = tt
AllHeld-retain keep table ((ip, at) ∷ guards) k a = (
  lookup-retain keep ip at table a.0 (k at (ground arith)),
  AllHeld-retain keep table guards (λ i h. k i (ground arith)) a.1,
)

-- The connections of an address all count in the one place that the table has for it.
pub count_ip-le-count_at :
    (ip : IpAddr) (at : ℕ) (table : List (IpAddr × ℕ)) (guards : List Guard)
    → lookup ip table ≡ some at
    → AllHeld table guards
    → count_ip ip guards ≤ count_at at guards
count_ip-le-count_at ip at table [] h a = omega arith
count_ip-le-count_at ip at table ((j, i) ∷ guards) h a =
    ground (arith, eq_ip_iff j ip, count_ip-le-count_at ip at table guards h a.1)

lookup-cons_self :
    (ip : IpAddr) (at : ℕ) (table : List (IpAddr × ℕ)) → lookup ip ((ip, at) ∷ table) ≡ some at
unfolding lookup
lookup-cons_self ip at table = rw ((eq_ip_iff ip ip).1 refl)

-- A new state starts with no connection, like the place that nothing was at.
appended-active :
    (cells : List IpState) (created : IpState) (guards : List Guard) (k : ℕ)
    → created.active ≡ 0
    → ((at : ℕ) → (cell_at cells at).active ≡ count_at at guards)
    → (cell_at (cells ++ created ∷ []) k).active ≡ count_at k guards
appended-active cells created guards k none_yet counted = elim (Bool-cases (length cells == k)) [
  | inl e ↦
      let here : length cells ≡ k = (==_iff (length cells) k).0 e in
      let empty : (cell_at cells (length cells)).active ≡ 0 =
        ap (λ (c : IpState). c.active) (cell_at-length cells) ∙ unfold new_state in refl in
      ground (arith, cell_at-append cells k created, counted (length cells), empty)
  | inr e ↦ ground (arith, cell_at-append cells k created, counted k)
]

module _ {F Network : Type 0} where
  abbrev pub world : ProtectionState F Network → List Guard → World F Network
  world s guards = record { state = s; guards = guards }

  -- The address gets a place, and the counts are not touched.
  pub record Placed (ip : IpAddr) (guards : List Guard) (r : ℕ × ProtectionState F Network)
      : Type 0 where
    pub tracks : Tracks (world r.1 guards)
    pub found : lookup ip r.1.ip_table ≡ some r.0
    pub below : r.0 < length r.1.cells

  pub get_or_create_state-Placed :
      (s : ProtectionState F Network) (guards : List Guard) (ip : IpAddr) (clock : ℕ)
      → Tracks (world s guards)
      → Placed ip guards (get_or_create_state s ip clock)
  unfolding get_or_create_state new_state
  get_or_create_state-Placed s guards ip clock t = elim (Option-cases (lookup ip s.ip_table)) [
    | inr (at, e) ↦
        rw (e, get_or_create_state)
          (record {
            tracks = t;
            found = e;
            below = lookup-AllBelow (length s.cells) ip at s.ip_table t.in_range e;
          })
    | inl e ↦
        rw (e, get_or_create_state)
          (record {
            tracks = record {
              counted = λ k. appended k;
              held = AllHeld-cons ip (length s.cells) s.ip_table guards e t.held;
              in_range = (
                longer,
                AllBelow-mono (length s.cells) _ s.ip_table (omega (arith, longer)) t.in_range,
              );
            };
            found = lookup-cons_self ip (length s.cells) s.ip_table;
            below = longer;
          })
  ]
    where
      created : IpState
      created = new_state s.config.burst_fp s.config.sustained_burst_fp clock

      longer : length s.cells < length (s.cells ++ created ∷ [])
      longer = omega (arith, length-append s.cells (created ∷ []))

      appended : (k : ℕ) → (cell_at (s.cells ++ created ∷ []) k).active ≡ count_at k guards
      appended k = appended-active s.cells created guards k refl t.counted

  -- The verdict on the state at a place is written back, and an open connection noted.
  pub settle-Tracks :
      (s : ProtectionState F Network) (guards : List Guard) (ip : IpAddr) (at : ℕ)
      (blocked : Option BlockReason) (state : IpState)
      → Placed ip guards (at, s)
      → state.active ≡ (cell_at s.cells at).active + admitted blocked
      → Tracks (note ip guards (decided at blocked, record s { cells = set s.cells at state }))
  unfolding note decided
  settle-Tracks s guards ip at none state p h = record {
    counted = λ k. ground (arith, cell_at-set s.cells at k state p.below, p.tracks.counted k);
    held = (p.found, p.tracks.held);
    in_range = rw (length-set s.cells at state) p.tracks.in_range;
  }
  settle-Tracks s guards ip at (some reason) state p h = record {
    counted = λ k. ground (arith, cell_at-set s.cells at k state p.below, p.tracks.counted k);
    held = p.tracks.held;
    in_range = rw (length-set s.cells at state) p.tracks.in_range;
  }
