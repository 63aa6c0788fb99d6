-- ===== src/Protection/Counting.antt =====
-- src/protection.rs: the counts of open connections, through checks, closes and evictions.
use symphony.Prelude.{
  length, get_elem?, set, ◌==◌, if◌then◌else◌, ==_iff, ℕ, zero, suc, ◌+◌, ◌≤◌, ◌<◌, ◌≡◌, refl, Bool,
  true, Option, none, some, List, [], ◌∷◌, ◌++◌, arith,
}
use symphony.Net.{IpAddr}
use symphony.TokenBucket.{Floats, u32_max}
use symphony.Protection.{
  new_state, ProtectionConfig, IpState, BlockReason, lookup, enter, punish, extend_penalty,
  punish_boxed, admit_unboxed, admit,
}
use symphony.Protection.Table.{cell_at, retain}
use symphony.Protection.Connections.{Guard, remove_at, count_at}

-- What a verdict adds to the count.
abbrev pub admitted : Option BlockReason → ℕ
admitted none = 1
admitted (some reason) = 0

module _ {F Network : Type 0} (fl : Floats F) where
  pub admit-active :
      (cfg : ProtectionConfig F Network) (now : ℕ) (state : IpState)
      → state.active < u32_max
      → let (blocked, state') = admit fl cfg now state in
        state'.active ≡ state.active + admitted blocked
  unfolding admit admit_unboxed enter punish punish_boxed extend_penalty
  admit-active cfg now state h = ground arith

-- Reading the state at a place after a write.
pub cell_at-set :
    (cells : List IpState) (at k : ℕ) (state : IpState)
    → at < length cells
    → cell_at (set cells at state) k ≡ (if at == k then state else cell_at cells k)
unfolding cell_at
cell_at-set [] at k state h = absurd (omega arith)
cell_at-set (c ∷ cells) zero zero state h = refl
cell_at-set (c ∷ cells) zero (suc k) state h = ground arith
cell_at-set (c ∷ cells) (suc at) zero state h = ground arith
cell_at-set (c ∷ cells) (suc at) (suc k) state h = ground (arith, cell_at-set cells at k state)

pub cell_at-set_self :
    (cells : List IpState) (at : ℕ) (state : IpState)
    → at < length cells
    → cell_at (set cells at state) at ≡ state
cell_at-set_self cells at state h = rw (cell_at-set cells at at state h, (==_iff at at).1 refl)

pub cell_at-append :
    (cells : List IpState) (k : ℕ) (state : IpState)
    → cell_at (cells ++ state ∷ []) k ≡ (if length cells == k then state else cell_at cells k)
unfolding cell_at
cell_at-append [] zero state = ground arith
cell_at-append [] (suc k) state = ground arith
cell_at-append (c ∷ cells) zero state = ground arith
cell_at-append (c ∷ cells) (suc k) state = ground (arith, cell_at-append cells k state)

pub cell_at-length : (cells : List IpState) → cell_at cells (length cells) ≡ new_state 0 0 0
unfolding cell_at
cell_at-length [] = refl
cell_at-length (c ∷ cells) = cell_at-length cells

-- An entry that eviction keeps is still found.
pub lookup-retain :
    (keep : ℕ → Bool) (ip : IpAddr) (at : ℕ) (table : List (IpAddr × ℕ))
    → lookup ip table ≡ some at
    → keep at ≡ true
    → lookup ip (retain keep table) ≡ some at
unfolding lookup retain
lookup-retain keep ip at [] h k = h
lookup-retain keep ip at ((j, i) ∷ table) h k = ground (arith, lookup-retain keep ip at table)

pub count_at-remove_at :
    (guards : List Guard) (i at k : ℕ) (ip : IpAddr)
    → get_elem? guards i ≡ some (ip, at)
    → count_at k guards ≡ (if at == k then 1 else 0) + count_at k (remove_at i guards)
count_at-remove_at [] i at k ip h = ground arith
count_at-remove_at ((jp, j) ∷ guards) zero at k ip h = ground arith
count_at-remove_at ((jp, j) ∷ guards) (suc i) at k ip h =
    ground (arith, count_at-remove_at guards i at k ip)

pub count_at-le-length : (at : ℕ) (guards : List Guard) → count_at at guards ≤ length guards
count_at-le-length at [] = omega arith
count_at-le-length at ((ip, k) ∷ guards) = ground (arith, count_at-le-length at guards)
