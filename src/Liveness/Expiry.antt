-- ===== src/Liveness/Expiry.antt =====
-- src/liveness.rs: when a half-closed connection is given up.
use symphony.Prelude.{
  leb, Bool-cases, ℕ, zero, suc, ◌+◌, ◌-◌, ◌≤◌, ◌<◌, max, ◌≡◌, sym, subst, inl, inr, true, false,
  Option, some, arith,
}
use symphony.Liveness.{quiet_until, expired}

-- The wait ends at a time when the window has passed since the activity.
abbrev pub EndsBy : ℕ → (ℕ → ℕ) → ℕ → Option ℕ → Type 0
EndsBy window activity latest end =
    (t : ℕ) × (end ≡ some t) × (activity t + window ≤ t) × (t ≤ latest)

EndsBy-mono :
    (window : ℕ) (activity : ℕ → ℕ) (m n : ℕ) (end : Option ℕ)
    → m ≤ n
    → EndsBy window activity m end
    → EndsBy window activity n end
EndsBy-mono window activity m n end h (t, same, quiet, latest) = (t, same, quiet, omega arith)

quiet_until-sleeps :
    (window : ℕ) (wake activity : ℕ → ℕ) (fuel now : ℕ)
    → leb window (now - activity now) ≡ false
    → quiet_until window wake activity (suc fuel) now
      ≡ quiet_until window wake activity fuel (wake (now + (window - (now - activity now))))
unfolding quiet_until
quiet_until-sleeps window wake activity fuel now e = ground arith

quiet_until-over :
    (window : ℕ) (wake activity : ℕ → ℕ) (fuel now : ℕ)
    → leb window (now - activity now) ≡ true
    → quiet_until window wake activity fuel now ≡ some now
unfolding quiet_until
quiet_until-over window wake activity zero now e = ground arith
quiet_until-over window wake activity (suc fuel) now e = ground arith

-- Each round that sleeps brings the clock to at least the window after the activity that it has read.
quiet_until-EndsBy :
    (window slack latest : ℕ) (wake activity : ℕ → ℕ) (fuel now : ℕ)
    → ((d : ℕ) → (d ≤ wake d) × (wake d ≤ d + slack))
    → ((t : ℕ) → (activity t ≤ t) × (activity t ≤ latest))
    → latest + window ≤ now + fuel
    → EndsBy window activity
        (max now (latest + window + slack))
        (quiet_until window wake activity fuel now)
quiet_until-EndsBy window slack latest wake activity zero now timer recorded enough =
    let known = recorded now in
    let over : leb window (now - activity now) ≡ true = ground arith in
    (now, quiet_until-over window wake activity 0 now over, omega arith, omega arith)
quiet_until-EndsBy window slack latest wake activity (suc fuel) now timer recorded enough =
    let known = recorded now in
    let due = now + (window - (now - activity now)) in
    let fires = timer due in
    elim (Bool-cases (leb window (now - activity now))) [
      | inl e ↦
          (now, quiet_until-over window wake activity (suc fuel) now e, ground arith, omega arith)
      | inr e ↦
          let left : now - activity now < window = ground arith in
          subst (EndsBy window activity (max now (latest + window + slack)))
            (sym (quiet_until-sleeps window wake activity fuel now e))
            (EndsBy-mono window activity (max (wake due) (latest + window + slack))
              (max now (latest + window + slack)) (quiet_until window wake activity fuel (wake due))
              (omega arith)
              (quiet_until-EndsBy window slack latest wake activity fuel (wake due) timer recorded
                (omega arith)))
    ]

-- Where a sleep ends no earlier than it is due and at most `slack` later, and the recorded activity is
-- never ahead of the clock nor later than `latest`, the wait of a connection that is half-closed at
-- `now` ends: at a time when the window has passed since the activity that is recorded by then, and no
-- later than the greater of `now` and `latest + window + slack`.
pub expired-ends :
    (window slack latest : ℕ) (wake activity : ℕ → ℕ) (fuel now : ℕ)
    → ((d : ℕ) → (d ≤ wake d) × (wake d ≤ d + slack))
    → ((t : ℕ) → (activity t ≤ t) × (activity t ≤ latest))
    → latest + window ≤ now + fuel
    → (t : ℕ) × (expired window wake activity fuel (some now) ≡ some t)
      × (activity t + window ≤ t)
      × (t ≤ max now (latest + window + slack))
unfolding expired
expired-ends = quiet_until-EndsBy
