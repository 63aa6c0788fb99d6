-- ===== src/Suspended/Tests.antt =====
-- src/suspended.rs: two suspended connections; one is resolved, the other times out.
use symphony.Prelude.{ℕ, ◌≡◌, refl, some, [], ◌∷◌, arith}
use symphony.Suspended.{register, resolve, remove, contains, without}
use symphony.Suspended.Answers.{
  World, suspends, times_out, resolves, after, fresh, Reach, start, next, IsOnce, Reach-IsOnce,
}

abbrev ended : World ℕ
ended = after (after (after (after fresh suspends) suspends) (resolves 1 (some 5))) (times_out 2)

ended-Reach : Reach ended
unfolding after register resolve remove contains without
ended-Reach =
    next (times_out 2)
      (next (resolves 1 (some 5)) (next suspends (next suspends start (omega arith)) (omega arith))
        (omega arith))
      (omega arith)

is_resolved : ended.sent ≡ (1, some 5) ∷ []
unfolding after register resolve remove contains without
is_resolved = refl

Reach-IsOnce_example : IsOnce ended
Reach-IsOnce_example = Reach-IsOnce ended-Reach
