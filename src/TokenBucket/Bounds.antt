-- ===== src/TokenBucket/Bounds.antt =====
-- src/protection.rs: what a token bucket grants.
use symphony.Prelude.{
  replicate, if◌then◌else◌, ℕ, zero, suc, ◌+◌, ◌-◌, ◌*◌, ◌≤◌, max, ◌≡◌, ap, List, [], ◌∷◌, arith,
}
use symphony.TokenBucket.{
  Floats, IsRounding, Bucket, one_token, refill_of, projected, refilled, consume,
  refill_and_consume,
}

module _ {F : Type 0} (fl : Floats F) (rate : F) (burst_fp : ℕ) where
  -- A charge at each of the times in turn: how many were granted, what the refills added at most,
  -- and the bucket that is left.
  abbrev pub granted : List ℕ → Bucket → ℕ
  granted [] b = 0
  granted (now ∷ times) b =
      let (paid, b') = refill_and_consume fl rate burst_fp now b in
      (if paid then 1 else 0) + granted times b'

  abbrev pub refills : List ℕ → Bucket → ℕ
  refills [] b = 0
  refills (now ∷ times) b =
      refill_of fl rate (now - b.last_refill_ns)
      + refills times (refill_and_consume fl rate burst_fp now b).1

  abbrev pub left : List ℕ → Bucket → Bucket
  left [] b = b
  left (now ∷ times) b = left times (refill_and_consume fl rate burst_fp now b).1

  -- One charge pays for what it grants.
  charge_pays :
      (now : ℕ) (b : Bucket)
      → let (paid, b') = refill_and_consume fl rate burst_fp now b in
        ((if paid then one_token else 0) + b'.tokens
          ≤ b.tokens + refill_of fl rate (now - b.last_refill_ns))
        × (b'.tokens ≤ max b.tokens burst_fp)
  unfolding refill_and_consume refilled projected consume
  charge_pays now b = ground arith

  -- Over any charges, what was granted and what is left is at most what was there and what the
  -- refills added; and no refill leads above the burst ceiling.
  pub granted-le :
      (times : List ℕ) (b : Bucket)
      → (one_token * granted times b + (left times b).tokens ≤ b.tokens + refills times b)
        × ((left times b).tokens ≤ max b.tokens burst_fp)
  granted-le [] b = (omega arith, omega arith)
  granted-le (now ∷ times) b =
      let one = charge_pays now b in
      let b' = (refill_and_consume fl rate burst_fp now b).1 in
      let more = granted-le times b' in ground arith

  -- A charge leaves nothing to refill at its own time.
  charge_settles :
      IsRounding fl
      → (now : ℕ) (b : Bucket)
      → let (paid, b') = refill_and_consume fl rate burst_fp now b in
        (refill_of fl rate (now - b'.last_refill_ns) ≡ 0)
        × ((if paid then one_token else 0) + b'.tokens ≤ max b.tokens burst_fp)
  unfolding refill_and_consume refilled projected consume
  charge_settles round now b =
      let none_now : refill_of fl rate 0 ≡ 0 = unfold refill_of in round.refill-zero rate in
      let same : now - now ≡ 0 = omega arith in
      ground (arith, none_now, ap (refill_of fl rate) same)

  -- With nothing to refill, a charge pays out of the bucket.
  settled_pays :
      (now : ℕ) (b : Bucket)
      → refill_of fl rate (now - b.last_refill_ns) ≡ 0
      → let (paid, b') = refill_and_consume fl rate burst_fp now b in
        (refill_of fl rate (now - b'.last_refill_ns) ≡ 0)
        × ((if paid then one_token else 0) + b'.tokens ≡ b.tokens)
  unfolding refill_and_consume refilled projected consume
  settled_pays now b h = ground arith

  settled-le :
      (n now : ℕ) (b : Bucket)
      → refill_of fl rate (now - b.last_refill_ns) ≡ 0
      → one_token * granted (replicate n now) b ≤ b.tokens
  settled-le zero now b h = omega arith
  settled-le (suc n) now b h =
      let one = settled_pays now b h in
      let b' = (refill_and_consume fl rate burst_fp now b).1 in
      let more = settled-le n now b' one.0 in ground arith

  -- However many charges come at one instant, they are granted no more whole tokens than the burst
  -- ceiling, or than the bucket held if it was above a ceiling lowered since.
  pub granted-replicate-le :
      IsRounding fl
      → (n now : ℕ) (b : Bucket) → one_token * granted (replicate n now) b ≤ max b.tokens burst_fp
  granted-replicate-le round zero now b = omega arith
  granted-replicate-le round (suc n) now b =
      let one = charge_settles round now b in
      let b' = (refill_and_consume fl rate burst_fp now b).1 in
      let more = settled-le n now b' one.0 in ground arith
