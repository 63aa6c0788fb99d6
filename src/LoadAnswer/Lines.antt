-- ===== src/LoadAnswer/Lines.antt =====
-- src/ingress.rs: one line of a load answer, checked for every load that can be sent.
use symphony.Prelude.{
  length, Bytes, ltb, leb, ◌==◌, ℕ, zero, suc, ◌≤◌, ◌<◌, min, ◌≡◌, refl, Bool, true, false, not,
  ◌&&◌, Option, none, some, [], ◌∷◌, arith,
}
use mathlib.Core.Option
use symphony.LoadAnswer.{newline, decimal, answer_line, parse_line}

all_below : ℕ → (ℕ → Bool) → Bool
all_below zero p = true
all_below (suc n) p = p n && all_below n p

all_below-eq-true : (n : ℕ) (p : ℕ → Bool) (x : ℕ) → all_below n p ≡ true → x < n → p x ≡ true
unfolding all_below
all_below-eq-true zero p x h lt = absurd (omega arith)
all_below-eq-true (suc n) p x h lt = ground (arith, all_below-eq-true n p x)

-- ASCII with no newline.
abbrev pub is_plain : Bytes → Bool
is_plain [] = true
is_plain (x ∷ b) = ltb x 128 && not (x == newline) && is_plain b

abbrev reads_as : Option (Option ℕ) → ℕ → Bool
reads_as none v = false
reads_as (some none) v = false
reads_as (some (some w)) v = w == v

-- What a line for a load of `v` permille is to be.
abbrev is_good : Bytes → ℕ → Bool
is_good line v =
    reads_as (parse_line line) v && is_plain line && leb 1 (length line) && leb (length line) 4

is_good_table : all_below 1001 (λ v. is_good (decimal v) v) ≡ true
unfolding all_below decimal parse_line
is_good_table = refl

-- A line that is read back as the load it was written for.
pub record IsLine (line : Bytes) (load : Option ℕ) : Type 0 where
  pub reads : parse_line line ≡ some load
  pub plain : is_plain line ≡ true
  pub nonempty : 1 ≤ length line
  pub short : length line ≤ 4

-- The load as it is sent.
abbrev pub capped : Option ℕ → Option ℕ
capped = Option.map (λ v. min v 1000)

is_good-IsLine : (line : Bytes) (v : ℕ) → is_good line v ≡ true → IsLine line (some v)
is_good-IsLine line v h = record {
  reads = ground arith;
  plain = ground arith;
  nonempty = ground arith;
  short = ground arith;
}

pub answer_line-IsLine : (load : Option ℕ) → IsLine (answer_line load) (capped load)
unfolding answer_line
answer_line-IsLine none = record {
  reads = unfold parse_line in refl;
  plain = refl;
  nonempty = omega arith;
  short = omega arith;
}
answer_line-IsLine (some v) =
    let w = min v 1000 in
    is_good-IsLine (decimal w) w
      (all_below-eq-true 1001 (λ v. is_good (decimal v) v) w is_good_table (omega arith))
