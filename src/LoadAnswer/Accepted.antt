-- ===== src/LoadAnswer/Accepted.antt =====
-- src/ingress.rs: what the reader of a load answer accepts.
use symphony.Prelude.{
  length, drop, Bytes, starts_with, Option-cases, ℕ, suc, ◌≤◌, ◌≡◌, refl, ap, inl, inr, true,
  Option, none, some, List, [], ◌∷◌, arith,
}
use mathlib.Core.Option
use symphony.LoadAnswer.{
  max_load_answer_len, load_answer_magic, strip_prefix, strip_newline, ends_with_newline, lines_of,
  parse_line, parse_lines, parse_body, parse_load_answer,
}

abbrev pub IsPermille : Option ℕ → Type 0
IsPermille none = Unit {0}
IsPermille (some v) = v ≤ 1000

abbrev pub AllPermille : List (Option ℕ) → Type 0
AllPermille [] = Unit {0}
AllPermille (load ∷ loads) = IsPermille load × AllPermille loads

parse_line-eq-some :
    (line : Bytes) (load : Option ℕ) → parse_line line ≡ some load → IsPermille load
unfolding parse_line
parse_line-eq-some line none h = tt
parse_line-eq-some line (some v) h = ground arith

parse_lines-eq-some :
    (lines : List Bytes) (loads : List (Option ℕ))
    → parse_lines lines ≡ some loads
    → (length loads ≡ length lines) × AllPermille loads
unfolding parse_lines Option.bind
parse_lines-eq-some [] [] h = (refl, tt)
parse_lines-eq-some [] (load ∷ loads) h = ground arith
parse_lines-eq-some (line ∷ lines) loads h = elim (Option-cases (parse_line line)) [
  | inl e ↦ absurd (none-ne-some (rw e at h))
  | inr (load, e) ↦ elim (Option-cases (parse_lines lines)) [
    | inl e' ↦ absurd (none-ne-some (rw (e, e') at h))
    | inr (rest, e') ↦
        let both = parse_lines-eq-some lines rest e' in
        let first = parse_line-eq-some line load e in
        let whole : loads ≡ load ∷ rest = ground arith in rw whole (ap suc both.0, (first, both.1))
  ]
]
  where
    none-ne-some : {A : Type 0} {a : A} → ◌≡◌ {A = Option A} none (some a) → ⊥
    none-ne-some e = cc

parse_body-eq-some :
    (answer : Bytes) (expected : ℕ) (body : Bytes) (loads : List (Option ℕ))
    → parse_body answer expected body ≡ some loads
    → (length loads ≡ expected) × AllPermille loads × (ends_with_newline answer ≡ true)
unfolding parse_body
parse_body-eq-some answer expected body loads h =
    ground (arith, parse_lines-eq-some (lines_of (strip_newline body)) loads)

-- An answer that is accepted for `expected` names begins with the magic line and gives one load for
-- each name, none above 1000 permille; it is no longer than the limit for as many names, and its
-- last byte is a newline.
pub parse_load_answer-eq-some :
    (answer : Bytes) (expected : ℕ) (loads : List (Option ℕ))
    → parse_load_answer answer expected ≡ some loads
    → (length loads ≡ expected)
      × AllPermille loads
      × (starts_with load_answer_magic answer ≡ true)
      × (ends_with_newline answer ≡ true)
      × (length answer ≤ max_load_answer_len expected)
unfolding parse_load_answer Option.bind strip_prefix
parse_load_answer-eq-some answer expected loads h =
    ground
      (arith, parse_body-eq-some answer expected (drop (length load_answer_magic) answer) loads)
