-- ===== src/LoadAnswer/Tests.antt =====
-- src/ingress.rs: load answers at concrete loads, and the theorems applied to them.
use symphony.Prelude.{Bytes, ℕ, ◌≡◌, refl, Option, none, some, List, [], ◌∷◌, ◌++◌}
use mathlib.Core.Option
use symphony.Utf8.{is_utf8}
use symphony.LoadAnswer.{
  load_answer_magic, encode_load_answer, max_load_answer_len, parse_load_answer, parse_lines,
  parse_line, answer_lines, answer_line, decimal, split_lines, onto_first, strip_newline,
  ends_with_newline,
}
use symphony.LoadAnswer.RoundTrip.{parse_load_answer-encode_load_answer}

program : Unit {0}
unfolding is_utf8 encode_load_answer max_load_answer_len parse_load_answer parse_lines parse_line
    answer_lines answer_line decimal split_lines onto_first strip_newline ends_with_newline
    Option.bind
program = tt

abbrev loads : List (Option ℕ)
loads = some 250 ∷ none ∷ some 4096 ∷ []

answer_is_text :
    encode_load_answer loads
    ≡ load_answer_magic
      ++ (b'2' ∷ b'5' ∷ b'0' ∷ b'\n' ∷ b'-' ∷ b'\n' ∷ b'1' ∷ b'0' ∷ b'0' ∷ b'0' ∷ b'\n' ∷ [])
unfolding program
answer_is_text = refl

-- The last newline is not optional.
unfinished_is_refused : parse_load_answer (load_answer_magic ++ (b'2' ∷ [])) 1 ≡ none
unfolding program
unfinished_is_refused = refl

parse_load_answer-encode_load_answer_example :
    parse_load_answer (encode_load_answer loads) 3 ≡ some (some 250 ∷ none ∷ some 1000 ∷ [])
parse_load_answer-encode_load_answer_example = parse_load_answer-encode_load_answer loads

abbrev seven : List (Option ℕ)
seven = some 7 ∷ []

abbrev seven_text : Bytes
seven_text = load_answer_magic ++ (b'0' ∷ b'7' ∷ b'\n' ∷ [])
