-- ===== src/LoadAnswer.antt =====
-- src/ingress.rs: the answer to a load query, as it is written and as it is read. Text is its
-- bytes.
pub mod Lines
mod Tests
pub mod Accepted
pub mod RoundTrip
use symphony.Prelude.{
  length, drop, Bytes, eq_bytes, starts_with, ltb, leb, ◌==◌, if◌then◌else◌, ℕ, zero, suc, ◌+◌, ◌-◌,
  ◌*◌, ◌/◌, ◌%◌, min, Bool, true, false, not, ◌&&◌, ◌||◌, Option, none, some, List, [], ◌∷◌, ◌++◌,
  map,
}
use mathlib.Core.Option
use symphony.Utf8.{is_utf8}

abbrev newline : ℕ
newline = b'\n'

-- b"SYMPHONY-LOAD/1\n"
abbrev pub load_answer_magic : Bytes
load_answer_magic =
    b'S' ∷ b'Y' ∷ b'M' ∷ b'P' ∷ b'H' ∷ b'O' ∷ b'N' ∷ b'Y' ∷ b'-' ∷ b'L' ∷ b'O' ∷ b'A' ∷ b'D' ∷ b'/'
    ∷ b'1' ∷ b'\n' ∷ []

-- The decimal digits of a `u32` in front of `after`; ten rounds are enough for one.
decimal_onto : ℕ → ℕ → Bytes → Bytes
decimal_onto zero n after = after
decimal_onto (suc fuel) n after =
    let further = decimal_onto fuel (n / 10) ((b'0' + n % 10) ∷ after) in
    if ltb n 10 then (b'0' + n) ∷ after else further

-- `format!("{}", n)`
pub decimal : ℕ → Bytes
unfolding decimal_onto
decimal n = decimal_onto 10 n []

pub answer_line : Option ℕ → Bytes
answer_line (some permille) = decimal (min permille 1000)
answer_line none = b'-' ∷ []

pub answer_lines : List (Option ℕ) → Bytes
answer_lines [] = []
answer_lines (load ∷ loads) = answer_line load ++ (newline ∷ answer_lines loads)

pub encode_load_answer : List (Option ℕ) → Bytes
encode_load_answer loads = load_answer_magic ++ answer_lines loads

pub max_load_answer_len : ℕ → ℕ
max_load_answer_len names = length load_answer_magic + names * 5

-- `strip_prefix`
strip_prefix : Bytes → Bytes → Option Bytes
strip_prefix p b = if starts_with p b then some (drop (length p) b) else none

-- `ends_with(b"\n")`
pub ends_with_newline : Bytes → Bool
ends_with_newline [] = false
ends_with_newline (x ∷ []) = x == newline
ends_with_newline (x ∷ y ∷ b) = ends_with_newline (y ∷ b)

-- `body.strip_suffix('\n').unwrap_or(body)`
strip_newline : Bytes → Bytes
strip_newline [] = []
strip_newline (x ∷ []) = if x == newline then [] else x ∷ []
strip_newline (x ∷ y ∷ b) = x ∷ strip_newline (y ∷ b)

onto_first : ℕ → List Bytes → List Bytes
onto_first x [] = (x ∷ []) ∷ []
onto_first x (line ∷ lines) = (x ∷ line) ∷ lines

-- `body.split('\n')`
split_lines : Bytes → List Bytes
split_lines [] = [] ∷ []
split_lines (x ∷ b) =
    let further = split_lines b in if x == newline then [] ∷ further else onto_first x further

all_digits : Bytes → Bool
all_digits [] = true
all_digits (x ∷ b) = leb b'0' x && leb x b'9' && all_digits b

-- `parse::<u32>` of at most four digits
parse_digits : ℕ → Bytes → ℕ
parse_digits acc [] = acc
parse_digits acc (x ∷ b) = parse_digits (acc * 10 + (x - b'0')) b

pub parse_line : Bytes → Option (Option ℕ)
unfolding all_digits parse_digits
parse_line line =
    let v = parse_digits 0 line in
    if eq_bytes line (b'-' ∷ [])
    then some none
    else if leb 1 (length line) && leb (length line) 4 && all_digits line
    then (if leb v 1000 then some (some v) else none)
    else none

-- `.map(…).collect()` into an `Option`
pub parse_lines : List Bytes → Option (List (Option ℕ))
parse_lines [] = some []
parse_lines (line ∷ lines) =
    Option.bind (parse_line line) λ load. Option.map (◌∷◌ load) (parse_lines lines)

lines_of : Bytes → List Bytes
lines_of [] = []
lines_of (x ∷ b) = split_lines (x ∷ b)

-- What `parse_load_answer` does with the text behind the magic.
parse_body : Bytes → ℕ → Bytes → Option (List (Option ℕ))
unfolding lines_of
parse_body answer expected body =
    let lines = lines_of (strip_newline body) in
    if not (is_utf8 body)
    then none
    else if not (length lines == expected) || not (ends_with_newline answer)
    then none
    else parse_lines lines

pub parse_load_answer : Bytes → ℕ → Option (List (Option ℕ))
unfolding strip_prefix parse_body
parse_load_answer answer expected =
    if ltb (max_load_answer_len expected) (length answer)
    then none
    else Option.bind (strip_prefix load_answer_magic answer) (parse_body answer expected)
