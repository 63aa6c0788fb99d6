-- ===== src/LoadAnswer/RoundTrip.antt =====
-- src/ingress.rs: an answer that is written is read back, and what reading accepts.
use symphony.Prelude.{
  length, length-append, length-map, Bytes, le→ltb, ==_iff, ℕ, ◌*◌, ◌≤◌, ◌≡◌, refl, ap, ◌∙◌, true,
  Option, some, List, [], ◌∷◌, ◌++◌, map, append-nil, arith,
}
use mathlib.Core.Option
use symphony.Utf8.{IsAscii, IsAscii-append, is_utf8-IsAscii}
use symphony.LoadAnswer.{
  newline, answer_line, answer_lines, encode_load_answer, max_load_answer_len, load_answer_magic,
  strip_prefix, ends_with_newline, strip_newline, onto_first, split_lines, lines_of, parse_lines,
  parse_body, parse_load_answer,
}
use symphony.LoadAnswer.Lines.{is_plain, capped, answer_line-IsLine}

split_lines-newline :
    (line rest : Bytes)
    → is_plain line ≡ true
    → split_lines (line ++ (newline ∷ rest)) ≡ line ∷ split_lines rest
unfolding split_lines onto_first
split_lines-newline [] rest h = refl
split_lines-newline (x ∷ line) rest h = ground (arith, split_lines-newline line rest)

split_lines-plain : (line : Bytes) → is_plain line ≡ true → split_lines line ≡ line ∷ []
unfolding split_lines onto_first
split_lines-plain [] h = refl
split_lines-plain (x ∷ line) h = ground (arith, split_lines-plain line)

strip_newline-append : (a b : Bytes) → 1 ≤ length b → strip_newline (a ++ b) ≡ a ++ strip_newline b
unfolding strip_newline
strip_newline-append [] b h = refl
strip_newline-append (x ∷ []) [] h = absurd (omega arith)
strip_newline-append (x ∷ []) (y ∷ b) h = refl
strip_newline-append (x ∷ y ∷ a) b h = ap (◌∷◌ x) (strip_newline-append (y ∷ a) b h)

strip_newline-cons :
    (b : Bytes) → 1 ≤ length b → strip_newline (newline ∷ b) ≡ newline ∷ strip_newline b
unfolding strip_newline
strip_newline-cons [] h = absurd (omega arith)
strip_newline-cons (x ∷ b) h = refl

ends_with_newline-append :
    (a b : Bytes) → 1 ≤ length b → ends_with_newline (a ++ b) ≡ ends_with_newline b
unfolding ends_with_newline
ends_with_newline-append [] b h = refl
ends_with_newline-append (x ∷ []) [] h = absurd (omega arith)
ends_with_newline-append (x ∷ []) (y ∷ b) h = refl
ends_with_newline-append (x ∷ y ∷ a) b h = ends_with_newline-append (y ∷ a) b h

lines_of-split_lines :
    (b line : Bytes) (lines : List Bytes)
    → split_lines b ≡ line ∷ lines
    → 1 ≤ length line
    → lines_of b ≡ line ∷ lines
unfolding lines_of
lines_of-split_lines [] line lines e h = unfold split_lines in ground arith
lines_of-split_lines (x ∷ b) line lines e h = e

IsAscii-is_plain : (line : Bytes) → is_plain line ≡ true → IsAscii line
IsAscii-is_plain [] h = tt
IsAscii-is_plain (x ∷ line) h = (ground arith, IsAscii-is_plain line (ground arith))

length-answer_lines-pos :
    (load : Option ℕ) (loads : List (Option ℕ)) → 1 ≤ length (answer_lines (load ∷ loads))
unfolding answer_lines
length-answer_lines-pos load loads =
    omega (arith, length-append (answer_line load) (newline ∷ answer_lines loads))

strip_newline-one : strip_newline (newline ∷ []) ≡ []
unfolding strip_newline
strip_newline-one = refl

split_lines-last :
    (line : Bytes)
    → is_plain line ≡ true
    → split_lines (strip_newline (line ++ (newline ∷ []))) ≡ line ∷ []
split_lines-last line h =
    rw (strip_newline-append line (newline ∷ []) (omega arith), strip_newline-one, append-nil line)
      (split_lines-plain line h)

split_lines-first :
    (line rest : Bytes)
    → is_plain line ≡ true
    → 1 ≤ length rest
    → split_lines (strip_newline (line ++ (newline ∷ rest)))
      ≡ line ∷ split_lines (strip_newline rest)
split_lines-first line rest h more =
    rw (strip_newline-append line (newline ∷ rest) (omega arith), strip_newline-cons rest more)
      (split_lines-newline line (strip_newline rest) h)

-- The text behind the magic is split back into the lines that it was joined from.
split_lines-answer_lines :
    (load : Option ℕ) (loads : List (Option ℕ))
    → split_lines (strip_newline (answer_lines (load ∷ loads)))
      ≡ answer_line load ∷ map answer_line loads
unfolding answer_lines
split_lines-answer_lines load [] =
    split_lines-last (answer_line load) (answer_line-IsLine load).plain
split_lines-answer_lines load (next ∷ loads) =
    split_lines-first (answer_line load) (answer_lines (next ∷ loads))
      (answer_line-IsLine load).plain (length-answer_lines-pos next loads)
    ∙ ap (◌∷◌ (answer_line load)) (split_lines-answer_lines next loads)

answer_lines-IsAscii : (loads : List (Option ℕ)) → IsAscii (answer_lines loads)
unfolding answer_lines
answer_lines-IsAscii [] = tt
answer_lines-IsAscii (load ∷ loads) =
    IsAscii-append (answer_line load) (newline ∷ answer_lines loads)
      (IsAscii-is_plain (answer_line load) (answer_line-IsLine load).plain)
      (omega arith, answer_lines-IsAscii loads)

length-answer_lines-le : (loads : List (Option ℕ)) → length (answer_lines loads) ≤ length loads * 5
unfolding answer_lines
length-answer_lines-le [] = omega arith
length-answer_lines-le (load ∷ loads) = omega (
  arith,
  length-append (answer_line load) (newline ∷ answer_lines loads),
  (answer_line-IsLine load).short,
  length-answer_lines-le loads,
)

ends_with_newline-answer_lines :
    (load : Option ℕ) (loads : List (Option ℕ))
    → ends_with_newline (answer_lines (load ∷ loads)) ≡ true
unfolding answer_lines
ends_with_newline-answer_lines load [] =
    ends_with_newline-append (answer_line load) (newline ∷ []) (omega arith)
    ∙ unfold ends_with_newline in refl
ends_with_newline-answer_lines load (next ∷ loads) =
    ends_with_newline-append (answer_line load) (newline ∷ answer_lines (next ∷ loads))
      (omega arith)
    ∙ ends_with_newline-append (newline ∷ []) (answer_lines (next ∷ loads))
        (length-answer_lines-pos next loads)
    ∙ ends_with_newline-answer_lines next loads

parse_lines-map :
    (loads : List (Option ℕ)) → parse_lines (map answer_line loads) ≡ some (map capped loads)
unfolding parse_lines Option.bind
parse_lines-map [] = refl
parse_lines-map (load ∷ loads) = rw ((answer_line-IsLine load).reads, parse_lines-map loads)

lines_of-answer_lines :
    (loads : List (Option ℕ))
    → lines_of (strip_newline (answer_lines loads)) ≡ map answer_line loads
lines_of-answer_lines [] = unfold lines_of strip_newline answer_lines in refl
lines_of-answer_lines (load ∷ loads) =
    lines_of-split_lines (strip_newline (answer_lines (load ∷ loads))) (answer_line load)
      (map answer_line loads) (split_lines-answer_lines load loads)
      (answer_line-IsLine load).nonempty

ends_with_newline-encode_load_answer :
    (loads : List (Option ℕ)) → ends_with_newline (encode_load_answer loads) ≡ true
unfolding encode_load_answer
ends_with_newline-encode_load_answer [] = unfold ends_with_newline answer_lines in refl
ends_with_newline-encode_load_answer (load ∷ loads) =
    ends_with_newline-append load_answer_magic (answer_lines (load ∷ loads))
      (length-answer_lines-pos load loads)
    ∙ ends_with_newline-answer_lines load loads

-- An answer is never longer than the reader's limit for as many names.
pub length-encode_load_answer-le :
    (loads : List (Option ℕ))
    → length (encode_load_answer loads) ≤ max_load_answer_len (length loads)
unfolding encode_load_answer max_load_answer_len
length-encode_load_answer-le loads = omega (arith, length-answer_lines-le loads)

strip_prefix-encode_load_answer :
    (loads : List (Option ℕ))
    → strip_prefix load_answer_magic (encode_load_answer loads) ≡ some (answer_lines loads)
unfolding strip_prefix encode_load_answer
strip_prefix-encode_load_answer loads = refl

parse_body-answer_lines :
    (answer : Bytes) (loads : List (Option ℕ))
    → ends_with_newline answer ≡ true
    → parse_body answer (length loads) (answer_lines loads) ≡ some (map capped loads)
unfolding parse_body
parse_body-answer_lines answer loads h =
    rw
      (
        is_utf8-IsAscii (answer_lines loads) (answer_lines-IsAscii loads),
        lines_of-answer_lines loads,
        length-map answer_line loads,
        (==_iff (length loads) (length loads)).1 refl,
        h,
      )
      (parse_lines-map loads)

-- The answer for any loads, read for as many names, gives those loads back: each above 1000 permille
-- as 1000, each that is not available as not available.
pub parse_load_answer-encode_load_answer :
    (loads : List (Option ℕ))
    → parse_load_answer (encode_load_answer loads) (length loads) ≡ some (map capped loads)
unfolding parse_load_answer Option.bind
parse_load_answer-encode_load_answer loads =
    rw
      (
        le→ltb (max_load_answer_len (length loads)) (length (encode_load_answer loads))
            (length-encode_load_answer-le loads),
        strip_prefix-encode_load_answer loads,
      )
      (parse_body-answer_lines (encode_load_answer loads) loads
        (ends_with_newline-encode_load_answer loads))
