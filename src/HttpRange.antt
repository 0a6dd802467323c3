-- ===== src/HttpRange.antt =====
-- app/common/services/http_range.py: one HTTP byte range of a stored file, from the header's text to
-- the chunks of the response. A file is the list of its bytes; sizes are not negative.
pub mod Bounds
pub mod Printed
pub mod Served
use tc_backend.Table.Rows.{map_some}
use tc_backend.WorkerStatus.{strip_right, strip_left, is_digit, any}
use tc_backend.ClaimLog.{Text}
use tc_backend.Prelude.{
  ℕ, zero, suc, ◌+◌, ◌-◌, ◌*◌, ◌/◌, ◌%◌, ◌≤◌, ◌<◌, ◌≡◌, refl, sym, ap, subst, ◌∙◌, ◌≢◌, ◌⊎◌, inl,
  inr, Bool, true, false, not, ◌&&◌, ◌||◌, Option, none, some, List, [], ◌∷◌, ◌++◌, map, arith,
  String, str_eq, eq_iff, ltb, leb, ◌==◌, ==_iff, if◌then◌else◌, Bool-cases, Option-cases, is_null,
  null_lt, null_eq, or_default, length, take, drop, first, All, Has, Unique, All-take, Unique-take,
  All-map,
}

-- the `ByteRangeNotSatisfiable` errors, by their messages
pub data RangeError : Type 0 where
  multiple_ranges malformed empty_range empty_file suffix_not_positive invalid_position : RangeError
  starts_after_end end_precedes_start : RangeError

-- `ByteRange`: both ends belong to the range
pub record ByteRange : Type 0 where
  pub start : ℕ
  pub last : ℕ

-- `ByteRange.length`
abbrev pub range_length : ByteRange → ℕ
range_length r = r.last - r.start + 1

pub data RangeResult : Type 0 where
  satisfiable : ByteRange → RangeResult
  not_satisfiable : RangeError → RangeResult

-- The text begins with `bytes=`, where case is ignored; U+017F is a third s.
unfoldable pub after_unit : Text → Option Text
after_unit (b ∷ y ∷ t ∷ e ∷ s ∷ q ∷ rest) =
    if (b == 98 || b == 66)
      && ((y == 121 || y == 89)
          && ((t == 116 || t == 84)
              && ((e == 101 || e == 69) && ((s == 115 || (s == 83 || s == 383)) && q == 61))))
    then some rest
    else none
after_unit _ = none

-- the longest run of digits, and what follows
unfoldable pub take_digits : Text → Text × Text
unfolding is_digit
take_digits [] = ([], [])
take_digits (c ∷ cs) =
    let (digits, rest) = take_digits cs in if is_digit c then (c ∷ digits, rest) else ([], c ∷ cs)

-- `-` and the second group, to the end of the text
unfoldable pub second_group : Text → Option Text
unfolding take_digits
second_group [] = none
second_group (c ∷ cs) =
    let (digits, rest) = take_digits cs in
    if c == 45 then (elim rest [ [] ↦ some digits | _ ∷ _ ↦ none ]) else none

-- `_SINGLE_BYTE_RANGE_RE.fullmatch`: the two groups
unfoldable pub match_range : Text → Option (Text × Text)
unfolding after_unit take_digits second_group
match_range text = elim (after_unit text) [
  | none ↦ none
  | some rest ↦
      let (first_text, more) = take_digits rest in
      map_some (λ second_text. (first_text, second_text)) (second_group more)
]

unfoldable pub decimal_value : ℕ → Text → ℕ
decimal_value acc [] = acc
decimal_value acc (c ∷ cs) = decimal_value (acc * 10 + (c - 48)) cs

-- Python refuses to read an integer of more digits.
abbrev pub max_digits : ℕ
max_digits = 4300

-- `_parse_decimal`, on a text of digits
unfoldable pub parse_decimal : Text → Option ℕ
unfolding decimal_value
parse_decimal digits =
    if ltb max_digits (length digits) then none else some (decimal_value 0 digits)

abbrev pub is_empty : Text → Bool
is_empty [] = true
is_empty (_ ∷ _) = false

abbrev pub minimum : ℕ → ℕ → ℕ
minimum a b = if leb a b then a else b

-- the range that two groups ask for
unfoldable pub resolve_suffix : Text → ℕ → RangeResult
resolve_suffix end_text file_size = elim (parse_decimal end_text) [
  | none ↦ not_satisfiable invalid_position
  | some n ↦
      if n == 0
      then not_satisfiable suffix_not_positive
      else satisfiable (record { start = file_size - n; last = file_size - 1 })
]

unfoldable pub resolve_end : ℕ → Text → ℕ → RangeResult
resolve_end start end_text file_size = elim (parse_decimal end_text) [
  | none ↦ not_satisfiable invalid_position
  | some last ↦
      if ltb last start
      then not_satisfiable end_precedes_start
      else satisfiable (record { start = start; last = minimum last (file_size - 1) })
]

unfoldable pub resolve_start : Text → Text → ℕ → RangeResult
resolve_start start_text end_text file_size = elim (parse_decimal start_text) [
  | none ↦ not_satisfiable invalid_position
  | some start ↦
      if leb file_size start
      then not_satisfiable starts_after_end
      else if is_empty end_text
      then satisfiable (record { start = start; last = file_size - 1 })
      else resolve_end start end_text file_size
]

unfoldable pub resolve_range : Text → Text → ℕ → RangeResult
unfolding resolve_suffix resolve_start resolve_end
resolve_range start_text end_text file_size =
    if is_empty start_text && is_empty end_text
    then not_satisfiable empty_range
    else if file_size == 0
    then not_satisfiable empty_file
    else if is_empty start_text
    then resolve_suffix end_text file_size
    else resolve_start start_text end_text file_size

-- `str.strip`
unfoldable pub strip : Text → Text
unfolding strip_left strip_right
strip text = strip_right (strip_left text)

unfoldable pub parse_single_byte_range : Text → ℕ → RangeResult
unfolding strip any match_range
parse_single_byte_range value file_size =
    let normalized = strip value in
    if any (λ c. c == 44) normalized
    then not_satisfiable multiple_ranges
    else elim (match_range normalized) [
      | none ↦ not_satisfiable malformed
      | some (start_text, end_text) ↦ resolve_range start_text end_text file_size
    ]

-- The loop of `iter_file_range` from the position of the file on. Each round reads a byte or ends,
-- so that `remaining` rounds are enough.
unfoldable pub read_chunks : ℕ → List ℕ → ℕ → ℕ → List (List ℕ)
read_chunks zero source remaining chunk_size = []
read_chunks (suc fuel) source remaining chunk_size =
    let size = minimum chunk_size remaining in
    let more =
      read_chunks fuel (drop size source) (remaining - length (take size source)) chunk_size in
    if remaining == 0 || is_empty (take size source) then [] else take size source ∷ more

-- `none` is a ValueError.
unfoldable pub iter_file_range : List ℕ → ℕ → ℕ → ℕ → Option (List (List ℕ))
unfolding read_chunks
iter_file_range content start count chunk_size =
    if chunk_size == 0 then none else some (read_chunks count (drop start content) count chunk_size)
