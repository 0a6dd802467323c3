-- ===== src/HttpRange/Printed.antt =====
-- A header with two printed positions is read back.
use tc_backend.Decimal.Value.{decimal-ne-empty, decimal-value, decimal-All}
use tc_backend.Table.Rows.{map_some, All-append}
use tc_backend.Decimal.{decimal}
use tc_backend.WorkerStatus.{strip_right, strip_left, is_digit, any}
use tc_backend.HttpRange.{
  map_some, minimum, satisfiable, end_precedes_start, starts_after_end, resolve_end, resolve_start,
  empty_file, resolve_range, not_satisfiable, max_digits, RangeResult, parse_decimal,
  parse_single_byte_range, second_group, after_unit, strip, take_digits, match_range,
}
use tc_backend.ClaimLog.{codes, Text, is_space}
use tc_backend.Prelude.{
  ℕ, ◌-◌, ◌≤◌, ◌≡◌, refl, ap, ◌∙◌, inl, inr, Bool, true, false, not, ◌&&◌, some, [], ◌∷◌, ◌++◌,
  arith, ltb, leb, ◌==◌, if◌then◌else◌, Bool-cases, length, All,
}

is_plain : ℕ → Bool
is_plain c = not (is_space c) && not (c == 44)

abbrev Plain : Text → Type 0
Plain text = All (λ c. is_plain c ≡ true) text

strip_left-Plain : (text : Text) → Plain text → strip_left text ≡ text
unfolding strip_left is_plain
strip_left-Plain [] p = refl
strip_left-Plain (c ∷ cs) p = ground (arith, p.0)

strip_right-Plain : (text : Text) → Plain text → strip_right text ≡ text
unfolding strip_right is_plain
strip_right-Plain [] p = refl
strip_right-Plain (c ∷ []) p = ground (arith, p.0)
strip_right-Plain (c ∷ d ∷ ds) p = rw (strip_right-Plain (d ∷ ds) p.1) refl

strip-Plain : (text : Text) → Plain text → strip text ≡ text
unfolding strip
strip-Plain text p = rw (strip_left-Plain text p) (strip_right-Plain text p)

any-Plain : (text : Text) → Plain text → any (λ c. c == 44) text ≡ false
unfolding any is_plain
any-Plain [] p = refl
any-Plain (c ∷ cs) p = ground (arith, p.0, any-Plain cs p.1)

digit-plain : (c : ℕ) → is_digit c ≡ true → is_plain c ≡ true
unfolding is_digit is_plain is_space
digit-plain c h = ground arith

abbrev AllDigits : Text → Type 0
AllDigits text = All (λ c. is_digit c ≡ true) text

digits-Plain : (text : Text) → AllDigits text → Plain text
digits-Plain [] h = tt
digits-Plain (c ∷ cs) h = (digit-plain c h.0, digits-Plain cs h.1)

take_digits_all : (ds : Text) → AllDigits ds → take_digits ds ≡ (ds, [])
unfolding take_digits
take_digits_all [] h = refl
take_digits_all (c ∷ cs) h = rw (take_digits_all cs h.1) (rw h.0 refl)

take_digits_until :
    (ds rest : Text) (c : ℕ)
    → AllDigits ds
    → is_digit c ≡ false
    → take_digits (ds ++ c ∷ rest) ≡ (ds, c ∷ rest)
unfolding take_digits
take_digits_until [] rest c h n = rw n refl
take_digits_until (d ∷ ds) rest c h n = rw (take_digits_until ds rest c h.1 n) (rw h.0 refl)

-- `bytes=<a>-<b>`
abbrev pub range_header : ℕ → ℕ → Text
range_header a b = codes "bytes=" ++ (decimal a ++ 45 ∷ decimal b)

dash : is_digit 45 ≡ false
unfolding is_digit
dash = refl

second_group_lem : (b : ℕ) → second_group (45 ∷ decimal b) ≡ some (decimal b)
unfolding second_group
second_group_lem b =
    let digits = take_digits_all (decimal b) (decimal-All b) in rw digits (rw digits refl)

range_header-match : (a b : ℕ) → match_range (range_header a b) ≡ some (decimal a, decimal b)
unfolding match_range after_unit
range_header-match a b =
    ap (λ p. map_some (λ second_text. (p.0, second_text)) (second_group p.1))
      (take_digits_until (decimal a) (decimal b) 45 (decimal-All a) dash)
    ∙ rw (second_group_lem b) refl

Plain-unit : Plain (codes "bytes=") × (is_plain 45 ≡ true)
unfolding is_plain is_space
Plain-unit = ((refl, (refl, (refl, (refl, (refl, (refl, tt)))))), refl)

range_header-Plain : (a b : ℕ) → Plain (range_header a b)
range_header-Plain a b = All-append _ (codes "bytes=") _ Plain-unit.0 (
    All-append _ (decimal a) _ (digits-Plain (decimal a) (decimal-All a))
      (Plain-unit.1, digits-Plain (decimal b) (decimal-All b)))

parse_decimal-decimal :
    (n : ℕ) → length (decimal n) ≤ max_digits → parse_decimal (decimal n) ≡ some n
unfolding parse_decimal
parse_decimal-decimal n h =
    let short : ltb max_digits (length (decimal n)) ≡ false = ground arith in
    rw short (ap some (decimal-value n))

-- what the positions of a header mean for a file
abbrev pub requested_range : ℕ → ℕ → ℕ → RangeResult
requested_range a b size =
    if size == 0
    then not_satisfiable empty_file
    else if leb size a
    then not_satisfiable starts_after_end
    else if ltb b a
    then not_satisfiable end_precedes_start
    else satisfiable (record { start = a; last = minimum b (size - 1) })

resolve_range-decimal :
    (a b size : ℕ)
    → length (decimal a) ≤ max_digits
    → length (decimal b) ≤ max_digits
    → resolve_range (decimal a) (decimal b) size ≡ requested_range a b size
unfolding resolve_range resolve_start resolve_end
resolve_range-decimal a b size ha hb = rw (decimal-ne-empty a) (elim (Bool-cases (size == 0)) [
  | inl e ↦ rw e refl
  | inr e ↦ rw e (
      rw (parse_decimal-decimal a ha, resolve_start)
        (elim (Bool-cases (leb size a)) [
          | inl f ↦ rw f refl
          | inr f ↦
              rw f (rw (decimal-ne-empty b) (rw (parse_decimal-decimal b hb, resolve_end) refl))
        ]))
])

-- The header `bytes=a-b`, of two printed numbers of at most 4300 digits, asks a file for the bytes
-- from `a` to `b`, cut at the file's end. It is refused for an empty file, for a start at or after
-- the end of the file and, where the start is in the file, for an end before the start, each with
-- its own error.
pub parse_single_byte_range-range_header :
    (a b size : ℕ)
    → length (decimal a) ≤ max_digits
    → length (decimal b) ≤ max_digits
    → parse_single_byte_range (range_header a b) size ≡ requested_range a b size
unfolding parse_single_byte_range
parse_single_byte_range-range_header a b size ha hb =
    rw (strip-Plain (range_header a b) (range_header-Plain a b)) (
      rw (any-Plain (range_header a b) (range_header-Plain a b))
        (rw (range_header-match a b) (resolve_range-decimal a b size ha hb)))
