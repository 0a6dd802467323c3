-- ===== src/HttpRange/Bounds.antt =====
-- A range that is served lies in the file.
use tc_backend.WorkerStatus.{any}
use tc_backend.ClaimLog.{Text}
use tc_backend.HttpRange.{
  match_range, strip, parse_decimal, any, satisfiable, Text, resolve_end, ByteRange, resolve_start,
  parse_single_byte_range, resolve_range, resolve_suffix,
}
use tc_backend.Prelude.{ℕ, ◌≤◌, ◌<◌, ◌≡◌, ◌≢◌, inl, inr, arith, ◌==◌, Bool-cases, Option-cases}

abbrev pub InFile : ℕ → ByteRange → Type 0
InFile size r = (r.start ≤ r.last) × (r.last < size)

resolve_suffix_bounds :
    (b : Text) (size : ℕ) (r : ByteRange)
    → size ≢ 0
    → resolve_suffix b size ≡ satisfiable r
    → InFile size r
unfolding resolve_suffix
resolve_suffix_bounds b size r h e = elim (Option-cases (parse_decimal b)) [
  | inl n ↦ ground arith
  | inr (v, n) ↦ ground arith
]

resolve_end_bounds :
    (start : ℕ) (b : Text) (size : ℕ) (r : ByteRange)
    → start < size
    → resolve_end start b size ≡ satisfiable r
    → InFile size r
unfolding resolve_end
resolve_end_bounds start b size r h e = elim (Option-cases (parse_decimal b)) [
  | inl n ↦ ground arith
  | inr (v, n) ↦ ground arith
]

resolve_start_bounds :
    (a b : Text) (size : ℕ) (r : ByteRange) → resolve_start a b size ≡ satisfiable r → InFile size r
unfolding resolve_start
resolve_start_bounds a b size r e = elim (Option-cases (parse_decimal a)) [
  | inl n ↦ ground arith
  | inr (v, n) ↦ ground (arith, resolve_end_bounds v b size r)
]

resolve_range_bounds :
    (a b : Text) (size : ℕ) (r : ByteRange) → resolve_range a b size ≡ satisfiable r → InFile size r
unfolding resolve_range
resolve_range_bounds a b size r e =
    ground (arith, resolve_suffix_bounds b size r, resolve_start_bounds a b size r)

-- Whatever the header says, a range that is served is not empty and lies in the file.
pub parse_single_byte_range_bounds :
    (value : Text) (size : ℕ) (r : ByteRange)
    → parse_single_byte_range value size ≡ satisfiable r
    → (r.start ≤ r.last) × (r.last < size)
unfolding parse_single_byte_range
parse_single_byte_range_bounds value size r e =
    elim (Bool-cases (any (λ c. c == 44) (strip value))) [
      | inl k ↦ absurd (ground arith)
      | inr k ↦ elim (Option-cases (match_range (strip value))) [
        | inl m ↦ absurd (ground arith)
        | inr ((a, b), m) ↦ resolve_range_bounds a b size r (ground arith)
      ]
    ]
