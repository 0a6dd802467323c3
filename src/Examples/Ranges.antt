-- ===== src/Examples/Ranges.antt =====
-- The byte ranges of a small file.
use tc_backend.Decimal.{decimal}
use tc_backend.HttpRange.Printed.{parse_single_byte_range-range_header, range_header}
use tc_backend.HttpRange.Served.{parse_single_byte_range-iter_file_range, IsChunk, concat}
use tc_backend.ClaimLog.{is_space, codes}
use tc_backend.HttpRange.{
  parse_decimal, resolve_range, satisfiable, ByteRange, iter_file_range, parse_single_byte_range,
}
use tc_backend.Prelude.{ℕ, ◌≡◌, refl, some, List, [], ◌∷◌, arith, length, All}

abbrev ten_bytes : List ℕ
ten_bytes = 0 ∷ 1 ∷ 2 ∷ 3 ∷ 4 ∷ 5 ∷ 6 ∷ 7 ∷ 8 ∷ 9 ∷ []

abbrev last_three : ByteRange
last_three = record { start = 7; last = 9 }

suffix_run : parse_single_byte_range (codes " Bytes=-3 ") 10 ≡ satisfiable last_three
unfolding parse_single_byte_range is_space resolve_range parse_decimal
suffix_run = refl

chunks_run : iter_file_range ten_bytes 7 3 2 ≡ some ((7 ∷ 8 ∷ []) ∷ (9 ∷ []) ∷ [])
unfolding iter_file_range
chunks_run = refl

parse_single_byte_range-iter_file_range_example :
    (chunks : List (List ℕ)) × (iter_file_range ten_bytes 7 3 2 ≡ some chunks)
    × (concat chunks ≡ 7 ∷ 8 ∷ 9 ∷ [])
    × (length (concat chunks) ≡ 3)
    × All (IsChunk 2) chunks
parse_single_byte_range-iter_file_range_example =
    parse_single_byte_range-iter_file_range (codes " Bytes=-3 ") ten_bytes 2 last_three suffix_run
      (omega arith)

parse_single_byte_range-range_header_example :
    parse_single_byte_range (range_header 4 25) 10 ≡ satisfiable (record { start = 4; last = 9 })
unfolding decimal
parse_single_byte_range-range_header_example =
    parse_single_byte_range-range_header 4 25 10 (omega arith) (omega arith)
