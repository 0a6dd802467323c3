-- ===== src/HttpRange/Served.antt =====
-- The chunks of a response are the bytes of the range, and no more.
use tc_backend.HttpRange.Bounds.{parse_single_byte_range_bounds, InFile}
use tc_backend.ClaimLog.{Text}
use tc_backend.HttpRange.{
  range_length, iter_file_range, satisfiable, parse_single_byte_range, ByteRange, Text, is_empty,
  minimum, read_chunks,
}
use tc_backend.Prelude.{
  ℕ, zero, suc, ◌-◌, ◌≤◌, ◌<◌, ◌≡◌, refl, sym, ap, subst, ◌∙◌, inl, inr, true, false, some, List,
  [], ◌∷◌, ◌++◌, arith, ◌==◌, if◌then◌else◌, Bool-cases, length, take, drop, All,
}

abbrev pub concat {ℓ} : {A : Type ℓ} → List (List A) → List A
concat [] = []
concat (xs ∷ xss) = xs ++ concat xss

take_nil : (n : ℕ) → take {A = ℕ} n [] ≡ []
take_nil zero = refl
take_nil (suc n) = refl

take_split :
    (k n : ℕ) (xs : List ℕ)
    → k ≤ n
    → take k xs ++ take (n - length (take k xs)) (drop k xs) ≡ take n xs
take_split zero n xs h = ap (λ m. take m xs) (omega arith)
take_split (suc k) zero xs h = absurd (omega arith)
take_split (suc k) (suc n) [] h = take_nil _
take_split (suc k) (suc n) (x ∷ xs) h =
    ap (λ l. x ∷ l)
      (ap (λ m. take k xs ++ take m (drop k xs)) (omega arith) ∙ take_split k n xs (omega arith))

length-take_bound : (k : ℕ) (xs : List ℕ) → length (take k xs) ≤ k
length-take_bound zero xs = omega arith
length-take_bound (suc k) [] = omega arith
length-take_bound (suc k) (x ∷ xs) = let h = length-take_bound k xs in omega arith

length-take : (k : ℕ) (xs : List ℕ) → k ≤ length xs → length (take k xs) ≡ k
length-take zero xs h = refl
length-take (suc k) [] h = absurd (omega arith)
length-take (suc k) (x ∷ xs) h = ap suc (length-take k xs (omega arith))

length-drop : (k : ℕ) (xs : List ℕ) → length (drop k xs) ≡ length xs - k
length-drop zero xs = omega arith
length-drop (suc k) [] = omega arith
length-drop (suc k) (x ∷ xs) = let h = length-drop k xs in omega arith

read-empty : (k : ℕ) (xs : List ℕ) → is_empty (take (suc k) xs) ≡ true → xs ≡ []
read-empty k [] e = refl
read-empty k (x ∷ xs) e = absurd (ground arith)

read-ne-empty : (k : ℕ) (xs : List ℕ) → is_empty (take k xs) ≡ false → 0 < length (take k xs)
read-ne-empty zero xs e = absurd (ground arith)
read-ne-empty (suc k) [] e = absurd (ground arith)
read-ne-empty (suc k) (x ∷ xs) e = omega arith

-- a chunk is not empty, and not longer than a buffer
abbrev pub IsChunk : ℕ → List ℕ → Type 0
IsChunk size xs = (0 < length xs) × (length xs ≤ size)

abbrev Delivers : ℕ → ℕ → List ℕ → List (List ℕ) → Type 0
Delivers size remaining source chunks =
    (concat chunks ≡ take remaining source) × All (IsChunk size) chunks

not_zero : (n : ℕ) → (suc n == 0) ≡ false
not_zero n = ground arith

read_chunks_round :
    (fuel : ℕ) (source : List ℕ) (n size k : ℕ)
    → minimum size (suc n) ≡ suc k
    → read_chunks (suc fuel) source (suc n) size ≡ (
        if is_empty (take (suc k) source)
        then []
        else take (suc k) source
          ∷ read_chunks fuel (drop (suc k) source) (suc n - length (take (suc k) source)) size)
unfolding read_chunks
read_chunks_round fuel source n size k e = rw (not_zero n) (rw e refl)

Delivers-round :
    (source : List ℕ) (n size k : ℕ) (more : List (List ℕ))
    → suc k ≤ size
    → suc k ≤ suc n
    → (0 < length (take (suc k) source)
        → Delivers size (suc n - length (take (suc k) source)) (drop (suc k) source) more)
    → Delivers size
        (suc n)
        source
        (if is_empty (take (suc k) source) then [] else take (suc k) source ∷ more)
Delivers-round source n size k more small within rest =
    elim (Bool-cases (is_empty (take (suc k) source))) [
      | inl e ↦ rw e (rw (read-empty k source e) (refl, tt))
      | inr e ↦
          let bound = length-take_bound (suc k) source in
          let some_read = read-ne-empty (suc k) source e in
          let (ih, chunks) = rest some_read in
          rw e (
            ap (λ l. take (suc k) source ++ l) ih ∙ take_split (suc k) (suc n) source within,
            ((some_read, omega arith), chunks),
          )
    ]

read_chunks_lem :
    (fuel : ℕ) (source : List ℕ) (remaining size : ℕ)
    → remaining ≤ fuel
    → 0 < size
    → Delivers size remaining source (read_chunks fuel source remaining size)
read_chunks_lem zero source remaining size h p =
    let z : remaining ≡ 0 = omega arith in unfold read_chunks in rw z (refl, tt)
read_chunks_lem (suc fuel) source zero size h p = unfold read_chunks in (refl, tt)
read_chunks_lem (suc fuel) source (suc n) size h p =
    let k = minimum size (suc n) - 1 in
    let e : minimum size (suc n) ≡ suc k = ground arith in
    let small : suc k ≤ size = ground arith in
    let within : suc k ≤ suc n = ground arith in
    subst (Delivers size (suc n) source) (sym (read_chunks_round fuel source n size k e)) (
      Delivers-round source n size k _ small within
        (λ some_read. read_chunks_lem fuel (drop (suc k) source) _ size (omega arith) p))

served :
    (content : List ℕ) (r : ByteRange)
    → InFile (length content) r
    → length (take (range_length r) (drop r.start content)) ≡ range_length r
served content r (order, bound) =
    let rest = length-drop r.start content in
    length-take (range_length r) (drop r.start content) (omega arith)

-- What is streamed for a range that is served: the file is read to the end of the range without
-- an error, the chunks put together are the bytes of the file from the start of the range on, as
-- many as the range is long, and each chunk has at least one byte and at most `chunk_size`.
pub parse_single_byte_range-iter_file_range :
    (value : Text) (content : List ℕ) (chunk_size : ℕ) (r : ByteRange)
    → parse_single_byte_range value (length content) ≡ satisfiable r
    → 0 < chunk_size
    → (chunks : List (List ℕ)) × (iter_file_range content r.start (range_length r) chunk_size
        ≡ some chunks)
      × (concat chunks ≡ take (range_length r) (drop r.start content))
      × (length (concat chunks) ≡ range_length r)
      × All (IsChunk chunk_size) chunks
parse_single_byte_range-iter_file_range value content chunk_size r e p =
    let bounds = parse_single_byte_range_bounds value (length content) r e in
    let (bytes, chunks) =
      read_chunks_lem (range_length r) (drop r.start content) (range_length r) chunk_size
        (omega arith) p in
    let positive : (chunk_size == 0) ≡ false = ground arith in
    (
      read_chunks (range_length r) (drop r.start content) (range_length r) chunk_size,
      unfold iter_file_range in rw positive refl,
      bytes,
      ap length bytes ∙ served content r bounds,
      chunks,
    )
