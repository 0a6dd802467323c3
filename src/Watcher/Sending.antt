-- ===== src/Watcher/Sending.antt =====
-- The attempts of an upload, and the hashes in the cache.
use tc_backend.Table.Rows.{update_where}
use tc_backend.Watcher.{
  CacheRow, Upload, update_where, upload, add_hash, has_hash, read_answer, Post, answered,
  request_error, uncaught_error, uploaded, client_error, unexpected_error,
}
use tc_backend.Prelude.{
  ◌≤◌, ℕ, zero, suc, ◌+◌, ◌<◌, ◌≡◌, refl, sym, ap, ◌∙◌, ◌⊎◌, inl, inr, Bool, true, false, ◌||◌,
  none, some, List, [], ◌∷◌, ◌++◌, arith, String, str_eq, eq_iff, leb, Bool-cases, Option-cases,
}

-- the server took a file in one of its attempts
abbrev pub IsTaken : {P : Type 0} → (ℕ → Post P) → ℕ → Type 0
IsTaken {P} post limit =
    (i : ℕ) × (status : ℕ) × (payload : P) × (i < limit)
    × (post i ≡ answered status (some payload))
    × (status < 400)

IsTaken-weaken :
    {P : Type 0} (post : ℕ → Post P) (limit other : ℕ)
    → limit ≡ other
    → IsTaken post limit
    → IsTaken post other
IsTaken-weaken post limit other e h = rw (← e) h

read_answer_lem :
    {P : Type 0} (answer : Post P) (payload : P)
    → read_answer answer ≡ some (uploaded payload)
    → (status : ℕ) × (answer ≡ answered status (some payload)) × (status < 400)
unfolding read_answer
read_answer_lem (answered status none) payload e = absurd (ground arith)
read_answer_lem (answered status (some p)) payload e = elim (Bool-cases (leb 400 status)) [
  | inl t ↦ absurd (ground arith)
  | inr t ↦ let same : p ≡ payload = ground arith in (status, rw same refl, ground arith)
]
read_answer_lem request_error payload e = absurd (ground arith)
read_answer_lem uncaught_error payload e = absurd (ground arith)

upload-next :
    {P : Type 0} (retries : ℕ) (post : ℕ → Post P) (n : ℕ)
    → read_answer (post n) ≡ none
    → upload (suc retries) post n ≡ upload retries post (suc n)
unfolding upload
upload-next retries post n e = rw (e, upload) refl

upload-done :
    {P : Type 0} (retries : ℕ) (post : ℕ → Post P) (n : ℕ) (result : Upload P)
    → read_answer (post n) ≡ some result
    → upload (suc retries) post n ≡ (result, suc n)
unfolding upload
upload-done retries post n result e = rw (e, upload) refl

-- At most the given attempts are made, and a success is an answer to one of them.
pub upload_lem :
    {P : Type 0} (retries : ℕ) (post : ℕ → Post P) (n : ℕ) (payload : P)
    → (upload retries post n).0 ≡ uploaded payload
    → IsTaken post (n + retries)
upload_lem zero post n payload e = absurd (unfold upload in ground arith)
upload_lem (suc retries) post n payload e = elim (Option-cases (read_answer (post n))) [
  | inl r ↦ IsTaken-weaken post (suc n + retries) _ (omega arith) (
      upload_lem retries post (suc n) payload
        (ap (λ x. x.0) (sym (upload-next retries post n r)) ∙ e))
  | inr (result, r) ↦
      let same : result ≡ uploaded payload =
        ap (λ x. x.0) (sym (upload-done retries post n result r)) ∙ e in
      let (status, answer, ok) = read_answer_lem (post n) payload (r ∙ ap some same) in
      (n, status, payload, omega arith, answer, ok)
]

has_hash-append :
    (hash : String) (rows : List CacheRow) (row : CacheRow)
    → has_hash hash (rows ++ row ∷ []) ≡ (has_hash hash rows || str_eq row.hash hash)
unfolding has_hash
has_hash-append hash [] row = ground arith
has_hash-append hash (x ∷ xs) row = ground (arith, has_hash-append hash xs row)

has_hash-update :
    (hash : String) (p : CacheRow → Bool) (path : String) (now : ℕ) (rows : List CacheRow)
    → has_hash hash
        (update_where p (λ row. record row { file_path = path; last_upload = now }) rows)
      ≡ has_hash hash rows
unfolding has_hash update_where
has_hash-update hash p path now [] = refl
has_hash-update hash p path now (x ∷ xs) = ground (arith, has_hash-update hash p path now xs)

known :
    (other hash : String) (rows : List CacheRow)
    → has_hash hash rows ≡ true
    → has_hash other rows ≡ (has_hash other rows || str_eq hash other)
known other hash rows e = elim (Bool-cases (str_eq hash other)) [
  | inl t ↦
      let same : hash ≡ other = (eq_iff hash other).0 t in
      let there : has_hash other rows ≡ true = rw (← same) e in rw there refl
  | inr t ↦ rw t (ground arith)
]

-- The cache has what it had, and the hash that was added.
pub has_hash-add :
    (other hash path : String) (now : ℕ) (rows : List CacheRow)
    → has_hash other (add_hash hash path now rows) ≡ (has_hash other rows || str_eq hash other)
unfolding add_hash
has_hash-add other hash path now rows = elim (Bool-cases (has_hash hash rows)) [
  | inl e ↦ rw e (has_hash-update other _ path now rows ∙ known other hash rows e)
  | inr e ↦ rw e (has_hash-append other rows _)
]

abbrev pub is_uploaded : {P : Type 0} → Upload P → Bool
is_uploaded (uploaded payload) = true
is_uploaded client_error = false
is_uploaded unexpected_error = false

pub upload_count :
    {P : Type 0} (retries : ℕ) (post : ℕ → Post P) (n : ℕ) → (upload retries post n).1 ≤ n + retries
upload_count zero post n = unfold upload in omega arith
upload_count (suc retries) post n = elim (Option-cases (read_answer (post n))) [
  | inl r ↦
      rw (upload-next retries post n r) (let h = upload_count retries post (suc n) in omega arith)
  | inr (result, r) ↦ rw (upload-done retries post n result r) (omega arith)
]

pub upload_outcome :
    {P : Type 0} (retry_count : ℕ) (post : ℕ → Post P) (result : Upload P)
    → (upload retry_count post 0).0 ≡ result
    → (is_uploaded result ≡ false) ⊎ IsTaken post retry_count
upload_outcome retry_count post (uploaded payload) e = inr (
    IsTaken-weaken post (0 + retry_count) retry_count (omega arith)
      (upload_lem retry_count post 0 payload e))
upload_outcome retry_count post client_error e = inl refl
upload_outcome retry_count post unexpected_error e = inl refl
