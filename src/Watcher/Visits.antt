-- ===== src/Watcher/Visits.antt =====
-- A file that is sent, and what a sequence of files sends.
use tc_backend.Watcher.Stable.{wait_until_stable_lem, IsSteady}
use tc_backend.Table.Rows.{count_where}
use tc_backend.Watcher.{
  log_requests, file_lock_retries, with_retry, wait_until_stable, send_copy, process_file,
  process_files, send_hashed, finish_upload, is_supported, CacheRow, Upload, Sent, Visit, upload,
  add_hash, has_hash, uploaded, client_error, unexpected_error,
}
use tc_backend.Prelude.{
  ◌≤◌, ◌&&◌, if◌then◌else◌, ℕ, zero, suc, ◌≡◌, refl, sym, ap, ◌∙◌, ◌⊎◌, inl, inr, Bool, true, false,
  not, ◌||◌, Option, none, some, List, [], ◌∷◌, arith, String, str_eq, eq_iff, Bool-cases,
  Option-cases,
}
use tc_backend.Watcher.Sending.{IsTaken, is_uploaded, upload_count, upload_outcome, has_hash-add}

-- What a visit does. It sends nothing, answers false and changes nothing; or it sends a file that was
-- steady and of a supported extension and whose hash was not in the cache, in at most `retry_count`
-- requests. Then the cache has the hash if the upload returned and the cache could be written, and is
-- as before otherwise; it answers true if moreover the copy could be removed.
abbrev pub Visited : {P : Type 0} → List String → ℕ → Visit P → Sent → Bool → Sent → Type 0
Visited extensions retry_count visit sent ok after =
    ((ok ≡ false) × (after ≡ sent))
    ⊎ ((hash : String) × (let (result, n) = upload retry_count visit.post 0 in
          let stored = is_uploaded result && visit.is_writable in
          (with_retry file_lock_retries visit.hash_attempts 0 ≡ some hash)
          × (is_supported extensions visit.extension ≡ true)
          × IsSteady visit.observe 15
          × (has_hash hash sent.cache ≡ false)
          × (n ≤ retry_count)
          × (after ≡ record {
            cache = if stored then add_hash hash visit.path visit.now sent.cache else sent.cache;
            requests = log_requests n hash sent.requests;
          })
          × (ok ≡ (stored && visit.is_removed))
          × ((is_uploaded result ≡ false) ⊎ IsTaken visit.post retry_count)))

finish_upload_lem :
    {P : Type 0} (visit : Visit P) (hash : String) (result : Upload P) (sent : Sent)
    → let stored = is_uploaded result && visit.is_writable in
      finish_upload visit hash result sent ≡ (
        (stored && visit.is_removed),
        record {
          cache = if stored then add_hash hash visit.path visit.now sent.cache else sent.cache;
          requests = sent.requests;
        },
      )
unfolding finish_upload
finish_upload_lem visit hash (uploaded payload) sent = elim (Bool-cases visit.is_writable) [
  | inl e ↦ rw e refl
  | inr e ↦ rw e refl
]
finish_upload_lem visit hash client_error sent = refl
finish_upload_lem visit hash unexpected_error sent = refl

send_hashed_lem :
    {P : Type 0} (extensions : List String) (retry_count : ℕ) (visit : Visit P)
    (hash : Option String) (sent : Sent)
    → with_retry file_lock_retries visit.hash_attempts 0 ≡ hash
    → is_supported extensions visit.extension ≡ true
    → IsSteady visit.observe 15
    → let (ok, after) = send_hashed retry_count visit hash sent in
      Visited extensions retry_count visit sent ok after
unfolding send_hashed send_copy
send_hashed_lem extensions retry_count visit none sent h s w = inl (refl, refl)
send_hashed_lem extensions retry_count visit (some hash) sent h s w =
    elim (Bool-cases (not visit.is_readable || has_hash hash sent.cache)) [
      | inl e ↦ rw e (inl (refl, refl))
      | inr e ↦ elim (Option-cases (with_retry file_lock_retries visit.copy_attempts 0)) [
        | inl c ↦ rw e (rw c (inl (refl, refl)))
        | inr (copy, c) ↦
            let (result, n) = upload retry_count visit.post 0 in
            let f =
              finish_upload_lem visit hash result
                (record sent { requests = log_requests n hash sent.requests }) in
            rw e (
              rw c (
                inr (
                  hash,
                  (
                    h,
                    s,
                    w,
                    ground (arith, e),
                    (let c = upload_count retry_count visit.post 0 in omega arith),
                    ap (λ x. x.1) f,
                    ap (λ x. x.0) f,
                    upload_outcome retry_count visit.post result refl,
                  ),
                )))
      ]
    ]

neither : (a b : Bool) → (not a || not b) ≡ false → (a ≡ true) × (b ≡ true)
neither true b e = (refl, ground arith)
neither false b e = absurd (ground arith)

-- A visit of `process_file` either sends nothing, answers false and changes nothing, or sends a file
-- that has a supported extension, showed one positive size four times in a row within fifteen looks,
-- and whose hash was not in the cache, in at most `retry_count` requests. In the second case: the hash
-- is stored in the cache if the upload returned and the cache could be written, and the cache is as
-- before otherwise; the answer is true if moreover the temporary copy could be removed; and an upload
-- returned only where the server answered one of the attempts with a status below 400 and a readable
-- payload.
pub process_file_lem :
    {P : Type 0} (extensions : List String) (retry_count : ℕ) (visit : Visit P) (sent : Sent)
    → let (ok, after) = process_file extensions retry_count visit sent in
      Visited extensions retry_count visit sent ok after
unfolding process_file
process_file_lem extensions retry_count visit sent =
    elim (Bool-cases
      (not (is_supported extensions visit.extension) || not (wait_until_stable visit.observe))) [
        | inl e ↦ rw e (inl (refl, refl))
        | inr e ↦
            let (supported, steady) = neither _ _ e in
            rw e (
              send_hashed_lem extensions retry_count visit _ sent refl supported
                (wait_until_stable_lem visit.observe steady))
      ]

-- the requests that sent a content
abbrev pub times_sent : String → Sent → ℕ
times_sent hash sent = count_where (λ h. str_eq h hash) sent.requests

-- The content is known, and was not sent again.
abbrev IsDone : String → Sent → Sent → Type 0
IsDone hash sent after =
    (has_hash hash after.cache ≡ true) × (times_sent hash after ≡ times_sent hash sent)

other_requests :
    (n : ℕ) (other hash : String) (requests : List String)
    → str_eq other hash ≡ false
    → count_where (λ h. str_eq h hash) (log_requests n other requests)
      ≡ count_where (λ h. str_eq h hash) requests
unfolding log_requests count_where
other_requests zero other hash requests e = refl
other_requests (suc n) other hash requests e =
    ground (arith, e, other_requests n other hash requests e)

not_cached :
    (other hash : String) (rows : List CacheRow)
    → has_hash other rows ≡ false
    → has_hash hash rows ≡ true
    → str_eq other hash ≡ false
not_cached other hash rows e h = elim (Bool-cases (str_eq other hash)) [
  | inl t ↦
      let same : other ≡ hash = (eq_iff other hash).0 t in
      let there : has_hash other rows ≡ true = rw same h in absurd (ground arith)
  | inr t ↦ t
]

stored_or_not :
    (stored : Bool) (hash other path : String) (now : ℕ) (rows : List CacheRow)
    → has_hash hash rows ≡ true
    → has_hash hash (if stored then add_hash other path now rows else rows) ≡ true
stored_or_not true hash other path now rows h =
    rw (has_hash-add hash other path now rows) (rw h refl)
stored_or_not false hash other path now rows h = h

Visited-IsDone :
    {P : Type 0} (extensions : List String) (retry_count : ℕ) (visit : Visit P) (hash : String)
    (sent : Sent) (ok : Bool) (after : Sent)
    → has_hash hash sent.cache ≡ true
    → Visited extensions retry_count visit sent ok after
    → IsDone hash sent after
Visited-IsDone extensions retry_count visit hash sent ok after h (inl (_, same)) = rw same (h, refl)
Visited-IsDone extensions retry_count visit hash sent ok after h
      (inr (other, (_, _, _, new, _, same, _, _))) =
    rw same (
      stored_or_not _ hash other visit.path visit.now sent.cache h,
      other_requests _ other hash sent.requests (not_cached other hash sent.cache new h),
    )

process_files-IsDone :
    {P : Type 0} (extensions : List String) (retry_count : ℕ) (visits : List (Visit P))
    (hash : String) (sent : Sent)
    → has_hash hash sent.cache ≡ true
    → IsDone hash sent (process_files extensions retry_count visits sent)
unfolding process_files
process_files-IsDone extensions retry_count [] hash sent h = (h, refl)
process_files-IsDone extensions retry_count (visit ∷ visits) hash sent h =
    let (there, step) =
      Visited-IsDone extensions retry_count visit hash sent _ _ h
        (process_file_lem extensions retry_count visit sent) in
    let (kept, rest) = process_files-IsDone extensions retry_count visits hash _ there in
    (kept, rest ∙ step)

both : (a b c : Bool) → (true ≡ ((a && b) && c)) → (a ≡ true) × ((a && b) ≡ true)
both true true c e = (refl, refl)
both true false c e = absurd (ground arith)
both false b c e = absurd (ground arith)

-- After a visit that answers true, its content is done: its hash was not in the cache before, the
-- server has answered one of the visit's requests with a status below 400 and a readable payload, and
-- whatever files are visited afterwards, in whatever order, however often and with whatever failures,
-- the hash stays in the cache and no request sends that content again.
pub process_files_once :
    {P : Type 0} (extensions : List String) (retry_count : ℕ) (visit : Visit P)
    (visits : List (Visit P)) (sent : Sent)
    → (process_file extensions retry_count visit sent).0 ≡ true
    → let done = (process_file extensions retry_count visit sent).1 in
      let after = process_files extensions retry_count visits done in
      (hash : String) × (with_retry file_lock_retries visit.hash_attempts 0 ≡ some hash)
      × (has_hash hash sent.cache ≡ false)
      × IsTaken visit.post retry_count
      × (has_hash hash after.cache ≡ true)
      × (times_sent hash after ≡ times_sent hash done)
process_files_once extensions retry_count visit visits sent success =
    elim (process_file_lem extensions retry_count visit sent) [
      | inl (failure, _) ↦ absurd (ground (arith, success, failure))
      | inr (hash, (h, _, _, new, _, same, ok, taken)) ↦
          let (returned, stored) =
            both (is_uploaded (upload retry_count visit.post 0).0) visit.is_writable
              visit.is_removed (sym success ∙ ok) in
          let there : has_hash hash (process_file extensions retry_count visit sent).1.cache
              ≡ true =
            rw same (
              rw stored (
                rw (has_hash-add hash hash visit.path visit.now sent.cache)
                  (rw new ((eq_iff hash hash).1 refl)))) in
          let (kept, rest) =
            process_files-IsDone extensions retry_count visits hash
              (process_file extensions retry_count visit sent).1 there in
          let took : IsTaken visit.post retry_count = elim taken [
            | inl lost ↦ absurd (ground (arith, returned, lost))
            | inr t ↦ t
          ] in
          (hash, h, new, took, kept, rest)
    ]
