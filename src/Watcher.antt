-- ===== src/Watcher.antt =====
-- watcher/folder_watcher.py, watcher/file_hash_cache.py and watcher/upload_client.py: new files of a
-- watched folder are sent to the upload API. What the file system and the server answer is given as
-- a function of the attempt; the pauses between attempts have no effect.
pub mod Stable
pub mod Sending
pub mod Visits
pub mod Queue
use tc_backend.WorkerStatus.{any}
use tc_backend.Table.Rows.{update_where}
use tc_backend.Prelude.{
  ℕ, zero, suc, ◌+◌, ◌-◌, ◌*◌, ◌/◌, ◌%◌, ◌≤◌, ◌<◌, ◌≡◌, refl, sym, ap, subst, ◌∙◌, ◌≢◌, ◌↔◌, ◌⊎◌,
  inl, inr, Bool, true, false, not, ◌&&◌, ◌||◌, Option, none, some, List, [], ◌∷◌, ◌++◌, map, arith,
  String, str_eq, eq_iff, ltb, leb, ◌==◌, ==_iff, if◌then◌else◌, Bool-cases, Option-cases, is_null,
  null_lt, null_eq, or_default, length, take, drop, first, All, Has, Unique, All-take, Unique-take,
  All-map,
}

-- what a look at the file gives: it is gone, its size cannot be read, or its size
pub data Observation : Type 0 where
  gone locked_file : Observation
  sized : ℕ → Observation

-- `STABLE_CHECKS` and `FILE_LOCK_RETRIES`
abbrev pub stable_checks : ℕ
stable_checks = 3

abbrev pub file_lock_retries : ℕ
file_lock_retries = 5

-- `last_size is not None and size == last_size and size > 0`
unfoldable pub is_repeated : Option ℕ → ℕ → Bool
is_repeated none size = false
is_repeated (some last) size = size == last && ltb 0 size

-- The loop of `_wait_until_stable` with its remaining rounds, from an attempt on.
unfoldable pub watch_rounds : ℕ → (ℕ → Observation) → ℕ → Option ℕ → ℕ → Bool
unfolding is_repeated
watch_rounds zero observe attempt last count = false
watch_rounds (suc rounds) observe attempt last count = elim (observe attempt) [
  | gone ↦ false
  | locked_file ↦ watch_rounds rounds observe (suc attempt) last count
  | sized size ↦
      let next = if is_repeated last size then suc count else 0 in
      let more = watch_rounds rounds observe (suc attempt) (some size) next in
      if is_repeated last size && leb stable_checks next then true else more
]

unfoldable pub wait_until_stable : (ℕ → Observation) → Bool
unfolding watch_rounds
wait_until_stable observe = watch_rounds (stable_checks * 5) observe 0 none 0

-- an attempt at a file that another program may hold: a result, an OSError, or another exception
pub data Attempt (A : Type 0) : Type 0 where
  attempt_done : A → Attempt A
  os_error other_error : Attempt A

-- The loops of `_compute_sha256_with_retry` and `_copy_with_retry`; `none` is an exception.
unfoldable pub with_retry : {A : Type 0} → ℕ → (ℕ → Attempt A) → ℕ → Option A
with_retry zero attempts n = none
with_retry (suc retries) attempts n = elim (attempts n) [
  | attempt_done a ↦ some a
  | os_error ↦ with_retry retries attempts (suc n)
  | other_error ↦ none
]

-- what a POST gives: an answer with its status and, where it is a JSON object, its payload; a
-- RequestException; or an exception that the client does not catch, as of an answer that is JSON but no
-- object. The server may have taken the file in each of these.
pub data Post (P : Type 0) : Type 0 where
  answered : ℕ → Option P → Post P
  request_error uncaught_error : Post P

pub data Upload (P : Type 0) : Type 0 where
  uploaded : P → Upload P
  client_error unexpected_error : Upload P

-- one round of the loop of `upload`: `none` goes on to the next attempt
unfoldable pub read_answer : {P : Type 0} → Post P → Option (Upload P)
read_answer (answered status none) = none
read_answer (answered status (some payload)) =
    if leb 400 status then none else some (uploaded payload)
read_answer request_error = none
read_answer uncaught_error = some unexpected_error

-- `UploadClient.upload`, with the attempts that are left: the result, and how many requests were
-- sent
unfoldable pub upload : {P : Type 0} → ℕ → (ℕ → Post P) → ℕ → Upload P × ℕ
unfolding read_answer
upload zero post n = (client_error, n)
upload (suc retries) post n = elim (read_answer (post n)) [
  | none ↦ upload retries post (suc n)
  | some result ↦ (result, suc n)
]

-- a row of watch_file_cache
pub record CacheRow : Type 0 where
  pub hash : String
  pub file_path : String
  pub last_upload : ℕ

unfoldable pub has_hash : String → List CacheRow → Bool
has_hash hash [] = false
has_hash hash (row ∷ rows) = str_eq row.hash hash || has_hash hash rows

-- `FileHashCache.add`: INSERT, or UPDATE of the row with the hash
unfoldable pub add_hash : String → String → ℕ → List CacheRow → List CacheRow
unfolding has_hash update_where
add_hash hash path now rows =
    if has_hash hash rows
    then update_where (λ row. str_eq row.hash hash)
        (λ row. record row { file_path = path; last_upload = now }) rows
    else rows ++ record { hash = hash; file_path = path; last_upload = now } ∷ []

-- `_is_supported`, of the lower-case extension without its dot
unfoldable pub is_supported : List String → String → Bool
is_supported extensions extension =
    not (str_eq extension "") && any (λ known. str_eq known extension) extensions

-- a file that the queue hands out, with all that its processing meets
pub record Visit (P : Type 0) : Type 0 where
  pub path : String
  pub extension : String
  pub observe : ℕ → Observation
  pub hash_attempts : ℕ → Attempt String
  pub copy_attempts : ℕ → Attempt String
  pub post : ℕ → Post P
  pub now : ℕ
  -- the SELECT of the cache raises no exception, nor does its INSERT, which stores nothing where it does
  pub is_readable : Bool
  pub is_writable : Bool
  -- nor does the removal of the temporary copy
  pub is_removed : Bool

-- the cache, and the hash of what each POST sent, latest first
pub record Sent : Type 0 where
  pub cache : List CacheRow
  pub requests : List String

unfoldable pub log_requests : ℕ → String → List String → List String
log_requests zero hash requests = requests
log_requests (suc n) hash requests = hash ∷ log_requests n hash requests

-- `process_file` after the upload, its `finally` and its handlers included
unfoldable pub finish_upload : {P : Type 0} → Visit P → String → Upload P → Sent → Bool × Sent
unfolding add_hash
finish_upload visit hash (uploaded payload) sent =
    if visit.is_writable
    then (visit.is_removed, record sent { cache = add_hash hash visit.path visit.now sent.cache })
    else (false, sent)
finish_upload visit hash client_error sent = (false, sent)
finish_upload visit hash unexpected_error sent = (false, sent)

-- `process_file` from the temporary copy on
unfoldable pub send_copy : {P : Type 0} → ℕ → Visit P → String → Option String → Sent → Bool × Sent
unfolding upload log_requests finish_upload
send_copy retry_count visit hash none sent = (false, sent)
send_copy retry_count visit hash (some copy) sent =
    let (result, n) = upload retry_count visit.post 0 in
    finish_upload visit hash result (record sent { requests = log_requests n hash sent.requests })

-- `process_file` from the hash on
unfoldable pub send_hashed : {P : Type 0} → ℕ → Visit P → Option String → Sent → Bool × Sent
unfolding with_retry has_hash send_copy
send_hashed retry_count visit none sent = (false, sent)
send_hashed retry_count visit (some hash) sent =
    if not visit.is_readable || has_hash hash sent.cache
    then (false, sent)
    else send_copy retry_count visit hash (with_retry file_lock_retries visit.copy_attempts 0) sent

unfoldable pub process_file : {P : Type 0} → List String → ℕ → Visit P → Sent → Bool × Sent
unfolding is_supported wait_until_stable with_retry send_hashed
process_file extensions retry_count visit sent =
    if not (is_supported extensions visit.extension) || not (wait_until_stable visit.observe)
    then (false, sent)
    else send_hashed retry_count visit (with_retry file_lock_retries visit.hash_attempts 0) sent

-- the files that the worker thread takes from the queue, one after the other
unfoldable pub process_files : {P : Type 0} → List String → ℕ → List (Visit P) → Sent → Sent
unfolding process_file
process_files extensions retry_count [] sent = sent
process_files extensions retry_count (visit ∷ visits) sent =
    process_files extensions retry_count visits (process_file extensions retry_count visit sent).1
