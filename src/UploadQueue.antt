-- ===== src/UploadQueue.antt =====
-- app/common/repositories/upload_job_repository.py: the operations of the upload queue on the rows
-- of common_upload_jobs. Each returns the committed rows beside its result; `locked` says which
-- rows another transaction holds, for SKIP LOCKED. The proofs are in the modules below.
pub mod Lease
pub mod Finish
pub mod Claim
pub mod ClaimedWorker
pub mod Recover
pub mod Lifecycle
pub mod Operations
pub mod Counts
pub mod Steps
use tc_backend.Prelude.{
  ℕ, ◌+◌, ◌-◌, ◌*◌, String, Bool, true, false, not, ◌&&◌, ◌||◌, Option, none, some, List, [], ◌∷◌,
  ◌++◌, map, ltb, leb, ◌==◌, if◌then◌else◌, str_eq, is_null, null_lt, null_eq, or_default, length,
  take, first,
}
use tc_backend.Table.Rows.{select, first_where, update_where, count_where}
use tc_backend.Table.Order.{order_by}
use tc_backend.ClaimLog.{Text, codes, newline_mark, extract_claimed_worker}
use tc_backend.UploadJob.{
  UploadJob, UploadJobStatus, waiting, processing, completed, failed, is_waiting, is_processing,
  has_status,
}

pub data Dialect : Type 0 where
  postgresql other : Dialect

-- the sequence of the primary key stands beside the rows
pub record UploadTable : Type 0 where
  pub rows : List UploadJob
  pub next_id : ℕ

pub record NewUploadJob : Type 0 where
  pub job_id : String
  pub source_type : String
  pub incoming_path : String
  pub service_name : String
  pub client_file_id : Option String
  pub client_content_sha256 : Option String
  pub processing_log : Option Text

-- _SERVICE_CLAIM_PRIORITIES and its default
unfoldable pub claim_priority : String → ℕ
claim_priority service = if str_eq service "AstroJournal" then 0 else 100

-- ORDER BY service priority, created_at, id
unfoldable pub claim_le : UploadJob → UploadJob → Bool
claim_le a b =
    let p = claim_priority a.service_name in
    let q = claim_priority b.service_name in
    ltb p q
    || (p == q
        && (ltb a.created_at b.created_at || (a.created_at == b.created_at && leb a.id b.id)))

abbrev pub has_id : ℕ → UploadJob → Bool
has_id i r = r.id == i

abbrev pub has_job_id : String → UploadJob → Bool
has_job_id j r = str_eq r.job_id j

abbrev pub has_client_file_id : String → String → UploadJob → Bool
has_client_file_id service client r =
    str_eq r.service_name service && null_eq r.client_file_id client

-- the unique indexes on job_id and on (service_name, client_file_id)
unfoldable pub violates_unique : NewUploadJob → UploadJob → Bool
violates_unique n r = str_eq r.job_id n.job_id || (elim n.client_file_id [
  | none ↦ false
  | some client ↦ has_client_file_id n.service_name client r
])

abbrev pub new_row : NewUploadJob → ℕ → ℕ → UploadJob
new_row n id now = record {
  id = id;
  job_id = n.job_id;
  source_type = n.source_type;
  status = waiting;
  incoming_path = n.incoming_path;
  service_name = n.service_name;
  client_file_id = n.client_file_id;
  client_content_sha256 = n.client_content_sha256;
  file_id = none;
  retry_count = 0;
  error_message = none;
  created_at = now;
  started_at = none;
  completed_at = none;
  processing_log = n.processing_log;
}

-- `none` is an IntegrityError.
unfoldable pub create_waiting_job :
    NewUploadJob → ℕ → UploadTable → Option (UploadJob × UploadTable)
unfolding violates_unique count_where
create_waiting_job n now t =
    if count_where (violates_unique n) t.rows == 0
    then some (
      new_row n t.next_id now,
      record { rows = t.rows ++ new_row n t.next_id now ∷ []; next_id = t.next_id + 1 },
    )
    else none

unfoldable pub get_by_client_file_id : String → String → List UploadJob → Option UploadJob
unfolding first_where
get_by_client_file_id service client rows = first_where (has_client_file_id service client) rows

unfoldable pub get : String → List UploadJob → Option UploadJob
get job_id rows = first_where (has_job_id job_id) rows

-- An empty hash is falsy too.
abbrev pub has_hash : Option String → Bool
has_hash none = false
has_hash (some h) = not (str_eq h "")

unfoldable pub set_client_content_sha256_if_missing :
    UploadJob → String → List UploadJob → List UploadJob × UploadJob
set_client_content_sha256_if_missing job sha rows =
    if has_hash job.client_content_sha256 then (rows, job) else (
      update_where (has_id job.id) (λ r. record r { client_content_sha256 = some sha }) rows,
      record job { client_content_sha256 = some sha },
    )

-- the columns that a claim writes
abbrev pub write_claim : ℕ → Text → UploadJob → UploadJob
write_claim now log r = record r {
  status = processing;
  started_at = some now;
  completed_at = none;
  error_message = none;
  processing_log = some log;
}

unfoldable pub claim_line : Text → Text
claim_line worker = codes "CLAIMED worker=" ++ (worker ++ newline_mark)

unfoldable pub start_line : Text
start_line = codes "START" ++ newline_mark

unfoldable pub claimed_log : Text → UploadJob → Text
claimed_log worker job = or_default job.processing_log [] ++ (claim_line worker ++ start_line)

unfoldable pub next_waiting : (UploadJob → Bool) → List UploadJob → Option UploadJob
next_waiting locked rows =
    first (order_by claim_le (select (λ r. is_waiting r.status && not (locked r)) rows))

unfoldable pub get_next_waiting_job : List UploadJob → Option UploadJob
get_next_waiting_job rows = first (order_by claim_le (select (λ r. is_waiting r.status) rows))

unfoldable pub claim_postgres :
    (UploadJob → Bool) → Text → ℕ → List UploadJob → List UploadJob × Option UploadJob
claim_postgres locked worker now rows = elim (next_waiting locked rows) [
  | none ↦ (rows, none)
  | some job ↦ (
    update_where (has_id job.id) (write_claim now (claimed_log worker job)) rows,
    some (write_claim now (claimed_log worker job) job),
  )
]

-- the conditional UPDATE of the fallback, on the row that the transaction read before
unfoldable pub claim_if_waiting :
    Text → ℕ → UploadJob → List UploadJob → List UploadJob × Option UploadJob
claim_if_waiting worker now job rows =
    let p = λ (r : UploadJob). has_id job.id r && is_waiting r.status in
    let rows' = update_where p (write_claim now (claimed_log worker job)) rows in
    if count_where p rows == 0 then (rows, none) else (rows', first_where (has_id job.id) rows')

unfoldable pub claim_fallback : Text → ℕ → List UploadJob → List UploadJob × Option UploadJob
claim_fallback worker now rows = elim (get_next_waiting_job rows) [
  | none ↦ (rows, none)
  | some job ↦ claim_if_waiting worker now job rows
]

unfoldable pub claim_next_waiting_job :
    Dialect → (UploadJob → Bool) → Text → ℕ → List UploadJob → List UploadJob × Option UploadJob
claim_next_waiting_job postgresql locked worker now rows = claim_postgres locked worker now rows
claim_next_waiting_job other locked worker now rows = claim_fallback worker now rows
