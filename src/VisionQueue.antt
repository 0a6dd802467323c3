-- ===== src/VisionQueue.antt =====
-- app/common/repositories/vision_job_repository.py: the operations of the Vision queue on the rows
-- of common_vision_jobs, and `_enqueue_vision_job` of worker/background_worker.py. The proofs are in
-- the modules below.
pub mod Create
pub mod Recover
pub mod Claim
use tc_backend.Prelude.{
  ℕ, zero, suc, ◌+◌, ◌-◌, ◌*◌, Bool, true, false, not, ◌&&◌, ◌||◌, Option, none, some, List, [],
  ◌∷◌, ◌++◌, ltb, leb, ◌==◌, if◌then◌else◌, is_null, null_lt, or_default, length, take, first,
}
use tc_backend.Table.Rows.{select, first_where, update_where, count_where, map_some}
use tc_backend.Table.Order.{order_by}
use tc_backend.ClaimLog.{Text, codes}
use tc_backend.WorkerStatus.{WorkerStatus, is_protected}
use tc_backend.Priority.{calculate}
use tc_backend.VisionJob.{
  VisionJob, VisionJobStatus, waiting, processing, completed, failed, is_waiting, is_processing,
  is_completed, is_blocking_status, VisionProvider, google,
}

pub record VisionTable : Type 0 where
  pub rows : List VisionJob
  pub next_id : ℕ

abbrev pub has_id : ℕ → VisionJob → Bool
has_id i r = r.id == i

-- a row that keeps another job for its file from being created
unfoldable pub is_blocking : ℕ → VisionJob → Bool
is_blocking file_id r = r.file_id == file_id && (not r.deleted && is_blocking_status r.status)

-- ORDER BY id DESC
abbrev pub newest_le : VisionJob → VisionJob → Bool
newest_le a b = leb b.id a.id

unfoldable pub get_blocking_status : ℕ → List VisionJob → Option VisionJobStatus
get_blocking_status file_id rows =
    map_some (λ r. r.status) (first (order_by newest_le (select (is_blocking file_id) rows)))

abbrev pub new_row : ℕ → ℕ → ℕ → VisionProvider → ℕ → VisionJob
new_row id file_id priority provider now = record {
  id = id;
  file_id = file_id;
  priority = priority;
  status = waiting;
  retry_count = 0;
  vision_provider = provider;
  requested_at = some now;
  started_at = none;
  completed_at = none;
  last_error = none;
  deleted = false;
}

unfoldable pub create :
    ℕ → ℕ → VisionProvider → Bool → ℕ → VisionTable → VisionTable × Option VisionJob
create file_id priority provider skip_duplicate_check now t =
    let job = new_row t.next_id file_id priority provider now in
    let created : VisionTable = record { rows = t.rows ++ job ∷ []; next_id = t.next_id + 1 } in
    if skip_duplicate_check || is_null (get_blocking_status file_id t.rows)
    then (created, some job)
    else (t, none)

-- requested_at DESC, where PostgreSQL puts NULL first
abbrev pub null_rank : Option ℕ → ℕ
null_rank none = 0
null_rank (some _) = 1

-- ORDER BY priority DESC, requested_at DESC, id DESC
unfoldable pub queue_le : VisionJob → VisionJob → Bool
queue_le a b =
    let r = null_rank a.requested_at in
    let s = null_rank b.requested_at in
    let v = or_default a.requested_at 0 in
    let w = or_default b.requested_at 0 in
    ltb b.priority a.priority
    || (a.priority == b.priority && (ltb r s || (r == s && (ltb w v || (v == w && leb b.id a.id)))))

unfoldable pub get_waiting_jobs : ℕ → List VisionJob → List VisionJob
get_waiting_jobs limit rows =
    take limit (order_by queue_le (select (λ r. is_waiting r.status && not r.deleted) rows))

unfoldable pub get_next_waiting_job : List VisionJob → Option VisionJob
unfolding get_waiting_jobs
get_next_waiting_job rows = first (get_waiting_jobs 1 rows)

-- the row is read again after the commit
unfoldable pub mark_processing : VisionJob → ℕ → List VisionJob → List VisionJob × Option VisionJob
mark_processing job now rows =
    let p = λ (r : VisionJob). has_id job.id r && (is_waiting r.status && not r.deleted) in
    let rows' =
      update_where p
        (λ r. record r {
          status = processing;
          started_at = some now;
          completed_at = none;
          last_error = none;
        })
        rows in
    if count_where p rows == 1 then (rows', first_where (has_id job.id) rows') else (rows, none)

unfoldable pub mark_completed : VisionJob → ℕ → List VisionJob → List VisionJob
mark_completed job now rows =
    update_where (has_id job.id)
      (λ r. record r { status = completed; completed_at = some now; last_error = none }) rows

unfoldable pub mark_waiting : VisionJob → List VisionJob → List VisionJob
mark_waiting job rows =
    update_where (has_id job.id)
      (λ r. record r {
        status = waiting;
        started_at = none;
        completed_at = none;
        last_error = none;
      })
      rows

unfoldable pub mark_failed : VisionJob → Text → ℕ → List VisionJob → List VisionJob
mark_failed job message now rows =
    update_where (has_id job.id)
      (λ r. record r {
        status = failed;
        retry_count = job.retry_count + 1;
        last_error = some message;
        completed_at = some now;
      })
      rows

-- `_stale_query`
unfoldable pub is_stale : ℕ → (ℕ → Bool) → VisionJob → Bool
is_stale stale_before protected r =
    not r.deleted
    && (is_processing r.status
        && (is_null r.completed_at
            && (not (is_null r.started_at)
                && (null_lt r.started_at stale_before && not (protected r.id)))))

-- ORDER BY started_at, id; the rows that are ordered have a started_at.
unfoldable pub stale_le : VisionJob → VisionJob → Bool
stale_le a b =
    let s = or_default a.started_at 0 in
    let t = or_default b.started_at 0 in ltb s t || (s == t && leb a.id b.id)

-- `_reset_stale_job`
abbrev pub reset_stale_job : VisionJob → VisionJob
reset_stale_job r = record r {
  status = waiting;
  started_at = none;
  completed_at = none;
  last_error = none;
}

unfoldable pub reset_each : List VisionJob → List VisionJob → List VisionJob
reset_each [] rows = rows
reset_each (job ∷ jobs) rows = reset_each jobs (update_where (has_id job.id) reset_stale_job rows)

unfoldable pub stale_jobs :
    ℕ → (ℕ → Bool) → (VisionJob → Bool) → ℕ → List VisionJob → List VisionJob
stale_jobs stale_before protected locked limit rows =
    take limit
      (order_by stale_le (select (λ r. is_stale stale_before protected r && not (locked r)) rows))

-- `_recover_stale_rows`
unfoldable pub recover_stale_rows :
    ℕ → (ℕ → Bool) → (VisionJob → Bool) → ℕ → List VisionJob → List VisionJob × ℕ
recover_stale_rows stale_before protected locked limit rows =
    let jobs = stale_jobs stale_before protected locked limit rows in
    (reset_each jobs rows, length jobs)

unfoldable pub recover_stale_processing_jobs :
    ℕ
    → Text
    → ℕ
    → ℕ
    → ℕ
    → (VisionJob → Bool)
    → List WorkerStatus
    → List VisionJob
    → List VisionJob × ℕ
unfolding is_protected
recover_stale_processing_jobs stale_seconds prefix live_seconds limit now locked workers rows =
    let protected = is_protected prefix (now - live_seconds * 1000000) workers in
    if stale_seconds == 0 || (live_seconds == 0 || limit == 0)
    then (rows, 0)
    else recover_stale_rows (now - stale_seconds * 1000000) protected locked limit rows

unfoldable pub exists : ℕ → List VisionJob → Bool
exists file_id rows = not (
    is_null (
      first_where
        (λ r.
          r.file_id == file_id
          && (not r.deleted && (is_waiting r.status || is_processing r.status)))
        rows))

unfoldable pub is_vision_completed : ℕ → List VisionJob → Bool
is_vision_completed file_id rows = not (
    is_null
      (first_where (λ r. r.file_id == file_id && (not r.deleted && is_completed r.status)) rows))

pub data MediaCategory : Type 0 where
  image heic video legacy : MediaCategory

abbrev pub is_video : Option MediaCategory → Bool
is_video (some video) = true
is_video _ = false

abbrev pub is_heic : Option MediaCategory → Bool
is_heic (some heic) = true
is_heic _ = false

-- what `_enqueue_vision_job` reads of the plugin context; `during` is what others commit between its
-- check for a job of the file and its INSERT
pub record UploadContext : Type 0 where
  pub common_file : Option (ℕ × Option ℕ)
  pub media : Option MediaCategory
  pub has_preview : Bool
  pub has_gps : Bool
  pub during : VisionTable → VisionTable

pub data EnqueueLog : Type 0 where
  no_file video_skipped heic_derivative_unavailable already_exists vision_completed : EnqueueLog
  queue_created : ℕ → EnqueueLog

-- the second half: the priority, and the new row
unfoldable pub enqueue_with_status :
    UploadContext
    → ℕ
    → Option ℕ
    → Option VisionJobStatus
    → ℕ
    → VisionTable
    → VisionTable × EnqueueLog
enqueue_with_status context file_id created_at blocking now t =
    let done : Bool = elim blocking [ none ↦ false | some s ↦ is_completed s ] in
    let busy : Bool = elim blocking [ none ↦ false | some s ↦ is_waiting s || is_processing s ] in
    if busy
    then (t, already_exists)
    else elim (calculate created_at context.has_gps false done now) [
      | none ↦ (t, vision_completed)
      | some priority ↦
          ((create file_id priority google true now (context.during t)).0, queue_created priority)
    ]

unfoldable pub enqueue_vision_job : UploadContext → ℕ → VisionTable → VisionTable × EnqueueLog
enqueue_vision_job context now t = elim context.common_file [
  | none ↦ (t, no_file)
  | some (file_id, created_at) ↦
      if is_video context.media
      then (t, video_skipped)
      else if is_heic context.media && not context.has_preview
      then (t, heic_derivative_unavailable)
      else enqueue_with_status context file_id created_at (get_blocking_status file_id t.rows) now t
]
