-- ===== src/UploadQueue/Lease.antt =====
-- app/common/repositories/upload_job_repository.py: the lease of a PROCESSING job, and the recovery
-- of the jobs whose lease has run out.
use tc_backend.Prelude.{
  ℕ, ◌+◌, ◌-◌, ◌*◌, String, Bool, true, false, not, ◌&&◌, ◌||◌, none, some, List, [], ◌∷◌, ◌++◌,
  map, ltb, leb, ◌==◌, if◌then◌else◌, is_null, null_lt, or_default, length, take,
}
use tc_backend.Table.Rows.{select, first_where, update_where, count_where}
use tc_backend.Table.Order.{order_by}
use tc_backend.ClaimLog.{Text, codes, newline_mark, extract_claimed_worker}
use tc_backend.UploadJob.{UploadJob, waiting, is_processing}
use tc_backend.UploadQueue.{postgresql, other, Dialect, has_id, has_job_id}

-- the lease of a PROCESSING job has run out
unfoldable pub is_stale : ℕ → UploadJob → Bool
is_stale threshold r =
    is_processing r.status
    && is_null r.completed_at
    && not (is_null r.started_at)
    && null_lt r.started_at threshold

-- ORDER BY started_at, id; the rows that are ordered have a started_at.
unfoldable pub stale_le : UploadJob → UploadJob → Bool
stale_le a b =
    let s = or_default a.started_at 0 in
    let t = or_default b.started_at 0 in ltb s t || (s == t && leb a.id b.id)

unfoldable pub recovered_log : Text → UploadJob → Text
recovered_log worker job =
    or_default job.processing_log []
    ++ (codes "STALE_JOB_RECOVERED previous_worker="
        ++ (or_default (extract_claimed_worker job.processing_log) (codes "unknown")
            ++ (codes " by=" ++ (worker ++ newline_mark))))

abbrev pub write_recovery : ℕ → Text → UploadJob → UploadJob
write_recovery retry log r = record r {
  status = waiting;
  started_at = none;
  error_message = none;
  retry_count = retry;
  processing_log = some log;
}

-- the rows that a recovery selects
unfoldable pub stale_jobs : (UploadJob → Bool) → ℕ → ℕ → List UploadJob → List UploadJob
stale_jobs locked threshold limit rows =
    take limit (order_by stale_le (select (λ r. is_stale threshold r && not (locked r)) rows))

unfoldable pub recover_each : Text → List UploadJob → List UploadJob → List UploadJob
recover_each worker [] rows = rows
recover_each worker (job ∷ jobs) rows = recover_each worker jobs (
    update_where (has_id job.id) (write_recovery (job.retry_count + 1) (recovered_log worker job))
      rows)

unfoldable pub recover_postgres :
    (UploadJob → Bool) → ℕ → Text → ℕ → List UploadJob → List UploadJob × ℕ
recover_postgres locked threshold worker limit rows =
    let jobs = stale_jobs locked threshold limit rows in
    (recover_each worker jobs rows, length jobs)

-- one round of the row-by-row loop: the row is read again, and written only if it is still
-- PROCESSING and not completed
unfoldable pub recover_one : ℕ → Text → ℕ → List UploadJob → List UploadJob × ℕ
recover_one threshold worker id rows =
    elim (first_where
      (λ r.
        has_id id r
        && (is_processing r.status && (is_null r.completed_at && null_lt r.started_at threshold)))
      rows) [
        | none ↦ (rows, 0)
        | some job ↦
            let p = λ (r : UploadJob).
              has_id job.id r && (is_processing r.status && is_null r.completed_at) in
            (
              update_where p (write_recovery (job.retry_count + 1) (recovered_log worker job)) rows,
              if count_where p rows == 0 then 0 else 1,
            )
      ]

unfoldable pub recover_ids : ℕ → Text → List ℕ → List UploadJob → List UploadJob × ℕ
recover_ids threshold worker [] rows = (rows, 0)
recover_ids threshold worker (id ∷ ids) rows =
    let (rows', n) = recover_one threshold worker id rows in
    let (rows'', m) = recover_ids threshold worker ids rows' in (rows'', n + m)

-- `_recover_stale_fallback`; where nothing was written the transaction is rolled back.
unfoldable pub recover_fallback : ℕ → Text → ℕ → List UploadJob → List UploadJob × ℕ
recover_fallback threshold worker limit rows =
    let ids = map (λ (r : UploadJob). r.id) (stale_jobs (λ _. false) threshold limit rows) in
    let (rows', n) = recover_ids threshold worker ids rows in
    if n == 0 then (rows, 0) else (rows', n)

abbrev pub microseconds : ℕ → ℕ
microseconds seconds = seconds * 1000000

unfoldable pub recover_stale_processing_jobs :
    Dialect → (UploadJob → Bool) → ℕ → ℕ → Text → ℕ → List UploadJob → List UploadJob × ℕ
recover_stale_processing_jobs dialect locked stale_seconds now worker limit rows =
    let threshold = now - microseconds stale_seconds in
    if stale_seconds == 0 then (rows, 0) else elim dialect [
      | postgresql ↦ recover_postgres locked threshold worker limit rows
      | other ↦ recover_fallback threshold worker limit rows
    ]

unfoldable pub touch_processing_lease : String → ℕ → List UploadJob → List UploadJob × Bool
touch_processing_lease job_id now rows =
    let p = λ (r : UploadJob).
      has_job_id job_id r && (is_processing r.status && is_null r.completed_at) in
    if count_where p rows == 0
    then (rows, false)
    else (update_where p (λ r. record r { started_at = some now }) rows, true)
