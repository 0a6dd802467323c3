-- ===== src/PlateSolve/Queue/Owned.antt =====
-- app/astrojournal/repositories/plate_solve_job_repository.py: what the owner of a PROCESSING job may
-- do, and the two operations on jobs that nobody owns.
use tc_backend.Table.Rows.{count_where, first_where, update_where}
use tc_backend.PlateSolve.{
  waiting, is_waiting, failed, is_processing, completed, Solution, PlateSolveJob,
}
use tc_backend.ClaimLog.{Text}
use tc_backend.Prelude.{
  ℕ, ◌+◌, ◌*◌, Bool, ◌&&◌, Option, none, some, List, String, ◌==◌, if◌then◌else◌, null_eq,
}
use tc_backend.PlateSolve.Queue.{has_id, get_by_common_file_id}

-- the conditions of an operation by the job's owner
unfoldable pub is_owned : ℕ → String → PlateSolveJob → Bool
is_owned job_id worker r = has_id job_id r && (is_processing r.status && null_eq r.worker_id worker)

unfoldable pub touch_lease : ℕ → String → ℕ → ℕ → List PlateSolveJob → List PlateSolveJob × Bool
touch_lease job_id worker lease_seconds now rows = (
  update_where (is_owned job_id worker)
      (λ r. record r { lease_expires_at = some (now + lease_seconds * 1000000); updated_at = now })
      rows,
  count_where (is_owned job_id worker) rows == 1,
)

-- `_owned_processing_job`, and a change of the row that it finds
unfoldable pub owned_processing_job : ℕ → String → List PlateSolveJob → Option PlateSolveJob
owned_processing_job job_id worker rows = first_where (is_owned job_id worker) rows

unfoldable pub change_owned :
    ℕ
    → String
    → (PlateSolveJob → PlateSolveJob)
    → List PlateSolveJob
    → List PlateSolveJob × Option PlateSolveJob
change_owned job_id worker change rows = elim (owned_processing_job job_id worker rows) [
  | none ↦ (rows, none)
  | some job ↦ (update_where (has_id job.id) change rows, some (change job))
]

unfoldable pub record_submission :
    ℕ → String → ℕ → ℕ → List PlateSolveJob → List PlateSolveJob × Option PlateSolveJob
record_submission job_id worker submission now rows =
    change_owned job_id worker
      (λ r. record r { provider_submission_id = some submission; updated_at = now }) rows

unfoldable pub record_provider_job :
    ℕ → String → ℕ → ℕ → List PlateSolveJob → List PlateSolveJob × Option PlateSolveJob
record_provider_job job_id worker provider_job now rows =
    change_owned job_id worker
      (λ r. record r { provider_job_id = some provider_job; updated_at = now }) rows

unfoldable pub record_replacement_submission :
    ℕ → String → ℕ → ℕ → List PlateSolveJob → List PlateSolveJob × Option PlateSolveJob
record_replacement_submission job_id worker submission now rows =
    change_owned job_id worker
      (λ r. record r {
        provider_submission_id = some submission;
        provider_job_id = none;
        solution = record r.solution { wcs = none };
        attempts = r.attempts + 1;
        updated_at = now;
      })
      rows

unfoldable pub mark_retryable :
    ℕ → String → Text → ℕ → List PlateSolveJob → List PlateSolveJob × Option PlateSolveJob
mark_retryable job_id worker message now rows =
    change_owned job_id worker
      (λ r. record r {
        status = waiting;
        started_at = none;
        completed_at = none;
        last_error = some message;
        worker_id = none;
        lease_expires_at = none;
        updated_at = now;
      })
      rows

-- what the provider reports
pub record ProviderResult : Type 0 where
  pub provider_job_id : Option ℕ
  pub solution : Solution

unfoldable pub mark_completed :
    ℕ → String → ProviderResult → ℕ → List PlateSolveJob → List PlateSolveJob × Option PlateSolveJob
mark_completed job_id worker provider now rows =
    change_owned job_id worker
      (λ r. record r {
        status = completed;
        provider_job_id = provider.provider_job_id;
        solution = provider.solution;
        completed_at = some now;
        last_error = none;
        worker_id = none;
        lease_expires_at = none;
        updated_at = now;
      })
      rows

unfoldable pub mark_failed :
    ℕ → String → Text → ℕ → List PlateSolveJob → List PlateSolveJob × Option PlateSolveJob
mark_failed job_id worker message now rows =
    change_owned job_id worker
      (λ r. record r {
        status = failed;
        completed_at = some now;
        last_error = some message;
        worker_id = none;
        lease_expires_at = none;
        updated_at = now;
      })
      rows

-- An attribute that is set to None: the flush writes it only where the loaded value was another.
unfoldable pub flush_null : {A : Type 0} → Option A → Option A → Option A
flush_null none current = current
flush_null (some loaded) current = none

unfoldable pub flush_solution : Solution → Solution → Solution
unfolding flush_null
flush_solution loaded current = record {
  ra = flush_null loaded.ra current.ra;
  dec = flush_null loaded.dec current.dec;
  rotation = flush_null loaded.rotation current.rotation;
  pixel_scale = flush_null loaded.pixel_scale current.pixel_scale;
  field_width = flush_null loaded.field_width current.field_width;
  field_height = flush_null loaded.field_height current.field_height;
  parity = flush_null loaded.parity current.parity;
  wcs = flush_null loaded.wcs current.wcs;
}

-- The UPDATE of `retry` for a job that was loaded as FAILED, on the row as it is at the flush: the
-- UPDATE is by the primary key, and asks for no status.
unfoldable pub write_retry : ℕ → PlateSolveJob → PlateSolveJob → PlateSolveJob
unfolding flush_solution flush_null
write_retry now loaded r = record r {
  status = waiting;
  solution = flush_solution loaded.solution r.solution;
  started_at = flush_null loaded.started_at r.started_at;
  completed_at = flush_null loaded.completed_at r.completed_at;
  last_error = flush_null loaded.last_error r.last_error;
  worker_id = flush_null loaded.worker_id r.worker_id;
  lease_expires_at = flush_null loaded.lease_expires_at r.lease_expires_at;
  updated_at = now;
}

-- `retry` of the repository, on a job that the service has loaded and found FAILED; `rows` are those
-- at the flush.
unfoldable pub retry : PlateSolveJob → ℕ → List PlateSolveJob → List PlateSolveJob × PlateSolveJob
unfolding write_retry
retry job now rows =
    (update_where (has_id job.id) (write_retry now job) rows, write_retry now job job)

-- the UPDATE of `fail_waiting_for_file`, by the primary key too; what it writes differs from what a
-- WAITING row has
unfoldable pub write_drop : Text → ℕ → PlateSolveJob → PlateSolveJob
write_drop message now r = record r {
  status = failed;
  completed_at = some now;
  last_error = some message;
  updated_at = now;
}

-- `during` is what others commit between the lookup, which locks nothing, and the flush.
unfoldable pub fail_waiting_for_file :
    (List PlateSolveJob → List PlateSolveJob)
    → ℕ
    → Text
    → ℕ
    → List PlateSolveJob
    → List PlateSolveJob × Option PlateSolveJob
unfolding write_drop
fail_waiting_for_file during file message now rows = elim (get_by_common_file_id file rows) [
  | none ↦ (during rows, none)
  | some job ↦
      if is_waiting job.status
      then (
        update_where (has_id job.id) (write_drop message now) (during rows),
        some (write_drop message now job),
      )
      else (during rows, none)
]
