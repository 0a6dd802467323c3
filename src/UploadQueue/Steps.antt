-- ===== src/UploadQueue/Steps.antt =====
-- Every operation of the queue as one step of a table that many workers and requests share, and
-- what holds after any sequence of steps. `mark_processing` has no caller, and is no step. A
-- session that holds a job may commit the log that it has gathered (`append_log`, and the plugins)
-- at any time, also when another worker has taken the job: the UPDATE is by id, and asks for no
-- status.
use tc_backend.Prelude.{Option, ℕ, ◌<◌, ◌≡◌, Bool, true, some, String, All}
use tc_backend.Table.Rows.{update_where, first_where}
use tc_backend.ClaimLog.{Text}
use tc_backend.UploadJob.{UploadJob}
use tc_backend.UploadQueue.{
  UploadTable, NewUploadJob, Dialect, create_waiting_job, claim_next_waiting_job,
  set_client_content_sha256_if_missing, has_id,
}
use tc_backend.UploadQueue.Lease.{recover_stale_processing_jobs, touch_processing_lease}
use tc_backend.UploadQueue.Finish.{mark_completed, mark_failed}
use tc_backend.UploadQueue.Lifecycle.{IsValid, is_final, SameOutcome}

-- the rows of a table are valid, and the sequence of the primary key is ahead of them
pub record IsTable (t : UploadTable) : Type 0 where
  pub rows_valid : IsValid t.rows
  pub below : All (λ r. r.id < t.next_id) t.rows

-- One operation, with any arguments: the locks, the clock, the worker and the job are the caller's.
pub data Step (t u : UploadTable) : Type 0 where
  create :
      (n : NewUploadJob) (now : ℕ) (job : UploadJob)
      → create_waiting_job n now t ≡ some (job, u)
      → Step t u
  claim :
      (dialect : Dialect) (locked : UploadJob → Bool) (worker : Text) (now : ℕ)
      → u ≡ record t { rows = (claim_next_waiting_job dialect locked worker now t.rows).0 }
      → Step t u
  recover :
      (dialect : Dialect) (locked : UploadJob → Bool) (stale_seconds now : ℕ) (worker : Text)
      (limit : ℕ)
      → u ≡ record t {
        rows =
            (recover_stale_processing_jobs dialect locked stale_seconds now worker limit t.rows).0;
      }
      → Step t u
  touch :
      (job_id : String) (now : ℕ)
      → u ≡ record t { rows = (touch_processing_lease job_id now t.rows).0 }
      → Step t u
  complete :
      (job : UploadJob) (file_id : String) (now : ℕ)
      → u ≡ record t { rows = (mark_completed job file_id now t.rows).0 }
      → Step t u
  fail :
      (job : UploadJob) (message : Text) (now : ℕ)
      → u ≡ record t { rows = (mark_failed job message now t.rows).0 }
      → Step t u
  backfill :
      (job : UploadJob) (sha : String)
      → u ≡ record t { rows = (set_client_content_sha256_if_missing job sha t.rows).0 }
      → Step t u
  log_written :
      (id : ℕ) (log : Option Text)
      → u ≡ record t {
        rows = update_where (has_id id) (λ r. record r { processing_log = log }) t.rows;
      }
      → Step t u

pub data Reach (t : UploadTable) : UploadTable → Type 0 where
  here : Reach t t
  next : {u w : UploadTable} → Reach t u → Step u w → Reach t w

-- what a step keeps of the table
record StepKeeps (t u : UploadTable) : Type 0 where
  table : IsTable u
  final :
      (i : ℕ) (r : UploadJob)
      → first_where (has_id i) t.rows ≡ some r
      → is_final r ≡ true
      → (s : UploadJob) × (first_where (has_id i) u.rows ≡ some s) × SameOutcome r s
