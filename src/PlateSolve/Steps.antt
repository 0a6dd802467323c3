-- ===== src/PlateSolve/Steps.antt =====
-- Every operation of the Plate Solve queue as one step of the rows that workers and requests
-- share. A retry and the deletion of a file read the job without a lock, and are a step at their
-- flush: of the rows then, in which the job's row is still the one that they read. What happens
-- where it is not is in PlateSolve/Race.
use tc_backend.PlateSolve.Lifecycle.{is_coherent, Keeps, IsValid}
use tc_backend.ClaimLog.{Text}
use tc_backend.PlateSolve.Queue.{
  get, get_by_common_file_id, claim_next, insert_or_existing, enqueue,
}
use tc_backend.PlateSolve.Queue.Owned.{
  fail_waiting_for_file, retry, mark_completed, mark_failed, mark_completed, ProviderResult,
  mark_retryable, record_replacement_submission, record_provider_job, record_submission,
  touch_lease,
}
use tc_backend.PlateSolve.{is_failed, Text, PlateSolveJob}
use tc_backend.Prelude.{ℕ, ◌≡◌, refl, Bool, true, Option, some, List, String}
use tc_backend.PlateSolve.Operations.{
  insert-Keeps, enqueue-Keeps, claim-Keeps, change-Keeps, touch-Keeps, retry-Keeps, drop-Keeps,
}

pub data Step (t u : List PlateSolveJob) : Type 0 where
  enqueued :
      (id file : ℕ) (observation : Option ℕ) (now : ℕ) (job : PlateSolveJob) (created : Bool)
      → enqueue (λ r. r) id file observation now t ≡ some (u, job, created)
      → Step t u
  inserted :
      (id file : ℕ) (observation : Option ℕ) (now : ℕ) (job : PlateSolveJob) (created : Bool)
      → insert_or_existing id file observation now t ≡ some (u, job, created)
      → Step t u
  claimed :
      (locked : PlateSolveJob → Bool) (worker : String) (lease_seconds now : ℕ)
      → u ≡ (claim_next locked worker lease_seconds now t).0
      → Step t u
  touched :
      (job_id : ℕ) (worker : String) (lease_seconds now : ℕ)
      → u ≡ (touch_lease job_id worker lease_seconds now t).0
      → Step t u
  submitted :
      (job_id : ℕ) (worker : String) (n now : ℕ)
      → u ≡ (record_submission job_id worker n now t).0
      → Step t u
  provider_job_known :
      (job_id : ℕ) (worker : String) (n now : ℕ)
      → u ≡ (record_provider_job job_id worker n now t).0
      → Step t u
  resubmitted :
      (job_id : ℕ) (worker : String) (n now : ℕ)
      → u ≡ (record_replacement_submission job_id worker n now t).0
      → Step t u
  requeued :
      (job_id : ℕ) (worker : String) (message : Text) (now : ℕ)
      → u ≡ (mark_retryable job_id worker message now t).0
      → Step t u
  answered :
      (job_id : ℕ) (worker : String) (provider : ProviderResult) (now : ℕ)
      → u ≡ (mark_completed job_id worker provider now t).0
      → Step t u
  gave_up :
      (job_id : ℕ) (worker : String) (message : Text) (now : ℕ)
      → u ≡ (mark_failed job_id worker message now t).0
      → Step t u
  retried :
      (job : PlateSolveJob) (now : ℕ)
      → get job.id t ≡ some job
      → is_failed job.status ≡ true
      → u ≡ (retry job now t).0
      → Step t u
  dropped :
      (seen : List PlateSolveJob) (file : ℕ) (message : Text) (now : ℕ)
      → get_by_common_file_id file seen ≡ get_by_common_file_id file t
      → u ≡ (fail_waiting_for_file (λ _. t) file message now seen).0
      → Step t u

pub data Reach (t : List PlateSolveJob) : List PlateSolveJob → Type 0 where
  here : Reach t t
  next : {u w : List PlateSolveJob} → Reach t u → Step u w → Reach t w

step-Keeps : {t u : List PlateSolveJob} → IsValid t → Step t u → Keeps t u
unfolding record_submission record_provider_job record_replacement_submission mark_retryable
    mark_completed mark_failed
step-Keeps {t} {u} v (enqueued id file o now job c e) = enqueue-Keeps t v id file o now u job c e
step-Keeps {t} {u} v (inserted id file o now job c e) = insert-Keeps t v id file o now u job c e
step-Keeps {t} {u} v (claimed l w s now e) = rw e (claim-Keeps t v l w s now)
step-Keeps {t} {u} v (touched j w s now e) = rw e (touch-Keeps t v j w s now)
step-Keeps {t} {u} v (submitted j w n now e) =
    rw e (change-Keeps t v j w _ (λ r. refl) (λ r. refl) (λ r a c. unfold is_coherent in c))
step-Keeps {t} {u} v (provider_job_known j w n now e) =
    rw e (change-Keeps t v j w _ (λ r. refl) (λ r. refl) (λ r a c. unfold is_coherent in c))
step-Keeps {t} {u} v (resubmitted j w n now e) =
    rw e (change-Keeps t v j w _ (λ r. refl) (λ r. refl) (λ r a c. unfold is_coherent in c))
step-Keeps {t} {u} v (requeued j w m now e) =
    rw e (change-Keeps t v j w _ (λ r. refl) (λ r. refl) (λ r a c. unfold is_coherent in refl))
step-Keeps {t} {u} v (answered j w p now e) =
    rw e (change-Keeps t v j w _ (λ r. refl) (λ r. refl) (λ r a c. unfold is_coherent in refl))
step-Keeps {t} {u} v (gave_up j w m now e) =
    rw e (change-Keeps t v j w _ (λ r. refl) (λ r. refl) (λ r a c. unfold is_coherent in refl))
step-Keeps {t} {u} v (retried job now g f e) = rw e (retry-Keeps t v job now g f)
step-Keeps {t} {u} v (dropped seen file m now same e) = rw e (drop-Keeps t v seen file m now same)

-- From valid rows, any sequence of the queue's operations by any workers and requests, in which
-- nobody writes the row of a retried job or of a deleted file's job between the unlocked read of
-- that operation and its flush, leads to valid rows: one row for each id and for each file, a
-- worker and a lease exactly on the PROCESSING rows, a completion time exactly on the COMPLETED
-- and FAILED ones, and an error on every FAILED row but on no PROCESSING or COMPLETED one.
pub PlateReach-IsValid : {t u : List PlateSolveJob} → IsValid t → Reach t u → IsValid u
PlateReach-IsValid v here = v
PlateReach-IsValid v (next r s) = (step-Keeps (PlateReach-IsValid v r) s).valid
