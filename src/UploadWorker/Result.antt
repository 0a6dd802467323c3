-- ===== src/UploadWorker/Result.antt =====
-- The row that a round of the upload worker writes, and what a worker that has lost its job leaves.
use tc_backend.Prelude.{
  ap, sym, subst, ℕ, ◌+◌, ◌≡◌, refl, Bool, true, false, ◌&&◌, Option, none, some, List, arith, ◌==◌,
  if◌then◌else◌, inl, inr, Bool-cases, ◌∙◌, or_default, String,
}
use tc_backend.Table.Rows.{
  first_where_sound, first_where, count_where, first_where-update_where, count_where-found,
}
use tc_backend.ClaimLog.{Text}
use tc_backend.UploadJob.{UploadJob, is_processing, completed, failed}
use tc_backend.UploadQueue.{has_id, has_job_id, get}
use tc_backend.UploadQueue.Finish.{completed_log, failed_log, mark_completed, mark_failed}
use tc_backend.VisionQueue.{VisionTable, UploadContext, EnqueueLog, queue_created}
use tc_backend.UploadWorker.{
  Pipeline, finished, raised, Work, process_upload_job, settle, process_claimed, enqueue_step,
  commit_enqueued, with_snapshot,
}
use tc_backend.UploadWorker.Outcome.{enqueue_step-job_id, fresh-job_id}

-- what the row of the job holds at the end, from the row `r` that the worker found
abbrev pub Ended : Pipeline → ℕ → UploadJob → UploadJob → Type 0
Ended (finished log (some file_id) context stop) now r s =
    (s.status ≡ completed)
    × (s.file_id ≡ some file_id)
    × (s.completed_at ≡ some now)
    × (s.error_message ≡ none)
    × (s.retry_count ≡ r.retry_count)
Ended (finished log none context stop) now r s =
    (s.status ≡ failed) × (s.completed_at ≡ some now) × (s.retry_count ≡ r.retry_count + 1)
Ended (raised log message) now r s =
    (s.status ≡ failed)
    × (s.error_message ≡ some message)
    × (s.completed_at ≡ some now)
    × (s.retry_count ≡ r.retry_count + 1)

-- the rows agree but for the log
abbrev pub SameButLog : UploadJob → UploadJob → Type 0
SameButLog r s = record r { processing_log = s.processing_log } ≡ s

-- a commit of the session changes only the log of a row
commit_enqueued-found :
    (log : EnqueueLog) (job : UploadJob) (q : UploadJob → Bool) (rows : List UploadJob)
    (r : UploadJob)
    → ((x : UploadJob) → q (record x { processing_log = job.processing_log }) ≡ q x)
    → first_where q rows ≡ some r
    → (s : UploadJob) × (first_where q (commit_enqueued log job rows) ≡ some s) × SameButLog r s
unfolding commit_enqueued
commit_enqueued-found (queue_created priority) job q rows r k h = (
  (if has_id job.id r then record r { processing_log = job.processing_log } else r),
  first_where-update_where q (has_id job.id) _ rows k ∙ rw h,
  elim (Bool-cases (has_id job.id r)) [ inl e ↦ rw e | inr e ↦ rw e ],
)
commit_enqueued-found _ job q rows r k h = (r, h, refl)

pub enqueue_step-found :
    (context : UploadContext) (stop : Bool) (now : ℕ) (w : Work) (q : UploadJob → Bool)
    (r : UploadJob)
    → ((x : UploadJob) (l : Option Text) → q (record x { processing_log = l }) ≡ q x)
    → first_where q w.rows ≡ some r
    → (s : UploadJob) × (first_where q (enqueue_step context stop now w).rows ≡ some s)
      × SameButLog r s
unfolding enqueue_step
enqueue_step-found context true now w q r k h = (r, h, refl)
enqueue_step-found context false now w q r k h =
    commit_enqueued-found _ w.job q w.rows r (λ x. k x w.job.processing_log) h

mark_completed-found :
    (job : UploadJob) (file_id : String) (now : ℕ) (rows : List UploadJob) (r : UploadJob)
    → get job.job_id rows ≡ some r
    → is_processing r.status ≡ true
    → (s : UploadJob) × (get job.job_id (mark_completed job file_id now rows).0 ≡ some s)
      × (s.status ≡ completed)
      × (s.file_id ≡ some file_id)
      × (s.completed_at ≡ some now)
      × (s.error_message ≡ none)
      × (s.retry_count ≡ r.retry_count)
unfolding mark_completed get
mark_completed-found job file_id now rows r h e =
    let hit = first_where_sound (has_job_id job.job_id) rows r h in
    let p = λ (x : UploadJob). has_job_id job.job_id x && is_processing x.status in
    let pos = count_where-found (has_job_id job.job_id) p rows r h (ground arith) in
    let test : (count_where p rows == 0) ≡ false = ground arith in
    (
      record r {
        status = completed;
        file_id = some file_id;
        completed_at = some now;
        error_message = none;
        processing_log = some (completed_log job);
      },
      rw test (
          first_where-update_where (has_job_id job.job_id) p _ rows (λ x. refl)
          ∙ rw h (rw (hit, e))),
      refl,
      refl,
      refl,
      refl,
      refl,
    )

mark_failed-found :
    (job : UploadJob) (message : Text) (now : ℕ) (rows : List UploadJob) (r : UploadJob)
    → get job.job_id rows ≡ some r
    → is_processing r.status ≡ true
    → (s : UploadJob) × (get job.job_id (mark_failed job message now rows).0 ≡ some s)
      × (s.status ≡ failed)
      × (s.error_message ≡ some message)
      × (s.completed_at ≡ some now)
      × (s.retry_count ≡ r.retry_count + 1)
unfolding mark_failed get
mark_failed-found job message now rows r h e =
    let hit = first_where_sound (has_job_id job.job_id) rows r h in
    let p = λ (x : UploadJob). has_job_id job.job_id x && is_processing x.status in
    let pos = count_where-found (has_job_id job.job_id) p rows r h (ground arith) in
    let test : (count_where p rows == 0) ≡ false = ground arith in
    (
      record r {
        status = failed;
        retry_count = r.retry_count + 1;
        error_message = some message;
        completed_at = some now;
        processing_log = some (failed_log job r message);
      },
      rw test (
          first_where-update_where (has_job_id job.job_id) p _ rows (λ x. refl)
          ∙ rw h (rw (hit, e))),
      refl,
      refl,
      refl,
      refl,
    )

settle-found :
    (w : Work) (message : Text) (now : ℕ) (r : UploadJob)
    → get w.job.job_id w.rows ≡ some r
    → is_processing r.status ≡ true
    → (s : UploadJob) × (get w.job.job_id (settle (w, some message) now).rows ≡ some s)
      × (s.status ≡ failed)
      × (s.error_message ≡ some message)
      × (s.completed_at ≡ some now)
      × (s.retry_count ≡ r.retry_count + 1)
unfolding settle
settle-found w message now r h e =
    let fresh = with_snapshot w.job.processing_log (or_default (get w.job.job_id w.rows) w.job) in
    let same = fresh-job_id w.job.processing_log w.job w.rows in
    let (s, found, a, b, c, d) = mark_failed-found fresh message now w.rows r (rw same h) e in
    (s, (rw same at found), a, b, c, d)

mark_completed-done :
    (job : UploadJob) (file_id : String) (now : ℕ) (rows : List UploadJob) (r : UploadJob)
    → get job.job_id rows ≡ some r
    → is_processing r.status ≡ true
    → (j : UploadJob) × ((mark_completed job file_id now rows).1 ≡ some j)
unfolding mark_completed get
mark_completed-done job file_id now rows r h e =
    let hit = first_where_sound (has_job_id job.job_id) rows r h in
    let p = λ (x : UploadJob). has_job_id job.job_id x && is_processing x.status in
    let pos = count_where-found (has_job_id job.job_id) p rows r h (ground arith) in
    let test : (count_where p rows == 0) ≡ false = ground arith in
    (
      record job {
        status = completed;
        file_id = some file_id;
        completed_at = some now;
        processing_log = some (completed_log job);
      },
      rw test,
    )

pipeline_result :
    (p : Pipeline) (now : ℕ) (w : Work) (r : UploadJob)
    → get w.job.job_id w.rows ≡ some r
    → is_processing r.status ≡ true
    → (s : UploadJob) × (get w.job.job_id (settle (process_upload_job p now w) now).rows ≡ some s)
      × Ended p now r s
unfolding process_upload_job
pipeline_result (raised log message) now w r h e =
    let start : Work = record w { job = record w.job { processing_log = log } } in
    let (s, found, a, b, c, d) = settle-found start message now r h e in (s, found, (a, b, c, d))
pipeline_result (finished log none context stop) now w r h e =
    let start : Work = record w { job = record w.job { processing_log = log } } in
    let (s, found, a, b, c, d) = settle-found start _ now r h e in (s, found, (a, c, d))
pipeline_result (finished log (some file_id) context stop) now w r h e =
    let start : Work = record w { job = record w.job { processing_log = log } } in
    let v = enqueue_step context stop now start in
    let same = enqueue_step-job_id context stop now start in
    let (s1, found1, but_log) =
      enqueue_step-found context stop now start (has_job_id w.job.job_id) r (λ x l. refl)
        (unfold get in h) in
    let found2 : get v.job.job_id v.rows ≡ some s1 = rw same (unfold get in found1) in
    let on : is_processing s1.status ≡ true =
      subst (λ x. is_processing x.status ≡ true) but_log e in
    let kept : s1.retry_count ≡ r.retry_count = sym (ap (λ x. x.retry_count) but_log) in
    let (s, found, a, b, c, d, k) = mark_completed-found v.job file_id now v.rows s1 found2 on in
    let (j, done) = mark_completed-done v.job file_id now v.rows s1 found2 on in
    (s, rw (done, process_upload_job) (unfold settle in rw same at found), (a, b, c, d, k ∙ kept))

-- The worker has read its PROCESSING job, and the row is still PROCESSING when the plugins end.
-- Then the row ends COMPLETED with the file, the time and no error, its retry count kept, when the
-- plugins return with a file; it ends FAILED with the time and one more retry when they return
-- without one or raise, and with the message of what they raise.
pub process_claimed_result :
    (during : List UploadJob → List UploadJob) (run : UploadJob → Pipeline) (now : ℕ)
    (job r : UploadJob) (rows : List UploadJob) (vision : VisionTable)
    → is_processing job.status ≡ true
    → get job.job_id (during rows) ≡ some r
    → is_processing r.status ≡ true
    → (s : UploadJob) × (get job.job_id (process_claimed during run now (some job) rows vision).0
        ≡ some s)
      × Ended (run job) now r s
unfolding process_claimed
process_claimed_result during run now job r rows vision h found e = rw h (
    pipeline_result (run job) now (record { rows = during rows; vision = vision; job = job }) r
      found e)
