-- ===== src/UploadWorker/Lost.antt =====
-- A worker whose job another worker has recovered, or finished, while its plugins ran.
use tc_backend.Prelude.{
  ℕ, ◌≡◌, refl, Bool, true, false, ◌&&◌, none, some, List, ◌∙◌, String, ap, str_eq,
}
use tc_backend.Table.Rows.{first_where, count_where, count_where-update_same}
use tc_backend.ClaimLog.{Text}
use tc_backend.UploadJob.{UploadJob, is_processing}
use tc_backend.UploadQueue.{has_id}
use tc_backend.UploadQueue.Finish.{mark_completed, mark_failed}
use tc_backend.VisionQueue.{
  VisionTable, UploadContext, EnqueueLog, queue_created, enqueue_vision_job,
}
use tc_backend.UploadWorker.{
  Pipeline, finished, raised, Work, settle, process_upload_job, process_claimed, enqueue_step,
  commit_enqueued, read_again,
}
use tc_backend.UploadWorker.Outcome.{held, enqueue_step-job_id, fresh-job_id, read_again-job_id}
use tc_backend.UploadWorker.Result.{SameButLog, enqueue_step-found}

mark_failed-missed :
    (j : UploadJob) (message : Text) (now : ℕ) (rows : List UploadJob)
    → held j rows ≡ 0
    → (mark_failed j message now rows).0 ≡ rows
unfolding mark_failed
mark_failed-missed j message now rows h = rw (h, mark_failed)

mark_completed-missed :
    (j : UploadJob) (file_id : String) (now : ℕ) (rows : List UploadJob)
    → held j rows ≡ 0
    → (mark_completed j file_id now rows).1 ≡ none
unfolding mark_completed
mark_completed-missed j file_id now rows h = rw (h, mark_completed)

settle-missed :
    (w : Work) (message : Text) (now : ℕ)
    → held w.job w.rows ≡ 0
    → (settle (w, some message) now).rows ≡ w.rows
unfolding settle
settle-missed w message now h = mark_failed-missed _ message now w.rows (
    ap (λ k. count_where (λ r. str_eq r.job_id k && is_processing r.status) w.rows)
      (fresh-job_id w.job.processing_log w.job w.rows)
    ∙ h)

committed-held :
    (job j : UploadJob) (log : EnqueueLog) (rows : List UploadJob)
    → held job (commit_enqueued log j rows) ≡ held job rows
unfolding commit_enqueued
committed-held job j (queue_created priority) rows =
    count_where-update_same _ (has_id j.id) _ rows (λ r. refl)
committed-held job j _ rows = refl

-- The enqueueing writes no status and no job_id.
enqueue_step-held :
    (job : UploadJob) (context : UploadContext) (stop : Bool) (now : ℕ) (w : Work)
    → held job (enqueue_step context stop now w).rows ≡ held job w.rows
unfolding enqueue_step
enqueue_step-held job context true now w = refl
enqueue_step-held job context false now w =
    committed-held job w.job (enqueue_vision_job context now w.vision).1 w.rows

held_eq :
    (j k : UploadJob) (rows : List UploadJob) → j.job_id ≡ k.job_id → held j rows ≡ held k rows
held_eq j k rows e = ap (λ i. count_where (λ r. str_eq r.job_id i && is_processing r.status) rows) e

lost_rows :
    (p : Pipeline) (now : ℕ) (w : Work) (i : ℕ) (r : UploadJob)
    → held w.job w.rows ≡ 0
    → first_where (has_id i) w.rows ≡ some r
    → (s : UploadJob) × (first_where (has_id i) (settle (process_upload_job p now w) now).rows
        ≡ some s)
      × SameButLog r s
unfolding process_upload_job
lost_rows (raised log message) now w i r h f = (
  r,
  rw (settle-missed (record w { job = record w.job { processing_log = log } }) message now h) f,
  refl,
)
lost_rows (finished log none context stop) now w i r h f = (
  r,
  rw (settle-missed (record w { job = record w.job { processing_log = log } }) _ now h) f,
  refl,
)
lost_rows (finished log (some file_id) context stop) now w i r h f =
    let start : Work = record w { job = record w.job { processing_log = log } } in
    let v = enqueue_step context stop now start in
    let same = enqueue_step-job_id context stop now start in
    let gone : held w.job v.rows ≡ 0 = enqueue_step-held w.job context stop now start ∙ h in
    let gone' : held v.job v.rows ≡ 0 = held_eq v.job w.job v.rows same ∙ gone in
    let again : held (read_again v).job v.rows ≡ 0 =
      held_eq (read_again v).job v.job v.rows (read_again-job_id v) ∙ gone' in
    let (s, found, but_log) =
      enqueue_step-found context stop now start (has_id i) r (λ x l. refl) f in
    let missed = mark_completed-missed v.job file_id now v.rows gone' in
    (
      s,
      rw (missed, process_upload_job)
          (rw (settle-missed (read_again v) _ now (unfold read_again in again))
            (unfold read_again in found)),
      but_log,
    )

-- When the claimed job is no longer PROCESSING as the plugins end (another worker has recovered it,
-- or finished it), the round neither completes nor fails it, however the plugins ended: every row
-- is found as it was, up to the log that a commit of the session has written.
pub process_claimed_lost :
    (during : List UploadJob → List UploadJob) (run : UploadJob → Pipeline) (now : ℕ)
    (job : UploadJob) (rows : List UploadJob) (vision : VisionTable) (i : ℕ) (r : UploadJob)
    → is_processing job.status ≡ true
    → held job (during rows) ≡ 0
    → first_where (has_id i) (during rows) ≡ some r
    → (s : UploadJob) × (first_where
          (has_id i)
          (process_claimed during run now (some job) rows vision).0
        ≡ some s)
      × SameButLog r s
unfolding process_claimed
process_claimed_lost during run now job rows vision i r h gone f =
    rw h (
      lost_rows (run job) now (record { rows = during rows; vision = vision; job = job }) i r gone
        f)
