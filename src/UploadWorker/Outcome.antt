-- ===== src/UploadWorker/Outcome.antt =====
-- What a round of the upload worker leaves of its job.
use tc_backend.ClaimLog.{Text}
use tc_backend.Prelude.{
  [], ◌∷◌, ◌∷◌, eq_iff, or_default, ◌∙◌, ==_iff, String, ℕ, ◌≡◌, refl, Bool, true, ◌&&◌, Option,
  none, some, List, arith, ◌==◌, inl, inr, Bool-cases, Option-cases,
}
use tc_backend.Table.Rows.{first_where_sound, count_where-update_where, count_where}
use tc_backend.UploadJob.{UploadJob, is_processing}
use tc_backend.UploadQueue.{has_job_id, get}
use tc_backend.UploadQueue.Finish.{mark_completed, mark_failed}
use tc_backend.VisionQueue.{UploadContext, VisionTable}
use tc_backend.UploadWorker.{
  finished, with_snapshot, raised, read_again, UploadContext, log_enqueued, Text, Pipeline, Work,
  process_upload_job, settle, process_claimed, enqueue_step,
}

-- how many rows are still PROCESSING under the job's id
abbrev pub held : UploadJob → List UploadJob → ℕ
held job rows = count_where (λ r. has_job_id job.job_id r && is_processing r.status) rows

mark_failed-held :
    (job j : UploadJob) (message : Text) (now : ℕ) (rows : List UploadJob)
    → j.job_id ≡ job.job_id
    → held job (mark_failed j message now rows).0 ≡ 0
unfolding mark_failed
mark_failed-held job j message now rows e = rw (← e) (elim (Bool-cases (held j rows == 0)) [
  | inl z ↦ rw z ((==_iff _ _).0 z)
  | inr z ↦ rw z (count_where-update_where _ _ rows (λ r. ground arith))
])

mark_completed-held :
    (job j : UploadJob) (file_id : String) (now : ℕ) (rows : List UploadJob)
    → j.job_id ≡ job.job_id
    → held job (mark_completed j file_id now rows).0 ≡ 0
unfolding mark_completed
mark_completed-held job j file_id now rows e = rw (← e) (elim (Bool-cases (held j rows == 0)) [
  | inl z ↦ rw z ((==_iff _ _).0 z)
  | inr z ↦ rw z (count_where-update_where _ _ rows (λ r. ground arith))
])

-- the job that the session holds keeps its job_id
pub enqueue_step-job_id :
    (context : UploadContext) (stop : Bool) (now : ℕ) (w : Work)
    → (enqueue_step context stop now w).job.job_id ≡ w.job.job_id
unfolding enqueue_step log_enqueued
enqueue_step-job_id context stop now w = ground arith

pub fresh-job_id :
    (log : Option Text) (job : UploadJob) (rows : List UploadJob)
    → (with_snapshot log (or_default (get job.job_id rows) job)).job_id ≡ job.job_id
unfolding get
fresh-job_id log job rows = snapshot log ∙ found
  where
    found : (or_default (get job.job_id rows) job).job_id ≡ job.job_id
    found = elim (Option-cases (get job.job_id rows)) [
      | inl e ↦ rw e
      | inr (r, e) ↦ rw e ((eq_iff _ _).0 (first_where_sound (has_job_id job.job_id) rows r e))
    ]

    snapshot :
        (l : Option Text)
        → (with_snapshot l (or_default (get job.job_id rows) job)).job_id
          ≡ (or_default (get job.job_id rows) job).job_id
    snapshot none = refl
    snapshot (some []) = refl
    snapshot (some (c ∷ cs)) = refl

settle_error-held :
    (job : UploadJob) (w : Work) (message : Text) (now : ℕ)
    → w.job.job_id ≡ job.job_id
    → held job (settle (w, some message) now).rows ≡ 0
unfolding settle
settle_error-held job w message now e =
    mark_failed-held job _ message now w.rows (fresh-job_id w.job.processing_log w.job w.rows ∙ e)

pub read_again-job_id : (w : Work) → (read_again w).job.job_id ≡ w.job.job_id
unfolding read_again
read_again-job_id w = fresh-job_id none w.job w.rows

settled-held :
    (job : UploadJob) (p : Pipeline) (now : ℕ) (w : Work)
    → w.job.job_id ≡ job.job_id
    → held job (settle (process_upload_job p now w) now).rows ≡ 0
unfolding process_upload_job
settled-held job (raised log message) now w e = settle_error-held job _ message now e
settled-held job (finished log none context stop) now w e = settle_error-held job _ _ now e
settled-held job (finished log (some file_id) context stop) now w e =
    let start = record w { job = record w.job { processing_log = log } } in
    let v = enqueue_step context stop now start in
    let same = enqueue_step-job_id context stop now start ∙ e in
    elim (Option-cases (mark_completed v.job file_id now v.rows).1) [
      | inl none_done ↦
          rw (none_done, process_upload_job)
            (settle_error-held job (read_again v) _ now (read_again-job_id v ∙ same))
      | inr (done, some_done) ↦
          rw (some_done, process_upload_job)
            (unfold settle in mark_completed-held job v.job file_id now v.rows same)
    ]

-- However the plugins end and whatever other transactions commit while they run, after the round no
-- row with the claimed job's id is left PROCESSING.
pub process_claimed_releases :
    (during : List UploadJob → List UploadJob) (run : UploadJob → Pipeline) (now : ℕ)
    (job : UploadJob) (rows : List UploadJob) (vision : VisionTable)
    → is_processing job.status ≡ true
    → held job (process_claimed during run now (some job) rows vision).0 ≡ 0
unfolding process_claimed
process_claimed_releases during run now job rows vision h = rw h (
    settled-held job (run job) now (record { rows = during rows; vision = vision; job = job }) refl)
