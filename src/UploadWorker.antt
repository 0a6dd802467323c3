-- ===== src/UploadWorker.antt =====
-- worker/background_worker.py: one round of the upload worker. The plugin pipeline is a parameter,
-- given by how it ends, and so is what other transactions commit meanwhile.
pub mod Outcome
pub mod Result
pub mod Lost
use tc_backend.Decimal.{decimal}
use tc_backend.Prelude.{
  ℕ, zero, suc, ◌+◌, ◌/◌, ◌%◌, String, Bool, true, false, not, Option, none, some, List, [], ◌∷◌,
  ◌++◌, ltb, if◌then◌else◌, or_default,
}
use tc_backend.Table.Rows.{update_where}
use tc_backend.ClaimLog.{Text, codes}
use tc_backend.UploadJob.{UploadJob, is_processing}
use tc_backend.UploadQueue.{Dialect, has_id, get, claim_next_waiting_job}
use tc_backend.UploadQueue.Finish.{append_log, mark_completed, mark_failed}
use tc_backend.VisionQueue.{
  VisionTable, UploadContext, EnqueueLog, no_file, video_skipped, heic_derivative_unavailable,
  already_exists, vision_completed, queue_created, enqueue_vision_job,
}

-- the messages of `_enqueue_vision_job`
unfoldable pub log_enqueued : EnqueueLog → UploadJob → UploadJob
unfolding append_log decimal
log_enqueued no_file job = job
log_enqueued video_skipped job = append_log job (codes "VISION_QUEUE_SKIPPED:VIDEO")
log_enqueued heic_derivative_unavailable job =
    append_log job (codes "VISION_QUEUE_SKIPPED:HEIC_DERIVATIVE_UNAVAILABLE")
log_enqueued already_exists job = append_log job (codes "VISION_QUEUE_SKIPPED:ALREADY_EXISTS")
log_enqueued vision_completed job = append_log job (codes "VISION_QUEUE_SKIPPED:VISION_COMPLETED")
log_enqueued (queue_created priority) job =
    append_log job (codes "VISION_QUEUE_CREATED:priority=" ++ decimal priority)

-- how the plugins end: with the log that they have written, and the file's SHA-256 id if they have
-- set `common_file`, or by an exception
pub data Pipeline : Type 0 where
  finished :
      (log : Option Text) (file_id : Option String) (context : UploadContext) (stop : Bool)
      → Pipeline
  raised : (log : Option Text) (message : Text) → Pipeline

-- the state of a round: the upload rows, the Vision queue, and the job as the session holds it
pub record Work : Type 0 where
  pub rows : List UploadJob
  pub vision : VisionTable
  pub job : UploadJob

-- A commit of the session writes the log that the job has gathered.
unfoldable pub flush_log : UploadJob → List UploadJob → List UploadJob
flush_log job rows =
    update_where (has_id job.id) (λ r. record r { processing_log = job.processing_log }) rows

-- Only creating the Vision job commits.
unfoldable pub commit_enqueued : EnqueueLog → UploadJob → List UploadJob → List UploadJob
unfolding flush_log
commit_enqueued (queue_created priority) job rows = flush_log job rows
commit_enqueued _ job rows = rows

unfoldable pub enqueue_step : UploadContext → Bool → ℕ → Work → Work
unfolding commit_enqueued
enqueue_step context stop now w =
    let (vision, log) = enqueue_vision_job context now w.vision in
    if stop then w else record w {
      rows = commit_enqueued log w.job w.rows;
      vision = vision;
      job = log_enqueued log w.job;
    }

-- A rollback expires the job, which is read again when it is next used.
unfoldable pub read_again : Work → Work
unfolding get
read_again w = record w { job = or_default (get w.job.job_id w.rows) w.job }

-- `process_upload_job`: the error is the message of the exception that leaves it.
unfoldable pub process_upload_job : Pipeline → ℕ → Work → Work × Option Text
process_upload_job (raised log message) now w =
    (record w { job = record w.job { processing_log = log } }, some message)
process_upload_job (finished log none context stop) now w = (
  record w { job = record w.job { processing_log = log } },
  some (codes "Plugin pipeline completed without common_file"),
)
process_upload_job (finished log (some file_id) context stop) now w =
    let v =
      enqueue_step context stop now (record w { job = record w.job { processing_log = log } }) in
    let (rows, done) = mark_completed v.job file_id now v.rows in
    elim done [
      | none ↦ (
        read_again v,
        some (
            codes "Upload job completed by another worker or invalid state: "
            ++ codes w.job.job_id),
      )
      | some job ↦ (record v { rows = rows; job = job }, none)
    ]

-- `if log_snapshot: fresh.processing_log = log_snapshot`
abbrev pub with_snapshot : Option Text → UploadJob → UploadJob
with_snapshot none fresh = fresh
with_snapshot (some []) fresh = fresh
with_snapshot (some (c ∷ cs)) fresh = record fresh { processing_log = some (c ∷ cs) }

-- the `except` of `process_next_job`
unfoldable pub settle : Work × Option Text → ℕ → Work
settle (w, none) now = w
settle (w, some message) now =
    let fresh = with_snapshot w.job.processing_log (or_default (get w.job.job_id w.rows) w.job) in
    record w { rows = (mark_failed fresh message now w.rows).0 }

-- the processing transaction, on the job as it is read back
unfoldable pub process_claimed :
    (List UploadJob → List UploadJob)
    → (UploadJob → Pipeline)
    → ℕ
    → Option UploadJob
    → List UploadJob
    → VisionTable
    → List UploadJob × VisionTable
process_claimed during run now none rows vision = (rows, vision)
process_claimed during run now (some job) rows vision =
    let w : Work = record { rows = during rows; vision = vision; job = job } in
    let done = settle (process_upload_job (run job) now w) now in
    if is_processing job.status then (done.rows, done.vision) else (rows, vision)

-- `process_next_job`: claim and processing are separate transactions, and `between` is what others
-- commit between them, `during` while the plugins run. The result says whether a job was claimed.
unfoldable pub process_next_job :
    Dialect
    → (UploadJob → Bool)
    → Text
    → (List UploadJob → List UploadJob)
    → (List UploadJob → List UploadJob)
    → (UploadJob → Pipeline)
    → ℕ
    → ℕ
    → List UploadJob
    → VisionTable
    → (List UploadJob × VisionTable) × Bool
unfolding process_claimed
process_next_job dialect locked worker between during run now later rows vision =
    let (rows', claimed) = claim_next_waiting_job dialect locked worker now rows in
    elim claimed [
      | none ↦ ((rows', vision), false)
      | some job ↦ (
        process_claimed during run later (get job.job_id (between rows')) (between rows') vision,
        true,
      )
    ]
