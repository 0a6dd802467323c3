-- ===== src/UploadQueue/Finish.antt =====
-- app/common/repositories/upload_job_repository.py: the operations that finish a job, and its log.
use tc_backend.Priority.{day}
use tc_backend.Prelude.{
  ◌/◌, ◌*◌, false, leb, ℕ, ◌+◌, String, ◌&&◌, Option, none, some, List, [], ◌∷◌, ◌++◌, ◌==◌,
  if◌then◌else◌, or_default,
}
use tc_backend.Table.Rows.{update_where, count_where}
use tc_backend.ClaimLog.{Text, codes, newline_mark}
use tc_backend.UploadJob.{
  UploadJob, UploadJobStatus, processing, completed, failed, is_processing, is_completed,
  has_status,
}
use tc_backend.UploadQueue.{has_id, has_job_id, get, start_line}

unfoldable pub mark_processing : UploadJob → ℕ → List UploadJob → List UploadJob
mark_processing job now rows =
    update_where (has_id job.id)
      (λ r. record r {
        status = processing;
        started_at = some now;
        processing_log = some (or_default job.processing_log [] ++ start_line);
        error_message = none;
      })
      rows

unfoldable pub completed_log : UploadJob → Text
completed_log job = or_default job.processing_log [] ++ (codes "COMPLETED" ++ newline_mark)

unfoldable pub mark_completed :
    UploadJob → String → ℕ → List UploadJob → List UploadJob × Option UploadJob
mark_completed job file_id now rows =
    let p = λ (r : UploadJob). has_job_id job.job_id r && is_processing r.status in
    if count_where p rows == 0 then (rows, none) else (
      update_where p
          (λ r. record r {
            status = completed;
            file_id = some file_id;
            completed_at = some now;
            error_message = none;
            processing_log = some (completed_log job);
          })
          rows,
      some (record job {
        status = completed;
        file_id = some file_id;
        completed_at = some now;
        processing_log = some (completed_log job);
      }),
    )

-- `job.processing_log if job.processing_log else current.processing_log`, then `or ""`
abbrev pub base_log : Option Text → Option Text → Text
base_log none current = or_default current []
base_log (some []) current = or_default current []
base_log (some (c ∷ cs)) current = c ∷ cs

unfoldable pub failed_log : UploadJob → UploadJob → Text → Text
failed_log job current message =
    base_log job.processing_log current.processing_log
    ++ (codes "FAILED: " ++ (message ++ newline_mark))

unfoldable pub mark_failed :
    UploadJob → Text → ℕ → List UploadJob → List UploadJob × Option UploadJob
unfolding get
mark_failed job message now rows =
    let current = or_default (get job.job_id rows) job in
    let p = λ (r : UploadJob). has_job_id job.job_id r && is_processing r.status in
    if count_where p rows == 0 then (rows, none) else (
      update_where p
          (λ r. record r {
            status = failed;
            retry_count = current.retry_count + 1;
            error_message = some message;
            completed_at = some now;
            processing_log = some (failed_log job current message);
          })
          rows,
      some (record job {
        status = failed;
        retry_count = current.retry_count + 1;
        error_message = some message;
        completed_at = some now;
        processing_log = some (failed_log job current message);
      }),
    )

-- in memory only
unfoldable pub append_log : UploadJob → Text → UploadJob
append_log job message = record job {
  processing_log = some (or_default job.processing_log [] ++ (message ++ newline_mark));
}

unfoldable pub count_by_status : UploadJobStatus → List UploadJob → ℕ
unfolding count_where
count_by_status status rows = count_where (λ r. has_status status r.status) rows

-- COMPLETED since the last midnight in UTC
unfoldable pub count_completed_today : ℕ → List UploadJob → ℕ
count_completed_today now rows =
    let start = now / day * day in
    count_where
      (λ r. is_completed r.status && (elim r.completed_at [ none ↦ false | some t ↦ leb start t ]))
      rows
