-- ===== src/UploadJob.antt =====
-- app/common/models/upload_job.py: one row of common_upload_jobs, and the status values of
-- app/common/repositories/upload_job_repository.py. Times are microseconds since the epoch.
use tc_backend.Prelude.{ℕ, String, Option, Bool, true, false}
use tc_backend.ClaimLog.{Text}

pub data UploadJobStatus : Type 0 where
  waiting processing completed failed : UploadJobStatus

-- `status == UploadJobStatus.WAITING` and so on
abbrev pub is_waiting : UploadJobStatus → Bool
is_waiting waiting = true
is_waiting _ = false

abbrev pub is_processing : UploadJobStatus → Bool
is_processing processing = true
is_processing _ = false

abbrev pub is_completed : UploadJobStatus → Bool
is_completed completed = true
is_completed _ = false

abbrev pub is_failed : UploadJobStatus → Bool
is_failed failed = true
is_failed _ = false

abbrev pub has_status : UploadJobStatus → UploadJobStatus → Bool
has_status waiting s = is_waiting s
has_status processing s = is_processing s
has_status completed s = is_completed s
has_status failed s = is_failed s

pub record UploadJob : Type 0 where
  pub id : ℕ
  pub job_id : String
  pub source_type : String
  pub status : UploadJobStatus
  pub incoming_path : String
  pub service_name : String
  pub client_file_id : Option String
  pub client_content_sha256 : Option String
  pub file_id : Option String
  pub retry_count : ℕ
  pub error_message : Option Text
  pub created_at : ℕ
  pub started_at : Option ℕ
  pub completed_at : Option ℕ
  pub processing_log : Option Text
