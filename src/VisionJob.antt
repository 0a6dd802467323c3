-- ===== src/VisionJob.antt =====
-- app/common/models/vision_job.py: one row of common_vision_jobs, with the columns that the queue
-- reads or writes, and the values of VisionJobStatus and VisionProvider in
-- app/common/repositories/vision_job_repository.py.
use tc_backend.Prelude.{ℕ, Option, Bool, true, false}
use tc_backend.ClaimLog.{Text}

pub data VisionJobStatus : Type 0 where
  waiting processing completed failed skipped : VisionJobStatus

abbrev pub is_waiting : VisionJobStatus → Bool
is_waiting waiting = true
is_waiting _ = false

abbrev pub is_processing : VisionJobStatus → Bool
is_processing processing = true
is_processing _ = false

abbrev pub is_completed : VisionJobStatus → Bool
is_completed completed = true
is_completed _ = false

-- `status.in_([WAITING, PROCESSING, COMPLETED])`
abbrev pub is_blocking_status : VisionJobStatus → Bool
is_blocking_status waiting = true
is_blocking_status processing = true
is_blocking_status completed = true
is_blocking_status _ = false

pub data VisionProvider : Type 0 where
  google azure aws local : VisionProvider

pub record VisionJob : Type 0 where
  pub id : ℕ
  pub file_id : ℕ
  pub priority : ℕ
  pub status : VisionJobStatus
  pub retry_count : ℕ
  pub vision_provider : VisionProvider
  pub requested_at : Option ℕ
  pub started_at : Option ℕ
  pub completed_at : Option ℕ
  pub last_error : Option Text
  pub deleted : Bool
