-- ===== src/PlateSolve.antt =====
-- app/astrojournal/models/plate_solve_job.py: one row of astro_plate_solve_jobs, and the values of
-- PlateSolveJobStatus in app/astrojournal/repositories/plate_solve_job_repository.py. A UUID is the
-- number that its 32 lower-case hexadecimal digits write, so that ORDER BY id is the order of
-- numbers; a FLOAT value is its 64-bit pattern, and a JSON value its text.
pub mod Queue
pub mod Service
pub mod Worker
pub mod Claim
pub mod Fence
pub mod Lifecycle
pub mod Operations
pub mod Steps
pub mod Race
pub mod Sync
pub mod Resync
pub mod Complete
use tc_backend.ClaimLog.{Text}
use tc_backend.Prelude.{
  ℕ, zero, suc, ◌+◌, ◌-◌, ◌*◌, ◌/◌, ◌%◌, ◌≤◌, ◌<◌, ◌≡◌, refl, sym, ap, subst, ◌∙◌, ◌≢◌, ◌⊎◌, inl,
  inr, Bool, true, false, not, ◌&&◌, ◌||◌, Option, none, some, List, [], ◌∷◌, ◌++◌, map, arith,
  String, str_eq, eq_iff, ltb, leb, ◌==◌, ==_iff, if◌then◌else◌, Bool-cases, Option-cases, is_null,
  null_lt, null_eq, or_default, length, take, drop, first, All, Has, Unique, All-take, Unique-take,
  All-map,
}

pub data PlateSolveJobStatus : Type 0 where
  waiting processing completed failed : PlateSolveJobStatus

abbrev pub is_waiting : PlateSolveJobStatus → Bool
is_waiting waiting = true
is_waiting _ = false

abbrev pub is_processing : PlateSolveJobStatus → Bool
is_processing processing = true
is_processing _ = false

abbrev pub is_failed : PlateSolveJobStatus → Bool
is_failed failed = true
is_failed _ = false

abbrev pub is_completed : PlateSolveJobStatus → Bool
is_completed completed = true
is_completed _ = false

abbrev pub status_text : PlateSolveJobStatus → String
status_text waiting = "WAITING"
status_text processing = "PROCESSING"
status_text completed = "COMPLETED"
status_text failed = "FAILED"

-- the columns that a solution fills
pub record Solution : Type 0 where
  pub ra : Option ℕ
  pub dec : Option ℕ
  pub rotation : Option ℕ
  pub pixel_scale : Option ℕ
  pub field_width : Option ℕ
  pub field_height : Option ℕ
  pub parity : Option ℕ
  pub wcs : Option Text

abbrev pub no_solution : Solution
no_solution = record {
  ra = none;
  dec = none;
  rotation = none;
  pixel_scale = none;
  field_width = none;
  field_height = none;
  parity = none;
  wcs = none;
}

pub record PlateSolveJob : Type 0 where
  pub id : ℕ
  pub common_file_id : ℕ
  pub observation_record_id : Option ℕ
  pub status : PlateSolveJobStatus
  pub attempts : ℕ
  pub provider_submission_id : Option ℕ
  pub provider_job_id : Option ℕ
  pub worker_id : Option String
  pub lease_expires_at : Option ℕ
  pub started_at : Option ℕ
  pub completed_at : Option ℕ
  pub last_error : Option Text
  pub solution : Solution
  pub created_at : ℕ
  pub updated_at : ℕ
