-- ===== src/PlateSolve/Service.antt =====
-- app/astrojournal/services/plate_solve_queue_service.py: the operations of the queue together with
-- the status of the observation records and the change events; the models are
-- app/astrojournal/models/observation_record.py, by the columns that these operations use.
use tc_backend.Table.Rows.{select, first_where, update_where}
use tc_backend.PlateSolve.Queue.{get, claim_next}
use tc_backend.PlateSolve.Queue.Owned.{
  retry, mark_retryable, mark_failed, mark_completed, fail_waiting_for_file, ProviderResult,
}
use tc_backend.ClaimLog.{codes, Text}
use tc_backend.PlateSolve.{
  status_text, waiting, completed, is_failed, processing, failed, PlateSolveJobStatus,
  PlateSolveJob,
}
use tc_backend.ChangeFeed.{update, append, ChangeTable}
use tc_backend.Prelude.{
  ℕ, ◌+◌, ◌⊎◌, inl, inr, Bool, false, ◌&&◌, Option, none, some, List, [], ◌∷◌, String, str_eq, ◌==◌,
  if◌then◌else◌, is_null,
}

pub record ObservationRecord : Type 0 where
  pub id : ℕ
  pub file_id : ℕ
  pub service_name : String
  pub plate_solve_status : String
  pub revision : ℕ
  pub deleted_at : Option ℕ

-- the tables that one transaction of the service writes
pub record PlateState : Type 0 where
  pub jobs : List PlateSolveJob
  pub records : List ObservationRecord
  pub changes : ChangeTable

abbrev pub has_record_id : ℕ → ObservationRecord → Bool
has_record_id i r = r.id == i

-- the records of AstroJournal that show the file and are not deleted
unfoldable pub shows_file : ℕ → ObservationRecord → Bool
shows_file file r =
    r.file_id == file && (str_eq r.service_name "AstroJournal" && is_null r.deleted_at)

abbrev pub write_status : String → ObservationRecord → ObservationRecord
write_status status r = record r { plate_solve_status = status; revision = r.revision + 1 }

-- one round of the loop: a record that has the status already is passed over
unfoldable pub sync_record :
    String
    → ℕ
    → ObservationRecord
    → List ObservationRecord × ChangeTable
    → List ObservationRecord × ChangeTable
sync_record status now r (records, changes) =
    if str_eq r.plate_solve_status status then (records, changes) else (
      update_where (has_record_id r.id) (write_status status) records,
      append "AstroJournal" "ObservationRecord" r.id update (some (r.revision + 1)) false now
          changes,
    )

unfoldable pub sync_each :
    String
    → ℕ
    → List ObservationRecord
    → List ObservationRecord × ChangeTable
    → List ObservationRecord × ChangeTable
sync_each status now [] tables = tables
sync_each status now (r ∷ rs) tables = sync_each status now rs (sync_record status now r tables)

-- `_sync_observation_status`
unfoldable pub sync_observation_status :
    PlateSolveJob → PlateSolveJobStatus → ℕ → PlateState → PlateState
sync_observation_status job status now s =
    let (records, changes) =
      sync_each (status_text status) now (select (shows_file job.common_file_id) s.records)
        (s.records, s.changes) in
    record s { records = records; changes = changes }

-- "Plate Solve job lease was lost", or a refused request; `none` for the state leaves it as it was.
pub data ServiceError : Type 0 where
  lease_lost invalid_job not_failed : ServiceError

-- The job must be found; then its new rows and the status of its records are one transaction.
unfoldable pub settle_owned :
    List PlateSolveJob × Option PlateSolveJob
    → PlateSolveJobStatus
    → ℕ
    → PlateState
    → PlateState × (ServiceError ⊎ PlateSolveJob)
settle_owned (rows, none) status now s = (s, inl lease_lost)
settle_owned (rows, some job) status now s =
    (sync_observation_status job status now (record s { jobs = rows }), inr job)

unfoldable pub complete :
    ℕ → String → ProviderResult → ℕ → PlateState → PlateState × (ServiceError ⊎ PlateSolveJob)
unfolding settle_owned
complete job_id worker provider now s =
    settle_owned (mark_completed job_id worker provider now s.jobs) completed now s

unfoldable pub fail :
    ℕ → String → Text → ℕ → PlateState → PlateState × (ServiceError ⊎ PlateSolveJob)
unfolding settle_owned
fail job_id worker message now s =
    settle_owned (mark_failed job_id worker message now s.jobs) failed now s

unfoldable pub requeue_transient :
    ℕ → String → Text → ℕ → PlateState → PlateState × (ServiceError ⊎ PlateSolveJob)
unfolding settle_owned
requeue_transient job_id worker message now s =
    settle_owned (mark_retryable job_id worker message now s.jobs) waiting now s

-- Two transactions: `between` is what others commit after the claim.
unfoldable pub claim_next_job :
    (PlateSolveJob → Bool)
    → (PlateState → PlateState)
    → String
    → ℕ
    → ℕ
    → PlateState
    → PlateState × Option PlateSolveJob
claim_next_job locked between worker lease_seconds now s =
    let (rows, claimed) = claim_next locked worker lease_seconds now s.jobs in
    elim claimed [
      | none ↦ (s, none)
      | some job ↦ (
        sync_observation_status job processing now (between (record s { jobs = rows })),
        some job,
      )
    ]

-- `retry`; `between` is what others commit after the lookup, which locks nothing, and before the flush.
unfoldable pub retry_job :
    (PlateState → PlateState) → ℕ → ℕ → PlateState → PlateState × (ServiceError ⊎ PlateSolveJob)
retry_job between job_id now s = elim (get job_id s.jobs) [
  | none ↦ (s, inl invalid_job)
  | some job ↦
      if is_failed job.status
      then (let s = between s in
          let (rows, again) = retry job now s.jobs in
          (sync_observation_status again waiting now (record s { jobs = rows }), inr again))
      else (s, inl not_failed)
]

-- the `if updated is None: raise` of the three methods that record provider ids
unfoldable pub record_or_raise :
    List PlateSolveJob × Option PlateSolveJob
    → PlateState
    → PlateState × (ServiceError ⊎ PlateSolveJob)
record_or_raise (rows, none) s = (s, inl lease_lost)
record_or_raise (rows, some job) s = (record s { jobs = rows }, inr job)

-- `during` is what others commit to the queue between the lookup of the job and the flush.
unfoldable pub fail_waiting_if_file_unreferenced :
    (List PlateSolveJob → List PlateSolveJob)
    → ℕ
    → ℕ
    → PlateState
    → PlateState × Option PlateSolveJob
fail_waiting_if_file_unreferenced during file now s =
    let (rows, job) =
      fail_waiting_for_file during file
        (codes "Observation record was deleted before Plate Solve started") now s.jobs in
    if is_null (first_where (shows_file file) s.records)
    then (record s { jobs = rows }, job)
    else (s, none)
