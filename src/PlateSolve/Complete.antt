-- ===== src/PlateSolve/Complete.antt =====
-- What completing a Plate Solve job writes.
use tc_backend.Table.Keys.{first_where-update_key}
use tc_backend.PlateSolve.Sync.{sync_observation_status_lem, to_write}
use tc_backend.Table.Rows.{first_where, first_where_sound, first_where-Has, update_where}
use tc_backend.PlateSolve.Claim.{UniqueIds}
use tc_backend.PlateSolve.{completed, PlateSolveJob}
use tc_backend.PlateSolve.Service.{
  write_status, sync_observation_status, settle_owned, PlateState, complete,
}
use tc_backend.PlateSolve.Queue.{has_id, get}
use tc_backend.PlateSolve.Queue.Owned.{
  owned_processing_job, change_owned, mark_completed, ProviderResult, is_owned,
}
use tc_backend.Table.Keys.{first_where-update_key}
use tc_backend.Prelude.{
  ℕ, ◌≡◌, refl, ap, ◌∙◌, inr, true, none, some, List, arith, String, ◌==◌, ==_iff, if◌then◌else◌,
  Has, Unique,
}

-- the row that the provider's result makes of a job
abbrev pub solved : ProviderResult → ℕ → PlateSolveJob → PlateSolveJob
solved provider now r = record r {
  status = completed;
  provider_job_id = provider.provider_job_id;
  solution = provider.solution;
  completed_at = some now;
  last_error = none;
  worker_id = none;
  lease_expires_at = none;
  updated_at = now;
}

owned_id :
    (job_id : ℕ) (worker : String) (r : PlateSolveJob)
    → is_owned job_id worker r ≡ true
    → r.id ≡ job_id
unfolding is_owned
owned_id job_id worker r h = ground arith

change_owned-found :
    (job_id : ℕ) (worker : String) (change : PlateSolveJob → PlateSolveJob)
    (rows : List PlateSolveJob) (job : PlateSolveJob)
    → owned_processing_job job_id worker rows ≡ some job
    → change_owned job_id worker change rows
      ≡ (update_where (has_id job.id) change rows, some (change job))
unfolding change_owned
change_owned-found job_id worker change rows job e = rw (e, change_owned)

complete_eq :
    (job_id : ℕ) (worker : String) (provider : ProviderResult) (now : ℕ) (s : PlateState)
    (job : PlateSolveJob)
    → owned_processing_job job_id worker s.jobs ≡ some job
    → complete job_id worker provider now s ≡ (
      sync_observation_status
          (solved provider now job)
          completed
          now
          (record s { jobs = update_where (has_id job.id) (solved provider now) s.jobs }),
      inr (solved provider now job),
    )
unfolding complete mark_completed settle_owned
complete_eq job_id worker provider now s job e =
    rw (change_owned-found job_id worker (solved provider now) s.jobs job e)

-- The owner of a PROCESSING job can always complete it: the row of the job becomes COMPLETED with
-- the provider's solution, no error and no owner, and every other id finds what it found before;
-- and exactly the active records of AstroJournal that show the job's file with another status get
-- the status COMPLETED and their next revision.
pub complete_lem :
    (job_id : ℕ) (worker : String) (provider : ProviderResult) (now : ℕ) (s : PlateState)
    (job : PlateSolveJob) (i : ℕ)
    → UniqueIds s.jobs
    → Unique (λ r. r.id) s.records
    → owned_processing_job job_id worker s.jobs ≡ some job
    → let u = (complete job_id worker provider now s).0 in
      ((complete job_id worker provider now s).1 ≡ inr (solved provider now job))
      × (get i u.jobs ≡ (if job_id == i then some (solved provider now job) else get i s.jobs))
      × (u.records
          ≡ update_where
              (to_write job.common_file_id "COMPLETED")
              (write_status "COMPLETED")
              s.records)
unfolding get
complete_lem job_id worker provider now s job i u v e =
    let f = solved provider now in
    let rows = update_where (has_id job.id) f s.jobs in
    let found : first_where (is_owned job_id worker) s.jobs ≡ some job =
      unfold owned_processing_job in e in
    let m : Has job s.jobs = first_where-Has (is_owned job_id worker) s.jobs job found in
    let at : job.id ≡ job_id = owned_id job_id worker job (first_where_sound _ s.jobs job found) in
    let k = sync_observation_status_lem (f job) completed now (record s { jobs = rows }) v in
    rw (complete_eq job_id worker provider now s job e) (
      refl,
      ap (first_where (has_id i)) k.2
          ∙ first_where-update_key (λ r. r.id) ◌==◌ ==_iff f s.jobs job i u m (λ r. refl)
          ∙ rw at,
      k.0,
    )
