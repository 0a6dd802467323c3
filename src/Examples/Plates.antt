-- ===== src/Examples/Plates.antt =====
-- The Plate Solve queue and the change feed on sample rows.
use tc_backend.ClaimLog.{codes}
use tc_backend.Observation.{at_revision, update_if_revision, update_if_revision_once}
use tc_backend.PlateSolve.Fence.{claim_fences}
use tc_backend.PlateSolve.Claim.{claimable, claim_next_sound}
use tc_backend.PlateSolve.Complete.{complete_lem, solved}
use tc_backend.Table.Order.{insert_by, order_by}
use tc_backend.PlateSolve.Resync.{sync_observation_status_twice}
use tc_backend.PlateSolve.Sync.{sync_observation_status_lem, announced, event_of, to_write}
use tc_backend.PlateSolve.Claim.{UniqueIds}
use tc_backend.Examples.Samples.{seconds}
use tc_backend.PlateSolve.Lifecycle.{is_coherent, IsValid}
use tc_backend.ChangeFeed.Pages.{follow_lem, follow}
use tc_backend.PlateSolve.Service.{
  record_or_raise, requeue_transient, fail, write_status, lease_lost, sync_observation_status,
  complete, ObservationRecord, PlateState,
}
use tc_backend.ChangeFeed.{is_after, ChangeEvent}
use tc_backend.PlateSolve.{
  waiting, failed, completed, no_solution, processing, Solution, PlateSolveJob,
}
use tc_backend.Table.Rows.{count_where, first_where, select, update_where}
use tc_backend.PlateSolve.Queue.{
  has_id, claim_le, link_record, get_by_common_file_id, is_claimable, next_claimable, new_row,
  write_claim, get, enqueue, claim_next,
}
use tc_backend.PlateSolve.Queue.Owned.{
  flush_null, flush_solution, write_retry, retry, touch_lease, record_replacement_submission,
  record_provider_job, record_submission, is_owned, owned_processing_job, ProviderResult,
}
use tc_backend.PlateSolve.Steps.{claimed, here, next, PlateReach-IsValid, Reach}
use tc_backend.Prelude.{
  ◌<◌, ◌≡◌, refl, inl, inr, Bool, true, false, none, some, List, [], ◌∷◌, ◌++◌, arith, ◌==◌,
  if◌then◌else◌, length, All, Has, Unique,
}

-- handed in at second 10
abbrev waiting_plate : PlateSolveJob
waiting_plate = new_row 1 7 none (seconds 10)

-- taken by a worker that died
abbrev abandoned_plate : PlateSolveJob
abandoned_plate = write_claim "w1" 300 (seconds 20) (new_row 2 8 none (seconds 5))

abbrev solution : Solution
solution = record no_solution { ra = some 1; dec = some 2 }

abbrev solved_plate : PlateSolveJob
solved_plate = record (new_row 3 9 none (seconds 6)) {
  status = completed;
  attempts = 1;
  solution = solution;
  started_at = some (seconds 7);
  completed_at = some (seconds 8);
}

abbrev plates : List PlateSolveJob
plates = waiting_plate ∷ abandoned_plate ∷ solved_plate ∷ []

abbrev shown : ObservationRecord
shown = record {
  id = 1;
  file_id = 8;
  service_name = "AstroJournal";
  plate_solve_status = "PENDING";
  revision = 4;
  deleted_at = none;
}

abbrev sky_state : PlateState
sky_state = record {
  jobs = plates;
  records = shown ∷ record shown { id = 2; deleted_at = some (seconds 9) } ∷ [];
  changes = record { events = []; next_id = 1 };
}

plates-UniqueIds : UniqueIds plates
unfolding write_claim
plates-UniqueIds = ((omega arith, (omega arith, tt)), ((omega arith, tt), (tt, tt)))

plates-IsValid : IsValid plates
unfolding is_coherent write_claim
plates-IsValid = record {
  unique = plates-UniqueIds;
  one_per_file = ((omega arith, (omega arith, tt)), ((omega arith, tt), (tt, tt)));
  coherent = (refl, (refl, (refl, tt)));
}

abbrev free : PlateSolveJob → Bool
free _ = false

-- At second 400 the lease of the abandoned job is over; it is the older one.
abbrev taken_plate : PlateSolveJob
taken_plate = write_claim "w2" 300 (seconds 400) abandoned_plate

takes_abandoned : (claim_next free "w2" 300 (seconds 400) plates).1 ≡ some taken_plate
unfolding claim_next next_claimable is_claimable select order_by insert_by claim_le write_claim
takes_abandoned = refl

abbrev taken : List PlateSolveJob
taken = (claim_next free "w2" 300 (seconds 400) plates).0

claim_next_sound_example :
    (job : PlateSolveJob) × Has job plates
    × (is_claimable (seconds 400) job ≡ true)
    × (free job ≡ false)
    × All (λ r. claim_le job r ≡ true) (claimable free (seconds 400) plates)
    × (taken_plate ≡ write_claim "w2" 300 (seconds 400) job)
    × (owned_processing_job job.id "w2" taken ≡ some taken_plate)
    × (get 1 taken ≡ (if job.id == 1 then some taken_plate else get 1 plates))
claim_next_sound_example =
    claim_next_sound free "w2" 300 (seconds 400) plates taken_plate 1 plates-UniqueIds
      takes_abandoned

abbrev taken_state : PlateState
taken_state = record sky_state { jobs = taken }

abbrev report : ProviderResult
report = record { provider_job_id = some 77; solution = solution }

claim_fences_example :
    (complete taken_plate.id "w1" report (seconds 401) taken_state ≡ (taken_state, inl lease_lost))
    × (fail taken_plate.id "w1" (codes "late") (seconds 401) taken_state
        ≡ (taken_state, inl lease_lost))
    × (requeue_transient taken_plate.id "w1" (codes "late") (seconds 401) taken_state
        ≡ (taken_state, inl lease_lost))
    × (record_or_raise (record_submission taken_plate.id "w1" 5 (seconds 401) taken) taken_state
        ≡ (taken_state, inl lease_lost))
    × (record_or_raise (record_provider_job taken_plate.id "w1" 5 (seconds 401) taken) taken_state
        ≡ (taken_state, inl lease_lost))
    × (record_or_raise
          (record_replacement_submission taken_plate.id "w1" 5 (seconds 401) taken)
          taken_state
        ≡ (taken_state, inl lease_lost))
    × ((touch_lease taken_plate.id "w1" 300 (seconds 401) taken).1 ≡ false)
claim_fences_example =
    claim_fences free "w1" "w2" 300 (seconds 400) (seconds 401) sky_state taken_plate report
      (codes "late") 5 refl takes_abandoned

worked : Reach plates taken
worked = next here (claimed free "w2" 300 (seconds 400) refl)

PlateReach-IsValid_example : IsValid taken
PlateReach-IsValid_example = PlateReach-IsValid plates-IsValid worked

records-Unique : Unique (λ r. r.id) sky_state.records
records-Unique = ((omega arith, tt), (tt, tt))

owns_abandoned : owned_processing_job 2 "w1" plates ≡ some abandoned_plate
unfolding owned_processing_job first_where is_owned write_claim
owns_abandoned = refl

complete_lem_example :
    ((complete 2 "w1" report (seconds 30) sky_state).1
      ≡ inr (solved report (seconds 30) abandoned_plate))
    × (get 2 (complete 2 "w1" report (seconds 30) sky_state).0.jobs
        ≡ (if 2 == 2 then some (solved report (seconds 30) abandoned_plate) else get 2 plates))
    × ((complete 2 "w1" report (seconds 30) sky_state).0.records
        ≡ update_where
            (to_write abandoned_plate.common_file_id "COMPLETED")
            (write_status "COMPLETED")
            sky_state.records)
complete_lem_example =
    complete_lem 2 "w1" report (seconds 30) sky_state abandoned_plate 2 plates-UniqueIds
      records-Unique owns_abandoned

abbrev announced_state : PlateState
announced_state = sync_observation_status abandoned_plate processing (seconds 20) sky_state

sync_observation_status_lem_example :
    (announced_state.records
      ≡ update_where
          (to_write abandoned_plate.common_file_id "PROCESSING")
          (write_status "PROCESSING")
          sky_state.records)
    × (announced_state.changes.events
        ≡ []
          ++ announced 1
              (seconds 20)
              (select (to_write abandoned_plate.common_file_id "PROCESSING") sky_state.records))
    × (announced_state.jobs ≡ sky_state.jobs)
sync_observation_status_lem_example =
    sync_observation_status_lem abandoned_plate processing (seconds 20) sky_state records-Unique

sync_observation_status_twice_example :
    sync_observation_status abandoned_plate processing (seconds 21) announced_state
    ≡ announced_state
sync_observation_status_twice_example =
    sync_observation_status_twice abandoned_plate processing (seconds 20) (seconds 21) sky_state
      records-Unique

abbrev events : List ChangeEvent
events = event_of 1 5 shown ∷ event_of 3 6 shown ∷ event_of 4 7 shown ∷ []

reads_two : length (select (is_after none 1) events) < 3
unfolding select is_after
reads_two = omega arith

follow_lem_example : follow 3 1 1 none events ≡ select (is_after none 1) events
follow_lem_example =
    follow_lem none 3 1 1 events ((omega arith, (omega arith, tt)), ((omega arith, tt), (tt, tt)))
      (omega arith) reads_two

-- the queue keeps one job for a file
enqueues_once :
    enqueue (λ r. r) 9 7 (some 5) (seconds 50) plates
    ≡ some (
      update_where (has_id 1) (link_record (some 5) (seconds 50)) plates,
      record waiting_plate { observation_record_id = some 5; updated_at = seconds 50 },
      false,
    )
unfolding enqueue get_by_common_file_id first_where link_record
enqueues_once = refl

abbrev touched_up : ObservationRecord → ObservationRecord
touched_up r = record r { plate_solve_status = "COMPLETED" }

first_edit :
    (update_if_revision 1 4 touched_up sky_state.records).1
    ≡ some (record (touched_up shown) { revision = 5 })
unfolding update_if_revision at_revision count_where update_where first_where
first_edit = refl

update_if_revision_once_example :
    update_if_revision 1 4 (λ r. r) (update_if_revision 1 4 touched_up sky_state.records).0
    ≡ ((update_if_revision 1 4 touched_up sky_state.records).0, none)
update_if_revision_once_example =
    update_if_revision_once 1 4 touched_up (λ r. r) sky_state.records
      (record (touched_up shown) { revision = 5 }) first_edit

-- A stale retry overwrites a solution: the second retry has loaded the job as
-- FAILED, and flushes when the first one has been claimed and completed.
overwrites_solution :
    (retry (record waiting_plate { id = 3; status = failed }) (seconds 60) plates).0
    ≡ waiting_plate
      ∷ abandoned_plate
      ∷ record solved_plate { status = waiting; updated_at = seconds 60 }
      ∷ []
unfolding retry write_retry flush_solution flush_null update_where write_claim
overwrites_solution = refl
