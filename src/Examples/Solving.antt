-- ===== src/Examples/Solving.antt =====
-- A round of the Plate Solve worker that submits an image, and waits too long for the result.
use tc_backend.PlateSolve.Service.{sync_observation_status}
use tc_backend.PlateSolve.Queue.Owned.{mark_retryable, owned_processing_job, change_owned, is_owned}
use tc_backend.PlateSolve.Worker.Ends.{process_claimed_plate-IsReleased}
use tc_backend.PlateSolve.Worker.Release.{IsReleased}
use tc_backend.Table.Rows.{first_where, map_some}
use tc_backend.PlateSolve.Queue.{new_row, write_claim}
use tc_backend.PlateSolve.{no_solution, PlateSolveJob}
use tc_backend.PlateSolve.Worker.Round.{
  RoundEnd, PlateWorker, Submission, process_claimed_plate, PlateWorld, PlateScript,
}
use tc_backend.PlateSolve.Worker.{other_status, PollRound, Report}
use tc_backend.ApiUsage.{sqlite, pos}
use tc_backend.Prelude.{
  ℕ, ◌≡◌, refl, inr, false, none, some, [], ◌∷◌, map, arith, leb, ◌==◌, if◌then◌else◌,
}

abbrev plate_worker : PlateWorker
plate_worker = record {
  name = "w1";
  lease_seconds = 300;
  limits = record { vision = pos 900; geocoding = pos 0; weather = pos 0; platesolve = pos 5 };
  dialect = sqlite;
}

abbrev busy_report : Report
busy_report = record {
  job = none;
  status = other_status;
  result = record { provider_job_id = none; solution = no_solution };
}

-- The provider names its job in the second round, and times out in the next.
abbrev slow_round : ℕ → PollRound
slow_round n = record {
  before_touch = λ s. s;
  touched_at = n;
  submission_report =
      if n == 1 then inr (record busy_report { job = some 44 }) else inr busy_report;
  before_record = λ s. s;
  recorded_at = n;
  job_report = inr busy_report;
  is_late = leb 2 n;
}

abbrev a_submission : Submission
a_submission = record {
  clock = record { this_year = 2026; this_month = 3; moment = 1 };
  answer = inr 33;
  before_record = λ s. s;
  recorded_at = 2;
}

abbrev slow_script : PlateScript
slow_script = record {
  locked = λ _. false;
  after_claim = λ s. s;
  claimed_at = 1;
  prepared = none;
  first = a_submission;
  rounds = slow_round;
  replacement = a_submission;
  rounds_again = slow_round;
  finish_result = λ r. r;
  before_complete = λ s. s;
  completed_at = 9;
  before_settle = λ s. s;
  settled_at = 9;
}

abbrev plate_job : PlateSolveJob
plate_job = write_claim "w1" 300 1 (new_row 1 7 none 0)

abbrev plate_world : PlateWorld
plate_world = record {
  plate = record {
    jobs = plate_job ∷ [];
    records = [];
    changes = record { events = []; next_id = 1 };
  };
  usage = [];
}

-- A new submission is made and recorded; the timeout hands the job back with the provider's ids.
slow_run :
    map_some
      (λ out. map (λ r. r.provider_job_id) out.0.plate.jobs)
      (process_claimed_plate 4 plate_worker slow_script plate_job plate_world)
    ≡ some (some 44 ∷ [])
unfolding process_claimed_plate write_claim is_owned change_owned owned_processing_job first_where
    mark_retryable sync_observation_status
slow_run = refl

process_claimed_plate-IsReleased_example :
    (out : PlateWorld × RoundEnd) × (process_claimed_plate 4 plate_worker slow_script plate_job
        plate_world
      ≡ some out)
    × IsReleased 1 "w1" out.0.plate.jobs
unfolding write_claim
process_claimed_plate-IsReleased_example =
    process_claimed_plate-IsReleased 2 4 plate_worker slow_script plate_job plate_world
      (λ n h. ground arith) (λ n h. ground arith) (omega arith)
