-- ===== src/PlateSolve/Worker/Round.antt =====
-- worker/plate_solve_worker.py: `process_next_plate_solve_job`, with the submissions to the provider.
-- the tables of the round: those of the queue's service, and the usage of the provider
use tc_backend.Table.Rows.{map_some}
use tc_backend.PlateSolve.{PlateSolveJob}
use tc_backend.PlateSolve.Worker.{
  plain, limit_reached, lost_lease, PollRound, map_some, Raised, is_transient, poll_provider,
}
use tc_backend.PlateSolve.Service.{
  fail, requeue_transient, ServiceError, record_or_raise, claim_next_job, complete, PlateState,
}
use tc_backend.ApiUsage.{
  usage_failed, usage_done, UsageRow, UsageResult, Dialect, reserve_usage, Clock, MonthlyLimits,
}
use tc_backend.PlateSolve.Queue.Owned.{
  ProviderResult, record_submission, record_replacement_submission,
}
use tc_backend.Prelude.{
  ℕ, ◌⊎◌, inl, inr, Bool, true, false, not, ◌&&◌, Option, none, some, List, ◌++◌, String,
  if◌then◌else◌, is_null, take,
}

pub record PlateWorld : Type 0 where
  pub plate : PlateState
  pub usage : List UsageRow

-- a submission: the time of its reservation, the provider's answer, and its recording
pub record Submission : Type 0 where
  pub clock : Clock
  pub answer : Raised ⊎ ℕ
  pub before_record : PlateState → PlateState
  pub recorded_at : ℕ

-- the local `submission_id`, and the exception if there is one
pub record Submitted : Type 0 where
  pub world : PlateWorld
  pub submission : Option ℕ
  pub failure : Option Raised

unfoldable pub keep_submission :
    PlateWorld → ℕ → PlateState × (ServiceError ⊎ PlateSolveJob) → Submitted
keep_submission w n (s, inl e) = record {
  world = record w { plate = s };
  submission = some n;
  failure = some lost_lease;
}
keep_submission w n (s, inr job) = record {
  world = record w { plate = s };
  submission = some n;
  failure = none;
}

-- after the reservation: the upload of the image, and the recording of its number
unfoldable pub send_image :
    (ℕ → List PlateSolveJob → List PlateSolveJob × Option PlateSolveJob)
    → Submission
    → Option ℕ
    → PlateWorld
    → Raised ⊎ ℕ
    → Submitted
unfolding keep_submission record_or_raise
send_image write submission known w (inl e) = record {
  world = w;
  submission = known;
  failure = some e;
}
send_image write submission known w (inr n) =
    let s = submission.before_record w.plate in
    keep_submission w n (record_or_raise (write n s.jobs) s)

-- `_reserve_submit_usage`, and the submission when it is granted
unfoldable pub after_reserve :
    (ℕ → List PlateSolveJob → List PlateSolveJob × Option PlateSolveJob)
    → Submission
    → Option ℕ
    → PlateWorld
    → UsageResult Bool
    → Submitted
unfolding send_image
after_reserve write submission known w (usage_done true) =
    send_image write submission known w submission.answer
after_reserve write submission known w (usage_done false) = record {
  world = w;
  submission = known;
  failure = some limit_reached;
}
after_reserve write submission known w (usage_failed e) = record {
  world = w;
  submission = known;
  failure = some (plain "units must be at least 1");
}

unfoldable pub submit_image :
    MonthlyLimits
    → Dialect
    → (ℕ → List PlateSolveJob → List PlateSolveJob × Option PlateSolveJob)
    → Submission
    → Option ℕ
    → PlateWorld
    → Submitted
unfolding reserve_usage after_reserve
submit_image settings dialect write submission known w =
    let (result, usage) =
      reserve_usage settings dialect submission.clock "ASTROMETRY" "PLATESOLVE" 1 none none
        w.usage in
    after_reserve write submission known (record w { usage = usage }) result

-- All that a round meets: what others commit, the answers of the provider, and the times. `prepared`
-- is the exception of `_load_work`, of the key or of the client, if there is one; `finish_result` is
-- `_normalize_result` with `_fetch_optional_wcs`.
pub record PlateScript : Type 0 where
  pub locked : PlateSolveJob → Bool
  pub after_claim : PlateState → PlateState
  pub claimed_at : ℕ
  pub prepared : Option Raised
  pub first : Submission
  pub rounds : ℕ → PollRound
  pub replacement : Submission
  pub rounds_again : ℕ → PollRound
  pub finish_result : ProviderResult → ProviderResult
  pub before_complete : PlateState → PlateState
  pub completed_at : ℕ
  pub before_settle : PlateState → PlateState
  pub settled_at : ℕ

-- the worker's settings
pub record PlateWorker : Type 0 where
  pub name : String
  pub lease_seconds : ℕ
  pub limits : MonthlyLimits
  pub dialect : Dialect

-- the body of the `try`: its exception or result, and whether a provider id is known
pub record Attempted : Type 0 where
  pub world : PlateWorld
  pub has_ids : Bool
  pub result : Raised ⊎ ProviderResult

-- an exception in a handler has the handled one as its context
abbrev pub in_handler : Raised → Raised ⊎ ProviderResult → Raised ⊎ ProviderResult
in_handler handled (inl e) = inl (record e { links = e.links ++ handled.links })
in_handler handled (inr result) = inr result

abbrev pub attempted :
    PlateWorld
    → (Raised ⊎ ProviderResult → Raised ⊎ ProviderResult)
    → PlateState × (Raised ⊎ ProviderResult)
    → Attempted
attempted w context (s, result) = record {
  world = record w { plate = s };
  has_ids = true;
  result = context result;
}

-- the polling after a submission, new or in the place of one that is absent; where it fails, the
-- provider's job is the saved one still
unfoldable pub poll_submitted :
    ℕ
    → PlateWorker
    → PlateSolveJob
    → (ℕ → PollRound)
    → (Raised ⊎ ProviderResult → Raised ⊎ ProviderResult)
    → Submitted
    → Option Attempted
unfolding poll_provider
poll_submitted fuel worker job rounds context submitted = elim submitted.failure [
  | some e ↦ some (record {
    world = submitted.world;
    has_ids = not (is_null submitted.submission && is_null job.provider_job_id);
    result = context (inl e);
  })
  | none ↦ map_some (attempted submitted.world context) (
      poll_provider fuel job.id worker.name worker.lease_seconds rounds submitted.submission 0 none
        submitted.world.plate)
]

-- the first poll of saved work, where an AstrometryProviderWorkNotFound calls for a replacement
unfoldable pub after_resume :
    ℕ
    → PlateWorker
    → PlateScript
    → PlateSolveJob
    → PlateWorld
    → PlateState × (Raised ⊎ ProviderResult)
    → Option Attempted
unfolding submit_image poll_submitted record_replacement_submission
after_resume fuel worker script job w (s, inr result) = some (attempted w (λ r. r) (s, inr result))
after_resume fuel worker script job w (s, inl e) =
    if e.is_absent
    then poll_submitted fuel worker job script.rounds_again (in_handler e) (
        submit_image worker.limits worker.dialect
          (λ n rows.
            record_replacement_submission job.id worker.name n script.replacement.recorded_at rows)
          script.replacement job.provider_submission_id (record w { plate = s }))
    else some (attempted w (λ r. r) (s, inl e))

abbrev pub has_provider_ids : PlateSolveJob → Bool
has_provider_ids job = not (is_null job.provider_submission_id && is_null job.provider_job_id)

-- the `try` of `process_next_plate_solve_job` up to the provider's result
unfoldable pub attempt_job :
    ℕ → PlateWorker → PlateScript → PlateSolveJob → PlateWorld → Option Attempted
unfolding submit_image poll_submitted after_resume poll_provider record_submission
attempt_job fuel worker script job w = elim script.prepared [
  | some e ↦ some (record { world = w; has_ids = has_provider_ids job; result = inl e })
  | none ↦
      if has_provider_ids job
      then (elim (poll_provider fuel job.id worker.name worker.lease_seconds script.rounds
          job.provider_submission_id 0 job.provider_job_id w.plate) [
            | none ↦ none
            | some polled ↦ after_resume fuel worker script job w polled
          ])
      else poll_submitted fuel worker job script.rounds (λ r. r)
          (submit_image worker.limits worker.dialect
            (λ n rows. record_submission job.id worker.name n script.first.recorded_at rows)
            script.first none w)
]

-- the answer of a round: there was no job, it was processed, or an exception left the handler
pub data RoundEnd : Type 0 where
  no_job round_done escaped : RoundEnd

abbrev pub end_of : PlateWorld → PlateState × (ServiceError ⊎ PlateSolveJob) → PlateWorld × RoundEnd
end_of w (s, inl e) = (record w { plate = s }, escaped)
end_of w (s, inr job) = (record w { plate = s }, round_done)

-- the `except` of the round
unfoldable pub handle_failure :
    PlateWorker → PlateScript → PlateSolveJob → Bool → Raised → PlateWorld → PlateWorld × RoundEnd
unfolding is_transient requeue_transient fail
handle_failure worker script job has_ids e w =
    let s = script.before_settle w.plate in
    end_of w (
      if has_ids && is_transient e.links
      then requeue_transient job.id worker.name (take 4000 e.message) script.settled_at s
      else fail job.id worker.name (take 4000 e.message) script.settled_at s)

unfoldable pub after_complete :
    PlateWorker
    → PlateScript
    → PlateSolveJob
    → Bool
    → PlateWorld
    → PlateState × (ServiceError ⊎ PlateSolveJob)
    → PlateWorld × RoundEnd
unfolding handle_failure
after_complete worker script job has_ids w (s, inl e) =
    handle_failure worker script job has_ids lost_lease (record w { plate = s })
after_complete worker script job has_ids w (s, inr done) = (record w { plate = s }, round_done)

unfoldable pub settle_result :
    PlateWorker
    → PlateScript
    → PlateSolveJob
    → Bool
    → PlateWorld
    → Raised ⊎ ProviderResult
    → PlateWorld × RoundEnd
unfolding handle_failure after_complete complete
settle_result worker script job has_ids w (inl e) = handle_failure worker script job has_ids e w
settle_result worker script job has_ids w (inr result) =
    after_complete worker script job has_ids w (
      complete job.id worker.name (script.finish_result result) script.completed_at
        (script.before_complete w.plate))

-- the round of a claimed job
unfoldable pub process_claimed_plate :
    ℕ → PlateWorker → PlateScript → PlateSolveJob → PlateWorld → Option (PlateWorld × RoundEnd)
unfolding attempt_job settle_result
process_claimed_plate fuel worker script job w =
    map_some (λ a. settle_result worker script job a.has_ids a.world a.result)
      (attempt_job fuel worker script job w)

-- `process_next_plate_solve_job`
unfoldable pub process_next_plate_solve_job :
    ℕ → PlateWorker → PlateScript → PlateWorld → Option (PlateWorld × RoundEnd)
unfolding claim_next_job process_claimed_plate
process_next_plate_solve_job fuel worker script w =
    let (s, claimed) =
      claim_next_job script.locked script.after_claim worker.name worker.lease_seconds
        script.claimed_at w.plate in
    elim claimed [
      | none ↦ some (record w { plate = s }, no_job)
      | some job ↦ process_claimed_plate fuel worker script job (record w { plate = s })
    ]
