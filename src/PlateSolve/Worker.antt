-- ===== src/PlateSolve/Worker.antt =====
-- worker/plate_solve_worker.py: the Plate Solve worker's exceptions, and its polling of the
-- provider. The file's lookup, the provider's client and the shape of its answers are parameters;
-- each transaction comes after a function for what others commit before it. The monitor's
-- heartbeats are left out.
pub mod Poll
pub mod Round
pub mod Release
pub mod Ends
use tc_backend.Table.Rows.{map_some}
use tc_backend.PlateSolve.{PlateSolveJob}
use tc_backend.ApiUsage.{
  usage_failed, Dialect, usage_done, MonthlyLimits, UsageResult, UsageRow, Clock, reserve_usage,
}
use tc_backend.PlateSolve.Service.{
  fail, claim_next_job, complete, requeue_transient, ServiceError, record_or_raise, PlateState,
}
use tc_backend.PlateSolve.Queue.Owned.{
  record_submission, record_replacement_submission, record_provider_job, touch_lease,
  ProviderResult,
}
use tc_backend.ClaimLog.{codes, Text}
use tc_backend.Prelude.{
  ℕ, zero, suc, ◌+◌, ◌-◌, ◌*◌, ◌/◌, ◌%◌, ◌≤◌, ◌<◌, ◌≡◌, refl, sym, ap, subst, ◌∙◌, ◌≢◌, ◌↔◌, ◌⊎◌,
  inl, inr, Bool, true, false, not, ◌&&◌, ◌||◌, Option, none, some, List, [], ◌∷◌, ◌++◌, map, arith,
  String, str_eq, eq_iff, ltb, leb, ◌==◌, ==_iff, if◌then◌else◌, Bool-cases, Option-cases, is_null,
  null_lt, null_eq, or_default, length, take, drop, first, All, Has, Unique, All-take, Unique-take,
  All-map,
}

pub data ErrorCode : Type 0 where
  provider_timeout provider_error another_code : ErrorCode

-- an exception by the kind that `_is_transient_provider_error` asks for
pub data ErrorLink : Type 0 where
  connection_error plain_error : ErrorLink
  api_error : ErrorCode → Option ℕ → ErrorLink

-- an exception: itself and its causes, its text, and whether it is AstrometryProviderWorkNotFound
pub record Raised : Type 0 where
  pub links : List ErrorLink
  pub message : Text
  pub is_absent : Bool

unfoldable pub is_transient_code : ErrorCode → Option ℕ → Bool
is_transient_code provider_timeout status = true
is_transient_code provider_error none = true
is_transient_code provider_error (some status) =
    status == 408 || (status == 429 || (leb 500 status || ltb status 400))
is_transient_code another_code none = false
is_transient_code another_code (some status) = status == 408 || (status == 429 || leb 500 status)

-- `_is_transient_provider_error` along the causes
unfoldable pub is_transient : List ErrorLink → Bool
unfolding is_transient_code
is_transient [] = false
is_transient (connection_error ∷ links) = true
is_transient (plain_error ∷ links) = is_transient links
is_transient (api_error code status ∷ links) = is_transient_code code status || is_transient links

abbrev pub plain : String → Raised
plain text = record { links = plain_error ∷ []; message = codes text; is_absent = false }

abbrev pub lost_lease : Raised
lost_lease = plain "Plate Solve job lease was lost"

abbrev pub timed_out : Raised
timed_out = record {
  links = api_error provider_timeout none ∷ [];
  message = codes "Astrometry provider timed out";
  is_absent = false;
}

abbrev pub limit_reached : Raised
limit_reached = record {
  links = api_error another_code none ∷ [];
  message = codes "Plate Solve monthly limit exceeded";
  is_absent = false;
}

pub data ProviderStatus : Type 0 where
  solved_status failed_status other_status : ProviderStatus

-- a report of the provider: the job that it names, its status, and the result
pub record Report : Type 0 where
  pub job : Option ℕ
  pub status : ProviderStatus
  pub result : ProviderResult

-- what one round of `_poll_provider` meets
pub record PollRound : Type 0 where
  pub before_touch : PlateState → PlateState
  pub touched_at : ℕ
  pub submission_report : Raised ⊎ Report
  pub before_record : PlateState → PlateState
  pub recorded_at : ℕ
  pub job_report : Raised ⊎ Report
  pub is_late : Bool

-- the end of a round: the loop ends, or goes on with the provider's job
pub data PollStep : Type 0 where
  poll_ended : Raised ⊎ ProviderResult → PollStep
  poll_again : Option ℕ → PollStep

unfoldable pub check_status : PollRound → Option ℕ → ProviderStatus → ProviderResult → PollStep
check_status round job solved_status result = poll_ended (inr result)
check_status round job failed_status result =
    poll_ended (inl (plain "Astrometry provider reported FAILED"))
check_status round job other_status result =
    if round.is_late then poll_ended (inl timed_out) else poll_again job

-- `_record_provider_job`, and the `continue`
unfoldable pub recorded : ℕ → PlateState × (ServiceError ⊎ PlateSolveJob) → PlateState × PollStep
recorded job (s, inl e) = (s, poll_ended (inl lost_lease))
recorded job (s, inr row) = (s, poll_again (some job))

-- the answer about a submission: it names a job, or has a status
unfoldable pub follow_report :
    ℕ → String → PollRound → Report → Option ℕ → PlateState → PlateState × PollStep
unfolding check_status recorded record_or_raise record_provider_job
follow_report job_id worker round report (some job) s =
    let s = round.before_record s in
    recorded job
      (record_or_raise (record_provider_job job_id worker job round.recorded_at s.jobs) s)
follow_report job_id worker round report none s =
    (s, check_status round none report.status report.result)

unfoldable pub read_submission :
    ℕ → String → PollRound → Raised ⊎ Report → PlateState → PlateState × PollStep
unfolding follow_report
read_submission job_id worker round (inl e) s = (s, poll_ended (inl e))
read_submission job_id worker round (inr report) s =
    follow_report job_id worker round report report.job s

unfoldable pub read_job : PollRound → ℕ → Raised ⊎ Report → PollStep
unfolding check_status
read_job round job (inl e) = poll_ended (inl e)
read_job round job (inr report) = check_status round (some job) report.status report.result

-- a round after the lease was touched
unfoldable pub ask_provider :
    ℕ → String → PollRound → Option ℕ → Option ℕ → PlateState → PlateState × PollStep
unfolding read_submission read_job
ask_provider job_id worker round submission (some job) s = (s, read_job round job round.job_report)
ask_provider job_id worker round none none s =
    (s, poll_ended (inl (plain "Astrometry provider identifiers are missing")))
ask_provider job_id worker round (some submission) none s =
    read_submission job_id worker round round.submission_report s

-- `_touch_lease`, and the round when it holds
unfoldable pub poll_round :
    ℕ → String → ℕ → PollRound → Option ℕ → Option ℕ → PlateState → PlateState × PollStep
unfolding touch_lease ask_provider
poll_round job_id worker lease_seconds round submission job s =
    let s = round.before_touch s in
    let (rows, touched) = touch_lease job_id worker lease_seconds round.touched_at s.jobs in
    let s = record s { jobs = rows } in
    if touched
    then ask_provider job_id worker round submission job s
    else (s, poll_ended (inl lost_lease))

-- `_poll_provider` from a round on; without fuel it gives `none`.
unfoldable pub poll_provider :
    ℕ
    → ℕ
    → String
    → ℕ
    → (ℕ → PollRound)
    → Option ℕ
    → ℕ
    → Option ℕ
    → PlateState
    → Option (PlateState × (Raised ⊎ ProviderResult))
unfolding poll_round
poll_provider zero job_id worker lease_seconds rounds submission k job s = none
poll_provider (suc fuel) job_id worker lease_seconds rounds submission k job s =
    let (after, step) = poll_round job_id worker lease_seconds (rounds k) submission job s in
    elim step [
      | poll_ended result ↦ some (after, result)
      | poll_again job ↦
          poll_provider fuel job_id worker lease_seconds rounds submission (suc k) job after
    ]
