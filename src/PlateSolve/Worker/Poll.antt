-- ===== src/PlateSolve/Worker/Poll.antt =====
-- The polling ends once the deadline has passed.
use tc_backend.PlateSolve.{PlateSolveJob}
use tc_backend.PlateSolve.Queue.Owned.{ProviderResult}
use tc_backend.PlateSolve.Service.{ServiceError, PlateState}
use tc_backend.PlateSolve.Worker.{
  poll_ended, ask_provider, poll_provider, follow_report, PollStep, solved_status, failed_status,
  other_status, PlateSolveJob, ProviderResult, poll_again, Report, Raised, PlateState,
  ProviderStatus, poll_round, check_status, PollRound, read_job, read_submission, recorded,
}
use tc_backend.Prelude.{
  ℕ, zero, suc, ◌+◌, ◌≤◌, ◌<◌, ◌≡◌, refl, ◌⊎◌, inl, inr, Bool, true, false, Option, none, some,
  arith, String, leb, if◌then◌else◌, Bool-cases, is_null,
}

-- the rounds that a poll still needs at the deadline: one more where no job is known yet
abbrev pub rounds_left : Option ℕ → ℕ
rounds_left none = 2
rounds_left (some job) = 1

-- A round goes on only before the deadline, or when it learns the provider's job.
abbrev Goes : PollRound → Option ℕ → Option ℕ → Type 0
Goes round job next =
    ((round.is_late ≡ false) × (next ≡ job)) ⊎ ((job ≡ none) × (is_null next ≡ false))

check_status-Goes :
    (round : PollRound) (job : Option ℕ) (status : ProviderStatus) (result : ProviderResult)
    (next : Option ℕ)
    → check_status round job status result ≡ poll_again next
    → Goes round job next
unfolding check_status
check_status-Goes round job solved_status result next e = absurd (ground arith)
check_status-Goes round job failed_status result next e = absurd (ground arith)
check_status-Goes round job other_status result next e = elim (Bool-cases round.is_late) [
  | inl t ↦ absurd (ground arith)
  | inr t ↦ inl (t, ground arith)
]

recorded-Goes :
    (round : PollRound) (job : ℕ) (out : PlateState × (ServiceError ⊎ PlateSolveJob))
    (next : Option ℕ)
    → (recorded job out).1 ≡ poll_again next
    → Goes round none next
unfolding recorded
recorded-Goes round job (s, inl e) next h = absurd (ground arith)
recorded-Goes round job (s, inr row) next h =
    let same : some job ≡ next = ground arith in inr (refl, rw (← same) refl)

follow_report-Goes :
    (job_id : ℕ) (worker : String) (round : PollRound) (report : Report) (named : Option ℕ)
    (s : PlateState) (next : Option ℕ)
    → (follow_report job_id worker round report named s).1 ≡ poll_again next
    → Goes round none next
unfolding follow_report
follow_report-Goes job_id worker round report (some job) s next h = recorded-Goes round job _ next h
follow_report-Goes job_id worker round report none s next h =
    check_status-Goes round none report.status report.result next h

read_submission-Goes :
    (job_id : ℕ) (worker : String) (round : PollRound) (answer : Raised ⊎ Report) (s : PlateState)
    (next : Option ℕ)
    → (read_submission job_id worker round answer s).1 ≡ poll_again next
    → Goes round none next
unfolding read_submission
read_submission-Goes job_id worker round (inl e) s next h = absurd (ground arith)
read_submission-Goes job_id worker round (inr report) s next h =
    follow_report-Goes job_id worker round report report.job s next h

read_job-Goes :
    (round : PollRound) (job : ℕ) (answer : Raised ⊎ Report) (next : Option ℕ)
    → read_job round job answer ≡ poll_again next
    → Goes round (some job) next
unfolding read_job
read_job-Goes round job (inl e) next h = absurd (ground arith)
read_job-Goes round job (inr report) next h =
    check_status-Goes round (some job) report.status report.result next h

ask_provider-Goes :
    (job_id : ℕ) (worker : String) (round : PollRound) (submission job : Option ℕ) (s : PlateState)
    (next : Option ℕ)
    → (ask_provider job_id worker round submission job s).1 ≡ poll_again next
    → Goes round job next
unfolding ask_provider
ask_provider-Goes job_id worker round submission (some job) s next h =
    read_job-Goes round job round.job_report next h
ask_provider-Goes job_id worker round none none s next h = absurd (ground arith)
ask_provider-Goes job_id worker round (some submission) none s next h =
    read_submission-Goes job_id worker round round.submission_report s next h

touched-Goes :
    (touched : Bool) (asked : PlateState × PollStep) (s : PlateState)
    (lost : Raised ⊎ ProviderResult) (next : Option ℕ) (round : PollRound) (job : Option ℕ)
    → (asked.1 ≡ poll_again next → Goes round job next)
    → (if touched then asked else (s, poll_ended lost)).1 ≡ poll_again next
    → Goes round job next
touched-Goes true asked s lost next round job a h = a h
touched-Goes false asked s lost next round job a h = absurd (ground arith)

poll_round-Goes :
    (job_id : ℕ) (worker : String) (lease_seconds : ℕ) (round : PollRound)
    (submission job : Option ℕ) (s : PlateState) (next : Option ℕ)
    → (poll_round job_id worker lease_seconds round submission job s).1 ≡ poll_again next
    → Goes round job next
unfolding poll_round
poll_round-Goes job_id worker lease_seconds round submission job s next h =
    touched-Goes _ _ _ _ next round job
      (ask_provider-Goes job_id worker round submission job _ next) h

PollStep-cases :
    (step : PollStep)
    → ((result : Raised ⊎ ProviderResult) × (step ≡ poll_ended result))
      ⊎ ((next : Option ℕ) × (step ≡ poll_again next))
PollStep-cases (poll_ended result) = inl (result, refl)
PollStep-cases (poll_again next) = inr (next, refl)

enough_left :
    (round : PollRound) (job next : Option ℕ) (limit fuel k : ℕ)
    → (limit ≤ k → round.is_late ≡ true)
    → Goes round job next
    → rounds_left job ≤ suc fuel
    → limit + rounds_left job ≤ suc fuel + k
    → (rounds_left next ≤ fuel) × (limit + rounds_left next ≤ fuel + suc k)
enough_left round job next limit fuel k late (inl (early, same)) f h =
    let before : k < limit = elim (Bool-cases (leb limit k)) [
      | inl t ↦ let e = late (ground arith) in absurd (ground arith)
      | inr t ↦ ground arith
    ] in
    rw same (omega arith, omega arith)
enough_left round job none limit fuel k late (inr (unknown, known)) f h = absurd (ground arith)
enough_left round job (some found) limit fuel k late (inr (unknown, known)) f h =
    let two : rounds_left job ≡ 2 = rw unknown refl in (omega arith, omega arith)

pub poll_provider-ends :
    (limit fuel job_id : ℕ) (worker : String) (lease_seconds : ℕ) (rounds : ℕ → PollRound)
    (submission : Option ℕ) (k : ℕ) (job : Option ℕ) (s : PlateState)
    → ((n : ℕ) → limit ≤ n → (rounds n).is_late ≡ true)
    → rounds_left job ≤ fuel
    → limit + rounds_left job ≤ fuel + k
    → (out : PlateState × (Raised ⊎ ProviderResult)) × (poll_provider fuel job_id worker
          lease_seconds rounds submission k job s
        ≡ some out)
unfolding poll_provider
poll_provider-ends limit zero job_id worker lease_seconds rounds submission k none s late f h =
    absurd (omega arith)
poll_provider-ends limit zero job_id worker lease_seconds rounds submission k (some job) s late f
      h =
    absurd (omega arith)
poll_provider-ends limit (suc fuel) job_id worker lease_seconds rounds submission k job s late f h =
    elim (PollStep-cases (poll_round job_id worker lease_seconds (rounds k) submission job s).1) [
      | inl (result, e) ↦ (
        ((poll_round job_id worker lease_seconds (rounds k) submission job s).0, result),
        rw (e, poll_provider) refl,
      )
      | inr (next, e) ↦
          let goes =
            poll_round-Goes job_id worker lease_seconds (rounds k) submission job s next e in
          let (f', h') = enough_left (rounds k) job next limit fuel k (late k) goes f h in
          let (out, eq) =
            poll_provider-ends limit fuel job_id worker lease_seconds rounds submission (suc k) next
              (poll_round job_id worker lease_seconds (rounds k) submission job s).0 late f' h' in
          (out, rw (e, poll_provider) eq)
    ]
