-- ===== src/PlateSolve/Worker/Ends.antt =====
-- A round of a claimed job ends, and the worker holds the job no longer.
use tc_backend.PlateSolve.Worker.Release.{settle_result-IsReleased, IsReleased}
use tc_backend.PlateSolve.Worker.Poll.{poll_provider-ends}
use tc_backend.PlateSolve.Queue.Owned.{ProviderResult}
use tc_backend.PlateSolve.Service.{PlateState}
use tc_backend.PlateSolve.{PlateSolveJob}
use tc_backend.PlateSolve.Worker.{
  ProviderResult, poll_provider, Raised, PlateState, PlateSolveJob, PollRound,
}
use tc_backend.PlateSolve.Worker.Round.{
  settle_result, has_provider_ids, RoundEnd, attempt_job, process_claimed_plate, attempted,
  in_handler, Submitted, PlateWorld, PlateScript, PlateWorker, poll_submitted, after_resume,
}
use tc_backend.Table.Rows.{map_some}
use tc_backend.Prelude.{
  ◌&&◌, ℕ, ◌+◌, ◌≤◌, ◌≡◌, refl, ◌⊎◌, inl, inr, Bool, true, false, not, Option, none, some, arith,
  if◌then◌else◌, Option-cases, is_null,
}

-- From some round on, the deadline has passed.
abbrev pub IsLateFrom : ℕ → (ℕ → PollRound) → Type 0
IsLateFrom limit rounds = (n : ℕ) → limit ≤ n → (rounds n).is_late ≡ true

abbrev Ended : {A : Type 0} → Option A → Type 0
Ended {A} result = (out : A) × (result ≡ some out)

map-Ended :
    {A B : Type 0} (f : A → B) (result : Option A) → Ended result → Ended (map_some f result)
map-Ended f result (out, e) = (f out, rw e refl)

if-Ended :
    {A : Type 0} (test : Bool) (a b : Option A) → Ended a → Ended b → Ended (if test then a else b)
if-Ended true a b h k = h
if-Ended false a b h k = k

polled :
    (limit fuel : ℕ) (worker : PlateWorker) (job : PlateSolveJob) (rounds : ℕ → PollRound)
    (submission known : Option ℕ) (s : PlateState)
    → IsLateFrom limit rounds
    → limit + 2 ≤ fuel
    → Ended (poll_provider fuel job.id worker.name worker.lease_seconds rounds submission 0 known s)
polled limit fuel worker job rounds submission none s late h =
    poll_provider-ends limit fuel job.id worker.name worker.lease_seconds rounds submission 0 none s
      late (omega arith) (omega arith)
polled limit fuel worker job rounds submission (some known) s late h =
    poll_provider-ends limit fuel job.id worker.name worker.lease_seconds rounds submission 0
      (some known) s late (omega arith) (omega arith)

poll_submitted-Ended :
    (limit fuel : ℕ) (worker : PlateWorker) (job : PlateSolveJob) (rounds : ℕ → PollRound)
    (context : Raised ⊎ ProviderResult → Raised ⊎ ProviderResult) (submitted : Submitted)
    → IsLateFrom limit rounds
    → limit + 2 ≤ fuel
    → Ended (poll_submitted fuel worker job rounds context submitted)
unfolding poll_submitted
poll_submitted-Ended limit fuel worker job rounds context submitted late h =
    elim (Option-cases submitted.failure) [
      | inl e ↦
          let (out, eq) = map-Ended (attempted submitted.world context) _ (
            polled limit fuel worker job rounds submitted.submission none submitted.world.plate late
              h) in
          (out, rw (e, poll_submitted) eq)
      | inr (raised, e) ↦ (
        record {
          world = submitted.world;
          has_ids = not (is_null submitted.submission && is_null job.provider_job_id);
          result = context (inl raised);
        },
        rw (e, poll_submitted) refl,
      )
    ]

after_resume-Ended :
    (limit fuel : ℕ) (worker : PlateWorker) (script : PlateScript) (job : PlateSolveJob)
    (w : PlateWorld) (polled_once : PlateState × (Raised ⊎ ProviderResult))
    → IsLateFrom limit script.rounds_again
    → limit + 2 ≤ fuel
    → Ended (after_resume fuel worker script job w polled_once)
unfolding after_resume
after_resume-Ended limit fuel worker script job w (s, inr result) late h = (_, refl)
after_resume-Ended limit fuel worker script job w (s, inl e) late h =
    if-Ended e.is_absent _ _
      (poll_submitted-Ended limit fuel worker job script.rounds_again (in_handler e) _ late h)
      (_, refl)

attempt_job-Ended :
    (limit fuel : ℕ) (worker : PlateWorker) (script : PlateScript) (job : PlateSolveJob)
    (w : PlateWorld)
    → IsLateFrom limit script.rounds
    → IsLateFrom limit script.rounds_again
    → limit + 2 ≤ fuel
    → Ended (attempt_job fuel worker script job w)
unfolding attempt_job
attempt_job-Ended limit fuel worker script job w late again h =
    elim (Option-cases script.prepared) [
      | inl e ↦
          let (polled_once, eq) =
            polled limit fuel worker job script.rounds job.provider_submission_id
              job.provider_job_id w.plate late h in
          rw e (
            if-Ended (has_provider_ids job) _ _
              (rw eq (after_resume-Ended limit fuel worker script job w polled_once again h))
              (poll_submitted-Ended limit fuel worker job script.rounds (λ r. r) _ late h))
      | inr (raised, e) ↦ rw e (_, refl)
    ]

-- The round of a claimed job, whatever others commit, the provider answers and fails, and however the
-- round ends, with a lost lease too: if the polling is past its deadline from its round `limit` on, the
-- round ends after at most `limit + 2` polls of each kind, and then no row of the job is PROCESSING by
-- this worker.
pub process_claimed_plate-IsReleased :
    (limit fuel : ℕ) (worker : PlateWorker) (script : PlateScript) (job : PlateSolveJob)
    (w : PlateWorld)
    → IsLateFrom limit script.rounds
    → IsLateFrom limit script.rounds_again
    → limit + 2 ≤ fuel
    → (out : PlateWorld × RoundEnd) × (process_claimed_plate fuel worker script job w ≡ some out)
      × IsReleased job.id worker.name out.0.plate.jobs
unfolding process_claimed_plate
process_claimed_plate-IsReleased limit fuel worker script job w late again h =
    let (a, e) = attempt_job-Ended limit fuel worker script job w late again h in
    (
      settle_result worker script job a.has_ids a.world a.result,
      rw e refl,
      settle_result-IsReleased worker script job a.has_ids a.world a.result,
    )
