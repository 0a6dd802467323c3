-- ===== src/VisionWorker/Settle.antt =====
-- What a round of the Vision worker does to the queue.
use tc_backend.Prelude.{
  ap, Bool-cases, ℕ, ◌+◌, ◌≡◌, refl, true, none, some, List, ◌==◌, ==_iff, if◌then◌else◌, Has, inl,
  inr, ◌∙◌,
}
use tc_backend.Table.Rows.{first_where, update_where, first_where-Has}
use tc_backend.Table.Keys.{first_where-update_key, first_where-key, Unique-update_where}
use tc_backend.VisionJob.{VisionJob, waiting, completed, failed}
use tc_backend.VisionQueue.{
  mark_processing, has_id, get_next_waiting_job, mark_completed, mark_waiting, mark_failed,
}
use tc_backend.VisionQueue.Claim.{
  UniqueIds, claimed, get_next_waiting_job_sound, mark_processing-waiting,
}
use tc_backend.VisionWorker.{
  Outcome, analyzed, quota_exceeded, raised, settle, process_next_vision_job,
}

-- the row that each outcome leaves
abbrev pub settled : Outcome → VisionJob → ℕ → VisionJob
settled analyzed r now = record r { status = completed; completed_at = some now; last_error = none }
settled quota_exceeded r now = record r {
  status = waiting;
  started_at = none;
  completed_at = none;
  last_error = none;
}
settled (raised message) r now = record r {
  status = failed;
  retry_count = r.retry_count + 1;
  last_error = some message;
  completed_at = some now;
}

settle_lem :
    (o : Outcome) (job : VisionJob) (now : ℕ) (rows : List VisionJob) (i : ℕ)
    → UniqueIds rows
    → Has job rows
    → first_where (has_id i) (settle o job now rows)
      ≡ (if job.id == i then some (settled o job now) else first_where (has_id i) rows)
unfolding settle mark_completed mark_waiting mark_failed
settle_lem analyzed job now rows i u m =
    first_where-update_key (λ r. r.id) ◌==◌ ==_iff _ rows job i u m (λ r. refl)
settle_lem quota_exceeded job now rows i u m =
    rw (first_where-key (λ r. r.id) ◌==◌ ==_iff rows job u m, settle)
      (first_where-update_key (λ r. r.id) ◌==◌ ==_iff _ rows job i u m (λ r. refl))
settle_lem (raised message) job now rows i u m =
    rw (first_where-key (λ r. r.id) ◌==◌ ==_iff rows job u m, settle)
      (first_where-update_key (λ r. r.id) ◌==◌ ==_iff _ rows job i u m (λ r. refl))

round_eq :
    (work : VisionJob → Outcome) (now later : ℕ) (rows : List VisionJob) (job : VisionJob)
    → get_next_waiting_job rows ≡ some job
    → mark_processing job now rows
      ≡ (update_where (has_id job.id) (claimed now) rows, some (claimed now job))
    → (process_next_vision_job true (λ r. r) (λ r. r) work now later rows).0
      ≡ settle
          (work (claimed now job))
          (claimed now job)
          later
          (update_where (has_id job.id) (claimed now) rows)
unfolding process_next_vision_job
round_eq work now later rows job h e = rw (h, process_next_vision_job) (rw (e, e))

-- With API quota and no other worker at work, the offered job ends COMPLETED when the analysis
-- returns, WAITING with its retry count unchanged when the monthly limit stops it, and FAILED with
-- one more retry and the error when it raises; every other row is found as before.
pub process_next_vision_job_lem :
    (work : VisionJob → Outcome) (now later : ℕ) (rows : List VisionJob) (job : VisionJob) (i : ℕ)
    → UniqueIds rows
    → get_next_waiting_job rows ≡ some job
    → first_where (has_id i) (process_next_vision_job true (λ r. r) (λ r. r) work now later rows).0
      ≡ (if job.id == i
          then some (settled (work (claimed now job)) (claimed now job) later)
          else first_where (has_id i) rows)
unfolding process_next_vision_job
process_next_vision_job_lem work now later rows job i u h =
    let (m, w, d, _) = get_next_waiting_job_sound rows job h in
    let rows' = update_where (has_id job.id) (claimed now) rows in
    let u' = Unique-update_where (λ r. r.id) (has_id job.id) (claimed now) rows (λ r. refl) u in
    let found =
      first_where-update_key (λ r. r.id) ◌==◌ ==_iff (claimed now) rows job job.id u m (λ r. refl)
      ∙ rw ((==_iff job.id job.id).1 refl) in
    let m' : Has (claimed now job) rows' =
      first_where-Has (has_id job.id) rows' (claimed now job) found in
    ap (first_where (has_id i))
      (round_eq work now later rows job h (mark_processing-waiting job now rows u m w d))
    ∙ settle_lem (work (claimed now job)) (claimed now job) later rows' i u' m'
    ∙ rw (first_where-update_key (λ r. r.id) ◌==◌ ==_iff (claimed now) rows job i u m (λ r. refl))
        (elim (Bool-cases (job.id == i)) [ inl e ↦ rw e | inr e ↦ rw e ])
