-- ===== src/PlateSolve/Fence.antt =====
-- A worker that has lost its lease can change nothing.
use tc_backend.ClaimLog.{Text}
use tc_backend.PlateSolve.Service.{
  settle_owned, record_or_raise, requeue_transient, fail, lease_lost, complete, PlateState,
}
use tc_backend.PlateSolve.{Text, PlateSolveJob}
use tc_backend.Table.Rows.{update_where, first_where, count_where}
use tc_backend.PlateSolve.Queue.{next_claimable, has_id, write_claim, claim_next}
use tc_backend.PlateSolve.Queue.Owned.{
  record_replacement_submission, mark_retryable, mark_failed, mark_completed, touch_lease,
  record_provider_job, record_provider_job, record_submission, ProviderResult, owned_processing_job,
  change_owned, is_owned,
}
use tc_backend.Prelude.{
  ℕ, ◌≡◌, refl, ap, inl, inr, Bool, false, none, some, List, [], ◌∷◌, arith, String, str_eq,
  if◌then◌else◌, Bool-cases, Option-cases,
}

module _ {A : Type 0} (q p : A → Bool) (f : A → A)
    (h : (x : A) → q (if p x then f x else x) ≡ false) where
  first_where-update_none : (xs : List A) → first_where q (update_where p f xs) ≡ none
  unfolding first_where update_where
  first_where-update_none [] = refl
  first_where-update_none (x ∷ xs) = rw (h x) (first_where-update_none xs)

  count_where-update_none : (xs : List A) → count_where q (update_where p f xs) ≡ 0
  unfolding count_where update_where
  count_where-update_none [] = refl
  count_where-update_none (x ∷ xs) = rw (h x, count_where-update_none xs) (omega arith)

not_owner :
    (old worker : String) (lease_seconds now id : ℕ)
    → str_eq worker old ≡ false
    → (x : PlateSolveJob)
    → is_owned id old (if has_id id x then write_claim worker lease_seconds now x else x) ≡ false
unfolding is_owned write_claim
not_owner old worker lease_seconds now id h x = elim (Bool-cases (has_id id x)) [
  | inl e ↦ rw (e, h) (ground arith)
  | inr e ↦ rw e (rw e)
]

unowned :
    (id : ℕ) (worker : String) (change : PlateSolveJob → PlateSolveJob) (rows : List PlateSolveJob)
    → first_where (is_owned id worker) rows ≡ none
    → change_owned id worker change rows ≡ (rows, none)
unfolding change_owned owned_processing_job
unowned id worker change rows h = rw (h, change_owned)

claimed_unowned :
    (locked : PlateSolveJob → Bool) (old worker : String) (lease_seconds now : ℕ)
    (rows : List PlateSolveJob) (claimed : PlateSolveJob)
    → str_eq worker old ≡ false
    → (claim_next locked worker lease_seconds now rows).1 ≡ some claimed
    → (first_where (is_owned claimed.id old) (claim_next locked worker lease_seconds now rows).0
        ≡ none)
      × (count_where (is_owned claimed.id old) (claim_next locked worker lease_seconds now rows).0
          ≡ 0)
unfolding claim_next write_claim
claimed_unowned locked old worker lease_seconds now rows claimed h e =
    elim (Option-cases (next_claimable locked now rows)) [
      | inl g ↦ absurd (ground arith)
      | inr (job, g) ↦
          let f = write_claim worker lease_seconds now in
          let same : f job ≡ claimed = ground arith in
          let at : job.id ≡ claimed.id = ap (λ x. x.id) same in
          let k = not_owner old worker lease_seconds now job.id h in
          rw (← at, g, claim_next)
            (
              first_where-update_none (is_owned job.id old) (has_id job.id) f k rows,
              count_where-update_none (is_owned job.id old) (has_id job.id) f k rows,
            )
    ]

-- Once a worker has claimed a job, every other worker has lost it, and so has the one that held the
-- job before: it can neither complete, fail or requeue the job nor record provider ids, each of
-- which reports the lost lease and leaves the state as it is, and it cannot extend the lease.
pub claim_fences :
    (locked : PlateSolveJob → Bool) (old worker : String) (lease_seconds now later : ℕ)
    (s : PlateState) (claimed : PlateSolveJob) (provider : ProviderResult) (message : Text) (n : ℕ)
    → str_eq worker old ≡ false
    → (claim_next locked worker lease_seconds now s.jobs).1 ≡ some claimed
    → let u : PlateState = record s {
      jobs = (claim_next locked worker lease_seconds now s.jobs).0;
    } in
      (complete claimed.id old provider later u ≡ (u, inl lease_lost))
      × (fail claimed.id old message later u ≡ (u, inl lease_lost))
      × (requeue_transient claimed.id old message later u ≡ (u, inl lease_lost))
      × (record_or_raise (record_submission claimed.id old n later u.jobs) u ≡ (u, inl lease_lost))
      × (record_or_raise (record_provider_job claimed.id old n later u.jobs) u
          ≡ (u, inl lease_lost))
      × (record_or_raise (record_replacement_submission claimed.id old n later u.jobs) u
          ≡ (u, inl lease_lost))
      × ((touch_lease claimed.id old lease_seconds later u.jobs).1 ≡ false)
unfolding touch_lease record_or_raise settle_owned complete fail requeue_transient mark_completed
    mark_failed mark_retryable record_submission record_provider_job record_replacement_submission
claim_fences locked old worker lease_seconds now later s claimed provider message n h e =
    let rows = (claim_next locked worker lease_seconds now s.jobs).0 in
    let k = claimed_unowned locked old worker lease_seconds now s.jobs claimed h e in
    let no = λ (change : PlateSolveJob → PlateSolveJob). unowned claimed.id old change rows k.0 in
    (rw (no _), rw (no _), rw (no _), rw (no _), rw (no _), rw (no _), rw k.1)
