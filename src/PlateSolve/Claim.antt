-- ===== src/PlateSolve/Claim.antt =====
-- What a claim of the Plate Solve queue takes.
use tc_backend.Table.Keys.{Unique-update_where, first_where-key_and, first_where-update_key}
use tc_backend.Table.Order.{first-order_by, Has-order_by, IsOrder}
use tc_backend.Table.Rows.{first_where-Has, first_where, update_where, Has-select, select}
use tc_backend.PlateSolve.{is_processing, PlateSolveJob}
use tc_backend.PlateSolve.Queue.{
  has_id, write_claim, get, is_claimable, claim_next, next_claimable, claim_le,
}
use tc_backend.PlateSolve.Queue.Owned.{is_owned, owned_processing_job}
use tc_backend.Prelude.{
  first-Has, ℕ, ◌≡◌, refl, sym, ◌∙◌, inl, inr, Bool, true, false, not, ◌&&◌, ◌||◌, some, List,
  arith, String, str_eq, eq_iff, ltb, leb, ◌==◌, ==_iff, if◌then◌else◌, Option-cases, null_eq, All,
  Has, Unique,
}

abbrev pub UniqueIds : List PlateSolveJob → Type 0
UniqueIds = Unique (λ r. r.id)

lex_trans :
    (a b c i j k : ℕ)
    → (ltb a b || (a == b && leb i j)) ≡ true
    → (ltb b c || (b == c && leb j k)) ≡ true
    → (ltb a c || (a == c && leb i k)) ≡ true
lex_trans a b c i j k h g = ground arith

claim_le-IsOrder : IsOrder claim_le
unfolding claim_le
claim_le-IsOrder = record {
  total = λ x y. ground arith;
  trans = λ x y z h g. lex_trans x.created_at y.created_at z.created_at x.id y.id z.id h g;
}

abbrev pub claimable : (PlateSolveJob → Bool) → ℕ → List PlateSolveJob → List PlateSolveJob
claimable locked now rows = select (λ r. is_claimable now r && not (locked r)) rows

pub next_claimable_sound :
    (locked : PlateSolveJob → Bool) (now : ℕ) (rows : List PlateSolveJob) (job : PlateSolveJob)
    → next_claimable locked now rows ≡ some job
    → Has job rows
      × (is_claimable now job ≡ true)
      × (locked job ≡ false)
      × All (λ r. claim_le job r ≡ true) (claimable locked now rows)
unfolding next_claimable
next_claimable_sound locked now rows job h =
    let m = Has-order_by claim_le (claimable locked now rows) job (first-Has _ job h) in
    let s = Has-select (λ r. is_claimable now r && not (locked r)) rows job m in
    (s.0, ground arith, ground arith, first-order_by claim_le claim_le-IsOrder _ job h)

owner_finds :
    (worker : String) (lease_seconds now : ℕ) (rows : List PlateSolveJob) (job : PlateSolveJob)
    → UniqueIds rows
    → Has job rows
    → owned_processing_job job.id worker
        (update_where (has_id job.id) (write_claim worker lease_seconds now) rows)
      ≡ some (write_claim worker lease_seconds now job)
unfolding owned_processing_job is_owned write_claim
owner_finds worker lease_seconds now rows job u m =
    let f = write_claim worker lease_seconds now in
    let rows' = update_where (has_id job.id) f rows in
    let found : first_where (has_id job.id) rows' ≡ some (f job) =
      first_where-update_key (λ r. r.id) ◌==◌ ==_iff f rows job job.id u m (λ r. refl)
      ∙ rw ((==_iff job.id job.id).1 refl) refl in
    let self : str_eq worker worker ≡ true = (eq_iff worker worker).1 refl in
    first_where-key_and (λ r. r.id) ◌==◌ ==_iff
      (λ r. is_processing r.status && null_eq r.worker_id worker) rows' (f job)
      (Unique-update_where (λ r. r.id) (has_id job.id) f rows (λ r. refl) u)
      (first_where-Has (has_id job.id) rows' (f job) found) (rw self refl)

-- A claim that returns a job has taken a row that was WAITING, or PROCESSING with no lease or one
-- that had run out, and that nobody held: the oldest such row, by id where the times are equal.
-- Afterwards its new owner finds the returned row as its own, and every other id finds what it
-- found before.
pub claim_next_sound :
    (locked : PlateSolveJob → Bool) (worker : String) (lease_seconds now : ℕ)
    (rows : List PlateSolveJob) (claimed : PlateSolveJob) (i : ℕ)
    → UniqueIds rows
    → (claim_next locked worker lease_seconds now rows).1 ≡ some claimed
    → (job : PlateSolveJob) × Has job rows
      × (is_claimable now job ≡ true)
      × (locked job ≡ false)
      × All (λ r. claim_le job r ≡ true) (claimable locked now rows)
      × (claimed ≡ write_claim worker lease_seconds now job)
      × (owned_processing_job job.id worker (claim_next locked worker lease_seconds now rows).0
          ≡ some claimed)
      × (get i (claim_next locked worker lease_seconds now rows).0
          ≡ (if job.id == i then some claimed else get i rows))
unfolding claim_next owned_processing_job is_owned get write_claim
claim_next_sound locked worker lease_seconds now rows claimed i u h =
    elim (Option-cases (next_claimable locked now rows)) [
      | inl e ↦ absurd (ground arith)
      | inr (job, e) ↦
          let s = next_claimable_sound locked now rows job e in
          let f = write_claim worker lease_seconds now in
          let eq : f job ≡ claimed = ground arith in
          (
            job,
            s.0,
            s.1,
            s.2,
            s.3,
            sym eq,
            rw (e, claim_next) (owner_finds worker lease_seconds now rows job u s.0 ∙ rw eq),
            rw (e, claim_next)
                (first_where-update_key (λ r. r.id) ◌==◌ ==_iff f rows job i u s.0 (λ r. refl)
                  ∙ rw eq),
          )
    ]
