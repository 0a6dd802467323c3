-- ===== src/UploadQueue/Claim.antt =====
-- What a claim of the upload queue takes, and that no two workers take the same job.
use tc_backend.Prelude.{
  first-none, first-Has, ℕ, ◌≡◌, refl, Bool, true, false, not, ◌&&◌, ◌||◌, none, some, List, arith,
  ltb, leb, ◌==◌, ==_iff, if◌then◌else◌, first, All, Has, Unique, Bool-cases, Option-cases, inl,
  inr, sym, ◌∙◌, ap,
}
use tc_backend.Table.Rows.{
  select, first_where, count_where, select-cong, Has-select, select-Has, count_where-update_where,
  All→Has,
}
use tc_backend.Table.Order.{IsOrder, order_by, first-order_by, Has-order_by, order_by-All}
use tc_backend.Table.Keys.{first_where-update_key, update_where-key, count_where-key}
use tc_backend.ClaimLog.{Text}
use tc_backend.UploadJob.{UploadJob, is_waiting}
use tc_backend.UploadQueue.{
  claim_le, claim_priority, has_id, write_claim, claimed_log, next_waiting, get_next_waiting_job,
  claim_postgres, claim_if_waiting, claim_fallback,
}

abbrev pub UniqueIds : List UploadJob → Type 0
UniqueIds = Unique (λ r. r.id)

lex_trans :
    (p q r a b c i j k : ℕ)
    → (ltb p q || (p == q && (ltb a b || (a == b && leb i j)))) ≡ true
    → (ltb q r || (q == r && (ltb b c || (b == c && leb j k)))) ≡ true
    → (ltb p r || (p == r && (ltb a c || (a == c && leb i k)))) ≡ true
lex_trans p q r a b c i j k h g = ground arith

claim_le-IsOrder : IsOrder claim_le
unfolding claim_le
claim_le-IsOrder = record {
  total = λ x y. ground arith;
  trans = λ x y z h g.
      lex_trans (claim_priority x.service_name) (claim_priority y.service_name)
        (claim_priority z.service_name) x.created_at y.created_at z.created_at x.id y.id z.id h g;
}

abbrev pub claimable : (UploadJob → Bool) → List UploadJob → List UploadJob
claimable locked rows = select (λ r. is_waiting r.status && not (locked r)) rows

-- The row that is taken next: a claimable row, before every other claimable row in claim order.
pub next_waiting_sound :
    (locked : UploadJob → Bool) (rows : List UploadJob) (job : UploadJob)
    → next_waiting locked rows ≡ some job
    → Has job rows
      × (is_waiting job.status ≡ true)
      × (locked job ≡ false)
      × All (λ r. claim_le job r ≡ true) (claimable locked rows)
unfolding next_waiting
next_waiting_sound locked rows job h =
    let m = Has-order_by claim_le (claimable locked rows) job (first-Has _ job h) in
    let s = Has-select (λ r. is_waiting r.status && not (locked r)) rows job m in
    (s.0, ground arith, ground arith, first-order_by claim_le claim_le-IsOrder _ job h)

-- A claim on PostgreSQL that returns a job has taken a WAITING row that no other transaction held,
-- the first of them by service priority, creation time and id; afterwards the lookup of that id
-- gives the returned PROCESSING job, and the lookup of any other id gives what it gave before.
pub claim_postgres_sound :
    (locked : UploadJob → Bool) (worker : Text) (now : ℕ) (rows : List UploadJob)
    (claimed : UploadJob) (i : ℕ)
    → UniqueIds rows
    → (claim_postgres locked worker now rows).1 ≡ some claimed
    → (job : UploadJob) × Has job rows
      × (is_waiting job.status ≡ true)
      × (locked job ≡ false)
      × All (λ r. claim_le job r ≡ true) (claimable locked rows)
      × (claimed ≡ write_claim now (claimed_log worker job) job)
      × (first_where (has_id i) (claim_postgres locked worker now rows).0
          ≡ (if job.id == i then some claimed else first_where (has_id i) rows))
unfolding claim_postgres
claim_postgres_sound locked worker now rows claimed i u h =
    elim (Option-cases (next_waiting locked rows)) [
      | inl e ↦ absurd (ground arith)
      | inr (job, e) ↦
          let s = next_waiting_sound locked rows job e in
          let f = write_claim now (claimed_log worker job) in
          let eq : f job ≡ claimed = ground arith in
          (
            job,
            s.0,
            s.1,
            s.2,
            s.3,
            sym eq,
            rw (e, claim_postgres)
                (first_where-update_key (λ r. r.id) ◌==◌ ==_iff f rows job i u s.0 (λ r. refl)
                  ∙ rw eq),
          )
    ]

-- While some row is WAITING and free, a claim on PostgreSQL returns a job.
pub claim_postgres_total :
    (locked : UploadJob → Bool) (worker : Text) (now : ℕ) (rows : List UploadJob) (r : UploadJob)
    → Has r rows
    → is_waiting r.status ≡ true
    → locked r ≡ false
    → (claimed : UploadJob) × ((claim_postgres locked worker now rows).1 ≡ some claimed)
unfolding claim_postgres next_waiting
claim_postgres_total locked worker now rows r m w free =
    elim (Option-cases (next_waiting locked rows)) [
      | inl e ↦
          let empty = first-none (order_by claim_le (claimable locked rows)) e in
          let all : All (λ _. ⊥) (order_by claim_le (claimable locked rows)) = rw empty tt in
          absurd (
            All→Has (λ _. ⊥) (claimable locked rows) r
              (order_by-All claim_le (λ _. ⊥) (claimable locked rows) all)
              (select-Has _ rows r m (ground arith)))
      | inr (job, e) ↦ (write_claim now (claimed_log worker job) job, ground arith)
    ]

next_waiting-unlocked :
    (rows : List UploadJob) → get_next_waiting_job rows ≡ next_waiting (λ _. false) rows
unfolding get_next_waiting_job next_waiting
next_waiting-unlocked rows =
    ap (λ l. first (order_by claim_le l))
      (select-cong (λ r. is_waiting r.status) (λ r. is_waiting r.status && true) rows
        (λ r. ground arith))

-- With nobody else at work, the fallback for databases without SKIP LOCKED makes the same claim as
-- PostgreSQL: the same rows and the same result.
pub claim_fallback-eq-postgres :
    (worker : Text) (now : ℕ) (rows : List UploadJob)
    → UniqueIds rows
    → claim_fallback worker now rows ≡ claim_postgres (λ _. false) worker now rows
unfolding claim_fallback claim_postgres claim_if_waiting
claim_fallback-eq-postgres worker now rows u =
    rw (next_waiting-unlocked rows, claim_fallback)
      (elim (Option-cases (next_waiting (λ _. false) rows)) [
        | inl e ↦ rw (e, claim_postgres)
        | inr (job, e) ↦
            let s = next_waiting_sound (λ _. false) rows job e in
            let f = write_claim now (claimed_log worker job) in
            rw (e, claim_postgres)
              (rw
                (count_where-key (λ r. r.id) ◌==◌ ==_iff (λ r. is_waiting r.status) rows job u s.0
                  s.1)
                (rw
                  (update_where-key (λ r. r.id) ◌==◌ ==_iff (λ r. is_waiting r.status) f rows job u
                    s.0 s.1)
                  (rw
                    (first_where-update_key (λ r. r.id) ◌==◌ ==_iff f rows job job.id u s.0
                      (λ r. refl))
                    (rw ((==_iff job.id job.id).1 refl)))))
      ])

-- Two workers that have read the same WAITING row: the conditional UPDATE of the first one that
-- succeeds makes that of the second one fail, and the second one changes nothing.
pub claim_if_waiting_once :
    (w1 w2 : Text) (t1 t2 : ℕ) (job job' : UploadJob) (rows : List UploadJob) (claimed : UploadJob)
    → job.id ≡ job'.id
    → (claim_if_waiting w1 t1 job rows).1 ≡ some claimed
    → claim_if_waiting w2 t2 job' (claim_if_waiting w1 t1 job rows).0
      ≡ ((claim_if_waiting w1 t1 job rows).0, none)
unfolding claim_if_waiting
claim_if_waiting_once w1 w2 t1 t2 job job' rows claimed same h =
    let p = λ (r : UploadJob). has_id job.id r && is_waiting r.status in
    elim (Bool-cases (count_where p rows == 0)) [
      | inl e ↦ absurd (ground arith)
      | inr e ↦ rw e (
          rw (← same) (
            rw (
              count_where-update_where p (write_claim t1 (claimed_log w1 job)) rows
                (λ x. ground arith))))
    ]
