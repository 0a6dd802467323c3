-- ===== src/VisionQueue/Claim.antt =====
-- Which Vision job is taken next, and that no two workers take the same one.
use tc_backend.Prelude.{
  first-Has, ◌⊎◌, ℕ, ◌≡◌, refl, true, false, not, ◌&&◌, ◌||◌, none, some, List, [], ◌∷◌, arith, ltb,
  leb, ◌==◌, ==_iff, first, take, All, Has, Unique, Bool-cases, inl, inr, or_default,
}
use tc_backend.Table.Rows.{select, update_where, count_where, Has-select, count_where-update_where}
use tc_backend.Table.Order.{IsOrder, order_by, first-order_by, Has-order_by}
use tc_backend.Table.Keys.{first_where-update_key, update_where-key, count_where-key}
use tc_backend.VisionJob.{VisionJob, is_waiting, processing}
use tc_backend.VisionQueue.{has_id, queue_le, null_rank, get_next_waiting_job, mark_processing}

abbrev pub UniqueIds : List VisionJob → Type 0
UniqueIds = Unique (λ r. r.id)

lex_total :
    (p q a b c d i j : ℕ)
    → ((ltb q p || (p == q && (ltb a b || (a == b && (ltb d c || (c == d && leb j i)))))) ≡ true)
      ⊎ ((ltb p q || (q == p && (ltb b a || (b == a && (ltb c d || (d == c && leb i j)))))) ≡ true)
lex_total p q a b c d i j = ground arith

lex_trans :
    (p q r a b c x y z i j k : ℕ)
    → (ltb q p || (p == q && (ltb a b || (a == b && (ltb y x || (x == y && leb j i)))))) ≡ true
    → (ltb r q || (q == r && (ltb b c || (b == c && (ltb z y || (y == z && leb k j)))))) ≡ true
    → (ltb r p || (p == r && (ltb a c || (a == c && (ltb z x || (x == z && leb k i)))))) ≡ true
lex_trans p q r a b c x y z i j k h g = ground arith

queue_le-IsOrder : IsOrder queue_le
unfolding queue_le
queue_le-IsOrder = record {
  total = λ x y.
      lex_total x.priority y.priority (null_rank x.requested_at) (null_rank y.requested_at)
        (or_default x.requested_at 0) (or_default y.requested_at 0) x.id y.id;
  trans = λ x y z h g.
      lex_trans x.priority y.priority z.priority (null_rank x.requested_at)
        (null_rank y.requested_at) (null_rank z.requested_at) (or_default x.requested_at 0)
        (or_default y.requested_at 0) (or_default z.requested_at 0) x.id y.id z.id h g;
}

abbrev pub candidates : List VisionJob → List VisionJob
candidates rows = select (λ r. is_waiting r.status && not r.deleted) rows

first-take_one : {A : Type 0} (xs : List A) → first (take 1 xs) ≡ first xs
first-take_one [] = refl
first-take_one (x ∷ xs) = refl

-- The job that is offered next is a WAITING row that is not deleted, and no such row goes before it
-- by priority, then by the latest request, then by id.
pub get_next_waiting_job_sound :
    (rows : List VisionJob) (job : VisionJob)
    → get_next_waiting_job rows ≡ some job
    → Has job rows
      × (is_waiting job.status ≡ true)
      × (job.deleted ≡ false)
      × All (λ r. queue_le job r ≡ true) (candidates rows)
unfolding get_next_waiting_job
get_next_waiting_job_sound rows job h =
    let e : first (order_by queue_le (candidates rows)) ≡ some job =
      rw (← first-take_one (order_by queue_le (candidates rows))) h in
    let m = Has-order_by queue_le (candidates rows) job (first-Has _ job e) in
    let s = Has-select (λ r. is_waiting r.status && not r.deleted) rows job m in
    (s.0, ground arith, ground arith, first-order_by queue_le queue_le-IsOrder _ job e)

-- what a claim makes of the row
abbrev pub claimed : ℕ → VisionJob → VisionJob
claimed now r = record r {
  status = processing;
  started_at = some now;
  completed_at = none;
  last_error = none;
}

-- A claim of a row that is still WAITING writes it, and returns it as written.
pub mark_processing-waiting :
    (job : VisionJob) (now : ℕ) (rows : List VisionJob)
    → UniqueIds rows
    → Has job rows
    → is_waiting job.status ≡ true
    → job.deleted ≡ false
    → mark_processing job now rows
      ≡ (update_where (has_id job.id) (claimed now) rows, some (claimed now job))
unfolding mark_processing
mark_processing-waiting job now rows u m w d =
    let q = λ (r : VisionJob). is_waiting r.status && not r.deleted in
    rw (count_where-key (λ r. r.id) ◌==◌ ==_iff q rows job u m (ground arith)) (
      rw (update_where-key (λ r. r.id) ◌==◌ ==_iff q (claimed now) rows job u m (ground arith)) (
        rw
          (first_where-update_key (λ r. r.id) ◌==◌ ==_iff (claimed now) rows job job.id u m
            (λ r. refl))
          (rw ((==_iff job.id job.id).1 refl))))

-- Two workers that were offered the same job: once the claim of one has succeeded, the claim of the
-- other fails and changes nothing.
pub mark_processing_once :
    (job job' won : VisionJob) (now later : ℕ) (rows : List VisionJob)
    → job.id ≡ job'.id
    → (mark_processing job now rows).1 ≡ some won
    → mark_processing job' later (mark_processing job now rows).0
      ≡ ((mark_processing job now rows).0, none)
unfolding mark_processing
mark_processing_once job job' won now later rows same h =
    let p = λ (r : VisionJob). has_id job.id r && (is_waiting r.status && not r.deleted) in
    elim (Bool-cases (count_where p rows == 1)) [
      | inl e ↦
          rw e
            (rw (← same) (rw (count_where-update_where p (claimed now) rows (λ x. ground arith))))
      | inr e ↦ absurd (ground arith)
    ]
