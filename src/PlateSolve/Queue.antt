-- ===== src/PlateSolve/Queue.antt =====
-- app/astrojournal/repositories/plate_solve_job_repository.py: the operations of the Plate Solve
-- queue on the rows of astro_plate_solve_jobs. `locked` says which rows another transaction holds.
pub mod Owned
use tc_backend.Table.Order.{order_by}
use tc_backend.Table.Rows.{select, count_where, first_where, update_where}
use tc_backend.PlateSolve.{
  no_solution, waiting, is_waiting, failed, is_processing, processing, completed, Solution,
  PlateSolveJob,
}
use tc_backend.ClaimLog.{Text}
use tc_backend.Prelude.{
  ℕ, ◌+◌, ◌*◌, Bool, true, false, not, ◌&&◌, ◌||◌, Option, none, some, List, [], ◌∷◌, ◌++◌, String,
  ltb, leb, ◌==◌, if◌then◌else◌, is_null, null_lt, null_eq, first,
}

abbrev pub has_id : ℕ → PlateSolveJob → Bool
has_id i r = r.id == i

abbrev pub has_file : ℕ → PlateSolveJob → Bool
has_file file r = r.common_file_id == file

unfoldable pub get : ℕ → List PlateSolveJob → Option PlateSolveJob
get job_id rows = first_where (has_id job_id) rows

unfoldable pub get_by_common_file_id : ℕ → List PlateSolveJob → Option PlateSolveJob
get_by_common_file_id file rows = first_where (has_file file) rows

abbrev pub new_row : ℕ → ℕ → Option ℕ → ℕ → PlateSolveJob
new_row id file observation now = record {
  id = id;
  common_file_id = file;
  observation_record_id = observation;
  status = waiting;
  attempts = 0;
  provider_submission_id = none;
  provider_job_id = none;
  worker_id = none;
  lease_expires_at = none;
  started_at = none;
  completed_at = none;
  last_error = none;
  solution = no_solution;
  created_at = now;
  updated_at = now;
}

-- the primary key and the unique constraint on common_file_id
unfoldable pub violates_unique : ℕ → ℕ → PlateSolveJob → Bool
violates_unique id file r = has_id id r || has_file file r

-- `existing.observation_record_id is None and observation_record_id is not None`
unfoldable pub link_record : Option ℕ → ℕ → PlateSolveJob → PlateSolveJob
link_record none now r = r
link_record (some observation) now r =
    if is_null r.observation_record_id
    then record r { observation_record_id = some observation; updated_at = now }
    else r

-- the INSERT in its savepoint; `none` is an IntegrityError that is raised again
unfoldable pub insert_or_existing :
    ℕ → ℕ → Option ℕ → ℕ → List PlateSolveJob → Option (List PlateSolveJob × PlateSolveJob × Bool)
unfolding violates_unique get_by_common_file_id
insert_or_existing id file observation now rows =
    if count_where (violates_unique id file) rows == 0
    then some (rows ++ new_row id file observation now ∷ [], new_row id file observation now, true)
    else elim (get_by_common_file_id file rows) [
      | none ↦ none
      | some existing ↦ some (rows, existing, false)
    ]

-- `during` is what others commit between the lookup and the INSERT.
unfoldable pub enqueue :
    (List PlateSolveJob → List PlateSolveJob)
    → ℕ
    → ℕ
    → Option ℕ
    → ℕ
    → List PlateSolveJob
    → Option (List PlateSolveJob × PlateSolveJob × Bool)
enqueue during id file observation now rows = elim (get_by_common_file_id file rows) [
  | some existing ↦ some (
    update_where (has_id existing.id) (link_record observation now) rows,
    link_record observation now existing,
    false,
  )
  | none ↦ insert_or_existing id file observation now (during rows)
]

-- WAITING, or PROCESSING with a lease that is missing or has run out
unfoldable pub is_claimable : ℕ → PlateSolveJob → Bool
is_claimable now r =
    is_waiting r.status
    || (is_processing r.status && (is_null r.lease_expires_at || null_lt r.lease_expires_at now))

-- ORDER BY created_at, id
unfoldable pub claim_le : PlateSolveJob → PlateSolveJob → Bool
claim_le a b = ltb a.created_at b.created_at || (a.created_at == b.created_at && leb a.id b.id)

-- A job with provider work to resume is no new attempt.
abbrev pub claimed_attempts : PlateSolveJob → ℕ
claimed_attempts r =
    if is_null r.provider_submission_id && is_null r.provider_job_id
    then r.attempts + 1
    else r.attempts

unfoldable pub write_claim : String → ℕ → ℕ → PlateSolveJob → PlateSolveJob
write_claim worker lease_seconds now r = record r {
  status = processing;
  attempts = claimed_attempts r;
  started_at = some now;
  completed_at = none;
  last_error = none;
  worker_id = some worker;
  lease_expires_at = some (now + lease_seconds * 1000000);
  updated_at = now;
}

unfoldable pub next_claimable :
    (PlateSolveJob → Bool) → ℕ → List PlateSolveJob → Option PlateSolveJob
next_claimable locked now rows =
    first (order_by claim_le (select (λ r. is_claimable now r && not (locked r)) rows))

unfoldable pub claim_next :
    (PlateSolveJob → Bool)
    → String
    → ℕ
    → ℕ
    → List PlateSolveJob
    → List PlateSolveJob × Option PlateSolveJob
claim_next locked worker lease_seconds now rows = elim (next_claimable locked now rows) [
  | none ↦ (rows, none)
  | some job ↦ (
    update_where (has_id job.id) (write_claim worker lease_seconds now) rows,
    some (write_claim worker lease_seconds now job),
  )
]
