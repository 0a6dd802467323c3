-- ===== src/Observation.antt =====
-- app/astrojournal/repositories/observation_record_repository.py: the writes that a revision guards,
-- on the columns of PlateSolve/Service. The other columns of an update are its `change`.
use tc_backend.Table.Rows.{count_where-update_where, first_where, update_where, count_where}
use tc_backend.PlateSolve.Service.{has_record_id, ObservationRecord}
use tc_backend.Prelude.{
  ℕ, ◌+◌, ◌≡◌, inl, inr, Bool, ◌&&◌, Option, none, some, List, arith, ◌==◌, if◌then◌else◌,
  Bool-cases, is_null,
}

unfoldable pub at_revision : ℕ → ℕ → ObservationRecord → Bool
at_revision id revision r = has_record_id id r && (is_null r.deleted_at && r.revision == revision)

unfoldable pub update_if_revision :
    ℕ
    → ℕ
    → (ObservationRecord → ObservationRecord)
    → List ObservationRecord
    → List ObservationRecord × Option ObservationRecord
update_if_revision id revision change rows =
    let rows' =
      update_where (at_revision id revision)
        (λ r. record (change r) { id = r.id; revision = revision + 1 }) rows in
    if count_where (at_revision id revision) rows == 1
    then (rows', first_where (λ r. has_record_id id r && is_null r.deleted_at) rows')
    else (rows, none)

unfoldable pub soft_delete :
    ObservationRecord → ℕ → List ObservationRecord → List ObservationRecord × ObservationRecord
soft_delete record_ now rows =
    let delete = λ (r : ObservationRecord). record r {
      deleted_at = some now;
      revision = record_.revision + 1;
    } in
    (update_where (has_record_id record_.id) delete rows, delete record_)

-- Two clients that edit the same revision of a record: once the update of one has returned a
-- record, the update of the other returns none and changes nothing, whatever the two write.
pub update_if_revision_once :
    (id revision : ℕ) (change change' : ObservationRecord → ObservationRecord)
    (rows : List ObservationRecord) (won : ObservationRecord)
    → (update_if_revision id revision change rows).1 ≡ some won
    → update_if_revision id revision change' (update_if_revision id revision change rows).0
      ≡ ((update_if_revision id revision change rows).0, none)
unfolding update_if_revision
update_if_revision_once id revision change change' rows won h =
    elim (Bool-cases (count_where (at_revision id revision) rows == 1)) [
      | inl e ↦ rw e (
          rw (
            count_where-update_where (at_revision id revision)
              (λ r. record (change r) { id = r.id; revision = revision + 1 }) rows
              (λ r. unfold at_revision in ground arith)))
      | inr e ↦ absurd (ground arith)
    ]
