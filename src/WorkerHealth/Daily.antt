-- ===== src/WorkerHealth/Daily.antt =====
-- The daily counters across heartbeats.
use tc_backend.Table.Rows.{
  update_where, first_where-append, first_where_sound, first_where-update_where, first_where,
}
use tc_backend.WorkerHealth.{
  increase_processed, heartbeat, day_of, count_processed, is_worker, reset_daily, first_where,
  get_worker, new_worker, write_heartbeat, change_worker, HealthRow, ensure_worker,
}
use tc_backend.Prelude.{
  ℕ, ◌+◌, ◌≡◌, refl, ap, ◌∙◌, inl, inr, Bool, true, Option, some, List, [], ◌∷◌, arith, String,
  eq_iff, ◌==◌, Option-cases, or_default,
}

-- the row of a worker, as it is or as it will be made
abbrev pub worker_row : String → List HealthRow → HealthRow
worker_row name rows = or_default (first_where (is_worker name) rows) (new_worker name)

found_new :
    (name : String) → first_where (is_worker name) (new_worker name ∷ []) ≡ some (new_worker name)
unfolding first_where
found_new name = rw ((eq_iff name name).1 refl) refl

ensured :
    (name : String) (rows : List HealthRow)
    → first_where (is_worker name) (ensure_worker name rows) ≡ some (worker_row name rows)
unfolding ensure_worker get_worker
ensured name rows = elim (Option-cases (first_where (is_worker name) rows)) [
  | inl e ↦
      rw (e, ensure_worker)
        (first_where-append (is_worker name) rows (new_worker name ∷ []) ∙ rw e (found_new name))
  | inr (row, e) ↦ rw (e, ensure_worker) e
]

changed :
    (name : String) (change : HealthRow → HealthRow) (rows : List HealthRow)
    → ((row : HealthRow) → (change row).worker_name ≡ row.worker_name)
    → worker_row name (change_worker name change rows) ≡ change (worker_row name rows)
unfolding change_worker
changed name change rows h =
    let found = ensured name rows in
    let mine =
      first_where_sound (is_worker name) (ensure_worker name rows) (worker_row name rows) found in
    let after : first_where (is_worker name)
          (update_where (is_worker name) change (ensure_worker name rows))
        ≡ some (change (worker_row name rows)) =
      first_where-update_where (is_worker name) (is_worker name) change (ensure_worker name rows)
        (λ row. rw (h row) refl)
      ∙ rw found (rw mine refl) in
    ap (λ r. or_default r (new_worker name)) after

write_heartbeat-name :
    (now : ℕ) (job : Option String) (clear : Bool) (row : HealthRow)
    → (write_heartbeat now job clear row).worker_name ≡ row.worker_name
unfolding write_heartbeat reset_daily
write_heartbeat-name now job clear row = ground arith

-- The marker of the date is the heartbeat that was just written.
write_heartbeat-counters :
    (now : ℕ) (job : Option String) (clear : Bool) (row : HealthRow)
    → ((write_heartbeat now job clear row).processed_count ≡ row.processed_count)
      × ((write_heartbeat now job clear row).failed_count ≡ row.failed_count)
      × ((write_heartbeat now job clear row).last_heartbeat ≡ some now)
unfolding write_heartbeat reset_daily
write_heartbeat-counters now job clear row =
    let today : (day_of now == day_of now) ≡ true = ground arith in rw today (refl, refl, refl)

count_processed-name :
    (now : ℕ) (row : HealthRow) → (count_processed now row).worker_name ≡ row.worker_name
unfolding count_processed reset_daily
count_processed-name now row = ground arith

count_processed-today :
    (now t : ℕ) (row : HealthRow)
    → row.last_heartbeat ≡ some t
    → day_of t ≡ day_of now
    → (count_processed now row).processed_count ≡ row.processed_count + 1
unfolding count_processed reset_daily
count_processed-today now t row e d =
    let today : (day_of t == day_of now) ≡ true = ground arith in rw e (rw today refl)

-- A heartbeat hides that the date has changed: after a heartbeat, a job that is processed on the same
-- day is counted on top of whatever the worker's counter was before the heartbeat, however long ago
-- the heartbeat before was. The heartbeat itself leaves both daily counters as they were.
pub increase_processed-heartbeat :
    (t now : ℕ) (name : String) (job : Option String) (clear : Bool) (rows : List HealthRow)
    → day_of t ≡ day_of now
    → ((worker_row name (heartbeat t name job clear rows)).processed_count
        ≡ (worker_row name rows).processed_count)
      × ((worker_row name (heartbeat t name job clear rows)).failed_count
          ≡ (worker_row name rows).failed_count)
      × ((worker_row name
            (increase_processed now name (heartbeat t name job clear rows))).processed_count
          ≡ (worker_row name rows).processed_count + 1)
unfolding heartbeat increase_processed
increase_processed-heartbeat t now name job clear rows d =
    let beat = changed name (write_heartbeat t job clear) rows (write_heartbeat-name t job clear) in
    let (processed, failed, marker) = write_heartbeat-counters t job clear (worker_row name rows) in
    let counted =
      changed name (count_processed now) (heartbeat t name job clear rows)
        (count_processed-name now) in
    (
      ap (λ r. r.processed_count) beat ∙ processed,
      ap (λ r. r.failed_count) beat ∙ failed,
      ap (λ r. r.processed_count) counted
          ∙ (count_processed-today now t (worker_row name (heartbeat t name job clear rows))
                (ap (λ r. r.last_heartbeat) beat ∙ marker) d
              ∙ ap (λ n. n + 1) (ap (λ r. r.processed_count) beat ∙ processed)),
    )
