-- ===== src/PlateSolve/Sync.antt =====
-- What `_sync_observation_status` does to the observation records and the change events.
use tc_backend.PlateSolve.{status_text, PlateSolveJobStatus, PlateSolveJob}
use tc_backend.Table.Keys.{Unique-select}
use tc_backend.ChangeFeed.{ChangeTable, update, append, ChangeEvent}
use tc_backend.Table.Rows.{
  All→Has, update_where-fuse, Has→All, update_where-cong, update_where-false, update_where, select,
}
use tc_backend.PlateSolve.Service.{
  PlateState, sync_observation_status, shows_file, write_status, has_record_id, sync_record,
  sync_each, ObservationRecord,
}
use mathlib.Core.List.{append_assoc, append-nil}
use tc_backend.Prelude.{
  ℕ, ◌+◌, ◌≡◌, refl, sym, ◌∙◌, ◌≢◌, inl, inr, Bool, true, false, not, ◌&&◌, ◌||◌, some, List, [],
  ◌∷◌, ◌++◌, arith, String, str_eq, ==_iff, Bool-cases, All, Has, Unique,
}

abbrev pub is_behind : String → ObservationRecord → Bool
is_behind status r = not (str_eq r.plate_solve_status status)

-- The row is one of the records that the loop writes.
abbrev pub written : String → List ObservationRecord → ObservationRecord → Bool
written status [] r = false
written status (j ∷ js) r = (has_record_id j.id r && is_behind status j) || written status js r

written_absent :
    (status : String) (js : List ObservationRecord) (r : ObservationRecord)
    → All (λ j. r.id ≢ j.id) js
    → written status js r ≡ false
written_absent status [] r a = refl
written_absent status (j ∷ js) r a = elim (Bool-cases (has_record_id j.id r)) [
  | inl e ↦ absurd (a.0 ((==_iff r.id j.id).0 e))
  | inr e ↦ rw e (written_absent status js r a.1)
]

and_false : (b : Bool) → (b && false) ≡ false
and_false true = refl
and_false false = refl

pub sync_record-same :
    (status : String) (now : ℕ) (r : ObservationRecord) (records : List ObservationRecord)
    (changes : ChangeTable)
    → str_eq r.plate_solve_status status ≡ true
    → sync_record status now r (records, changes) ≡ (records, changes)
unfolding sync_record
sync_record-same status now r records changes h = rw h

abbrev pub event : ObservationRecord → ℕ → ChangeTable → ChangeTable
event r now changes =
    append "AstroJournal" "ObservationRecord" r.id update (some (r.revision + 1)) false now changes

pub sync_record-behind :
    (status : String) (now : ℕ) (r : ObservationRecord) (records : List ObservationRecord)
    (changes : ChangeTable)
    → str_eq r.plate_solve_status status ≡ false
    → sync_record status now r (records, changes)
      ≡ (update_where (has_record_id r.id) (write_status status) records, event r now changes)
unfolding sync_record
sync_record-behind status now r records changes h = rw h

sync_each-records :
    (status : String) (now : ℕ) (js records : List ObservationRecord) (changes : ChangeTable)
    → Unique (λ r. r.id) js
    → (sync_each status now js (records, changes)).0
      ≡ update_where (written status js) (write_status status) records
unfolding sync_each
sync_each-records status now [] records changes u = sym (update_where-false _ records)
sync_each-records status now (j ∷ js) records changes u =
    elim (Bool-cases (str_eq j.plate_solve_status status)) [
      | inl e ↦
          rw (sync_record-same status now j records changes e, sync_each)
            (sync_each-records status now js records changes u.1
              ∙ update_where-cong _ _ _ _ records
                  (Has→All _ records (λ r m. rw e (rw (and_false (has_record_id j.id r))))))
      | inr e ↦
          rw (sync_record-behind status now j records changes e, sync_each)
            (sync_each-records status now js _ _ u.1
              ∙ update_where-fuse (has_record_id j.id) (written status js) _ (write_status status)
                  (write_status status) (write_status status) records
                  (Has→All _ records (λ r m. elim (Bool-cases (has_record_id j.id r)) [
                    | inl t ↦
                        let gone : written status js (write_status status r) ≡ false =
                          written_absent status js (write_status status r)
                            (rw ((==_iff r.id j.id).0 t) u.0) in
                        rw (t, gone, e)
                    | inr t ↦ rw t
                  ])))
    ]

-- A record that the query selects is written where its status is behind, and no other is.
All-select :
    (P : ObservationRecord → Type 0) (p : ObservationRecord → Bool) (xs : List ObservationRecord)
    → All P xs
    → All P (select p xs)
unfolding select
All-select P p [] a = tt
All-select P p (x ∷ xs) a = elim (Bool-cases (p x)) [
  | inl e ↦ rw e (a.0, All-select P p xs a.1)
  | inr e ↦ rw e (All-select P p xs a.1)
]

written-select :
    (status : String) (p : ObservationRecord → Bool) (xs : List ObservationRecord)
    → Unique (λ r. r.id) xs
    → (x : ObservationRecord) → Has x xs
    → written status (select p xs) x ≡ (p x && is_behind status x)
unfolding select
written-select status p [] u x m = elim m [ ]
written-select status p (y ∷ ys) u x m = elim m [
  | inl e ↦ elim (Bool-cases (p y)) [
    | inl t ↦
        rw (e, t)
          (rw (written_absent status (select p ys) y (All-select _ p ys u.0))
            (rw ((==_iff y.id y.id).1 refl) (ground arith)))
    | inr t ↦ rw (e, t) (written_absent status (select p ys) y (All-select _ p ys u.0))
  ]
  | inr n ↦
      let other : has_record_id y.id x ≡ false = elim (Bool-cases (has_record_id y.id x)) [
        | inl t ↦ absurd (All→Has (λ w. y.id ≢ w.id) ys x u.0 n (sym ((==_iff x.id y.id).0 t)))
        | inr t ↦ t
      ] in
      elim (Bool-cases (p y)) [
        | inl t ↦ rw (t, other) (written-select status p ys u.1 x n)
        | inr t ↦ rw t (written-select status p ys u.1 x n)
      ]
]

-- the event that tells of a record's next revision
abbrev pub event_of : ℕ → ℕ → ObservationRecord → ChangeEvent
event_of next now r = record {
  id = next;
  service_name = "AstroJournal";
  resource_type = "ObservationRecord";
  resource_id = r.id;
  operation = update;
  revision = some (r.revision + 1);
  tombstone = false;
  changed_at = now;
}

-- one event for each record, under consecutive ids
abbrev pub announced : ℕ → ℕ → List ObservationRecord → List ChangeEvent
announced next now [] = []
announced next now (r ∷ rs) = event_of next now r ∷ announced (next + 1) now rs

sync_each-events :
    (status : String) (now : ℕ) (js records : List ObservationRecord) (changes : ChangeTable)
    → (sync_each status now js (records, changes)).1.events
      ≡ changes.events ++ announced changes.next_id now (select (is_behind status) js)
unfolding sync_each append select
sync_each-events status now [] records changes = sym (append-nil changes.events)
sync_each-events status now (j ∷ js) records changes =
    elim (Bool-cases (str_eq j.plate_solve_status status)) [
      | inl e ↦
          rw (sync_record-same status now j records changes e, sync_each)
            (rw e (sync_each-events status now js records changes))
      | inr e ↦
          rw (sync_record-behind status now j records changes e, sync_each)
            (rw e (
              sync_each-events status now js _ (event j now changes)
              ∙ append_assoc changes.events (event_of changes.next_id now j ∷ [])
                  (announced (changes.next_id + 1) now (select (is_behind status) js))))
    ]

select-select :
    (p q : ObservationRecord → Bool) (xs : List ObservationRecord)
    → select q (select p xs) ≡ select (λ r. p r && q r) xs
unfolding select
select-select p q [] = refl
select-select p q (x ∷ xs) = elim (Bool-cases (p x)) [
  | inl e ↦ rw (e, select-select p q xs)
  | inr e ↦ rw (e, select-select p q xs)
]

Unique-selected :
    (p : ObservationRecord → Bool) (xs : List ObservationRecord)
    → Unique (λ r. r.id) xs
    → Unique (λ r. r.id) (select p xs)
Unique-selected p xs u = Unique-select (λ r. r.id) p xs u

-- the active records of AstroJournal that show the file and have another status
abbrev pub to_write : ℕ → String → ObservationRecord → Bool
to_write file status r = shows_file file r && is_behind status r

-- Synchronising the records of a job's file with a status writes exactly the active records of
-- AstroJournal that show the file and had another status: each gets the status and the next
-- revision, all other records stay, and the feed gets one UPDATE event for each written record, in
-- order, with the new revision and consecutive ids. The jobs stay.
pub sync_observation_status_lem :
    (job : PlateSolveJob) (status : PlateSolveJobStatus) (now : ℕ) (s : PlateState)
    → Unique (λ r. r.id) s.records
    → let u = sync_observation_status job status now s in
      let p = to_write job.common_file_id (status_text status) in
      (u.records ≡ update_where p (write_status (status_text status)) s.records)
      × (u.changes.events
          ≡ s.changes.events ++ announced s.changes.next_id now (select p s.records))
      × (u.jobs ≡ s.jobs)
unfolding sync_observation_status
sync_observation_status_lem job status now s u =
    let js = select (shows_file job.common_file_id) s.records in
    (
      sync_each-records (status_text status) now js s.records s.changes
            (Unique-selected _ s.records u)
          ∙ update_where-cong _ _ _ _ s.records (
              Has→All _ s.records (λ r m. rw (
                written-select (status_text status) (shows_file job.common_file_id) s.records u r
                  m))),
      sync_each-events (status_text status) now js s.records s.changes
          ∙ rw (
              select-select (shows_file job.common_file_id) (is_behind (status_text status))
                s.records),
      refl,
    )
