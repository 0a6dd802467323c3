-- ===== src/PlateSolve/Resync.antt =====
-- Synchronising twice.
use tc_backend.PlateSolve.{status_text, PlateSolveJobStatus, PlateSolveJob}
use tc_backend.ChangeFeed.{ChangeTable}
use tc_backend.Table.Rows.{update_where, select}
use tc_backend.PlateSolve.Service.{
  PlateState, sync_observation_status, shows_file, write_status, sync_each, ObservationRecord,
}
use tc_backend.Prelude.{
  ℕ, ◌≡◌, refl, inl, inr, Bool, true, false, List, [], ◌∷◌, arith, String, eq_iff, if◌then◌else◌,
  Bool-cases, All, Unique,
}
use tc_backend.PlateSolve.Sync.{is_behind, sync_record-same, to_write, sync_observation_status_lem}

sync_each-idle :
    (status : String) (now : ℕ) (js records : List ObservationRecord) (changes : ChangeTable)
    → All (λ j. is_behind status j ≡ false) js
    → sync_each status now js (records, changes) ≡ (records, changes)
unfolding sync_each
sync_each-idle status now [] records changes a = refl
sync_each-idle status now (j ∷ js) records changes a =
    rw (sync_record-same status now j records changes (ground arith), sync_each)
      (sync_each-idle status now js records changes a.1)

All-updated :
    (P : ObservationRecord → Type 0) (p : ObservationRecord → Bool)
    (f : ObservationRecord → ObservationRecord) (xs : List ObservationRecord)
    → ((x : ObservationRecord) → P (if p x then f x else x))
    → All P (update_where p f xs)
unfolding update_where
All-updated P p f [] h = tt
All-updated P p f (x ∷ xs) h = (h x, All-updated P p f xs h)

All-selected :
    (Q : ObservationRecord → Type 0) (p : ObservationRecord → Bool) (xs : List ObservationRecord)
    → All (λ x. p x ≡ true → Q x) xs
    → All Q (select p xs)
unfolding select
All-selected Q p [] a = tt
All-selected Q p (x ∷ xs) a = elim (Bool-cases (p x)) [
  | inl e ↦ rw e (a.0 e, All-selected Q p xs a.1)
  | inr e ↦ rw e (All-selected Q p xs a.1)
]

up_to_date :
    (file : ℕ) (status : String) (x : ObservationRecord)
    → let y = if to_write file status x then write_status status x else x in
      shows_file file y ≡ true → is_behind status y ≡ false
unfolding shows_file
up_to_date file status x = elim (Bool-cases (to_write file status x)) [
  | inl e ↦ rw (e, (eq_iff status status).1 refl) (λ _. refl)
  | inr e ↦ rw e (λ h. ground (arith, e))
]

-- Synchronising again with the same status, at any later time, changes nothing: no record gets
-- another revision, and no event is repeated.
pub sync_observation_status_twice :
    (job : PlateSolveJob) (status : PlateSolveJobStatus) (now later : ℕ) (s : PlateState)
    → Unique (λ r. r.id) s.records
    → sync_observation_status job status later (sync_observation_status job status now s)
      ≡ sync_observation_status job status now s
unfolding sync_observation_status
sync_observation_status_twice job status now later s u =
    let v = sync_observation_status job status now s in
    let st = status_text status in
    let p = shows_file job.common_file_id in
    let done : All (λ j. is_behind st j ≡ false) (select p v.records) = All-selected _ p v.records (
      rw (sync_observation_status_lem job status now s u).0
        (All-updated _ _ _ s.records (up_to_date job.common_file_id st))) in
    rw (sync_each-idle st later (select p v.records) v.records v.changes done)
