-- ===== src/PlateSolve/Worker/Release.antt =====
-- After its round a worker holds the job no longer.
use tc_backend.PlateSolve.Worker.{is_transient, Raised, lost_lease}
use tc_backend.ClaimLog.{Text}
use tc_backend.PlateSolve.Worker.Round.{
  PlateScript, end_of, PlateWorker, settle_result, handle_failure, after_complete, PlateWorld,
}
use tc_backend.PlateSolve.Service.{
  ServiceError, fail, requeue_transient, complete, PlateState, settle_owned,
  sync_observation_status,
}
use tc_backend.PlateSolve.Queue.{has_id}
use tc_backend.PlateSolve.Queue.Owned.{
  ProviderResult, mark_failed, mark_retryable, mark_completed, owned_processing_job, is_owned,
  change_owned,
}
use tc_backend.Table.Rows.{first_where_sound, update_where, first_where}
use tc_backend.PlateSolve.{
  failed, waiting, completed, Text, PlateSolveJobStatus, is_processing, PlateSolveJob,
}
use tc_backend.Prelude.{
  ℕ, ◌≡◌, refl, ◌⊎◌, inl, inr, Bool, true, false, ◌&&◌, Option, none, some, List, [], ◌∷◌, arith,
  String, Bool-cases, Option-cases, All,
}

not_found :
    {A : Type 0} (p : A → Bool) (xs : List A) → first_where p xs ≡ none → All (λ x. p x ≡ false) xs
unfolding first_where
not_found p [] e = tt
not_found p (x ∷ xs) e = elim (Bool-cases (p x)) [
  | inl t ↦ absurd (ground arith)
  | inr t ↦ (t, not_found p xs (ground arith))
]

-- no row is PROCESSING by the worker
abbrev pub IsReleased : ℕ → String → List PlateSolveJob → Type 0
IsReleased job_id worker rows = All (λ r. is_owned job_id worker r ≡ false) rows

idle-unowned :
    (job_id : ℕ) (worker : String) (r : PlateSolveJob)
    → is_processing r.status ≡ false
    → is_owned job_id worker r ≡ false
unfolding is_owned
idle-unowned job_id worker r h = elim (Bool-cases (has_id job_id r)) [
  | inl e ↦ rw e (rw h refl)
  | inr e ↦ rw e refl
]

other-unowned :
    (job_id : ℕ) (worker : String) (r : PlateSolveJob)
    → has_id job_id r ≡ false
    → is_owned job_id worker r ≡ false
unfolding is_owned
other-unowned job_id worker r h = rw h refl

owned-id :
    (job_id : ℕ) (worker : String) (r : PlateSolveJob)
    → is_owned job_id worker r ≡ true
    → r.id ≡ job_id
unfolding is_owned
owned-id job_id worker r h = elim (Bool-cases (has_id job_id r)) [
  | inl e ↦ ground arith
  | inr e ↦ let no = other-unowned job_id worker r e in absurd (unfold is_owned in ground arith)
]

changed-IsReleased :
    (job_id : ℕ) (worker : String) (change : PlateSolveJob → PlateSolveJob)
    (rows : List PlateSolveJob)
    → ((r : PlateSolveJob) → is_processing (change r).status ≡ false)
    → IsReleased job_id worker (update_where (has_id job_id) change rows)
unfolding update_where
changed-IsReleased job_id worker change [] h = tt
changed-IsReleased job_id worker change (r ∷ rows) h = (
  (elim (Bool-cases (has_id job_id r)) [
    | inl e ↦ rw e (idle-unowned job_id worker (change r) (h r))
    | inr e ↦ rw e (other-unowned job_id worker r e)
  ]),
  changed-IsReleased job_id worker change rows h,
)

change_owned-IsReleased :
    (job_id : ℕ) (worker : String) (change : PlateSolveJob → PlateSolveJob)
    (rows : List PlateSolveJob)
    → ((r : PlateSolveJob) → is_processing (change r).status ≡ false)
    → IsReleased job_id worker (change_owned job_id worker change rows).0
unfolding change_owned owned_processing_job
change_owned-IsReleased job_id worker change rows h =
    elim (Option-cases (first_where (is_owned job_id worker) rows)) [
      | inl e ↦ rw (e, change_owned) (not_found (is_owned job_id worker) rows e)
      | inr (job, e) ↦
          let same =
            owned-id job_id worker job (first_where_sound (is_owned job_id worker) rows job e) in
          rw (e, change_owned) (rw same (changed-IsReleased job_id worker change rows h))
    ]

sync-jobs :
    (job : PlateSolveJob) (status : PlateSolveJobStatus) (now : ℕ) (s : PlateState)
    → (sync_observation_status job status now s).jobs ≡ s.jobs
unfolding sync_observation_status
sync-jobs job status now s = refl

settle_owned-IsReleased :
    (job_id : ℕ) (worker : String) (settled : List PlateSolveJob × Option PlateSolveJob)
    (status : PlateSolveJobStatus) (now : ℕ) (s : PlateState)
    → IsReleased job_id worker settled.0
    → (settled.1 ≡ none → IsReleased job_id worker s.jobs)
    → IsReleased job_id worker (settle_owned settled status now s).0.jobs
unfolding settle_owned
settle_owned-IsReleased job_id worker (rows, none) status now s a b = b refl
settle_owned-IsReleased job_id worker (rows, some job) status now s a b =
    rw (sync-jobs job status now (record s { jobs = rows })) a

change_owned-none :
    (job_id : ℕ) (worker : String) (change : PlateSolveJob → PlateSolveJob)
    (rows : List PlateSolveJob)
    → (change_owned job_id worker change rows).1 ≡ none
    → IsReleased job_id worker rows
unfolding change_owned owned_processing_job
change_owned-none job_id worker change rows h =
    elim (Option-cases (first_where (is_owned job_id worker) rows)) [
      | inl e ↦ not_found (is_owned job_id worker) rows e
      | inr (job, e) ↦ absurd (ground arith)
    ]

-- A change by the owner that ends PROCESSING releases the job, found or not.
settled-IsReleased :
    (job_id : ℕ) (worker : String) (change : PlateSolveJob → PlateSolveJob)
    (status : PlateSolveJobStatus) (now : ℕ) (s : PlateState)
    → ((r : PlateSolveJob) → is_processing (change r).status ≡ false)
    → IsReleased job_id worker
        (settle_owned (change_owned job_id worker change s.jobs) status now s).0.jobs
settled-IsReleased job_id worker change status now s h =
    settle_owned-IsReleased job_id worker (change_owned job_id worker change s.jobs) status now s
      (change_owned-IsReleased job_id worker change s.jobs h)
      (change_owned-none job_id worker change s.jobs)

fail-IsReleased :
    (job_id : ℕ) (worker : String) (message : Text) (now : ℕ) (s : PlateState)
    → IsReleased job_id worker (fail job_id worker message now s).0.jobs
unfolding fail mark_failed
fail-IsReleased job_id worker message now s =
    settled-IsReleased job_id worker _ failed now s (λ r. refl)

requeue-IsReleased :
    (job_id : ℕ) (worker : String) (message : Text) (now : ℕ) (s : PlateState)
    → IsReleased job_id worker (requeue_transient job_id worker message now s).0.jobs
unfolding requeue_transient mark_retryable
requeue-IsReleased job_id worker message now s =
    settled-IsReleased job_id worker _ waiting now s (λ r. refl)

complete-IsReleased :
    (job_id : ℕ) (worker : String) (provider : ProviderResult) (now : ℕ) (s : PlateState)
    → IsReleased job_id worker (complete job_id worker provider now s).0.jobs
unfolding complete mark_completed
complete-IsReleased job_id worker provider now s =
    settled-IsReleased job_id worker _ completed now s (λ r. refl)

end_of-jobs :
    (w : PlateWorld) (out : PlateState × (ServiceError ⊎ PlateSolveJob))
    → (end_of w out).0.plate.jobs ≡ out.0.jobs
end_of-jobs w (s, inl e) = refl
end_of-jobs w (s, inr job) = refl

handle_failure-IsReleased :
    (worker : PlateWorker) (script : PlateScript) (job : PlateSolveJob) (has_ids : Bool)
    (e : Raised) (w : PlateWorld)
    → IsReleased job.id worker.name (handle_failure worker script job has_ids e w).0.plate.jobs
unfolding handle_failure
handle_failure-IsReleased worker script job has_ids e w =
    elim (Bool-cases (has_ids && is_transient e.links)) [
      | inl t ↦
          rw t (rw (end_of-jobs w _) (requeue-IsReleased job.id worker.name _ script.settled_at _))
      | inr t ↦
          rw t (rw (end_of-jobs w _) (fail-IsReleased job.id worker.name _ script.settled_at _))
    ]

after_complete-IsReleased :
    (worker : PlateWorker) (script : PlateScript) (job : PlateSolveJob) (has_ids : Bool)
    (w : PlateWorld) (out : PlateState × (ServiceError ⊎ PlateSolveJob))
    → IsReleased job.id worker.name out.0.jobs
    → IsReleased job.id worker.name (after_complete worker script job has_ids w out).0.plate.jobs
unfolding after_complete
after_complete-IsReleased worker script job has_ids w (s, inl e) h =
    handle_failure-IsReleased worker script job has_ids lost_lease (record w { plate = s })
after_complete-IsReleased worker script job has_ids w (s, inr done) h = h

pub settle_result-IsReleased :
    (worker : PlateWorker) (script : PlateScript) (job : PlateSolveJob) (has_ids : Bool)
    (w : PlateWorld) (result : Raised ⊎ ProviderResult)
    → IsReleased job.id worker.name (settle_result worker script job has_ids w result).0.plate.jobs
unfolding settle_result
settle_result-IsReleased worker script job has_ids w (inl e) =
    handle_failure-IsReleased worker script job has_ids e w
settle_result-IsReleased worker script job has_ids w (inr result) =
    after_complete-IsReleased worker script job has_ids w _
      (complete-IsReleased job.id worker.name _ script.completed_at _)
