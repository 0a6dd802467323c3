-- ===== src/PlateSolve/Operations.antt =====
-- What each operation of the Plate Solve queue keeps of valid rows.
use tc_backend.PlateSolve.Claim.{next_claimable_sound}
use tc_backend.Table.Keys.{Unique-eq, Unique-update_where}
use tc_backend.Table.Rows.{
  first_where-update_where, update_where, first_where_sound, first_where-Has, first_where,
  count_where,
}
use tc_backend.PlateSolve.Lifecycle.{
  SameSolution, update_where-Keeps, append-Keeps, row-Keeps, is_coherent, Keeps-refl, Keeps,
  IsValid,
}
use tc_backend.ClaimLog.{Text}
use tc_backend.PlateSolve.Queue.{
  has_file, has_id, link_record, is_claimable, new_row, violates_unique, next_claimable,
  get_by_common_file_id, write_claim, get, claim_next, insert_or_existing, enqueue,
}
use tc_backend.PlateSolve.Queue.Owned.{
  write_retry, write_drop, flush_null, fail_waiting_for_file, is_owned, retry, owned_processing_job,
  change_owned, touch_lease,
}
use tc_backend.PlateSolve.{is_waiting, is_processing, is_failed, is_completed, Text, PlateSolveJob}
use tc_backend.Prelude.{
  Has, All, false, ap, sym, if◌then◌else◌, ℕ, ◌+◌, ◌*◌, ◌≡◌, refl, subst, ◌∙◌, inl, inr, Bool, true,
  Option, none, some, List, [], ◌∷◌, ◌++◌, arith, String, ◌==◌, ==_iff, Bool-cases, Option-cases,
  is_null,
}

link_record_lem :
    (observation : Option ℕ) (now : ℕ) (r : PlateSolveJob)
    → ((link_record observation now r).id ≡ r.id)
      × ((link_record observation now r).common_file_id ≡ r.common_file_id)
      × (is_coherent (link_record observation now r) ≡ is_coherent r)
      × SameSolution r (link_record observation now r)
unfolding link_record is_coherent
link_record_lem none now r = (refl, refl, refl, refl)
link_record_lem (some observation) now r = elim (Bool-cases (is_null r.observation_record_id)) [
  | inl e ↦ rw e (refl, refl, refl, refl)
  | inr e ↦ rw e (refl, refl, refl, refl)
]

touched_coherent :
    (lease_seconds now : ℕ) (r : PlateSolveJob)
    → is_processing r.status ≡ true
    → is_coherent r ≡ true
    → is_coherent
        (record r { lease_expires_at = some (now + lease_seconds * 1000000); updated_at = now })
      ≡ true
unfolding is_coherent
touched_coherent lease_seconds now r h c = ground arith

flush_self : {A : Type 0} (x : Option A) → flush_null x x ≡ none
unfolding flush_null
flush_self none = refl
flush_self (some x) = refl

retried_coherent : (now : ℕ) (job : PlateSolveJob) → is_coherent (write_retry now job job) ≡ true
unfolding write_retry is_coherent
retried_coherent now job =
    rw
      (
        flush_self job.worker_id,
        flush_self job.lease_expires_at,
        flush_self job.started_at,
        flush_self job.completed_at,
      )
      refl

All-update_where-Has :
    (P : PlateSolveJob → Type 0) (p : PlateSolveJob → Bool) (f : PlateSolveJob → PlateSolveJob)
    (xs : List PlateSolveJob)
    → ((x : PlateSolveJob) → Has x xs → p x ≡ true → P x → P (f x))
    → All P xs
    → All P (update_where p f xs)
unfolding update_where
All-update_where-Has P p f [] h a = tt
All-update_where-Has P p f (x ∷ xs) h a = (
  elim (Bool-cases (p x)) [ inl e ↦ rw e (h x (inl refl) e a.0) | inr e ↦ rw e a.0 ],
  All-update_where-Has P p f xs (λ y m. h y (inr m)) a.1,
)

module _ (rows : List PlateSolveJob) (v : IsValid rows) where
  pub insert-Keeps :
      (id file : ℕ) (observation : Option ℕ) (now : ℕ) (u : List PlateSolveJob)
      (job : PlateSolveJob) (created : Bool)
      → insert_or_existing id file observation now rows ≡ some (u, job, created)
      → Keeps rows u
  unfolding insert_or_existing
  insert-Keeps id file observation now u job created e =
      elim (Bool-cases (count_where (violates_unique id file) rows == 0)) [
        | inl z ↦
            let same : rows ++ new_row id file observation now ∷ [] ≡ u = ground arith in
            subst (Keeps rows) same (append-Keeps rows id file observation now v ((==_iff _ _).0 z))
        | inr z ↦ elim (Option-cases (get_by_common_file_id file rows)) [
          | inl g ↦ absurd (ground arith)
          | inr (existing, g) ↦
              let same : rows ≡ u = ground arith in subst (Keeps rows) same (Keeps-refl rows v)
        ]
      ]

  pub enqueue-Keeps :
      (id file : ℕ) (observation : Option ℕ) (now : ℕ) (u : List PlateSolveJob)
      (job : PlateSolveJob) (created : Bool)
      → enqueue (λ r. r) id file observation now rows ≡ some (u, job, created)
      → Keeps rows u
  unfolding enqueue
  enqueue-Keeps id file observation now u job created e =
      elim (Option-cases (get_by_common_file_id file rows)) [
        | inl g ↦ insert-Keeps id file observation now u job created (ground arith)
        | inr (existing, g) ↦
            let f = link_record observation now in
            let same : update_where (has_id existing.id) f rows ≡ u = ground arith in
            let k = link_record_lem observation now in
            subst (Keeps rows) same (
              update_where-Keeps (has_id existing.id) f rows v (λ r. (k r).0) (λ r. (k r).1)
                (λ r _ c. (k r).2 ∙ c) (λ r _ _. (k r).3))
      ]

  pub claim-Keeps :
      (locked : PlateSolveJob → Bool) (worker : String) (lease_seconds now : ℕ)
      → Keeps rows (claim_next locked worker lease_seconds now rows).0
  unfolding claim_next write_claim
  claim-Keeps locked worker lease_seconds now =
      elim (Option-cases (next_claimable locked now rows)) [
        | inl e ↦ rw (e, claim_next) (Keeps-refl rows v)
        | inr (job, e) ↦
            let s = next_claimable_sound locked now rows job e in
            rw (e, claim_next)
              (row-Keeps (is_claimable now) _ rows job v s.0 s.1 (λ r. refl) (λ r. refl)
                (λ r a c. unfold is_coherent in refl)
                (λ r a c. absurd (unfold is_claimable in ground arith)))
      ]

  pub change-Keeps :
      (job_id : ℕ) (worker : String) (change : PlateSolveJob → PlateSolveJob)
      → ((r : PlateSolveJob) → (change r).id ≡ r.id)
      → ((r : PlateSolveJob) → (change r).common_file_id ≡ r.common_file_id)
      → ((r : PlateSolveJob)
          → is_owned job_id worker r ≡ true
          → is_coherent r ≡ true
          → is_coherent (change r) ≡ true)
      → Keeps rows (change_owned job_id worker change rows).0
  unfolding change_owned owned_processing_job
  change-Keeps job_id worker change k l c =
      elim (Option-cases (first_where (is_owned job_id worker) rows)) [
        | inl e ↦ rw (e, change_owned) (Keeps-refl rows v)
        | inr (job, e) ↦
            rw (e, change_owned)
              (row-Keeps (is_owned job_id worker) change rows job v
                (first_where-Has (is_owned job_id worker) rows job e)
                (first_where_sound (is_owned job_id worker) rows job e) k l c
                (λ r a d. absurd (unfold is_owned in ground arith)))
      ]

  pub touch-Keeps :
      (job_id : ℕ) (worker : String) (lease_seconds now : ℕ)
      → Keeps rows (touch_lease job_id worker lease_seconds now rows).0
  unfolding touch_lease
  touch-Keeps job_id worker lease_seconds now =
      update_where-Keeps (is_owned job_id worker) _ rows v (λ r. refl) (λ r. refl)
        (λ r a c. touched_coherent lease_seconds now r (unfold is_owned in ground arith) c)
        (λ r a d. absurd (unfold is_owned in ground arith))

  -- A change of the row of a job that was loaded, and that nobody has written since.
  loaded-Keeps :
      (job : PlateSolveJob) (f : PlateSolveJob → PlateSolveJob)
      → Has job rows
      → ((r : PlateSolveJob) → (f r).id ≡ r.id)
      → ((r : PlateSolveJob) → (f r).common_file_id ≡ r.common_file_id)
      → (is_coherent job ≡ true → is_coherent (f job) ≡ true)
      → is_completed job.status ≡ false
      → Keeps rows (update_where (has_id job.id) f rows)
  loaded-Keeps job f m k l c n =
      let g = λ (r : PlateSolveJob). if has_id job.id r then f r else r in
      record {
        valid = record {
          unique = Unique-update_where (λ r. r.id) (has_id job.id) f rows k v.unique;
          one_per_file =
              Unique-update_where (λ r. r.common_file_id) (has_id job.id) f rows l v.one_per_file;
          coherent =
              All-update_where-Has (λ r. is_coherent r ≡ true) (has_id job.id) f rows
                (λ r h e d.
                  let same : job ≡ r =
                    Unique-eq (λ r. r.id) rows job r v.unique m h
                      (sym ((==_iff r.id job.id).0 e)) in
                  subst (λ x. is_coherent (f x) ≡ true) same
                    (c (subst (λ x. is_coherent x ≡ true) (sym same) d)))
                v.coherent;
        };
        solutions = λ i r h d. (
          g r,
          (unfold get in
              first_where-update_where (has_id i) (has_id job.id) f rows
                (λ x. ap (λ j. j == i) (k x))
              ∙ rw h),
          elim (Bool-cases (has_id job.id r)) [
            | inl e ↦
                let here : Has r rows = unfold get in first_where-Has (has_id i) rows r h in
                let same : job ≡ r =
                  Unique-eq (λ r. r.id) rows job r v.unique m here
                    (sym ((==_iff r.id job.id).0 e)) in
                let not_done : is_completed r.status ≡ false =
                  subst (λ x. is_completed x.status ≡ false) same n in
                absurd (ground (arith, d, not_done))
            | inr e ↦ rw e refl
          ],
        );
      }

  pub retry-Keeps :
      (job : PlateSolveJob) (now : ℕ)
      → get job.id rows ≡ some job
      → is_failed job.status ≡ true
      → Keeps rows (retry job now rows).0
  unfolding retry get write_retry
  retry-Keeps job now g h =
      loaded-Keeps job _ (first_where-Has (has_id job.id) rows job g) (λ r. refl) (λ r. refl)
        (λ c. retried_coherent now job) (ground arith)

  pub drop-Keeps :
      (seen : List PlateSolveJob) (file : ℕ) (message : Text) (now : ℕ)
      → get_by_common_file_id file seen ≡ get_by_common_file_id file rows
      → Keeps rows (fail_waiting_for_file (λ _. rows) file message now seen).0
  unfolding fail_waiting_for_file write_drop
  drop-Keeps seen file message now same = elim (Option-cases (get_by_common_file_id file rows)) [
    | inl e ↦ rw (same ∙ e, fail_waiting_for_file) (Keeps-refl rows v)
    | inr (job, e) ↦ elim (Bool-cases (is_waiting job.status)) [
      | inl w ↦
          rw (same ∙ e, fail_waiting_for_file)
            (rw w (
              loaded-Keeps job _
                (unfold get_by_common_file_id in first_where-Has (has_file file) rows job e)
                (λ r. refl) (λ r. refl) (λ c. unfold is_coherent in ground arith) (ground arith)))
      | inr w ↦ rw (same ∙ e, fail_waiting_for_file) (rw w (Keeps-refl rows v))
    ]
  ]
