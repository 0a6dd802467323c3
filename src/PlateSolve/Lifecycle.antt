-- ===== src/PlateSolve/Lifecycle.antt =====
-- The life of a Plate Solve job: which columns go with which status, unique keys, and solutions
-- that stay.
use tc_backend.Table.Keys.{update_where-key, Unique-update_where, Unique-append}
use tc_backend.PlateSolve.Claim.{UniqueIds}
use tc_backend.PlateSolve.Queue.{has_id, new_row, violates_unique, get}
use tc_backend.Table.Rows.{
  first_where-append, first_where-update_where, All-update_where, All-append, update_where,
  count_where,
}
use tc_backend.PlateSolve.{waiting, processing, completed, failed, is_completed, PlateSolveJob}
use tc_backend.Prelude.{
  ℕ, ◌≡◌, refl, ap, ◌∙◌, ◌≢◌, inl, inr, Bool, true, false, not, ◌&&◌, Option, some, List, [], ◌∷◌,
  ◌++◌, arith, ◌==◌, ==_iff, if◌then◌else◌, Bool-cases, is_null, All, Has, Unique, All-map,
}

-- what the columns hold in each state
unfoldable pub is_coherent : PlateSolveJob → Bool
is_coherent r = elim r.status [
  | waiting ↦
      is_null r.worker_id
      && (is_null r.lease_expires_at && (is_null r.started_at && is_null r.completed_at))
  | processing ↦
      not (is_null r.worker_id)
      && (not (is_null r.lease_expires_at)
          && (not (is_null r.started_at) && (is_null r.completed_at && is_null r.last_error)))
  | completed ↦
      is_null r.worker_id
      && (is_null r.lease_expires_at && (not (is_null r.completed_at) && is_null r.last_error))
  | failed ↦
      is_null r.worker_id
      && (is_null r.lease_expires_at
          && (not (is_null r.completed_at) && not (is_null r.last_error)))
]

abbrev pub UniqueFiles : List PlateSolveJob → Type 0
UniqueFiles = Unique (λ r. r.common_file_id)

pub record IsValid (rows : List PlateSolveJob) : Type 0 where
  pub unique : UniqueIds rows
  pub one_per_file : UniqueFiles rows
  pub coherent : All (λ r. is_coherent r ≡ true) rows

-- The second row is the first, but for a record that was linked to it later.
abbrev pub SameSolution : PlateSolveJob → PlateSolveJob → Type 0
SameSolution r s =
    record r { observation_record_id = s.observation_record_id; updated_at = s.updated_at } ≡ s

-- The completed row of each id stays.
abbrev pub KeepsSolutions : List PlateSolveJob → List PlateSolveJob → Type 0
KeepsSolutions rows rows' =
    (i : ℕ) (r : PlateSolveJob)
    → get i rows ≡ some r
    → is_completed r.status ≡ true
    → (s : PlateSolveJob) × (get i rows' ≡ some s) × SameSolution r s

pub record Keeps (rows rows' : List PlateSolveJob) : Type 0 where
  pub valid : IsValid rows'
  pub solutions : KeepsSolutions rows rows'

pub Keeps-refl : (rows : List PlateSolveJob) → IsValid rows → Keeps rows rows
Keeps-refl rows v = record { valid = v; solutions = λ i r h _. (r, h, refl) }

pub update_where-Keeps :
    (p : PlateSolveJob → Bool) (f : PlateSolveJob → PlateSolveJob) (rows : List PlateSolveJob)
    → IsValid rows
    → ((r : PlateSolveJob) → (f r).id ≡ r.id)
    → ((r : PlateSolveJob) → (f r).common_file_id ≡ r.common_file_id)
    → ((r : PlateSolveJob) → p r ≡ true → is_coherent r ≡ true → is_coherent (f r) ≡ true)
    → ((r : PlateSolveJob) → p r ≡ true → is_completed r.status ≡ true → SameSolution r (f r))
    → Keeps rows (update_where p f rows)
unfolding get
update_where-Keeps p f rows v k l c n = record {
  valid = record {
    unique = Unique-update_where (λ r. r.id) p f rows k v.unique;
    one_per_file = Unique-update_where (λ r. r.common_file_id) p f rows l v.one_per_file;
    coherent = All-update_where (λ r. is_coherent r ≡ true) p f rows c v.coherent;
  };
  solutions = λ i r h d. (
    (if p r then f r else r),
    first_where-update_where (has_id i) p f rows (λ x. ap (λ j. j == i) (k x)) ∙ rw h,
    elim (Bool-cases (p r)) [ inl t ↦ rw t (n r t d) | inr t ↦ rw t ],
  );
}

-- A change of one row, by its id, that the row was found fit for.
pub row-Keeps :
    (q : PlateSolveJob → Bool) (f : PlateSolveJob → PlateSolveJob) (rows : List PlateSolveJob)
    (job : PlateSolveJob)
    → IsValid rows
    → Has job rows
    → q job ≡ true
    → ((r : PlateSolveJob) → (f r).id ≡ r.id)
    → ((r : PlateSolveJob) → (f r).common_file_id ≡ r.common_file_id)
    → ((r : PlateSolveJob) → q r ≡ true → is_coherent r ≡ true → is_coherent (f r) ≡ true)
    → ((r : PlateSolveJob) → q r ≡ true → is_completed r.status ≡ true → SameSolution r (f r))
    → Keeps rows (update_where (has_id job.id) f rows)
row-Keeps q f rows job v m h k l c n =
    rw (← update_where-key (λ r. r.id) ◌==◌ ==_iff q f rows job v.unique m h) (
      update_where-Keeps (λ r. has_id job.id r && q r) f rows v k l (λ r a b. c r (ground arith) b)
        (λ r a b. n r (ground arith) b))

count_zero-All :
    (p : PlateSolveJob → Bool) (xs : List PlateSolveJob)
    → count_where p xs ≡ 0
    → All (λ x. p x ≡ false) xs
unfolding count_where
count_zero-All p [] h = tt
count_zero-All p (x ∷ xs) h = elim (Bool-cases (p x)) [
  | inl e ↦ absurd (ground arith)
  | inr e ↦ (e, count_zero-All p xs (ground arith))
]

free_keys :
    (id file : ℕ) (x : PlateSolveJob)
    → violates_unique id file x ≡ false
    → (x.id ≢ id) × (x.common_file_id ≢ file)
unfolding violates_unique
free_keys id file x h = (λ e. ground arith, λ e. ground arith)

pub append-Keeps :
    (rows : List PlateSolveJob) (id file : ℕ) (observation : Option ℕ) (now : ℕ)
    → IsValid rows
    → count_where (violates_unique id file) rows ≡ 0
    → Keeps rows (rows ++ new_row id file observation now ∷ [])
unfolding get
append-Keeps rows id file observation now v h =
    let free : All (λ x. violates_unique id file x ≡ false) rows =
      count_zero-All (violates_unique id file) rows h in
    record {
      valid = record {
        unique =
            Unique-append (λ r. r.id) rows (new_row id file observation now)
              (All-map _ _ rows (λ x a. (free_keys id file x a).0) free) v.unique;
        one_per_file =
            Unique-append (λ r. r.common_file_id) rows (new_row id file observation now)
              (All-map _ _ rows (λ x a. (free_keys id file x a).1) free) v.one_per_file;
        coherent =
            All-append _ rows (new_row id file observation now ∷ []) v.coherent
              (unfold is_coherent in refl, tt);
      };
      solutions = λ i r e _. (
        r,
        first_where-append (has_id i) rows (new_row id file observation now ∷ []) ∙ rw e,
        refl,
      );
    }
