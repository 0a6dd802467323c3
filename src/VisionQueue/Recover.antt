-- ===== src/VisionQueue/Recover.antt =====
-- The recovery of stale Vision jobs: which rows it resets, and what it keeps.
use tc_backend.Prelude.{
  ap, zero, suc, take, leb, Has, All-map, if◌then◌else◌, Option-cases, ℕ, ◌≡◌, refl, Bool, true,
  false, not, ◌&&◌, ◌||◌, List, [], ◌∷◌, arith, ==_iff, All, Bool-cases, inl, inr, sym, ◌∙◌, length,
  All-take,
}
use tc_backend.Table.Rows.{
  first_where_sound, first_where, update_where, update_where-fuse, update_where-false,
  first_where-update_where, Has-select, Has→All, count_where, map_some, length-select,
}
use tc_backend.Table.Order.{All-order_by, length-order_by}
use tc_backend.VisionJob.{VisionJob}
use tc_backend.VisionQueue.{
  has_id, is_stale, reset_stale_job, reset_each, stale_jobs, recover_stale_rows,
}

-- the row is one of the jobs, by its id
unfoldable pub selected : List VisionJob → VisionJob → Bool
selected [] r = false
selected (j ∷ js) r = has_id j.id r || selected js r

selected-reset :
    (js : List VisionJob) (r : VisionJob) → selected js (reset_stale_job r) ≡ selected js r
unfolding selected
selected-reset [] r = refl
selected-reset (j ∷ js) r = ground (arith, selected-reset js r)

reset_each-eq :
    (js rows : List VisionJob)
    → reset_each js rows ≡ update_where (selected js) reset_stale_job rows
unfolding reset_each selected
reset_each-eq [] rows = sym (update_where-false reset_stale_job rows)
reset_each-eq (j ∷ js) rows =
    reset_each-eq js (update_where (has_id j.id) reset_stale_job rows)
    ∙ update_where-fuse (has_id j.id) (selected js) (selected (j ∷ js)) reset_stale_job
        reset_stale_job reset_stale_job rows
        (Has→All _ rows (λ r m. elim (Bool-cases (has_id j.id r)) [
          | inl e ↦
              rw e (elim (Bool-cases (selected js (reset_stale_job r))) [
                | inl s ↦ rw s
                | inr s ↦ rw s
              ])
          | inr e ↦ rw e
        ]))

-- Each selected job is a row that is stale, not protected, and held by nobody.
abbrev pub IsSelected : ℕ → (ℕ → Bool) → (VisionJob → Bool) → List VisionJob → VisionJob → Type 0
IsSelected before protected locked rows j =
    Has j rows × (is_stale before protected j ≡ true) × (locked j ≡ false)

stale_jobs_sound :
    (before : ℕ) (protected : ℕ → Bool) (locked : VisionJob → Bool) (limit : ℕ)
    (rows : List VisionJob)
    → All (IsSelected before protected locked rows) (stale_jobs before protected locked limit rows)
unfolding stale_jobs
stale_jobs_sound before protected locked limit rows = All-take _ limit _ (
    All-order_by _ _ _ (
      Has→All _ _ (λ j m.
        let s = Has-select (λ r. is_stale before protected r && not (locked r)) rows j m in
        (s.0, ground (arith, s.1), ground (arith, s.1)))))

abbrev pub smaller : ℕ → ℕ → ℕ
smaller a b = if leb a b then a else b

length-take {ℓ} : {A : Type ℓ} (n : ℕ) (xs : List A) → length (take n xs) ≡ smaller n (length xs)
length-take zero xs = ground arith
length-take (suc n) [] = ground arith
length-take (suc n) (x ∷ xs) = ground (arith, length-take n xs)

-- A protected id is the id of no selected job.
protected-not_selected :
    (before : ℕ) (protected : ℕ → Bool) (r : VisionJob) (js : List VisionJob)
    → protected r.id ≡ true
    → All (λ j. is_stale before protected j ≡ true) js
    → selected js r ≡ false
unfolding selected is_stale
protected-not_selected before protected r [] h a = refl
protected-not_selected before protected r (j ∷ js) h a = elim (Bool-cases (has_id j.id r)) [
  | inl e ↦
      let same : r.id ≡ j.id = (==_iff r.id j.id).0 e in
      let p : protected j.id ≡ true = rw (← same) h in ground (arith, a.0)
  | inr e ↦ rw e (protected-not_selected before protected r js h a.1)
]

-- A recovery is one simultaneous reset of the jobs that it selects. Each of these is a row that is
-- stale, not protected and held by nobody, and it counts as many as there are such rows, or `limit`
-- if there are more. The lookup of a protected id gives what it gave before, and that of any other id
-- the same row, reset if it was selected.
pub recover_stale_rows_lem :
    (before : ℕ) (protected : ℕ → Bool) (locked : VisionJob → Bool) (limit : ℕ)
    (rows : List VisionJob) (i : ℕ)
    → let (after, count) = recover_stale_rows before protected locked limit rows in
      let js = stale_jobs before protected locked limit rows in
      (after ≡ update_where (selected js) reset_stale_job rows)
      × All (IsSelected before protected locked rows) js
      × (count
          ≡ smaller limit (count_where (λ r. is_stale before protected r && not (locked r)) rows))
      × (first_where (has_id i) after ≡ (
          if protected i
          then first_where (has_id i) rows
          else map_some
              (λ r. if selected js r then reset_stale_job r else r)
              (first_where (has_id i) rows)))
unfolding recover_stale_rows
recover_stale_rows_lem before protected locked limit rows i =
    let js = stale_jobs before protected locked limit rows in
    let sound = stale_jobs_sound before protected locked limit rows in
    let found =
      ap (first_where (has_id i)) (reset_each-eq js rows)
      ∙ first_where-update_where (has_id i) (selected js) reset_stale_job rows (λ x. refl) in
    (
      reset_each-eq js rows,
      sound,
      (unfold stale_jobs in
          length-take limit _ ∙ ap (smaller limit) (length-order_by _ _ ∙ length-select _ rows)),
      elim (Bool-cases (protected i)) [
        | inl h ↦ rw h (
            found ∙ elim (Option-cases (first_where (has_id i) rows)) [
              | inl e ↦ rw e
              | inr (r, e) ↦
                  let at : r.id ≡ i = (==_iff r.id i).0 (first_where_sound (has_id i) rows r e) in
                  let p : protected r.id ≡ true = rw at h in
                  rw (
                    e,
                    protected-not_selected before protected r js p
                        (All-map _ _ js (λ j s. s.1) sound),
                  )
            ])
        | inr h ↦ rw h found
      ],
    )
