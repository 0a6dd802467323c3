-- ===== src/UploadQueue/Operations.antt =====
-- What each operation of the upload queue but the claim keeps of valid rows.
use tc_backend.UploadQueue.Recover.{recover_fallback-eq-postgres}
use tc_backend.Prelude.{
  ◌-◌, is_null, ℕ, ◌≡◌, refl, Bool, true, false, ◌&&◌, some, List, arith, String, ◌==◌,
  if◌then◌else◌, Bool-cases, inl, inr, ◌∙◌,
}
use tc_backend.Table.Rows.{update_where, count_where, first_where-update_where}
use tc_backend.ClaimLog.{Text}
use tc_backend.UploadJob.{UploadJob, is_processing}
use tc_backend.UploadQueue.{
  has_hash, Dialect, postgresql, other, set_client_content_sha256_if_missing, has_id, has_job_id,
}
use tc_backend.UploadQueue.Lease.{
  recover_fallback, recover_postgres, microseconds, recover_stale_processing_jobs,
  touch_processing_lease,
}
use tc_backend.UploadQueue.Finish.{mark_completed, mark_failed}
use tc_backend.UploadQueue.Lifecycle.{
  update_where-below, update_where-IsValid, IsValid, Keeps, Keeps-refl, update_where-Keeps,
  is_final, is_coherent, recover_postgres-Keeps,
}

module _ (rows : List UploadJob) (v : IsValid rows) where
  pub recover-Keeps :
      (dialect : Dialect) (locked : UploadJob → Bool) (stale_seconds now : ℕ) (worker : Text)
      (limit : ℕ)
      → Keeps rows
          (recover_stale_processing_jobs dialect locked stale_seconds now worker limit rows).0
  unfolding recover_stale_processing_jobs
  recover-Keeps dialect locked stale_seconds now worker limit =
      elim (Bool-cases (stale_seconds == 0)) [
        | inl e ↦ rw e (Keeps-refl rows v)
        | inr e ↦ rw e (by_dialect dialect)
      ]
    where
      threshold : ℕ
      threshold = now - microseconds stale_seconds

      by_dialect :
          (d : Dialect)
          → Keeps rows
              (let r : List UploadJob × ℕ = elim d [
                | postgresql ↦ recover_postgres locked threshold worker limit rows
                | other ↦ recover_fallback threshold worker limit rows
              ] in
                r).0
      by_dialect postgresql = recover_postgres-Keeps rows v locked threshold worker limit
      by_dialect other =
          rw (recover_fallback-eq-postgres threshold worker limit rows v.unique)
            (recover_postgres-Keeps rows v (λ _. false) threshold worker limit)

  -- A conditional UPDATE with its test of the rowcount.
  guarded-Keeps :
      {B : Type 0} (p : UploadJob → Bool) (f : UploadJob → UploadJob) (missed hit : B)
      → ((r : UploadJob) → (f r).id ≡ r.id)
      → ((r : UploadJob) → p r ≡ true → is_coherent r ≡ true → is_coherent (f r) ≡ true)
      → ((r : UploadJob) → p r ≡ true → is_final r ≡ false)
      → Keeps rows
          (let out : List UploadJob × B =
              if count_where p rows == 0 then (rows, missed) else (update_where p f rows, hit) in
            out).0
  guarded-Keeps p f missed hit k c n = elim (Bool-cases (count_where p rows == 0)) [
    | inl e ↦ rw e (Keeps-refl rows v)
    | inr e ↦ rw e (update_where-Keeps p f rows k v c n)
  ]

  pub touch-Keeps :
      (job_id : String) (now : ℕ) → Keeps rows (touch_processing_lease job_id now rows).0
  unfolding touch_processing_lease
  touch-Keeps job_id now =
      guarded-Keeps (λ r. has_job_id job_id r && (is_processing r.status && is_null r.completed_at))
        _ _ _ (λ r. refl) (λ r h c. unfold is_coherent in ground arith) (λ r h. ground arith)

  pub complete-Keeps :
      (job : UploadJob) (file_id : String) (now : ℕ)
      → Keeps rows (mark_completed job file_id now rows).0
  unfolding mark_completed
  complete-Keeps job file_id now =
      guarded-Keeps (λ r. has_job_id job.job_id r && is_processing r.status) _ _ _ (λ r. refl)
        (λ r h c. unfold is_coherent in ground arith) (λ r h. ground arith)

  pub fail-Keeps :
      (job : UploadJob) (message : Text) (now : ℕ) → Keeps rows (mark_failed job message now rows).0
  unfolding mark_failed
  fail-Keeps job message now =
      guarded-Keeps (λ r. has_job_id job.job_id r && is_processing r.status) _ _ _ (λ r. refl)
        (λ r h c. unfold is_coherent in ground arith) (λ r h. ground arith)

  pub backfill-Keeps :
      (job : UploadJob) (sha : String)
      → Keeps rows (set_client_content_sha256_if_missing job sha rows).0
  unfolding set_client_content_sha256_if_missing
  backfill-Keeps job sha =
      let f = λ (r : UploadJob). record r { client_content_sha256 = some sha } in
      elim (Bool-cases (has_hash job.client_content_sha256)) [
        | inl e ↦ rw e (Keeps-refl rows v)
        | inr e ↦ rw e (record {
          valid =
              update_where-IsValid (has_id job.id) f rows (λ r. refl) v
                (λ r h c. unfold is_coherent in unfold is_coherent in c);
          final = λ i r h _. (
            (if has_id job.id r then f r else r),
            first_where-update_where (has_id i) (has_id job.id) f rows (λ x. refl) ∙ rw h,
            elim (Bool-cases (has_id job.id r)) [ inl t ↦ rw t | inr t ↦ rw t ],
          );
          below = update_where-below (has_id job.id) f rows (λ r. refl) v;
        })
      ]
