-- ===== src/UploadQueue/Lifecycle.antt =====
-- The life of an upload job under every operation of the queue, as a step relation on the table:
-- which columns go with which status, unique keys, and final states that stay.
use tc_backend.UploadQueue.Recover.{
  stale_jobs_sound, stale_jobs-Rows, selected_stale, recovered, recover_postgres_lem, selected,
}
use tc_backend.Prelude.{
  sym, ◌∙◌, ℕ, ◌<◌, ◌≡◌, refl, Bool, true, false, not, ◌&&◌, ◌||◌, some, List, arith, ◌==◌, ==_iff,
  All, Bool-cases, inl, inr, is_null, Option-cases,
}
use tc_backend.Table.Rows.{
  Has→All, update_where-cong, first_where, update_where, All-update_where, first_where-update_where,
}
use tc_backend.Table.Keys.{update_where-key, Unique-update_where}
use mathlib.Core.Bool.{false≢true}
use tc_backend.ClaimLog.{Text}
use tc_backend.UploadJob.{
  is_waiting, UploadJob, waiting, processing, completed, failed, is_completed, is_failed,
}
use tc_backend.UploadQueue.{
  postgresql, other, claimed_log, write_claim, next_waiting, claim_postgres, Dialect,
  claim_next_waiting_job, has_id,
}
use tc_backend.UploadQueue.Lease.{is_stale, stale_jobs, recover_postgres}
use tc_backend.UploadQueue.Claim.{next_waiting_sound, claim_fallback-eq-postgres, UniqueIds}

-- What the columns hold in each state.
unfoldable pub is_coherent : UploadJob → Bool
is_coherent r = elim r.status [
  | waiting ↦ is_null r.started_at && (is_null r.completed_at && is_null r.file_id)
  | processing ↦
      not (is_null r.started_at)
      && (is_null r.completed_at && (is_null r.file_id && is_null r.error_message))
  | completed ↦
      not (is_null r.started_at)
      && (not (is_null r.completed_at) && (not (is_null r.file_id) && is_null r.error_message))
  | failed ↦
      not (is_null r.started_at)
      && (not (is_null r.completed_at) && (is_null r.file_id && not (is_null r.error_message)))
]

-- a state that no operation leaves
abbrev pub is_final : UploadJob → Bool
is_final r = is_completed r.status || is_failed r.status

pub record IsValid (rows : List UploadJob) : Type 0 where
  pub unique : UniqueIds rows
  pub coherent : All (λ r. is_coherent r ≡ true) rows

-- The second row is the first, but for its log and for a content hash that was filled in.
abbrev pub SameOutcome : UploadJob → UploadJob → Type 0
SameOutcome r s =
    record r { processing_log = s.processing_log; client_content_sha256 = s.client_content_sha256 }
    ≡ s

-- what every operation does to the rows: they stay valid, and a final row stays found by its id
pub record Keeps (rows rows' : List UploadJob) : Type 0 where
  pub valid : IsValid rows'
  pub final :
      (i : ℕ) (r : UploadJob)
      → first_where (has_id i) rows ≡ some r
      → is_final r ≡ true
      → (s : UploadJob) × (first_where (has_id i) rows' ≡ some s) × SameOutcome r s
  pub below : (n : ℕ) → All (λ r. r.id < n) rows → All (λ r. r.id < n) rows'

pub Keeps-refl : (rows : List UploadJob) → IsValid rows → Keeps rows rows
Keeps-refl rows v = record { valid = v; final = λ i r h _. (r, h, refl); below = λ n a. a }

module _ (p : UploadJob → Bool) (f : UploadJob → UploadJob) (rows : List UploadJob)
    (same_id : (r : UploadJob) → (f r).id ≡ r.id) (v : IsValid rows) where
  pub update_where-IsValid :
      ((r : UploadJob) → p r ≡ true → is_coherent r ≡ true → is_coherent (f r) ≡ true)
      → IsValid (update_where p f rows)
  update_where-IsValid c = record {
    unique = Unique-update_where (λ r. r.id) p f rows same_id v.unique;
    coherent = All-update_where (λ r. is_coherent r ≡ true) p f rows c v.coherent;
  }

  pub update_where-below :
      (n : ℕ) → All (λ r. r.id < n) rows → All (λ r. r.id < n) (update_where p f rows)
  update_where-below n = All-update_where (λ r. r.id < n) p f rows (λ r _ b. rw (same_id r) b)

  -- An UPDATE of rows that are not final, from coherent rows to coherent rows.
  pub update_where-Keeps :
      ((r : UploadJob) → p r ≡ true → is_coherent r ≡ true → is_coherent (f r) ≡ true)
      → ((r : UploadJob) → p r ≡ true → is_final r ≡ false)
      → Keeps rows (update_where p f rows)
  update_where-Keeps c n = record {
    valid = update_where-IsValid c;
    final = λ i r h final. (
      r,
      first_where-update_where (has_id i) p f rows (λ x. rw (same_id x))
          ∙ (rw h (elim (Bool-cases (p r)) [
            | inl e ↦ absurd (false≢true (sym (n r e) ∙ final))
            | inr e ↦ rw e
          ])),
      refl,
    );
    below = update_where-below;
  }

module _ (rows : List UploadJob) (v : IsValid rows) where
  pub claim_postgres-Keeps :
      (locked : UploadJob → Bool) (worker : Text) (now : ℕ)
      → Keeps rows (claim_postgres locked worker now rows).0
  unfolding claim_postgres
  claim_postgres-Keeps locked worker now = elim (Option-cases (next_waiting locked rows)) [
    | inl e ↦ rw (e, claim_postgres) (Keeps-refl rows v)
    | inr (job, e) ↦
        let s = next_waiting_sound locked rows job e in
        let f = write_claim now (claimed_log worker job) in
        rw (e, claim_postgres)
          (rw
            (← update_where-key (λ r. r.id) ◌==◌ ==_iff (λ r. is_waiting r.status) f rows job
              v.unique s.0 s.1)
            (update_where-Keeps (λ r. has_id job.id r && is_waiting r.status) f rows (λ r. refl) v
              (λ r h c. unfold is_coherent in ground arith) (λ r h. ground arith)))
  ]

  pub claim_next-Keeps :
      (dialect : Dialect) (locked : UploadJob → Bool) (worker : Text) (now : ℕ)
      → Keeps rows (claim_next_waiting_job dialect locked worker now rows).0
  unfolding claim_next_waiting_job
  claim_next-Keeps postgresql locked worker now = claim_postgres-Keeps locked worker now
  claim_next-Keeps other locked worker now =
      rw (claim_fallback-eq-postgres worker now rows v.unique)
        (claim_postgres-Keeps (λ _. false) worker now)

  -- The selected rows are stale, so testing that too changes nothing.
  selected-stale :
      (locked : UploadJob → Bool) (threshold : ℕ) (worker : Text) (limit : ℕ)
      → update_where (selected (stale_jobs locked threshold limit rows)) (recovered worker) rows
        ≡ update_where
            (λ r. selected (stale_jobs locked threshold limit rows) r && is_stale threshold r)
            (recovered worker)
            rows
  selected-stale locked threshold worker limit =
      let js = stale_jobs locked threshold limit rows in
      update_where-cong _ _ _ _ rows (
        Has→All _ rows (λ r m. elim (Bool-cases (selected js r)) [
          | inl e ↦ rw (
            e,
            selected_stale locked threshold rows v.unique r m js
                (stale_jobs-Rows locked threshold limit rows)
                (stale_jobs_sound locked threshold limit rows) e,
          )
          | inr e ↦ rw e
        ]))

  pub recover_postgres-Keeps :
      (locked : UploadJob → Bool) (threshold : ℕ) (worker : Text) (limit : ℕ)
      → Keeps rows (recover_postgres locked threshold worker limit rows).0
  recover_postgres-Keeps locked threshold worker limit =
      rw (recover_postgres_lem locked threshold worker limit rows v.unique) (
        rw (selected-stale locked threshold worker limit) (
          update_where-Keeps
            (λ r. selected (stale_jobs locked threshold limit rows) r && is_stale threshold r)
            (recovered worker) rows (λ r. refl) v
            (λ r h c. unfold is_coherent is_stale in ground arith)
            (λ r h. unfold is_stale in ground arith)))
