-- ===== src/UploadQueue/Recover.antt =====
-- The recovery of stale jobs: the loop over the selected jobs is one simultaneous update, and the
-- row-by-row fallback does what the PostgreSQL query does.
use tc_backend.Prelude.{
  null_lt, All-take, is_null, Unique-take, ◌∙◌, ℕ, ◌+◌, ◌≡◌, ◌≢◌, refl, Bool, true, false, not,
  ◌&&◌, List, [], ◌∷◌, arith, ◌==◌, ==_iff, if◌then◌else◌, All, Has, ◌||◌, ◌∙◌, sym, Bool-cases,
  inl, inr, map, length,
}
use tc_backend.Table.Rows.{
  update_where-false, update_where, Has-select, All→Has, Has→All, Has-update_where,
  update_where-fuse,
}
use tc_backend.Table.Order.{All-order_by}
use tc_backend.Table.Keys.{
  Unique-select, first_where-key_and, Unique-order_by, update_where-key, count_where-key,
  Unique-update_where, Unique-eq,
}
use tc_backend.ClaimLog.{Text}
use tc_backend.UploadJob.{UploadJob, is_processing}
use tc_backend.UploadQueue.{has_id}
use tc_backend.UploadQueue.Lease.{
  is_stale, stale_le, stale_jobs, write_recovery, recovered_log, recover_each, recover_one,
  recover_ids, recover_postgres, recover_fallback,
}
use tc_backend.UploadQueue.Claim.{UniqueIds}

-- what a recovery makes of one stale row
abbrev pub recovered : Text → UploadJob → UploadJob
recovered worker r = write_recovery (r.retry_count + 1) (recovered_log worker r) r

-- the row is one of the jobs, by its id
unfoldable pub selected : List UploadJob → UploadJob → Bool
selected [] r = false
selected (j ∷ js) r = has_id j.id r || selected js r

selected-recovered :
    (worker : Text) (js : List UploadJob) (r : UploadJob)
    → selected js (recovered worker r) ≡ selected js r
unfolding selected
selected-recovered worker [] r = refl
selected-recovered worker (j ∷ js) r = ground (arith, selected-recovered worker js r)

-- no job of the list has the id
not_selected :
    (js : List UploadJob) (j : UploadJob) → All (λ k. j.id ≢ k.id) js → selected js j ≡ false
unfolding selected
not_selected [] j a = refl
not_selected (k ∷ ks) j a = ground (arith, not_selected ks j a.1, a.0)

-- One more round of the loop is one more job in the simultaneous update.
round_lem :
    (worker : Text) (job : UploadJob) (js : List UploadJob) (rows : List UploadJob)
    → UniqueIds rows
    → Has job rows
    → All (λ k. job.id ≢ k.id) js
    → update_where (selected js) (recovered worker) (
        update_where
          (has_id job.id)
          (write_recovery (job.retry_count + 1) (recovered_log worker job))
          rows)
      ≡ update_where (selected (job ∷ js)) (recovered worker) rows
unfolding selected
round_lem worker job js rows u m fresh =
    update_where-fuse (has_id job.id) (selected js) (selected (job ∷ js))
      (write_recovery (job.retry_count + 1) (recovered_log worker job)) (recovered worker)
      (recovered worker) rows
      (Has→All _ rows (λ r n. elim (Bool-cases (has_id job.id r)) [
        | inl e ↦
            let same : r ≡ job = Unique-eq (λ x. x.id) rows r job u n m ((==_iff _ _).0 e) in
            let off : selected js (recovered worker job) ≡ false =
              selected-recovered worker js job ∙ not_selected js job fresh in
            rw same (rw ((==_iff job.id job.id).1 refl) (rw off))
        | inr e ↦ rw e
      ]))

-- jobs that are rows, each under its own id
abbrev pub Rows : List UploadJob → List UploadJob → Type 0
Rows js rows = All (λ j. Has j rows) js

Rows-kept :
    (worker : Text) (job : UploadJob) (js rows : List UploadJob)
    → All (λ k. job.id ≢ k.id) js
    → Rows js rows
    → Rows js (
        update_where
          (has_id job.id)
          (write_recovery (job.retry_count + 1) (recovered_log worker job))
          rows)
Rows-kept worker job [] rows fresh a = tt
Rows-kept worker job (k ∷ ks) rows fresh a = (
  Has-update_where (has_id job.id) _ rows k a.0 (ground (arith, fresh.0)),
  Rows-kept worker job ks rows fresh.1 a.1,
)

recover_each-eq :
    (worker : Text) (js rows : List UploadJob)
    → UniqueIds rows
    → UniqueIds js
    → Rows js rows
    → recover_each worker js rows ≡ update_where (selected js) (recovered worker) rows
unfolding recover_each selected
recover_each-eq worker [] rows u d a = sym (update_where-false (recovered worker) rows)
recover_each-eq worker (j ∷ js) rows u d a =
    let f = write_recovery (j.retry_count + 1) (recovered_log worker j) in
    recover_each-eq worker js (update_where (has_id j.id) f rows)
      (Unique-update_where (λ r. r.id) (has_id j.id) f rows (λ r. refl) u) d.1
      (Rows-kept worker j js rows d.0 a.1)
    ∙ round_lem worker j js rows u a.0 d.0

pub stale_jobs-Rows :
    (locked : UploadJob → Bool) (threshold limit : ℕ) (rows : List UploadJob)
    → Rows (stale_jobs locked threshold limit rows) rows
unfolding stale_jobs
stale_jobs-Rows locked threshold limit rows =
    All-take (λ j. Has j rows) limit _
      (All-order_by stale_le (λ j. Has j rows) _ (Has→All _ _ (λ j m. (Has-select _ rows j m).0)))

stale_jobs-Unique :
    (locked : UploadJob → Bool) (threshold limit : ℕ) (rows : List UploadJob)
    → UniqueIds rows
    → UniqueIds (stale_jobs locked threshold limit rows)
unfolding stale_jobs
stale_jobs-Unique locked threshold limit rows u =
    Unique-take (λ r. r.id) limit _
      (Unique-order_by (λ r. r.id) stale_le _ (Unique-select (λ r. r.id) _ rows u))

-- Every job that a recovery selects is stale, and no other transaction holds it.
pub stale_jobs_sound :
    (locked : UploadJob → Bool) (threshold limit : ℕ) (rows : List UploadJob)
    → All
        (λ j. (is_stale threshold j ≡ true) × (locked j ≡ false))
        (stale_jobs locked threshold limit rows)
unfolding stale_jobs
stale_jobs_sound locked threshold limit rows = All-take _ limit _ (
    All-order_by stale_le _ _ (
      Has→All _ _ (λ j m.
        let s = (Has-select (λ r. is_stale threshold r && not (locked r)) rows j m).1 in
        (ground arith, ground arith))))

-- A row that is one of the selected jobs by its id is stale itself.
pub selected_stale :
    (locked : UploadJob → Bool) (threshold : ℕ) (rows : List UploadJob)
    → UniqueIds rows
    → (r : UploadJob) → Has r rows
    → (js : List UploadJob) → Rows js rows
    → All (λ j. (is_stale threshold j ≡ true) × (locked j ≡ false)) js
    → selected js r ≡ true
    → is_stale threshold r ≡ true
unfolding selected
selected_stale locked threshold rows u r m [] a s h = absurd (ground arith)
selected_stale locked threshold rows u r m (j ∷ js) a s h = elim (Bool-cases (has_id j.id r)) [
  | inl e ↦ rw (Unique-eq (λ x. x.id) rows r j u m a.0 ((==_iff _ _).0 e)) s.0.0
  | inr e ↦ selected_stale locked threshold rows u r m js a.1 s.1 (rw e at h)
]

-- On PostgreSQL the loop over the selected jobs does one simultaneous update: each selected row
-- goes back to WAITING with one more retry and its own log line, all other rows stay, and the
-- result counts the selected rows.
pub recover_postgres_lem :
    (locked : UploadJob → Bool) (threshold : ℕ) (worker : Text) (limit : ℕ) (rows : List UploadJob)
    → UniqueIds rows
    → recover_postgres locked threshold worker limit rows ≡ (
      update_where (selected (stale_jobs locked threshold limit rows)) (recovered worker) rows,
      length (stale_jobs locked threshold limit rows),
    )
unfolding recover_postgres
recover_postgres_lem locked threshold worker limit rows u = rw (
    recover_each-eq worker (stale_jobs locked threshold limit rows) rows u
      (stale_jobs-Unique locked threshold limit rows u)
      (stale_jobs-Rows locked threshold limit rows))

recover_one-stale :
    (threshold : ℕ) (worker : Text) (job : UploadJob) (rows : List UploadJob)
    → UniqueIds rows
    → Has job rows
    → is_stale threshold job ≡ true
    → recover_one threshold worker job.id rows ≡ (
      update_where
          (has_id job.id)
          (write_recovery (job.retry_count + 1) (recovered_log worker job))
          rows,
      1,
    )
unfolding recover_one is_stale
recover_one-stale threshold worker job rows u m h =
    let f = write_recovery (job.retry_count + 1) (recovered_log worker job) in
    let q = λ (r : UploadJob).
      is_processing r.status && (is_null r.completed_at && null_lt r.started_at threshold) in
    let p = λ (r : UploadJob). is_processing r.status && is_null r.completed_at in
    rw (first_where-key_and (λ r. r.id) ◌==◌ ==_iff q rows job u m (ground arith), recover_one)
      (rw (count_where-key (λ r. r.id) ◌==◌ ==_iff p rows job u m (ground arith))
        (rw (update_where-key (λ r. r.id) ◌==◌ ==_iff p f rows job u m (ground arith))))

recover_ids-eq :
    (threshold : ℕ) (worker : Text) (js rows : List UploadJob)
    → UniqueIds rows
    → UniqueIds js
    → Rows js rows
    → All (λ j. is_stale threshold j ≡ true) js
    → recover_ids threshold worker (map (λ r. r.id) js) rows
      ≡ (recover_each worker js rows, length js)
unfolding recover_ids recover_each
recover_ids-eq threshold worker [] rows u d a s = refl
recover_ids-eq threshold worker (j ∷ js) rows u d a s =
    let f = write_recovery (j.retry_count + 1) (recovered_log worker j) in
    rw (recover_one-stale threshold worker j rows u a.0 s.0) (
      rw
        (recover_ids-eq threshold worker js (update_where (has_id j.id) f rows)
          (Unique-update_where (λ r. r.id) (has_id j.id) f rows (λ r. refl) u) d.1
          (Rows-kept worker j js rows d.0 a.1) s.1)
        (ground arith))

-- Where nothing was recovered, the rows are as they were.
count_lem :
    (worker : Text) (js rows : List UploadJob)
    → ◌≡◌ {A = List UploadJob × ℕ}
        (if length js == 0 then (rows, 0) else (recover_each worker js rows, length js))
        (recover_each worker js rows, length js)
unfolding recover_each
count_lem worker [] rows = refl
count_lem worker (j ∷ js) rows = ground arith

-- The row-by-row recovery for other databases, with nobody else at work, does what the PostgreSQL
-- recovery does: the same rows and the same count.
pub recover_fallback-eq-postgres :
    (threshold : ℕ) (worker : Text) (limit : ℕ) (rows : List UploadJob)
    → UniqueIds rows
    → recover_fallback threshold worker limit rows
      ≡ recover_postgres (λ _. false) threshold worker limit rows
unfolding recover_fallback recover_postgres
recover_fallback-eq-postgres threshold worker limit rows u =
    let js = stale_jobs (λ _. false) threshold limit rows in
    let stale : All (λ j. is_stale threshold j ≡ true) js =
      Has→All _ js
        (λ j m. (All→Has _ js j (stale_jobs_sound (λ _. false) threshold limit rows) m).0) in
    rw
      (recover_ids-eq threshold worker js rows u
        (stale_jobs-Unique (λ _. false) threshold limit rows u)
        (stale_jobs-Rows (λ _. false) threshold limit rows) stale)
      (count_lem worker js rows)
