-- ===== src/UploadQueue/Counts.antt =====
-- The counts of the upload queue that the monitoring shows.
use tc_backend.Table.Rows.{count_where}
use tc_backend.UploadJob.{
  failed, completed, processing, is_failed, waiting, is_completed, UploadJob, is_processing,
  is_waiting, UploadJobStatus,
}
use tc_backend.UploadQueue.Finish.{count_completed_today, count_by_status}
use tc_backend.Prelude.{
  ℕ, suc, ◌+◌, ◌≤◌, ◌≡◌, Bool, true, false, ◌&&◌, List, [], ◌∷◌, arith, if◌then◌else◌, length,
}

status_counted :
    (s : UploadJobStatus) (a b c d n : ℕ)
    → a + b + c + d ≡ n
    → ((if is_waiting s then 1 else 0) + a)
        + ((if is_processing s then 1 else 0) + b)
        + ((if is_completed s then 1 else 0) + c)
        + ((if is_failed s then 1 else 0) + d)
      ≡ suc n
status_counted waiting a b c d n h = omega arith
status_counted processing a b c d n h = omega arith
status_counted completed a b c d n h = omega arith
status_counted failed a b c d n h = omega arith

and_le : (p q : Bool) (a b : ℕ) → a ≤ b → (if p && q then 1 else 0) + a ≤ (if p then 1 else 0) + b
and_le true true a b h = omega arith
and_le true false a b h = omega arith
and_le false q a b h = omega arith

-- Every row is counted under exactly one of the four statuses, so that their counts add up to the
-- number of rows, and at any time the jobs completed today are among the COMPLETED ones.
pub count_by_status_total :
    (now : ℕ) (rows : List UploadJob)
    → (count_by_status waiting rows
          + count_by_status processing rows
          + count_by_status completed rows
          + count_by_status failed rows
        ≡ length rows)
      × (count_completed_today now rows ≤ count_by_status completed rows)
unfolding count_by_status count_completed_today count_where
count_by_status_total now [] = (omega arith, omega arith)
count_by_status_total now (r ∷ rows) =
    let (sum, today) = count_by_status_total now rows in
    (status_counted r.status _ _ _ _ (length rows) sum, and_le (is_completed r.status) _ _ _ today)
