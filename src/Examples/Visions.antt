-- ===== src/Examples/Visions.antt =====
-- The Vision queue and its worker on sample rows.
use tc_backend.VisionQueue.Create.{enqueue_twice, enqueue-OneActive}
use tc_backend.VisionWorker.Settle.{process_next_vision_job_lem, settled}
use tc_backend.VisionQueue.Recover.{recover_stale_rows_lem, selected, IsSelected, smaller}
use tc_backend.Table.Order.{insert_by, order_by}
use tc_backend.ClaimLog.{is_space, codes}
use tc_backend.VisionWorker.{process_next_vision_job, quota_exceeded, Outcome}
use tc_backend.VisionQueue.Claim.{
  get_next_waiting_job_sound, candidates, claimed, mark_processing_once, UniqueIds,
}
use tc_backend.Priority.{is_same_day, calculate}
use tc_backend.VisionJob.{is_waiting, VisionJob}
use tc_backend.WorkerStatus.{
  any, any, is_digit, digits_value, strip_right, strip_left, int_of_text, text_eq, is_worker_of,
  is_live, is_protected, WorkerStatus,
}
use tc_backend.VisionQueue.{
  VisionTable, is_stale, reset_stale_job, stale_jobs, queue_le, is_blocking, has_id,
  get_waiting_jobs, mark_processing, get_next_waiting_job, recover_stale_rows, enqueue_vision_job,
}
use tc_backend.Table.Rows.{map_some, select, update_where, count_where, first_where}
use tc_backend.Examples.Samples.{vision_table, seconds, photo, visions, tagging}
use tc_backend.Prelude.{
  not, ◌&&◌, ℕ, ◌≤◌, ◌≡◌, refl, Bool, true, false, none, some, List, [], ◌∷◌, arith, ◌==◌,
  if◌then◌else◌, All, Has,
}

visions-UniqueIds : UniqueIds visions
visions-UniqueIds = ((omega arith, tt), (tt, tt))

one_at_most : count_where (is_blocking 9) vision_table.rows ≤ 1
unfolding count_where is_blocking
one_at_most = omega arith

enqueue-OneActive_example :
    count_where (is_blocking 9) (enqueue_vision_job photo (seconds 200) vision_table).0.rows ≤ 1
enqueue-OneActive_example =
    enqueue-OneActive photo (seconds 200) vision_table 9 (omega arith) one_at_most

-- the queue after the first upload, and other inserts that were rolled back
abbrev later_table : VisionTable
later_table = record (enqueue_vision_job photo (seconds 200) vision_table).0 { next_id = 9 }

enqueue_twice_example : (enqueue_vision_job photo (seconds 300) later_table).0 ≡ later_table
enqueue_twice_example =
    enqueue_twice photo 9 (some (seconds 100)) (seconds 200) (seconds 300) vision_table later_table
      refl (omega arith)

-- A live worker is at work on the running job.
abbrev workers : List WorkerStatus
workers =
    record {
      worker_name = codes "VisionWorker";
      status = codes "RUNNING";
      last_heartbeat = some (seconds 95);
      current_job_id = some (codes "2");
    }
    ∷ []

abbrev protected : ℕ → Bool
protected = is_protected (codes "VisionWorker") (seconds 90) workers

protects_running : protected 2 ≡ true
unfolding is_protected select is_live is_worker_of text_eq int_of_text strip_left strip_right
    digits_value is_digit is_space any
protects_running = refl

recover_stale_rows_lem_example :
    let (after, count) = recover_stale_rows (seconds 50) protected (λ _. false) 10 visions in
    let js = stale_jobs (seconds 50) protected (λ _. false) 10 visions in
    (after ≡ update_where (selected js) reset_stale_job visions)
    × All (IsSelected (seconds 50) protected (λ _. false) visions) js
    × (count
        ≡ smaller 10 (count_where (λ r. is_stale (seconds 50) protected r && not false) visions))
    × (first_where (has_id 2) after ≡ (
        if protected 2
        then first_where (has_id 2) visions
        else map_some
            (λ r. if selected js r then reset_stale_job r else r)
            (first_where (has_id 2) visions)))
recover_stale_rows_lem_example =
    recover_stale_rows_lem (seconds 50) protected (λ _. false) 10 visions 2

offers_tagging : get_next_waiting_job visions ≡ some tagging
unfolding get_next_waiting_job get_waiting_jobs select order_by insert_by queue_le
offers_tagging = refl

get_next_waiting_job_sound_example :
    Has tagging visions
    × (is_waiting tagging.status ≡ true)
    × (tagging.deleted ≡ false)
    × All (λ r. queue_le tagging r ≡ true) (candidates visions)
get_next_waiting_job_sound_example = get_next_waiting_job_sound visions tagging offers_tagging

wins : (mark_processing tagging (seconds 50) visions).1 ≡ some (claimed (seconds 50) tagging)
unfolding mark_processing count_where update_where first_where
wins = refl

mark_processing_once_example :
    mark_processing tagging (seconds 51) (mark_processing tagging (seconds 50) visions).0
    ≡ ((mark_processing tagging (seconds 50) visions).0, none)
mark_processing_once_example =
    mark_processing_once tagging tagging (claimed (seconds 50) tagging) (seconds 50) (seconds 51)
      visions refl wins

abbrev limited : VisionJob → Outcome
limited _ = quota_exceeded

process_next_vision_job_lem_example :
    first_where
      (has_id 1)
      (process_next_vision_job true (λ r. r) (λ r. r) limited (seconds 50) (seconds 60) visions).0
    ≡ (if tagging.id == 1
        then some (settled quota_exceeded (claimed (seconds 50) tagging) (seconds 60))
        else first_where (has_id 1) visions)
process_next_vision_job_lem_example =
    process_next_vision_job_lem limited (seconds 50) (seconds 60) visions tagging 1
      visions-UniqueIds offers_tagging

-- an upload of the same day without a place
prioritizes : calculate (some (seconds 100)) false false false (seconds 200) ≡ some 70
unfolding calculate is_same_day
prioritizes = refl
