-- ===== src/Examples/Health.antt =====
-- A worker's counters at the turn of a day.
use tc_backend.Table.Rows.{first_where}
use tc_backend.WorkerHealth.Daily.{increase_processed-heartbeat, worker_row}
use tc_backend.WorkerHealth.{
  heartbeat, new_worker, HealthRow, resolve_display_status, increase_processed,
}
use tc_backend.Prelude.{◌+◌, ◌≡◌, refl, false, none, some, [], ◌∷◌}

abbrev busy_worker : HealthRow
busy_worker = record (new_worker "w1") {
  status = "RUNNING";
  last_heartbeat = some 86399000000;
  processed_count = 7;
  failed_count = 2;
}

-- Seven jobs of the day before, and one of the new day.
turn_run :
    (worker_row "w1" (
      increase_processed 86402000000 "w1"
        (heartbeat 86401000000 "w1" none false (busy_worker ∷ [])))).processed_count
    ≡ 8
unfolding increase_processed heartbeat first_where
turn_run = refl

-- Without the heartbeat in between the counter starts anew.
no_beat_run :
    (worker_row "w1" (increase_processed 86402000000 "w1" (busy_worker ∷ []))).processed_count ≡ 1
unfolding increase_processed first_where
no_beat_run = refl

offline_run : resolve_display_status 86499000000 busy_worker ≡ "OFFLINE"
unfolding resolve_display_status
offline_run = refl

increase_processed-heartbeat_example :
    ((worker_row "w1" (heartbeat 86401000000 "w1" none false (busy_worker ∷ []))).processed_count
      ≡ (worker_row "w1" (busy_worker ∷ [])).processed_count)
    × ((worker_row "w1" (heartbeat 86401000000 "w1" none false (busy_worker ∷ []))).failed_count
        ≡ (worker_row "w1" (busy_worker ∷ [])).failed_count)
    × ((worker_row "w1" (
          increase_processed 86402000000 "w1"
            (heartbeat 86401000000 "w1" none false (busy_worker ∷ [])))).processed_count
        ≡ (worker_row "w1" (busy_worker ∷ [])).processed_count + 1)
increase_processed-heartbeat_example =
    increase_processed-heartbeat 86401000000 86402000000 "w1" none false (busy_worker ∷ []) refl
