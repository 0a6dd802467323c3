-- ===== src/WorkerHealth.antt =====
-- app/common/repositories/worker_status_repository.py and app/common/models/worker_status.py: the
-- heartbeats of the workers and their daily counters. Times are microseconds, and dates in UTC.
pub mod Daily
use tc_backend.Table.Rows.{first_where, update_where}
use tc_backend.Prelude.{
  ℕ, zero, suc, ◌+◌, ◌-◌, ◌*◌, ◌/◌, ◌%◌, ◌≤◌, ◌<◌, ◌≡◌, refl, sym, ap, subst, ◌∙◌, ◌≢◌, ◌↔◌, ◌⊎◌,
  inl, inr, Bool, true, false, not, ◌&&◌, ◌||◌, Option, none, some, List, [], ◌∷◌, ◌++◌, map, arith,
  String, str_eq, eq_iff, ltb, leb, ◌==◌, ==_iff, if◌then◌else◌, Bool-cases, Option-cases, is_null,
  null_lt, null_eq, or_default, length, take, drop, first, All, Has, Unique, All-take, Unique-take,
  All-map,
}

-- `CommonWorkerStatus`
pub record HealthRow : Type 0 where
  pub worker_name : String
  pub status : String
  pub last_started : Option ℕ
  pub last_heartbeat : Option ℕ
  pub processed_count : ℕ
  pub failed_count : ℕ
  pub current_job_id : Option String
  pub version : Option String
  pub updated_at : Option ℕ

-- `date()` of a time
abbrev pub day_of : ℕ → ℕ
day_of t = t / 86400000000

-- `_reset_daily_counters_if_needed`
unfoldable pub reset_daily : ℕ → HealthRow → HealthRow
reset_daily now row = elim row.last_heartbeat [
  | none ↦ row
  | some marker ↦
      if day_of marker == day_of now
      then row
      else record row { processed_count = 0; failed_count = 0 }
]

abbrev pub is_worker : String → HealthRow → Bool
is_worker name row = str_eq row.worker_name name

abbrev pub new_worker : String → HealthRow
new_worker name = record {
  worker_name = name;
  status = "STOPPED";
  last_started = none;
  last_heartbeat = none;
  processed_count = 0;
  failed_count = 0;
  current_job_id = none;
  version = none;
  updated_at = none;
}

-- `get_worker`
unfoldable pub get_worker : String → List HealthRow → Option HealthRow
unfolding first_where
get_worker name rows = first_where (is_worker name) rows

-- `_get_or_create`: the rows with the worker's
unfoldable pub ensure_worker : String → List HealthRow → List HealthRow
unfolding get_worker
ensure_worker name rows =
    if is_null (get_worker name rows) then rows ++ new_worker name ∷ [] else rows

-- a change of the worker's row, which is made where it is missing
unfoldable pub change_worker : String → (HealthRow → HealthRow) → List HealthRow → List HealthRow
unfolding ensure_worker update_where
change_worker name change rows = update_where (is_worker name) change (ensure_worker name rows)

-- the job that a worker is at, by the two arguments for it
unfoldable pub set_job : Option String → Bool → Option String → Option String
set_job job true old = none
set_job none false old = old
set_job (some job) false old = some job

unfoldable pub write_status :
    ℕ → String → Option String → Option String → Bool → HealthRow → HealthRow
unfolding reset_daily set_job
write_status now status version job clear row =
    let row = record row { status = status } in
    let row =
      if str_eq status "RUNNING"
      then reset_daily now (record row { last_started = some now; last_heartbeat = some now })
      else row in
    record row {
      version = if is_null version then row.version else version;
      current_job_id = set_job job clear row.current_job_id;
      updated_at = some now;
    }

unfoldable pub update_status :
    ℕ → String → String → Option String → Option String → Bool → List HealthRow → List HealthRow
unfolding change_worker write_status
update_status now name status version job clear rows =
    change_worker name (write_status now status version job clear) rows

unfoldable pub write_heartbeat : ℕ → Option String → Bool → HealthRow → HealthRow
unfolding reset_daily set_job
write_heartbeat now job clear row =
    let row = reset_daily now (record row { status = "RUNNING"; last_heartbeat = some now }) in
    record row { current_job_id = set_job job clear row.current_job_id; updated_at = some now }

unfoldable pub heartbeat : ℕ → String → Option String → Bool → List HealthRow → List HealthRow
unfolding change_worker write_heartbeat
heartbeat now name job clear rows = change_worker name (write_heartbeat now job clear) rows

unfoldable pub count_processed : ℕ → HealthRow → HealthRow
unfolding reset_daily
count_processed now row =
    let row = reset_daily now row in
    record row {
      processed_count = row.processed_count + 1;
      current_job_id = none;
      updated_at = some now;
    }

unfoldable pub increase_processed : ℕ → String → List HealthRow → List HealthRow
unfolding change_worker count_processed
increase_processed now name rows = change_worker name (count_processed now) rows

unfoldable pub count_failed : ℕ → HealthRow → HealthRow
unfolding reset_daily
count_failed now row =
    let row = reset_daily now row in
    record row { failed_count = row.failed_count + 1; current_job_id = none; updated_at = some now }

unfoldable pub increase_failed : ℕ → String → List HealthRow → List HealthRow
unfolding change_worker count_failed
increase_failed now name rows = change_worker name (count_failed now) rows

-- `resolve_display_status`; the empty status is shown as OFFLINE too
unfoldable pub resolve_display_status : ℕ → HealthRow → String
resolve_display_status now row =
    if str_eq row.status "STOPPED" then "STOPPED" else elim row.last_heartbeat [
      | none ↦ "OFFLINE"
      | some t ↦ if ltb 60000000 (now - t) || str_eq row.status "" then "OFFLINE" else row.status
    ]
