-- ===== src/VisionWorker.antt =====
-- worker/vision_worker.py: one round of the Vision worker. The analysis itself is a parameter, and
-- so is what other workers commit meanwhile.
pub mod Settle
use tc_backend.Prelude.{
  ℕ, ◌+◌, ◌≡◌, refl, Bool, true, false, Option, none, some, List, ◌∷◌, arith, ◌==◌, ==_iff,
  if◌then◌else◌, Has, Option-cases, inl, inr, ◌∙◌,
}
use tc_backend.Table.Rows.{first_where, update_where}
use tc_backend.Table.Keys.{first_where-update_key}
use tc_backend.ClaimLog.{Text}
use tc_backend.VisionJob.{VisionJob, waiting, completed, failed, is_waiting}
use tc_backend.VisionQueue.{
  has_id, get_next_waiting_job, mark_processing, mark_completed, mark_waiting, mark_failed,
}

-- how `process_vision_job` ends: it returns, or raises ApiUsageLimitExceeded or another exception
pub data Outcome : Type 0 where
  analyzed quota_exceeded : Outcome
  raised : Text → Outcome

-- The `try` of `process_next_vision_job`. After a rollback the job is read again; a row that is
-- gone makes `db.refresh` raise, and nothing is written.
unfoldable pub settle : Outcome → VisionJob → ℕ → List VisionJob → List VisionJob
settle analyzed job now rows = mark_completed job now rows
settle quota_exceeded job now rows = elim (first_where (has_id job.id) rows) [
  | none ↦ rows
  | some fresh ↦ mark_waiting fresh rows
]
settle (raised message) job now rows = elim (first_where (has_id job.id) rows) [
  | none ↦ rows
  | some fresh ↦ mark_failed fresh message now rows
]

-- `offer`, `claim` and the end of the work are three transactions; `meanwhile` and `during` are what
-- others commit between them. The result says whether there was a job.
unfoldable pub process_next_vision_job :
    Bool
    → (List VisionJob → List VisionJob)
    → (List VisionJob → List VisionJob)
    → (VisionJob → Outcome)
    → ℕ
    → ℕ
    → List VisionJob
    → List VisionJob × Bool
unfolding settle
process_next_vision_job can_use meanwhile during work now later rows =
    elim (get_next_waiting_job rows) [
      | none ↦ (rows, false)
      | some job ↦
          if can_use
          then (let (rows', won) = mark_processing job now (meanwhile rows) in
              elim won [
                | none ↦ (rows', true)
                | some claimed ↦ (settle (work claimed) claimed later (during rows'), true)
              ])
          else (rows, true)
    ]
