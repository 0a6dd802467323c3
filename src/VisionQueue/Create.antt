-- ===== src/VisionQueue/Create.antt =====
-- When a Vision job is created, and that no file gets two active jobs.
use tc_backend.Prelude.{
  subst, Bool, Has, first-none, first-Has, ◌<◌, ℕ, ◌+◌, ◌≤◌, ◌≡◌, refl, true, not, ◌&&◌, Option,
  none, some, List, [], ◌∷◌, ◌++◌, arith, ◌==◌, ==_iff, if◌then◌else◌, Option-cases, Bool-cases,
  inl, inr, first, All,
}
use tc_backend.Table.Rows.{
  count_where-append, select, count_where, All→Has, Has→All, Has-select, select-Has,
  count_where-zero,
}
use tc_backend.Table.Order.{order_by, Has-order_by, order_by-All}
use tc_backend.Priority.{calculate}
use tc_backend.VisionJob.{
  waiting, processing, completed, failed, skipped, google, VisionJob, VisionJobStatus,
  is_blocking_status,
}
use tc_backend.VisionQueue.{
  queue_created, is_video, is_heic, VisionTable, UploadContext, is_blocking, newest_le,
  get_blocking_status, new_row, create, enqueue_with_status, enqueue_vision_job,
}

-- No file has two jobs that are WAITING, PROCESSING or COMPLETED and not deleted.
abbrev pub OneActive : List VisionJob → Type 0
OneActive rows = (file_id : ℕ) → count_where (is_blocking file_id) rows ≤ 1

-- no blocking status means that no row blocks
pub blocking_none :
    (file_id : ℕ) (rows : List VisionJob)
    → get_blocking_status file_id rows ≡ none
    → count_where (is_blocking file_id) rows ≡ 0
unfolding get_blocking_status
blocking_none file_id rows h =
    let s = select (is_blocking file_id) rows in
    let e : first (order_by newest_le s) ≡ none = ground arith in
    let empty = first-none (order_by newest_le s) e in
    let all : All (λ _. ⊥) (order_by newest_le s) = rw empty tt in
    let gone = order_by-All newest_le (λ _. ⊥) s all in
    count_where-zero (is_blocking file_id) rows (
      Has→All _ rows (λ r m. elim (Bool-cases (is_blocking file_id r)) [
        | inl t ↦ absurd (All→Has (λ _. ⊥) s r gone (select-Has _ rows r m t))
        | inr t ↦ t
      ]))

-- a blocking status is WAITING, PROCESSING or COMPLETED
blocking_some :
    (file_id : ℕ) (rows : List VisionJob) (s : VisionJobStatus)
    → get_blocking_status file_id rows ≡ some s
    → is_blocking_status s ≡ true
unfolding get_blocking_status is_blocking
blocking_some file_id rows s h =
    let l = order_by newest_le (select (is_blocking file_id) rows) in
    elim (Option-cases (first l)) [
      | inl e ↦ absurd (ground arith)
      | inr (r, e) ↦
          let m = Has-order_by newest_le (select (is_blocking file_id) rows) r (first-Has l r e) in
          let b = (Has-select (is_blocking file_id) rows r m).1 in ground arith
    ]

-- A blocking status leaves the queue as it is.
blocked_lem :
    (context : UploadContext) (file_id : ℕ) (created_at : Option ℕ) (s : VisionJobStatus) (now : ℕ)
    (t : VisionTable)
    → is_blocking_status s ≡ true
    → (enqueue_with_status context file_id created_at (some s) now t).0 ≡ t
unfolding enqueue_with_status calculate
blocked_lem context file_id created_at waiting now t h = refl
blocked_lem context file_id created_at processing now t h = refl
blocked_lem context file_id created_at completed now t h = refl
blocked_lem context file_id created_at failed now t h = absurd (ground arith)
blocked_lem context file_id created_at skipped now t h = absurd (ground arith)

abbrev with_row : ℕ → ℕ → ℕ → VisionTable → VisionTable
with_row file_id priority now t = record {
  rows = t.rows ++ new_row t.next_id file_id priority google now ∷ [];
  next_id = t.next_id + 1;
}

-- With no blocking status a row is added to what others have committed meanwhile.
free_lem :
    (context : UploadContext) (file_id : ℕ) (created_at : Option ℕ) (now : ℕ) (t : VisionTable)
    → (priority : ℕ) × (enqueue_with_status context file_id created_at none now t
        ≡ (with_row file_id priority now (context.during t), queue_created priority))
unfolding enqueue_with_status calculate create
free_lem context file_id created_at now t = (_, refl)

-- `_enqueue_vision_job` either leaves the queue as it is, or adds one WAITING row for a file that
-- no row blocked at its check.
data Enqueued (during : VisionTable → VisionTable) (t : VisionTable) (u : VisionTable)
    : Type 0 where
  same : u ≡ t → Enqueued during t u
  added :
      (file_id priority now : ℕ)
      → count_where (is_blocking file_id) t.rows ≡ 0
      → u ≡ with_row file_id priority now (during t)
      → Enqueued during t u

with_status-Enqueued :
    (context : UploadContext) (file_id : ℕ) (created_at : Option ℕ) (now : ℕ) (t : VisionTable)
    → Enqueued context.during t
        (enqueue_with_status context file_id created_at
          (get_blocking_status file_id t.rows)
          now
          t).0
with_status-Enqueued context file_id created_at now t =
    elim (Option-cases (get_blocking_status file_id t.rows)) [
      | inl e ↦
          let (priority, p) = free_lem context file_id created_at now t in
          added file_id priority now (blocking_none file_id t.rows e) (rw (e, p))
      | inr (s, e) ↦
          same (
            rw e
              (blocked_lem context file_id created_at s now t (blocking_some file_id t.rows s e)))
    ]

enqueue-Enqueued :
    (context : UploadContext) (now : ℕ) (t : VisionTable)
    → Enqueued context.during t (enqueue_vision_job context now t).0
unfolding enqueue_vision_job
enqueue-Enqueued context now t = elim (Option-cases context.common_file) [
  | inl e ↦ rw (e, enqueue_vision_job) (same refl)
  | inr ((file_id, created_at), e) ↦
      rw (e, enqueue_vision_job)
        (elim (Bool-cases (is_video context.media)) [
          | inl v ↦ rw v (same refl)
          | inr v ↦ rw v (elim (Bool-cases (is_heic context.media && not context.has_preview)) [
            | inl w ↦ rw w (same refl)
            | inr w ↦ rw w (with_status-Enqueued context file_id created_at now t)
          ])
        ])
]

count_new_row :
    (file id f priority at : ℕ)
    → count_where (is_blocking file) (new_row id f priority google at ∷ [])
      ≡ (if f == file then 1 else 0)
unfolding count_where is_blocking
count_new_row file id f priority at = ground arith

one_more :
    (file id f priority at : ℕ) (seen rows : List VisionJob)
    → count_where (is_blocking f) seen ≡ 0
    → count_where (is_blocking file) rows ≤ count_where (is_blocking file) seen
    → count_where (is_blocking file) seen ≤ 1
    → count_where (is_blocking file) (rows ++ new_row id f priority google at ∷ []) ≤ 1
one_more file id f priority at seen rows free d h =
    rw
      (
        count_where-append (is_blocking file) rows (new_row id f priority google at ∷ []),
        count_new_row,
      )
      (elim (Bool-cases (f == file)) [
        | inl e ↦
            let none_seen : count_where (is_blocking file) seen ≡ 0 =
              subst (λ k. count_where (is_blocking k) seen ≡ 0) ((==_iff f file).0 e) free in
            rw e (omega arith)
        | inr e ↦ rw e (omega arith)
      ])

-- Whatever the upload, and whatever other transactions commit between the check for a job of the
-- file and the INSERT: unless they make a job of the file active there, a file with at most one
-- active Vision job (WAITING, PROCESSING or COMPLETED, and not deleted) still has at most one after
-- the enqueueing.
pub enqueue-OneActive :
    (context : UploadContext) (now : ℕ) (t : VisionTable) (file : ℕ)
    → count_where (is_blocking file) (context.during t).rows ≤ count_where (is_blocking file) t.rows
    → count_where (is_blocking file) t.rows ≤ 1
    → count_where (is_blocking file) (enqueue_vision_job context now t).0.rows ≤ 1
enqueue-OneActive context now t file d h = elim (enqueue-Enqueued context now t) [
  | same e ↦ rw e h
  | added f priority at free e ↦ rw e (
      one_more file (context.during t).next_id f priority at t.rows (context.during t).rows free d
        h)
]

counted_row :
    (p : VisionJob → Bool) (rows : List VisionJob) (r : VisionJob)
    → Has r rows
    → p r ≡ true
    → 0 < count_where p rows
unfolding count_where
counted_row p [] r m h = elim m [ ]
counted_row p (x ∷ xs) r (inl e) h = let here : p x ≡ true = rw (← e) h in ground arith
counted_row p (x ∷ xs) r (inr m) h = ground (arith, counted_row p xs r m h)

blocking_count :
    (file_id : ℕ) (rows : List VisionJob) (s : VisionJobStatus)
    → get_blocking_status file_id rows ≡ some s
    → 0 < count_where (is_blocking file_id) rows
unfolding get_blocking_status
blocking_count file_id rows s h =
    let l = order_by newest_le (select (is_blocking file_id) rows) in
    elim (Option-cases (first l)) [
      | inl e ↦ absurd (ground arith)
      | inr (r, e) ↦
          let m = Has-order_by newest_le (select (is_blocking file_id) rows) r (first-Has l r e) in
          let b = Has-select (is_blocking file_id) rows r m in
          counted_row (is_blocking file_id) rows r b.0 b.1
    ]

-- After an enqueueing that gets as far as the check, the file has an active job.
with_status_count :
    (context : UploadContext) (file_id : ℕ) (created_at : Option ℕ) (now : ℕ) (t : VisionTable)
    → 0
      < count_where
          (is_blocking file_id)
          (enqueue_with_status context file_id created_at
            (get_blocking_status file_id t.rows)
            now
            t).0.rows
with_status_count context file_id created_at now t =
    elim (Option-cases (get_blocking_status file_id t.rows)) [
      | inl e ↦
          let (priority, p) = free_lem context file_id created_at now t in
          rw (e, p)
            (rw (count_where-append, count_new_row, (==_iff file_id file_id).1 refl) (omega arith))
      | inr (s, e) ↦
          let b = blocking_some file_id t.rows s e in
          rw (e, blocked_lem context file_id created_at s now t b)
            (blocking_count file_id t.rows s e)
    ]

blocked_after :
    (context : UploadContext) (file_id : ℕ) (created_at : Option ℕ) (now : ℕ) (t : VisionTable)
    → 0 < count_where (is_blocking file_id) t.rows
    → (enqueue_with_status context file_id created_at (get_blocking_status file_id t.rows) now t).0
      ≡ t
blocked_after context file_id created_at now t h =
    elim (Option-cases (get_blocking_status file_id t.rows)) [
      | inl e ↦ absurd (omega (arith, blocking_none file_id t.rows e))
      | inr (s, e) ↦
          rw e (blocked_lem context file_id created_at s now t (blocking_some file_id t.rows s e))
    ]

-- Enqueueing again for an upload with a stored file, at any later time and on any later table in which
-- the file has at least as many active jobs (WAITING, PROCESSING or COMPLETED, and not deleted) as the
-- first enqueueing left, changes nothing.
pub enqueue_twice :
    (context : UploadContext) (file_id : ℕ) (created_at : Option ℕ) (now later : ℕ)
    (t u : VisionTable)
    → context.common_file ≡ some (file_id, created_at)
    → count_where (is_blocking file_id) (enqueue_vision_job context now t).0.rows
      ≤ count_where (is_blocking file_id) u.rows
    → (enqueue_vision_job context later u).0 ≡ u
unfolding enqueue_vision_job enqueue_with_status
enqueue_twice context file_id created_at now later t u e h =
    elim (Bool-cases (is_video context.media)) [
      | inl v ↦ rw (e, enqueue_vision_job) (rw v)
      | inr v ↦ elim (Bool-cases (is_heic context.media && not context.has_preview)) [
        | inl w ↦ rw (e, enqueue_vision_job) (rw (v, w))
        | inr w ↦
            let step : (at : ℕ) (s : VisionTable)
                → (enqueue_vision_job context at s).0
                  ≡ (enqueue_with_status context file_id created_at
                      (get_blocking_status file_id s.rows) at s).0 =
              λ at s. rw (e, enqueue_vision_job) (rw (v, w)) in
            let left = with_status_count context file_id created_at now t in
            let kept =
              subst
                (λ (x : VisionTable).
                  count_where (is_blocking file_id) x.rows
                  ≤ count_where (is_blocking file_id) u.rows)
                (step now t) h in
            rw (step later u) (blocked_after context file_id created_at later u (omega arith))
      ]
    ]
