-- ===== src/Lib.antt =====
-- tc-backend: the job queues of a photo server, and the workers that empty them.
--
-- A client's upload becomes a row of common_upload_jobs (app/common/repositories/
-- upload_job_repository.py). Upload workers (worker/background_worker.py) claim such rows, run a
-- plugin pipeline on the file, put a Vision job into common_vision_jobs (app/common/repositories/
-- vision_job_repository.py), and mark the upload COMPLETED or FAILED. Vision workers
-- (worker/vision_worker.py) claim and settle the Vision jobs. Jobs of workers that died are
-- recovered by their age; a live worker's row of common_worker_status protects its Vision job.
--
-- AstroJournal has a third queue, astro_plate_solve_jobs, whose jobs are held by a lease and an
-- owner. Its service keeps the status of the observation records in step, and appends an event to
-- common_change_events for each record that it changes; clients read the events page by page.
--
-- Beside the queues: the rows of common_api_usage limit the calls of external services, the rows of
-- common_file_metadata keep what the metadata sources and the user say of a file, with a history of
-- each change, stored media are streamed by HTTP byte ranges, and a folder watcher on a PC sends new
-- photos to the upload API.
--
-- Files:
--   * Prelude, Prelude/Tests, Prelude/Lists: Boolean tests and lists over native numbers.
--   * Table, Table/Rows, Table/Order, Table/Keys: SELECT, UPDATE, COUNT and ORDER BY on a list of
--     rows, and what a key gives.
--   * ClaimLog: the processing log as text, and `extract_claimed_worker`.
--   * UploadJob: app/common/models/upload_job.py.
--   * UploadQueue (create, look up, claim), UploadQueue/Lease (`touch_processing_lease`,
--     `recover_stale_processing_jobs`), UploadQueue/Finish (`mark_completed`, `mark_failed`,
--     `append_log`): upload_job_repository.py, a function per method under the method's name. The
--     proofs are in UploadQueue/Claim, ClaimedWorker, Recover, Lifecycle, Operations, Steps and
--     Counts.
--   * Priority: app/common/services/priority_calculator.py.
--   * WorkerStatus: app/common/models/worker_status.py and `_live_processing_job_ids`.
--   * VisionJob, VisionQueue: app/common/models/vision_job.py, vision_job_repository.py, and
--     `_enqueue_vision_job` of background_worker.py. The proofs are in VisionQueue/Create, Recover
--     and Claim.
--   * VisionWorker, VisionWorker/Settle: `process_next_vision_job`.
--   * UploadWorker, UploadWorker/Outcome, Result and Lost: `process_next_job` and
--     `process_upload_job`.
--   * Observation: `update_if_revision` and `soft_delete` of app/astrojournal/repositories/
--     observation_record_repository.py.
--   * PlateSolve: app/astrojournal/models/plate_solve_job.py; PlateSolve/Queue and
--     PlateSolve/Queue/Owned: app/astrojournal/repositories/plate_solve_job_repository.py;
--     PlateSolve/Service: app/astrojournal/services/plate_solve_queue_service.py, with the columns
--     of observation_record.py that it uses. The proofs are in PlateSolve/Claim, Fence, Lifecycle,
--     Operations, Steps, Race, Sync, Resync and Complete.
--   * ChangeFeed, ChangeFeed/Pages: app/common/models/change_event.py, app/common/repositories/
--     change_event_repository.py and app/common/services/changes_service.py.
--   * Decimal, Decimal/Value: natural numbers in decimal digits. HttpRange, HttpRange/Bounds, Served
--     and Printed: app/common/services/http_range.py, the byte range of a header and the chunks that
--     are streamed for it.
--   * ApiUsage (Keys, Reserve, Cap and Granted): app/common/repositories/api_usage_repository.py,
--     the monthly allowance of each external service.
--   * Metadata (Latest, Merge, Override and Restore): app/common/repositories/
--     metadata_repository.py, history_repository.py and metadata_priority.py, who may change a
--     file's metadata, and the user's decisions in their history.
--   * Watcher (Stable, Sending, Visits and Queue): watcher/folder_watcher.py, file_hash_cache.py
--     and upload_client.py, the program on a PC that sends new photos to the server.
--   * PlateSolve/Worker: the exceptions and the polling of worker/plate_solve_worker.py;
--     PlateSolve/Worker/Round: its `process_next_plate_solve_job`, with the reservation in ApiUsage.
--     The proofs are in PlateSolve/Worker/Poll, Release and Ends.
--   * WorkerHealth, WorkerHealth/Daily: app/common/repositories/worker_status_repository.py, the
--     heartbeats and the daily counters of the workers.
--   * Examples: sample rows, runs, and the theorems applied to them.
--
-- How the code is read:
--   * A table is the list of its rows, beside the next value of its primary key. An operation takes
--     the committed rows and returns them with its result; the clock is an argument. A lost
--     connection or another database error (`except Exception: rollback; raise`) is not modelled.
--   * Concurrent transactions: rows that others hold are the predicate `locked`, which SKIP LOCKED
--     passes over; what others commit between two transactions of a worker is a function on the
--     rows. A conditional UPDATE is atomic. Where the code reads without a lock and writes later (the
--     retry and the drop of a Plate Solve job, the INSERT of a Vision job), what others commit between
--     is such a function too, and the flush is an UPDATE by the primary key of the attributes that
--     differ from those loaded.
--   * Sessions have autoflush off: an attribute set on a row object reaches the table at the next
--     flush, and a conditional UPDATE reads the table, not the object.
--   * A time is a number of microseconds since the epoch, and `datetime` subtraction that would go
--     before the epoch stops at 0, where no stored time is earlier. NULL is `none`; a comparison
--     with NULL is not true.
--   * Logs are lists of code points, with the backslash and the n that the source writes.
--   * The plugin pipeline, the photo analysis, the provider of Plate Solving and the clock are
--     parameters. `stale_seconds` is a natural number: `resolve_stale_seconds` gives at least 1.
--   * The folder watcher's requests are what it sends: whether the server has kept a file whose
--     answer was lost is not known to it, and no part of the model.
--   * A worker name in a LIKE pattern has no wildcard; `int()` is read over ASCII digits.
--   * Fuel is used for the decimal digits of a number, where n + 1 steps print n; for a client that
--     follows the pages of the change feed, and for the polling of the Plate Solve worker, where the
--     theorems say how much is enough. The file streamer has as many rounds as bytes are asked for.
--
-- Not modelled: the HTTP routers and schemas, file storage, thumbnails, EXIF and the other plugins,
-- external API clients, gallery queries, MemoryKeeper's places and tags, the maintenance scripts,
-- migrations and tests. The counts of the Vision and Plate Solve queues and the paged `list` of the
-- upload queue only read for monitoring, and are left out; so is worker/worker_monitor.py.
mod Prelude
pub mod Table
pub mod ClaimLog
pub mod ApiUsage
pub mod Metadata
pub mod Watcher
pub mod WorkerHealth
pub mod Decimal
pub mod UploadJob
pub mod UploadQueue
pub mod WorkerStatus
pub mod Priority
pub mod VisionJob
pub mod VisionQueue
pub mod VisionWorker
pub mod UploadWorker
pub mod ChangeFeed
pub mod PlateSolve
pub mod Observation
pub mod HttpRange
pub mod Examples
