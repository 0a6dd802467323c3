-- ===== src/Examples/Rounds.antt =====
-- Rounds of the upload worker on sample rows.
use tc_backend.Table.Order.{insert_by, order_by}
use tc_backend.UploadWorker.Lost.{process_claimed_lost}
use tc_backend.UploadWorker.Result.{process_claimed_result, Ended, SameButLog}
use tc_backend.ClaimLog.{codes}
use tc_backend.Examples.Samples.{photo, vision_table, seconds, running_upload, uploads}
use tc_backend.UploadQueue.Lease.{
  recover_each, stale_le, is_stale, recovered_log, stale_jobs, write_recovery, recover_postgres,
}
use tc_backend.UploadJob.{UploadJob}
use tc_backend.Table.Rows.{update_where, select, count_where, first_where}
use tc_backend.UploadWorker.Outcome.{process_claimed_releases, held}
use tc_backend.UploadQueue.{has_id, get}
use tc_backend.UploadWorker.{finished, raised, Pipeline, process_claimed}
use tc_backend.Decimal.{decimal, decimal_fuel}
use tc_backend.Prelude.{◌≡◌, refl, false, some, List}

abbrev undisturbed : List UploadJob → List UploadJob
undisturbed rows = rows

abbrev stored : UploadJob → Pipeline
stored job = finished job.processing_log (some "file-1") photo false

abbrev broken : UploadJob → Pipeline
broken job = raised job.processing_log (codes "no disk")

finds_running : get "job-3" uploads ≡ some running_upload
unfolding get first_where
finds_running = refl

process_claimed_result_example :
    (s : UploadJob) × (get "job-3"
        (process_claimed undisturbed broken
          (seconds 50)
          (some running_upload)
          uploads
          vision_table).0
      ≡ some s)
    × Ended (broken running_upload) (seconds 50) running_upload s
process_claimed_result_example =
    process_claimed_result undisturbed broken (seconds 50) running_upload running_upload uploads
      vision_table refl finds_running refl

process_claimed_releases_example :
    held running_upload
      (process_claimed undisturbed stored (seconds 50) (some running_upload) uploads vision_table).0
    ≡ 0
process_claimed_releases_example =
    process_claimed_releases undisturbed stored (seconds 50) running_upload uploads vision_table
      refl

-- While the plugins run, another worker recovers the job.
abbrev recovered_meanwhile : List UploadJob → List UploadJob
recovered_meanwhile rows = (recover_postgres (λ _. false) (seconds 35) (codes "w2") 10 rows).0

abbrev waiting_again : UploadJob
waiting_again = write_recovery 1 (recovered_log (codes "w2") running_upload) running_upload

nothing_held : held running_upload (recovered_meanwhile uploads) ≡ 0
unfolding count_where recover_postgres stale_jobs is_stale select order_by insert_by stale_le
    recover_each update_where
nothing_held = refl

finds_waiting_again : first_where (has_id 3) (recovered_meanwhile uploads) ≡ some waiting_again
unfolding first_where recover_postgres stale_jobs is_stale select order_by insert_by stale_le
    recover_each update_where
finds_waiting_again = refl

process_claimed_lost_example :
    (s : UploadJob) × (first_where
        (has_id 3)
        (process_claimed recovered_meanwhile stored
          (seconds 50)
          (some running_upload)
          uploads
          vision_table).0
      ≡ some s)
    × SameButLog waiting_again s
process_claimed_lost_example =
    process_claimed_lost recovered_meanwhile stored (seconds 50) running_upload uploads vision_table
      3 waiting_again refl nothing_held finds_waiting_again

prints_decimal : decimal 1024 ≡ codes "1024"
unfolding decimal decimal_fuel
prints_decimal = refl
