-- ===== src/Examples/Uploads.antt =====
-- The upload queue on sample rows.
use tc_backend.UploadQueue.ClaimedWorker.{empty, extract-claimed_log}
use tc_backend.UploadQueue.Recover.{
  recover_postgres_lem, recovered, selected, recover_fallback-eq-postgres,
}
use tc_backend.Table.Order.{insert_by, order_by}
use tc_backend.UploadJob.{UploadJobStatus, is_waiting, UploadJob}
use tc_backend.ClaimLog.{codes, is_space, extract_claimed_worker, Text, in_worker_class}
use tc_backend.Examples.Samples.{
  running_upload, gallery_upload, sky_upload, uploads, seconds, upload_table,
}
use tc_backend.UploadQueue.Lease.{
  stale_le, is_stale, recover_stale_processing_jobs, recover_fallback, recover_postgres, stale_jobs,
}
use tc_backend.UploadQueue.{
  claim_priority, claim_le, other, has_id, claimed_log, postgresql, write_claim, violates_unique,
  claim_next_waiting_job, UploadTable, create_waiting_job, claim_fallback, NewUploadJob,
  claim_if_waiting, next_waiting, claim_postgres,
}
use tc_backend.UploadQueue.Finish.{count_by_status}
use tc_backend.Table.Rows.{update_where, count_where, select, first_where}
use tc_backend.UploadQueue.Claim.{
  claim_postgres_sound, claimable, claim_if_waiting_once, claim_fallback-eq-postgres,
  claim_postgres_total, UniqueIds,
}
use tc_backend.Prelude.{
  ◌≡◌, refl, inl, Bool, true, false, none, some, [], ◌∷◌, arith, ◌==◌, if◌then◌else◌, length, All,
  Has,
}

uploads-UniqueIds : UniqueIds uploads
uploads-UniqueIds = (
  (omega arith, (omega arith, (omega arith, tt))),
  ((omega arith, (omega arith, tt)), ((omega arith, tt), (tt, tt))),
)

abbrev w1 : Text
w1 = codes "w1"

abbrev free : UploadJob → Bool
free _ = false

-- the table after a claim and a recovery
abbrev claimed_table : UploadTable
claimed_table = record upload_table {
  rows = (claim_next_waiting_job postgresql free w1 (seconds 40) uploads).0;
}

abbrev recovered_table : UploadTable
recovered_table = record claimed_table {
  rows = (recover_stale_processing_jobs other free 3 (seconds 41) w1 10 claimed_table.rows).0;
}

-- AstroJournal's upload goes first, though it is the later one.
sky_first : next_waiting free uploads ≡ some sky_upload
unfolding next_waiting select order_by insert_by claim_le claim_priority
sky_first = refl

abbrev sky_claimed : UploadJob
sky_claimed = write_claim (seconds 40) (claimed_log w1 sky_upload) sky_upload

sky_taken : (claim_postgres free w1 (seconds 40) uploads).1 ≡ some sky_claimed
unfolding claim_postgres claimed_log
sky_taken = rw (sky_first, claim_postgres) refl

claim_postgres_sound_example :
    (job : UploadJob) × Has job uploads
    × (is_waiting job.status ≡ true)
    × (free job ≡ false)
    × All (λ r. claim_le job r ≡ true) (claimable free uploads)
    × (sky_claimed ≡ write_claim (seconds 40) (claimed_log w1 job) job)
    × (first_where (has_id 3) (claim_postgres free w1 (seconds 40) uploads).0
        ≡ (if job.id == 3 then some sky_claimed else first_where (has_id 3) uploads))
claim_postgres_sound_example =
    claim_postgres_sound free w1 (seconds 40) uploads sky_claimed 3 uploads-UniqueIds sky_taken

claim_postgres_total_example :
    (claimed : UploadJob) × ((claim_postgres free w1 (seconds 40) uploads).1 ≡ some claimed)
claim_postgres_total_example =
    claim_postgres_total free w1 (seconds 40) uploads gallery_upload (inl refl) refl refl

claim_fallback-eq-postgres_example :
    claim_fallback w1 (seconds 40) uploads ≡ claim_postgres (λ _. false) w1 (seconds 40) uploads
claim_fallback-eq-postgres_example =
    claim_fallback-eq-postgres w1 (seconds 40) uploads uploads-UniqueIds

first_wins : (claim_if_waiting w1 (seconds 40) sky_upload uploads).1 ≡ some sky_claimed
unfolding claim_if_waiting count_where first_where update_where
first_wins = refl

claim_if_waiting_once_example :
    claim_if_waiting
      (codes "w2")
      (seconds 41)
      sky_upload
      (claim_if_waiting w1 (seconds 40) sky_upload uploads).0
    ≡ ((claim_if_waiting w1 (seconds 40) sky_upload uploads).0, none)
claim_if_waiting_once_example =
    claim_if_waiting_once w1 (codes "w2") (seconds 40) (seconds 41) sky_upload sky_upload uploads
      sky_claimed refl first_wins

recover_fallback-eq-postgres_example :
    recover_fallback (seconds 35) w1 10 uploads
    ≡ recover_postgres (λ _. false) (seconds 35) w1 10 uploads
recover_fallback-eq-postgres_example =
    recover_fallback-eq-postgres (seconds 35) w1 10 uploads uploads-UniqueIds

recover_postgres_lem_example : recover_postgres free (seconds 35) w1 10 uploads ≡ (
  update_where (selected (stale_jobs free (seconds 35) 10 uploads)) (recovered w1) uploads,
  length (stale_jobs free (seconds 35) 10 uploads),
)
recover_postgres_lem_example =
    recover_postgres_lem free (seconds 35) w1 10 uploads uploads-UniqueIds

-- the running job is the stale one
recovers_running : stale_jobs free (seconds 35) 10 uploads ≡ running_upload ∷ []
unfolding stale_jobs is_stale select order_by insert_by stale_le
recovers_running = refl

worker_characters : All (λ d. in_worker_class d ≡ true) (119 ∷ 49 ∷ [])
unfolding in_worker_class is_space
worker_characters = (refl, (refl, tt))

extract-claimed_log_example :
    extract_claimed_worker (some (claimed_log (119 ∷ 49 ∷ []) gallery_upload))
    ≡ some (119 ∷ 49 ∷ [])
extract-claimed_log_example =
    extract-claimed_log gallery_upload 119 (49 ∷ []) empty worker_characters

abbrev new_upload : NewUploadJob
new_upload = record {
  job_id = "job-5";
  source_type = "API";
  incoming_path = "/incoming/5";
  service_name = "MemoryKeeper";
  client_file_id = some "client-1";
  client_content_sha256 = none;
  processing_log = none;
}

-- One service may not upload the same client file twice; another one may.
refuses_client_file : create_waiting_job new_upload (seconds 50) upload_table ≡ none
unfolding create_waiting_job violates_unique count_where
refuses_client_file = refl

counts_waiting : count_by_status UploadJobStatus.waiting uploads ≡ 2
unfolding count_by_status count_where
counts_waiting = refl
