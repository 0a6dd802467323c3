-- ===== src/Examples/Samples.antt =====
-- Rows of the queues, as app/common/models describes them.
use tc_backend.ClaimLog.{codes}
use tc_backend.Prelude.{ℕ, ◌*◌, true, false, none, some, List, [], ◌∷◌}
use Prim.Native.Nat.{◌*◌, ℕ}
use tc_backend.UploadJob.{UploadJobStatus, UploadJob}
use tc_backend.VisionJob.{google, VisionJobStatus, VisionJob}
use tc_backend.VisionQueue.{image, VisionTable, UploadContext}
use tc_backend.UploadQueue.{UploadTable}

abbrev pub seconds : ℕ → ℕ
seconds n = n * 1000000

abbrev pub gallery_upload : UploadJob
gallery_upload = record {
  id = 1;
  job_id = "job-1";
  source_type = "API";
  status = UploadJobStatus.waiting;
  incoming_path = "/incoming/1";
  service_name = "MemoryKeeper";
  client_file_id = some "client-1";
  client_content_sha256 = none;
  file_id = none;
  retry_count = 0;
  error_message = none;
  created_at = seconds 10;
  started_at = none;
  completed_at = none;
  processing_log = none;
}

abbrev pub sky_upload : UploadJob
sky_upload = record gallery_upload {
  id = 2;
  job_id = "job-2";
  service_name = "AstroJournal";
  client_file_id = none;
  created_at = seconds 20;
}

-- taken by a worker at second 30
abbrev pub running_upload : UploadJob
running_upload = record gallery_upload {
  id = 3;
  job_id = "job-3";
  status = UploadJobStatus.processing;
  client_file_id = none;
  started_at = some (seconds 30);
  processing_log = some (codes "CLAIMED worker=w1\\nSTART\\n");
}

abbrev pub failed_upload : UploadJob
failed_upload = record gallery_upload {
  id = 4;
  job_id = "job-4";
  status = UploadJobStatus.failed;
  client_file_id = none;
  retry_count = 1;
  error_message = some (codes "no disk");
  started_at = some (seconds 5);
  completed_at = some (seconds 6);
}

abbrev pub uploads : List UploadJob
uploads = gallery_upload ∷ sky_upload ∷ running_upload ∷ failed_upload ∷ []

abbrev pub upload_table : UploadTable
upload_table = record { rows = uploads; next_id = 5 }

abbrev pub tagging : VisionJob
tagging = record {
  id = 1;
  file_id = 7;
  priority = 70;
  status = VisionJobStatus.waiting;
  retry_count = 0;
  vision_provider = google;
  requested_at = some (seconds 10);
  started_at = none;
  completed_at = none;
  last_error = none;
  deleted = false;
}

abbrev pub running_vision : VisionJob
running_vision = record tagging {
  id = 2;
  file_id = 8;
  status = VisionJobStatus.processing;
  started_at = some (seconds 20);
}

abbrev pub visions : List VisionJob
visions = tagging ∷ running_vision ∷ []

abbrev pub vision_table : VisionTable
vision_table = record { rows = visions; next_id = 3 }

-- a photo with a stored file and no place
abbrev pub photo : UploadContext
photo = record {
  common_file = some (9, some (seconds 100));
  media = some image;
  has_preview = true;
  has_gps = false;
  during = λ t. t;
}
