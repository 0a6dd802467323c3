-- ===== src/Examples/Watched.antt =====
-- The folder watcher at two files with the same content.
use tc_backend.Watcher.Visits.{process_file_lem, process_files_once, Visited, times_sent}
use tc_backend.Watcher.Sending.{IsTaken}
use tc_backend.Watcher.{
  with_retry, file_lock_retries, has_hash, answered, request_error, attempt_done, os_error, sized,
  Visit, Sent, process_files, process_file,
}
use tc_backend.Watcher.Queue.{
  path_key, run_events-IsWatch, path_finished, path_taken, detected, run_events, IsWatch,
  WatchState,
}
use tc_backend.WorkerStatus.{any}
use tc_backend.Prelude.{false, String, ℕ, ◌≡◌, refl, true, none, some, [], ◌∷◌, ◌==◌, if◌then◌else◌}

abbrev photo : Visit ℕ
photo = record {
  path = "a.jpg";
  extension = "jpg";
  observe = λ _. sized 9;
  hash_attempts = λ n. if n == 0 then os_error else attempt_done "h";
  copy_attempts = λ _. attempt_done "tmp";
  post = λ n. if n == 0 then request_error else answered 200 (some 5);
  now = 3;
  is_readable = true;
  is_writable = true;
  is_removed = true;
}

abbrev nothing_sent : Sent
nothing_sent = record { cache = []; requests = [] }

photo_run : (process_file ("jpg" ∷ []) 3 photo nothing_sent).0 ≡ true
unfolding process_file any
photo_run = refl

again_run :
    (process_files
      ("jpg" ∷ [])
      3
      (photo ∷ record photo { path = "b.jpg" } ∷ [])
      nothing_sent).requests
    ≡ "h" ∷ "h" ∷ []
unfolding process_files any
again_run = refl

process_file_lem_example :
    let (ok, after) = process_file ("jpg" ∷ []) 3 photo nothing_sent in
    Visited ("jpg" ∷ []) 3 photo nothing_sent ok after
process_file_lem_example = process_file_lem ("jpg" ∷ []) 3 photo nothing_sent

-- a cache that cannot be written: the same content is sent again
unwritable_run :
    (process_files
      ("jpg" ∷ [])
      3
      (record photo { is_writable = false } ∷ photo ∷ [])
      nothing_sent).requests
    ≡ "h" ∷ "h" ∷ "h" ∷ "h" ∷ []
unfolding process_files any
unwritable_run = refl

process_files_once_example :
    let done = (process_file ("jpg" ∷ []) 3 photo nothing_sent).1 in
    let after = process_files ("jpg" ∷ []) 3 (record photo { path = "b.jpg" } ∷ []) done in
    (hash : String) × (with_retry file_lock_retries photo.hash_attempts 0 ≡ some hash)
    × (has_hash hash [] ≡ false)
    × IsTaken photo.post 3
    × (has_hash hash after.cache ≡ true)
    × (times_sent hash after ≡ times_sent hash done)
process_files_once_example =
    process_files_once ("jpg" ∷ []) 3 photo (record photo { path = "b.jpg" } ∷ []) nothing_sent
      photo_run

abbrev idle : WatchState
idle = record { pending = []; waiting = []; in_flight = none }

run_events-IsWatch_example : IsWatch (path_key (λ path. some path)) (
    run_events
      (λ path. some path)
      (λ _. "jpg")
      ("jpg" ∷ [])
      (detected "a.jpg" ∷ path_taken ∷ detected "a.jpg" ∷ detected "b.jpg" ∷ path_finished ∷ [])
      idle)
run_events-IsWatch_example =
    run_events-IsWatch (λ path. some path) (λ _. "jpg") ("jpg" ∷ [])
      (detected "a.jpg" ∷ path_taken ∷ detected "a.jpg" ∷ detected "b.jpg" ∷ path_finished ∷ [])
      idle (tt, λ key. refl)
