-- ===== src/Jobs/Thread.antt =====
-- `_run_download`, the body of a download thread, and the steps in which it meets the store. What
-- the downloader does outside the lock is its list of progress reports and how it ends.
use openipc_tftp.Common.{
  ℕ, ◌<◌, ◌≡◌, List, [], ◌∷◌, Option, none, some, Result, ok, err, key_error, ◌>>=◌,
}
use openipc_tftp.Common.Text.{Text}
use openipc_tftp.Common.Dict
use openipc_tftp.Common.TextSet
use openipc_tftp.Jobs.{
  ArtifactEntry, DownloadRequest, JobStore, Acquire, done, failed, acquire, release, change_entry,
}

unfoldable pub request_of : ArtifactEntry → DownloadRequest
request_of e = record {
  artifact_key = e.artifact_key;
  url = e.url;
  final_path = e.final_path;
  temp_path = e.temp_path;
  page_url = e.page_url;
  headers = e.headers;
}

abbrev pub request_or : Option ArtifactEntry → Result DownloadRequest
request_or none = err key_error
request_or (some e) = ok (request_of e)

-- `entry = self._artifacts[artifact_key]` and the request that is made of it.
unfoldable pub read_request : JobStore → Text → Result DownloadRequest
read_request store key = request_or (Dict.get store.artifacts key)

unfoldable pub progressed : ℕ → ℕ → Option ℕ → ArtifactEntry → ArtifactEntry
progressed now count total e = record e {
  bytes_done = count;
  bytes_total = total;
  updated_at = now;
}

unfoldable pub finished : ℕ → ArtifactEntry → ArtifactEntry
finished now e = record e { state = done; updated_at = now }

unfoldable pub broken : ℕ → Text → ArtifactEntry → ArtifactEntry
broken now message e = record e { state = failed; error = some message; updated_at = now }

unfoldable pub update_progress : ℕ → JobStore → Text → ℕ → Option ℕ → JobStore
unfolding change_entry progressed
update_progress now store key count total = change_entry store key (progressed now count total)

unfoldable pub mark_done : ℕ → JobStore → Text → JobStore
unfolding change_entry finished
mark_done now store key = change_entry store key (finished now)

unfoldable pub mark_failed : ℕ → JobStore → Text → Text → JobStore
unfolding change_entry broken
mark_failed now store key message = change_entry store key (broken now message)

-- The thread returns.
unfoldable pub end_thread : JobStore → Text → JobStore
end_thread store key = record store { threads = TextSet.discard key store.threads }

pub data Ending : Type 0 where
  completes : Ending
  raises : Text → Ending

unfoldable pub end_download : ℕ → JobStore → Text → Ending → JobStore
unfolding mark_done mark_failed end_thread
end_download now store key completes = end_thread (mark_done now store key) key
end_download now store key (raises message) = end_thread (mark_failed now store key message) key

report_all : ℕ → JobStore → Text → List (ℕ × Option ℕ) → JobStore
unfolding update_progress
report_all now store key [] = store
report_all now store key ((count, total) ∷ reports) =
    report_all now (update_progress now store key count total) key reports

-- A thread that no other call interrupts.
unfoldable pub run_download : ℕ → JobStore → Text → List (ℕ × Option ℕ) → Ending → Result JobStore
unfolding read_request report_all end_download
run_download now store key reports ending = do
  _ ← read_request store key
  ok (end_download now (report_all now store key reports) key ending)

-- One call that holds the lock: of a session, or of the one thread that runs for a key.
pub data Step (digest : Text → Text) : JobStore → JobStore → Type 0 where
  acquires :
      {s : JobStore} (now : ℕ) (a : Acquire) {r : _}
      → acquire digest now s a ≡ ok r
      → Step digest s r.1
  releases :
      {s : JobStore} (now : ℕ) (key session_id : Text)
      → Step digest s (release now s key session_id)
  reports :
      {s : JobStore} (now : ℕ) (key : Text) (count : ℕ) (total : Option ℕ)
      → 0 < TextSet.count key s.threads
      → Step digest s (update_progress now s key count total)
  ends :
      {s : JobStore} (now : ℕ) (key : Text) (ending : Ending)
      → 0 < TextSet.count key s.threads
      → Step digest s (end_download now s key ending)

pub data Reach (digest : Text → Text) (s : JobStore) : JobStore → Type 0 where
  here : Reach digest s s
  later : {t u : JobStore} → Reach digest s t → Step digest t u → Reach digest s u
