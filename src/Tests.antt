-- ===== src/Tests.antt =====
-- Runs of the theorems at concrete inputs: client ids, request paths, sessions, uploads, download
-- jobs, script images, terminal texts and paths.
use openipc_tftp.Common.{
  ℕ, ◌≡◌, refl, ◌↔◌, ◌⊎◌, inl, true, false, List, [], ◌∷◌, none, some, ok, err, value_error, arith,
  foldl, any_of,
}
use openipc_tftp.Common.Text.{
  Text, Bytes, codes, text_eq, lower, strip, split_on, partition, join, lstrip, ends_with,
}
use openipc_tftp.Common.Dict
use openipc_tftp.Common.TextSet
use openipc_tftp.Jobs
use openipc_tftp.Protocol.{normalize_client_id, parse_request_path, unquote}
use openipc_tftp.Protocol.ClientId.{IsClientId, IsTail, normalize_iff}
use openipc_tftp.Protocol.Print.{parse-print_path, print_path, printed}
use openipc_tftp.Protocol.Sound.{parse-IsWellFormed, IsWellFormed}
use openipc_tftp.Sessions
use openipc_tftp.Sessions.{ClientSession, new_session}
use openipc_tftp.Sessions.Store.{
  replace', run, run-Refines, Refines, IsKeyed, IsKeyed-empty, save-IsKeyed,
}
use openipc_tftp.Uploads.{UploadRequest, UploadStore, CapturingUpload, write, close, open_upload}
use openipc_tftp.Uploads.Capture.{Records, open_write-close}
use openipc_tftp.Jobs.{path_eq, JobStore, snapshot, Acquire, ArtifactEntry, acquire}
use openipc_tftp.Jobs.Thread.{here, later, Step, acquires, ends, completes, end_download}
use openipc_tftp.Jobs.Changes.{IsSound}
use openipc_tftp.Jobs.Invariant.{IsSound-empty, Reach-IsSound}
use openipc_tftp.Jobs.History.{Later, Reach-Later}
use openipc_tftp.Image.{default_compiler, compile, extract_script_payload}
use openipc_tftp.Image.Verify.{verifies, compile_lem}
use openipc_tftp.Files.{
  Files, resolve, resolve_static_path, resolve_disk_upload_path, relative, parts, is_below,
}
use openipc_tftp.Files.Confined.{Below, static-Below, disk_upload-Below}

abbrev cam : Text
cam = codes "cam"

normalize_iff_example :
    (normalize_client_id (codes "Cam") ≡ ok cam) ↔ ((cam ≡ lower (codes "Cam")) × IsClientId cam)
normalize_iff_example = normalize_iff (codes "Cam") cam

parse-print_path_example :
    parse_request_path (print_path (codes "a") (codes "t=1" ∷ []))
    ≡ ok (printed (codes "a") (codes "t=1" ∷ []))
parse-print_path_example =
    parse-print_path (codes "a") (codes "t=1" ∷ []) (inl (omega arith, omega arith), tt)
      (
        (
          (λ e. cc),
          (omega arith, (omega arith, (omega arith, tt))),
          (omega arith, (omega arith, (omega arith, tt))),
        ),
        tt,
      )

parse-IsWellFormed_example :
    IsWellFormed
      (codes "id=cam/flash/a=b")
      (printed (codes "cam") (codes "flash" ∷ codes "a=b" ∷ []))
unfolding parse_request_path strip split_on text_eq partition unquote lower join
parse-IsWellFormed_example = parse-IsWellFormed (codes "id=cam/flash/a=b") refl

run-Refines_example :
    ((store' : Sessions.Sessions ℕ) × (run {H = ℕ} 7 [] (replace' (codes "Cam")) ≡ ok store')
      × Refines 7 [] (replace' (codes "Cam")) store')
    ⊎ ((run {H = ℕ} 7 [] (replace' (codes "Cam")) ≡ err value_error)
        × (¬ IsClientId (lower (codes "Cam"))))
run-Refines_example = run-Refines {H = ℕ} 7 [] (replace' (codes "Cam")) IsKeyed-empty

abbrev waiting : ClientSession ℕ
waiting = record (new_session 0 cam) {
  pending_receive =
      some (record {
        token = codes "t";
        upload_path = codes "/upload.bin";
        size = 4;
        uploaded = none;
      });
}

abbrev one_waits : Sessions.Sessions ℕ
one_waits = (cam, waiting) ∷ []

abbrev upload_request : UploadRequest
upload_request = record {
  filename = codes "id=cam/token=t/upload.bin";
  peer = (codes "10.0.0.2", 69);
  server_addr = (codes "10.0.0.1", 69);
}

abbrev opened : CapturingUpload
opened = record { request = upload_request; captured = false; written = [] }

abbrev chunks : List Bytes
chunks = (1 ∷ 2 ∷ []) ∷ (3 ∷ 4 ∷ []) ∷ []

abbrev no_uploads : UploadStore
no_uploads = record { uploads = []; by_client_id = [] }

one_waits-IsKeyed : IsKeyed one_waits
unfolding Sessions.save Dict.put
one_waits-IsKeyed = save-IsKeyed [] waiting (inl (omega arith, omega arith), cam_tail) IsKeyed-empty
  where
    cam_tail : IsTail (codes "am")
    cam_tail = inl (inl (omega arith, omega arith), inl (inl (omega arith, omega arith), tt))

open_write-close_example :
    (r : Sessions.Sessions ℕ × UploadStore) × (closed : CapturingUpload) × (close 9 one_waits
        no_uploads
        (foldl write opened chunks)
      ≡ ok (r.0, r.1, closed))
    × Records one_waits no_uploads upload_request (1 ∷ 2 ∷ 3 ∷ 4 ∷ []) r
    × ((later : ℕ) (ss : Sessions.Sessions ℕ) (st : UploadStore)
        → close later ss st closed ≡ ok (ss, st, closed))
unfolding open_upload parse_request_path strip split_on text_eq partition unquote lower
    Sessions.require Sessions.get Dict.get ends_with join Dict.put
open_write-close_example =
    open_write-close 9 one_waits no_uploads upload_request chunks opened one_waits-IsKeyed refl

abbrev wanted : Acquire
wanted = record {
  artifact_key = codes "k";
  session_id = cam;
  url = codes "http://h/f";
  relative_path = codes "f";
  final_path = codes "srv" ∷ codes "f" ∷ [];
  page_url = none;
  headers = [];
}

abbrev no_digest : Text → Text
no_digest key = key

abbrev no_jobs : JobStore
no_jobs = record { temp_root = codes "tmp" ∷ []; artifacts = []; threads = [] }

abbrev artifact : ArtifactEntry
artifact = record {
  artifact_key = codes "k";
  url = codes "http://h/f";
  relative_path = codes "f";
  final_path = codes "srv" ∷ codes "f" ∷ [];
  temp_path = codes "tmp" ∷ codes "k-f.part" ∷ [];
  page_url = none;
  headers = [];
  state = Jobs.pending;
  bytes_done = 0;
  bytes_total = none;
  error = none;
  created_at = 1;
  updated_at = 1;
  attached_sessions = cam ∷ [];
}

abbrev downloading : JobStore
downloading = record {
  temp_root = codes "tmp" ∷ [];
  artifacts = (codes "k", artifact) ∷ [];
  threads = codes "k" ∷ [];
}

acquired : acquire no_digest 1 no_jobs wanted ≡ ok (snapshot artifact, downloading)
unfolding acquire Jobs.acquire_entry Dict.get Dict.put Jobs.attach Jobs.new_entry TextSet.add
    Jobs.temp_path_for snapshot
acquired = refl

abbrev ended : JobStore
ended = end_download 2 downloading (codes "k") completes

ends_once : Step no_digest downloading ended
unfolding TextSet.count text_eq
ends_once = ends 2 (codes "k") completes (omega arith)

Reach-IsSound_example : IsSound ended
Reach-IsSound_example =
    Reach-IsSound (later (later here (acquires 1 wanted acquired)) ends_once)
      (IsSound-empty (codes "tmp" ∷ []))

Reach-Later_example : Later ended (codes "k") artifact
unfolding Dict.get text_eq
Reach-Later_example =
    Reach-Later (codes "k") artifact (later here ends_once)
      (Reach-IsSound (later here (acquires 1 wanted acquired)) (IsSound-empty (codes "tmp" ∷ [])))
      refl

compile_lem_example :
    (image : Bytes) × (compile default_compiler 5 (codes "reset\n") ≡ ok image)
    × (verifies image ≡ true)
    × (extract_script_payload image ≡ ok (codes "reset\n"))
compile_lem_example = compile_lem default_compiler 5 (codes "reset\n") (omega arith) (omega arith)

abbrev no_links : Files
no_links = record { link = λ p. none; file = λ p. none; is_dir = λ p. false }

static-Below_example : Below (resolve no_links (codes "srv" ∷ [])) (codes "srv" ∷ codes "f" ∷ [])
unfolding resolve_static_path path_eq resolve parts split_on lstrip text_eq is_below
static-Below_example = static-Below no_links (codes "srv" ∷ []) (codes "/x/../f") refl

disk_upload-Below_example :
    (Below (resolve no_links (codes "up" ∷ [])) (codes "up" ∷ codes "f" ∷ [])
      ⊎ ((codes "up" ∷ codes "f" ∷ []) ≡ resolve no_links (codes "up" ∷ [])))
    × (any_of (λ w. text_eq w (codes "..")) (relative (codes "/f")) ≡ false)
unfolding resolve_disk_upload_path parts split_on lstrip text_eq is_below resolve
disk_upload-Below_example = disk_upload-Below no_links (codes "up" ∷ []) (codes "/f") refl
