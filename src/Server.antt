-- ===== src/Server.antt =====
-- src/uboot_tftp/server.py: what the server opens for a read and for a write request, and the file
-- object that counts a transfer.
pub mod Transfers
pub mod Opened
pub mod Reads
pub mod Tests
use openipc_tftp.Common.{
  ℕ, ◌+◌, Bool, true, false, List, [], ◌∷◌, ◌++◌, Option, none, some, Result, ok, err, Error,
  file_not_found, os_error, ◌||◌, ◌>>=◌, if◌then◌else◌, length,
}
use openipc_tftp.Common.Text.{Text, Bytes}
use openipc_tftp.Protocol.{ParsedPath, parse_request_path, is_session}
use openipc_tftp.Sessions
use openipc_tftp.Files.{Files, resolve_disk_upload_path, written, has_file_above}
use openipc_tftp.Jobs.{FilePath}
use openipc_tftp.Uploads
use openipc_tftp.Uploads.{UploadRequest, CapturingUpload}
use openipc_tftp.Scripted.Setting.{ContentRequest, ContentResult, Handler, Setting, Provider}
use openipc_tftp.Scripted.Dispatch.{fetch}

-- `_TransferLogFile` without its file; `log` are the totals that it has logged.
pub record TransferLog : Type 0 where
  pub expected_size : Option ℕ
  pub count : ℕ
  pub logged : Bool
  pub log : List ℕ

abbrev pub new_log : Option ℕ → TransferLog
new_log expected_size = record {
  expected_size = expected_size;
  count = 0;
  logged = false;
  log = [];
}

-- `read` that returned the chunk, or `write` of it.
unfoldable pub transfer : TransferLog → Bytes → TransferLog
transfer file chunk = record file { count = file.count + length chunk }

abbrev pub total_of : Option ℕ → ℕ → ℕ
total_of none count = count
total_of (some size) count = size

unfoldable pub log_once : TransferLog → Bool → TransferLog
log_once file true = file
log_once file false = record file {
  logged = true;
  log = file.log ++ total_of file.expected_size file.count ∷ [];
}

unfoldable pub close : TransferLog → TransferLog
unfolding log_once
close file = log_once file file.logged

-- What the server sends: the body, and the log of the transfer.
pub record Download : Type 0 where
  pub body : Bytes
  pub log : TransferLog

unfoldable pub opened : {S : Type 0} → Result ContentResult × S → Result (Option Download) × S
opened (ok result, s) = (ok (some (record { body = result.body; log = new_log result.size })), s)
opened (err file_not_found, s) = (ok none, s)
opened (err e, s) = (err e, s)

-- `_open_dynamic_download`
unfoldable pub open_dynamic_download :
    {H : Type 0}
    → Setting H
    → ℕ
    → ContentRequest
    → Provider H
    → Result (Option Download) × Provider H
unfolding opened
open_dynamic_download setting now request p = opened (fetch setting now request p)

pub data UploadTarget : Type 0 where
  captured : CapturingUpload → UploadTarget
  on_disk : FilePath → UploadTarget

-- `_relative_path`, for os.path.relpath, which may raise ValueError, as an argument; a path has
-- slashes already.
abbrev pub relative_path : (Text → Option Text) → Text → Text
relative_path relpath path = elim (relpath path) [ some name ↦ name | none ↦ path ]

-- `disk_path.parent.mkdir(parents=True, exist_ok=True)` and `disk_path.open("w+b")`, which leaves
-- an empty file. A directory of that path, or a file above it, makes them raise OSError.
unfoldable pub open_on_disk : Files → FilePath → Result (UploadTarget × Files)
open_on_disk fs path =
    if fs.is_dir path || has_file_above fs [] path
    then err os_error
    else ok (on_disk path, written fs path [])

unfoldable pub target_of :
    {H : Type 0}
    → Files
    → FilePath
    → Sessions.Sessions H
    → UploadRequest
    → Bool
    → Result (UploadTarget × Files)
unfolding open_on_disk
target_of fs root sessions request true = do
  upload ← Uploads.open_upload sessions request
  ok (captured upload, fs)
target_of fs root sessions request false = do
  path ← resolve_disk_upload_path fs root request.filename
  open_on_disk fs path

-- `_open_upload` of the path that tftpy gives, which stands in the request, and the files that it
-- leaves.
unfoldable pub open_upload :
    {H : Type 0}
    → (Text → Option Text)
    → Files
    → FilePath
    → Sessions.Sessions H
    → UploadRequest
    → Result (UploadTarget × Files)
unfolding target_of
open_upload relpath fs root sessions given = do
  let request = record given { filename = relative_path relpath given.filename }
  parsed ← parse_request_path request.filename
  target_of fs root sessions request (is_session parsed)
