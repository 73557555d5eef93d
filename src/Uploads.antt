-- ===== src/Uploads.antt =====
-- src/uboot_tftp/uploads.py: uploads that a session waits for are captured in memory. The sessions
-- are shared with the provider, so `record` returns them with the received bytes in place.
pub mod Capture
use openipc_tftp.Common.{
  ℕ, Bool, true, false, not, ◌&&◌, List, [], ◌∷◌, ◌++◌, Option, none, some, Result, ok, err,
  file_not_found, ◌>>=◌, if◌then◌else◌, length,
}
use openipc_tftp.Common.Text.{Text, Bytes, codes, text_eq, ends_with}
use openipc_tftp.Common.Dict
use openipc_tftp.Common.Dict.{Dict}
use openipc_tftp.Protocol.{ParsedPath, parse_request_path}
use openipc_tftp.Sessions
use openipc_tftp.Sessions.{ClientSession, PendingReceive}

pub record UploadRequest : Type 0 where
  pub filename : Text
  pub peer : Text × ℕ
  pub server_addr : Text × ℕ

pub record UploadedFile : Type 0 where
  pub filename : Text
  pub peer : Text × ℕ
  pub server_addr : Text × ℕ
  pub body : Bytes
  pub created_at : ℕ

pub size : UploadedFile → ℕ
size upload = length upload.body

pub record UploadStore : Type 0 where
  pub uploads : List UploadedFile
  pub by_client_id : Dict (List UploadedFile)

-- `parsed.values.get("token") != pending.token`
abbrev pub token_is : Option Text → Text → Bool
token_is none token = false
token_is (some t) token = text_eq t token

abbrev pub is_expected : ParsedPath → PendingReceive → Bool
is_expected parsed pending =
    ends_with pending.upload_path parsed.path
    && token_is (Dict.get parsed.values (codes "token")) pending.token

abbrev pub client_or_static : Option Text → Result Text
client_or_static none = err file_not_found
client_or_static (some client_id) = ok client_id

abbrev pub received : Bytes → PendingReceive → PendingReceive
received body pending = record pending { uploaded = some body }

module _ {H : Type 0} where
  abbrev pub expected_or_refused :
      ParsedPath
      → ClientSession H
      → Option PendingReceive
      → Result (ClientSession H × PendingReceive)
  expected_or_refused parsed session none = err file_not_found
  expected_or_refused parsed session (some pending) =
      if is_expected parsed pending then ok (session, pending) else err file_not_found

  -- The checks that `open` and `record` both make.
  unfoldable pub expect :
      Sessions.Sessions H → Text → Result (Text × ClientSession H × PendingReceive)
  expect sessions filename = do
    parsed ← parse_request_path filename
    client_id ← client_or_static parsed.client_id
    session ← Sessions.require sessions client_id
    found ← expected_or_refused parsed session session.pending_receive
    ok (client_id, found.0, found.1)

pub record CapturingUpload : Type 0 where
  pub request : UploadRequest
  pub captured : Bool
  pub written : Bytes

abbrev pub listed : Option (List UploadedFile) → List UploadedFile
listed none = []
listed (some l) = l

-- `self.uploads.append(upload)` and `self.by_client_id.setdefault(id, []).append(upload)`
unfoldable pub append_upload : UploadStore → Text → UploadedFile → UploadStore
append_upload store client_id upload = record {
  uploads = store.uploads ++ upload ∷ [];
  by_client_id =
      Dict.put store.by_client_id client_id
        (listed (Dict.get store.by_client_id client_id) ++ upload ∷ []);
}

-- `_CapturingUpload.write`, as io.BytesIO at its end does it.
abbrev pub write : CapturingUpload → Bytes → CapturingUpload
write upload chunk = record upload { written = upload.written ++ chunk }

module _ {H : Type 0} where
  unfoldable pub open_upload : Sessions.Sessions H → UploadRequest → Result CapturingUpload
  unfolding expect
  open_upload sessions request = do
    _ ← expect sessions request.filename
    ok (record { request = request; captured = false; written = [] })

  unfoldable pub record_upload :
      ℕ
      → Sessions.Sessions H
      → UploadStore
      → UploadRequest
      → Bytes
      → Result (Sessions.Sessions H × UploadStore)
  unfolding expect append_upload
  record_upload now sessions store request body = do
    (client_id, session, pending) ← expect sessions request.filename
    ok (
      Sessions.save sessions (record session { pending_receive = some (received body pending) }),
      append_upload store client_id (record {
        filename = request.filename;
        peer = request.peer;
        server_addr = request.server_addr;
        body = body;
        created_at = now;
      }),
    )

  abbrev pub store_once :
      Bool
      → ℕ
      → Sessions.Sessions H
      → UploadStore
      → CapturingUpload
      → Result (Sessions.Sessions H × UploadStore × CapturingUpload)
  store_once true now sessions store upload = ok (sessions, store, upload)
  store_once false now sessions store upload = do
    stored ← record_upload now sessions store upload.request upload.written
    ok (stored.0, stored.1, record upload { captured = true })

  -- `_CapturingUpload.close`
  unfoldable pub close :
      ℕ
      → Sessions.Sessions H
      → UploadStore
      → CapturingUpload
      → Result (Sessions.Sessions H × UploadStore × CapturingUpload)
  close now sessions store upload = store_once upload.captured now sessions store upload
