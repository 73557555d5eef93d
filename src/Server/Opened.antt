-- ===== src/Server/Opened.antt =====
-- What the server opens for a write request, and the files that this leaves.
use openipc_tftp.Common.{
  arith, ◌≡◌, ◌≢◌, refl, sym, ap, ◌||◌, Bool, true, false, [], ◌∷◌, ◌++◌, Option, none, some, err,
  os_error, ok, inl, inr, >>=-eq-ok, &&-eq-true, ||-eq-true, Bool-cases, Ensures, Ensures-bind,
  Ensures-value, Ensures-if,
}
use openipc_tftp.Common.Text.{Text, codes, text_eq, text_eq_refl, eq_of_text_eq, ends_with}
use openipc_tftp.Common.Dict
use openipc_tftp.Protocol.{ParsedPath, parse_request_path, is_session}
use openipc_tftp.Sessions
use openipc_tftp.Sessions.{ClientSession, PendingReceive}
use openipc_tftp.Jobs.{FilePath, path_eq}
use openipc_tftp.Files.{Files, resolve, resolve_disk_upload_path, written, has_file_above}
use openipc_tftp.Files.Confined.{Below, disk_upload-Below, path_eq_sound}
use openipc_tftp.Uploads
use openipc_tftp.Uploads.{UploadRequest, CapturingUpload, token_is, expect}
use openipc_tftp.Uploads.Capture.{Awaits, expect-Awaits}
use openipc_tftp.Server.{
  UploadTarget, captured, on_disk, relative_path, open_on_disk, target_of, open_upload,
}

ends_with_lem :
    (suffix s : Text) → ends_with suffix s ≡ true → (before : Text) × (s ≡ before ++ suffix)
unfolding ends_with
ends_with_lem suffix [] h = ([], sym (eq_of_text_eq suffix [] h))
ends_with_lem suffix (c ∷ s) h = elim (||-eq-true (text_eq suffix (c ∷ s)) (ends_with suffix s) h) [
  | inl whole ↦ ([], sym (eq_of_text_eq suffix (c ∷ s) whole))
  | inr later ↦ let (before, e) = ends_with_lem suffix s later in (c ∷ before, ap (◌∷◌ c) e)
]

token_is-eq : (o : Option Text) (t : Text) → token_is o t ≡ true → o ≡ some t
token_is-eq none t h = absurd (cc)
token_is-eq (some u) t h = ap some (eq_of_text_eq u t h)

path_eq_refl : (p : FilePath) → path_eq p p ≡ true
unfolding path_eq
path_eq_refl [] = refl
path_eq_refl (w ∷ p) = rw (text_eq_refl w) (path_eq_refl p)

path_eq_ne : (p q : FilePath) → p ≢ q → path_eq p q ≡ false
path_eq_ne p q n = elim (Bool-cases (path_eq p q)) [
  | inl same ↦ absurd (n (path_eq_sound p q same))
  | inr other ↦ other
]

-- The files with one path emptied, or made.
abbrev pub Emptied : Files → FilePath → Files → Type 0
Emptied fs path after =
    (after.file path ≡ some []) × ((q : FilePath) → q ≢ path → after.file q ≡ fs.file q)

written-Emptied : (fs : Files) (path : FilePath) → Emptied fs path (written fs path [])
unfolding written
written-Emptied fs path = (rw (path_eq_refl path) refl, λ q n. rw (path_eq_ne q path n) refl)

module _ {H : Type 0} (fs : Files) (root : FilePath) (sessions : Sessions.Sessions H)
    (request : UploadRequest) where
  -- A session of the client that the name is parsed to waits for an upload to the end of the
  -- name's path, with the token that the name carries.
  abbrev pub Expects : ParsedPath → Type 0
  Expects parsed =
      (client_id : Text) × (s : ClientSession H) × (pending : PendingReceive) × (before : Text)
      × (parsed.client_id ≡ some client_id)
      × (Dict.get sessions client_id ≡ some s)
      × (s.pending_receive ≡ some pending)
      × (parsed.path ≡ before ++ pending.upload_path)
      × (Dict.get parsed.values (codes "token") ≡ some pending.token)

  -- What is opened for a name that is parsed to a client, and for one that is not.
  abbrev pub Opens : ParsedPath → Bool → UploadTarget × Files → Type 0
  Opens parsed true (captured upload, after) =
      Expects parsed
      × (upload ≡ record { request = request; captured = false; written = [] })
      × (after ≡ fs)
  Opens parsed false (on_disk path, after) =
      Below (resolve fs root) path × (fs.is_dir path ≡ false) × Emptied fs path after
  Opens parsed _ _ = ⊥

  Awaits-Expects :
      (parsed : ParsedPath) (client_id : Text) (s : ClientSession H) (pending : PendingReceive)
      → parse_request_path request.filename ≡ ok parsed
      → Awaits sessions request.filename client_id s pending
      → Expects parsed
  Awaits-Expects parsed client_id s pending h a =
      let same : a.parsed ≡ parsed = cc (h, a.parses) in
      let (path, token) =
        &&-eq-true (ends_with pending.upload_path a.parsed.path)
          (token_is (Dict.get a.parsed.values (codes "token")) pending.token) a.fits in
      let (before, e) = ends_with_lem pending.upload_path a.parsed.path path in
      rw (← same) (
        client_id,
        s,
        pending,
        before,
        a.client,
        a.found,
        a.waits,
        e,
        token_is-eq (Dict.get a.parsed.values (codes "token")) pending.token token,
      )

  capture-Opens :
      (parsed : ParsedPath) (upload : CapturingUpload)
      → parse_request_path request.filename ≡ ok parsed
      → Uploads.open_upload sessions request ≡ ok upload
      → Opens parsed true (captured upload, fs)
  unfolding Uploads.open_upload
  capture-Opens parsed upload h opened =
      let (t, e, q) = >>=-eq-ok (expect sessions request.filename) _ opened in
      let a =
        Ensures-value _ (expect sessions request.filename) (expect-Awaits sessions request.filename)
          e in
      (Awaits-Expects parsed t.0 t.1 t.2 h a, cc, refl)

  disk-Opens :
      (parsed : ParsedPath) (path : FilePath)
      → fs.is_dir (resolve fs root) ≡ true
      → resolve_disk_upload_path fs root request.filename ≡ ok path
      → Ensures (Opens parsed false) (open_on_disk fs path)
  unfolding open_on_disk
  disk-Opens parsed path dir resolved =
      Ensures-if (Opens parsed false) (fs.is_dir path || has_file_above fs [] path) (err os_error)
        (ok (on_disk path, written fs path [])) (λ _. tt)
        λ free.
          let no_dir : fs.is_dir path ≡ false = ground arith in
          (below no_dir, no_dir, written-Emptied fs path)
    where
      below : fs.is_dir path ≡ false → Below (resolve fs root) path
      below no_dir = elim (disk_upload-Below fs root request.filename resolved).0 [
        | inl inside ↦ inside
        | inr same ↦ absurd (cc (no_dir, dir, same))
      ]

  target-Opens :
      (parsed : ParsedPath) (for_session : Bool)
      → fs.is_dir (resolve fs root) ≡ true
      → parse_request_path request.filename ≡ ok parsed
      → Ensures (Opens parsed for_session) (target_of fs root sessions request for_session)
  unfolding target_of
  target-Opens parsed true dir h =
      Ensures-bind (Opens parsed true) (Uploads.open_upload sessions request) _
        λ upload e. capture-Opens parsed upload h e
  target-Opens parsed false dir h =
      Ensures-bind (Opens parsed false) (resolve_disk_upload_path fs root request.filename) _
        λ path e. disk-Opens parsed path dir e

-- A write request whose name, taken relative to the served directory, is parsed to a client is only
-- opened when a session of that client waits for an upload, with a path that the name's path ends in
-- and the token that the name carries: what is opened is an upload in memory, still empty, and no
-- file is touched. A request for no client is only opened at a path strictly below the served
-- directory, where that is a directory, and not at a directory: the file of that path is emptied, and
-- no other one changes.
pub open_upload_lem :
    {H : Type 0} (relpath : Text → Option Text) (fs : Files) (root : FilePath)
    (sessions : Sessions.Sessions H) (given : UploadRequest) {r : UploadTarget × Files}
    → fs.is_dir (resolve fs root) ≡ true
    → open_upload relpath fs root sessions given ≡ ok r
    → (parsed : ParsedPath) × (parse_request_path (relative_path relpath given.filename)
        ≡ ok parsed)
      × Opens fs root sessions
          (record given { filename = relative_path relpath given.filename })
          parsed
          (is_session parsed)
          r
unfolding open_upload
open_upload_lem relpath fs root sessions given dir h =
    let request = record given { filename = relative_path relpath given.filename } in
    let (parsed, e, rest) = >>=-eq-ok (parse_request_path request.filename) _ h in
    (
      parsed,
      e,
      Ensures-value (Opens fs root sessions request parsed (is_session parsed))
          (target_of fs root sessions request (is_session parsed))
          (target-Opens fs root sessions request parsed (is_session parsed) dir e) rest,
    )
