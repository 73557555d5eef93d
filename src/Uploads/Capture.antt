-- ===== src/Uploads/Capture.antt =====
-- What a captured upload does to the sessions.
use openipc_tftp.Common.{
  ℕ, ◌≡◌, refl, sym, ap, subst, true, false, List, [], ◌∷◌, ◌++◌, Option, none, some, ok, err,
  file_not_found, if◌then◌else◌, >>=-eq-ok, >>=-ok, append_assoc, append-nil, ◌∙◌, Ensures,
  Ensures-bind, Ensures-value, Ensures-if, foldl, flatten,
}
use openipc_tftp.Common.Text.{Text, Bytes, text_eq}
use openipc_tftp.Common.Dict
use openipc_tftp.Common.Dict.{Dict, get-put}
use openipc_tftp.Protocol.{ParsedPath, parse_request_path}
use openipc_tftp.Protocol.ClientId.{IsClientId}
use openipc_tftp.Protocol.Sound.{parse-IsWellFormed, HasValidId}
use openipc_tftp.Sessions
use openipc_tftp.Sessions.{ClientSession, PendingReceive}
use openipc_tftp.Sessions.Store.{IsKeyed, require_found, require_sound, save-IsKeyed}
use openipc_tftp.Uploads.{
  UploadRequest, UploadedFile, UploadStore, CapturingUpload, is_expected, received, expect,
  open_upload, record_upload, write, close, client_or_static, expected_or_refused,
}

id_valid :
    (filename id : Text) (p : ParsedPath)
    → parse_request_path filename ≡ ok p
    → p.client_id ≡ some id
    → IsClientId id
id_valid filename id p e c =
    subst (λ (o : Option Text). HasValidId o p.values) c (parse-IsWellFormed filename e).identified

client_of : (o : Option Text) {id : Text} → client_or_static o ≡ ok id → o ≡ some id
client_of none h = cc
client_of (some client_id) h = cc

module _ {H : Type 0} where
  -- The upload that a name stands for: a session that waits, and the token and path it waits for.
  pub record Awaits (sessions : Sessions.Sessions H) (filename client_id : Text)
      (s : ClientSession H) (pending : PendingReceive) : Type 0 where
    pub parsed : ParsedPath
    pub parses : parse_request_path filename ≡ ok parsed
    pub client : parsed.client_id ≡ some client_id
    pub valid : IsClientId client_id
    pub found : Dict.get sessions client_id ≡ some s
    pub waits : s.pending_receive ≡ some pending
    pub fits : is_expected parsed pending ≡ true

  pub expect_complete :
      (sessions : Sessions.Sessions H) (filename client_id : Text) (s : ClientSession H)
      (pending : PendingReceive)
      → Awaits sessions filename client_id s pending
      → expect sessions filename ≡ ok (client_id, s, pending)
  unfolding expect
  expect_complete sessions filename client_id s pending a = rw a.parses (
      rw a.client
        (rw (require_found sessions client_id s a.valid a.found) (rw a.waits (rw a.fits refl))))

  expected_of :
      (parsed : ParsedPath) (s : ClientSession H) (o : Option PendingReceive)
      {r : ClientSession H × PendingReceive}
      → expected_or_refused parsed s o ≡ ok r
      → (r.0 ≡ s) × (o ≡ some r.1) × (is_expected parsed r.1 ≡ true)
  expected_of parsed s none h = absurd (cc)
  expected_of parsed s (some pending) h =
      Ensures-value P (expected_or_refused parsed s (some pending))
        (Ensures-if P (is_expected parsed pending) (ok (s, pending)) (err file_not_found)
          (λ fits. (refl, refl, fits)) (λ _. tt))
        h
    where
      P : ClientSession H × PendingReceive → Type 0
      P r =
          (r.0 ≡ s)
          × (◌≡◌ {A = Option PendingReceive} (some pending) (some r.1))
          × (is_expected parsed r.1 ≡ true)

  pub expect-Awaits :
      (sessions : Sessions.Sessions H) (filename : Text)
      → Ensures (λ t. Awaits sessions filename t.0 t.1 t.2) (expect sessions filename)
  unfolding expect
  expect-Awaits sessions filename = Ensures-bind P (parse_request_path filename) _ λ parsed parses.
      Ensures-bind P (client_or_static parsed.client_id) _ λ id client.
        let c = client_of parsed.client_id client in
        let v = id_valid filename id parsed parses c in
        Ensures-bind P (Sessions.require sessions id) _ λ s required.
          Ensures-bind P (expected_or_refused parsed s s.pending_receive) _ λ r expected.
            let (same, waits, fits) = expected_of parsed s s.pending_receive expected in
            record {
              parsed = parsed;
              parses = parses;
              client = c;
              valid = v;
              found = require_sound sessions id s v required ∙ ap some (sym same);
              waits = ap (λ (t : ClientSession H). t.pending_receive) same ∙ waits;
              fits = fits;
            }
    where
      P : Text × ClientSession H × PendingReceive → Type 0
      P t = Awaits sessions filename t.0 t.1 t.2

  -- What a recorded upload leaves: the bytes stand in the pending receive of the session that
  -- waited, all else of the sessions is as before, and the upload is listed last.
  pub record Records (sessions : Sessions.Sessions H) (store : UploadStore)
      (request : UploadRequest) (body : Bytes) (r : Sessions.Sessions H × UploadStore)
      : Type 0 where
    pub client_id : Text
    pub session : ClientSession H
    pub pending : PendingReceive
    pub awaits : Awaits sessions request.filename client_id session pending
    pub view :
        (j : Text)
        → Dict.get r.0 j ≡ (
            if text_eq client_id j
            then some (record session { pending_receive = some (received body pending) })
            else Dict.get sessions j)
    pub keyed : IsKeyed r.0
    pub body_last : (u : UploadedFile) × (r.1.uploads ≡ store.uploads ++ u ∷ []) × (u.body ≡ body)

  pub record_upload-Records :
      (now : ℕ) (sessions : Sessions.Sessions H) (store : UploadStore) (request : UploadRequest)
      (body : Bytes)
      → IsKeyed sessions
      → Ensures
          (Records sessions store request body)
          (record_upload now sessions store request body)
  unfolding record_upload Sessions.save
  record_upload-Records now sessions store request body keyed =
      Ensures-bind (Records sessions store request body) (expect sessions request.filename) _ λ t e.
        let a =
          Ensures-value _ (expect sessions request.filename)
            (expect-Awaits sessions request.filename) e in
        let s' : ClientSession H = record (t.1) { pending_receive = some (received body t.2) } in
        let own = keyed.own t.0 t.1 a.found in
        record {
          client_id = t.0;
          session = t.1;
          pending = t.2;
          awaits = a;
          view = λ j. rw (← own.0) (get-put sessions s'.client_id s' j);
          keyed = save-IsKeyed sessions s' (subst IsClientId (sym own.0) a.valid) keyed;
          body_last = (_, refl, refl);
        }

  recorded :
      (now : ℕ) (sessions : Sessions.Sessions H) (store : UploadStore) (request : UploadRequest)
      (body : Bytes) {t : Text × ClientSession H × PendingReceive}
      → expect sessions request.filename ≡ ok t
      → (r : Sessions.Sessions H × UploadStore) × (record_upload now sessions store request body
          ≡ ok r)
  unfolding record_upload
  recorded now sessions store request body {t} e =
      let (client_id, session, pending) = t in (_, >>=-ok (expect sessions request.filename) _ e)

write-foldl :
    (chunks : List Bytes) (upload : CapturingUpload)
    → foldl write upload chunks ≡ record upload { written = upload.written ++ flatten chunks }
write-foldl [] upload = rw append-nil refl
write-foldl (chunk ∷ chunks) upload =
    write-foldl chunks (write upload chunk)
    ∙ rw (append_assoc upload.written chunk (flatten chunks)) refl

opened : UploadRequest → CapturingUpload
opened request = record { request = request; captured = false; written = [] }

module _ {H : Type 0} where
  opened_of :
      (sessions : Sessions.Sessions H) (request : UploadRequest) (upload : CapturingUpload)
      → open_upload sessions request ≡ ok upload
      → (t : Text × ClientSession H × PendingReceive) × (expect sessions request.filename ≡ ok t)
        × (upload ≡ opened request)
  unfolding open_upload opened
  opened_of sessions request upload h =
      let (t, e, q) = >>=-eq-ok (expect sessions request.filename) _ h in (t, e, cc)

  closes :
      (now : ℕ) (sessions : Sessions.Sessions H) (store : UploadStore) (request : UploadRequest)
      (chunks : List Bytes) {r : Sessions.Sessions H × UploadStore}
      → record_upload now sessions store request (flatten chunks) ≡ ok r
      → close now sessions store (foldl write (opened request) chunks)
        ≡ ok (r.0, r.1, record { request = request; captured = true; written = flatten chunks })
  unfolding close opened
  closes now sessions store request chunks e = rw (write-foldl chunks _) (rw e refl)

  -- From sessions that each stand under their own id, an upload that was opened is recorded when
  -- it is closed, with all the bytes that were written in between: they stand in the session that
  -- waited, no other session changes, and the upload is listed last. Closing it once more does
  -- nothing at any later state.
  pub open_write-close :
      (now : ℕ) (sessions : Sessions.Sessions H) (store : UploadStore) (request : UploadRequest)
      (chunks : List Bytes) (upload : CapturingUpload)
      → IsKeyed sessions
      → open_upload sessions request ≡ ok upload
      → (r : Sessions.Sessions H × UploadStore) × (closed : CapturingUpload) × (close now sessions
            store
            (foldl write upload chunks)
          ≡ ok (r.0, r.1, closed))
        × Records sessions store request (flatten chunks) r
        × ((later : ℕ) (ss : Sessions.Sessions H) (st : UploadStore)
            → close later ss st closed ≡ ok (ss, st, closed))
  open_write-close now sessions store request chunks upload keyed h =
      let (t, e, u) = opened_of sessions request upload h in
      let (r, recorded_as) = recorded now sessions store request (flatten chunks) e in
      (
        r,
        record { request = request; captured = true; written = flatten chunks },
        ap (λ up. close now sessions store (foldl write up chunks)) u
            ∙ closes now sessions store request chunks recorded_as,
        Ensures-value (Records sessions store request (flatten chunks))
            (record_upload now sessions store request (flatten chunks))
            (record_upload-Records now sessions store request (flatten chunks) keyed) recorded_as,
        λ later ss st. unfold close in refl,
      )
