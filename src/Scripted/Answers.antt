-- ===== src/Scripted/Answers.antt =====
-- What ScriptedSessionProvider of src/uboot_tftp/scripted.py answers with: static files, and the
-- scripts that a handler yields. The session object of the source is shared
-- with the store: here it is handed on as a value, and saved before each call that may raise.
use openipc_tftp.Common.{
  ℕ, ◌+◌, Bool, true, false, List, [], ◌∷◌, Option, none, some, Result, ok, err, file_not_found,
  receive_failed, type_error, runtime_error, length,
}
use openipc_tftp.Common.Text.{is_space, Text, Bytes, codes, rstrip}
use openipc_tftp.Common.Stateful.{Action, pure, raise, lift, modify, ◌>>=◌, ◌>>◌}
use openipc_tftp.Sessions
use openipc_tftp.Sessions.{
  ClientSession, PendingReceive, await_rrq, await_upload, complete, record_rrq,
}
use openipc_tftp.Jobs
use openipc_tftp.Jobs.{JobStore, FilePath}
use openipc_tftp.Files.{resolve_static_path}
use openipc_tftp.Image.{compile_text}
use openipc_tftp.Scripted.Setting.{
  ExecutionRequest, ContentResult, Offset, Handler, Setting, Provider,
}
use openipc_tftp.Scripted.Texts.{
  ensure_newline, subscript, continue_command, append_continue, upload_remote, ReceiveAddress,
  offset_address, receive_text, variable, join_lines,
}
use openipc_tftp.Scripted.Running.{Sent, yielded, yielded_other, stopped, raised, send}

-- `ContentResult.from_bytes`
unfoldable pub from_bytes : Bytes → ContentResult
from_bytes body = record { body = body; size = some (length body); close_body = false }

-- The releases of one session, in the order of its set.
unfoldable pub release_all : ℕ → Text → JobStore → List Text → JobStore
release_all now client_id jobs [] = jobs
release_all now client_id jobs (key ∷ keys) =
    release_all now client_id (Jobs.release now jobs key client_id) keys

module _ {H : Type 0} where
  abbrev pub in_sessions :
      {A : Type 0} → (Sessions.Sessions (Handler H) → Result A) → Action (Provider H) A
  in_sessions call p = (call p.sessions, p)

  abbrev pub set_sessions : Sessions.Sessions (Handler H) → Provider H → Provider H
  set_sessions sessions p = record p { sessions = sessions }

  abbrev pub replaced :
      Result (ClientSession (Handler H) × Sessions.Sessions (Handler H))
      → Provider H
      → Result (ClientSession (Handler H)) × Provider H
  replaced (err e) p = (err e, p)
  replaced (ok (session, sessions)) p = (ok session, set_sessions sessions p)

  -- `self.sessions.replace(client_id)`
  abbrev pub renew_session : ℕ → Text → Action (Provider H) (ClientSession (Handler H))
  renew_session now client_id p = replaced (Sessions.replace now p.sessions client_id) p

  abbrev pub dropped :
      Result (Sessions.Sessions (Handler H)) → Provider H → Result (Unit {0}) × Provider H
  dropped (err e) p = (err e, p)
  dropped (ok sessions) p = (ok tt, set_sessions sessions p)

  -- `self.sessions.discard(client_id)`
  abbrev pub drop_session : Text → Action (Provider H) (Unit {0})
  drop_session client_id p = dropped (Sessions.discard p.sessions client_id) p

  -- The assignments to fields of a session, as the store sees them.
  abbrev pub save : ClientSession (Handler H) → Action (Provider H) (Unit {0})
  save session = modify λ p. set_sessions (Sessions.save p.sessions session) p

module _ {H : Type 0} (setting : Setting H) (now : ℕ) where
  unfoldable pub new_token : Action (Provider H) Text
  new_token p = (ok (setting.token_urlsafe p.drawn), record p { drawn = p.drawn + 1 })

  unfoldable pub compiled : Text → Result ContentResult
  unfolding from_bytes ensure_newline
  compiled script = from_result (compile_text setting.compiler now (ensure_newline script))
    where
      from_result : Result Bytes → Result ContentResult
      from_result (err e) = err e
      from_result (ok body) = ok (from_bytes body)

  unfoldable pub discard_session : ClientSession (Handler H) → Action (Provider H) (Unit {0})
  unfolding release_all
  discard_session session = do
    modify
        λ p. record p { jobs = release_all now session.client_id p.jobs session.download_artifacts }
    drop_session session.client_id

  -- `phase = "complete"`, then `_discard_session`
  abbrev pub end_session : ClientSession (Handler H) → Action (Provider H) (Unit {0})
  end_session session = discard_session (record session { phase = complete })

  unfoldable pub static_file : Provider H → Result (Option FilePath) → Result ContentResult
  unfolding from_bytes
  static_file p (err e) = err e
  static_file p (ok none) = err file_not_found
  static_file p (ok (some path)) = elim (p.files.file path) [
    | some body ↦ ok (from_bytes body)
    | none ↦ err file_not_found
  ]

  unfoldable pub static_result : Text → Action (Provider H) ContentResult
  unfolding static_file
  static_result path p = (static_file p (resolve_static_path p.files setting.static_root path), p)

  -- `_receive_address`
  unfoldable pub receive_address :
      ClientSession (Handler H) → Option Offset → Action (Provider H) ReceiveAddress
  unfolding variable offset_address subscript
  receive_address session none = do
    rambase ← lift (subscript session.env (codes "rambase"))
    pure (record { upload_address = variable rambase; prelude = []; cleanup = [] })
  receive_address session (some offset) = do
    random ← λ p. (ok (setting.token_hex p.drawn), record p { drawn = p.drawn + 1 })
    rambase ← lift (subscript session.env (codes "rambase"))
    pure (offset_address rambase random offset)

  abbrev pending_of : Option PendingReceive → Result PendingReceive
  pending_of none = err runtime_error
  pending_of (some pending) = ok pending

  unfoldable pub append_receive :
      Text → ClientSession (Handler H) → List Text → Option Offset → Action (Provider H) Text
  unfolding receive_address continue_command upload_remote subscript join_lines
  append_receive script session return_keys offset = do
    pending ← lift (pending_of session.pending_receive)
    success ← lift (continue_command session (some (codes "ok")) return_keys)
    failure ← lift (continue_command session (some (codes "failed")) return_keys)
    address ← receive_address session offset
    cmdtftpput ← lift (subscript session.env (codes "cmdtftpput"))
    let receive =
        receive_text cmdtftpput address pending.size session.server_ip
          (upload_remote session.client_id pending) success failure
    pure (join_lines (script ∷ address.prelude ∷ receive ∷ address.cleanup ∷ []))

  abbrev pub upload_path : Text
  upload_path = codes "/upload.bin"

  abbrev pub awaiting_upload : Text → ℕ → ClientSession (Handler H) → ClientSession (Handler H)
  awaiting_upload token size session = record session {
    current_token = some token;
    pending_receive =
        some (record { token = token; upload_path = upload_path; size = size; uploaded = none });
    phase = await_upload;
  }

  abbrev pub awaiting_rrq : Text → ClientSession (Handler H) → ClientSession (Handler H)
  awaiting_rrq token session = record session { current_token = some token; phase = await_rrq }

  -- The script of an instruction with the commands that fetch the next one.
  unfoldable pub instruction_script :
      ClientSession (Handler H)
      → ExecutionRequest
      → Text
      → Option ℕ
      → Bool
      → Action (Provider H) Text
  unfolding append_receive append_continue new_token discard_session
  instruction_script session instruction script (some size) final = do
    token ← new_token
    let waiting = awaiting_upload token size session
    save waiting
    append_receive script waiting instruction.return_keys instruction.receive_offset
  instruction_script session instruction script none true = do end_session session; pure script
  instruction_script session instruction script none false = do
    token ← new_token
    let waiting = awaiting_rrq token session
    save waiting
    lift (append_continue script waiting none instruction.return_keys)

  unfoldable pub result_from_instruction :
      ClientSession (Handler H) → ExecutionRequest → Action (Provider H) ContentResult
  unfolding instruction_script compiled
  result_from_instruction session instruction = do
    script ←
        instruction_script session instruction (rstrip is_space instruction.script)
          instruction.receive_size instruction.final
    lift (compiled script)

  -- What `_advance_session` does with what `send` ends with.
  unfoldable pub after_send : ClientSession (Handler H) → Sent → Action (Provider H) ContentResult
  unfolding result_from_instruction discard_session
  after_send session (yielded instruction) = result_from_instruction session instruction
  after_send session yielded_other = raise type_error
  after_send session stopped = do end_session session; raise file_not_found
  after_send session (raised receive_failed) = do end_session session; raise file_not_found
  after_send session (raised e) = raise e

  -- `_advance_session`; the handler's part runs before its session is saved, and sees no store of
  -- sessions.
  unfoldable pub advance_session :
      ClientSession (Handler H) → Handler H → Option Bytes → Action (Provider H) ContentResult
  unfolding after_send send
  advance_session session handler send_value p =
      let played = send setting now handler send_value session p in
      let session' = record played.session { handler = some played.handler } in
      (do save session'; after_send session' played.sent) played.provider
