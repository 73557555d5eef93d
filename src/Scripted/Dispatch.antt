-- ===== src/Scripted/Dispatch.antt =====
-- The dispatch of read requests in ScriptedSessionProvider of src/uboot_tftp/scripted.py: a request
-- for a file, the start of a session, and its continuation under the token that was handed out.
use openipc_tftp.Common.{
  ℕ, Bool, true, false, ◌||◌, List, [], ◌∷◌, Option, none, some, Result, ok, err, value_error,
  file_not_found, type_error, index_error, if◌then◌else◌, foldl, guard,
}
use openipc_tftp.Common.Text.{Text, Bytes, codes, text_eq, lower}
use openipc_tftp.Common.Stateful.{Action, pure, lift, ◌>>=◌, ◌>>◌}
use openipc_tftp.Common.Dict
use openipc_tftp.Common.Dict.{Dict}
use openipc_tftp.Protocol.{ParsedPath, parse_request_path}
use openipc_tftp.Sessions
use openipc_tftp.Sessions.{
  ClientSession, PendingReceive, await_rrq, await_upload, complete, record_rrq,
}
use openipc_tftp.Uploads.{token_is}
use openipc_tftp.Scripted.Setting.{
  ContentRequest, ContentResult, ScriptRoute, DaemonConfig, Handler, created, Entry, not_callable,
  not_async, async_function, Setting, Provider,
}
use openipc_tftp.Scripted.Texts.{
  hush_probe_script, hush_failure_script, command_from_segments, session_env, public_env, is_hidden,
  append_continue,
}
use openipc_tftp.Scripted.Answers.{
  in_sessions, save, renew_session, new_token, compiled, discard_session, end_session,
  static_result, awaiting_rrq, advance_session,
}

-- `"token" in parsed.values`
abbrev pub is_continuation : ParsedPath → Bool
is_continuation parsed = Dict.has_key parsed.values (codes "token")

unfoldable pub merge_value : {H : Type 0} → ClientSession H → Text × Text → ClientSession H
unfolding is_hidden
merge_value session (key, value) =
    if text_eq key (codes "token") || text_eq key (codes "recv") then session else record session {
      env = Dict.put session.env key value;
      public_env =
          if is_hidden key then session.public_env else Dict.put session.public_env key value;
    }

unfoldable pub merge_continuation_values :
    {H : Type 0} → ClientSession H → ParsedPath → ClientSession H
unfolding merge_value
merge_continuation_values session parsed = foldl merge_value session parsed.values

unfoldable pub route_for : DaemonConfig → Text → ScriptRoute
route_for config client_id = elim (Dict.get config.routes (lower client_id)) [
  | some route ↦ route
  | none ↦ config.default_route
]

abbrev first_request : List ParsedPath → Result ParsedPath
first_request [] = err index_error
first_request (parsed ∷ rest) = ok parsed

abbrev pub recv_status_of : ParsedPath → Text
recv_status_of parsed = elim (Dict.get parsed.values (codes "recv")) [
  | some status ↦ status
  | none ↦ codes "failed"
]

-- The bytes that are sent into the handler after an upload.
abbrev pub uploaded_if : Bool → PendingReceive → Option Bytes
uploaded_if true pending = pending.uploaded
uploaded_if false pending = none

module _ {H : Type 0} (setting : Setting H) (now : ℕ) where
  -- `_preflight_result`
  unfoldable pub preflight_result : ClientSession (Handler H) → Action (Provider H) ContentResult
  unfolding new_token compiled append_continue hush_probe_script
  preflight_result session = do
    token ← new_token setting now
    let waiting = awaiting_rrq setting now token session
    save waiting
    probe ← lift hush_probe_script
    script ← lift (append_continue probe waiting none (codes "hush_shell" ∷ []))
    lift (compiled setting now script)

  unfoldable pub discard_existing :
      Option (ClientSession (Handler H)) → Action (Provider H) (Unit {0})
  unfolding discard_session
  discard_existing none = pure tt
  discard_existing (some session) = discard_session setting now session

  -- The fields that `_start_session` assigns.
  unfoldable pub started :
      ContentRequest → ParsedPath → ClientSession (Handler H) → ClientSession (Handler H)
  unfolding record_rrq route_for session_env public_env
  started request parsed session =
      let env =
        session_env setting.config.env (route_for setting.config session.client_id).env parsed in
      record (record_rrq now parsed session) {
        server_ip = setting.local_ip request.peer.0;
        env = env;
        public_env = public_env env;
        preflight_pending = true;
      }

  unfoldable pub start_session :
      ContentRequest → ParsedPath → Text → Action (Provider H) ContentResult
  unfolding preflight_result discard_existing started
  start_session request parsed client_id = do
    existing ← in_sessions (λ st. Sessions.get st client_id)
    discard_existing existing
    session ← renew_session now client_id
    save (started request parsed session)
    preflight_result (started request parsed session)

  made_handler : ClientSession (Handler H) → ParsedPath → Entry H → Result (Handler H)
  made_handler session parsed not_callable = err value_error
  made_handler session parsed not_async = err type_error
  made_handler session parsed (async_function f) =
      ok (created (f session.client_id (command_from_segments parsed.segments) session.public_env))

  unfoldable pub create_handler : ClientSession (Handler H) → Result (Handler H)
  unfolding made_handler route_for
  create_handler session = with_first (first_request session.requests)
    where
      with_first : Result ParsedPath → Result (Handler H)
      with_first (err e) = err e
      with_first (ok parsed) =
          made_handler session parsed
            (setting.entry (route_for setting.config session.client_id).entry_func)

  is_true : Option Text → Bool
  is_true none = false
  is_true (some value) = text_eq value (codes "true")

  abbrev handler_of : Option (Handler H) → Result (Handler H)
  handler_of none = err file_not_found
  handler_of (some handler) = ok handler

  -- The value that is sent, and the session it leaves.
  unfoldable pub sends :
      ParsedPath
      → ClientSession (Handler H)
      → Option PendingReceive
      → ClientSession (Handler H) × Option Bytes
  sends parsed session none = (session, none)
  sends parsed session (some pending) = (
    record session { pending_receive = none },
    uploaded_if (text_eq (recv_status_of parsed) (codes "ok")) pending,
  )

  -- The end of `_resume_session`.
  unfoldable pub resume_handler :
      ParsedPath → ClientSession (Handler H) → Action (Provider H) ContentResult
  unfolding sends advance_session
  resume_handler parsed session = do
    handler ← lift (handler_of session.handler)
    let (session', value) = sends parsed session session.pending_receive
    save session'
    advance_session setting now session' handler value

  -- The first continuation tells whether the shell is a hush shell.
  unfoldable pub after_preflight :
      ParsedPath → ClientSession (Handler H) → Bool → Action (Provider H) ContentResult
  unfolding discard_session compiled hush_failure_script create_handler resume_handler
  after_preflight parsed session false = do
    end_session setting now session
    script ← lift hush_failure_script
    lift (compiled setting now script)
  after_preflight parsed session true = do
    handler ← lift (create_handler session)
    save (record session { handler = some handler })
    resume_handler parsed (record session { handler = some handler })

  unfoldable pub continue_session :
      ParsedPath → ClientSession (Handler H) → Bool → Action (Provider H) ContentResult
  unfolding after_preflight is_true resume_handler
  continue_session parsed session true = do
    let session' = record session { preflight_pending = false }
    save session'
    after_preflight parsed session' (is_true (Dict.get session.env (codes "hush_shell")))
  continue_session parsed session false = resume_handler parsed session

  -- `parsed.values.get("token") != session.current_token`, for a request that has a token.
  abbrev pub token_fits : ParsedPath → ClientSession (Handler H) → Bool
  token_fits parsed session = elim session.current_token [
    | none ↦ false
    | some token ↦ token_is (Dict.get parsed.values (codes "token")) token
  ]

  unfoldable pub continued : ParsedPath → ClientSession (Handler H) → ClientSession (Handler H)
  unfolding merge_continuation_values record_rrq
  continued parsed session = merge_continuation_values (record_rrq now parsed session) parsed

  unfoldable pub resume_session : ParsedPath → Text → Action (Provider H) ContentResult
  unfolding continued continue_session
  resume_session parsed client_id = do
    session ← in_sessions (λ st. Sessions.require st client_id)
    lift (guard (token_fits parsed session) file_not_found)
    save (continued parsed session)
    continue_session parsed (continued parsed session) session.preflight_pending

  unfoldable pub fetch_parsed :
      ContentRequest → ParsedPath → Option Text → Bool → Action (Provider H) ContentResult
  unfolding static_result resume_session start_session
  fetch_parsed request parsed none continues = static_result setting now parsed.path
  fetch_parsed request parsed (some client_id) true = resume_session parsed client_id
  fetch_parsed request parsed (some client_id) false = start_session request parsed client_id

  unfoldable pub fetch : ContentRequest → Action (Provider H) ContentResult
  unfolding fetch_parsed
  fetch request = do
    parsed ← lift (parse_request_path request.filename)
    fetch_parsed request parsed parsed.client_id (is_continuation parsed)
