-- ===== src/Scripted/Tests.antt =====
-- Runs of the theorems about the provider at concrete inputs.
use openipc_tftp.Common.{
  true, ℕ, ◌≡◌, refl, inl, inr, false, [], ◌∷◌, none, some, ok, err, file_not_found, arith, map,
}
use openipc_tftp.Common.Text.{
  Text, Bytes, codes, text_eq, strip, split_on, partition, join, lower, has_char-Lacks,
}
use openipc_tftp.Common.Dict
use openipc_tftp.Protocol.{ParsedPath, parse_request_path, unquote}
use openipc_tftp.Protocol.ClientId.{IsClientId, IsTail}
use openipc_tftp.Protocol.Print.{printed}
use openipc_tftp.Sessions
use openipc_tftp.Sessions.{ClientSession, PendingReceive, new_session}
use openipc_tftp.Sessions.Store.{IsKeyed, IsKeyed-empty, save-IsKeyed}
use openipc_tftp.Image.{default_compiler}
use openipc_tftp.Uploads.Capture.{Awaits}
use openipc_tftp.Scripted.Setting.{
  ContentRequest, ExecutionRequest, Handler, created, in_exec, Run, awaits_exec, returns, raises,
  one, async_function, Setting, Provider, calls, env_set,
}
use openipc_tftp.Scripted.Running.{yielded, send, Play}
use openipc_tftp.Scripted.Texts.{normalize_return_keys, continue_path, upload_remote}
use openipc_tftp.Scripted.Answers.{after_send, awaiting_upload, result_from_instruction}
use openipc_tftp.Scripted.Dispatch.{fetch}
use openipc_tftp.Scripted.Refusals.{fetch_static, wrong_token, Answers}
use openipc_tftp.Scripted.Requests.{fetch_others}
use openipc_tftp.Scripted.Paths.{continuation_read, pair}
use openipc_tftp.Scripted.Receives.{receive_accepted}
use openipc_tftp.Scripted.Lifecycle.{StartsAfresh, start-StartsAfresh, ended_session}
use openipc_tftp.Scripted.Overrides.{token_overridden}
use openipc_tftp.Scripted.Untouched.{Untouched, send-Untouched}

-- A handler that prints `echo hi`, and ends when it is resumed.
abbrev says_hi : Run ℕ
says_hi = awaits_exec (one (codes "echo hi")) false [] (λ e. raises e) 0

abbrev setting : Setting ℕ
setting = record {
  config = record {
    env = (codes "rambase", codes "baseaddr") ∷ (codes "cmdtftp", codes "tftpboot") ∷ [];
    routes = [];
    default_route = record { entry_func = codes "main"; env = [] };
  };
  static_root = codes "srv" ∷ [];
  compiler = default_compiler;
  entry = λ name. async_function (λ id command env. says_hi);
  resume = λ h value. returns;
  token_urlsafe = λ n. codes "tok";
  token_hex = λ n. codes "00";
  local_ip = λ peer. codes "10.0.0.1";
  digest = λ key. key;
}

abbrev cam : Text
cam = codes "cam"

cam-IsClientId : IsClientId cam
cam-IsClientId = (inl (omega arith, omega arith), am)
  where
    am : IsTail (codes "am")
    am = inl (inl (omega arith, omega arith), inl (inl (omega arith, omega arith), tt))

abbrev session : ClientSession (Handler ℕ)
session = record (new_session 0 cam) {
  current_token = some (codes "tok");
  handler = some (in_exec 0);
}

abbrev provider : Provider ℕ
provider = record {
  sessions = (cam, session) ∷ [];
  jobs = record { temp_root = []; artifacts = []; threads = [] };
  files = record { link = λ p. none; file = λ p. none; is_dir = λ p. false };
  drawn = 1;
}

provider-IsKeyed : IsKeyed provider.sessions
unfolding Sessions.save Dict.put
provider-IsKeyed = save-IsKeyed [] session cam-IsClientId IsKeyed-empty

abbrev asks : Text → ContentRequest
asks name = record { filename = name; peer = (codes "10.0.0.2", 69) }

abbrev served : Bytes
served = 1 ∷ 2 ∷ []

abbrev serves_f : Provider ℕ
serves_f = record provider {
  files = record { link = λ p. none; file = λ p. some served; is_dir = λ p. false };
}

fetch_static_example :
    Answers setting 5
      (asks (codes "/f"))
      serves_f
      (codes "/f")
      (fetch setting 5 (asks (codes "/f")) serves_f)
unfolding parse_request_path strip split_on text_eq partition unquote join
fetch_static_example = fetch_static setting 5 (asks (codes "/f")) serves_f _ refl refl

wrong_token_example :
    fetch setting 5 (asks (codes "id=cam/token=x")) provider ≡ (err file_not_found, provider)
unfolding parse_request_path strip split_on text_eq partition unquote lower join Dict.has_key
    Dict.put Dict.get
wrong_token_example =
    wrong_token setting 5 (asks (codes "id=cam/token=x")) provider
      (printed cam (codes "token=x" ∷ [])) cam refl refl cam-IsClientId refl
      (inr (session, refl, inr (codes "tok", refl, λ e. cc)))

fetch_others_example :
    IsKeyed (fetch setting 5 (asks (codes "id=a/go")) provider).1.sessions
    × ((j : Text)
        → text_eq (codes "a") j ≡ false
        → Dict.get (fetch setting 5 (asks (codes "id=a/go")) provider).1.sessions j
          ≡ Dict.get provider.sessions j)
unfolding parse_request_path strip split_on text_eq partition unquote lower join
fetch_others_example =
    fetch_others setting 5 (asks (codes "id=a/go")) provider (printed (codes "a") (codes "go" ∷ []))
      (codes "a") refl refl provider-IsKeyed

continuation_read_example :
    (parsed : ParsedPath) × (parse_request_path (
        join (codes "/") (
          continue_path cam (codes "t") (some (codes "ok"))
          ∷ map pair ((codes "n", codes "1") ∷ [])))
      ≡ ok parsed)
    × (parsed.client_id ≡ some cam)
    × (Dict.get parsed.values (codes "token") ≡ some (codes "t"))
    × (Dict.get parsed.values (codes "recv") ≡ some (codes "ok"))
unfolding text_eq
continuation_read_example =
    continuation_read cam (codes "t") (some (codes "ok")) ((codes "n", codes "1") ∷ [])
      cam-IsClientId (has_char-Lacks b'/' (codes "t") refl, has_char-Lacks b'%' (codes "t") refl)
      (has_char-Lacks b'/' (codes "ok") refl, has_char-Lacks b'%' (codes "ok") refl)
      (
        (
          (λ e. cc),
          (has_char-Lacks b'/' (codes "n") refl, has_char-Lacks b'%' (codes "n") refl),
          has_char-Lacks b'=' (codes "n") refl,
          (has_char-Lacks b'/' (codes "1") refl, has_char-Lacks b'%' (codes "1") refl),
        ),
        tt,
      )
      (refl, tt) (refl, tt)

abbrev wants_four : ExecutionRequest
wants_four = record {
  script = codes "echo up";
  final = false;
  receive_size = some 4;
  return_keys = [];
  receive_offset = none;
}

receive_accepted_example :
    (pending : PendingReceive) × (pending.size ≡ 4)
    × (pending.token ≡ codes "tok")
    × Awaits
        (result_from_instruction setting 5 session wants_four provider).1.sessions
        (upload_remote cam pending)
        cam
        (awaiting_upload setting 5 (codes "tok") 4 session)
        pending
receive_accepted_example =
    receive_accepted setting 5 session wants_four 4 provider cam-IsClientId refl
      (has_char-Lacks b'/' (codes "tok") refl, has_char-Lacks b'%' (codes "tok") refl)

abbrev played : Play ℕ
played =
    send setting 5 (created (calls (env_set (codes "a") (codes "b")) (λ answer. says_hi))) none
      session provider

send-Untouched_example : Untouched session played.session provider played.provider
send-Untouched_example =
    send-Untouched setting 5 (created (calls (env_set (codes "a") (codes "b")) (λ answer. says_hi)))
      none session provider

start-StartsAfresh_example :
    (s : ClientSession (Handler ℕ)) × (Dict.get
        (fetch setting 5 (asks (codes "id=cam/go")) provider).1.sessions
        cam
      ≡ some s)
    × StartsAfresh (printed cam (codes "go" ∷ [])) (codes "tok") s
unfolding parse_request_path strip split_on text_eq partition unquote lower join Dict.has_key
start-StartsAfresh_example =
    start-StartsAfresh setting 5 (asks (codes "id=cam/go")) (printed cam (codes "go" ∷ [])) cam
      provider refl refl refl provider-IsKeyed

abbrev last_script : ExecutionRequest
last_script = record wants_four { final = true; receive_size = none }

ended_session_example :
    Dict.get (after_send setting 5 session (yielded last_script) provider).1.sessions cam ≡ none
ended_session_example =
    ended_session setting 5 session (yielded last_script) provider cam-IsClientId (refl, refl)

token_overridden_example :
    (normalize_return_keys (codes "token" ∷ []) ≡ ok (codes "token" ∷ []))
    × ((parsed : ParsedPath) × (parse_request_path
            (join (codes "/") (continue_path cam (codes "t") none ∷ pair (codes "token", []) ∷ []))
          ≡ ok parsed)
        × (Dict.get parsed.values (codes "token") ≡ some []))
token_overridden_example =
    token_overridden cam (codes "t") [] cam-IsClientId
      (has_char-Lacks b'/' (codes "t") refl, has_char-Lacks b'%' (codes "t") refl) (tt, tt)
