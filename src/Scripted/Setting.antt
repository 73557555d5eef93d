-- ===== src/Scripted/Setting.antt =====
-- What the provider works with: the request that a handler yields, the configuration, the user's
-- script as a parameter, and the state that the calls share. A handler of the user's script is code
-- that is not in the repository; it meets the provider only through the calls of SessionHandle.
use openipc_tftp.Common.{ℕ, Bool, List, Option, Result, Error}
use openipc_tftp.Common.Text.{Text, Bytes}
use openipc_tftp.Common.Dict.{Dict}
use openipc_tftp.Sessions.{Sessions}
use openipc_tftp.Jobs.{FilePath, DownloadArtifact, JobStore}
use openipc_tftp.Files.{Files}
use openipc_tftp.Image.{ScriptCompiler}

-- `int | str`, without negative numbers.
pub data Offset : Type 0 where
  number : ℕ → Offset
  text : Text → Offset

-- `str | Iterable[str]`
pub data Lines : Type 0 where
  one : Text → Lines
  many : List Text → Lines

pub record ExecutionRequest : Type 0 where
  pub script : Text
  pub final : Bool
  pub receive_size : Option ℕ
  pub return_keys : List Text
  pub receive_offset : Option Offset

pub record ContentRequest : Type 0 where
  pub filename : Text
  pub peer : Text × ℕ

-- A result whose body is bytes.
pub record ContentResult : Type 0 where
  pub body : Bytes
  pub size : Option ℕ
  pub close_body : Bool

pub record ScriptRoute : Type 0 where
  pub entry_func : Text
  pub env : Dict Text

pub record DaemonConfig : Type 0 where
  pub env : Dict Text
  pub routes : Dict ScriptRoute
  pub default_route : ScriptRoute

-- The arguments of `SessionHandle.acquire_download`.
pub record Download : Type 0 where
  pub artifact_key : Text
  pub url : Text
  pub destination : Text
  pub page_url : Option Text
  pub headers : Dict Text

-- The calls of a SessionHandle that return at once; `env_set` assigns to `tftp.env[key]`.
pub data Call : Type 0 where
  get_config : Text → Option Text → Call
  env_get : Text → Call
  env_set : Text → Text → Call
  write_file : Text → Bytes → Call
  file_exists : Text → Call
  read_file : Text → Call
  acquire_download : Download → Call
  get_download : Text → Call

pub data Answer : Type 0 where
  done missing : Answer
  a_text : Text → Answer
  a_flag : Bool → Answer
  some_bytes : Bytes → Answer
  a_path : FilePath → Answer
  an_artifact : DownloadArtifact → Answer

-- What a handler does until it is suspended or ends. `awaits_exec` and `awaits_recv` call `exec`
-- and `exec_recv`; they go on at once with the error that the call raises, or are suspended.
pub data Run (H : Type 0) : Type 0 where
  calls : Call → (Result Answer → Run H) → Run H
  awaits_exec : Lines → Bool → List Text → (Error → Run H) → H → Run H
  awaits_recv : Lines → ℕ → Bool → List Text → Option Offset → (Error → Run H) → H → Run H
  awaits_other : H → Run H
  returns : Run H
  raises : Error → Run H

-- A coroutine object.
pub data Handler (H : Type 0) : Type 0 where
  created : Run H → Handler H
  in_exec in_recv in_other : H → Handler H
  finished : Handler H

-- What an attribute of the script's module is: a handler gets the client id, the command and the
-- public environment.
pub data Entry (H : Type 0) : Type 0 where
  not_callable not_async : Entry H
  async_function : (Text → Text → Dict Text → Run H) → Entry H

-- The parameters: the configuration, the user's script and the points where its handlers are
-- suspended, the random texts of the `secrets` module by the count of those drawn before, the
-- local address towards a peer, and the digest of the download jobs.
pub record Setting (H : Type 0) : Type 0 where
  pub config : DaemonConfig
  pub static_root : FilePath
  pub compiler : ScriptCompiler
  pub entry : Text → Entry H
  pub resume : H → Result (Option Bytes) → Run H
  pub token_urlsafe : ℕ → Text
  pub token_hex : ℕ → Text
  pub local_ip : Text → Text
  pub digest : Text → Text

pub record Provider (H : Type 0) : Type 0 where
  pub sessions : Sessions (Handler H)
  pub jobs : JobStore
  pub files : Files
  pub drawn : ℕ
