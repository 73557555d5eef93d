-- ===== src/Sessions.antt =====
-- src/uboot_tftp/sessions.py: the sessions of the process, keyed by client id. A session is shared
-- by reference in Python; here a change of a session that is in the store is a `save`. The type of
-- a suspended handler is a parameter, and the time of day is an argument.
pub mod Store
use openipc_tftp.Common.{
  ℕ, ◌+◌, Bool, false, List, [], ◌∷◌, ◌++◌, Option, none, some, Result, ok, err, Error,
  file_not_found, ◌>>=◌,
}
use openipc_tftp.Common.Text.{Text, Bytes, codes}
use openipc_tftp.Common.Dict
use openipc_tftp.Common.Dict.{Dict}
use openipc_tftp.Protocol.{ParsedPath, normalize_client_id}

pub data SessionPhase : Type 0 where
  await_rrq await_upload complete : SessionPhase

pub record PendingReceive : Type 0 where
  pub token : Text
  pub upload_path : Text
  pub size : ℕ
  pub uploaded : Option Bytes

pub record ClientSession (H : Type 0) : Type 0 where
  pub client_id : Text
  pub created_at : ℕ
  pub updated_at : ℕ
  pub rrq_count : ℕ
  pub last_path : Text
  pub requests : List ParsedPath
  pub phase : SessionPhase
  pub handler : Option H
  pub pending_receive : Option PendingReceive
  pub server_ip : Text
  pub current_token : Option Text
  pub env : Dict Text
  pub public_env : Dict Text
  pub preflight_pending : Bool
  pub download_artifacts : List Text

abbrev pub Sessions : Type 0 → Type 0
Sessions H = Dict (ClientSession H)

module _ {H : Type 0} where
  abbrev pub new_session : ℕ → Text → ClientSession H
  new_session now client_id = record {
    client_id = client_id;
    created_at = now;
    updated_at = now;
    rrq_count = 0;
    last_path = codes "/";
    requests = [];
    phase = await_rrq;
    handler = none;
    pending_receive = none;
    server_ip = codes "127.0.0.1";
    current_token = none;
    env = [];
    public_env = [];
    preflight_pending = false;
    download_artifacts = [];
  }

  unfoldable pub record_rrq : ℕ → ParsedPath → ClientSession H → ClientSession H
  record_rrq now parsed s = record s {
    updated_at = now;
    rrq_count = s.rrq_count + 1;
    last_path = parsed.path;
    requests = s.requests ++ parsed ∷ [];
  }

  unfoldable pub get : Sessions H → Text → Result (Option (ClientSession H))
  get store client_id = do key ← normalize_client_id client_id; ok (Dict.get store key)

  unfoldable pub create : ℕ → Sessions H → Text → Result (ClientSession H × Sessions H)
  create now store client_id = do
    key ← normalize_client_id client_id
    ok (new_session now key, Dict.put store key (new_session now key))

  or_create :
      ℕ → Sessions H → Text → Option (ClientSession H) → Result (ClientSession H × Sessions H)
  or_create now store client_id (some s) = ok (s, store)
  or_create now store client_id none = create now store client_id

  unfoldable pub get_or_create : ℕ → Sessions H → Text → Result (ClientSession H × Sessions H)
  unfolding or_create
  get_or_create now store client_id = do
    found ← get store client_id
    or_create now store client_id found

  unfoldable pub replace : ℕ → Sessions H → Text → Result (ClientSession H × Sessions H)
  replace now store client_id = do
    normalized ← normalize_client_id client_id
    create now (Dict.remove store normalized) normalized

  abbrev pub found_or : Error → Option (ClientSession H) → Result (ClientSession H)
  found_or e none = err e
  found_or e (some s) = ok s

  unfoldable pub require : Sessions H → Text → Result (ClientSession H)
  require store client_id = do found ← get store client_id; found_or file_not_found found

  unfoldable pub discard : Sessions H → Text → Result (Sessions H)
  discard store client_id = do key ← normalize_client_id client_id; ok (Dict.remove store key)

  -- What an assignment to a field of a stored session does to the store.
  unfoldable pub save : Sessions H → ClientSession H → Sessions H
  save store s = Dict.put store s.client_id s
