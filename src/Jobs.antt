-- ===== src/Jobs.antt =====
-- src/uboot_tftp/download_jobs.py: downloads that several sessions share. The lock makes each call
-- and each step of a download thread atomic; `threads` are the threads that run. The digest in the
-- name of a temporary file (sha256) is a parameter, and the time of day is an argument.
pub mod Thread
pub mod Changes
pub mod Invariant
pub mod History
use openipc_tftp.Common.{
  ℕ, ◌+◌, Bool, true, false, ◌&&◌, List, [], ◌∷◌, ◌++◌, Option, none, some, Result, ok, err,
  value_error, key_error, ◌>>=◌, ◌>>◌, guard, if◌then◌else◌, length, ◌==◌, all_of,
}
use openipc_tftp.Common.Text.{Text, codes, text_eq}
use openipc_tftp.Common.Dict
use openipc_tftp.Common.Dict.{Dict}
use openipc_tftp.Common.TextSet
use openipc_tftp.Common.TextSet.{TextSet}

pub data ArtifactState : Type 0 where
  pending done failed : ArtifactState

-- A path is its segments below the root of the file system.
abbrev pub FilePath : Type 0
FilePath = List Text

unfoldable pub path_eq : FilePath → FilePath → Bool
path_eq [] [] = true
path_eq [] (w ∷ q) = false
path_eq (v ∷ p) [] = false
path_eq (v ∷ p) (w ∷ q) = text_eq v w && path_eq p q

pub record ArtifactEntry : Type 0 where
  pub artifact_key : Text
  pub url : Text
  pub relative_path : Text
  pub final_path : FilePath
  pub temp_path : FilePath
  pub page_url : Option Text
  pub headers : Dict Text
  pub state : ArtifactState
  pub bytes_done : ℕ
  pub bytes_total : Option ℕ
  pub error : Option Text
  pub created_at : ℕ
  pub updated_at : ℕ
  pub attached_sessions : TextSet

pub record DownloadArtifact : Type 0 where
  pub artifact_key : Text
  pub url : Text
  pub relative_path : Text
  pub final_path : FilePath
  pub state : ArtifactState
  pub bytes_done : ℕ
  pub bytes_total : Option ℕ
  pub error : Option Text
  pub ref_count : ℕ
  pub created_at : ℕ
  pub updated_at : ℕ

unfoldable pub snapshot : ArtifactEntry → DownloadArtifact
snapshot e = record {
  artifact_key = e.artifact_key;
  url = e.url;
  relative_path = e.relative_path;
  final_path = e.final_path;
  state = e.state;
  bytes_done = e.bytes_done;
  bytes_total = e.bytes_total;
  error = e.error;
  ref_count = length e.attached_sessions;
  created_at = e.created_at;
  updated_at = e.updated_at;
}

pub record DownloadRequest : Type 0 where
  pub artifact_key : Text
  pub url : Text
  pub final_path : FilePath
  pub temp_path : FilePath
  pub page_url : Option Text
  pub headers : Dict Text

pub record JobStore : Type 0 where
  pub temp_root : FilePath
  pub artifacts : Dict ArtifactEntry
  pub threads : List Text

-- The arguments of `acquire`; `headers or {}` is an empty dict where none are given.
pub record Acquire : Type 0 where
  pub artifact_key : Text
  pub session_id : Text
  pub url : Text
  pub relative_path : Text
  pub final_path : FilePath
  pub page_url : Option Text
  pub headers : Dict Text

option_eq : Option Text → Option Text → Bool
option_eq none none = true
option_eq none (some t) = false
option_eq (some s) none = false
option_eq (some s) (some t) = text_eq s t

-- Python compares dicts without their order.
unfoldable pub dict_eq : Dict Text → Dict Text → Bool
unfolding option_eq
dict_eq d e = length d == length e && all_of (λ b. option_eq (Dict.get e b.0) (some b.1)) d

unfoldable pub validate_entry : ArtifactEntry → Acquire → Result (Unit {0})
unfolding dict_eq
validate_entry e a = do
  guard (text_eq e.url a.url) value_error
  guard (text_eq e.relative_path a.relative_path) value_error
  guard (path_eq e.final_path a.final_path) value_error
  guard (option_eq e.page_url a.page_url) value_error
  guard (dict_eq e.headers a.headers) value_error

unfoldable pub attach : ℕ → Text → ArtifactEntry → ArtifactEntry
attach now session_id e = record e {
  attached_sessions = TextSet.add session_id e.attached_sessions;
  updated_at = now;
}

abbrev pub last_segment : FilePath → Text
last_segment [] = []
last_segment (w ∷ []) = w
last_segment (v ∷ w ∷ p) = last_segment (w ∷ p)

unfoldable pub temp_path_for : (Text → Text) → FilePath → Text → Text → FilePath
temp_path_for digest temp_root artifact_key filename =
    temp_root ++ (digest artifact_key ++ (codes "-" ++ (filename ++ codes ".part"))) ∷ []

abbrev pub put_entry : JobStore → ArtifactEntry → JobStore
put_entry store e = record store { artifacts = Dict.put store.artifacts e.artifact_key e }

-- `threading.Thread(target=self._run_download, args=(key,)).start()`
abbrev pub start_download : JobStore → Text → JobStore
start_download store key = record store { threads = store.threads ++ key ∷ [] }

module _ (digest : Text → Text) where
  unfoldable pub new_entry : ℕ → FilePath → Acquire → ArtifactEntry
  new_entry now temp_root a = record {
    artifact_key = a.artifact_key;
    url = a.url;
    relative_path = a.relative_path;
    final_path = a.final_path;
    temp_path = temp_path_for digest temp_root a.artifact_key (last_segment a.final_path);
    page_url = a.page_url;
    headers = a.headers;
    state = pending;
    bytes_done = 0;
    bytes_total = none;
    error = none;
    created_at = now;
    updated_at = now;
    attached_sessions = [];
  }

  unfoldable pub acquire_entry :
      ℕ → JobStore → Acquire → Option ArtifactEntry → Result (DownloadArtifact × JobStore)
  unfolding validate_entry attach new_entry snapshot
  acquire_entry now store a none =
      let e = attach now a.session_id (new_entry now store.temp_root a) in
      ok (snapshot e, start_download (put_entry store e) a.artifact_key)
  acquire_entry now store a (some found) = do
    validate_entry found a
    ok (
      snapshot (attach now a.session_id found),
      record store {
        artifacts = Dict.put store.artifacts a.artifact_key (attach now a.session_id found);
      },
    )

  unfoldable pub acquire : ℕ → JobStore → Acquire → Result (DownloadArtifact × JobStore)
  unfolding acquire_entry
  acquire now store a = acquire_entry now store a (Dict.get store.artifacts a.artifact_key)

snapshot_of : Option ArtifactEntry → Option DownloadArtifact
unfolding snapshot
snapshot_of none = none
snapshot_of (some e) = some (snapshot e)

unfoldable pub get : JobStore → Text → Option DownloadArtifact
unfolding snapshot_of
get store key = snapshot_of (Dict.get store.artifacts key)

-- A change of the entry of a key, if there is one.
changed : JobStore → Text → (ArtifactEntry → ArtifactEntry) → Option ArtifactEntry → JobStore
changed store key f none = store
changed store key f (some e) = record store { artifacts = Dict.put store.artifacts key (f e) }

unfoldable pub change_entry : JobStore → Text → (ArtifactEntry → ArtifactEntry) → JobStore
unfolding changed
change_entry store key f = changed store key f (Dict.get store.artifacts key)

unfoldable pub detach : ℕ → Text → ArtifactEntry → ArtifactEntry
detach now session_id e = record e {
  attached_sessions = TextSet.discard session_id e.attached_sessions;
  updated_at = now;
}

unfoldable pub release : ℕ → JobStore → Text → Text → JobStore
unfolding change_entry detach
release now store key session_id = change_entry store key (detach now session_id)
