-- ===== src/Server/Tests.antt =====
-- Runs of the server's theorems at concrete inputs.
use openipc_tftp.Common.{
  ℕ, ◌≡◌, refl, false, List, [], ◌∷◌, Option, none, some, ok, err, os_error, value_error, arith,
  length, flatten,
}
use openipc_tftp.Common.Text.{
  Text, Bytes, codes, text_eq, strip, split_on, partition, lower, lstrip, join, ends_with,
}
use openipc_tftp.Common.Dict
use openipc_tftp.Protocol.{ParsedPath, parse_request_path, is_session, unquote}
use openipc_tftp.Sessions
use openipc_tftp.Sessions.{ClientSession, new_session}
use openipc_tftp.Jobs.{FilePath, path_eq}
use openipc_tftp.Files.{
  Files, resolve_disk_upload_path, parts, is_below, resolve, written, has_file_above,
}
use openipc_tftp.Uploads
use openipc_tftp.Uploads.{UploadRequest}
use openipc_tftp.Server.{captured, on_disk, target_of, open_upload, open_dynamic_download}
use openipc_tftp.Server.Reads.{refused_read}
use openipc_tftp.Protocol.Print.{print_path}
use openipc_tftp.Image.{default_compiler}
use openipc_tftp.Scripted.Setting.{not_callable, returns, Setting, Provider}
use openipc_tftp.Server.Transfers.{log_of, logged_once}
use openipc_tftp.Server.Opened.{Opens, open_upload_lem}

abbrev chunks : List Bytes
chunks = (1 ∷ 2 ∷ []) ∷ (3 ∷ []) ∷ []

logged_once_example :
    (log_of (some 9) chunks 2 ≡ 9 ∷ []) × (log_of none chunks 2 ≡ length (flatten chunks) ∷ [])
logged_once_example = logged_once 9 chunks 2

-- The served directory is /srv.
abbrev files : Files
files = record { link = λ p. none; file = λ p. none; is_dir = λ p. path_eq p (codes "srv" ∷ []) }

abbrev root : FilePath
root = codes "srv" ∷ []

abbrev asks : Text → UploadRequest
asks name = record {
  filename = name;
  peer = (codes "10.0.0.2", 69);
  server_addr = (codes "10.0.0.1", 69);
}

abbrev waiting : ClientSession ℕ
waiting = record (new_session 0 (codes "cam")) {
  pending_receive =
      some (record {
        token = codes "t";
        upload_path = codes "/upload.bin";
        size = 4;
        uploaded = none;
      });
}

abbrev sessions : Sessions.Sessions ℕ
sessions = (codes "cam", waiting) ∷ []

abbrev awaited : Text
awaited = codes "id=cam/token=t/upload.bin"

-- The path that tftpy gives, and its name below the served directory.
abbrev below_srv : Text → Option Text
below_srv path = some awaited

open_upload_lem_example :
    (parsed : ParsedPath) × (parse_request_path awaited ≡ ok parsed)
    × Opens files root sessions
        (asks awaited)
        parsed
        (is_session parsed)
        (captured (record { request = asks awaited; captured = false; written = [] }), files)
unfolding open_upload target_of parse_request_path strip split_on text_eq partition unquote resolve
    path_eq lower join Sessions.require Sessions.get Dict.get ends_with Uploads.open_upload Dict.put
open_upload_lem_example =
    open_upload_lem below_srv files root sessions (asks (codes "/srv/id=cam/token=t/upload.bin"))
      refl refl

opens_on_disk :
    open_upload (λ path. some (codes "f")) files root sessions (asks (codes "/srv/f"))
    ≡ ok (on_disk (codes "srv" ∷ codes "f" ∷ []), written files (codes "srv" ∷ codes "f" ∷ []) [])
unfolding open_upload target_of parse_request_path strip split_on text_eq partition unquote
    resolve_disk_upload_path resolve path_eq parts lstrip is_below has_file_above
opens_on_disk = refl

refuses_directory :
    open_upload (λ path. some (codes ".")) files root sessions (asks (codes "/srv")) ≡ err os_error
unfolding open_upload target_of parse_request_path strip split_on text_eq partition unquote
    resolve_disk_upload_path resolve path_eq parts lstrip is_below
refuses_directory = refl

abbrev setting : Setting ℕ
setting = record {
  config = record {
    env = [];
    routes = [];
    default_route = record { entry_func = codes "default"; env = [] };
  };
  static_root = root;
  compiler = default_compiler;
  entry = λ name. not_callable;
  resume = λ h value. returns;
  token_urlsafe = λ n. codes "tok";
  token_hex = λ n. codes "00";
  local_ip = λ peer. codes "10.0.0.1";
  digest = λ key. key;
}

abbrev provider : Provider ℕ
provider = record {
  sessions = [];
  jobs = record { temp_root = []; artifacts = []; threads = [] };
  files = files;
  drawn = 0;
}

refused_read_example :
    open_dynamic_download setting 5
      (record { filename = print_path (codes "$") []; peer = (codes "10.0.0.2", 69) })
      provider
    ≡ (err value_error, provider)
unfolding lower
refused_read_example =
    refused_read setting 5 (codes "10.0.0.2", 69) provider (codes "$") [] (omega arith, tt)
      (omega arith, tt) (λ w. omega arith) tt
