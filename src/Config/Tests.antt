-- ===== src/Config/Tests.antt =====
-- Configurations that load.
use openipc_tftp.Common.{
  ℕ, ◌≡◌, refl, [], ◌∷◌, none, some, Option, ok, foldl, ap, true, if◌then◌else◌, ◌==◌,
}
use openipc_tftp.Common.Text.{
  Text, codes, text_eq, split_on, strip, starts_with, ends_with, partition, lower,
}
use openipc_tftp.Common.Dict
use openipc_tftp.Common.Dict.{Dict}
use openipc_tftp.Protocol.{root_path}
use openipc_tftp.Sessions.{new_session}
use openipc_tftp.Image.{default_compiler}
use openipc_tftp.Scripted.Setting.{ContentRequest, not_async, Setting, returns}
use openipc_tftp.Scripted.Texts.{continue_command}
use openipc_tftp.Scripted.Answers.{awaiting_rrq}
use openipc_tftp.Scripted.Dispatch.{started, continued}
use openipc_tftp.Config.{Value, Section, a_text, a_number, a_flag, load_daemon_config}
use openipc_tftp.Config.Toml.{load_simple_toml}
use openipc_tftp.Config.Toml.Written.{print, without_last-append}
use openipc_tftp.Config.Toml.RoundTrip.{load-print}
use openipc_tftp.Env.{is_env_key}
use openipc_tftp.Env.Layout.{without_last}
use openipc_tftp.Config.Required.{loaded_prints}

abbrev sections : Dict Section
sections =
    (
      codes "env",
      (codes "rambase", a_text (codes "baseaddr"))
          ∷ (codes "cmdtftp", a_text (codes "tftpboot"))
          ∷ (codes "cmdtftpput", a_text (codes "tftpput"))
          ∷ [],
    )
    ∷ []

abbrev setting : Setting ℕ
setting = record {
  config = record {
    env =
        (codes "rambase", codes "baseaddr")
        ∷ (codes "cmdtftp", codes "tftpboot")
        ∷ (codes "cmdtftpput", codes "tftpput")
        ∷ [];
    routes = [];
    default_route = record { entry_func = codes "default"; env = [] };
  };
  static_root = codes "srv" ∷ [];
  compiler = default_compiler;
  entry = λ name. not_async;
  resume = λ h value. returns;
  token_urlsafe = λ n. codes "tok";
  token_hex = λ n. codes "00";
  local_ip = λ peer. codes "10.0.0.1";
  digest = λ key. key;
}

abbrev request : ContentRequest
request = record { filename = codes "id=cam"; peer = (codes "10.0.0.2", 69) }

loaded_prints_example :
    (command : Text) × (continue_command
        (awaiting_rrq setting 5 (codes "tok") (
          foldl
            (λ t next. continued setting 5 next t)
            (started setting 5 request (root_path []) (new_session 5 (codes "cam")))
            []))
        none
        []
      ≡ ok command)
unfolding load_daemon_config Dict.get text_eq Dict.has_key
loaded_prints_example =
    loaded_prints setting 5 sections none refl request (root_path []) (new_session 5 (codes "cam"))
      [] (codes "tok") none []

-- The part of ast.literal_eval that the theorem speaks of: texts in double quotes.
abbrev literal : Text → Option Value
literal [] = none
literal (c ∷ s) = if c == b'"' then some (a_text (without_last s)) else none

abbrev file : Dict Section
file =
    (
      codes "server",
      (codes "rootdir", a_text (codes "/srv/tftp")) ∷ (codes "debug", a_flag true) ∷ [],
    )
    ∷ (codes "cam-1", (codes "entry_func", a_text (codes "install")) ∷ [])
    ∷ []

load-print_example : load_simple_toml literal (print file) ≡ ok file
unfolding is_env_key
load-print_example =
    load-print literal (λ t h. ap (λ s. some (a_text s)) (without_last-append t b'"')) file
      (
        ((λ e. cc e, tt), (tt, tt)),
        (
          (refl, (((λ e. cc e, tt), (tt, tt)), ((refl, refl), ((refl, tt), tt)))),
          ((refl, ((tt, tt), ((refl, refl), tt))), tt),
        ),
      )

duplicate_section :
    load_simple_toml literal (codes "# tftp\n[env]\nport = 69\n\n[ env ]\nhost = \"cam\"\n")
    ≡ ok (
        (codes "env", (codes "port", a_number 69) ∷ (codes "host", a_text (codes "cam")) ∷ []) ∷ [])
unfolding load_simple_toml split_on strip starts_with ends_with partition lower Dict.put
    Dict.has_key Dict.get text_eq
duplicate_section = refl
