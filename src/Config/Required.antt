-- ===== src/Config/Required.antt =====
-- A configuration that loads has what the printed scripts need.
use openipc_tftp.Common.{
  ℕ, ◌≡◌, refl, ◌∙◌, Bool, true, false, not, ◌&&◌, ◌||◌, List, [], ◌∷◌, Option, some, ok, Error,
  value_error, guard, Bool-cases, inl, inr, &&-eq-true, foldl, if◌then◌else◌, is_empty,
  Ensures-bind, Ensures-value,
}
use openipc_tftp.Common.Text.{Text, codes, text_eq, partition, Parts}
use openipc_tftp.Common.Dict
use openipc_tftp.Common.Dict.{Dict, get-put}
use openipc_tftp.Protocol.{ParsedPath}
use openipc_tftp.Sessions
use openipc_tftp.Sessions.{ClientSession}
use openipc_tftp.Scripted.Setting.{ContentRequest, DaemonConfig, Handler, Setting}
use openipc_tftp.Scripted.Texts.{
  continue_text, append_return_keys, continue_path, merge_segment, merge_segments, session_env,
  continue_command, subscript, behind_command,
}
use openipc_tftp.Scripted.Answers.{awaiting_rrq}
use openipc_tftp.Scripted.Dispatch.{
  started, continued, merge_value, merge_continuation_values, route_for,
}
use openipc_tftp.Config.{
  Section, load_daemon_config, validate_base_env, validate_server_paths, add_routes,
}

abbrev Has : Text → Dict Text → Type 0
Has key env = (value : Text) × (Dict.get env key ≡ some value)

has_key-Has : (env : Dict Text) (key : Text) → Dict.has_key env key ≡ true → Has key env
unfolding Dict.has_key Dict.get
has_key-Has [] key h = absurd (cc)
has_key-Has ((k, v) ∷ env) key h = step (text_eq k key) (has_key-Has env key) refl h
  where
    step :
        (b : Bool)
        → (Dict.has_key env key ≡ true → Has key env)
        → text_eq k key ≡ b
        → (if b then true else Dict.has_key env key) ≡ true
        → Has key ((k, v) ∷ env)
    step true rest e g = (v, rw e refl)
    step false rest e g = let (w, found) = rest g in (w, rw e found)

module _ (key : Text) where
  put-Has : (env : Dict Text) (k v : Text) → Has key env → Has key (Dict.put env k v)
  put-Has env k v (w, h) = elim (Bool-cases (text_eq k key)) [
    | inl same ↦ (v, get-put env k v key ∙ rw same refl)
    | inr other ↦ (w, get-put env k v key ∙ rw other h)
  ]

  update-Has : (env more : Dict Text) → Has key env → Has key (Dict.update env more)
  unfolding Dict.update
  update-Has env [] h = h
  update-Has env ((k, v) ∷ more) h = update-Has (Dict.put env k v) more (put-Has env k v h)

  segment-Has : (env : Dict Text) (parts : Parts) → Has key env → Has key (merge_segment env parts)
  unfolding merge_segment
  segment-Has env parts h = elim (Bool-cases (parts.found && not (is_empty parts.before))) [
    | inl named ↦ rw named (put-Has env parts.before parts.after h)
    | inr other ↦ rw other h
  ]

  segments-Has :
      (segments : List Text) (env : Dict Text) → Has key env → Has key (merge_segments env segments)
  unfolding merge_segments
  segments-Has [] env h = h
  segments-Has (s ∷ segments) env h =
      segments-Has segments (merge_segment env (partition b'=' s))
        (segment-Has env (partition b'=' s) h)

  env-Has :
      (base route : Dict Text) (parsed : ParsedPath)
      → Has key base
      → Has key (session_env base route parsed)
  unfolding session_env
  env-Has base route parsed h =
      segments-Has (behind_command parsed.segments) (Dict.update base route)
        (update-Has base route h)

  value-Has :
      {H : Type 0} (s : ClientSession H) (b : Text × Text)
      → Has key s.env
      → Has key (merge_value s b).env
  unfolding merge_value
  value-Has s (k, v) h = elim (Bool-cases (text_eq k (codes "token") || text_eq k (codes "recv"))) [
    | inl skipped ↦ rw skipped h
    | inr merged ↦ rw merged (put-Has s.env k v h)
  ]

  values-Has :
      {H : Type 0} (values : Dict Text) (s : ClientSession H)
      → Has key s.env
      → Has key (foldl merge_value s values).env
  values-Has [] s h = h
  values-Has (b ∷ values) s h = values-Has values (merge_value s b) (value-Has s b h)

-- What the commands of a script are made of.
abbrev pub Provides : Dict Text → Type 0
Provides env = Has (codes "rambase") env × Has (codes "cmdtftp") env × Has (codes "cmdtftpput") env

guarded : (b : Bool) (e : Error) → guard b e ≡ ok tt → b ≡ true
guarded true e h = refl
guarded false e h = absurd (cc)

base_env-Provides : (env : Dict Text) → validate_base_env env ≡ ok tt → Provides env
unfolding validate_base_env
base_env-Provides env h =
    let has = Dict.has_key env in
    let (r, rest) =
      &&-eq-true (has (codes "rambase"))
        (has (codes "cmdtftp") && (has (codes "cmdtftpput") && true)) (guarded _ value_error h) in
    let (c, last) = &&-eq-true (has (codes "cmdtftp")) (has (codes "cmdtftpput") && true) rest in
    let (p, _) = &&-eq-true (has (codes "cmdtftpput")) true last in
    (
      has_key-Has env (codes "rambase") r,
      has_key-Has env (codes "cmdtftp") c,
      has_key-Has env (codes "cmdtftpput") p,
    )

module _ {H : Type 0} (setting : Setting H) (now : ℕ) where
  started-Provides :
      (request : ContentRequest) (parsed : ParsedPath) (s : ClientSession (Handler H))
      → Provides setting.config.env
      → Provides (started setting now request parsed s).env
  unfolding started
  started-Provides request parsed s (r, c, p) =
      let route = (route_for setting.config s.client_id).env in
      (
        env-Has (codes "rambase") setting.config.env route parsed r,
        env-Has (codes "cmdtftp") setting.config.env route parsed c,
        env-Has (codes "cmdtftpput") setting.config.env route parsed p,
      )

  continued-Provides :
      (parsed : ParsedPath) (s : ClientSession (Handler H))
      → Provides s.env
      → Provides (continued setting now parsed s).env
  unfolding continued merge_continuation_values Sessions.record_rrq
  continued-Provides parsed s (r, c, p) = (
    values-Has (codes "rambase") parsed.values _ r,
    values-Has (codes "cmdtftp") parsed.values _ c,
    values-Has (codes "cmdtftpput") parsed.values _ p,
  )

  command_printed :
      (s : ClientSession (Handler H)) (token : Text) (status : Option Text) (keys : List Text)
      → Provides s.env
      → (command : Text) × (continue_command (awaiting_rrq setting now token s) status keys
          ≡ ok command)
  unfolding continue_command subscript
  command_printed s token status keys ((rambase, r), (cmdtftp, c), p) = (
    continue_text cmdtftp rambase s.server_ip
        (append_return_keys (continue_path s.client_id token status) keys),
    rw c (rw r refl),
  )

  all_continued-Provides :
      (later : List ParsedPath) (s : ClientSession (Handler H))
      → Provides s.env
      → Provides (foldl (λ t parsed. continued setting now parsed t) s later).env
  all_continued-Provides [] s h = h
  all_continued-Provides (parsed ∷ later) s h =
      all_continued-Provides later (continued setting now parsed s) (continued-Provides parsed s h)

loaded-Provides :
    (sections : Dict Section) (rootdir : Option Text) {server : Section} {config : DaemonConfig}
    → load_daemon_config sections rootdir ≡ ok (server, config)
    → Provides config.env
unfolding load_daemon_config
loaded-Provides sections rootdir h =
    let P : Section × DaemonConfig → Type 0 = λ r. Provides r.1.env in
    Ensures-value P (load_daemon_config sections rootdir)
      (Ensures-bind P (validate_server_paths _) _ λ u _.
        Ensures-bind P (validate_base_env _) _
          λ v e. Ensures-bind P (add_routes [] sections) _ λ routes _. base_env-Provides _ e)
      h

-- Under a configuration that loads, a session that is started and then continued any number of
-- times, whatever the requests carry, can print the command that asks for the next script once it
-- has a token: the variables of the environment that it needs are defined.
pub loaded_prints :
    {H : Type 0} (setting : Setting H) (now : ℕ) (sections : Dict Section) (rootdir : Option Text)
    {server : Section}
    → load_daemon_config sections rootdir ≡ ok (server, setting.config)
    → (request : ContentRequest) (parsed : ParsedPath) (s : ClientSession (Handler H))
      (later : List ParsedPath) (token : Text) (status : Option Text) (keys : List Text)
    → (command : Text) × (continue_command
          (awaiting_rrq setting now token (
            foldl
              (λ t next. continued setting now next t)
              (started setting now request parsed s)
              later))
          status
          keys
        ≡ ok command)
loaded_prints setting now sections rootdir h request parsed s later token status keys =
    command_printed setting now
      (foldl (λ t next. continued setting now next t) (started setting now request parsed s) later)
      token status keys
      (all_continued-Provides setting now later (started setting now request parsed s)
        (started-Provides setting now request parsed s (loaded-Provides sections rootdir h)))
