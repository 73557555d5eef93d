-- ===== src/Scripted/Handle.antt =====
-- The calls of SessionHandle in src/uboot_tftp/scripted.py that return at once. A handler sees its
-- session and the stores through these calls only.
use openipc_tftp.Common.{
  ℕ, Bool, true, false, ◌||◌, List, [], ◌∷◌, Option, none, some, Result, ok, err, Error, map, ◌==◌,
  value_error, file_not_found, os_error, ◌>>=◌, if◌then◌else◌,
}
use openipc_tftp.Common.Text.{Text, Bytes, codes, join}
use openipc_tftp.Common.Dict
use openipc_tftp.Common.Dict.{Dict}
use openipc_tftp.Common.TextSet
use openipc_tftp.Sessions.{ClientSession}
use openipc_tftp.Jobs
use openipc_tftp.Jobs.{FilePath, DownloadArtifact, JobStore, path_eq}
use openipc_tftp.Files.{Files, resolve_static_path, relative, written, has_file_above}
use openipc_tftp.Scripted.Setting.{
  Download, Call, get_config, env_get, env_set, write_file, file_exists, read_file,
  acquire_download, get_download, Answer, done, missing, a_text, a_flag, some_bytes, a_path,
  an_artifact, Handler, Setting, Provider,
}
use openipc_tftp.Scripted.Texts.{subscript}

abbrev pub exists : Files → FilePath → Bool
exists fs p = elim (fs.file p) [ some _ ↦ true | none ↦ fs.is_dir p ]

abbrev pub or_error {ℓ} : {A : Type ℓ} → Option A → Error → Result A
or_error none e = err e
or_error (some a) e = ok a

abbrev pub text_or_missing : Option Text → Answer
text_or_missing none = missing
text_or_missing (some t) = a_text t

-- `(self.session.env.get(key, default) or self.session.env[key])`, by whether there is a default.
unfoldable pub config_value : Dict Text → Text → Option Text → Result Text
config_value env key none = subscript env key
config_value env key (some default) = elim (Dict.get env key) [ some v ↦ ok v | none ↦ ok default ]

-- `"/" + str(destination)`
abbrev pub below_root : Text → Text
below_root destination = b'/' ∷ destination

-- `str` of a relative path.
abbrev path_text : List Text → Text
path_text [] = codes "."
path_text (w ∷ ws) = join (codes "/") (w ∷ ws)

-- `str(Path(str(destination).lstrip("/"))).replace("\\", "/")`
unfoldable pub relative_path : Text → Text
relative_path destination =
    map (λ c. if c == b'\\' then b'/' else c) (path_text (relative destination))

module _ {H : Type 0} (setting : Setting H) (now : ℕ) where
  -- The answer of a call, with the session and the stores it leaves. `os_error` stands for the
  -- errors of mkdir and write_bytes, where a file stands in the way.
  unfoldable pub writes :
      ClientSession (Handler H)
      → Provider H
      → Bytes
      → Result (Option FilePath)
      → Result Answer × ClientSession (Handler H) × Provider H
  unfolding written has_file_above
  writes session provider body (err e) = (err e, session, provider)
  writes session provider body (ok none) = (err value_error, session, provider)
  writes session provider body (ok (some target)) =
      if provider.files.is_dir target || has_file_above provider.files [] target
      then (err os_error, session, provider)
      else (
        ok (a_path target),
        session,
        record provider { files = written provider.files target body },
      )

  reads : Provider H → Result (Option FilePath) → Result Answer
  reads provider (err e) = err e
  reads provider (ok none) = err value_error
  reads provider (ok (some target)) = elim (provider.files.file target) [
    | some body ↦ ok (some_bytes body)
    | none ↦ if provider.files.is_dir target then err os_error else err file_not_found
  ]

  exists_below : Provider H → Result (Option FilePath) → Result Answer
  exists_below provider (err e) = err e
  exists_below provider (ok none) = ok (a_flag false)
  exists_below provider (ok (some target)) = ok (a_flag (exists provider.files target))

  unfoldable pub attached : ClientSession (Handler H) → Text → ClientSession (Handler H)
  attached session key = record session {
    download_artifacts = TextSet.add key session.download_artifacts;
  }

  unfoldable pub acquired :
      ClientSession (Handler H)
      → Provider H
      → Text
      → Result (DownloadArtifact × JobStore)
      → Result Answer × ClientSession (Handler H) × Provider H
  unfolding attached
  acquired session provider key (err e) = (err e, session, provider)
  acquired session provider key (ok (artifact, jobs)) =
      (ok (an_artifact artifact), attached session key, record provider { jobs = jobs })

  unfoldable pub acquires :
      ClientSession (Handler H)
      → Provider H
      → Download
      → Result (Option FilePath)
      → Result Answer × ClientSession (Handler H) × Provider H
  unfolding acquired
  acquires session provider d (err e) = (err e, session, provider)
  acquires session provider d (ok none) = (err value_error, session, provider)
  acquires session provider d (ok (some target)) = acquired session provider d.artifact_key (
      Jobs.acquire setting.digest now provider.jobs (record {
        artifact_key = d.artifact_key;
        session_id = session.client_id;
        url = d.url;
        relative_path = relative_path d.destination;
        final_path = target;
        page_url = d.page_url;
        headers = d.headers;
      }))

  unfoldable pub perform :
      ClientSession (Handler H)
      → Provider H
      → Call
      → Result Answer × ClientSession (Handler H) × Provider H
  unfolding writes reads exists_below acquires config_value
  perform session provider (get_config key default) =
      ((config_value session.env key default >>= λ v. ok (a_text v)), session, provider)
  perform session provider (env_get key) =
      (ok (text_or_missing (Dict.get session.public_env key)), session, provider)
  perform session provider (env_set key value) =
      (ok done, record session { public_env = Dict.put session.public_env key value }, provider)
  perform session provider (write_file destination body) =
      writes session provider body
        (resolve_static_path provider.files setting.static_root (below_root destination))
  perform session provider (file_exists filename) = (
    exists_below provider
        (resolve_static_path provider.files setting.static_root (below_root filename)),
    session,
    provider,
  )
  perform session provider (read_file filename) = (
    reads provider (resolve_static_path provider.files setting.static_root (below_root filename)),
    session,
    provider,
  )
  perform session provider (acquire_download d) =
      acquires session provider d
        (resolve_static_path provider.files setting.static_root (below_root d.destination))
  perform session provider (get_download key) = (
    (or_error (Jobs.get provider.jobs key) file_not_found >>= λ a. ok (an_artifact a)),
    session,
    provider,
  )
