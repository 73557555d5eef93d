-- ===== src/Scripted/Untouched.antt =====
-- What a handler of the user's script cannot change, whatever it does between two suspensions.
use openipc_tftp.Common.{
  ℕ, ◌≡◌, refl, ◌∙◌, Option, none, some, Result, ok, err, Bool-cases, inl, inr, List, [], ◌||◌,
  Result-cases,
}
use openipc_tftp.Common.Text.{Text, Bytes}
use openipc_tftp.Common.Dict.{Dict}
use openipc_tftp.Jobs.{FilePath, DownloadArtifact, JobStore}
use openipc_tftp.Sessions.{ClientSession}
use openipc_tftp.Files.{Files, has_file_above}
use openipc_tftp.Scripted.Setting.{
  Download, Call, get_config, env_get, env_set, write_file, file_exists, read_file,
  acquire_download, get_download, Answer, Run, calls, awaits_exec, awaits_recv, awaits_other,
  returns, raises, Handler, created, in_exec, in_recv, in_other, finished, Setting, Provider,
}
use openipc_tftp.Scripted.Handle.{perform, writes, acquires, acquired, attached}
use openipc_tftp.Scripted.Running.{
  Play, play, send, exec_request, exec_recv_request, exec_recv_result,
}

-- All of the session but its public environment and its downloads, and of the provider the store
-- of sessions and the count of the texts that were drawn.
pub record Untouched {H : Type 0} (s t : ClientSession (Handler H)) (p q : Provider H)
    : Type 0 where
  pub sessions : q.sessions ≡ p.sessions
  pub drawn : q.drawn ≡ p.drawn
  pub client_id : t.client_id ≡ s.client_id
  pub requests : t.requests ≡ s.requests
  pub phase : t.phase ≡ s.phase
  pub pending_receive : t.pending_receive ≡ s.pending_receive
  pub server_ip : t.server_ip ≡ s.server_ip
  pub current_token : t.current_token ≡ s.current_token
  pub env : t.env ≡ s.env
  pub preflight_pending : t.preflight_pending ≡ s.preflight_pending

module _ {H : Type 0} where
  -- The changes that a call makes.
  changed-Untouched :
      (s : ClientSession (Handler H)) (p : Provider H) {e : Dict Text} {a : List Text} {fs : Files}
      {jobs : JobStore}
      → Untouched s
          (record s { public_env = e; download_artifacts = a })
          p
          (record p { jobs = jobs; files = fs })
  changed-Untouched s p = record {
    sessions = refl;
    drawn = refl;
    client_id = refl;
    requests = refl;
    phase = refl;
    pending_receive = refl;
    server_ip = refl;
    current_token = refl;
    env = refl;
    preflight_pending = refl;
  }

  Untouched-trans :
      {s t u : ClientSession (Handler H)} {p q r : Provider H}
      → Untouched s t p q
      → Untouched t u q r
      → Untouched s u p r
  Untouched-trans a b = record {
    sessions = b.sessions ∙ a.sessions;
    drawn = b.drawn ∙ a.drawn;
    client_id = b.client_id ∙ a.client_id;
    requests = b.requests ∙ a.requests;
    phase = b.phase ∙ a.phase;
    pending_receive = b.pending_receive ∙ a.pending_receive;
    server_ip = b.server_ip ∙ a.server_ip;
    current_token = b.current_token ∙ a.current_token;
    env = b.env ∙ a.env;
    preflight_pending = b.preflight_pending ∙ a.preflight_pending;
  }

module _ {H : Type 0} (setting : Setting H) (now : ℕ) where
  abbrev Leaves :
      ClientSession (Handler H)
      → Provider H
      → Result Answer × ClientSession (Handler H) × Provider H
      → Type 0
  Leaves s p (answer, t, q) = Untouched s t p q

  module _ (s : ClientSession (Handler H)) (p : Provider H) where
    writes-Untouched :
        (body : Bytes) (target : Result (Option FilePath))
        → Leaves s p (writes setting now s p body target)
    unfolding writes
    writes-Untouched body (err e) = changed-Untouched s p
    writes-Untouched body (ok none) = changed-Untouched s p
    writes-Untouched body (ok (some target)) =
        elim (Bool-cases (p.files.is_dir target || has_file_above p.files [] target)) [
          | inl blocked ↦ rw blocked (changed-Untouched s p)
          | inr free ↦ rw free (changed-Untouched s p)
        ]

    acquired-Untouched :
        (key : Text) (r : Result (DownloadArtifact × JobStore))
        → Leaves s p (acquired setting now s p key r)
    unfolding acquired attached
    acquired-Untouched key (err e) = changed-Untouched s p
    acquired-Untouched key (ok (artifact, jobs)) = changed-Untouched s p

    acquires-Untouched :
        (d : Download) (target : Result (Option FilePath))
        → Leaves s p (acquires setting now s p d target)
    unfolding acquires
    acquires-Untouched d (err e) = changed-Untouched s p
    acquires-Untouched d (ok none) = changed-Untouched s p
    acquires-Untouched d (ok (some target)) = acquired-Untouched d.artifact_key _

    perform-Untouched : (call : Call) → Leaves s p (perform setting now s p call)
    unfolding perform
    perform-Untouched (get_config key default) = changed-Untouched s p
    perform-Untouched (env_get key) = changed-Untouched s p
    perform-Untouched (env_set key value) = changed-Untouched s p
    perform-Untouched (write_file destination body) = writes-Untouched body _
    perform-Untouched (file_exists filename) = changed-Untouched s p
    perform-Untouched (read_file filename) = changed-Untouched s p
    perform-Untouched (acquire_download d) = acquires-Untouched d _
    perform-Untouched (get_download key) = changed-Untouched s p

  abbrev pub PlayLeaves : ClientSession (Handler H) → Provider H → Play H → Type 0
  PlayLeaves s p r = Untouched s r.session p r.provider

  play-Untouched :
      (run : Run H) (s : ClientSession (Handler H)) (p : Provider H)
      → PlayLeaves s p (play setting now run s p)
  unfolding play
  play-Untouched (calls call next) s p =
      let r = perform setting now s p call in
      Untouched-trans (perform-Untouched s p call) (play-Untouched (next r.0) r.1 r.2)
  play-Untouched (awaits_exec script final keys refused h) s p =
      elim (Result-cases (exec_request setting now script final keys)) [
        | inl (request, e) ↦ rw (play, e) (changed-Untouched s p)
        | inr (x, e) ↦ rw (play, e) (play-Untouched (refused x) s p)
      ]
  play-Untouched (awaits_recv script size final keys offset refused h) s p =
      elim (Result-cases (exec_recv_request setting now script size final keys offset)) [
        | inl (request, e) ↦ rw (play, e) (changed-Untouched s p)
        | inr (x, e) ↦ rw (play, e) (play-Untouched (refused x) s p)
      ]
  play-Untouched (awaits_other h) s p = changed-Untouched s p
  play-Untouched returns s p = changed-Untouched s p
  play-Untouched (raises e) s p = changed-Untouched s p

  -- Whatever a handler does until it is suspended or ends, and whatever is sent into it, it leaves
  -- the store of sessions and the count of drawn tokens alone, and of its own session the id,
  -- requests, phase, pending upload, address, token, environment and probe.
  pub send-Untouched :
      (handler : Handler H) (value : Option Bytes) (s : ClientSession (Handler H)) (p : Provider H)
      → PlayLeaves s p (send setting now handler value s p)
  unfolding send
  send-Untouched (created run) none s p = play-Untouched run s p
  send-Untouched (created run) (some value) s p = changed-Untouched s p
  send-Untouched (in_exec h) value s p = play-Untouched (setting.resume h (ok none)) s p
  send-Untouched (in_recv h) value s p =
      play-Untouched (setting.resume h (exec_recv_result setting now value)) s p
  send-Untouched (in_other h) value s p = play-Untouched (setting.resume h (ok value)) s p
  send-Untouched finished value s p = changed-Untouched s p
