-- ===== src/Scripted/Refusals.antt =====
-- Read requests that change nothing.
use openipc_tftp.Common.{
  ℕ, ◌≡◌, ◌≢◌, ◌⊎◌, inl, inr, refl, sym, subst, true, false, Option, none, some, Result, ok, err,
  value_error, file_not_found, length, Bool-cases, Result-cases, Option-cases,
}
use openipc_tftp.Common.Text.{Text, Bytes, codes, text_eq, text_eq_iff, has_char}
use openipc_tftp.Common.Dict
use openipc_tftp.Common.Stateful.{◌>>=◌}
use openipc_tftp.Protocol.{ParsedPath, parse_request_path}
use openipc_tftp.Protocol.ClientId.{IsClientId}
use openipc_tftp.Jobs.{FilePath}
use openipc_tftp.Files.{resolve, resolve_static_path}
use openipc_tftp.Files.Confined.{Below, static-Below, static_refused}
use openipc_tftp.Sessions.{ClientSession}
use openipc_tftp.Sessions.Store.{require_valid}
use openipc_tftp.Uploads.{token_is}
use openipc_tftp.Scripted.Setting.{ContentRequest, ContentResult, Handler, Setting, Provider}
use openipc_tftp.Scripted.Answers.{static_result, static_file, from_bytes}
use openipc_tftp.Scripted.Dispatch.{
  fetch, fetch_parsed, resume_session, token_fits, is_continuation,
}

token_is-ne : (o : Option Text) (t : Text) → o ≢ some t → token_is o t ≡ false
token_is-ne none t n = refl
token_is-ne (some u) t n = elim (Bool-cases (text_eq u t)) [
  | inl same ↦ absurd (n (cc ((text_eq_iff u t).0 same)))
  | inr other ↦ other
]

module _ {H : Type 0} (setting : Setting H) (now : ℕ) (request : ContentRequest)
    (p : Provider H) where
  -- The file that a path of a request stands for, and its contents.
  abbrev pub Serves : Text → FilePath → Bytes → Type 0
  Serves asked path body =
      (resolve_static_path p.files setting.static_root asked ≡ ok (some path))
      × (p.files.file path ≡ some body)

  -- What a request for a static file is answered with, and the state that it leaves.
  abbrev pub Answers : Text → Result ContentResult × Provider H → Type 0
  Answers asked answer =
      ((path : FilePath) × (body : Bytes) × Serves asked path body
        × Below (resolve p.files setting.static_root) path
        × (answer
            ≡ (ok (record { body = body; size = some (length body); close_body = false }), p)))
      ⊎ (((answer ≡ (err file_not_found, p))
            × ((path : FilePath) (body : Bytes) → ¬ Serves asked path body))
          ⊎ ((answer ≡ (err value_error, p)) × (has_char 0 asked ≡ true)))

  static_result-Answers : (asked : Text) → Answers asked (static_result setting now asked p)
  unfolding static_result static_file from_bytes
  static_result-Answers asked =
      elim (Result-cases (resolve_static_path p.files setting.static_root asked)) [
        | inl (none, e) ↦ inr (inl (rw e refl, λ path body s. cc (e, s.0)))
        | inl (some path, e) ↦ elim (Option-cases (p.files.file path)) [
          | inl missing ↦ inr (
              inl (
                rw (static_file, e) (rw (static_file, missing) refl),
                λ other body s. cc (e, s.0, s.1, missing),
              ))
          | inr (body, found) ↦ inl (
            path,
            body,
            (e, found),
            static-Below p.files setting.static_root asked e,
            rw (static_file, e) (rw (static_file, found) refl),
          )
        ]
        | inr (x, e) ↦
            let (raised, nul) = static_refused p.files setting.static_root asked e in
            inr (inr (rw e (rw raised refl), nul))
      ]

  -- A request that is parsed to no client leaves the sessions, the downloads, the files and the
  -- count of drawn tokens as they were. It is answered with the whole contents of a regular file
  -- that lies strictly below the resolved directory of static files, and that its path stands for;
  -- or it raises FileNotFoundError and its path stands for no regular file there; or it raises
  -- ValueError and its path has a NUL.
  pub fetch_static :
      (parsed : ParsedPath)
      → parse_request_path request.filename ≡ ok parsed
      → parsed.client_id ≡ none
      → Answers parsed.path (fetch setting now request p)
  unfolding ◌>>=◌ fetch fetch_parsed
  fetch_static parsed h static =
      let answered : fetch setting now request p ≡ static_result setting now parsed.path p =
        rw h (rw static refl) in
      subst (Answers parsed.path) (sym answered) (static_result-Answers parsed.path)

  -- A session has a current token, and the request carries another one or none.
  abbrev pub Misfits : ParsedPath → ClientSession (Handler H) → Type 0
  Misfits parsed s =
      (s.current_token ≡ none)
      ⊎ ((token : Text) × (s.current_token ≡ some token)
          × (Dict.get parsed.values (codes "token") ≢ some token))

  misfit :
      (parsed : ParsedPath) (s : ClientSession (Handler H))
      → Misfits parsed s
      → token_fits setting now parsed s ≡ false
  misfit parsed s (inl absent) = rw absent refl
  misfit parsed s (inr (token, current, other)) = rw current (token_is-ne _ token other)

  -- A request that is parsed to a valid client id and carries a token raises FileNotFoundError and
  -- changes nothing, if the client has no session, or a session that has no current token, or one
  -- whose current token is not the token that the request carries.
  pub wrong_token :
      (parsed : ParsedPath) (client_id : Text)
      → parse_request_path request.filename ≡ ok parsed
      → parsed.client_id ≡ some client_id
      → IsClientId client_id
      → is_continuation parsed ≡ true
      → (Dict.get p.sessions client_id ≡ none)
        ⊎ ((s : ClientSession (Handler H)) × (Dict.get p.sessions client_id ≡ some s)
            × Misfits parsed s)
      → fetch setting now request p ≡ (err file_not_found, p)
  unfolding ◌>>=◌ fetch fetch_parsed resume_session
  wrong_token parsed client_id h identified valid continues (inl absent) = rw h (
      rw identified (rw continues (rw (require_valid p.sessions client_id valid) (rw absent refl))))
  wrong_token parsed client_id h identified valid continues (inr (s, found, other)) = rw h (
      rw identified (
        rw continues (
          rw (require_valid p.sessions client_id valid)
            (rw found (rw (misfit parsed s other) refl)))))
