-- ===== src/Scripted/Lifecycle.antt =====
-- How a session begins and how it ends.
use openipc_tftp.Common.{
  ℕ, ◌≡◌, refl, sym, ap, ◌∙◌, subst, Bool, true, false, Option, none, some, Result, ok, err, [],
  ◌∷◌, file_not_found, receive_failed,
}
use openipc_tftp.Common.Text.{is_space, Text, rstrip, codes}
use openipc_tftp.Common.Stateful.{Action, lift, followed_by, raise, pure, ◌>>=◌, ◌>>◌}
use openipc_tftp.Common.Dict
use openipc_tftp.Common.Dict.{get-put_self, get-remove_self}
use openipc_tftp.Protocol.{ParsedPath, parse_request_path}
use openipc_tftp.Protocol.ClientId.{IsClientId, normalize_fixed}
use openipc_tftp.Protocol.Sound.{parse-IsWellFormed, HasValidId}
use openipc_tftp.Sessions
use openipc_tftp.Sessions.{ClientSession, new_session, complete}
use openipc_tftp.Sessions.Store.{IsKeyed, get_valid}
use openipc_tftp.Scripted.Setting.{
  ContentRequest, ContentResult, ExecutionRequest, Handler, Setting, Provider,
}
use openipc_tftp.Scripted.Texts.{hush_probe_script, append_continue}
use openipc_tftp.Scripted.Silent.{Silent, followed-Silent, >>=-Silent, lift-Silent}
use openipc_tftp.Scripted.Running.{Sent, yielded, stopped, raised}
use openipc_tftp.Scripted.Answers.{
  new_token, discard_session, end_session, renew_session, save, awaiting_rrq,
  result_from_instruction, instruction_script, after_send, compiled,
}
use openipc_tftp.Scripted.Dispatch.{
  preflight_result, discard_existing, started, start_session, fetch, fetch_parsed, is_continuation,
}

-- What the store holds for a client once it has asked without a token.
pub record StartsAfresh {H : Type 0} (parsed : ParsedPath) (token : Text)
    (s : ClientSession (Handler H)) : Type 0 where
  pub token_is_new : s.current_token ≡ some token
  pub probes_first : s.preflight_pending ≡ true
  pub no_handler : s.handler ≡ none
  pub no_receive : s.pending_receive ≡ none
  pub no_downloads : s.download_artifacts ≡ []
  pub asked : s.requests ≡ parsed ∷ []

module _ {H : Type 0} (setting : Setting H) (now : ℕ) where
  -- The sessions that a session's end leaves.
  dropped_sessions :
      (s : ClientSession (Handler H)) (p : Provider H)
      → IsClientId s.client_id
      → ((discard_session setting now s p).0 ≡ ok tt)
        × ((discard_session setting now s p).1.sessions ≡ Dict.remove p.sessions s.client_id)
        × ((discard_session setting now s p).1.drawn ≡ p.drawn)
  unfolding discard_session Sessions.discard ◌>>=◌
  dropped_sessions s p valid = rw (normalize_fixed s.client_id valid) (refl, refl, refl)

  preflight_tail :
      (s : ClientSession (Handler H))
      → Silent {H = H} (do
        probe ← lift hush_probe_script
        script ← lift (append_continue probe s none (codes "hush_shell" ∷ []))
        lift (compiled setting now script))
  preflight_tail s = >>=-Silent (lift-Silent hush_probe_script) λ probe.
      >>=-Silent (lift-Silent (append_continue probe s none (codes "hush_shell" ∷ [])))
        λ script. lift-Silent (compiled setting now script)

  preflight_sessions :
      (s : ClientSession (Handler H)) (p : Provider H)
      → (preflight_result setting now s p).1.sessions
        ≡ Sessions.save p.sessions (awaiting_rrq setting now (setting.token_urlsafe p.drawn) s)
  unfolding preflight_result new_token ◌>>=◌
  preflight_sessions s p =
      (preflight_tail (awaiting_rrq setting now (setting.token_urlsafe p.drawn) s)).silent _

  -- What a new session is made into.
  abbrev pub fresh_session : ContentRequest → ParsedPath → Text → ℕ → ClientSession (Handler H)
  fresh_session request parsed c drawn =
      awaiting_rrq setting now (setting.token_urlsafe drawn)
        (started setting now request parsed (new_session now c))

  module _ (request : ContentRequest) (parsed : ParsedPath) (c : Text) (valid : IsClientId c) where
    renewed_session :
        (p : Provider H)
        → Dict.get
            ((do
              session ← renew_session now c
              save (started setting now request parsed session)
              preflight_result setting now (started setting now request parsed session))
              p).1.sessions
            c
          ≡ some (fresh_session request parsed c p.drawn)
    unfolding ◌>>=◌ Sessions.replace Sessions.create Sessions.save started Sessions.record_rrq
    renewed_session p =
        rw (normalize_fixed c valid)
          (rw (normalize_fixed c valid) (rw (preflight_sessions _ _) (get-put_self _ c _)))

    rest : Unit {0} → Action (Provider H) ContentResult
    rest u = do
      session ← renew_session now c
      save (started setting now request parsed session)
      preflight_result setting now (started setting now request parsed session)

    behind_discard :
        (p : Provider H) (o : Option (ClientSession (Handler H)))
        → ((s : ClientSession (Handler H)) → o ≡ some s → s.client_id ≡ c)
        → Dict.get (followed_by (discard_existing setting now o p) rest).1.sessions c
          ≡ some (fresh_session request parsed c p.drawn)
    unfolding discard_existing rest
    behind_discard p none own = renewed_session p
    behind_discard p (some s) own =
        let (returns, _, drawn) =
          dropped_sessions s p (subst IsClientId (sym (own s refl)) valid) in
        ap (λ (r : Result ContentResult × Provider H). Dict.get r.1.sessions c)
          (followed_ok (discard_session setting now s p) rest returns)
        ∙ renewed_session (discard_session setting now s p).1
        ∙ ap (λ n. some (fresh_session request parsed c n)) drawn
      where
        followed_ok :
            {A B S : Type 0} (r : Result A × S) (next : A → Action S B) {a : A}
            → r.0 ≡ ok a
            → followed_by r next ≡ next a r.1
        followed_ok (ok b, q) next e = cc
        followed_ok (err x, q) next e = absurd (cc)

    start_state :
        (p : Provider H)
        → IsKeyed p.sessions
        → Dict.get (start_session setting now request parsed c p).1.sessions c
          ≡ some (fresh_session request parsed c p.drawn)
    unfolding start_session ◌>>=◌ rest
    start_state p keyed =
        rw (get_valid p.sessions c valid)
          (behind_discard p (Dict.get p.sessions c) (λ s e. (keyed.own c s e).0))

  -- A request that is parsed to the client c and carries no token replaces c's session, where each
  -- session stands under its own id, whatever the old one was and whether or not the answer can be
  -- printed: the new one has the next token that is drawn, waits for the hush probe, has no
  -- handler, no upload and no download, and lists this request alone.
  pub start-StartsAfresh :
      (request : ContentRequest) (parsed : ParsedPath) (c : Text) (p : Provider H)
      → parse_request_path request.filename ≡ ok parsed
      → parsed.client_id ≡ some c
      → is_continuation parsed ≡ false
      → IsKeyed p.sessions
      → (s : ClientSession (Handler H)) × (Dict.get (fetch setting now request p).1.sessions c
          ≡ some s)
        × StartsAfresh parsed (setting.token_urlsafe p.drawn) s
  unfolding fetch fetch_parsed ◌>>=◌ started Sessions.record_rrq
  start-StartsAfresh request parsed c p h identified first keyed =
      let valid : IsClientId c =
        subst (λ (o : Option Text). HasValidId o parsed.values) identified
          (parse-IsWellFormed request.filename h).identified in
      (
        fresh_session request parsed c p.drawn,
        rw h (dispatched identified first (start_state request parsed c valid p keyed)),
        record {
          token_is_new = refl;
          probes_first = refl;
          no_handler = refl;
          no_receive = refl;
          no_downloads = refl;
          asked = refl;
        },
      )
    where
      dispatched :
          {o : Option Text} {b : Bool} {x : Option (ClientSession (Handler H))}
          → o ≡ some c
          → b ≡ false
          → Dict.get (start_session setting now request parsed c p).1.sessions c ≡ x
          → Dict.get (fetch_parsed setting now request parsed o b p).1.sessions c ≡ x
      dispatched e f g = rw (e, f) g

  -- What ends a session: the handler returns, an upload that it waited for did not come, or it
  -- yields a final script.
  abbrev pub Ends : Sent → Type 0
  Ends stopped = Unit
  Ends (raised receive_failed) = Unit
  Ends (yielded i) = (i.receive_size ≡ none) × (i.final ≡ true)
  Ends _ = ⊥

  -- After the end of a session, calls that leave the store alone do not bring it back.
  gone :
      {A : Type 0} (s : ClientSession (Handler H)) (p : Provider H)
      (next : Unit {0} → Action (Provider H) A)
      → IsClientId s.client_id
      → ((u : Unit {0}) → Silent (next u))
      → Dict.get (followed_by (end_session setting now s p) next).1.sessions s.client_id ≡ none
  gone s p next valid h =
      ap (λ st. Dict.get st s.client_id)
        (followed-Silent (end_session setting now s p) next h
          ∙ (dropped_sessions (record s { phase = complete }) p valid).1)
      ∙ get-remove_self p.sessions s.client_id

  final_script :
      (s : ClientSession (Handler H)) (i : ExecutionRequest) (p : Provider H) (script : Text)
      → IsClientId s.client_id
      → Dict.get
          (followed_by
            (instruction_script setting now s i script none true p)
            (λ text. lift (compiled setting now text))).1.sessions
          s.client_id
        ≡ none
  unfolding instruction_script ◌>>=◌
  final_script s i p script valid =
      ap (λ st. Dict.get st s.client_id)
        (followed-Silent _ (λ text. lift (compiled setting now text))
          (λ text. lift-Silent (compiled setting now text)))
      ∙ gone s p (λ u. pure script) valid (λ u. record { silent = λ q. refl })

  -- When a handler returns, or raises ReceiveFailedError, or yields a final script that asks for
  -- no upload, its session, which has a valid id, is not in the store any more, whether or not an
  -- answer can be printed.
  pub ended_session :
      (s : ClientSession (Handler H)) (sent : Sent) (p : Provider H)
      → IsClientId s.client_id
      → Ends sent
      → Dict.get (after_send setting now s sent p).1.sessions s.client_id ≡ none
  unfolding after_send result_from_instruction ◌>>=◌
  ended_session s stopped p valid e =
      gone s p (λ u. raise file_not_found) valid (λ u. record { silent = λ q. refl })
  ended_session s (raised receive_failed) p valid e =
      gone s p (λ u. raise file_not_found) valid (λ u. record { silent = λ q. refl })
  ended_session s (yielded i) p valid (no_size, final) =
      rw (no_size, final) (final_script s i p (rstrip is_space i.script) valid)
  ended_session s _ p valid e = absurd e
