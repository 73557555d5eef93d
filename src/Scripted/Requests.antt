-- ===== src/Scripted/Requests.antt =====
-- The dispatch of a read request leaves the sessions of all other clients as they were.
use openipc_tftp.Common.{
  ℕ, ◌≡◌, refl, sym, ◌∙◌, subst, Bool, true, false, Option, none, some, ok, [], ◌∷◌, inl, inr,
  foldl, file_not_found, Bool-cases, ◌||◌,
}
use openipc_tftp.Common.Text.{Text, text_eq, codes}
use openipc_tftp.Common.Stateful.{◌>>=◌}
use openipc_tftp.Common.Dict
use openipc_tftp.Common.Dict.{Dict}
use openipc_tftp.Protocol.{ParsedPath, parse_request_path}
use openipc_tftp.Protocol.ClientId.{IsClientId}
use openipc_tftp.Sessions
use openipc_tftp.Sessions.{ClientSession, PendingReceive, complete}
use openipc_tftp.Sessions.Store.{IsKeyed, get_valid, require_valid}
use openipc_tftp.Protocol.Sound.{parse-IsWellFormed, HasValidId}
use openipc_tftp.Scripted.Setting.{ContentRequest, Handler, Setting, Provider}
use openipc_tftp.Scripted.Answers.{in_sessions, new_token, awaiting_rrq}
use openipc_tftp.Scripted.Dispatch.{
  preflight_result, discard_existing, started, start_session, sends, resume_handler,
  after_preflight, continue_session, continued, resume_session, fetch_parsed, fetch,
  is_continuation, merge_value, merge_continuation_values,
}
use openipc_tftp.Scripted.Frames.{
  Frames, Nothing, Keeps, >>=-Keeps, pure-Keeps, lift-Keeps, save-Keeps, renew-Keeps,
}
use openipc_tftp.Scripted.Isolation.{drawn-Keeps, discard-Keeps, end-Keeps, advance-Keeps}

merge_value-client_id :
    {H : Type 0} (s : ClientSession H) (b : Text × Text) → (merge_value s b).client_id ≡ s.client_id
unfolding merge_value
merge_value-client_id s (key, value) =
    elim (Bool-cases (text_eq key (codes "token") || text_eq key (codes "recv"))) [
      | inl skipped ↦ rw skipped refl
      | inr merged ↦ rw merged refl
    ]

merged-client_id :
    {H : Type 0} (values : Dict Text) (s : ClientSession H)
    → (foldl merge_value s values).client_id ≡ s.client_id
merged-client_id [] s = refl
merged-client_id (b ∷ values) s =
    merged-client_id values (merge_value s b) ∙ merge_value-client_id s b

module _ {H : Type 0} (setting : Setting H) (now : ℕ) (c : Text) (valid : IsClientId c) where
  abbrev Owned : ClientSession (Handler H) → Type 0
  Owned s = s.client_id ≡ c

  preflight-Keeps :
      (s : ClientSession (Handler H)) → Owned s → Keeps c Nothing (preflight_result setting now s)
  unfolding preflight_result new_token
  preflight-Keeps s own =
      >>=-Keeps c Nothing Nothing (drawn-Keeps setting now c valid _ _) λ token _.
        >>=-Keeps c Nothing Nothing (save-Keeps c valid (awaiting_rrq setting now token s) own)
          λ u _.
            >>=-Keeps c Nothing Nothing (lift-Keeps c _)
              λ probe _. >>=-Keeps c Nothing Nothing (lift-Keeps c _) λ script _. lift-Keeps c _

  sends-Owned :
      (parsed : ParsedPath) (s : ClientSession (Handler H)) (o : Option PendingReceive)
      → Owned s
      → Owned (sends setting now parsed s o).0
  unfolding sends
  sends-Owned parsed s none own = own
  sends-Owned parsed s (some pending) own = own

  resume_handler-Keeps :
      (parsed : ParsedPath) (s : ClientSession (Handler H))
      → Owned s
      → Keeps c Nothing (resume_handler setting now parsed s)
  unfolding resume_handler
  resume_handler-Keeps parsed s own =
      let sent = sends setting now parsed s s.pending_receive in
      let sent_own = sends-Owned parsed s s.pending_receive own in
      >>=-Keeps c Nothing Nothing (lift-Keeps c _) λ handler _.
        >>=-Keeps c Nothing Nothing (save-Keeps c valid sent.0 sent_own)
          λ u _. advance-Keeps setting now c valid sent.0 handler sent.1 sent_own

  preflight_end-Keeps :
      (parsed : ParsedPath) (s : ClientSession (Handler H)) (hush : Bool)
      → Owned s
      → Keeps c Nothing (after_preflight setting now parsed s hush)
  unfolding after_preflight
  preflight_end-Keeps parsed s false own =
      >>=-Keeps c Nothing Nothing (end-Keeps setting now c valid s own)
        λ u _. >>=-Keeps c Nothing Nothing (lift-Keeps c _) λ script _. lift-Keeps c _
  preflight_end-Keeps parsed s true own = >>=-Keeps c Nothing Nothing (lift-Keeps c _) λ handler _.
      >>=-Keeps c Nothing Nothing (save-Keeps c valid (record s { handler = some handler }) own)
        λ u _. resume_handler-Keeps parsed (record s { handler = some handler }) own

  continue-Keeps :
      (parsed : ParsedPath) (s : ClientSession (Handler H)) (pending : Bool)
      → Owned s
      → Keeps c Nothing (continue_session setting now parsed s pending)
  unfolding continue_session
  continue-Keeps parsed s true own =
      >>=-Keeps c Nothing Nothing (save-Keeps c valid (record s { preflight_pending = false }) own)
        λ u _. preflight_end-Keeps parsed (record s { preflight_pending = false }) _ own
  continue-Keeps parsed s false own = resume_handler-Keeps parsed s own

  continued-Owned :
      (parsed : ParsedPath) (s : ClientSession (Handler H))
      → Owned s
      → Owned (continued setting now parsed s)
  unfolding continued merge_continuation_values Sessions.record_rrq
  continued-Owned parsed s own = merged-client_id parsed.values _ ∙ own

  found-Frames :
      (p : Provider H)
      → IsKeyed p.sessions
      → (o : Option (ClientSession (Handler H))) → Dict.get p.sessions c ≡ o
      → Frames c Owned p (Sessions.found_or file_not_found o, p)
  found-Frames p keyed none e = record { keyed = keyed; others = λ j x. refl; value = tt }
  found-Frames p keyed (some s) e = record {
    keyed = keyed;
    others = λ j x. refl;
    value = (keyed.own c s e).0;
  }

  require-Keeps : Keeps {H = H} c Owned (in_sessions (λ st. Sessions.require st c))
  require-Keeps = record {
    frames = λ p keyed.
        rw (require_valid p.sessions c valid) (found-Frames p keyed (Dict.get p.sessions c) refl);
  }

  abbrev Existing : Option (ClientSession (Handler H)) → Type 0
  Existing o = (s : ClientSession (Handler H)) → o ≡ some s → Owned s

  Existing-Keeps : Keeps {H = H} c Existing (in_sessions (λ st. Sessions.get st c))
  Existing-Keeps = record {
    frames = λ p keyed.
        rw (get_valid p.sessions c valid)
          (record { keyed = keyed; others = λ j x. refl; value = λ s e. (keyed.own c s e).0 });
  }

  old-Keeps :
      (o : Option (ClientSession (Handler H)))
      → Existing o
      → Keeps c Nothing (discard_existing setting now o)
  unfolding discard_existing
  old-Keeps none own = pure-Keeps c Nothing tt tt
  old-Keeps (some s) own = discard-Keeps setting now c valid s (own s refl)

  start-Keeps :
      (request : ContentRequest) (parsed : ParsedPath)
      → Keeps c Nothing (start_session setting now request parsed c)
  unfolding start_session started Sessions.record_rrq
  start-Keeps request parsed = >>=-Keeps c Existing Nothing Existing-Keeps λ o own.
      >>=-Keeps c Nothing Nothing (old-Keeps o own) λ u _.
        >>=-Keeps c Owned Nothing (renew-Keeps c valid now) λ s fresh.
          >>=-Keeps c Nothing Nothing
            (save-Keeps c valid (started setting now request parsed s) fresh)
            λ v _. preflight-Keeps (started setting now request parsed s) fresh

  resume-Keeps : (parsed : ParsedPath) → Keeps c Nothing (resume_session setting now parsed c)
  unfolding resume_session
  resume-Keeps parsed = >>=-Keeps c Owned Nothing require-Keeps λ s own.
      >>=-Keeps c Nothing Nothing (lift-Keeps c _) λ u _.
        >>=-Keeps c Nothing Nothing
          (save-Keeps c valid (continued setting now parsed s) (continued-Owned parsed s own))
          λ v _.
            continue-Keeps parsed (continued setting now parsed s) s.preflight_pending
              (continued-Owned parsed s own)

  fetch_parsed-Keeps :
      (request : ContentRequest) (parsed : ParsedPath) (continues : Bool)
      → Keeps c Nothing (fetch_parsed setting now request parsed (some c) continues)
  unfolding fetch_parsed
  fetch_parsed-Keeps request parsed true = resume-Keeps parsed
  fetch_parsed-Keeps request parsed false = start-Keeps request parsed

  dispatched-Keeps :
      (request : ContentRequest) (parsed : ParsedPath) (o : Option Text) (continues : Bool)
      → some c ≡ o
      → Keeps c Nothing (fetch_parsed setting now request parsed o continues)
  dispatched-Keeps request parsed o continues e =
      subst (λ i. Keeps c Nothing (fetch_parsed setting now request parsed i continues)) e
        (fetch_parsed-Keeps request parsed continues)

module _ {H : Type 0} (setting : Setting H) (now : ℕ) (request : ContentRequest)
    (p : Provider H) where
  -- From sessions that each stand under their own id, a read request whose path is parsed to the
  -- client c keeps them so, and leaves the sessions of all other clients as they were, whatever
  -- c's handler does and whether the request is answered or raises.
  pub fetch_others :
      (parsed : ParsedPath) (c : Text)
      → parse_request_path request.filename ≡ ok parsed
      → parsed.client_id ≡ some c
      → IsKeyed p.sessions
      → IsKeyed (fetch setting now request p).1.sessions
        × ((j : Text)
            → text_eq c j ≡ false
            → Dict.get (fetch setting now request p).1.sessions j ≡ Dict.get p.sessions j)
  unfolding fetch ◌>>=◌
  fetch_others parsed c h identified keyed =
      let valid : IsClientId c =
        subst (λ (o : Option Text). HasValidId o parsed.values) identified
          (parse-IsWellFormed request.filename h).identified in
      let f =
        (dispatched-Keeps setting now c valid request parsed parsed.client_id
            (is_continuation parsed) (sym identified)).frames
          p keyed in
      rw h (f.keyed, f.others)
