-- ===== src/Scripted/Isolation.antt =====
-- A read request of one client leaves the sessions of all others as they were.
use openipc_tftp.Common.{
  ℕ, ◌≡◌, refl, sym, ap, ◌∙◌, subst, Bool, true, false, Option, none, some, ok, List,
  receive_failed,
}
use openipc_tftp.Common.Text.{is_space, Text, Bytes, rstrip}
use openipc_tftp.Common.Stateful.{◌>>◌}
use openipc_tftp.Common.Dict
use openipc_tftp.Common.Dict.{Dict}
use openipc_tftp.Protocol.ClientId.{IsClientId}
use openipc_tftp.Sessions.{ClientSession, complete}
use openipc_tftp.Sessions.Store.{IsKeyed}
use openipc_tftp.Scripted.Setting.{ExecutionRequest, Handler, Setting, Provider, Offset}
use openipc_tftp.Scripted.Running.{Sent, yielded, yielded_other, stopped, raised, send}
use openipc_tftp.Scripted.Answers.{
  save, new_token, discard_session, end_session, receive_address, append_receive,
  instruction_script, result_from_instruction, after_send, advance_session, awaiting_upload,
  awaiting_rrq,
}
use openipc_tftp.Scripted.Untouched.{send-Untouched}
use openipc_tftp.Scripted.Frames.{
  Nothing, Keeps, >>=-Keeps, pure-Keeps, raise-Keeps, lift-Keeps, save-Keeps, drop-Keeps,
}

module _ {H : Type 0} (setting : Setting H) (now : ℕ) (c : Text) (valid : IsClientId c) where
  abbrev Owned : ClientSession (Handler H) → Type 0
  Owned s = s.client_id ≡ c

  -- A change of the downloads or of the count of drawn texts.
  pub drawn-Keeps :
      {A : Type 0} (value : Provider H → A) (drawn : Provider H → ℕ)
      → Keeps c Nothing (λ p. (ok (value p), record p { drawn = drawn p }))
  drawn-Keeps value drawn = record {
    frames = λ p keyed. record { keyed = keyed; others = λ j e. refl; value = tt };
  }

  pub discard-Keeps :
      (s : ClientSession (Handler H)) → Owned s → Keeps c Nothing (discard_session setting now s)
  unfolding discard_session
  discard-Keeps s own =
      >>=-Keeps c Nothing Nothing
        (record { frames = λ p keyed. record { keyed = keyed; others = λ j e. refl; value = tt } })
        (λ u _. drop-Keeps c valid s.client_id own)

  pub end-Keeps :
      (s : ClientSession (Handler H)) → Owned s → Keeps c Nothing (end_session setting now s)
  end-Keeps s own = discard-Keeps (record s { phase = complete }) own

  address-Keeps :
      (s : ClientSession (Handler H)) (offset : Option Offset)
      → Keeps c Nothing (receive_address setting now s offset)
  unfolding receive_address
  address-Keeps s none =
      >>=-Keeps c Nothing Nothing (lift-Keeps c _) (λ r _. pure-Keeps c Nothing _ tt)
  address-Keeps s (some offset) =
      >>=-Keeps c Nothing Nothing (drawn-Keeps _ _)
        (λ t _. >>=-Keeps c Nothing Nothing (lift-Keeps c _) (λ r _. pure-Keeps c Nothing _ tt))

  pub append-Keeps :
      (script : Text) (s : ClientSession (Handler H)) (keys : List Text) (offset : Option Offset)
      → Keeps c Nothing (append_receive setting now script s keys offset)
  unfolding append_receive
  append-Keeps script s keys offset = >>=-Keeps c Nothing Nothing (lift-Keeps c _) λ pending _.
      >>=-Keeps c Nothing Nothing (lift-Keeps c _) λ success _.
        >>=-Keeps c Nothing Nothing (lift-Keeps c _) λ failure _.
          >>=-Keeps c Nothing Nothing (address-Keeps s offset) λ address _.
            >>=-Keeps c Nothing Nothing (lift-Keeps c _) λ put _. pure-Keeps c Nothing _ tt

  script-Keeps :
      (s : ClientSession (Handler H)) (i : ExecutionRequest) (script : Text) (size : Option ℕ)
      (final : Bool)
      → Owned s
      → Keeps c Nothing (instruction_script setting now s i script size final)
  unfolding instruction_script new_token
  script-Keeps s i script (some size) final own =
      >>=-Keeps c Nothing Nothing (drawn-Keeps _ _) λ token _.
        >>=-Keeps c Nothing Nothing
          (save-Keeps c valid (awaiting_upload setting now token size s) own)
          λ u _.
            append-Keeps script (awaiting_upload setting now token size s) i.return_keys
              i.receive_offset
  script-Keeps s i script none true own =
      >>=-Keeps c Nothing Nothing (end-Keeps s own) λ u _. pure-Keeps c Nothing script tt
  script-Keeps s i script none false own = >>=-Keeps c Nothing Nothing (drawn-Keeps _ _) λ token _.
      >>=-Keeps c Nothing Nothing (save-Keeps c valid (awaiting_rrq setting now token s) own)
        λ u _. lift-Keeps c _

  result-Keeps :
      (s : ClientSession (Handler H)) (i : ExecutionRequest)
      → Owned s
      → Keeps c Nothing (result_from_instruction setting now s i)
  unfolding result_from_instruction
  result-Keeps s i own =
      >>=-Keeps c Nothing Nothing
        (script-Keeps s i (rstrip is_space i.script) i.receive_size i.final own)
        λ script _. lift-Keeps c _

  after-Keeps :
      (s : ClientSession (Handler H)) (sent : Sent)
      → Owned s
      → Keeps c Nothing (after_send setting now s sent)
  unfolding after_send
  after-Keeps s (yielded i) own = result-Keeps s i own
  after-Keeps s yielded_other own = raise-Keeps c Nothing _
  after-Keeps s stopped own =
      >>=-Keeps c Nothing Nothing (end-Keeps s own) λ u _. raise-Keeps c Nothing _
  after-Keeps s (raised receive_failed) own =
      >>=-Keeps c Nothing Nothing (end-Keeps s own) λ u _. raise-Keeps c Nothing _
  after-Keeps s (raised e) own = raise-Keeps c Nothing _

  pub advance-Keeps :
      (s : ClientSession (Handler H)) (handler : Handler H) (value : Option Bytes)
      → Owned s
      → Keeps c Nothing (advance_session setting now s handler value)
  unfolding advance_session
  advance-Keeps s handler value own = record {
    frames = λ p keyed.
        let played = send setting now handler value s p in
        let same = send-Untouched setting now handler value s p in
        let session = record played.session { handler = some played.handler } in
        let rest : Keeps c Nothing (do save session; after_send setting now session played.sent) =
          >>=-Keeps c Nothing Nothing (save-Keeps c valid session (same.client_id ∙ own))
            λ u _. after-Keeps session played.sent (same.client_id ∙ own) in
        let f = rest.frames played.provider (subst IsKeyed (sym same.sessions) keyed) in
        record {
          keyed = f.keyed;
          others = λ j e. f.others j e ∙ ap (λ st. Dict.get st j) same.sessions;
          value = f.value;
        };
  }
