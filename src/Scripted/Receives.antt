-- ===== src/Scripted/Receives.antt =====
-- An upload that a printed script makes is the one that the upload store waits for.
use openipc_tftp.Common.{
  ℕ, ◌≡◌, refl, ap, ◌∙◌, Bool, true, false, ◌||◌, List, [], ◌∷◌, ◌++◌, Option, none, some, Result,
  ok, err, append_assoc,
}
use openipc_tftp.Common.Text.{
  is_space, Text, codes, text_eq, text_eq_refl, has_char-Lacks, ends_with, join, partition, rstrip,
}
use openipc_tftp.Common.Dict
use openipc_tftp.Common.Dict.{get-put_self}
use openipc_tftp.Common.Stateful.{lift, followed_by, ◌>>=◌}
use openipc_tftp.Protocol.{parse_request_path, collect_values, add_value}
use openipc_tftp.Protocol.ClientId.{IsClientId}
use openipc_tftp.Protocol.Print.{print_path, printed, parse-print_path}
use openipc_tftp.Sessions
use openipc_tftp.Sessions.{ClientSession, PendingReceive}
use openipc_tftp.Uploads.{is_expected}
use openipc_tftp.Uploads.Capture.{Awaits}
use openipc_tftp.Scripted.Setting.{Handler, Setting, Provider, ExecutionRequest, Offset}
use openipc_tftp.Scripted.Texts.{upload_remote}
use openipc_tftp.Scripted.Answers.{
  receive_address, append_receive, instruction_script, result_from_instruction, new_token,
  awaiting_upload,
}
use openipc_tftp.Scripted.Silent.{Silent, >>=-Silent, lift-Silent}
use openipc_tftp.Scripted.Paths.{
  IsPlain, pair, token_pair, add_pair, token-IsPair, pair-IsSegment, put_pair,
}

ends_with_self : (w : Text) → ends_with w w ≡ true
unfolding ends_with
ends_with_self [] = text_eq_refl []
ends_with_self (c ∷ w) = rw (text_eq_refl (c ∷ w)) refl

ends_with_or : (a b : Bool) → b ≡ true → (a || b) ≡ true
ends_with_or true b h = refl
ends_with_or false b h = h

ends_with-append : (s w : Text) → ends_with w (s ++ w) ≡ true
unfolding ends_with
ends_with-append [] w = ends_with_self w
ends_with-append (c ∷ s) w = ends_with_or (text_eq w (c ∷ (s ++ w))) _ (ends_with-append s w)

abbrev message : Text → List Text
message token = pair (token_pair token) ∷ codes "upload.bin" ∷ []

upload_path_printed :
    (id : Text) (pending : PendingReceive)
    → pending.upload_path ≡ codes "/upload.bin"
    → upload_remote id pending ≡ print_path id (message pending.token)
unfolding upload_remote join token_pair
upload_path_printed id pending h =
    rw h (append_assoc (codes "id=") id (codes "/token=" ++ (pending.token ++ codes "/upload.bin")))

message_values :
    (token : Text)
    → IsPlain token
    → collect_values [] (message token) ≡ put_pair [] (token_pair token)
unfolding collect_values
message_values token h =
    ap (λ d. collect_values d (codes "upload.bin" ∷ []))
      (add_pair [] (token_pair token) (token-IsPair token h))
    ∙ last_value (put_pair [] (token_pair token))
  where
    last_value : (d : _) → collect_values d (codes "upload.bin" ∷ []) ≡ d
    last_value d = unfold add_value partition in refl

printed_token :
    (token : Text) → Dict.get (put_pair [] (token_pair token)) (codes "token") ≡ some token
unfolding put_pair token_pair Dict.get Dict.put text_eq
printed_token token = refl

printed-is_expected :
    (id : Text) (pending : PendingReceive)
    → pending.upload_path ≡ codes "/upload.bin"
    → IsPlain pending.token
    → is_expected (printed id (message pending.token)) pending ≡ true
unfolding join token_pair
printed-is_expected id pending h plain = rw h (
    rw (ends_with-append (codes "/token=" ++ pending.token) (codes "/upload.bin")) (
      rw (message_values pending.token plain)
        (rw (printed_token pending.token) (text_eq_refl pending.token))))

module _ {H : Type 0} where
  -- The session that waits for an upload accepts it under the path that the script is given.
  pub remote-Awaits :
      (sessions : Sessions.Sessions H) (id : Text) (s : ClientSession H) (pending : PendingReceive)
      → IsClientId id
      → Dict.get sessions id ≡ some s
      → s.pending_receive ≡ some pending
      → pending.upload_path ≡ codes "/upload.bin"
      → IsPlain pending.token
      → Awaits sessions (upload_remote id pending) id s pending
  remote-Awaits sessions id s pending valid found waits path plain = record {
    parsed = printed id (message pending.token);
    parses =
        ap parse_request_path (upload_path_printed id pending path)
        ∙ parse-print_path id (message pending.token) valid (
          pair-IsSegment (token_pair pending.token) (token-IsPair pending.token plain),
          (
            (
              (λ e. cc),
              has_char-Lacks b'/' (codes "upload.bin") refl,
              has_char-Lacks b'%' (codes "upload.bin") refl,
            ),
            tt,
          ),
        );
    client = refl;
    valid = valid;
    found = found;
    waits = waits;
    fits = printed-is_expected id pending path plain;
  }

module _ {H : Type 0} (setting : Setting H) (now : ℕ) (s : ClientSession (Handler H)) where
  address-Silent : (offset : Option Offset) → Silent (receive_address setting now s offset)
  unfolding receive_address
  address-Silent none = >>=-Silent (lift-Silent _) λ r. record { silent = λ p. refl }
  address-Silent (some offset) =
      >>=-Silent (record { silent = λ p. refl })
        λ t. >>=-Silent (lift-Silent _) λ r. record { silent = λ p. refl }

  append-Silent :
      (script : Text) (keys : List Text) (offset : Option Offset)
      → Silent (append_receive setting now script s keys offset)
  unfolding append_receive
  append-Silent script keys offset = >>=-Silent (lift-Silent _) λ pending.
      >>=-Silent (lift-Silent _) λ success. >>=-Silent (lift-Silent _) λ failure.
        >>=-Silent (address-Silent offset)
          λ address. >>=-Silent (lift-Silent _) λ put. record { silent = λ p. refl }

module _ {H : Type 0} (setting : Setting H) (now : ℕ) where
  script_sessions :
      (s : ClientSession (Handler H)) (i : ExecutionRequest) (script : Text) (size : ℕ)
      (final : Bool) (p : Provider H)
      → (instruction_script setting now s i script (some size) final p).1.sessions
        ≡ Sessions.save p.sessions
            (awaiting_upload setting now (setting.token_urlsafe p.drawn) size s)
  unfolding instruction_script new_token ◌>>=◌
  script_sessions s i script size final p =
      (append-Silent setting now
          (awaiting_upload setting now (setting.token_urlsafe p.drawn) size s) script i.return_keys
          i.receive_offset).silent
        _

  lifted_sessions :
      {A B : Type 0} (r : Result A × Provider H) (next : A → Result B)
      → (followed_by r (λ a. lift (next a))).1.sessions ≡ r.1.sessions
  lifted_sessions (err e, q) next = refl
  lifted_sessions (ok a, q) next = refl

  result_sessions :
      (s : ClientSession (Handler H)) (i : ExecutionRequest) (size : ℕ) (p : Provider H)
      → i.receive_size ≡ some size
      → (result_from_instruction setting now s i p).1.sessions
        ≡ Sessions.save p.sessions
            (awaiting_upload setting now (setting.token_urlsafe p.drawn) size s)
  unfolding result_from_instruction ◌>>=◌
  result_sessions s i size p h =
      lifted_sessions
        (instruction_script setting now s i (rstrip is_space i.script) i.receive_size i.final p) _
      ∙ ap
          (λ o.
            (instruction_script setting now s i (rstrip is_space i.script) o i.final p).1.sessions)
          h
      ∙ script_sessions s i (rstrip is_space i.script) size i.final p

  -- When a session with a valid id is given an instruction that asks for an upload, then in the
  -- state that this leaves, whether or not the script can be printed, the upload store awaits an
  -- upload to the path that the script names, under the newly drawn token and for the size that
  -- was asked for, if that token has no slash and no percent sign.
  pub receive_accepted :
      (s : ClientSession (Handler H)) (i : ExecutionRequest) (size : ℕ) (p : Provider H)
      → IsClientId s.client_id
      → i.receive_size ≡ some size
      → IsPlain (setting.token_urlsafe p.drawn)
      → (pending : PendingReceive) × (pending.size ≡ size)
        × (pending.token ≡ setting.token_urlsafe p.drawn)
        × Awaits
            (result_from_instruction setting now s i p).1.sessions
            (upload_remote s.client_id pending)
            s.client_id
            (awaiting_upload setting now (setting.token_urlsafe p.drawn) size s)
            pending
  unfolding Sessions.save
  receive_accepted s i size p valid h plain =
      let waiting = awaiting_upload setting now (setting.token_urlsafe p.drawn) size s in
      let pending : PendingReceive = record {
        token = setting.token_urlsafe p.drawn;
        upload_path = codes "/upload.bin";
        size = size;
        uploaded = none;
      } in
      (
        pending,
        refl,
        refl,
        remote-Awaits (result_from_instruction setting now s i p).1.sessions s.client_id waiting
            pending valid
            (ap (λ st. Dict.get st s.client_id) (result_sessions s i size p h)
              ∙ get-put_self p.sessions s.client_id waiting)
            refl refl plain,
      )
