-- ===== src/Scripted/Frames.antt =====
-- A read request of one client and the sessions of the others.
use openipc_tftp.Common.{ℕ, ◌≡◌, refl, sym, ◌∙◌, subst, false, Result, ok, err, Error, Ensures}
use openipc_tftp.Common.Text.{Text, text_eq}
use openipc_tftp.Common.Stateful.{Action, pure, raise, lift, followed_by, ◌>>=◌}
use openipc_tftp.Common.Dict
use openipc_tftp.Common.Dict.{get-put, get-remove}
use openipc_tftp.Protocol.ClientId.{IsClientId, normalize_fixed}
use openipc_tftp.Sessions
use openipc_tftp.Sessions.{ClientSession, PendingReceive, new_session}
use openipc_tftp.Sessions.Store.{IsKeyed, save-IsKeyed, remove-IsKeyed, put-IsKeyed}
use openipc_tftp.Scripted.Setting.{Handler, Provider}
use openipc_tftp.Scripted.Answers.{renew_session, drop_session, save}

-- What a call for the client `c` may do to the store of sessions; the value it returns has `P`.
pub record Frames {H A : Type 0} (c : Text) (P : A → Type 0) (p : Provider H)
    (r : Result A × Provider H) : Type 0 where
  pub keyed : IsKeyed r.1.sessions
  pub others : (j : Text) → text_eq c j ≡ false → Dict.get r.1.sessions j ≡ Dict.get p.sessions j
  pub value : Ensures P r.0

abbrev pub Nothing : {A : Type 0} → A → Type 0
Nothing a = Unit

-- For every provider whose sessions are keyed.
pub record Keeps {H A : Type 0} (c : Text) (P : A → Type 0) (call : Action (Provider H) A)
    : Type 0 where
  pub frames : (p : Provider H) → IsKeyed p.sessions → Frames c P p (call p)

module _ {H : Type 0} (c : Text) where
  module _ {A B : Type 0} (P : A → Type 0) (Q : B → Type 0) where
    followed-Frames :
        (p : Provider H) (r : Result A × Provider H) (next : A → Action (Provider H) B)
        → Frames c P p r
        → ((a : A) → P a → Keeps c Q (next a))
        → Frames c Q p (followed_by r next)
    followed-Frames p (err e, q) next f k = record {
      keyed = f.keyed;
      others = f.others;
      value = tt;
    }
    followed-Frames p (ok a, q) next f k =
        let g = (k a f.value).frames q f.keyed in
        record { keyed = g.keyed; others = λ j e. g.others j e ∙ f.others j e; value = g.value }

    pub >>=-Keeps :
        {call : Action (Provider H) A} {next : A → Action (Provider H) B}
        → Keeps c P call
        → ((a : A) → P a → Keeps c Q (next a))
        → Keeps c Q (call >>= next)
    unfolding ◌>>=◌
    >>=-Keeps {call} {next} h k = record {
      frames = λ p keyed. followed-Frames p (call p) next (h.frames p keyed) k;
    }

  module _ {A : Type 0} where
    pub pure-Keeps : (P : A → Type 0) (a : A) → P a → Keeps {H = H} c P (pure a)
    pure-Keeps P a h = record {
      frames = λ p keyed. record { keyed = keyed; others = λ j e. refl; value = h };
    }

    pub raise-Keeps : (P : A → Type 0) (e : Error) → Keeps {H = H} c P (raise e)
    raise-Keeps P e = record {
      frames = λ p keyed. record { keyed = keyed; others = λ j x. refl; value = tt };
    }

    lifted : (r : Result A) (p : Provider H) → IsKeyed p.sessions → Frames c Nothing p (lift r p)
    lifted (ok a) p keyed = record { keyed = keyed; others = λ j e. refl; value = tt }
    lifted (err x) p keyed = record { keyed = keyed; others = λ j e. refl; value = tt }

    pub lift-Keeps : (r : Result A) → Keeps {H = H} c Nothing (lift r)
    lift-Keeps r = record { frames = lifted r }

  module _ (valid : IsClientId c) where
    pub save-Keeps : (s : ClientSession (Handler H)) → s.client_id ≡ c → Keeps c Nothing (save s)
    unfolding Sessions.save
    save-Keeps s own = record {
      frames = λ p keyed. record {
        keyed = save-IsKeyed p.sessions s (subst IsClientId (sym own) valid) keyed;
        others = λ j e. rw (get-put p.sessions s.client_id s j) (rw own (rw e refl));
        value = tt;
      };
    }

    pub drop-Keeps : (id : Text) → id ≡ c → Keeps {H = H} c Nothing (drop_session id)
    unfolding Sessions.discard
    drop-Keeps id own = record {
      frames = λ p keyed. rw own (
          rw (normalize_fixed c valid) (record {
            keyed = remove-IsKeyed p.sessions c keyed;
            others = λ j e. rw (get-remove p.sessions c j) (rw e refl);
            value = tt;
          }));
    }

    renewed :
        (now : ℕ) (p : Provider H)
        → IsKeyed p.sessions
        → Frames c (λ (s : ClientSession (Handler H)). s.client_id ≡ c) p (renew_session now c p)
    unfolding Sessions.replace Sessions.create
    renewed now p keyed = rw (normalize_fixed c valid) (
        rw (normalize_fixed c valid) (record {
          keyed = put-IsKeyed _ (new_session now c) valid (remove-IsKeyed p.sessions c keyed);
          others = λ j e.
              rw (get-put (Dict.remove p.sessions c) c (new_session now c) j)
                (rw e (rw (get-remove p.sessions c j) (rw e refl)));
          value = refl;
        }))

    pub renew-Keeps :
        (now : ℕ)
        → Keeps c (λ (s : ClientSession (Handler H)). s.client_id ≡ c) (renew_session now c)
    renew-Keeps now = record { frames = renewed now }
