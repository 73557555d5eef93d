-- ===== src/Scripted/Silent.antt =====
-- Calls of the provider that leave the store of sessions alone.
use openipc_tftp.Common.{◌≡◌, refl, ◌∙◌, Result, ok, err}
use openipc_tftp.Common.Stateful.{Action, lift, followed_by, ◌>>=◌}
use openipc_tftp.Scripted.Setting.{Provider}

-- A call that leaves the sessions as they are.
pub record Silent {H A : Type 0} (call : Action (Provider H) A) : Type 0 where
  pub silent : (p : Provider H) → (call p).1.sessions ≡ p.sessions

module _ {H A B : Type 0} where
  pub followed-Silent :
      (r : Result A × Provider H) (next : A → Action (Provider H) B)
      → ((a : A) → Silent (next a))
      → (followed_by r next).1.sessions ≡ r.1.sessions
  followed-Silent (err e, q) next h = refl
  followed-Silent (ok a, q) next h = (h a).silent q

  pub >>=-Silent :
      {call : Action (Provider H) A} {next : A → Action (Provider H) B}
      → Silent call
      → ((a : A) → Silent (next a))
      → Silent (call >>= next)
  unfolding ◌>>=◌
  >>=-Silent {call} {next} h k = record {
    silent = λ p. followed-Silent (call p) next k ∙ h.silent p;
  }

pub lift-Silent : {H A : Type 0} (r : Result A) → Silent {H = H} (lift r)
lift-Silent r = record { silent = λ p. refl }
