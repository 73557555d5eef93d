-- ===== src/Common/Stateful.antt =====
-- A call that changes a state and may raise: what was changed before it raised stays changed.
use openipc_tftp.Common.Errors.{Error, Result, ok, err}

abbrev pub Action : Type 0 → Type 0 → Type 0
Action S A = S → Result A × S

module _ {S A : Type 0} where
  abbrev pub pure : A → Action S A
  pure a s = (ok a, s)

  abbrev pub raise : Error → Action S A
  raise e s = (err e, s)

  abbrev pub gets : (S → A) → Action S A
  gets read s = (ok (read s), s)

  -- A call that changes nothing.
  abbrev pub lift : Result A → Action S A
  lift r s = (r, s)

abbrev pub modify : {S : Type 0} → (S → S) → Action S (Unit {0})
modify f s = (ok tt, f s)

abbrev pub followed_by : {S A B : Type 0} → Result A × S → (A → Action S B) → Result B × S
followed_by (err e, s) next = (err e, s)
followed_by (ok a, s) next = next a s

infixl 5 ◌>>=◌ ◌>>◌
unfoldable pub ◌>>=◌ : {S A B : Type 0} → Action S A → (A → Action S B) → Action S B
◌>>=◌ call next s = followed_by (call s) next

abbrev pub ◌>>◌ : {S B : Type 0} → Action S (Unit {0}) → Action S B → Action S B
call >> next = call >>= λ nothing. next

-- A property of every state that a call leaves, whether it returns or raises.
abbrev pub Leaves : {S A : Type 0} → (S → Type 0) → Result A × S → Type 0
Leaves I r = I r.1
