-- ===== src/Tasks/Always.antt =====
-- What holds of the result of a coroutine, whatever its client and the provider answer.
use openipc_tftp.Common.{Result, ok, err, Ensures}
use openipc_tftp.Scripted.Setting.{Answer}
use openipc_tftp.Common.{key_error}
use openipc_tftp.Common.Text.{Text, Bytes}
use openipc_tftp.Tasks.{
  Task, gives, fails, asks, execs, receives, out_of_fuel, ◌>>=◌, from_result, env_value, looked_up,
  or_raise,
}

-- The coroutine never runs out of fuel, and a result that it gives has the property.
abbrev pub Always : {A : Type 0} → (A → Type 0) → Task A → Type 0
Always P (gives a) = P a
Always P (fails e) = Unit
Always P (asks call k) = (r : Result Answer) → Always P (k r)
Always P (execs script final keys k) = (r : Result (Unit {0})) → Always P (k r)
Always P (receives script size k) = (r : Result Bytes) → Always P (k r)
Always P out_of_fuel = ⊥

pub Always-bind :
    {A B : Type 0} (Q : A → Type 0) (P : B → Type 0) (t : Task A) (next : A → Task B)
    → Always Q t
    → ((a : A) → Q a → Always P (next a))
    → Always P (t >>= next)
unfolding ◌>>=◌
Always-bind Q P (gives a) next h k = k a h
Always-bind Q P (fails e) next h k = tt
Always-bind Q P (asks call f) next h k = λ r. Always-bind Q P (f r) next (h r) k
Always-bind Q P (execs script final keys f) next h k = λ r. Always-bind Q P (f r) next (h r) k
Always-bind Q P (receives script size f) next h k = λ r. Always-bind Q P (f r) next (h r) k
Always-bind Q P out_of_fuel next h k = absurd h

pub Always-from_result :
    {A : Type 0} (P : A → Type 0) (r : Result A) → Ensures P r → Always P (from_result r)
Always-from_result P (ok a) h = h
Always-from_result P (err e) h = tt

-- No property at all.
abbrev pub Anything : {A : Type 0} → A → Type 0
Anything a = Unit

Ensures-Anything : {A : Type 0} (r : Result A) → Ensures Anything r
Ensures-Anything (ok a) = tt
Ensures-Anything (err e) = tt

pub result-Always : {A : Type 0} (r : Result A) → Always Anything (from_result r)
result-Always r = Always-from_result Anything r (Ensures-Anything r)

pub env_value-Always : (key : Text) → Always Anything (env_value key)
unfolding ◌>>=◌
env_value-Always key = λ r.
    Always-bind Anything Anything (from_result (looked_up r)) _ (result-Always (looked_up r))
      (λ found _. result-Always (or_raise key_error found))

pub weaker :
    {A : Type 0} {P Q : A → Type 0} (t : Task A) → ((a : A) → P a → Q a) → Always P t → Always Q t
weaker (gives a) h p = h a p
weaker (fails e) h p = tt
weaker (asks call k) h p = λ r. weaker (k r) h (p r)
weaker (execs script final keys k) h p = λ r. weaker (k r) h (p r)
weaker (receives script size k) h p = λ r. weaker (k r) h (p r)
weaker out_of_fuel h p = p
