-- ===== src/Tasks.antt =====
-- Coroutines of the repository that drive a client through the SessionHandle of
-- src/uboot_tftp/scripted.py: SessionHandle.fetch_env, and what the modules for uboot_tftp/ubootops.py
-- and scripts/openipc.py are written with.
pub mod Always
pub mod Client
use openipc_tftp.Common.{
  ℕ, Bool, true, false, List, [], ◌∷◌, ◌++◌, Option, none, some, Result, ok, err, Error,
  value_error, key_error, type_error, runtime_error, drop, not, ◌&&◌, ◌||◌, is_empty, all_of, leb,
  if◌then◌else◌,
}
use openipc_tftp.Common.Text.{Text, Bytes, codes, strip, lower, starts_with, is_space}
use openipc_tftp.Common.Digits.{value}
use openipc_tftp.Common.Dict.{Dict}
use openipc_tftp.Env.{parse_export}
use openipc_tftp.Env.Layout.{int_of}
use openipc_tftp.Scripted.Setting.{
  Call, env_get, Answer, a_text, missing, Lines, many, Run, calls, awaits_exec, awaits_recv,
  returns, raises,
}
use openipc_tftp.Scripted.Texts.{variable}

-- What a coroutine does next. `execs` and `receives` await `exec` and `exec_recv`; they go on with
-- what the call returns or raises. `out_of_fuel` is no step of the source.
pub data Task (A : Type 0) : Type 0 where
  gives : A → Task A
  fails : Error → Task A
  asks : Call → (Result Answer → Task A) → Task A
  execs : Lines → Bool → List Text → (Result (Unit {0}) → Task A) → Task A
  receives : Lines → ℕ → (Result Bytes → Task A) → Task A
  out_of_fuel : Task A

infixl 5 ◌>>=◌ ◌>>◌
unfoldable pub ◌>>=◌ : {A B : Type 0} → Task A → (A → Task B) → Task B
gives a >>= next = next a
fails e >>= next = fails e
asks call k >>= next = asks call (λ r. k r >>= next)
execs script final keys k >>= next = execs script final keys (λ r. k r >>= next)
receives script size k >>= next = receives script size (λ r. k r >>= next)
out_of_fuel >>= next = out_of_fuel

abbrev pub ◌>>◌ : {B : Type 0} → Task (Unit {0}) → Task B → Task B
first >> next = first >>= λ nothing. next

abbrev pub from_result : {A : Type 0} → Result A → Task A
from_result (ok a) = gives a
from_result (err e) = fails e

-- `await tftp.exec(script, final=final, keys=keys)`
abbrev pub exec : List Text → Bool → List Text → Task (Unit {0})
exec script final keys = execs (many script) final keys from_result

-- `await tftp.exec_recv(script, size)`
abbrev pub exec_recv : Lines → ℕ → Task Bytes
exec_recv script size = receives script size from_result

abbrev pub looked_up : Result Answer → Result (Option Text)
looked_up (err e) = err e
looked_up (ok (a_text t)) = ok (some t)
looked_up (ok other) = ok none

-- `tftp.env.get(key)`
abbrev pub env_find : Text → Task (Option Text)
env_find key = asks (env_get key) (λ r. from_result (looked_up r))

abbrev pub or_raise {ℓ} : {A : Type ℓ} → Error → Option A → Result A
or_raise e none = err e
or_raise e (some a) = ok a

-- `tftp.env[key]`
abbrev pub env_value : Text → Task Text
env_value key = env_find key >>= λ found. from_result (or_raise key_error found)

-- `_parse_uboot_number`, for texts without signs and underscores.
unfoldable pub parse_uboot_number : Text → Result ℕ
unfolding int_of
parse_uboot_number value =
    let token = lower (strip is_space value) in
    if starts_with (codes "0x") token then int_of 16 (drop 2 token) else int_of 16 token

-- `fetch_env` with the script of the export, its size's variable, and the script of the upload.
unfoldable pub fetch_env : Lines → Lines → Text → Task (Dict Text)
unfolding ◌>>=◌ parse_uboot_number
fetch_env export_script upload_script size_key = do
  execs export_script false (size_key ∷ []) from_result
  found ← env_find size_key
  size_text ← from_result (or_raise value_error found)
  size ← from_result (parse_uboot_number size_text)
  body ← exec_recv upload_script size
  gives (parse_export body)

abbrev pub default_export : Text → Lines
default_export rambase = many ((codes "env export -t " ++ rambase) ∷ [])

abbrev pub default_upload : Lines
default_upload = many (codes "echo uploading environment snapshot" ∷ [])

-- The user's script as the provider sees it, if its handlers are coroutines of this kind: a handler
-- that is suspended is the function from what it is resumed with.
pub Suspended : Type 0
Suspended = Result (Option Bytes) → Task (Unit {0})

abbrev received : Result (Option Bytes) → Result Bytes
received (err e) = err e
received (ok none) = err type_error
received (ok (some body)) = ok body

abbrev resumed : Result (Option Bytes) → Result (Unit {0})
resumed (err e) = err e
resumed (ok value) = ok tt

-- A coroutine as what the provider plays; running out of fuel has no counterpart and is an error.
unfoldable pub run_of : Task (Unit {0}) → Run Suspended
unfolding Suspended
run_of (gives a) = returns
run_of (fails e) = raises e
run_of (asks call k) = calls call (λ r. run_of (k r))
run_of (execs script final keys k) =
    awaits_exec script final keys (λ e. run_of (k (err e))) (λ r. k (resumed r))
run_of (receives script size k) =
    awaits_recv script size false [] none (λ e. run_of (k (err e))) (λ r. k (received r))
run_of out_of_fuel = raises runtime_error
