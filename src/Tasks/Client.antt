-- ===== src/Tasks/Client.antt =====
-- A coroutine that runs against a client which answers each script at once.
use openipc_tftp.Common.{
  ℕ, List, Option, none, some, Result, ok, err, runtime_error, receive_failed, not_implemented,
}
use openipc_tftp.Common.Text.{Text, Bytes}
use openipc_tftp.Common.Dict
use openipc_tftp.Common.Dict.{Dict}
use openipc_tftp.Scripted.Setting.{Call, env_get, Answer, a_text, missing, Lines}
use openipc_tftp.Tasks.{Task, gives, fails, asks, execs, receives, out_of_fuel}

-- The values that a client returns for the keys of a script, and the bytes that it uploads.
pub record Client : Type 0 where
  pub values : Lines → List Text → Dict Text
  pub upload : Lines → ℕ → Option Bytes

abbrev pub env_answer : Option Text → Answer
env_answer none = missing
env_answer (some t) = a_text t

abbrev pub call_answer : Dict Text → Call → Result Answer
call_answer env (env_get key) = ok (env_answer (Dict.get env key))
call_answer env other = err not_implemented

abbrev pub uploaded : Option Bytes → Result Bytes
uploaded none = err receive_failed
uploaded (some body) = ok body

-- The result of a coroutine that reads no files and no downloads; `env` is the session's public
-- environment, into which the values of each continuation are merged.
abbrev pub run : {A : Type 0} → Client → Dict Text → Task A → Result A
run client env (gives a) = ok a
run client env (fails e) = err e
run client env (asks call k) = run client env (k (call_answer env call))
run client env (execs script final keys k) =
    run client (Dict.update env (client.values script keys)) (k (ok tt))
run client env (receives script size k) = run client env (k (uploaded (client.upload script size)))
run client env out_of_fuel = err runtime_error
