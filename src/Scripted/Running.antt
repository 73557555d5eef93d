-- ===== src/Scripted/Running.antt =====
-- A handler that runs from one suspension to the next: `exec`, `exec_recv` and `send` of
-- src/uboot_tftp/scripted.py.
use openipc_tftp.Common.{
  ℕ, Bool, false, not, List, Option, none, some, Result, ok, err, Error, value_error,
  receive_failed, runtime_error, type_error, ◌>>=◌, ◌>>◌, guard,
}
use openipc_tftp.Common.Text.{Text, Bytes}
use openipc_tftp.Sessions.{ClientSession}
use openipc_tftp.Scripted.Setting.{
  ExecutionRequest, Offset, Lines, Run, calls, awaits_exec, awaits_recv, awaits_other, returns,
  raises, Handler, created, in_exec, in_recv, in_other, finished, Setting, Provider,
}
use openipc_tftp.Scripted.Handle.{perform}
use openipc_tftp.Scripted.Texts.{join_script_lines, normalize_return_keys}

-- What `send` ends with: a request or another value that is yielded, StopIteration, or an error.
pub data Sent : Type 0 where
  yielded : ExecutionRequest → Sent
  yielded_other stopped : Sent
  raised : Error → Sent

pub record Play (H : Type 0) : Type 0 where
  pub sent : Sent
  pub handler : Handler H
  pub session : ClientSession (Handler H)
  pub provider : Provider H

module _ {H : Type 0} (setting : Setting H) (now : ℕ) where
  -- `exec` up to its suspension.
  unfoldable pub exec_request : Lines → Bool → List Text → Result ExecutionRequest
  exec_request script final keys = do
    return_keys ← normalize_return_keys keys
    ok (record {
      script = join_script_lines script;
      final = final;
      receive_size = none;
      return_keys = return_keys;
      receive_offset = none;
    })

  unfoldable pub exec_recv_request :
      Lines → ℕ → Bool → List Text → Option Offset → Result ExecutionRequest
  exec_recv_request script size final keys offset = do
    guard (not final) value_error
    return_keys ← normalize_return_keys keys
    ok (record {
      script = join_script_lines script;
      final = false;
      receive_size = some size;
      return_keys = return_keys;
      receive_offset = offset;
    })

  -- A handler runs until it yields or ends.
  unfoldable pub play : Run H → ClientSession (Handler H) → Provider H → Play H
  unfolding perform exec_request exec_recv_request
  play (calls call next) session provider =
      let (answer, session', provider') = perform setting now session provider call in
      play (next answer) session' provider'
  play (awaits_exec script final keys refused h) session provider =
      elim (exec_request script final keys) [
        | ok request ↦ record {
          sent = yielded request;
          handler = in_exec h;
          session = session;
          provider = provider;
        }
        | err e ↦ play (refused e) session provider
      ]
  play (awaits_recv script size final keys offset refused h) session provider =
      elim (exec_recv_request script size final keys offset) [
        | ok request ↦ record {
          sent = yielded request;
          handler = in_recv h;
          session = session;
          provider = provider;
        }
        | err e ↦ play (refused e) session provider
      ]
  play (awaits_other h) session provider = record {
    sent = yielded_other;
    handler = in_other h;
    session = session;
    provider = provider;
  }
  play returns session provider = record {
    sent = stopped;
    handler = finished;
    session = session;
    provider = provider;
  }
  play (raises e) session provider = record {
    sent = raised e;
    handler = finished;
    session = session;
    provider = provider;
  }

  -- What `exec_recv` returns to the handler for the value that is sent.
  abbrev pub exec_recv_result : Option Bytes → Result (Option Bytes)
  exec_recv_result none = err receive_failed
  exec_recv_result (some body) = ok (some body)

  -- `session.handler.send(send_value)`
  unfoldable pub send : Handler H → Option Bytes → ClientSession (Handler H) → Provider H → Play H
  unfolding play
  send (created run) none session provider = play run session provider
  send (created run) (some value) session provider = record {
    sent = raised type_error;
    handler = created run;
    session = session;
    provider = provider;
  }
  send (in_exec h) value session provider = play (setting.resume h (ok none)) session provider
  send (in_recv h) value session provider =
      play (setting.resume h (exec_recv_result value)) session provider
  send (in_other h) value session provider = play (setting.resume h (ok value)) session provider
  send finished value session provider = record {
    sent = raised runtime_error;
    handler = finished;
    session = session;
    provider = provider;
  }
