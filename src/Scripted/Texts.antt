-- ===== src/Scripted/Texts.antt =====
-- The texts of the scripts that the provider of src/uboot_tftp/scripted.py prints: the helpers at
-- the end of the file and the methods that append commands.
use openipc_tftp.Common.{
  ℕ, Bool, true, false, not, ◌&&◌, ◌||◌, List, [], ◌∷◌, ◌++◌, Option, none, some, Result, ok, err,
  value_error, key_error, runtime_error, ◌>>=◌, ◌>>◌, guard, ◌==◌, if◌then◌else◌, is_empty, keep,
  any_of,
}
use openipc_tftp.Common.Text.{Text, codes, join, ends_with, partition, Parts, text_eq}
use openipc_tftp.Common.Digits.{hex}
use openipc_tftp.Common.Dict
use openipc_tftp.Common.Dict.{Dict}
use openipc_tftp.Term.{uboot_term_reset, uboot_msg, uboot_err}
use openipc_tftp.Protocol.{ParsedPath}
use openipc_tftp.Sessions.{ClientSession, PendingReceive}
use openipc_tftp.Scripted.Setting.{Offset, number, text, Lines, one, many}

unfoldable pub join_lines : List Text → Text
join_lines lines = join (codes "\n") (keep (λ line. not (is_empty line)) lines)

unfoldable pub join_script_lines : Lines → Text
unfolding join_lines
join_script_lines (one line) = line
join_script_lines (many lines) = join_lines lines

unfoldable pub hush_probe_script : Result Text
unfolding join_lines
hush_probe_script = do
  msg ← uboot_msg (codes "Checking hush shell... ") (codes "green") true true
  ok (join_lines (uboot_term_reset ∷ msg ∷ codes "if true; then setenv hush_shell true; fi" ∷ []))

unfoldable pub hush_failure_script : Result Text
unfolding join_lines
hush_failure_script = do
  e ← uboot_err (codes "U-Boot hush shell is required") (codes "red") true
  m ←
      uboot_msg (codes "uboot-tftp requires hush-compatible if/then support") (codes "yellow") false
        true
  ok (join_lines (e ∷ m ∷ []))

unfoldable pub ensure_newline : Text → Text
ensure_newline script = if ends_with (codes "\n") script then script else script ++ codes "\n"

abbrev pub command_from_segments : List Text → Text
command_from_segments [] = []
command_from_segments (w ∷ ws) = w

-- One round of the loop over the segments behind the command.
unfoldable pub merge_segment : Dict Text → Parts → Dict Text
merge_segment merged parts =
    if parts.found && not (is_empty parts.before)
    then Dict.put merged parts.before parts.after
    else merged

unfoldable pub merge_segments : Dict Text → List Text → Dict Text
unfolding merge_segment
merge_segments merged [] = merged
merge_segments merged (segment ∷ rest) =
    merge_segments (merge_segment merged (partition b'=' segment)) rest

abbrev pub behind_command : List Text → List Text
behind_command [] = []
behind_command (w ∷ ws) = ws

unfoldable pub session_env : Dict Text → Dict Text → ParsedPath → Dict Text
unfolding merge_segments
session_env base_env route_env parsed =
    merge_segments (Dict.update base_env route_env) (behind_command parsed.segments)

unfoldable pub is_hidden : Text → Bool
is_hidden key =
    text_eq key (codes "rambase")
    || (text_eq key (codes "cmdtftp") || text_eq key (codes "cmdtftpput"))

unfoldable pub public_env : Dict Text → Dict Text
unfolding is_hidden
public_env env = keep (λ (b : Text × Text). not (is_hidden b.0)) env

-- `_normalize_return_keys`; a key is a text already.
abbrev pub is_return_key : Text → Bool
is_return_key name =
    not
      (is_empty name || any_of (λ c. (c == b'/') || ((c == b'=') || ((c == 13) || (c == 10)))) name)

unfoldable pub normalize_return_keys : List Text → Result (List Text)
normalize_return_keys [] = ok []
normalize_return_keys (name ∷ keys) = do
  guard (is_return_key name) value_error
  normalized ← normalize_return_keys keys
  ok (name ∷ normalized)

-- `${name}`
unfoldable pub variable : Text → Text
variable name = codes "${" ++ (name ++ codes "}")

unfoldable pub append_return_keys : Text → List Text → Text
unfolding variable
append_return_keys path [] = path
append_return_keys path (key ∷ keys) =
    append_return_keys (path ++ (b'/' ∷ (key ++ (b'=' ∷ variable key)))) keys

unfoldable pub format_uboot_number : Offset → Text
format_uboot_number (number n) = hex n
format_uboot_number (text t) = t

-- `d[key]`
abbrev pub or_key_error : Option Text → Result Text
or_key_error none = err key_error
or_key_error (some v) = ok v

unfoldable pub subscript : Dict Text → Text → Result Text
subscript d key = or_key_error (Dict.get d key)

-- `session.current_token`, checked as `_continue_command` does.
abbrev pub token_of : Option Text → Result Text
token_of none = err runtime_error
token_of (some token) = ok token

-- The path of the next read request, before the return keys.
unfoldable pub continue_path : Text → Text → Option Text → Text
continue_path client_id token none = codes "id=" ++ (client_id ++ (codes "/token=" ++ token))
continue_path client_id token (some status) =
    codes "id=" ++ (client_id ++ (codes "/token=" ++ (token ++ (codes "/recv=" ++ status))))

abbrev pub continue_text : Text → Text → Text → Text → Text
continue_text cmdtftp rambase server_ip path =
    codes "if "
    ++ (cmdtftp
        ++ (codes " "
            ++ (variable rambase
                ++ (codes " \""
                    ++ (server_ip
                        ++ (codes ":"
                            ++ (path
                                ++ (codes "\"; then source "
                                    ++ (variable rambase
                                        ++ codes
                                            "; else echo \"uboot-tftp: continuation RRQ failed\"; fi")))))))))

module _ {H : Type 0} where
  unfoldable pub continue_command : ClientSession H → Option Text → List Text → Result Text
  unfolding append_return_keys continue_path subscript variable
  continue_command session recv_status return_keys = do
    token ← token_of session.current_token
    cmdtftp ← subscript session.env (codes "cmdtftp")
    rambase ← subscript session.env (codes "rambase")
    ok (
        continue_text cmdtftp rambase session.server_ip
          (append_return_keys (continue_path session.client_id token recv_status) return_keys))

  unfoldable pub append_continue : Text → ClientSession H → Option Text → List Text → Result Text
  unfolding continue_command join_lines
  append_continue script session recv_status return_keys = do
    command ← continue_command session recv_status return_keys
    ok (join_lines (script ∷ command ∷ []))

-- `upload_remote`
unfoldable pub upload_remote : Text → PendingReceive → Text
upload_remote client_id pending =
    codes "id=" ++ (client_id ++ (codes "/token=" ++ (pending.token ++ pending.upload_path)))

-- The address to upload from, and the lines before and after the upload; empty where there are none.
pub record ReceiveAddress : Type 0 where
  pub upload_address : Text
  pub prelude : Text
  pub cleanup : Text

-- `_receive_address` with the random part of the variable's name, for an offset that is given.
unfoldable pub offset_address : Text → Text → Offset → ReceiveAddress
unfolding variable format_uboot_number
offset_address rambase random offset =
    let tmp_name = codes "__uboot_tftp_recv_" ++ random in
    record {
      upload_address = variable tmp_name;
      prelude =
          codes "setexpr "
          ++ (tmp_name
              ++ (codes " " ++ (variable rambase ++ (codes " + " ++ format_uboot_number offset))));
      cleanup = codes "setenv " ++ tmp_name;
    }

abbrev pub receive_text : Text → ReceiveAddress → ℕ → Text → Text → Text → Text → Text
receive_text cmdtftpput address size server_ip remote success failure =
    codes "if "
    ++ (cmdtftpput
        ++ (codes " "
            ++ (address.upload_address
                ++ (codes " "
                    ++ (hex size
                        ++ (codes " \""
                            ++ (server_ip
                                ++ (codes ":"
                                    ++ (remote
                                        ++ (codes "\";\nthen\n    "
                                            ++ (success
                                                ++ (codes "\nelse\n    "
                                                    ++ (failure ++ codes "\nfi")))))))))))))
