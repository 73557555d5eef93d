-- ===== src/Deploy.antt =====
-- scripts/openipc.py: the texts and the environment of an installation. `rambase`, `cmdtftp` and
-- `server_ip` are the attributes of the session's handle; the random bytes are an argument.
pub mod Install
pub mod Manifest
pub mod Commands
pub mod Kept
pub mod Guarded
pub mod Quiet
pub mod Steps
pub mod BackedUp
pub mod Harmless
pub mod Searches
pub mod Handled
mod Tests
use openipc_tftp.Common.{
  ℕ, zero, suc, ◌+◌, ◌-◌, ◌≤◌, Bool, true, false, not, ◌&&◌, ◌||◌, List, [], ◌∷◌, ◌++◌, Option,
  none, some, Result, ok, err, Error, key_error, name_error, ◌>>=◌, ◌>>◌, guard, is_empty, map,
  length, take, replicate, leb, if◌then◌else◌, ◌/◌, ◌%◌,
}
use openipc_tftp.Common.Text.{Text, codes, text_eq, join}
use openipc_tftp.Common.Digits.{digit_char}
use openipc_tftp.Common.Dict
use openipc_tftp.Common.Dict.{Dict}
use openipc_tftp.Scripted.Texts.{subscript}
use openipc_tftp.Term.{uboot_msg, uboot_err}

unfoldable pub build_runcmd : Text → Text → Text
build_runcmd cmd args = join (codes "; ") (
    (codes "cmd=" ++ cmd)
    ∷ (if is_empty args then [] else codes "args=" ++ args)
    ∷ codes "run bootstrap"
    ∷ [])

-- `f"{b:02x}"` of a byte.
abbrev hex_byte : ℕ → Text
hex_byte b = digit_char (b / 16) ∷ digit_char (b % 16) ∷ []

unfoldable pub gen_mac : Text → List ℕ → Text
gen_mac mac random =
    if text_eq mac (codes "00:00:23:34:45:66") || text_eq mac (codes "00:00:00:00:00:00")
    then join (codes ":") (map hex_byte (2 ∷ take 5 random))
    else mac

unfoldable pub trunc : Text → ℕ → Text → Text
trunc s max_len suffix =
    if leb (length s) max_len
    then s
    else if leb max_len (length suffix)
    then take max_len suffix
    else take (max_len - length suffix) s ++ suffix

bootstrap : Text → Text
bootstrap rambase = join (codes "; ") (
    codes "run netinit"
    ∷ (codes "if tftpboot " ++ (rambase ++ codes " ${serverip}:id=${hostname}/${cmd}/${args}"))
    ∷ (codes "then source " ++ rambase)
    ∷ codes "else echo \"TFTP request failed: is TFTP server running?\""
    ∷ codes "fi"
    ∷ [])

abbrev netinit : Text
netinit = join (codes "; ") (
    codes "if test \"${ip}\" = \"static\" || test -n \"$netdone\" && test \"$netdone\" -eq 1"
    ∷ codes "then echo \"Networking OK\""
    ∷ codes "else setenv autoload no"
    ∷ codes "dhcp"
    ∷ codes "netdone=1"
    ∷ codes "fi"
    ∷ [])

-- The bindings that are new, or replace those of the image.
unfoldable pub merge_env : Text → Text → Text → Dict Text
unfolding bootstrap build_runcmd
merge_env rambase ident mac =
    (codes "ethaddr", mac)
    ∷ (codes "bootp_vci", codes "uboot." ++ ident)
    ∷ (codes "hostname", ident)
    ∷ (codes "install", build_runcmd (codes "install") [])
    ∷ (codes "backup", build_runcmd (codes "backup") [])
    ∷ (codes "probe_nor", build_runcmd (codes "probe") [])
    ∷ (codes "bootstrap", bootstrap rambase)
    ∷ (codes "netinit", netinit)
    ∷ []

abbrev pub kept_keys : List Text
kept_keys =
    codes "ipaddr"
    ∷ codes "netmask"
    ∷ codes "gatewayip"
    ∷ codes "dnsip"
    ∷ codes "serverip"
    ∷ codes "fw"
    ∷ codes "ip"
    ∷ []

-- `{k: old_env[k] for k in keys if k in old_env}`
unfoldable pub bindings_of : Dict Text → List Text → Dict Text
bindings_of env [] = []
bindings_of env (key ∷ keys) = elim (Dict.get env key) [
  | none ↦ bindings_of env keys
  | some v ↦ (key, v) ∷ bindings_of env keys
]

-- `f'{mark}  {k:<10} = {trunc(v, 20)}'`
binding_text : Text → Text × Text → Text
unfolding trunc
binding_text mark (k, v) =
    mark
    ++ (codes "  "
        ++ (k ++ (replicate (10 - length k) b' ' ++ (codes " = " ++ trunc v 20 (codes "...")))))

messages : Text → Dict Text → Result (List Text)
unfolding binding_text
messages mark [] = ok []
messages mark (b ∷ bs) = do
  msg ← uboot_msg (binding_text mark b) (codes "green") false true
  rest ← messages mark bs
  ok (msg ∷ rest)

pub record Patched : Type 0 where
  pub msgs : List Text
  pub new_env : Dict Text

-- `openipc_patch_env`; new_env is changed in place.
unfoldable pub openipc_patch_env : Text → Text → List ℕ → Dict Text → Dict Text → Result Patched
unfolding merge_env gen_mac bindings_of messages
openipc_patch_env rambase ident random old_env new_env = do
  ethaddr ← subscript old_env (codes "ethaddr")
  let merge = merge_env rambase ident (gen_mac ethaddr random)
  let kept = bindings_of old_env kept_keys
  added ← messages (codes "+") merge
  taken ← messages (codes ">") kept
  ok (record { msgs = added ++ taken; new_env = Dict.update (Dict.update new_env merge) kept })

-- One line of complaint, if the test fails.
unfoldable pub complaint : Bool → Text → Result (List Text)
complaint true message = ok []
complaint false message = do line ← uboot_err message (codes "red") true; ok (line ∷ [])

-- `check_install_args`. The message about `fw` names a variable that is not bound; and the example
-- behind the complaints prints `{tftp.server_ip}` and the other names in braces as they stand.
unfoldable pub check_install_args : Text → Text → Dict Text → Result (List Text)
unfolding complaint
check_install_args rambase cmdtftp env = do
  vendor ← complaint (Dict.has_key env (codes "vendor")) (codes "Must pass vendor=name")
  soc ← complaint (Dict.has_key env (codes "soc")) (codes "Must pass soc=name")
  fw ← subscript env (codes "fw")
  guard (text_eq fw (codes "lite") || text_eq fw (codes "ultimate")) name_error
  example ← complaint (is_empty (vendor ++ soc)) (
      codes "ie: "
      ++ (cmdtftp
          ++ (codes " "
              ++ (rambase
                  ++ codes
                      " {tftp.server_ip}:id={ident}/{cmd}/vendor=goke/soc=gk7205v300/fw=lite; source {tftp.rambase}"))))
  ok (vendor ++ (soc ++ example))
