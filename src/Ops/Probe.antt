-- ===== src/Ops/Probe.antt =====
-- The probe for the size of a flash, against U-Boot's shell.
use openipc_tftp.Common.{
  ℕ, ◌≡◌, refl, ◌∙◌, false, List, [], append-nil, map, Option, none, Result, ok, err, arith,
  if◌then◌else◌,
}
use openipc_tftp.Common.Text.{Text, codes, text_eq}
use openipc_tftp.Common.Digits.{hex}
use openipc_tftp.Common.Dict
use openipc_tftp.Common.Dict.{Dict}
use openipc_tftp.Scripted.Setting.{Lines, one, many, Offset}
use openipc_tftp.Snippets.{normalize_base}
use openipc_tftp.Snippets.Block.{IsShell}
use openipc_tftp.Snippets.Probe.{Finds, uboot_nor_gen_probe-Finds}
use openipc_tftp.Tasks.{◌>>=◌, from_result}
use openipc_tftp.Tasks.Client.{Client, run}
use openipc_tftp.Ops.{uboot_nor_probe, probe_size, parse_max_size, int_literal}
use openipc_tftp.Ops.Literal.{int_literal-hex}

module _ {S : Type 0} (run_lines : S → List Text → S) (size_of : S → Text) (s : S) where
  -- The variable `size` behind a script, and 0 for every other variable: `sf probe` finds a flash.
  abbrev variable_value : List Text → Text → Text
  variable_value ls key = if text_eq key (codes "size") then size_of (run_lines s ls) else codes "0"

  abbrev values_of : Lines → List Text → Dict Text
  values_of (one line) keys = []
  values_of (many ls) keys = map (λ key. (key, variable_value ls key)) keys

  -- A client with that shell, in the state `s`.
  abbrev pub flash_client : Client
  flash_client = record { values = values_of; upload = λ script size. none }

run_result :
    {A : Type 0} (client : Client) (env : Dict Text) (result : Result A)
    → run client env (from_result result) ≡ result
run_result client env (ok a) = refl
run_result client env (err e) = refl

-- For a client whose shell fulfils IsShell, with a flash that `sf probe` finds, and any largest size
-- that can be parsed, uboot_nor_probe without commands behind the probe gives the size that the script
-- finds: the last of 1 MiB, 2 MiB, 4 MiB and so on that is at most the largest size and inside the
-- flash, or 0.
pub uboot_nor_probe-Finds :
    (rambase : Text) (flash : ℕ) {S : Type 0} (run_lines : S → List Text → S) (size_of : S → Text)
    → IsShell rambase 0 flash run_lines size_of
    → (s : S) (max_size : Option Offset) (max : ℕ) (pre_cmds : List Text)
    → parse_max_size max_size ≡ ok max
    → (r : ℕ) × (run
          (flash_client run_lines size_of s)
          []
          (uboot_nor_probe rambase max_size pre_cmds [] false (codes "status") (codes "size"))
        ≡ ok r)
      × Finds flash 0 max 0 0x100000 r
unfolding uboot_nor_probe probe_size ◌>>=◌ normalize_base Dict.update Dict.put Dict.get text_eq
    int_literal
uboot_nor_probe-Finds rambase flash run_lines size_of shell s max_size max pre_cmds e =
    let (ls, f, found) =
      uboot_nor_gen_probe-Finds rambase 0 flash run_lines size_of shell rambase 0x100000 max 0 none
        (omega arith) refl s in
    let (r, set, finds) = found in
    (
      r,
      rw (e, f)
          (rw (append-nil ls) (
            rw (set, run)
              (run_result (flash_client run_lines size_of s) _ (int_literal (hex r))
                ∙ int_literal-hex r))),
      finds,
    )
