-- ===== src/Ops/Tests.antt =====
-- Runs of the operations at concrete inputs, and their theorem there.
use openipc_tftp.Common.{ℕ, List, ◌≡◌, refl, false, [], ok, some, none}
use openipc_tftp.Common.Text.{Text, codes, lower, strip, ends_with, starts_with}
use openipc_tftp.Common.Digits.{digits}
use openipc_tftp.Scripted.Setting.{text}
use openipc_tftp.Snippets.Probe.{Finds}
use openipc_tftp.Snippets.Shell.{Shell}
use openipc_tftp.Snippets.Shell.Alone.{size_of, alone, alone-IsShell}
use openipc_tftp.Tasks.Client.{run}
use openipc_tftp.Ops.{uboot_nor_probe, parse_max_size, int_literal, kib_text}
use openipc_tftp.Ops.Probe.{flash_client, uboot_nor_probe-Finds}

sixteen : parse_max_size (some (text (codes " 16M "))) ≡ ok 0x1000000
unfolding parse_max_size int_literal ends_with lower strip starts_with
sixteen = refl

tie_to_even : kib_text 1280 ≡ codes "1.2"
unfolding kib_text digits
tie_to_even = refl

-- A flash of 8 MiB, which is searched up to 16 MiB.
abbrev run_alone : Shell → List Text → Shell
run_alone = alone 0x800000 (codes "${loadaddr}") 0

abbrev start : Shell
start = record { branches = []; failed = false; size = none }

uboot_nor_probe-Finds_example :
    (r : ℕ) × (run (flash_client run_alone size_of start) [] (
        uboot_nor_probe
          (codes "${loadaddr}")
          (some (text (codes "16M")))
          []
          []
          false
          (codes "status")
          (codes "size"))
      ≡ ok r)
    × Finds 0x800000 0 0x1000000 0 0x100000 r
unfolding parse_max_size int_literal ends_with lower strip starts_with
uboot_nor_probe-Finds_example =
    uboot_nor_probe-Finds (codes "${loadaddr}") 0x800000 run_alone size_of
      (alone-IsShell 0x800000 (codes "${loadaddr}") 0) start (some (text (codes "16M"))) 0x1000000
      [] refl
