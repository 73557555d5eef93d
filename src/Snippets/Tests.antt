-- ===== src/Snippets/Tests.antt =====
-- Runs of the snippets at concrete inputs.
use openipc_tftp.Common.{◌≡◌, refl}
use openipc_tftp.Common.Text.{codes, join}
use openipc_tftp.Common.Digits.{digits}
use openipc_tftp.Scripted.Setting.{number}
use openipc_tftp.Snippets.{uboot_nor_erase}

erases : uboot_nor_erase (number 0) (number 256) ≡ codes "sf probe 0\nsf erase 0x0 0x100"
unfolding uboot_nor_erase digits join
erases = refl
