-- ===== src/Deploy/Tests.antt =====
-- An installation at concrete inputs.
use openipc_tftp.Common.{ℕ, ◌≡◌, refl, true, List, [], ◌∷◌, none, ok, if◌then◌else◌}
use openipc_tftp.Common.Text.{Text, codes, text_eq, join, starts_with}
use openipc_tftp.Common.Dict
use openipc_tftp.Common.Dict.{Dict}
use openipc_tftp.Scripted.Setting.{many, number}
use openipc_tftp.Snippets.{uboot_nor_erase}
use openipc_tftp.Deploy.Install.{Host}
use openipc_tftp.Deploy.Guarded.{Guarded, erases}
use openipc_tftp.Deploy.Manifest.{Json}
use openipc_tftp.Deploy.{Patched, openipc_patch_env, merge_env, gen_mac, kept_keys}
use openipc_tftp.Deploy.Kept.{or_else, holds, get-openipc_patch_env}

abbrev mac : Text
mac = codes "00:00:23:34:45:66"

abbrev random : List ℕ
random = 1 ∷ 2 ∷ 3 ∷ 4 ∷ 255 ∷ []

abbrev old_env : Dict Text
old_env = (codes "ethaddr", mac) ∷ (codes "fw", codes "lite") ∷ []

abbrev new_env : Dict Text
new_env =
    (codes "ethaddr", codes "00:11:22:33:44:55")
    ∷ (codes "fw", codes "ultimate")
    ∷ (codes "bootdelay", codes "1")
    ∷ []

drawn : gen_mac mac random ≡ codes "02:01:02:03:04:ff"
unfolding gen_mac text_eq join
drawn = refl

get-openipc_patch_env_example :
    (p : Patched) × (openipc_patch_env (codes "0x42000000") (codes "cam1") random old_env new_env
      ≡ ok p)
    × ((k : Text)
        → Dict.get p.new_env k
          ≡ or_else (if holds kept_keys k then Dict.get old_env k else none) (
              or_else
                (Dict.get (merge_env (codes "0x42000000") (codes "cam1") (gen_mac mac random)) k)
                (Dict.get new_env k)))
unfolding Dict.get text_eq
get-openipc_patch_env_example =
    get-openipc_patch_env (codes "0x42000000") (codes "cam1") mac random old_env new_env refl

abbrev host : Host
host = record {
  rambase = codes "0x42000000";
  cmdtftp = codes "tftpboot";
  server_ip = codes "192.168.1.2";
  root = codes "/srv/tftp";
  count = 1;
  stamp = codes "20260101-120000";
  random = random;
  quote = λ t. t;
  parses = λ t. true;
  decompress = λ kind body. none;
  polls = 100;
}

-- Values that are texts only.
abbrev texts_only : Json Text
texts_only = record {
  loads = λ body. ok body;
  as_object = λ t. none;
  as_list = λ t. none;
  str_of = λ t. t;
}

-- The script that restores the flash erases it.
erase_seen : erases (many (uboot_nor_erase (number 0) (number 0x800000) ∷ [])) ≡ true
unfolding uboot_nor_erase join starts_with
erase_seen = refl
