-- ===== src/EnvCli/Tests.antt =====
-- Runs of the command line's functions and theorems at concrete inputs.
use openipc_tftp.Common.{
  List, ◌≡◌, refl, inl, [], ◌∷◌, ◌++◌, none, some, ok, arith, replicate, All, IsIn, length,
}
use openipc_tftp.Common.Text.{Text, Bytes, codes, has_char-Lacks, partition, text_eq, split_on}
use openipc_tftp.Common.Dict
use openipc_tftp.Common.Dict.{Dict}
use openipc_tftp.Common.Utf8.{text_bytes, char_bytes}
use openipc_tftp.Env.{is_env_key}
use openipc_tftp.Env.Search.{Decompress}
use openipc_tftp.Env.Flash.{Layout}
use openipc_tftp.EnvCli.{Args, Json, Files, env_lines, load_patch_env, lines_of, main}
use openipc_tftp.EnvCli.Cycle.{printing, patch-print}

abbrev no_streams : Decompress
no_streams kind body = none

abbrev no_json : Json
no_json = record { load_object = λ body. ok none; dump = λ env. codes "{}" }

abbrev files : Files
files = (codes "flash.bin", replicate 24 7) ∷ []

abbrev args : Args
args = record {
  image = codes "flash.bin";
  boot_offset = 0;
  boot_size = some 8;
  env_offset = none;
  env_size = some 16;
  format = env_lines;
  output = some (codes "new.bin");
  assignments = codes "a=b" ∷ [];
  env_json = none;
  flags = none;
}

abbrev bounds : Layout
bounds = record { boot_size = 8; env_offset = 8; env_size = 16 }

abbrev set_env : Dict Text
set_env = (codes "a", codes "b") ∷ []

patch-print_example :
    (patched : Bytes) × (printed : Text) × (lines : List Text) × (main no_streams no_json files args
      ≡ ok (record { files = Dict.put files (codes "new.bin") patched; printed = [] }))
    × (main no_streams no_json
          (Dict.put files (codes "new.bin") patched)
          (printing args (codes "new.bin"))
        ≡ ok (record { files = Dict.put files (codes "new.bin") patched; printed = printed }))
    × (split_on 10 printed ≡ lines ++ [] ∷ [])
    × (length lines ≡ 1)
    × All (λ (c : Text × Text). IsIn (c.0 ++ b'=' ∷ c.1) lines) set_env
unfolding is_env_key text_bytes char_bytes Dict.get text_eq load_patch_env partition Dict.put
patch-print_example =
    patch-print no_streams no_json files args (codes "new.bin") (replicate 24 7) bounds
      (codes "a", codes "b") [] refl refl refl refl refl
      (record {
        boot_pos = omega arith;
        env_pos = omega arith;
        behind = omega arith;
        inside = omega arith;
      })
      refl ((refl, (inl (omega arith), tt), has_char-Lacks 0 (codes "b") refl), tt)
      (has_char-Lacks 10 (codes "b") refl, tt) (omega arith)

abbrev two : Dict Text
two = (codes "b", codes "2") ∷ (codes "a", codes "1") ∷ []

prints_sorted : lines_of two ≡ codes "a=1" ∷ codes "b=2" ∷ []
unfolding lines_of Dict.get text_eq
prints_sorted = refl
