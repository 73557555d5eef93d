-- ===== src/Env/Tests.antt =====
-- Runs of the environment's functions and theorems at concrete inputs.
use openipc_tftp.Common.{
  ◌≡◌, refl, inl, inr, [], ◌∷◌, ◌++◌, none, some, ok, arith, take, drop, replicate,
}
use openipc_tftp.Common.Text.{
  Bytes, codes, has_char-Lacks, text_eq, split_on, strip, contains, partition, lower, ends_with,
}
use openipc_tftp.Common.Dict
use openipc_tftp.Common.Dict.{Dict}
use openipc_tftp.Common.Words.{le32, crc32}
use openipc_tftp.Common.Utf8.{encode, text_bytes, char_bytes}
use openipc_tftp.Env.{EnvPartitionInfo, build, parse_part, patch_at, is_env_key}
use openipc_tftp.Env.RoundTrip.{build_parse_lem}
use openipc_tftp.Env.Frame.{Frames, patch-Frames}
use openipc_tftp.Env.Layout.{find_mtdparts_layout}

finds_layout :
    find_mtdparts_layout
      ((codes "mtdparts", codes "mtdparts=sfc:256k(boot),0x10000(env),-(rest)") ∷ [])
    ≡ ok (some (262144, 65536))
unfolding find_mtdparts_layout Dict.get text_eq split_on strip contains partition lower ends_with
finds_layout = refl

build_parse_lem_example :
    (partition : Bytes) × (build ((codes "a", codes "b") ∷ []) (some 16) none 0xff ≡ ok partition)
    × (parse_part partition ≡ ok ((codes "a", codes "b") ∷ []))
unfolding is_env_key text_bytes char_bytes
build_parse_lem_example =
    build_parse_lem (codes "a", codes "b") [] (some 16) 0xff
      ((refl, (inl (omega arith), tt), has_char-Lacks 0 (codes "b") refl), tt) (tt, tt)
      (omega arith) (inr refl)

abbrev flash : Bytes
flash = replicate 16 7

abbrev info : EnvPartitionInfo
info = record { offset = 2; size = 12 }

abbrev env_body : Bytes
env_body = codes "a=b" ++ 0 ∷ 0 ∷ replicate 3 0xff

abbrev patched : Bytes
patched = take 2 flash ++ (le32 (crc32 env_body) ++ env_body) ++ drop 14 flash

patch-Frames_example : Frames flash info patched
unfolding patch_at encode
patch-Frames_example =
    patch-Frames flash ((codes "a", codes "b") ∷ []) info none 0xff (omega arith) refl
