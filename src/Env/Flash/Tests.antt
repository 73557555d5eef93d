-- ===== src/Env/Flash/Tests.antt =====
-- Runs of the functions and theorems on flash images at concrete inputs.
use openipc_tftp.Common.{
  ◌+◌, ◌≡◌, refl, ◌⊎◌, inl, inr, List, [], ◌∷◌, ◌++◌, none, some, ok, arith, replicate, any_of,
  drop,
}
use openipc_tftp.Common.Text.{
  Text, Bytes, codes, has_char-Lacks, starts_with, ends_with, contains, split_on, rstrip, partition,
  text_eq, strip, lower,
}
use openipc_tftp.Common.Dict
use openipc_tftp.Common.Dict.{Dict}
use openipc_tftp.Common.Words.{crc32}
use openipc_tftp.Common.Utf8.{decode, text_bytes, char_bytes}
use openipc_tftp.Env.{is_env_key, parse_nul_delimited_env}
use openipc_tftp.Env.Layout.{find_mtdparts_layout}
use openipc_tftp.Env.Frame.{Frames}
use openipc_tftp.Env.Search.{
  Decompress, gzip, xz, bzip2, zlib, iter_uboot_candidates, enough, extract_default_env_from_uboot,
  find_blobs, kinds_at, looks_like_zlib_header, scan_compressed_members,
}
use openipc_tftp.Env.Search.Queue.{IsCandidates, iter_uboot_candidates_ends}
use openipc_tftp.Env.Search.Best.{Chosen, in_candidates, extract_default_env-Chosen}
use openipc_tftp.Env.Flash.{
  Layout, Inferred, infer_partition_layout, find_first_post_boot_magic, post_boot_magics,
  ubootenv_patch, ubootenv_extract,
}
use openipc_tftp.Env.Flash.Magic.{IsFirst, find_first_post_boot_magic-IsFirst}
use openipc_tftp.Env.Flash.Infer.{FromMtdparts, FromMagic, infer-IsInferred}
use openipc_tftp.Env.Flash.Cycle.{patch-extract}

abbrev nul : Bytes
nul = 0 ∷ []

-- Five bindings, as a compiler leaves them in a boot loader.
abbrev default_blob : Bytes
default_blob =
    codes "bootcmd=run a"
    ++ (nul
        ++ (codes "bootargs=b"
            ++ (nul
                ++ (codes "baudrate=9600"
                    ++ (nul
                        ++ (codes "stdin=serial"
                            ++ (nul ++ (codes "mtdparts=sfc:16(boot),64(env)" ++ nul))))))))

abbrev boot : Bytes
boot = codes "U-Boot" ++ (nul ++ (default_blob ++ codes "end"))

-- A gzip stream that holds that, and no other stream.
abbrev inflate : Decompress
inflate gzip body = some (boot ++ replicate 40 0)
inflate xz body = none
inflate bzip2 body = none
inflate zlib body = none

abbrev packed : Bytes
packed = 1 ∷ 0x1f ∷ 0x8b ∷ 8 ∷ replicate 12 5

abbrev default_env : Dict Text
default_env =
    (codes "bootcmd", codes "run a")
    ∷ (codes "bootargs", codes "b")
    ∷ (codes "baudrate", codes "9600")
    ∷ (codes "stdin", codes "serial")
    ∷ (codes "mtdparts", codes "sfc:16(boot),64(env)")
    ∷ []

iter_uboot_candidates_ends_example :
    (candidates : List (Text × Bytes)) × (iter_uboot_candidates inflate
        (enough inflate packed)
        packed
      ≡ some candidates)
    × IsCandidates inflate packed candidates
iter_uboot_candidates_ends_example = iter_uboot_candidates_ends inflate packed

extract_default_env-Chosen_example :
    (candidates : List (Text × Bytes)) × (iter_uboot_candidates inflate
        (enough inflate packed)
        packed
      ≡ some candidates)
    × Chosen (in_candidates candidates) (extract_default_env_from_uboot inflate packed)
extract_default_env-Chosen_example = extract_default_env-Chosen inflate packed

finds_blob : find_blobs 0 boot ≡ default_blob ∷ []
unfolding find_blobs
finds_blob = refl

extracts_default : extract_default_env_from_uboot inflate packed ≡ ok default_env
unfolding extract_default_env_from_uboot scan_compressed_members crc32 starts_with contains
    parse_nul_delimited_env split_on rstrip partition decode text_eq Dict.put Dict.has_key kinds_at
    looks_like_zlib_header find_blobs
extracts_default = refl

find_first_post_boot_magic-IsFirst_example :
    IsFirst
      (λ q. any_of (λ magic. starts_with magic (drop q packed)) post_boot_magics)
      (2 + 0x10000)
      (find_first_post_boot_magic packed 2)
find_first_post_boot_magic-IsFirst_example = find_first_post_boot_magic-IsFirst packed 2

abbrev inferred : Inferred
inferred = (record { boot_size = 16; env_offset = 16; env_size = 64 }, default_env)

infer-IsInferred_example :
    FromMtdparts inflate packed 0 inferred ⊎ FromMagic inflate packed 0 inferred
unfolding extract_default_env_from_uboot scan_compressed_members crc32 starts_with contains
    parse_nul_delimited_env split_on rstrip partition decode text_eq Dict.put Dict.has_key kinds_at
    looks_like_zlib_header find_blobs infer_partition_layout find_mtdparts_layout Dict.get strip
    ends_with lower
infer-IsInferred_example = infer-IsInferred inflate packed 0 (some 16) refl

-- 4 bytes of boot loader, and 16 of environment.
abbrev small : Bytes
small = replicate 24 7

abbrev bounds : Layout
bounds = record { boot_size = 4; env_offset = 6; env_size = 16 }

abbrev small_env : Dict Text
small_env = (codes "a", codes "b") ∷ []

patch-extract_example :
    (patched : Bytes) × (ubootenv_patch inflate small small_env 2 (some 4) none (some 16) none 0xff
      ≡ ok patched)
    × Frames small (record { offset = 6; size = 16 }) patched
    × (ubootenv_extract inflate patched 2 (some 4) none (some 16) ≡ ok small_env)
unfolding is_env_key text_bytes char_bytes
patch-extract_example =
    patch-extract inflate small 2 (some 4) none bounds (codes "a", codes "b") [] 0xff
      (record {
        boot_pos = omega arith;
        env_pos = omega arith;
        behind = omega arith;
        inside = omega arith;
      })
      refl ((refl, (inl (omega arith), tt), has_char-Lacks 0 (codes "b") refl), tt) (tt, tt)
      (omega arith) (inr refl)
