-- ===== src/Env/Flash.antt =====
-- Whole flash images: from ubootenv_extract to _find_first_post_boot_magic of
-- src/uboot_tftp/ubootenv.py. Where the source subtracts to a negative size, the size is 0 here;
-- no default environment is found in a region of either size, and both are refused as a boot size.
pub mod Cycle
mod Tests
pub mod Infer
pub mod Magic
use openipc_tftp.Common.{
  ℕ, zero, suc, ◌+◌, ◌-◌, min, Bool, true, false, not, ◌&&◌, ◌||◌, List, [], ◌∷◌, ◌++◌, Option,
  none, some, Result, ok, err, value_error, Error, ◌>>=◌, ◌>>◌, guard, ltb, leb, ◌==◌,
  if◌then◌else◌, is_empty, length, take, drop, foldl,
}
use openipc_tftp.Common.Text.{Text, Bytes, codes, starts_with}
use openipc_tftp.Common.Dict.{Dict}
use openipc_tftp.Env.{parse_part, EnvPartitionInfo, patch_at}
use openipc_tftp.Env.Layout.{find_mtdparts_layout}
use openipc_tftp.Env.Search.{Decompress, extract_default_env_from_uboot}

-- `image[start:start + size]`
abbrev pub slice : ℕ → ℕ → Bytes → Bytes
slice start size image = take size (drop start image)

abbrev pub uimage_magic : Bytes
uimage_magic = 0x27 ∷ 5 ∷ 0x19 ∷ 0x56 ∷ []

abbrev pub fdt_magic : Bytes
fdt_magic = 0xd0 ∷ 0x0d ∷ 0xfe ∷ 0xed ∷ []

abbrev pub post_boot_magics : List Bytes
post_boot_magics = uimage_magic ∷ fdt_magic ∷ codes "hsqs" ∷ codes "UBI#" ∷ []

-- `s.find(magic)`, counted from `at`, for a magic that is not empty.
unfoldable pub find_in : Bytes → ℕ → Bytes → Option ℕ
find_in magic at [] = none
find_in magic at (c ∷ s) =
    let rest = find_in magic (suc at) s in if starts_with magic (c ∷ s) then some at else rest

-- `image.find(magic, start)`
unfoldable pub find_from : Bytes → Bytes → ℕ → Option ℕ
unfolding find_in
find_from image magic start = find_in magic start (drop start image)

-- `min` of two offsets, where either may be missing.
abbrev pub least : Option ℕ → Option ℕ → Option ℕ
least none other = other
least (some p) none = some p
least (some p) (some q) = some (min p q)

unfoldable pub first_of_magics : Bytes → ℕ → List Bytes → Option ℕ
unfolding find_from
first_of_magics image start [] = none
first_of_magics image start (magic ∷ magics) =
    least (find_from image magic start) (first_of_magics image start magics)

unfoldable pub find_first_post_boot_magic : Bytes → ℕ → Option ℕ
unfolding first_of_magics
find_first_post_boot_magic image boot_offset =
    first_of_magics image (boot_offset + 0x10000) post_boot_magics

probe_size_at : Option ℕ → Bytes → ℕ → ℕ
probe_size_at none image boot_offset = min (length image - boot_offset) 0x200000
probe_size_at (some boundary) image boot_offset =
    if ltb boot_offset boundary
    then boundary - boot_offset
    else min (length image - boot_offset) 0x200000

unfoldable pub guess_boot_probe_size : Bytes → ℕ → ℕ
unfolding probe_size_at find_first_post_boot_magic
guess_boot_probe_size image boot_offset =
    probe_size_at (find_first_post_boot_magic image boot_offset) image boot_offset

pub record Layout : Type 0 where
  pub boot_size : ℕ
  pub env_offset : ℕ
  pub env_size : ℕ

abbrev pub common_env_sizes : List ℕ
common_env_sizes = 0x10000 ∷ 0x20000 ∷ 0x40000 ∷ []

abbrev pub Inferred : Type 0
Inferred = Layout × Dict Text

-- The result of one candidate size, where extraction succeeds; any error is a ValueError.
sized_layout : ℕ → ℕ → ℕ → Result (Dict Text) → Result Inferred → Result Inferred
sized_layout boot_offset env_offset env_size (err e) next = next
sized_layout boot_offset env_offset env_size (ok default_env) next = ok (
  record { boot_size = env_offset - boot_offset; env_offset = env_offset; env_size = env_size },
  default_env,
)

-- The loop over the candidate sizes.
unfoldable pub try_env_sizes : Decompress → Bytes → ℕ → ℕ → List ℕ → Result Inferred
unfolding sized_layout
try_env_sizes decompress image boot_offset boundary [] = err value_error
try_env_sizes decompress image boot_offset boundary (env_size ∷ env_sizes) =
    let next = try_env_sizes decompress image boot_offset boundary env_sizes in
    if leb (boundary - env_size) boot_offset
    then next
    else sized_layout boot_offset (boundary - env_size) env_size
        (extract_default_env_from_uboot decompress
          (slice boot_offset (boundary - env_size - boot_offset) image))
        next

from_boundary : Decompress → Bytes → ℕ → Option ℕ → Result Inferred
unfolding try_env_sizes
from_boundary decompress image boot_offset none = err value_error
from_boundary decompress image boot_offset (some boundary) =
    try_env_sizes decompress image boot_offset boundary common_env_sizes

from_layout : Decompress → Bytes → ℕ → Dict Text → Option (ℕ × ℕ) → Result Inferred
unfolding from_boundary find_first_post_boot_magic
from_layout decompress image boot_offset default_env none =
    from_boundary decompress image boot_offset (find_first_post_boot_magic image boot_offset)
from_layout decompress image boot_offset default_env (some (boot_size, env_size)) = ok (
  record { boot_size = boot_size; env_offset = boot_offset + boot_size; env_size = env_size },
  default_env,
)

probe_size_of : Option ℕ → Bytes → ℕ → ℕ
unfolding guess_boot_probe_size
probe_size_of none image boot_offset = guess_boot_probe_size image boot_offset
probe_size_of (some boot_size) image boot_offset = boot_size

unfoldable pub infer_partition_layout : Decompress → Bytes → ℕ → Option ℕ → Result Inferred
unfolding probe_size_of from_layout
infer_partition_layout decompress image boot_offset boot_size = do
  let probe_size = probe_size_of boot_size image boot_offset
  let probe_region = slice boot_offset probe_size image
  guard (length probe_region == probe_size) value_error
  default_env ← extract_default_env_from_uboot decompress probe_region
  layout ← find_mtdparts_layout default_env
  from_layout decompress image boot_offset default_env layout

abbrev pub Resolved : Type 0
Resolved = Layout × Option (Dict Text)

boot_size_by : ℕ → Option ℕ → Option ℕ → Option ℕ
boot_size_by boot_offset none (some env_offset) = some (env_offset - boot_offset)
boot_size_by boot_offset boot_size env_offset = boot_size

env_offset_by : ℕ → Option ℕ → Option ℕ → Option ℕ
env_offset_by boot_offset (some boot_size) none = some (boot_offset + boot_size)
env_offset_by boot_offset boot_size env_offset = env_offset

abbrev or_inferred : Option ℕ → ℕ → ℕ
or_inferred none n = n
or_inferred (some m) n = m

-- What is missing is inferred.
completed : Decompress → Bytes → ℕ → Option ℕ → Option ℕ → Option ℕ → Result Resolved
unfolding infer_partition_layout
completed decompress image boot_offset (some boot_size) (some env_offset) (some env_size) =
    ok (record { boot_size = boot_size; env_offset = env_offset; env_size = env_size }, none)
completed decompress image boot_offset boot_size env_offset env_size = do
  (inferred, default_env) ← infer_partition_layout decompress image boot_offset boot_size
  ok (
    record {
      boot_size = or_inferred boot_size inferred.boot_size;
      env_offset = or_inferred env_offset inferred.env_offset;
      env_size = or_inferred env_size inferred.env_size;
    },
    some default_env,
  )

unfoldable pub resolve_partition_layout :
    Decompress → Bytes → ℕ → Option ℕ → Option ℕ → Option ℕ → Result Resolved
unfolding completed boot_size_by env_offset_by
resolve_partition_layout decompress image boot_offset boot_size env_offset env_size = do
  guard (not (is_empty image)) value_error
  let size = boot_size_by boot_offset boot_size env_offset
  let offset = env_offset_by boot_offset size env_offset
  (layout, default_env) ← completed decompress image boot_offset size offset env_size
  guard (not (layout.boot_size == 0 || (layout.env_size == 0 || ltb layout.env_offset boot_offset)))
      value_error
  ok (layout, default_env)

-- What stands for a partition that cannot be parsed.
default_of : Decompress → Bytes → ℕ → ℕ → Option (Dict Text) → Result (Dict Text)
default_of decompress image boot_offset boot_size (some default_env) = ok default_env
default_of decompress image boot_offset boot_size none = do
  let boot_region = slice boot_offset boot_size image
  guard (length boot_region == boot_size) value_error
  extract_default_env_from_uboot decompress boot_region

parsed_or : Result (Dict Text) → Result (Dict Text) → Result (Dict Text)
parsed_or (ok env) default_env = ok env
parsed_or (err e) default_env = default_env

unfoldable pub ubootenv_extract :
    Decompress → Bytes → ℕ → Option ℕ → Option ℕ → Option ℕ → Result (Dict Text)
unfolding resolve_partition_layout default_of parsed_or
ubootenv_extract decompress image boot_offset boot_size env_offset env_size = do
  (layout, default_env) ←
      resolve_partition_layout decompress image boot_offset boot_size env_offset env_size
  let partition = slice layout.env_offset layout.env_size image
  guard (length partition == layout.env_size) value_error
  parsed_or (parse_part partition)
      (default_of decompress image boot_offset layout.boot_size default_env)

unfoldable pub ubootenv_find :
    Decompress → Bytes → ℕ → Option ℕ → Option ℕ → Option ℕ → Result EnvPartitionInfo
unfolding resolve_partition_layout
ubootenv_find decompress image boot_offset boot_size env_offset env_size = do
  (layout, default_env) ←
      resolve_partition_layout decompress image boot_offset boot_size env_offset env_size
  ok (record { offset = layout.env_offset; size = layout.env_size })

unfoldable pub ubootenv_patch :
    Decompress
    → Bytes
    → Dict Text
    → ℕ
    → Option ℕ
    → Option ℕ
    → Option ℕ
    → Option ℕ
    → ℕ
    → Result Bytes
unfolding ubootenv_find
ubootenv_patch decompress image env boot_offset boot_size env_offset env_size flags pad_byte = do
  info ← ubootenv_find decompress image boot_offset boot_size env_offset env_size
  patch_at image env info flags pad_byte
