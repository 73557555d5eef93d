-- ===== src/Env/Flash/Cycle.antt =====
-- A flash image that was patched, where the boundaries of its partitions are given.
use openipc_tftp.Common.{
  ℕ, ◌+◌, ◌-◌, ◌≤◌, ◌<◌, ◌≡◌, refl, sym, ap, ◌∙◌, true, not, ◌||◌, [], ◌∷◌, ◌++◌, Option, none,
  some, ok, arith, All, length, take, drop, length-take, take-append, drop-append, is_empty, ltb,
  ◌==◌, Ensures-value, ==_refl,
}
use openipc_tftp.Common.Text.{Text, Bytes}
use openipc_tftp.Common.Dict.{Dict, IsUnique}
use openipc_tftp.Env.{EnvPartitionInfo, build, patch_at, parse_part}
use openipc_tftp.Env.Payload.{IsBinding, payload}
use openipc_tftp.Env.RoundTrip.{IsPad, build_parse_lem}
use openipc_tftp.Env.Frame.{Frames, patch-Frames, build-length}
use openipc_tftp.Env.Search.{Decompress}
use openipc_tftp.Env.Flash.{
  slice, Layout, resolve_partition_layout, ubootenv_find, ubootenv_patch, ubootenv_extract,
}

-- The size of the boot partition and the offset of the environment, where one or both are given.
abbrev pub given : ℕ → Option ℕ → Option ℕ → Option (ℕ × ℕ)
given boot_offset none none = none
given boot_offset none (some env_offset) = some (env_offset - boot_offset, env_offset)
given boot_offset (some boot_size) none = some (boot_size, boot_offset + boot_size)
given boot_offset (some boot_size) (some env_offset) = some (boot_size, env_offset)

-- Boundaries by which the environment is a partition of the image.
pub record IsLayout (image : Bytes) (boot_offset : ℕ) (l : Layout) : Type 0 where
  pub boot_pos : 0 < l.boot_size
  pub env_pos : 0 < l.env_size
  pub behind : boot_offset ≤ l.env_offset
  pub inside : l.env_offset + l.env_size ≤ length image

not_empty : (image : Bytes) → 0 < length image → not (is_empty image) ≡ true
not_empty [] h = elim h [ ]
not_empty (c ∷ s) h = refl

valid_bounds :
    {image : Bytes} {boot_offset : ℕ} {l : Layout}
    → IsLayout image boot_offset l
    → not (l.boot_size == 0 || (l.env_size == 0 || ltb l.env_offset boot_offset)) ≡ true
valid_bounds v = ground arith

resolve_given :
    (decompress : Decompress) (image : Bytes) (boot_offset : ℕ) (boot_size env_offset : Option ℕ)
    (l : Layout)
    → IsLayout image boot_offset l
    → given boot_offset boot_size env_offset ≡ some (l.boot_size, l.env_offset)
    → resolve_partition_layout decompress image boot_offset boot_size env_offset (some l.env_size)
      ≡ ok (l, none)
unfolding resolve_partition_layout
resolve_given decompress image boot_offset none none l v e = cc
resolve_given decompress image boot_offset none (some eo) l v e =
    rw (not_empty image (let i = v.inside in let p = v.env_pos in omega arith))
      (ground (arith, valid_bounds v))
resolve_given decompress image boot_offset (some bs) none l v e =
    rw (not_empty image (let i = v.inside in let p = v.env_pos in omega arith))
      (ground (arith, valid_bounds v))
resolve_given decompress image boot_offset (some bs) (some eo) l v e =
    rw (not_empty image (let i = v.inside in let p = v.env_pos in omega arith))
      (ground (arith, valid_bounds v))

slice_middle :
    (front middle back : Bytes) (start size : ℕ)
    → length front ≡ start
    → length middle ≡ size
    → slice start size (front ++ (middle ++ back)) ≡ middle
slice_middle front middle back start size e f =
    ap (take size) (drop-append front (middle ++ back) start (sym e))
    ∙ take-append middle back size (sym f)

extract_given :
    (decompress : Decompress) (image : Bytes) (boot_offset : ℕ) (boot_size env_offset : Option ℕ)
    (l : Layout) (partition : Bytes) (env : Dict Text)
    → IsLayout image boot_offset l
    → given boot_offset boot_size env_offset ≡ some (l.boot_size, l.env_offset)
    → slice l.env_offset l.env_size image ≡ partition
    → length partition ≡ l.env_size
    → parse_part partition ≡ ok env
    → ubootenv_extract decompress image boot_offset boot_size env_offset (some l.env_size) ≡ ok env
unfolding ubootenv_extract
extract_given decompress image boot_offset boot_size env_offset l partition env v e s n p =
    let whole : (length partition == l.env_size) ≡ true = rw n (==_refl l.env_size) in
    rw (resolve_given decompress image boot_offset boot_size env_offset l v e)
      (rw s (rw whole (rw p refl)))

patch_given :
    (decompress : Decompress) (image : Bytes) (env : Dict Text) (boot_offset : ℕ)
    (boot_size env_offset flags : Option ℕ) (l : Layout) (pad : ℕ)
    → IsLayout image boot_offset l
    → given boot_offset boot_size env_offset ≡ some (l.boot_size, l.env_offset)
    → ubootenv_patch decompress image env boot_offset boot_size env_offset
        (some l.env_size)
        flags
        pad
      ≡ patch_at image env (record { offset = l.env_offset; size = l.env_size }) flags pad
unfolding ubootenv_patch ubootenv_find
patch_given decompress image env boot_offset boot_size env_offset flags l pad v e =
    rw (resolve_given decompress image boot_offset boot_size env_offset l v e) refl

patch_at_built :
    (image : Bytes) (env : Dict Text) (l : Layout) (pad : ℕ) (partition : Bytes)
    → build env (some l.env_size) none pad ≡ ok partition
    → patch_at image env (record { offset = l.env_offset; size = l.env_size }) none pad
      ≡ ok (take l.env_offset image ++ (partition ++ drop (l.env_offset + l.env_size) image))
unfolding patch_at
patch_at_built image env l pad partition e = rw e refl

-- In an image whose boundaries are given (the size of the environment partition, and the size of
-- the boot partition or the offset of the environment or both) and lie inside it, an environment of
-- one binding or more, with valid keys that stand once and values that are texts without NUL, is
-- written by ubootenv_patch without flags, padded with 0x00 or 0xFF, if it fits. The image keeps its size and all other bytes, and ubootenv_extract with
-- the same boundaries reads the same bindings in the same order out of it.
pub patch-extract :
    (decompress : Decompress) (image : Bytes) (boot_offset : ℕ) (boot_size env_offset : Option ℕ)
    (l : Layout) (b : Text × Text) (env : Dict Text) (pad : ℕ)
    → IsLayout image boot_offset l
    → given boot_offset boot_size env_offset ≡ some (l.boot_size, l.env_offset)
    → All IsBinding (b ∷ env)
    → IsUnique (b ∷ env)
    → length (payload (b ∷ env)) + 4 ≤ l.env_size
    → IsPad pad
    → (patched : Bytes) × (ubootenv_patch decompress image
          (b ∷ env)
          boot_offset
          boot_size
          env_offset
          (some l.env_size)
          none
          pad
        ≡ ok patched)
      × Frames image (record { offset = l.env_offset; size = l.env_size }) patched
      × (ubootenv_extract decompress patched boot_offset boot_size env_offset (some l.env_size)
          ≡ ok (b ∷ env))
patch-extract decompress image boot_offset boot_size env_offset l b env pad v e h u fits p =
    let (partition, built, parsed) = build_parse_lem b env (some l.env_size) pad h u fits p in
    let info : EnvPartitionInfo = record { offset = l.env_offset; size = l.env_size } in
    let front = take l.env_offset image in
    let back = drop (l.env_offset + l.env_size) image in
    let written = patch_at_built image (b ∷ env) l pad partition built in
    let frames = patch-Frames image (b ∷ env) info none pad v.inside written in
    let sized : length partition ≡ l.env_size =
      Ensures-value (λ s. length s ≡ l.env_size) _ (build-length (b ∷ env) l.env_size none pad)
        built in
    let front_size : length front ≡ l.env_offset =
      let i = v.inside in omega (arith, length-take l.env_offset image) in
    (
      front ++ (partition ++ back),
      patch_given decompress image (b ∷ env) boot_offset boot_size env_offset none l pad v e
          ∙ written,
      frames,
      extract_given decompress (front ++ (partition ++ back)) boot_offset boot_size env_offset l
          partition (b ∷ env)
          (record {
            boot_pos = v.boot_pos;
            env_pos = v.env_pos;
            behind = v.behind;
            inside = let i = v.inside in let f = frames.size in omega arith;
          })
          e (slice_middle front partition back l.env_offset l.env_size front_size sized) sized
          parsed,
    )
