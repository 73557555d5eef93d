-- ===== src/Env/Flash/Infer.antt =====
-- The layout that is inferred where boundaries are missing.
use openipc_tftp.Common.{
  ℕ, ◌+◌, ◌-◌, ◌<◌, ◌≡◌, refl, ◌⊎◌, false, List, [], ◌∷◌, Option, none, some, arith, inl, inr,
  Ensures, Ensures-bind, Ensures-value, Bool-cases, Result, Result-cases, ok, err, value_error,
  IsIn, guard, length, leb, ◌==◌,
}
use openipc_tftp.Common.Text.{Text, Bytes}
use openipc_tftp.Common.Dict.{Dict}
use openipc_tftp.Env.Layout.{find_mtdparts_layout}
use openipc_tftp.Env.Search.{Decompress, extract_default_env_from_uboot}
use openipc_tftp.Env.Flash.{
  slice, Inferred, common_env_sizes, try_env_sizes, from_layout, from_boundary,
  infer_partition_layout, probe_size_of, find_first_post_boot_magic,
}

module _ (decompress : Decompress) (image : Bytes) (boot_offset : ℕ) where
  -- The environment lies between the boot partition and the first magic number behind it.
  pub record FromMagic (i : Inferred) : Type 0 where
    pub boundary : ℕ
    pub found : find_first_post_boot_magic image boot_offset ≡ some boundary
    pub common : IsIn i.0.env_size common_env_sizes
    pub ends : i.0.env_offset + i.0.env_size ≡ boundary
    pub contiguous : boot_offset + i.0.boot_size ≡ i.0.env_offset
    pub boot_pos : 0 < i.0.boot_size
    pub default_env :
        extract_default_env_from_uboot decompress (slice boot_offset i.0.boot_size image) ≡ ok i.1

  -- The layout is that of an mtdparts variable of the default environment.
  pub record FromMtdparts (i : Inferred) : Type 0 where
    pub region :
        (n : ℕ) × (extract_default_env_from_uboot decompress (slice boot_offset n image) ≡ ok i.1)
    pub spec : find_mtdparts_layout i.1 ≡ ok (some (i.0.boot_size, i.0.env_size))
    pub contiguous : boot_offset + i.0.boot_size ≡ i.0.env_offset

  sized :
      (boundary : ℕ)
      → find_first_post_boot_magic image boot_offset ≡ some boundary
      → (sizes : List ℕ) → ((n : ℕ) → IsIn n sizes → IsIn n common_env_sizes)
      → Ensures FromMagic (try_env_sizes decompress image boot_offset boundary sizes)
  unfolding try_env_sizes
  sized boundary f [] sub = tt
  sized boundary f (n ∷ sizes) sub = elim (Bool-cases (leb (boundary - n) boot_offset)) [
    | inl skip ↦ rw skip (sized boundary f sizes (λ m h. sub m (inr h)))
    | inr room ↦
        rw room
          (elim (Result-cases (
            extract_default_env_from_uboot decompress
              (slice boot_offset (boundary - n - boot_offset) image))) [
                | inl (env, e) ↦ rw e (record {
                  boundary = boundary;
                  found = f;
                  common = sub n (inl refl);
                  ends = ends_at room;
                  contiguous = fits room;
                  boot_pos = pos room;
                  default_env = e;
                })
                | inr (x, e) ↦ rw e (sized boundary f sizes (λ m h. sub m (inr h)))
              ])
  ]
    where
      ends_at : leb (boundary - n) boot_offset ≡ false → boundary - n + n ≡ boundary
      ends_at r = ground arith

      fits :
          leb (boundary - n) boot_offset ≡ false
          → boot_offset + (boundary - n - boot_offset) ≡ boundary - n
      fits r = ground arith

      pos : leb (boundary - n) boot_offset ≡ false → 0 < boundary - n - boot_offset
      pos r = ground arith

  from_boundary-Ensures :
      (b : Option ℕ)
      → find_first_post_boot_magic image boot_offset ≡ b
      → Ensures FromMagic (from_boundary decompress image boot_offset b)
  unfolding from_boundary
  from_boundary-Ensures none f = tt
  from_boundary-Ensures (some boundary) f = sized boundary f common_env_sizes (λ n h. h)

  IsInferred : Inferred → Type 0
  IsInferred i = FromMtdparts i ⊎ FromMagic i

  from_magic : (r : Result Inferred) → Ensures FromMagic r → Ensures IsInferred r
  unfolding IsInferred
  from_magic (ok i) h = inr h
  from_magic (err e) h = tt

  from_layout-Ensures :
      (n : ℕ) (env : Dict Text) (l : Option (ℕ × ℕ))
      → extract_default_env_from_uboot decompress (slice boot_offset n image) ≡ ok env
      → find_mtdparts_layout env ≡ ok l
      → Ensures IsInferred (from_layout decompress image boot_offset env l)
  unfolding from_layout IsInferred
  from_layout-Ensures n env none f e =
      from_magic _ (from_boundary-Ensures (find_first_post_boot_magic image boot_offset) refl)
  from_layout-Ensures n env (some (boot_size, env_size)) f e =
      inl (record { region = (n, f); spec = e; contiguous = refl })

  IsInferred-Ensures :
      (boot_size : Option ℕ)
      → Ensures IsInferred (infer_partition_layout decompress image boot_offset boot_size)
  unfolding infer_partition_layout
  IsInferred-Ensures boot_size =
      let n = probe_size_of boot_size image boot_offset in
      Ensures-bind IsInferred (guard (length (slice boot_offset n image) == n) value_error) _ λ u _.
        Ensures-bind IsInferred
          (extract_default_env_from_uboot decompress (slice boot_offset n image)) _
          λ env f.
            Ensures-bind IsInferred (find_mtdparts_layout env) _
              λ l e. from_layout-Ensures n env l f e

  -- A layout that _infer_partition_layout returns has the environment directly behind the boot
  -- partition. It is either the layout that the mtdparts variables of the returned environment give,
  -- which is the default environment of a region at the boot offset; or the environment ends where
  -- the first magic number stands from 64 KiB behind the boot offset on, has one of the three common
  -- sizes, and the returned environment is the default environment of the boot partition, which is
  -- not empty.
  pub infer-IsInferred :
      (boot_size : Option ℕ) {i : Inferred}
      → infer_partition_layout decompress image boot_offset boot_size ≡ ok i
      → FromMtdparts i ⊎ FromMagic i
  unfolding IsInferred
  infer-IsInferred boot_size e = Ensures-value IsInferred _ (IsInferred-Ensures boot_size) e
