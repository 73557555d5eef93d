-- ===== src/Snippets/Probe.antt =====
-- The script of uboot_nor_gen_probe as a whole, and the size that it finds.
use native.Mathlib.Nat.{pow-succ'}
use openipc_tftp.Common.{
  ℕ, zero, suc, ◌+◌, ◌*◌, ◌^◌, ◌≤◌, ◌<◌, ◌≡◌, refl, ap, ◌∙◌, ◌⊎◌, inl, inr, true, false, List, [],
  ◌∷◌, Option, some, arith, Bool-cases, ltb, if◌then◌else◌,
}
use openipc_tftp.Common.Text.{Text}
use openipc_tftp.Common.Digits.{hex}
use openipc_tftp.Snippets.{size_line, probe_lines, uboot_nor_gen_probe, normalize_base}
use openipc_tftp.Snippets.Block.{layer, IsBlock, sized, tried, IsShell}

module _ (flash offset : ℕ) where
  -- A size that is too large to be tried, or to be read.
  abbrev Stops : ℕ → ℕ → Type 0
  Stops max_sz n = (max_sz < n) ⊎ (flash < offset + n)

  -- The last of the sizes sz, 2 * sz, 4 * sz, ... that is allowed and read, or what was known.
  pub data Finds (max_sz known_good sz r : ℕ) : Type 0 where
    nothing_new : r ≡ known_good → Stops max_sz sz → Finds max_sz known_good sz r
    grown :
        (k : ℕ)
        → r ≡ sz * 2 ^ k
        → r ≤ max_sz
        → offset + r ≤ flash
        → Stops max_sz (r * 2)
        → Finds max_sz known_good sz r

  pow_step : (n k : ℕ) → n * 2 * 2 ^ k ≡ n * 2 ^ suc k
  pow_step n k = rw (pow-succ' 2 k) (grind arith)

  Finds-grow :
      (max_sz known_good sz r : ℕ)
      → sz ≤ max_sz
      → offset + sz ≤ flash
      → Finds max_sz sz (sz * 2) r
      → Finds max_sz known_good sz r
  Finds-grow max_sz known_good sz r h f (nothing_new e stop) =
      grown 0 (e ∙ omega arith) (rw e h) (rw e f) (rw e stop)
  Finds-grow max_sz known_good sz r h f (grown k e m i stop) =
      grown (suc k) (e ∙ pow_step sz k) m i stop

module _ (base : Text) (offset : ℕ) where
  -- The lines of a call, and of the calls inside it.
  data Probes (max_sz : ℕ) : ℕ → ℕ → List Text → Type 0 where
    past :
        {known_good sz : ℕ} {ls : List Text}
        → ltb max_sz sz ≡ true
        → ls ≡ size_line known_good ∷ []
        → Probes max_sz known_good sz ls
    deeper :
        {known_good sz : ℕ} {ls : List Text} (inner : List Text)
        → ltb max_sz sz ≡ false
        → Probes max_sz sz (sz * 2) inner
        → ls ≡ layer base offset known_good sz inner
        → Probes max_sz known_good sz ls

  probe_lines-Probes :
      (fuel max_sz known_good sz : ℕ)
      → 0 < sz
      → max_sz < fuel + sz
      → (ls : List Text) × (probe_lines (suc fuel) base offset max_sz known_good sz ≡ some ls)
        × Probes max_sz known_good sz ls
  unfolding probe_lines
  probe_lines-Probes zero max_sz known_good sz p h =
      let e : ltb max_sz sz ≡ true = ground arith in
      (size_line known_good ∷ [], rw (e, probe_lines) refl, past e refl)
  probe_lines-Probes (suc fuel) max_sz known_good sz p h = elim (Bool-cases (ltb max_sz sz)) [
    | inl e ↦ (size_line known_good ∷ [], rw (e, probe_lines) refl, past e refl)
    | inr e ↦
        let (inner, f, probes) =
          probe_lines-Probes fuel max_sz sz (sz * 2) (omega arith) (omega arith) in
        (
          layer base offset known_good sz inner,
          rw (e, probe_lines) (rw (f, probe_lines) refl),
          deeper inner e probes refl,
        )
  ]

  Probes-IsBlock :
      (max_sz known_good sz : ℕ) (ls : List Text)
      → Probes max_sz known_good sz ls
      → IsBlock base offset ls
  Probes-IsBlock max_sz known_good sz ls (past e f) = sized known_good f
  Probes-IsBlock max_sz known_good sz ls (deeper inner e p f) =
      tried known_good sz inner (Probes-IsBlock max_sz sz (sz * 2) inner p) f

module _ (base : Text) (offset flash : ℕ) {S : Type 0} (run : S → List Text → S)
    (size_of : S → Text) (shell : IsShell base offset flash run size_of) where
  -- The size that the variable has behind the script.
  abbrev pub Found : S → List Text → ℕ → ℕ → ℕ → Type 0
  Found s ls max_sz known_good sz =
      (r : ℕ) × (size_of (run s ls) ≡ hex r) × Finds flash offset max_sz known_good sz r

  Probes-Found :
      (max_sz known_good sz : ℕ) (ls : List Text)
      → Probes base offset max_sz known_good sz ls
      → (s : S) → Found s ls max_sz known_good sz
  Probes-Found max_sz known_good sz ls (past e f) s =
      rw f (known_good, shell.sets s known_good, nothing_new refl (inl (ground arith)))
  Probes-Found max_sz known_good sz ls (deeper inner e p f) s =
      let (t, ran) =
        shell.branches s known_good sz inner
          (Probes-IsBlock base offset max_sz sz (sz * 2) inner p) in
      rw f (elim (Bool-cases (ltb flash (offset + sz))) [
        | inl short ↦ (
          known_good,
          ap size_of (ran ∙ ap (λ b. run t (if b then size_line known_good ∷ [] else inner)) short)
              ∙ shell.sets t known_good,
          nothing_new refl (inr (ground arith)),
        )
        | inr fits ↦
            let (r, set, finds) = Probes-Found max_sz sz (sz * 2) inner p t in
            (
              r,
              ap size_of
                    (ran ∙ ap (λ b. run t (if b then size_line known_good ∷ [] else inner)) fits)
                  ∙ set,
              Finds-grow flash offset max_sz known_good sz r (ground arith) (ground arith) finds,
            )
      ])

  pub uboot_nor_gen_probe-Finds :
      (rambase : Text) (sz max_sz known_good : ℕ) (given : Option Text)
      → 0 < sz
      → normalize_base rambase given ≡ base
      → (s : S)
      → (ls : List Text) × (uboot_nor_gen_probe rambase sz max_sz known_good offset given ≡ some ls)
        × Found s ls max_sz known_good sz
  unfolding uboot_nor_gen_probe
  uboot_nor_gen_probe-Finds rambase sz max_sz known_good given p e s =
      let (ls, f, probes) =
        probe_lines-Probes base offset max_sz max_sz known_good sz p (omega arith) in
      (
        ls,
        ap (λ b. probe_lines (suc max_sz) b offset max_sz known_good sz) e ∙ f,
        Probes-Found max_sz known_good sz ls probes s,
      )
