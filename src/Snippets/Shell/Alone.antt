-- ===== src/Snippets/Shell/Alone.antt =====
-- The shell that starts every script outside of all branches fulfils what is assumed of U-Boot's.
use openipc_tftp.Common.{
  ℕ, ◌+◌, ◌≡◌, refl, sym, ap, ◌∙◌, ◌⊎◌, inl, inr, Bool, true, false, List, [], ◌∷◌, Option, none,
  some, Bool-cases, all_of, ltb, if◌then◌else◌,
}
use openipc_tftp.Common.Text.{Text}
use openipc_tftp.Common.Digits.{hex}
use openipc_tftp.Snippets.{size_line}
use openipc_tftp.Snippets.Block.{layer, IsBlock, sized, tried, IsShell}
use openipc_tftp.Snippets.Shell.{
  Shell, run_lines, Skips, layer-Skips, layer-fails, layer-reads, step-size, step-skip-size,
}

abbrev size_text : Option ℕ → Text
size_text none = []
size_text (some n) = hex n

abbrev pub size_of : Shell → Text
size_of s = size_text s.size

module _ (flash : ℕ) (base : Text) (offset : ℕ) where
  abbrev run_in : List Bool → Bool → Option ℕ → List Text → Shell
  run_in bs failed size ls =
      run_lines flash base offset (record { branches = bs; failed = failed; size = size }) ls

  -- Every script starts outside of all branches.
  abbrev pub alone : Shell → List Text → Shell
  alone s ls = run_in [] s.failed s.size ls

  block-Skips : (ls : List Text) → IsBlock base offset ls → Skips flash base offset ls
  block-Skips ls (sized n e) = rw e (λ s r. step-skip-size flash base offset s n r)
  block-Skips ls (tried n sz inner b e) =
      rw e (layer-Skips flash base offset n sz inner (block-Skips inner b))

  -- Inside branches that are taken, a block does the same as outside of them.
  record Alike (failed : Bool) (size : Option ℕ) (ls : List Text) : Type 0 where
    fails : Bool
    sizes : Option ℕ
    alike :
        (bs : List Bool)
        → all_of (λ b. b) bs ≡ true
        → run_in bs failed size ls ≡ record { branches = bs; failed = fails; size = sizes }

  block-Alike :
      (ls : List Text)
      → IsBlock base offset ls
      → (failed : Bool) (size : Option ℕ) → Alike failed size ls
  block-Alike ls (sized n e) failed size = rw e (record {
    fails = failed;
    sizes = some n;
    alike = λ bs h.
        step-size flash base offset (record { branches = bs; failed = failed; size = size }) n h;
  })
  block-Alike ls (tried n sz inner b e) failed size =
      rw e (elim (Bool-cases (ltb flash (offset + sz))) [
        | inl short ↦ record {
          fails = true;
          sizes = some n;
          alike = λ bs h.
              layer-fails flash base offset n sz inner
                (record { branches = bs; failed = failed; size = size }) (block-Skips inner b) h
                short;
        }
        | inr fits ↦
            let rest = block-Alike inner b false size in
            record {
              fails = rest.fails;
              sizes = rest.sizes;
              alike = λ bs h.
                  let ran = rest.alike (true ∷ bs) h in
                  layer-reads flash base offset n sz inner
                    (record { branches = bs; failed = failed; size = size }) h fits
                    (ap (λ (t : Shell). t.branches) ran)
                  ∙ ap (λ (t : Shell). record t { branches = bs }) ran;
            }
      ])

  pub alone-IsShell : IsShell base offset flash alone size_of
  alone-IsShell = record {
    sets = λ s n. ap size_of (
        step-size flash base offset (record { branches = []; failed = s.failed; size = s.size }) n
          refl);
    branches = λ s n sz inner b. branch s n sz inner b (Bool-cases (ltb flash (offset + sz)));
  }
    where
      branch :
          (s : Shell) (n sz : ℕ) (inner : List Text)
          → IsBlock base offset inner
          → (ltb flash (offset + sz) ≡ true) ⊎ (ltb flash (offset + sz) ≡ false)
          → (t : Shell) × (alone s (layer base offset n sz inner)
              ≡ alone t (if ltb flash (offset + sz) then size_line n ∷ [] else inner))
      branch s n sz inner b (inl short) =
          let start : Shell = record { branches = []; failed = s.failed; size = s.size } in
          let read : Shell = record { branches = []; failed = true; size = s.size } in
          (
            read,
            rw short (
                layer-fails flash base offset n sz inner start (block-Skips inner b) refl short
                ∙ sym (step-size flash base offset read n refl)),
          )
      branch s n sz inner b (inr fits) =
          let start : Shell = record { branches = []; failed = s.failed; size = s.size } in
          let rest = block-Alike inner b false s.size in
          let ran = rest.alike (true ∷ []) refl in
          (
            record { branches = []; failed = false; size = s.size },
            rw fits (
                layer-reads flash base offset n sz inner start refl fits
                  (ap (λ (t : Shell). t.branches) ran)
                ∙ (ap (λ (t : Shell). record t { branches = [] }) ran ∙ sym (rest.alike [] refl))),
          )
