-- ===== src/Snippets/Shell.antt =====
-- A shell that runs the lines of uboot_nor_gen_probe, as an instance of what is assumed of U-Boot's.
pub mod Alone
use openipc_tftp.Common.{
  ℕ, ◌+◌, ◌-◌, ◌≡◌, refl, ap, ◌∙◌, Bool, true, false, not, ◌&&◌, List, [], ◌∷◌, ◌++◌, append_assoc,
  Option, some, arith, length, take, drop, foldl, all_of, ltb, if◌then◌else◌, length-append,
  take-append, drop-append,
}
use openipc_tftp.Common.Text.{Text, codes, text_eq, starts_with}
use openipc_tftp.Common.Digits.{hex, digits, value, value-digits}
use openipc_tftp.Snippets.{size_line, read_line, if_line, else_line, fi_line}
use openipc_tftp.Snippets.Block.{echo_line, from_else, from_size, from_read, layer}
use openipc_tftp.Term.{restore_cursor, clear_region}

-- The shell: whether each open branch is taken, the innermost first; whether the last read failed;
-- and the variable `size`.
pub record Shell : Type 0 where
  pub branches : List Bool
  pub failed : Bool
  pub size : Option ℕ

abbrev pub runs : Shell → Bool
runs s = all_of (λ b. b) s.branches

flipped : List Bool → List Bool
flipped [] = []
flipped (b ∷ bs) = not b ∷ bs

popped : List Bool → List Bool
popped [] = []
popped (b ∷ bs) = bs

-- The hexadecimal number between the first `skip` characters and the last two.
number_in : ℕ → Text → ℕ
number_in skip line = let rest = drop skip line in value 16 0 (take (length rest - 2) rest)

abbrev read_prefix : Text → ℕ → Text
read_prefix base offset = codes "sf read " ++ (base ++ (codes " " ++ (hex offset ++ codes " 0x")))

module _ (flash : ℕ) (base : Text) (offset : ℕ) where
  -- One line; a read of flash fails where it would run past the end of it.
  pub step : Shell → Text → Shell
  unfolding flipped popped number_in
  step s line =
      if text_eq line if_line
      then record s { branches = s.failed ∷ s.branches }
      else if text_eq line else_line
      then record s { branches = flipped s.branches }
      else if text_eq line fi_line
      then record s { branches = popped s.branches }
      else if not (runs s)
      then s
      else if starts_with (codes "size=") line
      then record s { size = some (number_in 7 line) }
      else if starts_with (codes "sf read ") line
      then record s {
        failed = ltb flash (offset + number_in (length (read_prefix base offset)) line);
      }
      else s

number_in_lem : (p : Text) (n : ℕ) → number_in (length p) (p ++ (digits 16 n ++ codes ";\n")) ≡ n
unfolding number_in
number_in_lem p n = rw (drop-append p (digits 16 n ++ codes ";\n") (length p) refl) (
    ap (value 16 0) (
      take-append (digits 16 n) (codes ";\n") (length (digits 16 n ++ codes ";\n") - 2)
        (omega (arith, length-append (digits 16 n) (codes ";\n"))))
    ∙ value-digits n)

size_number : (n : ℕ) → number_in 7 (size_line n) ≡ n
size_number n = number_in_lem (codes "size=0x") n

read_number :
    (base : Text) (offset n : ℕ)
    → number_in (length (read_prefix base offset)) (read_line base offset n) ≡ n
read_number base offset n =
    ap (number_in (length (read_prefix base offset))) (spelled base offset)
    ∙ number_in_lem (read_prefix base offset) n
  where
    spelled :
        (base : Text) (offset : ℕ)
        → read_line base offset n ≡ read_prefix base offset ++ (digits 16 n ++ codes ";\n")
    spelled base offset = simp append_assoc

foldl-append {ℓ κ} :
    {A : Type ℓ} {B : Type κ} (f : B → A → B) (b : B) (xs ys : List A)
    → foldl f b (xs ++ ys) ≡ foldl f (foldl f b xs) ys
foldl-append f b [] ys = refl
foldl-append f b (x ∷ xs) ys = foldl-append f (f b x) xs ys

module _ (flash : ℕ) (base : Text) (offset : ℕ) where
  step-if :
      (s : Shell) → step flash base offset s if_line ≡ record s { branches = s.failed ∷ s.branches }
  unfolding step text_eq
  step-if s = refl

  step-else :
      (s : Shell) (b : Bool) (bs : List Bool)
      → s.branches ≡ b ∷ bs
      → step flash base offset s else_line ≡ record s { branches = not b ∷ bs }
  unfolding step text_eq
  step-else s b bs e = ground arith

  step-fi :
      (s : Shell) (b : Bool) (bs : List Bool)
      → s.branches ≡ b ∷ bs
      → step flash base offset s fi_line ≡ record s { branches = bs }
  unfolding step text_eq
  step-fi s b bs e = ground arith

  step-echo : (s : Shell) → step flash base offset s echo_line ≡ s
  unfolding step text_eq starts_with
  step-echo s = ground arith

  pub step-size :
      (s : Shell) (n : ℕ)
      → runs s ≡ true
      → step flash base offset s (size_line n) ≡ record s { size = some n }
  unfolding step text_eq starts_with
  step-size s n r = rw r (ap (λ m. record s { size = some m }) (size_number n))

  step-read :
      (s : Shell) (n : ℕ)
      → runs s ≡ true
      → step flash base offset s (read_line base offset n)
        ≡ record s { failed = ltb flash (offset + n) }
  unfolding step text_eq starts_with
  step-read s n r =
      rw r (ap (λ m. record s { failed = ltb flash (offset + m) }) (read_number base offset n))

  pub step-skip-size :
      (s : Shell) (n : ℕ) → runs s ≡ false → step flash base offset s (size_line n) ≡ s
  unfolding step text_eq starts_with
  step-skip-size s n r = rw r refl

  step-skip-read :
      (s : Shell) (n : ℕ) → runs s ≡ false → step flash base offset s (read_line base offset n) ≡ s
  unfolding step text_eq starts_with
  step-skip-read s n r = rw r refl

  abbrev pub run_lines : Shell → List Text → Shell
  run_lines = foldl (step flash base offset)

  go-step :
      (s t : Shell) (line : Text) (rest : List Text)
      → step flash base offset s line ≡ t
      → run_lines s (line ∷ rest) ≡ run_lines t rest
  go-step s t line rest e = ap (λ u. run_lines u rest) e

  go-last :
      (s t : Shell) (inner : List Text) (b : Bool) (bs : List Bool)
      → run_lines s inner ≡ t
      → t.branches ≡ b ∷ bs
      → run_lines s (inner ++ fi_line ∷ []) ≡ record t { branches = bs }
  go-last s t inner b bs e f =
      foldl-append (step flash base offset) s inner (fi_line ∷ [])
      ∙ (ap (λ u. step flash base offset u fi_line) e ∙ step-fi t b bs f)

  not_run :
      (b : Bool) (bs : List Bool) → all_of (λ c. c) bs ≡ false → (b && all_of (λ c. c) bs) ≡ false
  not_run b bs h = ground arith

  abbrev pub Skips : List Text → Type 0
  Skips ls = (s : Shell) → runs s ≡ false → run_lines s ls ≡ s

  pub layer-Skips :
      (known_good sz : ℕ) (inner : List Text)
      → Skips inner
      → Skips (layer base offset known_good sz inner)
  layer-Skips known_good sz inner skips s r =
      let in_if : Shell = record s { branches = s.failed ∷ s.branches } in
      let in_else : Shell = record s { branches = not s.failed ∷ s.branches } in
      go-step _ _ echo_line (from_read base offset known_good sz inner) (step-echo s)
      ∙ (go-step _ _ (read_line base offset sz) (if_line ∷ from_size known_good inner)
            (step-skip-read s sz r)
          ∙ (go-step _ _ if_line (from_size known_good inner) (step-if s)
              ∙ (go-step _ _ (size_line known_good) (from_else inner)
                    (step-skip-size in_if known_good (not_run s.failed s.branches r))
                  ∙ (go-step _ _ else_line (inner ++ fi_line ∷ [])
                        (step-else in_if s.failed s.branches refl)
                      ∙ go-last _ _ inner (not s.failed) s.branches
                          (skips in_else (not_run (not s.failed) s.branches r)) refl))))

  pub layer-fails :
      (known_good sz : ℕ) (inner : List Text) (s : Shell)
      → Skips inner
      → runs s ≡ true
      → ltb flash (offset + sz) ≡ true
      → run_lines s (layer base offset known_good sz inner)
        ≡ record s { failed = true; size = some known_good }
  layer-fails known_good sz inner s skips r f =
      let read : Shell = record s { failed = true } in
      let in_if : Shell = record s { branches = true ∷ s.branches; failed = true } in
      let sized : Shell = record s {
        branches = true ∷ s.branches;
        failed = true;
        size = some known_good;
      } in
      let in_else : Shell = record s {
        branches = false ∷ s.branches;
        failed = true;
        size = some known_good;
      } in
      go-step _ _ echo_line (from_read base offset known_good sz inner) (step-echo s)
      ∙ (go-step _ _ (read_line base offset sz) (if_line ∷ from_size known_good inner)
            (step-read s sz r ∙ ap (λ b. record s { failed = b }) f)
          ∙ (go-step _ _ if_line (from_size known_good inner) (step-if read)
              ∙ (go-step _ _ (size_line known_good) (from_else inner) (step-size in_if known_good r)
                  ∙ (go-step _ _ else_line (inner ++ fi_line ∷ [])
                        (step-else sized true s.branches refl)
                      ∙ go-last _ _ inner false s.branches (skips in_else refl) refl))))

  abbrev pub inside : Shell → Shell
  inside s = record s { branches = true ∷ s.branches; failed = false }

  pub layer-reads :
      (known_good sz : ℕ) (inner : List Text) (s : Shell)
      → runs s ≡ true
      → ltb flash (offset + sz) ≡ false
      → (run_lines (inside s) inner).branches ≡ true ∷ s.branches
      → run_lines s (layer base offset known_good sz inner)
        ≡ record (run_lines (inside s) inner) { branches = s.branches }
  layer-reads known_good sz inner s r f b =
      let read : Shell = record s { failed = false } in
      let in_if : Shell = record s { branches = false ∷ s.branches; failed = false } in
      go-step _ _ echo_line (from_read base offset known_good sz inner) (step-echo s)
      ∙ (go-step _ _ (read_line base offset sz) (if_line ∷ from_size known_good inner)
            (step-read s sz r ∙ ap (λ b. record s { failed = b }) f)
          ∙ (go-step _ _ if_line (from_size known_good inner) (step-if read)
              ∙ (go-step _ _ (size_line known_good) (from_else inner)
                    (step-skip-size in_if known_good refl)
                  ∙ (go-step _ _ else_line (inner ++ fi_line ∷ [])
                        (step-else in_if false s.branches refl)
                      ∙ go-last _ _ inner true s.branches refl b))))
