-- ===== src/Snippets/Block.antt =====
-- The blocks of lines that uboot_nor_gen_probe prints, and what is documented of U-Boot's shell that
-- runs them. The shell is not in the repository: it is a parameter.
use openipc_tftp.Common.{ℕ, ◌+◌, ◌≡◌, List, [], ◌∷◌, ◌++◌, ltb, if◌then◌else◌}
use openipc_tftp.Common.Text.{Text, codes}
use openipc_tftp.Common.Digits.{hex}
use openipc_tftp.Snippets.{size_line, read_line, if_line, else_line, fi_line}
use openipc_tftp.Term.{restore_cursor, clear_region}

abbrev pub echo_line : Text
echo_line = codes "echo " ++ (restore_cursor ++ clear_region)

-- The lines of one call around those of the call inside it, from the last.
abbrev pub from_else : List Text → List Text
from_else inner = else_line ∷ (inner ++ fi_line ∷ [])

abbrev pub from_size : ℕ → List Text → List Text
from_size known_good inner = size_line known_good ∷ from_else inner

abbrev pub from_read : Text → ℕ → ℕ → ℕ → List Text → List Text
from_read base offset known_good sz inner =
    read_line base offset sz ∷ if_line ∷ from_size known_good inner

abbrev pub layer : Text → ℕ → ℕ → ℕ → List Text → List Text
layer base offset known_good sz inner = echo_line ∷ from_read base offset known_good sz inner

module _ (base : Text) (offset : ℕ) where
  pub data IsBlock : List Text → Type 0 where
    sized : {ls : List Text} (n : ℕ) → ls ≡ size_line n ∷ [] → IsBlock ls
    tried :
        {ls : List Text} (n sz : ℕ) (inner : List Text)
        → IsBlock inner
        → ls ≡ layer base offset n sz inner
        → IsBlock ls

  -- A shell over a flash of that size, which has been probed: `run` is what lines do to the shell's
  -- state and `size_of` reads the variable `size`. A line `size=n;` sets the variable; and of the
  -- lines of a call, behind some state, those of one branch are run: those in front of `else` if the
  -- read goes past the end of the flash, and those behind it if not.
  pub record IsShell (flash : ℕ) {S : Type 0} (run : S → List Text → S) (size_of : S → Text)
      : Type 0 where
    pub sets : (s : S) (n : ℕ) → size_of (run s (size_line n ∷ [])) ≡ hex n
    pub branches :
        (s : S) (n sz : ℕ) (inner : List Text)
        → IsBlock inner
        → (t : S) × (run s (layer base offset n sz inner)
            ≡ run t (if ltb flash (offset + sz) then size_line n ∷ [] else inner))
