-- ===== src/Term.antt =====
-- src/uboot_tftp/ubootterm.py: U-Boot commands that print to the console. A text is printed by
-- `echo` in double quotes, and the escape sequences begin with the character 27.
pub mod Quoting
use openipc_tftp.Common.{
  ℕ, ◌+◌, ◌-◌, min, Bool, true, false, [], ◌∷◌, ◌++◌, Option, none, some, Result, ok, err,
  value_error, ◌>>=◌, ◌==◌, if◌then◌else◌, replicate,
}
use openipc_tftp.Common.Text.{Text, codes}
use openipc_tftp.Common.Dict
use openipc_tftp.Common.Dict.{Dict}
use openipc_tftp.Common.Digits.{str}

abbrev pub save_cursor : Text
save_cursor = 27 ∷ codes "7"

abbrev pub restore_cursor : Text
restore_cursor = 27 ∷ codes "8"

abbrev pub home_cursor : Text
home_cursor = 27 ∷ codes "[H"

abbrev pub clear_region : Text
clear_region = 27 ∷ codes "[J"

abbrev pub clear_screen : Text
clear_screen = 27 ∷ codes "[2J"

abbrev pub restore : Text
restore = 27 ∷ codes "[0m"

abbrev pub color_codes : Dict ℕ
color_codes =
    (codes "black", 30)
    ∷ (codes "red", 31)
    ∷ (codes "green", 32)
    ∷ (codes "yellow", 33)
    ∷ (codes "blue", 34)
    ∷ (codes "magenta", 35)
    ∷ (codes "cyan", 36)
    ∷ (codes "white", 37)
    ∷ []

-- `value.replace('"', '\\"')`
unfoldable pub escape_quotes : Text → Text
escape_quotes [] = []
escape_quotes (c ∷ s) =
    let rest = escape_quotes s in if c == b'"' then b'\\' ∷ b'"' ∷ rest else c ∷ rest

unfoldable pub quote : Text → Text
unfolding escape_quotes
quote value = b'"' ∷ (escape_quotes value ++ b'"' ∷ [])

unfoldable pub echo : Text → Text
unfolding quote
echo value = codes "echo " ++ quote value

styled : Option ℕ → Bool → Result Text
styled none bold = err value_error
styled (some code) bold =
    ok (27 ∷ b'[' ∷ ((if bold then codes "1;" else []) ++ (str code ++ codes "m")))

unfoldable pub style : Text → Bool → Result Text
unfolding styled
style color bold = styled (Dict.get color_codes color) bold

unfoldable pub uboot_term_reset : Text
unfolding echo
uboot_term_reset = echo (clear_screen ++ (restore ++ (home_cursor ++ save_cursor)))

unfoldable pub uboot_status : Text → Text → Bool → Result Text
unfolding echo style
uboot_status msg color bold = do
  s ← style color bold
  ok (echo (restore_cursor ++ (clear_region ++ (save_cursor ++ (s ++ (msg ++ restore))))))

unfoldable pub uboot_status_complete : Text
unfolding echo
uboot_status_complete = echo save_cursor

-- `x` and `total` are not negative here; the source also cuts negative numbers off at 0.
unfoldable pub progress_bar : ℕ → ℕ → Text
progress_bar x total =
    let filled = min x total in
    b'[' ∷ (replicate filled b'#' ++ (replicate (total - filled) b' ' ++ b']' ∷ []))

unfoldable pub uboot_progress : ℕ → ℕ → Text → Bool → Result Text
unfolding uboot_status progress_bar
uboot_progress x total color bold = uboot_status (progress_bar x total) color bold

unfoldable pub uboot_msg : Text → Text → Bool → Bool → Result Text
unfolding echo style
uboot_msg msg color bold nl = do
  s ← style color bold
  ok (
      echo (
        restore_cursor
        ++ (clear_region ++ (s ++ (msg ++ (restore ++ (if nl then [] else codes "\\c"))))))
      ++ (codes "; " ++ echo save_cursor))

unfoldable pub uboot_err : Text → Text → Bool → Result Text
unfolding uboot_msg
uboot_err msg color bold = uboot_msg msg color bold true
