-- ===== src/Snippets.antt =====
-- src/uboot_tftp/ubootscript.py: snippets of U-Boot scripts. `rambase` is the attribute of the
-- session's handle, and `count` is what the counter of temporary names draws first.
pub mod Block
pub mod Shell
pub mod Probe
mod Tests
use openipc_tftp.Common.{
  ℕ, zero, suc, ◌+◌, ◌*◌, Bool, true, false, not, ◌&&◌, ◌||◌, List, [], ◌∷◌, ◌++◌, Option, none,
  some, ltb, leb, ◌==◌, if◌then◌else◌,
}
use openipc_tftp.Common.Text.{Text, codes, join, starts_with, ends_with, lstrip}
use openipc_tftp.Common.Digits.{str, hex}
use openipc_tftp.Scripted.Setting.{Offset, number, text}
use openipc_tftp.Scripted.Texts.{variable}
use openipc_tftp.Term.{restore_cursor, clear_region}

-- `[A-Za-z_]` and `[A-Za-z0-9_#.-]`
abbrev pub is_first_char : ℕ → Bool
is_first_char c = (leb b'A' c && leb c b'Z') || ((leb b'a' c && leb c b'z') || c == b'_')

abbrev pub is_ident_char : ℕ → Bool
is_ident_char c =
    is_first_char c || ((leb b'0' c && leb c b'9') || (c == b'#' || (c == b'.' || c == b'-')))

-- `[A-Za-z0-9_#.-]*$`, where `$` also stands before a newline at the end.
ident_rest : Text → Bool
ident_rest [] = true
ident_rest (c ∷ []) = is_ident_char c || c == 10
ident_rest (c ∷ d ∷ s) = is_ident_char c && ident_rest (d ∷ s)

-- `_IDENT_RE.match`
is_ident : Text → Bool
unfolding ident_rest
is_ident [] = false
is_ident (c ∷ s) = is_first_char c && ident_rest s

unfoldable pub format_number : Offset → Text
format_number (number n) = hex n
format_number (text t) = t

unfoldable pub normalize_base : Text → Option Text → Text
unfolding is_ident
normalize_base rambase none = rambase
normalize_base rambase (some base) =
    if starts_with (codes "${") base && ends_with (codes "}") base
    then base
    else if is_ident base
    then variable base
    else base

unfoldable pub tmp_name : Text → ℕ → Text
tmp_name kind count = codes "__uboot_tftp_" ++ (kind ++ (codes "_" ++ str count))

abbrev lines : List Text → Text
lines = join (codes "\n")

abbrev setexpr : Text → Text → Offset → Text
setexpr name base offset =
    codes "setexpr " ++ (name ++ (codes " " ++ (base ++ (codes " + " ++ format_number offset))))

abbrev unset : Text → Text
unset name = codes "setenv " ++ name

-- Words with spaces between them.
abbrev spaced : List Text → Text
spaced = join (codes " ")

unfoldable pub uboot_memset : Text → ℕ → Offset → Offset → Offset → Option Text → Text
unfolding tmp_name normalize_base format_number
uboot_memset rambase count offset value size base =
    let addr_var = tmp_name (codes "addr") count in
    lines (
      setexpr addr_var (normalize_base rambase base) offset
      ∷ spaced (codes "mw.b" ∷ variable addr_var ∷ format_number value ∷ format_number size ∷ [])
      ∷ unset addr_var
      ∷ [])

unfoldable pub uboot_memcpy : Text → ℕ → Offset → Offset → Offset → Option Text → Text
unfolding tmp_name normalize_base format_number
uboot_memcpy rambase count dst_offset src_offset size base =
    let src_var = tmp_name (codes "src") count in
    let dst_var = tmp_name (codes "dst") (count + 1) in
    lines (
      setexpr src_var (normalize_base rambase base) src_offset
      ∷ setexpr dst_var (normalize_base rambase base) dst_offset
      ∷ spaced (codes "cp.b" ∷ variable src_var ∷ variable dst_var ∷ format_number size ∷ [])
      ∷ unset src_var
      ∷ unset dst_var
      ∷ [])

unfoldable pub uboot_nor_erase : Offset → Offset → Text
unfolding format_number
uboot_nor_erase offset size = lines (
    codes "sf probe 0"
    ∷ spaced (codes "sf erase" ∷ format_number offset ∷ format_number size ∷ [])
    ∷ [])

-- A transfer between the flash and RAM.
unfoldable pub nor_transfer : Text → Text → ℕ → Offset → Offset → Offset → Option Text → Text
unfolding tmp_name normalize_base format_number
nor_transfer command rambase count ram_offset nor_offset size base =
    let addr_var = tmp_name (codes "addr") count in
    lines (
      codes "sf probe 0"
      ∷ setexpr addr_var (normalize_base rambase base) ram_offset
      ∷ spaced (command ∷ variable addr_var ∷ format_number nor_offset ∷ format_number size ∷ [])
      ∷ unset addr_var
      ∷ [])

unfoldable pub uboot_nor_read : Text → ℕ → Offset → Offset → Offset → Option Text → Text
unfolding nor_transfer
uboot_nor_read rambase count ram_offset nor_offset size base =
    nor_transfer (codes "sf read") rambase count ram_offset nor_offset size base

unfoldable pub uboot_nor_write : Text → ℕ → Offset → Offset → Offset → Option Text → Text
unfolding nor_transfer
uboot_nor_write rambase count nor_offset ram_offset size base =
    nor_transfer (codes "sf write") rambase count ram_offset nor_offset size base

tftpboot : Text → Text → Text → Text
tftpboot address server_ip remote_path =
    codes "tftpboot "
    ++ (address ++ (codes " \"" ++ (server_ip ++ (codes ":" ++ (remote_path ++ codes "\"")))))

unfoldable pub uboot_fetch_static : Text → Text → ℕ → Text → Option Offset → Option Text → Text
unfolding tmp_name normalize_base format_number tftpboot
uboot_fetch_static rambase server_ip count filename none base =
    tftpboot rambase server_ip (lstrip (λ c. c == b'/') filename)
uboot_fetch_static rambase server_ip count filename (some offset) base =
    let addr_var = tmp_name (codes "addr") count in
    lines (
      setexpr addr_var (normalize_base rambase base) offset
      ∷ tftpboot (variable addr_var) server_ip (lstrip (λ c. c == b'/') filename)
      ∷ unset addr_var
      ∷ [])

abbrev pub size_line : ℕ → Text
size_line known_good = codes "size=" ++ (hex known_good ++ codes ";\n")

abbrev pub read_line : Text → ℕ → ℕ → Text
read_line base_expr offset sz =
    codes "sf read "
    ++ (base_expr ++ (codes " " ++ (hex offset ++ (codes " " ++ (hex sz ++ codes ";\n")))))

abbrev pub if_line : Text
if_line = codes "if test $? -eq 1; then\n"

abbrev pub else_line : Text
else_line = codes "else\n"

abbrev pub fi_line : Text
fi_line = codes "fi;\n"

-- The lines that a call of uboot_nor_gen_probe appends, or nothing where the fuel runs out.
unfoldable pub probe_lines : ℕ → Text → ℕ → ℕ → ℕ → ℕ → Option (List Text)
probe_lines zero base_expr offset max_sz known_good sz = none
probe_lines (suc fuel) base_expr offset max_sz known_good sz = elim (ltb max_sz sz) [
  | true ↦ some (size_line known_good ∷ [])
  | false ↦ elim (probe_lines fuel base_expr offset max_sz sz (sz * 2)) [
    | none ↦ none
    | some inner ↦ some (
        (codes "echo " ++ (restore_cursor ++ clear_region))
        ∷ read_line base_expr offset sz
        ∷ if_line
        ∷ size_line known_good
        ∷ else_line
        ∷ (inner ++ fi_line ∷ []))
  ]
]

-- The size doubles in each call, so one call more than the largest size is enough.
unfoldable pub uboot_nor_gen_probe : Text → ℕ → ℕ → ℕ → ℕ → Option Text → Option (List Text)
unfolding probe_lines normalize_base
uboot_nor_gen_probe rambase sz max_sz known_good offset base =
    probe_lines (suc max_sz) (normalize_base rambase base) offset max_sz known_good sz
