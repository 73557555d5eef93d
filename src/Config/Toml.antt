-- ===== src/Config/Toml.antt =====
-- src/uboot_tftp/config.py: the parser of simple TOML, which reads a configuration where the standard
-- library has no tomllib. `literal` is ast.literal_eval, for the values that a section may have.
pub mod Written
pub mod Lines
pub mod RoundTrip
use openipc_tftp.Common.{
  ℕ, Bool, true, false, not, ◌&&◌, ◌||◌, List, [], ◌∷◌, Option, none, some, Result, ok, err,
  value_error, ◌>>=◌, ◌==◌, leb, if◌then◌else◌, is_empty, all_of, map, drop,
}
use openipc_tftp.Common.Text.{
  Text, Parts, codes, text_eq, starts_with, ends_with, lower, strip, split_on, partition, is_space,
}
use openipc_tftp.Common.Digits.{value}
use openipc_tftp.Common.Dict
use openipc_tftp.Common.Dict.{Dict}
use openipc_tftp.Env.Layout.{is_digit_of, without_last}
use openipc_tftp.Config.{Value, a_number, a_flag, Section, section_of}

-- Where `str.splitlines` ends a line. Empty lines are skipped, so `\r\n` may end two.
abbrev pub is_line_end : ℕ → Bool
is_line_end c =
    (leb 10 c && leb c 13)
    || ((leb 28 c && leb c 30) || ((c == 133) || ((c == 0x2028) || (c == 0x2029))))

unfoldable pub lines_in : Text → List Text
lines_in text = split_on 10 (map (λ c. if is_line_end c then 10 else c) text)

abbrev or_value_error : Option Value → Result Value
or_value_error none = err value_error
or_value_error (some v) = ok v

-- `_parse_simple_toml_value`; numbers have no signs and underscores here.
unfoldable pub parse_simple_toml_value : (Text → Option Value) → Text → Result Value
parse_simple_toml_value literal token =
    if text_eq (lower token) (codes "true")
    then ok (a_flag true)
    else if text_eq (lower token) (codes "false")
    then ok (a_flag false)
    else if not (is_empty token) && all_of (is_digit_of 10) token
    then ok (a_number (value 10 0 token))
    else or_value_error (literal token)

-- The variables of the loop. `section` is one of the dicts in `sections`, by its name.
pub record Loading : Type 0 where
  pub sections : Dict Section
  pub section : Option Text

-- `section = data.setdefault(name, {})`
abbrev pub open_section : Loading → Text → Loading
open_section loading name = record {
  sections =
      if Dict.has_key loading.sections name
      then loading.sections
      else Dict.put loading.sections name [];
  section = some name;
}

-- `section[key] = value`
abbrev pub assign : Dict Section → Text → Text → Value → Loading
assign sections name key v = record {
  sections = Dict.put sections name (Dict.put (section_of (Dict.get sections name)) key v);
  section = some name;
}

abbrev pub add_value : (Text → Option Value) → Dict Section → Parts → Option Text → Result Loading
add_value literal sections parts none = err value_error
add_value literal sections parts (some name) = if not parts.found then err value_error else (do
  v ← parse_simple_toml_value literal (strip is_space parts.after)
  ok (assign sections name (strip is_space parts.before) v))

-- One round of the loop.
unfoldable pub add_line : (Text → Option Value) → Loading → Text → Result Loading
unfolding parse_simple_toml_value
add_line literal loading raw_line =
    let line = strip is_space raw_line in
    let name = strip is_space (without_last (drop 1 line)) in
    if is_empty line || starts_with (codes "#") line
    then ok loading
    else if starts_with (codes "[") line && ends_with (codes "]") line
    then (if is_empty name then err value_error else ok (open_section loading name))
    else add_value literal loading.sections (partition b'=' line) loading.section

unfoldable pub add_lines : (Text → Option Value) → Loading → List Text → Result Loading
unfolding add_line
add_lines literal loading [] = ok loading
add_lines literal loading (raw_line ∷ rest) = do
  next ← add_line literal loading raw_line
  add_lines literal next rest

-- `_load_simple_toml`, of what the file holds.
unfoldable pub load_simple_toml : (Text → Option Value) → Text → Result (Dict Section)
unfolding lines_in add_lines
load_simple_toml literal text = do
  loading ← add_lines literal (record { sections = []; section = none }) (lines_in text)
  ok loading.sections
