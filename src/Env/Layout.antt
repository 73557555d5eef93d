-- ===== src/Env/Layout.antt =====
-- The flash layout that an environment's mtdparts variables give: the functions from
-- _find_mtdparts_layout to _parse_size_token of src/uboot_tftp/ubootenv.py.
use openipc_tftp.Common.{
  ℕ, zero, suc, ◌+◌, ◌*◌, Bool, true, false, not, ◌&&◌, ◌||◌, List, [], ◌∷◌, ◌++◌, Option, none,
  some, Result, ok, value_error, ◌>>=◌, ◌>>◌, guard, ltb, leb, ◌==◌, if◌then◌else◌, is_empty,
  all_of, keep, map, length, drop,
}
use openipc_tftp.Common.Text.{
  Text, codes, text_eq, strip, split_on, partition, starts_with, ends_with, contains, has_char,
  is_space, lower,
}
use openipc_tftp.Common.Digits.{value}
use openipc_tftp.Common.Dict
use openipc_tftp.Common.Dict.{Dict}

abbrev pub is_digit_of : ℕ → ℕ → Bool
is_digit_of base c = (leb b'0' c && leb c b'9') || ((base == 16) && (leb b'a' c && leb c b'f'))

-- `int(text, base)` of lower-case text without signs, spaces and underscores; a prefix `0x` is
-- dropped before, where the base is 16.
unfoldable pub int_of : ℕ → Text → Result ℕ
int_of base digits = do
  guard (not (is_empty digits) && all_of (is_digit_of base) digits) value_error
  ok (value base 0 digits)

abbrev pub number_of : Text → Result ℕ
number_of token =
    if starts_with (codes "0x") token then int_of 16 (drop 2 token) else int_of 10 token

abbrev pub without_last : Text → Text
without_last [] = []
without_last (c ∷ []) = []
without_last (c ∷ d ∷ s) = c ∷ without_last (d ∷ s)

abbrev times : ℕ → Result ℕ → Result (Option ℕ)
times multiplier r = do n ← r; ok (some (n * multiplier))

unfoldable pub parse_size_token : Text → Result (Option ℕ)
unfolding int_of
parse_size_token raw =
    let token = lower (strip is_space raw) in
    if text_eq token (codes "-")
    then ok none
    else if ends_with (codes "k") token
    then times 1024 (number_of (without_last token))
    else if ends_with (codes "m") token
    then times 1048576 (number_of (without_last token))
    else if ends_with (codes "g") token
    then times 1073741824 (number_of (without_last token))
    else times 1 (number_of token)

-- `[0-9A-Fa-fx]` and `[kKmMgG]`
abbrev pub is_size_char : ℕ → Bool
is_size_char c =
    (leb b'0' c && leb c b'9')
    || ((leb b'A' c && leb c b'F') || ((leb b'a' c && leb c b'f') || (c == b'x')))

abbrev pub is_unit_char : ℕ → Bool
is_unit_char c =
    (c == b'k') || ((c == b'K') || ((c == b'm') || ((c == b'M') || ((c == b'g') || (c == b'G')))))

-- The longest start of a text whose characters pass, and the rest.
unfoldable pub span : (ℕ → Bool) → Text → Text × Text
span p [] = ([], [])
span p (c ∷ s) = let rest = span p s in if p c then (c ∷ rest.0, rest.1) else ([], c ∷ s)

-- `\(([^)]+)\)` at the start of a text.
name_at : Text → Option Text
unfolding span
name_at [] = none
name_at (c ∷ s) =
    let (name, rest) = span (λ d. not (d == b')')) s in
    if c == b'(' && (not (is_empty name) && not (is_empty rest)) then some name else none

with_unit : Text → Text × Text
with_unit [] = ([], [])
with_unit (c ∷ s) = if is_unit_char c then (c ∷ [], s) else ([], c ∷ s)

-- The size of an entry at the start of a text, and the rest. A shorter run of size characters
-- cannot match, since one of them would stand where a unit or `(` must.
size_at : Text → Text × Text
unfolding span with_unit
size_at s =
    let (digits, behind) = span is_size_char s in
    if is_empty digits
    then (if starts_with (codes "-") s then (codes "-", drop 1 s) else ([], s))
    else let (unit, rest) = with_unit behind in (digits ++ unit, rest)

entry_of : Text × Text → Option (Text × Text)
unfolding name_at
entry_of (size, rest) =
    if is_empty size
    then none
    else elim (name_at rest) [ some name ↦ some (size, name) | none ↦ none ]

-- `_MTDPARTS_ENTRY_RE.match` at the start of a text.
unfoldable pub entry_at : Text → Option (Text × Text)
unfolding size_at entry_of
entry_at s = entry_of (size_at s)

-- `_MTDPARTS_ENTRY_RE.findall`; `skip` characters belong to the last match.
unfoldable pub find_entries : ℕ → Text → List (Text × Text)
unfolding entry_at
find_entries skip [] = []
find_entries (suc skip) (c ∷ s) = find_entries skip s
find_entries zero (c ∷ s) = elim (entry_at (c ∷ s)) [
  | some (size, name) ↦ (size, name) ∷ find_entries (length size + length name + 1) s
  | none ↦ find_entries zero s
]

parse_entries : List (Text × Text) → Result (List (Option ℕ × Text))
unfolding parse_size_token
parse_entries [] = ok []
parse_entries ((size, name) ∷ entries) = do
  n ← parse_size_token size
  rest ← parse_entries entries
  ok ((n, lower (strip is_space name)) ∷ rest)

layout_of : List (Option ℕ × Text) → Option (ℕ × ℕ)
layout_of ((some boot_size, boot_name) ∷ (some env_size, env_name) ∷ rest) =
    if text_eq boot_name (codes "boot") && text_eq env_name (codes "env")
    then some (boot_size, env_size)
    else none
layout_of _ = none

unfoldable pub parse_mtdparts_spec : Text → Result (Option (ℕ × ℕ))
unfolding find_entries parse_entries layout_of
parse_mtdparts_spec spec =
    let parts = partition b':' spec in
    if not parts.found
    then ok none
    else (do entries ← parse_entries (find_entries 0 parts.after); ok (layout_of entries))

-- `value.replace(";", " ").split()`
unfoldable pub words : Text → List Text
words value =
    keep (λ w. not (is_empty w))
      (split_on 32 (map (λ c. if is_space c || (c == b';') then 32 else c) value))

abbrev is_spec : Text → Bool
is_spec candidate =
    has_char b':' candidate
    && (contains (codes "(boot)") candidate && contains (codes "(env)") candidate)

first_spec : List Text → Option Text
first_spec [] = none
first_spec (token ∷ tokens) =
    let candidate = strip (λ c. (c == b'"') || (c == b'\'')) token in
    let rest = first_spec tokens in if is_spec candidate then some candidate else rest

unfoldable pub extract_mtdparts_spec : Text → Option Text
unfolding first_spec words
extract_mtdparts_spec value = first_spec (words value)

-- Python's order of texts.
unfoldable pub text_le : Text → Text → Bool
text_le [] t = true
text_le (c ∷ s) [] = false
text_le (c ∷ s) (d ∷ t) = ltb c d || (c == d && text_le s t)

unfoldable pub insert_sorted : Text → List Text → List Text
unfolding text_le
insert_sorted k [] = k ∷ []
insert_sorted k (j ∷ keys) =
    let rest = insert_sorted k keys in if text_le k j then k ∷ j ∷ keys else j ∷ rest

unfoldable pub sorted : List Text → List Text
unfolding insert_sorted
sorted [] = []
sorted (k ∷ keys) = insert_sorted k (sorted keys)

abbrev is_nor : Text → Bool
is_nor key = starts_with (codes "mtdpartsnor") key

unfoldable pub ordered_keys : List Text → List Text
unfolding sorted
ordered_keys keys =
    codes "mtdparts"
    ∷ (sorted (keep is_nor keys)
        ++ sorted (
            keep
              (λ k. contains (codes "mtdparts") k && not (text_eq k (codes "mtdparts") || is_nor k))
              keys))

spec_of : Option Text → Result (Option (ℕ × ℕ))
unfolding extract_mtdparts_spec parse_mtdparts_spec
spec_of none = ok none
spec_of (some value) = elim (extract_mtdparts_spec value) [
  | none ↦ ok none
  | some layout ↦ parse_mtdparts_spec layout
]

first_layout : Dict Text → List Text → Result (Option (ℕ × ℕ))
unfolding spec_of
first_layout env [] = ok none
first_layout env (key ∷ keys) = do
  parsed ← spec_of (Dict.get env key)
  elim parsed [ some layout ↦ ok (some layout) | none ↦ first_layout env keys ]

unfoldable pub find_mtdparts_layout : Dict Text → Result (Option (ℕ × ℕ))
unfolding first_layout ordered_keys
find_mtdparts_layout env = first_layout env (ordered_keys (map (λ (b : Text × Text). b.0) env))
