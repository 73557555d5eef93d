-- ===== src/Env.antt =====
-- src/uboot_tftp/ubootenv.py: environment partitions and exports, for the encoding utf-8.
pub mod Payload
pub mod RoundTrip
pub mod Frame
pub mod Layout
pub mod Search
pub mod Flash
pub mod Tests
use openipc_tftp.Common.{
  ℕ, ◌+◌, ◌-◌, Bool, true, false, not, ◌&&◌, ◌||◌, List, [], ◌∷◌, ◌++◌, Option, none, some, Result,
  ok, err, value_error, unicode_error, ◌>>=◌, ◌>>◌, guard, ltb, leb, ◌==◌, if◌then◌else◌, is_empty,
  all_of, take, drop, length, replicate, map, foldl,
}
use openipc_tftp.Common.Text.{
  Text, Bytes, lstrip, rstrip, strip, split_on, partition, Parts, has_char, is_space,
}
use openipc_tftp.Common.Dict
use openipc_tftp.Common.Dict.{Dict}
use openipc_tftp.Common.Utf8.{decode, encode}
use openipc_tftp.Common.Words.{le32, from_be, from_le, crc32}

-- `[A-Za-z0-9_.-]`
abbrev pub is_key_char : ℕ → Bool
is_key_char c =
    (leb b'A' c && leb c b'Z')
    || ((leb b'a' c && leb c b'z')
        || ((leb b'0' c && leb c b'9') || (c == b'_' || (c == b'.' || c == b'-'))))

-- `_ENV_KEY_RE.fullmatch(key)`
unfoldable pub is_env_key : Bytes → Bool
is_env_key key = not (is_empty key) && all_of is_key_char key

-- Where `str.splitlines` ends a line, after the NULs are newlines.
abbrev pub is_line_end : ℕ → Bool
is_line_end c =
    (c == 0)
    || ((leb 10 c && leb c 13)
        || ((leb 28 c && leb c 30) || ((c == 133) || ((c == 0x2028) || (c == 0x2029)))))

-- One round of the loop over the lines.
add_line : Dict Text → Text → Dict Text
add_line env raw_line =
    let parts = partition b'=' (strip is_space raw_line) in
    if parts.found && not (is_empty parts.before)
    then Dict.put env parts.before parts.after
    else env

-- Empty lines are skipped, so `\r\n` may end two lines.
unfoldable pub parse_export : Bytes → Dict Text
unfolding add_line
parse_export body =
    foldl add_line [] (split_on 10 (map (λ c. if is_line_end c then 10 else c) (decode body)))

abbrev pub is_blank : ℕ → Bool
is_blank byte = (byte == 0) || (byte == 0xff)

-- One round of the loop over the segments.
unfoldable pub add_segment : Dict Text → Bytes → Dict Text
unfolding is_env_key
add_segment env segment =
    let parts = partition b'=' segment in
    if parts.found && is_env_key parts.before
    then Dict.put env parts.before (decode parts.after)
    else env

unfoldable pub parse_nul_delimited_env : Bytes → Dict Text
unfolding add_segment
parse_nul_delimited_env body = foldl add_segment [] (split_on 0 (rstrip is_blank body))

-- `_RAW_ENV_PREFIX_RE.match(payload)`
unfoldable pub has_env_prefix : Bytes → Bool
unfolding is_env_key
has_env_prefix payload =
    let parts = partition b'=' payload in parts.found && is_env_key parts.before

abbrev first_of : List Bytes → Bytes
first_of [] = []
first_of (s ∷ ss) = s

unfoldable pub parse_raw_env_partition : Bytes → Option (Dict Text)
unfolding has_env_prefix parse_export
parse_raw_env_partition partition =
    let payload = lstrip is_blank partition in
    let env = parse_export (rstrip (λ byte. byte == 0) (first_of (split_on 0xff payload))) in
    if is_empty payload || not (has_env_prefix payload)
    then none
    else if ltb (length env) 2
    then none
    else some env

unfoldable pub is_erased : Bytes → Bool
is_erased region = all_of (λ byte. byte == 0xff) region || all_of (λ byte. byte == 0) region

-- One round of the loop over the header sizes.
unfoldable pub parse_with_header : ℕ → Bytes → Option (Dict Text)
unfolding parse_nul_delimited_env
parse_with_header header_size partition =
    let payload = drop header_size partition in
    let env = parse_nul_delimited_env payload in
    if leb (length partition) header_size
    then none
    else if not
        (crc32 payload == from_be (take 4 partition) || crc32 payload == from_le (take 4 partition))
    then none
    else if is_empty env
    then none
    else some env

abbrev pub or_else : Option (Dict Text) → Option (Dict Text) → Option (Dict Text)
or_else none other = other
or_else (some env) other = some env

abbrev env_or_error : Option (Dict Text) → Result (Dict Text)
env_or_error none = err value_error
env_or_error (some env) = ok env

unfoldable pub parse_part : Bytes → Result (Dict Text)
unfolding is_erased parse_with_header parse_raw_env_partition
parse_part partition = do
  guard (not (is_empty partition)) value_error
  guard (not (is_erased partition)) value_error
  env_or_error (
      or_else (parse_with_header 4 partition)
        (or_else (parse_with_header 5 partition) (parse_raw_env_partition partition)))

unfoldable pub env_segment : Text × Text → Result Bytes
unfolding is_env_key
env_segment (key, value) = do
  guard (all_of (λ c. ltb c 128) key) unicode_error
  guard (is_env_key key) value_error
  value_bytes ← encode value
  guard (not (has_char 0 value_bytes)) value_error
  ok (key ++ b'=' ∷ (value_bytes ++ 0 ∷ []))

unfoldable pub encode_env_image_payload : Dict Text → Result Bytes
unfolding env_segment
encode_env_image_payload [] = ok (0 ∷ [])
encode_env_image_payload (binding ∷ env) = do
  segment ← env_segment binding
  segments ← encode_env_image_payload env
  ok (segment ++ segments)

abbrev pub flag_bytes : Option ℕ → Bytes
flag_bytes none = []
flag_bytes (some flags) = flags ∷ []

abbrev flags_fit : Option ℕ → Bool
flags_fit none = true
flags_fit (some flags) = ltb flags 256

-- The payload, filled up to the size of the image less its header.
unfoldable pub padded : Bytes → Option ℕ → ℕ → ℕ → Result Bytes
padded payload none header_size pad_byte = ok payload
padded payload (some size) header_size pad_byte = do
  guard (not (ltb (size - header_size) (length payload))) value_error
  ok (payload ++ replicate (size - header_size - length payload) pad_byte)

unfoldable pub build : Dict Text → Option ℕ → Option ℕ → ℕ → Result Bytes
unfolding encode_env_image_payload padded
build env size flags pad_byte = do
  guard (ltb pad_byte 256) value_error
  guard (flags_fit flags) value_error
  payload ← encode_env_image_payload env
  body ← padded payload size (4 + length (flag_bytes flags)) pad_byte
  ok (le32 (crc32 body) ++ (flag_bytes flags ++ body))

pub record EnvPartitionInfo : Type 0 where
  pub offset : ℕ
  pub size : ℕ

-- `ubootenv_patch` behind `ubootenv_find`.
unfoldable pub patch_at : Bytes → Dict Text → EnvPartitionInfo → Option ℕ → ℕ → Result Bytes
unfolding build
patch_at image env info flags pad_byte = do
  env_image ← build env (some info.size) flags pad_byte
  ok (take info.offset image ++ (env_image ++ drop (info.offset + info.size) image))
