-- ===== src/Protocol.antt =====
-- src/uboot_tftp/protocol.py: the names that a client asks for.
mod Unquote
pub mod ClientId
pub mod Print
pub mod Sound
unfoldable pub use Unquote.{unquote}
use openipc_tftp.Common.{
  ℕ, ◌+◌, Bool, true, false, not, ◌&&◌, ◌||◌, List, [], ◌∷◌, ◌++◌, map, Option, none, some, leb,
  ◌==◌, if◌then◌else◌, is_empty, keep, Result, ok, err, value_error, ◌>>=◌,
}
use openipc_tftp.Common.Text.{
  Text, Parts, codes, text_eq, strip, split_on, partition, join, lower, lower_char,
}
use openipc_tftp.Common.Dict.{Dict, put}

-- `[A-Za-z0-9_-]`
abbrev pub is_id_char : ℕ → Bool
is_id_char c =
    (leb b'A' c && leb c b'Z')
    || ((leb b'a' c && leb c b'z') || ((leb b'0' c && leb c b'9') || (c == b'_' || c == b'-')))

-- The rest of a match of `CLIENT_ID_RE`: `$` holds at the end, and before a newline at the end.
unfoldable pub matches_rest : Text → Bool
matches_rest [] = true
matches_rest (c ∷ s) = (c == 10 && is_empty s) || (is_id_char c && matches_rest s)

unfoldable pub matches_client_id : Text → Bool
unfolding matches_rest
matches_client_id [] = false
matches_client_id (c ∷ s) = is_id_char c && matches_rest s

unfoldable pub normalize_client_id : Text → Result Text
unfolding matches_client_id
normalize_client_id value =
    let client_id = lower value in
    if matches_client_id client_id then ok client_id else err value_error

pub record ParsedPath : Type 0 where
  pub raw : Text
  pub client_id : Option Text
  pub path : Text
  pub segments : List Text
  pub values : Dict Text

abbrev pub is_session : ParsedPath → Bool
is_session p = elim p.client_id [ none ↦ false | some _ ↦ true ]

-- One round of the loop over the message's segments.
unfoldable pub add_value : Dict Text → Parts → Dict Text
add_value values parts =
    if parts.found && not (is_empty parts.before)
    then put values parts.before parts.after
    else values

unfoldable pub collect_values : Dict Text → List Text → Dict Text
unfolding add_value
collect_values values [] = values
collect_values values (segment ∷ rest) =
    collect_values (add_value values (partition b'=' segment)) rest

abbrev pub slashed : List Text → Text
slashed segments = b'/' ∷ join (b'/' ∷ []) segments

abbrev pub request_path : List Text → Text
request_path [] = b'/' ∷ []
request_path (w ∷ ws) = slashed (w ∷ ws)

abbrev pub root_path : Text → ParsedPath
root_path filename = record {
  raw = filename;
  client_id = none;
  path = b'/' ∷ [];
  segments = [];
  values = [];
}

abbrev pub static_path : Text → List Text → ParsedPath
static_path filename segments = record {
  raw = filename;
  client_id = none;
  path = slashed segments;
  segments = segments;
  values = [];
}

session_path : Text → Text → List Text → Result ParsedPath
unfolding normalize_client_id collect_values
session_path filename value message = do
  client_id ← normalize_client_id value
  ok (record {
    raw = filename;
    client_id = some client_id;
    path = request_path message;
    segments = message;
    values = collect_values [] message;
  })

parse_segments : Text → List Text → Result ParsedPath
unfolding session_path
parse_segments filename [] = ok (root_path filename)
parse_segments filename (first ∷ message) =
    let parts = partition b'=' first in
    if text_eq parts.before (codes "id") && parts.found
    then session_path filename parts.after message
    else ok (static_path filename (first ∷ message))

abbrev pub raw_segments : Text → List Text
raw_segments path = map unquote (keep (λ w. not (is_empty w)) (split_on b'/' path))

abbrev pub stripped : Text → Text
stripped = strip (λ c. c == b'/')

unfoldable pub parse_request_path : Text → Result ParsedPath
unfolding parse_segments
parse_request_path filename =
    let path = stripped filename in
    if is_empty path then ok (root_path filename) else parse_segments filename (raw_segments path)
