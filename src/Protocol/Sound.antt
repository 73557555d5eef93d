-- ===== src/Protocol/Sound.antt =====
-- What every path has that parse_request_path returns, whatever the client asked for.
use openipc_tftp.Common.{
  ◌≡◌, refl, inl, inr, true, List, [], ◌∷◌, Option, none, some, ok, ◌&&◌, is_empty, Bool-cases, not,
  Ensures, Ensures-value, Ensures-bind, Ensures-if,
}
use openipc_tftp.Common.Text.{Text, Parts, codes, starts_with, partition, text_eq}
use openipc_tftp.Common.Dict.{Dict, IsUnique, put-IsUnique}
use openipc_tftp.Protocol.{
  ParsedPath, parse_request_path, parse_segments, session_path, normalize_client_id, collect_values,
  add_value, request_path, root_path, static_path, stripped, raw_segments,
}
use openipc_tftp.Protocol.ClientId.{IsClientId, normalize_iff}

abbrev pub HasValidId : Option Text → Dict Text → Type 0
HasValidId none values = values ≡ []
HasValidId (some id) values = IsClientId id

-- The name as asked for is kept, the path begins with a slash, the id of a session is valid, a
-- static path carries no values, and no key of the values stands twice.
pub record IsWellFormed (filename : Text) (p : ParsedPath) : Type 0 where
  pub kept : p.raw ≡ filename
  pub rooted : starts_with (codes "/") p.path ≡ true
  pub identified : HasValidId p.client_id p.values
  pub unique : IsUnique p.values

add_value-IsUnique :
    (values : Dict Text) (parts : Parts) → IsUnique values → IsUnique (add_value values parts)
unfolding add_value
add_value-IsUnique values parts h = elim (Bool-cases (parts.found && not (is_empty parts.before))) [
  | inl named ↦ rw named (put-IsUnique values parts.before parts.after h)
  | inr other ↦ rw other h
]

collect-IsUnique :
    (message : List Text) (values : Dict Text)
    → IsUnique values
    → IsUnique (collect_values values message)
unfolding collect_values
collect-IsUnique [] values h = h
collect-IsUnique (segment ∷ rest) values h =
    collect-IsUnique rest _ (add_value-IsUnique values (partition b'=' segment) h)

rooted_request : (message : List Text) → starts_with (codes "/") (request_path message) ≡ true
unfolding starts_with
rooted_request [] = refl
rooted_request (w ∷ ws) = refl

session-IsWellFormed :
    (filename value : Text) (message : List Text)
    → Ensures (IsWellFormed filename) (session_path filename value message)
unfolding session_path
session-IsWellFormed filename value message =
    Ensures-bind (IsWellFormed filename) (normalize_client_id value) _ λ id valid. record {
      kept = refl;
      rooted = rooted_request message;
      identified = ((normalize_iff value id).0 valid).1;
      unique = collect-IsUnique message [] tt;
    }

root-IsWellFormed : (filename : Text) → IsWellFormed filename (root_path filename)
unfolding starts_with
root-IsWellFormed filename = record { kept = refl; rooted = refl; identified = refl; unique = tt }

segments-IsWellFormed :
    (filename : Text) (segments : List Text)
    → Ensures (IsWellFormed filename) (parse_segments filename segments)
unfolding parse_segments starts_with
segments-IsWellFormed filename [] = root-IsWellFormed filename
segments-IsWellFormed filename (first ∷ message) =
    let parts : Parts = partition b'=' first in
    Ensures-if (IsWellFormed filename) (text_eq parts.before (codes "id") && parts.found)
      (session_path filename parts.after message) (ok (static_path filename (first ∷ message)))
      (λ _. session-IsWellFormed filename parts.after message)
      (λ _. record { kept = refl; rooted = refl; identified = refl; unique = tt })

request-IsWellFormed :
    (filename : Text) → Ensures (IsWellFormed filename) (parse_request_path filename)
unfolding parse_request_path
request-IsWellFormed filename =
    let path : Text = stripped filename in
    Ensures-if (IsWellFormed filename) (is_empty path) (ok (root_path filename))
      (parse_segments filename (raw_segments path)) (λ _. root-IsWellFormed filename)
      (λ _. segments-IsWellFormed filename (raw_segments path))

-- A path that is parsed keeps its text, its path begins with a slash, its client id is valid, it
-- has no values if it has no client id, and no key of its values stands twice.
pub parse-IsWellFormed :
    (filename : Text) {p : ParsedPath}
    → parse_request_path filename ≡ ok p
    → IsWellFormed filename p
parse-IsWellFormed filename =
    Ensures-value (IsWellFormed filename) (parse_request_path filename)
      (request-IsWellFormed filename)
