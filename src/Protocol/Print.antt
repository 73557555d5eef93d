-- ===== src/Protocol/Print.antt =====
-- A session path that is printed as `id=<ident>/<segment>/…` is read back by parse_request_path.
use openipc_tftp.Common.{
  ◌≡◌, ◌≢◌, refl, true, false, List, [], ◌∷◌, some, ok, err, value_error, arith, All, ◌==◌,
  is_empty,
}
use openipc_tftp.Common.Text.{Text, codes, text_eq, partition, join, lower, Lacks, partition-append}
use openipc_tftp.Common.Strip.{strip-join, split_on-join, keep_solid, map_fixed, IsSolid, Fails}
use openipc_tftp.Protocol.{
  ParsedPath, collect_values, request_path, parse_segments, parse_request_path, unquote,
  raw_segments,
}
use openipc_tftp.Protocol.Unquote.{unquote_plain}
use openipc_tftp.Protocol.ClientId.{IsClientId, id-Lacks, normalize_fixed, normalize_refused}

-- What stands between two slashes without an escape.
abbrev pub IsSegment : Text → Type 0
IsSegment w = (w ≢ []) × Lacks b'/' w × Lacks b'%' w

abbrev pub id_segment : Text → Text
id_segment id = b'i' ∷ b'd' ∷ b'=' ∷ id

abbrev pub print_path : Text → List Text → Text
print_path id message = join (b'/' ∷ []) (id_segment id ∷ message)

abbrev pub printed : Text → List Text → ParsedPath
printed id message = record {
  raw = print_path id message;
  client_id = some id;
  path = request_path message;
  segments = message;
  values = collect_values [] message;
}

id_segment-IsSegment : (id : Text) → IsClientId id → IsSegment (id_segment id)
id_segment-IsSegment id h = (
  (λ e. cc),
  (omega arith, (omega arith, (omega arith, id-Lacks b'/' id (λ w. omega arith) (omega arith) h))),
  (omega arith, (omega arith, (omega arith, id-Lacks b'%' id (λ w. omega arith) (omega arith) h))),
)

Fails-of_Lacks : (w : Text) → Lacks b'/' w → Fails (λ c. c == b'/') w
Fails-of_Lacks [] h = tt
Fails-of_Lacks (c ∷ w) (hc, h) = (ground arith, Fails-of_Lacks w h)

module _ (P Q : Text → Type 0) (weaken : (w : Text) → P w → Q w) where
  All-weaken : (ws : List Text) → All P ws → All Q ws
  All-weaken [] h = tt
  All-weaken (w ∷ ws) (hw, h) = (weaken w hw, All-weaken ws h)

raw_segments-join :
    (w : Text) (ws : List Text)
    → All IsSegment (w ∷ ws)
    → raw_segments (join (b'/' ∷ []) (w ∷ ws)) ≡ w ∷ ws
raw_segments-join w ws h =
    rw (split_on-join b'/' w ws (All-weaken IsSegment (Lacks b'/') (λ v s. s.1) (w ∷ ws) h)) (
      rw
        (keep_solid b'/' (w ∷ ws)
          (All-weaken IsSegment (IsSolid b'/') (λ v s. (s.0, s.1)) (w ∷ ws) h))
        (map_fixed unquote (w ∷ ws)
          (All-weaken IsSegment (λ v. unquote v ≡ v) (λ v s. unquote_plain v s.2) (w ∷ ws) h)))

join_id_solid : (id : Text) (ws : List Text) → is_empty (print_path id ws) ≡ false
join_id_solid id [] = unfold join in refl
join_id_solid id (w ∷ ws) = unfold join in refl

partition_id :
    (id : Text)
    → partition b'=' (id_segment id) ≡ record { before = codes "id"; found = true; after = id }
partition_id id = partition-append b'=' (codes "id") id (omega arith, (omega arith, tt))

parse_id_segments :
    (raw id : Text) (message : List Text)
    → IsClientId id
    → parse_segments raw (id_segment id ∷ message) ≡ ok (record (printed id message) { raw = raw })
unfolding parse_segments text_eq
parse_id_segments raw id message h = rw (partition_id id) (rw (normalize_fixed id h) refl)

-- A path that is printed from a valid client id and segments that are not empty and have no slash
-- and no percent sign is parsed to that id and those segments, with the values that the segments
-- give.
pub parse-print_path :
    (id : Text) (message : List Text)
    → IsClientId id
    → All IsSegment message
    → parse_request_path (print_path id message) ≡ ok (printed id message)
unfolding parse_request_path
parse-print_path id message h hs =
    let all : All IsSegment (id_segment id ∷ message) = (id_segment-IsSegment id h, hs) in
    rw
      (strip-join (λ c. c == b'/') (b'/' ∷ []) (id_segment id) message
        (All-weaken IsSegment _ (λ v s. (s.0, Fails-of_Lacks v s.1)) (id_segment id ∷ message) all))
      (rw (join_id_solid id message) (
        rw (raw_segments-join (id_segment id) message all)
          (parse_id_segments (print_path id message) id message h)))

-- A path that is printed in this way from a text that is no client id in lower case is refused.
pub parse-print_path_refused :
    (id : Text) (message : List Text)
    → Lacks b'/' id
    → Lacks b'%' id
    → (¬ IsClientId (lower id))
    → All IsSegment message
    → parse_request_path (print_path id message) ≡ err value_error
unfolding parse_request_path parse_segments text_eq
parse-print_path_refused id message slash percent invalid hs =
    let first : IsSegment (id_segment id) = (
      (λ e. cc),
      (omega arith, (omega arith, (omega arith, slash))),
      (omega arith, (omega arith, (omega arith, percent))),
    ) in
    let all : All IsSegment (id_segment id ∷ message) = (first, hs) in
    rw
      (strip-join (λ c. c == b'/') (b'/' ∷ []) (id_segment id) message
        (All-weaken IsSegment _ (λ v s. (s.0, Fails-of_Lacks v s.1)) (id_segment id ∷ message) all))
      (rw (join_id_solid id message) (
        rw (raw_segments-join (id_segment id) message all)
          (rw (partition_id id) (rw (normalize_refused id invalid) refl))))
