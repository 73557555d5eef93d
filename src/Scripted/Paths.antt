-- ===== src/Scripted/Paths.antt =====
-- The paths that the provider prints are the paths that it and the upload store expect.
use openipc_tftp.Common.{
  ℕ, ◌≡◌, ◌≢◌, ◌≤◌, refl, ap, ◌∙◌, false, List, [], ◌∷◌, ◌++◌, Option, none, some, ok, arith, All,
  append_assoc, is_empty, foldl, map,
}
use openipc_tftp.Common.Text.{Text, codes, text_eq, join, partition, partition-append, Lacks}
use openipc_tftp.Common.Dict
use openipc_tftp.Common.Dict.{Dict, get-put, get-put_self}
use openipc_tftp.Protocol.{ParsedPath, parse_request_path, collect_values, add_value}
use openipc_tftp.Protocol.ClientId.{IsClientId}
use openipc_tftp.Protocol.Print.{print_path, printed, parse-print_path, IsSegment}
use openipc_tftp.Scripted.Texts.{continue_path}

-- What may stand in a segment: tokens of `token_urlsafe` have letters, digits, `-` and `_` only.
abbrev pub IsPlain : Text → Type 0
IsPlain t = Lacks b'/' t × Lacks b'%' t

-- `<key>=<value>`, as U-Boot expands `/key=${key}`.
abbrev pub pair : Text × Text → Text
pair (key, value) = key ++ b'=' ∷ value

abbrev pub IsPair : Text × Text → Type 0
IsPair (key, value) = (key ≢ []) × IsPlain key × Lacks b'=' key × IsPlain value

Lacks-append : (b : ℕ) (s t : Text) → Lacks b s → Lacks b t → Lacks b (s ++ t)
Lacks-append b [] t hs ht = ht
Lacks-append b (c ∷ s) t (hc, hs) ht = (hc, Lacks-append b s t hs ht)

nonempty-append : (s t : Text) → s ≢ [] → (s ++ t) ≢ []
nonempty-append [] t n e = n refl
nonempty-append (c ∷ s) t n e = cc

pub pair-IsSegment : (b : Text × Text) → IsPair b → IsSegment (pair b)
pair-IsSegment (key, value) (n, (ks, kp), ke, (vs, vp)) = (
  nonempty-append key (b'=' ∷ value) n,
  Lacks-append b'/' key (b'=' ∷ value) ks (omega arith, vs),
  Lacks-append b'%' key (b'=' ∷ value) kp (omega arith, vp),
)

pub pairs-IsSegment : (bs : List (Text × Text)) → All IsPair bs → All IsSegment (map pair bs)
pairs-IsSegment [] h = tt
pairs-IsSegment (b ∷ bs) (hb, h) = (pair-IsSegment b hb, pairs-IsSegment bs h)

is_empty-false : (s : Text) → s ≢ [] → is_empty s ≡ false
is_empty-false [] n = absurd (n refl)
is_empty-false (c ∷ s) n = refl

unfoldable pub put_pair : Dict Text → Text × Text → Dict Text
put_pair d b = Dict.put d b.0 b.1

pub add_pair :
    (d : Dict Text) (b : Text × Text)
    → IsPair b
    → add_value d (partition b'=' (pair b)) ≡ put_pair d b
unfolding add_value put_pair
add_pair d (key, value) (n, ks, ke, vs) =
    rw (partition-append b'=' key value ke) (rw (is_empty-false key n) refl)

-- The values of a path are those of its pairs, put in order.
pub collect_pairs :
    (bs : List (Text × Text)) (d : Dict Text)
    → All IsPair bs
    → collect_values d (map pair bs) ≡ foldl put_pair d bs
unfolding collect_values
collect_pairs [] d h = refl
collect_pairs (b ∷ bs) d (hb, h) =
    ap (λ e. collect_values e (map pair bs)) (add_pair d b hb) ∙ collect_pairs bs (put_pair d b) h

get_other :
    (k : Text) (bs : List (Text × Text)) (d : Dict Text)
    → All (λ (b : Text × Text). text_eq b.0 k ≡ false) bs
    → Dict.get (foldl put_pair d bs) k ≡ Dict.get d k
unfolding put_pair
get_other k [] d h = refl
get_other k ((key, value) ∷ bs) d (hb, h) =
    get_other k bs (Dict.put d key value) h ∙ rw (get-put d key value k) (rw hb refl)

pub join_behind :
    (a b : Text) (ws : List Text)
    → join (codes "/") ((a ++ b'/' ∷ b) ∷ ws) ≡ a ++ b'/' ∷ join (codes "/") (b ∷ ws)
unfolding join
join_behind a b [] = refl
join_behind a b (w ∷ ws) = append_assoc a (b'/' ∷ b) (b'/' ∷ join (codes "/") (w ∷ ws))

unfoldable pub token_pair : Text → Text × Text
token_pair token = (codes "token", token)

pub token-IsPair : (token : Text) → IsPlain token → IsPair (token_pair token)
unfolding token_pair
token-IsPair token h =
    ((λ e. cc), (plain b'/' (omega arith), plain b'%' (omega arith)), plain b'=' (omega arith), h)
  where
    plain : (b : ℕ) → b ≤ 61 → Lacks b (codes "token")
    plain b h = (omega arith, (omega arith, (omega arith, (omega arith, (omega arith, tt)))))

pub recv_pair : Text → Text × Text
recv_pair status = (codes "recv", status)

recv-IsPair : (status : Text) → IsPlain status → IsPair (recv_pair status)
unfolding recv_pair
recv-IsPair status h = (
  (λ e. cc),
  (
    (omega arith, (omega arith, (omega arith, (omega arith, tt)))),
    (omega arith, (omega arith, (omega arith, (omega arith, tt)))),
  ),
  (omega arith, (omega arith, (omega arith, (omega arith, tt)))),
  h,
)

abbrev pub status_pairs : Option Text → List (Text × Text)
status_pairs none = []
status_pairs (some status) = recv_pair status ∷ []

abbrev pub IsPlainStatus : Option Text → Type 0
IsPlainStatus none = Unit
IsPlainStatus (some status) = IsPlain status

abbrev pub session_pairs : Text → Option Text → List (Text × Text) → List (Text × Text)
session_pairs token status bs = token_pair token ∷ (status_pairs status ++ bs)

pub session_pairs-IsPair :
    (token : Text) (status : Option Text) (bs : List (Text × Text))
    → IsPlain token
    → IsPlainStatus status
    → All IsPair bs
    → All IsPair (session_pairs token status bs)
session_pairs-IsPair token none bs ht hs h = (token-IsPair token ht, h)
session_pairs-IsPair token (some status) bs ht hs h =
    (token-IsPair token ht, (recv-IsPair status hs, h))

pub continue_path_printed :
    (id token : Text) (status : Option Text) (bs : List (Text × Text))
    → join (codes "/") (continue_path id token status ∷ map pair bs)
      ≡ print_path id (map pair (session_pairs token status bs))
unfolding continue_path token_pair recv_pair join
continue_path_printed id token none bs =
    join_behind (codes "id=" ++ id) (codes "token=" ++ token) (map pair bs)
continue_path_printed id token (some status) bs =
    join_behind (codes "id=" ++ id) (codes "token=" ++ (token ++ (codes "/recv=" ++ status)))
      (map pair bs)
    ∙ ap (λ rest. (codes "id=" ++ id) ++ b'/' ∷ rest)
        (join_behind (codes "token=" ++ token) (codes "recv=" ++ status) (map pair bs))

get_status :
    (token : Text) (status : Option Text)
    → Dict.get (foldl put_pair [] (session_pairs token status [])) (codes "recv") ≡ status
unfolding put_pair token_pair recv_pair Dict.get Dict.put text_eq
get_status token none = refl
get_status token (some status) = refl

get_token :
    (token : Text) (status : Option Text)
    → Dict.get (foldl put_pair [] (session_pairs token status [])) (codes "token") ≡ some token
unfolding put_pair token_pair recv_pair Dict.get Dict.put text_eq
get_token token none = refl
get_token token (some status) = refl

get_session :
    (k token : Text) (status : Option Text) (bs : List (Text × Text))
    → All (λ (b : Text × Text). text_eq b.0 k ≡ false) bs
    → Dict.get (foldl put_pair [] (session_pairs token status bs)) k
      ≡ Dict.get (foldl put_pair [] (session_pairs token status [])) k
get_session k token none bs h = get_other k bs _ h
get_session k token (some status) bs h = get_other k bs _ h

-- The path that a printed command asks for next, behind it the returned pairs `bs`, is parsed to a
-- request of the same client that carries the token and the status, if the id is valid, token,
-- status, keys and values have no slash and no percent sign, the keys are not empty and have no
-- `=`, and no key is `token` or `recv`.
pub continuation_read :
    (id token : Text) (status : Option Text) (bs : List (Text × Text))
    → IsClientId id
    → IsPlain token
    → IsPlainStatus status
    → All IsPair bs
    → All (λ (b : Text × Text). text_eq b.0 (codes "token") ≡ false) bs
    → All (λ (b : Text × Text). text_eq b.0 (codes "recv") ≡ false) bs
    → (parsed : ParsedPath) × (parse_request_path
          (join (codes "/") (continue_path id token status ∷ map pair bs))
        ≡ ok parsed)
      × (parsed.client_id ≡ some id)
      × (Dict.get parsed.values (codes "token") ≡ some token)
      × (Dict.get parsed.values (codes "recv") ≡ status)
continuation_read id token status bs valid ht hs h nt nr =
    let pairs = session_pairs token status bs in
    let plain = session_pairs-IsPair token status bs ht hs h in
    let values = collect_pairs pairs [] plain in
    (
      printed id (map pair pairs),
      ap parse_request_path (continue_path_printed id token status bs)
          ∙ parse-print_path id (map pair pairs) valid (pairs-IsSegment pairs plain),
      refl,
      ap (λ d. Dict.get d (codes "token")) values
          ∙ get_session (codes "token") token status bs nt
          ∙ get_token token status,
      ap (λ d. Dict.get d (codes "recv")) values
          ∙ get_session (codes "recv") token status bs nr
          ∙ get_status token status,
    )
