-- ===== src/Scripted/Overrides.antt =====
-- The names of return keys that the provider of src/uboot_tftp/scripted.py accepts.
use openipc_tftp.Common.{◌≡◌, refl, ap, ◌∙◌, [], ◌∷◌, none, some, ok, map, foldl}
use openipc_tftp.Common.Text.{Text, codes, text_eq, join, has_char-Lacks}
use openipc_tftp.Common.Dict
use openipc_tftp.Protocol.{ParsedPath, parse_request_path}
use openipc_tftp.Protocol.ClientId.{IsClientId}
use openipc_tftp.Protocol.Print.{printed, parse-print_path}
use openipc_tftp.Scripted.Texts.{continue_path, normalize_return_keys}
use openipc_tftp.Scripted.Paths.{
  IsPlain, IsPair, pair, token_pair, put_pair, session_pairs, session_pairs-IsPair, pairs-IsSegment,
  collect_pairs, continue_path_printed,
}

overriding : Text → Text × Text
overriding value = (codes "token", value)

overriding-IsPair : (value : Text) → IsPlain value → IsPair (overriding value)
unfolding overriding
overriding-IsPair value h = (
  (λ e. cc),
  (has_char-Lacks b'/' (codes "token") refl, has_char-Lacks b'%' (codes "token") refl),
  has_char-Lacks b'=' (codes "token") refl,
  h,
)

last_wins :
    (token value : Text)
    → Dict.get
        (foldl put_pair [] (session_pairs token none (overriding value ∷ [])))
        (codes "token")
      ≡ some value
unfolding put_pair token_pair overriding Dict.get Dict.put text_eq
last_wins token value = refl

-- The name `token` is accepted as a return key; and for a valid id, and a token and a value
-- without slash and percent sign, the request that the printed path then makes carries the value
-- of the variable `token` in place of the session's token.
pub token_overridden :
    (id token value : Text)
    → IsClientId id
    → IsPlain token
    → IsPlain value
    → (normalize_return_keys (codes "token" ∷ []) ≡ ok (codes "token" ∷ []))
      × ((parsed : ParsedPath) × (parse_request_path
              (join (codes "/") (continue_path id token none ∷ pair (codes "token", value) ∷ []))
            ≡ ok parsed)
          × (Dict.get parsed.values (codes "token") ≡ some value))
unfolding normalize_return_keys overriding
token_overridden id token value valid ht hv =
    let bs = overriding value ∷ [] in
    let pairs = session_pairs token none bs in
    let plain = session_pairs-IsPair token none bs ht tt (overriding-IsPair value hv, tt) in
    (
      refl,
      (
        printed id (map pair pairs),
        ap parse_request_path (continue_path_printed id token none bs)
            ∙ parse-print_path id (map pair pairs) valid (pairs-IsSegment pairs plain),
        ap (λ d. Dict.get d (codes "token")) (collect_pairs pairs [] plain) ∙ last_wins token value,
      ),
    )
