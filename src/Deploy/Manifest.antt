-- ===== src/Deploy/Manifest.antt =====
-- scripts/openipc.py: the manifest of a release on GitHub. The record Json is the JSON library, and
-- what Python's isinstance and str say of the values that it reads.
use openipc_tftp.Common.{
  Bool, false, not, List, [], ◌∷◌, ◌++◌, Option, none, some, Result, ok, err, value_error,
  type_error, runtime_error, attribute_error, guard, is_empty, all_of, keep, foldl, if◌then◌else◌,
  ◌==◌,
}
use openipc_tftp.Common.Text.{Text, Bytes, codes, strip, is_space, contains}
use openipc_tftp.Common.Dict
use openipc_tftp.Common.Dict.{Dict}
use openipc_tftp.Scripted.Setting.{file_exists, Download}
use openipc_tftp.Ops.{uboot_download_url, flag_of, file_bytes}
use openipc_tftp.Tasks.{Task, gives, asks, ◌>>=◌, ◌>>◌, from_result}
use openipc_tftp.Deploy.Install.{Host}

pub record Json (J : Type 0) : Type 0 where
  pub loads : Bytes → Result J
  pub as_object : J → Option (Dict J)
  pub as_list : J → Option (List J)
  pub str_of : J → Text

pub record GithubJsonManifest (J : Type 0) : Type 0 where
  pub path : Text
  pub url : Text
  pub destination : Text
  pub artifact_key : Text
  pub manifest : Option J

-- `_normalize_path`
unfoldable pub normalize_path : Text → Task Text
unfolding ◌>>=◌
normalize_path path = do
  let normalized = strip (λ c. c == b'/') (strip is_space path)
  from_result (guard (not (is_empty normalized)) value_error)
  gives normalized

module _ {J : Type 0} (json : Json J) (host : Host) where
  -- `_load_cached_manifest`; a session's handle has both methods.
  unfoldable pub load_cached_manifest : GithubJsonManifest J → Task (GithubJsonManifest J)
  unfolding ◌>>=◌
  load_cached_manifest m = do
    there ← asks (file_exists m.destination) (λ r. from_result (flag_of r))
    let cached = file_bytes m.destination
    if there
        then (do
          payload ← cached
          value ← from_result (json.loads payload)
          gives (record m { manifest = some value }))
        else gives m

  -- `__init__`
  unfoldable pub new_manifest : Text → Option Text → Bool → Task (GithubJsonManifest J)
  unfolding ◌>>=◌ normalize_path load_cached_manifest
  new_manifest path destination cache = do
    normalized ← normalize_path path
    let usual = codes "github/" ++ (normalized ++ codes ".json")
    let m : GithubJsonManifest J = record {
      path = normalized;
      url = codes "https://api.github.com/repos/" ++ host.quote normalized;
      destination = elim destination [
        | none ↦ usual
        | some given ↦ if is_empty given then usual else given
      ];
      artifact_key = codes "github-json:" ++ normalized;
      manifest = none;
    }
    if cache then load_cached_manifest m else gives m

  -- The assets that are objects.
  objects : List J → List (Dict J)
  objects [] = []
  objects (j ∷ js) =
      let rest = objects js in elim (json.as_object j) [ none ↦ rest | some asset ↦ asset ∷ rest ]

  assets_in : Option J → Result (List (Dict J))
  unfolding objects
  assets_in none = ok []
  assets_in (some j) = elim (json.as_list j) [
    | none ↦ err type_error
    | some items ↦ ok (objects items)
  ]

  assets_of : Option (Dict J) → Result (List (Dict J))
  unfolding assets_in
  assets_of none = err attribute_error
  assets_of (some members) = assets_in (Dict.get members (codes "assets"))

  -- `assets`, with the property `manifest`.
  unfoldable pub assets : GithubJsonManifest J → Result (List (Dict J))
  unfolding assets_of
  assets m = elim m.manifest [
    | none ↦ err runtime_error
    | some value ↦ assets_of (json.as_object value)
  ]

  -- `str(asset.get("name", ""))`
  abbrev name_of : Dict J → Text
  name_of asset = elim (Dict.get asset (codes "name")) [ none ↦ [] | some name ↦ json.str_of name ]

  -- The dict of the assets whose name passes.
  unfoldable pub named : (Text → Bool) → List (Dict J) → Dict (Dict J)
  named passes =
      foldl
        (λ matched asset.
          if passes (name_of asset) then Dict.put matched (name_of asset) asset else matched)
        []

  abbrev named_in : (Text → Bool) → Result (List (Dict J)) → Result (Dict (Dict J))
  named_in passes (err e) = err e
  named_in passes (ok found) = ok (named passes found)

  unfoldable pub find : GithubJsonManifest J → List Text → Result (Dict (Dict J))
  unfolding assets named
  find m match =
      let needles = keep (λ value. not (is_empty value)) match in
      if is_empty needles
      then named_in (λ name. not (is_empty name)) (assets m)
      else named_in (λ name. all_of (λ needle. contains needle name) needles) (assets m)

  abbrev pub request : GithubJsonManifest J → Download
  request m = record {
    artifact_key = m.url;
    url = m.url;
    destination = m.destination;
    page_url = some m.url;
    headers =
        (codes "Accept", codes "application/vnd.github+json")
        ∷ (codes "X-GitHub-Api-Version", codes "2022-11-28")
        ∷ [];
  }

  -- `load`, of which nothing uses the value that it returns.
  unfoldable pub load : GithubJsonManifest J → Task (GithubJsonManifest J)
  unfolding ◌>>=◌ uboot_download_url
  load m =
      let download = (do
        payload ← uboot_download_url host.polls host.parses (request m) false
        value ← from_result (json.loads payload)
        gives (record m { manifest = some value })) in
      elim m.manifest [ none ↦ download | some value ↦ gives m ]
