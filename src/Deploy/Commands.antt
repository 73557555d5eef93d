-- ===== src/Deploy/Commands.antt =====
-- scripts/openipc.py: the handler of all clients, which carries out the command of its request.
use openipc_tftp.Common.{
  ℕ, ◌+◌, ◌-◌, Bool, true, false, List, [], ◌∷◌, ◌++◌, none, some, Result, ok, err, key_error,
  name_error, map, if◌then◌else◌,
}
use openipc_tftp.Common.Text.{Text, codes, text_eq, join}
use openipc_tftp.Common.Digits.{hex}
use openipc_tftp.Common.Dict
use openipc_tftp.Common.Dict.{Dict}
use openipc_tftp.Ranges.{Range}
use openipc_tftp.Scripted.Setting.{text, Download}
use openipc_tftp.Tasks.{Task, gives, fails, ◌>>=◌, ◌>>◌, from_result, exec, env_find, env_value}
use openipc_tftp.Term.{uboot_msg}
use openipc_tftp.Ops.{uboot_nor_probe, uboot_boot, uboot_download_url}
use openipc_tftp.Active.{Search, crc32, find_active}
use openipc_tftp.Deploy.Install.{Host, openipc_install, message, complain}
use openipc_tftp.Deploy.Manifest.{Json, new_manifest, load, find}

-- `repr` of a list of texts that need no escapes.
abbrev pub list_text : List Text → Text
list_text ts = b'[' ∷ (join (codes ", ") (map (λ t. b'\'' ∷ (t ++ b'\'' ∷ [])) ts) ++ b']' ∷ [])

abbrev pub yellow : Text → Task Text
yellow t = from_result (uboot_msg t (codes "yellow") false true)

unfoldable pub uboot_nomatch : Text → Text → List Text → Bool → Task (Unit {0})
unfolding ◌>>=◌
uboot_nomatch ident cmd cmd_list final = do
  no_entry ← complain (codes "uboot-tftp: No matching entry for: id=" ++ ident)
  unknown ← complain (codes "uboot-tftp: cmd=" ++ (cmd ++ codes " is not recognized."))
  valid ← message (codes "uboot-tftp: valid cmds = " ++ list_text cmd_list) false true
  add ← yellow (codes "Add snippet to uboot-tftp config.toml:")
  section ← yellow (b'[' ∷ (ident ++ codes "]"))
  entry ← yellow (codes "function=<python function name>")
  blank ← message [] false true
  exec (no_entry ∷ unknown ∷ valid ∷ add ∷ section ∷ entry ∷ blank ∷ []) final []

-- Whether the first byte of a word in the client's memory is its lowest.
unfoldable pub is_le : Text → Task Bool
unfolding ◌>>=◌
is_le rambase = do
  exec
      ((codes "setexpr.l tmp *" ++ rambase)
        ∷ (codes "mw.l " ++ (rambase ++ codes " 0x11223344 1"))
        ∷ (codes "setexpr.b _1 *" ++ rambase)
        ∷ (codes "mw.l " ++ (rambase ++ codes " ${tmp} 1"))
        ∷ codes "setenv tmp"
        ∷ [])
      false (codes "_1" ∷ [])
  first ← env_value (codes "_1")
  gives (text_eq first (codes "44"))

abbrev pub searched_ranges : List Range
searched_ranges =
    record { addr = 0x42000000; size = 0x1000000 }
    ∷ record { addr = 0x43000000; size = 0x1000000 }
    ∷ record { addr = 0x44000000; size = 0x1000000 }
    ∷ record { addr = 0x45000000; size = 0x1000000 }
    ∷ record { addr = 0x46000000; size = 0x1000000 }
    ∷ record { addr = 0x47000000; size = 0x1000000 }
    ∷ []

unfoldable pub range_lines : List Range → Task (List Text)
unfolding ◌>>=◌
range_lines [] = gives []
range_lines (r ∷ rs) = do
  line ← yellow (hex r.addr ++ (codes ":" ++ hex r.size))
  rest ← range_lines rs
  gives (line ∷ rest)

-- There is a CRC for each range.
unfoldable pub crc_lines : List Range → List ℕ → Task (List Text)
unfolding ◌>>=◌
crc_lines (r ∷ rs) (crc ∷ crcs) = do
  line ←
      yellow (hex r.addr ++ (codes ":" ++ (hex (r.addr + r.size - 1) ++ (codes " => " ++ hex crc))))
  rest ← crc_lines rs crcs
  gives (line ∷ rest)
crc_lines rs crcs = gives []

abbrev pub valid_cmds : List Text
valid_cmds = codes "install" ∷ codes "probe" ∷ codes "backup" ∷ codes "boot" ∷ []

abbrev pub latest : Text
latest = codes "OpenIPC/firmware/releases/tags/latest"

module _ {J : Type 0} (json : Json J) (host : Host) where
  -- The probe of the commands `probe` and `backup`.
  unfoldable pub probed : Bool → Task ℕ
  unfolding ◌>>=◌
  probed final = do
    max_size ← env_find (codes "nor_size")
    probing ← message (codes "Probing NOR flash... ") true false
    found ← message (codes "${size}") false true
    uboot_nor_probe host.rambase (elim max_size [ none ↦ none | some t ↦ some (text t) ])
        (probing ∷ []) (found ∷ []) final (codes "status") (codes "size")

  -- `v["browser_download_url"]`, which is a text in what GitHub answers.
  abbrev pub url_of : Dict J → Result Text
  url_of asset = elim (Dict.get asset (codes "browser_download_url")) [
    | none ↦ err key_error
    | some url ↦ ok (json.str_of url)
  ]

  abbrev pub asset_request : Text → Text → Text → Download
  asset_request soc name url = record {
    artifact_key = url;
    url = url;
    destination = latest ++ (codes "/" ++ (soc ++ (codes "/" ++ name)));
    page_url = none;
    headers = [];
  }

  -- The loop over the assets that match.
  unfoldable pub download_assets : Text → Dict (Dict J) → Task (Unit {0})
  unfolding ◌>>=◌ uboot_download_url
  download_assets soc [] = gives tt
  download_assets soc ((name, asset) ∷ assets) = do
    url ← from_result (url_of asset)
    body ← uboot_download_url host.polls host.parses (asset_request soc name url) false
    download_assets soc assets

  unfoldable pub manifest_command : Task (Unit {0})
  unfolding ◌>>=◌ new_manifest load find download_assets
  manifest_command = do
    given ← env_find (codes "soc")
    let soc : Text = elim given [ none ↦ codes "gk7205v300" | some soc ↦ soc ]
    manifest ← new_manifest json host latest none false
    loaded ← load json host manifest
    matches ← from_result (find json host loaded (soc ∷ []))
    download_assets soc matches
    blank ← message [] false true
    exec (blank ∷ []) true []

  -- The defaults of find_active.
  abbrev pub usual_search : Search
  usual_search = record {
    rambase = host.rambase;
    min_chunk = 0x800;
    split_parts = 2;
    max_ranges = 6;
  }

  unfoldable pub active_command : Task (Unit {0})
  unfolding ◌>>=◌ find_active range_lines
  active_command = do
    res ← find_active usual_search 0x1000001 searched_ranges
    cmds ← range_lines res
    exec cmds true []

  unfoldable pub crc32_command : Task (Unit {0})
  unfolding ◌>>=◌ is_le crc32 crc_lines
  crc32_command = do
    le ← is_le host.rambase
    res ← crc32 host.rambase searched_ranges le
    cmds ← crc_lines searched_ranges res
    exec cmds true []

  -- `default`. The command `backup` reads a name that is not bound, behind its probe.
  unfoldable pub default : Text → Text → Task (Unit {0})
  unfolding ◌>>=◌ openipc_install probed uboot_boot manifest_command active_command crc32_command
      uboot_nomatch
  default ident cmd =
      let probe = probed true >>= λ sz. gives tt in
      let backup = probed false >>= λ sz. fails name_error in
      let unmatched = uboot_nomatch ident cmd valid_cmds false >> uboot_boot 10 in
      if text_eq cmd (codes "install")
      then openipc_install host ident
      else if text_eq cmd (codes "probe")
      then probe
      else if text_eq cmd (codes "backup")
      then backup
      else if text_eq cmd (codes "boot")
      then uboot_boot 0
      else if text_eq cmd (codes "manifest")
      then manifest_command
      else if text_eq cmd (codes "active")
      then active_command
      else if text_eq cmd (codes "crc32")
      then crc32_command
      else unmatched
