-- ===== src/Config.antt =====
-- src/uboot_tftp/config.py: the configuration, from the sections of a TOML file. Values in a
-- section are texts, numbers that are not negative, or flags; the file is read by the library.
pub mod Required
pub mod Toml
pub mod Tests
use openipc_tftp.Common.{
  ℕ, Bool, true, false, not, ◌&&◌, ◌||◌, List, [], ◌∷◌, ◌++◌, Option, none, some, Result, ok, err,
  value_error, ◌>>=◌, ◌>>◌, guard, ◌==◌, if◌then◌else◌, is_empty, all_of, keep, map,
}
use openipc_tftp.Common.Text.{Text, codes, text_eq, starts_with, lower}
use openipc_tftp.Common.Digits.{str}
use openipc_tftp.Common.Dict
use openipc_tftp.Common.Dict.{Dict}
use openipc_tftp.Jobs.{FilePath}
use openipc_tftp.Files.{Files, resolve, relative}
use openipc_tftp.Scripted.Setting.{ScriptRoute, DaemonConfig}

pub data Value : Type 0 where
  a_text : Text → Value
  a_number : ℕ → Value
  a_flag : Bool → Value

-- `str(value)`
abbrev pub text_of : Value → Text
text_of (a_text t) = t
text_of (a_number n) = str n
text_of (a_flag true) = codes "True"
text_of (a_flag false) = codes "False"

-- `bool(value)`
abbrev is_truthy : Value → Bool
is_truthy (a_text t) = not (is_empty t)
is_truthy (a_number n) = not (n == 0)
is_truthy (a_flag b) = b

-- `a or b`, where a missing value is None.
abbrev pub or_value : Option Value → Option Value → Option Value
or_value none other = other
or_value (some v) other = if is_truthy v then some v else other

abbrev pub Section : Type 0
Section = Dict Value

-- `{str(key): str(value) for key, value in section.items()}`
unfoldable pub texts : Section → Dict Text
texts section = map (λ (b : Text × Value). (b.0, text_of b.1)) section

unfoldable pub without_entry_func : Section → Section
without_entry_func section =
    keep (λ (b : Text × Value). not (text_eq b.0 (codes "entry_func"))) section

abbrev pub root_value : Section → Option Value
root_value server =
    or_value (Dict.get server (codes "rootdir"))
      (or_value (Dict.get server (codes "static_root")) (Dict.get server (codes "tftproot")))

abbrev pub is_absolute : Text → Bool
is_absolute path = starts_with (codes "/") path

abbrev absolute_or_none : Option Value → Bool
absolute_or_none none = true
absolute_or_none (some v) = is_absolute (text_of v)

unfoldable pub validate_server_paths : Section → Result (Unit {0})
validate_server_paths server = guard (absolute_or_none (root_value server)) value_error

abbrev pub required : List Text
required = codes "rambase" ∷ codes "cmdtftp" ∷ codes "cmdtftpput" ∷ []

unfoldable pub validate_base_env : Dict Text → Result (Unit {0})
validate_base_env env = guard (all_of (λ key. Dict.has_key env key) required) value_error

abbrev pub section_of : Option Section → Section
section_of none = []
section_of (some section) = section

abbrev entry_or : Option Value → Text → Text
entry_or none default = default
entry_or (some v) default = text_of v

abbrev is_reserved : Text → Bool
is_reserved section =
    text_eq section (codes "server")
    || (text_eq section (codes "env") || text_eq section (codes "default"))

route_of : Section → Option Value → Result ScriptRoute
unfolding texts without_entry_func
route_of route none = err value_error
route_of route (some entry) =
    ok (record { entry_func = text_of entry; env = texts (without_entry_func route) })

-- The loop over the sections.
unfoldable pub add_routes : Dict ScriptRoute → Dict Section → Result (Dict ScriptRoute)
unfolding route_of
add_routes routes [] = ok routes
add_routes routes ((section, values) ∷ sections) = do
  next ←
      (if is_reserved section then ok routes else (do
        route ← route_of values (Dict.get values (codes "entry_func"))
        ok (Dict.put routes (lower section) route)))
  add_routes next sections

abbrev with_rootdir : Option Text → Section → Section
with_rootdir none server = server
with_rootdir (some rootdir) server = Dict.put server (codes "rootdir") (a_text rootdir)

-- The section `server`, and the configuration.
unfoldable pub load_daemon_config : Dict Section → Option Text → Result (Section × DaemonConfig)
unfolding validate_server_paths validate_base_env add_routes texts without_entry_func
load_daemon_config sections rootdir = do
  let server = with_rootdir rootdir (section_of (Dict.get sections (codes "server")))
  validate_server_paths server
  let env = texts (section_of (Dict.get sections (codes "env")))
  validate_base_env env
  let default_section = section_of (Dict.get sections (codes "default"))
  routes ← add_routes [] sections
  ok (
    server,
    record {
      env = env;
      routes = routes;
      default_route = record {
        entry_func = entry_or (Dict.get default_section (codes "entry_func")) (codes "default");
        env = texts (without_entry_func default_section);
      };
    },
  )

abbrev root_text : Option Value → Text
root_text none = codes "."
root_text (some v) = if is_truthy v then text_of v else codes "."

-- `DaemonConfig.static_root`
unfoldable pub static_root : Section → Result FilePath
static_root server = do
  let value = root_text (root_value server)
  guard (is_absolute value) value_error
  ok (relative value)

script_at : Files → FilePath → Option Value → Result FilePath
script_at fs folder none = err value_error
script_at fs folder (some v) =
    if not (is_truthy v)
    then err value_error
    else if is_absolute (text_of v)
    then ok (relative (text_of v))
    else ok (resolve fs (folder ++ relative (text_of v)))

-- `DaemonConfig.script_path`, for a configuration file in `folder`.
unfoldable pub script_path : Files → FilePath → Section → Result FilePath
unfolding script_at
script_path fs folder server =
    script_at fs folder
      (or_value (Dict.get server (codes "scriptfile")) (Dict.get server (codes "script")))
