-- ===== src/EnvCli.antt =====
-- src/uboot_tftp/ubootenv_cli.py behind its argument parser: `main` with the arguments as a record,
-- the files as a dictionary by path, and the JSON library as an argument.
pub mod Cycle
mod Tests
pub mod Lines
use openipc_tftp.Common.{
  ℕ, Bool, true, false, not, ◌&&◌, List, [], ◌∷◌, ◌++◌, Option, none, some, Result, ok, err,
  value_error, file_not_found, ◌>>=◌, ◌>>◌, guard, is_empty, map,
}
use openipc_tftp.Common.Text.{Text, Bytes, partition}
use openipc_tftp.Common.Dict
use openipc_tftp.Common.Dict.{Dict}
use openipc_tftp.Env.Layout.{sorted}
use openipc_tftp.Env.Search.{Decompress}
use openipc_tftp.Env.Flash.{ubootenv_extract, ubootenv_patch}

pub data Format : Type 0 where
  env_lines json : Format

pub record Args : Type 0 where
  pub image : Text
  pub boot_offset : ℕ
  pub boot_size : Option ℕ
  pub env_offset : Option ℕ
  pub env_size : Option ℕ
  pub format : Format
  pub output : Option Text
  pub assignments : List Text
  pub env_json : Option Text
  pub flags : Option ℕ

-- `json.loads` of a file's text, with every key and value under `str`, and nothing for a value that
-- is not an object; and `json.dumps` of an environment.
pub record Json : Type 0 where
  pub load_object : Bytes → Result (Option (Dict Text))
  pub dump : Dict Text → Text

abbrev pub Files : Type 0
Files = Dict Bytes

read_found : Option Bytes → Result Bytes
read_found none = err file_not_found
read_found (some body) = ok body

unfoldable pub read_bytes : Files → Text → Result Bytes
unfolding read_found
read_bytes files path = read_found (Dict.get files path)

object_or_error : Option (Dict Text) → Result (Dict Text)
object_or_error none = err value_error
object_or_error (some object) = ok object

unfoldable pub load_json : Json → Files → Option Text → Result (Dict Text)
unfolding read_bytes object_or_error
load_json codec files none = ok []
load_json codec files (some path) = do
  body ← read_bytes files path
  loaded ← codec.load_object body
  object ← object_or_error loaded
  ok (Dict.update [] object)

-- One round of the loop over the assignments.
unfoldable pub assign : Dict Text → Text → Result (Dict Text)
assign env assignment = do
  let parts = partition b'=' assignment
  guard (parts.found && not (is_empty parts.before)) value_error
  ok (Dict.put env parts.before parts.after)

unfoldable pub assign_all : Dict Text → List Text → Result (Dict Text)
unfolding assign
assign_all env [] = ok env
assign_all env (assignment ∷ assignments) = do
  next ← assign env assignment
  assign_all next assignments

unfoldable pub load_patch_env : Json → Files → Option Text → List Text → Result (Dict Text)
unfolding load_json assign_all
load_patch_env codec files env_json_path assignments = do
  loaded ← load_json codec files env_json_path
  env ← assign_all loaded assignments
  guard (not (is_empty env)) value_error
  ok env

abbrev pub value_of : Option Text → Text
value_of none = []
value_of (some value) = value

-- `f"{key}={env[key]}"` for a key of the environment, what one call of `print` is given.
unfoldable pub line_of : Dict Text → Text → Text
line_of env key = key ++ b'=' ∷ value_of (Dict.get env key)

unfoldable pub lines_of : Dict Text → List Text
unfolding line_of sorted
lines_of env = map (line_of env) (sorted (map (λ (b : Text × Text). b.0) env))

-- What calls of `print` write, one call for each text.
unfoldable pub print_all : List Text → Text
print_all [] = []
print_all (text ∷ texts) = text ++ 10 ∷ print_all texts

-- What a run leaves: the files, and the text on standard output.
pub record Ran : Type 0 where
  pub files : Files
  pub printed : Text

print_as : Json → Format → Dict Text → Text
unfolding lines_of print_all
print_as codec env_lines env = print_all (lines_of env)
print_as codec Format.json env = print_all (codec.dump env ∷ [])

extracted : Decompress → Json → Files → Args → Bytes → Result Ran
unfolding print_as
extracted decompress codec files args image = do
  env ←
      ubootenv_extract decompress image args.boot_offset args.boot_size args.env_offset
        args.env_size
  ok (record { files = files; printed = print_as codec args.format env })

patched : Decompress → Json → Files → Args → Bytes → Text → Result Ran
unfolding load_patch_env
patched decompress codec files args image output = do
  env ← load_patch_env codec files args.env_json args.assignments
  body ←
      ubootenv_patch decompress image env args.boot_offset args.boot_size args.env_offset
        args.env_size args.flags 0xff
  ok (record { files = Dict.put files output body; printed = [] })

run_as : Decompress → Json → Files → Args → Bytes → Option Text → Result Ran
unfolding extracted patched
run_as decompress codec files args image none = extracted decompress codec files args image
run_as decompress codec files args image (some output) =
    patched decompress codec files args image output

unfoldable pub main : Decompress → Json → Files → Args → Result Ran
unfolding run_as read_bytes
main decompress codec files args = do
  image ← read_bytes files args.image
  run_as decompress codec files args image args.output
