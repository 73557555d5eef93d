-- ===== src/EnvCli/Cycle.antt =====
-- A run that patches an image, and a run that prints the environment of what it wrote.
use openipc_tftp.Common.{
  ◌+◌, ◌≤◌, ◌≡◌, refl, List, [], ◌∷◌, Option, none, some, ok, inr, All, IsIn, ◌++◌, length, Ensures,
  Ensures-bind, Ensures-value, value_error, guard, not, is_empty, ◌&&◌,
}
use openipc_tftp.Common.Text.{Text, Bytes, Lacks, partition, split_on}
use openipc_tftp.Common.Dict
use openipc_tftp.Common.Dict.{Dict, IsUnique, put-IsUnique, get-put_self}
use openipc_tftp.Env.Payload.{IsBinding, payload}
use openipc_tftp.Env.Search.{Decompress}
use openipc_tftp.Env.Flash.{Layout}
use openipc_tftp.Env.Flash.Cycle.{IsLayout, given, patch-extract}
use openipc_tftp.EnvCli.Lines.{lines_of-each, IsPrinted, printed_lines}
use openipc_tftp.EnvCli.{
  Args, Json, Files, env_lines, read_bytes, read_found, object_or_error, load_json, assign,
  assign_all, load_patch_env, lines_of, print_all, main,
}

update-IsUnique : (d e : Dict Text) → IsUnique d → IsUnique (Dict.update d e)
unfolding Dict.update
update-IsUnique d [] h = h
update-IsUnique d ((k, v) ∷ e) h = update-IsUnique (Dict.put d k v) e (put-IsUnique d k v h)

abbrev Unique : Dict Text → Type 0
Unique env = IsUnique env

json-IsUnique :
    (codec : Json) (files : Files) (path : Option Text)
    → Ensures Unique (load_json codec files path)
unfolding load_json
json-IsUnique codec files none = tt
json-IsUnique codec files (some path) =
    Ensures-bind Unique (read_found (Dict.get files path)) _ λ body _.
      Ensures-bind Unique (codec.load_object body) _ λ loaded _.
        Ensures-bind Unique (object_or_error loaded) _ λ object _. update-IsUnique [] object tt

assign-IsUnique : (env : Dict Text) (a : Text) → IsUnique env → Ensures Unique (assign env a)
unfolding assign
assign-IsUnique env a h =
    let parts = partition b'=' a in
    Ensures-bind Unique (guard (parts.found && not (is_empty parts.before)) value_error) _
      λ u _. put-IsUnique env parts.before parts.after h

assign_all-IsUnique :
    (env : Dict Text) (assignments : List Text)
    → IsUnique env
    → Ensures Unique (assign_all env assignments)
unfolding assign_all
assign_all-IsUnique env [] h = h
assign_all-IsUnique env (a ∷ rest) h =
    Ensures-bind Unique (assign env a) _
      λ next e. assign_all-IsUnique next rest (Ensures-value Unique _ (assign-IsUnique env a h) e)

load-IsUnique :
    (codec : Json) (files : Files) (path : Option Text) (assignments : List Text)
    → Ensures Unique (load_patch_env codec files path assignments)
unfolding load_patch_env
load-IsUnique codec files path assignments =
    Ensures-bind Unique (load_json codec files path) _ λ loaded e.
      Ensures-bind Unique (assign_all loaded assignments) _ λ env f.
        Ensures-bind Unique (guard (not (is_empty env)) value_error) _ λ u _.
          Ensures-value Unique _
            (assign_all-IsUnique loaded assignments
              (Ensures-value Unique _ (json-IsUnique codec files path) e))
            f

bindings-IsPrinted :
    (env : Dict Text)
    → All IsBinding env
    → All (λ (c : Text × Text). Lacks 10 c.1) env
    → All IsPrinted env
bindings-IsPrinted [] h k = tt
bindings-IsPrinted (b ∷ env) (hb, h) (kb, k) = ((hb.0, kb), bindings-IsPrinted env h k)

-- The second run: the file that the first one wrote is printed.
abbrev pub printing : Args → Text → Args
printing args output = record args { image = output; output = none; format = env_lines }

-- When the image and the environment of `--set` and `--env-json` can be loaded, no flags are given
-- and the boundaries are given as patch-extract has them, and the environment is one that it accepts,
-- whose values have no newlines, then `main` with `--output` changes that file only, and prints
-- nothing; and `main` on that file, with the same boundaries and no `--output`, changes no file and
-- prints a text of as many lines as that environment has bindings, each ended by a newline, with
-- `key=value` among them for each.
pub patch-print :
    (decompress : Decompress) (codec : Json) (files : Files) (args : Args) (output : Text)
    (image : Bytes) (l : Layout) (b : Text × Text) (env : Dict Text)
    → args.output ≡ some output
    → args.flags ≡ none
    → args.env_size ≡ some l.env_size
    → Dict.get files args.image ≡ some image
    → load_patch_env codec files args.env_json args.assignments ≡ ok (b ∷ env)
    → IsLayout image args.boot_offset l
    → given args.boot_offset args.boot_size args.env_offset ≡ some (l.boot_size, l.env_offset)
    → All IsBinding (b ∷ env)
    → All (λ (c : Text × Text). Lacks 10 c.1) (b ∷ env)
    → length (payload (b ∷ env)) + 4 ≤ l.env_size
    → (patched : Bytes) × (printed : Text) × (lines : List Text) × (main decompress codec files args
        ≡ ok (record { files = Dict.put files output patched; printed = [] }))
      × (main decompress codec (Dict.put files output patched) (printing args output)
          ≡ ok (record { files = Dict.put files output patched; printed = printed }))
      × (split_on 10 printed ≡ lines ++ [] ∷ [])
      × (length lines ≡ length (b ∷ env))
      × All (λ (c : Text × Text). IsIn (c.0 ++ b'=' ∷ c.1) lines) (b ∷ env)
unfolding main read_bytes
patch-print decompress codec files args output image l b env ho hf hn hi hl v g h plain fits =
    let unique =
      Ensures-value Unique _ (load-IsUnique codec files args.env_json args.assignments) hl in
    let (patched, wrote, frames, reads) =
      patch-extract decompress image args.boot_offset args.boot_size args.env_offset l b env 0xff v
        g h unique fits (inr refl) in
    let (size, each) = lines_of-each (b ∷ env) unique in
    (
      patched,
      print_all (lines_of (b ∷ env)),
      lines_of (b ∷ env),
      rw hi (rw ho (rw hl (rw (hn, hf) (rw wrote refl)))),
      rw (get-put_self files output patched) (rw hn (rw reads refl)),
      printed_lines (b ∷ env) (bindings-IsPrinted (b ∷ env) h plain),
      size,
      each,
    )
