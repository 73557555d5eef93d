-- ===== src/Files.antt =====
-- Paths and the file system, as pathlib and os have them, and the two functions that map a name
-- from the network to a path: _resolve_static_path of src/uboot_tftp/scripted.py and
-- _resolve_disk_upload_path of src/uboot_tftp/server.py. A path is its segments below `/`.
pub mod Confined
use openipc_tftp.Common.{
  ℕ, Bool, true, false, not, ◌&&◌, ◌||◌, List, [], ◌∷◌, ◌++◌, Option, none, some, Result, ok, err,
  value_error, ◌>>=◌, ◌>>◌, guard, ◌==◌, if◌then◌else◌, is_empty, keep, any_of, foldl,
}
use openipc_tftp.Common.Text.{Text, Bytes, codes, text_eq, lstrip, split_on, has_char}
use openipc_tftp.Jobs.{FilePath, path_eq}

-- `link` gives the resolved target of a symbolic link; `file` the contents of a regular file.
pub record Files : Type 0 where
  pub link : FilePath → Option FilePath
  pub file : FilePath → Option Bytes
  pub is_dir : FilePath → Bool

-- The parts of `Path(text)` for a text that does not begin with a slash.
unfoldable pub parts : Text → List Text
parts text = keep (λ w. not (is_empty w || text_eq w (codes "."))) (split_on b'/' text)

abbrev pub parent : FilePath → FilePath
parent [] = []
parent (w ∷ []) = []
parent (v ∷ w ∷ p) = v ∷ parent (w ∷ p)

abbrev pub follow : Option FilePath → FilePath → FilePath
follow none path = path
follow (some target) path = target

step : Files → FilePath → Text → FilePath
step fs path segment =
    if text_eq segment (codes "..")
    then parent path
    else follow (fs.link (path ++ segment ∷ [])) (path ++ segment ∷ [])

-- `Path.resolve()` of an absolute path.
unfoldable pub resolve : Files → FilePath → FilePath
unfolding step
resolve fs path = foldl (step fs) [] path

-- `root in candidate.parents`
unfoldable pub is_below : FilePath → FilePath → Bool
is_below [] [] = false
is_below [] (w ∷ path) = true
is_below (v ∷ root) [] = false
is_below (v ∷ root) (w ∷ path) = text_eq v w && is_below root path

-- A regular file that is written, behind `target.parent.mkdir(parents=True, exist_ok=True)`: the
-- directories above are made.
unfoldable pub written : Files → FilePath → Bytes → Files
written fs target body = record {
  link = fs.link;
  file = λ p. if path_eq p target then some body else fs.file p;
  is_dir = λ p. is_below p target || fs.is_dir p;
}

-- A file in the place of one of the directories above, where mkdir raises OSError.
unfoldable pub has_file_above : Files → FilePath → FilePath → Bool
has_file_above fs above [] = false
has_file_above fs above (w ∷ []) = false
has_file_above fs above (v ∷ w ∷ path) =
    elim (fs.file (above ++ v ∷ [])) [ some _ ↦ true | none ↦ false ]
    || has_file_above fs (above ++ v ∷ []) (w ∷ path)

abbrev pub relative : Text → List Text
relative text = parts (lstrip (λ c. c == b'/') text)

-- `Path.resolve` raises ValueError at a path with a NUL.
unfoldable pub resolve_static_path : Files → FilePath → Text → Result (Option FilePath)
resolve_static_path fs root path =
    let candidate = resolve fs (root ++ relative path) in
    do
      guard (not (has_char 0 path)) value_error
      ok (
          if path_eq candidate (resolve fs root)
          then none
          else if not (is_below (resolve fs root) candidate)
          then none
          else some candidate)

unfoldable pub resolve_disk_upload_path : Files → FilePath → Text → Result FilePath
resolve_disk_upload_path fs root filename =
    let candidate = resolve fs (root ++ relative filename) in
    do
      guard (not (any_of (λ w. text_eq w (codes "..")) (relative filename))) value_error
      guard (not (has_char 0 filename)) value_error
      guard (is_below (resolve fs root) candidate || path_eq candidate (resolve fs root))
          value_error
      ok candidate
