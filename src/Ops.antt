-- ===== src/Ops.antt =====
-- src/uboot_tftp/ubootops.py: coroutines for handlers. `rambase` is the attribute of the session's
-- handle, and `count` is what the counter of temporary names draws first. A name that the module does
-- not import raises NameError where it is called.
pub mod Literal
pub mod Probe
mod Tests
use openipc_tftp.Common.{
  ℕ, zero, suc, ◌+◌, ◌*◌, Bool, true, false, not, ◌&&◌, ◌||◌, List, [], ◌∷◌, ◌++◌, Option, none,
  some, Result, ok, err, Error, value_error, name_error, type_error, ltb, ◌/◌, ◌%◌, is_empty, keep,
  all_of, map, if◌then◌else◌, ◌==◌, drop,
}
use openipc_tftp.Common.Text.{
  Text, Bytes, codes, text_eq, strip, lower, starts_with, ends_with, is_space,
}
use openipc_tftp.Common.Digits.{str, digit_value}
use openipc_tftp.Common.Dict.{Dict}
use openipc_tftp.Env.Layout.{int_of, without_last}
use openipc_tftp.Jobs.{DownloadArtifact, ArtifactState, pending, done, failed}
use openipc_tftp.Scripted.Setting.{
  Call, file_exists, read_file, acquire_download, get_download, Answer, some_bytes, a_flag,
  an_artifact, Lines, many, Offset, number, text, Download,
}
use openipc_tftp.Snippets.{uboot_memset, uboot_nor_read, uboot_nor_gen_probe}
use openipc_tftp.Tasks.{
  Task, gives, fails, asks, execs, receives, out_of_fuel, ◌>>=◌, ◌>>◌, from_result, exec, exec_recv,
  env_value,
}
use openipc_tftp.Term.{uboot_msg, uboot_progress, uboot_status, uboot_status_complete}

unfoldable pub normalize_cmds : List Text → List Text
normalize_cmds cmds = keep (λ cmd. not (is_empty cmd)) cmds

unfoldable pub uboot_nor_download : Text → ℕ → ℕ → List Text → List Text → Task Bytes
unfolding normalize_cmds uboot_memset uboot_nor_read
uboot_nor_download rambase count size pre_cmds post_cmds =
    exec_recv
      (many (
        normalize_cmds pre_cmds
        ++ (uboot_memset rambase count (number 0) (number 0xff) (number size) none
            ∷ uboot_nor_read rambase (count + 1) (number 0) (number 0) (number size) none
            ∷ normalize_cmds post_cmds)))
      size

-- A number in a base below 10.
abbrev small_int : ℕ → Text → Result ℕ
small_int base digits =
    if all_of (λ c. ltb (digit_value c) base) digits then int_of base digits else err value_error

-- `int(text, 0)` of a text without signs, spaces and underscores.
unfoldable pub int_literal : Text → Result ℕ
unfolding int_of
int_literal token =
    let digits = lower token in
    if starts_with (codes "0x") digits
    then int_of 16 (drop 2 digits)
    else if starts_with (codes "0o") digits
    then small_int 8 (drop 2 digits)
    else if starts_with (codes "0b") digits
    then small_int 2 (drop 2 digits)
    else if starts_with (codes "0") digits && not (all_of (λ c. c == b'0') digits)
    then err value_error
    else int_of 10 digits

abbrev in_mib : Result ℕ → Result ℕ
in_mib (err e) = err e
in_mib (ok n) = ok (n * 0x100000)

-- `_parse_max_size`
unfoldable pub parse_max_size : Option Offset → Result ℕ
unfolding int_literal
parse_max_size none = ok 0x8000000
parse_max_size (some (number n)) = ok n
parse_max_size (some (text t)) =
    let size = strip is_space t in
    if ends_with (codes "m") (lower size)
    then in_mib (int_literal (without_last size))
    else int_literal size

-- The lines of uboot_nor_gen_probe always come to an end: its first size is 1 MiB.
abbrev pub lines_or_stuck : Option (List Text) → Task (List Text)
lines_or_stuck none = out_of_fuel
lines_or_stuck (some ls) = gives ls

unfoldable pub probe_size : Text → ℕ → List Text → Bool → Text → Task ℕ
unfolding ◌>>=◌ normalize_cmds uboot_nor_gen_probe int_literal
probe_size rambase max_size post_cmds final size_key = do
  ls ← lines_or_stuck (uboot_nor_gen_probe rambase 0x100000 max_size 0 0 none)
  exec (ls ++ normalize_cmds post_cmds) final (size_key ∷ [])
  size ← env_value size_key
  from_result (int_literal size)

unfoldable pub uboot_nor_probe :
    Text → Option Offset → List Text → List Text → Bool → Text → Text → Task ℕ
unfolding ◌>>=◌ parse_max_size normalize_cmds probe_size
uboot_nor_probe rambase max_size pre_cmds post_cmds final status_key size_key = do
  parsed_max_size ← from_result (parse_max_size max_size)
  exec
      (normalize_cmds pre_cmds
        ++ (codes "sf probe 0" ∷ (codes "setenv " ++ (status_key ++ codes " $?")) ∷ []))
      false (status_key ∷ [])
  status ← env_value status_key
  if text_eq status (codes "1")
      then gives 0
      else probe_size rambase parsed_max_size post_cmds final size_key

-- The rounds of the countdown: `step` of `width`.
unfoldable pub countdown : List Text → ℕ → ℕ → ℕ → Task (Unit {0})
unfolding ◌>>=◌
countdown intro width step zero = gives tt
countdown intro width step (suc left) = do
  progress ← from_result (uboot_progress step width (codes "white") false)
  exec (if step == 0 then intro ++ progress ∷ [] else progress ∷ []) false []
  countdown intro width (suc step) left

-- `seconds` is not negative here; the source counts a negative number as 0.
unfoldable pub uboot_exec_delay : Text → ℕ → List Text → Bool → Task (Unit {0})
unfolding ◌>>=◌ countdown normalize_cmds
uboot_exec_delay message seconds cmds final = do
  first ← from_result (uboot_msg message (codes "white") false true)
  second ← from_result (uboot_msg (codes "Enter Ctrl+C to cancel...") (codes "white") false true)
  countdown (first ∷ second ∷ []) seconds 0 seconds
  exec (normalize_cmds cmds) final []

unfoldable pub uboot_boot : ℕ → Task (Unit {0})
unfolding ◌>>=◌ uboot_exec_delay
uboot_boot delay = do
  msg ←
      from_result
        (uboot_msg (codes "uboot-tftp: Executing normal boot...") (codes "green") false true)
  uboot_exec_delay (codes "Booting in " ++ (str delay ++ codes "s")) delay (msg ∷ codes "boot" ∷ [])
      true

-- `f"{n / 1024:.1f}"`: a tie is rounded to the even digit, and the quotient is exact.
unfoldable pub kib_text : ℕ → Text
kib_text n =
    let q = n * 10 / 1024 in
    let r = n * 10 % 1024 in
    let tenths = if ltb r 512 then q else if ltb 512 r then q + 1 else q + q % 2 in
    str (tenths / 10) ++ (codes "." ++ str (tenths % 10))

abbrev pub is_done : ArtifactState → Bool
is_done done = true
is_done other = false

abbrev pub is_failed : ArtifactState → Bool
is_failed failed = true
is_failed other = false

unfoldable pub progress_of : ArtifactState → Result Text → Result (List Text)
progress_of state (err e) = err e
progress_of state (ok line) = ok (line ∷ (if is_done state then uboot_status_complete ∷ [] else []))

unfoldable pub download_progress_lines : DownloadArtifact → Result (List Text)
unfolding kib_text progress_of
download_progress_lines artifact =
    progress_of artifact.state
      (uboot_status (kib_text artifact.bytes_done ++ codes " kB") (codes "green") false)

abbrev pub flag_of : Result Answer → Result Bool
flag_of (err e) = err e
flag_of (ok (a_flag b)) = ok b
flag_of (ok other) = err type_error

abbrev pub bytes_of : Result Answer → Result Bytes
bytes_of (err e) = err e
bytes_of (ok (some_bytes b)) = ok b
bytes_of (ok other) = err type_error

abbrev pub artifact_of : Result Answer → Result DownloadArtifact
artifact_of (err e) = err e
artifact_of (ok (an_artifact a)) = ok a
artifact_of (ok other) = err type_error

abbrev pub file_bytes : Text → Task Bytes
file_bytes path = asks (read_file path) (λ r. from_result (bytes_of r))

-- The polling loop; a download that fails calls uboot_err, which the module does not import.
unfoldable pub poll_download : ℕ → Text → Text → Task Bytes
unfolding ◌>>=◌ download_progress_lines
poll_download zero url filepath = out_of_fuel
poll_download (suc fuel) url filepath = do
  artifact ← asks (get_download url) (λ r. from_result (artifact_of r))
  ls ← from_result (download_progress_lines artifact)
  exec ls false []
  let again = poll_download fuel url filepath
  if is_done artifact.state
      then file_bytes filepath
      else if is_failed artifact.state
      then fails name_error
      else again

abbrev pub checked : Bool → Task (Unit {0})
checked true = gives tt
checked false = fails name_error

-- Whether urlparse takes the URL and the page's URL.
abbrev pub page_parses : (Text → Bool) → Option Text → Bool
page_parses parses none = true
page_parses parses (some page_url) = is_empty page_url || parses page_url

unfoldable pub fetch_download : ℕ → (Text → Bool) → Download → Task Bytes
unfolding ◌>>=◌ poll_download
fetch_download fuel parses d = do
  checked (parses d.url)
  checked (page_parses parses d.page_url)
  artifact ← asks (acquire_download d) (λ r. from_result (artifact_of r))
  msg ←
      from_result (
        uboot_msg (codes "Downloading " ++ (d.destination ++ codes ": ")) (codes "green") true
          false)
  exec (msg ∷ []) false []
  poll_download fuel d.url d.destination

-- `uboot_download_url`, with `artifact_key = url`; `fuel` is the number of times that the download is
-- polled.
unfoldable pub uboot_download_url : ℕ → (Text → Bool) → Download → Bool → Task Bytes
unfolding ◌>>=◌ fetch_download
uboot_download_url fuel parses d cache = do
  cached ←
      if cache then asks (file_exists d.destination) (λ r. from_result (flag_of r)) else gives false
  let fetched = fetch_download fuel parses d
  let shown = uboot_msg (codes "Using cached download: " ++ d.destination) (codes "green") true true
  if cached
      then (do msg ← from_result shown; exec (msg ∷ []) false []; file_bytes d.destination)
      else fetched
