-- ===== src/Env/Search.antt =====
-- The default environment in the code of a boot loader: extract_default_env_from_uboot of
-- src/uboot_tftp/ubootenv.py and what it calls. The decompressors of zlib, lzma and bz2 are an
-- argument, which gives no bytes where they raise or do not reach the end of a stream.
pub mod Queue
pub mod Best
use openipc_tftp.Common.{
  ℕ, zero, suc, ◌+◌, ◌-◌, ◌*◌, ◌/◌, ◌%◌, min, Bool, true, false, not, ◌&&◌, ◌||◌, List, [], ◌∷◌,
  ◌++◌, Option, none, some, Result, ok, err, value_error, runtime_error, ltb, leb, ◌==◌,
  if◌then◌else◌, is_empty, any_of, keep, map, foldl, length, take, drop,
}
use openipc_tftp.Common.Text.{Text, Bytes, codes, starts_with, contains}
use openipc_tftp.Common.Digits.{hex}
use openipc_tftp.Common.Dict
use openipc_tftp.Common.Dict.{Dict}
use openipc_tftp.Common.Words.{crc32}
use openipc_tftp.Env.{is_key_char, parse_nul_delimited_env}
use openipc_tftp.Env.Layout.{span}

pub data Kind : Type 0 where
  gzip xz bzip2 zlib : Kind

abbrev kind_name : Kind → Text
kind_name gzip = codes "gzip"
kind_name xz = codes "xz"
kind_name bzip2 = codes "bzip2"
kind_name zlib = codes "zlib"

abbrev pub Decompress : Type 0
Decompress = Kind → Bytes → Option Bytes

-- The two bytes at the start of a text.
zlib_header : Bytes → Bool
zlib_header (cmf ∷ flg ∷ rest) = (cmf == 0x78) && ((cmf * 256 + flg) % 31 == 0)
zlib_header _ = false

unfoldable pub looks_like_zlib_header : Bytes → ℕ → Bool
unfolding zlib_header
looks_like_zlib_header body offset = zlib_header (drop offset body)

abbrev magic : Kind → Bytes
magic gzip = 0x1f ∷ 0x8b ∷ 8 ∷ []
magic xz = 0xfd ∷ (codes "7zXZ" ++ 0 ∷ [])
magic bzip2 = codes "BZh"
magic zlib = []

is_kind : Bytes → ℕ → Kind → Bool
unfolding looks_like_zlib_header
is_kind body offset zlib = looks_like_zlib_header body offset
is_kind body offset kind = starts_with (magic kind) (drop offset body)

-- The kinds whose magic numbers stand at an offset.
unfoldable pub kinds_at : Bytes → ℕ → List Kind
unfolding is_kind
kinds_at body offset =
    (if is_kind body offset gzip then gzip ∷ [] else [])
    ++ ((if is_kind body offset xz then xz ∷ [] else [])
        ++ ((if is_kind body offset bzip2 then bzip2 ∷ [] else [])
            ++ (if is_kind body offset zlib then zlib ∷ [] else [])))

pub record Member : Type 0 where
  pub kind : Kind
  pub offset : ℕ
  pub payload : Bytes

-- `payload is None or len(payload) < 128` skips a member.
kept_member : Kind → ℕ → Option Bytes → List Member
kept_member kind offset none = []
kept_member kind offset (some payload) =
    if ltb (length payload) 128
    then []
    else record { kind = kind; offset = offset; payload = payload } ∷ []

members_of : Decompress → Bytes → ℕ → List Kind → List Member
unfolding kept_member
members_of decompress body offset [] = []
members_of decompress body offset (kind ∷ kinds) =
    kept_member kind offset (decompress kind (drop offset body))
    ++ members_of decompress body offset kinds

scan_from : Decompress → Bytes → ℕ → ℕ → List Member
unfolding members_of kinds_at
scan_from decompress body offset zero = []
scan_from decompress body offset (suc left) =
    members_of decompress body offset (kinds_at body offset)
    ++ scan_from decompress body (suc offset) left

-- No pair of a kind and an offset comes twice, so `seen_offsets` skips nothing.
unfoldable pub scan_compressed_members : Decompress → Bytes → List Member
unfolding scan_from
scan_compressed_members decompress body = scan_from decompress body 0 (length body - 6)

pub record Queued : Type 0 where
  pub label : Text
  pub candidate : Bytes
  pub depth : ℕ

abbrev pub queue_member : ℕ → Member → Queued
queue_member depth m = record {
  label = kind_name m.kind ++ (codes "@" ++ hex m.offset);
  candidate = m.payload;
  depth = suc depth;
}

-- What is queued behind a candidate.
unfoldable pub nested : Decompress → Queued → List Queued
nested decompress q =
    if leb 1 q.depth
    then []
    else map (queue_member q.depth) (scan_compressed_members decompress q.candidate)

abbrev pub signature : Bytes → ℕ × ℕ
signature candidate = (length candidate, crc32 (take 4096 candidate))

abbrev pub same : ℕ × ℕ → ℕ × ℕ → Bool
same a b = (a.0 == b.0) && (a.1 == b.1)

-- The loop over the queue: what is yielded, or nothing where the fuel runs out.
unfoldable pub candidates_from :
    Decompress → ℕ → List (ℕ × ℕ) → List Queued → Option (List (Text × Bytes))
unfolding nested
candidates_from decompress fuel seen [] = some []
candidates_from decompress zero seen (q ∷ queue) = none
candidates_from decompress (suc fuel) seen (q ∷ queue) =
    let skipped = candidates_from decompress fuel seen queue in
    let rest =
      candidates_from decompress fuel (signature q.candidate ∷ seen)
        (queue ++ nested decompress q) in
    if any_of (same (signature q.candidate)) seen
    then skipped
    else elim rest [ none ↦ none | some yielded ↦ some ((q.label, q.candidate) ∷ yielded) ]

unfoldable pub iter_uboot_candidates : Decompress → ℕ → Bytes → Option (List (Text × Bytes))
unfolding candidates_from
iter_uboot_candidates decompress fuel boot_region =
    candidates_from decompress fuel []
      (record { label = codes "raw"; candidate = boot_region; depth = 0 } ∷ [])

-- The bytes of a value, of which the regular expression takes up to 1024.
abbrev pub is_value_byte : ℕ → Bool
is_value_byte c = not ((c == 0) || ((c == 13) || (c == 10)))

abbrev first_is : ℕ → Bytes → Bool
first_is c [] = false
first_is c (d ∷ s) = d == c

-- The size of one repetition of the group of `_ENV_BLOB_RE` at the start of a text. Neither run can
-- end earlier: the byte behind it, `=` or NUL, is none that the run takes.
unfoldable pub blob_entry : Bytes → Option ℕ
unfolding span
blob_entry s =
    let key = span is_key_char s in
    let rest = span is_value_byte (drop 1 key.1) in
    if not (is_empty key.0)
      && (leb (length key.0) 64
          && (first_is b'=' key.1 && (leb (length rest.0) 1024 && first_is 0 rest.1)))
    then some (length key.0 + length rest.0 + 2)
    else none

-- How many repetitions stand at the start of a text, and their size. Each has three bytes or more.
unfoldable pub blob_run : ℕ → Bytes → ℕ × ℕ
unfolding blob_entry
blob_run zero s = (0, 0)
blob_run (suc fuel) s = elim (blob_entry s) [
  | none ↦ (0, 0)
  | some n ↦ let rest = blob_run fuel (drop n s) in (suc rest.0, n + rest.1)
]

-- `_ENV_BLOB_RE.match` at the start of a text: the size of the match.
unfoldable pub blob_at : Bytes → Option ℕ
unfolding blob_run
blob_at s = let run = blob_run (length s) s in if leb 5 run.0 then some run.1 else none

-- `_ENV_BLOB_RE.finditer`; `skip` bytes belong to the last match.
unfoldable pub find_blobs : ℕ → Bytes → List Bytes
unfolding blob_at
find_blobs skip [] = []
find_blobs (suc skip) (c ∷ s) = find_blobs skip s
find_blobs zero (c ∷ s) = elim (blob_at (c ∷ s)) [
  | some n ↦ take n (c ∷ s) ∷ find_blobs (n - 1) s
  | none ↦ find_blobs zero s
]

abbrev pub core_env_keys : List Text
core_env_keys =
    codes "bootcmd"
    ∷ codes "bootargs"
    ∷ codes "mtdparts"
    ∷ codes "baudrate"
    ∷ codes "ipaddr"
    ∷ codes "serverip"
    ∷ []

abbrev env_markers : List Bytes
env_markers =
    map (λ key. key ++ b'=' ∷ [])
      (codes "bootcmd"
        ∷ codes "bootargs"
        ∷ codes "mtdparts"
        ∷ codes "baudrate"
        ∷ codes "stdin"
        ∷ codes "stdout"
        ∷ codes "stderr"
        ∷ [])

abbrev uboot_markers : List Bytes
uboot_markers = codes "env_common.c" ∷ codes "nvedit.c" ∷ codes "U-Boot" ∷ []

-- `sum(1 for x in xs if p(x))`
abbrev count : (Text → Bool) → List Text → ℕ
count p xs = length (keep p xs)

score_candidate_bytes : Bytes → ℕ
score_candidate_bytes candidate =
    count (λ marker. contains marker candidate) env_markers * 8
    + count (λ marker. contains marker candidate) uboot_markers * 4

abbrev pub core_hits : Dict Text → ℕ
core_hits env = count (λ key. Dict.has_key env key) core_env_keys

score_env : Dict Text → ℕ
score_env env =
    core_hits env * 100
    + count (λ key. Dict.has_key env key) (codes "stdin" ∷ codes "stdout" ∷ codes "stderr" ∷ [])
      * 20
    + length env * 10

unfoldable pub is_plausible_embedded_env : Dict Text → Bool
is_plausible_embedded_env env = leb 5 (length env) && leb 2 (core_hits env)

-- The score of a match in a candidate.
unfoldable pub score : Bytes → Bytes → ℕ
unfolding score_candidate_bytes score_env
score candidate blob =
    score_candidate_bytes candidate
    + score_env (parse_nul_delimited_env blob)
    + min (length blob) 4096 / 64

-- best_score and best_env: nothing stands for -1 and None.
abbrev pub Best : Type 0
Best = Option (ℕ × Dict Text)

unfoldable pub better : Best → ℕ → Dict Text → Best
better none score env = some (score, env)
better (some (best_score, best_env)) score env =
    if ltb best_score score then some (score, env) else some (best_score, best_env)

-- One round of the inner loop.
unfoldable pub try_blob : Bytes → Best → Bytes → Best
unfolding is_plausible_embedded_env score better
try_blob candidate best blob =
    let env = parse_nul_delimited_env blob in
    if is_plausible_embedded_env env then better best (score candidate blob) env else best

-- One round of the outer loop.
unfoldable pub try_candidate : Best → Text × Bytes → Best
unfolding try_blob find_blobs
try_candidate best (label, candidate) = foldl (try_blob candidate) best (find_blobs 0 candidate)

best_or_error : Best → Result (Dict Text)
best_or_error none = err value_error
best_or_error (some (score, env)) = ok env

-- The fuel is one round for the region itself and one for each compressed member.
abbrev pub enough : Decompress → Bytes → ℕ
enough decompress boot_region = suc (length (scan_compressed_members decompress boot_region))

found_in : Option (List (Text × Bytes)) → Result (Dict Text)
unfolding try_candidate best_or_error
found_in none = err runtime_error
found_in (some candidates) = best_or_error (foldl try_candidate none candidates)

unfoldable pub extract_default_env_from_uboot : Decompress → Bytes → Result (Dict Text)
unfolding iter_uboot_candidates found_in
extract_default_env_from_uboot decompress boot_region =
    found_in (iter_uboot_candidates decompress (enough decompress boot_region) boot_region)
