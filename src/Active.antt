-- ===== src/Active.antt =====
-- scripts/openipc.py: CRCs of ranges of a client's memory, and the search for the ranges that change.
-- `rambase` is the attribute of the session's handle.
pub mod Rounds
pub mod Within
mod Tests
use openipc_tftp.Common.{
  ℕ, zero, suc, ◌+◌, ◌-◌, ◌*◌, Bool, true, false, not, ◌&&◌, ◌||◌, List, [], ◌∷◌, ◌++◌, Option,
  none, some, Result, ok, err, Error, value_error, struct_error, ◌==◌, if◌then◌else◌, leb, ltb,
  length, take, drop, replicate, all_of, map, is_empty, foldl, get_elem?,
}
use openipc_tftp.Common.Text.{Text, Bytes, codes, text_eq, lower}
use openipc_tftp.Common.Digits.{str, hex, value, digit_value}
use openipc_tftp.Common.Words.{from_be, from_le}
use openipc_tftp.Env.Layout.{is_digit_of}
use openipc_tftp.Ranges.{Range, split_range, coalesce_ranges}
use openipc_tftp.Scripted.Texts.{variable}
use openipc_tftp.Tasks.{
  Task, gives, fails, execs, out_of_fuel, ◌>>=◌, ◌>>◌, from_result, exec, env_value,
}

-- A byte in front of what follows it, which is looked at only if the byte is one.
pair_of : Text → Result Bytes → Result Bytes
pair_of pair (err e) = err e
pair_of pair (ok rest) =
    if all_of (is_digit_of 16) pair then ok (value 16 0 pair ∷ rest) else err value_error

-- `bytes.fromhex`, for texts without spaces.
unfoldable pub from_hex : Text → Result Bytes
unfolding pair_of
from_hex [] = ok []
from_hex (c ∷ []) = err value_error
from_hex (c ∷ d ∷ s) = pair_of (lower (c ∷ d ∷ [])) (from_hex s)

-- `text.zfill(8)`, for texts without signs.
unfoldable pub zfill8 : Text → Text
zfill8 t = replicate (8 - length t) b'0' ++ t

word_of : Bool → Bytes → Result ℕ
word_of le raw =
    if length raw == 4 then ok (if le then from_le raw else from_be raw) else err struct_error

after_hex : Bool → Result Bytes → Result ℕ
unfolding word_of
after_hex le (err e) = err e
after_hex le (ok raw) = word_of le raw

-- What one value of the client's environment says.
unfoldable pub crc_of : Bool → Text → Result ℕ
unfolding after_hex from_hex zfill8
crc_of le t = after_hex le (from_hex (zfill8 t))

unfoldable pub crc32_script : ℕ → ℕ → Text → Text → List Text
unfolding variable
crc32_script addr size scratch result =
    (codes "setexpr.l dest " ++ scratch)
    ∷ codes "setexpr.l tmp *${dest}"
    ∷ (codes "crc32 " ++ (hex addr ++ (codes " " ++ (hex size ++ codes " ${dest}"))))
    ∷ (codes "setexpr.l " ++ (result ++ codes " *${dest}"))
    ∷ codes "mw.l ${dest} ${tmp} 1"
    ∷ codes "setenv tmp; setenv dest"
    ∷ []

abbrev pub key_at : ℕ → Text
key_at i = b'_' ∷ str i

unfoldable pub keys_from : ℕ → ℕ → List Text
keys_from i zero = []
keys_from i (suc n) = key_at i ∷ keys_from (suc i) n

unfoldable pub commands_from : Text → ℕ → List Range → List Text
unfolding crc32_script
commands_from rambase i [] = []
commands_from rambase i (r ∷ rs) =
    crc32_script r.addr r.size rambase (key_at i) ++ commands_from rambase (suc i) rs

unfoldable pub read_crcs : Bool → List Text → Task (List ℕ)
unfolding ◌>>=◌ crc_of
read_crcs le [] = gives []
read_crcs le (key ∷ keys) = do
  raw ← env_value key
  crc ← from_result (crc_of le raw)
  crcs ← read_crcs le keys
  gives (crc ∷ crcs)

-- `crc32`: one script for all the ranges.
unfoldable pub crc32 : Text → List Range → Bool → Task (List ℕ)
unfolding ◌>>=◌ commands_from keys_from read_crcs
crc32 rambase ranges le = do
  exec (commands_from rambase 0 ranges) false (keys_from 0 (length ranges))
  read_crcs le (keys_from 0 (length ranges))

-- `batched`: the fuel is the number of items; a size of 0 is refused by `range`.
batches : ℕ → ℕ → List Range → List (List Range)
batches fuel size [] = []
batches zero size (r ∷ rs) = []
batches (suc fuel) size (r ∷ rs) = take size (r ∷ rs) ∷ batches fuel size (drop size (r ∷ rs))

unfoldable pub batched : List Range → ℕ → Result (List (List Range))
unfolding batches
batched items size = if size == 0 then err value_error else ok (batches (length items) size items)

-- `r for r, x, y in zip(batch, res1, res2) if x != y`
unfoldable pub differing : List Range → List ℕ → List ℕ → List Range
differing (r ∷ rs) (x ∷ xs) (y ∷ ys) =
    let rest = differing rs xs ys in if x == y then rest else r ∷ rest
differing rs xs ys = []

-- The inner loop: the ranges of which two CRCs differ.
unfoldable pub changed_in : Text → List (List Range) → Task (List Range)
unfolding ◌>>=◌ differing
changed_in rambase [] = gives []
changed_in rambase (batch ∷ rest) = do
  res1 ← crc32 rambase batch true
  res2 ← crc32 rambase batch true
  changed ← changed_in rambase rest
  gives (differing batch res1 res2 ++ changed)

joined : Result (List Range) → Result (List Range) → Result (List Range)
joined (err e) rest = err e
joined (ok rs) (err e) = err e
joined (ok rs) (ok qs) = ok (rs ++ qs)

-- The ranges of the next round.
unfoldable pub split_all : List Range → ℕ → Result (List Range)
unfolding joined
split_all [] parts = ok []
split_all (r ∷ rs) parts = joined (split_range r.addr r.size parts) (split_all rs parts)

-- The arguments of find_active behind the ranges.
pub record Search : Type 0 where
  pub rambase : Text
  pub min_chunk : ℕ
  pub split_parts : ℕ
  pub max_ranges : ℕ

-- The end of a round, and what comes after it.
unfoldable pub narrowed : Search → (List Range → Task (List Range)) → List Range → Task (List Range)
unfolding ◌>>=◌ split_all
narrowed search next [] = gives []
narrowed search next (r ∷ rs) =
    if leb r.size search.min_chunk
    then gives (coalesce_ranges (r ∷ rs))
    else (from_result (split_all (r ∷ rs) search.split_parts) >>= next)

-- The loop, with one unit of fuel for each round.
unfoldable pub find_active : Search → ℕ → List Range → Task (List Range)
unfolding ◌>>=◌ batched changed_in narrowed
find_active search fuel [] = gives []
find_active search zero (r ∷ rs) = out_of_fuel
find_active search (suc fuel) (r ∷ rs) = do
  groups ← from_result (batched (r ∷ rs) search.max_ranges)
  changed ← changed_in search.rambase groups
  narrowed search (λ cur. find_active search fuel cur) changed
