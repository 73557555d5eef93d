-- ===== src/Ranges.antt =====
-- scripts/openipc.py: the ranges of flash that differ, as (address, size).
pub mod Covers
pub mod Split
mod Tests
pub mod Coalesced
use openipc_tftp.Common.{
  ℕ, zero, suc, ◌+◌, ◌-◌, ◌*◌, ◌/◌, ◌%◌, Result, ok, err, guard, ◌>>◌, value_error,
  zero_division_error, max, Bool, ◌&&◌, ◌||◌, List, [], ◌∷◌, ◌++◌, foldl, leb, ltb, ◌==◌,
  if◌then◌else◌,
}

pub record Range : Type 0 where
  pub addr : ℕ
  pub size : ℕ

-- The order of tuples, by which `sorted` goes.
pub range_leb : Range → Range → Bool
range_leb r q = ltb r.addr q.addr || (r.addr == q.addr && leb r.size q.size)

pub insert : Range → List Range → List Range
unfolding range_leb
insert r [] = r ∷ []
insert r (q ∷ rest) = let later = insert r rest in if range_leb r q then r ∷ q ∷ rest else q ∷ later

pub sorted : List Range → List Range
sorted [] = []
sorted (r ∷ rest) = insert r (sorted rest)

-- The variables of the loop.
pub record Merging : Type 0 where
  pub merged : List Range
  pub cur_addr : ℕ
  pub cur_end : ℕ

pub append_current : Merging → List Range
append_current m = m.merged ++ (record { addr = m.cur_addr; size = m.cur_end - m.cur_addr } ∷ [])

pub merge : Merging → Range → Merging
unfolding append_current
merge m r =
    let end = r.addr + r.size in
    if leb r.addr m.cur_end
    then record { merged = m.merged; cur_addr = m.cur_addr; cur_end = max m.cur_end end }
    else record { merged = append_current m; cur_addr = r.addr; cur_end = end }

pub merge_sorted : List Range → List Range
unfolding merge append_current
merge_sorted [] = []
merge_sorted (r ∷ rest) =
    append_current
      (foldl merge (record { merged = []; cur_addr = r.addr; cur_end = r.addr + r.size }) rest)

pub coalesce_ranges : List Range → List Range
unfolding merge_sorted sorted
coalesce_ranges ranges = merge_sorted (sorted ranges)

pub split_from : ℕ → ℕ → ℕ → ℕ → List Range
split_from addr chunk i zero = []
split_from addr chunk i (suc left) =
    record { addr = addr + i * chunk; size = chunk } ∷ split_from addr chunk (suc i) left

pub split_range : ℕ → ℕ → ℕ → Result (List Range)
unfolding split_from
split_range addr size parts =
    guard (ltb 0 parts) zero_division_error
    >> guard (size % parts == 0) value_error
    >> ok (split_from addr (size / parts) 0 parts)
