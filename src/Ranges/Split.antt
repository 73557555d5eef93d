-- ===== src/Ranges/Split.antt =====
-- A range cut into parts, and coalesced again.
use openipc_tftp.Common.{
  ℕ, zero, suc, ◌+◌, ◌*◌, ◌/◌, ◌%◌, ◌≤◌, ◌<◌, ◌≡◌, refl, ap, ◌∙◌, List, [], ◌∷◌, foldl, arith, ok,
  length, All, Ensures, Bool-cases, inl, inr, ltb, ◌==◌,
}
use native.Mathlib.Nat.{div-add-mod}
use openipc_tftp.Ranges.{
  Range, insert, range_leb, sorted, Merging, append_current, merge, merge_sorted, coalesce_ranges,
  split_from, split_range,
}

insert-split_from :
    (addr chunk start i left : ℕ)
    → start ≤ addr + i * chunk
    → insert (record { addr = start; size = chunk }) (split_from addr chunk i left)
      ≡ record { addr = start; size = chunk } ∷ split_from addr chunk i left
unfolding insert split_from range_leb
insert-split_from addr chunk start i zero h = refl
insert-split_from addr chunk start i (suc left) h = ground arith

next_start : (addr chunk i : ℕ) → addr + suc i * chunk ≡ addr + i * chunk + chunk
next_start addr chunk i = omega arith

sorted-split_from :
    (addr chunk i left : ℕ) → sorted (split_from addr chunk i left) ≡ split_from addr chunk i left
unfolding sorted split_from
sorted-split_from addr chunk i zero = refl
sorted-split_from addr chunk i (suc left) =
    ap (insert _) (sorted-split_from addr chunk (suc i) left)
    ∙ insert-split_from addr chunk (addr + i * chunk) (suc i) left
        (let e = next_start addr chunk i in omega arith)

up_to : ℕ → ℕ → Merging
up_to addr end = record { merged = []; cur_addr = addr; cur_end = end }

merge-next :
    (addr chunk i : ℕ)
    → merge (up_to addr (addr + i * chunk)) (record { addr = addr + i * chunk; size = chunk })
      ≡ up_to addr (addr + suc i * chunk)
unfolding merge up_to
merge-next addr chunk i = ground arith

loop-split_from :
    (addr chunk i left : ℕ)
    → foldl merge (up_to addr (addr + i * chunk)) (split_from addr chunk i left)
      ≡ up_to addr (addr + (i + left) * chunk)
unfolding split_from
loop-split_from addr chunk i zero = ap (λ n. up_to addr (addr + n * chunk)) (omega arith)
loop-split_from addr chunk i (suc left) =
    ap (λ m. foldl merge m (split_from addr chunk (suc i) left)) (merge-next addr chunk i)
    ∙ (loop-split_from addr chunk (suc i) left
        ∙ ap (λ n. up_to addr (addr + n * chunk)) (omega arith))

merge_split_from :
    (addr chunk left : ℕ)
    → merge_sorted (split_from addr chunk 0 (suc left))
      ≡ append_current (up_to addr (addr + (1 + left) * chunk))
unfolding merge_sorted split_from up_to
merge_split_from addr chunk left =
    ap
      (λ a. append_current (
        foldl merge (record { merged = []; cur_addr = a; cur_end = a + chunk })
          (split_from addr chunk 1 left)))
      (omega arith)
    ∙ (ap (λ e. append_current (foldl merge (up_to addr e) (split_from addr chunk 1 left)))
          (omega arith)
        ∙ ap append_current (loop-split_from addr chunk 1 left))

length-split_from : (addr chunk i left : ℕ) → length (split_from addr chunk i left) ≡ left
unfolding split_from
length-split_from addr chunk i zero = refl
length-split_from addr chunk i (suc left) = ap suc (length-split_from addr chunk (suc i) left)

coalesce-split_from :
    (addr size parts : ℕ)
    → 0 < parts
    → size % parts ≡ 0
    → coalesce_ranges (split_from addr (size / parts) 0 parts)
      ≡ record { addr = addr; size = size } ∷ []
unfolding coalesce_ranges append_current up_to
coalesce-split_from addr size zero h k = absurd (omega arith)
coalesce-split_from addr size (suc left) h k =
    let whole = div-add-mod size (suc left) in
    ap merge_sorted (sorted-split_from addr (size / suc left) 0 (suc left))
    ∙ (merge_split_from addr (size / suc left) left
        ∙ ap (λ n. record { addr = addr; size = n } ∷ []) (omega arith))

-- For a number of parts above 0 that divides the size, split_range returns that many ranges, and
-- coalesce_ranges makes of them the one range that was split.
coalesce-split_range :
    (addr size parts : ℕ)
    → 0 < parts
    → size % parts ≡ 0
    → (ps : List Range) × (split_range addr size parts ≡ ok ps)
      × (length ps ≡ parts)
      × (coalesce_ranges ps ≡ record { addr = addr; size = size } ∷ [])
unfolding split_range
coalesce-split_range addr size parts h k = (
  split_from addr (size / parts) 0 parts,
  ground arith,
  length-split_from addr (size / parts) 0 parts,
  coalesce-split_from addr size parts h k,
)

split_from-sizes :
    (addr chunk i left : ℕ) → All (λ (r : Range). r.size ≡ chunk) (split_from addr chunk i left)
unfolding split_from
split_from-sizes addr chunk i zero = tt
split_from-sizes addr chunk i (suc left) = (refl, split_from-sizes addr chunk (suc i) left)

-- What split_range returns, if it does not raise.
pub record IsSplit (addr size parts : ℕ) (ps : List Range) : Type 0 where
  pub joins : coalesce_ranges ps ≡ record { addr = addr; size = size } ∷ []
  pub sizes : All (λ (r : Range). r.size ≡ size / parts) ps

pub split_range-IsSplit :
    (addr size parts : ℕ) → Ensures (IsSplit addr size parts) (split_range addr size parts)
unfolding split_range
split_range-IsSplit addr size parts = elim (Bool-cases (ltb 0 parts)) [
  | inr none_at_all ↦ rw none_at_all tt
  | inl some_parts ↦ rw some_parts (elim (Bool-cases (size % parts == 0)) [
    | inr broken ↦ rw broken tt
    | inl whole ↦ rw whole (record {
      joins = coalesce-split_from addr size parts (ground arith) (ground arith);
      sizes = split_from-sizes addr (size / parts) 0 parts;
    })
  ])
]
