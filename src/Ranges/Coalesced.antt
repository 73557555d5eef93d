-- ===== src/Ranges/Coalesced.antt =====
-- The loop of coalesce_ranges, and the ranges that it leaves.
use openipc_tftp.Common.{
  ◌⊎◌, inl, inr, ℕ, ◌+◌, ◌-◌, ◌≤◌, ◌≡◌, refl, ap, ◌∙◌, Bool, true, false, ◌&&◌, ◌||◌, List, [], ◌∷◌,
  ◌++◌, foldl, leb, ltb, arith,
}
use openipc_tftp.Ranges.{
  Range, sorted, Merging, append_current, merge, merge_sorted, coalesce_ranges,
}
use openipc_tftp.Ranges.Covers.{covers, ascends, covers-merge, covers-sorted, sorted-ascends}

abbrev first : Range → Merging
first r = record { merged = []; cur_addr = r.addr; cur_end = r.addr + r.size }

leb_cases : (a b : ℕ) → (leb a b ≡ true) ⊎ (leb a b ≡ false)
leb_cases a b = ground arith

-- Where the loop may stand: the current range is one, and the rest starts at or behind it.
record Goes (m : Merging) (rest : List Range) : Type 0 where
  is_range : m.cur_addr ≤ m.cur_end
  sorted_rest : ascends m.cur_addr rest ≡ true

ascends_less : (lo a : ℕ) (rs : List Range) → lo ≤ a → ascends a rs ≡ true → ascends lo rs ≡ true
unfolding ascends
ascends_less lo a [] h k = refl
ascends_less lo a (r ∷ rest) h k = ground arith

merge-Goes :
    (m : Merging) (r : Range) (rest : List Range) → Goes m (r ∷ rest) → Goes (merge m r) rest
unfolding merge ascends
merge-Goes m r rest g = record {
  is_range = let a = g.is_range in let b = g.sorted_rest in ground arith;
  sorted_rest =
      let a = g.is_range in
      let b = g.sorted_rest in
      ascends_less (merge m r).cur_addr r.addr rest (ground arith) (ground arith);
}

starts : (m : Merging) (r : Range) (rest : List Range) → Goes m (r ∷ rest) → m.cur_addr ≤ r.addr
unfolding ascends
starts m r rest g = let b = g.sorted_rest in ground arith

||-assoc : (a b c : Bool) → ((a || b) || c) ≡ a || (b || c)
||-assoc a b c = ground arith

covers-loop :
    (x : ℕ) (m : Merging) (rs : List Range)
    → Goes m rs
    → covers x (append_current (foldl merge m rs)) ≡ covers x (append_current m) || covers x rs
unfolding covers
covers-loop x m [] g = ground arith
covers-loop x m (r ∷ rest) g =
    let ih = covers-loop x (merge m r) rest (merge-Goes m r rest g) in
    let one = covers-merge x m r g.is_range (starts m r rest g) in
    ih ∙ (ap (λ b. b || covers x rest) one ∙ ground arith)

-- Every range of the list ends before the address.
ends_before : ℕ → List Range → Bool
ends_before a [] = true
ends_before a (r ∷ rest) = ltb (r.addr + r.size) a && ends_before a rest

-- Every range of the list starts behind the address.
pub starts_behind : ℕ → List Range → Bool
starts_behind a [] = true
starts_behind a (r ∷ rest) = ltb a r.addr && starts_behind a rest

-- Between any two ranges lies an address that neither reaches, the ranges in ascending order.
unfoldable pub apart : List Range → Bool
apart [] = true
apart (r ∷ rest) = starts_behind (r.addr + r.size) rest && apart rest

starts_behind-append :
    (a : ℕ) (rs qs : List Range)
    → starts_behind a rs ≡ true
    → starts_behind a qs ≡ true
    → starts_behind a (rs ++ qs) ≡ true
unfolding starts_behind
starts_behind-append a [] qs h k = k
starts_behind-append a (r ∷ rest) qs h k = let ih = starts_behind-append a rest qs in ground arith

apart-append :
    (rs : List Range) (r : Range)
    → apart rs ≡ true
    → ends_before r.addr rs ≡ true
    → apart (rs ++ (r ∷ [])) ≡ true
unfolding apart ends_before starts_behind
apart-append [] r h k = refl
apart-append (q ∷ rest) r h k =
    let ih = apart-append rest r in
    let behind = starts_behind-append (q.addr + q.size) rest (r ∷ []) in ground arith

ends_before-append :
    (a : ℕ) (rs : List Range) (r : Range)
    → ends_before a rs ≡ true
    → r.addr + r.size ≤ a - 1
    → 1 ≤ a
    → ends_before a (rs ++ (r ∷ [])) ≡ true
unfolding ends_before
ends_before-append a [] r h k l = ground arith
ends_before-append a (q ∷ rest) r h k l = let ih = ends_before-append a rest r in ground arith

ends_before_more :
    (a b : ℕ) (rs : List Range) → a ≤ b → ends_before a rs ≡ true → ends_before b rs ≡ true
unfolding ends_before
ends_before_more a b [] h k = refl
ends_before_more a b (r ∷ rest) h k = let ih = ends_before_more a b rest in ground arith

-- The ranges merged so far lie apart, and before the current one.
record IsApart (m : Merging) : Type 0 where
  merged_apart : apart m.merged ≡ true
  before_current : ends_before m.cur_addr m.merged ≡ true

append_current-apart : (m : Merging) → IsApart m → apart (append_current m) ≡ true
unfolding append_current
append_current-apart m i = apart-append m.merged _ i.merged_apart i.before_current

merge-IsApart : (m : Merging) (r : Range) → m.cur_addr ≤ m.cur_end → IsApart m → IsApart (merge m r)
unfolding merge
merge-IsApart m r h i = elim (leb_cases r.addr m.cur_end) [
  | inl near ↦
      rw (near) (record { merged_apart = i.merged_apart; before_current = i.before_current })
  | inr far ↦ rw (far) (record {
    merged_apart = append_current-apart m i;
    before_current =
        ends_before-append r.addr m.merged _
          (ends_before_more m.cur_addr r.addr m.merged (ground arith) i.before_current)
          (ground arith) (ground arith);
  })
]

apart-loop :
    (m : Merging) (rs : List Range)
    → Goes m rs
    → IsApart m
    → apart (append_current (foldl merge m rs)) ≡ true
apart-loop m [] g i = append_current-apart m i
apart-loop m (r ∷ rest) g i =
    apart-loop (merge m r) rest (merge-Goes m r rest g) (merge-IsApart m r g.is_range i)

merge_sorted_lem :
    (rs : List Range)
    → ascends 0 rs ≡ true
    → ((x : ℕ) → covers x (merge_sorted rs) ≡ covers x rs) × (apart (merge_sorted rs) ≡ true)
unfolding merge_sorted ascends covers append_current apart ends_before
merge_sorted_lem [] h = (λ x. refl, refl)
merge_sorted_lem (r ∷ rest) h =
    let g : Goes (first r) rest = record { is_range = omega arith; sorted_rest = ground arith } in
    (
      λ x. covers-loop x (first r) rest g ∙ ground arith,
      apart-loop (first r) rest g (record { merged_apart = refl; before_current = refl }),
    )

-- For all ranges, coalesce_ranges covers the same addresses as the ranges it was given, and returns
-- ranges in ascending order between any two of which an address lies that neither covers.
pub coalesce_ranges_lem :
    (rs : List Range)
    → ((x : ℕ) → covers x (coalesce_ranges rs) ≡ covers x rs) × (apart (coalesce_ranges rs) ≡ true)
unfolding coalesce_ranges
coalesce_ranges_lem rs =
    let both = merge_sorted_lem (sorted rs) (sorted-ascends rs) in
    (λ x. both.0 x ∙ covers-sorted x rs, both.1)
