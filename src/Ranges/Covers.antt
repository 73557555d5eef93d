-- ===== src/Ranges/Covers.antt =====
-- Which addresses a list of ranges covers.
use openipc_tftp.Common.{
  ℕ, ◌+◌, ◌-◌, ◌≤◌, ◌≡◌, refl, ap, ◌∙◌, max, Bool, true, false, ◌&&◌, ◌||◌, List, [], ◌∷◌, ◌++◌,
  leb, ltb, arith,
}
use openipc_tftp.Ranges.{Range, range_leb, insert, sorted, Merging, append_current, merge}

-- Some range of the list holds the address.
unfoldable pub covers : ℕ → List Range → Bool
covers x [] = false
covers x (r ∷ rest) = (leb r.addr x && ltb x (r.addr + r.size)) || covers x rest

-- The ranges start at or behind lo, each at or behind the one before it.
unfoldable pub ascends : ℕ → List Range → Bool
ascends lo [] = true
ascends lo (r ∷ rest) = leb lo r.addr && ascends r.addr rest

covers-append : (x : ℕ) (rs qs : List Range) → covers x (rs ++ qs) ≡ covers x rs || covers x qs
unfolding covers
covers-append x [] qs = refl
covers-append x (r ∷ rest) qs = let ih = covers-append x rest qs in ground arith

covers-insert : (x : ℕ) (r : Range) (rs : List Range) → covers x (insert r rs) ≡ covers x (r ∷ rs)
unfolding covers insert range_leb
covers-insert x r [] = refl
covers-insert x r (q ∷ rest) = let ih = covers-insert x r rest in ground arith

pub covers-sorted : (x : ℕ) (rs : List Range) → covers x (sorted rs) ≡ covers x rs
unfolding covers sorted
covers-sorted x [] = refl
covers-sorted x (r ∷ rest) =
    let ih = covers-sorted x rest in
    covers-insert x r (sorted rest) ∙ ap (λ b. (leb r.addr x && ltb x (r.addr + r.size)) || b) ih

insert-ascends :
    (lo : ℕ) (r : Range) (rs : List Range)
    → lo ≤ r.addr
    → ascends lo rs ≡ true
    → ascends lo (insert r rs) ≡ true
unfolding ascends insert range_leb
insert-ascends lo r [] h a = ground arith
insert-ascends lo r (q ∷ rest) h a = let ih = insert-ascends q.addr r rest in ground arith

pub sorted-ascends : (rs : List Range) → ascends 0 (sorted rs) ≡ true
unfolding ascends sorted
sorted-ascends [] = refl
sorted-ascends (r ∷ rest) = insert-ascends 0 r (sorted rest) (omega arith) (sorted-ascends rest)

pub covers-merge :
    (x : ℕ) (m : Merging) (r : Range)
    → m.cur_addr ≤ m.cur_end
    → m.cur_addr ≤ r.addr
    → covers x (append_current (merge m r)) ≡ covers x (append_current m) || covers x (r ∷ [])
unfolding covers append_current merge
covers-merge x m r h k =
    let one =
      covers-append x m.merged (record { addr = m.cur_addr; size = m.cur_end - m.cur_addr } ∷ []) in
    let two =
      covers-append x m.merged
        (record { addr = m.cur_addr; size = max m.cur_end (r.addr + r.size) - m.cur_addr } ∷ []) in
    let three =
      covers-append x
        (m.merged ++ (record { addr = m.cur_addr; size = m.cur_end - m.cur_addr } ∷ []))
        (record { addr = r.addr; size = r.addr + r.size - r.addr } ∷ []) in
    ground arith
