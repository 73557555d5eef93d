-- ===== src/Active/Rounds.antt =====
-- What one round of the search keeps of its ranges.
use openipc_tftp.Common.{
  ℕ, zero, suc, ◌+◌, ◌/◌, ◌≤◌, ◌<◌, ◌≡◌, refl, sym, ap, ◌∙◌, Bool, true, false, ◌&&◌, ◌||◌, List,
  [], ◌∷◌, ◌++◌, Result, ok, err, arith, inl, inr, Bool-cases, All, All-append, flatten, length,
  take, drop, take-append-drop, leb, ltb, ◌==◌, Ensures, length-drop,
}
use native.Mathlib.Nat.{div-add-mod}
use openipc_tftp.Common.Text.{Text}
use openipc_tftp.Ranges.{Range, split_range}
use openipc_tftp.Ranges.Covers.{covers}
use openipc_tftp.Ranges.Coalesced.{coalesce_ranges_lem}
use openipc_tftp.Ranges.Split.{IsSplit, split_range-IsSplit}
use openipc_tftp.Tasks.{from_result, exec, env_value}
use openipc_tftp.Tasks.Always.{Always, Anything, Always-bind, result-Always, env_value-Always}
use openipc_tftp.Active.{
  joined, read_crcs, crc_of, commands_from, keys_from, batches, batched, differing, crc32,
  changed_in, split_all, joined,
}

-- Every address of the first list is one of the second.
abbrev pub Within : List Range → List Range → Type 0
Within rs qs = (x : ℕ) → covers x rs ≡ true → covers x qs ≡ true

-- No range is as large as that.
abbrev pub Below : ℕ → List Range → Type 0
Below n rs = All (λ (r : Range). r.size < n) rs

covers-append : (x : ℕ) (rs qs : List Range) → covers x (rs ++ qs) ≡ covers x rs || covers x qs
unfolding covers
covers-append x [] qs = refl
covers-append x (r ∷ rs) qs = let ih = covers-append x rs qs in ground arith

append-Within :
    (rs qs rs' qs' : List Range) → Within rs rs' → Within qs qs' → Within (rs ++ qs) (rs' ++ qs')
append-Within rs qs rs' qs' h k x e =
    let a = covers-append x rs qs in
    let b = covers-append x rs' qs' in let f = h x in let g = k x in ground arith

differing-Within : (rs : List Range) (xs ys : List ℕ) → Within (differing rs xs ys) rs
unfolding differing covers
differing-Within [] xs ys x e = e
differing-Within (r ∷ rs) [] ys x e = cc
differing-Within (r ∷ rs) (a ∷ xs) [] x e = cc
differing-Within (r ∷ rs) (a ∷ xs) (b ∷ ys) x e =
    let ih = differing-Within rs xs ys x in ground arith

differing-Below :
    (n : ℕ) (rs : List Range) (xs ys : List ℕ) → Below n rs → Below n (differing rs xs ys)
unfolding differing
differing-Below n [] xs ys h = tt
differing-Below n (r ∷ rs) [] ys h = tt
differing-Below n (r ∷ rs) (a ∷ xs) [] h = tt
differing-Below n (r ∷ rs) (a ∷ xs) (b ∷ ys) (h, hs) =
    let ih = differing-Below n rs xs ys hs in
    elim (Bool-cases (a == b)) [ inl e ↦ rw e ih | inr e ↦ rw e (h, ih) ]

flatten-batches :
    (fuel size : ℕ) (items : List Range)
    → 0 < size
    → length items ≤ fuel
    → flatten (batches fuel size items) ≡ items
unfolding batches
flatten-batches fuel size [] p h = refl
flatten-batches zero size (r ∷ rs) p h = absurd (omega arith)
flatten-batches (suc fuel) size (r ∷ rs) p h =
    ap (◌++◌ (take size (r ∷ rs)))
      (flatten-batches fuel size (drop size (r ∷ rs)) p (omega (arith, length-drop size (r ∷ rs))))
    ∙ take-append-drop size (r ∷ rs)

pub batched-Ensures :
    (items : List Range) (size : ℕ) → Ensures (λ gs. flatten gs ≡ items) (batched items size)
unfolding batched
batched-Ensures items zero = tt
batched-Ensures items (suc size) =
    let e : (suc size == 0) ≡ false = ground arith in
    rw e (flatten-batches (length items) (suc size) items (omega arith) (omega arith))

Below-append : (n : ℕ) (rs qs : List Range) → Below n (rs ++ qs) → Below n rs × Below n qs
Below-append n [] qs h = (tt, h)
Below-append n (r ∷ rs) qs (h, hs) = let (a, b) = Below-append n rs qs hs in ((h, a), b)

read_crcs-Always : (le : Bool) (keys : List Text) → Always Anything (read_crcs le keys)
unfolding read_crcs
read_crcs-Always le [] = tt
read_crcs-Always le (key ∷ keys) =
    Always-bind Anything Anything (env_value key) _ (env_value-Always key) λ raw _.
      Always-bind Anything Anything (from_result (crc_of le raw)) _ (result-Always (crc_of le raw))
        λ crc _.
          Always-bind Anything Anything (read_crcs le keys) _ (read_crcs-Always le keys)
            λ crcs _. tt

crc32-Always :
    (rambase : Text) (rs : List Range) (le : Bool) → Always Anything (crc32 rambase rs le)
unfolding crc32
crc32-Always rambase rs le =
    Always-bind Anything Anything
      (exec (commands_from rambase 0 rs) false (keys_from 0 (length rs))) _ (λ r. result-Always r)
      λ u _. read_crcs-Always le (keys_from 0 (length rs))

-- What one round keeps of its ranges.
pub record Keeps (n : ℕ) (rs changed : List Range) : Type 0 where
  pub within : Within changed rs
  pub below : Below n changed

pub changed_in-Keeps :
    (rambase : Text) (n : ℕ) (groups : List (List Range))
    → Below n (flatten groups)
    → Always (Keeps n (flatten groups)) (changed_in rambase groups)
unfolding changed_in
changed_in-Keeps rambase n [] h = record { within = λ x e. e; below = tt }
changed_in-Keeps rambase n (g ∷ gs) h =
    let P : List Range → Type 0 = Keeps n (g ++ flatten gs) in
    let (hg, hgs) = Below-append n g (flatten gs) h in
    Always-bind Anything P (crc32 rambase g true) _ (crc32-Always rambase g true) λ xs _.
      Always-bind Anything P (crc32 rambase g true) _ (crc32-Always rambase g true) λ ys _.
        Always-bind (Keeps n (flatten gs)) P (changed_in rambase gs) _
          (changed_in-Keeps rambase n gs hgs)
          λ changed k. record {
            within =
                append-Within (differing g xs ys) changed g (flatten gs) (differing-Within g xs ys)
                  k.within;
            below =
                All-append (λ (r : Range). r.size < n) (differing g xs ys) changed
                  (differing-Below n g xs ys hg) k.below;
          }

part_lt : (size n parts : ℕ) → 2 ≤ parts → 0 < n → size < suc n → size / parts < n
part_lt size n parts h p s = let e = div-add-mod size parts in grind arith

All-Below : (c n : ℕ) (rs : List Range) → c < n → All (λ (r : Range). r.size ≡ c) rs → Below n rs
All-Below c n [] h a = tt
All-Below c n (r ∷ rs) h (e, a) = (rw e h, All-Below c n rs h a)

one_range :
    (x addr size : ℕ)
    → covers x (record { addr = addr; size = size } ∷ []) ≡ leb addr x && ltb x (addr + size)
unfolding covers
one_range x addr size = ground arith

-- The parts of a range cover what it covers, and each is smaller than it was.
split_range-Keeps :
    (r : Range) (parts n : ℕ)
    → 2 ≤ parts
    → 0 < n
    → r.size < suc n
    → Ensures (Keeps n (r ∷ [])) (split_range r.addr r.size parts)
split_range-Keeps r parts n h p s =
    split-Keeps (split_range r.addr r.size parts) (split_range-IsSplit r.addr r.size parts)
  where
    split-Keeps :
        (result : Result (List Range))
        → Ensures (IsSplit r.addr r.size parts) result
        → Ensures (Keeps n (r ∷ [])) result
    split-Keeps (err e) i = tt
    split-Keeps (ok ps) i = record {
      within = λ x c. ap (covers x) (sym i.joins) ∙ ((coalesce_ranges_lem ps).0 x ∙ c);
      below = All-Below (r.size / parts) n ps (part_lt r.size n parts h p s) i.sizes;
    }

pub split_all-Keeps :
    (rs : List Range) (parts n : ℕ)
    → 2 ≤ parts
    → 0 < n
    → Below (suc n) rs
    → Ensures (Keeps n rs) (split_all rs parts)
unfolding split_all
split_all-Keeps [] parts n h p b = record { within = λ x e. e; below = tt }
split_all-Keeps (r ∷ rs) parts n h p (b, bs) =
    both (split_range r.addr r.size parts) (split_all rs parts) (split_range-Keeps r parts n h p b)
      (split_all-Keeps rs parts n h p bs)
  where
    both :
        (first rest : Result (List Range))
        → Ensures (Keeps n (r ∷ [])) first
        → Ensures (Keeps n rs) rest
        → Ensures (Keeps n (r ∷ rs)) (joined first rest)
    both (err e) rest i j = tt
    both (ok ps) (err e) i j = tt
    both (ok ps) (ok qs) i j = record {
      within = append-Within ps qs (r ∷ []) rs i.within j.within;
      below = All-append (λ (q : Range). q.size < n) ps qs i.below j.below;
    }
