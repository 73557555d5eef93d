-- ===== src/Env/Flash/Magic.antt =====
-- Where the partition behind the boot loader and its environment begins.
use openipc_tftp.Common.{
  ℕ, zero, suc, ◌+◌, ◌-◌, ◌≤◌, ◌<◌, ◌≡◌, refl, sym, ap, ◌∙◌, ◌⊎◌, min, Bool, true, false, ◌||◌,
  List, [], ◌∷◌, Option, none, some, arith, inl, inr, Bool-cases, any_of, drop, is_empty, All,
}
use openipc_tftp.Common.Text.{Bytes, starts_with}
use openipc_tftp.Env.Flash.{
  find_in, find_from, least, first_of_magics, post_boot_magics, find_first_post_boot_magic,
}

-- The first position from the start on that passes the test, or that there is none.
abbrev pub IsFirst : (ℕ → Bool) → ℕ → Option ℕ → Type 0
IsFirst test start none = (q : ℕ) → start ≤ q → test q ≡ false
IsFirst test start (some p) =
    (start ≤ p) × (test p ≡ true) × ((q : ℕ) → start ≤ q → q < p → test q ≡ false)

IsFirst-ext :
    (f g : ℕ → Bool) (start : ℕ) (found : Option ℕ)
    → ((q : ℕ) → start ≤ q → g q ≡ f q)
    → IsFirst f start found
    → IsFirst g start found
IsFirst-ext f g start none e h = λ q s. e q s ∙ h q s
IsFirst-ext f g start (some p) e (s, t, h) = (s, e p s ∙ t, λ q sq b. e q sq ∙ h q sq b)

neither : (a b : Bool) → a ≡ false → b ≡ false → (a || b) ≡ false
neither a b e f = rw (e, f) refl

min_cases : (p q : ℕ) → (min p q ≡ p) × (p ≤ q) ⊎ (min p q ≡ q) × (q ≤ p)
min_cases p q = ground arith

least-IsFirst :
    (f g : ℕ → Bool) (start : ℕ) (a b : Option ℕ)
    → IsFirst f start a
    → IsFirst g start b
    → IsFirst (λ q. f q || g q) start (least a b)
least-IsFirst f g start none none h k = λ q s. neither (f q) (g q) (h q s) (k q s)
least-IsFirst f g start none (some p) h (s, t, k) =
    (s, rw (h p s) t, λ q sq b. neither (f q) (g q) (h q sq) (k q sq b))
least-IsFirst f g start (some p) none (s, t, k) h =
    (s, rw t refl, λ q sq b. neither (f q) (g q) (k q sq b) (h q sq))
least-IsFirst f g start (some p) (some p') (s, t, k) (s', t', k') = elim (min_cases p p') [
  | inl (e, le) ↦
      rw e (s, rw t refl, λ q sq b. neither (f q) (g q) (k q sq b) (k' q sq (omega arith)))
  | inr (e, le) ↦ rw e (
    s',
    or_right (f p') (g p') t',
    λ q sq b. neither (f q) (g q) (k q sq (omega arith)) (k' q sq b),
  )
]
  where
    or_right : (a b : Bool) → b ≡ true → (a || b) ≡ true
    or_right a b h = ground arith

drop_step : (q at c : ℕ) (s : Bytes) → at < q → drop (q - at) (c ∷ s) ≡ drop (q - suc at) s
drop_step q at c s h = let e : q - at ≡ suc (q - suc at) = omega arith in rw e refl

-- A magic number that is not empty stands nowhere in an empty text.
starts-nothing :
    (magic : Bytes) (n : ℕ) → is_empty magic ≡ false → starts_with magic (drop n []) ≡ false
unfolding starts_with
starts-nothing [] n h = cc
starts-nothing (c ∷ m) zero h = refl
starts-nothing (c ∷ m) (suc n) h = refl

find_in-IsFirst :
    (magic : Bytes) (at : ℕ) (s : Bytes)
    → is_empty magic ≡ false
    → IsFirst (λ q. starts_with magic (drop (q - at) s)) at (find_in magic at s)
unfolding find_in
find_in-IsFirst magic at [] h = λ q sq. starts-nothing magic (q - at) h
find_in-IsFirst magic at (c ∷ s) h = elim (Bool-cases (starts_with magic (c ∷ s))) [
  | inl here ↦ rw here (omega arith, at_start here, λ q sq b. absurd (omega arith))
  | inr later ↦
      rw later (later_first (find_in magic (suc at) s) later (find_in-IsFirst magic (suc at) s h))
]
  where
    zero_dropped : drop (at - at) (c ∷ s) ≡ c ∷ s
    zero_dropped = let e : at - at ≡ 0 = omega arith in rw e refl

    at_start : starts_with magic (c ∷ s) ≡ true → starts_with magic (drop (at - at) (c ∷ s)) ≡ true
    at_start e = rw zero_dropped e

    test_at : (q : ℕ) → starts_with magic (c ∷ s) ≡ false → at ≤ q → (q ≡ at) ⊎ (at < q)
    test_at q e le = omega arith

    rest_of :
        (q : ℕ)
        → at < q
        → starts_with magic (drop (q - at) (c ∷ s)) ≡ starts_with magic (drop (q - suc at) s)
    rest_of q lt = ap (starts_with magic) (drop_step q at c s lt)

    not_here :
        (q : ℕ)
        → starts_with magic (c ∷ s) ≡ false
        → q ≡ at
        → starts_with magic (drop (q - at) (c ∷ s)) ≡ false
    not_here q e i = rw i (rw zero_dropped e)

    later_first :
        (found : Option ℕ)
        → starts_with magic (c ∷ s) ≡ false
        → IsFirst (λ q. starts_with magic (drop (q - suc at) s)) (suc at) found
        → IsFirst (λ q. starts_with magic (drop (q - at) (c ∷ s))) at found
    later_first none e k = λ q sq. elim (test_at q e sq) [
      | inl i ↦ not_here q e i
      | inr lt ↦ rest_of q lt ∙ k q (omega arith)
    ]
    later_first (some p) e (s', t, k) = (
      omega arith,
      rest_of p (omega arith) ∙ t,
      λ q sq b. elim (test_at q e sq) [
        | inl i ↦ not_here q e i
        | inr lt ↦ rest_of q lt ∙ k q (omega arith) b
      ],
    )

drop-drop : (a b : ℕ) (s : Bytes) → drop a (drop b s) ≡ drop (b + a) s
drop-drop a zero s = ap (λ n. drop n s) (omega arith)
drop-drop zero (suc b) [] = ground arith
drop-drop (suc a) (suc b) [] = let e : suc b + suc a ≡ suc (suc b + a) = omega arith in rw e refl
drop-drop a (suc b) (c ∷ s) =
    let e : suc b + a ≡ suc (b + a) = omega arith in rw e (drop-drop a b s)

find_from-IsFirst :
    (image magic : Bytes) (start : ℕ)
    → is_empty magic ≡ false
    → IsFirst (λ q. starts_with magic (drop q image)) start (find_from image magic start)
unfolding find_from
find_from-IsFirst image magic start h =
    IsFirst-ext (λ q. starts_with magic (drop (q - start) (drop start image)))
      (λ q. starts_with magic (drop q image)) start _
      (λ q s.
        ap (starts_with magic)
          (sym (drop-drop (q - start) start image ∙ ap (λ n. drop n image) (omega arith))))
      (find_in-IsFirst magic start (drop start image) h)

first_of_magics-IsFirst :
    (image : Bytes) (start : ℕ) (magics : List Bytes)
    → All (λ magic. is_empty magic ≡ false) magics
    → IsFirst
        (λ q. any_of (λ magic. starts_with magic (drop q image)) magics)
        start
        (first_of_magics image start magics)
unfolding first_of_magics
first_of_magics-IsFirst image start [] h = λ q s. refl
first_of_magics-IsFirst image start (magic ∷ magics) (h, hs) =
    least-IsFirst (λ q. starts_with magic (drop q image))
      (λ q. any_of (λ m. starts_with m (drop q image)) magics) start _ _
      (find_from-IsFirst image magic start h) (first_of_magics-IsFirst image start magics hs)

-- For any image and boot offset, _find_first_post_boot_magic gives the first position from 64 KiB
-- behind the boot offset on at which one of the four magic numbers stands, and None exactly if
-- there is no such position.
pub find_first_post_boot_magic-IsFirst :
    (image : Bytes) (boot_offset : ℕ)
    → IsFirst
        (λ q. any_of (λ magic. starts_with magic (drop q image)) post_boot_magics)
        (boot_offset + 0x10000)
        (find_first_post_boot_magic image boot_offset)
unfolding find_first_post_boot_magic
find_first_post_boot_magic-IsFirst image boot_offset =
    first_of_magics-IsFirst image (boot_offset + 0x10000) post_boot_magics
      (refl, (refl, (refl, (refl, tt))))
