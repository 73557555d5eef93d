-- ===== src/Common/TextSet.antt =====
-- Python's set of str: the members in the order in which they were added.
use Prim.Native.Nat.{ℕ, ◌+◌}
use mathlib.Core.Path.{◌≡◌, refl}
use mathlib.Core.Logic.{inl, inr}
use mathlib.Core.Bool.{Bool, true, false}
use mathlib.Core.List.{List, [], ◌∷◌, ◌++◌}
use native.Mathlib.Omega.{arith}
use openipc_tftp.Common.Tests.{if◌then◌else◌, Bool-cases}
use openipc_tftp.Common.Lists.{length}
use openipc_tftp.Common.Text.{Text, text_eq, text_eq_iff}

abbrev pub TextSet : Type 0
TextSet = List Text

-- `t in s`
unfoldable pub member : Text → TextSet → Bool
member t [] = false
member t (u ∷ s) = if text_eq u t then true else member t s

-- `s.add(t)`
unfoldable pub add : Text → TextSet → TextSet
unfolding member
add t s = if member t s then s else s ++ t ∷ []

-- `s.discard(t)`
unfoldable pub discard : Text → TextSet → TextSet
discard t [] = []
discard t (u ∷ s) = let rest = discard t s in if text_eq u t then rest else u ∷ rest

-- How often a text stands in a list.
unfoldable pub count : Text → List Text → ℕ
count t [] = 0
count t (u ∷ s) = (if text_eq u t then 1 else 0) + count t s

member-append :
    (t u : Text) (s : TextSet) → member t (s ++ u ∷ []) ≡ (if text_eq u t then true else member t s)
unfolding member
member-append t u [] = refl
member-append t u (v ∷ s) = ground (arith, member-append t u s)

pub member-add :
    (t u : Text) (s : TextSet) → member t (add u s) ≡ (if text_eq u t then true else member t s)
unfolding add
member-add t u s = elim (Bool-cases (member u s)) [
  | inl old ↦ rw old (ground (arith, text_eq_iff u t, old))
  | inr new ↦ rw new (member-append t u s)
]

pub member-discard :
    (t u : Text) (s : TextSet)
    → member t (discard u s) ≡ (if text_eq u t then false else member t s)
unfolding member discard
member-discard t u [] = ground arith
member-discard t u (v ∷ s) =
    ground (arith, text_eq_iff v u, text_eq_iff v t, text_eq_iff u t, member-discard t u s)

pub count-append : (t : Text) (s r : List Text) → count t (s ++ r) ≡ count t s + count t r
unfolding count
count-append t [] r = omega arith
count-append t (u ∷ s) r = omega (arith, count-append t s r)

pub count-discard :
    (t u : Text) (s : List Text) → count t (discard u s) ≡ (if text_eq u t then 0 else count t s)
unfolding count discard
count-discard t u [] = ground arith
count-discard t u (v ∷ s) =
    ground (arith, text_eq_iff v u, text_eq_iff v t, text_eq_iff u t, count-discard t u s)

-- Removing a member lowers the size by the number of times it stood there.
pub length-discard : (t : Text) (s : List Text) → length (discard t s) + count t s ≡ length s
unfolding discard count
length-discard t [] = omega arith
length-discard t (u ∷ s) = ground (arith, length-discard t s)

-- A set holds each member once.
abbrev pub IsDistinct : TextSet → Type 0
IsDistinct s = (t : Text) → count t s ≡ (if member t s then 1 else 0)

pub IsDistinct-empty : IsDistinct []
unfolding count member
IsDistinct-empty t = refl

pub add-IsDistinct : (u : Text) (s : TextSet) → IsDistinct s → IsDistinct (add u s)
unfolding add
add-IsDistinct u s h t = elim (Bool-cases (member u s)) [
  | inl old ↦ rw old (h t)
  | inr new ↦ rw new (
      rw (count-append t s (u ∷ []))
        (unfold count in rw (member-append t u s) (ground (arith, text_eq_iff u t, h t, new))))
]

pub discard-IsDistinct : (u : Text) (s : TextSet) → IsDistinct s → IsDistinct (discard u s)
discard-IsDistinct u s h t =
    rw (count-discard t u s) (rw (member-discard t u s) (ground (arith, h t)))
