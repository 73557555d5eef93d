-- ===== src/Common/Text.antt =====
-- Python's str as a list of code points and bytes as a list of numbers below 256, with the
-- methods that the program calls on both.
use Prim.Native.Nat.{ℕ, ◌+◌}
use Prim.Native.Char.{code}
use Prim.Native.String.{String}
use mathlib.Core.Path.{◌≡◌, refl}
use mathlib.Core.Logic.{◌↔◌, ◌≢◌}
use mathlib.Core.Bool.{Bool, true, false, ◌&&◌, ◌||◌}
use mathlib.Core.List.{List, [], ◌∷◌, ◌++◌}
use native.Mathlib.Omega.{arith}
use openipc_tftp.Common.Tests.{leb, ◌==◌, if◌then◌else◌, ==_refl}
use openipc_tftp.Common.Lists.{is_empty, All}

abbrev pub Text : Type 0
Text = List ℕ

abbrev pub Bytes : Type 0
Bytes = List ℕ

-- The code points of a literal.
abbrev pub codes : String → Text
codes String.[] = []
codes (String.◌∷◌ c s) = code c ∷ codes s

-- `s == t`
unfoldable pub text_eq : Text → Text → Bool
text_eq [] [] = true
text_eq [] (d ∷ t) = false
text_eq (c ∷ s) [] = false
text_eq (c ∷ s) (d ∷ t) = c == d && text_eq s t

pub text_eq_refl : (s : Text) → text_eq s s ≡ true
unfolding text_eq
text_eq_refl [] = refl
text_eq_refl (c ∷ s) = ground (arith, text_eq_refl s)

pub eq_of_text_eq : (s t : Text) → text_eq s t ≡ true → s ≡ t
unfolding text_eq
eq_of_text_eq [] [] h = refl
eq_of_text_eq [] (d ∷ t) h = cc
eq_of_text_eq (c ∷ s) [] h = cc
eq_of_text_eq (c ∷ s) (d ∷ t) h = ground (arith, eq_of_text_eq s t)

pub text_eq_iff : (s t : Text) → (text_eq s t ≡ true) ↔ (s ≡ t)
text_eq_iff s t = (eq_of_text_eq s t, λ e. rw (← e) (text_eq_refl s))

-- Strips leading, trailing or both kinds of characters that pass a test.
unfoldable pub lstrip : (ℕ → Bool) → Text → Text
lstrip p [] = []
lstrip p (c ∷ s) = let rest = lstrip p s in if p c then rest else c ∷ s

unfoldable pub rstrip : (ℕ → Bool) → Text → Text
rstrip p [] = []
rstrip p (c ∷ s) = let rest = rstrip p s in if is_empty rest && p c then [] else c ∷ rest

unfoldable pub strip : (ℕ → Bool) → Text → Text
unfolding lstrip rstrip
strip p s = rstrip p (lstrip p s)

-- `s.split(sep)` for one character; there is always at least one part.
unfoldable pub push : ℕ → List Text → List Text
push c [] = (c ∷ []) ∷ []
push c (w ∷ ws) = (c ∷ w) ∷ ws

unfoldable pub split_on : ℕ → Text → List Text
unfolding push
split_on sep [] = [] ∷ []
split_on sep (c ∷ s) = let rest = split_on sep s in if c == sep then [] ∷ rest else push c rest

-- `sep.join(parts)`
unfoldable pub join : Text → List Text → Text
join sep [] = []
join sep (w ∷ []) = w
join sep (w ∷ v ∷ ws) = w ++ (sep ++ join sep (v ∷ ws))

-- `s.partition(sep)` for one character.
pub record Parts : Type 0 where
  pub before : Text
  pub found : Bool
  pub after : Text

unfoldable pub partition : ℕ → Text → Parts
partition sep [] = record { before = []; found = false; after = [] }
partition sep (c ∷ s) =
    let rest = partition sep s in
    if c == sep
    then record { before = []; found = true; after = s }
    else record rest { before = c ∷ rest.before }

unfoldable pub starts_with : Text → Text → Bool
starts_with [] s = true
starts_with (c ∷ p) [] = false
starts_with (c ∷ p) (d ∷ s) = c == d && starts_with p s

unfoldable pub ends_with : Text → Text → Bool
unfolding text_eq
ends_with suffix [] = text_eq suffix []
ends_with suffix (c ∷ s) = text_eq suffix (c ∷ s) || ends_with suffix s

-- `needle in s`
unfoldable pub contains : Text → Text → Bool
unfolding starts_with
contains needle [] = starts_with needle []
contains needle (c ∷ s) = starts_with needle (c ∷ s) || contains needle s

-- `str.isspace`
abbrev pub is_space : ℕ → Bool
is_space c =
    (leb 9 c && leb c 13)
    || ((leb 28 c && leb c 32)
        || ((c == 133)
            || ((c == 160)
                || ((c == 0x1680)
                    || ((leb 0x2000 c && leb c 0x200a)
                        || ((leb 0x2028 c && leb c 0x2029)
                            || ((c == 0x202f) || ((c == 0x205f) || (c == 0x3000)))))))))

abbrev pub has_char : ℕ → Text → Bool
has_char k [] = false
has_char k (c ∷ s) = c == k || has_char k s

abbrev pub Lacks : ℕ → Text → Type 0
Lacks b = All (λ c. c ≢ b)

-- `s.lower()`. U+212A is the one character outside ASCII whose lower case is one ASCII letter.
abbrev pub lower_char : ℕ → ℕ
lower_char c = if leb b'A' c && leb c b'Z' then c + 32 else if c == 0x212a then b'k' else c

unfoldable pub lower : Text → Text
lower [] = []
lower (c ∷ s) = lower_char c ∷ lower s

-- A partition at a separator that a text lacks before it.
pub partition-append :
    (sep : ℕ) (s t : Text)
    → Lacks sep s
    → partition sep (s ++ sep ∷ t) ≡ record { before = s; found = true; after = t }
unfolding partition
partition-append sep [] t h = rw (==_refl sep)
partition-append sep (c ∷ s) t (hc, hs) = rw (partition-append sep s t hs) (ground arith)

-- The three parts spell the text again, if the separator was found.
pub partition_spells :
    (sep : ℕ) (s : Text)
    → (partition sep s).found ≡ true
    → (partition sep s).before ++ sep ∷ (partition sep s).after ≡ s
unfolding partition
partition_spells sep [] h = cc
partition_spells sep (c ∷ s) h = ground (arith, partition_spells sep s)

pub partition-before-Lacks : (sep : ℕ) (s : Text) → Lacks sep (partition sep s).before
unfolding partition
partition-before-Lacks sep [] = tt
partition-before-Lacks sep (c ∷ s) = ground (arith, partition-before-Lacks sep s)

-- Splitting behind a part that lacks the separator.
pub split_on-append :
    (sep : ℕ) (s t : Text) → Lacks sep s → split_on sep (s ++ sep ∷ t) ≡ s ∷ split_on sep t
unfolding split_on
split_on-append sep [] t h = rw (==_refl sep)
split_on-append sep (c ∷ s) t (hc, hs) = rw (split_on-append sep s t hs) (ground arith)

pub split_on-Lacks' : (sep : ℕ) (s : Text) → Lacks sep s → split_on sep s ≡ s ∷ []
unfolding split_on
split_on-Lacks' sep [] h = refl
split_on-Lacks' sep (c ∷ s) (hc, hs) = rw (split_on-Lacks' sep s hs) (ground arith)

-- No part of a split holds the separator.
pub split_on-Lacks : (sep : ℕ) (s : Text) → All (Lacks sep) (split_on sep s)
unfolding split_on
split_on-Lacks sep [] = (tt, tt)
split_on-Lacks sep (c ∷ s) = pushed (split_on sep s) (split_on-Lacks sep s)
  where
    pushed :
        (l : List Text)
        → All (Lacks sep) l
        → All (Lacks sep) (if c == sep then [] ∷ l else push c l)
    pushed [] h = ground arith
    pushed (w ∷ ws) (hw, hws) = ground arith

pub has_char-Lacks : (b : ℕ) (s : Text) → has_char b s ≡ false → Lacks b s
has_char-Lacks b [] h = tt
has_char-Lacks b (c ∷ s) h = (ground arith, has_char-Lacks b s (ground arith))
