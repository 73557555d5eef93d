-- ===== src/Config/Toml/Written.antt =====
-- Sections as simple TOML, and the lines that they are written in.
use openipc_tftp.Common.{
  ℕ, ◌≡◌, refl, ap, ◌∙◌, Bool, true, false, not, ◌&&◌, ◌||◌, leb, ltb, List, [], ◌∷◌, ◌++◌, arith,
  map, All, all_of, if◌then◌else◌, ◌==◌,
}
use openipc_tftp.Common.Text.{
  Text, Lacks, codes, text_eq, ends_with, strip, lstrip, rstrip, split_on, split_on-append,
  is_space,
}
use openipc_tftp.Common.Strip.{rstrip_end, map_fixed}
use openipc_tftp.Common.Dict.{Dict, IsUnique}
use openipc_tftp.Common.Digits.{str}
use openipc_tftp.Env.{is_env_key}
use openipc_tftp.Env.Layout.{without_last}
use openipc_tftp.Config.{Value, a_text, a_number, a_flag, Section}
use openipc_tftp.Config.Toml.{is_line_end, lines_in}

-- A text in quotes; the theorem is about texts that need no escapes.
abbrev pub quoted : Text → Text
quoted t = b'"' ∷ (t ++ b'"' ∷ [])

abbrev pub value_text : Value → Text
value_text (a_text t) = quoted t
value_text (a_number n) = str n
value_text (a_flag true) = codes "true"
value_text (a_flag false) = codes "false"

abbrev pub binding_line : Text × Value → Text
binding_line (k, v) = k ++ b'=' ∷ value_text v

abbrev pub name_line : Text → Text
name_line name = b'[' ∷ (name ++ b']' ∷ [])

abbrev pub section_lines : Text × Section → List Text
section_lines (name, section) = name_line name ∷ map binding_line section

abbrev pub file_lines : Dict Section → List Text
file_lines [] = []
file_lines (s ∷ sections) = section_lines s ++ file_lines sections

abbrev pub ended : List Text → Text
ended [] = []
ended (l ∷ ls) = l ++ 10 ∷ ended ls

-- The file that holds these sections.
abbrev pub print : Dict Section → Text
print sections = ended (file_lines sections)

-- A code point that is no surrogate and no control character below the space.
abbrev pub is_character : ℕ → Bool
is_character c = leb 32 c && (ltb c 0xd800 || (leb 0xe000 c && ltb c 0x110000))

-- A character of a text that needs no escape.
abbrev pub is_plain : ℕ → Bool
is_plain c = is_character c && (not (is_line_end c) && (not (c == b'"') && not (c == b'\\')))

-- A flag, or a text without escapes.
abbrev pub IsWritable : Value → Type 0
IsWritable (a_text t) = all_of is_plain t ≡ true
IsWritable (a_number n) = true ≡ false
IsWritable (a_flag b) = Unit

abbrev pub IsWritableSection : Section → Type 0
IsWritableSection section =
    IsUnique section × All (λ (b : Text × Value). (is_env_key b.0 ≡ true) × IsWritable b.1) section

abbrev pub IsFile : Dict Section → Type 0
IsFile sections =
    IsUnique sections
    × All (λ (s : Text × Section). (is_env_key s.0 ≡ true) × IsWritableSection s.1) sections

abbrev pub IsLine : Text → Type 0
IsLine = All (λ c. is_line_end c ≡ false)

pub lines_in-ended : (ls : List Text) → All IsLine ls → lines_in (ended ls) ≡ ls ++ [] ∷ []
unfolding lines_in split_on
lines_in-ended [] h = refl
lines_in-ended (l ∷ ls) (h, hs) =
    ap (split_on 10) mapped
    ∙ (split_on-append 10 l (map (λ c. if is_line_end c then 10 else c) (ended ls)) (lacks l h)
        ∙ ap (◌∷◌ l) (lines_in-ended ls hs))
  where
    fixed : (t : Text) → IsLine t → All (λ c. (if is_line_end c then 10 else c) ≡ c) t
    fixed [] h = tt
    fixed (c ∷ t) (e, es) = (rw e refl, fixed t es)

    map-append :
        (t u : Text)
        → map (λ c. if is_line_end c then 10 else c) (t ++ u)
          ≡ map (λ c. if is_line_end c then 10 else c) t
            ++ map (λ c. if is_line_end c then 10 else c) u
    map-append [] u = refl
    map-append (c ∷ t) u = cc (map-append t u)

    mapped :
        map (λ c. if is_line_end c then 10 else c) (l ++ 10 ∷ ended ls)
        ≡ l ++ 10 ∷ map (λ c. if is_line_end c then 10 else c) (ended ls)
    mapped =
        map-append l (10 ∷ ended ls)
        ∙ ap (λ u. u ++ 10 ∷ map (λ c. if is_line_end c then 10 else c) (ended ls))
            (map_fixed (λ c. if is_line_end c then 10 else c) l (fixed l h))

    lacks : (t : Text) → IsLine t → Lacks 10 t
    lacks [] h = tt
    lacks (c ∷ t) (e, es) = (λ q. cc (e, ap is_line_end q), lacks t es)

-- A text whose ends are no spaces.
pub strip_ends :
    (c d : ℕ) (s : Text)
    → is_space c ≡ false
    → is_space d ≡ false
    → strip is_space (c ∷ (s ++ d ∷ [])) ≡ c ∷ (s ++ d ∷ [])
unfolding strip lstrip rstrip
strip_ends c d s p q =
    let left : lstrip is_space (c ∷ (s ++ d ∷ [])) ≡ c ∷ (s ++ d ∷ []) = rw p refl in
    ap (rstrip is_space) left ∙ rstrip_end is_space (c ∷ s) (d ∷ []) (λ e. cc e) (rw q refl)

pub ends_with_last : (d : ℕ) (s : Text) → ends_with (d ∷ []) (s ++ d ∷ []) ≡ true
unfolding ends_with text_eq
ends_with_last d [] = ground arith
ends_with_last d (c ∷ s) = let ih = ends_with_last d s in ground arith

pub without_last-append : (s : Text) (d : ℕ) → without_last (s ++ d ∷ []) ≡ s
without_last-append [] d = refl
without_last-append (c ∷ []) d = refl
without_last-append (c ∷ e ∷ s) d = ap (◌∷◌ c) (without_last-append (e ∷ s) d)
