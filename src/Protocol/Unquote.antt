-- ===== src/Protocol/Unquote.antt =====
-- `urllib.parse.unquote`, which parse_request_path applies to each segment: `%XX` escapes in a
-- run of ASCII characters are bytes, and a run is decoded as UTF-8 with replacement.
use openipc_tftp.Common.{
  ℕ, ◌+◌, ◌-◌, ◌*◌, ◌≡◌, refl, Bool, true, false, ◌&&◌, ◌||◌, [], ◌∷◌, ◌++◌, leb, ltb, ◌==◌,
  if◌then◌else◌, arith,
}
use openipc_tftp.Common.Text.{Text, Bytes, codes, has_char, Lacks}
use openipc_tftp.Common.Utf8.{decode}

abbrev is_hex : ℕ → Bool
is_hex c = (leb b'0' c && leb c b'9') || ((leb b'A' c && leb c b'F') || (leb b'a' c && leb c b'f'))

abbrev hex_value : ℕ → ℕ
hex_value c = if leb c b'9' then c - b'0' else if leb c b'F' then c - 55 else c - 87

unescape : Text → Bytes
unescape [] = []
unescape (c ∷ []) = c ∷ []
unescape (c ∷ h ∷ []) = c ∷ h ∷ []
unescape (c ∷ h ∷ l ∷ s) = elim (c == b'%' && (is_hex h && is_hex l)) [
  | true ↦ (hex_value h * 16 + hex_value l) ∷ unescape s
  | false ↦ c ∷ unescape (h ∷ l ∷ s)
]

-- `run` is the run of ASCII characters so far.
unquote_runs : Text → Text → Text
unfolding unescape
unquote_runs run [] = decode (unescape run)
unquote_runs run (c ∷ s) = elim (ltb c 0x80) [
  | true ↦ unquote_runs (run ++ c ∷ []) s
  | false ↦ decode (unescape run) ++ c ∷ unquote_runs [] s
]

unfoldable pub unquote : Text → Text
unfolding unquote_runs
unquote s = if has_char b'%' s then unquote_runs [] s else s

pub unquote_plain : (s : Text) → Lacks b'%' s → unquote s ≡ s
unfolding unquote
unquote_plain s h = rw (lacks s h)
  where
    lacks : (t : Text) → Lacks b'%' t → has_char b'%' t ≡ false
    lacks [] h = refl
    lacks (c ∷ t) (hc, ht) = ground (arith, lacks t ht)

unquote_utf8 : unquote (codes "a%2fb%C3%A9%e2%82%4z%") ≡ codes "a/bé" ++ 0xfffd ∷ codes "%4z%"
unfolding unquote decode
unquote_utf8 = refl
