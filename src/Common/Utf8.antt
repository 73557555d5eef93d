-- ===== src/Common/Utf8.antt =====
-- `str.encode("utf-8")` and `bytes.decode("utf-8", errors="replace")` of Python: a byte that
-- cannot go on ends the sequence, which gives one U+FFFD, and is read again as a first byte.
use Prim.Native.Nat.{ℕ, ◌+◌, ◌-◌, ◌*◌, ◌/◌, ◌%◌, ◌≤◌, ◌<◌}
use mathlib.Core.Path.{◌≡◌, refl, ap, ◌∙◌}
use mathlib.Core.Logic.{◌⊎◌, ◌≢◌}
use mathlib.Core.Bool.{Bool, ◌&&◌}
use mathlib.Core.List.{[], ◌∷◌, ◌++◌}
use native.Mathlib.Omega.{arith}
use openipc_tftp.Common.Tests.{ltb, leb, ◌==◌, if◌then◌else◌}
use openipc_tftp.Common.Lists.{All, All-append}
use openipc_tftp.Common.Errors.{Result, ok, err, unicode_error, ◌>>=◌}
use openipc_tftp.Common.Text.{Text, Bytes, Lacks}

abbrev pub replacement : ℕ
replacement = 0xfffd

-- What is still to come of a sequence: how many bytes, the range of the next, the bits so far.
pub data State : Type 0 where
  start : State
  pending : ℕ → ℕ → ℕ → ℕ → State

abbrev pub within : ℕ → ℕ → ℕ → Bool
within lo hi b = leb lo b && leb b hi

first_byte : ℕ → Text × State
first_byte b =
    if ltb b 0x80
    then (b ∷ [], start)
    else if within 0xc2 0xdf b
    then ([], pending 1 0x80 0xbf (b - 0xc0))
    else if b == 0xe0
    then ([], pending 2 0xa0 0xbf 0)
    else if b == 0xed
    then ([], pending 2 0x80 0x9f 13)
    else if within 0xe1 0xef b
    then ([], pending 2 0x80 0xbf (b - 0xe0))
    else if b == 0xf0
    then ([], pending 3 0x90 0xbf 0)
    else if b == 0xf4
    then ([], pending 3 0x80 0x8f 4)
    else if within 0xf1 0xf3 b
    then ([], pending 3 0x80 0xbf (b - 0xf0))
    else (replacement ∷ [], start)

next_byte : State → ℕ → Text × State
unfolding first_byte
next_byte start b = first_byte b
next_byte (pending need lo hi acc) b =
    let value = acc * 64 + (b - 0x80) in
    let (out, state) = first_byte b in
    if within lo hi b
    then (if need == 1 then (value ∷ [], start) else ([], pending (need - 1) 0x80 0xbf value))
    else (replacement ∷ out, state)

decode_from : State → Bytes → Text
unfolding next_byte
decode_from start [] = []
decode_from (pending need lo hi acc) [] = replacement ∷ []
decode_from state (b ∷ s) = let (out, state') = next_byte state b in out ++ decode_from state' s

unfoldable pub decode : Bytes → Text
unfolding decode_from
decode = decode_from start

-- A code point that is no surrogate.
abbrev pub IsScalar : ℕ → Type 0
IsScalar c = (c < 0xd800) ⊎ ((0xe000 ≤ c) × (c < 0x110000))

abbrev two : ℕ → Bytes
two c = (0xc0 + c / 64) ∷ (0x80 + c % 64) ∷ []

abbrev three : ℕ → Bytes
three c = (0xe0 + c / 4096) ∷ (0x80 + c / 64 % 64) ∷ (0x80 + c % 64) ∷ []

abbrev four : ℕ → Bytes
four c = (0xf0 + c / 262144) ∷ (0x80 + c / 4096 % 64) ∷ (0x80 + c / 64 % 64) ∷ (0x80 + c % 64) ∷ []

unfoldable pub char_bytes : ℕ → Bytes
char_bytes c =
    if ltb c 0x80
    then c ∷ []
    else if ltb c 0x800
    then two c
    else if ltb c 0x10000
    then three c
    else four c

encode_char : ℕ → Result Bytes
unfolding char_bytes
encode_char c = if within 0xd800 0xdfff c then err unicode_error else ok (char_bytes c)

unfoldable pub encode : Text → Result Bytes
unfolding encode_char
encode [] = ok []
encode (c ∷ s) = do bytes ← encode_char c; rest ← encode s; ok (bytes ++ rest)

decode-two : (c : ℕ) (s : Bytes) → 0x80 ≤ c → c < 0x800 → decode (two c ++ s) ≡ c ∷ decode s
unfolding decode
decode-two c s lo hi = ground arith

decode-three :
    (c : ℕ) (s : Bytes)
    → 0x800 ≤ c
    → c < 0x10000
    → IsScalar c
    → decode (three c ++ s) ≡ c ∷ decode s
unfolding decode
decode-three c s lo hi scalar = ground arith

decode-four : (c : ℕ) (s : Bytes) → 0x10000 ≤ c → c < 0x110000 → decode (four c ++ s) ≡ c ∷ decode s
unfolding decode
decode-four c s lo hi = ground arith

decode_ascii : (c : ℕ) (s : Bytes) → c < 0x80 → decode (c ∷ s) ≡ c ∷ decode s
unfolding decode
decode_ascii c s h = ground arith

decode-char_bytes : (c : ℕ) (s : Bytes) → IsScalar c → decode (char_bytes c ++ s) ≡ c ∷ decode s
unfolding char_bytes
decode-char_bytes c s h =
    ground (arith, decode_ascii c s, decode-two c s, decode-three c s, decode-four c s)

-- The bytes of a text, where it holds no surrogate.
unfoldable pub text_bytes : Text → Bytes
text_bytes [] = []
text_bytes (c ∷ s) = char_bytes c ++ text_bytes s

pub encode-text_bytes : (s : Text) → All IsScalar s → encode s ≡ ok (text_bytes s)
unfolding text_bytes encode
encode-text_bytes [] h = refl
encode-text_bytes (c ∷ s) (hc, hs) = rw (encode-text_bytes s hs) (ground arith)

-- Decoding undoes encoding.
pub decode-text_bytes : (s : Text) → All IsScalar s → decode (text_bytes s) ≡ s
unfolding text_bytes
decode-text_bytes [] h = unfold decode in refl
decode-text_bytes (c ∷ s) (hc, hs) =
    decode-char_bytes c (text_bytes s) hc ∙ ap (◌∷◌ c) (decode-text_bytes s hs)

-- The bytes that no text holds, and the bytes that only one character gives.
abbrev pub OnlyAt : ℕ → ℕ → Type 0
OnlyAt b c = (b < 0x80) × (b ≢ c) ⊎ (0xf8 ≤ b)

char_bytes-Lacks : (b c : ℕ) → IsScalar c → OnlyAt b c → Lacks b (char_bytes c)
unfolding char_bytes
char_bytes-Lacks b c h k = ground arith

pub text_bytes-Lacks :
    (b : ℕ) (s : Text) → All IsScalar s → All (OnlyAt b) s → Lacks b (text_bytes s)
unfolding text_bytes
text_bytes-Lacks b [] h k = tt
text_bytes-Lacks b (c ∷ s) (hc, hs) (kc, ks) =
    All-append _ (char_bytes c) (text_bytes s) (char_bytes-Lacks b c hc kc)
      (text_bytes-Lacks b s hs ks)

-- ASCII text is its own encoding.
pub text_bytes_ascii : (s : Text) → All (λ c. c < 0x80) s → text_bytes s ≡ s
unfolding text_bytes char_bytes
text_bytes_ascii [] h = refl
text_bytes_ascii (c ∷ s) (hc, hs) = rw (text_bytes_ascii s hs) (ground arith)

pub decode_ascii_text : (s : Text) → All (λ c. c < 0x80) s → decode s ≡ s
decode_ascii_text [] h = unfold decode in refl
decode_ascii_text (c ∷ s) (hc, hs) = decode_ascii c s hc ∙ ap (◌∷◌ c) (decode_ascii_text s hs)
