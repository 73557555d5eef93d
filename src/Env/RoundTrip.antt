-- ===== src/Env/RoundTrip.antt =====
-- An environment image that was built is read back by the parser of environment partitions.
use openipc_tftp.Common.{
  ℕ, ◌+◌, ◌-◌, ◌≤◌, ◌≡◌, refl, sym, ap, ◌∙◌, ◌⊎◌, Bool, true, false, not, ◌||◌, [], ◌∷◌, ◌++◌,
  Option, none, some, ok, arith, All, replicate, length, all_of, take, is_empty, ltb, leb, ◌==◌,
  ==_refl, append-nil, &&-eq-true, if◌then◌else◌,
}
use openipc_tftp.Common.Text.{Text, Bytes}
use openipc_tftp.Common.Dict.{Dict, IsUnique}
use openipc_tftp.Common.Words.{le32, from_be, from_le, from_le-le32, crc32, crc32-lt}
use openipc_tftp.Env.{
  is_env_key, is_key_char, parse_nul_delimited_env, parse_with_header, parse_part, is_erased,
  padded, build,
}
use openipc_tftp.Env.Payload.{IsBinding, payload, key_chars, encode_ok, parse_payload}

abbrev pub IsPad : ℕ → Type 0
IsPad pad = (pad ≡ 0) ⊎ (pad ≡ 0xff)

-- The size that is asked for has room for the payload and its header.
abbrev pub Fits : Dict Text → Option ℕ → Type 0
Fits env none = Unit
Fits env (some size) = length (payload env) + 4 ≤ size

abbrev pad_count : Dict Text → Option ℕ → ℕ
pad_count env none = 0
pad_count env (some size) = size - 4 - length (payload env)

abbrev image : Bytes → Bytes
image body = le32 (crc32 body) ++ body

padded_ok :
    (env : Dict Text) (size : Option ℕ) (pad : ℕ)
    → Fits env size
    → padded (payload env) size 4 pad ≡ ok (payload env ++ replicate (pad_count env size) pad)
unfolding padded
padded_ok env none pad h = ap ok (sym (append-nil (payload env)))
padded_ok env (some size) pad h = ground arith

pad_byte_ok : (pad : ℕ) → IsPad pad → ltb pad 256 ≡ true
pad_byte_ok pad e = ground arith

build_ok :
    (env : Dict Text) (size : Option ℕ) (pad : ℕ)
    → All IsBinding env
    → Fits env size
    → IsPad pad
    → build env size none pad ≡ ok (image (payload env ++ replicate (pad_count env size) pad))
unfolding build
build_ok env size pad h fits e =
    rw (pad_byte_ok pad e) (rw (encode_ok env h) (rw (padded_ok env size pad fits) refl))

-- The first byte of a payload is that of a key.
starts_with_key :
    (b : Text × Text) (env : Dict Text) (rest : Bytes)
    → IsBinding b
    → (c : ℕ) × (tail : Bytes) × (payload (b ∷ env) ++ rest ≡ c ∷ tail) × (is_key_char c ≡ true)
starts_with_key ([], v) env rest (hk, hs, h0) = absurd (unfold is_env_key in cc)
starts_with_key (c ∷ key, v) env rest (hk, hs, h0) =
    (c, _, refl, (&&-eq-true (is_key_char c) (all_of is_key_char key) (key_chars (c ∷ key) hk)).0)

not_all : (p : ℕ → Bool) (s tail : Bytes) (c : ℕ) → p c ≡ false → all_of p (s ++ c ∷ tail) ≡ false
not_all p [] tail c h = rw h refl
not_all p (d ∷ s) tail c h = rw (not_all p s tail c h) (ground arith)

neither : (a b : Bool) → a ≡ false → b ≡ false → (a || b) ≡ false
neither a b e f = rw (e, f) refl

not_erased :
    (c : ℕ) (tail : Bytes) (crc : ℕ)
    → is_key_char c ≡ true
    → is_erased (le32 crc ++ c ∷ tail) ≡ false
unfolding is_erased
not_erased c tail crc h =
    let full : (c == 0xff) ≡ false = ground arith in
    let zero_byte : (c == 0) ≡ false = ground arith in
    neither (all_of (λ byte. byte == 0xff) (le32 crc ++ c ∷ tail))
      (all_of (λ byte. byte == 0) (le32 crc ++ c ∷ tail))
      (not_all (λ byte. byte == 0xff) (le32 crc) tail c full)
      (not_all (λ byte. byte == 0) (le32 crc) tail c zero_byte)

picked :
    (short fits empty : Bool) (env : Dict Text)
    → short ≡ false
    → fits ≡ true
    → empty ≡ false
    → (if short then none else if not fits then none else if empty then none else some env)
      ≡ some env
picked short fits empty env e f g = rw (e, f, g) refl

or_right : (a b : Bool) → b ≡ true → (a || b) ≡ true
or_right a b h = ground arith

image_parses :
    (body : Bytes) (b : Text × Text) (env : Dict Text)
    → 1 ≤ length body
    → parse_nul_delimited_env body ≡ b ∷ env
    → parse_with_header 4 (image body) ≡ some (b ∷ env)
unfolding parse_with_header
image_parses body b env long h =
    picked (leb (length (image body)) 4)
      (crc32 body == from_be (take 4 (image body)) || crc32 body == from_le (le32 (crc32 body)))
      (is_empty (parse_nul_delimited_env body)) (parse_nul_delimited_env body) (ground arith)
      (or_right (crc32 body == from_be (take 4 (image body))) _
        (rw (from_le-le32 (crc32 body) (crc32-lt body)) (==_refl (crc32 body))))
      (ap is_empty h)
    ∙ ap some h

-- An environment of one binding or more, whose keys are valid and stand once, and whose values are
-- texts without NUL, is built into an image, without flags and padded with 0x00 or 0xFF to any size that has room; and
-- reading that image as an environment partition gives the same bindings in the same order.
pub build_parse_lem :
    (b : Text × Text) (env : Dict Text) (size : Option ℕ) (pad : ℕ)
    → All IsBinding (b ∷ env)
    → IsUnique (b ∷ env)
    → Fits (b ∷ env) size
    → IsPad pad
    → (partition : Bytes) × (build (b ∷ env) size none pad ≡ ok partition)
      × (parse_part partition ≡ ok (b ∷ env))
unfolding parse_part
build_parse_lem b env size pad h u fits e =
    let junk : Bytes = replicate (pad_count (b ∷ env) size) pad in
    let body : Bytes = payload (b ∷ env) ++ junk in
    let (c, tail, starts, key) = starts_with_key b env junk h.0 in
    let long : 1 ≤ length body = rw starts (omega arith) in
    let whole : is_erased (image body) ≡ false =
      ap (λ s. is_erased (le32 (crc32 body) ++ s)) starts ∙ not_erased c tail (crc32 body) key in
    (
      image body,
      build_ok (b ∷ env) size pad h fits e,
      rw
          (
            whole,
            image_parses body b env long (parse_payload b env (pad_count (b ∷ env) size) pad h u e),
          )
          refl,
    )
