-- ===== src/Image/Verify.antt =====
-- What U-Boot checks of a script image, and what the client reads out of it.
use openipc_tftp.Common.{
  ℕ, ◌+◌, ◌-◌, ◌≤◌, ◌<◌, ◌≡◌, refl, sym, ap, ◌∙◌, Bool, true, ◌&&◌, ◌∷◌, ◌++◌, map, Result, ok,
  ◌>>◌, guard, arith, ltb, ◌==◌, if◌then◌else◌, length, take, drop, replicate, value_error,
  length-append, length-replicate, length-take, take_all, take-append, drop-append, ==_refl,
}
use openipc_tftp.Common.Text.{Text, Bytes}
use openipc_tftp.Common.Words.{be32, from_be, pack_be32, crc32, crc32-lt, word_limit, from_be-be32}
use openipc_tftp.Image.{
  ScriptCompiler, arch_number, ih_magic, ih_nmlen, linux, script_type, no_compression, name_bytes,
  pack_header, script_payload, compile, extract_script_payload,
}

padded : (n : ℕ) (s : Bytes) → length s ≤ n → length (s ++ replicate (n - length s) 0) ≡ n
padded n s h =
    omega (
      arith,
      length-append s (replicate (n - length s) 0),
      length-replicate {A = ℕ} (n - length s) 0,
    )

-- The name fills its field.
pub length-name_bytes : (name : Text) → length (name_bytes name) ≡ 32
unfolding name_bytes
length-name_bytes name =
    let short = take ih_nmlen (map (λ c. if ltb c 128 then c else b'?') name) in
    padded ih_nmlen short
      (omega (arith, length-take ih_nmlen (map (λ c. if ltb c 128 then c else b'?') name)))

-- The header as bytes, where every number fits.
abbrev tail_bytes : ScriptCompiler → ℕ → ℕ → ℕ → Bytes
tail_bytes c timestamp size data_crc =
    be32 timestamp
    ++ (be32 size
        ++ (be32 0
            ++ (be32 0
                ++ (be32 data_crc
                    ++ (linux
                        ∷ arch_number c.arch
                        ∷ script_type
                        ∷ no_compression
                        ∷ name_bytes c.name)))))

abbrev header_bytes : ScriptCompiler → ℕ → ℕ → ℕ → ℕ → Bytes
header_bytes c header_crc timestamp size data_crc =
    be32 ih_magic ++ (be32 header_crc ++ tail_bytes c timestamp size data_crc)

pack_header_fits :
    (c : ScriptCompiler) (crc now size dcrc : ℕ)
    → crc < word_limit
    → now < word_limit
    → size < word_limit
    → dcrc < word_limit
    → pack_header c crc now size dcrc ≡ ok (header_bytes c crc now size dcrc)
unfolding pack_header pack_be32
pack_header_fits c crc now size dcrc h1 h2 h3 h4 = ground arith

-- The checks of U-Boot before it runs a script: the magic number, the CRC of the header with the
-- CRC field cleared, the size, and the CRC of what follows the header.
pub verifies : Bytes → Bool
verifies image =
    from_be (take 4 image) == ih_magic
    && (crc32 (take 4 image ++ (be32 0 ++ take 56 (drop 8 image)))
          == from_be (take 4 (drop 4 image))
        && (from_be (take 4 (drop 12 image)) == length (drop 64 image)
            && crc32 (drop 64 image) == from_be (take 4 (drop 24 image))))

abbrev payload_bytes : Bytes → Bytes
payload_bytes script = be32 (length script) ++ (be32 0 ++ script)

script_payload_fits :
    (script : Bytes)
    → length script < word_limit
    → script_payload script ≡ ok (payload_bytes script)
unfolding script_payload pack_be32
script_payload_fits script h = ground arith

length-payload_bytes : (script : Bytes) → length (payload_bytes script) ≡ length script + 8
length-payload_bytes script = omega arith

abbrev image_bytes : ScriptCompiler → ℕ → Bytes → Bytes
image_bytes c now script =
    let payload = payload_bytes script in
    let header = header_bytes c 0 now (length payload) (crc32 payload) in
    header_bytes c (crc32 header) now (length payload) (crc32 payload) ++ payload

compile_fits :
    (c : ScriptCompiler) (now : ℕ) (script : Bytes)
    → now < word_limit
    → length script + 8 < word_limit
    → compile c now script ≡ ok (image_bytes c now script)
unfolding compile
compile_fits c now script ht hs =
    let payload : Bytes = payload_bytes script in
    let size : length payload < word_limit = omega arith in
    let dcrc : ℕ = crc32 payload in
    let header : Bytes = header_bytes c 0 now (length payload) dcrc in
    rw (script_payload_fits script (omega arith)) (
      rw (pack_header_fits c 0 now (length payload) dcrc (omega arith) ht size (crc32-lt payload)) (
        rw
          (pack_header_fits c (crc32 header) now (length payload) dcrc (crc32-lt header) ht size
            (crc32-lt payload))
          refl))

module _ (c : ScriptCompiler) (hcrc now size dcrc : ℕ) (payload : Bytes) where
  drop_header : drop 64 (header_bytes c hcrc now size dcrc ++ payload) ≡ payload
  drop_header = drop-append (name_bytes c.name) payload 32 (sym (length-name_bytes c.name))

  take_header :
      take 56 (drop 8 (header_bytes c hcrc now size dcrc ++ payload)) ≡ tail_bytes c now size dcrc
  take_header =
      rw (take-append (name_bytes c.name) payload 32 (sym (length-name_bytes c.name))) refl

verifies_of_fields :
    (image : Bytes)
    → from_be (take 4 image) ≡ ih_magic
    → crc32 (take 4 image ++ (be32 0 ++ take 56 (drop 8 image))) ≡ from_be (take 4 (drop 4 image))
    → from_be (take 4 (drop 12 image)) ≡ length (drop 64 image)
    → crc32 (drop 64 image) ≡ from_be (take 4 (drop 24 image))
    → verifies image ≡ true
unfolding verifies
verifies_of_fields image e1 e2 e3 e4 = rw (e1, e2, e3, e4, ==_refl, ==_refl, ==_refl) refl

module _ (c : ScriptCompiler) (now : ℕ) (payload : Bytes) (size : length payload < word_limit) where
  abbrev header : Bytes
  header = header_bytes c 0 now (length payload) (crc32 payload)

  abbrev whole : Bytes
  whole = header_bytes c (crc32 header) now (length payload) (crc32 payload) ++ payload

  whole-verifies : verifies whole ≡ true
  whole-verifies =
      verifies_of_fields whole refl
        (ap (λ t. crc32 (be32 ih_magic ++ (be32 0 ++ t)))
            (take_header c (crc32 header) now (length payload) (crc32 payload) payload)
          ∙ sym (from_be-be32 (crc32 header) (crc32-lt header)))
        (from_be-be32 (length payload) size
          ∙ sym (
              ap (λ (b : Bytes). length b)
                (drop_header c (crc32 header) now (length payload) (crc32 payload) payload)))
        (ap crc32 (drop_header c (crc32 header) now (length payload) (crc32 payload) payload)
          ∙ sym (from_be-be32 (crc32 payload) (crc32-lt payload)))

read_payload : Bytes → Result Bytes
read_payload payload = do
  guard (ltb 7 (length payload)) value_error
  guard (from_be (take 4 (drop 4 payload)) == 0) value_error
  let script = take (from_be (take 4 payload)) (drop 8 payload)
  guard (length script == from_be (take 4 payload)) value_error
  ok script

extract-read : (image : Bytes) → extract_script_payload image ≡ read_payload (drop 64 image)
unfolding extract_script_payload read_payload
extract-read image = refl

read-payload_bytes :
    (script : Bytes) → length script < word_limit → read_payload (payload_bytes script) ≡ ok script
unfolding read_payload
read-payload_bytes script h =
    rw (from_be-be32 (length script) h, take_all script (length script) (omega arith))
      (ground arith)

-- Where the time and the size of the payload fit in 32 bits, compiling a script succeeds, the
-- image passes U-Boot's checks (magic number, both CRCs, size), and extract_script_payload reads
-- the script out of it again.
pub compile_lem :
    (c : ScriptCompiler) (now : ℕ) (script : Bytes)
    → now < word_limit
    → length script + 8 < word_limit
    → (image : Bytes) × (compile c now script ≡ ok image)
      × (verifies image ≡ true)
      × (extract_script_payload image ≡ ok script)
compile_lem c now script ht hs =
    let payload : Bytes = payload_bytes script in
    let image : Bytes = image_bytes c now script in
    (
      image,
      compile_fits c now script ht hs,
      whole-verifies c now payload (omega arith),
      extract-read image
          ∙ ap read_payload (
              drop_header c (crc32 (header c now payload (omega arith))) now (length payload)
                (crc32 payload) payload)
          ∙ read-payload_bytes script (omega arith),
    )
