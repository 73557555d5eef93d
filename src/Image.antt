-- ===== src/Image.antt =====
-- src/uboot_tftp/mkimage.py: U-Boot script images. The time of day is an argument.
pub mod Verify
use openipc_tftp.Common.{
  ℕ, ◌+◌, ◌-◌, Bool, [], ◌∷◌, ◌++◌, map, Result, ok, err, value_error, ◌>>=◌, ◌>>◌, guard, ltb,
  ◌==◌, if◌then◌else◌, length, take, drop, replicate,
}
use openipc_tftp.Common.Text.{Text, Bytes, codes}
use openipc_tftp.Common.Utf8.{encode}
use openipc_tftp.Common.Words.{be32, from_be, pack_be32, crc32}

abbrev pub ih_magic : ℕ
ih_magic = 0x27051956

abbrev pub ih_nmlen : ℕ
ih_nmlen = 32

pub data ImageArch : Type 0 where
  arm arm64 : ImageArch

abbrev pub arch_number : ImageArch → ℕ
arch_number arm = 2
arch_number arm64 = 22

-- The one member of each of ImageOS, ImageType and ImageCompression.
abbrev pub linux : ℕ
linux = 5

abbrev pub script_type : ℕ
script_type = 6

abbrev pub no_compression : ℕ
no_compression = 0

pub record ScriptCompiler : Type 0 where
  pub name : Text
  pub arch : ImageArch

abbrev pub default_compiler : ScriptCompiler
default_compiler = record { name = codes "uboot-tftp"; arch = arm }

-- `name.encode("ascii", errors="replace")[:IH_NMLEN].ljust(IH_NMLEN, b"\x00")`
unfoldable pub name_bytes : Text → Bytes
name_bytes name =
    let short = take ih_nmlen (map (λ c. if ltb c 128 then c else b'?') name) in
    short ++ replicate (ih_nmlen - length short) 0

-- `struct.pack(">7I4B32s", …)`
pack_header : ScriptCompiler → ℕ → ℕ → ℕ → ℕ → Result Bytes
unfolding name_bytes pack_be32
pack_header c header_crc timestamp size data_crc = do
  magic ← pack_be32 ih_magic
  crc ← pack_be32 header_crc
  time ← pack_be32 timestamp
  len ← pack_be32 size
  load ← pack_be32 0
  entry ← pack_be32 0
  dcrc ← pack_be32 data_crc
  ok (
      magic
      ++ (crc
          ++ (time
              ++ (len
                  ++ (load
                      ++ (entry
                          ++ (dcrc
                              ++ (linux
                                  ∷ arch_number c.arch
                                  ∷ script_type
                                  ∷ no_compression
                                  ∷ name_bytes c.name))))))))

-- `_script_payload`: the length, an empty second length that ends the list, the script.
script_payload : Bytes → Result Bytes
unfolding pack_be32
script_payload script = do
  size ← pack_be32 (length script)
  end ← pack_be32 0
  ok (size ++ (end ++ script))

unfoldable pub compile : ScriptCompiler → ℕ → Bytes → Result Bytes
unfolding pack_header script_payload
compile c now script = do
  payload ← script_payload script
  header_without_crc ← pack_header c 0 now (length payload) (crc32 payload)
  header ← pack_header c (crc32 header_without_crc) now (length payload) (crc32 payload)
  ok (header ++ payload)

-- `compile` of a str encodes it first.
unfoldable pub compile_text : ScriptCompiler → ℕ → Text → Result Bytes
compile_text c now script = do bytes ← encode script; compile c now bytes

unfoldable pub extract_script_payload : Bytes → Result Bytes
extract_script_payload image = do
  let payload = drop 64 image
  guard (ltb 7 (length payload)) value_error
  let script_size = from_be (take 4 payload)
  let terminator = from_be (take 4 (drop 4 payload))
  guard (terminator == 0) value_error
  let script = take script_size (drop 8 payload)
  guard (length script == script_size) value_error
  ok script
