-- ===== src/Common/Words.antt =====
-- 32-bit words as bytes, as `struct.pack`, `int.to_bytes` and `int.from_bytes` have them, and the
-- CRC of zlib.crc32.
use Prim.Native.Nat.{ℕ, zero, suc, ◌+◌, ◌*◌, ◌/◌, ◌%◌, ◌^◌, ◌<◌, bit_xor}
use mathlib.Core.Path.{◌≡◌, refl}
use mathlib.Core.List.{[], ◌∷◌, foldl}
use native.Mathlib.Omega.{arith}
use openipc_tftp.Common.Tests.{ltb, ◌==◌, if◌then◌else◌}
use openipc_tftp.Common.Errors.{Result, ok, err, struct_error}
use openipc_tftp.Common.Text.{Bytes, codes}

abbrev pub word_limit : ℕ
word_limit = 2 ^ 32

abbrev pub be32 : ℕ → Bytes
be32 n = (n / 16777216 % 256) ∷ (n / 65536 % 256) ∷ (n / 256 % 256) ∷ (n % 256) ∷ []

abbrev pub le32 : ℕ → Bytes
le32 n = (n % 256) ∷ (n / 256 % 256) ∷ (n / 65536 % 256) ∷ (n / 16777216 % 256) ∷ []

-- `int.from_bytes(b, "big")` and `int.from_bytes(b, "little")`
abbrev pub from_be : Bytes → ℕ
from_be = foldl (λ n b. n * 256 + b) 0

abbrev pub from_le : Bytes → ℕ
from_le [] = 0
from_le (b ∷ s) = b + 256 * from_le s

-- `struct.pack(">I", n)` refuses what does not fit.
unfoldable pub pack_be32 : ℕ → Result Bytes
pack_be32 n = if ltb n word_limit then ok (be32 n) else err struct_error

pub from_be-be32 : (n : ℕ) → n < word_limit → from_be (be32 n) ≡ n
from_be-be32 n h = omega arith

pub from_le-le32 : (n : ℕ) → n < word_limit → from_le (le32 n) ≡ n
from_le-le32 n h = omega arith

crc_bits : ℕ → ℕ → ℕ
crc_bits zero c = c
crc_bits (suc n) c = crc_bits n (if c % 2 == 1 then bit_xor (c / 2) 0xedb88320 else c / 2)

crc_byte : ℕ → ℕ → ℕ
unfolding crc_bits
crc_byte c b = crc_bits 8 (bit_xor c b)

-- `zlib.crc32(data) & 0xFFFFFFFF`
unfoldable pub crc32 : Bytes → ℕ
unfolding crc_byte
crc32 s = bit_xor (foldl crc_byte 0xffffffff s) 0xffffffff % word_limit

pub crc32-lt : (s : Bytes) → crc32 s < word_limit
unfolding crc32
crc32-lt s = omega arith

crc32_check : crc32 (codes "123456789") ≡ 0xcbf43926
unfolding crc32
crc32_check = refl
