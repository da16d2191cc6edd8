-- ===== src/Recording/Crc32c.antt =====
-- `crc32c` of src/recording/log.cpp, on 32-bit words.
use Prim.Native.Nat.{bit_and, bit_xor}
use mathlib.Core.List.{foldl}
use trace_forge.Common.{ℕ, zero, suc, ◌-◌, ◌/◌, ◌%◌, ◌<◌, ◌≡◌, refl, arith, Bytes, u32_mod, [], ◌∷◌}

abbrev pub reflected_castagnoli_polynomial : ℕ
reflected_castagnoli_polynomial = 0x82f6_3b78

abbrev pub all_ones : ℕ
all_ones = 0xffff_ffff

-- One round of the inner loop: `mask = 0U - (checksum & 1U)` and
-- `checksum = (checksum >> 1U) ^ (polynomial & mask)`.
unfoldable pub crc_bit : ℕ → ℕ
crc_bit checksum =
    let mask = (u32_mod - checksum % 2) % u32_mod in
    bit_xor (checksum / 2) (bit_and reflected_castagnoli_polynomial mask)

unfoldable pub crc_bits : ℕ → ℕ → ℕ
unfolding crc_bit
crc_bits zero checksum = checksum
crc_bits (suc bits) checksum = crc_bits bits (crc_bit checksum)

-- One round of the outer loop.
unfoldable pub crc_byte : ℕ → ℕ → ℕ
unfolding crc_bits
crc_byte checksum byte = crc_bits 8 (bit_xor checksum byte)

-- `~checksum` of a 32-bit word is the distance to the word of all ones.
unfoldable pub crc32c : Bytes → ℕ
unfolding crc_byte
crc32c bytes = all_ones - foldl crc_byte all_ones bytes

pub crc32c-lt : (bytes : Bytes) → crc32c bytes < u32_mod
unfolding crc32c
crc32c-lt bytes = omega arith

-- The check value of CRC-32C, over the digits "123456789".
check_value : crc32c (49 ∷ 50 ∷ 51 ∷ 52 ∷ 53 ∷ 54 ∷ 55 ∷ 56 ∷ 57 ∷ []) ≡ 0xe306_9283
unfolding crc32c
check_value = refl
