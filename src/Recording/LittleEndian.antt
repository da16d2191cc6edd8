-- ===== src/Recording/LittleEndian.antt =====
-- `encode_little_endian` and `decode_little_endian` of src/recording/log.cpp, for an unsigned integer
-- of `width` bytes. A signed one is cast by `to_u64` and `from_u64` around them.
pub mod RoundTrip
use Prim.Native.Nat.{bit_or}
use trace_forge.Common.{
  ℕ, zero, suc, ◌+◌, ◌*◌, ◌/◌, ◌%◌, ◌^◌, ◌≡◌, refl, arith, [], ◌∷◌, length, set, take, drop, Bytes,
  u64_mod,
}

-- `destination[offset + byte] = remaining & 0xFF; remaining >>= 8` for each byte.
unfoldable pub encode_little_endian : ℕ → Bytes → ℕ → ℕ → Bytes
encode_little_endian zero destination offset remaining = destination
encode_little_endian (suc width) destination offset remaining =
    encode_little_endian width (set destination offset (remaining % 256)) (offset + 1)
      (remaining / 256)

-- `value |= static_cast<Unsigned>(static_cast<uint64_t>(source[offset + byte]) << (byte * 8))`;
-- `shift` is `byte * 8` and `modulus` the number of values of `Unsigned`.
unfoldable pub decode_bytes : ℕ → Bytes → ℕ → ℕ → ℕ
decode_bytes modulus [] shift value = value
decode_bytes modulus (b ∷ rest) shift value =
    decode_bytes modulus rest (shift + 8) (bit_or value (b * 2 ^ shift % u64_mod % modulus))

unfoldable pub decode_little_endian : ℕ → Bytes → ℕ → ℕ
unfolding decode_bytes
decode_little_endian width source offset =
    decode_bytes (2 ^ (8 * width)) (take width (drop offset source)) 0 0

-- The bytes of a value, lowest first.
abbrev pub le_bytes : ℕ → ℕ → Bytes
le_bytes zero v = []
le_bytes (suc width) v = (v % 256) ∷ le_bytes width (v / 256)

pub length-le_bytes : (width v : ℕ) → length (le_bytes width v) ≡ width
length-le_bytes zero v = refl
length-le_bytes (suc width) v = omega (arith, length-le_bytes width (v / 256))
