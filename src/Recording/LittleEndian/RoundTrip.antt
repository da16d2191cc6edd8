-- ===== src/Recording/LittleEndian/RoundTrip.antt =====
-- What is encoded at an offset of a buffer is decoded there, and the rest of the buffer stays.
use native.Mathlib.Nat.{
  pow-le-pow_right, mod-eq_of_lt, mul-lt-mul_of_pos_right, mul-le-mul_right, one-le-pow, zero-add,
  le_refl,
}
use native.Mathlib.Numerals.{towards_suc}
use trace_forge.Common.{
  ℕ, zero, suc, ◌+◌, ◌*◌, ◌/◌, ◌%◌, ◌^◌, ◌≤◌, ◌<◌, ◌≡◌, refl, ap, arith, [], ◌∷◌, ◌++◌, length, set,
  take, drop, All, Bytes, IsByte, u64_mod, ◌∙◌, take-append, drop-append, length-take,
}
use trace_forge.Common.Bits.{or_above}
use trace_forge.Recording.LittleEndian.{
  encode_little_endian, decode_bytes, decode_little_endian, le_bytes, length-le_bytes,
}

-- The value that bytes stand for, lowest first.
abbrev from_bytes : Bytes → ℕ
from_bytes [] = 0
from_bytes (b ∷ rest) = b + 256 * from_bytes rest

shift_eight : (s : ℕ) → 2 ^ (s + 8) ≡ 256 * 2 ^ s
shift_eight s = simp towards_suc (omega arith)

le_bytes-IsByte : (width v : ℕ) → All IsByte (le_bytes width v)
le_bytes-IsByte zero v = tt
le_bytes-IsByte (suc width) v = (omega arith, le_bytes-IsByte width (v / 256))

from_bytes-le_bytes : (width v : ℕ) → v < 2 ^ (8 * width) → from_bytes (le_bytes width v) ≡ v
from_bytes-le_bytes zero v h = omega arith
from_bytes-le_bytes (suc width) v h =
    let e : 8 * suc width ≡ 8 * width + 8 = omega arith in
    omega (
      arith,
      from_bytes-le_bytes width (v / 256)
          (omega (arith, ap (λ (k : ℕ). 2 ^ k) e, shift_eight (8 * width))),
    )

-- A byte shifted into place fits the result, so neither cast changes it.
shifted_fits :
    (b s n modulus : ℕ)
    → b < 256
    → 2 ^ (s + 8 + 8 * n) ≤ modulus
    → modulus ≤ u64_mod
    → b * 2 ^ s % u64_mod % modulus ≡ b * 2 ^ s
shifted_fits b s n modulus hb hm hu =
    let wide : 2 ^ (s + 8) ≤ 2 ^ (s + 8 + 8 * n) =
      pow-le-pow_right {n = 2} (omega arith) (omega arith) in
    let small : b * 2 ^ s < 256 * 2 ^ s =
      mul-lt-mul_of_pos_right hb (one-le-pow s 2 (omega arith)) in
    let fits : b * 2 ^ s < modulus = omega (arith, shift_eight s) in
    let fits64 : b * 2 ^ s < u64_mod = omega (arith, shift_eight s) in
    rw (mod-eq_of_lt fits64) (mod-eq_of_lt fits)

-- Decoding adds each byte above what has been read.
decode-from_bytes :
    (bs : Bytes) (modulus shift value : ℕ)
    → All IsByte bs
    → value < 2 ^ shift
    → 2 ^ (shift + 8 * length bs) ≤ modulus
    → modulus ≤ u64_mod
    → decode_bytes modulus bs shift value ≡ value + from_bytes bs * 2 ^ shift
unfolding decode_bytes
decode-from_bytes [] modulus shift value hb hv hm hu = omega arith
decode-from_bytes (b ∷ bs) modulus shift value hb hv hm hu =
    let e : shift + 8 * suc (length bs) ≡ shift + 8 + 8 * length bs = omega arith in
    let hm' : 2 ^ (shift + 8 + 8 * length bs) ≤ modulus = rw e at hm in
    rw (shifted_fits b shift (length bs) modulus hb.0 hm' hu, or_above shift value b hv)
      (omega (
        arith,
        shift_eight shift,
        mul-le-mul_right {m = b} {n = 255} (2 ^ shift) (omega arith),
        ap (λ (t : ℕ). from_bytes bs * t) (shift_eight shift),
        decode-from_bytes bs modulus (shift + 8) (value + b * 2 ^ shift) hb.1
            (omega (
              arith,
              shift_eight shift,
              mul-le-mul_right {m = b} {n = 255} (2 ^ shift) (omega arith),
            ))
            hm' hu,
      ))

-- What is encoded at an offset is decoded there, for the widths of the format.
pub decode_little_endian-le_bytes :
    (width v : ℕ)
    → width ≤ 8
    → v < 2 ^ (8 * width)
    → decode_bytes (2 ^ (8 * width)) (le_bytes width v) 0 0 ≡ v
decode_little_endian-le_bytes width v hw hv = omega (
  arith,
  decode-from_bytes (le_bytes width v) (2 ^ (8 * width)) 0 0 (le_bytes-IsByte width v) (omega arith)
      (rw (length-le_bytes width v, zero-add (8 * width)) (le_refl _))
      (pow-le-pow_right {n = 2} (omega arith) {j = 64} (omega arith)),
  from_bytes-le_bytes width v hv,
)

encode-cons :
    (width : ℕ) (x : ℕ) (xs : Bytes) (offset v : ℕ)
    → encode_little_endian width (x ∷ xs) (suc offset) v
      ≡ x ∷ encode_little_endian width xs offset v
unfolding encode_little_endian
encode-cons zero x xs offset v = refl
encode-cons (suc width) x xs offset v =
    let e : suc offset + 1 ≡ suc (offset + 1) = omega arith in
    rw e (encode-cons width x (set xs offset (v % 256)) (offset + 1) (v / 256))

encode_front :
    (width : ℕ) (destination : Bytes) (v : ℕ)
    → width ≤ length destination
    → encode_little_endian width destination 0 v ≡ le_bytes width v ++ drop width destination
unfolding encode_little_endian
encode_front zero destination v h = refl
encode_front (suc width) [] v h = absurd (omega arith)
encode_front (suc width) (d ∷ ds) v h =
    encode-cons width (v % 256) ds 0 (v / 256)
    ∙ ap (◌∷◌ (v % 256)) (encode_front width ds (v / 256) (omega arith))

-- Encoding replaces `width` bytes from the offset on, and no others.
pub encode_little_endian_lem :
    (width : ℕ) (destination : Bytes) (offset v : ℕ)
    → offset + width ≤ length destination
    → encode_little_endian width destination offset v
      ≡ take offset destination ++ (le_bytes width v ++ drop width (drop offset destination))
encode_little_endian_lem width destination zero v h = encode_front width destination v (omega arith)
encode_little_endian_lem width [] (suc offset) v h = absurd (omega arith)
encode_little_endian_lem width (d ∷ ds) (suc offset) v h =
    encode-cons width d ds offset v
    ∙ ap (◌∷◌ d) (encode_little_endian_lem width ds offset v (omega arith))

-- Decoding a field of a buffer after encoding a value in it gives the value back, for every width
-- up to eight bytes, value of that width and offset at which the field fits the buffer.
pub decode-encode_little_endian :
    (width : ℕ) (buffer : Bytes) (offset v : ℕ)
    → width ≤ 8
    → v < 2 ^ (8 * width)
    → offset + width ≤ length buffer
    → decode_little_endian width (encode_little_endian width buffer offset v) offset ≡ v
unfolding decode_little_endian
decode-encode_little_endian width buffer offset v hw hv h =
    let front : offset ≡ length (take offset buffer) = omega (arith, length-take offset buffer) in
    rw
      (
        encode_little_endian_lem width buffer offset v h,
        drop-append (take offset buffer) (le_bytes width v ++ drop width (drop offset buffer))
            offset front,
        take-append (le_bytes width v) (drop width (drop offset buffer)) width
            (omega (arith, length-le_bytes width v)),
      )
      (decode_little_endian-le_bytes width v hw hv)
