-- ===== src/Recording/Format/Fields.antt =====
-- The headers that the writer builds are the documented ones, and each of their fields decodes to the
-- value that was put in.
use native.Mathlib.Nat.{mod-eq_of_lt}
use trace_forge.Common.{
  ℕ, ◌+◌, ◌%◌, ◌<◌, ◌≡◌, refl, ap, ◌∙◌, arith, List, [], ◌∷◌, ◌++◌, length, take, Bytes, u32_mod,
  u64_mod, length-append,
}
use trace_forge.Common.Int.{ℤ, to_u64, from_u64, IsI64, to_u64-lt, from_u64-to_u64}
use trace_forge.Recording.{record_header_size, file_header_size}
use trace_forge.Recording.LittleEndian.{le_bytes, decode_little_endian}
use trace_forge.Recording.LittleEndian.RoundTrip.{decode_little_endian-le_bytes}
use trace_forge.Recording.Crc32c.{crc32c, crc32c-lt}
use trace_forge.Recording.Writer.{record_header, file_header}
use trace_forge.Recording.Format.{
  Entry, record_fields, file_fields, record_bytes, records_bytes, log_bytes, entry_size,
  entries_size,
}

module _ (payload : Bytes) (index : ℕ) (arrival : ℤ) where
  pub record_header_layout :
      record_header payload index arrival
      ≡ record_fields payload index arrival
        ++ le_bytes 4 (crc32c (record_fields payload index arrival))
  unfolding record_header
  record_header_layout = refl

  pub length-record_header : length (record_header payload index arrival) ≡ record_header_size
  length-record_header = rw record_header_layout refl

  pub record_header_first_32 :
      take 32 (record_header payload index arrival) ≡ record_fields payload index arrival
  record_header_first_32 = rw record_header_layout refl

  pub decode_header_size : decode_little_endian 2 (record_header payload index arrival) 4 ≡ 36
  unfolding decode_little_endian
  decode_header_size = rw record_header_layout refl

  pub decode_version : decode_little_endian 2 (record_header payload index arrival) 6 ≡ 1
  unfolding decode_little_endian
  decode_version = rw record_header_layout refl

  pub decode_header_crc :
      decode_little_endian 4 (record_header payload index arrival) 32
      ≡ crc32c (record_fields payload index arrival)
  unfolding decode_little_endian
  decode_header_crc = rw record_header_layout (
      decode_little_endian-le_bytes 4 (crc32c (record_fields payload index arrival)) (omega arith)
        (crc32c-lt _))

  pub decode_payload_size :
      length payload < u32_mod
      → decode_little_endian 4 (record_header payload index arrival) 8 ≡ length payload
  unfolding decode_little_endian
  decode_payload_size h = rw record_header_layout (
      decode_little_endian-le_bytes 4 (length payload % u32_mod) (omega arith) (omega arith)
      ∙ mod-eq_of_lt h)

  pub decode_payload_crc :
      decode_little_endian 4 (record_header payload index arrival) 12 ≡ crc32c payload
  unfolding decode_little_endian
  decode_payload_crc =
      rw record_header_layout
        (decode_little_endian-le_bytes 4 (crc32c payload) (omega arith) (crc32c-lt _))

  pub decode_record_index :
      index < u64_mod → decode_little_endian 8 (record_header payload index arrival) 16 ≡ index
  unfolding decode_little_endian
  decode_record_index h =
      rw record_header_layout (decode_little_endian-le_bytes 8 index (omega arith) h)

  pub decode_arrival :
      IsI64 arrival
      → from_u64 (decode_little_endian 8 (record_header payload index arrival) 24) ≡ arrival
  unfolding decode_little_endian
  decode_arrival h = rw record_header_layout (
      ap from_u64
        (decode_little_endian-le_bytes 8 (to_u64 arrival) (omega arith) (to_u64-lt arrival))
      ∙ from_u64-to_u64 arrival h)

module _ (created : ℤ) where
  pub file_header_layout :
      file_header created ≡ file_fields created ++ le_bytes 4 (crc32c (file_fields created))
  unfolding file_header
  file_header_layout = refl

  pub length-file_header : length (file_header created) ≡ 32
  length-file_header = rw file_header_layout refl

  pub file_header_first_28 : take 28 (file_header created) ≡ file_fields created
  file_header_first_28 = rw file_header_layout refl

  pub decode_log_version : decode_little_endian 2 (file_header created) 8 ≡ 1
  unfolding decode_little_endian
  decode_log_version = rw file_header_layout refl

  pub decode_file_header_size : decode_little_endian 2 (file_header created) 10 ≡ 32
  unfolding decode_little_endian
  decode_file_header_size = rw file_header_layout refl

  pub decode_file_crc :
      decode_little_endian 4 (file_header created) 28 ≡ crc32c (file_fields created)
  unfolding decode_little_endian
  decode_file_crc =
      rw file_header_layout
        (decode_little_endian-le_bytes 4 (crc32c (file_fields created)) (omega arith) (crc32c-lt _))

  pub decode_created :
      IsI64 created → from_u64 (decode_little_endian 8 (file_header created) 16) ≡ created
  unfolding decode_little_endian
  decode_created h = rw file_header_layout (
      ap from_u64
        (decode_little_endian-le_bytes 8 (to_u64 created) (omega arith) (to_u64-lt created))
      ∙ from_u64-to_u64 created h)

pub length-record_bytes : (index : ℕ) (e : Entry) → length (record_bytes index e) ≡ entry_size e
unfolding record_bytes
length-record_bytes index e = omega (
  arith,
  length-append (record_header e.payload index e.arrival) e.payload,
  length-record_header e.payload index e.arrival,
)

pub length-records_bytes :
    (index : ℕ) (es : List Entry) → length (records_bytes index es) ≡ entries_size es
unfolding records_bytes
length-records_bytes index [] = refl
length-records_bytes index (e ∷ es) = omega (
  arith,
  length-append (record_bytes index e) (records_bytes (index + 1) es),
  length-record_bytes index e,
  length-records_bytes (index + 1) es,
)

pub length-log_bytes :
    (created : ℤ) (es : List Entry)
    → length (log_bytes created es) ≡ file_header_size + entries_size es
unfolding log_bytes
length-log_bytes created es = omega (
  arith,
  length-append (file_header created) (records_bytes 0 es),
  length-file_header created,
  length-records_bytes 0 es,
)
