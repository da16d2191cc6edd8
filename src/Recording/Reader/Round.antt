-- ===== src/Recording/Reader/Round.antt =====
-- One round of `read_log` on what the writer leaves: a whole record, or one that is cut short.
use trace_forge.Common.{
  ℕ, ◌-◌, ◌≤◌, ◌<◌, ◌≡◌, refl, sym, arith, ◌++◌, length, take, Bytes, some, false, ◌==◌,
  length-append, take-append, drop-append, take-append_le, append_assoc, bytes_eq, u64_mod, ◌≢◌,
  le→ltb_false, lt→ltb, eqb_refl,
}
use Prim.Native.String.{String}
use native.Mathlib.Decide.{dec_lt}
use trace_forge.Common.Int.{ℤ, IsI64}
use trace_forge.Telemetry.Event.{Protobuf}
use trace_forge.Recording.{
  LogReadStatus, LogReadOptions, LogReadResult, record_header_size, maximum_payload_size,
}
use trace_forge.Recording.Crc32c.{crc32c}
use trace_forge.Recording.Writer.{record_header, file_header}
use trace_forge.Recording.Format.{
  Entry, IsEntry, record_bytes, record_of, index_entry_of, entry_size,
}
use trace_forge.Recording.Format.Fields.{
  length-record_header, record_header_first_32, record_header_layout, decode_header_size,
  decode_version, decode_header_crc, decode_payload_size, decode_payload_crc, decode_record_index,
  decode_arrival, length-file_header, file_header_layout, file_header_first_28, decode_log_version,
  decode_file_header_size, decode_file_crc, decode_created,
}
use trace_forge.Recording.Reader.{
  next, stop, read_exact, check_record_header, check_record_payload, read_payload, read_record,
  read_file_header,
}

-- Reading exactly the first part of the input.
pub read_exact-append :
    (xs ys : Bytes) (n : ℕ) → n ≡ length xs → read_exact n (xs ++ ys) ≡ some (xs, ys)
unfolding read_exact
read_exact-append xs ys n h =
    ground (arith, length-append xs ys, take-append xs ys n h, drop-append xs ys n h)

pub check_record_header_written :
    (payload : Bytes) (index : ℕ) (arrival : ℤ)
    → check_record_header (record_header payload index arrival) ≡ next tt
unfolding check_record_header bytes_eq
check_record_header_written payload index arrival = rw (
  decode_header_size payload index arrival,
  decode_version payload index arrival,
  decode_header_crc payload index arrival,
  record_header_first_32 payload index arrival,
  record_header_layout payload index arrival,
  eqb_refl,
)

pub check_record_payload_written :
    (p : Protobuf) (offset index : ℕ) (e : Entry)
    → IsEntry p e
    → index < u64_mod
    → check_record_payload p offset index (record_header e.payload index e.arrival) e.payload
      ≡ next (record_of offset index e, index_entry_of offset index e)
unfolding check_record_payload
check_record_payload_written p offset index e v h = rw (
  decode_payload_crc e.payload index e.arrival,
  eqb_refl (crc32c e.payload),
  decode_record_index e.payload index e.arrival h,
  eqb_refl index,
  v.parses,
  v.supported,
  decode_arrival e.payload index e.arrival v.in_range,
  decode_payload_size e.payload index e.arrival (omega (arith, v.fits)),
)

module _ (p : Protobuf) (options : LogReadOptions) (result : LogReadResult) (offset index : ℕ)
    (e : Entry) (v : IsEntry p e) (h : index < u64_mod)
    (room : length result.index ≢ options.maximum_records) where
  room_test : (length result.index == options.maximum_records) ≡ false
  room_test = ground arith

  -- A whole record is read, and the input behind it is left.
  pub read_record_whole :
      (rest : Bytes)
      → entry_size e ≤ result.file_size - offset
      → read_record p options result offset index (record_bytes index e ++ rest)
        ≡ next (record_of offset index e, index_entry_of offset index e, rest)
  unfolding read_record read_payload record_bytes
  read_record_whole rest fits = rw (
    room_test,
    le→ltb_false (result.file_size - offset) record_header_size (omega arith),
    append_assoc (record_header e.payload index e.arrival) e.payload rest,
    read_exact-append (record_header e.payload index e.arrival) (e.payload ++ rest) 36
        (sym (length-record_header e.payload index e.arrival)),
    check_record_header_written e.payload index e.arrival,
    decode_payload_size e.payload index e.arrival (omega (arith, v.fits)),
    le→ltb_false maximum_payload_size (length e.payload) v.fits,
    le→ltb_false (result.file_size - offset - record_header_size) (length e.payload) (omega arith),
    read_exact-append e.payload rest (length e.payload) refl,
    check_record_payload_written p offset index e v h,
  )

  -- A record that ends before its last byte is reported as a truncated tail, wherever it ends.
  pub read_record_cut :
      (n : ℕ)
      → n < entry_size e
      → result.file_size - offset ≡ n
      → (message : String) × (read_record p options result offset index
            (take n (record_bytes index e))
          ≡ stop LogReadStatus.truncated_tail message)
  unfolding read_record read_payload record_bytes
  read_record_cut n short size = elim (dec_lt n record_header_size) [
    | yes headless ↦ (
      "final record header is incomplete",
      rw (room_test, size, lt→ltb n record_header_size headless),
    )
    | no headed ↦ (
      "final record payload is incomplete",
      rw (
        room_test,
        size,
        le→ltb_false n record_header_size (omega arith),
        take-append_le (record_header e.payload index e.arrival) e.payload n
            (omega (arith, length-record_header e.payload index e.arrival)),
        read_exact-append (record_header e.payload index e.arrival)
            (take (n - length (record_header e.payload index e.arrival)) e.payload) 36
            (sym (length-record_header e.payload index e.arrival)),
        check_record_header_written e.payload index e.arrival,
        decode_payload_size e.payload index e.arrival (omega (arith, v.fits)),
        le→ltb_false maximum_payload_size (length e.payload) v.fits,
        lt→ltb (n - record_header_size) (length e.payload) (omega arith),
      ),
    )
  ]

-- A whole file header is accepted.
pub read_file_header_whole :
    (created : ℤ) (rest : Bytes) (size : ℕ)
    → IsI64 created
    → 32 ≤ size
    → read_file_header (file_header created ++ rest) size ≡ next (created, rest)
unfolding read_file_header bytes_eq
read_file_header_whole created rest size h fits = rw (
  le→ltb_false size 32 fits,
  read_exact-append (file_header created) rest 32 (sym (length-file_header created)),
  decode_log_version created,
  decode_file_header_size created,
  decode_file_crc created,
  file_header_first_28 created,
  decode_created created h,
  file_header_layout created,
  eqb_refl,
)

-- A file that is shorter than its header is refused as corrupt.
pub read_file_header_short :
    (input : Bytes) (size : ℕ)
    → size < 32
    → read_file_header input size ≡ stop LogReadStatus.corrupt "file header is incomplete"
unfolding read_file_header
read_file_header_short input size h = rw (lt→ltb size 32 h)
