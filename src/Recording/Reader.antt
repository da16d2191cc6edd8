-- ===== src/Recording/Reader.antt =====
-- `read_log` of src/recording/log.cpp.
pub mod Loop
pub mod Round
pub mod Prefix
pub mod Checks
pub mod Sound
use Prim.Native.String.{String}
use trace_forge.Common.{
  ℕ, zero, suc, ◌+◌, ◌-◌, ◌*◌, ◌%◌, ◌^◌, Bool, true, false, not, ◌||◌, ltb, leb, ◌==◌,
  if◌then◌else◌, Option, none, some, List, [], ◌∷◌, ◌++◌, length, take, drop, Bytes, bytes_eq,
  u64_mod,
}
use trace_forge.Common.Int.{ℤ, pos, from_u64}
use trace_forge.Telemetry.Event.{TelemetryEvent, Protobuf, telemetry_schema_version}
use trace_forge.Recording.{
  LogReadStatus, LogRecord, LogIndexEntry, LogReadOptions, LogReadResult, log_format_version,
  record_format_version, file_header_size, record_header_size, maximum_payload_size,
}
use trace_forge.Recording.LittleEndian.{decode_little_endian}
use trace_forge.Recording.Crc32c.{crc32c}
use trace_forge.Recording.Writer.{file_magic, record_magic}

-- A file as the reader meets it: the size that the file system reports, and the bytes that the stream
-- delivers; `none` where the call fails. The two disagree if the file changes meanwhile.
pub record FileView : Type 0 where
  pub reported_size : Option ℕ
  pub stream : Option Bytes

-- A file that nobody touches.
abbrev pub settled : Bytes → FileView
settled bytes = record { reported_size = some (length bytes); stream = some bytes }

-- `input.read` of `count` bytes: they and the rest, or a short read.
unfoldable pub read_exact : ℕ → Bytes → Option (Bytes × Bytes)
read_exact count input =
    if leb count (length input) then some (take count input, drop count input) else none

-- An early `return make_failure(…)`, or the value to go on with.
pub data Step {ℓ} (A : Type ℓ) : Type ℓ where
  next : A → Step A
  stop : LogReadStatus → String → Step A

infixl 5 ◌>>=◌ ◌>>◌
abbrev pub ◌>>=◌ {ℓ κ} : {A : Type ℓ} {B : Type κ} → Step A → (A → Step B) → Step B
next a >>= f = f a
stop status message >>= f = stop status message

abbrev pub ◌>>◌ {ℓ} : {B : Type ℓ} → Step (Unit {0}) → Step B → Step B
m >> k = m >>= λ _. k

abbrev pub stop_if : Bool → LogReadStatus → String → Step (Unit {0})
stop_if true status message = stop status message
stop_if false status message = next tt

abbrev pub or_stop {ℓ} : {A : Type ℓ} → Option A → LogReadStatus → String → Step A
or_stop none status message = stop status message
or_stop (some a) status message = next a

unfoldable pub make_failure : LogReadResult → LogReadStatus → ℕ → String → LogReadResult
make_failure result status offset message = record result {
  status = status;
  error_offset = offset;
  message = message;
}

-- The checks on a record's header, in the order of the source.
unfoldable pub check_record_header : Bytes → Step (Unit {0})
check_record_header header = do
  stop_if (not (bytes_eq record_magic (take 4 header))) LogReadStatus.corrupt "invalid record magic"
  stop_if
      (not (decode_little_endian 2 header 4 == record_header_size)
        || not (decode_little_endian 2 header 6 == record_format_version))
      LogReadStatus.corrupt "unsupported record header version or size"
  stop_if (not (decode_little_endian 4 header 32 == crc32c (take 32 header))) LogReadStatus.corrupt
      "record header checksum mismatch"

-- What the payload and the rest of the header must satisfy, and the record that they make.
unfoldable pub check_record_payload :
    Protobuf → ℕ → ℕ → Bytes → Bytes → Step (LogRecord × LogIndexEntry)
check_record_payload p offset expected header payload = do
  stop_if (not (decode_little_endian 4 header 12 == crc32c payload)) LogReadStatus.corrupt
      "record payload checksum mismatch"
  let record_index = decode_little_endian 8 header 16
  stop_if (not (record_index == expected)) LogReadStatus.corrupt "record index is not contiguous"
  let arrival = from_u64 (decode_little_endian 8 header 24)
  event ← or_stop (p.parse payload) LogReadStatus.corrupt "telemetry payload is not valid Protobuf"
  stop_if (not (event.schema_version == telemetry_schema_version)) LogReadStatus.corrupt
      "unsupported telemetry schema version"
  next (
    record {
      record_index = record_index;
      file_offset = offset;
      collector_arrival_timestamp_ns = arrival;
      event = event;
    },
    record {
      record_index = record_index;
      file_offset = offset;
      payload_size = decode_little_endian 4 header 8;
      payload_crc32c = decode_little_endian 4 header 12;
      collector_arrival_timestamp_ns = arrival;
      source_timestamp_ns = event.source_timestamp_ns;
    },
  )

-- A round of the loop of `read_log` behind the header's checks: the payload.
unfoldable pub read_payload :
    Protobuf → ℕ → ℕ → ℕ → Bytes → Bytes → Step (LogRecord × LogIndexEntry × Bytes)
read_payload p file_size offset expected header input = do
  let payload_size = decode_little_endian 4 header 8
  stop_if (ltb maximum_payload_size payload_size) LogReadStatus.resource_limit
      "record payload exceeds format limit"
  stop_if (ltb (file_size - offset - record_header_size) payload_size) LogReadStatus.truncated_tail
      "final record payload is incomplete"
  (payload, rest) ←
      or_stop (read_exact payload_size input) LogReadStatus.io_error "failed to read record payload"
  (log_record, entry) ← check_record_payload p offset expected header payload
  next (log_record, entry, rest)

-- One round of the loop of `read_log`, from `result.index.size() == options.maximum_records` to
-- `result.index.push_back`: the record, its index entry and the input behind it.
unfoldable pub read_record :
    Protobuf
    → LogReadOptions
    → LogReadResult
    → ℕ
    → ℕ
    → Bytes
    → Step (LogRecord × LogIndexEntry × Bytes)
read_record p options result offset expected input = do
  stop_if (length result.index == options.maximum_records) LogReadStatus.resource_limit
      "record-count limit reached"
  stop_if (ltb (result.file_size - offset) record_header_size) LogReadStatus.truncated_tail
      "final record header is incomplete"
  (header, rest) ←
      or_stop (read_exact record_header_size input) LogReadStatus.io_error
        "failed to read record header"
  check_record_header header
  read_payload p result.file_size offset expected header rest

-- The end of a round.
unfoldable pub add_record :
    LogReadOptions → LogReadResult → LogRecord → LogIndexEntry → ℕ → LogReadResult
add_record options result log_record entry offset = record result {
  index = result.index ++ entry ∷ [];
  records = if options.retain_records then result.records ++ log_record ∷ [] else result.records;
  valid_bytes = offset;
}

-- `offset` after a round.
abbrev pub next_offset : ℕ → LogIndexEntry → ℕ
next_offset offset entry = (offset + (record_header_size + entry.payload_size)) % u64_mod

-- The loop, with fuel; `none` means that the fuel ran out.
unfoldable pub read_records :
    ℕ → Protobuf → LogReadOptions → LogReadResult → ℕ → ℕ → Bytes → Option LogReadResult
read_records zero p options result offset expected input = none
read_records (suc fuel) p options result offset expected input =
    elim (leb result.file_size offset) [
      | true ↦ some (record result { status = LogReadStatus.complete; message = "log is complete" })
      | false ↦ elim (read_record p options result offset expected input) [
        | stop status message ↦ some (make_failure result status offset message)
        | next (log_record, entry, rest) ↦
            read_records fuel p options
              (add_record options result log_record entry (next_offset offset entry))
              (next_offset offset entry) ((expected + 1) % u64_mod) rest
      ]
    ]

-- The checks on the file's header: its creation time and the input behind it.
unfoldable pub read_file_header : Bytes → ℕ → Step (ℤ × Bytes)
read_file_header input file_size = do
  stop_if (ltb file_size file_header_size) LogReadStatus.corrupt "file header is incomplete"
  (header, rest) ←
      or_stop (read_exact file_header_size input) LogReadStatus.io_error
        "failed to read file header"
  stop_if (not (bytes_eq file_magic (take 8 header))) LogReadStatus.corrupt "invalid log magic"
  stop_if
      (not (decode_little_endian 2 header 8 == log_format_version)
        || not (decode_little_endian 2 header 10 == file_header_size))
      LogReadStatus.corrupt "unsupported log header version or size"
  stop_if (not (decode_little_endian 4 header 28 == crc32c (take 28 header))) LogReadStatus.corrupt
      "file header checksum mismatch"
  next (from_u64 (decode_little_endian 8 header 16), rest)

abbrev pub empty_result : LogReadResult
empty_result = record {
  status = LogReadStatus.io_error;
  created_unix_ns = pos 0;
  file_size = 0;
  valid_bytes = 0;
  error_offset = 0;
  message = "";
  index = [];
  records = [];
}

-- Every record takes 36 bytes at least, so the size of the file is enough fuel.
unfoldable pub read_log : Protobuf → FileView → LogReadOptions → Option LogReadResult
read_log p file options = elim file.reported_size [
  | none ↦
      some (make_failure empty_result LogReadStatus.io_error 0 "failed to determine log file size")
  | some file_size ↦
      let result = record empty_result { file_size = file_size } in
      elim file.stream [
        | none ↦ some (make_failure result LogReadStatus.io_error 0 "failed to open log file")
        | some input ↦ elim (read_file_header input file_size) [
          | stop status message ↦ some (make_failure result status 0 message)
          | next (created, rest) ↦
              read_records (suc file_size) p options
                (record result { created_unix_ns = created; valid_bytes = file_header_size })
                file_header_size 0 rest
        ]
      ]
]
