-- ===== src/Recording/Reader/Checks.antt =====
-- One round of `read_log` on any input: what a delivered record has passed, and how a round stops.
use trace_forge.Common.{ℕ, ◌+◌, ◌-◌, ◌≤◌, ◌≡◌, ◌≢◌, arith, length, take, drop, Bytes, some}
use trace_forge.Common.Int.{ℤ}
use trace_forge.Telemetry.Event.{Protobuf, telemetry_schema_version}
use trace_forge.Recording.{
  LogReadStatus, LogReadOptions, LogReadResult, LogRecord, LogIndexEntry, record_header_size,
  maximum_payload_size,
}
use trace_forge.Recording.LittleEndian.{decode_little_endian}
use trace_forge.Recording.Crc32c.{crc32c}
use trace_forge.Recording.Reader.{
  Step, next, stop, read_exact, check_record_header, check_record_payload, read_payload,
  read_record, read_file_header,
}

-- What the record that a round delivers has passed.
pub record IsChecked (p : Protobuf) (size offset expected : ℕ) (input : Bytes)
    (entry : LogIndexEntry) (rest : Bytes) (log_record : LogRecord) : Type 0 where
  pub placed : entry.file_offset ≡ offset
  pub numbered : entry.record_index ≡ expected
  pub bounded : entry.payload_size ≤ maximum_payload_size
  pub inside : record_header_size + entry.payload_size ≤ size - offset
  pub summed : crc32c (take entry.payload_size (drop 36 input)) ≡ entry.payload_crc32c
  pub parsed : p.parse (take entry.payload_size (drop 36 input)) ≡ some log_record.event
  pub supported : log_record.event.schema_version ≡ telemetry_schema_version
  pub stamped : log_record.event.source_timestamp_ns ≡ entry.source_timestamp_ns
  pub left : rest ≡ drop entry.payload_size (drop 36 input)

pub check_record_payload_inv :
    (p : Protobuf) (offset expected : ℕ) (header payload : Bytes) (log_record : LogRecord)
    (entry : LogIndexEntry)
    → check_record_payload p offset expected header payload ≡ next (log_record, entry)
    → (entry.file_offset ≡ offset)
      × (entry.record_index ≡ expected)
      × (entry.payload_size ≡ decode_little_endian 4 header 8)
      × (crc32c payload ≡ entry.payload_crc32c)
      × (p.parse payload ≡ some log_record.event)
      × (log_record.event.schema_version ≡ telemetry_schema_version)
      × (log_record.event.source_timestamp_ns ≡ entry.source_timestamp_ns)
unfolding check_record_payload
check_record_payload_inv p offset expected header payload log_record entry h = ground arith

read_payload_inv :
    (p : Protobuf) (size offset expected : ℕ) (header input : Bytes) (log_record : LogRecord)
    (entry : LogIndexEntry) (rest : Bytes)
    → read_payload p size offset expected header input ≡ next (log_record, entry, rest)
    → let n = decode_little_endian 4 header 8 in
      (n ≤ maximum_payload_size)
      × (n ≤ size - offset - record_header_size)
      × (check_record_payload p offset expected header (take n input) ≡ next (log_record, entry))
      × (rest ≡ drop n input)
unfolding read_payload read_exact
read_payload_inv p size offset expected header input log_record entry rest h = ground arith

read_record_inv :
    (p : Protobuf) (options : LogReadOptions) (result : LogReadResult) (offset expected : ℕ)
    (input : Bytes) (log_record : LogRecord) (entry : LogIndexEntry) (rest : Bytes)
    → read_record p options result offset expected input ≡ next (log_record, entry, rest)
    → (record_header_size ≤ result.file_size - offset)
      × (length result.index ≢ options.maximum_records)
      × (read_payload p result.file_size offset expected (take 36 input) (drop 36 input)
          ≡ next (log_record, entry, rest))
unfolding read_record read_exact
read_record_inv p options result offset expected input log_record entry rest h = ground arith

pub read_record_checks :
    (p : Protobuf) (options : LogReadOptions) (result : LogReadResult) (offset expected : ℕ)
    (input : Bytes) (log_record : LogRecord) (entry : LogIndexEntry) (rest : Bytes)
    → read_record p options result offset expected input ≡ next (log_record, entry, rest)
    → IsChecked p result.file_size offset expected input entry rest log_record
read_record_checks p options result offset expected input log_record entry rest h =
    let (long, room, h') =
      read_record_inv p options result offset expected input log_record entry rest h in
    let (bounded, inside, h'', left) =
      read_payload_inv p result.file_size offset expected _ _ log_record entry rest h' in
    let (placed, numbered, size, summed, parsed, supported, stamped) =
      check_record_payload_inv p offset expected _ _ log_record entry h'' in
    record {
      placed = placed;
      numbered = numbered;
      bounded = omega arith;
      inside = omega arith;
      summed = rw size summed;
      parsed = rw size parsed;
      supported = supported;
      stamped = stamped;
      left = rw size left;
    }

-- No stop has the status of a complete log.
abbrev pub Stops {ℓ} : {A : Type ℓ} → Step A → Type 0
Stops (next a) = Unit {0}
Stops (stop status message) = status ≢ LogReadStatus.complete

check_record_header-Stops : (header : Bytes) → Stops (check_record_header header)
unfolding check_record_header
check_record_header-Stops header = ground arith

check_record_payload-Stops :
    (p : Protobuf) (offset expected : ℕ) (header payload : Bytes)
    → Stops (check_record_payload p offset expected header payload)
unfolding check_record_payload
check_record_payload-Stops p offset expected header payload = ground arith

read_payload-Stops :
    (p : Protobuf) (size offset expected : ℕ) (header input : Bytes)
    → Stops (read_payload p size offset expected header input)
unfolding read_payload read_exact
read_payload-Stops p size offset expected header input = ground (
  arith,
  check_record_payload-Stops p offset expected header
      (take (decode_little_endian 4 header 8) input),
)

pub read_record-Stops :
    (p : Protobuf) (options : LogReadOptions) (result : LogReadResult) (offset expected : ℕ)
    (input : Bytes)
    → Stops (read_record p options result offset expected input)
unfolding read_record read_exact
read_record-Stops p options result offset expected input = ground (
  arith,
  check_record_header-Stops (take 36 input),
  read_payload-Stops p result.file_size offset expected (take 36 input) (drop 36 input),
)

pub read_file_header-Stops : (input : Bytes) (size : ℕ) → Stops (read_file_header input size)
unfolding read_file_header read_exact
read_file_header-Stops input size = ground arith

pub read_file_header_left :
    (input rest : Bytes) (size : ℕ) (created : ℤ)
    → read_file_header input size ≡ next (created, rest)
    → (32 ≤ size) × (rest ≡ drop 32 input)
unfolding read_file_header read_exact
read_file_header_left input rest size created h = ground arith
