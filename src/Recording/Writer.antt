-- ===== src/Recording/Writer.antt =====
-- `LogWriter` of src/recording/log.cpp. A method returns the new writer and its result; the device,
-- the file system and Protobuf are arguments.
pub mod Outcome
pub mod Session
use Prim.Native.String.{String, ◌++◌ as str_append}
use trace_forge.Common.{
  ℕ, zero, suc, ◌+◌, ◌*◌, ◌%◌, ◌≡◌, Bool, true, false, not, ◌&&◌, ltb, ◌==◌, if◌then◌else◌, Option,
  none, some, List, [], ◌∷◌, ◌++◌, length, take, replicate, Bytes, u32_mod, u64_mod,
}
use trace_forge.Common.Int.{ℤ, pos, to_u64, eqb_ℤ}
use trace_forge.Telemetry.Event.{TelemetryEvent, Protobuf, telemetry_schema_version}
use trace_forge.Recording.{
  log_format_version, record_format_version, file_header_size, record_header_size,
  maximum_payload_size,
}
use trace_forge.Recording.LittleEndian.{encode_little_endian}
use trace_forge.Recording.Crc32c.{crc32c}
use trace_forge.Recording.Stream.{
  Device, Environment, Stream, closed_stream, open_stream, write, flush_stream,
}

-- 'T' 'F' 'L' 'O' 'G' '\r' '\n' 0x1A
abbrev pub file_magic : Bytes
file_magic = 84 ∷ 70 ∷ 76 ∷ 79 ∷ 71 ∷ 13 ∷ 10 ∷ 0x1a ∷ []

-- 'T' 'F' 'R' '1'
abbrev pub record_magic : Bytes
record_magic = 84 ∷ 70 ∷ 82 ∷ 49 ∷ []

pub record LogWriterOptions : Type 0 where
  pub flush_every_records : ℕ
  pub created_unix_ns : ℤ

pub record LogWriter : Type 0 where
  pub path : String
  pub options : LogWriterOptions
  pub output : Stream
  pub error : String
  pub record_count : ℕ
  pub bytes_written : ℕ

-- `std::string::empty`.
abbrev pub is_empty : String → Bool
is_empty String.[] = true
is_empty (String.◌∷◌ c s) = false

abbrev pub good : LogWriter → Bool
good w = is_empty w.error && (w.output.is_open && w.output.healthy)

-- Only the first failure is kept.
unfoldable pub fail : LogWriter → String → LogWriter
fail w message = if is_empty w.error then record w { error = message } else w

unfoldable pub write_bytes : Device → LogWriter → Bytes → LogWriter × Bool
write_bytes d w bytes =
    let output = write d w.output bytes in
    let w' = record w { output = output } in
    if output.healthy
    then (record w' { bytes_written = (w.bytes_written + length bytes) % u64_mod }, true)
    else (fail w' "failed while writing telemetry log", false)

-- The 32 bytes that `write_file_header` writes. `std::copy` puts the magic over the zeros in front.
unfoldable pub file_header : ℤ → Bytes
unfolding encode_little_endian
file_header created_unix_ns =
    let header = file_magic ++ replicate 24 0 in
    let header = encode_little_endian 2 header 8 log_format_version in
    let header = encode_little_endian 2 header 10 file_header_size in
    let header = encode_little_endian 4 header 12 0 in
    let header = encode_little_endian 8 header 16 (to_u64 created_unix_ns) in
    let header = encode_little_endian 4 header 24 0 in
    encode_little_endian 4 header 28 (crc32c (take 28 header))

-- The 36 bytes of a record's header in `append`.
unfoldable pub record_header : Bytes → ℕ → ℤ → Bytes
unfolding encode_little_endian
record_header payload record_count collector_arrival_timestamp_ns =
    let header = record_magic ++ replicate 32 0 in
    let header = encode_little_endian 2 header 4 record_header_size in
    let header = encode_little_endian 2 header 6 record_format_version in
    let header = encode_little_endian 4 header 8 (length payload % u32_mod) in
    let header = encode_little_endian 4 header 12 (crc32c payload) in
    let header = encode_little_endian 8 header 16 record_count in
    let header = encode_little_endian 8 header 24 (to_u64 collector_arrival_timestamp_ns) in
    encode_little_endian 4 header 32 (crc32c (take 32 header))

unfoldable pub write_file_header : Device → LogWriter → LogWriter × Bool
write_file_header d w = write_bytes d w (file_header w.options.created_unix_ns)

unfoldable pub flush : Device → LogWriter → LogWriter × Bool
flush d w =
    let w' = record w { output = flush_stream d w.output } in
    if good w
    then (if w'.output.healthy
        then (w', true)
        else (fail w' "failed to flush telemetry log", false))
    else (w, false)

-- The constructor, once the options are sound and the file is known to be absent.
unfoldable pub open_log : Device → Environment → LogWriter → LogWriter
open_log d env w =
    let w' = record w { output = open_stream env } in
    if env.opens
    then (write_file_header d w').0
    else fail w' (str_append "failed to open log for writing: " w.path)

unfoldable pub create : Device → Environment → String → LogWriterOptions → LogWriter
create d env path options =
    let created =
      if eqb_ℤ options.created_unix_ns (pos 0) then env.now else options.created_unix_ns in
    let w : LogWriter = record {
      path = path;
      options = options;
      output = closed_stream;
      error = "";
      record_count = 0;
      bytes_written = 0;
    } in
    let w' = record w { options = record options { created_unix_ns = created } } in
    if options.flush_every_records == 0
    then fail w "flush_every_records must be positive"
    else elim env.exists [
      | none ↦ fail w' "failed to check whether output log already exists"
      | some true ↦ fail w' (str_append "refusing to overwrite existing telemetry log: " path)
      | some false ↦ open_log d env w'
    ]

-- The end of `append`: count the record, and flush when it is due.
unfoldable pub count_record : Device → LogWriter → LogWriter × Bool
count_record d w =
    let count = (w.record_count + 1) % u64_mod in
    let w' = record w { record_count = count } in
    if count % w.options.flush_every_records == 0 then flush d w' else (w', true)

unfoldable pub append_payload : Device → LogWriter → Bytes → ℤ → LogWriter × Bool
append_payload d w payload timestamp =
    let (w₁, ok₁) = write_bytes d w (record_header payload w.record_count timestamp) in
    let (w₂, ok₂) = write_bytes d w₁ payload in
    if ltb maximum_payload_size (length payload)
    then (fail w "telemetry payload exceeds the format limit", false)
    else if ok₁
    then (if ok₂ then count_record d w₂ else (w₂, false))
    else (w₁, false)

unfoldable pub append : Device → Protobuf → LogWriter → TelemetryEvent → ℤ → LogWriter × Bool
append d p w event timestamp =
    if good w
    then (if event.schema_version == telemetry_schema_version
        then elim (p.serialize event) [
          | none ↦ (fail w "failed to serialize telemetry event", false)
          | some payload ↦ append_payload d w payload timestamp
        ]
        else (fail w "refusing to write an unsupported telemetry schema version", false))
    else (w, false)
