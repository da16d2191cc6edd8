-- ===== src/Recording/Format.antt =====
-- The layout of docs/recording-format.md as byte sequences, and the headers of
-- src/recording/log.cpp against it.
pub mod Fields
use trace_forge.Common.{
  ℕ, ◌+◌, ◌-◌, ◌%◌, ◌≤◌, ◌≡◌, leb, if◌then◌else◌, List, [], ◌∷◌, ◌++◌, length, Bytes, some, u32_mod,
}
use trace_forge.Common.Int.{ℤ, to_u64, IsI64}
use trace_forge.Telemetry.Event.{TelemetryEvent, Protobuf, telemetry_schema_version}
use trace_forge.Recording.{LogRecord, LogIndexEntry, maximum_payload_size, record_header_size}
use trace_forge.Recording.LittleEndian.{le_bytes}
use trace_forge.Recording.Crc32c.{crc32c}
use trace_forge.Recording.Writer.{file_magic, record_magic, record_header, file_header}

-- What one record holds: the serialized event, the event that it parses to, and the arrival time.
pub record Entry : Type 0 where
  pub payload : Bytes
  pub event : TelemetryEvent
  pub arrival : ℤ

-- The payload fits the format and parses to an event of the supported schema.
pub record IsEntry (p : Protobuf) (e : Entry) : Type 0 where
  pub fits : length e.payload ≤ maximum_payload_size
  pub parses : p.parse e.payload ≡ some e.event
  pub supported : e.event.schema_version ≡ telemetry_schema_version
  pub in_range : IsI64 e.arrival

-- The record header up to its checksum, field by field.
abbrev pub record_fields : Bytes → ℕ → ℤ → Bytes
record_fields payload index arrival =
    record_magic
    ++ (le_bytes 2 36
        ++ (le_bytes 2 1
            ++ (le_bytes 4 (length payload % u32_mod)
                ++ (le_bytes 4 (crc32c payload)
                    ++ (le_bytes 8 index ++ le_bytes 8 (to_u64 arrival))))))

abbrev pub file_fields : ℤ → Bytes
file_fields created =
    file_magic
    ++ (le_bytes 2 1
        ++ (le_bytes 2 32 ++ (le_bytes 4 0 ++ (le_bytes 8 (to_u64 created) ++ le_bytes 4 0))))

-- A record as it stands in the file.
unfoldable pub record_bytes : ℕ → Entry → Bytes
record_bytes index e = record_header e.payload index e.arrival ++ e.payload

-- The records from a given index on.
unfoldable pub records_bytes : ℕ → List Entry → Bytes
records_bytes index [] = []
records_bytes index (e ∷ es) = record_bytes index e ++ records_bytes (index + 1) es

unfoldable pub log_bytes : ℤ → List Entry → Bytes
log_bytes created es = file_header created ++ records_bytes 0 es

-- The record that a reader should deliver for an entry at a place in the file.
abbrev pub record_of : ℕ → ℕ → Entry → LogRecord
record_of offset index e = record {
  record_index = index;
  file_offset = offset;
  collector_arrival_timestamp_ns = e.arrival;
  event = e.event;
}

abbrev pub index_entry_of : ℕ → ℕ → Entry → LogIndexEntry
index_entry_of offset index e = record {
  record_index = index;
  file_offset = offset;
  payload_size = length e.payload;
  payload_crc32c = crc32c e.payload;
  collector_arrival_timestamp_ns = e.arrival;
  source_timestamp_ns = e.event.source_timestamp_ns;
}

abbrev pub entry_size : Entry → ℕ
entry_size e = record_header_size + length e.payload

abbrev pub entries_size : List Entry → ℕ
entries_size [] = 0
entries_size (e ∷ es) = entry_size e + entries_size es

abbrev pub records_of : ℕ → ℕ → List Entry → List LogRecord
records_of offset index [] = []
records_of offset index (e ∷ es) =
    record_of offset index e ∷ records_of (offset + entry_size e) (index + 1) es

abbrev pub index_of : ℕ → ℕ → List Entry → List LogIndexEntry
index_of offset index [] = []
index_of offset index (e ∷ es) =
    index_entry_of offset index e ∷ index_of (offset + entry_size e) (index + 1) es

-- The entries that lie whole within the first `n` bytes.
unfoldable pub whole : ℕ → List Entry → List Entry
whole n [] = []
whole n (e ∷ es) = if leb (entry_size e) n then e ∷ whole (n - entry_size e) es else []
