-- ===== src/Replay/Tests.antt =====
-- A replay of small files.
use trace_forge.Common.{
  ℕ, ◌+◌, ◌≡◌, ◌⊎◌, refl, arith, true, some, none, List, [], ◌∷◌, ◌++◌, Bytes, Option, replicate,
  take, ◌<◌,
}
use trace_forge.Common.Int.{pos}
use trace_forge.Telemetry.Event.{TelemetryEvent, Payload, Protobuf}
use trace_forge.Recording.{LogRecord, LogIndexEntry, LogReadResult, file_header_size}
use trace_forge.Recording.Crc32c.{crc32c}
use trace_forge.Recording.Format.{Entry, IsEntry, log_bytes}
use trace_forge.Recording.Reader.{settled, read_log}
use trace_forge.Recording.Reader.Prefix.{HasRead, started, read_log_prefix}
use trace_forge.Replay.{
  ReplayOptions, ReplayEngine, ReplayConsumer, index_log, hash_bytes, hash_byte, fnv_offset_basis,
}
use trace_forge.Replay.Complete.{
  IsIndexOf, IsUnusable, index_options, create_read, create-IsIndexOf,
}

-- The FNV-1a hash of "a".
hash_a : hash_bytes fnv_offset_basis (97 ∷ []) ≡ 0xaf63_dc4c_8601_ec8c
unfolding hash_bytes hash_byte
hash_a = refl

abbrev sensor_event : ℕ → TelemetryEvent
sensor_event n = record {
  schema_version = 1;
  producer_id = 97 ∷ [];
  sequence_number = n;
  source_timestamp_ns = pos 1;
  source_clock = pos 1;
  payload = Payload.payload_not_set;
}

abbrev parse_first : Bytes → Option TelemetryEvent
parse_first [] = none
parse_first (n ∷ bytes) = some (sensor_event n)

abbrev one_byte_protobuf : Protobuf
one_byte_protobuf = record { serialize = λ e. some (e.sequence_number ∷ []); parse = parse_first }

abbrev sensor_entry : ℕ → Entry
sensor_entry n = record { payload = n ∷ []; event = sensor_event n; arrival = pos n }

sensor-IsEntry : (n : ℕ) → n < 100 → IsEntry one_byte_protobuf (sensor_entry n)
sensor-IsEntry n h = record {
  fits = omega arith;
  parses = refl;
  supported = refl;
  in_range = (omega arith, omega arith);
}

abbrev sensor_entries : List Entry
sensor_entries = sensor_entry 8 ∷ sensor_entry 3 ∷ []

full_read :
    (r : LogReadResult) × (read_log one_byte_protobuf
        (settled (take (file_header_size + 74) (log_bytes (pos 5) sensor_entries)))
        (index_options 100)
      ≡ some r)
    × HasRead
        (index_options 100)
        (started (pos 5) (file_header_size + 74))
        file_header_size
        0
        74
        sensor_entries
        r
full_read =
    read_log_prefix one_byte_protobuf (index_options 100) (pos 5) sensor_entries 74
      (omega arith, omega arith)
      (sensor-IsEntry 8 (omega arith), (sensor-IsEntry 3 (omega arith), tt)) (omega arith)
      (omega arith) (omega arith)

create-IsIndexOf_example :
    ((index_log full_read.0).error ≡ none) × IsIndexOf full_read.0 (index_log full_read.0)
    ⊎ IsUnusable full_read.0 (index_log full_read.0)
create-IsIndexOf_example =
    create-IsIndexOf one_byte_protobuf
      (settled (take (file_header_size + 74) (log_bytes (pos 5) sensor_entries))) 100 full_read.0
      (index_log full_read.0) full_read.1
      (create_read one_byte_protobuf
        (settled (take (file_header_size + 74) (log_bytes (pos 5) sensor_entries))) 100 full_read.0
        full_read.1)

-- Two records behind each other; their headers are not read by a replay.
abbrev two_records : Bytes
two_records = replicate 36 0 ++ 8 ∷ replicate 36 0 ++ 3 ∷ []

abbrev index_entry : ℕ → ℕ → ℕ → LogIndexEntry
index_entry number offset n = record {
  record_index = number;
  file_offset = offset;
  payload_size = 1;
  payload_crc32c = crc32c (n ∷ []);
  collector_arrival_timestamp_ns = pos n;
  source_timestamp_ns = pos 1;
}

abbrev two_engine : ReplayEngine
two_engine = record { index = index_entry 1 37 3 ∷ index_entry 0 0 8 ∷ []; error = none }

abbrev from_five : ReplayOptions
from_five = record {
  from_collector_timestamp_ns = some (pos 5);
  until_collector_timestamp_ns = none;
  speed = 0;
}

-- A consumer that keeps the records.
abbrev keeping_records : ReplayConsumer (List LogRecord)
keeping_records = some (λ records log_record. (records ++ log_record ∷ [], true))
