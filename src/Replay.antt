-- ===== src/Replay.antt =====
-- `ReplayEngine` of src/replay/replay.cpp, over the log that src/recording writes. The waits of a replay
-- at a positive speed have no part in its result and are left out.
pub mod Index
pub mod Window
pub mod Complete
mod Tests
use Prim.Native.Nat.{bit_xor}
use Prim.Native.String.{String}
use trace_forge.Common.{
  ℕ, zero, suc, ◌+◌, ◌*◌, ◌/◌, ◌%◌, ◌^◌, Bool, true, false, not, ◌||◌, ltb, leb, ◌==◌,
  if◌then◌else◌, Option, none, some, List, [], ◌∷◌, length, take, drop, Bytes, u32_mod, u64_mod,
}
use mathlib.Core.Option
use trace_forge.Common.Int.{ℤ, ltb_ℤ, leb_ℤ, eqb_ℤ, to_u64}
use trace_forge.Telemetry.Double.{Double, is_finite, less, d_zero}
use trace_forge.Telemetry.Event.{Protobuf, TelemetryEvent, telemetry_schema_version}
use trace_forge.Recording.{
  LogReadStatus, LogRecord, LogIndexEntry, LogReadOptions, LogReadResult, record_header_size,
}
use trace_forge.Recording.Crc32c.{crc32c}
use trace_forge.Recording.Reader.{FileView, read_log}

abbrev pub fnv_offset_basis : ℕ
fnv_offset_basis = 14_695_981_039_346_656_037

abbrev pub fnv_prime : ℕ
fnv_prime = 1_099_511_628_211

unfoldable pub hash_byte : ℕ → ℕ → ℕ
hash_byte hash byte = bit_xor hash byte * fnv_prime % u64_mod

-- An unsigned value of `width` bytes; a signed one is cast by `to_u64`.
unfoldable pub hash_little_endian : ℕ → ℕ → ℕ → ℕ
hash_little_endian zero hash remaining = hash
hash_little_endian (suc width) hash remaining =
    hash_little_endian width (hash_byte hash (remaining % 256)) (remaining / 256)

unfoldable pub hash_bytes : ℕ → Bytes → ℕ
hash_bytes hash [] = hash
hash_bytes hash (byte ∷ bytes) = hash_bytes (hash_byte hash byte) bytes

pub record ReplayOptions : Type 0 where
  pub from_collector_timestamp_ns : Option ℤ
  pub until_collector_timestamp_ns : Option ℤ
  pub speed : Double

pub data ReplayStatus : Type 0 where
  complete invalid_options log_error io_error consumer_error : ReplayStatus

-- The texts of `message`; `cannot_index` is followed by the reader's message.
pub data ReplayMessage : Type 0 where
  no_message replay_completed speed_not_valid until_not_after_from open_failed read_failed :
      ReplayMessage
  payload_changed payload_not_valid consumer_rejected : ReplayMessage
  cannot_index : String → ReplayMessage

pub record ReplayResult : Type 0 where
  pub status : ReplayStatus
  pub indexed_records : ℕ
  pub replayed_records : ℕ
  pub hash : ℕ
  pub first_timestamp_ns : Option ℤ
  pub last_timestamp_ns : Option ℤ
  pub message : ReplayMessage

-- `error` is `none` where the string is empty.
pub record ReplayEngine : Type 0 where
  pub index : List LogIndexEntry
  pub error : Option ReplayMessage

-- The order of the index.
abbrev pub precedes : LogIndexEntry → LogIndexEntry → Bool
precedes left right =
    if not (eqb_ℤ left.collector_arrival_timestamp_ns right.collector_arrival_timestamp_ns)
    then ltb_ℤ left.collector_arrival_timestamp_ns right.collector_arrival_timestamp_ns
    else ltb left.record_index right.record_index

abbrev pub insert_entry : LogIndexEntry → List LogIndexEntry → List LogIndexEntry
insert_entry entry [] = entry ∷ []
insert_entry entry (first ∷ rest) =
    let inserted = insert_entry entry rest in
    if precedes first entry then first ∷ inserted else entry ∷ first ∷ rest

-- `std::sort`; no two entries of an index have the same number, so there is one sorted order.
abbrev pub sort_index : List LogIndexEntry → List LogIndexEntry
sort_index [] = []
sort_index (entry ∷ rest) = insert_entry entry (sort_index rest)

-- The constructor behind `read_log`.
abbrev pub index_log : LogReadResult → ReplayEngine
index_log log = elim log.status [
  | LogReadStatus.complete ↦ record { index = sort_index log.index; error = none }
  | _ ↦ record { index = []; error = some (cannot_index log.message) }
]

-- The constructor; `none` where `read_log` throws.
unfoldable pub create : Protobuf → FileView → ℕ → Option ReplayEngine
create p file maximum_records =
    Option.map index_log
      (read_log p file (record { maximum_records = maximum_records; retain_records = false }))

-- `std::lower_bound` of a sorted range: what is left behind the entries before the time.
abbrev pub lower_bound : List LogIndexEntry → ℤ → List LogIndexEntry
lower_bound [] timestamp = []
lower_bound (entry ∷ rest) timestamp =
    let found = lower_bound rest timestamp in
    if ltb_ℤ entry.collector_arrival_timestamp_ns timestamp then found else entry ∷ rest

-- What the stream reads behind a position: the bytes, if they are all there.
abbrev pub read_at : Bytes → ℕ → ℕ → Option (Bytes × ℕ)
read_at contents position size =
    let bytes = take size (drop position contents) in
    if length bytes == size then some (bytes, position + length bytes) else none

-- The payload and the stream's position behind it. `ignore` stops at the end of the file, and `seekg` fails
-- on an offset that is negative as `std::streamoff`.
unfoldable pub read_payload : Bytes → ℕ → LogIndexEntry → Bool → Option (Bytes × ℕ)
read_payload contents position entry sequential_record =
    let skipped =
      if leb (position + record_header_size) (length contents)
      then position + record_header_size
      else length contents in
    let target = (entry.file_offset + record_header_size) % u64_mod in
    if sequential_record
    then read_at contents skipped entry.payload_size
    else if leb (2 ^ 63) target
    then none
    else read_at contents target entry.payload_size

-- The local variables of `replay`, with the state of the consumer.
pub record ReplayState (C : Type 0) : Type 0 where
  pub result : ReplayResult
  pub position : ℕ
  pub next_physical_offset : Option ℕ
  pub consumer : C

-- An empty `ReplayConsumer`, or one with its state.
abbrev pub ReplayConsumer : Type 0 → Type 0
ReplayConsumer C = Option (C → LogRecord → C × Bool)

abbrev pub consume : {C : Type 0} → ReplayConsumer C → C → LogRecord → C × Bool
consume none c log_record = (c, true)
consume (some f) c log_record = f c log_record

-- The end of a round: `return` with a failure, or the next one.
pub data Round (C : Type 0) : Type 0 where
  go_on : ReplayState C → Round C
  fails : ReplayStatus → ReplayMessage → ReplayState C → Round C

abbrev pub is_sequential : Option ℕ → LogIndexEntry → Bool
is_sequential none entry = false
is_sequential (some offset) entry = offset == entry.file_offset

abbrev pub first_or : Option ℤ → ℤ → Option ℤ
first_or none timestamp = some timestamp
first_or (some first) timestamp = some first

abbrev pub hash_record : ℕ → LogIndexEntry → Bytes → ℕ
hash_record hash entry payload =
    hash_bytes
      (hash_little_endian 4
        (hash_little_endian 8 (hash_little_endian 8 hash entry.record_index)
          (to_u64 entry.collector_arrival_timestamp_ns))
        (length payload % u32_mod))
      payload

abbrev pub count_replayed : ReplayResult → ℤ → ReplayResult
count_replayed result timestamp = record result {
  first_timestamp_ns = first_or result.first_timestamp_ns timestamp;
  last_timestamp_ns = some timestamp;
  replayed_records = (result.replayed_records + 1) % u64_mod;
}

abbrev pub with_status : {C : Type 0} → ReplayState C → ReplayStatus → ReplayMessage → ReplayState C
with_status s status message = record s {
  result = record (s.result) { status = status; message = message };
}

abbrev pub is_until : Option ℤ → ℤ → Bool
is_until none timestamp = false
is_until (some until) timestamp = leb_ℤ until timestamp

-- The local variables of `replay` at its start.
abbrev pub initial_state : {C : Type 0} → ReplayEngine → C → ReplayState C
initial_state engine c = record {
  result = record {
    status = log_error;
    indexed_records = length engine.index;
    replayed_records = 0;
    hash = fnv_offset_basis;
    first_timestamp_ns = none;
    last_timestamp_ns = none;
    message = no_message;
  };
  position = 0;
  next_physical_offset = none;
  consumer = c;
}

abbrev pub not_after : Option ℤ → Option ℤ → Bool
not_after (some from) (some until) = leb_ℤ until from
not_after (some from) none = false
not_after none until = false

abbrev pub start_at : List LogIndexEntry → Option ℤ → List LogIndexEntry
start_at index none = index
start_at index (some from) = lower_bound index from

module _ {C : Type 0} (p : Protobuf) (consumer : ReplayConsumer C) where
  -- From the hash to the end of a round.
  unfoldable pub deliver : LogIndexEntry → Bytes → TelemetryEvent → ReplayState C → Round C
  deliver entry payload event s =
      let log_record : LogRecord = record {
        record_index = entry.record_index;
        file_offset = entry.file_offset;
        collector_arrival_timestamp_ns = entry.collector_arrival_timestamp_ns;
        event = event;
      } in
      let result : ReplayResult = record (s.result) {
        hash = hash_record s.result.hash entry payload;
      } in
      let c = (consume consumer s.consumer log_record).0 in
      if (consume consumer s.consumer log_record).1
      then go_on (record s {
        result = count_replayed result entry.collector_arrival_timestamp_ns;
        consumer = c;
      })
      else fails consumer_error consumer_rejected (record s { result = result; consumer = c })

  -- The tests of a payload that was read.
  unfoldable pub check_payload : LogIndexEntry → Bytes → ReplayState C → Round C
  check_payload entry payload s =
      if not (crc32c payload == entry.payload_crc32c)
      then fails log_error payload_changed s
      else elim (p.parse payload) [
        | none ↦ fails log_error payload_not_valid s
        | some event ↦
            if not (event.schema_version == telemetry_schema_version)
              || not (eqb_ℤ event.source_timestamp_ns entry.source_timestamp_ns)
            then fails log_error payload_not_valid s
            else deliver entry payload event s
      ]

  unfoldable pub replay_entry : Bytes → LogIndexEntry → ReplayState C → Round C
  replay_entry contents entry s =
      elim (read_payload contents s.position entry (is_sequential s.next_physical_offset entry)) [
        | none ↦ fails io_error read_failed s
        | some read ↦ check_payload entry read.0 (record s {
          position = read.1;
          next_physical_offset =
              some ((entry.file_offset + record_header_size + entry.payload_size) % u64_mod);
        })
      ]

  -- The loop, from the entry that `current` stands at.
  unfoldable pub replay_entries :
      Bytes → Option ℤ → List LogIndexEntry → ReplayState C → ReplayState C
  replay_entries contents until [] s = with_status s complete replay_completed
  replay_entries contents until (entry ∷ rest) s =
      if is_until until entry.collector_arrival_timestamp_ns
      then with_status s complete replay_completed
      else elim (replay_entry contents entry s) [
        | fails status message s' ↦ with_status s' status message
        | go_on s' ↦ replay_entries contents until rest s'
      ]

  -- `stream` is the file that the replay opens, `none` if it cannot.
  unfoldable pub replay : ReplayEngine → Option Bytes → ReplayOptions → C → ReplayState C
  replay engine stream options c =
      let s = initial_state engine c in
      elim engine.error [
        | some error ↦ with_status s log_error error
        | none ↦
            if not (is_finite options.speed) || less options.speed d_zero
            then with_status s invalid_options speed_not_valid
            else if not_after options.from_collector_timestamp_ns
                options.until_collector_timestamp_ns
            then with_status s invalid_options until_not_after_from
            else elim stream [
              | none ↦ with_status s io_error open_failed
              | some contents ↦
                  replay_entries contents options.until_collector_timestamp_ns
                    (start_at engine.index options.from_collector_timestamp_ns) s
            ]
      ]

-- `format_hash`: 16 digits.
abbrev pub hex_digits : ℕ → ℕ → Bytes
hex_digits zero hash = []
hex_digits (suc count) hash =
    let digit = hash / 16 ^ count % 16 in
    (if ltb digit 10 then 48 + digit else 87 + digit) ∷ hex_digits count hash

unfoldable pub format_hash : ℕ → Bytes
format_hash hash = hex_digits 16 hash
