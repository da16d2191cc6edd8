-- ===== src/Recording/Tests.antt =====
-- Runs of the recording code on small inputs, and its theorems at such inputs.
use trace_forge.Common.{
  ℕ, ◌+◌, ◌-◌, ◌≡◌, ◌≢◌, ◌⊎◌, refl, arith, List, [], ◌∷◌, length, replicate, take, map, All, Bytes,
  Option, none, some, true, false,
}
use native.Mathlib.Nat.{le_refl}
use trace_forge.Common.Int.{ℤ, pos, to_u64, IsI64}
use trace_forge.Telemetry.Event.{TelemetryEvent, Protobuf, Payload, Survives}
use trace_forge.Recording.{LogReadStatus, LogReadOptions, LogReadResult, file_header_size}
use trace_forge.Recording.LittleEndian.{encode_little_endian, decode_little_endian}
use trace_forge.Recording.LittleEndian.RoundTrip.{decode-encode_little_endian}
use trace_forge.Recording.Crc32c.{crc32c}
use trace_forge.Recording.Stream.{Device, Environment, write, open_stream, flush_stream}
use trace_forge.Recording.Writer.{
  LogWriter, LogWriterOptions, good, write_bytes, file_header, write_file_header, open_log, create,
  flush, append, append_payload, count_record, record_header,
}
use trace_forge.Recording.Writer.Session.{Call, append_all}
use trace_forge.Recording.Format.{Entry, IsEntry, log_bytes}
use trace_forge.Recording.Format.Fields.{length-log_bytes}
use trace_forge.Recording.Reader.{
  FileView, settled, make_failure, read_file_header, read_log, empty_result,
}
use trace_forge.Recording.Reader.Prefix.{HasRead, started, read_log_prefix}
use trace_forge.Recording.Reader.Sound.{IsSound, IsRefused, read_log-IsSound}
use trace_forge.Recording.Recovery.{RecoveryResult, recover_truncated_tail}
use trace_forge.Recording.Recovery.Cut.{IsRecovered, recover-cut}
use trace_forge.Recording.Recovery.Refusal.{recover_keeps, is_complete}
use trace_forge.Recording.Recovery.{resize_file}
use trace_forge.Recording.CutLog.{delivered}
use trace_forge.Recording.ReadBack.{ReadsBack, read_log-append_all, read_log-flush}

abbrev pub sample_event : ℕ → TelemetryEvent
sample_event n = record {
  schema_version = 1;
  producer_id = 97 ∷ [];
  sequence_number = n;
  source_timestamp_ns = pos 1;
  source_clock = pos 1;
  payload = Payload.payload_not_set;
}

abbrev toy_parse : Bytes → Option TelemetryEvent
toy_parse [] = none
toy_parse (n ∷ bytes) = some (sample_event n)

-- Protobuf, on the sample events.
abbrev pub toy_protobuf : Protobuf
toy_protobuf = record { serialize = λ e. some (e.sequence_number ∷ 0 ∷ []); parse = toy_parse }

pub sample-Survives : (n : ℕ) → Survives toy_protobuf (sample_event n)
sample-Survives n bytes h = ground arith

abbrev sample_entry : ℕ → Entry
sample_entry n = record { payload = n ∷ 0 ∷ []; event = sample_event n; arrival = pos 9 }

sample-IsEntry : (n : ℕ) → IsEntry toy_protobuf (sample_entry n)
sample-IsEntry n = record {
  fits = omega arith;
  parses = refl;
  supported = refl;
  in_range = (omega arith, omega arith);
}

abbrev two_entries : List Entry
two_entries = sample_entry 3 ∷ sample_entry 4 ∷ []

abbrev pub read_all : LogReadOptions
read_all = record { maximum_records = 100; retain_records = true }

-- A device that holds 120 bytes and gets them at a flush.
abbrev pub small_device : Device
small_device = record {
  spills = λ given stored. 0;
  accepts = λ given stored. true;
  drains = λ given stored. 120 - stored;
}

abbrev pub fresh : Environment
fresh = record { exists = some false; opens = true; now = pos 1000 }

abbrev pub writer_options : LogWriterOptions
writer_options = record { flush_every_records = 2; created_unix_ns = pos 0 }

abbrev pub new_writer : LogWriter
new_writer = create small_device fresh "log" writer_options

abbrev three_calls : List Call
three_calls = (sample_event 3, pos 9) ∷ (sample_event 4, pos 10) ∷ (sample_event 5, pos 11) ∷ []

pub new_writer-good : good new_writer ≡ true
unfolding create open_log write_file_header write_bytes write open_stream file_header
    encode_little_endian crc32c to_u64
new_writer-good = refl

decode-encode_little_endian_example :
    decode_little_endian 4 (encode_little_endian 4 (replicate 8 0) 2 0xdead_beef) 2 ≡ 0xdead_beef
decode-encode_little_endian_example =
    decode-encode_little_endian 4 (replicate 8 0) 2 0xdead_beef (omega arith) (omega arith)
      (omega arith)

read_log_prefix_example :
    (r : LogReadResult) × (read_log toy_protobuf
        (settled (take (file_header_size + 40) (log_bytes (pos 5) two_entries)))
        read_all
      ≡ some r)
    × HasRead read_all (started (pos 5) (file_header_size + 40)) file_header_size 0 40 two_entries r
read_log_prefix_example =
    read_log_prefix toy_protobuf read_all (pos 5) two_entries 40 (omega arith, omega arith)
      (sample-IsEntry 3, (sample-IsEntry 4, tt)) (omega arith) (omega arith) (omega arith)

read_log-IsSound_example :
    (r : LogReadResult) × (read_log toy_protobuf (settled (log_bytes (pos 5) two_entries)) read_all
      ≡ some r)
    × (IsRefused (log_bytes (pos 5) two_entries) r
        ⊎ ((created : ℤ) × IsSound toy_protobuf
              (log_bytes (pos 5) two_entries)
              (started created (length (log_bytes (pos 5) two_entries)))
              32
              0
              r))
read_log-IsSound_example =
    read_log-IsSound toy_protobuf read_all (log_bytes (pos 5) two_entries)
      (omega (arith, length-log_bytes (pos 5) two_entries))

recover-cut_example :
    (recovery : RecoveryResult) × (file : FileView) × (recover_truncated_tail toy_protobuf true
        (settled (take (file_header_size + 40) (log_bytes (pos 5) two_entries)))
        read_all
      ≡ some (recovery, file))
    × IsRecovered (pos 5) two_entries 40 recovery file
recover-cut_example =
    recover-cut toy_protobuf read_all (pos 5) two_entries 40 (omega arith, omega arith)
      (sample-IsEntry 3, (sample-IsEntry 4, tt)) (omega arith) (omega arith) (omega arith)

abbrev short_file : FileView
short_file = settled (1 ∷ 2 ∷ [])

abbrev short_result : LogReadResult
short_result = record empty_result {
  status = LogReadStatus.corrupt;
  file_size = 2;
  message = "file header is incomplete";
}

short_file_read : read_log toy_protobuf short_file read_all ≡ some short_result
unfolding read_log read_file_header make_failure
short_file_read = refl

recover_keeps_example :
    (recovery : RecoveryResult) × (file' : FileView) × (recover_truncated_tail toy_protobuf true
        short_file read_all
      ≡ some (recovery, file'))
    × (short_result.status ≢ LogReadStatus.truncated_tail
        → (file' ≡ short_file)
          × (recovery.changed ≡ false)
          × (recovery.succeeded ≡ is_complete short_result.status))
    × (recovery.changed ≡ true → file' ≡ resize_file short_file short_result.valid_bytes)
    × (recovery.changed ≡ false → file' ≡ short_file)
recover_keeps_example =
    recover_keeps toy_protobuf true short_file read_all short_result short_file_read

abbrev after_three : LogWriter × List Call
after_three = append_all small_device toy_protobuf new_writer [] three_calls

three-IsLoggable : All (λ (c : Call). Survives toy_protobuf c.0 × IsI64 c.1) three_calls
three-IsLoggable = (
  (sample-Survives 3, (omega arith, omega arith)),
  (
    (sample-Survives 4, (omega arith, omega arith)),
    ((sample-Survives 5, (omega arith, omega arith)), tt),
  ),
)

read_log-append_all_example :
    (r : LogReadResult) × (read_log toy_protobuf
        (settled (take after_three.0.output.stored after_three.0.output.contents))
        read_all
      ≡ some r)
    × ReadsBack 2 after_three.0 after_three.1 after_three.0.output.stored r
read_log-append_all_example =
    read_log-append_all small_device toy_protobuf fresh "log" writer_options read_all three_calls
      after_three.0.output.stored new_writer-good (omega arith, omega arith) three-IsLoggable refl
      (omega arith) (omega arith) (le_refl _)

abbrev one_call : List Call
one_call = (sample_event 3, pos 9) ∷ []

abbrev after_one : LogWriter × List Call
after_one = append_all small_device toy_protobuf new_writer [] one_call

one_flushed : (flush small_device after_one.0).1 ≡ true
unfolding create open_log write_file_header write_bytes write open_stream file_header
    encode_little_endian crc32c to_u64 append_all append append_payload count_record record_header
    flush flush_stream
one_flushed = refl

read_log-flush_example :
    let file = (flush small_device after_one.0).0.output in
    (r : LogReadResult) × (read_log toy_protobuf (settled (take file.stored file.contents)) read_all
      ≡ some r)
    × (r.status ≡ LogReadStatus.complete)
    × (map delivered r.records ≡ after_one.1)
read_log-flush_example =
    read_log-flush small_device toy_protobuf fresh "log" writer_options read_all one_call
      new_writer-good (omega arith, omega arith)
      ((sample-Survives 3, (omega arith, omega arith)), tt) refl (omega arith) (omega arith)
      one_flushed
