-- ===== src/App/Tests.antt =====
-- The command line `--duration-ms 5 --target x`, with an engine that always draws 2 ^ 63.
use mathlib.Core.WellFounded.{Acc}
use trace_forge.Common.{
  ℕ, ◌^◌, ◌<◌, ◌≡◌, ◌↔◌, ◌⊎◌, refl, arith, true, false, ◌==◌, if◌then◌else◌, none, some, List, [],
  ◌∷◌, length, Bytes, bytes_eq, u64_mod,
}
use trace_forge.Common.Int.{pos, negsuc, ◌*ℤ◌, ◌/ℤ◌, to_u64, from_u64}
use trace_forge.Common.Text.{codes}
use trace_forge.Telemetry.Double.{Arithmetic}
use trace_forge.Telemetry.Event.{Protobuf}
use trace_forge.Generator.{GeneratedWorkload}
use trace_forge.Generator.Random.{Engine}
use trace_forge.Generator.Config.{validate_config, check_events}
use trace_forge.Generator.Workload.{generate}
use trace_forge.Generator.Workload.Emitted.{Serializes}
use trace_forge.Generator.Publisher.{Service, check_config, publish, succeeded}
use trace_forge.App.{
  Parsed, AllDigits, place_value, parse_digits, parse_i64, parse_u64, SpellsI64, parse_u64_iff,
  parse_i64_iff,
}
use trace_forge.App.Generate.{
  GeneratorOptions, default_options, parse_options, set_option, set_duration, run_generator,
}
use trace_forge.Recording.{LogReadResult, LogReadStatus}
use trace_forge.Recording.Format.{log_bytes, records_bytes}
use trace_forge.Recording.Writer.{file_header}
use trace_forge.Recording.Crc32c.{crc32c}
use trace_forge.Recording.Reader.{
  FileView, settled, empty_result, make_failure, read_log, read_file_header, read_records,
  read_exact,
}
use trace_forge.Recording.LittleEndian.{decode_little_endian}
use trace_forge.Analysis.{Floating}
use trace_forge.Telemetry.Double.{d_zero}
use trace_forge.Replay.{ReplayEngine, ReplayStatus, replay}
use trace_forge.App.Replay.{
  Stod, PlayOptions, default_play, parse_play, set_play_option, set_from, set_speed, parse_speed,
}
use trace_forge.App.Replay.Refusal.{AreInverted}
use trace_forge.App.Replay.Checked.{parse_play-replay}
use trace_forge.App.Commands.{default_read, run_inspect, run_analyze, run_analyze-run_inspect}
use trace_forge.Telemetry.Sink
use trace_forge.Telemetry.Sink.{QueuedTelemetrySink}
use trace_forge.App.Collect.{
  CollectorOptions, default_collector, parse_collector, set_collector_option, set_capacity,
}
use trace_forge.App.Collect.Checked
use trace_forge.App.Collect.Checked.{parse_collector-create}
use trace_forge.App.Generate.Checked.{parse_options-validate_config, run_generator-publish}

abbrev steady : Engine (Unit {0})
steady = record {
  draw = λ r. (tt, 2 ^ 63);
  draw-lt = λ r. omega arith;
  ends = λ threshold small r.
      Acc.intro r (λ later (eq, rejected). absurd (omega (arith, small, rejected)));
}

abbrev no_rounding : Arithmetic
no_rounding = record {
  of_u64 = λ n. n;
  neg = λ a. a;
  add = λ a b. a;
  sub = λ a b. a;
  div = λ a b. a;
}

abbrev terse : Protobuf
terse = record { serialize = λ e. some []; parse = λ bytes. none }

terse-Serializes : Serializes terse
terse-Serializes e = ([], refl)

abbrev unreachable_service : Service
unreachable_service = record {
  connects = false;
  takes = λ taken event. true;
  finish = λ events. record {
    status_code = pos 0;
    error_message = [];
    accepted_events = 0;
    sequence_gaps = 0;
  };
}

abbrev arguments : List Bytes
arguments = codes "--duration-ms" ∷ codes "5" ∷ codes "--target" ∷ codes "x" ∷ []

abbrev options : GeneratorOptions
options = record default_options {
  config = record default_options.config { duration = pos 5_000_000 };
  target = codes "x";
}

arguments_parsed : parse_options default_options arguments ≡ Parsed.parsed options
unfolding parse_options set_option set_duration parse_i64 parse_digits bytes_eq ◌*ℤ◌
arguments_parsed = refl

options-accepted : validate_config options.config ≡ none
unfolding validate_config check_events ◌/ℤ◌ to_u64
options-accepted = refl

too_large : parse_i64 (codes "9223372036854775808") ≡ none
unfolding parse_i64 parse_digits
too_large = refl

parse_u64_iff_example : (parse_u64 (codes "407") ≡ some 407) ↔ (
    AllDigits (codes "407")
    × (0 < length (codes "407"))
    × (place_value (codes "407") ≡ 407)
    × (407 < u64_mod))
parse_u64_iff_example = parse_u64_iff 407 (codes "407")

parse_i64_iff_example :
    (parse_i64 (codes "-5") ≡ some (negsuc 4)) ↔ SpellsI64 (codes "-5") (negsuc 4)
parse_i64_iff_example = parse_i64_iff (negsuc 4) (codes "-5")

parse_options-validate_config_example :
    (validate_config options.config ≡ none)
    × ((length options.target ≡ 0)
        ⊎ (check_config
              (record { target = options.target; connect_timeout = options.connect_timeout })
            ≡ none))
parse_options-validate_config_example =
    parse_options-validate_config options arguments arguments_parsed (omega arith, omega arith)
      (omega arith, omega arith, omega arith)

run_generator-publish_example :
    (w : GeneratedWorkload) × (generate steady no_rounding options.config terse tt ≡ some w)
    × (run_generator steady no_rounding terse unreachable_service (λ seed. tt) arguments ≡ (
        if length options.target == 0
        then 0
        else if succeeded (publish unreachable_service w.events)
        then 0
        else 3))
run_generator-publish_example =
    run_generator-publish steady no_rounding terse unreachable_service (λ seed. tt) options
      arguments arguments_parsed options-accepted terse-Serializes

abbrev small_queue : CollectorOptions
small_queue = record default_collector { queue_capacity = 8 }

small_queue_parsed :
    parse_collector default_collector (codes "--queue-capacity" ∷ codes "8" ∷ [])
    ≡ Parsed.parsed small_queue
unfolding parse_collector set_collector_option set_capacity parse_digits bytes_eq
small_queue_parsed = refl

parse_collector-create_example :
    Checked.IsChecked small_queue
    × ((length small_queue.output_path ≡ 0) ⊎ (small_queue.consumer_delay ≡ pos 0))
    × ((sink : QueuedTelemetrySink ℕ) × (Sink.create 8 0 ≡ some sink))
parse_collector-create_example =
    parse_collector-create 0 small_queue (codes "--queue-capacity" ∷ codes "8" ∷ [])
      small_queue_parsed

abbrev header_only : FileView
header_only = settled (log_bytes (pos 5) [])

abbrev empty_log : LogReadResult
empty_log = record empty_result {
  status = LogReadStatus.complete;
  created_unix_ns = pos 5;
  file_size = 32;
  valid_bytes = 32;
  message = "log is complete";
}

header_only_read : read_log terse header_only default_read ≡ some empty_log
unfolding read_log read_file_header read_records make_failure decode_little_endian log_bytes
    file_header records_bytes read_exact bytes_eq crc32c to_u64 from_u64
header_only_read = refl

abbrev no_floating : Floating (Unit {0})
no_floating = record {
  of_u64 = λ n. n;
  sub = λ a b. a;
  mul = λ a b. b;
  abs = λ a. a;
  ceil = λ a. a;
  to_size = λ a. a;
  long_of_i64 = λ a. tt;
  long_of_u64 = λ n. tt;
  long_sub = λ a b. a;
  long_mul = λ a b. a;
  long_div = λ a b. a;
  long_is_positive = λ a. true;
  long_to_double = λ a. 0;
}

run_analyze-run_inspect_example :
    run_analyze no_floating terse header_only ≡ run_inspect terse header_only
run_analyze-run_inspect_example =
    run_analyze-run_inspect no_floating terse header_only empty_log header_only_read (omega arith)

abbrev always_zero : Stod
always_zero text = some (d_zero, length text)

abbrev from_three : PlayOptions
from_three = record default_play {
  replay = record default_play.replay { from_collector_timestamp_ns = some (pos 3) };
}

from_three_parsed :
    parse_play always_zero default_play
      (codes "--from-ns" ∷ codes "3" ∷ codes "--speed" ∷ codes "0" ∷ [])
    ≡ Parsed.parsed from_three
unfolding parse_play set_play_option set_from set_speed parse_speed parse_i64 parse_digits bytes_eq
from_three_parsed = refl

abbrev one_entry : ReplayEngine
one_entry = record {
  index =
      record {
        record_index = 0;
        file_offset = 32;
        payload_size = 2;
        payload_crc32c = 7;
        collector_arrival_timestamp_ns = pos 5;
        source_timestamp_ns = pos 1;
      }
      ∷ [];
  error = none;
}

parse_play-replay_example :
    ((replay {C = ℕ} terse none one_entry (some []) from_three.replay 0).result.status
      ≡ ReplayStatus.invalid_options)
    ↔ ((one_entry.error ≡ none) × AreInverted from_three.replay)
parse_play-replay_example =
    parse_play-replay always_zero from_three
      (codes "--from-ns" ∷ codes "3" ∷ codes "--speed" ∷ codes "0" ∷ []) terse none one_entry
      (some []) 0 from_three_parsed
