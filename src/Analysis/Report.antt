-- ===== src/Analysis/Report.antt =====
-- `analyze_log`: the loop over the records and the report.
use trace_forge.Common.{
  ℕ, ◌+◌, ◌-◌, ◌%◌, Bool, true, false, leb, if◌then◌else◌, Option, none, some, List, [], ◌∷◌, ◌++◌,
  length, Bytes, u64_mod,
}
use trace_forge.Common.Int.{ℤ, pos, eqb_ℤ, ltb_ℤ, leb_ℤ}
use trace_forge.Common.Text.{codes}
use trace_forge.Common.Sort.{bytes_lt}
use trace_forge.Common.Map.{update, find, lex}
use trace_forge.Telemetry.Double.{Double}
use trace_forge.Telemetry.Event.{
  Payload, Protobuf, clock_domain_utc, severity_warning, severity_error, severity_critical,
}
use trace_forge.Recording.{LogRecord, LogReadStatus, LogReadResult}
use trace_forge.Recording.Reader.{FileView, read_log}
use trace_forge.Generator.Workload.Payloads.{payload_name}
use trace_forge.Analysis.{
  AnalysisStatus, AnalysisReport, ProducerStats, StreamStats, DistributionStats, FaultStats,
  ProducerAccumulator, StreamAccumulator, StreamKey, SourceClockKey, new_producer, new_stream,
  Floating,
}
use trace_forge.Analysis.Distribution.{
  nanoseconds_to_milliseconds, difference, distribution, finish_stream,
}

-- The maps and variables of the loop.
pub record Analyzer : Type 0 where
  pub producers : List (Bytes × ProducerAccumulator)
  pub streams : List (StreamKey × StreamAccumulator)
  pub previous_source_timestamps : List (SourceClockKey × ℤ)
  pub utc_arrival_delta_ms : List Double
  pub first_collector_timestamp : Option ℤ
  pub last_collector_timestamp : Option ℤ
  pub faults : FaultStats

abbrev pub stream_before : StreamKey → StreamKey → Bool
stream_before = lex bytes_lt bytes_lt

abbrev pub source_before : SourceClockKey → SourceClockKey → Bool
source_before = lex bytes_lt (lex bytes_lt ltb_ℤ)

-- What a sequence number adds behind the previous one.
abbrev pub count_sequence : Option ℕ → ℕ → ProducerStats → ProducerStats
count_sequence none sequence_number stats = stats
count_sequence (some previous) sequence_number stats =
    if leb sequence_number previous
    then record stats { non_increasing_sequences = (stats.non_increasing_sequences + 1) % u64_mod }
    else record stats {
      sequence_gaps = (stats.sequence_gaps + (sequence_number - previous - 1)) % u64_mod;
    }

unfoldable pub count_producer : LogRecord → ProducerAccumulator → ProducerAccumulator
count_producer log_record producer =
    let event = log_record.event in
    let counted : ProducerStats = record producer.stats {
      producer_id = event.producer_id;
      records = (producer.stats.records + 1) % u64_mod;
    } in
    record {
      stats = count_sequence producer.previous_sequence event.sequence_number counted;
      previous_sequence = some event.sequence_number;
    }

unfoldable pub count_stream : LogRecord → Bool → StreamAccumulator → StreamAccumulator
count_stream log_record regressed stream =
    let stats = stream.stats in
    let event = log_record.event in
    record {
      stats = record stats {
        producer_id = event.producer_id;
        payload = payload_name event.payload;
        records = (stats.records + 1) % u64_mod;
        source_timestamp_regressions =
            if regressed
            then (stats.source_timestamp_regressions + 1) % u64_mod
            else stats.source_timestamp_regressions;
      };
      collector_timestamps =
          stream.collector_timestamps ++ log_record.collector_arrival_timestamp_ns ∷ [];
    }

abbrev pub has_regressed : Option ℤ → ℤ → Bool
has_regressed none timestamp = false
has_regressed (some previous) timestamp = leb_ℤ timestamp previous

abbrev pub earliest : Option ℤ → ℤ → Option ℤ
earliest none t = some t
earliest (some first) t = if ltb_ℤ t first then some t else some first

abbrev pub latest : Option ℤ → ℤ → Option ℤ
latest none t = some t
latest (some last) t = if ltb_ℤ last t then some t else some last

abbrev pub count_severity : ℤ → FaultStats → FaultStats
count_severity severity faults =
    if eqb_ℤ severity severity_warning
    then record faults { warnings = (faults.warnings + 1) % u64_mod }
    else if eqb_ℤ severity severity_error
    then record faults { errors = (faults.errors + 1) % u64_mod }
    else if eqb_ℤ severity severity_critical
    then record faults { critical = (faults.critical + 1) % u64_mod }
    else faults

abbrev pub count_fault : Payload → FaultStats → FaultStats
count_fault (Payload.fault fault) faults = count_severity fault.severity faults
count_fault (Payload.accelerometer v) faults = faults
count_fault (Payload.gyroscope v) faults = faults
count_fault (Payload.gps v) faults = faults
count_fault (Payload.temperature v) faults = faults
count_fault (Payload.camera v) faults = faults
count_fault (Payload.controller_status v) faults = faults
count_fault Payload.payload_not_set faults = faults

abbrev pub new_analyzer : Analyzer
new_analyzer = record {
  producers = [];
  streams = [];
  previous_source_timestamps = [];
  utc_arrival_delta_ms = [];
  first_collector_timestamp = none;
  last_collector_timestamp = none;
  faults = record { warnings = 0; errors = 0; critical = 0 };
}

abbrev pub is_complete : LogReadStatus → Bool
is_complete LogReadStatus.complete = true
is_complete LogReadStatus.truncated_tail = false
is_complete LogReadStatus.corrupt = false
is_complete LogReadStatus.io_error = false
is_complete LogReadStatus.resource_limit = false

-- The statistics of the producers, in the order of their names.
abbrev pub producer_list : List (Bytes × ProducerAccumulator) → List ProducerStats
producer_list [] = []
producer_list ((producer_id, producer) ∷ rest) = producer.stats ∷ producer_list rest

module _ {L : Type 0} (floating : Floating L) where
  -- One round of the loop.
  unfoldable pub analyze_record : Analyzer → LogRecord → Analyzer
  analyze_record a log_record =
      let event = log_record.event in
      let payload = payload_name event.payload in
      let source_key : SourceClockKey = (event.producer_id, (payload, event.source_clock)) in
      let regressed =
        has_regressed (find source_before source_key a.previous_source_timestamps)
          event.source_timestamp_ns in
      let arrival = log_record.collector_arrival_timestamp_ns in
      record {
        producers =
            update bytes_lt event.producer_id new_producer (count_producer log_record) a.producers;
        streams =
            update stream_before (event.producer_id, payload) new_stream
              (count_stream log_record regressed) a.streams;
        previous_source_timestamps =
            update source_before source_key event.source_timestamp_ns
              (λ previous. event.source_timestamp_ns) a.previous_source_timestamps;
        utc_arrival_delta_ms =
            if eqb_ℤ event.source_clock clock_domain_utc
            then a.utc_arrival_delta_ms
              ++ nanoseconds_to_milliseconds floating
                  (difference floating arrival event.source_timestamp_ns)
                ∷ []
            else a.utc_arrival_delta_ms;
        first_collector_timestamp = earliest a.first_collector_timestamp arrival;
        last_collector_timestamp = latest a.last_collector_timestamp arrival;
        faults = count_fault event.payload a.faults;
      }

  unfoldable pub analyze_records : Analyzer → List LogRecord → Analyzer
  analyze_records a [] = a
  analyze_records a (log_record ∷ rest) = analyze_records (analyze_record a log_record) rest

  -- The loop over the streams; `none` where one reads outside a sequence.
  unfoldable pub finish_streams : List (StreamKey × StreamAccumulator) → Option (List StreamStats)
  finish_streams [] = some []
  finish_streams ((key, stream) ∷ rest) = elim (finish_stream floating stream) [
    | none ↦ none
    | some stats ↦ elim (finish_streams rest) [ none ↦ none | some later ↦ some (stats ∷ later) ]
  ]

  -- `distribution` of the differences, if there are any; `none` where it reads outside them.
  unfoldable pub utc_distribution : List Double → Option (Option DistributionStats)
  utc_distribution [] = some none
  utc_distribution (first ∷ values) = elim (distribution floating first values) [
    | none ↦ none
    | some d ↦ some (some d)
  ]

  abbrev pub duration_of : Option ℤ → Option ℤ → Option Double
  duration_of (some first) (some last) = some (
      floating.long_to_double (
        floating.long_div (difference floating last first)
          (floating.long_of_i64 (pos 1_000_000_000))))
  duration_of (some first) none = none
  duration_of none last = none

  -- The report of a complete log.
  unfoldable pub report_of : LogReadResult → Option AnalysisReport
  report_of log =
      let a = analyze_records new_analyzer log.records in
      elim (finish_streams a.streams) [
        | none ↦ none
        | some streams ↦ elim (utc_distribution a.utc_arrival_delta_ms) [
          | none ↦ none
          | some delta ↦ some (record {
            status = AnalysisStatus.complete;
            records = length log.records;
            file_bytes = log.file_size;
            duration_seconds = duration_of a.first_collector_timestamp a.last_collector_timestamp;
            producers = producer_list a.producers;
            streams = streams;
            utc_arrival_delta = delta;
            faults = a.faults;
            message = codes "analysis completed";
          })
        ]
      ]

  -- The report of a log that was not read to its end.
  abbrev pub refused : LogReadResult → AnalysisReport
  refused log = record {
    status = AnalysisStatus.log_error;
    records = 0;
    file_bytes = log.file_size;
    duration_seconds = none;
    producers = [];
    streams = [];
    utc_arrival_delta = none;
    faults = record { warnings = 0; errors = 0; critical = 0 };
    message = codes "cannot analyze telemetry log: " ++ codes log.message;
  }

  unfoldable pub analyze_read : LogReadResult → Option AnalysisReport
  analyze_read log = if is_complete log.status then report_of log else some (refused log)

  unfoldable pub analyze_log : Protobuf → FileView → ℕ → Option AnalysisReport
  analyze_log p file maximum_records =
      elim (read_log p file (record { maximum_records = maximum_records; retain_records = true })) [
        | none ↦ none
        | some log ↦ analyze_read log
      ]
