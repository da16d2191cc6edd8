-- ===== src/Analysis/Tests.antt =====
-- Reports of small logs, with a floating point that keeps its first argument.
use trace_forge.Common.{ℕ, ◌≡◌, refl, arith, true, some, [], ◌∷◌, bytes_eq}
use trace_forge.Common.Int.{ℤ, pos}
use trace_forge.Common.Sort.{bytes_lt}
use trace_forge.Common.Map.{find}
use trace_forge.Telemetry.Double.{Double}
use trace_forge.Telemetry.Event.{TelemetryEvent, Payload}
use trace_forge.Telemetry.Validation.{
  accept, validate_header, validate_payload, count_event, new_validator, summary,
}
use trace_forge.Telemetry.Validation.Stream.{validate_all}
use trace_forge.Recording.{LogRecord, LogReadResult, LogReadStatus}
use trace_forge.Analysis.{AnalysisReport, Floating}
use trace_forge.Analysis.Distribution.{percentile, percentile-in, median}
use trace_forge.Analysis.Report.{
  new_analyzer, analyze_records, analyze_record, analyze_read, count_producer,
}
use trace_forge.Analysis.Producers.{own_records, reference, counted, find-producers}
use trace_forge.Analysis.Agreement.{find-producers_summary}
use trace_forge.Analysis.Totals.{Accounts, analyze_read-returns}

abbrev plain : Floating ℤ
plain = record {
  of_u64 = λ n. n;
  sub = λ a b. a;
  mul = λ a b. b;
  abs = λ a. a;
  ceil = λ a. a;
  to_size = λ a. a;
  long_of_i64 = λ a. a;
  long_of_u64 = pos;
  long_sub = λ a b. a;
  long_mul = λ a b. a;
  long_div = λ a b. a;
  long_is_positive = λ a. true;
  long_to_double = λ a. 0;
}

abbrev reading : ℕ → TelemetryEvent
reading n = record {
  schema_version = 1;
  producer_id = 97 ∷ [];
  sequence_number = n;
  source_timestamp_ns = pos 1;
  source_clock = pos 1;
  payload = Payload.temperature (record { degrees_celsius = 0 });
}

abbrev read : ℕ → LogRecord
read n = record {
  record_index = 0;
  file_offset = 0;
  collector_arrival_timestamp_ns = pos n;
  event = reading n;
}

-- Two gaps behind the first number, and one repeat.
count_of_three :
    reference (97 ∷ []) (read 3 ∷ read 6 ∷ read 6 ∷ []) ≡ some (counted (97 ∷ []) 3 2 1 6)
count_of_three = refl

find-producers_example :
    find bytes_lt
      (97 ∷ [])
      (analyze_records plain new_analyzer (read 3 ∷ read 6 ∷ read 6 ∷ [])).producers
    ≡ reference (97 ∷ []) (own_records (97 ∷ []) (read 3 ∷ read 6 ∷ read 6 ∷ []))
find-producers_example = find-producers plain (97 ∷ []) (read 3 ∷ read 6 ∷ read 6 ∷ [])

accepted_held :
    (validate_all new_validator (reading 3 ∷ reading 6 ∷ reading 6 ∷ [])).1
    ≡ reading 3 ∷ reading 6 ∷ []
unfolding accept validate_header validate_payload count_event bytes_eq
accepted_held = refl

log_found :
    find bytes_lt (97 ∷ []) (analyze_records plain new_analyzer (read 3 ∷ read 6 ∷ [])).producers
    ≡ some (counted (97 ∷ []) 2 2 0 6)
unfolding analyze_records analyze_record count_producer
log_found = refl

find-producers_summary_example :
    ((counted (97 ∷ []) 2 2 0 6).stats.records
      ≡ (summary
          (validate_all new_validator (reading 3 ∷ reading 6 ∷ reading 6 ∷ [])).0).accepted_events)
    × ((counted (97 ∷ []) 2 2 0 6).stats.sequence_gaps
        ≡ (summary
            (validate_all new_validator (reading 3 ∷ reading 6 ∷ reading 6 ∷ [])).0).sequence_gaps)
    × ((counted (97 ∷ []) 2 2 0 6).stats.non_increasing_sequences ≡ 0)
unfolding accept validate_header validate_payload count_event summary bytes_eq
find-producers_summary_example =
    find-producers_summary plain (reading 3 ∷ reading 6 ∷ reading 6 ∷ []) (read 3 ∷ read 6 ∷ [])
      (counted (97 ∷ []) 2 2 0 6) (omega arith, (omega arith, (omega arith, tt))) (omega arith) refl
      log_found

abbrev log_of : LogReadStatus → LogReadResult
log_of status = record {
  status = status;
  created_unix_ns = pos 0;
  file_size = 32;
  valid_bytes = 32;
  error_offset = 0;
  message = "";
  index = [];
  records = read 3 ∷ read 6 ∷ [];
}

analyze_read-returns_example :
    (report : AnalysisReport) × (analyze_read plain (log_of LogReadStatus.complete) ≡ some report)
    × Accounts (log_of LogReadStatus.complete) report
analyze_read-returns_example =
    analyze_read-returns plain (log_of LogReadStatus.complete) (omega arith)

percentile-in_example : (v : Double) × (percentile plain (5 ∷ 3 ∷ []) median ≡ some v)
percentile-in_example = percentile-in plain (5 ∷ 3 ∷ []) median (omega arith) (omega arith)
