-- ===== src/Analysis.antt =====
-- The data of include/traceforge/analysis/analyzer.hpp and of src/analysis/analyzer.cpp. A file of Recording
-- gives the log that is analyzed.
pub mod Distribution
pub mod Report
pub mod Producers
pub mod Agreement
pub mod Totals
mod Tests
use trace_forge.Common.{ℕ, Bool, Option, none, List, [], Bytes}
use trace_forge.Common.Int.{ℤ}
use trace_forge.Common.Text.{codes}
use trace_forge.Telemetry.Double.{Double}

pub data AnalysisStatus : Type 0 where
  complete log_error : AnalysisStatus

pub record ProducerStats : Type 0 where
  pub producer_id : Bytes
  pub records : ℕ
  pub sequence_gaps : ℕ
  pub non_increasing_sequences : ℕ

pub record StreamStats : Type 0 where
  pub producer_id : Bytes
  pub payload : Bytes
  pub records : ℕ
  pub observed_rate_hz : Option Double
  pub interarrival_p50_ms : Option Double
  pub jitter_p95_ms : Option Double
  pub source_timestamp_regressions : ℕ

pub record DistributionStats : Type 0 where
  pub samples : ℕ
  pub p50_ms : Double
  pub p95_ms : Double
  pub p99_ms : Double
  pub maximum_ms : Double

pub record FaultStats : Type 0 where
  pub warnings : ℕ
  pub errors : ℕ
  pub critical : ℕ

pub record AnalysisReport : Type 0 where
  pub status : AnalysisStatus
  pub records : ℕ
  pub file_bytes : ℕ
  pub duration_seconds : Option Double
  pub producers : List ProducerStats
  pub streams : List StreamStats
  pub utc_arrival_delta : Option DistributionStats
  pub faults : FaultStats
  pub message : Bytes

pub record ProducerAccumulator : Type 0 where
  pub stats : ProducerStats
  pub previous_sequence : Option ℕ

pub record StreamAccumulator : Type 0 where
  pub stats : StreamStats
  pub collector_timestamps : List ℤ

-- Producer and payload; and the source clock.
abbrev pub StreamKey : Type 0
StreamKey = Bytes × Bytes

abbrev pub SourceClockKey : Type 0
SourceClockKey = Bytes × (Bytes × ℤ)

abbrev pub new_producer : ProducerAccumulator
new_producer = record {
  stats = record { producer_id = []; records = 0; sequence_gaps = 0; non_increasing_sequences = 0 };
  previous_sequence = none;
}

abbrev pub new_stream : StreamAccumulator
new_stream = record {
  stats = record {
    producer_id = [];
    payload = [];
    records = 0;
    observed_rate_hz = none;
    interarrival_p50_ms = none;
    jitter_p95_ms = none;
    source_timestamp_regressions = 0;
  };
  collector_timestamps = [];
}

-- The floating point that the analyzer leaves to the compiler: on double, and on long double, of which nothing
-- is assumed.
pub record Floating (L : Type 0) : Type 0 where
  pub of_u64 : ℕ → Double
  pub sub : Double → Double → Double
  pub mul : Double → Double → Double
  pub abs : Double → Double
  pub ceil : Double → Double
  pub to_size : Double → ℕ
  pub long_of_i64 : ℤ → L
  pub long_of_u64 : ℕ → L
  pub long_sub : L → L → L
  pub long_mul : L → L → L
  pub long_div : L → L → L
  pub long_is_positive : L → Bool
  pub long_to_double : L → Double

-- `status_name`
abbrev pub status_name : AnalysisStatus → Bytes
status_name AnalysisStatus.complete = codes "complete"
status_name AnalysisStatus.log_error = codes "log_error"
