-- ===== src/Recording.antt =====
-- The recording format of include/traceforge/recording/log.hpp: its constants and its data.
pub mod LittleEndian
pub mod Crc32c
pub mod Stream
pub mod Writer
pub mod Reader
pub mod Format
pub mod Recovery
pub mod CutLog
pub mod ReadBack
pub mod LogConsumer
mod Tests
use trace_forge.Common.{ℕ, ◌*◌, List, Bool, Bytes}
use trace_forge.Common.Int.{ℤ}
use trace_forge.Telemetry.Event.{TelemetryEvent}
use Prim.Native.String.{String}

abbrev pub log_format_version : ℕ
log_format_version = 1

abbrev pub record_format_version : ℕ
record_format_version = 1

abbrev pub file_header_size : ℕ
file_header_size = 32

abbrev pub record_header_size : ℕ
record_header_size = 36

abbrev pub maximum_payload_size : ℕ
maximum_payload_size = 4 * 1024 * 1024

pub data LogReadStatus : Type 0 where
  complete truncated_tail corrupt io_error resource_limit : LogReadStatus

pub record LogRecord : Type 0 where
  pub record_index : ℕ
  pub file_offset : ℕ
  pub collector_arrival_timestamp_ns : ℤ
  pub event : TelemetryEvent

pub record LogIndexEntry : Type 0 where
  pub record_index : ℕ
  pub file_offset : ℕ
  pub payload_size : ℕ
  pub payload_crc32c : ℕ
  pub collector_arrival_timestamp_ns : ℤ
  pub source_timestamp_ns : ℤ

pub record LogReadOptions : Type 0 where
  pub maximum_records : ℕ
  pub retain_records : Bool

pub record LogReadResult : Type 0 where
  pub status : LogReadStatus
  pub created_unix_ns : ℤ
  pub file_size : ℕ
  pub valid_bytes : ℕ
  pub error_offset : ℕ
  pub message : String
  pub index : List LogIndexEntry
  pub records : List LogRecord
