-- ===== src/Telemetry/Event.antt =====
-- The messages of proto/traceforge/v1/telemetry.proto. A string field is the list of its bytes. An
-- enum of proto3 is open, so a field of enum type is any int32, here an integer.
use trace_forge.Common.{ℕ, ◌≡◌, Bool, Option, some, Bytes}
use trace_forge.Common.Int.{ℤ, pos}
use trace_forge.Telemetry.Double.{Double}

abbrev pub clock_domain_unspecified : ℤ
clock_domain_unspecified = pos 0

abbrev pub clock_domain_utc : ℤ
clock_domain_utc = pos 1

abbrev pub clock_domain_device_monotonic : ℤ
clock_domain_device_monotonic = pos 2

pub record Vector3 : Type 0 where
  pub x : Double
  pub y : Double
  pub z : Double

pub record GpsFix : Type 0 where
  pub latitude_degrees : Double
  pub longitude_degrees : Double
  pub horizontal_accuracy_meters : Double
  pub is_mocked : Bool

pub record Temperature : Type 0 where
  pub degrees_celsius : Double

pub record CameraMetadata : Type 0 where
  pub frame_number : ℕ
  pub width_pixels : ℕ
  pub height_pixels : ℕ
  pub exposure_time_ns : ℕ

abbrev pub state_unspecified : ℤ
state_unspecified = pos 0

abbrev pub state_initializing : ℤ
state_initializing = pos 1

abbrev pub state_ready : ℤ
state_ready = pos 2

abbrev pub state_degraded : ℤ
state_degraded = pos 3

abbrev pub state_stopped : ℤ
state_stopped = pos 4

pub record ControllerStatus : Type 0 where
  pub state : ℤ
  pub detail : Bytes

abbrev pub severity_unspecified : ℤ
severity_unspecified = pos 0

abbrev pub severity_warning : ℤ
severity_warning = pos 1

abbrev pub severity_error : ℤ
severity_error = pos 2

abbrev pub severity_critical : ℤ
severity_critical = pos 3

pub record FaultEvent : Type 0 where
  pub severity : ℤ
  pub code : ℕ
  pub message : Bytes

-- The oneof, with the case in which no member is set.
pub data Payload : Type 0 where
  accelerometer : Vector3 → Payload
  gyroscope : Vector3 → Payload
  gps : GpsFix → Payload
  temperature : Temperature → Payload
  camera : CameraMetadata → Payload
  controller_status : ControllerStatus → Payload
  fault : FaultEvent → Payload
  payload_not_set : Payload

pub record TelemetryEvent : Type 0 where
  pub schema_version : ℕ
  pub producer_id : Bytes
  pub sequence_number : ℕ
  pub source_timestamp_ns : ℤ
  pub source_clock : ℤ
  pub payload : Payload

pub record StreamSummary : Type 0 where
  pub producer_id : Bytes
  pub accepted_events : ℕ
  pub first_sequence_number : ℕ
  pub last_sequence_number : ℕ
  pub sequence_gaps : ℕ

-- include/traceforge/telemetry/validation.hpp
abbrev pub telemetry_schema_version : ℕ
telemetry_schema_version = 1

-- The Protobuf library: `SerializeToString` and `ParseFromArray`, each with its failure.
pub record Protobuf : Type 0 where
  pub serialize : TelemetryEvent → Option Bytes
  pub parse : Bytes → Option TelemetryEvent

-- What Protobuf documents of a message it can represent (its strings are UTF-8): parsing the
-- serialized bytes gives the message back.
abbrev pub Survives : Protobuf → TelemetryEvent → Type 0
Survives p e = (bytes : Bytes) → p.serialize e ≡ some bytes → p.parse bytes ≡ some e
