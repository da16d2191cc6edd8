-- ===== src/Telemetry/Validation.antt =====
-- `StreamValidator` of src/telemetry/validation.cpp. The reason of a rejection stands for its message:
-- there is one for each text. The tests `X_IsValid` of the generated code are of the values that the
-- .proto file declares.
pub mod Valid
pub mod Stream
use trace_forge.Common.{
  ℕ, ◌+◌, ◌-◌, ◌%◌, Bool, true, false, not, ◌||◌, ◌&&◌, ltb, leb, ◌==◌, bytes_eq, if◌then◌else◌,
  List, length, Bytes, u64_mod, [],
}
use trace_forge.Common.Int.{ℤ, pos, ltb_ℤ}
use trace_forge.Telemetry.Double.{Double, is_finite, less, d_zero, d_90, d_neg_90, d_180, d_neg_180}
use trace_forge.Telemetry.Event.{
  Vector3, GpsFix, Temperature, CameraMetadata, ControllerStatus, FaultEvent, Payload,
  TelemetryEvent, StreamSummary, clock_domain_unspecified, clock_domain_utc,
  clock_domain_device_monotonic, state_unspecified, state_stopped, severity_unspecified,
  severity_critical, telemetry_schema_version,
}

abbrev pub max_producer_id_bytes : ℕ
max_producer_id_bytes = 128

abbrev pub max_detail_bytes : ℕ
max_detail_bytes = 1024

pub data Rejection : Type 0 where
  unsupported_schema_version producer_id_required producer_id_too_long source_clock_required :
      Rejection
  source_timestamp_not_positive producer_id_changed sequence_number_not_increasing : Rejection
  accelerometer_not_finite gyroscope_not_finite gps_not_finite gps_out_of_bounds
        gps_accuracy_negative :
      Rejection
  temperature_not_finite camera_dimensions_zero controller_state_unspecified
        controller_detail_too_long :
      Rejection
  fault_severity_unspecified fault_message_too_long payload_required : Rejection

pub data ValidationResult : Type 0 where
  valid : ValidationResult
  reject : Rejection → ValidationResult

pub record StreamValidator : Type 0 where
  pub producer_id : Bytes
  pub accepted_events : ℕ
  pub first_sequence_number : ℕ
  pub last_sequence_number : ℕ
  pub sequence_gaps : ℕ

abbrev pub new_validator : StreamValidator
new_validator = record {
  producer_id = [];
  accepted_events = 0;
  first_sequence_number = 0;
  last_sequence_number = 0;
  sequence_gaps = 0;
}

-- A declared value of an enum whose values are 0 to `last`.
abbrev pub is_declared : ℤ → ℤ → Bool
is_declared last value = not (ltb_ℤ value (pos 0)) && not (ltb_ℤ last value)

-- `X_IsValid` holds, and the value is not the unspecified one, which is 0 in each of the enums.
abbrev pub is_specified : ℤ → ℤ → Bool
is_specified last value = is_declared last value && (ltb_ℤ (pos 0) value || ltb_ℤ value (pos 0))

abbrev pub is_finite_vector : Vector3 → Bool
is_finite_vector v = is_finite v.x && is_finite v.y && is_finite v.z

unfoldable pub validate_gps : GpsFix → ValidationResult
validate_gps gps =
    if not (is_finite gps.latitude_degrees)
      || not (is_finite gps.longitude_degrees)
      || not (is_finite gps.horizontal_accuracy_meters)
    then reject gps_not_finite
    else if less gps.latitude_degrees d_neg_90
        || less d_90 gps.latitude_degrees
        || less gps.longitude_degrees d_neg_180
        || less d_180 gps.longitude_degrees
    then reject gps_out_of_bounds
    else if less gps.horizontal_accuracy_meters d_zero
    then reject gps_accuracy_negative
    else valid

unfoldable pub validate_payload : Payload → ValidationResult
validate_payload (Payload.accelerometer v) =
    if is_finite_vector v then valid else reject accelerometer_not_finite
validate_payload (Payload.gyroscope v) =
    if is_finite_vector v then valid else reject gyroscope_not_finite
validate_payload (Payload.gps gps) = validate_gps gps
validate_payload (Payload.temperature t) =
    if is_finite t.degrees_celsius then valid else reject temperature_not_finite
validate_payload (Payload.camera c) =
    if c.width_pixels == 0 || c.height_pixels == 0 then reject camera_dimensions_zero else valid
validate_payload (Payload.controller_status c) =
    if not (is_specified state_stopped c.state)
    then reject controller_state_unspecified
    else if ltb max_detail_bytes (length c.detail)
    then reject controller_detail_too_long
    else valid
validate_payload (Payload.fault f) =
    if not (is_specified severity_critical f.severity)
    then reject fault_severity_unspecified
    else if ltb max_detail_bytes (length f.message)
    then reject fault_message_too_long
    else valid
validate_payload Payload.payload_not_set = reject payload_required

-- The tests of `accept` before the payload's.
unfoldable pub validate_header : StreamValidator → TelemetryEvent → ValidationResult
validate_header v event =
    if not (event.schema_version == telemetry_schema_version)
    then reject unsupported_schema_version
    else if length event.producer_id == 0
    then reject producer_id_required
    else if ltb max_producer_id_bytes (length event.producer_id)
    then reject producer_id_too_long
    else if not (is_specified clock_domain_device_monotonic event.source_clock)
    then reject source_clock_required
    else if not (ltb_ℤ (pos 0) event.source_timestamp_ns)
    then reject source_timestamp_not_positive
    else if not (length v.producer_id == 0) && not (bytes_eq event.producer_id v.producer_id)
    then reject producer_id_changed
    else if ltb 0 v.accepted_events && leb event.sequence_number v.last_sequence_number
    then reject sequence_number_not_increasing
    else valid

-- The difference of two sequence numbers less 1, as uint64_t computes it.
abbrev pub gap : ℕ → ℕ → ℕ
gap last next = (next + u64_mod - last - 1) % u64_mod

-- The assignments of `accept` behind the tests.
unfoldable pub count_event : StreamValidator → TelemetryEvent → StreamValidator
count_event v event =
    let first = v.accepted_events == 0 in
    record {
      producer_id = if first then event.producer_id else v.producer_id;
      first_sequence_number = if first then event.sequence_number else v.first_sequence_number;
      sequence_gaps =
          if first
          then v.sequence_gaps
          else (v.sequence_gaps + gap v.last_sequence_number event.sequence_number) % u64_mod;
      last_sequence_number = event.sequence_number;
      accepted_events = (v.accepted_events + 1) % u64_mod;
    }

unfoldable pub accept : StreamValidator → TelemetryEvent → StreamValidator × ValidationResult
accept v event = elim (validate_header v event) [
  | reject reason ↦ (v, reject reason)
  | valid ↦ elim (validate_payload event.payload) [
    | reject reason ↦ (v, reject reason)
    | valid ↦ (count_event v event, valid)
  ]
]

unfoldable pub summary : StreamValidator → StreamSummary
summary v = record {
  producer_id = v.producer_id;
  accepted_events = v.accepted_events;
  first_sequence_number = v.first_sequence_number;
  last_sequence_number = v.last_sequence_number;
  sequence_gaps = v.sequence_gaps;
}
