-- ===== src/Telemetry/Validation/Valid.antt =====
-- What src/telemetry/validation.cpp asks of an event, stated without its tests, and what an accepted one satisfies.
use trace_forge.Common.{
  ℕ, ◌≤◌, ◌<◌, ◌≡◌, ◌⊎◌, refl, sym, ◌∙◌, arith, Bool, true, false, not, ap, ◌&&◌, ◌||◌,
  if◌then◌else◌, bytes_eq, length, Bytes,
}
use trace_forge.Common.Int.{ℤ, pos, pos_part, ◌≤ℤ◌, ltb_ℤ}
use trace_forge.Telemetry.Event.{TelemetryEvent, Payload, GpsFix, ControllerStatus, FaultEvent}
use trace_forge.Telemetry.Double.{
  Double, exponent, is_finite, is_nan, less, order_key, d_zero, d_90, d_neg_90, d_180, d_neg_180,
}
use trace_forge.Telemetry.Validation.{
  gps_not_finite, gps_out_of_bounds, gps_accuracy_negative, valid, reject, StreamValidator,
  validate_header, validate_payload, validate_gps, max_producer_id_bytes,
}

-- A state or severity that is declared and not the unspecified one.
abbrev IsSpecified : ℕ → ℤ → Type 0
IsSpecified last value = (n : ℕ) × (value ≡ pos n) × (0 < n) × (n ≤ last)

abbrev IsFinite : Double → Type 0
IsFinite d = exponent d < 2047

-- The order of two doubles that are numbers, by the integers that order them.
abbrev AtMost : Double → Double → Type 0
AtMost a b = order_key a ≤ℤ order_key b

-- What a payload has to be: finite numbers, coordinates on the globe, dimensions, declared values, short texts.
abbrev pub IsValidPayload : Payload → Type 0
IsValidPayload (Payload.accelerometer v) = IsFinite v.x × IsFinite v.y × IsFinite v.z
IsValidPayload (Payload.gyroscope v) = IsFinite v.x × IsFinite v.y × IsFinite v.z
IsValidPayload (Payload.gps g) =
    (IsFinite g.latitude_degrees
      × IsFinite g.longitude_degrees
      × IsFinite g.horizontal_accuracy_meters)
    × (AtMost d_neg_90 g.latitude_degrees × AtMost g.latitude_degrees d_90)
    × (AtMost d_neg_180 g.longitude_degrees × AtMost g.longitude_degrees d_180)
    × AtMost d_zero g.horizontal_accuracy_meters
IsValidPayload (Payload.temperature t) = IsFinite t.degrees_celsius
IsValidPayload (Payload.camera c) = (0 < c.width_pixels) × (0 < c.height_pixels)
IsValidPayload (Payload.controller_status c) = IsSpecified 4 c.state × (length c.detail ≤ 1024)
IsValidPayload (Payload.fault f) = IsSpecified 3 f.severity × (length f.message ≤ 1024)
IsValidPayload Payload.payload_not_set = ⊥

-- What the events have in common that are accepted into a stream of this producer.
pub record IsValidEvent (producer : Bytes) (e : TelemetryEvent) : Type 0 where
  pub same_producer : e.producer_id ≡ producer
  pub producer_length : (0 < length e.producer_id) × (length e.producer_id ≤ max_producer_id_bytes)
  pub version : e.schema_version ≡ 1
  pub after_epoch : ltb_ℤ (pos 0) e.source_timestamp_ns ≡ true
  pub known_clock : (e.source_clock ≡ pos 1) ⊎ (e.source_clock ≡ pos 2)
  pub valid_payload : IsValidPayload e.payload

gps_passed :
    (lat lon acc west east south north negative : Bool)
    → (if not lat || not lon || not acc
        then reject gps_not_finite
        else if west || east || south || north
        then reject gps_out_of_bounds
        else if negative
        then reject gps_accuracy_negative
        else valid)
      ≡ valid
    → ((lat ≡ true) × (lon ≡ true) × (acc ≡ true))
      × ((west ≡ false) × (east ≡ false) × (south ≡ false) × (north ≡ false) × (negative ≡ false))
gps_passed lat lon acc west east south north negative h = ground (arith, h)

is_finite-IsFinite : (d : Double) → is_finite d ≡ true → IsFinite d
is_finite-IsFinite d h = ground (arith, h)

finite_is_nan : (d : Double) → is_finite d ≡ true → is_nan d ≡ false
finite_is_nan d h = ground (arith, h)

not_before : (a b : ℤ) → ltb_ℤ a b ≡ false → b ≤ℤ a
not_before a b h = ground (arith, h)

-- `a < b` is false of numbers exactly if b is at most a.
less-AtMost :
    (a b : Double) → is_finite a ≡ true → is_finite b ≡ true → less a b ≡ false → AtMost b a
less-AtMost a b fa fb h = not_before (order_key a) (order_key b) (
    sym (
      ap (λ n. not n && not (is_nan b) && ltb_ℤ (order_key a) (order_key b)) (finite_is_nan a fa)
      ∙ ap (λ n. true && not n && ltb_ℤ (order_key a) (order_key b)) (finite_is_nan b fb))
    ∙ h)

validate_gps-valid : (g : GpsFix) → validate_gps g ≡ valid → IsValidPayload (Payload.gps g)
unfolding validate_gps
validate_gps-valid g h =
    let ((lat, lon, acc), (west, east, south, north, negative)) =
      gps_passed (is_finite g.latitude_degrees) (is_finite g.longitude_degrees)
        (is_finite g.horizontal_accuracy_meters) (less g.latitude_degrees d_neg_90)
        (less d_90 g.latitude_degrees) (less g.longitude_degrees d_neg_180)
        (less d_180 g.longitude_degrees) (less g.horizontal_accuracy_meters d_zero) h in
    (
      (is_finite-IsFinite _ lat, is_finite-IsFinite _ lon, is_finite-IsFinite _ acc),
      (
        less-AtMost g.latitude_degrees d_neg_90 lat refl west,
        less-AtMost d_90 g.latitude_degrees refl lat east,
      ),
      (
        less-AtMost g.longitude_degrees d_neg_180 lon refl south,
        less-AtMost d_180 g.longitude_degrees refl lon north,
      ),
      less-AtMost g.horizontal_accuracy_meters d_zero acc refl negative,
    )

controller_valid :
    (c : ControllerStatus)
    → validate_payload (Payload.controller_status c) ≡ valid
    → ((c.state ≡ pos (pos_part c.state)) × (0 < pos_part c.state) × (pos_part c.state ≤ 4))
      × (length c.detail ≤ 1024)
unfolding validate_payload
controller_valid c h = ground (arith, h)

fault_valid :
    (f : FaultEvent)
    → validate_payload (Payload.fault f) ≡ valid
    → ((f.severity ≡ pos (pos_part f.severity))
        × (0 < pos_part f.severity)
        × (pos_part f.severity ≤ 3))
      × (length f.message ≤ 1024)
unfolding validate_payload
fault_valid f h = ground (arith, h)

pub validate_payload-IsValidPayload :
    (payload : Payload) → validate_payload payload ≡ valid → IsValidPayload payload
unfolding validate_payload
validate_payload-IsValidPayload (Payload.accelerometer v) h = ground (arith, h)
validate_payload-IsValidPayload (Payload.gyroscope v) h = ground (arith, h)
validate_payload-IsValidPayload (Payload.gps g) h = validate_gps-valid g h
validate_payload-IsValidPayload (Payload.temperature t) h = ground (arith, h)
validate_payload-IsValidPayload (Payload.camera c) h = ground (arith, h)
validate_payload-IsValidPayload (Payload.controller_status c) h =
    let (specified, short) = controller_valid c h in
    ((pos_part c.state, specified.0, specified.1, specified.2), short)
validate_payload-IsValidPayload (Payload.fault f) h =
    let (specified, short) = fault_valid f h in
    ((pos_part f.severity, specified.0, specified.1, specified.2), short)
validate_payload-IsValidPayload Payload.payload_not_set h = absurd (ground (arith, h))

pub validate_header-valid :
    (v : StreamValidator) (e : TelemetryEvent)
    → validate_header v e ≡ valid
    → (e.schema_version ≡ 1)
      × ((0 < length e.producer_id) × (length e.producer_id ≤ max_producer_id_bytes))
      × (ltb_ℤ (pos 0) e.source_timestamp_ns ≡ true)
      × ((e.source_clock ≡ pos 1) ⊎ (e.source_clock ≡ pos 2))
      × ((length v.producer_id ≡ 0) ⊎ (bytes_eq e.producer_id v.producer_id ≡ true))
      × ((v.accepted_events ≡ 0) ⊎ (v.last_sequence_number < e.sequence_number))
unfolding validate_header
validate_header-valid v e h = ground arith
