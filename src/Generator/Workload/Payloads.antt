-- ===== src/Generator/Workload/Payloads.antt =====
-- The callbacks of `generate`, which set the payloads, and `payload_name`.
use trace_forge.Common.{ℕ, ◌+◌, ◌*◌, ◌%◌, false, ltb, if◌then◌else◌, Bytes, u32_mod, u64_mod}
use trace_forge.Common.Int.{ℤ}
use trace_forge.Common.Text.{codes}
use trace_forge.Telemetry.Double.{Double, Arithmetic}
use trace_forge.Telemetry.Event.{Payload, severity_warning, severity_error, severity_critical}
use trace_forge.Generator.Random.{Engine, bounded}
use trace_forge.Generator.Events.{Populate, fault_message}

-- 1.0, 3.0, 4.0, 16.0, 40.0, 128.0, 256.0, 65536.0, 9.8125, 29.625 and -82.375.
abbrev d_1 : Double
d_1 = 0x3ff0_0000_0000_0000

abbrev d_3 : Double
d_3 = 0x4008_0000_0000_0000

abbrev d_4 : Double
d_4 = 0x4010_0000_0000_0000

abbrev d_16 : Double
d_16 = 0x4030_0000_0000_0000

abbrev d_40 : Double
d_40 = 0x4044_0000_0000_0000

abbrev d_128 : Double
d_128 = 0x4060_0000_0000_0000

abbrev d_256 : Double
d_256 = 0x4070_0000_0000_0000

abbrev d_65536 : Double
d_65536 = 0x40f0_0000_0000_0000

abbrev gravity : Double
gravity = 0x4023_a000_0000_0000

abbrev latitude : Double
latitude = 0x403d_a000_0000_0000

abbrev longitude : Double
longitude = 0xc054_9800_0000_0000

module _ {R : Type 0} (arithmetic : Arithmetic) where
  abbrev pub accelerometer_payload : Populate R
  accelerometer_payload sequence r = (
    r,
    Payload.accelerometer (record {
      x = arithmetic.sub (arithmetic.div (arithmetic.of_u64 (sequence % 32)) d_16) d_1;
      y =
          arithmetic.sub (arithmetic.div (arithmetic.of_u64 ((sequence + 8) % u64_mod % 32)) d_16)
            d_1;
      z = arithmetic.add gravity (arithmetic.div (arithmetic.of_u64 (sequence % 8)) d_128);
    }),
  )

  abbrev pub gyroscope_payload : Populate R
  gyroscope_payload sequence r = (
    r,
    Payload.gyroscope (record {
      x = arithmetic.div (arithmetic.of_u64 (sequence % 16)) d_256;
      y = arithmetic.div (arithmetic.neg (arithmetic.of_u64 (sequence % 8))) d_256;
      z = arithmetic.div (arithmetic.of_u64 (sequence % 4)) d_128;
    }),
  )

  abbrev pub gps_payload : Populate R
  gps_payload sequence r = (
    r,
    Payload.gps (record {
      latitude_degrees =
          arithmetic.add latitude (arithmetic.div (arithmetic.of_u64 sequence) d_65536);
      longitude_degrees =
          arithmetic.add longitude (arithmetic.div (arithmetic.of_u64 sequence) d_65536);
      horizontal_accuracy_meters =
          arithmetic.add d_3 (arithmetic.div (arithmetic.of_u64 (sequence % 4)) d_4);
      is_mocked = false;
    }),
  )

  abbrev pub temperature_payload : Populate R
  temperature_payload sequence r = (
    r,
    Payload.temperature (record {
      degrees_celsius =
          arithmetic.add d_40 (arithmetic.div (arithmetic.of_u64 (sequence % 16)) d_16);
    }),
  )

abbrev pub camera_payload : {R : Type 0} → Populate R
camera_payload sequence r = (
  r,
  Payload.camera (record {
    frame_number = sequence;
    width_pixels = 1_920;
    height_pixels = 1_080;
    exposure_time_ns = 8_000_000 + sequence % 4 * 250_000;
  }),
)

-- The severity that a roll of a hundred gives.
abbrev pub severity_of : ℕ → ℤ
severity_of roll =
    if ltb roll 70
    then severity_warning
    else if ltb roll 95
    then severity_error
    else severity_critical

unfoldable pub fault_payload : {R : Type 0} → Engine R → Populate R
fault_payload engine sequence r =
    let (r', roll) = bounded engine r 100 in
    (
      r',
      Payload.fault (record {
        severity = severity_of roll;
        code = (1_000 + sequence) % u64_mod % u32_mod;
        message = fault_message (severity_of roll);
      }),
    )

unfoldable pub payload_name : Payload → Bytes
payload_name (Payload.accelerometer v) = codes "accelerometer"
payload_name (Payload.gyroscope v) = codes "gyroscope"
payload_name (Payload.gps v) = codes "gps"
payload_name (Payload.temperature v) = codes "temperature"
payload_name (Payload.camera v) = codes "camera"
payload_name (Payload.controller_status v) = codes "controller_status"
payload_name (Payload.fault v) = codes "fault"
payload_name Payload.payload_not_set = codes "unset"
