-- ===== src/App/Generate.antt =====
-- `run_generator` of app/main.cpp: its options and its exit code. What it prints is left out.
pub mod Checked
use trace_forge.Common.{
  ℕ, ◌+◌, ◌*◌, ◌≤◌, ◌<◌, ◌≡◌, ◌⊎◌, inl, inr, refl, arith, Bool, true, false, ◌||◌, ◌&&◌, ◌==◌,
  if◌then◌else◌, Option, none, some, List, [], ◌∷◌, length, Bytes, bytes_eq, Bool-cases,
  Option-cases,
}
use trace_forge.Common.Int.{ℤ, pos, pos_part, neg_part, leb_ℤ, ltb_ℤ, ◌*ℤ◌}
use trace_forge.Common.Text.{codes}
use trace_forge.Telemetry.Double.{Arithmetic}
use trace_forge.Telemetry.Event.{Protobuf}
use trace_forge.Generator.{GeneratorConfig, FaultInjection, SensorRates, max_duration_ns}
use trace_forge.Generator.Random.{Engine}
use trace_forge.Generator.Config.{ConfigError, validate_config}
use trace_forge.Generator.Workload.{generate}
use trace_forge.Generator.Publisher.{
  Service, WorkloadPublisherConfig, check_config, publish, succeeded,
}
use trace_forge.App.{Parsed, parse_u64, parse_i64, parse_probability}

pub record GeneratorOptions : Type 0 where
  pub config : GeneratorConfig
  pub print_events : Bool
  pub target : Bytes
  pub connect_timeout : ℤ

abbrev pub default_rates : SensorRates
default_rates = record {
  accelerometer_hz = 50;
  gyroscope_hz = 50;
  camera_hz = 30;
  gps_hz = 10;
  temperature_hz = 1;
  fault_monitor_hz = 2;
}

abbrev pub default_options : GeneratorOptions
default_options = record {
  config = record {
    seed = 1;
    duration = pos 1_000_000_000;
    max_jitter = pos 0;
    clock_drift_ppm = pos 0;
    rates = default_rates;
    faults = record { drop_per_million = 0; duplicate_per_million = 0; reorder_per_million = 0 };
  };
  print_events = false;
  target = [];
  connect_timeout = pos 5_000;
}

-- The branches of the loop; `none` where one throws.
unfoldable pub set_seed : GeneratorOptions → Bytes → Option GeneratorOptions
set_seed o value = elim (parse_u64 value) [
  | none ↦ none
  | some n ↦ some (record o { config = record o.config { seed = n } })
]

unfoldable pub set_duration : GeneratorOptions → Bytes → Option GeneratorOptions
set_duration o value = elim (parse_i64 value) [
  | none ↦ none
  | some duration_ms ↦
      if leb_ℤ duration_ms (pos 0) || ltb_ℤ (pos 3_600_000) duration_ms
      then none
      else some (record o { config = record o.config { duration = duration_ms *ℤ pos 1_000_000 } })
]

unfoldable pub set_jitter : GeneratorOptions → Bytes → Option GeneratorOptions
set_jitter o value = elim (parse_i64 value) [
  | none ↦ none
  | some jitter_us ↦
      if ltb_ℤ jitter_us (pos 0) || ltb_ℤ (pos 3_600_000_000) jitter_us
      then none
      else some (record o { config = record o.config { max_jitter = jitter_us *ℤ pos 1_000 } })
]

unfoldable pub set_drift : GeneratorOptions → Bytes → Option GeneratorOptions
set_drift o value = elim (parse_i64 value) [
  | none ↦ none
  | some ppm ↦ some (record o { config = record o.config { clock_drift_ppm = ppm } })
]

abbrev pub with_faults : GeneratorOptions → FaultInjection → GeneratorOptions
with_faults o faults = record o { config = record o.config { faults = faults } }

unfoldable pub set_drop : GeneratorOptions → Bytes → Option GeneratorOptions
set_drop o value = elim (parse_probability value) [
  | none ↦ none
  | some n ↦ some (with_faults o (record o.config.faults { drop_per_million = n }))
]

unfoldable pub set_duplicate : GeneratorOptions → Bytes → Option GeneratorOptions
set_duplicate o value = elim (parse_probability value) [
  | none ↦ none
  | some n ↦ some (with_faults o (record o.config.faults { duplicate_per_million = n }))
]

unfoldable pub set_reorder : GeneratorOptions → Bytes → Option GeneratorOptions
set_reorder o value = elim (parse_probability value) [
  | none ↦ none
  | some n ↦ some (with_faults o (record o.config.faults { reorder_per_million = n }))
]

unfoldable pub set_timeout : GeneratorOptions → Bytes → Option GeneratorOptions
set_timeout o value = elim (parse_i64 value) [
  | none ↦ none
  | some timeout_ms ↦
      if leb_ℤ timeout_ms (pos 0) || ltb_ℤ (pos 60_000) timeout_ms
      then none
      else some (record o { connect_timeout = timeout_ms })
]

unfoldable pub set_option : GeneratorOptions → Bytes → Bytes → Option GeneratorOptions
set_option o option value =
    if bytes_eq option (codes "--seed")
    then set_seed o value
    else if bytes_eq option (codes "--duration-ms")
    then set_duration o value
    else if bytes_eq option (codes "--jitter-us")
    then set_jitter o value
    else if bytes_eq option (codes "--clock-drift-ppm")
    then set_drift o value
    else if bytes_eq option (codes "--drop-per-million")
    then set_drop o value
    else if bytes_eq option (codes "--duplicate-per-million")
    then set_duplicate o value
    else if bytes_eq option (codes "--reorder-per-million")
    then set_reorder o value
    else if bytes_eq option (codes "--target")
    then some (record o { target = value })
    else if bytes_eq option (codes "--connect-timeout-ms")
    then set_timeout o value
    else none

abbrev pub is_help : Bytes → Bool
is_help option = bytes_eq option (codes "--help") || bytes_eq option (codes "-h")

-- The loop over the arguments behind the command.
unfoldable pub parse_options : GeneratorOptions → List Bytes → Parsed GeneratorOptions
parse_options o [] = Parsed.parsed o
parse_options o (option ∷ []) =
    if is_help option
    then Parsed.help
    else if bytes_eq option (codes "--print-events")
    then Parsed.parsed (record o { print_events = true })
    else Parsed.usage_error
parse_options o (option ∷ value ∷ rest) = elim (is_help option) [
  | true ↦ Parsed.help
  | false ↦ elim (bytes_eq option (codes "--print-events")) [
    | true ↦ parse_options (record o { print_events = true }) (value ∷ rest)
    | false ↦ elim (set_option o option value) [
      | none ↦ Parsed.usage_error
      | some o' ↦ parse_options o' rest
    ]
  ]
]

module _ {R : Type 0} (engine : Engine R) (arithmetic : Arithmetic) (p : Protobuf)
    (service : Service) (seeded : ℕ → R) where
  -- Behind the loop.
  unfoldable pub run_with : GeneratorOptions → ℕ
  run_with o = elim (validate_config o.config) [
    | some error ↦ 2
    | none ↦ elim (generate engine arithmetic o.config p (seeded o.config.seed)) [
      | none ↦ 2
      | some workload ↦
          if length o.target == 0
          then 0
          else elim (check_config
              (record { target = o.target; connect_timeout = o.connect_timeout })) [
                | some error ↦ 2
                | none ↦ if succeeded (publish service workload.events) then 0 else 3
              ]
    ]
  ]

  unfoldable pub exit_code : Parsed GeneratorOptions → ℕ
  exit_code Parsed.help = 0
  exit_code Parsed.usage_error = 2
  exit_code (Parsed.parsed o) = run_with o

  unfoldable pub run_generator : List Bytes → ℕ
  run_generator arguments = exit_code (parse_options default_options arguments)
