-- ===== src/App/Replay.antt =====
-- The options of `run_replay` of app/main.cpp and its way to the replay. `std::stod` is a parameter.
pub mod Checked
pub mod Refusal
use trace_forge.Common.{
  ℕ, Bool, true, false, ◌||◌, not, ◌==◌, if◌then◌else◌, Option, none, some, List, [], ◌∷◌, length,
  Bytes, bytes_eq,
}
use trace_forge.Common.Int.{ℤ}
use trace_forge.Common.Text.{codes}
use trace_forge.Telemetry.Double.{Double, is_finite, less, d_zero}
use trace_forge.Replay.{ReplayOptions}
use trace_forge.App.{Parsed, parse_i64}
use trace_forge.App.Generate.{is_help}

-- The number at the front of a text and how many bytes it takes; `none` where it throws.
abbrev pub Stod : Type 0
Stod = Bytes → Option (Double × ℕ)

pub record PlayOptions : Type 0 where
  pub replay : ReplayOptions
  pub print_events : Bool

abbrev pub default_play : PlayOptions
default_play = record {
  replay = record {
    from_collector_timestamp_ns = none;
    until_collector_timestamp_ns = none;
    speed = d_zero;
  };
  print_events = false;
}

module _ (stod : Stod) where
  unfoldable pub parse_speed : Bytes → Option Double
  parse_speed text = elim (stod text) [
    | none ↦ none
    | some (parsed, consumed) ↦
        if not (consumed == length text) || not (is_finite parsed) || less parsed d_zero
        then none
        else some parsed
  ]

  -- The branches of the loop; `none` where one throws.
  unfoldable pub set_from : PlayOptions → Bytes → Option PlayOptions
  set_from o value = elim (parse_i64 value) [
    | none ↦ none
    | some t ↦ some (record o { replay = record o.replay { from_collector_timestamp_ns = some t } })
  ]

  unfoldable pub set_until : PlayOptions → Bytes → Option PlayOptions
  set_until o value = elim (parse_i64 value) [
    | none ↦ none
    | some t ↦
        some (record o { replay = record o.replay { until_collector_timestamp_ns = some t } })
  ]

  unfoldable pub set_speed : PlayOptions → Bytes → Option PlayOptions
  set_speed o value = elim (parse_speed value) [
    | none ↦ none
    | some speed ↦ some (record o { replay = record o.replay { speed = speed } })
  ]

  unfoldable pub set_play_option : PlayOptions → Bytes → Bytes → Option PlayOptions
  set_play_option o option value =
      if bytes_eq option (codes "--from-ns")
      then set_from o value
      else if bytes_eq option (codes "--until-ns")
      then set_until o value
      else if bytes_eq option (codes "--speed")
      then set_speed o value
      else none

  unfoldable pub parse_play : PlayOptions → List Bytes → Parsed PlayOptions
  parse_play o [] = Parsed.parsed o
  parse_play o (option ∷ []) =
      if is_help option
      then Parsed.help
      else if bytes_eq option (codes "--print-events")
      then Parsed.parsed (record o { print_events = true })
      else Parsed.usage_error
  parse_play o (option ∷ value ∷ rest) = elim (is_help option) [
    | true ↦ Parsed.help
    | false ↦ elim (bytes_eq option (codes "--print-events")) [
      | true ↦ parse_play (record o { print_events = true }) (value ∷ rest)
      | false ↦ elim (set_play_option o option value) [
        | none ↦ Parsed.usage_error
        | some o' ↦ parse_play o' rest
      ]
    ]
  ]
