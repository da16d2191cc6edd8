-- ===== src/App/Collect.antt =====
-- The options of `run_collector` of app/main.cpp. The server, the signals and the texts are left out.
pub mod Checked
use trace_forge.Common.{
  ℕ, Bool, true, false, ◌||◌, ◌&&◌, ◌==◌, not, ltb, if◌then◌else◌, Option, none, some, List, [],
  ◌∷◌, length, Bytes, bytes_eq,
}
use trace_forge.Common.Int.{ℤ, pos, ltb_ℤ}
use trace_forge.Common.Text.{codes}
use trace_forge.App.{Parsed, parse_u64, parse_i64}
use trace_forge.App.Generate.{is_help}

pub record CollectorOptions : Type 0 where
  pub listen_address : Bytes
  pub queue_capacity : ℕ
  pub consumer_delay : ℤ
  pub output_path : Bytes
  pub flush_every_records : ℕ

abbrev pub default_collector : CollectorOptions
default_collector = record {
  listen_address = codes "0.0.0.0:50051";
  queue_capacity = 4_096;
  consumer_delay = pos 0;
  output_path = [];
  flush_every_records = 64;
}

-- The branches of the loop; `none` where one throws.
unfoldable pub set_capacity : CollectorOptions → Bytes → Option CollectorOptions
set_capacity o value = elim (parse_u64 value) [
  | none ↦ none
  | some capacity ↦
      if capacity == 0 || ltb 1_000_000 capacity
      then none
      else some (record o { queue_capacity = capacity })
]

unfoldable pub set_delay : CollectorOptions → Bytes → Option CollectorOptions
set_delay o value = elim (parse_i64 value) [
  | none ↦ none
  | some delay ↦
      if ltb_ℤ delay (pos 0) || ltb_ℤ (pos 10_000_000) delay
      then none
      else some (record o { consumer_delay = delay })
]

unfoldable pub set_flush : CollectorOptions → Bytes → Option CollectorOptions
set_flush o value = elim (parse_u64 value) [
  | none ↦ none
  | some flush_every ↦
      if flush_every == 0 || ltb 1_000_000 flush_every
      then none
      else some (record o { flush_every_records = flush_every })
]

unfoldable pub set_collector_option : CollectorOptions → Bytes → Bytes → Option CollectorOptions
set_collector_option o option value =
    if bytes_eq option (codes "--listen")
    then some (record o { listen_address = value })
    else if bytes_eq option (codes "--queue-capacity")
    then set_capacity o value
    else if bytes_eq option (codes "--consumer-delay-us")
    then set_delay o value
    else if bytes_eq option (codes "--output")
    then if length value == 0 then none else some (record o { output_path = value })
    else if bytes_eq option (codes "--flush-every")
    then set_flush o value
    else none

-- Behind the loop.
abbrev pub finish_options : CollectorOptions → Parsed CollectorOptions
finish_options o =
    if not (length o.output_path == 0) && ltb_ℤ (pos 0) o.consumer_delay
    then Parsed.usage_error
    else Parsed.parsed o

unfoldable pub parse_collector : CollectorOptions → List Bytes → Parsed CollectorOptions
parse_collector o [] = finish_options o
parse_collector o (option ∷ []) = if is_help option then Parsed.help else Parsed.usage_error
parse_collector o (option ∷ value ∷ rest) = elim (is_help option) [
  | true ↦ Parsed.help
  | false ↦ elim (set_collector_option o option value) [
    | none ↦ Parsed.usage_error
    | some o' ↦ parse_collector o' rest
  ]
]
