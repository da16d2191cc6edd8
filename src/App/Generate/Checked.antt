-- ===== src/App/Generate/Checked.antt =====
-- What the options of `run_generator` can hold, and how it ends.
use trace_forge.Common.{
  ℕ, ◌+◌, ◌*◌, ◌/◌, ◌≤◌, ◌<◌, ◌≡◌, ◌⊎◌, inl, inr, refl, sym, ap, ◌∙◌, arith, Bool, true, false,
  ◌==◌, if◌then◌else◌, Option, none, some, List, [], ◌∷◌, length, Bytes, bytes_eq, Bool-cases,
  Option-cases, All, subst,
}
use trace_forge.Common.Int.{pos_part, neg_part, ◌*ℤ◌}
use trace_forge.Common.Text.{codes}
use trace_forge.Telemetry.Double.{Arithmetic}
use trace_forge.Telemetry.Event.{Protobuf}
use trace_forge.Generator.{
  GeneratedWorkload, max_duration_ns, max_sensor_rate_hz, max_generated_events,
  nanoseconds_per_second, probability_scale,
}
use trace_forge.Generator.Random.{Engine}
use trace_forge.Generator.Config.{
  IsConfig, rates_of, total_rate, validate_config, validate_config_iff,
}
use trace_forge.Generator.Workload.{generate}
use trace_forge.Generator.Workload.Emitted.{Serializes, generate-returns}
use trace_forge.Generator.Publisher.{Service, check_config, publish, succeeded}
use trace_forge.App.{Parsed}
use trace_forge.App.Generate.{
  GeneratorOptions, default_rates, default_options, set_seed, set_duration, set_jitter, set_drift,
  set_drop, set_duplicate, set_reorder, set_timeout, set_option, is_help, parse_options, run_with,
  exit_code, run_generator,
}

-- What the tests of the options make sure of.
abbrev pub IsChecked : GeneratorOptions → Type 0
IsChecked o =
    ((0 < pos_part o.config.duration)
      × (pos_part o.config.duration ≤ max_duration_ns)
      × (neg_part o.config.duration ≡ 0))
    × ((pos_part o.config.max_jitter ≤ max_duration_ns) × (neg_part o.config.max_jitter ≡ 0))
    × ((0 < pos_part o.connect_timeout)
        × (pos_part o.connect_timeout ≤ 60_000)
        × (neg_part o.connect_timeout ≡ 0))
    × (o.config.rates ≡ default_rates)

-- A branch that keeps to the bounds.
abbrev Keeps : (GeneratorOptions → Bytes → Option GeneratorOptions) → Type 0
Keeps f =
    (o o' : GeneratorOptions) (value : Bytes) → IsChecked o → f o value ≡ some o' → IsChecked o'

set_seed-Keeps : Keeps set_seed
unfolding set_seed
set_seed-Keeps o o' value k h = ground (arith, k, h)

set_duration-Keeps : Keeps set_duration
unfolding set_duration ◌*ℤ◌
set_duration-Keeps o o' value k h = ground (arith, k, h)

set_jitter-Keeps : Keeps set_jitter
unfolding set_jitter ◌*ℤ◌
set_jitter-Keeps o o' value k h = ground (arith, k, h)

set_drift-Keeps : Keeps set_drift
unfolding set_drift
set_drift-Keeps o o' value k h = ground (arith, k, h)

set_drop-Keeps : Keeps set_drop
unfolding set_drop
set_drop-Keeps o o' value k h = ground (arith, k, h)

set_duplicate-Keeps : Keeps set_duplicate
unfolding set_duplicate
set_duplicate-Keeps o o' value k h = ground (arith, k, h)

set_reorder-Keeps : Keeps set_reorder
unfolding set_reorder
set_reorder-Keeps o o' value k h = ground (arith, k, h)

set_timeout-Keeps : Keeps set_timeout
unfolding set_timeout
set_timeout-Keeps o o' value k h = ground (arith, k, h)

choose :
    {P : Type 0} {o' : GeneratorOptions} (b : Bool) (x y : Option GeneratorOptions)
    → (x ≡ some o' → P)
    → (y ≡ some o' → P)
    → (if b then x else y) ≡ some o'
    → P
choose true x y f g h = f h
choose false x y f g h = g h

set_option-IsChecked :
    (o o' : GeneratorOptions) (option value : Bytes)
    → IsChecked o
    → set_option o option value ≡ some o'
    → IsChecked o'
unfolding set_option
set_option-IsChecked o o' option value k = choose _ _ _ (set_seed-Keeps o o' value k) (
    choose _ _ _ (set_duration-Keeps o o' value k) (
      choose _ _ _ (set_jitter-Keeps o o' value k) (
        choose _ _ _ (set_drift-Keeps o o' value k) (
          choose _ _ _ (set_drop-Keeps o o' value k) (
            choose _ _ _ (set_duplicate-Keeps o o' value k) (
              choose _ _ _ (set_reorder-Keeps o o' value k) (
                choose _ (some (record o { target = value })) _ (λ h. ground (arith, k, h))
                  (choose _ _ none (set_timeout-Keeps o o' value k)
                    (λ h. absurd (ground (arith, h)))))))))))

default_options-IsChecked : IsChecked default_options
default_options-IsChecked =
    ((omega arith, omega arith, refl), (omega arith, refl), (omega arith, omega arith, refl), refl)

default_rates-range : All (λ rate. rate ≤ max_sensor_rate_hz) (rates_of default_rates)
default_rates-range =
    (omega arith, (omega arith, (omega arith, (omega arith, (omega arith, (omega arith, tt))))))

parse_options-IsChecked :
    (o o' : GeneratorOptions) (arguments : List Bytes)
    → IsChecked o
    → parse_options o arguments ≡ Parsed.parsed o'
    → IsChecked o'
unfolding parse_options
parse_options-IsChecked o o' [] k h = ground (arith, k, h)
parse_options-IsChecked o o' (option ∷ []) k h = ground (arith, k, h)
parse_options-IsChecked o o' (option ∷ value ∷ rest) k h = elim (Bool-cases (is_help option)) [
  | inl e ↦ absurd (ground (arith, h, e))
  | inr e ↦ elim (Bool-cases (bytes_eq option (codes "--print-events"))) [
    | inl e' ↦
        parse_options-IsChecked (record o { print_events = true }) o' (value ∷ rest) k
          (ground (arith, h, e, e'))
    | inr e' ↦ elim (Option-cases (set_option o option value)) [
      | inl none_set ↦ absurd (ground (arith, h, e, e', none_set))
      | inr (o₂, set) ↦
          parse_options-IsChecked o₂ o' rest (set_option-IsChecked o o₂ option value k set)
            (ground (arith, h, e, e', set))
    ]
  ]
]

-- Whatever arguments are read as options of `generate`, the constructor of the generator can
-- refuse them only for the drift or one of the probabilities: if these are within a million, it
-- accepts the configuration; and the constructor of the publisher accepts the target, if there is
-- one, and the timeout.
pub parse_options-validate_config :
    (o : GeneratorOptions) (arguments : List Bytes)
    → parse_options default_options arguments ≡ Parsed.parsed o
    → (pos_part o.config.clock_drift_ppm ≤ 1_000_000)
      × (neg_part o.config.clock_drift_ppm ≤ 1_000_000)
    → (o.config.faults.drop_per_million ≤ probability_scale)
      × (o.config.faults.duplicate_per_million ≤ probability_scale)
      × (o.config.faults.reorder_per_million ≤ probability_scale)
    → (validate_config o.config ≡ none)
      × ((length o.target ≡ 0)
          ⊎ (check_config (record { target = o.target; connect_timeout = o.connect_timeout })
              ≡ none))
parse_options-validate_config o arguments h drift faults =
    let (duration, jitter, timeout, rates) =
      parse_options-IsChecked default_options o arguments default_options-IsChecked h in
    let k : IsConfig o.config = record {
      duration_ns = pos_part o.config.duration;
      is_duration = ground (arith, duration);
      duration_range = (duration.0, duration.1);
      jitter_ns = pos_part o.config.max_jitter;
      is_jitter = ground (arith, jitter);
      jitter_range = jitter.0;
      drift_range = drift;
      faults_range = faults;
      rates_range =
          subst (λ r. All (λ rate. rate ≤ max_sensor_rate_hz) (rates_of r)) (sym rates)
            default_rates-range;
      few_events =
          subst
            (λ r.
              total_rate r * (pos_part o.config.duration / nanoseconds_per_second + 1)
              ≤ max_generated_events)
            (sym rates) (omega (arith, duration.1));
    } in
    ((validate_config_iff o.config).1 k, ground (arith, timeout))

module _ {R : Type 0} (engine : Engine R) (arithmetic : Arithmetic) (p : Protobuf)
    (service : Service) (seeded : ℕ → R) where
  -- When the options of `generate` on the command line are read and their configuration is
  -- accepted, the workload is generated, and the program ends with 0 if there is no target, and
  -- otherwise with 0 or 3 as the publication of that workload reports success or not. Condition:
  -- Protobuf serializes every event.
  pub run_generator-publish :
      (o : GeneratorOptions) (arguments : List Bytes)
      → parse_options default_options arguments ≡ Parsed.parsed o
      → validate_config o.config ≡ none
      → Serializes p
      → (w : GeneratedWorkload) × (generate engine arithmetic o.config p (seeded o.config.seed)
          ≡ some w)
        × (run_generator engine arithmetic p service seeded arguments ≡ (
            if length o.target == 0
            then 0
            else if succeeded (publish service w.events)
            then 0
            else 3))
  unfolding run_generator exit_code run_with
  run_generator-publish o arguments h valid s =
      let (w, made) =
        generate-returns engine arithmetic o.config p (seeded o.config.seed) valid s in
      let (_, _, timeout, _) =
        parse_options-IsChecked default_options o arguments default_options-IsChecked h in
      (
        w,
        made,
        ap (exit_code engine arithmetic p service seeded) h
            ∙ rw (valid, run_with) (rw (made, run_with) (ground (arith, timeout))),
      )
