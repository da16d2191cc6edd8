-- ===== src/App/Collect/Checked.antt =====
-- What the options of `run_collector` can hold.
use trace_forge.Common.{
  ℕ, ◌≤◌, ◌<◌, ◌≡◌, ◌⊎◌, inl, inr, refl, arith, true, Option, some, List, [], ◌∷◌, length, Bytes,
  Bool-cases, Option-cases,
}
use trace_forge.Common.Int.{pos, pos_part, neg_part}
use trace_forge.Concurrency.BoundedQueue
use trace_forge.Telemetry.Sink
use trace_forge.Telemetry.Sink.{CollectedEvent, QueuedTelemetrySink, waiting}
use trace_forge.App.{Parsed}
use trace_forge.App.Generate.{is_help}
use trace_forge.App.Collect.{
  CollectorOptions, default_collector, set_capacity, set_delay, set_flush, set_collector_option,
  parse_collector,
}

abbrev pub IsChecked : CollectorOptions → Type 0
IsChecked o =
    ((0 < o.queue_capacity) × (o.queue_capacity ≤ 1_000_000))
    × ((0 < o.flush_every_records) × (o.flush_every_records ≤ 1_000_000))
    × ((pos_part o.consumer_delay ≤ 10_000_000) × (neg_part o.consumer_delay ≡ 0))

abbrev Keeps : (CollectorOptions → Bytes → Option CollectorOptions) → Type 0
Keeps f =
    (o o' : CollectorOptions) (value : Bytes) → IsChecked o → f o value ≡ some o' → IsChecked o'

set_capacity-Keeps : Keeps set_capacity
unfolding set_capacity
set_capacity-Keeps o o' value k h = ground (arith, k, h)

set_delay-Keeps : Keeps set_delay
unfolding set_delay
set_delay-Keeps o o' value k h = ground (arith, k, h)

set_flush-Keeps : Keeps set_flush
unfolding set_flush
set_flush-Keeps o o' value k h = ground (arith, k, h)

set_collector_option-IsChecked :
    (o o' : CollectorOptions) (option value : Bytes)
    → IsChecked o
    → set_collector_option o option value ≡ some o'
    → IsChecked o'
unfolding set_collector_option
set_collector_option-IsChecked o o' option value k h = ground (
  arith,
  k,
  h,
  set_capacity-Keeps o o' value k,
  set_delay-Keeps o o' value k,
  set_flush-Keeps o o' value k,
)

parse_collector-IsChecked :
    (o o' : CollectorOptions) (arguments : List Bytes)
    → IsChecked o
    → parse_collector o arguments ≡ Parsed.parsed o'
    → IsChecked o' × ((length o'.output_path ≡ 0) ⊎ (o'.consumer_delay ≡ pos 0))
unfolding parse_collector
parse_collector-IsChecked o o' [] k h = ground (arith, k, h)
parse_collector-IsChecked o o' (option ∷ []) k h = absurd (ground (arith, h))
parse_collector-IsChecked o o' (option ∷ value ∷ rest) k h = elim (Bool-cases (is_help option)) [
  | inl e ↦ absurd (ground (arith, h, e))
  | inr e ↦ elim (Option-cases (set_collector_option o option value)) [
    | inl none_set ↦ absurd (ground (arith, h, e, none_set))
    | inr (o₂, set) ↦
        parse_collector-IsChecked o₂ o' rest
          (set_collector_option-IsChecked o o₂ option value k set) (ground (arith, h, e, set))
  ]
]

create-returns :
    {S : Type 0} (consumer : S) (capacity : ℕ)
    → 0 < capacity
    → (sink : QueuedTelemetrySink S) × (Sink.create capacity consumer ≡ some sink)
unfolding Sink.create BoundedQueue.create
create-returns consumer capacity p =
    elim (Option-cases (BoundedQueue.create {A = CollectedEvent} capacity)) [
      | inl e ↦ absurd (ground (arith, p, e))
      | inr (queue, e) ↦
          let sink : QueuedTelemetrySink _ = record {
            queue = queue;
            consumer = consumer;
            consumer_thread = waiting;
            consumed_events = 0;
            consumer_failures = 0;
            accepting_events = true;
          } in
          (sink, rw (e, Sink.create) refl)
    ]

default_collector-IsChecked : IsChecked default_collector
default_collector-IsChecked =
    ((omega arith, omega arith), (omega arith, omega arith), (omega arith, refl))

-- Whatever arguments are read as options of `collect`, the queue capacity and the flush interval
-- are between 1 and 1000000 and the delay is between 0 and 10 seconds, there is no output file
-- together with a delay, and the constructor of the sink accepts the capacity.
pub parse_collector-create :
    {S : Type 0} (consumer : S) (o : CollectorOptions) (arguments : List Bytes)
    → parse_collector default_collector arguments ≡ Parsed.parsed o
    → IsChecked o
      × ((length o.output_path ≡ 0) ⊎ (o.consumer_delay ≡ pos 0))
      × ((sink : QueuedTelemetrySink S) × (Sink.create o.queue_capacity consumer ≡ some sink))
parse_collector-create consumer o arguments h =
    let (checked, apart) =
      parse_collector-IsChecked default_collector o arguments default_collector-IsChecked h in
    (checked, apart, create-returns consumer o.queue_capacity checked.0.0)
