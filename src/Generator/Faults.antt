-- ===== src/Generator/Faults.antt =====
-- The faults that `generate` injects: the loop that drops and duplicates events, and the loop that swaps
-- neighbours.
pub mod Bounds
use trace_forge.Common.{ℕ, ◌+◌, ◌%◌, Bool, true, false, if◌then◌else◌, List, [], ◌∷◌, ◌++◌, u64_mod}
use trace_forge.Telemetry.Event.{TelemetryEvent}
use trace_forge.Generator.{FaultInjection, GenerationStats}
use trace_forge.Generator.Random.{Engine, chance}

module _ {R : Type 0} (engine : Engine R) (faults : FaultInjection) where
  -- One round: the counters after it and what it appends.
  unfoldable pub inject_one :
      GenerationStats → TelemetryEvent → R → R × GenerationStats × List TelemetryEvent
  inject_one stats event r =
      let (r₁, dropped) = chance engine r faults.drop_per_million in
      let (r₂, duplicated) = chance engine r₁ faults.duplicate_per_million in
      if dropped
      then (r₁, record stats { dropped_events = (stats.dropped_events + 1) % u64_mod }, [])
      else if duplicated
      then (
        r₂,
        record stats { duplicated_events = (stats.duplicated_events + 1) % u64_mod },
        event ∷ event ∷ [],
      )
      else (r₂, stats, event ∷ [])

  unfoldable pub inject :
      GenerationStats → List TelemetryEvent → R → R × GenerationStats × List TelemetryEvent
  inject stats [] r = (r, stats, [])
  inject stats (event ∷ events) r =
      let (r₁, stats₁, pushed) = inject_one stats event r in
      let (r₂, stats₂, rest) = inject stats₁ events r₁ in (r₂, stats₂, pushed ++ rest)

  -- The loop from an index on: it looks at what is left of the events.
  unfoldable pub reorder :
      GenerationStats → List TelemetryEvent → R → R × GenerationStats × List TelemetryEvent
  reorder stats [] r = (r, stats, [])
  reorder stats (a ∷ []) r = (r, stats, a ∷ [])
  reorder stats (a ∷ b ∷ rest) r =
      let (r₁, swaps) = chance engine r faults.reorder_per_million in
      elim swaps [
        | true ↦
            let counted : GenerationStats = record stats {
              reordered_pairs = (stats.reordered_pairs + 1) % u64_mod;
            } in
            let (r₂, stats₂, later) = reorder counted rest r₁ in (r₂, stats₂, b ∷ a ∷ later)
        | false ↦ let (r₂, stats₂, later) = reorder stats (b ∷ rest) r₁ in (r₂, stats₂, a ∷ later)
      ]
