-- ===== src/Generator/Faults/Bounds.antt =====
-- What the faults do to the events.
use mathlib.Core.List.{Perm}
use mathlib.Core.List.Perm
use trace_forge.Common.{
  ℕ, ◌+◌, ◌%◌, ◌≤◌, ◌<◌, ◌≡◌, ◌∙◌, refl, ap, arith, true, false, List, [], ◌∷◌, u64_mod, length,
  length-append, All, All-append, Bool-cases, inl, inr,
}
use trace_forge.Telemetry.Event.{TelemetryEvent}
use trace_forge.Generator.{FaultInjection, GenerationStats, probability_scale}
use trace_forge.Generator.Random.{Engine, chance, bounded-lt}
use trace_forge.Generator.Faults.{inject_one, inject, reorder}

module _ {R : Type 0} (engine : Engine R) where
  pub chance-never :
      (r : R) (per_million : ℕ) → per_million ≡ 0 → (chance engine r per_million).1 ≡ false
  unfolding chance
  chance-never r per_million h = ground arith

  pub chance-always : (r : R) → (chance engine r probability_scale).1 ≡ true
  unfolding chance
  chance-always r =
      ground (arith, bounded-lt engine r probability_scale (omega arith) (omega arith))

module _ {R : Type 0} (engine : Engine R) (faults : FaultInjection) where
  inject_one-counts :
      (stats : GenerationStats) (event : TelemetryEvent) (r : R)
      → stats.dropped_events + 1 < u64_mod
      → stats.duplicated_events + 1 < u64_mod
      → (length (inject_one engine faults stats event r).2
            + (inject_one engine faults stats event r).1.dropped_events
            + stats.duplicated_events
          ≡ 1 + (inject_one engine faults stats event r).1.duplicated_events + stats.dropped_events)
        × ((inject_one engine faults stats event r).1.generated_events ≡ stats.generated_events)
        × ((inject_one engine faults stats event r).1.dropped_events ≤ stats.dropped_events + 1)
        × ((inject_one engine faults stats event r).1.duplicated_events
            ≤ stats.duplicated_events + 1)
  unfolding inject_one
  inject_one-counts stats event r a b = ground arith

  pub inject-counts :
      (stats : GenerationStats) (events : List TelemetryEvent) (r : R)
      → stats.dropped_events + length events < u64_mod
      → stats.duplicated_events + length events < u64_mod
      → (length (inject engine faults stats events r).2
            + (inject engine faults stats events r).1.dropped_events
            + stats.duplicated_events
          ≡ length events
            + (inject engine faults stats events r).1.duplicated_events
            + stats.dropped_events)
        × ((inject engine faults stats events r).1.generated_events ≡ stats.generated_events)
        × ((inject engine faults stats events r).1.dropped_events
            ≤ stats.dropped_events + length events)
        × ((inject engine faults stats events r).1.duplicated_events
            ≤ stats.duplicated_events + length events)
  unfolding inject
  inject-counts stats [] r a b = ground arith
  inject-counts stats (event ∷ events) r a b =
      let one = inject_one-counts stats event r (omega arith) (omega arith) in
      let out = inject_one engine faults stats event r in
      let rest = inject-counts out.1 events out.0 (omega (arith, one)) (omega (arith, one)) in
      let both = length-append out.2 (inject engine faults out.1 events out.0).2 in
      (
        omega (arith, one, rest, both),
        rest.1 ∙ one.1,
        omega (arith, one, rest),
        omega (arith, one, rest),
      )

  inject_one-All :
      (P : TelemetryEvent → Type 0) (stats : GenerationStats) (event : TelemetryEvent) (r : R)
      → P event
      → All P (inject_one engine faults stats event r).2
  unfolding inject_one
  inject_one-All P stats event r h = elim (Bool-cases (chance engine r faults.drop_per_million).1) [
    | inl e ↦ rw e tt
    | inr e ↦
        elim (Bool-cases
          (chance engine (chance engine r faults.drop_per_million).0
            faults.duplicate_per_million).1) [
              | inl e' ↦ rw (e, e') (h, (h, tt))
              | inr e' ↦ rw (e, e') (h, tt)
            ]
  ]

  -- What holds of every event holds of those that are left.
  pub inject-All :
      (P : TelemetryEvent → Type 0) (stats : GenerationStats) (events : List TelemetryEvent) (r : R)
      → All P events
      → All P (inject engine faults stats events r).2
  unfolding inject
  inject-All P stats [] r h = tt
  inject-All P stats (event ∷ events) r (h, hs) =
      let out = inject_one engine faults stats event r in
      All-append P out.2 (inject engine faults out.1 events out.0).2
        (inject_one-All P stats event r h) (inject-All P out.1 events out.0 hs)

  pub reorder-All :
      (P : TelemetryEvent → Type 0) (stats : GenerationStats) (events : List TelemetryEvent) (r : R)
      → All P events
      → All P (reorder engine faults stats events r).2
  unfolding reorder
  reorder-All P stats [] r h = tt
  reorder-All P stats (a ∷ []) r h = h
  reorder-All P stats (a ∷ b ∷ rest) r (ha, (hb, h)) =
      let r₁ = (chance engine r faults.reorder_per_million).0 in
      elim (Bool-cases (chance engine r faults.reorder_per_million).1) [
        | inl e ↦
            rw (e, reorder)
              (
                hb,
                (
                  ha,
                  reorder-All P
                      (record stats { reordered_pairs = (stats.reordered_pairs + 1) % u64_mod })
                      rest r₁ h,
                ),
              )
        | inr e ↦ rw (e, reorder) (ha, reorder-All P stats (b ∷ rest) r₁ (hb, h))
      ]

  pub reorder-length :
      (stats : GenerationStats) (events : List TelemetryEvent) (r : R)
      → length (reorder engine faults stats events r).2 ≡ length events
  unfolding reorder
  reorder-length stats [] r = refl
  reorder-length stats (a ∷ []) r = refl
  reorder-length stats (a ∷ b ∷ rest) r =
      let r₁ = (chance engine r faults.reorder_per_million).0 in
      elim (Bool-cases (chance engine r faults.reorder_per_million).1) [
        | inl e ↦
            rw (e, reorder)
              (omega (
                arith,
                reorder-length
                    (record stats { reordered_pairs = (stats.reordered_pairs + 1) % u64_mod }) rest
                    r₁,
              ))
        | inr e ↦ rw (e, reorder) (omega (arith, reorder-length stats (b ∷ rest) r₁))
      ]

  -- The swaps lose nothing and add nothing, and leave the other counters alone.
  pub reorder-Perm :
      (stats : GenerationStats) (events : List TelemetryEvent) (r : R)
      → Perm (reorder engine faults stats events r).2 events
        × ((reorder engine faults stats events r).1.dropped_events ≡ stats.dropped_events)
        × ((reorder engine faults stats events r).1.duplicated_events ≡ stats.duplicated_events)
        × ((reorder engine faults stats events r).1.generated_events ≡ stats.generated_events)
  unfolding reorder
  reorder-Perm stats [] r = (Perm.refl [], refl, refl, refl)
  reorder-Perm stats (a ∷ []) r = (Perm.refl (a ∷ []), refl, refl, refl)
  reorder-Perm stats (a ∷ b ∷ rest) r =
      elim (Bool-cases (chance engine r faults.reorder_per_million).1) [
        | inl e ↦
            let (p, x, y, z) =
              reorder-Perm
                (record stats { reordered_pairs = (stats.reordered_pairs + 1) % u64_mod }) rest
                (chance engine r faults.reorder_per_million).0 in
            rw (e, reorder) (Perm.trans (Perm.swap a b _) (Perm.cons a (Perm.cons b p)), x, y, z)
        | inr e ↦
            let (p, x, y, z) =
              reorder-Perm stats (b ∷ rest) (chance engine r faults.reorder_per_million).0 in
            rw (e, reorder) (Perm.cons a p, x, y, z)
      ]

module _ {R : Type 0} (engine : Engine R) where
  -- No faults, no change.
  pub inject-none :
      (faults : FaultInjection) (stats : GenerationStats) (events : List TelemetryEvent) (r : R)
      → faults.drop_per_million ≡ 0
      → faults.duplicate_per_million ≡ 0
      → ((inject engine faults stats events r).2 ≡ events)
        × ((inject engine faults stats events r).1 ≡ stats)
  unfolding inject inject_one
  inject-none faults stats [] r a b = (refl, refl)
  inject-none faults stats (event ∷ events) r a b =
      let r₁ = (chance engine r 0).0 in
      let (x, y) = inject-none faults stats events (chance engine r₁ 0).0 a b in
      rw (a, b, chance-never engine r 0 refl, chance-never engine r₁ 0 refl) (ap (◌∷◌ event) x, y)

  pub reorder-none :
      (faults : FaultInjection) (stats : GenerationStats) (events : List TelemetryEvent) (r : R)
      → faults.reorder_per_million ≡ 0
      → ((reorder engine faults stats events r).2 ≡ events)
        × ((reorder engine faults stats events r).1 ≡ stats)
  unfolding reorder
  reorder-none faults stats [] r a = (refl, refl)
  reorder-none faults stats (x ∷ []) r a = (refl, refl)
  reorder-none faults stats (x ∷ y ∷ rest) r a =
      let (p, q) =
        reorder-none faults stats (y ∷ rest) (chance engine r faults.reorder_per_million).0 a in
      rw (chance-never engine r faults.reorder_per_million a, reorder) (ap (◌∷◌ x) p, q)

  -- A drop probability of one leaves no event.
  pub inject-all_dropped :
      (faults : FaultInjection) (stats : GenerationStats) (events : List TelemetryEvent) (r : R)
      → faults.drop_per_million ≡ probability_scale
      → ((inject engine faults stats events r).2 ≡ [])
        × ((inject engine faults stats events r).1.duplicated_events ≡ stats.duplicated_events)
  unfolding inject inject_one
  inject-all_dropped faults stats [] r a = (refl, refl)
  inject-all_dropped faults stats (event ∷ events) r a =
      rw (a, chance-always engine r)
        (inject-all_dropped faults
          (record stats { dropped_events = (stats.dropped_events + 1) % u64_mod }) events
          (chance engine r probability_scale).0 a)
