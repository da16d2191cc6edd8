-- ===== src/Generator/Random.antt =====
-- `PortableRandom` over the engine of the standard library. The engine is a parameter: its step, and that it
-- does not stay below a number less than 2 ^ 63 for ever, which std::mt19937_64 keeps since it takes every
-- value.
use mathlib.Core.WellFounded.{Acc}
use mathlib.Core.Logic.{dite, dif_pos, dif_neg}
use native.Mathlib.Decide.{dec_lt}
use native.Mathlib.Bridge.{le_prop}
use native.Mathlib.Nat.{mod-lt, mod-le}
use trace_forge.Common.{ℕ, ◌-◌, ◌%◌, ◌^◌, ◌<◌, ◌≡◌, refl, arith, Bool, ltb, u64_mod}
use trace_forge.Generator.{probability_scale}

-- The state before, behind one that draws a number below the threshold.
abbrev pub Rejects : {R : Type 0} → (R → R × ℕ) → ℕ → R → R → Type 0
Rejects engine threshold later r = (later ≡ (engine r).0) × ((engine r).1 < threshold)

pub record Engine (R : Type 0) : Type 0 where
  pub draw : R → R × ℕ
  pub draw-lt : (r : R) → (draw r).1 < u64_mod
  pub ends : (threshold : ℕ) → threshold < 2 ^ 63 → (r : R) → Acc (Rejects draw threshold) r

-- `static_cast<std::uint64_t>(-upper_exclusive) % upper_exclusive`
abbrev pub threshold_of : ℕ → ℕ
threshold_of upper_exclusive = (u64_mod - upper_exclusive) % u64_mod % upper_exclusive

pub threshold_of-lt :
    (upper_exclusive : ℕ)
    → 0 < upper_exclusive
    → upper_exclusive < u64_mod
    → threshold_of upper_exclusive < 2 ^ 63
threshold_of-lt upper_exclusive p q = omega (
  arith,
  mod-lt ((u64_mod - upper_exclusive) % u64_mod) p,
  mod-le ((u64_mod - upper_exclusive) % u64_mod) upper_exclusive,
)

module _ {R : Type 0} (engine : Engine R) where
  -- The loop of `bounded`.
  unfoldable pub draw_from :
      (threshold upper_exclusive : ℕ) (r : R) → Acc (Rejects engine.draw threshold) r → R × ℕ
  unfolding dec_lt
  draw_from threshold upper_exclusive r (Acc.intro _ later) =
      dite (dec_lt (engine.draw r).1 threshold)
        (λ h.
          draw_from threshold upper_exclusive (engine.draw r).0 (later (engine.draw r).0 (refl, h)))
        (λ _. ((engine.draw r).0, (engine.draw r).1 % upper_exclusive))

  -- `bounded`, of a uint64_t.
  unfoldable pub bounded : R → ℕ → R × ℕ
  bounded r upper_exclusive =
      dite (dec_lt 0 upper_exclusive)
        (λ p.
          dite (dec_lt upper_exclusive u64_mod)
            (λ q.
              draw_from (threshold_of upper_exclusive) upper_exclusive r (
                engine.ends (threshold_of upper_exclusive) (threshold_of-lt upper_exclusive p q) r))
            (λ _. (r, 0)))
        (λ _. (r, 0))

  unfoldable pub chance : R → ℕ → R × Bool
  chance r per_million =
      ((bounded r probability_scale).0, ltb (bounded r probability_scale).1 per_million)

  draw_from-lt :
      (threshold upper_exclusive : ℕ) (r : R) (w : Acc (Rejects engine.draw threshold) r)
      → 0 < upper_exclusive
      → (draw_from threshold upper_exclusive r w).1 < upper_exclusive
  unfolding draw_from
  draw_from-lt threshold upper_exclusive r (Acc.intro _ later) p =
      elim (dec_lt (engine.draw r).1 threshold) [
        | yes h ↦ rw (dif_pos (dec_lt (engine.draw r).1 threshold) le_prop h) (
            draw_from-lt threshold upper_exclusive (engine.draw r).0
              (later (engine.draw r).0 (refl, h)) p)
        | no h ↦ rw (dif_neg (dec_lt (engine.draw r).1 threshold) h) (mod-lt (engine.draw r).1 p)
      ]

  pub bounded-lt :
      (r : R) (upper_exclusive : ℕ)
      → 0 < upper_exclusive
      → upper_exclusive < u64_mod
      → (bounded r upper_exclusive).1 < upper_exclusive
  unfolding bounded
  bounded-lt r upper_exclusive p q =
      rw
        (
          dif_pos (dec_lt 0 upper_exclusive) le_prop p,
          dif_pos (dec_lt upper_exclusive u64_mod) le_prop q,
        )
        (draw_from-lt (threshold_of upper_exclusive) upper_exclusive r _ p)
