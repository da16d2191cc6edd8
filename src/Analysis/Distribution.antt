-- ===== src/Analysis/Distribution.antt =====
-- `percentile`, `distribution` and `finish_stream` of src/analysis/analyzer.cpp.
use trace_forge.Common.{
  ℕ, zero, suc, ◌+◌, ◌-◌, ◌<◌, ◌≡◌, refl, arith, ◌==◌, ltb, if◌then◌else◌, Option, none, some, List,
  [], ◌∷◌, map, length, get_elem?, u64_mod, ◌%◌,
}
use trace_forge.Common.Int.{ℤ, pos, ltb_ℤ}
use trace_forge.Common.Sort.{sort_by, sort_by-length}
use trace_forge.Telemetry.Double.{Double, less}
use trace_forge.Analysis.{StreamAccumulator, StreamStats, DistributionStats, Floating}

-- 0.5, 0.95 and 0.99.
abbrev pub median : Double
median = 0x3fe0_0000_0000_0000

abbrev pub p95 : Double
p95 = 0x3fee_6666_6666_6666

abbrev pub p99 : Double
p99 = 0x3fef_ae14_7ae1_47ae

-- `*std::max_element`, of a sequence behind its first element.
abbrev pub max_element : Double → List Double → Double
max_element largest [] = largest
max_element largest (value ∷ values) =
    max_element (if less largest value then value else largest) values

-- The last element of a sequence behind its first.
abbrev pub back : ℤ → List ℤ → ℤ
back first [] = first
back first (t ∷ ts) = back t ts

module _ {L : Type 0} (floating : Floating L) where
  abbrev pub nanoseconds_to_milliseconds : L → Double
  nanoseconds_to_milliseconds nanoseconds =
      floating.long_to_double (floating.long_div nanoseconds (floating.long_of_i64 (pos 1_000_000)))

  abbrev pub difference : ℤ → ℤ → L
  difference later earlier =
      floating.long_sub (floating.long_of_i64 later) (floating.long_of_i64 earlier)

  -- `none` where it reads outside the values.
  unfoldable pub percentile : List Double → Double → Option Double
  percentile values fraction =
      let sorted = sort_by less values in
      let rank =
        floating.to_size
          (floating.ceil (floating.mul fraction (floating.of_u64 (length sorted)))) in
      let index = if rank == 0 then 0 else rank - 1 in
      let last = (length sorted + u64_mod - 1) % u64_mod in
      get_elem? sorted (if ltb last index then last else index)

  -- Of values that are not empty.
  unfoldable pub distribution : Double → List Double → Option DistributionStats
  distribution first values = elim (percentile (first ∷ values) median) [
    | none ↦ none
    | some p50_ms ↦ elim (percentile (first ∷ values) p95) [
      | none ↦ none
      | some p95_ms ↦ elim (percentile (first ∷ values) p99) [
        | none ↦ none
        | some p99_ms ↦ some (record {
          samples = length (first ∷ values);
          p50_ms = p50_ms;
          p95_ms = p95_ms;
          p99_ms = p99_ms;
          maximum_ms = max_element first values;
        })
      ]
    ]
  ]

  -- The loop over neighbouring times.
  abbrev pub intervals : ℤ → List ℤ → List Double
  intervals previous [] = []
  intervals previous (t ∷ ts) = nanoseconds_to_milliseconds (difference t previous) ∷ intervals t ts

  abbrev pub observed_rate : ℕ → L → Option Double
  observed_rate count span_ns =
      if floating.long_is_positive span_ns
      then some (
          floating.long_to_double (
            floating.long_div
              (floating.long_mul (floating.long_of_u64 count)
                (floating.long_of_i64 (pos 1_000_000_000)))
              span_ns))
      else none

  -- The times in order, of which there are two at least.
  unfoldable pub finish_sorted : StreamStats → ℤ → List ℤ → Option StreamStats
  finish_sorted stats first times =
      let intervals_ms = intervals first times in
      elim (percentile intervals_ms median) [
        | none ↦ none
        | some median_interval_ms ↦
            elim (percentile
              (map (λ interval_ms. floating.abs (floating.sub interval_ms median_interval_ms))
                intervals_ms)
              p95) [
                | none ↦ none
                | some jitter ↦ some (record stats {
                  observed_rate_hz =
                      observed_rate (length times) (difference (back first times) first);
                  interarrival_p50_ms = some median_interval_ms;
                  jitter_p95_ms = some jitter;
                })
              ]
      ]

  -- `none` where it reads outside a sequence.
  unfoldable pub finish_stream : StreamAccumulator → Option StreamStats
  finish_stream stream = elim (sort_by ltb_ℤ stream.collector_timestamps) [
    | [] ↦ some stream.stats
    | first ∷ times ↦
        if length times == 0 then some stream.stats else finish_sorted stream.stats first times
  ]

  get_elem-in :
      {A : Type 0} (xs : List A) (i : ℕ) → i < length xs → (a : A) × (get_elem? xs i ≡ some a)
  get_elem-in [] i h = absurd (omega (arith, h))
  get_elem-in (x ∷ xs) zero h = (x, refl)
  get_elem-in (x ∷ xs) (suc i) h = get_elem-in xs i (omega (arith, h))

  -- A percentile of at least one value and fewer than 2 ^ 64 reads inside the sorted values,
  -- whatever the product of the fraction and the size is rounded to.
  pub percentile-in :
      (values : List Double) (fraction : Double)
      → 0 < length values
      → length values < u64_mod
      → (v : Double) × (percentile values fraction ≡ some v)
  unfolding percentile
  percentile-in values fraction h b =
      let same = sort_by-length less values in
      get_elem-in (sort_by less values) _ (ground (arith, same, h, b))
