-- ===== src/Analysis/Agreement.antt =====
-- What the collector reports of a stream against what the analyzer finds in the log.
use trace_forge.Common.{
  ℕ, suc, ◌+◌, ◌-◌, ◌≤◌, ◌<◌, ◌≡◌, refl, sym, ap, ◌∙◌, subst, arith, some, List, [], ◌∷◌, map,
  length, length-map, Bytes, u64_mod,
}
use trace_forge.Common.Sort.{bytes_lt}
use trace_forge.Common.Map.{find}
use trace_forge.Telemetry.Event.{TelemetryEvent}
use trace_forge.Telemetry.Validation.{
  StreamValidator, ValidationResult, valid, reject, accept, new_validator, summary,
}
use trace_forge.Telemetry.Validation.Stream.{
  keep, last_from, Increases, left_out, InRange, IsSummary, validate_all, validate_all-IsSummary,
}
use trace_forge.Recording.{LogRecord}
use trace_forge.Analysis.{ProducerAccumulator, Floating}
use trace_forge.Analysis.Report.{new_analyzer, analyze_records}
use trace_forge.Analysis.Producers.{own_records, reference, gaps_from, repeats_from, find-producers}

abbrev pub event_of : LogRecord → TelemetryEvent
event_of r = r.event

-- Increasing sequence numbers have the gaps that the validator counts, and no repeat.
Increases-gaps :
    (producer_id : Bytes) (last : ℕ) (rs : List LogRecord)
    → Increases producer_id last (map event_of rs)
    → (gaps_from last rs ≡ left_out last (map event_of rs)) × (repeats_from last rs ≡ 0)
Increases-gaps producer_id last [] h = (refl, refl)
Increases-gaps producer_id last (r ∷ rs) (Increases.more above ok rest) =
    let (gaps, repeats) = Increases-gaps producer_id r.event.sequence_number rs rest in
    (ap (λ n. r.event.sequence_number - last - 1 + n) gaps, ground (arith, above, repeats))

keep-bounds :
    (r : ValidationResult) (e : TelemetryEvent) (es rest : List TelemetryEvent)
    → e.sequence_number < u64_mod
    → length es ≤ length rest
    → InRange es
    → (length (keep r e es) ≤ suc (length rest)) × InRange (keep r e es)
keep-bounds valid e es rest f h g = (omega (arith, h), (f, g))
keep-bounds (reject reason) e es rest f h g = (omega (arith, h), g)

validate_all-bounds :
    (v : StreamValidator) (es : List TelemetryEvent)
    → InRange es
    → (length (validate_all v es).1 ≤ length es) × InRange (validate_all v es).1
validate_all-bounds v [] f = (omega arith, tt)
validate_all-bounds v (e ∷ es) (f, fs) =
    let (fewer, fits) = validate_all-bounds (accept v e).0 es fs in
    keep-bounds (accept v e).1 e (validate_all (accept v e).0 es).1 es f fewer fits

last_from-fits :
    (last : ℕ) (es : List TelemetryEvent)
    → last < u64_mod
    → InRange es
    → last_from last es < u64_mod
last_from-fits last [] h f = h
last_from-fits last (e ∷ es) h (f, fs) = last_from-fits e.sequence_number es f fs

IsSummary-bounds :
    (v : StreamValidator) (es : List TelemetryEvent)
    → IsSummary v es
    → InRange es
    → (v.accepted_events ≤ length es) × (v.sequence_gaps < u64_mod)
IsSummary-bounds _ [] IsSummary.of_none f = (omega arith, omega arith)
IsSummary-bounds v (e ∷ es) (IsSummary.of_some _ _ _ ok increases first last accepted gaps sums)
      (f, fs) =
    let below = last_from-fits e.sequence_number es f fs in
    (omega (arith, accepted), omega (arith, accepted, sums, last, below))

-- The accepted events of a stream against the statistics of their records.
abbrev Agrees : StreamValidator → List LogRecord → Type 0
Agrees v rs =
    (acc : ProducerAccumulator)
    → reference v.producer_id rs ≡ some acc
    → (acc.stats.records ≡ v.accepted_events)
      × (acc.stats.sequence_gaps ≡ v.sequence_gaps)
      × (acc.stats.non_increasing_sequences ≡ 0)

IsSummary-Agrees :
    (v : StreamValidator) (rs : List LogRecord)
    → IsSummary v (map event_of rs)
    → v.accepted_events < u64_mod
    → v.sequence_gaps < u64_mod
    → Agrees v rs
IsSummary-Agrees v [] h b c acc e = absurd (ground (arith, e))
IsSummary-Agrees v (r ∷ rs) (IsSummary.of_some _ _ _ ok increases first last accepted gaps sums) b c
      acc e =
    let (same, none_repeated) = Increases-gaps v.producer_id r.event.sequence_number rs increases in
    let number : suc (length rs) ≡ v.accepted_events =
      omega (arith, accepted, length-map event_of rs) in
    let size : length (r ∷ rs) ≡ suc (length rs) = refl in
    let left : gaps_from r.event.sequence_number rs ≡ v.sequence_gaps = same ∙ sym gaps in
    ground (arith, left, none_repeated, number, size, b, c, e)

module _ {L : Type 0} (floating : Floating L) where
  -- A new validator is given any events. If the records of its producer in a log, taken in their
  -- order, hold exactly the events that it accepted, then the analyzer finds for that producer
  -- the number of events and the gaps that `summary` reports to the client, and no sequence
  -- number that does not increase. Conditions: the sequence numbers fit uint64_t, there are fewer
  -- than 2 ^ 64 events, and the analyzer has an entry for the producer.
  pub find-producers_summary :
      (es : List TelemetryEvent) (rs : List LogRecord) (acc : ProducerAccumulator)
      → InRange es
      → length es < u64_mod
      → map event_of (own_records (summary (validate_all new_validator es).0).producer_id rs)
        ≡ (validate_all new_validator es).1
      → find bytes_lt
          (summary (validate_all new_validator es).0).producer_id
          (analyze_records floating new_analyzer rs).producers
        ≡ some acc
      → (acc.stats.records ≡ (summary (validate_all new_validator es).0).accepted_events)
        × (acc.stats.sequence_gaps ≡ (summary (validate_all new_validator es).0).sequence_gaps)
        × (acc.stats.non_increasing_sequences ≡ 0)
  unfolding summary
  find-producers_summary es rs acc f n held found =
      let v = (validate_all new_validator es).0 in
      let summed = validate_all-IsSummary es f n in
      let own = own_records v.producer_id rs in
      let (fewer, fits) = validate_all-bounds new_validator es f in
      let (few, small) = IsSummary-bounds v (validate_all new_validator es).1 summed fits in
      IsSummary-Agrees v own (subst (IsSummary v) (sym held) summed) (omega (arith, few, fewer, n))
        small acc (sym (find-producers floating v.producer_id rs) ∙ found)
