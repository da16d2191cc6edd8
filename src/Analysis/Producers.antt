-- ===== src/Analysis/Producers.antt =====
-- The statistics of a producer against a count over its own records.
use trace_forge.Common.{
  ℕ, ◌+◌, ◌-◌, ◌%◌, ◌≡◌, refl, ap, ◌∙◌, arith, ◌||◌, leb, if◌then◌else◌, Option, none, some, List,
  [], ◌∷◌, length, All, Bytes, u64_mod, Bool-cases, inl, inr,
}
use trace_forge.Common.Sort.{bytes_lt}
use trace_forge.Common.Map.{find, tally, of_key, run, find-tally, bytes_lt-IsOrder}
use trace_forge.Recording.{LogRecord}
use trace_forge.Analysis.{ProducerAccumulator, Floating, new_producer}
use trace_forge.Analysis.Report.{
  Analyzer, new_analyzer, count_producer, analyze_record, analyze_records,
}

abbrev pub producer_of : LogRecord → Bytes
producer_of r = r.event.producer_id

-- The records of a producer, in their order.
abbrev pub own_records : Bytes → List LogRecord → List LogRecord
own_records producer_id records =
    of_key bytes_lt producer_of new_producer count_producer producer_id records

-- Behind a sequence number: how many are left out, how often the number does not grow, and the last one.
abbrev pub gaps_from : ℕ → List LogRecord → ℕ
gaps_from last [] = 0
gaps_from last (r ∷ rs) = r.event.sequence_number - last - 1 + gaps_from r.event.sequence_number rs

abbrev pub repeats_from : ℕ → List LogRecord → ℕ
repeats_from last [] = 0
repeats_from last (r ∷ rs) =
    (if leb r.event.sequence_number last then 1 else 0) + repeats_from r.event.sequence_number rs

abbrev pub last_number : ℕ → List LogRecord → ℕ
last_number last [] = last
last_number last (r ∷ rs) = last_number r.event.sequence_number rs

abbrev pub counted : Bytes → ℕ → ℕ → ℕ → ℕ → ProducerAccumulator
counted producer_id records gaps repeats last = record {
  stats = record {
    producer_id = producer_id;
    records = records % u64_mod;
    sequence_gaps = gaps % u64_mod;
    non_increasing_sequences = repeats % u64_mod;
  };
  previous_sequence = some last;
}

-- What the records of a producer amount to.
abbrev pub reference : Bytes → List LogRecord → Option ProducerAccumulator
reference producer_id [] = none
reference producer_id (r ∷ rs) = some (
    counted producer_id (length (r ∷ rs)) (gaps_from r.event.sequence_number rs)
      (repeats_from r.event.sequence_number rs) (last_number r.event.sequence_number rs))

counted-≡ :
    (producer_id : Bytes) (last : ℕ) {records records' gaps gaps' repeats repeats' : ℕ}
    → records ≡ records'
    → gaps ≡ gaps'
    → repeats ≡ repeats'
    → counted producer_id records gaps repeats last
      ≡ counted producer_id records' gaps' repeats' last
counted-≡ producer_id last p q r = cc

count_producer-first :
    (producer_id : Bytes) (r : LogRecord)
    → r.event.producer_id ≡ producer_id
    → count_producer r new_producer ≡ counted producer_id 1 0 0 r.event.sequence_number
unfolding count_producer
count_producer-first producer_id r h = ground (arith, h)

count_producer-counted :
    (producer_id : Bytes) (records gaps repeats last : ℕ) (r : LogRecord)
    → r.event.producer_id ≡ producer_id
    → count_producer r (counted producer_id records gaps repeats last)
      ≡ counted producer_id
          (1 + records)
          (r.event.sequence_number - last - 1 + gaps)
          ((if leb r.event.sequence_number last then 1 else 0) + repeats)
          r.event.sequence_number
unfolding count_producer
count_producer-counted producer_id records gaps repeats last r h = ground (arith, h)

run-counted :
    (producer_id : Bytes) (records gaps repeats last : ℕ) (rs : List LogRecord)
    → All (λ (r : LogRecord). r.event.producer_id ≡ producer_id) rs
    → run bytes_lt producer_of new_producer count_producer
        (some (counted producer_id records gaps repeats last))
        rs
      ≡ some (
          counted producer_id
            (length rs + records)
            (gaps_from last rs + gaps)
            (repeats_from last rs + repeats)
            (last_number last rs))
run-counted producer_id records gaps repeats last [] h =
    ap some (counted-≡ producer_id last (omega arith) (omega arith) (omega arith))
run-counted producer_id records gaps repeats last (r ∷ rs) (h, hs) =
    let next = r.event.sequence_number in
    ap (λ a. run bytes_lt producer_of new_producer count_producer (some a) rs)
      (count_producer-counted producer_id records gaps repeats last r h)
    ∙ run-counted producer_id (1 + records) (next - last - 1 + gaps)
        ((if leb next last then 1 else 0) + repeats) next rs hs
    ∙ ap some
        (counted-≡ producer_id (last_number next rs) (omega arith) (omega arith) (omega arith))

run-reference :
    (producer_id : Bytes) (rs : List LogRecord)
    → All (λ (r : LogRecord). r.event.producer_id ≡ producer_id) rs
    → run bytes_lt producer_of new_producer count_producer none rs ≡ reference producer_id rs
run-reference producer_id [] h = refl
run-reference producer_id (r ∷ rs) (h, hs) =
    ap (λ a. run bytes_lt producer_of new_producer count_producer (some a) rs)
      (count_producer-first producer_id r h)
    ∙ run-counted producer_id 1 0 0 r.event.sequence_number rs hs
    ∙ ap some (
        counted-≡ producer_id (last_number r.event.sequence_number rs) (omega arith) (omega arith)
          (omega arith))

own_records-producer :
    (producer_id : Bytes) (rs : List LogRecord)
    → All (λ (r : LogRecord). r.event.producer_id ≡ producer_id) (own_records producer_id rs)
own_records-producer producer_id [] = tt
own_records-producer producer_id (r ∷ rs) =
    elim (Bool-cases
      (bytes_lt producer_id r.event.producer_id || bytes_lt r.event.producer_id producer_id)) [
        | inl e ↦ rw e (own_records-producer producer_id rs)
        | inr e ↦ rw e (
          bytes_lt-IsOrder.total r.event.producer_id producer_id (ground (arith, e))
              (ground (arith, e)),
          own_records-producer producer_id rs,
        )
      ]

module _ {L : Type 0} (floating : Floating L) where
  pub analyze_records-producers :
      (a : Analyzer) (rs : List LogRecord)
      → (analyze_records floating a rs).producers
        ≡ tally bytes_lt producer_of new_producer count_producer a.producers rs
  unfolding analyze_records analyze_record
  analyze_records-producers a [] = refl
  analyze_records-producers a (r ∷ rs) = analyze_records-producers (analyze_record floating a r) rs

  -- Over any records, the analyzer has an entry for a producer if and only if there is a record
  -- of it, and the entry holds what a count over the records of this producer alone gives: their
  -- number, the numbers left out between increasing sequence numbers and how often the number
  -- does not increase, each modulo 2 ^ 64, and the last number.
  pub find-producers :
      (producer_id : Bytes) (rs : List LogRecord)
      → find bytes_lt producer_id (analyze_records floating new_analyzer rs).producers
        ≡ reference producer_id (own_records producer_id rs)
  find-producers producer_id rs =
      ap (find bytes_lt producer_id) (analyze_records-producers new_analyzer rs)
      ∙ find-tally bytes_lt producer_of new_producer count_producer bytes_lt-IsOrder producer_id []
          rs tt
      ∙ run-reference producer_id (own_records producer_id rs) (own_records-producer producer_id rs)
