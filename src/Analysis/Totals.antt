-- ===== src/Analysis/Totals.antt =====
-- The report as a whole: it is produced, and it accounts for every record.
use trace_forge.Common.{
  ℕ, suc, ◌+◌, ◌-◌, ◌≤◌, ◌<◌, ◌≡◌, refl, ap, ◌∙◌, arith, Bool, true, false, ◌==◌, if◌then◌else◌,
  Option, none, some, List, [], ◌∷◌, ◌++◌, map, length, length-append, length-map, Bytes, u64_mod,
  Bool-cases, inl, inr,
}
use trace_forge.Common.Int.{ℤ, ltb_ℤ, eqb_ℤ}
use trace_forge.Common.Text.{codes}
use trace_forge.Common.Sort.{bytes_lt, sort_by, sort_by-length}
use trace_forge.Common.Map.{find, total_size, total_size-tally, total_size-update}
use trace_forge.Telemetry.Double.{Double}
use trace_forge.Telemetry.Event.{clock_domain_utc}
use trace_forge.Recording.{LogRecord, LogReadResult}
use trace_forge.Generator.Workload.Payloads.{payload_name}
use trace_forge.Analysis.{
  AnalysisReport, AnalysisStatus, ProducerStats, StreamStats, DistributionStats,
  ProducerAccumulator, StreamAccumulator, StreamKey, Floating, new_producer, new_stream,
}
use trace_forge.Analysis.Distribution.{
  percentile-in, distribution, intervals, finish_sorted, finish_stream, median, p95, p99, back,
  difference, observed_rate, max_element,
}
use trace_forge.Analysis.Report.{
  Analyzer, new_analyzer, count_producer, count_stream, has_regressed, source_before,
  analyze_record, analyze_records, finish_streams, utc_distribution, report_of, analyze_read,
  producer_list, stream_before, is_complete, refused, duration_of,
}
use trace_forge.Analysis.Producers.{analyze_records-producers, producer_of}

abbrev pub producer_records : ProducerAccumulator → ℕ
producer_records p = p.stats.records

abbrev pub stream_records : StreamAccumulator → ℕ
stream_records s = s.stats.records

abbrev pub stream_times : StreamAccumulator → ℕ
stream_times s = length s.collector_timestamps

abbrev pub sum_producers : List ProducerStats → ℕ
sum_producers [] = 0
sum_producers (p ∷ ps) = p.records + sum_producers ps

abbrev pub sum_streams : List StreamStats → ℕ
sum_streams [] = 0
sum_streams (s ∷ ss) = s.records + sum_streams ss

-- What a report says of the log that was read.
abbrev pub Accounted : Bool → LogReadResult → AnalysisReport → Type 0
Accounted true log report =
    (report.status ≡ AnalysisStatus.complete)
    × (report.records ≡ length log.records)
    × (sum_producers report.producers ≡ length log.records)
    × (sum_streams report.streams ≡ length log.records)
Accounted false log report =
    (report.status ≡ AnalysisStatus.log_error)
    × (report.records ≡ 0)
    × (report.file_bytes ≡ log.file_size)

abbrev pub Accounts : LogReadResult → AnalysisReport → Type 0
Accounts log report = Accounted (is_complete log.status) log report

count_producer-records :
    (r : LogRecord) (p : ProducerAccumulator)
    → producer_records p < u64_mod - 1
    → producer_records (count_producer r p) ≡ suc (producer_records p)
unfolding count_producer
count_producer-records r p h = ground arith

count_stream-records :
    (r : LogRecord) (regressed : Bool) (s : StreamAccumulator)
    → (stream_records s < u64_mod - 1
        → stream_records (count_stream r regressed s) ≡ suc (stream_records s))
      × (stream_times (count_stream r regressed s) ≡ suc (stream_times s))
unfolding count_stream
count_stream-records r regressed s = (
  λ h. ground arith,
  length-append s.collector_timestamps (r.collector_arrival_timestamp_ns ∷ []) ∙ omega arith,
)

sum_producers-list :
    (m : List (Bytes × ProducerAccumulator))
    → sum_producers (producer_list m) ≡ total_size bytes_lt producer_records m
sum_producers-list [] = refl
sum_producers-list ((k, p) ∷ m) = ap (λ n. p.stats.records + n) (sum_producers-list m)

delta_length :
    (values : List Double) (value : Double) (b : Bool)
    → length (if b then values ++ value ∷ [] else values) ≤ suc (length values)
delta_length values value true = omega (arith, length-append values (value ∷ []))
delta_length values value false = omega arith

module _ {L : Type 0} (floating : Floating L) where
  analyze_record-streams :
      (a : Analyzer) (r : LogRecord)
      → total_size stream_before stream_records a.streams < u64_mod - 1
      → (total_size stream_before stream_records (analyze_record floating a r).streams
          ≡ suc (total_size stream_before stream_records a.streams))
        × (total_size stream_before stream_times (analyze_record floating a r).streams
            ≡ suc (total_size stream_before stream_times a.streams))
        × (length (analyze_record floating a r).utc_arrival_delta_ms
            ≤ suc (length a.utc_arrival_delta_ms))
  unfolding analyze_record
  analyze_record-streams a r b =
      let key : StreamKey = (r.event.producer_id, payload_name r.event.payload) in
      let regressed =
        has_regressed
          (find source_before
            (r.event.producer_id, (payload_name r.event.payload, r.event.source_clock))
            a.previous_source_timestamps)
          r.event.source_timestamp_ns in
      (
        total_size-update stream_before stream_records (u64_mod - 1) key new_stream
            (count_stream r regressed) a.streams refl
            (λ s h. (count_stream-records r regressed s).0 h) b,
        total_size-update stream_before stream_times
            (suc (total_size stream_before stream_times a.streams)) key new_stream
            (count_stream r regressed) a.streams refl
            (λ s h. (count_stream-records r regressed s).1) (omega arith),
        delta_length a.utc_arrival_delta_ms _ (eqb_ℤ r.event.source_clock clock_domain_utc),
      )

  analyze_records-streams :
      (a : Analyzer) (rs : List LogRecord)
      → length rs + total_size stream_before stream_records a.streams < u64_mod
      → (total_size stream_before stream_records (analyze_records floating a rs).streams
          ≡ length rs + total_size stream_before stream_records a.streams)
        × (total_size stream_before stream_times (analyze_records floating a rs).streams
            ≡ length rs + total_size stream_before stream_times a.streams)
        × (length (analyze_records floating a rs).utc_arrival_delta_ms
            ≤ length rs + length a.utc_arrival_delta_ms)
  unfolding analyze_records
  analyze_records-streams a [] b = (omega arith, omega arith, omega arith)
  analyze_records-streams a (r ∷ rs) b =
      let (one, times, fewer) = analyze_record-streams a r (omega (arith, b)) in
      let (records, all_times, values) =
        analyze_records-streams (analyze_record floating a r) rs (omega (arith, b, one)) in
      (omega (arith, records, one), omega (arith, all_times, times), omega (arith, values, fewer))

  length-intervals :
      (previous : ℤ) (times : List ℤ) → length (intervals floating previous times) ≡ length times
  length-intervals previous [] = refl
  length-intervals previous (t ∷ times) = ap suc (length-intervals t times)

  finish_sorted-returns :
      (stats : StreamStats) (first : ℤ) (times : List ℤ)
      → 0 < length times
      → length times < u64_mod
      → (out : StreamStats) × (finish_sorted floating stats first times ≡ some out)
        × (out.records ≡ stats.records)
  unfolding finish_sorted
  finish_sorted-returns stats first times p b =
      let same = length-intervals first times in
      let (m, found) =
        percentile-in floating (intervals floating first times) median (omega (arith, same, p))
          (omega (arith, same, b)) in
      let deviations =
        map (λ interval_ms. floating.abs (floating.sub interval_ms m))
          (intervals floating first times) in
      let same' =
        length-map (λ interval_ms. floating.abs (floating.sub interval_ms m))
          (intervals floating first times) in
      let (j, found') =
        percentile-in floating deviations p95 (omega (arith, same, same', p))
          (omega (arith, same, same', b)) in
      let out : StreamStats = record stats {
        observed_rate_hz =
            observed_rate floating (length times) (difference floating (back first times) first);
        interarrival_p50_ms = some m;
        jitter_p95_ms = some j;
      } in
      (out, rw (found, finish_sorted) (rw (found', finish_sorted) refl), refl)

  finish_stream-returns :
      (stream : StreamAccumulator) (sorted : List ℤ)
      → sort_by ltb_ℤ stream.collector_timestamps ≡ sorted
      → length sorted < u64_mod
      → (out : StreamStats) × (finish_stream floating stream ≡ some out)
        × (out.records ≡ stream.stats.records)
  unfolding finish_stream
  finish_stream-returns stream [] e b = (stream.stats, rw (e, finish_stream) refl, refl)
  finish_stream-returns stream (first ∷ []) e b = (stream.stats, rw (e, finish_stream) refl, refl)
  finish_stream-returns stream (first ∷ t ∷ times) e b =
      let (out, done, same) =
        finish_sorted-returns stream.stats first (t ∷ times) (omega arith) (omega (arith, b)) in
      let several : (length (t ∷ times) == 0) ≡ false = ground arith in
      (out, rw (e, finish_stream) (rw (several, done) refl), same)

  finish_streams-returns :
      (m : List (StreamKey × StreamAccumulator))
      → total_size stream_before stream_times m < u64_mod
      → (out : List StreamStats) × (finish_streams floating m ≡ some out)
        × (sum_streams out ≡ total_size stream_before stream_records m)
  unfolding finish_streams
  finish_streams-returns [] b = ([], refl, refl)
  finish_streams-returns ((key, stream) ∷ m) b =
      let sorted = sort_by-length ltb_ℤ stream.collector_timestamps in
      let (out, done, same) =
        finish_stream-returns stream (sort_by ltb_ℤ stream.collector_timestamps) refl
          (omega (arith, sorted, b)) in
      let (rest, all, sums) = finish_streams-returns m (omega (arith, b)) in
      (
        out ∷ rest,
        rw (done, finish_streams) (rw (all, finish_streams) refl),
        omega (arith, same, sums),
      )

  utc_distribution-returns :
      (values : List Double)
      → length values < u64_mod
      → (out : Option DistributionStats) × (utc_distribution floating values ≡ some out)
  unfolding utc_distribution distribution
  utc_distribution-returns [] b = (none, refl)
  utc_distribution-returns (first ∷ values) b =
      let (v₁, e₁) = percentile-in floating (first ∷ values) median (omega arith) b in
      let (v₂, e₂) = percentile-in floating (first ∷ values) p95 (omega arith) b in
      let (v₃, e₃) = percentile-in floating (first ∷ values) p99 (omega arith) b in
      let d : DistributionStats = record {
        samples = length (first ∷ values);
        p50_ms = v₁;
        p95_ms = v₂;
        p99_ms = v₃;
        maximum_ms = max_element first values;
      } in
      (
        some d,
        rw (e₁, utc_distribution) (rw (e₂, utc_distribution) (rw (e₃, utc_distribution) refl)),
      )

  report_of-returns :
      (log : LogReadResult)
      → length log.records < u64_mod - 1
      → (report : AnalysisReport) × (report_of floating log ≡ some report)
        × (report.records ≡ length log.records)
        × (sum_producers report.producers ≡ length log.records)
        × (sum_streams report.streams ≡ length log.records)
        × (report.status ≡ AnalysisStatus.complete)
  unfolding report_of
  report_of-returns log b =
      let a = analyze_records floating new_analyzer log.records in
      let (records, times, values) =
        analyze_records-streams new_analyzer log.records (omega (arith, b)) in
      let (streams, finished, sums) = finish_streams-returns a.streams (omega (arith, times, b)) in
      let (delta, distributed) =
        utc_distribution-returns a.utc_arrival_delta_ms (omega (arith, values, b)) in
      let producers : total_size bytes_lt producer_records a.producers ≡ length log.records =
        ap (total_size bytes_lt producer_records)
          (analyze_records-producers floating new_analyzer log.records)
        ∙ total_size-tally bytes_lt producer_of new_producer count_producer producer_records
            (u64_mod - 1) [] log.records refl count_producer-records (omega (arith, b))
        ∙ omega arith in
      let report : AnalysisReport = record {
        status = AnalysisStatus.complete;
        records = length log.records;
        file_bytes = log.file_size;
        duration_seconds =
            duration_of floating a.first_collector_timestamp a.last_collector_timestamp;
        producers = producer_list a.producers;
        streams = streams;
        utc_arrival_delta = delta;
        faults = a.faults;
        message = codes "analysis completed";
      } in
      (
        report,
        rw (finished, report_of) (rw (distributed, report_of) refl),
        refl,
        sum_producers-list a.producers ∙ producers,
        sums ∙ records ∙ omega arith,
        refl,
      )

  -- The analysis of every log that was read returns a report without reading outside a sequence,
  -- whatever the floating point gives. If the log is complete, so is the report, and its number
  -- of records is that of the log and the sum of the records over the producers as well as over
  -- the streams; if not, it reports an error, no record and the size of the file. Condition:
  -- there are fewer than 2 ^ 64 - 1 records.
  pub analyze_read-returns :
      (log : LogReadResult)
      → length log.records < u64_mod - 1
      → (report : AnalysisReport) × (analyze_read floating log ≡ some report) × Accounts log report
  unfolding analyze_read
  analyze_read-returns log b = elim (Bool-cases (is_complete log.status)) [
    | inl e ↦
        let (report, done, records, producers, streams, status) = report_of-returns log b in
        (report, rw (e, analyze_read) done, rw e (status, records, producers, streams))
    | inr e ↦ (refused floating log, rw (e, analyze_read) refl, rw e (refl, refl, refl))
  ]
