-- ===== src/Recording/Writer/Outcome.antt =====
-- What one call of a method of `LogWriter` does to the file, on any device.
use Prim.Native.String.{String}
use trace_forge.Common.{
  ℕ, ◌+◌, ◌%◌, ◌≤◌, ◌≡◌, ◌⊎◌, inl, inr, refl, sym, ap, subst, ◌∙◌, arith, ◌++◌, length, take, Bytes,
  some, Bool, true, false, ltb, ◌==◌, if◌then◌else◌, append_assoc, take-all, take-append_lt,
  length-append, Bool-cases, Option-cases, ==_iff, u64_mod,
}
use trace_forge.Common.Int.{ℤ}
use trace_forge.Telemetry.Event.{TelemetryEvent, Protobuf, telemetry_schema_version}
use trace_forge.Recording.{maximum_payload_size}
use trace_forge.Recording.Stream.{Device, write, flush_stream, at_most}
use trace_forge.Recording.Writer.{
  LogWriter, LogWriterOptions, good, is_empty, fail, write_bytes, record_header, flush,
  count_record, append_payload, append,
}

fail-good :
    (w : LogWriter) (message : String) → is_empty message ≡ false → good (fail w message) ≡ false
unfolding fail
fail-good w message h = ground arith

-- A write puts the bytes behind what the stream was given before, takes nothing back from the file, and the writer stays good
-- if it succeeds.
pub record Writes (w : LogWriter) (bytes : Bytes) (w' : LogWriter) (done : Bool) : Type 0 where
  pub contents : w'.output.contents ≡ w.output.contents ++ bytes
  pub stored : w.output.stored ≤ w'.output.stored
  pub still_in : w'.output.stored ≤ length w'.output.contents
  pub good_if_done : good w' ≡ done
  pub records : w'.record_count ≡ w.record_count
  pub options : w'.options ≡ w.options

at_most-bounds :
    (limit n m : ℕ) → n ≤ limit → (n ≤ at_most limit (n + m)) × (at_most limit (n + m) ≤ limit)
at_most-bounds limit n m h = ground (arith, h)

-- The file of a stream holds no more than it was given.
abbrev pub IsWithin : LogWriter → Type 0
IsWithin w = w.output.stored ≤ length w.output.contents

write_bytes-Writes :
    (d : Device) (w : LogWriter) (bytes : Bytes)
    → good w ≡ true
    → IsWithin w
    → Writes w bytes (write_bytes d w bytes).0 (write_bytes d w bytes).1
unfolding write_bytes write fail
write_bytes-Writes d w bytes g i =
    let given = w.output.contents ++ bytes in
    let bounds =
      at_most-bounds (length given) w.output.stored (d.spills given w.output.stored)
        (omega (arith, i, length-append w.output.contents bytes)) in
    record {
      contents = ground arith;
      stored = ground (arith, bounds.0);
      still_in = ground (arith, bounds.1);
      good_if_done = ground arith;
      records = ground arith;
      options = ground arith;
    }

good-flush : (d : Device) (w : LogWriter) → good (flush d w).0 ≡ (flush d w).1
unfolding flush flush_stream fail
good-flush d w = ground arith

-- What a flush leaves: nothing given to the stream is dropped from its record, the file grows, and it holds everything if
-- the flush returned true.
pub record Flushes (w w' : LogWriter) (done : Bool) : Type 0 where
  pub contents : w'.output.contents ≡ w.output.contents
  pub stored : w.output.stored ≤ w'.output.stored
  pub still_in : IsWithin w'
  pub good_if_done : good w' ≡ done
  pub records : w'.record_count ≡ w.record_count
  pub options : w'.options ≡ w.options
  pub all_stored : done ≡ true → w'.output.stored ≡ length w'.output.contents

pub flush-Flushes :
    (d : Device) (w : LogWriter) → IsWithin w → Flushes w (flush d w).0 (flush d w).1
unfolding flush flush_stream fail
flush-Flushes d w i =
    let bounds =
      at_most-bounds (length w.output.contents) w.output.stored
        (d.drains w.output.contents w.output.stored) i in
    record {
      contents = ground arith;
      stored = ground (arith, bounds.0);
      still_in = ground (arith, bounds.1, i);
      good_if_done = good-flush d w;
      records = ground arith;
      options = ground arith;
      all_stored = ground arith;
    }

-- The end of `append`.
record Counts (w w' : LogWriter) (done : Bool) : Type 0 where
  contents : w'.output.contents ≡ w.output.contents
  stored : w.output.stored ≤ w'.output.stored
  still_in : IsWithin w'
  good_if_done : good w' ≡ done
  records : w'.record_count ≡ (w.record_count + 1) % u64_mod
  options : w'.options ≡ w.options
  all_stored_if_due :
      done ≡ true
      → (w'.record_count % w.options.flush_every_records == 0) ≡ true
      → w'.output.stored ≡ length w'.output.contents

count_record-Counts :
    (d : Device) (w : LogWriter)
    → good w ≡ true
    → IsWithin w
    → Counts w (count_record d w).0 (count_record d w).1
unfolding count_record
count_record-Counts d w g i =
    let count = (w.record_count + 1) % u64_mod in
    let flushed = flush-Flushes d (record w { record_count = count }) i in
    elim (Bool-cases (count % w.options.flush_every_records == 0)) [
      | inl due ↦ rw due (record {
        contents = flushed.contents;
        stored = flushed.stored;
        still_in = flushed.still_in;
        good_if_done = flushed.good_if_done;
        records = flushed.records;
        options = flushed.options;
        all_stored_if_due = λ done _. flushed.all_stored done;
      })
      | inr early ↦ rw early (record {
        contents = refl;
        stored = omega arith;
        still_in = i;
        good_if_done = g;
        records = refl;
        options = refl;
        all_stored_if_due = λ _ due. ground (arith, due, early);
      })
    ]

-- What became of a record: the stream was given all its bytes and it is counted, or some first part of them, the call
-- fails and nothing is counted. If the call returned true and a flush was due, the file holds them.
pub record Stores (w : LogWriter) (bytes : Bytes) (w' : LogWriter) (done : Bool) : Type 0 where
  pub count : ℕ
  pub count-le : count ≤ length bytes
  pub contents : w'.output.contents ≡ w.output.contents ++ take count bytes
  pub stored : w.output.stored ≤ w'.output.stored
  pub still_in : IsWithin w'
  pub good_if_done : good w' ≡ done
  pub options : w'.options ≡ w.options
  pub all_stored_if_due :
      done ≡ true
      → (w'.record_count % w.options.flush_every_records == 0) ≡ true
      → w'.output.stored ≡ length w'.output.contents
  pub counted :
      ((count ≡ length bytes) × (w'.record_count ≡ (w.record_count + 1) % u64_mod))
      ⊎ ((done ≡ false) × (w'.record_count ≡ w.record_count))

-- Writing a record in two parts, as the source does.
write_two : Device → LogWriter → Bytes → Bytes → LogWriter × Bool
write_two d w header payload =
    let (w₁, ok₁) = write_bytes d w header in
    let (w₂, ok₂) = write_bytes d w₁ payload in
    if ok₁ then (if ok₂ then count_record d w₂ else (w₂, false)) else (w₁, false)

write_two-Stores :
    (d : Device) (w : LogWriter) (header payload : Bytes)
    → good w ≡ true
    → IsWithin w
    → Stores w (header ++ payload) (write_two d w header payload).0 (write_two d w header payload).1
unfolding write_two
write_two-Stores d w header payload g i =
    let first = write_bytes-Writes d w header g i in
    let w₁ = (write_bytes d w header).0 in
    let w₂ = (write_bytes d w₁ payload).0 in
    elim (Bool-cases (write_bytes d w header).1) [
      | inr failed ↦ rw failed (record {
        count = length header;
        count-le = omega (arith, length-append header payload);
        contents =
            first.contents
            ∙ ap (◌++◌ w.output.contents) (
                sym (
                  take-append_lt header payload (length header) (omega arith)
                  ∙ take-all (length header) header (omega arith)));
        stored = first.stored;
        still_in = first.still_in;
        good_if_done = first.good_if_done ∙ failed;
        options = first.options;
        all_stored_if_due = λ done. cc;
        counted = inr (refl, first.records);
      })
      | inl ok₁ ↦
          let second = write_bytes-Writes d w₁ payload (first.good_if_done ∙ ok₁) first.still_in in
          let both : w₂.output.contents
              ≡ w.output.contents ++ take (length (header ++ payload)) (header ++ payload) =
            second.contents
            ∙ ap (λ xs. xs ++ payload) first.contents
            ∙ append_assoc w.output.contents header payload
            ∙ ap (◌++◌ w.output.contents)
                (sym (take-all (length (header ++ payload)) (header ++ payload) (omega arith))) in
          let same = second.options ∙ first.options in
          elim (Bool-cases (write_bytes d w₁ payload).1) [
            | inr failed ↦
                rw (ok₁, failed)
                  (record {
                    count = length (header ++ payload);
                    count-le = omega arith;
                    contents = both;
                    stored = omega (arith, first.stored, second.stored);
                    still_in = second.still_in;
                    good_if_done = second.good_if_done ∙ failed;
                    options = same;
                    all_stored_if_due = λ done. cc;
                    counted = inr (refl, second.records ∙ first.records);
                  })
            | inl ok₂ ↦
                let last = count_record-Counts d w₂ (second.good_if_done ∙ ok₂) second.still_in in
                rw (ok₁, ok₂)
                  (record {
                    count = length (header ++ payload);
                    count-le = omega arith;
                    contents = last.contents ∙ both;
                    stored = omega (arith, first.stored, second.stored, last.stored);
                    still_in = last.still_in;
                    good_if_done = last.good_if_done;
                    options = last.options ∙ same;
                    all_stored_if_due =
                        subst
                          (λ (o : LogWriterOptions).
                            (count_record d w₂).1 ≡ true
                            → ((count_record d w₂).0.record_count % o.flush_every_records == 0)
                              ≡ true
                            → (count_record d w₂).0.output.stored
                              ≡ length (count_record d w₂).0.output.contents)
                          same last.all_stored_if_due;
                    counted = inl (
                      refl,
                      last.records ∙ ap (λ k. (k + 1) % u64_mod) (second.records ∙ first.records),
                    );
                  })
          ]
    ]

-- Before anything is written the call may fail.
pub record Rejects (w w' : LogWriter) (done : Bool) : Type 0 where
  pub unchanged : w'.output ≡ w.output
  pub same_options : w'.options ≡ w.options
  pub uncounted : w'.record_count ≡ w.record_count
  pub failed : done ≡ false
  pub bad : good w' ≡ false

-- What `append` on a good writer comes to, for any event and any device.
abbrev pub Appends : Protobuf → LogWriter → TelemetryEvent → ℤ → LogWriter → Bool → Type 0
Appends p w event timestamp w' done =
    Rejects w w' done
    ⊎ ((payload : Bytes) × (p.serialize event ≡ some payload)
        × (event.schema_version ≡ telemetry_schema_version)
        × (length payload ≤ maximum_payload_size)
        × Stores w (record_header payload w.record_count timestamp ++ payload) w' done)

fail-Rejects :
    (w : LogWriter) (message : String)
    → is_empty message ≡ false
    → good w ≡ true
    → Rejects w (fail w message) false
unfolding fail
fail-Rejects w message h g = record {
  unchanged = ground arith;
  same_options = ground arith;
  uncounted = ground arith;
  failed = refl;
  bad = ground arith;
}

append_payload-Appends :
    (d : Device) (p : Protobuf) (w : LogWriter) (event : TelemetryEvent) (timestamp : ℤ)
    (payload : Bytes)
    → good w ≡ true
    → IsWithin w
    → p.serialize event ≡ some payload
    → event.schema_version ≡ telemetry_schema_version
    → Appends p w event timestamp
        (append_payload d w payload timestamp).0
        (append_payload d w payload timestamp).1
unfolding append_payload write_two
append_payload-Appends d p w event timestamp payload g i e v =
    elim (Bool-cases (ltb maximum_payload_size (length payload))) [
      | inl large ↦
          rw large (inl (fail-Rejects w "telemetry payload exceeds the format limit" refl g))
      | inr fits ↦ rw fits (
          inr (
            payload,
            e,
            v,
            ground arith,
            write_two-Stores d w (record_header payload w.record_count timestamp) payload g i,
          ))
    ]

append_known :
    (d : Device) (p : Protobuf) (w : LogWriter) (event : TelemetryEvent) (timestamp : ℤ)
    (payload : Bytes)
    → good w ≡ true
    → (event.schema_version == telemetry_schema_version) ≡ true
    → p.serialize event ≡ some payload
    → append d p w event timestamp ≡ append_payload d w payload timestamp
unfolding append
append_known d p w event timestamp payload g known e = rw (g, known, e)

pub append-Appends :
    (d : Device) (p : Protobuf) (w : LogWriter) (event : TelemetryEvent) (timestamp : ℤ)
    → good w ≡ true
    → IsWithin w
    → Appends p w event timestamp (append d p w event timestamp).0 (append d p w event timestamp).1
unfolding append
append-Appends d p w event timestamp g i =
    elim (Bool-cases (event.schema_version == telemetry_schema_version)) [
      | inr other ↦
          rw (g, other)
            (inl
              (fail-Rejects w "refusing to write an unsupported telemetry schema version" refl g))
      | inl known ↦ elim (Option-cases (p.serialize event)) [
        | inl e ↦
            rw (g, known, e) (inl (fail-Rejects w "failed to serialize telemetry event" refl g))
        | inr (payload, e) ↦
            rw (append_known d p w event timestamp payload g known e)
              (append_payload-Appends d p w event timestamp payload g i e ((==_iff _ _).0 known))
      ]
    ]

-- A writer that is not good refuses every append and stays as it is.
pub append_bad :
    (d : Device) (p : Protobuf) (w : LogWriter) (event : TelemetryEvent) (timestamp : ℤ)
    → good w ≡ false
    → append d p w event timestamp ≡ (w, false)
unfolding append
append_bad d p w event timestamp b = rw b
