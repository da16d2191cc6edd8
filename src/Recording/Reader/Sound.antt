-- ===== src/Recording/Reader/Sound.antt =====
-- What `read_log` guarantees of any file at all: it ends, and what it delivers has been checked.
use Prim.Native.String.{String}
use native.Mathlib.Nat.{mod-eq_of_lt}
use native.Mathlib.Decide.{dec_lt}
use trace_forge.Common.{
  ℕ, zero, suc, ◌+◌, ◌≤◌, ◌<◌, ◌≡◌, ◌≢◌, ◌⊎◌, inl, inr, refl, sym, subst, ap, ◌∙◌, arith, List, [],
  ◌∷◌, ◌++◌, length, take, drop, Bytes, some, append_assoc, append-nil, drop-drop, u64_mod,
}
use trace_forge.Common.Int.{ℤ}
use trace_forge.Telemetry.Event.{TelemetryEvent, Protobuf, telemetry_schema_version}
use trace_forge.Recording.{
  LogReadStatus, LogReadOptions, LogReadResult, LogRecord, LogIndexEntry, record_header_size,
  maximum_payload_size,
}
use trace_forge.Recording.Crc32c.{crc32c}
use trace_forge.Recording.Reader.{
  Step, next, stop, settled, make_failure, add_record, read_record, read_records, read_file_header,
  read_log, empty_result,
}
use trace_forge.Recording.Reader.Checks.{
  IsChecked, read_record_checks, Stops, read_record-Stops, read_file_header-Stops,
  read_file_header_left,
}
use trace_forge.Recording.Reader.Prefix.{started}
use trace_forge.Recording.Reader.Loop.{loop_done, loop_stop, loop_next}

-- The bytes of a file that an index entry speaks of.
abbrev pub payload_of : Bytes → LogIndexEntry → Bytes
payload_of file x = take x.payload_size (drop (x.file_offset + record_header_size) file)

-- An index entry describes a record that stands whole in the file at `offset` and passes every check.
pub record IsIndexed (p : Protobuf) (file : Bytes) (offset index : ℕ) (x : LogIndexEntry)
    : Type 0 where
  pub placed : x.file_offset ≡ offset
  pub numbered : x.record_index ≡ index
  pub bounded : x.payload_size ≤ maximum_payload_size
  pub inside : offset + (record_header_size + x.payload_size) ≤ length file
  pub summed : crc32c (payload_of file x) ≡ x.payload_crc32c
  pub event : TelemetryEvent
  pub parsed : p.parse (payload_of file x) ≡ some event
  pub supported : event.schema_version ≡ telemetry_schema_version
  pub stamped : event.source_timestamp_ns ≡ x.source_timestamp_ns

-- The entries number the records from `index` on and cover the file without a gap from `offset` to `end_offset`.
abbrev pub Chain : Protobuf → Bytes → ℕ → ℕ → List LogIndexEntry → ℕ → Type 0
Chain p file offset index [] end_offset = offset ≡ end_offset
Chain p file offset index (x ∷ xs) end_offset =
    IsIndexed p file offset index x
    × Chain p file (offset + (record_header_size + x.payload_size)) (index + 1) xs end_offset

IsChecked-IsIndexed :
    (p : Protobuf) (file : Bytes) (offset index : ℕ) (x : LogIndexEntry) (rest : Bytes)
    (log_record : LogRecord)
    → offset ≤ length file
    → IsChecked p (length file) offset index (drop offset file) x rest log_record
    → IsIndexed p file offset index x
      × (rest ≡ drop (offset + (record_header_size + x.payload_size)) file)
IsChecked-IsIndexed p file offset index x rest log_record le c =
    let here : drop 36 (drop offset file) ≡ drop (x.file_offset + record_header_size) file =
      drop-drop offset 36 file ∙ ap (λ k. drop k file) (omega (arith, c.placed)) in
    (
      record {
        placed = c.placed;
        numbered = c.numbered;
        bounded = c.bounded;
        inside = omega (arith, c.inside);
        summed = rw (← here) c.summed;
        event = log_record.event;
        parsed = rw (← here) c.parsed;
        supported = c.supported;
        stamped = c.stamped;
      },
      c.left
          ∙ ap (drop x.payload_size) (drop-drop offset 36 file)
          ∙ drop-drop (offset + 36) x.payload_size file
          ∙ ap (λ k. drop k file) (omega arith),
    )

-- What the loop leaves behind when it starts at `offset` with `result`.
pub record IsSound (p : Protobuf) (file : Bytes) (result : LogReadResult) (offset index : ℕ)
    (r : LogReadResult) : Type 0 where
  pub entries : List LogIndexEntry
  pub indexed : r.index ≡ result.index ++ entries
  pub chained : Chain p file offset index entries r.valid_bytes
  pub within : r.valid_bytes ≤ length file
  pub sized : r.file_size ≡ length file
  pub ends :
      ((r.status ≡ LogReadStatus.complete) × (r.valid_bytes ≡ length file))
      ⊎ ((r.status ≢ LogReadStatus.complete)
          × (r.error_offset ≡ r.valid_bytes)
          × (r.valid_bytes < length file))

Step-cases {ℓ} :
    {A : Type ℓ} (m : Step A)
    → Stops m
    → ((a : A) × (m ≡ next a))
      ⊎ ((status : LogReadStatus) × (message : String) × (m ≡ stop status message)
          × (status ≢ LogReadStatus.complete))
Step-cases (next a) h = inl (a, refl)
Step-cases (stop status message) h = inr (status, message, refl, h)

module _ (p : Protobuf) (options : LogReadOptions) (file : Bytes) where
  IsSound-done :
      (fuel : ℕ) (result : LogReadResult) (offset index : ℕ) (input : Bytes)
      → offset ≡ length file
      → result.file_size ≡ length file
      → result.valid_bytes ≡ offset
      → (r : LogReadResult) × (read_records (suc fuel) p options result offset index input ≡ some r)
        × IsSound p file result offset index r
  IsSound-done fuel result offset index input e size valid = (
    record result { status = LogReadStatus.complete; message = "log is complete" },
    loop_done p options fuel result offset index input (omega arith),
    record {
      entries = [];
      indexed = sym (append-nil result.index);
      chained = sym valid;
      within = omega arith;
      sized = size;
      ends = inl (refl, omega arith);
    },
  )

  IsSound-stop :
      (fuel : ℕ) (result : LogReadResult) (offset index : ℕ) (input : Bytes)
      {status : LogReadStatus} {message : String}
      → offset < length file
      → result.file_size ≡ length file
      → result.valid_bytes ≡ offset
      → status ≢ LogReadStatus.complete
      → read_record p options result offset index input ≡ stop status message
      → (r : LogReadResult) × (read_records (suc fuel) p options result offset index input ≡ some r)
        × IsSound p file result offset index r
  unfolding make_failure
  IsSound-stop fuel result offset index input {status} {message} lt size valid bad stops = (
    make_failure result status offset message,
    loop_stop p options fuel result offset index input (omega arith) stops,
    record {
      entries = [];
      indexed = sym (append-nil result.index);
      chained = sym valid;
      within = omega arith;
      sized = size;
      ends = inr (bad, sym valid, omega arith);
    },
  )

  -- A round that delivers a record moves on to the next place in the file.
  sound_round :
      (fuel : ℕ) (result : LogReadResult) (offset index : ℕ) (log_record : LogRecord)
      (entry : LogIndexEntry) (rest : Bytes)
      → offset < length file
      → length file < u64_mod
      → index ≤ offset
      → result.file_size ≡ length file
      → read_record p options result offset index (drop offset file)
        ≡ next (log_record, entry, rest)
      → let end = offset + (record_header_size + entry.payload_size) in
        IsIndexed p file offset index entry
        × (read_records (suc fuel) p options result offset index (drop offset file)
            ≡ read_records fuel p options
                (add_record options result log_record entry end)
                end
                (index + 1)
                (drop end file))
  sound_round fuel result offset index log_record entry rest lt u i size goes =
      let checks =
        read_record_checks p options result offset index (drop offset file) log_record entry rest
          goes in
      let (indexed, left) =
        IsChecked-IsIndexed p file offset index entry rest log_record (omega arith) (
          subst (λ s. IsChecked p s offset index (drop offset file) entry rest log_record) size
            checks) in
      (
        indexed,
        loop_next p options fuel result offset index (drop offset file) (omega arith) goes
            ∙ rw (
              mod-eq_of_lt {n = offset + (record_header_size + entry.payload_size)} {m = u64_mod}
                  (omega (arith, indexed.inside)),
              mod-eq_of_lt {n = index + 1} {m = u64_mod} (omega (arith, indexed.inside)),
              left,
            ),
      )

  IsSound-more :
      (result r : LogReadResult) (offset index : ℕ) (log_record : LogRecord) (entry : LogIndexEntry)
      → let end = offset + (record_header_size + entry.payload_size) in
        IsIndexed p file offset index entry
        → IsSound p file (add_record options result log_record entry end) end (index + 1) r
        → IsSound p file result offset index r
  unfolding add_record
  IsSound-more result r offset index log_record entry indexed s = record {
    entries = entry ∷ s.entries;
    indexed = s.indexed ∙ append_assoc result.index (entry ∷ []) s.entries;
    chained = (indexed, s.chained);
    within = s.within;
    sized = s.sized;
    ends = s.ends;
  }

  read_records-IsSound :
      (fuel : ℕ) (result : LogReadResult) (offset index : ℕ)
      → offset ≤ length file
      → length file < offset + fuel
      → length file < u64_mod
      → index ≤ offset
      → result.file_size ≡ length file
      → result.valid_bytes ≡ offset
      → (r : LogReadResult) × (read_records fuel p options result offset index (drop offset file)
          ≡ some r)
        × IsSound p file result offset index r
  unfolding add_record
  read_records-IsSound zero result offset index le f u i size valid = absurd (omega arith)
  read_records-IsSound (suc fuel) result offset index le f u i size valid =
      elim (dec_lt offset (length file)) [
        | no done ↦
            IsSound-done fuel result offset index (drop offset file) (omega arith) size valid
        | yes more ↦
            elim (Step-cases (read_record p options result offset index (drop offset file))
              (read_record-Stops p options result offset index (drop offset file))) [
                | inl ((log_record, entry, rest), goes) ↦
                    let (indexed, moves) =
                      sound_round fuel result offset index log_record entry rest more u i size
                        goes in
                    let end = offset + (record_header_size + entry.payload_size) in
                    let (r, ran, sound) =
                      read_records-IsSound fuel (add_record options result log_record entry end) end
                        (index + 1) indexed.inside (omega arith) u (omega arith) size refl in
                    (
                      r,
                      moves ∙ ran,
                      IsSound-more result r offset index log_record entry indexed sound,
                    )
                | inr (status, message, stops, bad) ↦
                    IsSound-stop fuel result offset index (drop offset file) more size valid bad
                      stops
              ]
      ]

-- A log that could not be opened as one: nothing is delivered.
pub record IsRefused (file : Bytes) (r : LogReadResult) : Type 0 where
  pub status : r.status ≢ LogReadStatus.complete
  pub nothing : r.index ≡ []
  pub no_bytes : r.valid_bytes ≡ 0
  pub sized : r.file_size ≡ length file

-- On every file below 2 ^ 64 bytes, well formed or not, `read_log` ends with a result. Either the
-- file header was refused and nothing is delivered, or the index covers the file from byte 32 to
-- `valid_bytes` without a gap, numbers its records from 0, and each of its records stands whole
-- in the file with the checksum, the schema version and the source time that the index entry
-- says; then either the status is complete and `valid_bytes` is the size of the file, or the
-- status is another, `valid_bytes` is smaller and the error is placed there.
pub read_log-IsSound :
    (p : Protobuf) (options : LogReadOptions) (file : Bytes)
    → length file < u64_mod
    → (r : LogReadResult) × (read_log p (settled file) options ≡ some r)
      × (IsRefused file r ⊎ ((created : ℤ) × IsSound p file (started created (length file)) 32 0 r))
unfolding read_log make_failure
read_log-IsSound p options file u =
    elim (Step-cases (read_file_header file (length file))
      (read_file_header-Stops file (length file))) [
        | inl ((created, rest), goes) ↦
            let (long, left) = read_file_header_left file rest (length file) created goes in
            let (r, ran, sound) =
              read_records-IsSound p options file (suc (length file))
                (started created (length file)) 32 0 long (omega arith) u (omega arith) refl refl in
            (r, rw (goes, left, read_log) ran, inr (created, sound))
        | inr (status, message, stops, bad) ↦ (
          make_failure (record empty_result { file_size = length file }) status 0 message,
          rw (stops, read_log),
          inl (record { status = bad; nothing = refl; no_bytes = refl; sized = refl }),
        )
      ]
