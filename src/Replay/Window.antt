-- ===== src/Replay/Window.antt =====
-- What a replay that completes has delivered, whatever has become of the file since the index was made.
use trace_forge.Common.{
  ℕ, ◌+◌, ◌%◌, ◌≡◌, ◌⊎◌, inl, inr, refl, sym, ap, subst, ◌∙◌, arith, Bool, true, false,
  if◌then◌else◌, Option, some, List, [], ◌∷◌, length, Bytes, Bool-cases, Option-cases, ◌≢◌, u64_mod,
}
use trace_forge.Common.Int.{ℤ}
use trace_forge.Telemetry.Event.{Protobuf, TelemetryEvent}
use trace_forge.Recording.{LogRecord, LogIndexEntry, record_header_size}
use trace_forge.Recording.Crc32c.{crc32c}
use trace_forge.Replay.{
  ReplayStatus, ReplayMessage, ReplayState, ReplayConsumer, Round, go_on, fails, complete, consume,
  read_payload, is_sequential, hash_record, deliver, check_payload, replay_entry, with_status,
  is_until, replay_entries,
}

-- The entries before the first one that `until` excludes.
abbrev pub before : Option ℤ → List LogIndexEntry → List LogIndexEntry
before until [] = []
before until (entry ∷ rest) =
    let kept = before until rest in
    if is_until until entry.collector_arrival_timestamp_ns then [] else entry ∷ kept

before_kept :
    (until : Option ℤ) (entry : LogIndexEntry) (rest : List LogIndexEntry)
    → is_until until entry.collector_arrival_timestamp_ns ≡ false
    → before until (entry ∷ rest) ≡ entry ∷ before until rest
before_kept until entry rest e = rw e refl

-- A record that was delivered, against the entry of the index.
pub record IsRecordOf (p : Protobuf) (entry : LogIndexEntry) (payload : Bytes)
    (log_record : LogRecord) : Type 0 where
  pub number : log_record.record_index ≡ entry.record_index
  pub place : log_record.file_offset ≡ entry.file_offset
  pub arrival : log_record.collector_arrival_timestamp_ns ≡ entry.collector_arrival_timestamp_ns
  pub parsed : p.parse payload ≡ some (log_record.event)
  pub size : length payload ≡ entry.payload_size
  pub checksum : crc32c payload ≡ entry.payload_crc32c
  pub version : log_record.event.schema_version ≡ 1
  pub source : log_record.event.source_timestamp_ns ≡ entry.source_timestamp_ns

read_payload-length :
    (contents : Bytes) (position : ℕ) (entry : LogIndexEntry) (sequential : Bool) (payload : Bytes)
    (behind : ℕ)
    → read_payload contents position entry sequential ≡ some (payload, behind)
    → length payload ≡ entry.payload_size
unfolding read_payload
read_payload-length contents position entry sequential payload behind h = ground arith

module _ {C : Type 0} (p : Protobuf) (consumer : ReplayConsumer C) where
  -- A consumer, the hash and the count after these entries, each with a record.
  pub data Delivers : ReplayState C → List LogIndexEntry → ReplayState C → Type 0 where
    done :
        {s s' : ReplayState C}
        → s.result.hash ≡ s'.result.hash
        → s.consumer ≡ s'.consumer
        → s.result.replayed_records ≡ s'.result.replayed_records
        → Delivers s [] s'
    delivers :
        {s s1 s' : ReplayState C} {entry : LogIndexEntry} {rest : List LogIndexEntry}
        (payload : Bytes) (log_record : LogRecord)
        → IsRecordOf p entry payload log_record
        → (consume consumer s.consumer log_record) ≡ (s1.consumer, true)
        → s1.result.hash ≡ hash_record s.result.hash entry payload
        → s1.result.replayed_records ≡ (s.result.replayed_records + 1) % u64_mod
        → Delivers s1 rest s'
        → Delivers s (entry ∷ rest) s'

  -- A round that goes on.
  abbrev pub GoesOn : LogIndexEntry → ReplayState C → ReplayState C → Type 0
  GoesOn entry s s1 =
      (payload : Bytes) × (log_record : LogRecord) × IsRecordOf p entry payload log_record
      × (consume consumer s.consumer log_record ≡ (s1.consumer, true))
      × (s1.result.hash ≡ hash_record s.result.hash entry payload)
      × (s1.result.replayed_records ≡ (s.result.replayed_records + 1) % u64_mod)

  deliver-GoesOn :
      (entry : LogIndexEntry) (payload : Bytes) (event : TelemetryEvent) (s s1 : ReplayState C)
      → length payload ≡ entry.payload_size
      → crc32c payload ≡ entry.payload_crc32c
      → p.parse payload ≡ some event
      → event.schema_version ≡ 1
      → event.source_timestamp_ns ≡ entry.source_timestamp_ns
      → deliver p consumer entry payload event s ≡ go_on s1
      → GoesOn entry s s1
  unfolding deliver
  deliver-GoesOn entry payload event s s1 size sum parsed version source h = (
    payload,
    record {
      record_index = entry.record_index;
      file_offset = entry.file_offset;
      collector_arrival_timestamp_ns = entry.collector_arrival_timestamp_ns;
      event = event;
    },
    record {
      number = refl;
      place = refl;
      arrival = refl;
      parsed = parsed;
      size = size;
      checksum = sum;
      version = version;
      source = source;
    },
    ground arith,
    ground arith,
    ground arith,
  )

  check_payload-GoesOn :
      (entry : LogIndexEntry) (payload : Bytes) (s s1 : ReplayState C)
      → length payload ≡ entry.payload_size
      → check_payload p consumer entry payload s ≡ go_on s1
      → GoesOn entry s s1
  unfolding check_payload
  check_payload-GoesOn entry payload s s1 size h = elim (Option-cases (p.parse payload)) [
    | inl e ↦ absurd (ground arith)
    | inr (event, e) ↦
        deliver-GoesOn entry payload event s s1 size (ground arith) e (ground arith) (ground arith)
          (ground arith)
  ]

  replay_entry-GoesOn :
      (contents : Bytes) (entry : LogIndexEntry) (s s1 : ReplayState C)
      → replay_entry p consumer contents entry s ≡ go_on s1
      → GoesOn entry s s1
  unfolding replay_entry
  replay_entry-GoesOn contents entry s s1 h =
      elim (Option-cases
        (read_payload contents s.position entry (is_sequential s.next_physical_offset entry))) [
          | inl e ↦ absurd (ground arith)
          | inr ((payload, behind), e) ↦
              check_payload-GoesOn entry payload
                (record s {
                  position = behind;
                  next_physical_offset =
                      some
                        ((entry.file_offset + record_header_size + entry.payload_size) % u64_mod);
                })
                s1 (read_payload-length contents s.position entry _ payload behind e)
                (ground (arith, e, h))
        ]

  Round-cases :
      (r : Round C)
      → ((s1 : ReplayState C) × (r ≡ go_on s1))
        ⊎ ((status : ReplayStatus) × (text : ReplayMessage) × (s1 : ReplayState C) × (r
              ≡ fails status text s1))
  Round-cases (go_on s1) = inl (s1, refl)
  Round-cases (fails status text s1) = inr (status, text, s1, refl)

  -- No failure of a round has the status of a replay that completed.
  replay_entry-Fails :
      (contents : Bytes) (entry : LogIndexEntry) (s s1 : ReplayState C) (text : ReplayMessage)
      → replay_entry p consumer contents entry s ≢ fails complete text s1
  unfolding replay_entry check_payload deliver
  replay_entry-Fails contents entry s s1 text = ground arith

  -- The loop after a round, by what the round comes to.
  replay_entries_after :
      (contents : Bytes) (until : Option ℤ) (entry : LogIndexEntry) (rest : List LogIndexEntry)
      (s : ReplayState C) (r : Round C)
      → is_until until entry.collector_arrival_timestamp_ns ≡ false
      → replay_entry p consumer contents entry s ≡ r
      → replay_entries p consumer contents until (entry ∷ rest) s ≡ elim r [
        | fails status text s' ↦ with_status s' status text
        | go_on s' ↦ replay_entries p consumer contents until rest s'
      ]
  unfolding replay_entries
  replay_entries_after contents until entry rest s r e h = rw (e, h)

  failed-Status :
      (contents : Bytes) (entry : LogIndexEntry) (s s1 : ReplayState C) (status : ReplayStatus)
      (text : ReplayMessage)
      → replay_entry p consumer contents entry s ≡ fails status text s1
      → status ≢ complete
  failed-Status contents entry s s1 status text r e =
      replay_entry-Fails contents entry s s1 text (r ∙ ap (λ x. fails x text s1) e)

  pub replay_entries-Delivers :
      (contents : Bytes) (until : Option ℤ) (entries : List LogIndexEntry) (s : ReplayState C)
      → (replay_entries p consumer contents until entries s).result.status ≡ complete
      → Delivers s (before until entries) (replay_entries p consumer contents until entries s)
  unfolding replay_entries
  replay_entries-Delivers contents until [] s h = done refl refl refl
  replay_entries-Delivers contents until (entry ∷ rest) s h =
      elim (Bool-cases (is_until until entry.collector_arrival_timestamp_ns)) [
        | inl e ↦ rw e (done refl refl refl)
        | inr e ↦ elim (Round-cases (replay_entry p consumer contents entry s)) [
          | inl (s1, r) ↦
              let after = replay_entries_after contents until entry rest s _ e r in
              let (payload, log_record, matches, took, hash, count) =
                replay_entry-GoesOn contents entry s s1 r in
              let later =
                replay_entries-Delivers contents until rest s1
                  (ap (λ x. x.result.status) (sym after) ∙ h) in
              subst
                (λ es. Delivers s es (replay_entries p consumer contents until (entry ∷ rest) s))
                (sym (before_kept until entry rest e))
                (subst (Delivers s (entry ∷ before until rest)) (sym after)
                  (delivers payload log_record matches took hash count later))
          | inr (status, text, s1, r) ↦
              let after = replay_entries_after contents until entry rest s _ e r in
              absurd (
                failed-Status contents entry s s1 status text r
                  (ap (λ x. x.result.status) (sym after) ∙ h))
        ]
      ]
