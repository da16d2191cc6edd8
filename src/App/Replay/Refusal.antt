-- ===== src/App/Replay/Refusal.antt =====
-- When `ReplayEngine::replay` of src/replay/replay.cpp refuses its options.
use trace_forge.Common.{
  ◌≡◌, ◌↔◌, inl, inr, refl, sym, ◌∙◌, arith, Bool, true, false, ◌||◌, not, ◌==◌, subst, Option,
  none, some, List, [], ◌∷◌, Bytes, Bool-cases, Option-cases,
}
use mathlib.Core.Option.{some-injective}
use trace_forge.Common.Int.{ℤ, ◌≤ℤ◌, eqb_ℤ}
use trace_forge.Telemetry.Double.{is_finite, less, d_zero}
use trace_forge.Telemetry.Event.{Protobuf, TelemetryEvent, telemetry_schema_version}
use trace_forge.Recording.{LogIndexEntry, LogRecord}
use trace_forge.Recording.Crc32c.{crc32c}
use trace_forge.Replay.{
  ReplayEngine, ReplayOptions, ReplayStatus, complete, invalid_options, log_error, io_error,
  consumer_error, ReplayMessage, ReplayConsumer, ReplayState, Round, go_on, fails, consume, deliver,
  check_payload, replay_entry, read_payload, is_sequential, is_until, with_status, replay,
  replay_entries, not_after,
}

unfoldable pub is_invalid : ReplayStatus → Bool
is_invalid complete = false
is_invalid invalid_options = true
is_invalid log_error = false
is_invalid io_error = false
is_invalid consumer_error = false

module _ {C : Type 0} (p : Protobuf) (consumer : ReplayConsumer C) where
  refuses_options : Round C → Bool
  unfolding is_invalid
  refuses_options (go_on s) = false
  refuses_options (fails status _ s) = is_invalid status

  deliver-refuses_options :
      (entry : LogIndexEntry) (payload : Bytes) (event : TelemetryEvent) (s : ReplayState C)
      → refuses_options (deliver p consumer entry payload event s) ≡ false
  unfolding refuses_options is_invalid deliver
  deliver-refuses_options entry payload event s =
      let log_record : LogRecord = record {
        record_index = entry.record_index;
        file_offset = entry.file_offset;
        collector_arrival_timestamp_ns = entry.collector_arrival_timestamp_ns;
        event = event;
      } in
      elim (Bool-cases (consume consumer s.consumer log_record).1) [
        | inl e ↦ rw e refl
        | inr e ↦ rw e refl
      ]

  check_payload-refuses_options :
      (entry : LogIndexEntry) (payload : Bytes) (s : ReplayState C)
      → refuses_options (check_payload p consumer entry payload s) ≡ false
  unfolding refuses_options is_invalid check_payload
  check_payload-refuses_options entry payload s =
      elim (Bool-cases (crc32c payload == entry.payload_crc32c)) [
        | inr e ↦ rw e refl
        | inl e ↦ elim (Option-cases (p.parse payload)) [
          | inl e' ↦ rw (e, e', check_payload) refl
          | inr (event, e') ↦
              rw (e, e', check_payload)
                (elim (Bool-cases (
                  not (event.schema_version == telemetry_schema_version)
                  || not (eqb_ℤ event.source_timestamp_ns entry.source_timestamp_ns))) [
                    | inl e'' ↦ rw e'' refl
                    | inr e'' ↦ rw e'' (deliver-refuses_options entry payload event s)
                  ])
        ]
      ]

  replay_entry-refuses_options :
      (contents : Bytes) (entry : LogIndexEntry) (s : ReplayState C)
      → refuses_options (replay_entry p consumer contents entry s) ≡ false
  unfolding refuses_options is_invalid replay_entry
  replay_entry-refuses_options contents entry s =
      elim (Option-cases
        (read_payload contents s.position entry (is_sequential s.next_physical_offset entry))) [
          | inl e ↦ rw (e, replay_entry) refl
          | inr (read, e) ↦ rw (e, replay_entry) (check_payload-refuses_options entry read.0 _)
        ]

  round_end :
      (contents : Bytes) (until : Option ℤ) (rest : List LogIndexEntry) (r : Round C)
      → refuses_options r ≡ false
      → ((s : ReplayState C)
          → is_invalid (replay_entries p consumer contents until rest s).result.status ≡ false)
      → is_invalid
          (elim r as (λ _. ReplayState C) [
            | fails status message s' ↦ with_status s' status message
            | go_on s' ↦ replay_entries p consumer contents until rest s'
          ]).result.status
        ≡ false
  unfolding refuses_options
  round_end contents until rest (go_on s) h later = later s
  round_end contents until rest (fails status text s) h later = h

  -- No round refuses the options.
  replay_entries-is_invalid :
      (contents : Bytes) (until : Option ℤ) (entries : List LogIndexEntry) (s : ReplayState C)
      → is_invalid (replay_entries p consumer contents until entries s).result.status ≡ false
  unfolding replay_entries is_invalid
  replay_entries-is_invalid contents until [] s = refl
  replay_entries-is_invalid contents until (entry ∷ rest) s =
      elim (Bool-cases (is_until until entry.collector_arrival_timestamp_ns)) [
        | inl e ↦ rw (e, replay_entries) refl
        | inr e ↦
            rw (e, replay_entries)
              (round_end contents until rest (replay_entry p consumer contents entry s)
                (replay_entry-refuses_options contents entry s)
                (replay_entries-is_invalid contents until rest))
      ]

  -- Behind the test of the speed, only inverted limits are refused.
  pub replay-is_invalid :
      (engine : ReplayEngine) (stream : Option Bytes) (options : ReplayOptions) (c : C)
      → (not (is_finite options.speed) || less options.speed d_zero) ≡ false
      → engine.error ≡ none
      → is_invalid (replay p consumer engine stream options c).result.status
        ≡ not_after options.from_collector_timestamp_ns options.until_collector_timestamp_ns
  unfolding replay is_invalid
  replay-is_invalid engine stream options c speed usable =
      elim (Bool-cases
        (not_after options.from_collector_timestamp_ns options.until_collector_timestamp_ns)) [
          | inl e ↦ rw (usable, speed, e, replay) refl
          | inr e ↦ elim (Option-cases stream) [
            | inl none_open ↦ rw (usable, speed, e, none_open, replay) refl
            | inr (contents, opened) ↦
                rw (usable, speed, e, opened, replay) (replay_entries-is_invalid contents _ _ _)
          ]
        ]

  pub replay-log_error :
      (engine : ReplayEngine) (stream : Option Bytes) (options : ReplayOptions) (c : C)
      (error : ReplayMessage)
      → engine.error ≡ some error
      → is_invalid (replay p consumer engine stream options c).result.status ≡ false
  unfolding replay is_invalid
  replay-log_error engine stream options c error e = rw (e, replay) refl

-- Both limits are given, and the upper one is not behind the lower one.
abbrev pub AreInverted : ReplayOptions → Type 0
AreInverted options =
    (from : ℤ) × (until : ℤ) × (options.from_collector_timestamp_ns ≡ some from)
    × (options.until_collector_timestamp_ns ≡ some until)
    × (until ≤ℤ from)

pub not_after_iff :
    (options : ReplayOptions) (from until : Option ℤ)
    → options.from_collector_timestamp_ns ≡ from
    → options.until_collector_timestamp_ns ≡ until
    → (not_after from until ≡ true) ↔ AreInverted options
not_after_iff options (some from) (some until) f u = (
  λ h. (from, until, f, u, ground (arith, h)),
  λ (a, b, fa, ub, le).
      let same_from : a ≡ from = some-injective a from (sym fa ∙ f) in
      let same_until : b ≡ until = some-injective b until (sym ub ∙ u) in
      ground (arith, subst (λ x. x ≤ℤ from) same_until (subst (λ x. b ≤ℤ x) same_from le)),
)
not_after_iff options (some from) none f u =
    (λ h. absurd (ground (arith, h)), λ (a, b, fa, ub, le). absurd (ground (arith, u, ub)))
not_after_iff options none until f u =
    (λ h. absurd (ground (arith, h)), λ (a, b, fa, ub, le). absurd (ground (arith, f, fa)))

pub is_invalid_iff :
    (status : ReplayStatus) → (is_invalid status ≡ true) ↔ (status ≡ invalid_options)
unfolding is_invalid
is_invalid_iff complete = (λ h. absurd (ground (arith, h)), λ h. absurd (ground (arith, h)))
is_invalid_iff invalid_options = (λ h. refl, λ h. refl)
is_invalid_iff log_error = (λ h. absurd (ground (arith, h)), λ h. absurd (ground (arith, h)))
is_invalid_iff io_error = (λ h. absurd (ground (arith, h)), λ h. absurd (ground (arith, h)))
is_invalid_iff consumer_error = (λ h. absurd (ground (arith, h)), λ h. absurd (ground (arith, h)))
