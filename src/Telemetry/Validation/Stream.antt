-- ===== src/Telemetry/Validation/Stream.antt =====
-- The validator over a stream of events.
use trace_forge.Common.{
  ℕ, ◌+◌, ◌-◌, ◌<◌, ◌≡◌, ◌⊎◌, inl, inr, refl, sym, ◌∙◌, arith, bytes_eq_sound, subst, List, [], ◌∷◌,
  length, Bytes, u64_mod,
}
use trace_forge.Telemetry.Event.{TelemetryEvent}
use trace_forge.Telemetry.Validation.{
  Rejection, ValidationResult, valid, reject, StreamValidator, new_validator, validate_header,
  validate_payload, count_event, accept,
}
use trace_forge.Telemetry.Validation.Valid.{
  IsValidEvent, validate_payload-IsValidPayload, validate_header-valid,
}

-- Valid events of one producer whose sequence numbers increase from `last` on.
pub data Increases (producer : Bytes) : ℕ → List TelemetryEvent → Type 0 where
  end : {last : ℕ} → Increases producer last []
  more :
      {last : ℕ} {e : TelemetryEvent} {es : List TelemetryEvent}
      → last < e.sequence_number
      → IsValidEvent producer e
      → Increases producer e.sequence_number es
      → Increases producer last (e ∷ es)

-- The last sequence number, and how many are left out on the way to it.
abbrev pub last_from : ℕ → List TelemetryEvent → ℕ
last_from last [] = last
last_from last (e ∷ es) = last_from e.sequence_number es

abbrev pub left_out : ℕ → List TelemetryEvent → ℕ
left_out last [] = 0
left_out last (e ∷ es) = (e.sequence_number - last - 1) + left_out e.sequence_number es

abbrev pub keep : ValidationResult → TelemetryEvent → List TelemetryEvent → List TelemetryEvent
keep (reject reason) e es = es
keep valid e es = e ∷ es

-- The validator after a list of events, and the accepted ones among them.
abbrev pub validate_all :
    StreamValidator → List TelemetryEvent → StreamValidator × List TelemetryEvent
validate_all v [] = (v, [])
validate_all v (e ∷ es) =
    let rest = validate_all (accept v e).0 es in (rest.0, keep (accept v e).1 e rest.1)

ValidationResult-cases :
    (r : ValidationResult) → ((reason : Rejection) × (r ≡ reject reason)) ⊎ (r ≡ valid)
ValidationResult-cases valid = inr refl
ValidationResult-cases (reject reason) = inl (reason, refl)

accept_rejects :
    (v : StreamValidator) (e : TelemetryEvent) (reason : Rejection)
    → (accept v e).1 ≡ reject reason
    → (accept v e).0 ≡ v
unfolding accept
accept_rejects v e reason h = ground arith

pub accept_counts :
    (v : StreamValidator) (e : TelemetryEvent)
    → (accept v e).1 ≡ valid
    → (validate_header v e ≡ valid)
      × (validate_payload e.payload ≡ valid)
      × ((accept v e).0 ≡ count_event v e)
unfolding accept
accept_counts v e h = ground arith

-- The state of a stream that has accepted an event: it is bound to a producer.
pub record IsBound (v : StreamValidator) : Type 0 where
  pub named : 0 < length v.producer_id
  pub started : 0 < v.accepted_events
  pub last_in_range : v.last_sequence_number < u64_mod
  pub accounted :
      v.first_sequence_number + v.accepted_events + v.sequence_gaps ≡ v.last_sequence_number + 1

-- How the accepted events take a bound state to another.
pub record Follows (v : StreamValidator) (es : List TelemetryEvent) (v' : StreamValidator)
    : Type 0 where
  pub increases : Increases v.producer_id v.last_sequence_number es
  pub same_producer : v'.producer_id ≡ v.producer_id
  pub same_first : v'.first_sequence_number ≡ v.first_sequence_number
  pub last : v'.last_sequence_number ≡ last_from v.last_sequence_number es
  pub counted : v'.accepted_events ≡ v.accepted_events + length es
  pub gaps : v'.sequence_gaps ≡ v.sequence_gaps + left_out v.last_sequence_number es

abbrev pub InRange : List TelemetryEvent → Type 0
InRange [] = Unit
InRange (e ∷ es) = (e.sequence_number < u64_mod) × InRange es

-- One accepted event in a bound state.
accept-Bound :
    (v : StreamValidator) (e : TelemetryEvent)
    → IsBound v
    → e.sequence_number < u64_mod
    → v.accepted_events + 1 < u64_mod
    → (accept v e).1 ≡ valid
    → (v.last_sequence_number < e.sequence_number)
      × IsValidEvent v.producer_id e
      × ((accept v e).0 ≡ record v {
        last_sequence_number = e.sequence_number;
        accepted_events = v.accepted_events + 1;
        sequence_gaps = v.sequence_gaps + (e.sequence_number - v.last_sequence_number - 1);
      })
unfolding count_event
accept-Bound v e b f n h =
    let (header, payload, counted) = accept_counts v e h in
    let (version, lengths, epoch, clock, producer, order) = validate_header-valid v e header in
    (
      ground arith,
      record {
        same_producer = ground (arith, bytes_eq_sound e.producer_id v.producer_id);
        producer_length = lengths;
        version = version;
        after_epoch = epoch;
        known_clock = clock;
        valid_payload = validate_payload-IsValidPayload e.payload payload;
      },
      counted ∙ ground arith,
    )

-- The bound state after one more event.
abbrev advance : StreamValidator → TelemetryEvent → StreamValidator
advance v e = record v {
  last_sequence_number = e.sequence_number;
  accepted_events = v.accepted_events + 1;
  sequence_gaps = v.sequence_gaps + (e.sequence_number - v.last_sequence_number - 1);
}

advance-IsBound :
    (v : StreamValidator) (e : TelemetryEvent)
    → IsBound v
    → e.sequence_number < u64_mod
    → v.last_sequence_number < e.sequence_number
    → IsBound (advance v e)
advance-IsBound v e b f l = record {
  named = b.named;
  started = omega arith;
  last_in_range = f;
  accounted = ground (arith, b.accounted);
}

advance-Follows :
    (v v' : StreamValidator) (e : TelemetryEvent) (es : List TelemetryEvent)
    → v.last_sequence_number < e.sequence_number
    → IsValidEvent v.producer_id e
    → Follows (advance v e) es v'
    → Follows v (e ∷ es) v'
advance-Follows v v' e es l ok f = record {
  increases = more l ok f.increases;
  same_producer = f.same_producer;
  same_first = f.same_first;
  last = f.last;
  counted = ground (arith, f.counted);
  gaps = ground (arith, f.gaps);
}

pub validate_all_valid :
    (v v' : StreamValidator) (e : TelemetryEvent) (es : List TelemetryEvent)
    → (accept v e).1 ≡ valid
    → (accept v e).0 ≡ v'
    → validate_all v (e ∷ es) ≡ ((validate_all v' es).0, e ∷ (validate_all v' es).1)
validate_all_valid v v' e es h n = rw (h, n) refl

validate_all_reject :
    (v : StreamValidator) (e : TelemetryEvent) (es : List TelemetryEvent) (reason : Rejection)
    → (accept v e).1 ≡ reject reason
    → validate_all v (e ∷ es) ≡ validate_all v es
validate_all_reject v e es reason h = rw (h, accept_rejects v e reason h) refl

-- The outcome of a run from a bound state.
abbrev RunsOn : StreamValidator → StreamValidator × List TelemetryEvent → Type 0
RunsOn v out = Follows v out.1 out.0 × IsBound out.0

validate_all-RunsOn :
    (v : StreamValidator) (es : List TelemetryEvent)
    → IsBound v
    → InRange es
    → v.accepted_events + length es < u64_mod
    → RunsOn v (validate_all v es)
validate_all-RunsOn v [] b f n = (
  record {
    increases = end;
    same_producer = refl;
    same_first = refl;
    last = refl;
    counted = omega arith;
    gaps = omega arith;
  },
  b,
)
validate_all-RunsOn v (e ∷ es) b f n = elim (ValidationResult-cases (accept v e).1) [
  | inl (reason, h) ↦
      subst (RunsOn v) (sym (validate_all_reject v e es reason h))
        (validate_all-RunsOn v es b f.1 (omega arith))
  | inr h ↦
      let (l, ok, next) = accept-Bound v e b f.0 (omega arith) h in
      let (follows, bound) =
        validate_all-RunsOn (advance v e) es (advance-IsBound v e b f.0 l) f.1 (omega arith) in
      subst (RunsOn v) (sym (validate_all_valid v (advance v e) e es h next))
        (advance-Follows v _ e _ l ok follows, bound)
]

-- The state against the events that were accepted, from the first on.
pub data IsSummary : StreamValidator → List TelemetryEvent → Type 0 where
  of_none : IsSummary new_validator []
  of_some :
      (v : StreamValidator) (first : TelemetryEvent) (es : List TelemetryEvent)
      → IsValidEvent v.producer_id first
      → Increases v.producer_id first.sequence_number es
      → v.first_sequence_number ≡ first.sequence_number
      → v.last_sequence_number ≡ last_from first.sequence_number es
      → v.accepted_events ≡ length (first ∷ es)
      → v.sequence_gaps ≡ left_out first.sequence_number es
      → v.first_sequence_number + v.accepted_events + v.sequence_gaps ≡ v.last_sequence_number + 1
      → IsSummary v (first ∷ es)

abbrev begin_with : TelemetryEvent → StreamValidator
begin_with e = record {
  producer_id = e.producer_id;
  accepted_events = 1;
  first_sequence_number = e.sequence_number;
  last_sequence_number = e.sequence_number;
  sequence_gaps = 0;
}

accept_first :
    (e : TelemetryEvent)
    → (accept new_validator e).1 ≡ valid
    → IsValidEvent e.producer_id e × ((accept new_validator e).0 ≡ begin_with e)
unfolding count_event
accept_first e h =
    let (header, payload, counted) = accept_counts new_validator e h in
    let (version, lengths, epoch, clock, producer, order) =
      validate_header-valid new_validator e header in
    (
      record {
        same_producer = refl;
        producer_length = lengths;
        version = version;
        after_epoch = epoch;
        known_clock = clock;
        valid_payload = validate_payload-IsValidPayload e.payload payload;
      },
      counted ∙ ground arith,
    )

begin_with-IsBound :
    (e : TelemetryEvent)
    → IsValidEvent e.producer_id e
    → e.sequence_number < u64_mod
    → IsBound (begin_with e)
begin_with-IsBound e ok f = record {
  named = ok.producer_length.0;
  started = omega arith;
  last_in_range = f;
  accounted = omega arith;
}

begin_with-IsSummary :
    (e : TelemetryEvent) (es : List TelemetryEvent) (v : StreamValidator)
    → IsValidEvent e.producer_id e
    → Follows (begin_with e) es v
    → IsBound v
    → IsSummary v (e ∷ es)
begin_with-IsSummary e es v ok f b =
    of_some v e es (subst (λ p. IsValidEvent p e) (sym f.same_producer) ok)
      (subst (λ p. Increases p e.sequence_number es) (sym f.same_producer) f.increases) f.same_first
      f.last (f.counted ∙ ground arith) (f.gaps ∙ ground arith) b.accounted

abbrev Summed : StreamValidator × List TelemetryEvent → Type 0
Summed out = IsSummary out.0 out.1

-- Over any events, a new validator accepts only events of one producer with increasing sequence
-- numbers that are valid (schema version 1, a positive source time of a declared clock, a
-- producer name of an allowed length, and a payload with finite numbers within their bounds,
-- positive dimensions, declared states and severities and texts that are not too long), and its
-- state sums up the accepted ones: producer, number, first and last sequence number and the
-- numbers left out, so that the first number, the number of events and the gaps add up to the
-- last number plus one; nothing wraps around. Conditions: the sequence numbers fit uint64_t and
-- there are fewer than 2 ^ 64 events.
pub validate_all-IsSummary :
    (es : List TelemetryEvent)
    → InRange es
    → length es < u64_mod
    → IsSummary (validate_all new_validator es).0 (validate_all new_validator es).1
validate_all-IsSummary [] f n = of_none
validate_all-IsSummary (e ∷ es) f n = elim (ValidationResult-cases (accept new_validator e).1) [
  | inl (reason, h) ↦
      subst Summed (sym (validate_all_reject new_validator e es reason h))
        (validate_all-IsSummary es f.1 (omega arith))
  | inr h ↦
      let (ok, begun) = accept_first e h in
      let (follows, bound) =
        validate_all-RunsOn (begin_with e) es (begin_with-IsBound e ok f.0) f.1 (omega arith) in
      subst Summed (sym (validate_all_valid new_validator (begin_with e) e es h begun))
        (begin_with-IsSummary e _ _ ok follows bound)
]
