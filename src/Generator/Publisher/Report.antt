-- ===== src/Generator/Publisher/Report.antt =====
-- What the report of a publication says of the events.
use trace_forge.Common.{
  ℕ, ◌+◌, ◌%◌, ◌<◌, ◌≡◌, refl, sym, ap, ◌∙◌, arith, Bool, true, false, if◌then◌else◌, Option, none,
  some, List, [], ◌∷◌, ◌++◌, map, length, length-append, Bytes, u64_mod, append-nil, append_assoc,
  Bool-cases, inl, inr,
}
use trace_forge.Common.Int.{pos}
use trace_forge.Common.Sort.{bytes_lt}
use trace_forge.Common.Map.{
  find, of_key, run, find-tally, bytes_lt-IsOrder, total_size, total_size-tally,
}
use trace_forge.Telemetry.Event.{TelemetryEvent}
use trace_forge.Generator.Publisher.{
  ProducerPublishResult, Service, push_back, group_by_producer, producer_succeeded, succeeded,
  attempted_events, accepted_events, timed_out, write_events, publish_producer, publish,
}

-- The events of one producer, in their order.
abbrev pub of_producer : Bytes → List TelemetryEvent → List TelemetryEvent
of_producer producer_id events =
    of_key bytes_lt (λ (e : TelemetryEvent). e.producer_id) [] push_back producer_id events

abbrev pub nonempty : List TelemetryEvent → Option (List TelemetryEvent)
nonempty [] = none
nonempty (e ∷ es) = some (e ∷ es)

appended :
    (sent events : List TelemetryEvent)
    → run bytes_lt (λ (e : TelemetryEvent). e.producer_id) [] push_back (some sent) events
      ≡ some (sent ++ events)
appended sent [] = ap some (sym (append-nil sent))
appended sent (e ∷ events) =
    appended (sent ++ e ∷ []) events ∙ ap some (append_assoc sent (e ∷ []) events)

run-nonempty :
    (es : List TelemetryEvent)
    → run bytes_lt (λ (e : TelemetryEvent). e.producer_id) [] push_back none es ≡ nonempty es
run-nonempty [] = refl
run-nonempty (e ∷ es) = appended (e ∷ []) es

-- Grouping gives each producer exactly its own events in their order, no group to a producer
-- without events, and the groups hold together as many events as were given.
pub find-group_by_producer :
    (producer_id : Bytes) (events : List TelemetryEvent)
    → (find bytes_lt producer_id (group_by_producer events)
        ≡ nonempty (of_producer producer_id events))
      × (total_size bytes_lt length (group_by_producer events) ≡ length events)
unfolding group_by_producer
find-group_by_producer producer_id events = (
  find-tally bytes_lt (λ (e : TelemetryEvent). e.producer_id) [] push_back bytes_lt-IsOrder
        producer_id [] events tt
      ∙ run-nonempty (of_producer producer_id events),
  total_size-tally bytes_lt (λ (e : TelemetryEvent). e.producer_id) [] push_back length
        (length events) [] events refl (λ e v _. length-append v (e ∷ []) ∙ omega arith)
        (omega arith)
      ∙ omega arith,
)

attempted_events-map :
    (f : Bytes × List TelemetryEvent → ProducerPublishResult) (total : ℕ)
    (groups : List (Bytes × List TelemetryEvent))
    → ((g : Bytes × List TelemetryEvent) → (f g).attempted_events ≡ length g.1)
    → total + total_size bytes_lt length groups < u64_mod
    → attempted_events total (map f groups) ≡ total + total_size bytes_lt length groups
unfolding attempted_events
attempted_events-map f total [] h b = omega arith
attempted_events-map f total (g ∷ groups) h b = rw (h g) (
    attempted_events-map f ((total + length g.1) % u64_mod) groups h (omega (arith, b))
    ∙ omega (arith, b))

publish-if :
    (service : Service) (events : List TelemetryEvent) (c : Bool)
    → service.connects ≡ c
    → publish service events ≡ (
        if c
        then map (publish_producer service) (group_by_producer events)
        else map timed_out (group_by_producer events))
unfolding publish
publish-if service events c e =
    ap
      (λ c.
        if c
        then map (publish_producer service) (group_by_producer events)
        else map timed_out (group_by_producer events))
      e

-- Connected or timed out, a report attempts as many events in total as were given. Condition:
-- there are fewer than 2 ^ 64 events.
pub attempted_events-publish :
    (service : Service) (events : List TelemetryEvent)
    → length events < u64_mod
    → attempted_events 0 (publish service events) ≡ length events
unfolding publish_producer
attempted_events-publish service events b =
    let (_, all) = find-group_by_producer [] events in
    elim (Bool-cases service.connects) [
      | inl e ↦
          ap (attempted_events 0) (publish-if service events true e)
          ∙ (attempted_events-map (publish_producer service) 0 (group_by_producer events)
                (λ g. refl) (omega (arith, all, b))
              ∙ omega (arith, all))
      | inr e ↦
          ap (attempted_events 0) (publish-if service events false e)
          ∙ (attempted_events-map timed_out 0 (group_by_producer events) (λ g. refl)
                (omega (arith, all, b))
              ∙ omega (arith, all))
    ]

-- A service that takes and accepts every event.
pub record IsWilling (service : Service) : Type 0 where
  pub connected : service.connects ≡ true
  pub takes_all :
      (taken : List TelemetryEvent) (event : TelemetryEvent) → service.takes taken event ≡ true
  pub accepts_all :
      (events : List TelemetryEvent) → (service.finish events).accepted_events ≡ length events
  pub ok : (events : List TelemetryEvent) → (service.finish events).status_code ≡ pos 0

write_events-all :
    (service : Service) (taken events : List TelemetryEvent)
    → IsWilling service
    → write_events service taken events ≡ taken ++ events
unfolding write_events
write_events-all service taken [] w = sym (append-nil taken)
write_events-all service taken (event ∷ events) w = rw (w.takes_all taken event) (
    write_events-all service (taken ++ event ∷ []) events w
    ∙ append_assoc taken (event ∷ []) events)

succeeded-all :
    (service : Service) (groups : List (Bytes × List TelemetryEvent))
    → IsWilling service
    → total_size bytes_lt length groups < u64_mod
    → succeeded (map (publish_producer service) groups) ≡ true
unfolding succeeded producer_succeeded publish_producer
succeeded-all service [] w b = refl
succeeded-all service ((producer_id, events) ∷ groups) w b =
    let rest = succeeded-all service groups w (omega (arith, b)) in
    rw (write_events-all service [] events w, w.ok events, w.accepts_all events)
      (ground (arith, rest, b))

-- A publication to a service that connects, takes every event, answers with the status OK and
-- accepts as many events as were written reports success. Condition: there are fewer than 2 ^ 64
-- events.
pub succeeded-publish :
    (service : Service) (events : List TelemetryEvent)
    → length events < u64_mod
    → IsWilling service
    → succeeded (publish service events) ≡ true
succeeded-publish service events b w =
    ap succeeded (publish-if service events true w.connected)
    ∙ (succeeded-all service (group_by_producer events) w
        (omega (arith, b, (find-group_by_producer [] events).1)))
