-- ===== src/Generator/Publisher.antt =====
-- src/generator/workload_publisher.cpp. A gRPC stream is a parameter: how many of the events it takes
-- before a `Write` fails, and what `Finish` returns. The threads share nothing but their own slot of the report.
pub mod Report
mod Tests
use trace_forge.Common.{
  ℕ, zero, suc, ◌+◌, ◌%◌, ◌≤◌, ◌<◌, ◌≡◌, refl, sym, ap, ◌∙◌, subst, arith, Bool, true, false, ◌&&◌,
  ◌||◌, ◌==◌, if◌then◌else◌, Option, none, some, List, [], ◌∷◌, ◌++◌, map, length, length-append,
  Bytes, u64_mod, append-nil, append_assoc,
}
use trace_forge.Common.Int.{ℤ, pos, eqb_ℤ, leb_ℤ}
use trace_forge.Common.Text.{codes}
use trace_forge.Common.Sort.{bytes_lt}
use trace_forge.Common.Map.{
  find, tally, of_key, run, find-tally, bytes_lt-IsOrder, total_size, total_size-tally, Ascending,
  tally-Ascending,
}
use trace_forge.Telemetry.Event.{TelemetryEvent}

pub record ProducerPublishResult : Type 0 where
  pub producer_id : Bytes
  pub attempted_events : ℕ
  pub written_events : ℕ
  pub accepted_events : ℕ
  pub sequence_gaps : ℕ
  pub grpc_status_code : ℤ
  pub error_message : Bytes

abbrev pub PublishReport : Type 0
PublishReport = List ProducerPublishResult

pub record WorkloadPublisherConfig : Type 0 where
  pub target : Bytes
  pub connect_timeout : ℤ

pub data PublisherError : Type 0 where
  empty_target nonpositive_timeout : PublisherError

-- `grpc::StatusCode::UNAVAILABLE`
abbrev pub unavailable : ℤ
unavailable = pos 14

-- The status and the response of a finished stream.
pub record StreamOutcome : Type 0 where
  pub status_code : ℤ
  pub error_message : Bytes
  pub accepted_events : ℕ
  pub sequence_gaps : ℕ

-- The service: whether the channel connects, whether `Write` takes an event behind those that it took, and the
-- outcome of a stream with the events that were taken.
pub record Service : Type 0 where
  pub connects : Bool
  pub takes : List TelemetryEvent → TelemetryEvent → Bool
  pub finish : List TelemetryEvent → StreamOutcome

-- Adds an event to those of its producer.
abbrev pub push_back : TelemetryEvent → List TelemetryEvent → List TelemetryEvent
push_back event events = events ++ event ∷ []

unfoldable pub group_by_producer : List TelemetryEvent → List (Bytes × List TelemetryEvent)
group_by_producer events =
    tally bytes_lt (λ (e : TelemetryEvent). e.producer_id) [] push_back [] events

-- The constructor; `none` where it accepts.
abbrev pub check_config : WorkloadPublisherConfig → Option PublisherError
check_config config =
    if length config.target == 0
    then some empty_target
    else if leb_ℤ config.connect_timeout (pos 0)
    then some nonpositive_timeout
    else none

unfoldable pub producer_succeeded : ProducerPublishResult → Bool
producer_succeeded r =
    eqb_ℤ r.grpc_status_code (pos 0)
    && r.written_events == r.attempted_events
    && r.accepted_events == r.attempted_events

unfoldable pub succeeded : PublishReport → Bool
succeeded [] = true
succeeded (r ∷ rest) = producer_succeeded r && succeeded rest

unfoldable pub attempted_events : ℕ → PublishReport → ℕ
attempted_events total [] = total
attempted_events total (r ∷ rest) = attempted_events ((total + r.attempted_events) % u64_mod) rest

unfoldable pub accepted_events : ℕ → PublishReport → ℕ
accepted_events total [] = total
accepted_events total (r ∷ rest) = accepted_events ((total + r.accepted_events) % u64_mod) rest

abbrev pub timed_out : Bytes × List TelemetryEvent → ProducerPublishResult
timed_out (producer_id, events) = record {
  producer_id = producer_id;
  attempted_events = length events;
  written_events = 0;
  accepted_events = 0;
  sequence_gaps = 0;
  grpc_status_code = unavailable;
  error_message = codes "collector connection timed out";
}

-- The loop of a thread: the events that `Write` takes.
unfoldable pub write_events :
    Service → List TelemetryEvent → List TelemetryEvent → List TelemetryEvent
write_events service taken [] = taken
write_events service taken (event ∷ events) =
    let rest = write_events service (taken ++ event ∷ []) events in
    if service.takes taken event then rest else taken

-- What a thread puts into its slot.
unfoldable pub publish_producer : Service → Bytes × List TelemetryEvent → ProducerPublishResult
publish_producer service (producer_id, events) =
    let written = write_events service [] events in
    let outcome = service.finish written in
    record {
      producer_id = producer_id;
      attempted_events = length events;
      written_events = length written % u64_mod;
      accepted_events = if eqb_ℤ outcome.status_code (pos 0) then outcome.accepted_events else 0;
      sequence_gaps = if eqb_ℤ outcome.status_code (pos 0) then outcome.sequence_gaps else 0;
      grpc_status_code = outcome.status_code;
      error_message = outcome.error_message;
    }

unfoldable pub publish : Service → List TelemetryEvent → PublishReport
publish service events =
    if service.connects
    then map (publish_producer service) (group_by_producer events)
    else map timed_out (group_by_producer events)
