-- ===== src/Generator/Publisher/Tests.antt =====
-- A publication to a service that takes everything.
use trace_forge.Common.{ℕ, ◌≡◌, refl, arith, true, List, [], ◌∷◌, length}
use trace_forge.Common.Int.{pos}
use trace_forge.Common.Sort.{bytes_lt}
use trace_forge.Common.Map.{find, total_size}
use trace_forge.Telemetry.Event.{TelemetryEvent, Payload}
use trace_forge.Generator.Publisher.{
  Service, group_by_producer, succeeded, attempted_events, accepted_events, publish,
}
use trace_forge.Generator.Publisher.Report.{
  of_producer, nonempty, IsWilling, find-group_by_producer, attempted_events-publish,
  succeeded-publish,
}

abbrev from : ℕ → ℕ → TelemetryEvent
from producer n = record {
  schema_version = 1;
  producer_id = producer ∷ [];
  sequence_number = n;
  source_timestamp_ns = pos 1;
  source_clock = pos 1;
  payload = Payload.payload_not_set;
}

abbrev sent : List TelemetryEvent
sent = from 98 0 ∷ from 97 0 ∷ from 98 1 ∷ []

abbrev collector : Service
collector = record {
  connects = true;
  takes = λ taken event. true;
  finish = λ events. record {
    status_code = pos 0;
    error_message = [];
    accepted_events = length events;
    sequence_gaps = 0;
  };
}

collector-IsWilling : IsWilling collector
collector-IsWilling = record {
  connected = refl;
  takes_all = λ taken event. refl;
  accepts_all = λ events. refl;
  ok = λ events. refl;
}

grouped :
    group_by_producer sent ≡ (97 ∷ [], from 97 0 ∷ []) ∷ (98 ∷ [], from 98 0 ∷ from 98 1 ∷ []) ∷ []
unfolding group_by_producer
grouped = refl

find-group_by_producer_example :
    (find bytes_lt (98 ∷ []) (group_by_producer sent) ≡ nonempty (of_producer (98 ∷ []) sent))
    × (total_size bytes_lt length (group_by_producer sent) ≡ length sent)
find-group_by_producer_example = find-group_by_producer (98 ∷ []) sent

attempted_events-publish_example : attempted_events 0 (publish collector sent) ≡ length sent
attempted_events-publish_example = attempted_events-publish collector sent (omega arith)

succeeded-publish_example : succeeded (publish collector sent) ≡ true
succeeded-publish_example = succeeded-publish collector sent (omega arith) collector-IsWilling
