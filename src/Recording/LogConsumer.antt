-- ===== src/Recording/LogConsumer.antt =====
-- `LogWriterConsumer` of src/recording/log_consumer.cpp, and the way of the events from the sink to the log.
mod Tests
use trace_forge.Common.{
  ℕ, suc, ◌+◌, ◌≡◌, ◌⊎◌, false, Option, none, some, List, [], ◌∷◌, ◌++◌, take, u64_mod, Bool-cases,
}
use trace_forge.Common.Int.{ℤ, IsI64}
use trace_forge.Telemetry.Event.{Protobuf, Survives}
use trace_forge.Telemetry.Sink.{
  CollectedEvent, Consumer, QueuedTelemetrySink, Move, stop_accepting, shutdown,
}
use trace_forge.Telemetry.Sink.Steps.{History}
use trace_forge.Telemetry.Sink.Shutdown.{ShutsDown}
use trace_forge.Telemetry.Sink.Meanwhile.{accepted_meanwhile}
use trace_forge.Recording.{LogReadOptions, LogReadResult}
use trace_forge.Recording.Stream.{Device, Environment}
use trace_forge.Recording.Writer.{LogWriter, LogWriterOptions, create, append}
use trace_forge.Recording.Writer.Session.{Call, append_all}
use trace_forge.Recording.Reader.{settled, read_log}
use trace_forge.Recording.ReadBack.{ReadsBack}
use Prim.Native.String.{String}

unfoldable pub consume : Device → Protobuf → Consumer LogWriter
consume d p writer event = append d p writer event.event event.collector_arrival_timestamp_ns

abbrev pub as_call : CollectedEvent → Call
as_call event = (event.event, event.collector_arrival_timestamp_ns)

abbrev pub calls_of : List CollectedEvent → List Call
calls_of [] = []
calls_of (event ∷ events) = as_call event ∷ calls_of events

-- An event that the log can hold: Protobuf parses what it serialized, and the time fits.
abbrev pub IsLoggable : Protobuf → CollectedEvent → Type 0
IsLoggable p event = Survives p event.event × IsI64 event.collector_arrival_timestamp_ns

module _ (d : Device) (p : Protobuf) (env : Environment) (path : String)
    (options : LogWriterOptions) (read_options : LogReadOptions) where
  abbrev pub new_log : LogWriter
  new_log = create d env path options

  -- The log that was written of these events, read back from a file that holds `extra` bytes more than
  -- those that the writer's stream knows of.
  abbrev IsLog : ℕ → List CollectedEvent → LogWriter → LogReadResult → Type 0
  IsLog extra events w r =
      (read_log p (settled (take (w.output.stored + extra) w.output.contents)) read_options
        ≡ some r)
      × ReadsBack options.flush_every_records w (append_all d p new_log [] (calls_of events)).1
          (w.output.stored + extra) r

  -- What is in the log once the sink is shut down.
  abbrev pub IsLogged :
      ℕ
      → List Move
      → (ℕ → List CollectedEvent)
      → ℕ
      → QueuedTelemetrySink LogWriter
      → List CollectedEvent
      → Type 0
  IsLogged extra moves late fuel s taken_in =
      (s' : QueuedTelemetrySink LogWriter) × (r : LogReadResult) × (shutdown (consume d p) moves
          late fuel s
        ≡ some s')
      × (read_log p (settled (take (s'.consumer.output.stored + extra) s'.consumer.output.contents))
            read_options
          ≡ some r)
      × ((s'.consumer_failures ≡ 0)
            × ReadsBack options.flush_every_records s'.consumer (calls_of taken_in)
                (s'.consumer.output.stored + extra) r
          ⊎ (s'.consumer_failures ≡ 1)
            × ((offered : List CollectedEvent) × (waiting : List CollectedEvent) × (taken_in
                  ≡ offered ++ waiting)
                × ReadsBack options.flush_every_records s'.consumer
                    (append_all d p new_log [] (calls_of offered)).1
                    (s'.consumer.output.stored + extra) r))

  -- What the sink has accepted once its queue is closed.
  abbrev pub accepted_before_close :
      QueuedTelemetrySink LogWriter → History → List Move → List CollectedEvent
  accepted_before_close s h moves =
      h.taken_in ++ accepted_meanwhile (consume d p) (stop_accepting s) moves
