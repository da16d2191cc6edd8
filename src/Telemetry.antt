-- ===== src/Telemetry.antt =====
-- Telemetry events as proto/traceforge/v1/telemetry.proto declares them, and what src/telemetry does
-- with a stream of them.
pub mod Double
pub mod Event
pub mod Sink
pub mod Collector
pub mod Validation
mod Tests
