-- ===== src/Concurrency.antt =====
-- The concurrency primitives of include/traceforge/concurrency.
pub mod BoundedQueue
