-- ===== src/Lib.antt =====
-- TraceForge: a collector of telemetry events. Clients send streams of events over gRPC; the collector
-- validates them, queues them, and one thread appends them to a log file. The log can be read, its cut
-- tail can be removed, and it can be replayed in the order of arrival.
--
-- Where the parts are modelled:
--   Common        lists, tests, 64-bit and signed numbers, laws of the bit operations
--   Telemetry     proto/traceforge/v1/telemetry.proto (Event), doubles as bit patterns (Double);
--                 src/telemetry/validation.cpp (Validation: StreamValidator::accept is `accept`,
--                 populate_summary is `summary`); src/telemetry/collector_service.cpp (Collector:
--                 OnReadDone is `on_read_done`); src/telemetry/queued_sink.cpp (Sink: try_accept,
--                 shutdown, consume_loop as `run_thread`)
--   Concurrency   include/traceforge/concurrency/bounded_queue.hpp (BoundedQueue)
--   Recording     src/recording/log.cpp and its header: LittleEndian, Crc32c, Writer (LogWriter), Reader
--                 (read_log), Recovery (recover_truncated_tail); Format is the layout of a well-formed
--                 log, against which writer and reader are proved; CutLog and ReadBack join the two;
--                 src/recording/log_consumer.cpp (LogConsumer), with the way from sink to log
--   Replay        src/replay/replay.cpp (constructor as `create`, `replay`, `format_hash`)
--   Analysis      src/analysis/analyzer.cpp: Report (`analyze_log`, a round of its loop as
--                 `analyze_record`), Distribution (percentile, distribution, finish_stream)
--   Generator     src/generator/workload_generator.cpp: Config (validate_config), Random
--                 (PortableRandom), Schedule, Events (base_event to append_controller_events), Faults
--                 (the two loops over the generated events), Hash, Workload (generate);
--                 src/generator/workload_publisher.cpp (Publisher)
--   App           app/main.cpp: the numbers and options of its command line (Generate, Collect, Replay),
--                 the exit codes of `generate`, `inspect` and `analyze`
--
-- How they meet: the collector offers each valid event to a sink; the queued sink pushes it into the
-- bounded queue and its thread hands it to a consumer; `read_log` gives the replay engine its index.
-- The collector takes the sink as a parameter and the sink its consumer, each as a function on a state.
--
-- State is passed explicitly. Numbers are natural numbers with the wrap-around of uint64_t written out;
-- a double is its bit pattern. Concurrent code is a step relation: a method under the mutex is one
-- step, the consumer thread takes one step per statement, and a producer's push may come at any time
-- after its test of `accepting_events`, so it is a step by itself. `shutdown` takes the moves of the other
-- threads between its statements as arguments.
--
-- Outside the model, as parameters: Protobuf (`Protobuf`, with `Survives` for what it promises of a message
-- it serialized, and `Serializes`), the output device (`Device`: an std::ofstream keeps what it is
-- given in a buffer, of which a write may pass any part on to the file and a flush passes on the rest;
-- either may fail, and then what is left in the buffer is lost),
-- the file system (`Environment`, `FileView`), the clock, gRPC (`Service` for a client's streams), the
-- consumers, the arithmetic of doubles (`Arithmetic`, `Floating`, of which nothing is assumed), and
-- std::mt19937_64 (`Engine`: its draws are below 2 ^ 64 and do not stay below a number less than
-- 2 ^ 63 for ever, on which the loop of `bounded` ends). `std::sort` is an insertion sort, `std::map`
-- the list of its entries in the order of the keys, and `std::lower_bound` a function that computes what
-- the standard demands of it here.
--
-- Fuel: the loop of `read_log` has one unit per byte of the file and one more, while each record takes
-- at least 36 bytes. The join in `shutdown` has the fuel that its theorem asks for.
--
-- Not modelled: the waits of a replay at a positive speed, which have no part in its result; the names
-- of statuses of recording and replay; `format_hash` of the generator, which is that of the replay
-- engine; of app/main.cpp what it prints,
-- the server and its signals, and the dispatch of `main`. `std::stod` is a parameter (`Stod`).
pub mod Common
pub mod Telemetry
pub mod Concurrency
pub mod Recording
pub mod Replay
pub mod Analysis
pub mod Generator
pub mod App
