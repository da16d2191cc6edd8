-- ===== src/Recording/Reader/Loop.antt =====
-- The three ways in which a round of the loop of `read_log` goes on.
use Prim.Native.String.{String}
use trace_forge.Common.{
  ℕ, suc, ◌+◌, ◌%◌, ◌≤◌, ◌<◌, ◌≡◌, arith, Bytes, some, true, false, leb, u64_mod,
}
use trace_forge.Telemetry.Event.{Protobuf}
use trace_forge.Recording.{LogReadStatus, LogReadOptions, LogReadResult, LogRecord, LogIndexEntry}
use trace_forge.Recording.Reader.{
  next, stop, make_failure, add_record, next_offset, read_record, read_records,
}

module _ (p : Protobuf) (options : LogReadOptions) (fuel : ℕ) (result : LogReadResult)
    (offset expected : ℕ) (input : Bytes) where
  pub loop_done :
      result.file_size ≤ offset
      → read_records (suc fuel) p options result offset expected input
        ≡ some (record result { status = LogReadStatus.complete; message = "log is complete" })
  unfolding read_records
  loop_done h = let e : leb result.file_size offset ≡ true = ground arith in rw (e, read_records)

  pub loop_stop :
      {status : LogReadStatus} {message : String}
      → offset < result.file_size
      → read_record p options result offset expected input ≡ stop status message
      → read_records (suc fuel) p options result offset expected input
        ≡ some (make_failure result status offset message)
  unfolding read_records
  loop_stop h stops =
      let e : leb result.file_size offset ≡ false = ground arith in rw (e, stops, read_records)

  pub loop_next :
      {log_record : LogRecord} {entry : LogIndexEntry} {rest : Bytes}
      → offset < result.file_size
      → read_record p options result offset expected input ≡ next (log_record, entry, rest)
      → read_records (suc fuel) p options result offset expected input
        ≡ read_records fuel p options
            (add_record options result log_record entry (next_offset offset entry))
            (next_offset offset entry)
            ((expected + 1) % u64_mod)
            rest
  unfolding read_records
  loop_next h goes =
      let e : leb result.file_size offset ≡ false = ground arith in rw (e, goes, read_records)
