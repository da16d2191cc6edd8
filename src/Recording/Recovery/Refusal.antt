-- ===== src/Recording/Recovery/Refusal.antt =====
-- When recovery leaves a file alone.
use mathlib.Core.Option as LibOption
use trace_forge.Common.{◌≡◌, ◌≢◌, ap, arith, Bool, true, false, some}
use trace_forge.Telemetry.Event.{Protobuf}
use trace_forge.Recording.{
  LogReadStatus, complete, truncated_tail, corrupt, io_error, resource_limit, LogReadOptions,
  LogReadResult,
}
use trace_forge.Recording.Reader.{FileView, read_log}
use trace_forge.Recording.Recovery.{
  RecoveryResult, resize_file, truncate_tail, recover_read, recover_truncated_tail,
}

abbrev pub is_complete : LogReadStatus → Bool
is_complete complete = true
is_complete truncated_tail = false
is_complete corrupt = false
is_complete io_error = false
is_complete resource_limit = false

module _ (resizes : Bool) (file : FileView) (r : LogReadResult) where
  recover_read_other :
      r.status ≢ truncated_tail
      → let out = recover_read resizes file r in
        (out.1 ≡ file) × (out.0.changed ≡ false) × (out.0.succeeded ≡ is_complete r.status)
  unfolding recover_read truncate_tail
  recover_read_other h = ground arith

  recover_read_changed :
      let out = recover_read resizes file r in
      out.0.changed ≡ true → out.1 ≡ resize_file file r.valid_bytes
  unfolding recover_read truncate_tail
  recover_read_changed = ground arith

  recover_read_unchanged :
      let out = recover_read resizes file r in out.0.changed ≡ false → out.1 ≡ file
  unfolding recover_read truncate_tail
  recover_read_unchanged = ground arith

-- Whatever file is recovered and whether or not the file system allows a truncation: if recovery
-- reports a change, the file is cut to the `valid_bytes` of the reader, and if it reports none,
-- the file is as it was; a log that the reader does not report as a truncated tail stays as it
-- was, and recovery succeeds on it if and only if it was complete. Condition: the reader returns
-- a result.
pub recover_keeps :
    (p : Protobuf) (resizes : Bool) (file : FileView) (options : LogReadOptions) (r : LogReadResult)
    → read_log p file options ≡ some r
    → (recovery : RecoveryResult) × (file' : FileView) × (recover_truncated_tail p resizes file
          options
        ≡ some (recovery, file'))
      × (r.status ≢ truncated_tail
          → (file' ≡ file)
            × (recovery.changed ≡ false)
            × (recovery.succeeded ≡ is_complete r.status))
      × (recovery.changed ≡ true → file' ≡ resize_file file r.valid_bytes)
      × (recovery.changed ≡ false → file' ≡ file)
unfolding recover_truncated_tail
recover_keeps p resizes file options r ran =
    let out = recover_read resizes file r in
    (
      out.0,
      out.1,
      ap (LibOption.map (recover_read resizes file)) ran,
      recover_read_other resizes file r,
      recover_read_changed resizes file r,
      recover_read_unchanged resizes file r,
    )
