-- ===== src/Recording/Recovery.antt =====
-- `recover_truncated_tail` of src/recording/log.cpp.
pub mod Cut
pub mod Refusal
use Prim.Native.String.{String, ◌++◌ as str_append}
use mathlib.Core.Option as LibOption
use trace_forge.Common.{ℕ, Bool, true, false, ltb, if◌then◌else◌, Option, none, some, take, Bytes}
use trace_forge.Telemetry.Event.{Protobuf}
use trace_forge.Recording.{LogReadStatus, LogReadOptions, LogReadResult, file_header_size}
use trace_forge.Recording.Reader.{FileView, read_log}

pub record RecoveryResult : Type 0 where
  pub succeeded : Bool
  pub changed : Bool
  pub original_size : ℕ
  pub recovered_size : ℕ
  pub message : String

-- `std::filesystem::resize_file` to a size that is not larger.
abbrev pub resize_file : FileView → ℕ → FileView
resize_file file size = record {
  reported_size = some size;
  stream = LibOption.map (take size) file.stream;
}

-- The truncation itself; `resizes` is whether the file system allows it.
unfoldable pub truncate_tail :
    Bool → FileView → LogReadResult → RecoveryResult → RecoveryResult × FileView
truncate_tail resizes file r recovery =
    if resizes
    then (
      record recovery {
        succeeded = true;
        changed = true;
        recovered_size = r.valid_bytes;
        message = "removed incomplete final record";
      },
      resize_file file r.valid_bytes,
    )
    else (record recovery { message = "failed to truncate incomplete tail" }, file)

abbrev pub refuse : LogReadResult → RecoveryResult → RecoveryResult
refuse r recovery = record recovery {
  message =
      str_append "refusing recovery because the log is not a recoverable truncated tail: "
        r.message;
}

-- What is done once the log has been read.
unfoldable pub recover_read : Bool → FileView → LogReadResult → RecoveryResult × FileView
recover_read resizes file r =
    let recovery : RecoveryResult = record {
      succeeded = false;
      changed = false;
      original_size = r.file_size;
      recovered_size = r.file_size;
      message = "";
    } in
    elim r.status [
      | LogReadStatus.complete ↦
          (record recovery { succeeded = true; message = "log was already complete" }, file)
      | LogReadStatus.truncated_tail ↦
          if ltb r.valid_bytes file_header_size
          then (refuse r recovery, file)
          else truncate_tail resizes file r recovery
      | _ ↦ (refuse r recovery, file)
    ]

unfoldable pub recover_truncated_tail :
    Protobuf → Bool → FileView → LogReadOptions → Option (RecoveryResult × FileView)
recover_truncated_tail p resizes file options =
    LibOption.map (recover_read resizes file) (read_log p file options)
