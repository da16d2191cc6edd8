-- ===== src/App/Commands.antt =====
-- The exit codes of `run_inspect` and `run_analyze` of app/main.cpp. What they print is left out.
use trace_forge.Common.{
  ℕ, ◌-◌, ◌<◌, ◌≡◌, ap, Bool, true, false, if◌then◌else◌, Option, none, some, length, u64_mod,
}
use trace_forge.Telemetry.Event.{Protobuf}
use trace_forge.Recording.{LogReadOptions, LogReadResult}
use trace_forge.Recording.Reader.{FileView, read_log}
use trace_forge.Analysis.{AnalysisStatus, AnalysisReport, Floating}
use trace_forge.Analysis.Report.{is_complete, analyze_log}
use trace_forge.Analysis.Totals.{Accounted, analyze_read-returns}

-- The options that `read_log` has by default.
abbrev pub default_read : LogReadOptions
default_read = record { maximum_records = 1_000_000; retain_records = true }

abbrev pub inspect_code : LogReadResult → ℕ
inspect_code log = if is_complete log.status then 0 else 3

abbrev pub analyze_code : AnalysisStatus → ℕ
analyze_code AnalysisStatus.complete = 0
analyze_code AnalysisStatus.log_error = 3

unfoldable pub run_inspect : Protobuf → FileView → Option ℕ
run_inspect p file = elim (read_log p file default_read) [
  | none ↦ none
  | some log ↦ some (inspect_code log)
]

unfoldable pub run_analyze : {L : Type 0} → Floating L → Protobuf → FileView → Option ℕ
run_analyze floating p file = elim (analyze_log floating p file 1_000_000) [
  | none ↦ none
  | some report ↦ some (analyze_code report.status)
]

code_of :
    (b : Bool) (log : LogReadResult) (report : AnalysisReport)
    → Accounted b log report
    → analyze_code report.status ≡ (if b then 0 else 3)
code_of true log report h = ap analyze_code h.0
code_of false log report h = ap analyze_code h.0

module _ {L : Type 0} (floating : Floating L) where
  -- On every file that the reader returns a result for, `analyze` and `inspect` end with the same
  -- exit code. Condition: the reader retains fewer than 2 ^ 64 - 1 records.
  pub run_analyze-run_inspect :
      (p : Protobuf) (file : FileView) (log : LogReadResult)
      → read_log p file default_read ≡ some log
      → length log.records < u64_mod - 1
      → run_analyze floating p file ≡ run_inspect p file
  unfolding run_analyze run_inspect analyze_log
  run_analyze-run_inspect p file log read b =
      let (report, done, accounts) = analyze_read-returns floating log b in
      rw (read, run_analyze, run_inspect, analyze_log)
        (rw (done, run_analyze, analyze_log)
          (ap some (code_of (is_complete log.status) log report accounts)))
