-- ===== src/Replay/Complete.antt =====
-- The engine as a whole: its index, and what a replay that completes has delivered.
use mathlib.Core.List.{Perm}
use trace_forge.Common.{ℕ, ◌≡◌, ◌⊎◌, inl, inr, refl, subst, arith, false, none, some, [], ◌≢◌}
use trace_forge.Telemetry.Event.{Protobuf}
use trace_forge.Recording.{LogReadStatus, LogReadOptions, LogReadResult}
use trace_forge.Recording.Reader.{FileView, read_log}
use trace_forge.Replay.{ReplayEngine, complete, index_log, create, cannot_index}
use trace_forge.Replay.Index.{IsSorted, sort-IsSorted, sort-Perm}

-- An engine whose index holds the entries of a complete log, sorted.
pub record IsIndexOf (log : LogReadResult) (engine : ReplayEngine) : Type 0 where
  pub log_complete : log.status ≡ LogReadStatus.complete
  pub sorted : IsSorted engine.index
  pub permuted : Perm engine.index log.index

-- An engine that refuses to replay.
pub record IsUnusable (log : LogReadResult) (engine : ReplayEngine) : Type 0 where
  pub not_complete : log.status ≢ LogReadStatus.complete
  pub no_index : engine.index ≡ []
  pub says : engine.error ≡ some (cannot_index log.message)

abbrev pub index_options : ℕ → LogReadOptions
index_options maximum_records = record { maximum_records = maximum_records; retain_records = false }

status-cases : (s : LogReadStatus) → (s ≡ LogReadStatus.complete) ⊎ (s ≢ LogReadStatus.complete)
status-cases s = ground arith

index_log-IsIndexOf :
    (log : LogReadResult)
    → ((index_log log).error ≡ none) × IsIndexOf log (index_log log)
      ⊎ IsUnusable log (index_log log)
index_log-IsIndexOf log = elim (status-cases log.status) [
  | inl e ↦ rw e (
      inl (
        refl,
        record {
          log_complete = refl;
          sorted = sort-IsSorted log.index;
          permuted = sort-Perm log.index;
        },
      ))
  | inr n ↦ inr (record { not_complete = n; no_index = ground arith; says = ground arith })
]

pub create_read :
    (p : Protobuf) (file : FileView) (maximum_records : ℕ) (log : LogReadResult)
    → read_log p file (index_options maximum_records) ≡ some log
    → create p file maximum_records ≡ some (index_log log)
unfolding create
create_read p file maximum_records log r = rw r refl

-- If the log was read as complete, the engine is usable and its index is a permutation of the
-- reader's, sorted by the time of arrival and then by the number of the record; otherwise its
-- index is empty and its error has the reader's message. Condition: the reader returns a result.
pub create-IsIndexOf :
    (p : Protobuf) (file : FileView) (maximum_records : ℕ) (log : LogReadResult)
    (engine : ReplayEngine)
    → read_log p file (index_options maximum_records) ≡ some log
    → create p file maximum_records ≡ some engine
    → (engine.error ≡ none) × IsIndexOf log engine ⊎ IsUnusable log engine
create-IsIndexOf p file maximum_records log engine r h =
    subst (λ e. (e.error ≡ none) × IsIndexOf log e ⊎ IsUnusable log e)
      (ground (arith, create_read p file maximum_records log r, h)) (index_log-IsIndexOf log)
