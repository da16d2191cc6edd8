-- ===== src/Recording/Recovery/Cut.antt =====
-- Recovery of a log that was cut while it was written.
use mathlib.Core.Option as LibOption
use trace_forge.Common.{
  ℕ, ◌+◌, ◌-◌, ◌≤◌, ◌<◌, ◌≡◌, inl, inr, refl, sym, subst, ap, ◌∙◌, arith, List, [], ◌∷◌, ◌++◌,
  length, take, some, Bool, true, false, leb, ◌==◌, All, take-take, take-append_le, le→ltb_false,
  u64_mod, Bool-cases, ==_iff, not,
}
use trace_forge.Common.Int.{ℤ, IsI64}
use trace_forge.Telemetry.Event.{Protobuf}
use trace_forge.Recording.{LogReadStatus, LogReadOptions, LogReadResult, file_header_size}
use trace_forge.Recording.Writer.{file_header}
use trace_forge.Recording.Format.{
  Entry, IsEntry, record_bytes, records_bytes, log_bytes, entry_size, entries_size, whole,
}
use trace_forge.Recording.Format.Fields.{length-record_bytes, length-file_header, length-log_bytes}
use trace_forge.Recording.Reader.{FileView, settled}
use trace_forge.Recording.Reader.Prefix.{HasRead, started, read_log_prefix}
use trace_forge.Recording.Recovery.{
  RecoveryResult, resize_file, truncate_tail, recover_read, recover_truncated_tail,
}
use native.Mathlib.Nat.{le_refl}

whole-size : (n : ℕ) (es : List Entry) → entries_size (whole n es) ≤ n
unfolding whole
whole-size n [] = omega arith
whole-size n (e ∷ es) = ground (arith, whole-size (n - entry_size e) es)

-- The bytes of the whole entries are a prefix of the bytes of all of them.
take-whole :
    (n index : ℕ) (es : List Entry)
    → take (entries_size (whole n es)) (records_bytes index es) ≡ records_bytes index (whole n es)
unfolding whole records_bytes
take-whole n index [] = refl
take-whole n index (e ∷ es) = elim (Bool-cases (leb (entry_size e) n)) [
  | inl fits ↦ rw fits (
      take-append_le (record_bytes index e) (records_bytes (index + 1) es) _
        (omega (arith, length-record_bytes index e))
      ∙ ap (◌++◌ (record_bytes index e)) (
          ap (λ k. take k (records_bytes (index + 1) es))
            (omega (arith, length-record_bytes index e))
          ∙ take-whole (n - entry_size e) (index + 1) es))
  | inr short ↦ rw short refl
]

-- Cutting a cut log back to its last whole record leaves the log of the whole entries.
cut_back :
    (created : ℤ) (es : List Entry) (n : ℕ)
    → take
        (file_header_size + entries_size (whole n es))
        (take (file_header_size + n) (log_bytes created es))
      ≡ log_bytes created (whole n es)
unfolding log_bytes
cut_back created es n =
    take-take (file_header_size + entries_size (whole n es)) (file_header_size + n) _
      (omega (arith, whole-size n es))
    ∙ take-append_le (file_header created) (records_bytes 0 es) _
        (omega (arith, length-file_header created))
    ∙ ap (◌++◌ (file_header created)) (
        ap (λ k. take k (records_bytes 0 es)) (omega (arith, length-file_header created))
        ∙ take-whole n 0 es)

resized :
    (created : ℤ) (es : List Entry) (n : ℕ)
    → resize_file
        (settled (take (file_header_size + n) (log_bytes created es)))
        (file_header_size + entries_size (whole n es))
      ≡ settled (log_bytes created (whole n es))
resized created es n = rw (cut_back created es n, length-log_bytes created (whole n es))

-- If nothing is cut off, the log is that of the whole entries already.
uncut :
    (created : ℤ) (es : List Entry) (n : ℕ)
    → entries_size (whole n es) ≡ n
    → take (file_header_size + n) (log_bytes created es) ≡ log_bytes created (whole n es)
uncut created es n e =
    let kept = take (file_header_size + n) (log_bytes created es) in
    sym (take-take (file_header_size + n) (file_header_size + n) (log_bytes created es) (le_refl _))
    ∙ subst (λ k. take (file_header_size + k) kept ≡ log_bytes created (whole n es)) e
        (cut_back created es n)

-- What recovery makes of a log of which the first `n` bytes of records are left.
pub record IsRecovered (created : ℤ) (es : List Entry) (n : ℕ) (recovery : RecoveryResult)
    (file : FileView) : Type 0 where
  pub restored : file ≡ settled (log_bytes created (whole n es))
  pub succeeded : recovery.succeeded ≡ true
  pub changed : recovery.changed ≡ not (entries_size (whole n es) == n)
  pub original : recovery.original_size ≡ file_header_size + n
  pub recovered : recovery.recovered_size ≡ file_header_size + entries_size (whole n es)

recover_complete :
    (resizes : Bool) (file : FileView) (r : LogReadResult)
    → r.status ≡ LogReadStatus.complete
    → recover_read resizes file r ≡ (
      record {
        succeeded = true;
        changed = false;
        original_size = r.file_size;
        recovered_size = r.file_size;
        message = "log was already complete";
      },
      file,
    )
unfolding recover_read
recover_complete resizes file r e = rw (e, recover_read)

recover_tail :
    (file : FileView) (r : LogReadResult)
    → r.status ≡ LogReadStatus.truncated_tail
    → file_header_size ≤ r.valid_bytes
    → recover_read true file r ≡ (
      record {
        succeeded = true;
        changed = true;
        original_size = r.file_size;
        recovered_size = r.valid_bytes;
        message = "removed incomplete final record";
      },
      resize_file file r.valid_bytes,
    )
unfolding recover_read truncate_tail
recover_tail file r e h = rw (e, le→ltb_false r.valid_bytes file_header_size h, recover_read)

recover_read-HasRead :
    (options : LogReadOptions) (created : ℤ) (es : List Entry) (n : ℕ) (r : LogReadResult)
    → HasRead options (started created (file_header_size + n)) file_header_size 0 n es r
    → let out =
        recover_read true (settled (take (file_header_size + n) (log_bytes created es))) r in
      IsRecovered created es n out.0 out.1
recover_read-HasRead options created es n r has =
    elim (Bool-cases (entries_size (whole n es) == n)) [
      | inl done ↦
          let e : entries_size (whole n es) ≡ n = (==_iff _ _).0 done in
          let status : r.status ≡ LogReadStatus.complete = rw done at has.ends in
          rw
            (recover_complete true (settled (take (file_header_size + n) (log_bytes created es))) r
              status)
            (record {
              restored = ap settled (uncut created es n e);
              succeeded = refl;
              changed = rw done;
              original = has.sized;
              recovered = omega (arith, has.sized);
            })
      | inr cut ↦
          let status : r.status ≡ LogReadStatus.truncated_tail = rw cut at has.ends in
          rw
            (recover_tail (settled (take (file_header_size + n) (log_bytes created es))) r status
              (omega (arith, has.valid)))
            (record {
              restored =
                  ap (resize_file (settled (take (file_header_size + n) (log_bytes created es))))
                    has.valid
                  ∙ resized created es n;
              succeeded = refl;
              changed = rw cut;
              original = has.sized;
              recovered = has.valid;
            })
    ]

-- Recovery of a well-formed log that is cut at any byte behind its header, where the file system
-- allows the truncation, succeeds and leaves exactly the log of the entries that lie whole before
-- the cut; it reports a change if and only if the cut is inside a record, and the sizes before
-- and after. Conditions: the entries are valid, no more than the reader admits, and the log is
-- below 2 ^ 64 bytes.
pub recover-cut :
    (p : Protobuf) (options : LogReadOptions) (created : ℤ) (es : List Entry) (n : ℕ)
    → IsI64 created
    → All (IsEntry p) es
    → n ≤ entries_size es
    → length es ≤ options.maximum_records
    → file_header_size + entries_size es < u64_mod
    → (recovery : RecoveryResult) × (file : FileView) × (recover_truncated_tail p true
          (settled (take (file_header_size + n) (log_bytes created es)))
          options
        ≡ some (recovery, file))
      × IsRecovered created es n recovery file
unfolding recover_truncated_tail
recover-cut p options created es n c v b m o =
    let (r, ran, has) = read_log_prefix p options created es n c v b m o in
    let file = settled (take (file_header_size + n) (log_bytes created es)) in
    let out = recover_read true file r in
    (
      out.0,
      out.1,
      ap (LibOption.map (recover_read true file)) ran,
      recover_read-HasRead options created es n r has,
    )
