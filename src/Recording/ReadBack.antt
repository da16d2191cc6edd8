-- ===== src/Recording/ReadBack.antt =====
-- The writer and the reader of src/recording/log.cpp together: what a reader finds in the file that a
-- writer leaves on any device, after any calls.
use Prim.Native.String.{String}
use trace_forge.Common.{
  ℕ, ◌+◌, ◌^◌, ◌≤◌, ◌<◌, ◌≡◌, ◌⊎◌, refl, sym, subst, ap, ◌∙◌, arith, List, [], ◌++◌, map, length,
  some, true, false, Bool-cases, leb, Bytes, length-append, take-take, if◌then◌else◌, inl, inr, All,
  append-nil, take, take-all, length-map,
}
use trace_forge.Common.Int.{ℤ, pos, IsI64, eqb_ℤ}
use trace_forge.Telemetry.Event.{Protobuf, Survives}
use trace_forge.Recording.{LogReadStatus, LogReadOptions, LogReadResult, file_header_size}
use trace_forge.Recording.Stream.{Device, Environment, write, open_stream, at_most}
use trace_forge.Recording.Writer.{
  LogWriter, LogWriterOptions, good, fail, flush, write_bytes, write_file_header, open_log, create,
  file_header,
}
use native.Mathlib.Nat.{le_refl}
use trace_forge.Recording.Writer.Outcome.{IsWithin, flush-Flushes}
use trace_forge.Recording.Writer.Session.{
  flushed_records, flushed_records-le, Call, call_of, append_all, Session, going, broken,
  append_all-Session, append_all-length,
}
use trace_forge.Recording.Format.{log_bytes, records_bytes}
use trace_forge.Recording.Format.Fields.{length-log_bytes}
use trace_forge.Recording.Reader.{settled, read_log}
use trace_forge.Recording.CutLog.{delivered, at_most-le, at_most-lt, length-take_le, read_start}

-- The creation time that the constructor settles on.
abbrev pub created_time : Environment → LogWriterOptions → ℤ
created_time env options =
    if eqb_ℤ options.created_unix_ns (pos 0) then env.now else options.created_unix_ns

create-good :
    (d : Device) (env : Environment) (path : String) (options : LogWriterOptions)
    → good (create d env path options) ≡ true
    → ((create d env path options).output.contents ≡ file_header (created_time env options))
      × ((create d env path options).record_count ≡ 0)
      × ((create d env path options).options.flush_every_records ≡ options.flush_every_records)
      × IsWithin (create d env path options)
unfolding create open_log write_file_header write_bytes write open_stream fail
create-good d env path options g = ground arith

create-Session :
    (d : Device) (p : Protobuf) (env : Environment) (path : String) (options : LogWriterOptions)
    → good (create d env path options) ≡ true
    → Session p
        (created_time env options)
        options.flush_every_records
        (create d env path options)
        []
unfolding log_bytes records_bytes
create-Session d p env path options g =
    let (contents, count, every, within) = create-good d env path options g in
    going [] tt g within every (contents ∙ sym (append-nil _)) count refl (inl refl)

-- What reading a file that holds the first `size` bytes given to a writer gives.
pub record ReadsBack (every : ℕ) (w : LogWriter) (acked : List Call) (size : ℕ) (r : LogReadResult)
    : Type 0 where
  pub more : List Call
  pub at_most_one : length more ≤ 1
  pub records : map delivered r.records ≡ take (length r.records) (acked ++ more)
  pub flushed : flushed_records every (length acked) ≤ length r.records
  pub undamaged :
      (r.status ≡ LogReadStatus.complete)
      ⊎ (r.status ≡ LogReadStatus.truncated_tail)
      ⊎ ((size < file_header_size) × (r.status ≡ LogReadStatus.corrupt))
  pub complete_if_stored :
      good w ≡ true
      → length w.output.contents ≤ size
      → (r.status ≡ LogReadStatus.complete) × (map delivered r.records ≡ acked)

flush_bad : (d : Device) (w : LogWriter) → good w ≡ false → (flush d w).1 ≡ false
unfolding flush
flush_bad d w b = ground (arith, b)

cut_twice : (size b : ℕ) (xs : Bytes) → take size (take b xs) ≡ take (at_most b size) xs
cut_twice size b xs = elim (Bool-cases (leb size b)) [
  | inl le ↦ rw le (take-take size b xs (ground (arith, le)))
  | inr gt ↦ rw gt (take-all size (take b xs) (ground (arith, gt, (length-take_le b xs).0)))
]

module _ (p : Protobuf) (created : ℤ) (c : IsI64 created) (options : LogReadOptions)
    (retain : options.retain_records ≡ true) where
  Session-ReadsBack :
      (every : ℕ) (w : LogWriter) (acked : List Call) (size : ℕ)
      → w.output.stored ≤ size
      → length acked < options.maximum_records
      → length acked < 2 ^ 40
      → Session p created every w acked
      → (r : LogReadResult) × (read_log p (settled (take size w.output.contents)) options ≡ some r)
        × ReadsBack every w acked size r
  Session-ReadsBack every w acked size s m k (going es v g i o contents count e held) =
      let few : length es ≡ length acked = omega (arith, length-map call_of es, ap length e) in
      let (r, ran, cut) =
        read_start p created c options retain es size v (omega arith) (omega arith) in
      (
        r,
        subst (λ bytes. read_log p (settled (take size bytes)) options ≡ some r) (sym contents) ran,
        record {
          more = [];
          at_most_one = omega arith;
          records = cut.records ∙ ap (take (length r.records)) (e ∙ sym (append-nil acked));
          flushed =
              cut.held (flushed_records every (length acked))
                (omega (arith, flushed_records-le every (length acked)))
                (elim held [ inl z ↦ inl z | inr h ↦ inr (omega (arith, h, s)) ]);
          undamaged = cut.undamaged;
          complete_if_stored = λ still all.
              let (complete, number) =
                cut.complete_if_whole
                  (omega (arith, all, ap length contents, length-log_bytes created es)) in
              (
                complete,
                cut.records
                    ∙ take-all (length r.records) (map call_of es)
                        (omega (arith, number, length-map call_of es))
                    ∙ e,
              );
        },
      )
  Session-ReadsBack every w acked size s m k (broken es n more v bad n-le contents i e one held) =
      let few : length es ≤ length acked + 1 =
        omega (arith, length-map call_of es, ap length e, length-append acked more) in
      let at = at_most (file_header_size + n) size in
      let (r, ran, cut) =
        read_start p created c options retain es at v (omega arith) (omega arith) in
      let within : w.output.stored ≤ file_header_size + n = omega (
        arith,
        i,
        ap length contents,
        (length-take_le (file_header_size + n) (log_bytes created es)).0,
      ) in
      let kept : w.output.stored ≤ at = at_most-le (file_header_size + n) size _ within s in
      (
        r,
        subst (λ bytes. read_log p (settled bytes) options ≡ some r)
            (sym (cut_twice size (file_header_size + n) (log_bytes created es))
              ∙ ap (take size) (sym contents))
            ran,
        record {
          more = more;
          at_most_one = one;
          records = cut.records ∙ ap (take (length r.records)) e;
          flushed =
              cut.held (flushed_records every (length acked))
                (omega (
                  arith,
                  flushed_records-le every (length acked),
                  length-map call_of es,
                  ap length e,
                  length-append acked more,
                ))
                (elim held [ inl z ↦ inl z | inr h ↦ inr (omega (arith, h, kept)) ]);
          undamaged = elim cut.undamaged [
            | inl done ↦ inl done
            | inr (inl tail) ↦ inr (inl tail)
            | inr (inr (short, corrupt)) ↦
                inr (inr (at_most-lt file_header_size n size short, corrupt))
          ];
          complete_if_stored = λ g all. absurd (ground (arith, g, bad));
        },
      )

-- A log whose constructor succeeded is read back after any calls of `append`, on a device that
-- may pass any part of the buffered bytes on to the file at a write and at a flush and may fail
-- at each. The file holds the first `size` bytes that the stream was given, at least those that
-- the device has stored. The reader ends; it finds no damage but a truncated tail, or a header
-- that is incomplete if the file is shorter than the header. It delivers, with their times and in
-- order, the first of the events for which `append` returned true, which at most one more event
-- follows, and among them all events up to the last flush that was due, the largest multiple of
-- flush_every_records. If the writer is still good and the file holds everything that the stream
-- was given, the log is complete and has exactly the events for which `append` returned true.
-- Conditions: Protobuf parses what it serialized of these events, the times fit int64_t, the
-- reader retains records and admits more of them than there were calls, and there were fewer than
-- 2 ^ 40 calls.
pub read_log-append_all :
    (d : Device) (p : Protobuf) (env : Environment) (path : String) (options : LogWriterOptions)
    (read_options : LogReadOptions) (calls : List Call) (size : ℕ)
    → good (create d env path options) ≡ true
    → IsI64 (created_time env options)
    → All (λ (c : Call). Survives p c.0 × IsI64 c.1) calls
    → read_options.retain_records ≡ true
    → length calls < read_options.maximum_records
    → length calls < 2 ^ 40
    → (append_all d p (create d env path options) [] calls).0.output.stored ≤ size
    → let out = append_all d p (create d env path options) [] calls in
      (r : LogReadResult) × (read_log p (settled (take size out.0.output.contents)) read_options
        ≡ some r)
      × ReadsBack options.flush_every_records out.0 out.1 size r
read_log-append_all d p env path options read_options calls size g c h retain m k stored =
    let w = create d env path options in
    let session =
      append_all-Session d p (created_time env options) options.flush_every_records calls w [] h
        (omega arith) (create-Session d p env path options g) in
    let few = append_all-length d p w [] calls in
    Session-ReadsBack p (created_time env options) c read_options retain options.flush_every_records
      _ _ size stored (omega arith) (omega arith) session

-- A flush that returns true leaves the session as it was, with the whole log on the file.
flush-Session :
    (d : Device) (p : Protobuf) (created : ℤ) (every : ℕ) (w : LogWriter) (acked : List Call)
    → (flush d w).1 ≡ true
    → Session p created every w acked
    → Session p created every (flush d w).0 acked
      × (length (flush d w).0.output.contents ≤ (flush d w).0.output.stored)
      × (good (flush d w).0 ≡ true)
flush-Session d p created every w acked done (going es v g i o contents count e held) =
    let f = flush-Flushes d w i in
    (
      going es v (f.good_if_done ∙ done) f.still_in
          (ap (λ (x : LogWriterOptions). x.flush_every_records) f.options ∙ o)
          (f.contents ∙ contents) (f.records ∙ count) e
          (elim held [ inl z ↦ inl z | inr h ↦ inr (omega (arith, h, f.stored)) ]),
      omega (arith, f.all_stored done),
      f.good_if_done ∙ done,
    )
flush-Session d p created every w acked done (broken es n more v bad n-le contents i e one held) =
    absurd (ground (arith, done, flush_bad d w bad))

-- If `flush` returns true after any calls of `append` on a log whose constructor succeeded, on a
-- device that may pass any part of the buffered bytes on to the file at a write and at a flush
-- and may fail at each, the bytes that are on the file are read as a complete log with exactly
-- the events for which `append` returned true, with their times and in order. Conditions:
-- Protobuf parses what it serialized of these events, the times fit int64_t, the reader retains
-- records and admits more of them than there were calls, and there were fewer than 2 ^ 40 calls.
pub read_log-flush :
    (d : Device) (p : Protobuf) (env : Environment) (path : String) (options : LogWriterOptions)
    (read_options : LogReadOptions) (calls : List Call)
    → good (create d env path options) ≡ true
    → IsI64 (created_time env options)
    → All (λ (c : Call). Survives p c.0 × IsI64 c.1) calls
    → read_options.retain_records ≡ true
    → length calls < read_options.maximum_records
    → length calls < 2 ^ 40
    → (flush d (append_all d p (create d env path options) [] calls).0).1 ≡ true
    → let out = append_all d p (create d env path options) [] calls in
      let file = (flush d out.0).0.output in
      (r : LogReadResult) × (read_log p (settled (take file.stored file.contents)) read_options
        ≡ some r)
      × (r.status ≡ LogReadStatus.complete)
      × (map delivered r.records ≡ out.1)
read_log-flush d p env path options read_options calls g c h retain m k done =
    let w = create d env path options in
    let every = options.flush_every_records in
    let session =
      append_all-Session d p (created_time env options) every calls w [] h (omega arith)
        (create-Session d p env path options g) in
    let (flushed, all, still) =
      flush-Session d p (created_time env options) every _ _ done session in
    let few = append_all-length d p w [] calls in
    let (r, ran, back) =
      Session-ReadsBack p (created_time env options) c read_options retain every _ _ _ (le_refl _)
        (omega arith) (omega arith) flushed in
    let (complete, records) = back.complete_if_stored still all in (r, ran, complete, records)
