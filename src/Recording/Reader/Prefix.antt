-- ===== src/Recording/Reader/Prefix.antt =====
-- `read_log` on a file that the writer left, whole or cut at any byte behind its header.
use native.Mathlib.Nat.{mod-eq_of_lt}
use native.Mathlib.Decide.{dec_le}
use trace_forge.Common.{
  ℕ, zero, suc, ◌+◌, ◌-◌, ◌≤◌, ◌<◌, ◌≡◌, ◌≢◌, refl, ap, ◌∙◌, arith, List, [], ◌∷◌, ◌++◌, length,
  take, Bytes, some, Bool, true, false, ◌==◌, if◌then◌else◌, All, take-append_le, take-append_lt,
  append_assoc, append-nil, length-append, length-take, u64_mod,
}
use trace_forge.Common.Int.{ℤ, IsI64}
use trace_forge.Telemetry.Event.{Protobuf}
use trace_forge.Recording.{
  LogReadStatus, LogReadOptions, LogReadResult, LogRecord, file_header_size,
}
use trace_forge.Recording.Writer.{file_header}
use trace_forge.Recording.Format.{
  Entry, IsEntry, record_bytes, records_bytes, log_bytes, record_of, index_entry_of, records_of,
  index_of, entry_size, entries_size, whole,
}
use trace_forge.Recording.Format.Fields.{
  length-record_bytes, length-records_bytes, length-file_header,
}
use trace_forge.Recording.Reader.{
  settled, make_failure, add_record, read_records, read_log, empty_result,
}
use trace_forge.Recording.Reader.Loop.{loop_done, loop_stop, loop_next}
use trace_forge.Recording.Reader.Round.{read_record_whole, read_record_cut, read_file_header_whole}

-- The result with which the loop of `read_log` starts.
abbrev pub started : ℤ → ℕ → LogReadResult
started created size = record empty_result {
  created_unix_ns = created;
  file_size = size;
  valid_bytes = file_header_size;
}

-- What a reader that stood at `offset` with `result` has after `n` more bytes of the entries `es`.
pub record HasRead (options : LogReadOptions) (result : LogReadResult) (offset index n : ℕ)
    (es : List Entry) (r : LogReadResult) : Type 0 where
  pub ends : r.status ≡ (
      if entries_size (whole n es) == n
      then LogReadStatus.complete
      else LogReadStatus.truncated_tail)
  pub indexed : r.index ≡ result.index ++ index_of offset index (whole n es)
  pub retained : r.records ≡ (
      if options.retain_records
      then result.records ++ records_of offset index (whole n es)
      else result.records)
  pub valid : r.valid_bytes ≡ offset + entries_size (whole n es)
  pub sized : r.file_size ≡ result.file_size
  pub dated : r.created_unix_ns ≡ result.created_unix_ns

pub whole-zero : (es : List Entry) → whole 0 es ≡ []
unfolding whole
whole-zero [] = refl
whole-zero (e ∷ es) = ground arith

whole_fits :
    (n : ℕ) (e : Entry) (es : List Entry)
    → entry_size e ≤ n
    → whole n (e ∷ es) ≡ e ∷ whole (n - entry_size e) es
unfolding whole
whole_fits n e es h = ground arith

whole_cut : (n : ℕ) (e : Entry) (es : List Entry) → n < entry_size e → whole n (e ∷ es) ≡ []
unfolding whole
whole_cut n e es h = ground arith

pub take_whole :
    (index n : ℕ) (e : Entry) (es : List Entry)
    → entry_size e ≤ n
    → take n (records_bytes index (e ∷ es))
      ≡ record_bytes index e ++ take (n - entry_size e) (records_bytes (index + 1) es)
unfolding records_bytes
take_whole index n e es h =
    take-append_le (record_bytes index e) (records_bytes (index + 1) es) n
      (omega (arith, length-record_bytes index e))
    ∙ rw (length-record_bytes index e)

take_cut :
    (index n : ℕ) (e : Entry) (es : List Entry)
    → n < entry_size e
    → take n (records_bytes index (e ∷ es)) ≡ take n (record_bytes index e)
unfolding records_bytes
take_cut index n e es h =
    take-append_lt (record_bytes index e) (records_bytes (index + 1) es) n
      (omega (arith, length-record_bytes index e))

retained_step :
    (keep : Bool) (xs : List LogRecord) (x : LogRecord) (ys : List LogRecord) {r : List LogRecord}
    → r ≡ (
        if keep
        then (if keep then xs ++ x ∷ [] else xs) ++ ys
        else (if keep then xs ++ x ∷ [] else xs))
    → r ≡ (if keep then xs ++ x ∷ ys else xs)
retained_step true xs x ys h = h ∙ append_assoc xs (x ∷ []) ys
retained_step false xs x ys h = h

module _ (p : Protobuf) (options : LogReadOptions) where
  -- At the end of the file the loop stops with what it has.
  at_end :
      (fuel : ℕ) (result : LogReadResult) (offset index : ℕ) (es : List Entry) (input : Bytes)
      → result.file_size ≡ offset
      → result.valid_bytes ≡ offset
      → (r : LogReadResult) × (read_records (suc fuel) p options result offset index input ≡ some r)
        × HasRead options result offset index 0 es r
  at_end fuel result offset index es input size valid = (
    record result { status = LogReadStatus.complete; message = "log is complete" },
    loop_done p options fuel result offset index input (omega arith),
    record {
      ends = rw (whole-zero es);
      indexed = rw (whole-zero es, append-nil result.index);
      retained = rw (whole-zero es, append-nil result.records) (ground arith);
      valid = rw (whole-zero es) (omega arith);
      sized = refl;
      dated = refl;
    },
  )

  -- A record that is cut short ends the loop.
  at_cut :
      (fuel : ℕ) (result : LogReadResult) (offset index n : ℕ) (e : Entry) (es : List Entry)
      → IsEntry p e
      → index < u64_mod
      → length result.index ≢ options.maximum_records
      → 0 < n
      → n < entry_size e
      → result.file_size ≡ offset + n
      → result.valid_bytes ≡ offset
      → (r : LogReadResult) × (read_records
            (suc fuel)
            p
            options
            result
            offset
            index
            (take n (record_bytes index e))
          ≡ some r)
        × HasRead options result offset index n (e ∷ es) r
  unfolding make_failure
  at_cut fuel result offset index n e es v h room more short size valid =
      let (message, stops) =
        read_record_cut p options result offset index e v h room n short (omega arith) in
      (
        make_failure result LogReadStatus.truncated_tail offset message,
        loop_stop p options fuel result offset index (take n (record_bytes index e)) (omega arith)
            stops,
        record {
          ends = rw (whole_cut n e es short) (ground arith);
          indexed = rw (whole_cut n e es short, append-nil result.index);
          retained = rw (whole_cut n e es short, append-nil result.records) (ground arith);
          valid = rw (whole_cut n e es short) (omega arith);
          sized = refl;
          dated = refl;
        },
      )

  -- A round over a whole record, and then the rest.
  after_whole :
      (result r : LogReadResult) (offset index n : ℕ) (e : Entry) (es : List Entry)
      → entry_size e ≤ n
      → HasRead options
          (add_record options result
            (record_of offset index e)
            (index_entry_of offset index e)
            (offset + entry_size e))
          (offset + entry_size e)
          (index + 1)
          (n - entry_size e)
          es
          r
      → HasRead options result offset index n (e ∷ es) r
  unfolding add_record
  after_whole result r offset index n e es fits h = record {
    ends = rw (whole_fits n e es fits) (ground (arith, h.ends));
    indexed = rw (whole_fits n e es fits) (h.indexed ∙ append_assoc result.index _ _);
    retained = rw (whole_fits n e es fits) (retained_step options.retain_records _ _ _ h.retained);
    valid = rw (whole_fits n e es fits) (omega (arith, h.valid));
    sized = h.sized;
    dated = h.dated;
  }

  round_over :
      (fuel : ℕ) (result : LogReadResult) (offset index n : ℕ) (e : Entry) (es : List Entry)
      → IsEntry p e
      → index + 1 < u64_mod
      → length result.index ≢ options.maximum_records
      → entry_size e ≤ n
      → offset + entry_size e < u64_mod
      → result.file_size ≡ offset + n
      → read_records
          (suc fuel)
          p
          options
          result
          offset
          index
          (take n (records_bytes index (e ∷ es)))
        ≡ read_records fuel p options
            (add_record options result
              (record_of offset index e)
              (index_entry_of offset index e)
              (offset + entry_size e))
            (offset + entry_size e)
            (index + 1)
            (take (n - entry_size e) (records_bytes (index + 1) es))
  round_over fuel result offset index n e es v h room fits o size =
      rw (take_whole index n e es fits) (
        loop_next p options fuel result offset index _ (omega arith)
          (read_record_whole p options result offset index e v (omega arith) room _ (omega arith))
        ∙ rw (mod-eq_of_lt o, mod-eq_of_lt h))

  -- Reading the first `n` bytes of the entries gives those that lie whole within them.
  pub read_records_prefix :
      (es : List Entry) (fuel : ℕ) (result : LogReadResult) (offset index n : ℕ)
      → All (IsEntry p) es
      → n < fuel
      → n ≤ entries_size es
      → length result.index + length es ≤ options.maximum_records
      → index + length es < u64_mod
      → offset + entries_size es < u64_mod
      → result.file_size ≡ offset + n
      → result.valid_bytes ≡ offset
      → (r : LogReadResult) × (read_records fuel p options result offset index
            (take n (records_bytes index es))
          ≡ some r)
        × HasRead options result offset index n es r
  unfolding add_record
  read_records_prefix es zero result offset index n v f b m i o size valid = absurd (omega arith)
  read_records_prefix [] (suc fuel) result offset index n v f b m i o size valid =
      let e : n ≡ 0 = omega arith in rw e (at_end fuel result offset index [] _ (omega arith) valid)
  read_records_prefix (e ∷ es) (suc fuel) result offset index zero v f b m i o size valid =
      at_end fuel result offset index (e ∷ es) _ (omega arith) valid
  read_records_prefix (e ∷ es) (suc fuel) result offset index (suc n) v f b m i o size valid =
      elim (dec_le (entry_size e) (suc n)) [
        | yes fits ↦
            let (r, ran, has) =
              read_records_prefix es fuel
                (add_record options result (record_of offset index e)
                  (index_entry_of offset index e) (offset + entry_size e))
                (offset + entry_size e) (index + 1) (suc n - entry_size e) v.1 (omega arith)
                (omega arith)
                (omega (arith, length-append result.index (index_entry_of offset index e ∷ [])))
                (omega arith) (omega arith) (omega arith) refl in
            (
              r,
              round_over fuel result offset index (suc n) e es v.0 (omega arith) (omega arith) fits
                    (omega arith) size
                  ∙ ran,
              after_whole result r offset index (suc n) e es fits has,
            )
        | no short ↦ rw (take_cut index (suc n) e es (omega arith)) (
            at_cut fuel result offset index (suc n) e es v.0 (omega arith) (omega arith)
              (omega arith) (omega arith) size valid)
      ]

log_prefix :
    (created : ℤ) (n : ℕ) (es : List Entry)
    → take (file_header_size + n) (log_bytes created es)
      ≡ file_header created ++ take n (records_bytes 0 es)
unfolding log_bytes
log_prefix created n es =
    take-append_le (file_header created) (records_bytes 0 es) (file_header_size + n)
      (omega (arith, length-file_header created))
    ∙ ap (λ k. file_header created ++ take k (records_bytes 0 es))
        (omega (arith, length-file_header created))

length-log_prefix :
    (created : ℤ) (n : ℕ) (es : List Entry)
    → n ≤ entries_size es
    → length (file_header created ++ take n (records_bytes 0 es)) ≡ file_header_size + n
length-log_prefix created n es h = omega (
  arith,
  length-append (file_header created) (take n (records_bytes 0 es)),
  length-file_header created,
  length-take n (records_bytes 0 es),
  length-records_bytes 0 es,
)

length-le-entries_size : (es : List Entry) → length es ≤ entries_size es
length-le-entries_size [] = omega arith
length-le-entries_size (e ∷ es) = omega (arith, length-le-entries_size es)

-- Behind a whole header `read_log` is its loop.
read_log_header :
    (p : Protobuf) (options : LogReadOptions) (created : ℤ) (rest : Bytes)
    → IsI64 created
    → let file = file_header created ++ rest in
      read_log p (settled file) options
      ≡ read_records
          (suc (length file))
          p
          options
          (started created (length file))
          file_header_size
          0
          rest
unfolding read_log
read_log_header p options created rest c = rw (
  read_file_header_whole created rest (length (file_header created ++ rest)) c
      (omega (arith, length-append (file_header created) rest, length-file_header created)),
  read_log,
)

-- A file that holds a first part of a well-formed log, at least its header, is read as complete
-- if the cut falls between two records and as a truncated tail if not, with exactly the entries
-- that lie whole before the cut, their places in the file, and the end of the last of them as
-- `valid_bytes`. Conditions: the entries are valid, no more than the reader admits, and the log
-- is below 2 ^ 64 bytes.
pub read_log_prefix :
    (p : Protobuf) (options : LogReadOptions) (created : ℤ) (es : List Entry) (n : ℕ)
    → IsI64 created
    → All (IsEntry p) es
    → n ≤ entries_size es
    → length es ≤ options.maximum_records
    → file_header_size + entries_size es < u64_mod
    → (r : LogReadResult) × (read_log p
          (settled (take (file_header_size + n) (log_bytes created es)))
          options
        ≡ some r)
      × HasRead options (started created (file_header_size + n)) file_header_size 0 n es r
read_log_prefix p options created es n c v b m o =
    let (r, ran, has) =
      read_records_prefix p options es (suc (file_header_size + n))
        (started created (file_header_size + n)) file_header_size 0 n v (omega arith) b
        (omega arith) (omega (arith, length-le-entries_size es)) o refl refl in
    (
      r,
      rw (log_prefix created n es) (
          read_log_header p options created (take n (records_bytes 0 es)) c
          ∙ rw (length-log_prefix created n es b) ran),
      has,
    )
