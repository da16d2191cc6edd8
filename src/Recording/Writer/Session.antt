-- ===== src/Recording/Writer/Session.antt =====
-- A whole life of a `LogWriter` on any device, and what the file holds at its end.
use trace_forge.Common.{
  ℕ, zero, suc, ◌+◌, ◌-◌, ◌%◌, ◌≤◌, ◌<◌, ◌≡◌, ◌⊎◌, ◌==◌, Bool-cases, take-append_lt, inl, inr, refl,
  sym, subst, ap, ◌∙◌, arith, List, [], ◌∷◌, ◌++◌, map, length, take, Bytes, Bool, true, false,
  if◌then◌else◌, All, All-append, append-nil, append_assoc, length-map, take-all, take-append_le,
  length-append, u64_mod,
}
use mathlib.Core.List.{map-append}
use trace_forge.Common.Int.{ℤ, IsI64}
use trace_forge.Telemetry.Event.{TelemetryEvent, Protobuf, Survives}
use trace_forge.Recording.{file_header_size}
use trace_forge.Recording.Stream.{Device, Stream}
use trace_forge.Recording.Writer.{
  LogWriter, LogWriterOptions, good, record_header, file_header, append,
}
use trace_forge.Recording.Writer.Outcome.{IsWithin, Stores, Rejects, append-Appends, append_bad}
use trace_forge.Recording.Format.{
  Entry, IsEntry, record_bytes, records_bytes, log_bytes, entry_size, entries_size, whole,
}
use trace_forge.Recording.Format.Fields.{
  length-record_bytes, length-records_bytes, length-file_header, length-log_bytes,
}
use native.Mathlib.Nat.{mod-eq_of_lt, le_refl}

-- One call of `append`: the event and its arrival time.
abbrev pub Call : Type 0
Call = TelemetryEvent × ℤ

-- The calls of `append`, one after the other, with those that returned true.
unfoldable pub append_all :
    Device → Protobuf → LogWriter → List Call → List Call → LogWriter × List Call
append_all d p w acked [] = (w, acked)
append_all d p w acked ((event, timestamp) ∷ calls) =
    let out = append d p w event timestamp in
    append_all d p out.0 (if out.1 then acked ++ (event, timestamp) ∷ [] else acked) calls

-- The call that an entry comes from.
abbrev pub call_of : Entry → Call
call_of e = (e.event, e.arrival)

-- How many of `n` records a due flush is behind: the largest multiple of `every` that is not above `n`.
abbrev pub flushed_records : ℕ → ℕ → ℕ
flushed_records every zero = 0
flushed_records every (suc n) =
    let before = flushed_records every n in if (n + 1) % every == 0 then n + 1 else before

pub flushed_records-le : (every n : ℕ) → flushed_records every n ≤ n
flushed_records-le every zero = omega arith
flushed_records-le every (suc n) = ground (arith, flushed_records-le every n)

-- The file holds the header and the first `n` records, unless there are none to hold.
abbrev pub HoldsFirst : LogWriter → List Entry → ℕ → Type 0
HoldsFirst w es n = (n ≡ 0) ⊎ (file_header_size + entries_size (take n es) ≤ w.output.stored)

-- The state of a session: while the writer is good its stream was given the whole log of the acknowledged calls; once it
-- is not, it was given a cut log of them and at most one more. The records behind which a flush was due are on
-- the file.
pub data Session (p : Protobuf) (created : ℤ) (every : ℕ) (w : LogWriter) (acked : List Call)
    : Type 0 where
  going :
      (es : List Entry)
      → All (IsEntry p) es
      → good w ≡ true
      → IsWithin w
      → w.options.flush_every_records ≡ every
      → w.output.contents ≡ log_bytes created es
      → w.record_count ≡ length es
      → map call_of es ≡ acked
      → HoldsFirst w es (flushed_records every (length acked))
      → Session p created every w acked
  broken :
      (es : List Entry) (n : ℕ) (more : List Call)
      → All (IsEntry p) es
      → good w ≡ false
      → n ≤ entries_size es
      → w.output.contents ≡ take (file_header_size + n) (log_bytes created es)
      → IsWithin w
      → map call_of es ≡ acked ++ more
      → length more ≤ 1
      → HoldsFirst w es (flushed_records every (length acked))
      → Session p created every w acked

records_bytes-append :
    (index : ℕ) (es : List Entry) (e : Entry)
    → records_bytes index (es ++ e ∷ [])
      ≡ records_bytes index es ++ record_bytes (index + length es) e
unfolding records_bytes
records_bytes-append index [] e = append-nil _ ∙ ap (λ i. record_bytes i e) (omega arith)
records_bytes-append index (x ∷ es) e =
    ap (◌++◌ (record_bytes index x)) (records_bytes-append (index + 1) es e)
    ∙ sym (append_assoc (record_bytes index x) _ _)
    ∙ ap (λ i. (record_bytes index x ++ records_bytes (index + 1) es) ++ record_bytes i e)
        (omega arith)

entries_size-append :
    (es : List Entry) (e : Entry) → entries_size (es ++ e ∷ []) ≡ entries_size es + entry_size e
entries_size-append [] e = omega arith
entries_size-append (x ∷ es) e = omega (arith, entries_size-append es e)

-- The whole log, and some first part of one more record.
log_bytes-more :
    (created : ℤ) (es : List Entry) (e : Entry) (k : ℕ)
    → log_bytes created es ++ take k (record_bytes (length es) e)
      ≡ take (file_header_size + (entries_size es + k)) (log_bytes created (es ++ e ∷ []))
unfolding log_bytes
log_bytes-more created es e k =
    let header = file_header created in
    let old = records_bytes 0 es in
    let new = record_bytes (length es) e in
    append_assoc header old (take k new)
    ∙ ap (◌++◌ header) (
        ap (λ j. old ++ take j new) (omega (arith, length-records_bytes 0 es))
        ∙ sym (
            take-append_le old new (entries_size es + k) (omega (arith, length-records_bytes 0 es)))
        ∙ ap (take (entries_size es + k))
            (ap (λ i. old ++ record_bytes i e) (omega arith) ∙ sym (records_bytes-append 0 es e)))
    ∙ ap (λ j. header ++ take j (records_bytes 0 (es ++ e ∷ [])))
        (omega (arith, length-file_header created))
    ∙ sym (
        take-append_le header (records_bytes 0 (es ++ e ∷ [])) _
          (omega (arith, length-file_header created)))

back₂ : (a b : ℕ) → a + b - a ≡ b
back₂ a b = omega arith

pub whole-all : (es : List Entry) → whole (entries_size es) es ≡ es
unfolding whole
whole-all [] = refl
whole-all (e ∷ es) =
    ground (arith, whole-all es, ap (λ n. whole n es) (back₂ (entry_size e) (entries_size es)))

-- More records behind them do not change what is held, and neither does a larger file.
HoldsFirst-append :
    (w w' : LogWriter) (es : List Entry) (e : Entry) (n : ℕ)
    → n ≤ length es
    → w.output.stored ≤ w'.output.stored
    → HoldsFirst w es n
    → HoldsFirst w' (es ++ e ∷ []) n
HoldsFirst-append w w' es e n le grows (inl z) = inl z
HoldsFirst-append w w' es e n le grows (inr held) =
    inr (omega (arith, ap entries_size (take-append_lt es (e ∷ []) n le)))

-- The record that was appended last, behind a call that returned true.
HoldsFirst-next :
    (every : ℕ) (w w' : LogWriter) (es : List Entry) (e : Entry)
    → w.output.stored ≤ w'.output.stored
    → (((length es + 1) % every == 0) ≡ true
        → file_header_size + entries_size (es ++ e ∷ []) ≤ w'.output.stored)
    → HoldsFirst w es (flushed_records every (length es))
    → HoldsFirst w' (es ++ e ∷ []) (flushed_records every (suc (length es)))
HoldsFirst-next every w w' es e grows due held = elim (Bool-cases ((length es + 1) % every == 0)) [
  | inl now ↦ rw now (
      inr (
        omega (
          arith,
          due now,
          ap entries_size
              (take-all (length es + 1) (es ++ e ∷ []) (omega (arith, length-append es (e ∷ [])))),
        )))
  | inr later ↦ rw later (
      HoldsFirst-append w w' es e (flushed_records every (length es))
        (flushed_records-le every (length es)) grows held)
]

bound :
    (b : Bool) (acked : List Call) (c : Call) (calls : List Call)
    → length acked + suc (length calls) < u64_mod
    → length (if b then acked ++ c ∷ [] else acked) + length calls < u64_mod
bound true acked c calls h = omega (arith, length-append acked (c ∷ []))
bound false acked c calls h = omega arith

grown :
    (b : Bool) (acked : List Call) (c : Call)
    → length (if b then acked ++ c ∷ [] else acked) ≤ length acked + 1
grown true acked c = omega (arith, length-append acked (c ∷ []))
grown false acked c = omega arith

-- The entry that a call of `append` makes.
abbrev entry_of : Bytes → Call → Entry
entry_of payload c = record { payload = payload; event = c.0; arrival = c.1 }

module _ (d : Device) (p : Protobuf) (created : ℤ) (every : ℕ) where
  stored_contents :
      (w w' : LogWriter) (done : Bool) (es : List Entry) (e : Entry)
      → w.output.contents ≡ log_bytes created es
      → w.record_count ≡ length es
      → (s : Stores w (record_header e.payload w.record_count e.arrival ++ e.payload) w' done)
      → w'.output.contents
        ≡ take (file_header_size + (entries_size es + s.count)) (log_bytes created (es ++ e ∷ []))
  unfolding record_bytes
  stored_contents w w' done es e c n s =
      s.contents
      ∙ ap (λ xs. xs ++ take s.count (record_bytes w.record_count e)) c
      ∙ ap (λ i. log_bytes created es ++ take s.count (record_bytes i e)) n
      ∙ log_bytes-more created es e s.count

  stored_size :
      (w w' : LogWriter) (done : Bool) (e : Entry)
      → (s : Stores w (record_header e.payload w.record_count e.arrival ++ e.payload) w' done)
      → (s.count ≤ entry_size e)
        × (done ≡ true
            → (s.count ≡ entry_size e) × (w'.record_count ≡ (w.record_count + 1) % u64_mod))
  unfolding record_bytes
  stored_size w w' done e s = (
    omega (arith, s.count-le, length-record_bytes w.record_count e),
    λ ok. elim s.counted [
      | inl (full, counted) ↦ (omega (arith, length-record_bytes w.record_count e), counted)
      | inr (failed, _) ↦ cc
    ],
  )

  -- A call that gave its record to the stream, or a part of it.
  Stores-Session :
      (w w' : LogWriter) (done : Bool) (es : List Entry) (e : Entry)
      → All (IsEntry p) es
      → IsEntry p e
      → w.options.flush_every_records ≡ every
      → w.output.contents ≡ log_bytes created es
      → w.record_count ≡ length es
      → HoldsFirst w es (flushed_records every (length es))
      → length es + 1 < u64_mod
      → Stores w (record_header e.payload w.record_count e.arrival ++ e.payload) w' done
      → Session p created every w'
          (if done then map call_of es ++ call_of e ∷ [] else map call_of es)
  Stores-Session w w' true es e v ve o c n held u s =
      let (full, counted) = (stored_size w w' true e s).1 refl in
      let contents : w'.output.contents ≡ log_bytes created (es ++ e ∷ []) =
        stored_contents w w' true es e c n s
        ∙ take-all _ _
            (omega (arith, length-log_bytes created (es ++ e ∷ []), entries_size-append es e)) in
      let count : w'.record_count ≡ length es + 1 =
        counted
        ∙ ap (λ k. (k + 1) % u64_mod) n
        ∙ mod-eq_of_lt {n = length es + 1} {m = u64_mod} u in
      let due : ((length es + 1) % every == 0) ≡ true
          → file_header_size + entries_size (es ++ e ∷ []) ≤ w'.output.stored =
        λ now.
          let all = s.all_stored_if_due refl (
            ap (λ k. k % w.options.flush_every_records == 0) count
            ∙ ap (λ k. (length es + 1) % k == 0) o
            ∙ now) in
          omega (arith, all, ap length contents, length-log_bytes created (es ++ e ∷ [])) in
      let size : length (map call_of es ++ call_of e ∷ []) ≡ suc (length es) =
        omega (arith, length-append (map call_of es) (call_of e ∷ []), length-map call_of es) in
      going (es ++ e ∷ []) (All-append (IsEntry p) es (e ∷ []) v (ve, tt)) s.good_if_done s.still_in
        (ap (λ (x : LogWriterOptions). x.flush_every_records) s.options ∙ o) contents
        (omega (arith, count, length-append es (e ∷ []))) (map-append call_of es (e ∷ []))
        (subst (λ k. HoldsFirst w' (es ++ e ∷ []) (flushed_records every k)) (sym size)
          (HoldsFirst-next every w w' es e s.stored due held))
  Stores-Session w w' false es e v ve o c n held u s =
      broken (es ++ e ∷ []) (entries_size es + s.count) (call_of e ∷ [])
        (All-append (IsEntry p) es (e ∷ []) v (ve, tt)) s.good_if_done
        (omega (arith, entries_size-append es e, (stored_size w w' false e s).0))
        (stored_contents w w' false es e c n s) s.still_in (map-append call_of es (e ∷ []))
        (omega arith)
        (subst (λ k. HoldsFirst w' (es ++ e ∷ []) (flushed_records every k))
          (sym (length-map call_of es))
          (HoldsFirst-append w w' es e (flushed_records every (length es))
            (flushed_records-le every (length es)) s.stored held))

  -- A call that was turned down before anything was written.
  Rejects-Session :
      (w w' : LogWriter) (done : Bool) (acked : List Call) (es : List Entry)
      → All (IsEntry p) es
      → IsWithin w
      → w.output.contents ≡ log_bytes created es
      → map call_of es ≡ acked
      → HoldsFirst w es (flushed_records every (length acked))
      → Rejects w w' done
      → Session p created every w' acked
  Rejects-Session w w' done acked es v i c e held rejected =
      let same_stored : w'.output.stored ≡ w.output.stored =
        ap (λ (o : Stream). o.stored) rejected.unchanged in
      let same : w'.output.contents ≡ w.output.contents =
        ap (λ (o : Stream). o.contents) rejected.unchanged in
      broken es (entries_size es) [] v rejected.bad (le_refl _)
        (same
          ∙ c
          ∙ sym (take-all _ (log_bytes created es) (omega (arith, length-log_bytes created es))))
        (omega (arith, i, same_stored, ap length same)) (e ∙ sym (append-nil acked)) (omega arith)
        (elim held [ inl z ↦ inl z | inr h ↦ inr (omega (arith, h, same_stored)) ])

  -- One call of `append`, whatever becomes of it.
  append-Session :
      (w : LogWriter) (acked : List Call) (event : TelemetryEvent) (timestamp : ℤ)
      → Survives p event
      → IsI64 timestamp
      → length acked + 1 < u64_mod
      → Session p created every w acked
      → let out = append d p w event timestamp in
        Session p created every out.0 (if out.1 then acked ++ (event, timestamp) ∷ [] else acked)
  append-Session w acked event timestamp h t u (broken es n more v b n-le c i e m held) =
      rw (append_bad d p w event timestamp b) (broken es n more v b n-le c i e m held)
  append-Session w acked event timestamp h t u (going es v g i o c n e held) =
      elim (append-Appends d p w event timestamp g i) [
        | inl rejected ↦ rw rejected.failed (Rejects-Session w _ _ acked es v i c e held rejected)
        | inr (payload, serialized, known, fits, s) ↦
            let entry = entry_of payload (event, timestamp) in
            let out = append d p w event timestamp in
            subst
              (λ (a : List Call).
                Session p created every out.0 (if out.1 then a ++ (event, timestamp) ∷ [] else a))
              e
              (Stores-Session w out.0 out.1 es entry v
                (record {
                  fits = fits;
                  parses = h payload serialized;
                  supported = known;
                  in_range = t;
                })
                o c n
                (subst (λ k. HoldsFirst w es (flushed_records every k))
                  (sym (ap length e) ∙ length-map call_of es) held)
                (omega (arith, length-map call_of es, ap length e)) s)
      ]

  pub append_all-Session :
      (calls : List Call) (w : LogWriter) (acked : List Call)
      → All (λ (c : Call). Survives p c.0 × IsI64 c.1) calls
      → length acked + length calls < u64_mod
      → Session p created every w acked
      → let out = append_all d p w acked calls in Session p created every out.0 out.1
  unfolding append_all
  append_all-Session [] w acked h u s = s
  append_all-Session ((event, timestamp) ∷ calls) w acked h u s =
      append_all-Session calls _ _ h.1
        (bound (append d p w event timestamp).1 acked (event, timestamp) calls u)
        (append-Session w acked event timestamp h.0.0 h.0.1 (omega arith) s)

pub append_all-length :
    (d : Device) (p : Protobuf) (w : LogWriter) (acked calls : List Call)
    → length (append_all d p w acked calls).1 ≤ length acked + length calls
unfolding append_all
append_all-length d p w acked [] = omega arith
append_all-length d p w acked ((event, timestamp) ∷ calls) =
    let out = append d p w event timestamp in
    let next = if out.1 then acked ++ (event, timestamp) ∷ [] else acked in
    omega (arith, append_all-length d p out.0 next calls, grown out.1 acked (event, timestamp))
