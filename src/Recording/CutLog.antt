-- ===== src/Recording/CutLog.antt =====
-- What `read_log` of src/recording/log.cpp makes of the first bytes of a well-formed log, however few.
use trace_forge.Common.{
  ℕ, zero, suc, ◌+◌, ◌-◌, ◌*◌, ◌^◌, ◌≤◌, ◌<◌, ◌≡◌, ◌⊎◌, refl, sym, subst, ap, ◌∙◌, arith, List, [],
  ◌∷◌, map, length, some, true, Bool-cases, leb, ltb, Bytes, ◌==◌, if◌then◌else◌, if_true, inl, inr,
  All, take, take-all, length-map,
}
use trace_forge.Common.Int.{ℤ, IsI64}
use trace_forge.Telemetry.Event.{Protobuf}
use trace_forge.Recording.{
  LogReadStatus, LogReadOptions, LogReadResult, LogRecord, file_header_size, maximum_payload_size,
}
use trace_forge.Recording.Stream.{at_most}
use trace_forge.Recording.Writer.Session.{Call, call_of, whole-all}
use trace_forge.Recording.Format.{
  Entry, IsEntry, log_bytes, records_of, entry_size, entries_size, whole,
}
use trace_forge.Recording.Format.Fields.{length-log_bytes}
use trace_forge.Recording.Reader.{settled, read_log, read_file_header, make_failure, empty_result}
use trace_forge.Recording.Reader.Prefix.{read_log_prefix}

-- What a reader makes of a record.
abbrev pub delivered : LogRecord → Call
delivered r = (r.event, r.collector_arrival_timestamp_ns)

delivered-records_of :
    (offset index : ℕ) (es : List Entry)
    → map delivered (records_of offset index es) ≡ map call_of es
delivered-records_of offset index [] = refl
delivered-records_of offset index (e ∷ es) =
    ap (◌∷◌ (call_of e)) (delivered-records_of (offset + entry_size e) (index + 1) es)

entries_size-le :
    (p : Protobuf) (es : List Entry)
    → All (IsEntry p) es
    → entries_size es ≤ length es * (36 + maximum_payload_size)
entries_size-le p [] v = omega arith
entries_size-le p (e ∷ es) v = omega (arith, entries_size-le p es v.1, v.0.fits)

pub at_most-le : (limit n m : ℕ) → m ≤ limit → m ≤ n → m ≤ at_most limit n
at_most-le limit n m a b = ground (arith, a, b)

pub at_most-lt : (a b n : ℕ) → at_most (a + b) n < a → n < a
at_most-lt a b n h = ground (arith, h)

le_cases : (size a b : ℕ) → (size < a) ⊎ (((n : ℕ) × (size ≡ a + n) × (n ≤ b)) ⊎ (a + b ≤ size))
le_cases size a b = elim (Bool-cases (ltb size a)) [
  | inl short ↦ inl (ground (arith, short))
  | inr enough ↦
      let above : a ≤ size = ground (arith, enough) in
      elim (Bool-cases (leb (size - a) b)) [
        | inl fits ↦ inr (inl (size - a, omega (arith, above), ground (arith, fits)))
        | inr over ↦
            let more : b < size - a = ground (arith, over) in inr (inr (omega (arith, above, more)))
      ]
]

pub length-take_le :
    (n : ℕ) (xs : Bytes) → (length (take n xs) ≤ n) × (length (take n xs) ≤ length xs)
length-take_le zero xs = (omega arith, omega arith)
length-take_le (suc n) [] = (omega arith, omega arith)
length-take_le (suc n) (x ∷ xs) =
    let (a, b) = length-take_le n xs in (omega (arith, a), omega (arith, b))

entries_size-take : (k : ℕ) (es : List Entry) → entries_size (take k es) ≤ entries_size es
entries_size-take zero es = omega arith
entries_size-take (suc k) [] = omega arith
entries_size-take (suc k) (e ∷ es) = omega (arith, entries_size-take k es)

map-take : (n : ℕ) (es : List Entry) → map call_of (take n es) ≡ take n (map call_of es)
map-take zero es = refl
map-take (suc n) [] = refl
map-take (suc n) (e ∷ es) = ap (◌∷◌ (call_of e)) (map-take n es)

whole-take : (n : ℕ) (es : List Entry) → whole n es ≡ take (length (whole n es)) es
unfolding whole
whole-take n [] = refl
whole-take n (e ∷ es) = elim (Bool-cases (leb (entry_size e) n)) [
  | inl fits ↦ rw fits (ap (◌∷◌ e) (whole-take (n - entry_size e) es))
  | inr cut ↦ rw cut refl
]

whole_holds :
    (k n : ℕ) (es : List Entry)
    → k ≤ length es
    → entries_size (take k es) ≤ n
    → k ≤ length (whole n es)
unfolding whole
whole_holds zero n es le fits = omega arith
whole_holds (suc k) n [] le fits = absurd (omega arith)
whole_holds (suc k) n (e ∷ es) le fits =
    let first : leb (entry_size e) n ≡ true = ground (arith, fits) in
    rw first (omega (arith, whole_holds k (n - entry_size e) es (omega arith) (omega arith)))

-- What reading the first `size` bytes of the log of these entries gives.
pub record ReadsCut (es : List Entry) (size : ℕ) (r : LogReadResult) : Type 0 where
  pub records : map delivered r.records ≡ take (length r.records) (map call_of es)
  pub held :
      (k : ℕ)
      → k ≤ length es
      → (k ≡ 0) ⊎ (file_header_size + entries_size (take k es) ≤ size)
      → k ≤ length r.records
  pub undamaged :
      (r.status ≡ LogReadStatus.complete)
      ⊎ (r.status ≡ LogReadStatus.truncated_tail)
      ⊎ ((size < file_header_size) × (r.status ≡ LogReadStatus.corrupt))
  pub complete_if_whole :
      file_header_size + entries_size es ≤ size
      → (r.status ≡ LogReadStatus.complete) × (length r.records ≡ length es)

-- A file that is shorter than its header is refused.
short_header :
    (p : Protobuf) (options : LogReadOptions) (bytes : Bytes)
    → length bytes < file_header_size
    → (r : LogReadResult) × (read_log p (settled bytes) options ≡ some r)
      × (r.status ≡ LogReadStatus.corrupt)
      × (r.records ≡ [])
unfolding read_log read_file_header make_failure
short_header p options bytes short =
    let refused : ltb (length bytes) file_header_size ≡ true = ground (arith, short) in
    (
      make_failure (record empty_result { file_size = length bytes }) LogReadStatus.corrupt 0
          "file header is incomplete",
      rw (refused, read_log, read_file_header) refl,
      refl,
      refl,
    )

module _ (p : Protobuf) (created : ℤ) (c : IsI64 created) (options : LogReadOptions)
    (retain : options.retain_records ≡ true) where
  -- Reading a cut log of entries that are few enough.
  read_cut :
      (es : List Entry) (n : ℕ)
      → All (IsEntry p) es
      → n ≤ entries_size es
      → length es ≤ options.maximum_records
      → length es ≤ 2 ^ 40
      → (r : LogReadResult) × (read_log p
            (settled (take (file_header_size + n) (log_bytes created es)))
            options
          ≡ some r)
        × (map delivered r.records ≡ map call_of (whole n es))
        × (r.status ≡ (
            if entries_size (whole n es) == n
            then LogReadStatus.complete
            else LogReadStatus.truncated_tail))
  read_cut es n v h m k =
      let (r, ran, has) =
        read_log_prefix p options created es n c v h m (omega (arith, entries_size-le p es v)) in
      let kept : r.records ≡ records_of file_header_size 0 (whole n es) =
        has.retained ∙ if_true _ _ retain in
      (
        r,
        ran,
        ap (map delivered) kept ∙ delivered-records_of file_header_size 0 (whole n es),
        has.ends,
      )

  -- Reading behind the header.
  read_behind :
      (es : List Entry) (n : ℕ)
      → All (IsEntry p) es
      → length es ≤ options.maximum_records
      → length es ≤ 2 ^ 40
      → n ≤ entries_size es
      → (r : LogReadResult) × (read_log p
            (settled (take (file_header_size + n) (log_bytes created es)))
            options
          ≡ some r)
        × ReadsCut es (file_header_size + n) r
  read_behind es n v m k h =
      let (r, ran, records, status) = read_cut es n v h m k in
      let size : length r.records ≡ length (whole n es) = omega (
        arith,
        ap length records,
        length-map delivered r.records,
        length-map call_of (whole n es),
      ) in
      (
        r,
        ran,
        record {
          records =
              records
              ∙ ap (map call_of) (whole-take n es)
              ∙ map-take (length (whole n es)) es
              ∙ ap (λ j. take j (map call_of es)) (sym size);
          held = λ j le fits. elim fits [
            | inl z ↦ omega (arith, z)
            | inr fits ↦ omega (arith, size, whole_holds j n es le (omega (arith, fits)))
          ];
          undamaged = ground (arith, status);
          complete_if_whole = λ all.
              let full : whole n es ≡ es =
                ap (λ j. whole j es) (omega (arith, all, h)) ∙ whole-all es in
              let same : entries_size (whole n es) ≡ n =
                ap entries_size full ∙ omega (arith, all, h) in
              (ground (arith, status, same), size ∙ ap length full);
        },
      )

  pub read_start :
      (es : List Entry) (size : ℕ)
      → All (IsEntry p) es
      → length es ≤ options.maximum_records
      → length es ≤ 2 ^ 40
      → (r : LogReadResult) × (read_log p (settled (take size (log_bytes created es))) options
          ≡ some r)
        × ReadsCut es size r
  read_start es size v m k = elim (le_cases size file_header_size (entries_size es)) [
    | inl short ↦
        let (r, ran, corrupt, none_read) =
          short_header p options (take size (log_bytes created es))
            (omega (arith, short, (length-take_le size (log_bytes created es)).0)) in
        (
          r,
          ran,
          record {
            records = rw none_read refl;
            held = λ j le fits. elim fits [
              | inl z ↦ omega (arith, z)
              | inr fits ↦ absurd (omega (arith, fits, short))
            ];
            undamaged = inr (inr (short, corrupt));
            complete_if_whole = λ all. absurd (omega (arith, all, short));
          },
        )
    | inr (inl (n, same, le)) ↦
        subst
          (λ i.
            (r : LogReadResult) × (read_log p (settled (take i (log_bytes created es))) options
              ≡ some r)
            × ReadsCut es i r)
          (sym same) (read_behind es n v m k le)
    | inr (inr above) ↦
        let (r, ran, back) = read_behind es (entries_size es) v m k (omega arith) in
        let whole_log : take (file_header_size + entries_size es) (log_bytes created es)
            ≡ take size (log_bytes created es) =
          take-all _ _ (omega (arith, length-log_bytes created es))
          ∙ sym (take-all _ _ (omega (arith, above, length-log_bytes created es))) in
        (
          r,
          subst (λ bytes. read_log p (settled bytes) options ≡ some r) whole_log ran,
          record {
            records = back.records;
            held = λ j le fits. back.held j le (inr (omega (arith, entries_size-take j es)));
            undamaged = elim back.undamaged [
              | inl done ↦ inl done
              | inr (inl cut) ↦ inr (inl cut)
              | inr (inr short) ↦ absurd (omega (arith, short.0))
            ];
            complete_if_whole = λ all. back.complete_if_whole (omega arith);
          },
        )
  ]
