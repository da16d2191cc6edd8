-- ===== src/Replay/Index.antt =====
-- The sorted index, and the part of it that a replay goes through.
use mathlib.Core.List.{Perm}
use mathlib.Core.List.Perm
use trace_forge.Common.{
  ◌≤◌, ◌≡◌, ◌⊎◌, inl, inr, refl, arith, Bool, true, false, not, ◌&&◌, if◌then◌else◌, List, [], ◌∷◌,
  Bool-cases, Option, none, some,
}
use trace_forge.Common.Int.{ℤ, ltb_ℤ, ◌≤ℤ◌, ◌<ℤ◌}
use trace_forge.Recording.{LogIndexEntry}
use trace_forge.Replay.{precedes, insert_entry, sort_index, lower_bound, start_at, is_until}
use trace_forge.Replay.Window.{before}

-- The order by time of arrival, then by number.
abbrev pub Le : LogIndexEntry → LogIndexEntry → Type 0
Le a b =
    (a.collector_arrival_timestamp_ns <ℤ b.collector_arrival_timestamp_ns)
    ⊎ (a.collector_arrival_timestamp_ns ≤ℤ b.collector_arrival_timestamp_ns)
      × (a.record_index ≤ b.record_index)

abbrev pub AllFrom : LogIndexEntry → List LogIndexEntry → Type 0
AllFrom a [] = Unit
AllFrom a (b ∷ rest) = Le a b × AllFrom a rest

abbrev pub IsSorted : List LogIndexEntry → Type 0
IsSorted [] = Unit
IsSorted (a ∷ rest) = AllFrom a rest × IsSorted rest

Le-trans : (a b c : LogIndexEntry) → Le a b → Le b c → Le a c
Le-trans a b c p q = ground arith

precedes-Le : (a b : LogIndexEntry) → precedes a b ≡ true → Le a b
precedes-Le a b h = ground arith

precedes-Le_rev : (a b : LogIndexEntry) → precedes a b ≡ false → Le b a
precedes-Le_rev a b h = ground arith

AllFrom-trans :
    (a b : LogIndexEntry) (rest : List LogIndexEntry) → Le a b → AllFrom b rest → AllFrom a rest
AllFrom-trans a b [] p q = tt
AllFrom-trans a b (c ∷ rest) p q = (Le-trans a b c p q.0, AllFrom-trans a b rest p q.1)

AllFrom-insert :
    (a b : LogIndexEntry) (rest : List LogIndexEntry)
    → Le a b
    → AllFrom a rest
    → AllFrom a (insert_entry b rest)
AllFrom-insert a b [] p q = (p, tt)
AllFrom-insert a b (c ∷ rest) p q = elim (Bool-cases (precedes c b)) [
  | inl e ↦ rw e (q.0, AllFrom-insert a b rest p q.1)
  | inr e ↦ rw e (p, q)
]

insert-IsSorted :
    (a : LogIndexEntry) (rest : List LogIndexEntry) → IsSorted rest → IsSorted (insert_entry a rest)
insert-IsSorted a [] s = (tt, tt)
insert-IsSorted a (b ∷ rest) s = elim (Bool-cases (precedes b a)) [
  | inl e ↦ rw e (AllFrom-insert b a rest (precedes-Le b a e) s.0, insert-IsSorted a rest s.1)
  | inr e ↦ let le = precedes-Le_rev b a e in rw e ((le, AllFrom-trans a b rest le s.0), s)
]

insert-Perm :
    (a : LogIndexEntry) (rest : List LogIndexEntry) → Perm (insert_entry a rest) (a ∷ rest)
insert-Perm a [] = Perm.refl (a ∷ [])
insert-Perm a (b ∷ rest) = elim (Bool-cases (precedes b a)) [
  | inl e ↦ rw e (Perm.trans (Perm.cons b (insert-Perm a rest)) (Perm.swap a b rest))
  | inr e ↦ rw e (Perm.refl (a ∷ b ∷ rest))
]

pub sort-IsSorted : (index : List LogIndexEntry) → IsSorted (sort_index index)
sort-IsSorted [] = tt
sort-IsSorted (a ∷ rest) = insert-IsSorted a (sort_index rest) (sort-IsSorted rest)

pub sort-Perm : (index : List LogIndexEntry) → Perm (sort_index index) index
sort-Perm [] = Perm.refl []
sort-Perm (a ∷ rest) = Perm.trans (insert-Perm a (sort_index rest)) (Perm.cons a (sort-Perm rest))

-- Whether an entry is in the window of the options.
abbrev pub is_from : Option ℤ → LogIndexEntry → Bool
is_from none entry = true
is_from (some from) entry = not (ltb_ℤ entry.collector_arrival_timestamp_ns from)

abbrev pub in_window : Option ℤ → Option ℤ → LogIndexEntry → Bool
in_window from until entry =
    is_from from entry && not (is_until until entry.collector_arrival_timestamp_ns)

abbrev pub select : (LogIndexEntry → Bool) → List LogIndexEntry → List LogIndexEntry
select f [] = []
select f (entry ∷ rest) = if f entry then entry ∷ select f rest else select f rest

is_from-Le :
    (from : ℤ) (a b : LogIndexEntry)
    → Le a b
    → is_from (some from) a ≡ true
    → is_from (some from) b ≡ true
is_from-Le from a b p h = ground arith

is_until-Le :
    (until : Option ℤ) (a b : LogIndexEntry)
    → Le a b
    → is_until until a.collector_arrival_timestamp_ns ≡ true
    → is_until until b.collector_arrival_timestamp_ns ≡ true
is_until-Le none a b p h = h
is_until-Le (some until) a b p h = ground arith

select_none :
    (from until : Option ℤ) (a : LogIndexEntry) (rest : List LogIndexEntry)
    → AllFrom a rest
    → is_until until a.collector_arrival_timestamp_ns ≡ true
    → select (in_window from until) rest ≡ []
select_none from until a [] p h = refl
select_none from until a (b ∷ rest) p h =
    ground (arith, is_until-Le until a b p.0 h, select_none from until a rest p.1 h)

-- Behind an entry that is late enough, all are.
select-before :
    (from : ℤ) (until : Option ℤ) (a : LogIndexEntry) (rest : List LogIndexEntry)
    → AllFrom a rest
    → IsSorted rest
    → is_from (some from) a ≡ true
    → before until rest ≡ select (in_window (some from) until) rest
select-before from until a [] p s h = refl
select-before from until a (b ∷ rest) p s h =
    elim (Bool-cases (is_until until b.collector_arrival_timestamp_ns)) [
      | inl e ↦ ground (arith, select_none (some from) until b rest s.0 e)
      | inr e ↦ ground (arith, is_from-Le from a b p.0 h, select-before from until a rest p.1 s.1 h)
    ]

before-select :
    (until : Option ℤ) (index : List LogIndexEntry)
    → IsSorted index
    → before until index ≡ select (in_window none until) index
before-select until [] s = refl
before-select until (b ∷ rest) s =
    elim (Bool-cases (is_until until b.collector_arrival_timestamp_ns)) [
      | inl e ↦ ground (arith, select_none none until b rest s.0 e)
      | inr e ↦ ground (arith, before-select until rest s.1)
    ]

lower_bound-select :
    (from : ℤ) (until : Option ℤ) (index : List LogIndexEntry)
    → IsSorted index
    → before until (lower_bound index from) ≡ select (in_window (some from) until) index
lower_bound-select from until [] s = refl
lower_bound-select from until (b ∷ rest) s =
    elim (Bool-cases (ltb_ℤ b.collector_arrival_timestamp_ns from)) [
      | inl e ↦ rw e (lower_bound-select from until rest s.1)
      | inr e ↦ elim (Bool-cases (is_until until b.collector_arrival_timestamp_ns)) [
        | inl u ↦ ground (arith, select_none (some from) until b rest s.0 u)
        | inr u ↦ ground (arith, select-before from until b rest s.0 s.1 (ground arith))
      ]
    ]

pub before-start_at :
    (from until : Option ℤ) (index : List LogIndexEntry)
    → IsSorted index
    → before until (start_at index from) ≡ select (in_window from until) index
before-start_at none until index s = before-select until index s
before-start_at (some from) until index s = lower_bound-select from until index s
