-- ===== src/Common/Map.antt =====
-- `std::map`, as the list of its entries in the order of the keys, and a loop that updates the entry of each
-- element's key.
use Prim.Native.Nat.{ℕ, suc, ◌+◌, ◌≤◌, ◌<◌}
use mathlib.Core.Path.{◌≡◌, refl, sym, ap, ◌∙◌, subst}
use mathlib.Core.Logic.{◌⊎◌, inl, inr}
use mathlib.Core.Bool.{Bool, true, false, ◌||◌}
use mathlib.Core.List.{List, [], ◌∷◌}
use mathlib.Core.Option.{Option, none, some}
use native.Mathlib.Omega.{arith}
use trace_forge.Common.Lists.{length}
use trace_forge.Common.Sort.{bytes_lt}
use trace_forge.Common.Tests.{if◌then◌else◌, Bool-cases}

-- A strict total order as `std::less` gives it.
pub record IsOrder {K : Type 0} (before : K → K → Bool) : Type 0 where
  pub irrefl : (a : K) → before a a ≡ false
  pub trans : (a b c : K) → before a b ≡ true → before b c ≡ true → before a c ≡ true
  pub total : (a b : K) → before a b ≡ false → before b a ≡ false → a ≡ b

module _ {K : Type 0} (before : K → K → Bool) {V : Type 0} where
  -- `map[key]`, which is `fresh` where the key is new, changed by `f`.
  abbrev pub update : K → V → (V → V) → List (K × V) → List (K × V)
  update key fresh f [] = (key, f fresh) ∷ []
  update key fresh f ((k, v) ∷ rest) =
      let later = update key fresh f rest in
      if before key k
      then (key, f fresh) ∷ (k, v) ∷ rest
      else if before k key
      then (k, v) ∷ later
      else (k, f v) ∷ rest

  abbrev pub find : K → List (K × V) → Option V
  find key [] = none
  find key ((k, v) ∷ rest) =
      let later = find key rest in if before key k || before k key then later else some v

  abbrev pub Above : K → List (K × V) → Type 0
  Above k [] = Unit
  Above k ((k', v) ∷ rest) = (before k k' ≡ true) × Above k rest

  abbrev pub Ascending : List (K × V) → Type 0
  Ascending [] = Unit
  Ascending ((k, v) ∷ rest) = Above k rest × Ascending rest

  abbrev pub value_or : V → Option V → V
  value_or fresh none = fresh
  value_or fresh (some v) = v

  Above-trans :
      (order : IsOrder before) (a b : K) (m : List (K × V))
      → before a b ≡ true
      → Above b m
      → Above a m
  Above-trans order a b [] h above = tt
  Above-trans order a b ((k, v) ∷ rest) h (first, above) =
      (order.trans a b k h first, Above-trans order a b rest h above)

  find-Above : (key : K) (m : List (K × V)) → Above key m → find key m ≡ none
  find-Above key [] h = refl
  find-Above key ((k, v) ∷ rest) (first, h) = ground (arith, first, find-Above key rest h)

  Above-update :
      (a key : K) (fresh : V) (f : V → V) (m : List (K × V))
      → before a key ≡ true
      → Above a m
      → Above a (update key fresh f m)
  Above-update a key fresh f [] h above = (h, tt)
  Above-update a key fresh f ((k, v) ∷ rest) h (first, above) = elim (Bool-cases (before key k)) [
    | inl e ↦ rw e (h, (first, above))
    | inr e ↦ elim (Bool-cases (before k key)) [
      | inl e' ↦ rw (e, e') (first, Above-update a key fresh f rest h above)
      | inr e' ↦ rw (e, e') (first, above)
    ]
  ]

  pub update-Ascending :
      (order : IsOrder before) (key : K) (fresh : V) (f : V → V) (m : List (K × V))
      → Ascending m
      → Ascending (update key fresh f m)
  update-Ascending order key fresh f [] h = (tt, tt)
  update-Ascending order key fresh f ((k, v) ∷ rest) (above, h) = elim (Bool-cases (before key k)) [
    | inl e ↦ rw e ((e, Above-trans order key k rest e above), (above, h))
    | inr e ↦ elim (Bool-cases (before k key)) [
      | inl e' ↦
          rw (e, e')
            (Above-update k key fresh f rest e' above, update-Ascending order key fresh f rest h)
      | inr e' ↦ rw (e, e') (above, h)
    ]
  ]

  pub find-update :
      (order : IsOrder before) (key : K) (fresh : V) (f : V → V) (m : List (K × V))
      → Ascending m
      → find key (update key fresh f m) ≡ some (f (value_or fresh (find key m)))
  find-update order key fresh f [] h = rw (order.irrefl key) refl
  find-update order key fresh f ((k, v) ∷ rest) (above, h) = elim (Bool-cases (before key k)) [
    | inl e ↦
        let absent = find-Above key rest (Above-trans order key k rest e above) in
        rw (e, order.irrefl key, absent) refl
    | inr e ↦ elim (Bool-cases (before k key)) [
      | inl e' ↦ rw (e, e') (rw (e, e') (find-update order key fresh f rest h))
      | inr e' ↦ rw (e, e') (rw (e, e') refl)
    ]
  ]

  pub find-update_other :
      (order : IsOrder before) (key other : K) (fresh : V) (f : V → V) (m : List (K × V))
      → before other key || before key other ≡ true
      → find other (update key fresh f m) ≡ find other m
  find-update_other order key other fresh f [] h = rw h refl
  find-update_other order key other fresh f ((k, v) ∷ rest) h = elim (Bool-cases (before key k)) [
    | inl e ↦ rw e (rw h refl)
    | inr e ↦ elim (Bool-cases (before k key)) [
      | inl e' ↦ rw (e, e') (ground (arith, find-update_other order key other fresh f rest h))
      | inr e' ↦
          let same : key ≡ k = order.total key k e e' in
          let skips : before other k || before k other ≡ true =
            subst (λ c. before other c || before c other ≡ true) same h in
          rw (e, e') (rw skips refl)
    ]
  ]

module _ {K : Type 0} (before : K → K → Bool) {E V : Type 0} (key : E → K) (fresh : V)
    (step : E → V → V) where
  abbrev pub tally : List (K × V) → List E → List (K × V)
  tally m [] = m
  tally m (e ∷ es) = tally (update before (key e) fresh (step e) m) es

  -- The elements of a key, in their order.
  abbrev pub of_key : K → List E → List E
  of_key k [] = []
  of_key k (e ∷ es) =
      let rest = of_key k es in if before k (key e) || before (key e) k then rest else e ∷ rest

  -- The updates of one entry, if there are any.
  abbrev pub run : Option V → List E → Option V
  run o [] = o
  run o (e ∷ es) = run (some (step e (value_or before fresh o))) es

  pub tally-Ascending :
      (order : IsOrder before) (m : List (K × V)) (es : List E)
      → Ascending before m
      → Ascending before (tally m es)
  tally-Ascending order m [] h = h
  tally-Ascending order m (e ∷ es) h =
      tally-Ascending order (update before (key e) fresh (step e) m) es
        (update-Ascending before order (key e) fresh (step e) m h)

  -- Each entry is what its own elements make of it.
  pub find-tally :
      (order : IsOrder before) (k : K) (m : List (K × V)) (es : List E)
      → Ascending before m
      → find before k (tally m es) ≡ run (find before k m) (of_key k es)
  find-tally order k m [] h = refl
  find-tally order k m (e ∷ es) h =
      let rest =
        find-tally order k (update before (key e) fresh (step e) m) es
          (update-Ascending before order (key e) fresh (step e) m h) in
      elim (Bool-cases (before k (key e) || before (key e) k)) [
        | inl other ↦ rw other (
            rest
            ∙ ap (λ o. run o (of_key k es))
                (find-update_other before order (key e) k fresh (step e) m other))
        | inr same ↦
            let equal : key e ≡ k =
              order.total (key e) k (ground (arith, same)) (ground (arith, same)) in
            let found : find before k (update before (key e) fresh (step e) m)
                ≡ some (step e (value_or before fresh (find before k m))) =
              subst
                (λ c.
                  find before c (update before (key e) fresh (step e) m)
                  ≡ some (step e (value_or before fresh (find before c m))))
                equal (find-update before order (key e) fresh (step e) m h) in
            rw same (rest ∙ ap (λ o. run o (of_key k es)) found)
      ]

module _ {K : Type 0} (before : K → K → Bool) {V : Type 0} (size : V → ℕ) where
  abbrev pub total_size : List (K × V) → ℕ
  total_size [] = 0
  total_size ((k, v) ∷ rest) = size v + total_size rest

  pub total_size-update :
      (bound : ℕ) (key : K) (fresh : V) (f : V → V) (m : List (K × V))
      → size fresh ≡ 0
      → ((v : V) → size v < bound → size (f v) ≡ suc (size v))
      → total_size m < bound
      → total_size (update before key fresh f m) ≡ suc (total_size m)
  total_size-update bound key fresh f [] z s b = omega (arith, z, s fresh (omega (arith, z, b)))
  total_size-update bound key fresh f ((k, v) ∷ rest) z s b =
      let later = total_size-update bound key fresh f rest z s (omega (arith, b)) in
      elim (Bool-cases (before key k)) [
        | inl e ↦ rw e (omega (arith, z, s fresh (omega (arith, z, b))))
        | inr e ↦ elim (Bool-cases (before k key)) [
          | inl e' ↦ rw (e, e') (omega (arith, later))
          | inr e' ↦ rw (e, e') (omega (arith, s v (omega (arith, b))))
        ]
      ]

module _ {K : Type 0} (before : K → K → Bool) {E V : Type 0} (key : E → K) (fresh : V)
    (step : E → V → V) (size : V → ℕ) where
  -- Nothing is counted twice or left out, while the counters do not wrap.
  pub total_size-tally :
      (bound : ℕ) (m : List (K × V)) (es : List E)
      → size fresh ≡ 0
      → ((e : E) (v : V) → size v < bound → size (step e v) ≡ suc (size v))
      → length es + total_size before size m ≤ bound
      → total_size before size (tally before key fresh step m es)
        ≡ length es + total_size before size m
  total_size-tally bound m [] z s b = omega arith
  total_size-tally bound m (e ∷ es) z s b =
      let one =
        total_size-update before size bound (key e) fresh (step e) m z (s e) (omega (arith, b)) in
      omega (
        arith,
        one,
        total_size-tally bound (update before (key e) fresh (step e) m) es z s
            (omega (arith, one, b)),
      )

-- `std::pair` and `std::tuple` compare one component after the other.
abbrev pub lex : {A B : Type 0} → (A → A → Bool) → (B → B → Bool) → A × B → A × B → Bool
lex before₁ before₂ (a, b) (a', b') =
    if before₁ a a' then true else if before₁ a' a then false else before₂ b b'

module _ {A B : Type 0} (before₁ : A → A → Bool) (before₂ : B → B → Bool) where
  lex-cases :
      (order₁ : IsOrder before₁) (x y : A × B)
      → lex before₁ before₂ x y ≡ true
      → (before₁ x.0 y.0 ≡ true) ⊎ ((x.0 ≡ y.0) × (before₂ x.1 y.1 ≡ true))
  lex-cases order₁ (a, b) (a', b') h = elim (Bool-cases (before₁ a a')) [
    | inl e ↦ inl e
    | inr e ↦ elim (Bool-cases (before₁ a' a)) [
      | inl e' ↦ absurd (ground (arith, e, e', h))
      | inr e' ↦ inr (order₁.total a a' e e', ground (arith, e, e', h))
    ]
  ]

  lex-second :
      (order₁ : IsOrder before₁) (x y : A × B)
      → x.0 ≡ y.0
      → before₂ x.1 y.1 ≡ true
      → lex before₁ before₂ x y ≡ true
  lex-second order₁ (a, b) (a', b') same h =
      subst (λ c. lex before₁ before₂ (a, b) (c, b') ≡ true) same (rw (order₁.irrefl a, h) refl)

  lex_trans :
      (order₁ : IsOrder before₁) (order₂ : IsOrder before₂) (x y z : A × B)
      → lex before₁ before₂ x y ≡ true
      → lex before₁ before₂ y z ≡ true
      → lex before₁ before₂ x z ≡ true
  lex_trans order₁ order₂ (a, b) (a', b') (a₂, b₂) h h' =
      elim (lex-cases order₁ (a, b) (a', b') h) [
        | inl p ↦ elim (lex-cases order₁ (a', b') (a₂, b₂) h') [
          | inl q ↦ rw (order₁.trans a a' a₂ p q) refl
          | inr (same, q) ↦ rw (subst (λ c. before₁ a c ≡ true) same p) refl
        ]
        | inr (same, p) ↦ elim (lex-cases order₁ (a', b') (a₂, b₂) h') [
          | inl q ↦ rw (subst (λ c. before₁ c a₂ ≡ true) (sym same) q) refl
          | inr (same', q) ↦
              lex-second order₁ (a, b) (a₂, b₂) (same ∙ same') (order₂.trans b b' b₂ p q)
        ]
      ]

  lex-total :
      (order₁ : IsOrder before₁) (order₂ : IsOrder before₂) (x y : A × B)
      → lex before₁ before₂ x y ≡ false
      → lex before₁ before₂ y x ≡ false
      → x ≡ y
  lex-total order₁ order₂ (a, b) (a', b') h h' = elim (Bool-cases (before₁ a a')) [
    | inl e ↦ absurd (ground (arith, e, h))
    | inr e ↦ elim (Bool-cases (before₁ a' a)) [
      | inl e' ↦ absurd (ground (arith, e, e', h'))
      | inr e' ↦
          let second : b ≡ b' =
            order₂.total b b' (ground (arith, e, e', h)) (ground (arith, e, e', h')) in
          ap (λ a. (a, b)) (order₁.total a a' e e') ∙ ap (λ b. (a', b)) second
    ]
  ]

  pub lex-IsOrder : IsOrder before₁ → IsOrder before₂ → IsOrder (lex before₁ before₂)
  lex-IsOrder order₁ order₂ = record {
    irrefl = λ (a, b). rw (order₁.irrefl a, order₂.irrefl b) refl;
    trans = lex_trans order₁ order₂;
    total = lex-total order₁ order₂;
  }

bytes_lt_trans :
    (xs ys zs : List ℕ) → bytes_lt xs ys ≡ true → bytes_lt ys zs ≡ true → bytes_lt xs zs ≡ true
bytes_lt_trans xs [] [] h h' = absurd (ground (arith, h'))
bytes_lt_trans [] [] (z ∷ zs) h h' = refl
bytes_lt_trans (x ∷ xs) [] (z ∷ zs) h h' = absurd (ground (arith, h))
bytes_lt_trans xs (y ∷ ys) [] h h' = absurd (ground (arith, h'))
bytes_lt_trans [] (y ∷ ys) (z ∷ zs) h h' = refl
bytes_lt_trans (x ∷ xs) (y ∷ ys) (z ∷ zs) h h' = ground (arith, bytes_lt_trans xs ys zs)

bytes_lt-total : (xs ys : List ℕ) → bytes_lt xs ys ≡ false → bytes_lt ys xs ≡ false → xs ≡ ys
bytes_lt-total [] [] h h' = refl
bytes_lt-total [] (y ∷ ys) h h' = absurd (ground (arith, h))
bytes_lt-total (x ∷ xs) [] h h' = absurd (ground (arith, h'))
bytes_lt-total (x ∷ xs) (y ∷ ys) h h' =
    let first : x ≡ y = ground (arith, h, h') in
    let rest : xs ≡ ys =
      bytes_lt-total xs ys (ground (arith, first, h)) (ground (arith, first, h')) in
    ap (λ z. z ∷ xs) first ∙ ap (◌∷◌ y) rest

bytes_lt_irrefl : (xs : List ℕ) → bytes_lt xs xs ≡ false
bytes_lt_irrefl [] = refl
bytes_lt_irrefl (x ∷ xs) = ground (arith, bytes_lt_irrefl xs)

pub bytes_lt-IsOrder : IsOrder bytes_lt
bytes_lt-IsOrder = record {
  irrefl = bytes_lt_irrefl;
  trans = bytes_lt_trans;
  total = bytes_lt-total;
}
