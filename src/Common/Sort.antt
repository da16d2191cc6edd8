-- ===== src/Common/Sort.antt =====
-- `std::sort`, as an insertion sort by the comparison of the call, and the order of byte strings.
use Prim.Native.Nat.{ℕ, suc}
use mathlib.Core.Path.{◌≡◌, refl, ap, ◌∙◌, subst}
use mathlib.Core.Logic.{inl, inr}
use mathlib.Core.Bool.{Bool, true, false}
use native.Mathlib.Omega.{arith}
use mathlib.Core.List.{List, [], ◌∷◌, Perm}
use mathlib.Core.List.Perm
use trace_forge.Common.Lists.{length, All}
use trace_forge.Common.Tests.{ltb, ◌==◌, if◌then◌else◌, Bool-cases}

-- `std::string` compares as memory does.
abbrev pub bytes_lt : List ℕ → List ℕ → Bool
bytes_lt [] [] = false
bytes_lt [] (y ∷ ys) = true
bytes_lt (x ∷ xs) [] = false
bytes_lt (x ∷ xs) (y ∷ ys) = let rest = bytes_lt xs ys in if x == y then rest else ltb x y

pub bytes_lt-asym : (xs ys : List ℕ) → bytes_lt xs ys ≡ true → bytes_lt ys xs ≡ false
bytes_lt-asym [] [] h = refl
bytes_lt-asym [] (y ∷ ys) h = refl
bytes_lt-asym (x ∷ xs) [] h = absurd (ground (arith, h))
bytes_lt-asym (x ∷ xs) (y ∷ ys) h = ground (arith, bytes_lt-asym xs ys)

module _ {A : Type 0} (before : A → A → Bool) where
  abbrev pub insert_by : A → List A → List A
  insert_by a [] = a ∷ []
  insert_by a (b ∷ rest) =
      let inserted = insert_by a rest in if before b a then b ∷ inserted else a ∷ b ∷ rest

  abbrev pub sort_by : List A → List A
  sort_by [] = []
  sort_by (a ∷ rest) = insert_by a (sort_by rest)

  insert_by-Perm : (a : A) (rest : List A) → Perm (insert_by a rest) (a ∷ rest)
  insert_by-Perm a [] = Perm.refl (a ∷ [])
  insert_by-Perm a (b ∷ rest) = elim (Bool-cases (before b a)) [
    | inl e ↦ rw e (Perm.trans (Perm.cons b (insert_by-Perm a rest)) (Perm.swap a b rest))
    | inr e ↦ rw e (Perm.refl (a ∷ b ∷ rest))
  ]

  pub sort_by-Perm : (xs : List A) → Perm (sort_by xs) xs
  sort_by-Perm [] = Perm.refl []
  sort_by-Perm (a ∷ rest) =
      Perm.trans (insert_by-Perm a (sort_by rest)) (Perm.cons a (sort_by-Perm rest))

  insert_by-All :
      (P : A → Type 0) (a : A) (rest : List A) → P a → All P rest → All P (insert_by a rest)
  insert_by-All P a [] h hs = (h, tt)
  insert_by-All P a (b ∷ rest) h (hb, hs) = elim (Bool-cases (before b a)) [
    | inl e ↦ rw e (hb, insert_by-All P a rest h hs)
    | inr e ↦ rw e (h, (hb, hs))
  ]

  pub sort_by-All : (P : A → Type 0) (xs : List A) → All P xs → All P (sort_by xs)
  sort_by-All P [] h = tt
  sort_by-All P (a ∷ rest) (h, hs) = insert_by-All P a (sort_by rest) h (sort_by-All P rest hs)

  insert_by-length : (a : A) (rest : List A) → length (insert_by a rest) ≡ suc (length rest)
  insert_by-length a [] = refl
  insert_by-length a (b ∷ rest) = elim (Bool-cases (before b a)) [
    | inl e ↦ rw e (ap suc (insert_by-length a rest))
    | inr e ↦ rw e refl
  ]

  pub sort_by-length : (xs : List A) → length (sort_by xs) ≡ length xs
  sort_by-length [] = refl
  sort_by-length (a ∷ rest) = insert_by-length a (sort_by rest) ∙ ap suc (sort_by-length rest)

  -- No element comes before the one in front of it.
  abbrev pub Sorted : List A → Type 0
  Sorted [] = Unit
  Sorted (a ∷ []) = Unit
  Sorted (a ∷ b ∷ rest) = (before b a ≡ false) × Sorted (b ∷ rest)

  abbrev pub IsAsymmetric : Type 0
  IsAsymmetric = (a b : A) → before a b ≡ true → before b a ≡ false

  insert_by-Sorted :
      (a : A) (rest : List A) → IsAsymmetric → Sorted rest → Sorted (insert_by a rest)
  insert_by-Sorted a [] asym h = tt
  insert_by-Sorted a (b ∷ []) asym h = elim (Bool-cases (before b a)) [
    | inl e ↦ rw e (asym b a e, tt)
    | inr e ↦ rw e (e, tt)
  ]
  insert_by-Sorted a (b ∷ c ∷ rest) asym (hb, h) = elim (Bool-cases (before b a)) [
    | inl e ↦
        let later = insert_by-Sorted a (c ∷ rest) asym h in
        elim (Bool-cases (before c a)) [
          | inl e' ↦
              rw (e, e')
                (
                  hb,
                  subst (λ i. Sorted (if i then c ∷ insert_by a rest else a ∷ c ∷ rest)) e' later,
                )
          | inr e' ↦
              rw (e, e')
                (
                  asym b a e,
                  subst (λ i. Sorted (if i then c ∷ insert_by a rest else a ∷ c ∷ rest)) e' later,
                )
        ]
    | inr e ↦ rw e (e, (hb, h))
  ]

  pub sort_by-Sorted : (xs : List A) → IsAsymmetric → Sorted (sort_by xs)
  sort_by-Sorted [] asym = tt
  sort_by-Sorted (a ∷ rest) asym = insert_by-Sorted a (sort_by rest) asym (sort_by-Sorted rest asym)
