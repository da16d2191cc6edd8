-- ===== src/App.antt =====
-- app/main.cpp: how it reads numbers and the values of options.
pub mod Generate
pub mod Collect
pub mod Commands
pub mod Replay
mod Tests
use native.Mathlib.Nat.{pow-suc}
use trace_forge.Common.{
  ℕ, zero, suc, ◌+◌, ◌-◌, ◌*◌, ◌≤◌, ◌<◌, ◌^◌, ◌≡◌, ◌↔◌, refl, sym, ap, ◌∙◌, arith, Bool, true,
  false, ◌&&◌, ◌||◌, ◌==◌, ltb, leb, if◌then◌else◌, Option, none, some, List, [], ◌∷◌, length,
  Bytes, All, u64_mod, u32_mod, Bool-cases, Option-cases, ==_iff, subst, ◌⊎◌, inl, inr,
}
use trace_forge.Common.Int.{ℤ, pos, negsuc}

abbrev pub is_digit : ℕ → Bool
is_digit c = leb 48 c && leb c 57

-- The digits at the front of a text, as the number that they make behind those before them, and what is left.
abbrev pub read_digits : ℕ → Bytes → ℕ × Bytes
read_digits value [] = (value, [])
read_digits value (c ∷ text) =
    let rest = read_digits (value * 10 + (c - 48)) text in
    if is_digit c then rest else (value, c ∷ text)

abbrev pub starts_with_digit : Bytes → Bool
starts_with_digit [] = false
starts_with_digit (c ∷ text) = is_digit c

abbrev pub is_empty : Bytes → Bool
is_empty [] = true
is_empty (c ∷ text) = false

-- `parse_integer` with `std::from_chars` on digits that make a number up to `largest`; `none` where it throws.
unfoldable pub parse_digits : ℕ → Bytes → Option ℕ
parse_digits largest text =
    let (value, rest) = read_digits 0 text in
    if starts_with_digit text && is_empty rest && leb value largest then some value else none

abbrev pub parse_u64 : Bytes → Option ℕ
parse_u64 text = parse_digits (u64_mod - 1) text

abbrev pub negate : ℕ → ℤ
negate zero = pos 0
negate (suc n) = negsuc n

-- A minus sign may stand in front of an int64_t.
unfoldable pub parse_i64 : Bytes → Option ℤ
parse_i64 [] = none
parse_i64 (c ∷ text) =
    if c == 45
    then elim (parse_digits (2 ^ 63) text) [ none ↦ none | some n ↦ some (negate n) ]
    else elim (parse_digits (2 ^ 63 - 1) (c ∷ text)) [ none ↦ none | some n ↦ some (pos n) ]

unfoldable pub parse_probability : Bytes → Option ℕ
parse_probability text = elim (parse_u64 text) [
  | none ↦ none
  | some n ↦ if ltb (u32_mod - 1) n then none else some n
]

-- What the loop over the options ends with: the help text, an exception or the options.
pub data Parsed (A : Type 0) : Type 0 where
  help usage_error : Parsed A
  parsed : A → Parsed A

-- The value that a row of digits has by their places.
abbrev pub place_value : Bytes → ℕ
place_value [] = 0
place_value (c ∷ text) = (c - 48) * 10 ^ length text + place_value text

abbrev pub AllDigits : Bytes → Type 0
AllDigits text = All (λ c. is_digit c ≡ true) text

read_digits-place_value :
    (value : ℕ) (text : Bytes)
    → AllDigits text
    → read_digits value text ≡ (value * 10 ^ length text + place_value text, [])
read_digits-place_value value [] h = ap (λ (v : ℕ). (v, [])) (omega arith)
read_digits-place_value value (c ∷ text) (h, hs) =
    let ten : 10 ^ suc (length text) ≡ 10 ^ length text * 10 = pow-suc 10 (length text) in
    let same : (value * 10 + (c - 48)) * 10 ^ length text + place_value text
        ≡ value * 10 ^ suc (length text) + ((c - 48) * 10 ^ length text + place_value text) =
      omega (arith, ap (λ (w : ℕ). value * w) ten) in
    rw h (read_digits-place_value (value * 10 + (c - 48)) text hs ∙ ap (λ (v : ℕ). (v, [])) same)

read_digits-AllDigits :
    (value : ℕ) (text : Bytes) → is_empty (read_digits value text).1 ≡ true → AllDigits text
read_digits-AllDigits value [] h = tt
read_digits-AllDigits value (c ∷ text) h = elim (Bool-cases (is_digit c)) [
  | inl e ↦ (e, read_digits-AllDigits (value * 10 + (c - 48)) text (ground (arith, h, e)))
  | inr e ↦ absurd (ground (arith, h, e))
]

parse_digits-some :
    (largest n : ℕ) (text : Bytes)
    → parse_digits largest text ≡ some n
    → (starts_with_digit text ≡ true)
      × (is_empty (read_digits 0 text).1 ≡ true)
      × ((read_digits 0 text).0 ≡ n)
      × (n ≤ largest)
unfolding parse_digits
parse_digits-some largest n text h = ground (arith, h)

starts_with_digit-length : (text : Bytes) → starts_with_digit text ≡ true → 0 < length text
starts_with_digit-length [] h = absurd (ground (arith, h))
starts_with_digit-length (c ∷ text) h = omega arith

AllDigits-starts : (text : Bytes) → AllDigits text → 0 < length text → starts_with_digit text ≡ true
AllDigits-starts [] h p = absurd (omega (arith, p))
AllDigits-starts (c ∷ text) (h, hs) p = h

parse_digits_iff :
    (largest n : ℕ) (text : Bytes)
    → (parse_digits largest text ≡ some n)
      ↔ (AllDigits text × (0 < length text) × (place_value text ≡ n) × (n ≤ largest))
unfolding parse_digits
parse_digits_iff largest n text = (
  λ h.
      let (starts, ends, value, small) = parse_digits-some largest n text h in
      let all = read_digits-AllDigits 0 text ends in
      let read = read_digits-place_value 0 text all in
      (
        all,
        starts_with_digit-length text starts,
        omega (arith, value, ap (λ (r : ℕ × Bytes). r.0) read),
        small,
      ),
  λ (all, long, value, small).
      let read : read_digits 0 text ≡ (n, []) =
        read_digits-place_value 0 text all ∙ ap (λ (v : ℕ). (v, [])) (omega (arith, value)) in
      let starts = AllDigits-starts text all long in rw (read, starts) (ground (arith, small)),
)

-- For uint64_t, `parse_integer` takes a text as a number if and only if the text is not empty,
-- holds digits only, and the value of the digits by their places is that number and below 2 ^ 64;
-- on every other text it throws.
pub parse_u64_iff :
    (n : ℕ) (text : Bytes)
    → (parse_u64 text ≡ some n)
      ↔ (AllDigits text × (0 < length text) × (place_value text ≡ n) × (n < 2 ^ 64))
parse_u64_iff n text =
    let (there, back) = parse_digits_iff (u64_mod - 1) n text in
    (
      λ h. let (all, long, value, small) = there h in (all, long, value, omega (arith, small)),
      λ (all, long, value, small). back (all, long, value, omega (arith, small)),
    )

-- A number in digits, or a minus sign and a number in digits.
abbrev pub SpellsI64 : Bytes → ℤ → Type 0
SpellsI64 text z =
    (AllDigits text
      × (0 < length text)
      × (z ≡ pos (place_value text))
      × (place_value text < 2 ^ 63))
    ⊎ ((digits : Bytes) × (text ≡ 45 ∷ digits)
        × AllDigits digits
        × (0 < length digits)
        × (z ≡ negate (place_value digits))
        × (place_value digits ≤ 2 ^ 63))

parse_i64-SpellsI64 : (z : ℤ) (text : Bytes) → parse_i64 text ≡ some z → SpellsI64 text z
unfolding parse_i64
parse_i64-SpellsI64 z [] h = absurd (ground (arith, h))
parse_i64-SpellsI64 z (c ∷ text) h = elim (Bool-cases (c == 45)) [
  | inl minus ↦ elim (Option-cases (parse_digits (2 ^ 63) text)) [
    | inl e ↦ absurd (ground (arith, h, minus, e))
    | inr (n, e) ↦
        let (all, long, value, small) = (parse_digits_iff (2 ^ 63) n text).0 e in
        let is_z : z ≡ negate n = ground (arith, h, minus, e) in
        inr (
          text,
          ap (λ (b : ℕ). b ∷ text) ((==_iff c 45).0 minus),
          all,
          long,
          is_z ∙ ap negate (sym value),
          omega (arith, value, small),
        )
  ]
  | inr plain ↦ elim (Option-cases (parse_digits (2 ^ 63 - 1) (c ∷ text))) [
    | inl e ↦ absurd (ground (arith, h, plain, e))
    | inr (n, e) ↦
        let (all, long, value, small) = (parse_digits_iff (2 ^ 63 - 1) n (c ∷ text)).0 e in
        let is_z : z ≡ pos n = ground (arith, h, plain, e) in
        inl (all, long, is_z ∙ ap pos (sym value), omega (arith, value, small))
  ]
]

SpellsI64-parse_i64 : (z : ℤ) (text : Bytes) → SpellsI64 text z → parse_i64 text ≡ some z
unfolding parse_i64
SpellsI64-parse_i64 z [] (inl (all, long, value, small)) = absurd (omega (arith, long))
SpellsI64-parse_i64 z (c ∷ text) (inl (all, long, value, small)) =
    let plain : (c == 45) ≡ false = ground (arith, all.0) in
    let read =
      (parse_digits_iff (2 ^ 63 - 1) (place_value (c ∷ text)) (c ∷ text)).1
        (all, long, refl, omega (arith, small)) in
    rw (plain, read) (ap some (sym value))
SpellsI64-parse_i64 z text (inr (digits, spelled, all, long, value, small)) =
    let read = (parse_digits_iff (2 ^ 63) (place_value digits) digits).1 (all, long, refl, small) in
    subst (λ t. parse_i64 t ≡ some z) (sym spelled) (rw (read, parse_i64) (ap some (sym value)))

-- For int64_t, `parse_integer` takes a text as a number if and only if the text is at least one
-- digit whose value by their places is that number and below 2 ^ 63, or a minus sign and at least
-- one digit of a value up to 2 ^ 63 of which the number is the negative; on every other text it
-- throws.
pub parse_i64_iff : (z : ℤ) (text : Bytes) → (parse_i64 text ≡ some z) ↔ SpellsI64 text z
parse_i64_iff z text = (parse_i64-SpellsI64 z text, SpellsI64-parse_i64 z text)
