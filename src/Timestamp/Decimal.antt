-- ===== src/Timestamp/Decimal.antt =====
-- Decimal numbers as printf writes them, for base/Timestamp.cpp.
use fasco.Base.{
  ℕ, zero, suc, ◌+◌, ◌-◌, ◌*◌, ◌/◌, ◌%◌, ◌^◌, ◌≤◌, ◌<◌, ◌≡◌, refl, ◌∙◌, List, [], ◌∷◌, ◌++◌, length,
  length-append, if◌then◌else◌, ltb, Bool-cases, inl, inr, arith, ap,
}
use native.Mathlib.Nat.{pow-suc}

-- The digits of a number; one round of the fuel for each digit.
unfoldable pub show_from : ℕ → ℕ → List ℕ
show_from zero n = []
show_from (suc fuel) n =
    let rest = show_from fuel (n / 10) in
    if ltb n 10 then (48 + n) ∷ [] else rest ++ (48 + n % 10) ∷ []

abbrev pub show : ℕ → List ℕ
show n = show_from (suc n) n

-- Every character is one of '0' to '9'.
abbrev pub AllDigits : List ℕ → Type 0
AllDigits [] = Unit
AllDigits (c ∷ text) = (48 ≤ c) × (c < 58) × AllDigits text

pub append-AllDigits : (xs ys : List ℕ) → AllDigits xs → AllDigits ys → AllDigits (xs ++ ys)
append-AllDigits [] ys h g = g
append-AllDigits (c ∷ xs) ys (low, high, h) g = (low, high, append-AllDigits xs ys h g)

show_from-AllDigits : (fuel n : ℕ) → AllDigits (show_from fuel n)
unfolding show_from
show_from-AllDigits zero n = tt
show_from-AllDigits (suc fuel) n = elim (Bool-cases (ltb n 10)) [
  | inl last ↦ simp last (omega arith, ground arith, tt)
  | inr more ↦ simp more (
      append-AllDigits (show_from fuel (n / 10)) _ (show_from-AllDigits fuel (n / 10))
        (omega arith, omega arith, tt))
]

pub show-AllDigits : (n : ℕ) → AllDigits (show n)
show-AllDigits n = show_from-AllDigits (suc n) n

-- The number that a text of digits stands for, behind digits that were read already.
unfoldable pub read_from : ℕ → List ℕ → ℕ
read_from n [] = n
read_from n (c ∷ text) = read_from (n * 10 + (c - 48)) text

pub read_from-append :
    (n : ℕ) (xs ys : List ℕ) → read_from n (xs ++ ys) ≡ read_from (read_from n xs) ys
unfolding read_from
read_from-append n [] ys = refl
read_from-append n (c ∷ xs) ys = read_from-append (n * 10 + (c - 48)) xs ys

-- With more fuel than the number, every digit is written.
read-show_from : (fuel n : ℕ) → n < fuel → read_from 0 (show_from fuel n) ≡ n
unfolding show_from read_from
read-show_from zero n h = absurd (omega arith)
read-show_from (suc fuel) n h = elim (Bool-cases (ltb n 10)) [
  | inl last ↦ simp last (omega arith)
  | inr more ↦
      let big : 10 ≤ n = ground arith in
      let rest = show_from fuel (n / 10) in
      let ih : read_from 0 rest ≡ n / 10 = read-show_from fuel (n / 10) (omega arith) in
      simp more (
        read_from-append 0 rest ((48 + n % 10) ∷ [])
        ∙ ap (λ m. m * 10 + (48 + n % 10 - 48)) ih
        ∙ omega arith)
]

pub read-show : (n : ℕ) → read_from 0 (show n) ≡ n
read-show n = read-show_from (suc n) n (omega arith)

length-show_from-le : (fuel k n : ℕ) → n < 10 ^ suc k → length (show_from fuel n) ≤ suc k
unfolding show_from
length-show_from-le zero k n h = omega arith
length-show_from-le (suc fuel) k n h = elim (Bool-cases (ltb n 10)) [
  | inl last ↦ simp last (omega arith)
  | inr more ↦ simp more (longer k (λ j. length-show_from-le fuel j (n / 10)) (ground arith) h)
]
  where
    longer :
        (k : ℕ)
        → ((j : ℕ) → n / 10 < 10 ^ suc j → length (show_from fuel (n / 10)) ≤ suc j)
        → 10 ≤ n
        → n < 10 ^ suc k
        → length (show_from fuel (n / 10) ++ (48 + n % 10) ∷ []) ≤ suc k
    longer zero shorter big h = absurd (omega (arith, pow-suc 10 0))
    longer (suc k) shorter big h = omega (
      arith,
      length-append (show_from fuel (n / 10)) ((48 + n % 10) ∷ []),
      shorter k (omega (arith, pow-suc 10 (suc k))),
    )

-- A number below a power of ten has no more digits than that.
pub length-show-le : (k n : ℕ) → n < 10 ^ suc k → length (show n) ≤ suc k
length-show-le k n h = length-show_from-le (suc n) k n h
