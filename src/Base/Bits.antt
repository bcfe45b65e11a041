-- ===== src/Base/Bits.antt =====
-- `uint32_t` masks: `|`, `&` and `~` on numbers below 2 ^ 32, read bit by bit. A law about masks is
-- a law about each bit, and two masks with the same bits are equal.
use Prim.Native.Nat.{ℕ, zero, suc, ◌+◌, ◌-◌, ◌*◌, ◌/◌, ◌%◌, ◌^◌, ◌≤◌, ◌<◌, min, max}
use Prim.Native.Nat.{bit_and, bit_or, digits, bit_and-bitwise, bit_or-bitwise}
use mathlib.Core.Path.{◌≡◌, refl, ap, sym, ◌∙◌}
use mathlib.Core.Logic.{◌≢◌}
use native.Mathlib.Nat.{le_refl, pow-suc}
use native.Mathlib.Decide.{ℕ_discrete}
use native.Mathlib.Omega.{arith}

-- The numbers of a `uint32_t`.
abbrev pub IsU32 : ℕ → Type 0
IsU32 a = a < 2 ^ 32

-- `~a` of a `uint32_t`.
unfoldable pub bit_not : ℕ → ℕ
bit_not a = 2 ^ 32 - 1 - a

-- Bit number `k`, 0 or 1.
unfoldable pub bit : ℕ → ℕ → ℕ
bit zero a = a % 2
bit (suc k) a = bit k (a / 2)

digits_of_zero : (z : ℕ → ℕ) (f : ℕ → ℕ → ℕ) (fuel y : ℕ) → digits z f fuel 0 y ≡ z y
digits_of_zero z f zero y = refl
digits_of_zero z f (suc fuel) y = refl

-- `digits` runs on fuel; fuel beyond the first argument is never used.
spare_fuel :
    (z : ℕ → ℕ) (f : ℕ → ℕ → ℕ) (need fuel x y : ℕ)
    → x ≤ need
    → need ≤ fuel
    → digits z f fuel x y ≡ digits z f need x y
spare_fuel z f need fuel zero y le more =
    digits_of_zero z f fuel y ∙ sym (digits_of_zero z f need y)
spare_fuel z f zero fuel (suc x) y le more = absurd (omega arith)
spare_fuel z f (suc need) zero (suc x) y le more = absurd (omega arith)
spare_fuel z f (suc need) (suc fuel) (suc x) y le more =
    ap (λ n. n * 2 + f (suc x % 2) (y % 2))
      (spare_fuel z f need fuel (suc x / 2) (y / 2) (omega arith) (omega arith))

-- So an operation on numbers is the operation on the lowest bits, and itself on the halves.
low_bit :
    (z : ℕ → ℕ) (f : ℕ → ℕ → ℕ) (x y : ℕ)
    → digits z f (suc x) (suc x) y
      ≡ digits z f (suc x / 2) (suc x / 2) (y / 2) * 2 + f (suc x % 2) (y % 2)
low_bit z f x y =
    ap (λ n. n * 2 + f (suc x % 2) (y % 2))
      (spare_fuel z f (suc x / 2) x (suc x / 2) (y / 2) (le_refl _) (omega arith))

-- The two operations, by their first argument: 0 keeps the other number, or nothing of it.
and_step : (x y : ℕ) → bit_and x y ≡ bit_and (x / 2) (y / 2) * 2 + min (x % 2) (y % 2)
and_step zero y = omega (arith, bit_and-bitwise 0 y, bit_and-bitwise 0 (y / 2))
and_step (suc x) y =
    bit_and-bitwise (suc x) y
    ∙ low_bit (λ _. 0) min x y
    ∙ ap (λ n. n * 2 + min (suc x % 2) (y % 2)) (sym (bit_and-bitwise (suc x / 2) (y / 2)))

or_step : (x y : ℕ) → bit_or x y ≡ bit_or (x / 2) (y / 2) * 2 + max (x % 2) (y % 2)
or_step zero y = omega (arith, bit_or-bitwise 0 y, bit_or-bitwise 0 (y / 2))
or_step (suc x) y =
    bit_or-bitwise (suc x) y
    ∙ low_bit (λ n. n) max x y
    ∙ ap (λ n. n * 2 + max (suc x % 2) (y % 2)) (sym (bit_or-bitwise (suc x / 2) (y / 2)))

pub bit-le-one : (k a : ℕ) → bit k a ≤ 1
unfolding bit
bit-le-one zero a = omega arith
bit-le-one (suc k) a = bit-le-one k (a / 2)

or_half : (a b : ℕ) → bit_or a b / 2 ≡ bit_or (a / 2) (b / 2)
or_half a b = omega (arith, or_step a b)

and_half : (a b : ℕ) → bit_and a b / 2 ≡ bit_and (a / 2) (b / 2)
and_half a b = omega (arith, and_step a b)

pub bit-or : (k a b : ℕ) → bit k (bit_or a b) ≡ max (bit k a) (bit k b)
unfolding bit
bit-or zero a b = omega (arith, or_step a b)
bit-or (suc k) a b = rw (or_half a b) (bit-or k (a / 2) (b / 2))

pub bit-and : (k a b : ℕ) → bit k (bit_and a b) ≡ min (bit k a) (bit k b)
unfolding bit
bit-and zero a b = omega (arith, and_step a b)
bit-and (suc k) a b = rw (and_half a b) (bit-and k (a / 2) (b / 2))

-- The complement within `n` bits.
complement : ℕ → ℕ → ℕ
complement n a = 2 ^ n - 1 - a

complement_half : (n a : ℕ) → a < 2 ^ suc n → complement (suc n) a / 2 ≡ complement n (a / 2)
unfolding complement
complement_half n a h = omega (arith, pow-suc 2 n)

-- A mask and its complement part a number in two.
pub and_split : (n a m : ℕ) → a < 2 ^ n → m < 2 ^ n → bit_and a (2 ^ n - 1 - m) + bit_and a m ≡ a
and_split zero zero m p q = omega (arith, bit_and-bitwise 0 m, bit_and-bitwise 0 (2 ^ 0 - 1 - m))
and_split zero (suc a) m p q = absurd (omega arith)
and_split (suc n) a m p q =
    let half : (2 ^ suc n - 1 - m) / 2 ≡ 2 ^ n - 1 - m / 2 = omega (arith, pow-suc 2 n) in
    omega (
      arith,
      pow-suc 2 n,
      and_step a m,
      and_step a (2 ^ suc n - 1 - m),
      ap (bit_and (a / 2)) half,
      and_split n (a / 2) (m / 2) (omega (arith, pow-suc 2 n)) (omega (arith, pow-suc 2 n)),
    )

and_zero_fuel : (n a : ℕ) → a ≤ n → bit_and a 0 ≡ 0
and_zero_fuel n zero h = omega (arith, bit_and-bitwise 0 0)
and_zero_fuel zero (suc a) h = absurd (omega arith)
and_zero_fuel (suc n) (suc a) h =
    omega (arith, and_step (suc a) 0, and_zero_fuel n (suc a / 2) (omega arith))

pub and_low_four : (a : ℕ) → bit_and a 0xf ≡ a % 16
and_low_four a = omega (
  arith,
  and_step a 15,
  and_step (a / 2) 7,
  and_step (a / 2 / 2) 3,
  and_step (a / 2 / 2 / 2) 1,
  and_zero_fuel (a / 2 / 2 / 2 / 2) (a / 2 / 2 / 2 / 2) (le_refl _),
)

and_low_eight : (a : ℕ) → bit_and a 0xff ≡ a % 256
and_low_eight a = omega (
  arith,
  and_step a 255,
  and_step (a / 2) 127,
  and_step (a / 2 / 2) 63,
  and_step (a / 2 / 2 / 2) 31,
  and_low_four (a / 2 / 2 / 2 / 2),
)

-- `a & 0xFFF`
pub and_low_twelve : (a : ℕ) → bit_and a 0xfff ≡ a % 0x1000
and_low_twelve a = omega (
  arith,
  and_step a 4095,
  and_step (a / 2) 2047,
  and_step (a / 2 / 2) 1023,
  and_step (a / 2 / 2 / 2) 511,
  and_low_eight (a / 2 / 2 / 2 / 2),
)

bit-complement : (n k a : ℕ) → k < n → a < 2 ^ n → bit k (complement n a) ≡ 1 - bit k a
unfolding bit
bit-complement zero k a h b = absurd (omega arith)
bit-complement (suc n) zero a h b = unfold complement in omega (arith, pow-suc 2 n)
bit-complement (suc n) (suc k) a h b =
    rw (complement_half n a b)
      (bit-complement n k (a / 2) (omega arith) (omega (arith, pow-suc 2 n)))

pub bit-not : (k a : ℕ) → k < 32 → IsU32 a → bit k (bit_not a) ≡ 1 - bit k a
unfolding bit_not complement
bit-not k a = bit-complement 32 k a

pub bit-zero : (k : ℕ) → bit k 0 ≡ 0
unfolding bit
bit-zero zero = omega arith
bit-zero (suc k) = bit-zero k

-- Above its width a number has no bits.
pub bit_above : (n k a : ℕ) → a < 2 ^ n → n ≤ k → bit k a ≡ 0
unfolding bit
bit_above zero zero a b h = omega arith
bit_above zero (suc k) a b h = bit_above zero k (a / 2) (omega arith) (omega arith)
bit_above (suc n) zero a b h = absurd (omega arith)
bit_above (suc n) (suc k) a b h = bit_above n k (a / 2) (omega (arith, pow-suc 2 n)) (omega arith)

-- Numbers with the same bits are equal.
bit_ext_below : (n a b : ℕ) → a < 2 ^ n → b < 2 ^ n → ((k : ℕ) → k < n → bit k a ≡ bit k b) → a ≡ b
unfolding bit
bit_ext_below zero a b p q h = omega arith
bit_ext_below (suc n) a b p q h = omega (
  arith,
  h 0 (omega arith),
  bit_ext_below n (a / 2) (b / 2) (omega (arith, pow-suc 2 n)) (omega (arith, pow-suc 2 n))
      (λ k lt. h (suc k) (omega arith)),
)

pub bit_ext : (a b : ℕ) → IsU32 a → IsU32 b → ((k : ℕ) → k < 32 → bit k a ≡ bit k b) → a ≡ b
bit_ext a b = bit_ext_below 32 a b

-- A number other than 0 has a bit, and it stands below the number's width.
some_bit_below : (n a : ℕ) → a < 2 ^ n → a ≢ 0 → (k : ℕ) × (k < n) × (bit k a ≡ 1)
unfolding bit
some_bit_below zero a p h = absurd (h (omega arith))
some_bit_below (suc n) a p h = elim (ℕ_discrete (a % 2) 0) [
  | yes e ↦
      let (k, lt, b) =
        some_bit_below n (a / 2) (omega (arith, pow-suc 2 n)) (λ z. h (omega arith)) in
      (suc k, omega arith, b)
  | no odd ↦ (0, omega arith, omega arith)
]

pub some_bit : (a : ℕ) → IsU32 a → a ≢ 0 → (k : ℕ) × (k < 32) × (bit k a ≡ 1)
some_bit a = some_bit_below 32 a

or_below : (n a b : ℕ) → a < 2 ^ n → b < 2 ^ n → bit_or a b < 2 ^ n
or_below zero zero zero p q = omega arith
or_below zero (suc a) b p q = absurd (omega arith)
or_below zero zero (suc b) p q = absurd (omega arith)
or_below (suc n) a b p q = omega (
  arith,
  pow-suc 2 n,
  or_step a b,
  or_below n (a / 2) (b / 2) (omega (arith, pow-suc 2 n)) (omega (arith, pow-suc 2 n)),
)

pub bit_or-IsU32 : (a b : ℕ) → IsU32 a → IsU32 b → IsU32 (bit_or a b)
bit_or-IsU32 a b = or_below 32 a b

and_below : (n a b : ℕ) → a < 2 ^ n → bit_and a b < 2 ^ n
and_below zero zero b p = omega (arith, bit_and-bitwise 0 b)
and_below zero (suc a) b p = absurd (omega arith)
and_below (suc n) a b p =
    omega
      (arith, pow-suc 2 n, and_step a b, and_below n (a / 2) (b / 2) (omega (arith, pow-suc 2 n)))

pub bit_and-IsU32 : (a b : ℕ) → IsU32 a → IsU32 (bit_and a b)
bit_and-IsU32 a b = and_below 32 a b

pub bit_not-IsU32 : (a : ℕ) → IsU32 (bit_not a)
unfolding bit_not
bit_not-IsU32 a = omega arith
