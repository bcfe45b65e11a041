-- ===== src/Timestamp.antt =====
-- base/Timestamp.h and base/Timestamp.cpp: microseconds since the epoch, an int64_t, held as an
-- integer (int64_t values that do not fit are undefined behaviour there). Text is a list of character
-- codes.
pub mod Decimal
pub mod Format
pub mod Calendar
pub mod Seconds
use fasco.Base.{
  ℕ, zero, suc, ◌+◌, ◌-◌, ◌*◌, ◌/◌, ◌%◌, ◌≤◌, ◌<◌, Bool, true, false, List, [], ◌∷◌, ◌++◌, length,
  if◌then◌else◌, ltb, ◌==◌,
}
use fasco.Base.Int.{ℤ, pos, negsuc, int_eq, is_pos, int_beq}
use fasco.Timestamp.Decimal.{show}

pub record Timestamp : Type 0 where
  pub micro_seconds_since_epoch : ℤ

abbrev pub k_micro_seconds_per_second : ℕ
k_micro_seconds_per_second = 1000000

-- `-n`
abbrev pub negated : ℕ → ℤ
negated zero = pos 0
negated (suc n) = negsuc n

-- `/` and `%` by a positive number: the quotient is cut towards 0.
unfoldable pub quot : ℤ → ℕ → ℤ
quot (pos n) m = pos (n / m)
quot (negsuc n) m = negated (suc n / m)

unfoldable pub rem : ℤ → ℕ → ℤ
rem (pos n) m = pos (n % m)
rem (negsuc n) m = negated (suc n % m)

-- `Timestamp()`, which is also `invalid()`
abbrev pub invalid : Timestamp
invalid = record { micro_seconds_since_epoch = pos 0 }

-- `isvalid()`
abbrev pub is_valid : Timestamp → Bool
is_valid t = is_pos t.micro_seconds_since_epoch

-- `swap(that)`
abbrev pub swap : Timestamp × Timestamp → Timestamp × Timestamp
swap (a, b) = (b, a)

-- `secondsSinceEpoch()`
abbrev pub seconds_since_epoch : Timestamp → ℤ
seconds_since_epoch t = quot t.micro_seconds_since_epoch k_micro_seconds_per_second

abbrev int_lt : ℤ → ℤ → Bool
int_lt (pos a) (pos b) = ltb a b
int_lt (pos a) (negsuc b) = false
int_lt (negsuc a) (pos b) = true
int_lt (negsuc a) (negsuc b) = ltb b a

-- `operator<`, `operator>` and `operator==`
unfoldable pub less : Timestamp → Timestamp → Bool
less a b = int_lt a.micro_seconds_since_epoch b.micro_seconds_since_epoch

unfoldable pub greater : Timestamp → Timestamp → Bool
greater a b = int_lt b.micro_seconds_since_epoch a.micro_seconds_since_epoch

unfoldable pub equal : Timestamp → Timestamp → Bool
equal a b = int_beq a.micro_seconds_since_epoch b.micro_seconds_since_epoch

abbrev padding : ℕ → List ℕ
padding zero = []
padding (suc n) = 48 ∷ padding n

-- `%0<width>` of a number, behind its sign: zeros up to the width.
abbrev pub padded : ℕ → List ℕ → List ℕ
padded width digits = padding (width - length digits) ++ digits

-- `%d`, and `%06d`, in which the sign counts.
unfoldable pub show_int : ℤ → List ℕ
show_int (pos n) = show n
show_int (negsuc n) = 45 ∷ show (suc n)

unfoldable pub show_int6 : ℤ → List ℕ
show_int6 (pos n) = padded 6 (show n)
show_int6 (negsuc n) = 45 ∷ padded 5 (show (suc n))

-- What snprintf leaves in a buffer of one more character.
abbrev pub cut : ℕ → List ℕ → List ℕ
cut zero text = []
cut (suc n) [] = []
cut (suc n) (c ∷ text) = c ∷ cut n text

-- `toString()`
unfoldable pub to_string : Timestamp → List ℕ
to_string t =
    let seconds = quot t.micro_seconds_since_epoch k_micro_seconds_per_second in
    let microseconds = rem t.micro_seconds_since_epoch k_micro_seconds_per_second in
    cut 30 (show_int seconds ++ 46 ∷ show_int6 microseconds)

-- `now()`, from what gettimeofday gave for a time after the epoch.
abbrev pub now : ℕ → ℕ → Timestamp
now tv_sec tv_usec = record {
  micro_seconds_since_epoch = pos (tv_sec * k_micro_seconds_per_second + tv_usec);
}
