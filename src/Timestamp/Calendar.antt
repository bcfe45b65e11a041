-- ===== src/Timestamp/Calendar.antt =====
-- Timestamp::toFormattedString of base/Timestamp.cpp. gmtime_r(3), which gives the fields of a time,
-- is a parameter.
use fasco.Base.{
  length-append, ℕ, zero, suc, ◌+◌, ◌-◌, ◌≤◌, ◌<◌, ◌%◌, ◌/◌, ◌≡◌, refl, ◌∙◌, ap, List, [], ◌∷◌,
  ◌++◌, length, if◌then◌else◌, ltb, arith,
}
use fasco.Base.Int.{ℤ, pos, negsuc}
use fasco.Timestamp.{Timestamp, quot, rem, show_int6, padded, cut, k_micro_seconds_per_second}
use fasco.Timestamp.Decimal.{show, length-show-le}
use fasco.Timestamp.Format.{cut_all, length-padded}

-- struct tm, as far as it is printed.
pub record Tm : Type 0 where
  pub tm_year : ℤ
  pub tm_mon : ℤ
  pub tm_mday : ℤ
  pub tm_hour : ℤ
  pub tm_min : ℤ
  pub tm_sec : ℤ

-- A sum with a number that is not negative.
abbrev pub plus : ℤ → ℕ → ℤ
plus (pos a) b = pos (a + b)
plus (negsuc a) b = if ltb a b then pos (b - suc a) else negsuc (a - b)

abbrev pub blanks : ℕ → List ℕ
blanks zero = []
blanks (suc n) = 32 ∷ blanks n

-- `%4d` and `%02d`
unfoldable pub show_int4 : ℤ → List ℕ
show_int4 (pos n) = blanks (4 - length (show n)) ++ show n
show_int4 (negsuc n) = blanks (3 - length (show (suc n))) ++ 45 ∷ show (suc n)

unfoldable pub show_int2 : ℤ → List ℕ
show_int2 (pos n) = padded 2 (show n)
show_int2 (negsuc n) = 45 ∷ padded 1 (show (suc n))

-- What is printed, before it is cut to the buffer of 32.
unfoldable pub formatted : Tm → ℤ → List ℕ
formatted tm micro =
    let secs = show_int2 tm.tm_sec ++ 46 ∷ show_int6 micro in
    let mins = show_int2 tm.tm_min ++ 58 ∷ secs in
    let hours = show_int2 tm.tm_hour ++ 58 ∷ mins in
    let days = show_int2 tm.tm_mday ++ 32 ∷ hours in
    show_int4 (plus tm.tm_year 1900) ++ (show_int2 (plus tm.tm_mon 1) ++ days)

-- `toFormattedString()`
unfoldable pub to_formatted_string : (ℤ → Tm) → Timestamp → List ℕ
to_formatted_string gmtime t =
    let seconds = quot t.micro_seconds_since_epoch k_micro_seconds_per_second in
    let microseconds = rem t.micro_seconds_since_epoch k_micro_seconds_per_second in
    cut 31 (formatted (gmtime seconds) microseconds)

length-blanks : (n : ℕ) → length (blanks n) ≡ n
length-blanks zero = refl
length-blanks (suc n) = ap suc (length-blanks n)

length-show_int4 : (n : ℕ) → n < 10000 → length (show_int4 (pos n)) ≡ 4
unfolding show_int4
length-show_int4 n h = omega (
  arith,
  length-append (blanks (4 - length (show n))) (show n),
  length-blanks (4 - length (show n)),
  length-show-le 3 n (omega (arith, h)),
)

length-show_int2 : (n : ℕ) → n < 100 → length (show_int2 (pos n)) ≡ 2
unfolding show_int2
length-show_int2 n h = length-padded 2 (show n) (length-show-le 1 n (omega (arith, h)))

length-show_int6 : (n : ℕ) → n < 1000000 → length (show_int6 (pos n)) ≡ 6
unfolding show_int6
length-show_int6 n h = length-padded 6 (show n) (length-show-le 5 n (omega (arith, h)))

length-join : (xs ys : List ℕ) (a b : ℕ) → length xs ≡ a → length ys ≡ b → length (xs ++ ys) ≡ a + b
length-join xs ys a b ex ey = length-append xs ys ∙ omega (arith, ex, ey)

module _ (year mon mday hour min sec micro : ℕ) where
  abbrev pub calendar : Tm
  calendar = record {
    tm_year = pos year;
    tm_mon = pos mon;
    tm_mday = pos mday;
    tm_hour = pos hour;
    tm_min = pos min;
    tm_sec = pos sec;
  }

  length-formatted :
      year + 1900 < 10000
      → mon < 12
      → mday ≤ 31
      → hour < 24
      → min < 60
      → sec ≤ 60
      → micro < 1000000
      → length (formatted calendar (pos micro)) ≡ 24
  unfolding formatted
  length-formatted y mo d h mi s us =
      let secs : List ℕ = show_int2 (pos sec) ++ 46 ∷ show_int6 (pos micro) in
      let mins : List ℕ = show_int2 (pos min) ++ 58 ∷ secs in
      let hours : List ℕ = show_int2 (pos hour) ++ 58 ∷ mins in
      let days : List ℕ = show_int2 (pos mday) ++ 32 ∷ hours in
      let n_secs : length secs ≡ 9 =
        length-join (show_int2 (pos sec)) (46 ∷ show_int6 (pos micro)) 2 7
          (length-show_int2 sec (omega (arith, s))) (ap suc (length-show_int6 micro us)) in
      let n_mins : length mins ≡ 12 =
        length-join (show_int2 (pos min)) (58 ∷ secs) 2 10
          (length-show_int2 min (omega (arith, mi))) (ap suc n_secs) in
      let n_hours : length hours ≡ 15 =
        length-join (show_int2 (pos hour)) (58 ∷ mins) 2 13
          (length-show_int2 hour (omega (arith, h))) (ap suc n_mins) in
      let n_days : length days ≡ 18 =
        length-join (show_int2 (pos mday)) (32 ∷ hours) 2 16
          (length-show_int2 mday (omega (arith, d))) (ap suc n_hours) in
      length-join (show_int4 (pos (year + 1900))) (show_int2 (pos (mon + 1)) ++ days) 4 20
        (length-show_int4 (year + 1900) y)
        (length-join (show_int2 (pos (mon + 1))) days 2 18
          (length-show_int2 (mon + 1) (omega (arith, mo))) n_days)

  -- A time that is not before the epoch, whose fields gmtime_r gives as the calendar has them in a
  -- year up to 9999, is written in 24 characters, with none cut off by the buffer.
  pub length-to_formatted_string :
      (gmtime : ℤ → Tm) (n : ℕ)
      → gmtime (pos (n / 1000000)) ≡ calendar
      → year + 1900 < 10000
      → mon < 12
      → mday ≤ 31
      → hour < 24
      → min < 60
      → sec ≤ 60
      → n % 1000000 ≡ micro
      → (to_formatted_string gmtime (record { micro_seconds_since_epoch = pos n })
          ≡ formatted calendar (pos micro))
        × (length (to_formatted_string gmtime (record { micro_seconds_since_epoch = pos n })) ≡ 24)
  unfolding to_formatted_string quot rem
  length-to_formatted_string gmtime n e y mo d h mi s us =
      let whole : length (formatted calendar (pos micro)) ≡ 24 =
        length-formatted y mo d h mi s (omega (arith, us)) in
      let uncut : to_formatted_string gmtime (record { micro_seconds_since_epoch = pos n })
          ≡ formatted calendar (pos micro) =
        ap (λ tm. cut 31 (formatted tm (pos (n % 1000000)))) e
        ∙ ap (λ m. cut 31 (formatted calendar (pos m))) us
        ∙ cut_all 31 (formatted calendar (pos micro)) (omega (arith, whole)) in
      (uncut, ap length uncut ∙ whole)
