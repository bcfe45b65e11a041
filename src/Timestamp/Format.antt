-- ===== src/Timestamp/Format.antt =====
-- base/Timestamp.cpp: the text of a time stamp, and the order.
use fasco.Base.{
  ℕ, zero, suc, ◌+◌, ◌-◌, ◌*◌, ◌/◌, ◌%◌, ◌^◌, ◌≤◌, ◌<◌, ◌≡◌, refl, ◌∙◌, List, [], ◌∷◌, ◌++◌, length,
  length-append, arith, ap,
}
use fasco.Base.Int.{pos}
use fasco.Timestamp.{to_string, show_int, show_int6, quot, rem, padded, padding, cut}
use fasco.Timestamp.Decimal.{
  show, read_from, read-show, length-show-le, AllDigits, append-AllDigits, show-AllDigits,
}

pub cut_all : (n : ℕ) (text : List ℕ) → length text ≤ n → cut n text ≡ text
cut_all zero [] h = refl
cut_all zero (c ∷ text) h = absurd (omega arith)
cut_all (suc n) [] h = refl
cut_all (suc n) (c ∷ text) h = ap (λ t. c ∷ t) (cut_all n text (omega arith))

length-padding : (n : ℕ) → length (padding n) ≡ n
length-padding zero = refl
length-padding (suc n) = ap suc (length-padding n)

read-padding : (n : ℕ) (text : List ℕ) → read_from 0 (padding n ++ text) ≡ read_from 0 text
unfolding read_from
read-padding zero text = refl
read-padding (suc n) text = read-padding n text

pub length-padded :
    (width : ℕ) (text : List ℕ) → length text ≤ width → length (padded width text) ≡ width
length-padded width text h =
    length-append (padding (width - length text)) text
    ∙ omega (arith, length-padding (width - length text))

padding-AllDigits : (n : ℕ) → AllDigits (padding n)
padding-AllDigits zero = tt
padding-AllDigits (suc n) = (omega arith, omega arith, padding-AllDigits n)

-- A time stamp of at least 0 and below 2^63 microseconds is written as digits, a point and exactly
-- six more digits, with nothing cut off by the buffer: the number before the point is its seconds and
-- the one behind it the microseconds left, so that the two give it back.
pub to_string-read_from :
    (n : ℕ)
    → n < 2 ^ 63
    → (seconds micro_seconds : List ℕ) × (to_string (record { micro_seconds_since_epoch = pos n })
        ≡ seconds ++ 46 ∷ micro_seconds)
      × AllDigits seconds
      × AllDigits micro_seconds
      × (length micro_seconds ≡ 6)
      × (read_from 0 seconds ≡ n / 1000000)
      × (read_from 0 micro_seconds ≡ n % 1000000)
      × (read_from 0 seconds * 1000000 + read_from 0 micro_seconds ≡ n)
unfolding to_string show_int show_int6 quot rem
to_string-read_from n h =
    let s = show (n / 1000000) in
    let m = padded 6 (show (n % 1000000)) in
    let short : length s ≤ 13 = length-show-le 12 (n / 1000000) (omega arith) in
    let six : length (show (n % 1000000)) ≤ 6 = length-show-le 5 (n % 1000000) (omega arith) in
    let wide : length m ≡ 6 = length-padded 6 (show (n % 1000000)) six in
    let fits : length (s ++ 46 ∷ m) ≤ 30 = omega (arith, length-append s (46 ∷ m), short, wide) in
    let low : read_from 0 m ≡ n % 1000000 =
      read-padding (6 - length (show (n % 1000000))) (show (n % 1000000))
      ∙ read-show (n % 1000000) in
    (
      s,
      m,
      cut_all 30 (s ++ 46 ∷ m) fits,
      show-AllDigits (n / 1000000),
      append-AllDigits (padding _) (show (n % 1000000)) (padding-AllDigits _)
          (show-AllDigits (n % 1000000)),
      wide,
      read-show (n / 1000000),
      low,
      omega (arith, read-show (n / 1000000), low),
    )
