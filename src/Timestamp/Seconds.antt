-- ===== src/Timestamp/Seconds.antt =====
-- timeDifference and addTime of base/Timestamp.cpp. The arithmetic of `double` is a parameter.
use fasco.Base.{ℕ, zero, suc, ◌+◌, ◌-◌, ◌≡◌, ◌∙◌, ap, if◌then◌else◌, leb, arith}
use fasco.Base.Int.{ℤ, pos, negsuc}
use fasco.Timestamp.{Timestamp, negated, k_micro_seconds_per_second}

pub record Doubles : Type 1 where
  pub Double : Type 0
  -- static_cast<double>(n) and static_cast<int64_t>(d)
  pub of_int : ℤ → Double
  pub to_int : Double → ℤ
  -- The products and quotients with kMicroSecondsPerSecond, an int.
  pub times : Double → ℕ → Double
  pub over : Double → ℕ → Double

-- `+` and `-` of int64_t.
abbrev pub difference : ℕ → ℕ → ℤ
difference a b = if leb b a then pos (a - b) else negated (b - a)

unfoldable pub add : ℤ → ℤ → ℤ
add (pos a) (pos b) = pos (a + b)
add (pos a) (negsuc b) = difference a (suc b)
add (negsuc a) (pos b) = difference b (suc a)
add (negsuc a) (negsuc b) = negated (suc a + suc b)

abbrev pub minus : ℤ → ℤ
minus (pos n) = negated n
minus (negsuc n) = pos (suc n)

add-minus : (a b : ℕ) → add (pos (a + b)) (minus (pos a)) ≡ pos b
unfolding add
add-minus zero b = ap pos (omega arith)
add-minus (suc a) b = ground arith

abbrev at_micros : ℤ → Timestamp
at_micros n = record { micro_seconds_since_epoch = n }

module _ (d : Doubles) where
  -- `timeDifference(high, low)`
  unfoldable pub time_difference : Timestamp → Timestamp → d.Double
  unfolding add
  time_difference high low =
      let diff = add high.micro_seconds_since_epoch (minus low.micro_seconds_since_epoch) in
      d.over (d.of_int diff) k_micro_seconds_per_second

  -- `addTime(timestamp, seconds)`
  unfoldable pub add_time : Timestamp → d.Double → Timestamp
  unfolding add
  add_time timestamp seconds =
      let delta = d.to_int (d.times seconds k_micro_seconds_per_second) in
      record { micro_seconds_since_epoch = add timestamp.micro_seconds_since_epoch delta }

  -- Where the double arithmetic gives a number of microseconds back, a time that is not before another,
  -- both not before the epoch, is the other with their difference added.
  pub add_time-time_difference :
      (a b : ℕ)
      → d.to_int (
          d.times (d.over (d.of_int (pos b)) k_micro_seconds_per_second) k_micro_seconds_per_second)
        ≡ pos b
      → let low : Timestamp = record { micro_seconds_since_epoch = pos a } in
        let high : Timestamp = record { micro_seconds_since_epoch = pos (a + b) } in
        add_time low (time_difference high low) ≡ high
  unfolding add_time time_difference add
  add_time-time_difference a b exact =
      let m = k_micro_seconds_per_second in
      ap at_micros (
        ap (λ x. add (pos a) (d.to_int (d.times (d.over (d.of_int x) m) m))) (add-minus a b)
        ∙ ap (add (pos a)) exact)
