-- ===== src/Tests/TimeTests.antt =====
-- Tests of base/Timestamp.cpp.
use fasco.Base.{ℕ, ◌+◌, ◌*◌, ◌/◌, ◌%◌, ◌≡◌, refl, List, [], ◌∷◌, ◌++◌, length, arith}
use fasco.Base.Int.{pos, negsuc}
use fasco.Timestamp.{to_string, show_int, show_int6, quot, rem}
use fasco.Timestamp.Decimal.{show_from, read_from, AllDigits}
use fasco.Timestamp.Format.{to_string-read_from}

-- "0.000012"
twelve :
    to_string (record { micro_seconds_since_epoch = pos 12 })
    ≡ 48 ∷ 46 ∷ 48 ∷ 48 ∷ 48 ∷ 48 ∷ 49 ∷ 50 ∷ []
unfolding to_string show_int show_int6 quot rem show_from
twelve = refl

-- Before the epoch, the sign of the second part stays in it: "0.-00001".
before_epoch :
    to_string (record { micro_seconds_since_epoch = negsuc 0 })
    ≡ 48 ∷ 46 ∷ 45 ∷ 48 ∷ 48 ∷ 48 ∷ 48 ∷ 49 ∷ []
unfolding to_string show_int show_int6 quot rem show_from
before_epoch = refl

to_string-read_from_example :
    (seconds micro_seconds : List ℕ) × (to_string
        (record { micro_seconds_since_epoch = pos 1234567 })
      ≡ seconds ++ 46 ∷ micro_seconds)
    × AllDigits seconds
    × AllDigits micro_seconds
    × (length micro_seconds ≡ 6)
    × (read_from 0 seconds ≡ 1234567 / 1000000)
    × (read_from 0 micro_seconds ≡ 1234567 % 1000000)
    × (read_from 0 seconds * 1000000 + read_from 0 micro_seconds ≡ 1234567)
to_string-read_from_example = to_string-read_from 1234567 (omega arith)
