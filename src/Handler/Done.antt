-- ===== src/Handler/Done.antt =====
-- DoHandle of base/Handler.h: when it returns.
use fasco.Base.{ℕ, zero, suc, ◌<◌, ◌≡◌, refl, true, false, arith}
use fasco.Base.Outcome.{ok, pending}
use fasco.Events.{Events, isdel}
use fasco.Handler.{do_handle}

module _ {S : Type 0} (call : S → S) (events : S → Events) where
  -- The world after a number of calls.
  abbrev pub after_calls : ℕ → S → S
  after_calls zero s = s
  after_calls (suc n) s = after_calls n (call s)

  -- With the first call that leaves the object in state DEL, DoHandle returns, with any fuel that lets
  -- it get there.
  pub do_handle-returns :
      (n fuel : ℕ) (s : S)
      → n < fuel
      → ((i : ℕ) → i < n → isdel (events (after_calls (suc i) s)) ≡ false)
      → isdel (events (after_calls (suc n) s)) ≡ true
      → do_handle call events fuel s ≡ ok (after_calls (suc n) s)
  unfolding do_handle
  do_handle-returns n zero s lt before last = absurd (omega (arith, lt))
  do_handle-returns zero (suc fuel) s lt before last = simp last refl
  do_handle-returns (suc n) (suc fuel) s lt before last = simp (before 0 (omega arith)) (
      do_handle-returns n fuel (call s) (omega (arith, lt))
        (λ i h. before (suc i) (omega (arith, h))) last)

  -- While no call does, it goes on calling.
  pub do_handle-pending :
      (fuel : ℕ) (s : S)
      → ((i : ℕ) → i < fuel → isdel (events (after_calls (suc i) s)) ≡ false)
      → do_handle call events fuel s ≡ pending
  unfolding do_handle
  do_handle-pending zero s never = refl
  do_handle-pending (suc fuel) s never =
      simp (never 0 (omega arith))
        (do_handle-pending fuel (call s) (λ i h. never (suc i) (omega (arith, h))))
