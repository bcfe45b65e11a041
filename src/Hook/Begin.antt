-- ===== src/Hook/Begin.antt =====
-- base/SysapiHook.cpp: the first half of `read` and `accept`.
use fasco.Base.{ℕ, ◌≡◌, Bool, none, some, ◌⊎◌}
use fasco.Base.Int.{ℤ}
use fasco.Kernel.{Kernel}
use fasco.McoPool.{get_mco_routine}
use fasco.EventLoop.Step.{known}
use fasco.EventLoopPool
use fasco.Process.{Process, view}
use fasco.Hook.{Files}
use fasco.Hook.Wait.{Registered}

module _ (k : Kernel) (io : Files k) (ndebug : Bool) (l : ℕ) (tid fd : ℤ) (nbyte new_event : ℕ)
    (w : Process k) where
  -- The descriptor is this coroutine's, or nobody's and unknown to the loop.
  abbrev pub Mine : ℕ → Type 0
  Mine m =
      (get_mco_routine fd (w.pools tid) ≡ none) × (known k (view k l w) fd ≡ none)
      ⊎ (get_mco_routine fd (w.pools tid) ≡ some m)
        × ((known k (view k l w) fd ≡ none) ⊎ Registered k l tid w fd)
