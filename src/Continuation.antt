-- ===== src/Continuation.antt =====
-- base/Continuation.h and base/Mcosops.h: the objects through which event loops and hooks reach the
-- coroutines of their thread. A Continuation is named by its address, as McoPool has it; `objects`
-- are those of the thread.
pub mod Idle
use fasco.Base.{ℕ, Bool, true, false, Option, none, some}
use fasco.Base.Outcome.{Outcome, ok, ◌>>=◌}
use fasco.McoPool.{McoPool, get_cur_mco, set_cur_mco}
use fasco.McoRoutine.{Thread, Place, put_mco, mco_create}
use fasco.McoRoutine.Schedule.{Switched, returned, mco_resume, mco_yield, mco_free}

pub record Continuation : Type 0 where
  pub co : Option ℕ

-- `Continuation(co)`
abbrev pub of_routine : Option ℕ → Continuation
of_routine co = record { co = co }

-- `Continuation(call)`, where `new` gives the address `a`.
abbrev pub make : ℕ → ℕ → Thread → Thread × Continuation
make a call t = (put_mco a (mco_create call false) t, record { co = some a })

abbrev pub resume : Bool → Place → Continuation → Thread → Outcome Switched
resume ndebug at c t = mco_resume ndebug at c.co t

abbrev pub yield : Bool → Place → Continuation → Thread → Outcome Switched
yield ndebug at c t = mco_yield ndebug at c.co t

-- `~Continuation()`
abbrev pub destroy : Continuation → Thread → Thread × Bool
destroy c t = mco_free c.co t

module _ (ndebug : Bool) (at : Place) (objects : ℕ → Continuation) where
  -- `Mcosops::Resume(mco)`: with the thread's pool.
  unfoldable pub mcosops_resume : ℕ → McoPool → Thread → Outcome (McoPool × Switched)
  mcosops_resume mco pool t =
      resume ndebug at (objects mco) t >>= λ r. ok (set_cur_mco (some mco) pool, r)

  -- `Mcosops::Yield()`
  unfoldable pub mcosops_yield : McoPool → Thread → Outcome (McoPool × Switched)
  mcosops_yield pool t = by_current (get_cur_mco pool)
    where
      by_current : Option ℕ → Outcome (McoPool × Switched)
      by_current none = returned t >>= λ r. ok (pool, r)
      by_current (some mco) = yield ndebug at (objects mco) t >>= λ r. ok (pool, r)
