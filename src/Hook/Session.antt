-- ===== src/Hook/Session.antt =====
-- base/SysapiHook.cpp with base/EventLoop.cpp: a call that waits, from the event that ends its wait
-- to its result.
use fasco.Base.{ℕ, ◌≡◌, refl, ◌≢◌, ◌∙◌, some, ap, sym}
use fasco.Base.Bits.{bit}
use fasco.Base.Int.{ℤ, int_eq, int_beq_iff}
use fasco.Base.Outcome.{Outcome}
use fasco.Events.{put, set_mutable}
use fasco.Kernel.{Kernel}
use fasco.McoPool.{set_cur_mco}
use fasco.EventLoop.{World, event_handle_able, handle_event}
use fasco.EventLoopPool
use fasco.Process.{Process, view, put_event, put_pool}
use fasco.Hook.Wait.{Waits}
use fasco.Hook.Wake.{Waits-resumed}

-- The process as the coroutine finds it that an event woke: the reported mask is in the object, and
-- the coroutine is the current one of its thread.
abbrev pub woken : (k : Kernel) → ℤ → ℕ → ℕ → ℕ → Process k → Process k
woken k tid p m event w =
    put_pool k tid (set_cur_mco (some m) (w.pools tid))
      (put_event k p (event_handle_able (set_mutable event (w.heap p))).0 w)

module _ (k : Kernel) (l : ℕ) (tid fd : ℤ) (p m : ℕ) (w : Process k)
    (waits : Waits k l tid fd p m w) (event : ℕ) where
  abbrev awake : Process k
  awake = woken k tid p m event w

  view-awake : view k l awake ≡ record (view k l w) {
    heap = put w.heap p (event_handle_able (set_mutable event (w.heap p))).0;
    pool = set_cur_mco (some m) (w.pools tid);
  }
  view-awake = rw ((int_beq_iff tid (w.loops l).tid).1 (sym waits.home)) refl

  pub wakes :
      (resume : ℕ → World k → Outcome (World k))
      → fd ≢ (w.loops l).wake_fd
      → bit 0 event ≡ 1
      → handle_event k resume (record { fd = fd; event = event }) (view k l w)
        ≡ resume m (view k l (woken k tid p m event w))
  wakes resume other reported =
      Waits-resumed k l tid fd p m w waits resume event other reported
      ∙ ap (resume m) (sym view-awake)
