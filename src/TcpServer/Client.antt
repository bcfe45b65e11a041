-- ===== src/TcpServer/Client.antt =====
-- base/TcpServer.cpp with base/EventLoop.cpp: a connection from accept to its coroutine.
use fasco.Base.{ℕ, ◌≡◌, refl, ◌≢◌, ◌∙◌, Bool, true, none, some}
use fasco.Base.Bits.{bit}
use fasco.Base.Int.{ℤ, minus_one, int_eq, is_pos}
use fasco.Base.Outcome.{Outcome, ok}
use fasco.Kernel.{Kernel}
use fasco.EventLoop.{World, handle_event}
use fasco.EventLoop.Step.{known}
use fasco.EventLoopPool.{get_next_loop}
use fasco.Process.{Process, view}
use fasco.Hook.Session.{woken, wakes}
use fasco.TcpServer.{accepted}
use fasco.TcpServer.Serve.{hand_over-Served}

module _ (k : Kernel) (ndebug : Bool) (tid fd : ℤ) (l new_event new_mco : ℕ) (w : Process k) where
  -- A connection that accept returned wakes its client's coroutine: when POLLIN is reported for it to
  -- the loop whose turn it was, that loop resumes the coroutine, which is then the current one of the
  -- loop's thread, whichever thread accepted. This asks that the loop is open, did not know the
  -- descriptor and has another one for its eventfd.
  pub accepted-wakes :
      (event : ℕ) (resume : ℕ → World k → Outcome (World k))
      → is_pos fd ≡ true
      → (get_next_loop w.registry).1 ≡ some l
      → (w.loops l).poll.epoll_fd ≢ minus_one
      → known k (view k l w) fd ≡ none
      → fd ≢ (w.loops l).wake_fd
      → bit 0 event ≡ 1
      → (w' : Process k) × (accepted k ndebug tid fd new_event new_mco w ≡ ok w')
        × (handle_event k resume (record { fd = fd; event = event }) (view k l w')
            ≡ resume new_mco (view k l (woken k (w.loops l).tid new_event new_mco event w')))
  unfolding accepted
  accepted-wakes event resume got turn open_ fresh other reported =
      let w₀ = record w { registry = (get_next_loop w.registry).0 } in
      let (w', h, turned, wake, (b, waits, watched)) =
        hand_over-Served k ndebug tid fd l new_event new_mco w₀ open_ fresh in
      (
        w',
        simp (got, turn, h) refl,
        wakes k l (w.loops l).tid fd new_event new_mco w' waits event resume (λ e. other (e ∙ wake))
            reported,
      )
