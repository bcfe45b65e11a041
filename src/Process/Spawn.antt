-- ===== src/Process/Spawn.antt =====
-- The threads of a server that run a loop: what LoopThreadFunc of test/MultiThreadServer.cpp does
-- before it loops. The loop is not known to any other thread until it is registered.
use fasco.Base.{ℕ, ◌≢◌, Bool, some}
use fasco.Base.Int.{ℤ, int_eq}
use fasco.Base.Outcome.{Outcome, ok, ◌>>=◌}
use fasco.Kernel.{Kernel}
use fasco.EventLoop.{World}
use fasco.EventLoop
use fasco.EventLoopPool.{add_event_loop, get_loop}
use fasco.Process.{Process, put_loop}

module _ (k : Kernel) where
  -- `EventLoopPool::AddEventLoop(loop)`, and with `ismain` `EventLoopPool::addMainLoop(loop)`.
  unfoldable pub add_loop : ℕ → Bool → Process k → Process k × Bool
  add_loop l ismain w =
      let r = add_event_loop (EventLoop.get_tid (w.loops l)) (some l) ismain w.registry in
      (record w { registry = r.0 }, r.1)

  -- `new EventLoop` at the address `l` in thread `tid`, and its registration.
  unfoldable pub spawn : Bool → ℕ → ℕ → ℤ → Bool → Process k → Outcome (Process k × Bool)
  unfolding add_loop
  spawn ndebug l new_event tid ismain w = do
    (v, _) ← EventLoop.init k ndebug new_event tid w.heap w.sys (w.pools tid)
    ok (add_loop l ismain (put_loop k l v w))

  -- An address that no thread's loop has.
  abbrev pub NewLoop : Process k → ℕ → Type 0
  NewLoop w l = (tid : ℤ) → get_loop tid w.registry ≢ some l
