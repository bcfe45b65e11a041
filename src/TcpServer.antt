-- ===== src/TcpServer.antt =====
-- base/TcpServer.h and base/TcpServer.cpp. A server's coroutine is in `TcpServer::accept`, and gives
-- up the processor in the hooked accept (Hook) at the head of each round; `accepted` is the rest of
-- the round, with what accept returned. In the same way `client_read` is a round of `client_call`
-- behind its read. `new_event` and `new_mco` are the addresses of the objects that a call makes;
-- the thread that it runs in is `tid`.
pub mod Serve
pub mod Client
pub mod Init
pub mod Keeps
pub mod Life
use fasco.Base.{ℕ, Bool, true, false, not, Option, none, some, if◌then◌else◌, ◌==◌}
use fasco.Base.Int.{ℤ, pos, negsuc, int_eq, is_pos}
use fasco.Base.Outcome.{Outcome, ok, fault, null_deref, ◌>>=◌, ◌>>◌, assert_that}
use fasco.Events.{make, set_tid, k_read_event}
use fasco.Kernel.{Kernel}
use fasco.McoPool.{set_mco_routine}
use fasco.EventLoop
use fasco.EventLoopPool.{get_next_loop, get_main_loop}
use fasco.NetAddress.{NetAddress}
use fasco.Socket.{SocketApi, Socket, bind, listen}
use fasco.Socket
use fasco.Process.{Process, view, put_event, put_pool, put_loop, loop_update}
use fasco.Hook.{Files, put_sys, pool_of, close}

pub record TcpServer : Type 0 where
  pub loop : Option ℕ
  pub server : Socket
  pub events : ℕ
  pub addr : NetAddress
  pub listen_backlog : ℕ

-- `AF_INET` and `SOCK_STREAM`
abbrev pub sock_stream : ℤ
sock_stream = pos 1

abbrev pub af_inet : ℤ
af_inet = pos 2

module _ (k : Kernel) (ndebug : Bool) (tid : ℤ) where
  -- `assert(call)`: under NDEBUG the call is not made.
  unfoldable pub asserted_call : (k.State → k.State × Bool) → Process k → Outcome (Process k)
  asserted_call call w =
      if ndebug then ok w else (let r = call w.sys in assert_that false r.1 >> ok (put_sys k r.0 w))

  -- `TcpServer(addr)`
  unfoldable pub init :
      SocketApi k.State → NetAddress → ℕ → Process k → Outcome (Process k × TcpServer)
  init api addr new_event w = do
    let r = Socket.make api af_inet sock_stream (pos 0) w.sys
    let w₁ = put_event k new_event (make r.1.socket k_read_event tid) (put_sys k r.0 w)
    w₂ ← asserted_call (bind api addr r.1) w₁
    w₃ ← asserted_call (listen api 50 r.1) w₂
    ok (
      w₃,
      record { loop = none; server = r.1; events = new_event; addr = addr; listen_backlog = 50 },
    )

  -- `start()` with the main loop.
  unfoldable pub start_with :
      Option ℕ → ℕ → TcpServer → Process k → Outcome (Process k × TcpServer × Bool)
  start_with none new_mco server w = ok (w, record server { loop = none }, false)
  start_with (some l) new_mco server w = do
    let pool = set_mco_routine server.server.socket new_mco (pool_of k tid w)
    (w', _) ← loop_update k ndebug l server.events (put_pool k tid pool w)
    ok (w', record server { loop = some l }, true)

  -- `start()`
  unfoldable pub start : ℕ → TcpServer → Process k → Outcome (Process k × TcpServer × Bool)
  start new_mco server w = start_with (get_main_loop w.registry) new_mco server w

  -- `loop_->assertInOwnerThread()`, before the rounds of `accept()`.
  unfoldable pub entered : TcpServer → Process k → Outcome (Unit {0})
  entered server w = by_loop server.loop
    where
      by_loop : Option ℕ → Outcome (Unit {0})
      by_loop none = fault null_deref
      by_loop (some l) = EventLoop.assert_in_owner_thread ndebug tid (w.loops l)

  -- The connection goes to this loop.
  unfoldable pub hand_over : ℤ → Option ℕ → ℕ → ℕ → Process k → Outcome (Process k)
  hand_over fd none new_event new_mco w = fault null_deref
  hand_over fd (some l) new_event new_mco w = do
    let home = EventLoop.get_tid (w.loops l)
    let w₁ = put_event k new_event (make fd k_read_event tid) w
    let w₂ = put_pool k home (set_mco_routine fd new_mco (pool_of k home w₁)) w₁
    let w₃ = put_event k new_event (set_tid home (w₂.heap new_event)) w₂
    (w₄, _) ← loop_update k ndebug l new_event w₃
    ok w₄

  -- A round of `accept()` behind the hooked accept, which returned `fd`.
  unfoldable pub accepted : ℤ → ℕ → ℕ → Process k → Outcome (Process k)
  accepted fd new_event new_mco w =
      if is_pos fd
      then (let r = get_next_loop w.registry in
          hand_over fd r.1 new_event new_mco (record w { registry = r.0 }))
      else ok w

  -- A round of `client_call(event)` behind its read, which returned `ret`: whether there is a next.
  unfoldable pub client_read : Files k → Bool → ℤ → ℤ → Process k → Outcome (Process k × Bool)
  client_read io hookable fd ret w =
      if is_pos ret
      then ok (w, true)
      else close k io ndebug hookable tid fd w >>= λ r. ok (r.0, false)

  -- `~TcpServer()`
  unfoldable pub destroy : TcpServer → Process k → Outcome (Process k)
  destroy server w = stop server.loop
    where
      stop : Option ℕ → Outcome (Process k)
      stop none = fault null_deref
      stop (some l) = ok (put_loop k l (EventLoop.quit k tid (view k l w)) w)
