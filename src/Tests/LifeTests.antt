-- ===== src/Tests/LifeTests.antt =====
-- A server's life (base/TcpServer.cpp, base/EventLoop.cpp) with one loop: its thread makes the loop,
-- the server starts, the loop waits, POLLIN is reported for the server's socket, which is closed.
use mathlib.Core.Option.{some-injective}
use fasco.Base.{subst, ℕ, ◌≡◌, refl, ◌≢◌, true, false, none, some, []}
use fasco.Base.Int.{ℤ, pos, int_eq}
use fasco.Base.Map.{find, assign}
use fasco.Base.Outcome.{ok, value_or}
use fasco.Events.{make, k_read_event}
use fasco.Kernel.Table.{table_kernel, quiet}
use fasco.EventLoopPool
use fasco.EventLoopPool.{get_loop, get_main_loop, add_event_loop, register}
use fasco.Epoll
use fasco.EventLoop
use fasco.EventLoop.{create_eventfd, update_events}
use fasco.Process.{Process, loop_update}
use fasco.Process.Sound.{Sound}
use fasco.Process.Rounds.{wait}
use fasco.Process.Spawn.{spawn}
use fasco.TcpServer.{start, start_with}
use fasco.TcpServer.Life.{Reach, here, later, spawns, starts, waits, Reach-Sound}
use fasco.Tests.Samples.{loop}
use fasco.Tests.HookTests.{table_files}
use fasco.Tests.ServerTests.{server}

-- Before any loop is made; the server's object is at address 6.
abbrev nothing : Process table_kernel
nothing = record {
  loops = λ a. loop;
  heap = λ a. make (pos 7) k_read_event (pos 100);
  sys = quiet;
  pools = λ t. record { cur = none; fd_mcos = [] };
  registry = EventLoopPool.empty;
}

abbrev looped : Process table_kernel
looped = (value_or (nothing, false) (spawn table_kernel false 50 1 (pos 100) true nothing)).0

spawned : spawn table_kernel false 50 1 (pos 100) true nothing ≡ ok (looped, true)
unfolding spawn EventLoop.init EventLoop.poll_update EventLoop.poll_new find Epoll.events_add
    Epoll.init add_event_loop
spawned = refl

abbrev serving : Process table_kernel
serving = (value_or (looped, server, false) (start table_kernel false (pos 100) 9 server looped)).0

started :
    start table_kernel false (pos 100) 9 server looped
    ≡ ok (serving, record server { loop = some 50 }, true)
unfolding start start_with get_main_loop spawn EventLoop.init EventLoop.poll_update
    EventLoop.poll_new find Epoll.events_add Epoll.init add_event_loop loop_update assign
started = refl

abbrev waited : Process table_kernel
waited = (value_or (serving, []) (wait table_kernel 3 50 serving)).0

waited_once : wait table_kernel 3 50 serving ≡ ok (waited, [])
unfolding wait Epoll.loop Epoll.loop_wait start start_with get_main_loop spawn EventLoop.init
    EventLoop.poll_update EventLoop.poll_new find Epoll.events_add Epoll.init add_event_loop
    loop_update assign
waited_once = refl

no_loop : (t : ℤ) (l : ℕ) → get_loop t EventLoopPool.empty ≢ some l
unfolding get_loop find
no_loop t l e = absurd (cc)

server_home :
    (l : ℕ)
    → get_main_loop looped.registry ≡ some l
    → (looped.heap server.events).tid ≡ (looped.loops l).tid
unfolding get_main_loop spawn EventLoop.init EventLoop.poll_update EventLoop.poll_new find
    Epoll.events_add Epoll.init add_event_loop
server_home l e = subst (λ x. pos 100 ≡ (looped.loops x).tid) (some-injective _ _ e) refl

sound_Reach : Reach table_kernel table_files false true nothing waited
sound_Reach =
    later
      (later
        (later here (
          spawns 50 1 (pos 100) true true (λ t. no_loop t 50)
            (λ l j live. absurd (no_loop (pos 100) l live))
            (λ l live. absurd (no_loop (pos 100) l live)) spawned))
        (starts (pos 100) 9 server (record server { loop = some 50 }) true server_home started))
      (waits 3 50 [] waited_once)

Reach-Sound_example : Sound table_kernel waited
Reach-Sound_example =
    Reach-Sound table_kernel table_files false true nothing waited refl sound_Reach
