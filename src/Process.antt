-- ===== src/Process.antt =====
-- base/Eventsops.h, and the parts of a process that its functions and those of base/SysapiHook.cpp
-- and base/TcpServer.cpp reach: the event loops by address, the Events objects and the kernel that
-- they share, the registry of loops, and the coroutine pool of each thread (`pools` is what
-- `PoolInThreads<McoPool>` gives to a thread: PoolInThreads). A loop's work under its mutex is one
-- step. `ndebug` compiles the asserts out.
pub mod Views
pub mod Sound
pub mod Updates
pub mod Steps
pub mod Rounds
pub mod Spawn
pub mod Join
pub mod Started
use fasco.Base.{ℕ, Bool, true, false, Option, none, some, if◌then◌else◌, nat_beq, ◌==◌}
use fasco.Base.Int.{ℤ, int_eq}
use fasco.Base.Outcome.{Outcome, ok, fault, pending, ◌>>=◌, ◌>>◌, assert_that}
use fasco.Events.{Events, State, Heap, put, set_state}
use fasco.Kernel.{Kernel}
use fasco.McoPool.{McoPool}
use fasco.EventLoop.{EventLoop, World}
use fasco.EventLoop
use fasco.EventLoopPool.{EventLoopPool}
use fasco.EventLoopPool

pub record Process (k : Kernel) : Type 0 where
  pub loops : ℕ → EventLoop
  pub heap : Heap
  pub sys : k.State
  pub pools : ℤ → McoPool
  pub registry : EventLoopPool

module _ (k : Kernel) where
  -- A loop with what it reaches: its pool is that of its own thread.
  abbrev pub view : ℕ → Process k → World k
  view l w = record { loop = w.loops l; heap = w.heap; sys = w.sys; pool = w.pools (w.loops l).tid }

  -- The process after a step of the loop that leaves the pool alone.
  abbrev pub put_loop : ℕ → World k → Process k → Process k
  put_loop l v w = record w {
    loops = λ a. if nat_beq l a then v.loop else w.loops a;
    heap = v.heap;
    sys = v.sys;
  }

  abbrev pub put_pool : ℤ → McoPool → Process k → Process k
  put_pool tid pool w = record w { pools = λ t. if tid == t then pool else w.pools t }

  abbrev pub put_event : ℕ → Events → Process k → Process k
  put_event p e w = record w { heap = put w.heap p e }

module _ (k : Kernel) (ndebug : Bool) where
  -- `loop->updateEvents(event)`
  unfoldable pub loop_update : ℕ → ℕ → Process k → Outcome (Process k × Bool)
  loop_update l p w =
      EventLoop.update_events k ndebug p (view k l w) >>= λ r. ok (put_loop k l r.0 w, r.1)

  unfoldable pub update_registered : Option ℕ → ℕ → Process k → Outcome (Process k × Bool)
  update_registered none p w = ok (w, false)
  update_registered (some l) p w = loop_update l p w

  -- `Eventsops::UpdateLoopEvents(event)`
  unfoldable pub update_loop_events : ℕ → Process k → Outcome (Process k × Bool)
  update_loop_events p w = update_registered (EventLoopPool.get_loop (w.heap p).tid w.registry) p w

  -- `assert(false); return false` where there is no loop.
  unfoldable pub remove_registered : Option ℕ → ℕ → Process k → Outcome (Process k × Bool)
  remove_registered none p w = assert_that ndebug false >> ok (w, false)
  remove_registered (some l) p w =
      loop_update l p (put_event k p (set_state State.del (w.heap p)) w)

  -- `Eventsops::RemoveEventFromLoop(event)`
  unfoldable pub remove_event_from_loop : ℕ → Process k → Outcome (Process k × Bool)
  remove_event_from_loop p w =
      remove_registered (EventLoopPool.get_loop (w.heap p).tid w.registry) p w

module _ (k : Kernel) where
  unfoldable pub events_registered : Option ℕ → ℤ → Process k → Option ℕ
  events_registered none fd w = none
  events_registered (some l) fd w = EventLoop.get_events k fd (view k l w)

  -- `Eventsops::GetEvents(fd)`, called in thread `tid`.
  unfoldable pub get_events : ℤ → ℤ → Process k → Option ℕ
  get_events tid fd w = events_registered (EventLoopPool.get_loop tid w.registry) fd w
