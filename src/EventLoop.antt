-- ===== src/EventLoop.antt =====
-- base/EventLoop.h and base/EventLoop.cpp: one event loop, with the heap of Events objects that it
-- shares with its users, the kernel, and the coroutine pool of the thread that runs it. What stands
-- under the loop's mutex is one step. Addresses of Events objects are numbers; the lifetime of the
-- objects is not modelled. `ndebug` compiles the asserts out, and with them what they evaluate.
pub mod Step
pub mod HandleAble
pub mod Update
pub mod Sync
pub mod Run
pub mod Dispatch
pub mod Total
pub mod Elsewhere
pub mod Made
pub mod Start
use fasco.Base.{
  ℕ, zero, suc, ◌≡◌, Bool, true, false, not, ◌&&◌, List, [], ◌∷◌, Option, none, some, is_some,
  if◌then◌else◌, nat_beq, ◌==◌,
}
use fasco.Base.Int.{ℤ, is_neg, int_eq}
use fasco.Base.Map.{Map, find, assign, erase}
use fasco.Base.Outcome.{Outcome, aborted, ok, fault, pending, ◌>>=◌, ◌>>◌, assert_that}
use fasco.Events.{
  Events, Heap, put, make, set_type, set_mutable, k_read_event, k_write_event, k_none_event,
  event_type_event, is_invaild, isnew, ismod, isdel, is_read, is_write, origin_read, origin_write,
  delete_event_mutable,
}
use fasco.Kernel.{Kernel}
use fasco.Epoll
use fasco.Epoll.{Epoll, PollerEvent, events_add, events_mod, events_del}
use fasco.McoPool.{McoPool, get_mco_routine, set_cur_mco}

pub record EventLoop : Type 0 where
  pub poll : Epoll
  pub poll_delta : ℕ
  pub events : Map ℤ ℕ
  pub tid : ℤ
  pub quit_ : Bool
  pub wake_fd : ℤ
  pub wake_event : ℕ

pub record World (k : Kernel) : Type 0 where
  pub loop : EventLoop
  pub heap : Heap
  pub sys : k.State
  pub pool : McoPool

-- The two `if`s of `eventHandleAble`: a flag that nobody asked for is taken off.
unfoldable pub drop_read : Events → Events
drop_read origin =
    if is_read origin && not (origin_read origin)
    then delete_event_mutable k_read_event origin
    else origin

unfoldable pub drop_write : Events → Events
drop_write origin =
    if is_write origin && not (origin_write origin)
    then delete_event_mutable k_write_event origin
    else origin

-- `eventHandleAble(origin)`, on the object itself.
unfoldable pub event_handle_able : Events → Events × Bool
event_handle_able origin =
    if isdel origin
    then (origin, false)
    else if ismod origin
    then (let dropped = drop_write (drop_read origin) in
        (dropped, not (nat_beq dropped.mutable k_none_event)))
    else (origin, true)

-- `getTid()`, `resetOwnerTid()` and `assertInOwnerThread()`, called in thread `caller`.
abbrev pub get_tid : EventLoop → ℤ
get_tid l = l.tid

abbrev pub reset_owner_tid : ℤ → EventLoop → EventLoop
reset_owner_tid caller l = record l { tid = caller }

abbrev pub assert_in_owner_thread : Bool → ℤ → EventLoop → Outcome (Unit {0})
assert_in_owner_thread ndebug caller l = assert_that ndebug (caller == l.tid)

module _ (k : Kernel) where
  -- The bytes that go through the eventfd are only logged.
  unfoldable pub wakeup_loop : World k → World k
  wakeup_loop w = record w { sys = (k.write_eventfd w.sys w.loop.wake_fd).0 }

  -- `quit()`, called in thread `caller`.
  unfoldable pub quit : ℤ → World k → World k
  unfolding wakeup_loop
  quit caller w =
      let w' = record w { loop = record (w.loop) { quit_ = true } } in
      if w'.loop.tid == caller then w' else wakeup_loop w'

  unfoldable pub handle_wake : ℤ → World k → World k
  handle_wake wakefd w = record w { sys = (k.read_eventfd w.sys wakefd).0 }

  unfoldable pub get_events : ℤ → World k → Option ℕ
  get_events fd w = find fd w.loop.events

  abbrev pub keep : World k → Map ℤ ℕ → World k
  keep w events = record w { loop = record (w.loop) { events = events } }

  -- The world after a call of the poller's, and the call's result.
  abbrev pub polled : World k → k.State × Bool → Outcome (World k × Bool)
  polled w (s, b) = ok (record w { sys = s }, b)

module _ (k : Kernel) (ndebug : Bool) where
  -- `assert(events_.erase(fd))`.
  unfoldable pub assert_erase : ℤ → World k → Outcome (World k)
  assert_erase fd w = if ndebug then ok w else do
    assert_that ndebug (is_some (find fd w.loop.events))
    ok (keep k w (erase fd w.loop.events))

  unfoldable pub poll_new : ℕ → World k → Outcome (World k × Bool)
  poll_new p w = do
    let e = w.heap p
    assert_that ndebug (not (is_some (find e.fd w.loop.events)))
    let w' = keep k w (assign e.fd p w.loop.events)
    events_add k ndebug w.loop.poll e w.sys >>= polled k w'

  unfoldable pub poll_mod : ℕ → World k → Outcome (World k × Bool)
  poll_mod p w =
      let e = w.heap p in
      if is_some (find e.fd w.loop.events)
      then events_mod k ndebug w.loop.poll e w.sys >>= polled k w
      else events_add k ndebug w.loop.poll e w.sys
        >>= polled k (keep k w (assign e.fd p w.loop.events))

  unfoldable pub poll_del : ℕ → World k → Outcome (World k × Bool)
  poll_del p w = do
    let e = w.heap p
    (s, _) ← events_del k ndebug w.loop.poll e w.sys
    w' ← assert_erase e.fd (record w { sys = s })
    ok (w', true)

  -- `pollUpdate(event)`
  unfoldable pub poll_update : ℕ → World k → Outcome (World k × Bool)
  poll_update p w =
      let e = w.heap p in
      if is_invaild e
      then ok (w, false)
      else if isnew e
      then poll_new p w
      else if ismod e
      then poll_mod p w
      else if isdel e
      then poll_del p w
      else ok (w, true)

  -- `updateEvents(event)`
  unfoldable pub update_events : ℕ → World k → Outcome (World k × Bool)
  unfolding wakeup_loop
  update_events p w =
      if is_invaild (w.heap p) then ok (w, false) else poll_update p (wakeup_loop k w)

  -- `CreateEventfd()`
  unfoldable pub create_eventfd : k.State → Outcome (k.State × ℤ)
  create_eventfd s = let r = k.eventfd s in if is_neg (r.1) then fault aborted else ok r

  -- The constructor, in thread `tid`: the wake event is put at the address `p`.
  unfoldable pub init : ℕ → ℤ → Heap → k.State → McoPool → Outcome (World k × Bool)
  unfolding make update_events create_eventfd
  init p tid heap sys pool = do
    let made = Epoll.init k sys
    (sys', wake_fd) ← create_eventfd made.1
    let wake = set_type event_type_event (make wake_fd k_read_event tid)
    update_events p (record {
      loop = record {
        poll = made.0;
        poll_delta = 200;
        events = [];
        tid = tid;
        quit_ = false;
        wake_fd = wake_fd;
        wake_event = p;
      };
      heap = put heap p wake;
      sys = sys';
      pool = pool;
    })

-- What the loop does with one event. `resume` runs a coroutine until it yields: user code, which
-- may do anything to the world.
module _ (k : Kernel) (resume : ℕ → World k → Outcome (World k)) where
  -- `Mcosops::Resume` of the coroutine that waits for the descriptor, if there is one.
  unfoldable pub dispatch : ℤ → World k → Outcome (World k)
  dispatch fd w = elim (get_mco_routine fd w.pool) [
    | none ↦ ok w
    | some mco ↦ resume mco (record w { pool = set_cur_mco (some mco) w.pool })
  ]

  -- With the object as `eventHandleAble` left it, and its answer.
  unfoldable pub handle_checked : ℕ → Events → Bool → World k → Outcome (World k)
  unfolding dispatch handle_wake
  handle_checked p e false w = ok (record w { heap = put w.heap p e })
  handle_checked p e true w =
      let w' = record w { heap = put w.heap p e } in
      if w.loop.wake_fd == e.fd then ok (handle_wake k w.loop.wake_fd w') else dispatch e.fd w'

  unfoldable pub handle_known : ℕ → ℕ → World k → Outcome (World k)
  unfolding handle_checked
  handle_known p event w =
      let r = event_handle_able (set_mutable event (w.heap p)) in handle_checked p r.0 r.1 w

  unfoldable pub handle_event : PollerEvent → World k → Outcome (World k)
  handle_event pe w = elim (find pe.fd w.loop.events) [
    | none ↦ ok w
    | some p ↦ handle_known p pe.event w
  ]

  unfoldable pub handle_all : List PollerEvent → World k → Outcome (World k)
  handle_all [] w = ok w
  handle_all (pe ∷ occur) w = do w' ← handle_event pe w; handle_all occur w'

  -- One round: wait, then handle what occurred. `tries` bounds the waits that EINTR cuts short.
  unfoldable pub round : ℕ → World k → Outcome (World k)
  round tries w = do
    (poll', sys', occur) ← Epoll.loop k tries w.loop.poll [] 2000000 w.sys
    handle_all occur (record w { loop = record (w.loop) { poll = poll' }; sys = sys' })

  -- `while (!quit_)`
  unfoldable pub loop_while : ℕ → ℕ → World k → Outcome (World k)
  loop_while zero tries w = pending
  loop_while (suc fuel) tries w =
      let rest = round tries w >>= loop_while fuel tries in if w.loop.quit_ then ok w else rest

  -- `loop()`, called in thread `caller`.
  unfoldable pub loop : Bool → ℤ → ℕ → ℕ → World k → Outcome (World k)
  loop ndebug caller fuel tries w = do
    assert_that ndebug (caller == w.loop.tid)
    loop_while fuel tries w
