-- ===== src/Epoll.antt =====
-- base/Epoll.h and base/Epoll.cpp over an abstract kernel. `revents_` is held as its size and its
-- capacity: the kernel writes through `data()`, so what bounds a write is the storage. What was
-- written is the kernel's reply. `maxNum_` and `addStep_` are `int`s that do not get near 2 ^ 31.
-- `ndebug` says whether asserts are compiled out; the build files leave them in.
pub mod Buffer
pub mod Interest
use fasco.Base.{
  ℕ, zero, suc, ◌+◌, ◌≤◌, ◌≡◌, Bool, true, false, not, List, [], ◌∷◌, ◌++◌, length, if◌then◌else◌,
  nat_beq, leb, ◌==◌, max, map, ◌⊎◌, inl, inr, refl,
}
use fasco.Base.Int.{ℤ, minus_one, int_eq}
use fasco.Base.Outcome.{Outcome, Fault, ok, fault, pending, out_of_bounds, ◌>>=◌, ◌>>◌, assert_that}
use fasco.Events.{Events, EpollEvent, epoll_events}
use fasco.Kernel.{Kernel, CtlOp, ctl_add, ctl_mod, ctl_del, WaitReply, ready, interrupted, failed}

pub record PollerEvent : Type 0 where
  pub fd : ℤ
  pub event : ℕ

pub record Epoll : Type 0 where
  pub epoll_fd : ℤ
  pub size : ℕ
  pub capacity : ℕ
  pub max_num : ℕ
  pub add_step : ℕ

-- std::vector: `clear` keeps the capacity, `resize` makes it as large as it must be.
abbrev pub clear : Epoll → Epoll
clear p = record p { size = 0 }

abbrev pub resize : ℕ → Epoll → Epoll
resize n p = record p { size = n; capacity = max n p.capacity }

abbrev pub poller_event : EpollEvent → PollerEvent
poller_event ev = record { fd = ev.data_fd; event = ev.events }

-- What the loop `for (i = 0; i < ret; i++)` sees: nothing, where `ret` is -1.
abbrev pub reported : WaitReply → List EpollEvent
reported (ready events) = events
reported interrupted = []
reported failed = []

-- The buffer after a wait that filled `ret` entries of it.
unfoldable pub after_wait : ℕ → Epoll → Epoll
after_wait ret p =
    let cleared = clear p in
    if nat_beq ret cleared.max_num
    then resize (cleared.max_num + cleared.add_step)
        (record cleared { max_num = cleared.max_num + cleared.add_step })
    else cleared

pub WaitReply-cases :
    (r : WaitReply)
    → ((events : List EpollEvent) × (r ≡ ready events)) ⊎ ((r ≡ interrupted) ⊎ (r ≡ failed))
WaitReply-cases (ready events) = inl (events, refl)
WaitReply-cases interrupted = inr (inl refl)
WaitReply-cases failed = inr (inr refl)

module _ (k : Kernel) (ndebug : Bool) where
  open k use {State}

  unfoldable pub event_ctl : Epoll → CtlOp → ℤ → EpollEvent → State → Outcome (State × Bool)
  event_ctl p op sd ev s = do
    assert_that ndebug (not (p.epoll_fd == minus_one))
    let r = k.epoll_ctl s p.epoll_fd op sd ev
    ok (r.0, not (r.1 == minus_one))

  -- `eventAdd`, `eventDel` and `eventMod`
  abbrev pub event_add : Epoll → ℤ → EpollEvent → State → Outcome (State × Bool)
  event_add p sd event s = event_ctl p ctl_add sd event s

  abbrev pub event_del : Epoll → ℤ → EpollEvent → State → Outcome (State × Bool)
  event_del p sd event s = event_ctl p ctl_del sd event s

  abbrev pub event_mod : Epoll → ℤ → EpollEvent → State → Outcome (State × Bool)
  event_mod p sd event s = event_ctl p ctl_mod sd event s

  unfoldable pub events_add : Epoll → Events → State → Outcome (State × Bool)
  unfolding event_ctl
  events_add p events s = let event = epoll_events events in event_add p event.data_fd event s

  unfoldable pub events_mod : Epoll → Events → State → Outcome (State × Bool)
  unfolding event_ctl
  events_mod p events s = let event = epoll_events events in event_mod p event.data_fd event s

  unfoldable pub events_del : Epoll → Events → State → Outcome (State × Bool)
  unfolding event_ctl
  events_del p events s = let event = epoll_events events in event_del p event.data_fd event s

module _ (k : Kernel) where
  open k use {State}

  unfoldable pub init : State → Epoll × State
  init s =
      let (s', fd) = k.epoll_create s in
      (
        resize 20 (record { epoll_fd = fd; size = 0; capacity = 0; max_num = 20; add_step = 15 }),
        s',
      )

  -- `loopWait`: on EINTR the call is made again.
  unfoldable pub loop_wait : ℕ → ℤ → ℕ → ℕ → State → Outcome (State × WaitReply)
  loop_wait zero epfd maxevents timeout s = pending
  loop_wait (suc fuel) epfd maxevents timeout s =
      let r = k.epoll_wait s epfd maxevents timeout in
      elim (r.1) [
        | ready events ↦ ok (r.0, ready events)
        | interrupted ↦ loop_wait fuel epfd maxevents timeout r.0
        | failed ↦ ok (r.0, failed)
      ]

  -- `Loop(events, timeout)`: what was reported goes to the end of `events`. A reply that does not
  -- fit the storage is written past its end.
  unfoldable pub loop :
      ℕ → Epoll → List PollerEvent → ℕ → State → Outcome (Epoll × State × List PollerEvent)
  unfolding after_wait
  loop fuel p events timeout s = do
    (s', reply) ← loop_wait fuel p.epoll_fd p.max_num timeout s
    let got = reported reply
    (if leb (length got) p.capacity
        then ok (after_wait (length got) p, s', events ++ map poller_event got)
        else fault out_of_bounds)
