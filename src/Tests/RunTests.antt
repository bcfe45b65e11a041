-- ===== src/Tests/RunTests.antt =====
-- Tests of the loop of base/EventLoop.cpp: its constructor, its rounds and what it does with an event.
use fasco.Base.{
  ℕ, zero, suc, ◌≡◌, refl, ◌<◌, ◌≤◌, Bool, false, some, List, ◌||◌, if◌then◌else◌, [], ◌∷◌, arith,
  max,
}
use fasco.Base.Bits.{bit, bit_above}
use fasco.Base.Int.{pos}
use fasco.Base.Map.{find}
use fasco.Base.Outcome.{ok, value_or, Safe}
use fasco.Events.{
  Events, State, put, origin_read, origin_write, contains_at_least_one_events, k_read_event,
  k_write_event,
}
use fasco.Kernel.{ready}
use fasco.Kernel.Table.{table_kernel, quiet, TableState}
use fasco.Epoll
use fasco.Epoll.{Epoll, PollerEvent, after_wait, loop_wait}
use fasco.EventLoop.{
  World, event_handle_able, handle_event, handle_known, handle_checked, dispatch, loop_while,
}
use fasco.EventLoop
use fasco.EventLoop.HandleAble.{unasked}
use fasco.EventLoop.Run.{
  Inv, Ended, loop-Ended, Rounds, stop, more, nothing, event, loop_while-Rounds,
}
use fasco.EventLoop.Made.{Made, init-Made}
use fasco.McoPool
use fasco.EventLoop.Dispatch.{handle_event_resumes, handle_event_unasked}
use fasco.McoPool.{get_mco_routine}
use fasco.Tests.Samples.{fresh_event, poll, loop, serving, quitting, script}
use fasco.Tests.LoopTests.{poll-IsSized, asked}

serving-Inv : Inv table_kernel (record (serving fresh_event) { sys = script })
serving-Inv = record { sized = poll-IsSized; no_stray = λ j h. refl }

quitting-Safe :
    (m : ℕ) (w : World table_kernel) → Inv table_kernel w → Safe (Inv table_kernel) (quitting m w)
quitting-Safe m w v = record { sized = v.sized; no_stray = v.no_stray }

loop-Ended_example : Safe (Ended table_kernel quitting quitting-Safe) (
    EventLoop.loop table_kernel quitting false
      (pos 100)
      3
      3
      (record (serving fresh_event) { sys = script }))
loop-Ended_example =
    loop-Ended table_kernel quitting quitting-Safe false (pos 100) 3 3
      (record (serving fresh_event) { sys = script }) refl serving-Inv

init-Made_example :
    (v : World table_kernel) × (b : Bool) × (EventLoop.init table_kernel false 1
        (pos 100)
        (λ a. fresh_event)
        quiet
        McoPool.empty
      ≡ ok (v, b))
    × Made table_kernel false 1 (pos 100) quiet v b
    × ((fuel tries : ℕ)
        → Safe
            (Ended table_kernel quitting quitting-Safe)
            (EventLoop.loop table_kernel quitting false (pos 100) fuel tries v))
init-Made_example =
    init-Made table_kernel false 1 (pos 100) (λ a. fresh_event) quiet McoPool.empty quitting
      quitting-Safe (λ e. cc) refl

abbrev one_event : PollerEvent
one_event = record { fd = pos 7; event = 1 }

abbrev both_ways : PollerEvent
both_ways = record { fd = pos 7; event = 5 }

handle_event_resumes_example :
    (left : ℕ) × (handle_event table_kernel quitting both_ways (serving asked)
      ≡ quitting 9 (record (serving asked) {
        heap = put (λ a. asked) 1 (record asked { mutable = left });
        pool = record { cur = some 9; fd_mcos = (pos 7, 9) ∷ [] };
      }))
    × ((i : ℕ)
        → i < 32
        → bit i left ≡ (
            if unasked i k_read_event (origin_read asked)
              || unasked i k_write_event (origin_write asked)
            then 0
            else bit i 5))
unfolding find get_mco_routine origin_read origin_write contains_at_least_one_events bit
handle_event_resumes_example =
    handle_event_resumes table_kernel quitting both_ways (serving asked) 1 9 0 refl refl refl
      (λ e. cc) refl (omega arith) refl refl

-- The object asks for nothing.
abbrev no_interest : Events
no_interest = record fresh_event { state = State.modified; eorigin = 0 }

low_bit : (n : ℕ) → n < 32 → bit n 1 ≤ max (bit n 3) (bit n 4)
unfolding bit
low_bit zero h = omega arith
low_bit (suc n) h = omega (arith, bit_above 0 n 0 (omega arith) (omega arith))

handle_event_unasked_example :
    handle_event table_kernel quitting one_event (serving no_interest)
    ≡ ok (record (serving no_interest) {
      heap = put (λ a. no_interest) 1 (record no_interest { mutable = 0 });
    })
unfolding find origin_read origin_write contains_at_least_one_events
handle_event_unasked_example =
    handle_event_unasked table_kernel quitting one_event (serving no_interest) 1 refl refl
      (omega arith) refl refl low_bit

-- The kernel reports two events for descriptor 7 at once.
abbrev two_script : TableState
two_script = record quiet {
  script =
      ready (record { events = 1; data_fd = pos 7 } ∷ record { events = 4; data_fd = pos 7 } ∷ [])
      ∷ [];
}

abbrev served : World table_kernel
served = record (serving fresh_event) { sys = two_script }

abbrev batch : List PollerEvent
batch = one_event ∷ record { fd = pos 7; event = 4 } ∷ []

abbrev cleared : Epoll
cleared = record poll { size = 0 }

abbrev waited : World table_kernel
waited = record (serving fresh_event) {
  loop = record loop { poll = cleared; events = (pos 7, 1) ∷ [] };
  sys = record quiet { script = [] };
}

abbrev after_first : World table_kernel
unfolding handle_event handle_known handle_checked dispatch find get_mco_routine event_handle_able
after_first = value_or waited (handle_event table_kernel quitting one_event waited)

abbrev after_second : World table_kernel
unfolding after_first handle_event handle_known handle_checked dispatch find get_mco_routine
    event_handle_able
after_second =
    value_or waited
      (handle_event table_kernel quitting (record { fd = pos 7; event = 4 }) after_first)

wait_runs :
    Epoll.loop table_kernel 3 poll [] 2000000 two_script
    ≡ ok (cleared, record quiet { script = [] }, batch)
unfolding Epoll.loop loop_wait after_wait
wait_runs = refl

-- `quit_` is set by the first event, and the second is handled all the same.
one_round : Rounds table_kernel quitting 3 1 served after_second
unfolding after_first after_second
one_round =
    more served after_second cleared (record quiet { script = [] }) batch refl wait_runs
      (event one_event waited after_first refl (
        event (record { fd = pos 7; event = 4 }) after_first after_second refl
          (nothing after_second)))
      (stop after_second refl)

loop_while-Rounds_example : loop_while table_kernel quitting 2 3 served ≡ ok after_second
loop_while-Rounds_example =
    loop_while-Rounds table_kernel quitting 3 2 1 served after_second one_round (omega arith)
