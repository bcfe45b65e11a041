-- ===== src/Tests/LoopTests.antt =====
-- Tests of base/Epoll.cpp and base/EventLoop.cpp.
use fasco.Base.{ℕ, ◌≡◌, refl, ◌≢◌, ◌↔◌, Bool, true, false, [], ◌∷◌, inl, arith}
use fasco.Base.Bits.{bit_not}
use fasco.Base.Int.{pos, minus_one}
use fasco.Base.Map.{find, assign, erase}
use fasco.Base.Outcome.{ok, fault, assertion, value_or, Safe}
use fasco.Events.{
  Events, State, add_event, origin_read, origin_write, contains_at_least_one_events, is_read,
  is_write, delete_event_mutable,
}
use fasco.Kernel.{ready}
use fasco.Kernel.Table.{table_kernel, quiet}
use fasco.Epoll
use fasco.Epoll.{Epoll, events_add, events_mod, events_del}
use fasco.Epoll.Buffer.{IsSized, at_once, again, Retries, loop_lem, loop-Safe, Looped}
use fasco.EventLoop.{
  World, update_events, poll_update, poll_new, poll_mod, poll_del, event_handle_able, drop_read,
  drop_write, assert_erase,
}
use fasco.EventLoop.HandleAble.{event_handle_able_modified, event_handle_able_other}
use fasco.EventLoop.Update.{Update, update_events-Update}
use fasco.EventLoop.Sync.{
  NoStray, Agrees, Stuck, update_events-NoStray, update_events-Agrees, refused_add_sticks,
  new_twice,
}
use fasco.Tests.Samples.{fresh_event, poll, world, script}

pub poll-IsSized : IsSized poll
poll-IsSized = omega arith

-- The kernel interrupts once, and then reports one event.
once :
    Retries table_kernel
      (pos 3)
      20
      2000000
      1
      script
      (record quiet { script = [] })
      (ready (record { events = 1; data_fd = pos 7 } ∷ []))
once = again script refl (
    at_once (record script { script = ready (record { events = 1; data_fd = pos 7 } ∷ []) ∷ [] }) _
      refl (λ e. cc))

loop_lem_example :
    (p' : Epoll) × (Epoll.loop table_kernel 2 poll [] 2000000 script
      ≡ ok (p', record quiet { script = [] }, record { fd = pos 7; event = 1 } ∷ []))
    × IsSized p'
    × (◌≡◌ {A = ℕ} 1 20 → p'.max_num ≡ 35)
    × (◌≢◌ {A = ℕ} 1 20 → p'.max_num ≡ 20)
loop_lem_example =
    loop_lem table_kernel poll poll-IsSized [] 2000000 2 1 script _ _ once (omega arith)

loop-Safe_example :
    Safe
      (Looped table_kernel poll poll-IsSized [] 2000000 script)
      (Epoll.loop table_kernel 1 poll [] 2000000 script)
loop-Safe_example = loop-Safe table_kernel poll poll-IsSized [] 2000000 1 script

-- The world after an update of the object at address 1.
abbrev updated : Bool → World table_kernel → World table_kernel
unfolding update_events poll_update poll_new poll_mod poll_del events_add events_mod events_del
    assert_erase find assign erase
updated nd w = (value_or (w, false) (update_events table_kernel nd 1 w)).0

-- Descriptor 7 is unknown and not watched in `world`.
add_runs :
    update_events table_kernel false 1 (world fresh_event)
    ≡ ok (updated false (world fresh_event), true)
unfolding updated update_events poll_update poll_new poll_mod poll_del events_add events_mod
    events_del assert_erase find assign erase
add_runs = refl

update_events-Update_example :
    Update table_kernel false 1 (world fresh_event) (updated false (world fresh_event)) true
update_events-Update_example =
    update_events-Update table_kernel false 1 (world fresh_event)
      (updated false (world fresh_event)) true add_runs

update_events-NoStray_example : NoStray table_kernel (updated false (world fresh_event))
update_events-NoStray_example =
    update_events-NoStray table_kernel false 1 (world fresh_event)
      (updated false (world fresh_event)) true add_runs (λ j h. refl)

update_events-Agrees_example : Agrees table_kernel (updated false (world fresh_event)) (pos 7)
unfolding find
update_events-Agrees_example =
    update_events-Agrees table_kernel false 1 (world fresh_event)
      (updated false (world fresh_event)) (λ e. cc) (inl refl) (λ j ne. inl (refl, refl)) (inl refl)
      add_runs (pos 7)

new_twice_example :
    update_events table_kernel false 1 (updated false (world fresh_event)) ≡ fault assertion
new_twice_example =
    new_twice table_kernel 1 (world fresh_event) (updated false (world fresh_event)) true refl
      add_runs

-- The kernel takes no descriptor below 0.
abbrev bad_event : Events
bad_event = record fresh_event { fd = minus_one }

abbrev bad_world : World table_kernel
bad_world = updated false (world bad_event)

abbrev bad_retry : World table_kernel
bad_retry = record bad_world { heap = λ a. add_event 4 bad_event }

bad_add : update_events table_kernel false 1 (world bad_event) ≡ ok (bad_world, false)
unfolding updated update_events poll_update poll_new poll_mod poll_del events_add events_mod
    events_del assert_erase find assign erase
bad_add = refl

bad_mod : update_events table_kernel false 1 bad_retry ≡ ok (updated false bad_retry, false)
unfolding updated update_events poll_update poll_new poll_mod poll_del events_add events_mod
    events_del assert_erase find assign erase add_event
bad_mod = refl

refused_add_sticks_example :
    Stuck table_kernel bad_world minus_one
    × (false ≡ false)
    × Stuck table_kernel (updated false bad_retry) minus_one
unfolding add_event
refused_add_sticks_example =
    refused_add_sticks table_kernel false 1 1 (world bad_event) bad_world bad_retry
      (updated false bad_retry) false refl refl bad_add refl refl refl refl bad_mod

-- Reported readable and writable, and only reading is asked for.
abbrev pub asked : Events
asked = record fresh_event { state = State.modified; mutable = 5 }

event_handle_able_modified_example :
    ((event_handle_able asked).1 ≡ true) ↔ ((event_handle_able asked).0.mutable ≢ 0)
event_handle_able_modified_example = (event_handle_able_modified asked refl).2

able_test : (event_handle_able asked).0.mutable ≡ 1
unfolding event_handle_able drop_read drop_write is_read is_write origin_read origin_write
    contains_at_least_one_events delete_event_mutable bit_not
able_test = refl

event_handle_able_other_example :
    event_handle_able (record fresh_event { state = State.del })
    ≡ (record fresh_event { state = State.del }, false)
event_handle_able_other_example =
    event_handle_able_other (record fresh_event { state = State.del }) (λ e. cc)
