-- ===== src/Tests/EventsTests.antt =====
-- Tests of base/Events.h and base/Events.cpp.
use fasco.Base.{ℕ, ◌≡◌, refl, ◌↔◌, ◌<◌, true, false, arith}
use fasco.Events.{
  IsWellFormed, contains_events, contains_at_least_one_events, move_assign, is_close,
}
use fasco.Base.Int.{minus_one}
use fasco.Events.Masks.{Has, Meets, contains_masks}
use fasco.Tests.Samples.{fresh_event}

-- A hang-up is a close only when there is nothing to read.
hang_up : is_close (record fresh_event { mutable = 0x10 }) ≡ true
unfolding is_close contains_at_least_one_events
hang_up = refl

hang_up_with_data : is_close (record fresh_event { mutable = 0x11 }) ≡ false
unfolding is_close contains_at_least_one_events
hang_up_with_data = refl

-- The source of a move is left without its descriptor.
moved : (move_assign 1 2 (λ a. fresh_event) 2).fd ≡ minus_one
unfolding move_assign
moved = refl

fresh_event-IsWellFormed : IsWellFormed fresh_event
fresh_event-IsWellFormed = omega arith

contains_masks_example :
    ((contains_events 7 3 ≡ true) ↔ ((k : ℕ) → k < 32 → Has k 3 → Has k 7))
    × ((contains_at_least_one_events 7 3 ≡ true) ↔ Meets 7 3)
contains_masks_example = contains_masks 7 3 (omega arith) (omega arith)
