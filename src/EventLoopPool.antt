-- ===== src/EventLoopPool.antt =====
-- base/EventLoopPool.h and base/EventLoopPool.cpp: the event loops of the process, by thread, and
-- the round over those that serve connections. A loop is named by its address, nullptr is `none`.
-- Each member function holds the mutex from end to end, so it is one step. `next_` is a size_t; it
-- never exceeds the number of loops.
pub mod RoundRobin
pub mod Registry
use fasco.Base.{
  ℕ, suc, ◌+◌, ◌≤◌, Bool, true, false, ◌||◌, not, Option, none, some, is_some, List, [], ◌∷◌, ◌++◌,
  length, get_elem?, if◌then◌else◌, leb, nat_beq,
}
use fasco.Base.Int.{ℤ, int_eq}
use fasco.Base.Map.{Map, find, assign}

pub record EventLoopPool : Type 0 where
  pub main_loop : Option ℕ
  pub loops : Map ℤ ℕ
  pub next_loops : List ℕ
  pub next : ℕ

abbrev pub empty : EventLoopPool
empty = record { main_loop = none; loops = []; next_loops = []; next = 0 }

-- The registration of a loop that is neither null nor a second one for its thread.
unfoldable pub register : ℤ → ℕ → Bool → EventLoopPool → EventLoopPool
register tid loop ismain p =
    let p' = record p { loops = assign tid loop p.loops } in
    if not ismain
    then record p' { next_loops = p'.next_loops ++ loop ∷ [] }
    else record p' { main_loop = some loop }

-- `addEventLoop(tid, loop, ismain)`
unfoldable pub add_event_loop : ℤ → Option ℕ → Bool → EventLoopPool → EventLoopPool × Bool
unfolding register
add_event_loop tid none ismain p = (p, false)
add_event_loop tid (some loop) ismain p =
    if is_some (find tid p.loops) then (p, false) else (register tid loop ismain p, true)

-- `getNextLoop()`
unfoldable pub get_next_loop : EventLoopPool → EventLoopPool × Option ℕ
get_next_loop p =
    if nat_beq (length p.next_loops) 0
    then (p, p.main_loop)
    else (let next = if leb (length p.next_loops) p.next then 0 else p.next in
        (record p { next = next + 1 }, get_elem? p.next_loops next))

-- `getLoop(tid)`
unfoldable pub get_loop : ℤ → EventLoopPool → Option ℕ
get_loop tid p = find tid p.loops

-- `getMainLoop()`
unfoldable pub get_main_loop : EventLoopPool → Option ℕ
get_main_loop p = elim (p.main_loop) [ none ↦ none | some loop ↦ some loop ]
