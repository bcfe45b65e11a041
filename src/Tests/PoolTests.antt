-- ===== src/Tests/PoolTests.antt =====
-- Tests of base/EventLoopPool.cpp, tools/PoolInThreads.hpp and mco/McoStack.cpp.
use fasco.Base.{
  ℕ, zero, ◌≡◌, refl, ◌≢◌, ◌⊎◌, true, false, Option, none, some, [], ◌∷◌, ◌++◌, arith,
  if◌then◌else◌, ◌==◌,
}
use fasco.Base.Int.{ℤ, pos, int_eq}
use fasco.Base.Map.{find}
use fasco.EventLoopPool.{EventLoopPool, add_event_loop, get_next_loop, get_loop, get_main_loop}
use fasco.EventLoopPool.RoundRobin.{get_next_loop-after_calls, after_calls}
use fasco.EventLoopPool.Registry.{add_event_loop_lem}
use fasco.PoolInThreads.{PoolInThreads, get_t, instance_new}
use fasco.PoolInThreads.Isolation.{IsOwned, get_t-IsOwned}
use fasco.McoStack.{
  McoStack, Memory, store_used_common_stack, recover_used_common_stack, read_bytes, page_rounded,
}
use fasco.McoStack
use fasco.McoStack.SaveRestore.{recover-store}

-- Two serving loops, and one call was made.
abbrev two_loops : EventLoopPool
two_loops = record {
  main_loop = some 50;
  loops = (pos 1, 50) ∷ (pos 2, 60) ∷ (pos 3, 70) ∷ [];
  next_loops = 60 ∷ 70 ∷ [];
  next = 1;
}

get_next_loop-after_calls_example : (get_next_loop (after_calls 3 two_loops)).1 ≡ some 60
get_next_loop-after_calls_example = get_next_loop-after_calls 3 two_loops (omega arith)

round_robin : (get_next_loop (after_calls 2 two_loops)).1 ≡ some 70
unfolding get_next_loop after_calls
round_robin = refl

abbrev new_loop : Option ℕ
new_loop = some 80

add_event_loop_lem_example :
    let r = add_event_loop (pos 4) (new_loop) false two_loops in
    (((new_loop ≡ none) ⊎ (get_loop (pos 4) two_loops ≢ none)) × (r ≡ (two_loops, false)))
    ⊎ (get_loop (pos 4) two_loops ≡ none)
      × (r.1 ≡ true)
      × ((j : ℤ) → get_loop j r.0 ≡ (if pos 4 == j then new_loop else get_loop j two_loops))
      × (get_main_loop r.0 ≡ get_main_loop two_loops)
      × ((false ≡ true) × (r.0.next_loops ≡ 60 ∷ 70 ∷ [])
          ⊎ ((l : ℕ) × (new_loop ≡ some l)
              × (false ≡ false)
              × (r.0.next_loops ≡ (60 ∷ 70 ∷ []) ++ l ∷ [])))
add_event_loop_lem_example = add_event_loop_lem (pos 4) (new_loop) false two_loops

abbrev first_pool : PoolInThreads ℕ
first_pool = instance_new 0

nobody : IsOwned first_pool
unfolding find
nobody = record { allocated = λ t a h. absurd (cc); separate = λ t u a h g. absurd (cc) }

get_t-IsOwned_example :
    find (pos 5) (get_t zero (pos 5) first_pool).0.pools ≡ some (get_t zero (pos 5) first_pool).1
get_t-IsOwned_example = (get_t-IsOwned zero (pos 5) first_pool nobody).1

-- Three bytes of a common stack are in use.
abbrev in_use : McoStack
in_use = record McoStack.empty { stack = 100; size = 16; stack_bp = 116; stack_sp = 113 }

abbrev before : Memory
before a = a

abbrev scribbled : Memory
scribbled a = 0

abbrev saved : McoStack
saved = record in_use { restore_size = 3; stack_tmp = some (113 ∷ 114 ∷ 115 ∷ []) }

store_runs : store_used_common_stack (some in_use) before ≡ some saved
unfolding store_used_common_stack read_bytes
store_runs = refl

recover-store_example : recover_used_common_stack (some saved) scribbled 114 ≡ 114
recover-store_example =
    (recover-store in_use saved 114 before scribbled refl (omega arith) store_runs).0
      (omega arith, omega arith)
