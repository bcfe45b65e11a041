-- ===== src/Tests/McoTests.antt =====
-- Tests of mco/McoRoutine.cpp, mco/McoCallStack.h and mco/Mcontext.cpp.
use fasco.Base.{
  ℕ, ◌≢◌, ◌+◌, ◌%◌, ◌≤◌, ◌<◌, ◌≡◌, refl, true, false, none, some, [], ◌∷◌, if◌then◌else◌, nat_beq,
  arith,
}
use fasco.Base.Outcome.{ok, fault, null_deref, value_or}
use fasco.Base.Map.{find}
use fasco.McoStack
use fasco.McoStack.{}
use fasco.Mcontext.{Mcontext, mcontext_init, mcontext_make, rsp, rdi, ret}
use fasco.Mcontext.Narrow.{eret, esp, mcontext_make_narrow, mcontext_make_narrow_lem}
use fasco.Mcontext.Alignment.{mcontext_make_lem}
use fasco.McoCallStack.{no_calls, entry, slot, down}
use fasco.McoRoutine.{McoRoutine, McoContext, Thread, Place, blank, mco_create}
use fasco.McoRoutine.Swap.{mco_swap}
use fasco.McoRoutine.Schedule.{
  mco_free, mco_resume, mco_yield, resume_over, resume_from, yield_running, leave, swap_back,
}
use fasco.McoPool
use fasco.McoPool.{McoPool, set_cur_mco}
use fasco.Continuation.{Continuation, make, yield, destroy, mcosops_resume, mcosops_yield}
use fasco.Continuation.Idle.{Idle, Reach, here, later, makes, yields, destroys, Reach-never_enters}
use fasco.McoRoutine.Faults.{mco_resume_idle, mco_resume_asserted, resumable}

abbrev place : Place
place = record { local = 5000; new_main = 9; new_stack = 8000; corun_empty = 1; coroutine_run = 2 }

abbrev idle : Thread
idle = record {
  routines = λ a. record blank { coctx = some (record { ctx = none; corun = 3 }) };
  calls = no_calls;
  managers = λ a. record {
    common_size = 4096;
    private_size = 4096;
    common_stack = 20000;
    ready = true;
    common_occupy = none;
  };
  manager = 0;
  memory = λ a. 0;
}

mco_resume_idle_example : mco_resume false place (some 4) idle ≡ fault null_deref
mco_resume_idle_example = mco_resume_idle false place (some 4) idle refl

abbrev context : McoContext
context = record { ctx = some mcontext_init; corun = 3 }

abbrev started : McoRoutine
started = record blank {
  coctx = some context;
  stack = some (record McoStack.empty { stack = 100; size = 50; is_private = true });
  start = true;
}

-- Coroutine 10 resumed coroutine 11.
abbrev two_deep : Thread
two_deep = record idle {
  routines =
      λ a. if nat_beq a 11 then record started { sink = some 10; running = true } else started;
  calls = record { call_stack = (0, some 10) ∷ (1, some 11) ∷ []; index = 2 };
}

abbrev back : Thread
back = (value_or (two_deep, none) (mco_resume false place (some 10) two_deep)).0

abbrev asked : ℕ
asked = 10

runs_back : mco_resume false place (some 10) two_deep ≡ ok (back, some 10)
unfolding mco_resume resume_over resume_from mco_yield yield_running leave swap_back mco_swap slot
    entry find
runs_back = refl

mco_resume_asserted_example :
    (cur : ℕ) × ((entry (down 2 1) two_deep.calls).1 ≡ some cur)
    × ((two_deep.routines cur).sink ≡ some 10)
    × (asked ≡ asked)
mco_resume_asserted_example = mco_resume_asserted place 10 two_deep back 10 runs_back

abbrev small_stack : Mcontext
small_stack = record mcontext_init { ss_sp = 1000; ss_size = 100 }

mcontext_make_lem_example :
    let made = mcontext_make 2 7 small_stack in
    (made.regs ret ≡ 2)
    × (made.regs rdi ≡ 7)
    × ((made.regs rsp + 8) % 16 ≡ 0)
    × (1000 ≤ made.regs rsp)
    × (made.regs rsp + 8 < 1100)
    × (1100 ≤ made.regs rsp + 24)
mcontext_make_lem_example = mcontext_make_lem 2 7 small_stack (omega arith) (omega arith)

mcontext_make_narrow_lem_example :
    let made = mcontext_make_narrow 2 7 small_stack (λ a. 0) in
    (made.0.regs eret ≡ 2)
    × (made.1 (made.0.regs esp + 4) ≡ 7)
    × ((made.0.regs esp + 4) % 16 ≡ 0)
    × (1000 ≤ made.0.regs esp)
    × (made.0.regs esp + 8 ≤ 1100)
    × (1100 < made.0.regs esp + 24)
    × ((a : ℕ) → a ≢ made.0.regs esp + 4 → made.1 a ≡ 0)
mcontext_make_narrow_lem_example =
    mcontext_make_narrow_lem 2 7 small_stack (λ a. 0) (omega arith) (omega arith)

-- A thread that has just started.
idle-Idle : Idle idle
idle-Idle = record { index = refl; at_rest = λ a. refl }

-- It has made a Continuation, whose coroutine is at address 8 and runs callable 3.
abbrev made_one : Thread
made_one = (make 8 3 idle).0

-- It made one more, and destroyed the first.
abbrev destroyed : Thread
destroyed = (destroy (record { co = some 8 }) (make 9 3 made_one).0).0

yields_nothing : yield false place (record { co = some 8 }) made_one ≡ ok (made_one, none)
unfolding mco_yield mco_create
yields_nothing = refl

destroyed_reached : Reach false idle destroyed
destroyed_reached =
    later
      (later
        (later (later here (makes 8 3 refl))
          (yields place (record { co = some 8 }) none yields_nothing))
        (makes 9 3 refl))
      (destroys (record { co = some 8 }) refl)

-- The Continuation at an address has the coroutine of that number.
abbrev same_number : ℕ → Continuation
same_number a = record { co = some a }

Reach-never_enters_example :
    Idle destroyed
    × ((at : Place) (objects : ℕ → Continuation) (pool : McoPool)
        → mcosops_yield false at objects pool destroyed ≡ ok (pool, (destroyed, none)))
    × ((at : Place) (objects : ℕ → Continuation) (mco : ℕ) (pool : McoPool)
        → mcosops_resume false at objects mco pool destroyed ≡ (
            if resumable (objects mco).co destroyed
            then fault null_deref
            else ok (set_cur_mco (some mco) pool, (destroyed, none))))
Reach-never_enters_example = Reach-never_enters false idle destroyed idle-Idle destroyed_reached

-- The second coroutine can be resumed, and that faults.
faults : mcosops_resume false place same_number 9 McoPool.empty destroyed ≡ fault null_deref
unfolding mco_create mco_free
faults =
    (Reach-never_enters false idle destroyed idle-Idle destroyed_reached).2 place same_number 9
      McoPool.empty
