-- ===== src/McoRoutine.antt =====
-- mco/McoRoutine.h and mco/McoRoutine.cpp: the coroutines of one thread. Objects
-- are named by addresses, nullptr is `none`. A coroutine owns its context and its McoStack, so they
-- are held in it. `ndebug` compiles the asserts out; the build files leave them in.
--
-- `mcontext_swap` gives the processor to another coroutine. So `McoResume` and `McoYield` come to
-- the state at the switch and the coroutine that runs next, or to `none` where they return at once;
-- what McoSwap does when control is back in it is `after_swap`. `Place` says what a call finds
-- around it: the address of McoSwap's local variable, and the addresses that `new` gives.
pub mod Swap
pub mod Schedule
pub mod Faults
use fasco.Base.{
  ℕ, zero, suc, ◌+◌, ◌-◌, ◌%◌, ◌^◌, Bool, true, false, not, ◌&&◌, ◌||◌, Option, none, some, [],
  length, if◌then◌else◌, nat_beq, nat_eq, ◌==◌, is_some, ltb,
}
use fasco.Base.Map.{Map, find, assign}
use fasco.Base.Outcome.{Outcome, ok, fault, pending, null_deref, ◌>>=◌, ◌>>◌, assert_that}
use fasco.McoStack.{
  McoStack, McoStackManager, Memory, create_common_mco_stack, create_private_mco_stack,
  set_common_occupy, store_used_common_stack, recover_used_common_stack,
}
use fasco.Mcontext.{Mcontext, mcontext_init, mcontext_make}
use fasco.McoCallStack.{McoCallStack, down, slot, push, get_cur_mco}

pub record McoContext : Type 0 where
  pub ctx : Option Mcontext
  pub corun : ℕ

pub record McoRoutine : Type 0 where
  pub coctx : Option McoContext
  pub sink : Option ℕ
  pub stack : Option McoStack
  pub stack_mgr : Option ℕ
  pub use_private : Bool
  pub is_main : Bool
  pub in_callstack : Bool
  pub should_close : Bool
  pub start : Bool
  pub running : Bool
  pub done : Bool
  pub done_yield : Bool
  pub stack_store : Bool

-- `McoRoutine()`
abbrev pub blank : McoRoutine
blank = record {
  coctx = none;
  sink = none;
  stack = none;
  stack_mgr = none;
  use_private = false;
  is_main = false;
  in_callstack = false;
  should_close = false;
  start = false;
  running = false;
  done = false;
  done_yield = false;
  stack_store = false;
}

-- A thread: its coroutines, its call stack, the managers, which of them is its own, the memory.
pub record Thread : Type 0 where
  pub routines : ℕ → McoRoutine
  pub calls : McoCallStack
  pub managers : ℕ → McoStackManager
  pub manager : ℕ
  pub memory : Memory

pub record Place : Type 0 where
  pub local : ℕ
  pub new_main : ℕ
  pub new_stack : ℕ
  pub corun_empty : ℕ
  pub coroutine_run : ℕ

abbrev pub put_mco : ℕ → McoRoutine → Thread → Thread
put_mco a co t = record t { routines = λ b. if nat_beq a b then co else t.routines b }

-- A pointer that is read through.
abbrev pub deref {ℓ} : {A : Type ℓ} → Option A → Outcome A
deref none = fault null_deref
deref (some a) = ok a

-- Two pointers to coroutines are equal.
abbrev pub same_mco : Option ℕ → Option ℕ → Bool
same_mco none none = true
same_mco (some a) (some b) = nat_beq a b
same_mco _ _ = false

-- `McoCreate(run, use_private)`
unfoldable pub mco_create : ℕ → Bool → McoRoutine
mco_create run use_private = record blank {
  coctx = some (record { ctx = none; corun = run });
  use_private = use_private;
  sink = none;
  is_main = false;
}

-- `createCommonMcoStack` or `createPrivateMcoStack` of the routine's manager.
unfoldable pub create_stack : Place → McoRoutine → McoStackManager → McoStack
create_stack at co manager =
    if not co.use_private
    then create_common_mco_stack manager
    else create_private_mco_stack at.new_stack manager

-- `InitMcoContext(co)`; a `new` that fails throws, so the result is always true.
unfoldable pub init_mco_context : Place → ℕ → Thread → Outcome Thread
unfolding create_stack
init_mco_context at a t = do
  let co = t.routines a
  coctx ← deref co.coctx
  manager ← deref co.stack_mgr
  let stack = create_stack at co (t.managers manager)
  let ctx = record mcontext_init { ss_sp = stack.stack; ss_size = stack.size }
  ok (
      put_mco a (record co { coctx = some (record coctx { ctx = some ctx }); stack = some stack })
        t)

-- `McontextMake(co->coctx->ctx, CoroutineRun, co)`
unfoldable pub make_context : Place → ℕ → Thread → Outcome Thread
make_context at a t = do
  let co = t.routines a
  coctx ← deref co.coctx
  ctx ← deref coctx.ctx
  let made = mcontext_make at.coroutine_run a ctx
  ok (put_mco a (record co { coctx = some (record coctx { ctx = some made }) }) t)
