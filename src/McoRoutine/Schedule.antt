-- ===== src/McoRoutine/Schedule.antt =====
-- mco/McoRoutine.cpp: MainMco, McoResume, McoYield, the end of CoroutineRun, and McoFree.
use fasco.Base.{
  ℕ, Bool, true, false, not, ◌&&◌, ◌||◌, Option, none, some, if◌then◌else◌, nat_beq, nat_eq,
}
use fasco.Base.Outcome.{fault, null_deref, Outcome, ok, ◌>>=◌, ◌>>◌, assert_that}
use fasco.McoStack.{set_common_occupy}
use fasco.McoCallStack.{McoCallStack, down, slot, push}
use fasco.McoRoutine.{
  McoRoutine, Thread, Place, put_mco, same_mco, mco_create, init_mco_context, make_context,
}
use fasco.McoRoutine.Swap.{finished, mco_swap}

-- The state at the switch, and which coroutine runs next.
abbrev pub Switched : Type 0
Switched = Thread × Option ℕ

abbrev pub returned : Thread → Outcome Switched
returned t = ok (t, none)

abbrev pub switch_to : ℕ → Thread → Outcome Switched
switch_to a t = ok (t, some a)

-- `MainMco()` where the call stack is empty: the thread's own frames become its main coroutine.
unfoldable pub make_main : Bool → Place → Thread → Outcome Thread
make_main ndebug at t = do
  let m = at.new_main
  t₁ ← init_mco_context at m (put_mco m (mco_create at.corun_empty true) t)
  t₂ ← make_context at m t₁
  calls ← push ndebug m t₂.calls
  ok (
      put_mco m
        (record (t₂.routines m) {
          is_main = true;
          start = true;
          running = true;
          in_callstack = true;
        })
        (record t₂ { calls = calls }))

-- `MainMco()`
unfoldable pub main_mco : Bool → Place → Thread → Outcome (Thread × Option ℕ)
main_mco ndebug at t = do
  t' ← (if nat_beq t.calls.index 0 then make_main ndebug at t else ok t)
  (calls, main) ← slot ndebug 0 t'.calls
  ok (record t' { calls = calls }, main)

-- `assert(sink == (*callstack)[index-2]); index--`
unfoldable pub leave : Bool → Option ℕ → McoCallStack → Outcome McoCallStack
leave true sink c = ok (record c { index = down c.index 1 })
leave false sink c = do
  (c', below) ← slot false (down c.index 2) c
  assert_that false (same_mco sink below)
  ok (record c' { index = down c'.index 1 })

-- The coroutine's sink runs again.
unfoldable pub swap_back : Place → ℕ → Option ℕ → Thread → Outcome Switched
swap_back at a none t = fault null_deref
swap_back at a (some sink) t =
    mco_swap at a sink (put_mco sink (record (t.routines sink) { running = true }) t)
    >>= switch_to sink

-- A coroutine whose function came back yields for the last time.
abbrev pub ended : McoRoutine → McoRoutine
ended co = if co.done then record co { done_yield = true; start = false } else co

abbrev pub at_rest : McoRoutine → McoRoutine
at_rest co = record co { running = false; in_callstack = true }

-- The part of `McoYield` behind its guard.
unfoldable pub yield_running : Bool → Place → ℕ → Thread → Outcome Switched
yield_running ndebug at a t =
    let sink = (t.routines a).sink in
    leave ndebug sink t.calls >>= λ calls.
    swap_back at a sink (put_mco a (at_rest (ended (t.routines a))) (record t { calls = calls }))

-- `McoYield(co)`
unfoldable pub mco_yield : Bool → Place → Option ℕ → Thread → Outcome Switched
mco_yield ndebug at none t = returned t
mco_yield ndebug at (some a) t =
    let co = t.routines a in
    if not co.running || finished co then returned t else yield_running ndebug at a t

-- `InitMcoContext` and `McontextMake` of a coroutine that did not start.
unfoldable pub start_mco : Place → ℕ → Thread → Outcome Thread
start_mco at a t =
    if not (t.routines a).start
    then (do
      t₁ ← init_mco_context at a t
      make_context at a (put_mco a (record (t₁.routines a) { start = true }) t₁))
    else ok t

-- Its sink, the coroutine below it, is put to rest, and it gets the processor.
unfoldable pub swap_over : Place → ℕ → Option ℕ → Thread → Outcome Switched
swap_over at a none t = fault null_deref
swap_over at a (some sink) t =
    let t₁ = put_mco a (record (t.routines a) { running = true; sink = some sink }) t in
    let t₂ = put_mco sink (record (t₁.routines sink) { running = false }) t₁ in
    let t₃ = put_mco a (record (t₂.routines a) { in_callstack = true }) t₂ in
    mco_swap at sink a t₃ >>= switch_to a

-- On the call stack, above the one that was current.
unfoldable pub climb : Bool → ℕ → McoCallStack → Outcome (McoCallStack × Option ℕ)
climb ndebug a c = push ndebug a c >>= λ pushed. slot ndebug (down pushed.index 2) pushed

-- `McoResume` of a coroutine that the current one did not come from.
unfoldable pub enter : Bool → Place → ℕ → Thread → Outcome Switched
enter ndebug at a t = do
  t₁ ← start_mco at a t
  (calls, below) ← climb ndebug a t₁.calls
  swap_over at a below (record t₁ { calls = calls })

-- `McoResume` behind its guard, with the current coroutine.
unfoldable pub resume_from : Bool → Place → ℕ → Option ℕ → Thread → Outcome Switched
resume_from ndebug at a none t = fault null_deref
resume_from ndebug at a (some cur) t =
    if same_mco (t.routines cur).sink (some a)
    then mco_yield ndebug at (some cur) t
    else enter ndebug at a t

unfoldable pub resume_over : Bool → Place → ℕ → Thread → Outcome Switched
resume_over ndebug at a t = slot ndebug (down t.calls.index 1) t.calls >>= λ r.
    resume_from ndebug at a r.1 (record t { calls = r.0 })

-- `McoResume(co)`
unfoldable pub mco_resume : Bool → Place → Option ℕ → Thread → Outcome Switched
mco_resume ndebug at none t = returned t
mco_resume ndebug at (some a) t =
    let co = t.routines a in
    if co.running || finished co
    then returned t
    else if nat_beq t.calls.index 0
    then main_mco ndebug at t >>= (λ r. resume_over ndebug at a r.0)
    else resume_over ndebug at a t

-- `CoroutineRun(co)` after the user's function came back.
unfoldable pub coroutine_end : Bool → Place → ℕ → Thread → Outcome Switched
coroutine_end ndebug at a t =
    mco_yield ndebug at (some a) (put_mco a (record (t.routines a) { done = true }) t)

-- `McoFree(co)`: with the thread, whether the object was deleted.
unfoldable pub mco_free : Option ℕ → Thread → Thread × Bool
mco_free none t = (t, false)
mco_free (some a) t =
    let co = t.routines a in
    let m = t.managers t.manager in
    if co.running then (put_mco a (record co { should_close = true }) t, false) else (
      record t {
        managers = λ b.
            if nat_beq t.manager b && same_mco m.common_occupy (some a)
            then set_common_occupy none m
            else t.managers b;
      },
      true,
    )
