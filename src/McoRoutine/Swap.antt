-- ===== src/McoRoutine/Swap.antt =====
-- mco/McoRoutine.cpp: McoSwap, on both sides of the switch.
use fasco.Base.{ℕ, Bool, true, false, not, ◌&&◌, Option, none, some, if◌then◌else◌, nat_beq, nat_eq}
use fasco.Base.Outcome.{Outcome, ok, ◌>>=◌}
use fasco.McoStack.{set_common_occupy, store_used_common_stack, recover_used_common_stack}
use fasco.McoCallStack.{get_cur_mco}
use fasco.McoRoutine.{McoRoutine, Thread, Place, put_mco, deref}

abbrev pub finished : McoRoutine → Bool
finished co = co.done && co.done_yield

-- The frames of the coroutine that has the common stack are saved where they are another's than
-- those of `co`, and may still be needed.
unfoldable pub save_frames : ℕ → Option ℕ → Thread → Thread
save_frames co none t = t
save_frames co (some o) t =
    if not (nat_beq o co) && not (finished (t.routines o))
    then put_mco o
        (record (t.routines o) {
          stack_store = true;
          stack = store_used_common_stack (t.routines o).stack t.memory;
        })
        t
    else t

-- `co` takes the common stack.
unfoldable pub take_common_stack : ℕ → Thread → Thread
take_common_stack co t =
    let m = t.managers t.manager in
    save_frames co m.common_occupy (record t {
      managers = λ b. if nat_beq t.manager b then set_common_occupy (some co) m else t.managers b;
    })

-- `McoSwap(sink, co)` up to the switch.
unfoldable pub mco_swap : Place → ℕ → ℕ → Thread → Outcome Thread
mco_swap at sink co t = do
  own ← deref (t.routines sink).stack
  let t' =
      put_mco sink (record (t.routines sink) { stack = some (record own { stack_sp = at.local }) })
        t
  stack ← deref (t'.routines co).stack
  let t'' = if not stack.is_private then take_common_stack co t' else t'
  from ← deref (t''.routines sink).coctx
  to ← deref (t''.routines co).coctx
  _ ← deref from.ctx
  _ ← deref to.ctx
  ok t''

-- `McoSwap` when control is back in it: frames that were saved are put back.
unfoldable pub recover_current : Option ℕ → Thread → Outcome Thread
recover_current none t = ok t
recover_current (some a) t = do
  let co = t.routines a
  stack ← deref co.stack
  (if not stack.is_private && co.stack_store
      then ok (record (put_mco a (record co { stack_store = false }) t) {
        memory = recover_used_common_stack co.stack t.memory;
      })
      else ok t)

unfoldable pub after_swap : Bool → Thread → Outcome Thread
after_swap ndebug t = do
  (calls, cur) ← get_cur_mco ndebug t.calls
  recover_current cur (record t { calls = calls })
