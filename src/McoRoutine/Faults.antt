-- ===== src/McoRoutine/Faults.antt =====
-- Where McoResume stops: on a thread without a main coroutine, and at the asserts of McoCallStack.
use fasco.Base.{
  ℕ, ◌+◌, ◌≡◌, refl, Bool, true, false, not, ◌||◌, Option, none, some, length, if◌then◌else◌,
  nat_eq, nat_beq, nat_beq_iff, arith, Bool-cases, inl, inr, Option-cases, sym, ◌∙◌, ap, ◌⊎◌,
}
use mathlib.Core.Option.{some-injective}
use fasco.Base.Map.{find}
use fasco.Base.Outcome.{
  OnOk, OnOk-bind, OnOk-at, OnOk-weaken, Outcome, Fault, ok, fault, pending, null_deref, assertion,
}
use fasco.McoCallStack.{McoCallStack, down, slot, push, entry}
use fasco.McoRoutine.{Thread, Place, put_mco, same_mco, mco_create, init_mco_context, make_context}
use fasco.McoRoutine.Swap.{finished, mco_swap}
use fasco.McoRoutine.Schedule.{
  Switched, returned, make_main, main_mco, start_mco, enter, resume_over, mco_resume, mco_yield,
  resume_from, switch_to, leave, swap_back, climb, yield_running,
}

-- The coroutines that McoResume does not pass over.
abbrev pub resumable : Option ℕ → Thread → Bool
resumable none t = false
resumable (some a) t = not ((t.routines a).running || finished (t.routines a))

-- On a thread whose call stack is empty, McoResume of a coroutine that is not null, not running and
-- not finished reads through the null stack manager of the main coroutine it makes, whether asserts
-- are compiled in or not; of any other it returns and changes nothing.
pub mco_resume_idle :
    (ndebug : Bool) (at : Place) (co : Option ℕ) (t : Thread)
    → t.calls.index ≡ 0
    → mco_resume ndebug at co t ≡ (if resumable co t then fault null_deref else returned t)
unfolding mco_resume main_mco make_main init_mco_context mco_create
mco_resume_idle ndebug at none t idle = refl
mco_resume_idle ndebug at (some a) t idle =
    let same : nat_beq at.new_main at.new_main ≡ true = (nat_beq_iff _ _).1 refl in
    elim (Bool-cases ((t.routines a).running || finished (t.routines a))) [
      | inl passed ↦ simp passed refl
      | inr taken ↦ simp (taken, idle, same) refl
    ]

-- A piece of the program that stops, or leaves the call stack as it is.
abbrev KeepsCalls : Thread → Outcome Thread → Type 0
KeepsCalls t (ok t') = t'.calls ≡ t.calls
KeepsCalls t (fault f) = Unit
KeepsCalls t pending = ⊥

KeepsCalls-cases :
    (t : Thread) (m : Outcome Thread)
    → KeepsCalls t m
    → ((f : Fault) × (m ≡ fault f)) ⊎ ((t' : Thread) × (m ≡ ok t') × (t'.calls ≡ t.calls))
KeepsCalls-cases t (ok t') h = inr (t', refl, h)
KeepsCalls-cases t (fault f) h = inl (f, refl)
KeepsCalls-cases t pending h = absurd h

KeepsCalls-trans :
    (t t₁ : Thread) (m : Outcome Thread) → t₁.calls ≡ t.calls → KeepsCalls t₁ m → KeepsCalls t m
KeepsCalls-trans t t₁ (ok t') e h = h ∙ e
KeepsCalls-trans t t₁ (fault f) e h = tt
KeepsCalls-trans t t₁ pending e h = absurd h

init_calls : (at : Place) (a : ℕ) (t : Thread) → KeepsCalls t (init_mco_context at a t)
unfolding init_mco_context
init_calls at a t = elim (Option-cases (t.routines a).coctx) [
  | inl none_ ↦ simp none_ tt
  | inr (k, e) ↦ elim (Option-cases (t.routines a).stack_mgr) [
    | inl none_ ↦ simp (e, none_) tt
    | inr (m, e') ↦ simp (e, e') refl
  ]
]

make_calls : (at : Place) (a : ℕ) (t : Thread) → KeepsCalls t (make_context at a t)
unfolding make_context
make_calls at a t = elim (Option-cases (t.routines a).coctx) [
  | inl none_ ↦ simp none_ tt
  | inr (k, e) ↦ elim (Option-cases k.ctx) [
    | inl none_ ↦ simp (e, none_) tt
    | inr (m, e') ↦ simp (e, e') refl
  ]
]

start_calls : (at : Place) (a : ℕ) (t : Thread) → KeepsCalls t (start_mco at a t)
unfolding start_mco
start_calls at a t = elim (Bool-cases (t.routines a).start) [
  | inl started ↦ simp started refl
  | inr fresh ↦ elim (KeepsCalls-cases t _ (init_calls at a t)) [
    | inl (f, e) ↦ simp (fresh, e) tt
    | inr (t₁, e, same) ↦
        simp (fresh, e)
          (KeepsCalls-trans t t₁ _ same
            (make_calls at a (put_mco a (record (t₁.routines a) { start = true }) t₁)))
  ]
]

-- The assert in `(*callstack)[index++] = co` fails wherever the one before it held.
push_asserted :
    (a : ℕ) (c : McoCallStack)
    → length c.call_stack ≡ c.index
    → (f : Fault) × (push false a c ≡ fault f)
unfolding push
push_asserted a c full =
    let more : nat_beq (length c.call_stack) (c.index + 1) ≡ false = ground arith in
    (assertion, simp more refl)

enter_asserted :
    (at : Place) (a : ℕ) (t : Thread)
    → length t.calls.call_stack ≡ t.calls.index
    → (f : Fault) × (enter false at a t ≡ fault f)
unfolding enter climb
enter_asserted at a t full = elim (KeepsCalls-cases t _ (start_calls at a t)) [
  | inl (f, e) ↦ (f, simp e refl)
  | inr (t₁, e, same) ↦
      let (f, e') = push_asserted a t₁.calls (rw same full) in (f, simp (e, e') refl)
]

swap_back_target :
    (at : Place) (a : ℕ) (sink : Option ℕ) (t : Thread)
    → OnOk (λ r. r.1 ≡ sink) (swap_back at a sink t)
unfolding swap_back
swap_back_target at a none t = tt
swap_back_target at a (some s) t =
    OnOk-bind (λ r. r.1 ≡ some s)
      (mco_swap at a s (put_mco s (record (t.routines s) { running = true }) t)) (switch_to s)
      (λ t'. refl)

-- A yield gives the processor to the coroutine's sink.
yield_target :
    (ndebug : Bool) (at : Place) (a : ℕ) (t : Thread)
    → OnOk (λ r. r.1 ≡ (t.routines a).sink) (yield_running ndebug at a t)
unfolding yield_running
yield_target ndebug at a t =
    OnOk-bind (λ r. r.1 ≡ (t.routines a).sink) (leave ndebug (t.routines a).sink t.calls) _
      (λ calls. swap_back_target at a (t.routines a).sink _)

-- What a resume that switches comes to.
abbrev Returns : ℕ → Thread → Option ℕ → Switched → Type 0
Returns a t top r =
    (n : ℕ)
    → r.1 ≡ some n
    → (cur : ℕ) × (top ≡ some cur) × ((t.routines cur).sink ≡ some a) × (n ≡ a)

same_mco-eq : (p q : Option ℕ) → same_mco p q ≡ true → p ≡ q
same_mco-eq none none h = refl
same_mco-eq none (some b) h = cc
same_mco-eq (some a) none h = cc
same_mco-eq (some a) (some b) h = ap some ((nat_beq_iff a b).0 h)

yield-Returns :
    (at : Place) (a cur : ℕ) (t : Thread)
    → (t.routines cur).sink ≡ some a
    → OnOk (Returns a t (some cur)) (mco_yield false at (some cur) t)
unfolding mco_yield
yield-Returns at a cur t e =
    elim (Bool-cases (not (t.routines cur).running || finished (t.routines cur))) [
      | inl passed ↦ simp passed (λ n h. absurd (cc))
      | inr taken ↦ simp taken (
          OnOk-weaken (yield_running false at cur t) (yield_target false at cur t)
            (λ r h n h'. (cur, refl, e, some-injective _ _ (sym h' ∙ h ∙ e))))
    ]

from-Returns :
    (at : Place) (a : ℕ) (top : Option ℕ) (t : Thread)
    → length t.calls.call_stack ≡ t.calls.index
    → OnOk (Returns a t top) (resume_from false at a top t)
unfolding resume_from
from-Returns at a none t full = tt
from-Returns at a (some cur) t full = elim (Bool-cases (same_mco (t.routines cur).sink (some a))) [
  | inl back ↦ simp back (yield-Returns at a cur t (same_mco-eq _ _ back))
  | inr further ↦ let (f, e) = enter_asserted at a t full in simp (further, e) tt
]

over-Returns :
    (at : Place) (a : ℕ) (t : Thread)
    → OnOk (Returns a t (entry (down t.calls.index 1) t.calls).1) (resume_over false at a t)
unfolding resume_over slot entry resume_from
over-Returns at a t = elim (Bool-cases (nat_beq (length t.calls.call_stack) t.calls.index)) [
  | inr short ↦ simp short tt
  | inl full ↦ elim (Option-cases (find (down t.calls.index 1) t.calls.call_stack)) [
    | inl none_ ↦ simp (full, none_) tt
    | inr (top, e) ↦ simp (full, e) (from-Returns at a top t ((nat_beq_iff _ _).0 full))
  ]
]

resume-Returns :
    (at : Place) (a : ℕ) (t : Thread)
    → OnOk (Returns a t (entry (down t.calls.index 1) t.calls).1) (mco_resume false at (some a) t)
unfolding mco_resume
resume-Returns at a t = elim (Bool-cases ((t.routines a).running || finished (t.routines a))) [
  | inl passed ↦ simp passed (λ n h. absurd (cc))
  | inr taken ↦ elim (Bool-cases (nat_beq t.calls.index 0)) [
    | inl idle ↦ rw (mco_resume_idle false at (some a) t ((nat_beq_iff _ _).0 idle)) (simp taken tt)
    | inr over ↦ simp (taken, over) (over-Returns at a t)
  ]
]

-- With asserts compiled in, a call of McoResume that gives the processor to a coroutine is always
-- the yield of the current coroutine to the one that resumed it, which is the one asked for: no
-- coroutine is ever entered.
pub mco_resume_asserted :
    (at : Place) (a : ℕ) (t t' : Thread) (next : ℕ)
    → mco_resume false at (some a) t ≡ ok (t', some next)
    → (cur : ℕ) × ((entry (down t.calls.index 1) t.calls).1 ≡ some cur)
      × ((t.routines cur).sink ≡ some a)
      × (next ≡ a)
mco_resume_asserted at a t t' next h =
    OnOk-at (Returns a t (entry (down t.calls.index 1) t.calls).1) (mco_resume false at (some a) t)
      h (resume-Returns at a t) next refl
