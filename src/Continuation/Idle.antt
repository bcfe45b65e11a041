-- ===== src/Continuation/Idle.antt =====
-- base/Continuation.h and base/Mcosops.h over mco/McoRoutine.cpp: what a thread that starts without a
-- call stack can do with coroutines.
use fasco.Base.{
  ℕ, ◌≡◌, refl, ◌∙◌, Bool, false, Option, none, some, if◌then◌else◌, nat_beq, ap, sym, Bool-cases,
  inl, inr, subst,
}
use fasco.Base.Outcome.{ok, fault, null_deref, ok-injective}
use fasco.McoPool.{McoPool, set_cur_mco}
use fasco.McoRoutine.{Thread, Place, put_mco, mco_create}
use fasco.McoRoutine.Schedule.{returned, mco_resume, mco_yield, mco_free}
use fasco.McoRoutine.Faults.{resumable, mco_resume_idle}
use fasco.Continuation.{Continuation, make, resume, yield, destroy, mcosops_resume, mcosops_yield}

-- The call stack is empty, and no coroutine runs.
pub record Idle (t : Thread) : Type 0 where
  pub index : t.calls.index ≡ 0
  pub at_rest : (a : ℕ) → (t.routines a).running ≡ false

module _ (ndebug : Bool) where
  -- A thread makes Continuations, resumes and yields their coroutines, destroys them, and does work
  -- that leaves the call stack and the flags of the coroutines alone.
  pub data Step (t t' : Thread) : Type 0 where
    makes : (a call : ℕ) → t' ≡ (make a call t).0 → Step t t'
    resumes :
        (at : Place) (c : Continuation) (next : Option ℕ)
        → resume ndebug at c t ≡ ok (t', next)
        → Step t t'
    yields :
        (at : Place) (c : Continuation) (next : Option ℕ)
        → yield ndebug at c t ≡ ok (t', next)
        → Step t t'
    destroys : (c : Continuation) → t' ≡ (destroy c t).0 → Step t t'
    works : t'.calls ≡ t.calls → t'.routines ≡ t.routines → Step t t'

  pub data Reach (t : Thread) : Thread → Type 0 where
    here : Reach t t
    later : {u v : Thread} → Reach t u → Step u v → Reach t v

  resume-Idle :
      (at : Place) (co : Option ℕ) (next : Option ℕ) (t t' : Thread)
      → mco_resume ndebug at co t ≡ ok (t', next)
      → Idle t
      → Idle t'
  resume-Idle at co next t t' h i = elim (Bool-cases (resumable co t)) [
    | inl can ↦
        let e : mco_resume ndebug at co t ≡ fault null_deref =
          mco_resume_idle ndebug at co t i.index ∙ simp can refl in
        absurd (cc (e, h))
    | inr passed ↦
        let e : mco_resume ndebug at co t ≡ returned t =
          mco_resume_idle ndebug at co t i.index ∙ simp passed refl in
        subst Idle (ap (λ r. r.0) (ok-injective (sym e ∙ h))) i
  ]

  yield_at_rest :
      (at : Place) (co : Option ℕ) (t : Thread) → Idle t → mco_yield ndebug at co t ≡ returned t
  unfolding mco_yield
  yield_at_rest at none t i = refl
  yield_at_rest at (some a) t i = simp (i.at_rest a) refl

  free-Idle : (co : Option ℕ) (t : Thread) → Idle t → Idle (mco_free co t).0
  unfolding mco_free
  free-Idle none t i = i
  free-Idle (some a) t i = simp (i.at_rest a) (record { index = i.index; at_rest = i.at_rest })

  create-Idle : (a call : ℕ) (t : Thread) → Idle t → Idle (put_mco a (mco_create call false) t)
  unfolding mco_create
  create-Idle a call t i = record {
    index = i.index;
    at_rest = λ b. elim (Bool-cases (nat_beq a b)) [
      | inl new ↦ simp new refl
      | inr old ↦ simp old (i.at_rest b)
    ];
  }

  Step-Idle : (t t' : Thread) → Step t t' → Idle t → Idle t'
  Step-Idle t t' (makes a call e) i = subst Idle (sym e) (create-Idle a call t i)
  Step-Idle t t' (resumes at c next h) i = resume-Idle at c.co next t t' h i
  Step-Idle t t' (yields at c next h) i =
      subst Idle (ap (λ r. r.0) (ok-injective (sym (yield_at_rest at c.co t i) ∙ h))) i
  Step-Idle t t' (destroys c e) i = subst Idle (sym e) (free-Idle c.co t i)
  Step-Idle t t' (works calls routines) i = record {
    index = ap (λ c. c.index) calls ∙ i.index;
    at_rest = λ a. ap (λ r. (r a).running) routines ∙ i.at_rest a;
  }

  Reach-Idle : (t u : Thread) → Reach t u → Idle t → Idle u
  Reach-Idle t u here i = i
  Reach-Idle t u (later {u = v} r s) i = Step-Idle v u s (Reach-Idle t v r i)

  -- Whatever a thread does with Continuations, from an empty call stack and no running coroutine on,
  -- and whether or not asserts are compiled in: as long as it has not stopped, its call stack is empty
  -- and no coroutine runs. So Mcosops::Yield of whatever coroutine returns at once, and
  -- Mcosops::Resume makes the Continuation the current one and returns if its coroutine is null or
  -- finished, and else reads through a null pointer: neither enters a coroutine.
  pub Reach-never_enters :
      (t u : Thread)
      → Idle t
      → Reach t u
      → Idle u
        × ((at : Place) (objects : ℕ → Continuation) (pool : McoPool)
            → mcosops_yield ndebug at objects pool u ≡ ok (pool, (u, none)))
        × ((at : Place) (objects : ℕ → Continuation) (mco : ℕ) (pool : McoPool)
            → mcosops_resume ndebug at objects mco pool u ≡ (
                if resumable (objects mco).co u
                then fault null_deref
                else ok (set_cur_mco (some mco) pool, (u, none))))
  unfolding mcosops_resume mcosops_yield
  Reach-never_enters t u i r =
      let j = Reach-Idle t u r i in
      (
        j,
        λ at objects pool. yields_at at objects pool pool.cur j,
        λ at objects mco pool. elim (Bool-cases (resumable (objects mco).co u)) [
          | inl can ↦ simp (mco_resume_idle ndebug at (objects mco).co u j.index, can) refl
          | inr passed ↦ simp (mco_resume_idle ndebug at (objects mco).co u j.index, passed) refl
        ],
      )
    where
      yields_at :
          (at : Place) (objects : ℕ → Continuation) (pool : McoPool) (cur : Option ℕ)
          → Idle u
          → mcosops_yield ndebug at objects (record pool { cur = cur }) u
            ≡ ok (record pool { cur = cur }, (u, none))
      yields_at at objects pool none j = refl
      yields_at at objects pool (some mco) j = simp (yield_at_rest at (objects mco).co u j) refl
