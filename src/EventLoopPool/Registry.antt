-- ===== src/EventLoopPool/Registry.antt =====
-- addEventLoop of base/EventLoopPool.cpp: who is registered, and who serves.
use mathlib.Core.Option.{some-injective}
use fasco.Base.{
  List, zero, suc, sym, get_elem?, ℕ, ◌≡◌, refl, ◌≢◌, Bool, true, false, Option, none, some, [],
  ◌∷◌, ◌++◌, if◌then◌else◌, ◌==◌, arith, ◌⊎◌, inl, inr, Option-cases,
}
use fasco.Base.Int.{ℤ, int_eq}
use fasco.Base.Map.{find, find-assign}
use fasco.EventLoopPool.{EventLoopPool, add_event_loop, register, get_loop, get_main_loop}

accepted :
    (tid : ℤ) (l : ℕ) (ismain : Bool) (p : EventLoopPool)
    → find tid p.loops ≡ none
    → add_event_loop tid (some l) ismain p ≡ (register tid l ismain p, true)
unfolding add_event_loop
accepted tid l ismain p e = rw e

-- A null loop and a second loop for a thread are refused, and change nothing. Any other loop is
-- registered for its thread alone; it is the main loop if it was added as that, and then does not
-- serve, else it is the last of those that serve.
pub add_event_loop_lem :
    (tid : ℤ) (loop : Option ℕ) (ismain : Bool) (p : EventLoopPool)
    → let r = add_event_loop tid loop ismain p in
      ((loop ≡ none) ⊎ (get_loop tid p ≢ none)) × (r ≡ (p, false))
      ⊎ (get_loop tid p ≡ none)
        × (r.1 ≡ true)
        × ((j : ℤ) → get_loop j r.0 ≡ (if tid == j then loop else get_loop j p))
        × (get_main_loop r.0 ≡ (if ismain then loop else get_main_loop p))
        × ((ismain ≡ true) × (r.0.next_loops ≡ p.next_loops)
            ⊎ ((l : ℕ) × (loop ≡ some l)
                × (ismain ≡ false)
                × (r.0.next_loops ≡ p.next_loops ++ l ∷ [])))
unfolding add_event_loop get_loop get_main_loop
add_event_loop_lem tid none ismain p = inl (inl refl, refl)
add_event_loop_lem tid (some l) true p = elim (Option-cases (find tid p.loops)) [
  | inl e ↦
      rw (accepted tid l true p e)
        (inr (e, refl, (λ j. find-assign tid j l p.loops), refl, inl (refl, refl)))
  | inr (a, e) ↦ inl (inr (λ z. ground arith), rw e refl)
]
add_event_loop_lem tid (some l) false p = elim (Option-cases (find tid p.loops)) [
  | inl e ↦
      rw (accepted tid l false p e)
        (inr (e, refl, (λ j. find-assign tid j l p.loops), refl, inr (l, refl, refl, refl)))
  | inr (a, e) ↦ inl (inr (λ z. ground arith), rw e refl)
]

pub main_itself : (p : EventLoopPool) → get_main_loop p ≡ p.main_loop
unfolding get_main_loop
main_itself p = itself p.main_loop
  where
    itself : (m : Option ℕ) → (elim m [ none ↦ none | some l ↦ some l ]) ≡ m
    itself none = refl
    itself (some l) = refl

-- A loop that serves after a registration served before, or is the new one.
pub get_elem?-snoc :
    (loops : List ℕ) (l i a : ℕ)
    → get_elem? (loops ++ l ∷ []) i ≡ some a
    → (get_elem? loops i ≡ some a) ⊎ (a ≡ l)
get_elem?-snoc [] l zero a h = inr (some-injective _ _ (sym h))
get_elem?-snoc [] l (suc i) a h = absurd (cc)
get_elem?-snoc (x ∷ loops) l zero a h = inl h
get_elem?-snoc (x ∷ loops) l (suc i) a h = get_elem?-snoc loops l i a h
