-- ===== src/EventLoop/Sync.antt =====
-- How `events_` of base/EventLoop.cpp and the kernel's interest list stand to one another.
use fasco.Base.{
  ℕ, ◌≡◌, ◌≢◌, Bool, true, false, none, some, ◌==◌, arith, ap, sym, ◌∙◌, inl, inr, ◌⊎◌, Bool-cases,
}
use fasco.Base.Int.{ℤ, int_eq, int_beq_iff}
use fasco.Base.Outcome.{ok, fault, assertion}
use fasco.Events.{State}
use fasco.Kernel.{Kernel}
use fasco.EventLoop.{World, update_events, poll_update, poll_new}
use fasco.EventLoop.Step.{known, watches}
use fasco.EventLoop.Update.{Update, refused, idle, added, modified, deleted, update_events-Update}

module _ (k : Kernel) where
  -- The kernel watches no descriptor that the loop does not know.
  abbrev pub NoStray : World k → Type 0
  NoStray w = (j : ℤ) → known k w j ≡ none → watches k w j ≡ none

  -- At one descriptor: unknown and not watched, or watched under the mask of the object known for it.
  abbrev pub Agrees : World k → ℤ → Type 0
  Agrees w j =
      (known k w j ≡ none) × (watches k w j ≡ none)
      ⊎ ((q : ℕ) × (known k w j ≡ some q) × (watches k w j ≡ some (w.heap q).eorigin))

  -- The loop holds an object that the kernel does not watch.
  abbrev pub Stuck : World k → ℤ → Type 0
  Stuck w j = (known k w j ≢ none) × (watches k w j ≡ none)

module _ (k : Kernel) (ndebug : Bool) (p : ℕ) where
  pub Update-NoStray :
      (w w' : World k) (b : Bool) → Update k ndebug p w w' b → NoStray k w → NoStray k w'
  Update-NoStray w w' b (refused e ew eb) v = rw ew v
  Update-NoStray w w' b (idle e kn wa f eb) v = λ j h. wa j ∙ v j (sym (kn j) ∙ h)
  Update-NoStray w w' b (added e a) v = λ j h. ground (arith, a.knows j, a.watched j, v j)
  Update-NoStray w w' b (modified e n m) v = λ j h. elim (Bool-cases ((w.heap p).fd == j)) [
    | inl same ↦
        absurd (n (ap (known k w) ((int_beq_iff (w.heap p).fd j).0 same) ∙ sym (m.knows j) ∙ h))
    | inr other ↦ ground (arith, m.watched j, m.knows j, v j)
  ]
  Update-NoStray w w' b (deleted e d) v = λ j h. ground (arith, d.knows j, d.watched j, v j)

  -- Whatever updateEvents is given and however it returns, the kernel goes on watching nothing but
  -- what the loop knows.
  pub update_events-NoStray :
      (w w' : World k) (b : Bool)
      → update_events k ndebug p w ≡ ok (w', b)
      → NoStray k w
      → NoStray k w'
  update_events-NoStray w w' b h = Update-NoStray w w' b (update_events-Update k ndebug p w w' b h)

module _ (k : Kernel) (ndebug : Bool) (p : ℕ) (w w' : World k) where
  -- What was so at a descriptor other than the object's stays so.
  carried :
      (j : ℤ)
      → w'.heap ≡ w.heap
      → known k w' j ≡ known k w j
      → watches k w' j ≡ watches k w j
      → Agrees k w j
      → Agrees k w' j
  carried j eh kn wa (inl (a, b)) = inl (kn ∙ a, wa ∙ b)
  carried j eh kn wa (inr (q, a, b)) = inr (q, kn ∙ a, rw eh (wa ∙ b))

  module _ (live : (w.heap p).state ≢ State.used)
      (erases : (ndebug ≡ false) ⊎ ((w.heap p).state ≢ State.del))
      (elsewhere : (j : ℤ) → j ≢ (w.heap p).fd → Agrees k w j)
      (own : (known k w (w.heap p).fd ≡ none) ⊎ (known k w (w.heap p).fd ≡ some p)) where
    Update-Agrees : Update k ndebug p w w' true → (j : ℤ) → Agrees k w' j
    Update-Agrees (refused e ew eb) j = absurd (cc)
    Update-Agrees (idle e kn wa f eb) j = absurd (live e)
    Update-Agrees (added e a) j = elim (Bool-cases ((w.heap p).fd == j)) [
      | inl same ↦ inr (p, a.knows j ∙ rw same, rw a.frame.0 (a.watched j ∙ rw same))
      | inr other ↦
          carried j a.frame.0 (a.knows j ∙ rw other) (a.watched j ∙ rw other)
            (elsewhere j (λ z. ground (arith, int_beq_iff (w.heap p).fd j)))
    ]
    Update-Agrees (modified e n m) j = elim (Bool-cases ((w.heap p).fd == j)) [
      | inl same ↦ inr (
        p,
        m.knows j ∙ ap (known k w) (sym ((int_beq_iff (w.heap p).fd j).0 same)) ∙ known_own n,
        rw m.frame.0 (m.watched j ∙ rw same),
      )
      | inr other ↦
          carried j m.frame.0 (m.knows j) (m.watched j ∙ rw other)
            (elsewhere j (λ z. ground (arith, int_beq_iff (w.heap p).fd j)))
    ]
      where
        known_own : known k w (w.heap p).fd ≢ none → known k w (w.heap p).fd ≡ some p
        known_own n = ground arith
    Update-Agrees (deleted e d) j = elim (Bool-cases ((w.heap p).fd == j)) [
      | inl same ↦ inl (d.knows j ∙ rw (same, evaluated), d.watched j ∙ rw same)
      | inr other ↦
          carried j d.frame.0 (d.knows j ∙ rw other (ground arith)) (d.watched j ∙ rw other)
            (elsewhere j (λ z. ground (arith, int_beq_iff (w.heap p).fd j)))
    ]
      where
        evaluated : ndebug ≡ false
        evaluated = ground arith

    -- Take an object that is not USED, nor DEL where asserts are compiled out, and whose loop and
    -- kernel agree about every descriptor but, perhaps, the object's own, for which the loop knows this
    -- object or none. Where updateEvents of it returns true, loop and kernel agree about every
    -- descriptor, the object's own included.
    pub update_events-Agrees : update_events k ndebug p w ≡ ok (w', true) → (j : ℤ) → Agrees k w' j
    update_events-Agrees h = Update-Agrees (update_events-Update k ndebug p w w' true h)

module _ (k : Kernel) (ndebug : Bool) where
  Update-Stuck :
      (j : ℤ) (q : ℕ) (w w' : World k) (b : Bool)
      → Stuck k w j
      → (w.heap q).state ≡ State.modified
      → (w.heap q).fd ≡ j
      → Update k ndebug q w w' b
      → (b ≡ false) × Stuck k w' j
  Update-Stuck j q w w' b s m e (refused st ew eb) = absurd (cc)
  Update-Stuck j q w w' b s m e (idle st kn wa f eb) = absurd (cc)
  Update-Stuck j q w w' b s m e (added (inl st) a) = absurd (cc)
  Update-Stuck j q w w' b s m e (added (inr (st, fresh)) a) =
      absurd (s.0 (ap (known k w) (sym e) ∙ fresh))
  Update-Stuck j q w w' b s m e (deleted st d) = absurd (cc)
  Update-Stuck j q w w' b s m e (modified st n r) = elim (Bool-cases b) [
    | inl done ↦ absurd (r.was_there done (ap (watches k w) e ∙ s.1))
    | inr failed ↦ (failed, (λ z. s.0 (sym (r.knows j) ∙ z), r.watched j ∙ rw failed s.1))
  ]

  Update-new-Stuck :
      (p : ℕ) (w w' : World k)
      → (w.heap p).state ≡ State.new
      → watches k w (w.heap p).fd ≡ none
      → Update k ndebug p w w' false
      → Stuck k w' (w.heap p).fd
  Update-new-Stuck p w w' e u (refused st ew eb) = absurd (cc)
  Update-new-Stuck p w w' e u (idle st kn wa f eb) = absurd (cc)
  Update-new-Stuck p w w' e u (added st a) = (
    λ z. absurd (ground (arith, a.knows (w.heap p).fd, int_beq_iff (w.heap p).fd (w.heap p).fd)),
    a.watched (w.heap p).fd ∙ u,
  )
  Update-new-Stuck p w w' e u (modified st n m) = absurd (cc)
  Update-new-Stuck p w w' e u (deleted st d) = absurd (cc)

  -- Where updateEvents returns false for a NEW object whose descriptor the kernel did not watch, the
  -- loop has an object for the descriptor all the same, and the kernel does not watch it. As long as
  -- loop and kernel stay so about this descriptor, an update that comes back, of any object of state
  -- MOD for it, returns false too and leaves them so.
  pub refused_add_sticks :
      (p q : ℕ) (w w1 w2 w3 : World k) (b : Bool)
      → (w.heap p).state ≡ State.new
      → watches k w (w.heap p).fd ≡ none
      → update_events k ndebug p w ≡ ok (w1, false)
      → known k w2 (w.heap p).fd ≡ known k w1 (w.heap p).fd
      → watches k w2 (w.heap p).fd ≡ watches k w1 (w.heap p).fd
      → (w2.heap q).state ≡ State.modified
      → (w2.heap q).fd ≡ (w.heap p).fd
      → update_events k ndebug q w2 ≡ ok (w3, b)
      → Stuck k w1 (w.heap p).fd × (b ≡ false) × Stuck k w3 (w.heap p).fd
  refused_add_sticks p q w w1 w2 w3 b e u h kn wa m same h' =
      let s1 = Update-new-Stuck p w w1 e u (update_events-Update k ndebug p w w1 false h) in
      let (failed, s3) =
        Update-Stuck (w.heap p).fd q w2 w3 b (λ z. s1.0 (sym kn ∙ z), wa ∙ s1.1) m same
          (update_events-Update k ndebug q w2 w3 b h') in
      (s1, failed, s3)

module _ (k : Kernel) where
  new_known :
      (p q : ℕ) (w : World k)
      → (w.heap p).state ≡ State.new
      → known k w (w.heap p).fd ≡ some q
      → update_events k false p w ≡ fault assertion
  unfolding update_events poll_update poll_new
  new_known p q w e h = simp (e, h)

  -- updateEvents leaves the object in state NEW: where asserts are evaluated, a second updateEvents
  -- of a NEW object stops the program, whether or not the kernel took it the first time.
  pub new_twice :
      (p : ℕ) (w w' : World k) (b : Bool)
      → (w.heap p).state ≡ State.new
      → update_events k false p w ≡ ok (w', b)
      → update_events k false p w' ≡ fault assertion
  new_twice p w w' b e h = again (update_events-Update k false p w w' b h)
    where
      again : Update k false p w w' b → update_events k false p w' ≡ fault assertion
      again (refused st ew eb) = absurd (cc)
      again (idle st kn wa f eb) = absurd (cc)
      again (modified st n m) = absurd (cc)
      again (deleted st d) = absurd (cc)
      again (added st a) = new_known p p w' (ap (λ h. (h p).state) a.frame.0 ∙ e) (
          a.knows (w'.heap p).fd
          ∙ ground (arith, ap (λ h. (h p).fd) a.frame.0, int_beq_iff (w.heap p).fd (w'.heap p).fd))
