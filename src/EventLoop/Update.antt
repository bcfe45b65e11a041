-- ===== src/EventLoop/Update.antt =====
-- updateEvents of base/EventLoop.cpp: its branches, the invariant that the kernel watches only what
-- the loop knows, and the agreement of `events_` with the kernel's interest list.
use mathlib.Core.Option.{some-injective}
use fasco.Base.{
  ◌==◌, some, ℕ, ◌≡◌, refl, ◌≢◌, Bool, true, false, none, arith, ap, sym, ◌∙◌, inl, inr, ◌⊎◌,
  Bool-cases,
}
use fasco.Base.Int.{ℤ, int_eq, int_beq_iff}
use fasco.Base.Outcome.{Outcome, ok, ok-injective}
use fasco.Events.{State, is_invaild}
use fasco.Kernel.{Kernel}
use fasco.EventLoop.{World, poll_update, update_events, wakeup_loop}
use fasco.EventLoop.Step.{
  known, watches, Frame, Added, Modified, Deleted, poll_new-Added, poll_mod-cases, poll_del-Deleted,
}

module _ (k : Kernel) (ndebug : Bool) (p : ℕ) (w w' : World k) (b : Bool) where
  -- The five ways in which an update can come back, each with the state of the object that takes it.
  pub data Update : Type 0 where
    refused : (w.heap p).state ≡ State.invaild → w' ≡ w → b ≡ false → Update
    idle :
        (w.heap p).state ≡ State.used
        → ((j : ℤ) → known k w' j ≡ known k w j)
        → ((j : ℤ) → watches k w' j ≡ watches k w j)
        → Frame k w w'
        → b ≡ true
        → Update
    added :
        ((w.heap p).state ≡ State.new)
          ⊎ ((w.heap p).state ≡ State.modified) × (known k w (w.heap p).fd ≡ none)
        → Added k ndebug p w w' b
        → Update
    modified :
        (w.heap p).state ≡ State.modified
        → known k w (w.heap p).fd ≢ none
        → Modified k ndebug p w w' b
        → Update
    deleted : (w.heap p).state ≡ State.del → Deleted k ndebug p w w' b → Update

module _ (k : Kernel) (ndebug : Bool) (p : ℕ) where
  returned :
      (w w' : World k) (c b : Bool)
      → ◌≡◌ {A = Outcome (World k × Bool)} (ok (w, c)) (ok (w', b))
      → (w' ≡ w) × (b ≡ c)
  returned w w' c b h = (ap (λ r. r.0) (sym (ok-injective h)), ap (λ r. r.1) (sym (ok-injective h)))

  by_state :
      (st : State) (w w' : World k) (b : Bool)
      → (w.heap p).state ≡ st
      → poll_update k ndebug p w ≡ ok (w', b)
      → Update k ndebug p w w' b
  unfolding poll_update
  by_state State.invaild w w' b e h =
      let (ew, eb) = returned w w' false b (simp e at h) in refused e ew eb
  by_state State.new w w' b e h = added (inl e) (poll_new-Added k ndebug p w w' b (simp e at h))
  by_state State.modified w w' b e h = elim (poll_mod-cases k ndebug p w w' b (simp e at h)) [
    | inl (fresh, a) ↦ added (inr (e, ground arith)) a
    | inr (there, m) ↦ modified e (λ z. ground arith) m
  ]
  by_state State.del w w' b e h = deleted e (poll_del-Deleted k ndebug p w w' b (simp e at h))
  by_state State.used w w' b e h =
      let (ew, eb) = returned w w' true b (simp e at h) in
      idle e (λ j. rw ew) (λ j. rw ew) (rw ew (refl, refl, refl)) eb

  -- The eventfd write before it touches neither `events_` nor the interest list.
  woken :
      (w w' : World k) (b : Bool)
      → Update k ndebug p (wakeup_loop k w) w' b
      → (w.heap p).state ≢ State.invaild
      → Update k ndebug p w w' b
  unfolding wakeup_loop
  woken w w' b (refused e ew eb) h = absurd (h e)
  woken w w' b (idle e kn wa f eb) h =
      idle e kn (λ j. wa j ∙ k.write_interest w.sys w.loop.wake_fd w.loop.poll.epoll_fd j) f eb
  woken w w' b (added e a) h = added e (record {
    frame = a.frame;
    knows = a.knows;
    watched =
        λ j. rw (← k.write_interest w.sys w.loop.wake_fd w.loop.poll.epoll_fd j) (a.watched j);
    was_new = λ t. sym (k.write_interest w.sys w.loop.wake_fd w.loop.poll.epoll_fd _) ∙ a.was_new t;
  })
  woken w w' b (modified e n m) h = modified e n (record {
    frame = m.frame;
    knows = m.knows;
    watched =
        λ j. rw (← k.write_interest w.sys w.loop.wake_fd w.loop.poll.epoll_fd j) (m.watched j);
    was_there =
        λ t z. m.was_there t (k.write_interest w.sys w.loop.wake_fd w.loop.poll.epoll_fd _ ∙ z);
  })
  woken w w' b (deleted e d) h = deleted e (record {
    frame = d.frame;
    knows = d.knows;
    watched =
        λ j. rw (← k.write_interest w.sys w.loop.wake_fd w.loop.poll.epoll_fd j) (d.watched j);
    result = d.result;
  })

  -- Every return of updateEvents is one of the five, by the state of the object: an INVAILD one is
  -- refused, a USED one is let be, a NEW one or an unknown MOD one is added, a known MOD one has
  -- its mask changed, a DEL one is taken off.
  pub update_events-Update :
      (w w' : World k) (b : Bool)
      → update_events k ndebug p w ≡ ok (w', b)
      → Update k ndebug p w w' b
  unfolding update_events wakeup_loop
  update_events-Update w w' b h = elim (Bool-cases (is_invaild (w.heap p))) [
    | inl bad ↦ let (ew, eb) = returned w w' false b (rw bad at h) in refused (ground arith) ew eb
    | inr good ↦
        woken w w' b (by_state (w.heap p).state (wakeup_loop k w) w' b refl (rw good at h))
          (λ e. ground arith)
  ]

module _ (k : Kernel) (ndebug : Bool) where
  pub Update-Frame : (p : ℕ) (v v' : World k) (b : Bool) → Update k ndebug p v v' b → Frame k v v'
  Update-Frame p v v' b (refused e ew eb) = rw ew (refl, refl, refl)
  Update-Frame p v v' b (idle e kn wa f eb) = f
  Update-Frame p v v' b (added e a) = a.frame
  Update-Frame p v v' b (modified e n m) = m.frame
  Update-Frame p v v' b (deleted e d) = d.frame

  -- What the loop knows after an update, it knew before, or it is the object.
  pub Update-known :
      (p : ℕ) (v v' : World k) (b : Bool) (j : ℤ) (q : ℕ)
      → Update k ndebug p v v' b
      → known k v' j ≡ some q
      → (known k v j ≡ some q) ⊎ ((v.heap p).fd ≡ j) × (q ≡ p)
  Update-known p v v' b j q (refused e ew eb) h = inl (ap (λ x. known k x j) (sym ew) ∙ h)
  Update-known p v v' b j q (idle e kn wa f eb) h = inl (sym (kn j) ∙ h)
  Update-known p v v' b j q (added e a) h = elim (Bool-cases ((v.heap p).fd == j)) [
    | inl same ↦ inr (
      (int_beq_iff (v.heap p).fd j).0 same,
      some-injective _ _ (sym h ∙ a.knows j ∙ simp same refl),
    )
    | inr other ↦ inl (sym (a.knows j ∙ simp other refl) ∙ h)
  ]
  Update-known p v v' b j q (modified e n m) h = inl (sym (m.knows j) ∙ h)
  Update-known p v v' b j q (deleted e d) h = ground (arith, d.knows j)
