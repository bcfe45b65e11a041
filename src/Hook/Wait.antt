-- ===== src/Hook/Wait.antt =====
-- base/SysapiHook.cpp: what a call of `read` or `accept` that waits leaves behind.
use fasco.Base.{
  ℕ, ◌≡◌, refl, ◌≢◌, ◌∙◌, Bool, true, ◌&&◌, Option, none, some, if◌then◌else◌, ◌==◌, nat_beq,
  nat_beq_iff, ap, inl, inr, ◌⊎◌, arith,
}
use fasco.Base.Int.{ℤ, minus_one, int_eq, int_beq_iff}
use fasco.Base.Map.{find-assign}
use fasco.Base.Outcome.{Outcome, ok, assert_holds}
use fasco.Events.{Events, State, Heap, make, put, k_read_event}
use fasco.Events
use fasco.Kernel.{Kernel}
use fasco.McoPool.{get_mco_routine, set_mco_routine}
use fasco.EventLoop.Step.{known, watches}
use fasco.EventLoop.Update.{Update, refused, idle, added, modified, deleted}
use fasco.EventLoopPool
use fasco.EventLoop
use fasco.McoRoutine.{same_mco}
use fasco.Process.{
  get_events, events_registered, Process, view, put_event, put_pool, update_loop_events,
}
use fasco.Process.Views.{Updated, update_loop_events_returns}
use fasco.Hook.{Call, waiting, wait_new, wait_known, event_for}

module _ (k : Kernel) (l : ℕ) (tid fd : ℤ) where
  -- Coroutine `m` waits for the descriptor with the object at `p`: the loop has the object, which
  -- asks for reading, and the thread's pool has the coroutine.
  pub record Waits (p m : ℕ) (w : Process k) : Type 0 where
    pub knows : known k (view k l w) fd ≡ some p
    pub own : (w.heap p).fd ≡ fd
    pub of_thread : (w.heap p).tid ≡ tid
    pub asks : (w.heap p).eorigin ≡ k_read_event
    pub live : ((w.heap p).state ≡ State.new) ⊎ ((w.heap p).state ≡ State.modified)
    pub waiter : get_mco_routine fd (w.pools tid) ≡ some m
    pub home : (w.loops l).tid ≡ tid

  -- Whether the kernel took the request is not looked at.
  abbrev pub Watched : Bool → Process k → Process k → Type 0
  Watched b w w' =
      watches k (view k l w') fd ≡ (if b then some k_read_event else watches k (view k l w) fd)

module _ (k : Kernel) (ndebug : Bool) (l : ℕ) (tid fd : ℤ) (p m : ℕ) (w w' : Process k) (b : Bool)
    (own : (w.heap p).fd ≡ fd) (of_thread : (w.heap p).tid ≡ tid)
    (asks : (w.heap p).eorigin ≡ k_read_event) (waiter : get_mco_routine fd (w.pools tid) ≡ some m)
    (home : (w.loops l).tid ≡ tid) (u : Updated k ndebug l p w w' b) where
  module _ (live : ((w.heap p).state ≡ State.new) ⊎ ((w.heap p).state ≡ State.modified))
      (mine : (known k (view k l w) fd ≡ none) ⊎ (known k (view k l w) fd ≡ some p)) where
    heap_kept : w'.heap ≡ w.heap
    heap_kept = u.frame.0

    same_fd : ((w.heap p).fd == fd) ≡ true
    same_fd = (int_beq_iff (w.heap p).fd fd).1 own

    with-Waits : known k (view k l w') fd ≡ some p → Waits k l tid fd p m w'
    with-Waits e = record {
      knows = e;
      own = rw heap_kept own;
      of_thread = rw heap_kept of_thread;
      asks = rw heap_kept asks;
      live = rw heap_kept live;
      waiter = rw u.pools waiter;
      home = ap (λ x. x.tid) u.frame.2 ∙ home;
    }

    asked :
        (v : Option ℕ)
        → (if b && (w.heap p).fd == fd then some (w.heap p).eorigin else v)
          ≡ (if b then some k_read_event else v)
    asked v = rw (same_fd, asks) (ground arith)

    by_update :
        Update k ndebug p (view k l w) (view k l w') b
        → (known k (view k l w') fd ≡ some p) × Watched k l tid fd b w w'
    by_update (refused e ew eb) = absurd (ground arith)
    by_update (idle e kn wa f eb) = absurd (ground arith)
    by_update (added e a) = (a.knows fd ∙ rw same_fd, a.watched fd ∙ asked _)
    by_update (modified e n h) = elim mine [
      | inl none_ ↦ absurd (n (ap (known k (view k l w)) own ∙ none_))
      | inr some_ ↦ (h.knows fd ∙ some_, h.watched fd ∙ asked _)
    ]
    by_update (deleted e d) = absurd (ground arith)

    pub asked-Waits : Waits k l tid fd p m w' × Watched k l tid fd b w w'
    asked-Waits = let (knows, watched) = by_update u.update in (with-Waits knows, watched)

-- The loop has an object of this thread for the descriptor.
abbrev pub Registered : (k : Kernel) → ℕ → ℤ → Process k → ℤ → Type 0
Registered k l tid w j =
    (q : ℕ) × (known k (view k l w) j ≡ some q) × ((w.heap q).fd ≡ j) × ((w.heap q).tid ≡ tid)

-- How a call that waits comes out: at its yield, with an object on which the loop waits for it.
abbrev pub WaitBegun :
    (k : Kernel) (l : ℕ) (tid fd : ℤ) (m : ℕ) → Process k → Outcome (Process k × Call) → Type 0
WaitBegun k l tid fd m w c =
    (p : ℕ) × (b : Bool) × (w' : Process k) × (c ≡ ok (w', waiting p (some m)))
    × Waits k l tid fd p m w'
    × Watched k l tid fd b w w'

module _ (k : Kernel) (ndebug : Bool) (l : ℕ) (tid fd : ℤ) (m new_event : ℕ) (w : Process k)
    (mine : EventLoopPool.get_loop tid w.registry ≡ some l) (home : (w.loops l).tid ≡ tid)
    (open_ : (w.loops l).poll.epoll_fd ≢ minus_one) (current : (w.pools tid).cur ≡ some m) where
  itself : nat_beq new_event new_event ≡ true
  itself = (nat_beq_iff new_event new_event).1 refl

  same_tid : (tid == tid) ≡ true
  same_tid = (int_beq_iff tid tid).1 refl

  pub wait_new-Waits :
      known k (view k l w) fd ≡ none
      → WaitBegun k l tid fd m w (wait_new k ndebug tid fd new_event m w)
  unfolding wait_new make get_mco_routine set_mco_routine
  wait_new-Waits fresh =
      let w₁ = put_pool k tid (set_mco_routine fd m (w.pools tid)) w in
      let w₂ = put_event k new_event (make fd k_read_event tid) w₁ in
      let made : w₂.heap new_event ≡ make fd k_read_event tid = rw itself in
      let loop : EventLoopPool.get_loop (w₂.heap new_event).tid w₂.registry ≡ some l =
        rw made mine in
      let (w', b, e, u) =
        update_loop_events_returns k ndebug l new_event w₂ loop open_ (λ s. rw made fresh)
          (λ s. absurd (cc (made, s))) in
      let cur : (w'.pools tid).cur ≡ some m = rw (u.pools, same_tid) current in
      let waiter : get_mco_routine fd (w₂.pools tid) ≡ some m =
        rw same_tid (find-assign fd fd m (w.pools tid).fd_mcos ∙ rw ((int_beq_iff fd fd).1 refl)) in
      let (waits, watched) =
        asked-Waits k ndebug l tid fd new_event m w₂ w' b (ap (λ x. x.fd) made)
          (ap (λ x. x.tid) made) (ap (λ x. x.eorigin) made) waiter home u
          (inl (ap (λ x. x.state) made)) (inl fresh) in
      (new_event, b, w', simp e (ap (λ c. ok (w', waiting new_event c)) cur), waits, watched)

  -- `event->updateEvents(kReadEvent); Eventsops::UpdateLoopEvents(event)`, with the heap at that
  -- time.
  ask_again :
      (q : ℕ) (h : Heap)
      → (h q).fd ≡ fd
      → (h q).tid ≡ tid
      → (known k (view k l w) fd ≡ none) ⊎ (known k (view k l w) fd ≡ some q)
      → get_mco_routine fd (w.pools tid) ≡ some m
      → (w' : Process k) × (b : Bool) × (update_loop_events k ndebug q
            (put_event k q (Events.update_events k_read_event (h q)) (record w { heap = h }))
          ≡ ok (w', b))
        × (w'.pools ≡ w.pools)
        × Waits k l tid fd q m w'
        × Watched k l tid fd b w w'
  unfolding Events.update_events
  ask_again q h of_fd of_tid registered waiter =
      let asking = Events.update_events k_read_event (h q) in
      let w₂ = put_event k q asking (record w { heap = h }) in
      let made : w₂.heap q ≡ asking = rw ((nat_beq_iff q q).1 refl) in
      let loop : EventLoopPool.get_loop (w₂.heap q).tid w₂.registry ≡ some l =
        rw (made, of_tid) mine in
      let (w', b, e, u) =
        update_loop_events_returns k ndebug l q w₂ loop open_ (λ s. absurd (cc (made, s)))
          (λ s. absurd (cc (made, s))) in
      let (waits, watched) =
        asked-Waits k ndebug l tid fd q m w₂ w' b (ap (λ x. x.fd) made ∙ of_fd)
          (ap (λ x. x.tid) made ∙ of_tid) (ap (λ x. x.eorigin) made) waiter home u
          (inr (ap (λ x. x.state) made)) registered in
      (w', b, e, u.pools, waits, watched)

  event_for-cases :
      (known k (view k l w) fd ≡ none) ⊎ Registered k l tid w fd
      → (q : ℕ) × (h : Heap) × (event_for k tid fd new_event (get_events k tid fd w) w
          ≡ (record w { heap = h }, q))
        × ((h q).fd ≡ fd)
        × ((h q).tid ≡ tid)
        × ((known k (view k l w) fd ≡ none) ⊎ (known k (view k l w) fd ≡ some q))
  unfolding event_for get_events events_registered EventLoop.get_events make
  event_for-cases (inl fresh) =
      let h = put w.heap new_event (make fd k_read_event tid) in
      let made : h new_event ≡ make fd k_read_event tid = rw itself in
      (new_event, h, simp (mine, fresh) refl, rw made refl, rw made refl, inl fresh)
  event_for-cases (inr (q, e, of_fd, of_tid)) =
      (q, w.heap, simp (mine, e) refl, of_fd, of_tid, inr e)

  pub wait_known-Waits :
      get_mco_routine fd (w.pools tid) ≡ some m
      → (known k (view k l w) fd ≡ none) ⊎ Registered k l tid w fd
      → WaitBegun k l tid fd m w (wait_known k ndebug tid fd new_event m w)
  unfolding wait_known
  wait_known-Waits waiter registered =
      let (q, h, found, of_fd, of_tid, r) = event_for-cases registered in
      let (w', b, e, pools, waits, watched) = ask_again q h of_fd of_tid r waiter in
      let cur : (w'.pools tid).cur ≡ some m = rw pools current in
      let same : same_mco (some m) (w.pools tid).cur ≡ true =
        rw current ((nat_beq_iff m m).1 refl) in
      (
        q,
        b,
        w',
        simp (assert_holds ndebug _ same, found, e) (ap (λ c. ok (w', waiting q c)) cur),
        waits,
        watched,
      )
