-- ===== src/Hook/Wake.antt =====
-- base/SysapiHook.cpp with base/EventLoop.cpp: what ends the wait of `read` and `accept`.
use fasco.Base.{
  ℕ, arith, ◌≡◌, refl, ◌≢◌, ◌∙◌, Bool, true, some, inl, inr, if◌then◌else◌, ap, sym, nat_beq_iff,
}
use fasco.Base.Bits.{bit, bit_not}
use fasco.Base.Int.{ℤ, minus_one, int_eq, int_beq_iff}
use fasco.Base.Outcome.{Outcome, ok}
use fasco.Events.{
  Events, State, put, set_mutable, origin_read, k_read_event, delete_event,
  contains_at_least_one_events,
}
use fasco.Kernel.{Kernel}
use fasco.McoPool.{get_mco_routine, set_cur_mco}
use fasco.EventLoop.{World, event_handle_able, handle_event}
use fasco.EventLoop.HandleAble.{readable_able}
use fasco.EventLoop.Dispatch.{able_resumes}
use fasco.EventLoop.Step.{known, watches}
use fasco.EventLoop.Update.{Update, refused, idle, added, modified, deleted}
use fasco.EventLoopPool
use fasco.Process.{Process, view, put_event}
use fasco.Process.Views.{update_loop_events_returns}
use fasco.Hook.{Files, put_sys, read_end, accept_end, stop_waiting}
use fasco.Hook.Wait.{Waits}

asks-origin_read : (e : Events) → e.eorigin ≡ k_read_event → origin_read e ≡ true
unfolding origin_read contains_at_least_one_events
asks-origin_read e h = rw h refl

module _ (k : Kernel) (l : ℕ) (tid fd : ℤ) (p m : ℕ) (w : Process k)
    (waits : Waits k l tid fd p m w) where
  -- While a call waits, POLLIN for its descriptor, among whatever else is reported, makes the loop
  -- resume the coroutine that made the call, as the current one.
  pub Waits-resumed :
      (resume : ℕ → World k → Outcome (World k)) (event : ℕ)
      → fd ≢ (w.loops l).wake_fd
      → bit 0 event ≡ 1
      → handle_event k resume (record { fd = fd; event = event }) (view k l w)
        ≡ resume m (record (view k l w) {
          heap = put w.heap p (event_handle_able (set_mutable event (w.heap p))).0;
          pool = set_cur_mco (some m) (w.pools tid);
        })
  Waits-resumed resume event other reported =
      able_resumes k resume (record { fd = fd; event = event }) (view k l w) p m waits.knows
        waits.own other (readable_able (set_mutable event (w.heap p)) waits.live asking reported)
        (ap (λ t. get_mco_routine fd (w.pools t)) waits.home ∙ waits.waiter)
      ∙ ap
          (λ t. resume m (record (view k l w) {
            heap = put w.heap p (event_handle_able (set_mutable event (w.heap p))).0;
            pool = set_cur_mco (some m) (w.pools t);
          }))
          waits.home
    where
      asking : origin_read (set_mutable event (w.heap p)) ≡ true
      asking = asks-origin_read (set_mutable event (w.heap p)) waits.asks

-- At one descriptor, after an update of its object that was known for it and does not go away.
updated_known :
    (k : Kernel) (ndebug : Bool) (l p : ℕ) (fd : ℤ) (w w' : Process k) (b : Bool)
    → (w.heap p).state ≡ State.modified
    → (w.heap p).fd ≡ fd
    → known k (view k l w) fd ≡ some p
    → Update k ndebug p (view k l w) (view k l w') b
    → (known k (view k l w') fd ≡ some p)
      × (watches k (view k l w') fd
          ≡ (if b then some (w.heap p).eorigin else watches k (view k l w) fd))
updated_known k ndebug l p fd w w' b m own e (refused st ew eb) = absurd (cc)
updated_known k ndebug l p fd w w' b m own e (idle st kn wa f eb) = absurd (cc)
updated_known k ndebug l p fd w w' b m own e (added (inl st) a) = absurd (cc)
updated_known k ndebug l p fd w w' b m own e (added (inr (st, fresh)) a) =
    absurd (cc (sym e ∙ ap (known k (view k l w)) (sym own) ∙ fresh))
updated_known k ndebug l p fd w w' b m own e (modified st n r) =
    (r.knows fd ∙ e, r.watched fd ∙ rw ((int_beq_iff (w.heap p).fd fd).1 own) (ground arith))
updated_known k ndebug l p fd w w' b m own e (deleted st d) = absurd (cc)

-- The loop keeps the object of a descriptor, which is watched for nothing, unless the kernel refused.
abbrev pub Stopped : (k : Kernel) → ℕ → ℤ → ℕ → Process k → Bool → Process k → Type 0
Stopped k l fd p w b w' =
    (known k (view k l w') fd ≡ some p)
    × (watches k (view k l w') fd ≡ (if b then some 0 else watches k (view k l w) fd))

module _ (k : Kernel) (io : Files k) (ndebug : Bool) (l : ℕ) (tid fd : ℤ) (p m : ℕ) (w : Process k)
    (waits : Waits k l tid fd p m w) (mine : EventLoopPool.get_loop tid w.registry ≡ some l)
    (open_ : (w.loops l).poll.epoll_fd ≢ minus_one) where
  stop_waiting-Stopped :
      (w₁ : Process k) × (b : Bool) × (stop_waiting k ndebug tid p w ≡ ok w₁)
      × Stopped k l fd p w b w₁
  unfolding stop_waiting delete_event bit_not
  stop_waiting-Stopped =
      let quiet = delete_event k_read_event (w.heap p) in
      let w₂ = put_event k p quiet w in
      let made : w₂.heap p ≡ quiet = rw ((nat_beq_iff p p).1 refl) in
      let st : (w₂.heap p).state ≡ State.modified = ap (λ x. x.state) made in
      let own : (w₂.heap p).fd ≡ fd = ap (λ x. x.fd) made ∙ waits.own in
      let none_left : (w₂.heap p).eorigin ≡ 0 = ap (λ x. x.eorigin) made ∙ rw waits.asks refl in
      let loop : EventLoopPool.get_loop (w₂.heap p).tid w₂.registry ≡ some l =
        ap (λ x. EventLoopPool.get_loop x.tid w.registry) made ∙ rw waits.of_thread mine in
      let (w₁, b, e, u) =
        update_loop_events_returns k ndebug l p w₂ loop open_ (λ s. absurd (cc (st, s)))
          (λ s. absurd (cc (st, s))) in
      let (kn, wa) = updated_known k ndebug l p fd w₂ w₁ b st own waits.knows u.update in
      (w₁, b, simp e refl, (kn, wa ∙ rw none_left refl))

  -- Back from its yield, read or accept comes to just what the system call gives, after it has taken
  -- its request back: the loop keeps the object, and the kernel, unless it refuses, watches the
  -- descriptor for nothing.
  pub read_accept_end :
      (nbyte : ℕ)
      → (w₁ : Process k) × (b : Bool) × (let r = io.uni_read w₁.sys fd nbyte in
          (read_end k io ndebug true tid fd nbyte p w ≡ ok (put_sys k r.0 w₁, r.1))
          × Stopped k l fd p w b (put_sys k r.0 w₁))
        × (let a = io.uni_accept w₁.sys fd in
            (accept_end k io ndebug true tid fd p w ≡ ok (put_sys k a.0 w₁, a.1))
            × Stopped k l fd p w b (put_sys k a.0 w₁))
  unfolding read_end accept_end
  read_accept_end nbyte =
      let (w₁, b, e, (kn, wa)) = stop_waiting-Stopped in
      let epfd = (w₁.loops l).poll.epoll_fd in
      (
        w₁,
        b,
        (simp e refl, (kn, io.read_keeps w₁.sys fd nbyte epfd fd ∙ wa)),
        (simp e refl, (kn, io.accept_keeps w₁.sys fd epfd fd ∙ wa)),
      )
