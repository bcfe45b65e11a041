-- ===== src/Process/Views.antt =====
-- A step of one loop, seen from the process.
use fasco.Base.{
  ℕ, ◌≡◌, refl, ◌≢◌, Bool, true, none, some, nat_beq, nat_beq_iff, ap, sym, ◌∙◌, arith, subst,
}
use fasco.Base.Int.{minus_one, int_eq}
use fasco.Events.{State}
use fasco.Base.Outcome.{ok, >>=-eq-ok, ok-injective}
use fasco.Kernel.{Kernel}
use fasco.EventLoop.{World}
use fasco.EventLoop
use fasco.EventLoop.Step.{Frame, known}
use fasco.EventLoop.Total.{update_events_returns}
use fasco.EventLoop.Update.{Update-Frame, Update, update_events-Update}
use fasco.EventLoopPool
use fasco.Process.{Process, view, put_loop, loop_update, update_registered, update_loop_events}

module _ (k : Kernel) where
  -- What comes of a loop's step is what the process shows of that loop.
  view-put_loop :
      (l : ℕ) (v : World k) (w : Process k)
      → Frame k (view k l w) v
      → view k l (put_loop k l v w) ≡ v
  view-put_loop l v w f =
      let here : nat_beq l l ≡ true = (nat_beq_iff l l).1 refl in
      let tid : v.loop.tid ≡ (w.loops l).tid = ap (λ x. x.tid) f.2 in
      rw here (ap (λ pool. record v { pool = pool }) (ap w.pools tid ∙ sym f.1))

module _ (k : Kernel) (ndebug : Bool) where
  -- One loop took the object in hand; nothing else of the process moved.
  pub record Updated (l p : ℕ) (w w' : Process k) (b : Bool) : Type 0 where
    pub update : Update k ndebug p (view k l w) (view k l w') b
    pub frame : Frame k (view k l w) (view k l w')
    pub pools : w'.pools ≡ w.pools
    pub registry : w'.registry ≡ w.registry
    pub others : (a : ℕ) → a ≢ l → w'.loops a ≡ w.loops a

  pub put_loop-Updated :
      (l p : ℕ) (v : World k) (w : Process k) (b : Bool)
      → Update k ndebug p (view k l w) v b
      → Updated l p w (put_loop k l v w) b
  put_loop-Updated l p v w b u =
      let f = Update-Frame k ndebug p (view k l w) v b u in
      let seen : v ≡ view k l (put_loop k l v w) = sym (view-put_loop k l v w f) in
      record {
        update = subst (λ x. Update k ndebug p (view k l w) x b) seen u;
        frame = subst (λ x. Frame k (view k l w) x) seen f;
        pools = refl;
        registry = refl;
        others = λ a n. ground (arith, nat_beq_iff l a);
      }

  pub loop_update-Updated :
      (l p : ℕ) (w w' : Process k) (b : Bool)
      → loop_update k ndebug l p w ≡ ok (w', b)
      → Updated l p w w' b
  unfolding loop_update
  loop_update-Updated l p w w' b h =
      let ((v, c), e, h') = >>=-eq-ok (EventLoop.update_events k ndebug p (view k l w)) _ h in
      subst (λ r. Updated l p w r.0 r.1) (ok-injective h')
        (put_loop-Updated l p v w c (update_events-Update k ndebug p (view k l w) v c e))

  -- UpdateLoopEvents where the object's thread has a loop.
  pub update_loop_events-Updated :
      (l p : ℕ) (w w' : Process k) (b : Bool)
      → EventLoopPool.get_loop (w.heap p).tid w.registry ≡ some l
      → update_loop_events k ndebug p w ≡ ok (w', b)
      → Updated l p w w' b
  unfolding update_loop_events update_registered
  update_loop_events-Updated l p w w' b e h = loop_update-Updated l p w w' b (simp e at h)

module _ (k : Kernel) (ndebug : Bool) (l p : ℕ) (w : Process k) where
  -- What a loop's updateEvents needs to come back: the loop is open, it does not know the descriptor
  -- of a NEW object, and knows that of a DEL one.
  pub loop_update_returns :
      (w.loops l).poll.epoll_fd ≢ minus_one
      → ((w.heap p).state ≡ State.new → known k (view k l w) (w.heap p).fd ≡ none)
      → ((w.heap p).state ≡ State.del → known k (view k l w) (w.heap p).fd ≢ none)
      → (w' : Process k) × (b : Bool) × (loop_update k ndebug l p w ≡ ok (w', b))
        × Updated k ndebug l p w w' b
  unfolding loop_update
  loop_update_returns open_ fresh there =
      let (v, b, h) = update_events_returns k ndebug p (view k l w) open_ fresh there in
      let u = update_events-Update k ndebug p (view k l w) v b h in
      (put_loop k l v w, b, simp h refl, put_loop-Updated k ndebug l p v w b u)

  -- Where updateEvents of the object's loop comes back, UpdateLoopEvents does.
  pub update_loop_events_returns :
      EventLoopPool.get_loop (w.heap p).tid w.registry ≡ some l
      → (w.loops l).poll.epoll_fd ≢ minus_one
      → ((w.heap p).state ≡ State.new → known k (view k l w) (w.heap p).fd ≡ none)
      → ((w.heap p).state ≡ State.del → known k (view k l w) (w.heap p).fd ≢ none)
      → (w' : Process k) × (b : Bool) × (update_loop_events k ndebug p w ≡ ok (w', b))
        × Updated k ndebug l p w w' b
  unfolding update_loop_events update_registered
  update_loop_events_returns e open_ fresh there =
      let (w', b, h, u) = loop_update_returns open_ fresh there in (w', b, simp (e, h) refl, u)
