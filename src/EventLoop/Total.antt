-- ===== src/EventLoop/Total.antt =====
-- When updateEvents of base/EventLoop.cpp comes back: where none of its asserts fails.
use fasco.Base.{
  ℕ, ◌≡◌, refl, ◌≢◌, Bool, true, false, not, none, is_some, ◌==◌, inl, inr, Bool-cases, ap, arith,
}
use fasco.Base.Int.{ℤ, minus_one, int_eq, int_beq_iff}
use fasco.Base.Outcome.{ok, Returns, Returns-value, Returns-bind, assert_holds}
use fasco.Events.{State, is_invaild}
use fasco.Kernel.{Kernel}
use fasco.Epoll.{event_ctl, events_add, events_mod, events_del}
use fasco.EventLoop.{
  World, assert_erase, poll_new, poll_mod, poll_del, poll_update, update_events, wakeup_loop,
}
use fasco.EventLoop.Step.{known}

module _ (k : Kernel) where
  erase-Returns :
      (ndebug : Bool) (fd : ℤ) (w : World k)
      → is_some (known k w fd) ≡ true
      → Returns (assert_erase k ndebug fd w)
  unfolding assert_erase
  erase-Returns true fd w h = tt
  erase-Returns false fd w h = simp h tt

module _ (k : Kernel) (ndebug : Bool) (w : World k) (p : ℕ)
    (open_ : w.loop.poll.epoll_fd ≢ minus_one) where
  is_open : not (w.loop.poll.epoll_fd == minus_one) ≡ true
  is_open = ground (arith, int_beq_iff w.loop.poll.epoll_fd minus_one)

  add-Returns : Returns (events_add k ndebug w.loop.poll (w.heap p) w.sys)
  unfolding events_add event_ctl
  add-Returns = simp (assert_holds ndebug _ is_open) tt

  mod-Returns : Returns (events_mod k ndebug w.loop.poll (w.heap p) w.sys)
  unfolding events_mod event_ctl
  mod-Returns = simp (assert_holds ndebug _ is_open) tt

  del-Returns : Returns (events_del k ndebug w.loop.poll (w.heap p) w.sys)
  unfolding events_del event_ctl
  del-Returns = simp (assert_holds ndebug _ is_open) tt

  new-Returns : known k w (w.heap p).fd ≡ none → Returns (poll_new k ndebug p w)
  unfolding poll_new
  new-Returns fresh =
      let (r, e) = Returns-value _ add-Returns in
      let free : not (is_some (known k w (w.heap p).fd)) ≡ true = ap (λ o. not (is_some o)) fresh in
      simp (assert_holds ndebug _ free, e) tt

  modified-Returns : Returns (poll_mod k ndebug p w)
  unfolding poll_mod
  modified-Returns =
      let (r, e) = Returns-value _ add-Returns in
      let (r', e') = Returns-value _ mod-Returns in
      elim (Bool-cases (is_some (known k w (w.heap p).fd))) [
        | inl there ↦ simp (there, e') tt
        | inr fresh ↦ simp (fresh, e) tt
      ]

  deleted-Returns : known k w (w.heap p).fd ≢ none → Returns (poll_del k ndebug p w)
  unfolding poll_del
  deleted-Returns there =
      let (r, e) = Returns-value _ del-Returns in
      let found : is_some (known k w (w.heap p).fd) ≡ true = ground arith in
      simp e (
        Returns-bind (assert_erase k ndebug (w.heap p).fd (record w { sys = r.0 })) _
          (erase-Returns k ndebug (w.heap p).fd (record w { sys = r.0 }) found) (λ w' h. tt))

  update-Returns :
      (st : State)
      → (w.heap p).state ≡ st
      → (st ≡ State.new → known k w (w.heap p).fd ≡ none)
      → (st ≡ State.del → known k w (w.heap p).fd ≢ none)
      → Returns (poll_update k ndebug p w)
  unfolding poll_update
  update-Returns State.new e fresh there = simp e (new-Returns (fresh refl))
  update-Returns State.modified e fresh there = simp e modified-Returns
  update-Returns State.del e fresh there = simp e (deleted-Returns (there refl))
  update-Returns State.used e fresh there = simp e tt
  update-Returns State.invaild e fresh there = simp e tt

module _ (k : Kernel) (ndebug : Bool) where
  -- Asserts compiled in or not, updateEvents comes back without a fault where the loop has an epoll
  -- descriptor, a NEW object's descriptor is not known, and a DEL object's is.
  pub update_events_returns :
      (p : ℕ) (w : World k)
      → w.loop.poll.epoll_fd ≢ minus_one
      → ((w.heap p).state ≡ State.new → known k w (w.heap p).fd ≡ none)
      → ((w.heap p).state ≡ State.del → known k w (w.heap p).fd ≢ none)
      → (w' : World k) × (b : Bool) × (update_events k ndebug p w ≡ ok (w', b))
  unfolding update_events wakeup_loop
  update_events_returns p w open_ fresh there = elim (Bool-cases (is_invaild (w.heap p))) [
    | inl bad ↦ (w, false, simp bad refl)
    | inr good ↦
        let (r, e) =
          Returns-value _
            (update-Returns k ndebug (wakeup_loop k w) p open_ (w.heap p).state refl fresh there) in
        (r.0, r.1, simp good e)
  ]
