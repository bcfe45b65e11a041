-- ===== src/Epoll/Interest.antt =====
-- What EventsAdd, EventsMod and EventsDel do to the kernel's interest list.
use fasco.Base.{
  ◌≡◌, ◌≢◌, Bool, true, false, not, none, some, if◌then◌else◌, ◌==◌, ◌&&◌, inl, inr, arith,
  Bool-cases, ap,
}
use fasco.Base.Int.{ℤ, minus_one, int_eq, int_beq_iff}
use fasco.Base.Outcome.{ok, assert_that, >>=-eq-ok, ok-injective}
use fasco.Events.{Events, EpollEvent, epoll_events}
use fasco.Kernel.{Kernel, CtlOp, ctl_add, ctl_mod, ctl_del}
use fasco.Epoll.{Epoll, event_ctl, events_add, events_mod, events_del}

module _ (k : Kernel) (ndebug : Bool) (p : Epoll) where
  event_ctl-eq-ok :
      (op : CtlOp) (sd : ℤ) (ev : EpollEvent) (s s' : k.State) (b : Bool)
      → event_ctl k ndebug p op sd ev s ≡ ok (s', b)
      → ((k.epoll_ctl s p.epoll_fd op sd ev).0 ≡ s')
        × (not ((k.epoll_ctl s p.epoll_fd op sd ev).1 == minus_one) ≡ b)
  unfolding event_ctl
  event_ctl-eq-ok op sd ev s s' b h =
      let (_, _, e) = >>=-eq-ok (assert_that ndebug (not (p.epoll_fd == minus_one))) _ h in
      (ap (λ r. r.0) (ok-injective e), ap (λ r. r.1) (ok-injective e))

  accepted : (i : ℤ) {b : Bool} → not (i == minus_one) ≡ b → b ≡ true → i ≢ minus_one
  accepted i e h z = ground (arith, int_beq_iff i minus_one)

  refused : (i : ℤ) {b : Bool} → not (i == minus_one) ≡ b → b ≡ false → i ≡ minus_one
  refused i e h = ground (arith, int_beq_iff i minus_one)

  module _ (e : Events) (s s' : k.State) (b : Bool) where
    -- EventsAdd succeeds only on a descriptor that was not watched, and then watches it under its
    -- mask; else it changes nothing.
    pub events_add-interest :
        events_add k ndebug p e s ≡ ok (s', b)
        → ((j : ℤ)
            → k.interest s' p.epoll_fd j
              ≡ (if b && e.fd == j then some e.eorigin else k.interest s p.epoll_fd j))
          × (b ≡ true → k.interest s p.epoll_fd e.fd ≡ none)
    unfolding events_add
    events_add-interest h =
        let (es, eb) = event_ctl-eq-ok ctl_add e.fd (epoll_events e) s s' b h in
        elim (Bool-cases b) [
          | inl yes_ ↦
              let success = accepted _ eb yes_ in
              (
                λ j. rw (yes_, ← es) (k.add_effect s p.epoll_fd e.fd j (epoll_events e) success),
                λ _. k.add_was_new s p.epoll_fd e.fd (epoll_events e) success,
              )
          | inr no_ ↦ (
            λ j.
                rw (no_, ← es)
                  (k.ctl_refused s p.epoll_fd e.fd j ctl_add (epoll_events e) (refused _ eb no_)),
            λ t. absurd (cc),
          )
        ]

    -- EventsMod succeeds only on a descriptor that was watched, and then changes its mask; else it
    -- changes nothing.
    pub events_mod-interest :
        events_mod k ndebug p e s ≡ ok (s', b)
        → ((j : ℤ)
            → k.interest s' p.epoll_fd j
              ≡ (if b && e.fd == j then some e.eorigin else k.interest s p.epoll_fd j))
          × (b ≡ true → k.interest s p.epoll_fd e.fd ≢ none)
    unfolding events_mod
    events_mod-interest h =
        let (es, eb) = event_ctl-eq-ok ctl_mod e.fd (epoll_events e) s s' b h in
        elim (Bool-cases b) [
          | inl yes_ ↦
              let success = accepted _ eb yes_ in
              (
                λ j. rw (yes_, ← es) (k.mod_effect s p.epoll_fd e.fd j (epoll_events e) success),
                λ _. k.mod_was_there s p.epoll_fd e.fd (epoll_events e) success,
              )
          | inr no_ ↦ (
            λ j.
                rw (no_, ← es)
                  (k.ctl_refused s p.epoll_fd e.fd j ctl_mod (epoll_events e) (refused _ eb no_)),
            λ t. absurd (cc),
          )
        ]

    -- After EventsDel the descriptor is not watched, whatever the call returned.
    pub events_del-interest :
        events_del k ndebug p e s ≡ ok (s', b)
        → (j : ℤ)
        → k.interest s' p.epoll_fd j ≡ (if e.fd == j then none else k.interest s p.epoll_fd j)
    unfolding events_del
    events_del-interest h j =
        let (es, eb) = event_ctl-eq-ok ctl_del e.fd (epoll_events e) s s' b h in
        rw (← es) (k.del_effect s p.epoll_fd e.fd j (epoll_events e))
