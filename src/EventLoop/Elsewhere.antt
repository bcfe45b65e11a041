-- ===== src/EventLoop/Elsewhere.antt =====
-- What the update of an object in one loop, and its wait, do to the epoll instances of other loops.
use fasco.Base.{
  arith, length, leb, ℕ, zero, suc, ◌≡◌, refl, ◌≢◌, ◌∙◌, Bool, true, false, not, List, is_some,
  Bool-cases, inl, inr, if◌then◌else◌, ◌==◌, ap,
}
use fasco.Base.Int.{ℤ, int_eq, minus_one}
use fasco.Base.Map.{find, assign, erase}
use fasco.Base.Outcome.{
  Outcome, ok, fault, out_of_bounds, ◌>>=◌, assert_that, OnOk, OnOk-bind, OnOk-then, OnOk-at,
  OnOk-weaken,
}
use fasco.Events.{EpollEvent, is_invaild, isnew, ismod, isdel}
use fasco.Kernel.{Kernel, CtlOp}
use fasco.Epoll.{
  Epoll, PollerEvent, event_ctl, events_add, events_mod, events_del, loop_wait, after_wait,
  WaitReply-cases, reported,
}
use fasco.Epoll
use fasco.EventLoop.{
  World, keep, polled, poll_new, poll_mod, poll_del, poll_update, assert_erase, update_events,
  wakeup_loop,
}

module _ (k : Kernel) where
  -- Every list but that of one epoll instance is as it was.
  abbrev pub Elsewhere : ℤ → k.State → k.State → Type 0
  Elsewhere epfd s s' = (e j : ℤ) → e ≢ epfd → k.interest s' e j ≡ k.interest s e j

module _ (k : Kernel) (ndebug : Bool) where
  ctl-Elsewhere :
      (p : Epoll) (op : CtlOp) (sd : ℤ) (ev : EpollEvent) (s : k.State)
      → OnOk (λ r. Elsewhere k p.epoll_fd s r.0) (event_ctl k ndebug p op sd ev s)
  unfolding event_ctl
  ctl-Elsewhere p op sd ev s =
      OnOk-bind (λ r. Elsewhere k p.epoll_fd s r.0)
        (assert_that ndebug (not (p.epoll_fd == minus_one))) _
        (λ _ e j n. k.ctl_elsewhere s p.epoll_fd sd e j op ev n)

  abbrev Kept : World k → World k × Bool → Type 0
  Kept w r = Elsewhere k w.loop.poll.epoll_fd w.sys r.0.sys

  polled-Elsewhere :
      (m : Outcome (k.State × Bool)) (w u : World k)
      → OnOk (λ r. Elsewhere k w.loop.poll.epoll_fd w.sys r.0) m
      → OnOk (Kept w) (m >>= polled k u)
  polled-Elsewhere m w u h =
      OnOk-then (λ r. Elsewhere k w.loop.poll.epoll_fd w.sys r.0) (Kept w) m (polled k u) h
        (λ r e. e)

  new-Elsewhere : (p : ℕ) (w : World k) → OnOk (Kept w) (poll_new k ndebug p w)
  unfolding poll_new events_add
  new-Elsewhere p w =
      OnOk-bind (Kept w) (assert_that ndebug (not (is_some (find (w.heap p).fd w.loop.events)))) _
        (λ _.
          polled-Elsewhere _ w (keep k w (assign (w.heap p).fd p w.loop.events))
            (ctl-Elsewhere w.loop.poll _ _ _ w.sys))

  mod-Elsewhere : (p : ℕ) (w : World k) → OnOk (Kept w) (poll_mod k ndebug p w)
  unfolding poll_mod events_add events_mod
  mod-Elsewhere p w = elim (Bool-cases (is_some (find (w.heap p).fd w.loop.events))) [
    | inl there ↦ simp there (polled-Elsewhere _ w w (ctl-Elsewhere w.loop.poll _ _ _ w.sys))
    | inr fresh ↦ simp fresh (
        polled-Elsewhere _ w (keep k w (assign (w.heap p).fd p w.loop.events))
          (ctl-Elsewhere w.loop.poll _ _ _ w.sys))
  ]

  erase-sys : (fd : ℤ) (w : World k) → OnOk (λ v. v.sys ≡ w.sys) (assert_erase k ndebug fd w)
  unfolding assert_erase
  erase-sys fd w = elim (Bool-cases ndebug) [
    | inl off ↦ simp off refl
    | inr on ↦ simp on (
        OnOk-bind {B = World k} (λ v. v.sys ≡ w.sys)
          (assert_that false (is_some (find fd w.loop.events)))
          (λ _. ok (keep k w (erase fd w.loop.events))) (λ _. refl))
  ]

  del-Elsewhere : (p : ℕ) (w : World k) → OnOk (Kept w) (poll_del k ndebug p w)
  unfolding poll_del events_del
  del-Elsewhere p w =
      OnOk-then (λ r. Elsewhere k w.loop.poll.epoll_fd w.sys r.0) (Kept w) _ _
        (ctl-Elsewhere w.loop.poll _ _ _ w.sys)
        (λ r h.
          OnOk-then (λ v. v.sys ≡ r.0) (Kept w) _ _ (erase-sys _ _)
            (λ v same e j n. ap (λ s. k.interest s e j) same ∙ h e j n))

  poll_update-Elsewhere : (p : ℕ) (w : World k) → OnOk (Kept w) (poll_update k ndebug p w)
  unfolding poll_update
  poll_update-Elsewhere p w =
      by_tests (is_invaild (w.heap p)) (isnew (w.heap p)) (ismod (w.heap p)) (isdel (w.heap p))
    where
      by_tests :
          (a b c d : Bool)
          → OnOk (Kept w) (
              if a
              then ok (w, false)
              else if b
              then poll_new k ndebug p w
              else if c
              then poll_mod k ndebug p w
              else if d
              then poll_del k ndebug p w
              else ok (w, true))
      by_tests true b c d = λ e j n. refl
      by_tests false true c d = new-Elsewhere p w
      by_tests false false true d = mod-Elsewhere p w
      by_tests false false false true = del-Elsewhere p w
      by_tests false false false false = λ e j n. refl

  -- updateEvents touches the list of its own loop alone.
  pub update_events-Elsewhere :
      (p : ℕ) (w w' : World k) (b : Bool)
      → update_events k ndebug p w ≡ ok (w', b)
      → Elsewhere k w.loop.poll.epoll_fd w.sys w'.sys
  unfolding update_events wakeup_loop
  update_events-Elsewhere p w w' b h = elim (Bool-cases (is_invaild (w.heap p))) [
    | inl bad ↦ OnOk-at (Kept w) (ok (w, false)) (simp bad at h) (λ e j n. refl)
    | inr good ↦ λ e j n.
        OnOk-at (Kept (wakeup_loop k w)) _ (simp good at h)
          (poll_update-Elsewhere p (wakeup_loop k w)) e j n
        ∙ k.write_interest w.sys w.loop.wake_fd e j
  ]

module _ (k : Kernel) where
  -- Every list is as it was.
  abbrev pub SameLists : k.State → k.State → Type 0
  SameLists s s' = (e j : ℤ) → k.interest s' e j ≡ k.interest s e j

  loop_wait-SameLists :
      (fuel : ℕ) (epfd : ℤ) (maxevents timeout : ℕ) (s : k.State)
      → OnOk (λ r. SameLists s r.0) (loop_wait k fuel epfd maxevents timeout s)
  unfolding loop_wait
  loop_wait-SameLists zero epfd maxevents timeout s = tt
  loop_wait-SameLists (suc fuel) epfd maxevents timeout s =
      let r = k.epoll_wait s epfd maxevents timeout in
      let same : SameLists s r.0 = λ e j. k.wait_elsewhere s epfd e j maxevents timeout in
      let again = loop_wait-SameLists fuel epfd maxevents timeout r.0 in
      elim (WaitReply-cases r.1) [
        | inl (events, e) ↦ rw (e, loop_wait) same
        | inr (inl e) ↦
            rw (e, loop_wait)
              (OnOk-weaken {P = λ x. SameLists r.0 x.0} {Q = λ x. SameLists s x.0} _ again
                (λ x h e j. h e j ∙ same e j))
        | inr (inr e) ↦ rw (e, loop_wait) same
      ]

  after_wait-epoll_fd : (ret : ℕ) (p : Epoll) → (after_wait ret p).epoll_fd ≡ p.epoll_fd
  unfolding after_wait
  after_wait-epoll_fd ret p = ground arith

  -- The wait of a loop changes no interest list, and not the descriptor of the poller.
  pub loop-SameLists :
      (fuel : ℕ) (p : Epoll) (events : List PollerEvent) (timeout : ℕ) (s : k.State)
      → OnOk {A = Epoll × k.State × List PollerEvent}
          (λ r. (r.0.epoll_fd ≡ p.epoll_fd) × SameLists s r.1)
          (Epoll.loop k fuel p events timeout s)
  unfolding Epoll.loop
  loop-SameLists fuel p events timeout s =
      OnOk-then (λ r. SameLists s r.0) (λ r. (r.0.epoll_fd ≡ p.epoll_fd) × SameLists s r.1)
        (loop_wait k fuel p.epoll_fd p.max_num timeout s) _
        (loop_wait-SameLists fuel p.epoll_fd p.max_num timeout s)
        (λ r same.
          by_room r.0 (length (reported r.1)) _ (leb (length (reported r.1)) p.capacity) same)
    where
      by_room :
          (s' : k.State) (ret : ℕ) (got : List PollerEvent) (fits : Bool)
          → SameLists s s'
          → OnOk {A = Epoll × k.State × List PollerEvent}
              (λ r. (r.0.epoll_fd ≡ p.epoll_fd) × SameLists s r.1)
              (if fits then ok (after_wait ret p, s', got) else fault out_of_bounds)
      by_room s' ret got true same = (after_wait-epoll_fd ret p, same)
      by_room s' ret got false same = tt
