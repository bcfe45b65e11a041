-- ===== src/Process/Rounds.antt =====
-- EventLoop::loop, HandleEvent and quit of base/EventLoop.cpp in a process of several loops: the
-- round of a loop as the steps between which other threads may run.
use fasco.Base.{
  Option-cases, ℕ, ◌≡◌, refl, ◌∙◌, Bool, true, false, inl, inr, nat_beq, nat_beq_iff, ap,
  Bool-cases, ◌==◌, [], List,
}
use fasco.Base.Int.{ℤ, int_eq}
use fasco.Base.Outcome.{Outcome, ok, ◌>>=◌, OnOk, OnOk-then}
use fasco.Events.{put, set_mutable, Events}
use fasco.Kernel.{Kernel}
use fasco.McoPool.{get_mco_routine}
use fasco.Epoll.{Epoll, PollerEvent}
use fasco.Epoll
use fasco.EventLoop.{
  World, handle_event, event_handle_able, dispatch, handle_checked, handle_known, handle_wake, quit,
  wakeup_loop,
}
use fasco.EventLoop.HandleAble.{event_handle_able-fd, event_handle_able-tid}
use fasco.Base.Map.{find}
use fasco.EventLoop.Elsewhere.{loop-SameLists}
use fasco.Process.{Process, view, put_pool, put_loop}
use fasco.Process.Sound.{Sound, Quiet, Quiet-Sound}
use fasco.Process.Steps.{Keeps, put-SameHome, SameHome, put_pools-Sound}

module _ (k : Kernel) where
  -- `poller_.Loop(events, timeout)` of one loop, with the process around it.
  unfoldable pub wait : ℕ → ℕ → Process k → Outcome (Process k × List PollerEvent)
  wait tries l w = do
    (poll', sys', occur) ← Epoll.loop k tries (w.loops l).poll [] 2000000 w.sys
    ok (
      put_loop k l (record (view k l w) { loop = record (w.loops l) { poll = poll' }; sys = sys' })
          w,
      occur,
    )

  -- A coroutine that is resumed runs on in steps of its own.
  abbrev stand : ℕ → World k → Outcome (World k)
  stand mco w = ok w

  -- `HandleEvent` of one loop, up to the coroutine that it resumes.
  unfoldable pub handle : ℕ → PollerEvent → Process k → Outcome (Process k)
  handle l pe w = handle_event k stand pe (view k l w) >>= λ v.
      ok (put_pool k (w.loops l).tid v.pool (put_loop k l v w))

  -- What a step of one loop does that neither registers nor forgets an object.
  record Handled (v v' : World k) : Type 0 where
    tid : v'.loop.tid ≡ v.loop.tid
    instance_ : v'.loop.poll.epoll_fd ≡ v.loop.poll.epoll_fd
    events : v'.loop.events ≡ v.loop.events
    objects : (p : ℕ) → SameHome (v.heap p) (v'.heap p)
    lists : (e j : ℤ) → k.interest v'.sys e j ≡ k.interest v.sys e j

  Handled-Quiet :
      (l : ℕ) (v : World k) (w : Process k) → Handled (view k l w) v → Quiet k w (put_loop k l v w)
  Handled-Quiet l v w h = record {
    tids = λ a live. elim (Bool-cases (nat_beq l a)) [
      | inl same ↦ simp same (h.tid ∙ ap (λ x. (w.loops x).tid) ((nat_beq_iff l a).0 same))
      | inr other ↦ simp other refl
    ];
    instances = λ a live. elim (Bool-cases (nat_beq l a)) [
      | inl same ↦
          simp same (h.instance_ ∙ ap (λ x. (w.loops x).poll.epoll_fd) ((nat_beq_iff l a).0 same))
      | inr other ↦ simp other refl
    ];
    events = λ a live. elim (Bool-cases (nat_beq l a)) [
      | inl same ↦ simp same (h.events ∙ ap (λ x. (w.loops x).events) ((nat_beq_iff l a).0 same))
      | inr other ↦ simp other refl
    ];
    threads = refl;
    turns = refl;
    first = refl;
    objects = λ a j p live e. h.objects p;
    lists = λ a j live. inl (h.lists (w.loops a).poll.epoll_fd j);
  }

  put_loop-Sound :
      (l : ℕ) (v : World k) (w : Process k)
      → Handled (view k l w) v
      → Sound k w
      → Sound k (put_loop k l v w)
  put_loop-Sound l v w h = Quiet-Sound k w (put_loop k l v w) (Handled-Quiet l v w h)

  pub wait-Sound : (tries l : ℕ) (w : Process k) → Sound k w → Keeps k (wait tries l w)
  unfolding wait
  wait-Sound tries l w s =
      OnOk-then {A = Epoll × k.State × List PollerEvent}
        (λ r.
          (r.0.epoll_fd ≡ (w.loops l).poll.epoll_fd)
          × ((e j : ℤ) → k.interest r.1 e j ≡ k.interest w.sys e j))
        (λ r. Sound k r.0) (Epoll.loop k tries (w.loops l).poll [] 2000000 w.sys)
        (λ r. ok (
          put_loop k l (record (view k l w) { loop = record (w.loops l) { poll = r.0 }; sys = r.1 })
              w,
          r.2,
        ))
        (loop-SameLists k tries (w.loops l).poll [] 2000000 w.sys)
        (λ r same.
          put_loop-Sound l
            (record (view k l w) { loop = record (w.loops l) { poll = r.0 }; sys = r.1 }) w
            (record {
              tid = refl;
              instance_ = same.0;
              events = refl;
              objects = λ p. (refl, refl);
              lists = same.1;
            })
            s)

  after_able :
      (p event : ℕ) (v : World k) (e : Events)
      → e ≡ (event_handle_able (set_mutable event (v.heap p))).0
      → (q : ℕ) → SameHome (v.heap q) (put v.heap p e q)
  after_able p event v e h =
      let e₀ = set_mutable event (v.heap p) in
      put-SameHome p e v.heap
        (ap (λ x. x.fd) h ∙ event_handle_able-fd e₀, ap (λ x. x.tid) h ∙ event_handle_able-tid e₀)

  dispatch-Handled :
      (fd : ℤ) (v u : World k) → Handled v u → OnOk (Handled v) (dispatch k stand fd u)
  unfolding dispatch
  dispatch-Handled fd v u h = elim (Option-cases (get_mco_routine fd u.pool)) [
    | inl none_ ↦ rw (none_, OnOk, dispatch) h
    | inr (m, e) ↦
        rw (e, OnOk, dispatch)
          (record {
            tid = h.tid;
            instance_ = h.instance_;
            events = h.events;
            objects = h.objects;
            lists = h.lists;
          })
  ]

  handle_checked-Handled :
      (p : ℕ) (e : Events) (able : Bool) (v : World k)
      → ((q : ℕ) → SameHome (v.heap q) (put v.heap p e q))
      → OnOk (Handled v) (handle_checked k stand p e able v)
  unfolding handle_checked handle_wake
  handle_checked-Handled p e false v same = record {
    tid = refl;
    instance_ = refl;
    events = refl;
    objects = same;
    lists = λ e' j. refl;
  }
  handle_checked-Handled p e true v same = elim (Bool-cases (v.loop.wake_fd == e.fd)) [
    | inl wake ↦ simp wake (record {
      tid = refl;
      instance_ = refl;
      events = refl;
      objects = same;
      lists = k.read_interest v.sys v.loop.wake_fd;
    })
    | inr other ↦ simp other (
        dispatch-Handled e.fd v (record v { heap = put v.heap p e })
          (record {
            tid = refl;
            instance_ = refl;
            events = refl;
            objects = same;
            lists = λ e' j. refl;
          }))
  ]

  handle_event-Handled :
      (pe : PollerEvent) (v : World k) → OnOk (Handled v) (handle_event k stand pe v)
  unfolding handle_event handle_known
  handle_event-Handled pe v = elim (Option-cases (find pe.fd v.loop.events)) [
    | inl none_ ↦
        rw (none_, OnOk, handle_event)
          (record {
            tid = refl;
            instance_ = refl;
            events = refl;
            objects = λ p. (refl, refl);
            lists = λ e j. refl;
          })
    | inr (p, e) ↦
        rw (e, handle_event) (handle_checked-Handled p _ _ v (after_able p pe.event v _ refl))
  ]

  pub handle-Sound :
      (l : ℕ) (pe : PollerEvent) (w : Process k) → Sound k w → OnOk (Sound k) (handle l pe w)
  unfolding handle
  handle-Sound l pe w s =
      OnOk-then (Handled (view k l w)) (Sound k) (handle_event k stand pe (view k l w))
        (λ v. ok (put_pool k (w.loops l).tid v.pool (put_loop k l v w)))
        (handle_event-Handled pe (view k l w))
        (λ v h.
          let u = put_loop k l v w in
          put_pools-Sound k (put_pool k (w.loops l).tid v.pool u).pools u
            (put_loop-Sound l v w h s))

  pub quit-Sound :
      (caller : ℤ) (l : ℕ) (w : Process k)
      → Sound k w
      → Sound k (put_loop k l (quit k caller (view k l w)) w)
  unfolding quit wakeup_loop
  quit-Sound caller l w s =
      put_loop-Sound l (quit k caller (view k l w)) w (by_thread ((w.loops l).tid == caller) refl) s
    where
      by_thread :
          (b : Bool)
          → ((w.loops l).tid == caller) ≡ b
          → Handled (view k l w) (quit k caller (view k l w))
      by_thread true e = simp e (record {
        tid = refl;
        instance_ = refl;
        events = refl;
        objects = λ p. (refl, refl);
        lists = λ e j. refl;
      })
      by_thread false e = simp e (record {
        tid = refl;
        instance_ = refl;
        events = refl;
        objects = λ p. (refl, refl);
        lists = k.write_interest w.sys (w.loops l).wake_fd;
      })
