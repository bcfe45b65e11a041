-- ===== src/EventLoop/Run.antt =====
-- The loop of base/EventLoop.cpp: what keeps it safe, how it ends, and what it does with an event.
use fasco.Base.{
  ℕ, zero, suc, ◌<◌, ◌≡◌, refl, Bool, true, false, List, [], ◌∷◌, some, ◌==◌, arith, ap, ◌∙◌, inl,
  inr, Bool-cases, Option-cases,
}
use fasco.Base.Int.{ℤ, int_eq, int_beq_iff}
use fasco.Base.Map.{find}
use fasco.Base.Outcome.{Outcome, ok, ◌>>=◌, assert_that, Safe, Safe-bind}
use fasco.Events.{Events, put}
use fasco.Kernel.{Kernel}
use fasco.Epoll
use fasco.Epoll.{Epoll, PollerEvent}
use fasco.Epoll.Buffer.{IsSized, Looped, loop-Safe}
use fasco.McoPool.{get_mco_routine, set_cur_mco}
use fasco.EventLoop.{
  World, dispatch, handle_checked, handle_known, handle_event, handle_all, round, loop_while, loop,
}
use fasco.EventLoop.Sync.{NoStray}

module _ (k : Kernel) where
  -- The receive buffer has room, and the kernel watches only what the loop knows.
  pub record Inv (w : World k) : Type 0 where
    pub sized : IsSized w.loop.poll
    pub no_stray : NoStray k w

module _ (k : Kernel) (resume : ℕ → World k → Outcome (World k))
    (keeps : (m : ℕ) (w : World k) → Inv k w → Safe (Inv k) (resume m w)) where
  dispatch-Safe : (fd : ℤ) (w : World k) → Inv k w → Safe (Inv k) (dispatch k resume fd w)
  unfolding dispatch
  dispatch-Safe fd w v = elim (Option-cases (get_mco_routine fd w.pool)) [
    | inl e ↦ rw (e, dispatch) v
    | inr (m, e) ↦
        rw (e, dispatch)
          (keeps m (record w { pool = set_cur_mco (some m) w.pool })
            (record { sized = v.sized; no_stray = v.no_stray }))
  ]

  handle_checked-Safe :
      (p : ℕ) (e : Events) (able : Bool) (w : World k)
      → Inv k w
      → Safe (Inv k) (handle_checked k resume p e able w)
  unfolding handle_checked
  handle_checked-Safe p e false w v = record { sized = v.sized; no_stray = v.no_stray }
  handle_checked-Safe p e true w v = elim (Bool-cases (w.loop.wake_fd == e.fd)) [
    | inl wake ↦ rw wake (record {
      sized = v.sized;
      no_stray = λ j h. k.read_interest w.sys w.loop.wake_fd _ j ∙ v.no_stray j h;
    })
    | inr other ↦ rw other (
        dispatch-Safe e.fd (record w { heap = put w.heap p e })
          (record { sized = v.sized; no_stray = v.no_stray }))
  ]

  handle_known-Safe :
      (p event : ℕ) (w : World k) → Inv k w → Safe (Inv k) (handle_known k resume p event w)
  unfolding handle_known
  handle_known-Safe p event w v = handle_checked-Safe p _ _ w v

  handle_event-Safe :
      (pe : PollerEvent) (w : World k) → Inv k w → Safe (Inv k) (handle_event k resume pe w)
  unfolding handle_event
  handle_event-Safe pe w v = elim (Option-cases (find pe.fd w.loop.events)) [
    | inl e ↦ rw (e, handle_event) v
    | inr (p, e) ↦ rw (e, handle_event) (handle_known-Safe p pe.event w v)
  ]

  handle_all-Safe :
      (occur : List PollerEvent) (w : World k)
      → Inv k w
      → Safe (Inv k) (handle_all k resume occur w)
  unfolding handle_all
  handle_all-Safe [] w v = v
  handle_all-Safe (pe ∷ occur) w v =
      Safe-bind (Inv k) (Inv k) (handle_event k resume pe w) (handle_all k resume occur)
        (handle_event-Safe pe w v) (handle_all-Safe occur)

  round-Safe : (tries : ℕ) (w : World k) → Inv k w → Safe (Inv k) (round k resume tries w)
  unfolding round
  round-Safe tries w v =
      Safe-bind (Looped k w.loop.poll v.sized [] 2000000 w.sys) (Inv k)
        (Epoll.loop k tries w.loop.poll [] 2000000 w.sys) _
        (loop-Safe k w.loop.poll v.sized [] 2000000 tries w.sys)
        λ r h.
          handle_all-Safe r.2 (record w { loop = record (w.loop) { poll = r.0 }; sys = r.1 })
            (record {
              sized = h.0;
              no_stray = λ j z. ap (λ epfd. k.interest r.1 epfd j) h.1 ∙ h.2 j ∙ v.no_stray j z;
            })

  -- How the loop may end: with `quit_` set, and the invariant kept.
  abbrev pub Ended : World k → Type 0
  Ended w = Inv k w × (w.loop.quit_ ≡ true)

  loop_while-Safe :
      (fuel tries : ℕ) (w : World k) → Inv k w → Safe Ended (loop_while k resume fuel tries w)
  unfolding loop_while
  loop_while-Safe zero tries w v = tt
  loop_while-Safe (suc fuel) tries w v = elim (Bool-cases w.loop.quit_) [
    | inl stop ↦
        let stopped : loop_while k resume (suc fuel) tries w ≡ ok w = simp stop in
        rw stopped (v, stop)
    | inr go ↦
        let goes : loop_while k resume (suc fuel) tries w
            ≡ (round k resume tries w >>= loop_while k resume fuel tries) =
          simp go in
        rw goes (
          Safe-bind (Inv k) Ended (round k resume tries w) (loop_while k resume fuel tries)
            (round-Safe tries w v) (loop_while-Safe fuel tries))
  ]

  -- Started in its own thread, with room in its buffer and the kernel watching nothing but what the
  -- loop knows, a loop whose coroutines keep these two so and do not fault runs without a fault, in
  -- particular without a write past its buffer, whatever epoll_wait reports. It returns only when
  -- `quit_` is set, and the two are then still so.
  pub loop-Ended :
      (ndebug : Bool) (caller : ℤ) (fuel tries : ℕ) (w : World k)
      → caller ≡ w.loop.tid
      → Inv k w
      → Safe Ended (loop k resume ndebug caller fuel tries w)
  unfolding loop
  loop-Ended ndebug caller fuel tries w own v =
      rw (asserted ndebug) (loop_while-Safe fuel tries w v)
    where
      asserted : (nd : Bool) → assert_that nd (caller == w.loop.tid) ≡ ok tt
      asserted true = refl
      asserted false = rw ((int_beq_iff caller w.loop.tid).1 own)

module _ (k : Kernel) (resume : ℕ → World k → Outcome (World k)) where
  -- The events of a batch, each handled in the world that the one before it left.
  pub data Handled : List PollerEvent → World k → World k → Type 0 where
    nothing : (w : World k) → Handled [] w w
    event :
        {occur : List PollerEvent} (pe : PollerEvent) (w w₁ : World k) {w' : World k}
        → handle_event k resume pe w ≡ ok w₁
        → Handled occur w₁ w'
        → Handled (pe ∷ occur) w w'

  -- `n` rounds lead from a world to one in which `quit_` is set: each is a wait, and the handling of
  -- every event that it reported.
  pub data Rounds (tries : ℕ) : ℕ → World k → World k → Type 0 where
    stop : (w : World k) → w.loop.quit_ ≡ true → Rounds tries 0 w w
    more :
        {n : ℕ} (w w₁ : World k) {w' : World k} (poll : Epoll) (sys : k.State)
        (occur : List PollerEvent)
        → w.loop.quit_ ≡ false
        → Epoll.loop k tries w.loop.poll [] 2000000 w.sys ≡ ok (poll, sys, occur)
        → Handled occur (record w { loop = record (w.loop) { poll = poll }; sys = sys }) w₁
        → Rounds tries n w₁ w'
        → Rounds tries (suc n) w w'

  Handled-handle_all :
      (occur : List PollerEvent) (w w' : World k)
      → Handled occur w w'
      → handle_all k resume occur w ≡ ok w'
  unfolding handle_all
  Handled-handle_all [] w w' (nothing _) = refl
  Handled-handle_all (pe ∷ occur) w w' (event _ _ w₁ e rest) =
      simp e (Handled-handle_all occur w₁ w' rest)

  round-Handled :
      (tries : ℕ) (w w₁ : World k) (poll : Epoll) (sys : k.State) (occur : List PollerEvent)
      → Epoll.loop k tries w.loop.poll [] 2000000 w.sys ≡ ok (poll, sys, occur)
      → Handled occur (record w { loop = record (w.loop) { poll = poll }; sys = sys }) w₁
      → round k resume tries w ≡ ok w₁
  unfolding round
  round-Handled tries w w₁ poll sys occur e all = simp e (Handled-handle_all occur _ w₁ all)

  -- Take n rounds, each a wait and then the handling of every event that it reported in its order,
  -- those behind the event at which `quit_` was set too, where `quit_` is not set before any of the
  -- rounds and set after the last. With any fuel above n the loop then returns the world after them.
  pub loop_while-Rounds :
      (tries fuel n : ℕ) (w w' : World k)
      → Rounds tries n w w'
      → n < fuel
      → loop_while k resume fuel tries w ≡ ok w'
  unfolding loop_while
  loop_while-Rounds tries zero n w w' r h = absurd (omega arith)
  loop_while-Rounds tries (suc fuel) n w w' (stop _ q) h = simp q
  loop_while-Rounds tries (suc fuel) n w w' (more _ w₁ poll sys occur q e all r) h =
      simp (q, round-Handled tries w w₁ poll sys occur e all)
        (loop_while-Rounds tries fuel _ w₁ w' r (omega arith))
