-- ===== src/EventLoop/Dispatch.antt =====
-- Which coroutine the loop of base/EventLoop.cpp resumes for an event, and when it resumes none.
use fasco.Base.{
  ◌||◌, if◌then◌else◌, ℕ, ◌<◌, ◌≤◌, ◌≡◌, refl, ◌≢◌, Bool, true, false, List, ◌∷◌, none, some, max,
  arith, ap, sym, ◌∙◌,
}
use fasco.Base.Bits.{bit, bit-zero, IsU32}
use fasco.Base.Int.{ℤ, int_eq, int_beq_iff}
use fasco.Base.Outcome.{Outcome, ok}
use fasco.Events.{
  Events, State, put, set_mutable, origin_read, origin_write, k_read_event, k_write_event,
}
use fasco.Kernel.{Kernel}
use fasco.Epoll.{PollerEvent}
use fasco.McoPool.{get_mco_routine, set_cur_mco}
use fasco.EventLoop.{
  World, event_handle_able, dispatch, handle_checked, handle_known, handle_event, handle_all,
}
use fasco.EventLoop.HandleAble.{
  event_handle_able-fd, same_but_mutable, unasked, event_handle_able_modified, unasked-not_able,
}
use fasco.EventLoop.Step.{known}

module _ (k : Kernel) (resume : ℕ → World k → Outcome (World k)) where
  dispatch_waits :
      (fd : ℤ) (m : ℕ) (w : World k)
      → get_mco_routine fd w.pool ≡ some m
      → dispatch k resume fd w ≡ resume m (record w { pool = set_cur_mco (some m) w.pool })
  unfolding dispatch
  dispatch_waits fd m w e = rw (e, dispatch)

  checked_able :
      (p : ℕ) (e : Events) (able : Bool) (w : World k)
      → able ≡ true
      → e.fd ≢ w.loop.wake_fd
      → handle_checked k resume p e able w
        ≡ dispatch k resume e.fd (record w { heap = put w.heap p e })
  unfolding handle_checked
  checked_able p e false w a other = absurd (cc)
  checked_able p e true w a other = ground (arith, int_beq_iff w.loop.wake_fd e.fd)

  known_handled :
      (pe : PollerEvent) (w : World k) (p : ℕ)
      → known k w pe.fd ≡ some p
      → handle_event k resume pe w ≡ handle_known k resume p pe.event w
  unfolding handle_event
  known_handled pe w p e = rw (e, handle_event)

  pub able_resumes :
      (pe : PollerEvent) (w : World k) (p m : ℕ)
      → known k w pe.fd ≡ some p
      → (w.heap p).fd ≡ pe.fd
      → pe.fd ≢ w.loop.wake_fd
      → (event_handle_able (set_mutable pe.event (w.heap p))).1 ≡ true
      → get_mco_routine pe.fd w.pool ≡ some m
      → handle_event k resume pe w
        ≡ resume m (record w {
          heap = put w.heap p (event_handle_able (set_mutable pe.event (w.heap p))).0;
          pool = set_cur_mco (some m) w.pool;
        })
  unfolding handle_known
  able_resumes pe w p m kn own other able waits =
      let e = (event_handle_able (set_mutable pe.event (w.heap p))).0 in
      let fd_kept : e.fd ≡ pe.fd = event_handle_able-fd (set_mutable pe.event (w.heap p)) ∙ own in
      let w' = record w { heap = put w.heap p e } in
      known_handled pe w p kn
      ∙ checked_able p e _ w able (λ z. other (sym fd_kept ∙ z))
      ∙ ap (λ fd. dispatch k resume fd w') fd_kept
      ∙ dispatch_waits pe.fd m w' waits

  -- An event for a descriptor that the loop knows and that is not its own eventfd, whose object has
  -- that descriptor and is in state MOD, and for which a coroutine waits: if at least one flag below
  -- 2^32 is left of it when POLLIN and POLLPRI are taken off where the object asks for no reading at
  -- all, and POLLOUT where it asks for no writing, the coroutine is resumed. It is then the current one
  -- of the thread, and of the object mutable_ alone has changed: it holds just the flags that are left.
  pub handle_event_resumes :
      (pe : PollerEvent) (w : World k) (p m n : ℕ)
      → known k w pe.fd ≡ some p
      → (w.heap p).fd ≡ pe.fd
      → (w.heap p).state ≡ State.modified
      → pe.fd ≢ w.loop.wake_fd
      → get_mco_routine pe.fd w.pool ≡ some m
      → n < 32
      → bit n pe.event ≡ 1
      → (unasked n k_read_event (origin_read (w.heap p))
          || unasked n k_write_event (origin_write (w.heap p)))
        ≡ false
      → (left : ℕ) × (handle_event k resume pe w
          ≡ resume m (record w {
            heap = put w.heap p (record (w.heap p) { mutable = left });
            pool = set_cur_mco (some m) w.pool;
          }))
        × ((i : ℕ)
            → i < 32
            → bit i left ≡ (
                if unasked i k_read_event (origin_read (w.heap p))
                  || unasked i k_write_event (origin_write (w.heap p))
                then 0
                else bit i pe.event))
  unfolding origin_read origin_write
  handle_event_resumes pe w p m n kn own state other waits lt reported asked =
      let e = set_mutable pe.event (w.heap p) in
      let (bits, same, able) = event_handle_able_modified e state in
      let one : bit n (event_handle_able e).0.mutable ≡ 1 =
        bits n lt ∙ simp (asked, reported) refl in
      let worth : (event_handle_able e).1 ≡ true =
        able.1 (λ z. absurd (omega (arith, ap (bit n) z, bit-zero n, one))) in
      let kept = same_but_mutable e (event_handle_able e).0 same in
      (
        (event_handle_able e).0.mutable,
        able_resumes pe w p m kn own other worth waits
            ∙ ap
                (λ d.
                  resume m (record w { heap = put w.heap p d; pool = set_cur_mco (some m) w.pool }))
                kept,
        bits,
      )

  checked_not_able :
      (p : ℕ) (e : Events) (able : Bool) (w : World k)
      → able ≡ false
      → handle_checked k resume p e able w ≡ ok (record w { heap = put w.heap p e })
  unfolding handle_checked
  checked_not_able p e false w a = refl
  checked_not_able p e true w a = absurd (cc)

  -- An event of 32 bits with none but the flags POLLIN, POLLPRI and POLLOUT, for a descriptor that the
  -- loop knows and whose object is in state MOD and asks for none of these, nor for POLLRDHUP, resumes
  -- nothing: all that changes is the object's mutable_, which is emptied.
  pub handle_event_unasked :
      (pe : PollerEvent) (w : World k) (p : ℕ)
      → known k w pe.fd ≡ some p
      → (w.heap p).state ≡ State.modified
      → IsU32 pe.event
      → origin_read (w.heap p) ≡ false
      → origin_write (w.heap p) ≡ false
      → ((n : ℕ) → n < 32 → bit n pe.event ≤ max (bit n k_read_event) (bit n k_write_event))
      → handle_event k resume pe w
        ≡ ok (record w { heap = put w.heap p (record (w.heap p) { mutable = 0 }) })
  unfolding handle_known origin_read origin_write
  handle_event_unasked pe w p kn m fits r wr only =
      let e = set_mutable pe.event (w.heap p) in
      let (empty, skipped) = unasked-not_able e m fits r wr only in
      let (_, same, _) = event_handle_able_modified e m in
      let emptied : (event_handle_able e).0 ≡ record (w.heap p) { mutable = 0 } =
        same_but_mutable e (event_handle_able e).0 same
        ∙ ap (λ left. record (w.heap p) { mutable = left }) empty in
      known_handled pe w p kn
      ∙ checked_not_able p _ _ w skipped
      ∙ ap (λ d. ok (record w { heap = put w.heap p d })) emptied

  unknown_skipped :
      (pe : PollerEvent) (w : World k) → known k w pe.fd ≡ none → handle_event k resume pe w ≡ ok w
  unfolding handle_event
  unknown_skipped pe w e = rw (e, handle_event)

  -- An event for a descriptor that an earlier event of the same batch took out of the loop is
  -- dropped: nothing is resumed for it.
  pub handle_all_stale :
      (pe stale : PollerEvent) (rest : List PollerEvent) (w w1 : World k)
      → handle_event k resume pe w ≡ ok w1
      → known k w1 stale.fd ≡ none
      → handle_all k resume (pe ∷ stale ∷ rest) w ≡ handle_all k resume rest w1
  unfolding handle_all
  handle_all_stale pe stale rest w w1 e gone = rw (e, unknown_skipped stale w1 gone)
