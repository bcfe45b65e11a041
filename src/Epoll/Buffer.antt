-- ===== src/Epoll/Buffer.antt =====
-- The receive buffer and the retry loop of base/Epoll.cpp.
use fasco.Base.{
  ℕ, zero, suc, ◌+◌, ◌≤◌, ◌<◌, ◌≡◌, ◌≢◌, inl, inr, List, ◌++◌, map, length, arith, sym, ◌∙◌, le→leb,
}
use fasco.Base.Int.{ℤ}
use fasco.Base.Outcome.{ok, Safe, Safe-bind, Safe-weaken}
use fasco.Kernel.{Kernel, WaitReply, interrupted}
use fasco.Epoll.{
  Epoll, PollerEvent, poller_event, reported, init, WaitReply-cases, loop_wait, after_wait, loop,
}

-- The storage has room for all the events that the kernel is offered room for.
pub record IsSized (p : Epoll) : Type 0 where
  pub room : p.max_num ≤ p.capacity
  pub first_room : 20 ≤ p.max_num
  pub step : p.add_step ≡ 15

after_wait-IsSized : (n : ℕ) {p : Epoll} → IsSized p → IsSized (after_wait n p)
unfolding after_wait
after_wait-IsSized n v = ground arith

after_wait-epoll_fd : (n : ℕ) (p : Epoll) → (after_wait n p).epoll_fd ≡ p.epoll_fd
unfolding after_wait
after_wait-epoll_fd n p = ground arith

module _ (k : Kernel) where
  open k use {State}

  -- A new Epoll has room for twenty events.
  pub init-IsSized : (s : State) → IsSized (init k s).0
  unfolding init
  init-IsSized s = omega arith

  -- The kernel was interrupted `n` times before it made the reply `r`, in state `s'`.
  pub data Retries (epfd : ℤ) (room timeout : ℕ) : ℕ → State → State → WaitReply → Type 0 where
    at_once :
        (s : State) (r : WaitReply)
        → (k.epoll_wait s epfd room timeout).1 ≡ r
        → r ≢ interrupted
        → Retries epfd room timeout 0 s (k.epoll_wait s epfd room timeout).0 r
    again :
        {n : ℕ} (s : State) {s' : State} {r : WaitReply}
        → (k.epoll_wait s epfd room timeout).1 ≡ interrupted
        → Retries epfd room timeout n (k.epoll_wait s epfd room timeout).0 s' r
        → Retries epfd room timeout (suc n) s s' r

  -- A wait leaves the interest list alone, and its reply fits the room that was asked for.
  abbrev Waited : ℤ → ℕ → State → State × WaitReply → Type 0
  Waited epfd n s r =
      (length (reported r.1) ≤ n) × ((j : ℤ) → k.interest r.0 epfd j ≡ k.interest s epfd j)

  loop_wait-Safe :
      (fuel : ℕ) (epfd : ℤ) (n timeout : ℕ) (s : State)
      → Safe (Waited epfd n s) (loop_wait k fuel epfd n timeout s)
  unfolding loop_wait
  loop_wait-Safe zero epfd n timeout s = tt
  loop_wait-Safe (suc fuel) epfd n timeout s =
      let now = k.epoll_wait s epfd n timeout in
      elim (WaitReply-cases now.1) [
        | inl (events, e) ↦
            rw (e, loop_wait)
              (k.wait_fits s epfd n timeout events e, λ j. k.wait_interest s epfd j n timeout)
        | inr (inl e) ↦
            rw (e, loop_wait)
              (Safe-weaken (Waited epfd n now.0) (Waited epfd n s)
                (loop_wait k fuel epfd n timeout now.0) (loop_wait-Safe fuel epfd n timeout now.0)
                (λ r w. (w.0, λ j. w.1 j ∙ k.wait_interest s epfd j n timeout)))
        | inr (inr e) ↦ rw (e, loop_wait) (omega arith, λ j. k.wait_interest s epfd j n timeout)
      ]

  -- `loopWait` outlasts any number of interruptions that stays below its fuel.
  loop_wait-Retries :
      (epfd : ℤ) (room timeout fuel n : ℕ) (s s' : State) (r : WaitReply)
      → Retries epfd room timeout n s s' r
      → n < fuel
      → loop_wait k fuel epfd room timeout s ≡ ok (s', r)
  unfolding loop_wait
  loop_wait-Retries epfd room timeout zero n s s' r t h = absurd (omega arith)
  loop_wait-Retries epfd room timeout (suc fuel) n s s' r (at_once _ _ e ne) h =
      elim (WaitReply-cases (k.epoll_wait s epfd room timeout).1) [
        | inl (events, e') ↦ rw (e', loop_wait) (rw (← e') (rw e))
        | inr (inl e') ↦ absurd (ne (sym e ∙ e'))
        | inr (inr e') ↦ rw (e', loop_wait) (rw (← e') (rw e))
      ]
  loop_wait-Retries epfd room timeout (suc fuel) n s s' r (again _ e t) h =
      rw (e, loop_wait) (loop_wait-Retries epfd room timeout fuel _ _ s' r t (omega arith))

  module _ (p : Epoll) (v : IsSized p) (events : List PollerEvent) (timeout : ℕ) where
    -- With fuel above the number of EINTRs, Loop ends without a fault: it appends exactly the
    -- kernel's events, in order, the buffer keeps room for what the next wait offers, and that
    -- offer grows by 15 exactly when the buffer was filled.
    pub loop_lem :
        (fuel n : ℕ) (s s' : State) (r : WaitReply)
        → Retries p.epoll_fd p.max_num timeout n s s' r
        → n < fuel
        → (p' : Epoll) × (loop k fuel p events timeout s
            ≡ ok (p', s', events ++ map poller_event (reported r)))
          × IsSized p'
          × (length (reported r) ≡ p.max_num → p'.max_num ≡ p.max_num + 15)
          × (length (reported r) ≢ p.max_num → p'.max_num ≡ p.max_num)
    unfolding loop after_wait
    loop_lem fuel n s s' r t h =
        let waited = loop_wait-Retries p.epoll_fd p.max_num timeout fuel n s s' r t h in
        let fits = rw waited at (loop_wait-Safe fuel p.epoll_fd p.max_num timeout s) in
        (
          after_wait (length (reported r)) p,
          rw (waited, le→leb (length (reported r)) p.capacity (omega (arith, fits.0, v.room))),
          after_wait-IsSized (length (reported r)) v,
          (λ e. ground arith),
          (λ e. ground arith),
        )

    -- After a round the buffer has room, and the kernel watches what it watched.
    abbrev pub Looped : State → Epoll × State × List PollerEvent → Type 0
    Looped s r =
        IsSized r.0
        × (r.0.epoll_fd ≡ p.epoll_fd)
        × ((j : ℤ) → k.interest r.1 p.epoll_fd j ≡ k.interest s p.epoll_fd j)

    -- Loop never writes past the storage of its buffer, whatever the kernel replies; it keeps the
    -- buffer's room and its epoll descriptor, and changes nothing in the kernel's interest list.
    pub loop-Safe : (fuel : ℕ) (s : State) → Safe (Looped s) (loop k fuel p events timeout s)
    unfolding loop
    loop-Safe fuel s =
        Safe-bind (Waited p.epoll_fd p.max_num s) (Looped s)
          (loop_wait k fuel p.epoll_fd p.max_num timeout s) _
          (loop_wait-Safe fuel p.epoll_fd p.max_num timeout s)
          λ r w. rw (le→leb (length (reported r.1)) p.capacity (omega (arith, v.room, w.0))) (
            after_wait-IsSized (length (reported r.1)) v,
            after_wait-epoll_fd (length (reported r.1)) p,
            w.1,
          )

-- A wait that does not fill the buffer leaves the vector empty: the next one is offered more
-- entries than the vector's size, and only the capacity that `clear` keeps holds them.
pub after_wait-size :
    (n : ℕ) (p : Epoll)
    → IsSized p
    → n ≢ p.max_num
    → ((after_wait n p).size < (after_wait n p).max_num)
      × ((after_wait n p).max_num ≤ (after_wait n p).capacity)
unfolding after_wait
after_wait-size n p v h = ground (arith, v)
