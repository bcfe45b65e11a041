-- ===== src/Hook.antt =====
-- base/SysapiHook.cpp: read, accept and close as coroutines see them. A call that has to wait gives
-- up the processor in the middle, so `read` and `accept` have two halves: the first comes to the
-- result of the system call, or to the object that the call waits with and the coroutine whose
-- yield is called; the second is what follows when control is back. `new_event` is the address of
-- an object that the call makes.
pub mod Wait
pub mod Begin
pub mod Wake
pub mod Close
pub mod Session
pub mod Keeps
pub mod Calls
use fasco.Base.{
  ℕ, ◌⊎◌, ◌/◌, ◌%◌, ◌≡◌, Bool, true, false, not, ◌&&◌, ◌||◌, Option, none, some, is_some,
  if◌then◌else◌, nat_beq, nat_eq, ◌==◌,
}
use fasco.Base.Int.{ℤ, pos, negsuc, int_eq}
use fasco.Base.Outcome.{Outcome, ok, fault, pending, ◌>>=◌, ◌>>◌, assert_that}
use fasco.Events.{make, k_read_event, delete_event}
use fasco.Events
use fasco.Kernel.{Kernel}
use fasco.McoPool.{McoPool, get_mco_routine, set_mco_routine, remove_mco_routine, set_cur_mco}
use fasco.McoRoutine.{same_mco}
use fasco.Process.{
  Process, put_event, put_pool, update_loop_events, remove_event_from_loop, get_events,
}

-- The system calls behind the hooks, and `fcntl`: fcntl(2), read(2), accept(2), close(2). What they
-- transfer stays in the kernel's state. They do not touch interest lists, `close` apart.
pub record Files (k : Kernel) : Type 1 where
  -- fcntl(fd, F_GETFL): the flags, or -1.
  pub getfl : k.State → ℤ → ℤ
  pub setfl : k.State → ℤ → ℤ → k.State
  pub uni_read : k.State → ℤ → ℕ → k.State × ℤ
  pub uni_accept : k.State → ℤ → k.State × ℤ
  pub uni_close : k.State → ℤ → k.State × ℤ
  pub read_keeps :
      (s : k.State) (fd : ℤ) (nbyte : ℕ) (epfd j : ℤ)
      → k.interest (uni_read s fd nbyte).0 epfd j ≡ k.interest s epfd j
  pub setfl_keeps :
      (s : k.State) (fd flags epfd j : ℤ)
      → k.interest (setfl s fd flags) epfd j ≡ k.interest s epfd j
  -- What was watched may be gone with the last descriptor of its file.
  pub close_drops :
      (s : k.State) (fd epfd j : ℤ)
      → (k.interest (uni_close s fd).0 epfd j ≡ k.interest s epfd j)
        ⊎ (k.interest (uni_close s fd).0 epfd j ≡ none)
  pub accept_keeps :
      (s : k.State) (fd epfd j : ℤ) → k.interest (uni_accept s fd).0 epfd j ≡ k.interest s epfd j

-- `O_NONBLOCK & flag`; the bits of a negative number are those of its complement, turned round.
abbrev pub has_nonblock : ℤ → Bool
has_nonblock (pos n) = nat_beq (n / 2048 % 2) 1
has_nonblock (negsuc n) = nat_beq (n / 2048 % 2) 0

-- How the first half of a call comes out.
pub data Call : Type 0 where
  returned : ℤ → Call
  -- With the object, and the coroutine that yields, if there is one.
  waiting : ℕ → Option ℕ → Call

module _ (k : Kernel) where
  -- `McoPool::GetMcoPool()` of a thread.
  abbrev pub pool_of : ℤ → Process k → McoPool
  pool_of tid w = w.pools tid

  abbrev pub put_sys : k.State → Process k → Process k
  put_sys s w = record w { sys = s }

  -- `auto event = Eventsops::GetEvents(fd); if (!event) event = make_shared<Events>(fd, kReadEvent)`
  unfoldable pub event_for : ℤ → ℤ → ℕ → Option ℕ → Process k → Process k × ℕ
  event_for tid fd new_event (some p) w = (w, p)
  event_for tid fd new_event none w =
      (put_event k new_event (make fd k_read_event tid) w, new_event)

module _ (k : Kernel) (ndebug : Bool) (tid : ℤ) where
  -- A coroutine is known for the descriptor: it waits with the loop's object.
  unfoldable pub wait_known : ℤ → ℕ → ℕ → Process k → Outcome (Process k × Call)
  unfolding event_for
  wait_known fd new_event mco w = do
    assert_that ndebug (same_mco (some mco) (pool_of k tid w).cur)
    let (w₁, p) = event_for k tid fd new_event (get_events k tid fd w) w
    (w₂, _) ←
        update_loop_events k ndebug p
          (put_event k p (Events.update_events k_read_event (w₁.heap p)) w₁)
    ok (w₂, waiting p (pool_of k tid w₂).cur)

  -- None is: the current coroutine becomes the descriptor's, and waits with a new object.
  unfoldable pub wait_new : ℤ → ℕ → ℕ → Process k → Outcome (Process k × Call)
  unfolding make
  wait_new fd new_event mco w = do
    let w₁ = put_pool k tid (set_mco_routine fd mco (pool_of k tid w)) w
    (w₂, _) ←
        update_loop_events k ndebug new_event (put_event k new_event (make fd k_read_event tid) w₁)
    ok (w₂, waiting new_event (pool_of k tid w₂).cur)

  -- `event->deleteEvent(kReadEvent); Eventsops::UpdateLoopEvents(event)`
  unfoldable pub stop_waiting : ℕ → Process k → Outcome (Process k)
  stop_waiting p w =
      update_loop_events k ndebug p (put_event k p (delete_event k_read_event (w.heap p)) w)
      >>= λ r. ok r.0

-- What close does to the pool of its thread.
unfoldable pub forget : ℤ → McoPool → McoPool
forget fd pool =
    let pool' =
      if same_mco pool.cur (get_mco_routine fd pool) then set_cur_mco none pool else pool in
    (remove_mco_routine fd pool').0

module _ (k : Kernel) (io : Files k) (ndebug hookable : Bool) (tid : ℤ) where
  open io use {getfl, setfl, uni_read, uni_accept, uni_close}

  unfoldable pub read_now : ℤ → ℕ → Process k → Outcome (Process k × Call)
  read_now fd nbyte w = let r = uni_read w.sys fd nbyte in ok (put_sys k r.0 w, returned r.1)

  -- On a blocking descriptor, with the coroutine known for it and the current one.
  unfoldable pub read_blocking :
      ℤ → ℕ → ℕ → Option ℕ → Option ℕ → Process k → Outcome (Process k × Call)
  read_blocking fd nbyte new_event (some mco) cur w = wait_known k ndebug tid fd new_event mco w
  read_blocking fd nbyte new_event none none w = read_now fd nbyte w
  read_blocking fd nbyte new_event none (some mco) w = wait_new k ndebug tid fd new_event mco w

  -- `read(fd, buf, nbyte)` up to its yield.
  unfoldable pub read_begin : ℤ → ℕ → ℕ → Process k → Outcome (Process k × Call)
  read_begin fd nbyte new_event w =
      if has_nonblock (getfl w.sys fd) || not hookable
      then read_now fd nbyte w
      else read_blocking fd nbyte new_event (get_mco_routine fd (pool_of k tid w))
          (pool_of k tid w).cur w

  -- `read(fd, buf, nbyte)` behind its yield, with the object that it waited with.
  unfoldable pub read_end : ℤ → ℕ → ℕ → Process k → Outcome (Process k × ℤ)
  read_end fd nbyte p w = do
    w' ← stop_waiting k ndebug tid p w
    let r = uni_read w'.sys fd nbyte
    ok (put_sys k r.0 w', r.1)

  unfoldable pub accept_now : ℤ → Process k → Outcome (Process k × Call)
  accept_now fd w = let r = uni_accept w.sys fd in ok (put_sys k r.0 w, returned r.1)

  -- With no coroutine at all, the flags that were read are written back.
  unfoldable pub accept_outside : ℤ → ℤ → Process k → Outcome (Process k × Call)
  accept_outside fd flag w =
      let r = uni_accept w.sys fd in ok (put_sys k (setfl r.0 fd flag) w, returned r.1)

  unfoldable pub accept_blocking :
      ℤ → ℕ → Option ℕ → Option ℕ → Process k → Outcome (Process k × Call)
  accept_blocking fd new_event (some mco) cur w = wait_known k ndebug tid fd new_event mco w
  accept_blocking fd new_event none none w = accept_outside fd (getfl w.sys fd) w
  accept_blocking fd new_event none (some mco) w = wait_new k ndebug tid fd new_event mco w

  -- `accept(fd, addr, len)` up to its yield, and behind it.
  unfoldable pub accept_begin : ℤ → ℕ → Process k → Outcome (Process k × Call)
  accept_begin fd new_event w =
      if has_nonblock (getfl w.sys fd) || not hookable
      then accept_now fd w
      else accept_blocking fd new_event (get_mco_routine fd (pool_of k tid w)) (pool_of k tid w).cur
          w

  unfoldable pub accept_end : ℤ → ℕ → Process k → Outcome (Process k × ℤ)
  accept_end fd p w = do
    w' ← stop_waiting k ndebug tid p w
    let r = uni_accept w'.sys fd
    ok (put_sys k r.0 w', r.1)

  unfoldable pub close_event : ℤ → Option ℕ → Process k → Outcome (Process k × ℤ)
  close_event fd none w = let r = uni_close w.sys fd in ok (put_sys k r.0 w, r.1)
  close_event fd (some p) w = do (w', _) ← remove_event_from_loop k ndebug p w; ok (w', pos 0)

  -- `close(fd)`. The descriptor of an object is closed by the object's destructor.
  unfoldable pub close : ℤ → Process k → Outcome (Process k × ℤ)
  close fd w =
      if not hookable
      then (let r = uni_close w.sys fd in ok (put_sys k r.0 w, r.1))
      else (let w' = put_pool k tid (forget fd (pool_of k tid w)) w in
          close_event fd (get_events k tid fd w') w')
