-- ===== src/TcpServer/Serve.antt =====
-- base/TcpServer.cpp: what `start` and `accept` set up for the loops that serve.
use fasco.Base.{
  ℕ, Bool-cases, ◌≡◌, refl, ◌≢◌, ◌∙◌, Bool, true, none, some, inl, inr, if◌then◌else◌, nat_beq,
  nat_beq_iff, ◌==◌, ap,
}
use fasco.Base.Int.{ℤ, minus_one, int_eq, int_beq_iff, is_pos}
use fasco.Base.Map.{find-assign}
use fasco.Base.Outcome.{ok}
use fasco.Events.{State, make, set_tid, k_read_event}
use fasco.Kernel.{Kernel}
use fasco.McoPool.{McoPool, get_mco_routine, set_mco_routine}
use fasco.EventLoop.Step.{known}
use fasco.EventLoopPool.{get_next_loop, get_main_loop}
use fasco.Process.{Process, view, put_event, put_pool}
use fasco.Process.Views.{loop_update_returns}
use fasco.Hook.Wait.{Waits, Watched, asked-Waits}
use fasco.TcpServer.{TcpServer, start, start_with, hand_over, accepted}

set-get :
    (fd : ℤ) (m : ℕ) (pool : McoPool) → get_mco_routine fd (set_mco_routine fd m pool) ≡ some m
unfolding get_mco_routine set_mco_routine
set-get fd m pool = find-assign fd fd m pool.fd_mcos ∙ rw ((int_beq_iff fd fd).1 refl)

module _ (k : Kernel) (ndebug : Bool) (tid fd : ℤ) (l new_event new_mco : ℕ) where
  -- A coroutine waits on a loop in its thread, whether or not the kernel took the request.
  abbrev pub Served : Process k → Process k → Type 0
  Served w w' =
      (b : Bool) × Waits k l (w.loops l).tid fd new_event new_mco w'
      × Watched k l (w.loops l).tid fd b w w'

  pub hand_over-Served :
      (w : Process k)
      → (w.loops l).poll.epoll_fd ≢ minus_one
      → known k (view k l w) fd ≡ none
      → (w' : Process k) × (hand_over k ndebug tid fd (some l) new_event new_mco w ≡ ok w')
        × (w'.registry ≡ w.registry)
        × ((w'.loops l).wake_fd ≡ (w.loops l).wake_fd)
        × Served w w'
  unfolding hand_over make
  hand_over-Served w open_ fresh =
      let home = (w.loops l).tid in
      let w₁ = put_event k new_event (make fd k_read_event tid) w in
      let w₂ = put_pool k home (set_mco_routine fd new_mco (w₁.pools home)) w₁ in
      let e = set_tid home (w₂.heap new_event) in
      let w₃ = put_event k new_event e w₂ in
      let itself : nat_beq new_event new_event ≡ true = (nat_beq_iff new_event new_event).1 refl in
      let same : (home == home) ≡ true = (int_beq_iff home home).1 refl in
      let made : w₃.heap new_event ≡ set_tid home (make fd k_read_event tid) = rw itself refl in
      let (w', b, h, u) =
        loop_update_returns k ndebug l new_event w₃ open_ (λ s. rw made fresh)
          (λ s. absurd (cc s)) in
      let waiter : get_mco_routine fd (w₃.pools home) ≡ some new_mco =
        rw same (set-get fd new_mco (w₁.pools home)) in
      let (waits, watched) =
        asked-Waits k ndebug l home fd new_event new_mco w₃ w' b (ap (λ x. x.fd) made)
          (ap (λ x. x.tid) made) (ap (λ x. x.eorigin) made) waiter refl u
          (inl (ap (λ x. x.state) made)) (inl fresh) in
      (w', simp h refl, u.registry, ap (λ x. x.wake_fd) u.frame.2, (b, waits, watched))

module _ (k : Kernel) (ndebug : Bool) (tid fd : ℤ) (l new_event new_mco : ℕ) (w : Process k) where
  -- What accept returns above 0 goes to the loop whose turn it is: if that loop is open and does not
  -- know the descriptor, the round comes to an end without a fault, the turn passes on, and the
  -- client's coroutine waits in the loop's thread for the connection to become readable. Nothing
  -- happens for any other result, 0 included.
  pub accepted_lem :
      (get_next_loop w.registry).1 ≡ some l
      → (w.loops l).poll.epoll_fd ≢ minus_one
      → known k (view k l w) fd ≡ none
      → (w' : Process k) × (accepted k ndebug tid fd new_event new_mco w ≡ ok w')
        × (if is_pos fd
            then (w'.registry ≡ (get_next_loop w.registry).0)
              × Served k ndebug tid fd l new_event new_mco w w'
            else w' ≡ w)
  unfolding accepted
  accepted_lem turn open_ fresh = elim (Bool-cases (is_pos fd)) [
    | inl got ↦
        let w₀ = record w { registry = (get_next_loop w.registry).0 } in
        let (w', h, turned, wake, served) =
          hand_over-Served k ndebug tid fd l new_event new_mco w₀ open_ fresh in
        (w', simp (got, turn, h) refl, simp got (turned, served))
    | inr no_ ↦ (w, simp no_ refl, simp no_ refl)
  ]

module _ (k : Kernel) (ndebug : Bool) (tid : ℤ) (l new_mco : ℕ) (server : TcpServer)
    (w : Process k) where
  -- The server's Events object as its constructor left it.
  pub record Listening : Type 0 where
    pub own : (w.heap server.events).fd ≡ server.server.socket
    pub of_thread : (w.heap server.events).tid ≡ tid
    pub asks : (w.heap server.events).eorigin ≡ k_read_event
    pub fresh : (w.heap server.events).state ≡ State.new
    pub unknown : known k (view k l w) server.server.socket ≡ none

  -- start, in the thread of an open main loop, of a server whose object is as the constructor left it
  -- returns true without a fault, and the server's coroutine then waits in that thread for
  -- connections, whether or not the kernel took the request.
  pub start-Waits :
      get_main_loop w.registry ≡ some l
      → (w.loops l).poll.epoll_fd ≢ minus_one
      → (w.loops l).tid ≡ tid
      → Listening
      → (w' : Process k) × (b : Bool) × (start k ndebug tid new_mco server w
          ≡ ok (w', record server { loop = some l }, true))
        × Waits k l tid server.server.socket server.events new_mco w'
        × Watched k l tid server.server.socket b w w'
  unfolding start start_with
  start-Waits main open_ home listening =
      let fd = server.server.socket in
      let w₁ = put_pool k tid (set_mco_routine fd new_mco (w.pools tid)) w in
      let same : (tid == tid) ≡ true = (int_beq_iff tid tid).1 refl in
      let (w', b, h, u) =
        loop_update_returns k ndebug l server.events w₁ open_
          (λ s. ap (known k (view k l w)) listening.own ∙ listening.unknown)
          (λ s. absurd (cc (s, listening.fresh))) in
      let (waits, watched) =
        asked-Waits k ndebug l tid fd server.events new_mco w₁ w' b listening.own
          listening.of_thread listening.asks (rw same (set-get fd new_mco (w.pools tid))) home u
          (inl listening.fresh) (inl listening.unknown) in
      (w', b, simp (main, h) refl, waits, watched)
