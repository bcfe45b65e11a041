-- ===== src/Hook/Close.antt =====
-- base/SysapiHook.cpp: close of a descriptor that the thread's loop serves.
use fasco.Base.{
  ℕ, ◌≡◌, refl, ◌≢◌, ◌∙◌, Bool, true, not, ◌&&◌, none, some, inl, inr, if◌then◌else◌, ap, sym,
  nat_beq_iff, ◌==◌, Bool-cases,
}
use fasco.Base.Int.{ℤ, pos, minus_one, int_eq, int_beq_iff}
use fasco.Base.Map.{find, find-erase}
use fasco.Base.Outcome.{ok}
use fasco.Events.{State, set_state}
use fasco.Kernel.{Kernel}
use fasco.McoPool.{McoPool, get_mco_routine, remove_mco_routine}
use fasco.McoRoutine.{same_mco}
use fasco.EventLoop
use fasco.EventLoop.{World}
use fasco.EventLoop.Step.{known, watches, Deleted}
use fasco.EventLoop.Total.{update_events_returns}
use fasco.EventLoop.Update.{Update, refused, idle, added, modified, deleted, update_events-Update}
use fasco.EventLoopPool
use fasco.Process.{
  Process, view, put_event, put_pool, put_loop, loop_update, remove_event_from_loop,
  remove_registered, get_events, events_registered,
}
use fasco.Process.Views.{Updated, put_loop-Updated}
use fasco.Hook.{Files, close, close_event, forget}
use fasco.Hook.Wait.{Registered}

forget-waits :
    (fd j : ℤ) (pool : McoPool)
    → get_mco_routine j (forget fd pool) ≡ (if fd == j then none else get_mco_routine j pool)
unfolding forget get_mco_routine remove_mco_routine
forget-waits fd j pool = elim (Bool-cases (same_mco pool.cur (find fd pool.fd_mcos))) [
  | inl s ↦ simp s (find-erase fd j pool.fd_mcos)
  | inr d ↦ simp d (find-erase fd j pool.fd_mcos)
]

forget-cur :
    (fd : ℤ) (pool : McoPool)
    → (forget fd pool).cur
      ≡ (if same_mco pool.cur (get_mco_routine fd pool) then none else pool.cur)
unfolding forget get_mco_routine remove_mco_routine
forget-cur fd pool = elim (Bool-cases (same_mco pool.cur (find fd pool.fd_mcos))) [
  | inl s ↦ simp s refl
  | inr d ↦ simp d refl
]

module _ (k : Kernel) (ndebug : Bool) (l : ℕ) where
  Update-Deleted :
      (p : ℕ) (v v' : World k) (b : Bool)
      → (v.heap p).state ≡ State.del
      → Update k ndebug p v v' b
      → (b ≡ true) × Deleted k ndebug p v v' b
  Update-Deleted p v v' b st (refused e ew eb) = absurd (cc)
  Update-Deleted p v v' b st (idle e kn wa f eb) = absurd (cc)
  Update-Deleted p v v' b st (added (inl e) a) = absurd (cc)
  Update-Deleted p v v' b st (added (inr (e, fresh)) a) = absurd (cc)
  Update-Deleted p v v' b st (modified e n m) = absurd (cc)
  Update-Deleted p v v' b st (deleted e d) = (d.result, d)

  -- RemoveEventFromLoop of an object that its loop has.
  remove_returns :
      (p : ℕ) (w : Process k)
      → EventLoopPool.get_loop (w.heap p).tid w.registry ≡ some l
      → (w.loops l).poll.epoll_fd ≢ minus_one
      → known k (view k l w) (w.heap p).fd ≢ none
      → let w₁ = put_event k p (set_state State.del (w.heap p)) w in
        (w' : Process k) × (b : Bool) × (remove_event_from_loop k ndebug p w ≡ ok (w', b))
        × Updated k ndebug l p w₁ w' b
        × Deleted k ndebug p (view k l w₁) (view k l w') b
  unfolding remove_event_from_loop remove_registered loop_update
  remove_returns p w e open_ there =
      let w₁ = put_event k p (set_state State.del (w.heap p)) w in
      let made : w₁.heap p ≡ set_state State.del (w.heap p) = rw ((nat_beq_iff p p).1 refl) in
      let st : (w₁.heap p).state ≡ State.del = ap (λ x. x.state) made in
      let same_fd : (w₁.heap p).fd ≡ (w.heap p).fd = ap (λ x. x.fd) made in
      let (v, b, h) =
        update_events_returns k ndebug p (view k l w₁) open_ (λ s. absurd (cc (st, s)))
          (λ s n. there (ap (known k (view k l w)) (sym same_fd) ∙ n)) in
      let u = update_events-Update k ndebug p (view k l w₁) v b h in
      let updated = put_loop-Updated k ndebug l p v w₁ b u in
      (
        put_loop k l v w₁,
        b,
        simp (e, h) refl,
        updated,
        (Update-Deleted p (view k l w₁) (view k l (put_loop k l v w₁)) b st updated.update).1,
      )

module _ (k : Kernel) (io : Files k) (ndebug : Bool) (l : ℕ) (tid fd : ℤ) (w : Process k) where
  -- A hooked close of a descriptor that the thread's own loop has an object for returns 0 without a
  -- fault. Afterwards the kernel does not watch the descriptor, the loop does not know it (unless
  -- asserts are compiled out), no coroutine waits for it, every other descriptor of the loop and of
  -- the pool is as before, and if the descriptor's coroutine was the current one, none is.
  pub close_lem :
      EventLoopPool.get_loop tid w.registry ≡ some l
      → (w.loops l).poll.epoll_fd ≢ minus_one
      → Registered k l tid w fd
      → (w' : Process k) × (close k io ndebug true tid fd w ≡ ok (w', pos 0))
        × ((j : ℤ)
            → known k (view k l w') j
              ≡ (if not ndebug && fd == j then none else known k (view k l w) j))
        × ((j : ℤ)
            → watches k (view k l w') j ≡ (if fd == j then none else watches k (view k l w) j))
        × ((j : ℤ)
            → get_mco_routine j (w'.pools tid)
              ≡ (if fd == j then none else get_mco_routine j (w.pools tid)))
        × ((w'.pools tid).cur ≡ (
            if same_mco (w.pools tid).cur (get_mco_routine fd (w.pools tid))
            then none
            else (w.pools tid).cur))
  unfolding close close_event get_events events_registered EventLoop.get_events
  close_lem mine open_ (p, kn, own, of_thread) =
      let w₁ = put_pool k tid (forget fd (w.pools tid)) w in
      let w₂ = put_event k p (set_state State.del (w.heap p)) w₁ in
      let loop : EventLoopPool.get_loop (w₁.heap p).tid w₁.registry ≡ some l = rw of_thread mine in
      let (w', b, e, u, d) = remove_returns k ndebug l p w₁ loop open_ (λ n. cc (kn, n, own)) in
      let same_tid : (tid == tid) ≡ true = (int_beq_iff tid tid).1 refl in
      let pool : w'.pools tid ≡ forget fd (w.pools tid) = rw (u.pools, same_tid) in
      let of_fd : (w₂.heap p).fd ≡ fd = rw ((nat_beq_iff p p).1 refl) own in
      (
        w',
        simp (mine, kn, e) refl,
        λ j. d.knows j ∙ rw of_fd refl,
        λ j. d.watched j ∙ rw of_fd refl,
        λ j. ap (get_mco_routine j) pool ∙ forget-waits fd j (w.pools tid),
        ap (λ x. x.cur) pool ∙ forget-cur fd (w.pools tid),
      )
