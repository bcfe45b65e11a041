-- ===== src/Hook/Keeps.antt =====
-- base/SysapiHook.cpp: the hooked calls keep the loops of the process sound, whatever object and
-- descriptor they are given.
use fasco.Base.{ℕ, Bool, none, some, inl, inr, arith, Option}
use fasco.Base.Int.{ℤ}
use fasco.Base.Outcome.{ok, OnOk, OnOk-then, OnOk-bind, assert_that}
use fasco.Events.{Events, make, k_read_event, delete_event}
use fasco.Events
use fasco.Kernel.{Kernel}
use fasco.McoPool.{set_mco_routine}
use fasco.McoRoutine.{same_mco}
use fasco.Process.{Process, put_event, put_pool, update_loop_events, get_events}
use fasco.Process.Sound.{Fresh, Sound}
use fasco.Process.Steps.{
  Keeps, Keeps-then, put_event-Sound, put_pools-Sound, update_loop_events-Sound, SameHome,
}
use fasco.Hook.{waiting, pool_of, event_for, wait_known, wait_new, stop_waiting}

update_events-SameHome : (n : ℕ) (e : Events) → SameHome e (Events.update_events n e)
unfolding Events.update_events
update_events-SameHome n e = ground arith

delete_event-SameHome : (n : ℕ) (e : Events) → SameHome e (delete_event n e)
unfolding delete_event
delete_event-SameHome n e = ground arith

module _ (k : Kernel) (ndebug : Bool) (tid : ℤ) where
  asks_to_wait :
      (p : ℕ) (w : Process k)
      → Sound k w
      → OnOk
          (λ r. Sound k r.0)
          (update_loop_events k ndebug p
            (put_event k p (Events.update_events k_read_event (w.heap p)) w))
  asks_to_wait p w s =
      update_loop_events-Sound k ndebug p _
        (put_event-Sound k p _ w (inr (update_events-SameHome k_read_event (w.heap p))) s)

  event_for-Sound :
      (fd : ℤ) (p : ℕ) (found : Option ℕ) (w : Process k)
      → Fresh k w p
      → Sound k w
      → Sound k (event_for k tid fd p found w).0
  unfolding event_for
  event_for-Sound fd p (some q) w fresh s = s
  event_for-Sound fd p none w fresh s =
      put_event-Sound k p (make fd k_read_event tid) w (inl fresh) s

  pub wait_known-Sound :
      (fd : ℤ) (new_event mco : ℕ) (w : Process k)
      → Fresh k w new_event
      → Sound k w
      → Keeps k (wait_known k ndebug tid fd new_event mco w)
  unfolding wait_known
  wait_known-Sound fd new_event mco w fresh s =
      let r = event_for k tid fd new_event (get_events k tid fd w) w in
      OnOk-bind (λ r. Sound k r.0) (assert_that ndebug (same_mco (some mco) (pool_of k tid w).cur))
        _
        (λ _.
          Keeps-then k
            (update_loop_events k ndebug r.1
              (put_event k r.1 (Events.update_events k_read_event (r.0.heap r.1)) r.0))
            (λ x. ok (x.0, waiting r.1 (pool_of k tid x.0).cur))
            (asks_to_wait r.1 r.0 (event_for-Sound fd new_event (get_events k tid fd w) w fresh s))
            (λ x h. h))

  pub wait_new-Sound :
      (fd : ℤ) (new_event mco : ℕ) (w : Process k)
      → Fresh k w new_event
      → Sound k w
      → Keeps k (wait_new k ndebug tid fd new_event mco w)
  unfolding wait_new
  wait_new-Sound fd new_event mco w fresh s =
      let w₁ = put_pool k tid (set_mco_routine fd mco (pool_of k tid w)) w in
      let w₂ = put_event k new_event (make fd k_read_event tid) w₁ in
      Keeps-then k (update_loop_events k ndebug new_event w₂)
        (λ x. ok (x.0, waiting new_event (pool_of k tid x.0).cur))
        (update_loop_events-Sound k ndebug new_event w₂ (
          put_event-Sound k new_event (make fd k_read_event tid) w₁ (inl fresh)
            (put_pools-Sound k w₁.pools w s)))
        (λ x h. h)

  pub stop_waiting-Sound :
      (p : ℕ) (w : Process k) → Sound k w → OnOk (Sound k) (stop_waiting k ndebug tid p w)
  unfolding stop_waiting
  stop_waiting-Sound p w s =
      let w₁ = put_event k p (delete_event k_read_event (w.heap p)) w in
      OnOk-then (λ r. Sound k r.0) (Sound k) (update_loop_events k ndebug p w₁) _
        (update_loop_events-Sound k ndebug p w₁
          (put_event-Sound k p _ w (inr (delete_event-SameHome k_read_event (w.heap p))) s))
        (λ r h. h)
