-- ===== src/Hook/Calls.antt =====
-- base/SysapiHook.cpp: read, accept and close, whole, keep the loops of the process sound.
use fasco.Base.{
  ℕ, ◌∙◌, Bool, true, false, not, ◌||◌, none, some, inl, inr, Option, if◌then◌else◌, Bool-cases,
}
use fasco.Base.Int.{ℤ, pos}
use fasco.Base.Outcome.{ok, OnOk-then}
use fasco.Kernel.{Kernel}
use fasco.McoPool.{get_mco_routine}
use fasco.Process.{Process, put_pool, get_events, remove_event_from_loop}
use fasco.Process.Sound.{Fresh, Sound}
use fasco.Process.Steps.{
  Keeps, Keeps-then, put_sys-Sound, put_pools-Sound, remove_event_from_loop-Sound,
}
use fasco.Hook.{
  has_nonblock, Files, pool_of, put_sys, stop_waiting, read_now, read_blocking, read_begin,
  read_end, accept_now, accept_outside, accept_blocking, accept_begin, accept_end, close_event,
  close, forget,
}
use fasco.Hook.Keeps.{wait_known-Sound, wait_new-Sound, stop_waiting-Sound}

module _ (k : Kernel) (io : Files k) (ndebug hookable : Bool) (tid : ℤ) where
  read_now-Sound :
      (fd : ℤ) (nbyte : ℕ) (w : Process k)
      → Sound k w
      → Keeps k (read_now k io ndebug hookable tid fd nbyte w)
  unfolding read_now
  read_now-Sound fd nbyte w s =
      put_sys-Sound k (io.uni_read w.sys fd nbyte).0 w
        (λ e j. inl (io.read_keeps w.sys fd nbyte e j)) s

  read_blocking-Sound :
      (fd : ℤ) (nbyte new_event : ℕ) (found cur : Option ℕ) (w : Process k)
      → Fresh k w new_event
      → Sound k w
      → Keeps k (read_blocking k io ndebug hookable tid fd nbyte new_event found cur w)
  unfolding read_blocking
  read_blocking-Sound fd nbyte new_event (some mco) cur w fresh s =
      wait_known-Sound k ndebug tid fd new_event mco w fresh s
  read_blocking-Sound fd nbyte new_event none none w fresh s = read_now-Sound fd nbyte w s
  read_blocking-Sound fd nbyte new_event none (some mco) w fresh s =
      wait_new-Sound k ndebug tid fd new_event mco w fresh s

  -- read up to its yield.
  pub read_begin-Sound :
      (fd : ℤ) (nbyte new_event : ℕ) (w : Process k)
      → Fresh k w new_event
      → Sound k w
      → Keeps k (read_begin k io ndebug hookable tid fd nbyte new_event w)
  unfolding read_begin
  read_begin-Sound fd nbyte new_event w fresh s =
      elim (Bool-cases (has_nonblock (io.getfl w.sys fd) || not hookable)) [
        | inl now ↦ simp now (read_now-Sound fd nbyte w s)
        | inr blocks ↦ simp blocks (
            read_blocking-Sound fd nbyte new_event (get_mco_routine fd (pool_of k tid w))
              (pool_of k tid w).cur w fresh s)
      ]

  -- read behind its yield.
  pub read_end-Sound :
      (fd : ℤ) (nbyte p : ℕ) (w : Process k)
      → Sound k w
      → Keeps k (read_end k io ndebug hookable tid fd nbyte p w)
  unfolding read_end
  read_end-Sound fd nbyte p w s =
      OnOk-then (Sound k) (λ r. Sound k r.0) (stop_waiting k ndebug tid p w)
        (λ w'. let r = io.uni_read w'.sys fd nbyte in ok (put_sys k r.0 w', r.1))
        (stop_waiting-Sound k ndebug tid p w s)
        (λ w' s'.
          put_sys-Sound k (io.uni_read w'.sys fd nbyte).0 w'
            (λ e j. inl (io.read_keeps w'.sys fd nbyte e j)) s')

  accept_now-Sound :
      (fd : ℤ) (w : Process k) → Sound k w → Keeps k (accept_now k io ndebug hookable tid fd w)
  unfolding accept_now
  accept_now-Sound fd w s =
      put_sys-Sound k (io.uni_accept w.sys fd).0 w (λ e j. inl (io.accept_keeps w.sys fd e j)) s

  accept_outside-Sound :
      (fd flag : ℤ) (w : Process k)
      → Sound k w
      → Keeps k (accept_outside k io ndebug hookable tid fd flag w)
  unfolding accept_outside
  accept_outside-Sound fd flag w s =
      let s₁ = (io.uni_accept w.sys fd).0 in
      put_sys-Sound k (io.setfl s₁ fd flag) w
        (λ e j. inl (io.setfl_keeps s₁ fd flag e j ∙ io.accept_keeps w.sys fd e j)) s

  accept_blocking-Sound :
      (fd : ℤ) (new_event : ℕ) (found cur : Option ℕ) (w : Process k)
      → Fresh k w new_event
      → Sound k w
      → Keeps k (accept_blocking k io ndebug hookable tid fd new_event found cur w)
  unfolding accept_blocking
  accept_blocking-Sound fd new_event (some mco) cur w fresh s =
      wait_known-Sound k ndebug tid fd new_event mco w fresh s
  accept_blocking-Sound fd new_event none none w fresh s =
      accept_outside-Sound fd (io.getfl w.sys fd) w s
  accept_blocking-Sound fd new_event none (some mco) w fresh s =
      wait_new-Sound k ndebug tid fd new_event mco w fresh s

  -- accept up to its yield.
  pub accept_begin-Sound :
      (fd : ℤ) (new_event : ℕ) (w : Process k)
      → Fresh k w new_event
      → Sound k w
      → Keeps k (accept_begin k io ndebug hookable tid fd new_event w)
  unfolding accept_begin
  accept_begin-Sound fd new_event w fresh s =
      elim (Bool-cases (has_nonblock (io.getfl w.sys fd) || not hookable)) [
        | inl now ↦ simp now (accept_now-Sound fd w s)
        | inr blocks ↦ simp blocks (
            accept_blocking-Sound fd new_event (get_mco_routine fd (pool_of k tid w))
              (pool_of k tid w).cur w fresh s)
      ]

  -- accept behind its yield.
  pub accept_end-Sound :
      (fd : ℤ) (p : ℕ) (w : Process k)
      → Sound k w
      → Keeps k (accept_end k io ndebug hookable tid fd p w)
  unfolding accept_end
  accept_end-Sound fd p w s =
      OnOk-then (Sound k) (λ r. Sound k r.0) (stop_waiting k ndebug tid p w)
        (λ w'. let r = io.uni_accept w'.sys fd in ok (put_sys k r.0 w', r.1))
        (stop_waiting-Sound k ndebug tid p w s)
        (λ w' s'.
          put_sys-Sound k (io.uni_accept w'.sys fd).0 w'
            (λ e j. inl (io.accept_keeps w'.sys fd e j)) s')

  close_now-Sound :
      (fd : ℤ) (w : Process k) → Sound k w → Sound k (put_sys k (io.uni_close w.sys fd).0 w)
  close_now-Sound fd w s = put_sys-Sound k (io.uni_close w.sys fd).0 w (io.close_drops w.sys fd) s

  close_event-Sound :
      (fd : ℤ) (found : Option ℕ) (w : Process k)
      → Sound k w
      → Keeps k (close_event k io ndebug hookable tid fd found w)
  unfolding close_event
  close_event-Sound fd none w s = close_now-Sound fd w s
  close_event-Sound fd (some p) w s =
      Keeps-then k (remove_event_from_loop k ndebug p w) (λ r. ok (r.0, pos 0))
        (remove_event_from_loop-Sound k ndebug p w s) (λ r h. h)

  -- close.
  pub close-Sound :
      (fd : ℤ) (w : Process k) → Sound k w → Keeps k (close k io ndebug hookable tid fd w)
  unfolding close
  close-Sound fd w s =
      let w' = put_pool k tid (forget fd (pool_of k tid w)) w in
      by_hook w' (put_pools-Sound k w'.pools w s) hookable
    where
      by_hook :
          (w' : Process k)
          → Sound k w'
          → (b : Bool)
          → Keeps k (
              if not b
              then (let r = io.uni_close w.sys fd in ok (put_sys k r.0 w, r.1))
              else close_event k io ndebug hookable tid fd (get_events k tid fd w') w')
      by_hook w' s' true = close_event-Sound fd (get_events k tid fd w') w' s'
      by_hook w' s' false = close_now-Sound fd w s
