-- ===== src/TcpServer/Keeps.antt =====
-- base/TcpServer.cpp: start, accept and client_call keep the loops of the process sound.
use fasco.Base.{
  ℕ, ◌≡◌, refl, ◌∙◌, Bool, true, false, none, some, inl, Option, Bool-cases, inr, sym, nat_beq_iff,
}
use fasco.Base.Int.{ℤ, is_pos}
use fasco.Base.Outcome.{ok, OnOk, OnOk-each, OnOk-then}
use fasco.Events.{make, set_tid, k_read_event}
use fasco.Kernel.{Kernel}
use fasco.McoPool.{set_mco_routine}
use fasco.EventLoopPool.Registry.{main_itself}
use fasco.EventLoopPool.{get_next_loop, get_main_loop}
use fasco.Process.{Process, put_event, put_pool, loop_update}
use fasco.Process.Sound.{Live, Fresh, Sound}
use fasco.Process.Steps.{Keeps, Keeps-then, put_event-Sound, put_pools-Sound, get_next_loop-Sound}
use fasco.Process.Updates.{loop_update-Sound}
use fasco.Hook.{Files, pool_of, close}
use fasco.Hook.Calls.{close-Sound}
use fasco.TcpServer.{TcpServer, start, start_with, hand_over, accepted, client_read}

module _ (k : Kernel) (ndebug : Bool) (tid : ℤ) where
  hand_over-Sound :
      (fd : ℤ) (turn : Option ℕ) (new_event new_mco : ℕ) (w : Process k)
      → ((l : ℕ) → turn ≡ some l → Live k w l)
      → Fresh k w new_event
      → Sound k w
      → OnOk (Sound k) (hand_over k ndebug tid fd turn new_event new_mco w)
  unfolding hand_over make
  hand_over-Sound fd none new_event new_mco w live fresh s = tt
  hand_over-Sound fd (some l) new_event new_mco w live fresh s =
      let home = (w.loops l).tid in
      let made = make fd k_read_event tid in
      let w₁ = put_event k new_event made w in
      let w₂ = put_pool k home (set_mco_routine fd new_mco (pool_of k home w₁)) w₁ in
      let e = set_tid home (w₂.heap new_event) in
      let w₃ = put_event k new_event e w₂ in
      let s₂ = put_pools-Sound k w₂.pools w₁ (put_event-Sound k new_event made w (inl fresh) s) in
      let s₃ = put_event-Sound k new_event e w₂ (inl fresh) s₂ in
      let mine : (w₃.heap new_event).tid ≡ home =
        rw ((nat_beq_iff new_event new_event).1 refl) refl in
      OnOk-then (λ r. Sound k r.0) (Sound k) (loop_update k ndebug l new_event w₃) (λ r. ok r.0)
        (OnOk-each {P = λ r. Sound k r.0} (loop_update k ndebug l new_event w₃)
          (λ r h. loop_update-Sound k ndebug l new_event w₃ r.0 r.1 h (live l refl) mine s₃))
        (λ r h. h)

  pub accepted-Sound :
      (fd : ℤ) (new_event new_mco : ℕ) (w : Process k)
      → Fresh k w new_event
      → Sound k w
      → OnOk (Sound k) (accepted k ndebug tid fd new_event new_mco w)
  unfolding accepted
  accepted-Sound fd new_event new_mco w fresh s = elim (Bool-cases (is_pos fd)) [
    | inl got ↦
        let r = get_next_loop w.registry in
        let (s₀, live, keep) = get_next_loop-Sound k w s in
        simp got (
          hand_over-Sound fd r.1 new_event new_mco (record w { registry = r.0 }) live
            (keep new_event fresh) s₀)
    | inr no_ ↦ simp no_ s
  ]

  pub client_read-Sound :
      (io : Files k) (hookable : Bool) (fd ret : ℤ) (w : Process k)
      → Sound k w
      → Keeps k (client_read k ndebug tid io hookable fd ret w)
  unfolding client_read
  client_read-Sound io hookable fd ret w s = elim (Bool-cases (is_pos ret)) [
    | inl more ↦ simp more s
    | inr done ↦ simp done (
        Keeps-then k (close k io ndebug hookable tid fd w) (λ r. ok (r.0, false))
          (close-Sound k io ndebug hookable tid fd w s) (λ r h. h))
  ]

  start_with-Sound :
      (main : Option ℕ) (new_mco : ℕ) (server : TcpServer) (w : Process k)
      → ((l : ℕ) → main ≡ some l → Live k w l)
      → ((l : ℕ) → main ≡ some l → (w.heap server.events).tid ≡ (w.loops l).tid)
      → Sound k w
      → OnOk {A = Process k × TcpServer × Bool}
          (λ r. Sound k r.0)
          (start_with k ndebug tid main new_mco server w)
  unfolding start_with
  start_with-Sound none new_mco server w live home s = s
  start_with-Sound (some l) new_mco server w live home s =
      let pool = set_mco_routine server.server.socket new_mco (pool_of k tid w) in
      let w₁ = put_pool k tid pool w in
      OnOk-then {B = Process k × TcpServer × Bool} (λ r. Sound k r.0) (λ r. Sound k r.0)
        (loop_update k ndebug l server.events w₁)
        (λ r. ok (r.0, record server { loop = some l }, true))
        (OnOk-each {P = λ r. Sound k r.0} (loop_update k ndebug l server.events w₁) (λ r h.
          loop_update-Sound k ndebug l server.events w₁ r.0 r.1 h (live l refl) (home l refl)
            (put_pools-Sound k w₁.pools w s)))
        (λ r h. h)

  pub start-Sound :
      (new_mco : ℕ) (server : TcpServer) (w : Process k)
      → ((l : ℕ) → get_main_loop w.registry ≡ some l → (w.heap server.events).tid ≡ (w.loops l).tid)
      → Sound k w
      → OnOk {A = Process k × TcpServer × Bool}
          (λ r. Sound k r.0)
          (start k ndebug tid new_mco server w)
  unfolding start
  start-Sound new_mco server w home s =
      start_with-Sound (get_main_loop w.registry) new_mco server w
        (λ l h. s.main l (sym (main_itself w.registry) ∙ h)) home s
