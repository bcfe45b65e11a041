-- ===== src/TcpServer/Init.antt =====
-- base/TcpServer.cpp: a server from its constructor to the wait for its first connection.
use fasco.Base.{
  ℕ, ◌≡◌, refl, ◌≢◌, ◌∙◌, Bool, true, false, some, none, nat_beq_iff, ap, sym, subst, Bool-cases,
  inl, inr,
}
use fasco.Base.Int.{ℤ, pos, minus_one, int_eq}
use fasco.Base.Outcome.{ok, assert_that, >>=-eq-ok, ok-injective}
use fasco.Events.{make, k_read_event}
use fasco.Kernel.{Kernel}
use fasco.EventLoop.Step.{known}
use fasco.EventLoopPool.{get_main_loop}
use fasco.NetAddress.{NetAddress}
use fasco.Socket.{SocketApi, Socket, bind, listen}
use fasco.Socket
use fasco.Process.{Process, view, put_event}
use fasco.Hook.{put_sys}
use fasco.Hook.Wait.{Waits}
use fasco.TcpServer.{TcpServer, init, asserted_call, start, af_inet, sock_stream}
use fasco.TcpServer.Serve.{start-Waits}

module _ (k : Kernel) (ndebug : Bool) (tid : ℤ) where
  -- A call in an assert, made or not, reaches the kernel's state alone.
  asserted_call_lem :
      (call : k.State → k.State × Bool) (w w' : Process k)
      → asserted_call k ndebug tid call w ≡ ok w'
      → (s : k.State) × (w' ≡ put_sys k s w)
  unfolding asserted_call
  asserted_call_lem call w w' h = elim (Bool-cases ndebug) [
    | inl off ↦ (w.sys, sym (ok-injective (simp off at h)))
    | inr on ↦
        let (u, e, h') = >>=-eq-ok (assert_that false (call w.sys).1) _ (simp on at h) in
        ((call w.sys).0, sym (ok-injective h'))
  ]

  -- What the constructor returns: a server without a loop, whose object is registered nowhere.
  init_lem :
      (api : SocketApi k.State) (addr : NetAddress) (new_event : ℕ) (w w' : Process k)
      (server : TcpServer)
      → init k ndebug tid api addr new_event w ≡ ok (w', server)
      → (s : k.State) × (server.events ≡ new_event)
        × (w' ≡ put_sys k s (put_event k new_event (make server.server.socket k_read_event tid) w))
  unfolding init
  init_lem api addr new_event w w' server h =
      let r = Socket.make api af_inet sock_stream (pos 0) w.sys in
      let w₁ = put_event k new_event (make r.1.socket k_read_event tid) (put_sys k r.0 w) in
      let (w₂, e₂, h₂) = >>=-eq-ok (asserted_call k ndebug tid (bind api addr r.1) w₁) _ h in
      let (w₃, e₃, h₃) = >>=-eq-ok (asserted_call k ndebug tid (listen api 50 r.1) w₂) _ h₂ in
      let (s₂, f₂) = asserted_call_lem (bind api addr r.1) w₁ w₂ e₂ in
      let (s₃, f₃) = asserted_call_lem (listen api 50 r.1) w₂ w₃ e₃ in
      let made = ap (λ x. x.1) (ok-injective h₃) in
      (
        s₃,
        sym (ap (λ x. x.events) made),
        sym (ap (λ x. x.0) (ok-injective h₃))
            ∙ f₃
            ∙ ap (put_sys k s₃) f₂
            ∙ ap (λ fd. put_sys k s₃ (put_event k new_event (make fd k_read_event tid) w))
                (ap (λ x. x.server.socket) made),
      )

  -- A server whose constructor came back, started in the thread of an open main loop that does not
  -- know its descriptor: start returns true without a fault, and the server's coroutine then waits
  -- for connections in that thread.
  pub init-start-Waits :
      (api : SocketApi k.State) (addr : NetAddress) (new_event new_mco l : ℕ) (w w' : Process k)
      (server : TcpServer)
      → init k ndebug tid api addr new_event w ≡ ok (w', server)
      → get_main_loop w.registry ≡ some l
      → (w.loops l).poll.epoll_fd ≢ minus_one
      → (w.loops l).tid ≡ tid
      → known k (view k l w) server.server.socket ≡ none
      → (w'' : Process k) × (start k ndebug tid new_mco server w'
          ≡ ok (w'', record server { loop = some l }, true))
        × Waits k l tid server.server.socket new_event new_mco w''
  unfolding make
  init-start-Waits api addr new_event new_mco l w w' server h main open_ home unknown =
      let (s, at_, e) = init_lem api addr new_event w w' server h in
      let object = make server.server.socket k_read_event tid in
      let made : w'.heap server.events ≡ object =
        ap (λ p. w'.heap p) at_
        ∙ ap (λ x. x.heap new_event) e
        ∙ rw ((nat_beq_iff new_event new_event).1 refl) refl in
      let loops : w'.loops l ≡ w.loops l = ap (λ x. x.loops l) e in
      let (w'', b, started, waits, watched) =
        start-Waits k ndebug tid l new_mco server w' (ap (λ x. get_main_loop x.registry) e ∙ main)
          (λ z. open_ (ap (λ x. x.poll.epoll_fd) (sym loops) ∙ z)) (ap (λ x. x.tid) loops ∙ home)
          (record {
            own = ap (λ x. x.fd) made;
            of_thread = ap (λ x. x.tid) made;
            asks = ap (λ x. x.eorigin) made;
            fresh = ap (λ x. x.state) made;
            unknown = ap (λ x. known k (view k l x) server.server.socket) e ∙ unknown;
          }) in
      (w'', started, subst (λ p. Waits k l tid server.server.socket p new_mco w'') at_ waits)
