-- ===== src/Process/Started.antt =====
-- A thread's new loop, from its constructor to its registration, keeps the loops of the process
-- sound.
use fasco.Process.Spawn.{NewLoop, add_loop, spawn}
use fasco.Process.Join.{Ready, joined-Sound}
use fasco.Base.{
  ℕ, ◌≡◌, refl, ◌≢◌, ◌∙◌, Bool, true, false, some, inl, inr, ◌⊎◌, nat_beq, nat_beq_iff, ap, sym,
  if◌then◌else◌, Bool-cases, subst, get_elem?, [], ◌∷◌, ◌++◌,
}
use mathlib.Core.Option.{some-injective}
use fasco.Base.Int.{ℤ, int_eq}
use fasco.Base.Outcome.{ok, OnOk, OnOk-each, OnOk-then}
use fasco.Kernel.{Kernel}
use fasco.EventLoop.{World}
use fasco.EventLoop
use fasco.EventLoop.Start.{Started, init-Started}
use fasco.EventLoop.Step.{known}
use fasco.EventLoopPool.{EventLoopPool, add_event_loop, get_loop, get_main_loop}
use fasco.EventLoopPool.Registry.{add_event_loop_lem, main_itself, get_elem?-snoc}
use fasco.Process.{Process, put_loop}
use fasco.Process.Sound.{Live, Fresh, Sound, Quiet, Quiet-Sound}

module _ (k : Kernel) where
  add_loop-Sound :
      (l : ℕ) (ismain : Bool) (w : Process k) (s : Sound k w)
      → Ready k l w s
      → Sound k (add_loop k l ismain w).0
  unfolding add_loop
  add_loop-Sound l ismain w s ready =
      let r = add_event_loop (w.loops l).tid (some l) ismain w.registry in
      elim (add_event_loop_lem (w.loops l).tid (some l) ismain w.registry) [
        | inl (why, e) ↦ subst (λ x. Sound k (record w { registry = x.0 })) (sym e) s
        | inr (unused, done, gets, main, serve) ↦
            joined-Sound k l w s ready r.0 unused gets (turns r.0 serve) (first r.0 main)
      ]
    where
      turns :
          (p : EventLoopPool)
          → ((ismain ≡ true) × (p.next_loops ≡ w.registry.next_loops)
              ⊎ ((a : ℕ) × (some l ≡ some a)
                  × (ismain ≡ false)
                  × (p.next_loops ≡ w.registry.next_loops ++ a ∷ [])))
          → (i a : ℕ) → get_elem? p.next_loops i ≡ some a
          → (get_elem? w.registry.next_loops i ≡ some a) ⊎ (a ≡ l)
      turns p (inl (m, e)) i a h = inl (ap (λ xs. get_elem? xs i) (sym e) ∙ h)
      turns p (inr (b, n, m, e)) i a h = get_elem?-snoc w.registry.next_loops l i a (
          ap (λ x. get_elem? (w.registry.next_loops ++ x ∷ []) i) (some-injective _ _ n)
          ∙ ap (λ xs. get_elem? xs i) (sym e)
          ∙ h)

      first :
          (p : EventLoopPool)
          → get_main_loop p ≡ (if ismain then some l else get_main_loop w.registry)
          → (a : ℕ) → p.main_loop ≡ some a
          → (w.registry.main_loop ≡ some a) ⊎ (a ≡ l)
      first p e a h = elim (Bool-cases ismain) [
        | inl is ↦ inr (some-injective _ _ (sym h ∙ sym (main_itself p) ∙ e ∙ simp is refl))
        | inr is_not ↦
            inl (sym (main_itself w.registry) ∙ sym (e ∙ simp is_not refl) ∙ main_itself p ∙ h)
      ]

  module _ (ndebug : Bool) (l new_event : ℕ) (tid : ℤ) (w : Process k) (s : Sound k w)
      (new : NewLoop k w l) (fresh : Fresh k w new_event)
      (own_instance : (a : ℕ)
        → Live k w a
        → (w.loops a).poll.epoll_fd ≢ (k.epoll_create w.sys).1) where
    module _ (v : World k) (st : Started k ndebug new_event tid w.heap w.sys v) where
      other : (a : ℕ) (t : ℤ) → get_loop t w.registry ≡ some a → nat_beq l a ≡ false
      other a t e = elim (Bool-cases (nat_beq l a)) [
        | inl same ↦ absurd (new t (e ∙ ap some (sym ((nat_beq_iff l a).0 same))))
        | inr differs ↦ differs
      ]

      kept :
          (a : ℕ) (t : ℤ) → get_loop t w.registry ≡ some a → (put_loop k l v w).loops a ≡ w.loops a
      kept a t e = simp (other a t e) refl

      started-Quiet : Quiet k w (put_loop k l v w)
      started-Quiet = record {
        tids = λ a live. ap (λ x. x.tid) (kept a (w.loops a).tid live);
        instances = λ a live. ap (λ x. x.poll.epoll_fd) (kept a (w.loops a).tid live);
        events = λ a live. ap (λ x. x.events) (kept a (w.loops a).tid live);
        threads = refl;
        turns = refl;
        first = refl;
        objects = λ a j q live h.
            let same = st.objects q (λ e. fresh a j live (h ∙ ap some e)) in
            (ap (λ x. x.fd) same, ap (λ x. x.tid) same);
        lists = λ a j live. inl (st.lists (w.loops a).poll.epoll_fd j (own_instance a live));
      }

      started-Sound : Sound k (put_loop k l v w)
      started-Sound = Quiet-Sound k w (put_loop k l v w) started-Quiet s

      here : (put_loop k l v w).loops l ≡ v.loop
      here = rw ((nat_beq_iff l l).1 refl) refl

      started-Ready : Ready k l (put_loop k l v w) started-Sound
      started-Ready = record {
        fresh = new;
        stray = λ j h.
            ap (λ x. k.interest v.sys x.poll.epoll_fd j) here
            ∙ st.stray j (ap (λ x. known k (record v { loop = x }) j) (sym here) ∙ h);
        own = λ j q h.
            let (fd, home) =
              st.own j q (ap (λ x. known k (record v { loop = x }) j) (sym here) ∙ h) in
            (fd, home ∙ sym (ap (λ x. x.tid) here ∙ st.tid_));
        apart = λ a live e.
            let same = kept a ((put_loop k l v w).loops a).tid live in
            own_instance a (ap (λ x. get_loop x.tid w.registry) (sym same) ∙ live) (
              ap (λ x. x.poll.epoll_fd) (sym same)
              ∙ e
              ∙ ap (λ x. x.poll.epoll_fd) here
              ∙ st.instance_);
      }

    -- A loop that is constructed at a new address with an epoll instance that no other loop has.
    pub spawn-Sound :
        (ismain : Bool) → OnOk (λ r. Sound k r.0) (spawn k ndebug l new_event tid ismain w)
    unfolding spawn
    spawn-Sound ismain =
        OnOk-then (λ r. Started k ndebug new_event tid w.heap w.sys r.0) (λ r. Sound k r.0)
          (EventLoop.init k ndebug new_event tid w.heap w.sys (w.pools tid))
          (λ r. ok (add_loop k l ismain (put_loop k l r.0 w)))
          (OnOk-each {P = λ r. Started k ndebug new_event tid w.heap w.sys r.0}
            (EventLoop.init k ndebug new_event tid w.heap w.sys (w.pools tid))
            (λ r h. init-Started k ndebug new_event tid w.heap w.sys (w.pools tid) r.0 r.1 h))
          (λ r st.
            add_loop-Sound l ismain (put_loop k l r.0 w) (started-Sound r.0 st)
              (started-Ready r.0 st))
