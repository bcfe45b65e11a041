-- ===== src/Process/Join.antt =====
-- addEventLoop of base/EventLoopPool.cpp: a loop joins the loops of the process.
use fasco.Process.Spawn.{NewLoop}
use fasco.Base.{
  ℕ, ◌≡◌, refl, ◌≢◌, ◌∙◌, none, some, inl, inr, ◌⊎◌, ap, sym, if◌then◌else◌, ◌==◌, Bool-cases,
  subst, get_elem?,
}
use mathlib.Core.Option.{some-injective}
use fasco.Base.Int.{ℤ, int_eq, int_beq_iff}
use fasco.Kernel.{Kernel}
use fasco.EventLoop.Step.{known}
use fasco.EventLoop.Sync.{NoStray}
use fasco.EventLoopPool.{EventLoopPool, get_loop}
use fasco.Process.{Process, view}
use fasco.Process.Sound.{Live, Sound}

module _ (k : Kernel) (l : ℕ) (w : Process k) (s : Sound k w) where
  -- What a loop must be to be registered.
  pub record Ready : Type 0 where
    pub fresh : NewLoop k w l
    pub stray : NoStray k (view k l w)
    pub own :
        (j : ℤ) (q : ℕ)
        → known k (view k l w) j ≡ some q
        → ((w.heap q).fd ≡ j) × ((w.heap q).tid ≡ (w.loops l).tid)
    pub apart : (a : ℕ) → Live k w a → (w.loops a).poll.epoll_fd ≢ (w.loops l).poll.epoll_fd

  module _ (ready : Ready) (r : EventLoopPool) (unused : get_loop (w.loops l).tid w.registry ≡ none)
      (gets : (j : ℤ)
        → get_loop j r ≡ (if (w.loops l).tid == j then some l else get_loop j w.registry)) where
    abbrev joined : Process k
    joined = record w { registry = r }

    joins : Live k joined l
    joins = gets (w.loops l).tid ∙ simp ((int_beq_iff (w.loops l).tid (w.loops l).tid).1 refl) refl

    found :
        (t : ℤ) (a : ℕ)
        → get_loop t r ≡ some a
        → (get_loop t w.registry ≡ some a) ⊎ ((a ≡ l) × ((w.loops l).tid ≡ t))
    found t a h = elim (Bool-cases ((w.loops l).tid == t)) [
      | inl same ↦ inr (
        some-injective _ _ (sym h ∙ gets t ∙ simp same refl),
        (int_beq_iff (w.loops l).tid t).0 same,
      )
      | inr other ↦ inl (sym (gets t ∙ simp other refl) ∙ h)
    ]

    remains : (a : ℕ) → Live k w a → Live k joined a
    remains a h = elim (Bool-cases ((w.loops l).tid == (w.loops a).tid)) [
      | inl same ↦
          let t = (int_beq_iff (w.loops l).tid (w.loops a).tid).0 same in absurd (cc (unused, h, t))
      | inr other ↦ gets (w.loops a).tid ∙ simp other h
    ]

    pub joined-Sound :
        ((i a : ℕ)
          → get_elem? r.next_loops i ≡ some a
          → (get_elem? w.registry.next_loops i ≡ some a) ⊎ (a ≡ l))
        → ((a : ℕ) → r.main_loop ≡ some a → (w.registry.main_loop ≡ some a) ⊎ (a ≡ l))
        → Sound k joined
    joined-Sound turns first = record {
      home = λ t a h. elim (found t a h) [
        | inl old ↦ s.home t a old
        | inr (new, t₀) ↦ ap (λ x. (w.loops x).tid) new ∙ t₀
      ];
      in_turn = λ i a h. elim (turns i a h) [
        | inl old ↦ remains a (s.in_turn i a old)
        | inr new ↦ subst (Live k joined) (sym new) joins
      ];
      main = λ a h. elim (first a h) [
        | inl old ↦ remains a (s.main a old)
        | inr new ↦ subst (Live k joined) (sym new) joins
      ];
      apart = λ a b la lb n. elim (found (w.loops a).tid a la) [
        | inl old_a ↦ elim (found (w.loops b).tid b lb) [
          | inl old_b ↦ s.apart a b old_a old_b n
          | inr (new, t) ↦ λ e. ready.apart a old_a (e ∙ ap (λ x. (w.loops x).poll.epoll_fd) new)
        ]
        | inr (new, t) ↦ elim (found (w.loops b).tid b lb) [
          | inl old_b ↦ λ e. ready.apart b old_b (sym e ∙ ap (λ x. (w.loops x).poll.epoll_fd) new)
          | inr (new', t') ↦ absurd (n (new ∙ sym new'))
        ]
      ];
      own = λ a j p la h. elim (found (w.loops a).tid a la) [
        | inl old ↦ s.own a j p old h
        | inr (new, t) ↦
            subst (λ x. ((w.heap p).fd ≡ j) × ((w.heap p).tid ≡ (w.loops x).tid)) (sym new)
              (ready.own j p (ap (λ x. known k (view k x w) j) (sym new) ∙ h))
      ];
      no_stray = λ a la. elim (found (w.loops a).tid a la) [
        | inl old ↦ s.no_stray a old
        | inr (new, t) ↦ subst (λ x. NoStray k (view k x w)) (sym new) ready.stray
      ];
    }
