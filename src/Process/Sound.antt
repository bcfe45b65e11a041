-- ===== src/Process/Sound.antt =====
-- What stays so of the loops of a process, whatever the threads do: the kernel watches nothing for a
-- loop but what the loop knows, and a loop knows nothing but objects of its own thread.
use fasco.Base.{ℕ, ◌≡◌, refl, ◌≢◌, ◌∙◌, none, some, inl, inr, ◌⊎◌, ap, sym, get_elem?}
use fasco.Base.Int.{ℤ, int_eq}
use fasco.Kernel.{Kernel}
use fasco.EventLoop.Step.{known, watches}
use fasco.EventLoop.Sync.{NoStray}
use fasco.EventLoopPool.{get_loop}
use fasco.Process.{Process, view}

module _ (k : Kernel) where
  -- A loop that is registered, for the thread that it runs in.
  abbrev pub Live : Process k → ℕ → Type 0
  Live w l = get_loop (w.loops l).tid w.registry ≡ some l

  -- No loop of the process knows the object at this address.
  abbrev pub Fresh : Process k → ℕ → Type 0
  Fresh w p = (l : ℕ) (j : ℤ) → Live w l → known k (view k l w) j ≢ some p

  pub record Sound (w : Process k) : Type 0 where
    -- A loop is registered under the thread that it runs in.
    pub home : (tid : ℤ) (l : ℕ) → get_loop tid w.registry ≡ some l → (w.loops l).tid ≡ tid
    -- The loops that take turns are registered, and so is the main loop.
    pub in_turn : (i l : ℕ) → get_elem? w.registry.next_loops i ≡ some l → Live w l
    pub main : (l : ℕ) → w.registry.main_loop ≡ some l → Live w l
    -- No two loops share an epoll instance.
    pub apart :
        (a b : ℕ)
        → Live w a
        → Live w b
        → a ≢ b
        → (w.loops a).poll.epoll_fd ≢ (w.loops b).poll.epoll_fd
    -- What a loop knows for a descriptor is an object of that descriptor and of the loop's thread.
    pub own :
        (l : ℕ) (j : ℤ) (p : ℕ)
        → Live w l
        → known k (view k l w) j ≡ some p
        → ((w.heap p).fd ≡ j) × ((w.heap p).tid ≡ (w.loops l).tid)
    pub no_stray : (l : ℕ) → Live w l → NoStray k (view k l w)

  -- What the loops and the kernel hold of one another is as before, except that the kernel may have
  -- stopped watching something.
  pub record Quiet (w w' : Process k) : Type 0 where
    pub tids : (a : ℕ) → Live w a → (w'.loops a).tid ≡ (w.loops a).tid
    pub instances : (a : ℕ) → Live w a → (w'.loops a).poll.epoll_fd ≡ (w.loops a).poll.epoll_fd
    pub events : (a : ℕ) → Live w a → (w'.loops a).events ≡ (w.loops a).events
    pub threads : w'.registry.loops ≡ w.registry.loops
    pub turns : w'.registry.next_loops ≡ w.registry.next_loops
    pub first : w'.registry.main_loop ≡ w.registry.main_loop
    pub objects :
        (l : ℕ) (j : ℤ) (p : ℕ)
        → Live w l
        → known k (view k l w) j ≡ some p
        → ((w'.heap p).fd ≡ (w.heap p).fd) × ((w'.heap p).tid ≡ (w.heap p).tid)
    pub lists :
        (a : ℕ) (j : ℤ)
        → Live w a
        → (watches k (view k a (record w { sys = w'.sys })) j ≡ watches k (view k a w) j)
          ⊎ (watches k (view k a (record w { sys = w'.sys })) j ≡ none)

module _ (k : Kernel) (w w' : Process k) (q : Quiet k w w') (s : Sound k w) where
  Quiet-get_loop : (tid : ℤ) → get_loop tid w'.registry ≡ get_loop tid w.registry
  unfolding get_loop
  Quiet-get_loop tid = rw q.threads

  was-Live : (l : ℕ) → Live k w' l → Live k w l
  was-Live l h =
      let before = sym (Quiet-get_loop (w'.loops l).tid) ∙ h in
      ap (λ t. get_loop t w.registry) (s.home (w'.loops l).tid l before) ∙ before

  stays-Live : (l : ℕ) → Live k w l → Live k w' l
  stays-Live l h =
      Quiet-get_loop (w'.loops l).tid ∙ ap (λ t. get_loop t w.registry) (q.tids l h) ∙ h

  Quiet-known : (l : ℕ) (j : ℤ) → Live k w l → known k (view k l w') j ≡ known k (view k l w) j
  Quiet-known l j live = rw (q.events l live) refl

  Quiet-NoStray : (l : ℕ) → Live k w l → NoStray k (view k l w) → NoStray k (view k l w')
  Quiet-NoStray l live v j h =
      let before = v j (sym (Quiet-known l j live) ∙ h) in
      rw (q.instances l live)
        (elim (q.lists l j live) [ inl same ↦ same ∙ before | inr gone ↦ gone ])

  -- What is sound stays sound.
  pub Quiet-Sound : Sound k w'
  Quiet-Sound = record {
    home = λ tid l h.
        let h₀ = sym (Quiet-get_loop tid) ∙ h in
        let at_ = s.home tid l h₀ in q.tids l (ap (λ t. get_loop t w.registry) at_ ∙ h₀) ∙ at_;
    in_turn = λ i l h. stays-Live l (s.in_turn i l (ap (λ ls. get_elem? ls i) (sym q.turns) ∙ h));
    main = λ l h. stays-Live l (s.main l (sym q.first ∙ h));
    apart = λ a b la lb n e.
        let la₀ = was-Live a la in
        let lb₀ = was-Live b lb in
        s.apart a b la₀ lb₀ n (sym (q.instances a la₀) ∙ e ∙ q.instances b lb₀);
    own = λ l j p lv h.
        let lv₀ = was-Live l lv in
        let h₀ = sym (Quiet-known l j lv₀) ∙ h in
        let (fd, tid) = s.own l j p lv₀ h₀ in
        let (fd', tid') = q.objects l j p lv₀ h₀ in (fd' ∙ fd, tid' ∙ tid ∙ sym (q.tids l lv₀));
    no_stray = λ l lv. let lv₀ = was-Live l lv in Quiet-NoStray l lv₀ (s.no_stray l lv₀);
  }
