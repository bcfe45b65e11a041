-- ===== src/EventLoop/Start.antt =====
-- base/EventLoop.cpp: what the constructor of a loop leaves.
use fasco.Base.{
  ℕ, ◌≡◌, refl, ◌≢◌, ◌∙◌, Bool, true, false, none, some, inl, inr, nat_beq_iff, ap, arith, [],
  if◌then◌else◌, ◌==◌,
}
use fasco.Base.Int.{ℤ, int_eq, is_neg, int_beq_iff}
use fasco.Base.Map.{find}
use fasco.Base.Outcome.{ok, fault, aborted, >>=-eq-ok, OnOk, OnOk-at}
use fasco.Events.{Heap, put, make, set_type, k_read_event, event_type_event}
use fasco.Kernel.{Kernel}
use fasco.McoPool.{McoPool}
use fasco.Epoll
use fasco.EventLoop.{World, create_eventfd, init, update_events}
use fasco.EventLoop.Elsewhere.{SameLists, update_events-Elsewhere}
use fasco.EventLoop.Step.{known}
use fasco.EventLoop.Sync.{NoStray, update_events-NoStray}
use fasco.EventLoop.Update.{Update-Frame, Update-known, update_events-Update}

module _ (k : Kernel) (ndebug : Bool) where
  pub create_eventfd-SameLists :
      (s : k.State) → OnOk (λ r. SameLists k s r.0) (create_eventfd k ndebug s)
  unfolding create_eventfd
  create_eventfd-SameLists s = by_sign (is_neg (k.eventfd s).1)
    where
      by_sign :
          (b : Bool)
          → OnOk {A = k.State × ℤ}
              (λ r. SameLists k s r.0)
              (if b then fault aborted else ok (k.eventfd s))
      by_sign true = tt
      by_sign false = k.eventfd_interest s

  -- What a loop is as its constructor leaves it: it knows its wake object at most, the kernel watches
  -- nothing else for it, and no other epoll instance and no other object was touched.
  pub record Started (p : ℕ) (tid : ℤ) (heap : Heap) (sys : k.State) (v : World k) : Type 0 where
    pub tid_ : v.loop.tid ≡ tid
    pub instance_ : v.loop.poll.epoll_fd ≡ (k.epoll_create sys).1
    pub stray : NoStray k v
    pub own : (j : ℤ) (q : ℕ) → known k v j ≡ some q → ((v.heap q).fd ≡ j) × ((v.heap q).tid ≡ tid)
    pub objects : (q : ℕ) → q ≢ p → v.heap q ≡ heap q
    pub lists : (e j : ℤ) → e ≢ (k.epoll_create sys).1 → k.interest v.sys e j ≡ k.interest sys e j

  -- The loop that the constructor hands to updateEvents.
  abbrev pub bare : ℕ → ℤ → ℤ → Heap → k.State → k.State → McoPool → World k
  bare p tid wake_fd heap sys sys' pool = record {
    loop = record {
      poll = (Epoll.init k sys).0;
      poll_delta = 200;
      events = [];
      tid = tid;
      quit_ = false;
      wake_fd = wake_fd;
      wake_event = p;
    };
    heap = put heap p (set_type event_type_event (make wake_fd k_read_event tid));
    sys = sys';
    pool = pool;
  }

  pub create-lists :
      (sys sys' : k.State) (e j : ℤ)
      → SameLists k (Epoll.init k sys).1 sys'
      → k.interest sys' e j ≡ (if (k.epoll_create sys).1 == e then none else k.interest sys e j)
  unfolding Epoll.init
  create-lists sys sys' e j same = same e j ∙ k.create_effect sys e j

  nothing : (j : ℤ) (q : ℕ) → find {V = ℕ} j [] ≢ some q
  unfolding find
  nothing j q e = absurd (cc)

  bare-Started :
      (p : ℕ) (tid wake_fd : ℤ) (heap : Heap) (sys sys' : k.State) (pool : McoPool) (v : World k)
      (b : Bool)
      → SameLists k (Epoll.init k sys).1 sys'
      → update_events k ndebug p (bare p tid wake_fd heap sys sys' pool) ≡ ok (v, b)
      → Started p tid heap sys v
  unfolding Epoll.init make
  bare-Started p tid wake_fd heap sys sys' pool v b same h =
      let u = bare p tid wake_fd heap sys sys' pool in
      let up = update_events-Update k ndebug p u v b h in
      let frame = Update-Frame k ndebug p u v b up in
      let here : u.heap p ≡ set_type event_type_event (make wake_fd k_read_event tid) =
        rw ((nat_beq_iff p p).1 refl) in
      record {
        tid_ = ap (λ l. l.tid) frame.2;
        instance_ = ap (λ l. l.poll.epoll_fd) frame.2;
        stray = update_events-NoStray k ndebug p u v b h (λ j n.
            create-lists sys sys' (k.epoll_create sys).1 j same
            ∙ simp ((int_beq_iff (k.epoll_create sys).1 (k.epoll_create sys).1).1 refl) refl);
        own = λ j q e. elim (Update-known k ndebug p u v b j q up e) [
          | inl old ↦ absurd (nothing j q old)
          | inr (fd, new) ↦ rw (frame.0, new) (fd, ap (λ x. x.tid) here)
        ];
        objects = λ q n. rw frame.0 (ground (arith, nat_beq_iff p q));
        lists = λ e j n.
            update_events-Elsewhere k ndebug p u v b h e j n
            ∙ create-lists sys sys' e j same
            ∙ ground (arith, int_beq_iff (k.epoll_create sys).1 e);
      }

  pub init-Started :
      (p : ℕ) (tid : ℤ) (heap : Heap) (sys : k.State) (pool : McoPool) (v : World k) (b : Bool)
      → init k ndebug p tid heap sys pool ≡ ok (v, b)
      → Started p tid heap sys v
  unfolding init
  init-Started p tid heap sys pool v b h =
      let ((sys', wake_fd), e, h') = >>=-eq-ok (create_eventfd k ndebug (Epoll.init k sys).1) _ h in
      bare-Started p tid wake_fd heap sys sys' pool v b
        (OnOk-at (λ r. SameLists k (Epoll.init k sys).1 r.0)
          (create_eventfd k ndebug (Epoll.init k sys).1) e
          (create_eventfd-SameLists (Epoll.init k sys).1))
        h'
