-- ===== src/EventLoop/Made.antt =====
-- base/EventLoop.cpp: a loop from its constructor on to the end of its run.
use fasco.Base.{
  ℕ, ◌≡◌, refl, ◌≢◌, ◌∙◌, Bool, false, none, some, nat_beq_iff, ap, sym, arith, if◌then◌else◌, ◌==◌,
  ◌&&◌,
}
use fasco.Base.Int.{ℤ, int_eq, is_neg, int_beq_iff, minus_one}
use fasco.Base.Map.{find}
use fasco.Base.Outcome.{Outcome, ok, Safe}
use fasco.Events.{Heap, State, make, set_type, k_read_event, event_type_event}
use fasco.Kernel.{Kernel}
use fasco.McoPool.{McoPool}
use fasco.Epoll
use fasco.EventLoop.{World, create_eventfd, init, update_events, loop}
use fasco.EventLoop.Run.{Inv, Ended, loop-Ended}
use fasco.EventLoop.Start.{bare, create-lists}
use fasco.EventLoop.Step.{known, watches, Added}
use fasco.EventLoop.Sync.{update_events-NoStray}
use fasco.EventLoop.Total.{update_events_returns}
use fasco.EventLoop.Update.{Update, refused, idle, added, modified, deleted, update_events-Update}

module _ (k : Kernel) (ndebug : Bool) where
  new-Added :
      (p : ℕ) (w w' : World k) (b : Bool)
      → (w.heap p).state ≡ State.new
      → Update k ndebug p w w' b
      → Added k ndebug p w w' b
  new-Added p w w' b n (refused e _ _) = absurd (cc (n, e))
  new-Added p w w' b n (idle e _ _ _ _) = absurd (cc (n, e))
  new-Added p w w' b n (added _ a) = a
  new-Added p w w' b n (modified e _ _) = absurd (cc (n, e))
  new-Added p w w' b n (deleted e _) = absurd (cc (n, e))

  -- The kernel once the constructor has its two descriptors, and the eventfd.
  abbrev pub eventfd_of : k.State → k.State × ℤ
  eventfd_of sys = k.eventfd (k.epoll_create sys).0

  -- The loop that the constructor leaves.
  pub record Made (p : ℕ) (tid : ℤ) (sys : k.State) (v : World k) (b : Bool) : Type 0 where
    pub thread : v.loop.tid ≡ tid
    pub epoll : v.loop.poll ≡ (Epoll.init k sys).0
    pub eventfd : v.loop.wake_fd ≡ (eventfd_of sys).1
    pub runs : v.loop.quit_ ≡ false
    pub knows : (j : ℤ) → known k v j ≡ (if (eventfd_of sys).1 == j then some p else none)
    pub watched :
        (j : ℤ) → watches k v j ≡ (if b && (eventfd_of sys).1 == j then some k_read_event else none)

  unknown :
      (p : ℕ) (tid wake_fd : ℤ) (heap : Heap) (sys sys' : k.State) (pool : McoPool) (j : ℤ)
      → known k (bare k ndebug p tid wake_fd heap sys sys' pool) j ≡ none
  unfolding find
  unknown p tid wake_fd heap sys sys' pool j = refl

  init-update :
      (p : ℕ) (tid : ℤ) (heap : Heap) (sys : k.State) (pool : McoPool)
      → is_neg (eventfd_of sys).1 ≡ false
      → init k ndebug p tid heap sys pool
        ≡ update_events k ndebug p
            (bare k ndebug p tid (eventfd_of sys).1 heap sys (eventfd_of sys).0 pool)
  unfolding init Epoll.init create_eventfd
  init-update p tid heap sys pool e = simp e refl

  module _ (p : ℕ) (tid : ℤ) (heap : Heap) (sys : k.State) (pool : McoPool) where
    -- The world that the constructor hands to updateEvents.
    abbrev start_world : World k
    start_world = bare k ndebug p tid (eventfd_of sys).1 heap sys (eventfd_of sys).0 pool

    wake_object :
        start_world.heap p ≡ set_type event_type_event (make (eventfd_of sys).1 k_read_event tid)
    wake_object = rw ((nat_beq_iff p p).1 refl)

    unwatched : (j : ℤ) → watches k start_world j ≡ none
    unfolding Epoll.init
    unwatched j =
        create-lists k ndebug sys (eventfd_of sys).0 (k.epoll_create sys).1 j
          (λ e i. k.eventfd_interest (k.epoll_create sys).0 e i)
        ∙ simp ((int_beq_iff (k.epoll_create sys).1 (k.epoll_create sys).1).1 refl) refl

    update-Made :
        (v : World k) (b : Bool)
        → update_events k ndebug p start_world ≡ ok (v, b)
        → Made p tid sys v b
    unfolding make
    update-Made v b h =
        let fd : (start_world.heap p).fd ≡ (eventfd_of sys).1 = ap (λ e. e.fd) wake_object in
        let mask : (start_world.heap p).eorigin ≡ k_read_event = ap (λ e. e.eorigin) wake_object in
        let a =
          new-Added p start_world v b (ap (λ e. e.state) wake_object)
            (update_events-Update k ndebug p start_world v b h) in
        let same = a.frame.2 in
        record {
          thread = ap (λ l. l.tid) same;
          epoll = ap (λ l. l.poll) same;
          eventfd = ap (λ l. l.wake_fd) same;
          runs = ap (λ l. l.quit_) same;
          knows = λ j.
              a.knows j
              ∙ rw (fd, unknown p tid (eventfd_of sys).1 heap sys (eventfd_of sys).0 pool j) refl;
          watched = λ j. a.watched j ∙ rw (fd, mask, unwatched j) refl;
        }

    Made-Inv : (v : World k) (b : Bool) → update_events k ndebug p start_world ≡ ok (v, b) → Inv k v
    unfolding Epoll.init
    Made-Inv v b h = record {
      sized =
          rw (update-Made v b h).epoll
            (record { room = omega arith; first_room = omega arith; step = refl });
      no_stray = update_events-NoStray k ndebug p start_world v b h (λ j n. unwatched j);
    }

    -- Where epoll_create gives a descriptor other than -1 and eventfd one that is not below 0, the
    -- constructor of an EventLoop comes back without a fault, asserts compiled in or not. The loop is
    -- then of the constructing thread and knows the wake object for its eventfd and nothing else; the
    -- kernel watches for it the eventfd for reading, if it took the request, and nothing else. Run by
    -- that thread, with coroutines that do not fault and keep room in its buffer and the kernel
    -- watching nothing but what the loop knows, it does not fault either, and returns only when
    -- `quit_` is set.
    pub init-Made :
        (resume : ℕ → World k → Outcome (World k))
        (keeps : (m : ℕ) (w : World k) → Inv k w → Safe (Inv k) (resume m w))
        → (k.epoll_create sys).1 ≢ minus_one
        → is_neg (eventfd_of sys).1 ≡ false
        → (v : World k) × (b : Bool) × (init k ndebug p tid heap sys pool ≡ ok (v, b))
          × Made p tid sys v b
          × ((fuel tries : ℕ) → Safe (Ended k resume keeps) (loop k resume ndebug tid fuel tries v))
    unfolding Epoll.init make
    init-Made resume keeps open_ there =
        let (v, b, e) =
          update_events_returns k ndebug p start_world open_
            (λ n. unknown p tid (eventfd_of sys).1 heap sys (eventfd_of sys).0 pool _)
            (λ d. absurd (cc (d, ap (λ e. e.state) wake_object))) in
        (
          v,
          b,
          init-update p tid heap sys pool there ∙ e,
          update-Made v b e,
          λ fuel tries.
              loop-Ended k resume keeps ndebug tid fuel tries v (sym (update-Made v b e).thread)
                (Made-Inv v b e),
        )
