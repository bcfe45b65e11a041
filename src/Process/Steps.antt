-- ===== src/Process/Steps.antt =====
-- The ways in which a thread changes the process, each of which keeps its loops sound.
use fasco.Base.{
  ℕ, ◌≡◌, refl, ◌∙◌, Bool, false, none, some, inl, inr, ◌⊎◌, Bool-cases, nat_beq, nat_beq_iff, ap,
  sym, Option, length,
}
use fasco.Base.Int.{ℤ, int_eq}
use fasco.Base.Outcome.{Outcome, ok, ◌>>=◌, OnOk, OnOk-each, OnOk-bind, OnOk-then, assert_that}
use fasco.Events.{Events, Heap, put, State, set_state}
use fasco.Kernel.{Kernel}
use fasco.McoPool.{McoPool}
use fasco.EventLoopPool.{get_loop, get_next_loop}
use fasco.Process.{
  Process, put_event, loop_update, update_loop_events, update_registered, remove_event_from_loop,
  remove_registered,
}
use fasco.Process.Sound.{Live, Fresh, Sound, Quiet, Quiet-Sound}
use fasco.Process.Updates.{loop_update-Sound}

-- What a change of an object must leave of it, for the loops that know it.
abbrev pub SameHome : Events → Events → Type 0
SameHome e e' = (e'.fd ≡ e.fd) × (e'.tid ≡ e.tid)

pub put-SameHome :
    (p : ℕ) (e : Events) (h : Heap) → SameHome (h p) e → (q : ℕ) → SameHome (h q) (put h p e q)
put-SameHome p e h home q = elim (Bool-cases (nat_beq p q)) [
  | inl same ↦
      let at_ = (nat_beq_iff p q).0 same in
      simp same (home.0 ∙ ap (λ x. (h x).fd) at_, home.1 ∙ ap (λ x. (h x).tid) at_)
  | inr other ↦ simp other (refl, refl)
]

module _ (k : Kernel) where
  put_event-Quiet :
      (p : ℕ) (e : Events) (w : Process k)
      → Fresh k w p ⊎ SameHome (w.heap p) e
      → Quiet k w (put_event k p e w)
  put_event-Quiet p e w f = record {
    tids = λ a live. refl;
    instances = λ a live. refl;
    events = λ a live. refl;
    threads = refl;
    turns = refl;
    first = refl;
    objects = λ l j q live h. elim f [
      | inl fresh ↦ elim (Bool-cases (nat_beq p q)) [
        | inl same ↦ absurd (fresh l j live (h ∙ ap some (sym ((nat_beq_iff p q).0 same))))
        | inr other ↦ simp other (refl, refl)
      ]
      | inr home ↦ put-SameHome p e w.heap home q
    ];
    lists = λ a j live. inl refl;
  }

  -- An object is made, or it is changed and keeps its descriptor and its thread.
  pub put_event-Sound :
      (p : ℕ) (e : Events) (w : Process k)
      → Fresh k w p ⊎ SameHome (w.heap p) e
      → Sound k w
      → Sound k (put_event k p e w)
  put_event-Sound p e w f = Quiet-Sound k w (put_event k p e w) (put_event-Quiet p e w f)

  -- The kernel's state changes, and at most gives up something that it watched.
  pub put_sys-Sound :
      (s : k.State) (w : Process k)
      → ((e j : ℤ) → (k.interest s e j ≡ k.interest w.sys e j) ⊎ (k.interest s e j ≡ none))
      → Sound k w
      → Sound k (record w { sys = s })
  put_sys-Sound s w lists =
      Quiet-Sound k w (record w { sys = s })
        (record {
          tids = λ a live. refl;
          instances = λ a live. refl;
          events = λ a live. refl;
          threads = refl;
          turns = refl;
          first = refl;
          objects = λ l j p live h. (refl, refl);
          lists = λ a j live. lists (w.loops a).poll.epoll_fd j;
        })

  -- Neither the coroutines of a thread nor whose turn it is matters.
  pub put_pools-Sound :
      (pools : ℤ → McoPool) (w : Process k) → Sound k w → Sound k (record w { pools = pools })
  put_pools-Sound pools w =
      Quiet-Sound k w (record w { pools = pools })
        (record {
          tids = λ a live. refl;
          instances = λ a live. refl;
          events = λ a live. refl;
          threads = refl;
          turns = refl;
          first = refl;
          objects = λ l j p live h. (refl, refl);
          lists = λ a j live. inl refl;
        })

  put_next-Sound :
      (n : ℕ) (w : Process k)
      → Sound k w
      → Sound k (record w { registry = record (w.registry) { next = n } })
  put_next-Sound n w =
      Quiet-Sound k w (record w { registry = record (w.registry) { next = n } })
        (record {
          tids = λ a live. refl;
          instances = λ a live. refl;
          events = λ a live. refl;
          threads = refl;
          turns = refl;
          first = refl;
          objects = λ l j p live h. (refl, refl);
          lists = λ a j live. inl refl;
        })

  -- The loop whose turn it is, is registered; no loop learns of an object by it.
  pub get_next_loop-Sound :
      (w : Process k)
      → Sound k w
      → let r = get_next_loop w.registry in
        let w₀ = record w { registry = r.0 } in
        Sound k w₀ × ((l : ℕ) → r.1 ≡ some l → Live k w₀ l) × ((p : ℕ) → Fresh k w p → Fresh k w₀ p)
  unfolding get_next_loop get_loop
  get_next_loop-Sound w s = elim (Bool-cases (nat_beq (length w.registry.next_loops) 0)) [
    | inl none_ ↦ simp none_ (s, s.main, λ p h. h)
    | inr some_ ↦ simp some_ (put_next-Sound _ w s, s.in_turn _, λ p h. h)
  ]

module _ (k : Kernel) (ndebug : Bool) where
  update_at-Sound :
      (found : Option ℕ) (p : ℕ) (w : Process k)
      → get_loop (w.heap p).tid w.registry ≡ found
      → Sound k w
      → OnOk (λ r. Sound k r.0) (update_registered k ndebug found p w)
  unfolding update_registered
  update_at-Sound none p w e s = s
  update_at-Sound (some l) p w e s =
      let home = s.home (w.heap p).tid l e in
      OnOk-each {P = λ r. Sound k r.0} (loop_update k ndebug l p w) (λ r h.
        loop_update-Sound k ndebug l p w r.0 r.1 h (ap (λ t. get_loop t w.registry) home ∙ e)
          (sym home) s)

  -- UpdateLoopEvents, of any object.
  pub update_loop_events-Sound :
      (p : ℕ) (w : Process k)
      → Sound k w
      → OnOk (λ r. Sound k r.0) (update_loop_events k ndebug p w)
  unfolding update_loop_events
  update_loop_events-Sound p w s = update_at-Sound (get_loop (w.heap p).tid w.registry) p w refl s

  remove_at-Sound :
      (found : Option ℕ) (p : ℕ) (w : Process k)
      → get_loop (w.heap p).tid w.registry ≡ found
      → Sound k w
      → OnOk (λ r. Sound k r.0) (remove_registered k ndebug found p w)
  unfolding remove_registered
  remove_at-Sound none p w e s =
      OnOk-bind {B = Process k × Bool} (λ r. Sound k r.0) (assert_that ndebug false)
        (λ _. ok (w, false)) (λ _. s)
  remove_at-Sound (some l) p w e s =
      let e' = set_state State.del (w.heap p) in
      let w₁ = put_event k p e' w in
      let made : w₁.heap p ≡ e' = rw ((nat_beq_iff p p).1 refl) in
      let s₁ = put_event-Sound k p e' w (inr (refl, refl)) s in
      let home = s.home (w.heap p).tid l e in
      OnOk-each {P = λ r. Sound k r.0} (loop_update k ndebug l p w₁) (λ r h.
        loop_update-Sound k ndebug l p w₁ r.0 r.1 h (ap (λ t. get_loop t w.registry) home ∙ e)
          (ap (λ x. x.tid) made ∙ sym home) s₁)

  -- RemoveEventFromLoop, of any object.
  pub remove_event_from_loop-Sound :
      (p : ℕ) (w : Process k)
      → Sound k w
      → OnOk (λ r. Sound k r.0) (remove_event_from_loop k ndebug p w)
  unfolding remove_event_from_loop
  remove_event_from_loop-Sound p w s =
      remove_at-Sound (get_loop (w.heap p).tid w.registry) p w refl s

module _ (k : Kernel) where
  -- A call that keeps the loops sound, with whatever it returns.
  abbrev pub Keeps : {A : Type 0} → Outcome (Process k × A) → Type 0
  Keeps {A} m = OnOk {A = Process k × A} (λ r. Sound k r.0) m

  pub Keeps-then :
      {A B : Type 0} (m : Outcome (Process k × A)) (f : Process k × A → Outcome (Process k × B))
      → Keeps m
      → ((r : Process k × A) → Sound k r.0 → Keeps (f r))
      → Keeps (m >>= f)
  Keeps-then m f = OnOk-then (λ r. Sound k r.0) (λ r. Sound k r.0) m f
