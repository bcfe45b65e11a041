-- ===== src/EventLoop/Step.antt =====
-- What each branch of pollUpdate leaves in `events_` and in the kernel's interest list.
use fasco.Base.{
  ℕ, ◌≡◌, refl, ◌≢◌, Bool, true, false, not, ◌&&◌, Option, none, some, is_some, if◌then◌else◌, ◌==◌,
  ap, sym, ◌∙◌, inl, inr, ◌⊎◌, Bool-cases,
}
use fasco.Base.Int.{ℤ, int_eq}
use fasco.Base.Map.{Map, find, assign, erase, find-assign, find-erase}
use fasco.Base.Outcome.{ok, ◌>>=◌, assert_that, >>=-eq-ok, ok-injective}
use fasco.Kernel.{Kernel}
use fasco.Epoll.{events_add, events_mod, events_del}
use fasco.Epoll.Interest.{events_add-interest, events_mod-interest, events_del-interest}
use fasco.EventLoop.{World, keep, polled, poll_new, poll_mod, poll_del, assert_erase}

module _ (k : Kernel) where
  -- The object that the loop holds for a descriptor.
  abbrev pub known : World k → ℤ → Option ℕ
  known w j = find j w.loop.events

  -- The mask under which the loop's epoll instance watches a descriptor.
  abbrev pub watches : World k → ℤ → Option ℕ
  watches w j = k.interest w.sys w.loop.poll.epoll_fd j

  -- Only `events_` and the kernel's state may differ.
  abbrev pub Frame : World k → World k → Type 0
  Frame w w' =
      (w'.heap ≡ w.heap)
      × (w'.pool ≡ w.pool)
      × (w'.loop ≡ record (w.loop) { events = w'.loop.events })

module _ (k : Kernel) (ndebug : Bool) (p : ℕ) (w w' : World k) (b : Bool) where
  -- The object goes into the loop, and into the kernel's list if the kernel takes it.
  pub record Added : Type 0 where
    pub frame : Frame k w w'
    pub knows : (j : ℤ) → known k w' j ≡ (if (w.heap p).fd == j then some p else known k w j)
    pub watched :
        (j : ℤ)
        → watches k w' j
          ≡ (if b && (w.heap p).fd == j then some (w.heap p).eorigin else watches k w j)
    pub was_new : b ≡ true → watches k w (w.heap p).fd ≡ none

  -- The mask changes, if the kernel takes it.
  pub record Modified : Type 0 where
    pub frame : Frame k w w'
    pub knows : (j : ℤ) → known k w' j ≡ known k w j
    pub watched :
        (j : ℤ)
        → watches k w' j
          ≡ (if b && (w.heap p).fd == j then some (w.heap p).eorigin else watches k w j)
    pub was_there : b ≡ true → watches k w (w.heap p).fd ≢ none

  -- The descriptor is off the kernel's list; it is out of the loop if asserts are evaluated.
  pub record Deleted : Type 0 where
    pub frame : Frame k w w'
    pub knows :
        (j : ℤ) → known k w' j ≡ (if not ndebug && (w.heap p).fd == j then none else known k w j)
    pub watched : (j : ℤ) → watches k w' j ≡ (if (w.heap p).fd == j then none else watches k w j)
    pub result : b ≡ true

module _ (k : Kernel) (ndebug : Bool) (p : ℕ) (w w' : World k) (b : Bool) where
  added_of :
      (events_add k ndebug w.loop.poll (w.heap p) w.sys
          >>= polled k (keep k w (assign (w.heap p).fd p w.loop.events)))
        ≡ ok (w', b)
      → Added k ndebug p w w' b
  added_of h =
      let ((s, c), added, e) = >>=-eq-ok (events_add k ndebug w.loop.poll (w.heap p) w.sys) _ h in
      let (watched, was_new) =
        events_add-interest k ndebug w.loop.poll (w.heap p) w.sys s c added in
      let ew = ap (λ r. r.0) (ok-injective e) in
      let eb = ap (λ r. r.1) (ok-injective e) in
      rw (← ew, ← eb)
        (record {
          frame = (refl, refl, refl);
          knows = λ j. find-assign (w.heap p).fd j p w.loop.events;
          watched = watched;
          was_new = was_new;
        })

  pub poll_new-Added : poll_new k ndebug p w ≡ ok (w', b) → Added k ndebug p w w' b
  unfolding poll_new
  poll_new-Added h =
      let (_, _, rest) =
        >>=-eq-ok (assert_that ndebug (not (is_some (find (w.heap p).fd w.loop.events)))) _ h in
      added_of rest

  pub poll_mod-cases :
      poll_mod k ndebug p w ≡ ok (w', b)
      → (is_some (known k w (w.heap p).fd) ≡ false) × Added k ndebug p w w' b
        ⊎ (is_some (known k w (w.heap p).fd) ≡ true) × Modified k ndebug p w w' b
  unfolding poll_mod
  poll_mod-cases h = elim (Bool-cases (is_some (known k w (w.heap p).fd))) [
    | inl there ↦ inr (there, modified_of (rw there at h))
    | inr not_there ↦ inl (not_there, added_of (rw not_there at h))
  ]
    where
      modified_of :
          (events_mod k ndebug w.loop.poll (w.heap p) w.sys >>= polled k w) ≡ ok (w', b)
          → Modified k ndebug p w w' b
      modified_of g =
          let ((s, c), done, e) =
            >>=-eq-ok (events_mod k ndebug w.loop.poll (w.heap p) w.sys) _ g in
          let (watched, was_there) =
            events_mod-interest k ndebug w.loop.poll (w.heap p) w.sys s c done in
          let ew = ap (λ r. r.0) (ok-injective e) in
          let eb = ap (λ r. r.1) (ok-injective e) in
          rw (← ew, ← eb)
            (record {
              frame = (refl, refl, refl);
              knows = λ j. refl;
              watched = watched;
              was_there = was_there;
            })

module _ (k : Kernel) where
  -- Where `assert(events_.erase(fd))` does not stop the program.
  assert_erase-eq-ok :
      (ndebug : Bool) (fd : ℤ) (w w1 : World k)
      → assert_erase k ndebug fd w ≡ ok w1
      → keep k w (if ndebug then w.loop.events else erase fd w.loop.events) ≡ w1
  unfolding assert_erase
  assert_erase-eq-ok true fd w w1 h = ok-injective h
  assert_erase-eq-ok false fd w w1 h =
      let (_, _, e) = >>=-eq-ok (assert_that false (is_some (find fd w.loop.events))) _ h in
      ok-injective e

  find-kept :
      (ndebug : Bool) (fd j : ℤ) (m : Map ℤ ℕ)
      → find j (if ndebug then m else erase fd m)
        ≡ (if not ndebug && fd == j then none else find j m)
  find-kept true fd j m = refl
  find-kept false fd j m = find-erase fd j m

module _ (k : Kernel) (ndebug : Bool) (p : ℕ) (w w' : World k) (b : Bool) where
  pub poll_del-Deleted : poll_del k ndebug p w ≡ ok (w', b) → Deleted k ndebug p w w' b
  unfolding poll_del
  poll_del-Deleted h =
      let ((s, c), gone, rest) = >>=-eq-ok (events_del k ndebug w.loop.poll (w.heap p) w.sys) _ h in
      let (w1, erased, e) =
        >>=-eq-ok (assert_erase k ndebug (w.heap p).fd (record w { sys = s })) _ rest in
      let watched = events_del-interest k ndebug w.loop.poll (w.heap p) w.sys s c gone in
      let ew =
        assert_erase-eq-ok k ndebug (w.heap p).fd (record w { sys = s }) w1 erased
        ∙ ap (λ r. r.0) (ok-injective e) in
      let eb = ap (λ r. r.1) (ok-injective e) in
      rw (← ew) (record {
        frame = (refl, refl, refl);
        knows = λ j. find-kept k ndebug (w.heap p).fd j w.loop.events;
        watched = watched;
        result = sym eb;
      })
