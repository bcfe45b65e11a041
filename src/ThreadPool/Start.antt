-- ===== src/ThreadPool/Start.antt =====
-- base/ThreadPool.cpp: what `start` leaves to the destructor.
use fasco.Base.{
  ℕ, zero, suc, ◌+◌, ◌≡◌, refl, ◌≢◌, inl, inr, Bool, true, false, not, List, [], ◌∷◌, ◌++◌, map,
  length, ◌==◌, nat_beq, Bool-cases, arith, ap, subst,
}
use fasco.Base.Int.{pos, int_eq, int_beq_iff}
use fasco.Base.Outcome.{ok, assert_that, assert_holds}
use fasco.Thread
use fasco.Thread.{Thread, Pthreads}
use fasco.ThreadPool.{ThreadPool, replicate, start, start_threads, join_threads, destroy}

module _ {S : Type 0} (api : Pthreads S) where
  -- pthread_join of each id, in order.
  unfoldable pub join_ids : List ℕ → S → S
  join_ids [] s = s
  join_ids (id ∷ ids) s = join_ids ids (api.join s id).0

  -- pthread_create of one thread after the other, each without error: the ids that they get.
  pub data Created (t : Thread) : S → List ℕ → S → Type 0 where
    nothing : {s : S} → Created t s [] s
    another :
        {s s' : S} {ids : List ℕ}
        → (api.create s t).2 ≡ pos 0
        → Created t (api.create s t).0 ids s'
        → Created t s ((api.create s t).1 ∷ ids) s'

  -- How a start of `n` threads comes out: all run, or the first one that cannot be created has
  -- whatever id the call left, and those behind it have the id 0.
  pub data Launch (t : Thread) (n : ℕ) (s s' : S) : List ℕ → Bool → Type 0 where
    all_run : {ids : List ℕ} → Created t s ids s' → length ids ≡ n → Launch t n s s' ids true
    some_run :
        {s₁ : S} {ids : List ℕ} (idle : ℕ)
        → Created t s ids s₁
        → (api.create s₁ t).2 ≢ pos 0
        → s' ≡ (api.create s₁ t).0
        → length ids + suc idle ≡ n
        → Launch t n s s' (ids ++ (api.create s₁ t).1 ∷ replicate idle t.thread_id) false

  join_threads_lem :
      (ts : List Thread) (s : S) → join_threads api ts s ≡ join_ids (map (λ t. t.thread_id) ts) s
  unfolding join_threads join_ids Thread.join
  join_threads_lem [] s = refl
  join_threads_lem (t ∷ ts) s = join_threads_lem ts (api.join s t.thread_id).0

  ids_of_replicate :
      (n : ℕ) (t : Thread) → map (λ t. t.thread_id) (replicate n t) ≡ replicate n t.thread_id
  ids_of_replicate zero t = refl
  ids_of_replicate (suc n) t = ap (λ ids. t.thread_id ∷ ids) (ids_of_replicate n t)

  Launch-another :
      (t : Thread) (n : ℕ) (s s' : S) (ids : List ℕ) (b : Bool)
      → (api.create s t).2 ≡ pos 0
      → Launch t n (api.create s t).0 s' ids b
      → Launch t (suc n) s s' ((api.create s t).1 ∷ ids) b
  Launch-another t n s s' ids b e (all_run c l) = all_run (another e c) (omega (arith, l))
  Launch-another t n s s' ids b e (some_run idle c f last l) =
      some_run idle (another e c) f last (omega (arith, l))

  same_test : (c n : ℕ) → nat_beq c n ≡ nat_beq (suc c) (suc n)
  same_test c n = ground arith

  too_few : (n : ℕ) → false ≡ nat_beq 0 (suc n)
  too_few n = ground arith

  launches :
      (t : Thread) (n : ℕ) (s : S)
      → let r = start_threads api (replicate n t) s in
        Launch t n s r.0 (map (λ t. t.thread_id) r.1) (nat_beq r.2 n)
  unfolding start_threads Thread.start
  launches t zero s = all_run nothing refl
  launches t (suc n) s = elim (Bool-cases ((api.create s t).2 == pos 0)) [
    | inl made ↦
        let e = (int_beq_iff (api.create s t).2 (pos 0)).0 made in
        let r = start_threads api (replicate n t) (api.create s t).0 in
        simp made (
          Launch-another t n s r.0 (map (λ t. t.thread_id) r.1) (nat_beq (suc r.2) (suc n)) e (
            subst (Launch t n (api.create s t).0 r.0 (map (λ t. t.thread_id) r.1)) (same_test r.2 n)
              (launches t n (api.create s t).0)))
    | inr failed ↦
        let e : (api.create s t).2 ≢ pos 0 =
          λ z. absurd (cc ((int_beq_iff (api.create s t).2 (pos 0)).1 z, failed)) in
        let ids = (api.create s t).1 ∷ replicate n t.thread_id in
        simp (failed, ids_of_replicate n t)
          (subst (Launch t (suc n) s (api.create s t).0 ids) (too_few n)
            (some_run n nothing e refl (omega arith)))
  ]

  -- start, in the owner's thread, of a pool that was not started comes back without a fault. It says
  -- true exactly when all the threads could be created; else it stops at the first one that could
  -- not. The pool counts as started in both cases, and its destructor joins every thread in order:
  -- those that run, then the id that the failed call left, then the id 0 for each thread that was
  -- not tried.
  pub start-destroy :
      (ndebug : Bool) (p : ThreadPool) (n : ℕ) (s : S)
      → p.started ≡ false
      → p.threads ≡ []
      → p.thread_num ≡ pos n
      → (s' : S) × (p' : ThreadPool) × (ids : List ℕ) × (b : Bool) × (start api ndebug p.tid p s
          ≡ ok (s', p', b))
        × Launch (Thread.make p.thread_func []) n s s' ids b
        × ((u : S) → destroy api p' u ≡ join_ids ids u)
  unfolding start destroy
  start-destroy ndebug p n s idle none_ num =
      let t = Thread.make p.thread_func [] in
      let r = start_threads api (replicate n t) s in
      let owner : assert_that ndebug (p.tid == p.tid) ≡ ok tt =
        assert_holds ndebug _ ((int_beq_iff p.tid p.tid).1 refl) in
      let fresh : assert_that ndebug (not p.started) ≡ ok tt =
        assert_holds ndebug _ (rw idle refl) in
      (
        r.0,
        record p { threads = r.1; started = true },
        map (λ t. t.thread_id) r.1,
        nat_beq r.2 n,
        simp (owner, fresh, none_, num) refl,
        launches t n s,
        λ u. join_threads_lem r.1 u,
      )
