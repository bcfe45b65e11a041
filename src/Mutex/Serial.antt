-- ===== src/Mutex/Serial.antt =====
-- base/MutexLocker.h: what stands under a mutex is one step. However the threads' steps interleave,
-- the shared state is what whole blocks leave, one after the other.
use mathlib.Core.Option.{some-injective}
use fasco.Base.{
  ◌≡◌, refl, ◌≢◌, ◌∙◌, none, some, List, [], ◌∷◌, ◌++◌, if◌then◌else◌, ◌==◌, ap, sym, subst,
  Bool-cases, inl, inr, Option-cases, false,
}
use fasco.Base.Int.{ℤ, int_eq, int_beq_iff}
use fasco.Mutex.{PthreadMutex, Mutex, lock, locker, unlocker, unlock}
use fasco.Mutex.Blocks.{
  Block, Place, outside, inside, System, run_block, run_all, blocks_of, Step, enters, works, leaves,
  start, Reach, begin, later, at,
}

run_all-snoc :
    {S : Type 0} (done : List (ℤ × Block S)) (t : ℤ) (b : Block S) (s : S)
    → run_all (done ++ (t, b) ∷ []) s ≡ run_block b (run_all done s)
run_all-snoc [] t b s = refl
run_all-snoc ((u, c) ∷ done) t b s = run_all-snoc done t b (run_block c s)

append_assoc : {B : Type 0} (xs ys zs : List B) → (xs ++ ys) ++ zs ≡ xs ++ (ys ++ zs)
append_assoc [] ys zs = refl
append_assoc (x ∷ xs) ys zs = ap (λ l. x ∷ l) (append_assoc xs ys zs)

blocks_of-snoc :
    {B : Type 0} (v t : ℤ) (done : List (ℤ × B)) (b : B)
    → blocks_of v (done ++ (t, b) ∷ []) ≡ blocks_of v done ++ (if t == v then b ∷ [] else [])
blocks_of-snoc v t [] b = refl
blocks_of-snoc v t ((u, c) ∷ done) b = elim (Bool-cases (u == v)) [
  | inl same ↦ simp same (ap (λ l. c ∷ l) (blocks_of-snoc v t done b))
  | inr other ↦ simp other (blocks_of-snoc v t done b)
]

append_nil : {B : Type 0} (xs : List B) → xs ++ [] ≡ xs
append_nil [] = refl
append_nil (x ∷ xs) = ap (λ l. x ∷ l) (append_nil xs)

-- What a place is, read off.
abbrev left : {S : Type 0} → Place S → Block S
left outside = []
left (inside b) = b

differ : (t v : ℤ) → v ≢ t → (t == v) ≡ false
differ t v n = elim (Bool-cases (t == v)) [
  | inl same ↦ absurd (n (sym ((int_beq_iff t v).0 same)))
  | inr other ↦ other
]

differs : (t v : ℤ) → (t == v) ≡ false → t ≢ v
differs t v other e = absurd (cc (other, (int_beq_iff t v).1 e))

module _ (api : PthreadMutex) (S : Type 0) where
  at-here : {A : Type 0} (t : ℤ) (a : A) (f : ℤ → A) → at api S t a f t ≡ a
  at-here t a f = simp ((int_beq_iff t t).1 refl) refl

  at-other : {A : Type 0} (t v : ℤ) (a : A) (f : ℤ → A) → (t == v) ≡ false → at api S t a f v ≡ f v
  at-other t v a f n = simp n refl

  locked_at :
      (t : ℤ) (m m' : Mutex api)
      → locker api t m ≡ some m'
      → api.pthread_lock m.mutex_ t ≡ some m'.mutex_
  unfolding locker lock
  locked_at t m m' e = elim (Option-cases (api.pthread_lock m.mutex_ t)) [
    | inl waits ↦ absurd (cc (waits, e))
    | inr (s, returns) ↦
        let same : record { mutex_ = s } ≡ m' =
          some-injective _ _ (simp (returns, locker, lock) at e) in
        returns ∙ ap (λ (x : Mutex api). some x.mutex_) same
  ]

  module _ (s : S) (program : ℤ → List (Block S)) where
    -- The blocks that were entered, and those to come, are the thread's, in its order.
    abbrev pub Accounted : List (ℤ × Block S) → System api S → Type 0
    Accounted done x = (t : ℤ) → blocks_of t done ++ x.todo t ≡ program t

    data Inv (x : System api S) : Type 0 where
      free :
          (done : List (ℤ × Block S))
          → api.owner x.mutex.mutex_ ≡ none
          → ((t : ℤ) → x.place t ≡ outside)
          → x.shared ≡ run_all done s
          → Accounted done x
          → Inv x
      taken :
          (done : List (ℤ × Block S)) (u : ℤ) (rest : Block S)
          → api.owner x.mutex.mutex_ ≡ some u
          → x.place u ≡ inside rest
          → ((t : ℤ) → t ≢ u → x.place t ≡ outside)
          → run_block rest x.shared ≡ run_all done s
          → Accounted done x
          → Inv x

    Inv-start : Inv (start api S s program)
    Inv-start = free [] api.initially_free (λ t. refl) refl (λ t. refl)

    enter :
        (x : System api S) (t : ℤ) (b : Block S) (bs : List (Block S)) (m : Mutex api)
        → x.todo t ≡ b ∷ bs
        → locker api t x.mutex ≡ some m
        → Inv x
        → Inv (record x {
          mutex = m;
          place = at api S t (inside b) x.place;
          todo = at api S t bs x.todo;
        })
    enter x t b bs m next took (taken done u rest own in_ out run acc) =
        absurd (cc (api.lock_waits x.mutex.mutex_ t u own, locked_at t x.mutex m took))
    enter x t b bs m next took (free done own out run acc) =
        taken (done ++ (t, b) ∷ []) t b
          (api.lock_takes x.mutex.mutex_ m.mutex_ t (locked_at t x.mutex m took))
          (at-here t (inside b) x.place)
          (λ v n. at-other t v (inside b) x.place (differ t v n) ∙ out v)
          (ap (run_block b) run ∙ sym (run_all-snoc done t b s))
          (λ v. elim (Bool-cases (t == v)) [
            | inl same ↦
                let at_ = (int_beq_iff t v).0 same in
                ap (λ l. l ++ at api S t bs x.todo v) (blocks_of-snoc v t done b)
                ∙ simp same (
                    append_assoc (blocks_of v done) (b ∷ []) bs
                    ∙ ap (λ l. blocks_of v done ++ l) (sym next ∙ ap x.todo at_))
                ∙ acc v
            | inr other ↦
                ap (λ l. l ++ at api S t bs x.todo v) (blocks_of-snoc v t done b)
                ∙ simp other (ap (λ l. l ++ x.todo v) (append_nil (blocks_of v done)))
                ∙ acc v
          ])

    work :
        (x : System api S) (t : ℤ) (f : S → S) (fs : Block S)
        → x.place t ≡ inside (f ∷ fs)
        → Inv x
        → Inv (record x { shared = f x.shared; place = at api S t (inside fs) x.place })
    work x t f fs here (free done own out run acc) = let outer = out t in absurd (cc (here, outer))
    work x t f fs here (taken done u rest own in_ out run acc) = elim (Bool-cases (t == u)) [
      | inl same ↦
          let at_ = (int_beq_iff t u).0 same in
          let rest_ : rest ≡ f ∷ fs = ap left (sym in_ ∙ ap x.place (sym at_) ∙ here) in
          taken done u fs own
            (ap (at api S t (inside fs) x.place) (sym at_) ∙ at-here t (inside fs) x.place)
            (λ v n. at-other t v (inside fs) x.place (differ t v (λ e. n (e ∙ at_))) ∙ out v n)
            (ap (λ b. run_block b x.shared) (sym rest_) ∙ run) acc
      | inr other ↦ let outer = out t (differs t u other) in absurd (cc (here, outer))
    ]

    leave :
        (x : System api S) (t : ℤ)
        → x.place t ≡ inside []
        → Inv x
        → Inv (record x { mutex = unlocker api x.mutex; place = at api S t outside x.place })
    unfolding unlocker unlock
    leave x t here (free done own out run acc) = let outer = out t in absurd (cc (here, outer))
    leave x t here (taken done u rest own in_ out run acc) = elim (Bool-cases (t == u)) [
      | inl same ↦
          let at_ = (int_beq_iff t u).0 same in
          let rest_ : rest ≡ [] = ap left (sym in_ ∙ ap x.place (sym at_) ∙ here) in
          free done (api.unlock_frees x.mutex.mutex_ u own)
            (λ v. elim (Bool-cases (t == v)) [
              | inl gone ↦ simp gone refl
              | inr stays ↦ simp stays (out v (λ e. differs t v stays (at_ ∙ sym e)))
            ])
            (ap (λ b. run_block b x.shared) (sym rest_) ∙ run) acc
      | inr other ↦ let outer = out t (differs t u other) in absurd (cc (here, outer))
    ]

    Step-Inv : (x y : System api S) → Step api S x y → Inv x → Inv y
    Step-Inv x y (enters t b bs m away next took e) h =
        subst Inv (sym e) (enter x t b bs m next took h)
    Step-Inv x y (works t f fs here e) h = subst Inv (sym e) (work x t f fs here h)
    Step-Inv x y (leaves t here e) h = subst Inv (sym e) (leave x t here h)

    Reach-Inv : (x : System api S) → Reach api S s program x → Inv x
    Reach-Inv x begin = Inv-start
    Reach-Inv y (later {x} before step) = Step-Inv x y step (Reach-Inv x before)

    -- Threads whose blocks stand under one mutex, however their steps interleave. Whenever the mutex is
    -- free, the shared state is what whole blocks leave that run one after the other, in an order in
    -- which each thread's blocks are those that it has entered, in the order of its program.
    pub Reach-serial :
        (x : System api S)
        → Reach api S s program x
        → api.owner x.mutex.mutex_ ≡ none
        → (done : List (ℤ × Block S)) × (x.shared ≡ run_all done s) × Accounted done x
    Reach-serial x r unowned = serial (Reach-Inv x r)
      where
        serial :
            Inv x → (done : List (ℤ × Block S)) × (x.shared ≡ run_all done s) × Accounted done x
        serial (free done own out run acc) = (done, run, acc)
        serial (taken done u rest own in_ out run acc) = absurd (cc (own, unowned))

    -- No two threads are in a block, and one that is has the mutex.
    pub Reach-excludes :
        (x : System api S) (t u : ℤ) (a b : Block S)
        → Reach api S s program x
        → x.place t ≡ inside a
        → x.place u ≡ inside b
        → (t ≡ u) × (api.owner x.mutex.mutex_ ≡ some t)
    Reach-excludes x t u a b r in_t in_u = alone (Reach-Inv x r)
      where
        is_holder :
            (v w : ℤ) (c : Block S)
            → ((i : ℤ) → i ≢ w → x.place i ≡ outside)
            → x.place v ≡ inside c
            → v ≡ w
        is_holder v w c out in_ = elim (Bool-cases (v == w)) [
          | inl same ↦ (int_beq_iff v w).0 same
          | inr other ↦ let outer = out v (differs v w other) in absurd (cc (in_, outer))
        ]

        alone : Inv x → (t ≡ u) × (api.owner x.mutex.mutex_ ≡ some t)
        alone (free done own out run acc) = let outer = out t in absurd (cc (in_t, outer))
        alone (taken done h rest own in_ out run acc) =
            let th = is_holder t h a out in_t in
            (th ∙ sym (is_holder u h b out in_u), own ∙ ap some (sym th))
