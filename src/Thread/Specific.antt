-- ===== src/Thread/Specific.antt =====
-- PthreadSpecificData<T> of base/Thread.h: an object of T for each thread, made when the thread first
-- asks. The keys of pthreads are an interface; an object is named by its address, and one that was
-- deleted is `none`.
use fasco.Base.{
  ℕ, suc, ◌≡◌, refl, ◌≢◌, Option, none, some, if◌then◌else◌, nat_beq, Option-cases, inl, inr,
}
use fasco.Base.Int.{ℤ, int_eq}

pub record Keys : Type 1 where
  pub State : Type 0
  -- pthread_key_create(&key, destroy)
  pub key_create : State → State × ℕ
  -- pthread_getspecific(key) in a thread; NULL is `none`.
  pub getspecific : State → ℤ → ℕ → Option ℕ
  pub setspecific : State → ℤ → ℕ → ℕ → State
  pub set_here :
      (s : State) (t : ℤ) (key p : ℕ) → getspecific (setspecific s t key p) t key ≡ some p
  pub set_elsewhere :
      (s : State) (t u : ℤ) (key p : ℕ)
      → t ≢ u
      → getspecific (setspecific s t key p) u key ≡ getspecific s u key

pub record Memory (keys : Keys) (T : Type 0) : Type 0 where
  pub sys : keys.State
  pub objects : ℕ → Option T
  pub fresh : ℕ

module _ (keys : Keys) {T : Type 0} (made : T) where
  -- `PthreadSpecificData()`: its key.
  unfoldable pub make_key : Memory keys T → Memory keys T × ℕ
  make_key m = let r = keys.key_create m.sys in (record m { sys = r.0 }, r.1)

  -- `Data()`, called in thread `t`: the address that the reference stands for.
  unfoldable pub data_of : ℕ → ℤ → Memory keys T → Memory keys T × ℕ
  data_of key t m = elim (keys.getspecific m.sys t key) [
    | none ↦ (
      record {
        sys = keys.setspecific m.sys t key m.fresh;
        objects = λ a. if nat_beq m.fresh a then some made else m.objects a;
        fresh = suc m.fresh;
      },
      m.fresh,
    )
    | some p ↦ (m, p)
  ]

  -- `KeyDataDestroy(data)`
  unfoldable pub key_data_destroy : ℕ → Memory keys T → Memory keys T
  key_data_destroy p m = record m { objects = λ a. if nat_beq p a then none else m.objects a }

  -- The memory with a new object for the thread.
  abbrev grown : ℕ → ℤ → Memory keys T → Memory keys T
  grown key t m = record {
    sys = keys.setspecific m.sys t key m.fresh;
    objects = λ a. if nat_beq m.fresh a then some made else m.objects a;
    fresh = suc m.fresh;
  }

  made_new :
      (key : ℕ) (t : ℤ) (m : Memory keys T)
      → keys.getspecific m.sys t key ≡ none
      → data_of key t m ≡ (grown key t m, m.fresh)
  unfolding data_of
  made_new key t m e = rw (e, data_of) refl

  found :
      (key : ℕ) (t : ℤ) (m : Memory keys T) (p : ℕ)
      → keys.getspecific m.sys t key ≡ some p
      → data_of key t m ≡ (m, p)
  unfolding data_of
  found key t m p e = rw (e, data_of) refl

  -- A thread keeps the object that it was given, and no call of one thread is seen by another.
  pub data_of-twice :
      (key : ℕ) (t : ℤ) (m : Memory keys T)
      → let r = data_of key t m in
        (data_of key t r.0 ≡ r)
        × ((u : ℤ) → t ≢ u → keys.getspecific r.0.sys u key ≡ keys.getspecific m.sys u key)
  data_of-twice key t m = elim (Option-cases (keys.getspecific m.sys t key)) [
    | inl e ↦ rw (made_new key t m e) (
      found key t (grown key t m) m.fresh (keys.set_here m.sys t key m.fresh),
      λ u n. keys.set_elsewhere m.sys t u key m.fresh n,
    )
    | inr (p, e) ↦ rw (found key t m p e) (found key t m p e, λ u n. refl)
  ]
