-- ===== src/Mutex/Blocks.antt =====
-- Threads whose blocks stand under one mutex (base/MutexLocker.h): each step of a block is a step of
-- its own, and the threads take turns in any way that the mutex lets them.
use fasco.Base.{◌≡◌, some, List, [], ◌∷◌, if◌then◌else◌, ◌==◌}
use fasco.Base.Int.{ℤ, int_eq}
use fasco.Mutex.{PthreadMutex, Mutex, make, locker, unlocker}

-- What stands between the constructor of a MutexLocker and its destructor, on the shared state.
abbrev pub Block : Type 0 → Type 0
Block S = List (S → S)

pub data Place (S : Type 0) : Type 0 where
  outside : Place S
  -- With what is left of the block.
  inside : Block S → Place S

pub record System (api : PthreadMutex) (S : Type 0) : Type 0 where
  pub mutex : Mutex api
  pub shared : S
  pub place : ℤ → Place S
  -- The blocks that each thread has yet to enter, in order.
  pub todo : ℤ → List (Block S)

-- A block as a whole.
abbrev pub run_block {ℓ} : {S : Type ℓ} → List (S → S) → S → S
run_block [] s = s
run_block (f ∷ fs) s = run_block fs (f s)

-- Whole blocks, one after the other.
abbrev pub run_all {ℓ} : {S : Type ℓ} → List (ℤ × List (S → S)) → S → S
run_all [] s = s
run_all ((t, b) ∷ bs) s = run_all bs (run_block b s)

-- The blocks of one thread among them.
abbrev pub blocks_of {ℓ} : {B : Type ℓ} → ℤ → List (ℤ × B) → List B
blocks_of t [] = []
blocks_of t ((u, b) ∷ bs) = let rest = blocks_of t bs in if u == t then b ∷ rest else rest

module _ (api : PthreadMutex) (S : Type 0) where
  abbrev pub at {ℓ} : {A : Type ℓ} → ℤ → A → (ℤ → A) → ℤ → A
  at t a f u = if t == u then a else f u

  pub data Step (x y : System api S) : Type 0 where
    enters :
        (t : ℤ) (b : Block S) (bs : List (Block S)) (m : Mutex api)
        → x.place t ≡ outside
        → x.todo t ≡ b ∷ bs
        → locker api t x.mutex ≡ some m
        → y ≡ record x { mutex = m; place = at t (inside b) x.place; todo = at t bs x.todo }
        → Step x y
    works :
        (t : ℤ) (f : S → S) (fs : Block S)
        → x.place t ≡ inside (f ∷ fs)
        → y ≡ record x { shared = f x.shared; place = at t (inside fs) x.place }
        → Step x y
    leaves :
        (t : ℤ)
        → x.place t ≡ inside []
        → y ≡ record x { mutex = unlocker api x.mutex; place = at t outside x.place }
        → Step x y

  -- Nobody is in a block, and the mutex was just made.
  abbrev pub start : S → (ℤ → List (Block S)) → System api S
  start s program = record { mutex = make api; shared = s; place = λ t. outside; todo = program }

  pub data Reach (s : S) (program : ℤ → List (Block S)) : System api S → Type 0 where
    begin : Reach s program (start s program)
    later : {x y : System api S} → Reach s program x → Step x y → Reach s program y
