-- ===== src/Tests/MutexTests.antt =====
-- Two threads that add to a counter under one mutex (base/MutexLocker.h).
use fasco.Base.{ℕ, ◌+◌, ◌*◌, ◌≡◌, refl, Option, none, some, List, [], ◌∷◌, if◌then◌else◌, ◌==◌}
use fasco.Base.Int.{ℤ, pos, int_eq}
use fasco.Mutex.{PthreadMutex, locker, lock, unlocker, unlock}
use fasco.Mutex.Blocks.{
  Block, System, run_all, Reach, begin, later, enters, works, leaves, start, inside, outside, at,
}
use fasco.Mutex.Serial.{Accounted, Reach-serial}

abbrev lock_of : Option ℤ → ℤ → Option (Option ℤ)
lock_of none t = some (some t)
lock_of (some u) t = none

lock_of-waits : (s : Option ℤ) (t u : ℤ) → s ≡ some u → lock_of s t ≡ none
lock_of-waits none t u e = absurd (cc)
lock_of-waits (some v) t u e = refl

lock_of-takes : (s s' : Option ℤ) (t : ℤ) → lock_of s t ≡ some s' → s' ≡ some t
lock_of-takes none s' t e = cc
lock_of-takes (some u) s' t e = absurd (cc)

-- The mutex as the thread that has it.
abbrev held_by : PthreadMutex
held_by = record {
  State = Option ℤ;
  initializer = none;
  owner = λ s. s;
  pthread_lock = lock_of;
  pthread_unlock = λ s. none;
  pthread_destroy = λ s. s;
  initially_free = refl;
  lock_waits = lock_of-waits;
  lock_takes = lock_of-takes;
  unlock_frees = λ s t e. refl;
}

-- Thread 1 adds one and doubles; thread 2 adds five.
abbrev program : ℤ → List (Block ℕ)
program t =
    if t == pos 1
    then ((λ n. n + 1) ∷ (λ n. n * 2) ∷ []) ∷ []
    else if t == pos 2
    then ((λ n. n + 5) ∷ []) ∷ []
    else []

abbrev begun : System held_by ℕ
begun = start held_by ℕ 3 program

abbrev entered : System held_by ℕ
entered = record begun {
  mutex = record { mutex_ = some (pos 1) };
  place = at held_by ℕ (pos 1) (inside ((λ n. n + 1) ∷ (λ n. n * 2) ∷ [])) begun.place;
  todo = at held_by ℕ (pos 1) [] begun.todo;
}

abbrev added : System held_by ℕ
added = record entered {
  shared = 4;
  place = at held_by ℕ (pos 1) (inside ((λ n. n * 2) ∷ [])) entered.place;
}

abbrev doubled : System held_by ℕ
doubled = record added { shared = 8; place = at held_by ℕ (pos 1) (inside []) added.place }

abbrev left : System held_by ℕ
left = record doubled {
  mutex = record { mutex_ = none };
  place = at held_by ℕ (pos 1) outside doubled.place;
}

left-Reach : Reach held_by ℕ 3 program left
unfolding locker lock unlocker unlock
left-Reach =
    later
      (later
        (later
          (later begin (
            enters (pos 1) ((λ n. n + 1) ∷ (λ n. n * 2) ∷ []) [] entered.mutex refl refl refl refl))
          (works (pos 1) (λ n. n + 1) ((λ n. n * 2) ∷ []) refl refl))
        (works (pos 1) (λ n. n * 2) [] refl refl))
      (leaves (pos 1) refl refl)

-- Thread 2 waits as long as thread 1 is in its block.
thread_two_waits : locker held_by (pos 2) added.mutex ≡ none
unfolding locker lock
thread_two_waits = refl

Reach-serial_example :
    (done : List (ℤ × Block ℕ)) × (8 ≡ run_all done 3) × Accounted held_by ℕ 3 program done left
Reach-serial_example = Reach-serial held_by ℕ 3 program left left-Reach refl
