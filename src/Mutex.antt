-- ===== src/Mutex.antt =====
-- base/Mutex.h, base/Mutex.cpp, base/MutexLocker.h and base/MutexLocker.cpp. pthread_mutex_lock(3)
-- and its companions are an interface, with what their manual page says of a mutex of the default
-- kind. A thread is named by its id.
pub mod Blocks
pub mod Serial
use fasco.Base.{◌≡◌, Option, none, some}
use fasco.Base.Int.{ℤ}

pub record PthreadMutex : Type 1 where
  pub State : Type 0
  -- PTHREAD_MUTEX_INITIALIZER
  pub initializer : State
  -- The thread that has it.
  pub owner : State → Option ℤ
  -- Whether the call returns now, and with what it leaves; `none` is a call that waits.
  pub pthread_lock : State → ℤ → Option State
  pub pthread_unlock : State → State
  pub pthread_destroy : State → State
  pub initially_free : owner initializer ≡ none
  pub lock_waits : (s : State) (t u : ℤ) → owner s ≡ some u → pthread_lock s t ≡ none
  pub lock_takes : (s s' : State) (t : ℤ) → pthread_lock s t ≡ some s' → owner s' ≡ some t
  pub unlock_frees : (s : State) (t : ℤ) → owner s ≡ some t → owner (pthread_unlock s) ≡ none

module _ (api : PthreadMutex) where
  pub record Mutex : Type 0 where
    pub mutex_ : api.State

  -- `Mutex()`
  abbrev pub make : Mutex
  make = record { mutex_ = api.initializer }

  -- `lock()`, called in thread `t`.
  unfoldable pub lock : ℤ → Mutex → Option Mutex
  lock t m = elim (api.pthread_lock m.mutex_ t) [
    | none ↦ none
    | some s ↦ some (record { mutex_ = s })
  ]

  -- `unlock()`
  unfoldable pub unlock : Mutex → Mutex
  unlock m = record { mutex_ = api.pthread_unlock m.mutex_ }

  -- `getMutex()`
  abbrev pub get_mutex : Mutex → api.State
  get_mutex m = m.mutex_

  -- `~Mutex()`
  unfoldable pub destroy : Mutex → api.State
  destroy m = api.pthread_destroy m.mutex_

  -- `MutexLocker(mutex)` and `~MutexLocker()`
  unfoldable pub locker : ℤ → Mutex → Option Mutex
  unfolding lock
  locker t m = lock t m

  unfoldable pub unlocker : Mutex → Mutex
  unfolding unlock
  unlocker m = unlock m
