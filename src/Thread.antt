-- ===== src/Thread.antt =====
-- base/Thread.h and base/Thread.cpp. pthread_create(3) and pthread_join(3) are an interface; what a
-- thread runs, and how that comes out, is a parameter. A function object is named by its address, an
-- empty one is `none`. Logging is left out.
pub mod Specific
use fasco.Base.{ℕ, Bool, true, false, Option, none, some, List, ◌==◌, is_some, if◌then◌else◌}
use fasco.Base.Int.{ℤ, pos, int_eq}
use fasco.Base.Outcome.{Outcome, ok, fault, aborted}

pub record Thread : Type 0 where
  pub thread_id : ℕ
  pub name : List ℕ
  pub thread_func : Option ℕ

pub record Pthreads (S : Type 0) : Type 0 where
  -- pthread_create(&id, NULL, run, thread): what it leaves in `id`, and 0 or an error number.
  pub create : S → Thread → S × ℕ × ℤ
  -- pthread_join(id, NULL): 0 or an error number.
  pub join : S → ℕ → S × ℤ

-- `Thread()` and `Thread(name)` leave the id as the memory was.
abbrev pub bare : ℕ → List ℕ → Thread
bare memory name = record { thread_id = memory; name = name; thread_func = none }

-- `Thread(threadFunc, name)`; `Thread(threadFunc)` has the empty name.
abbrev pub make : Option ℕ → List ℕ → Thread
make thread_func name = record { thread_id = 0; name = name; thread_func = thread_func }

-- `setThreadFunc(threadFunc)`
unfoldable pub set_thread_func : Option ℕ → Thread → Thread × Bool
set_thread_func f t =
    if is_some t.thread_func then (t, false) else (record t { thread_func = f }, true)

-- `MainThread()`
abbrev pub main_thread : ℤ → ℤ → Bool
main_thread tid pid = tid == pid

abbrev pub get_name : Thread → List ℕ
get_name t = t.name

abbrev pub set_name : List ℕ → Thread → Thread
set_name name t = record t { name = name }

module _ {S : Type 0} (api : Pthreads S) where
  -- `start()`
  unfoldable pub start : Thread → S → S × Thread × Bool
  start t s =
      let (s', id, errno) = api.create s t in (s', record t { thread_id = id }, errno == pos 0)

  -- `join()`
  unfoldable pub join : Thread → S → S × Bool
  join t s = let (s', errno) = api.join s t.thread_id in (s', errno == pos 0)

-- How a call of a function object comes out.
pub data Ran : Type 0 where
  came_back : Ran
  -- By an exception that is a std::exception, or one that is not.
  threw threw_other : Ran

module _ {S : Type 0} (call : ℕ → S → S × Ran) where
  after_call : S × Ran → Outcome S
  after_call (s, came_back) = ok s
  after_call (s, threw) = ok s
  after_call (s, threw_other) = fault aborted

  -- `run(thread)`, which is `ThreadFunc()` of the object.
  unfoldable pub run : Thread → S → Outcome S
  unfolding after_call
  run t s = by_func t.thread_func
    where
      by_func : Option ℕ → Outcome S
      by_func none = ok s
      by_func (some f) = after_call (call f s)
