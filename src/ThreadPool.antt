-- ===== src/ThreadPool.antt =====
-- base/ThreadPool.h and base/ThreadPool.cpp. The calling thread's id is an argument; `ndebug` compiles the
-- asserts out.
pub mod Start
use fasco.Base.{
  ℕ, zero, suc, Bool, true, false, not, Option, List, [], ◌∷◌, ◌++◌, ◌==◌, if◌then◌else◌,
}
use fasco.Base.Int.{ℤ, pos, negsuc, int_eq, is_neg}
use fasco.Base.Outcome.{Outcome, ok, ◌>>=◌, ◌>>◌, assert_that}
use fasco.Thread
use fasco.Thread.{Thread, Pthreads}

pub record ThreadPool : Type 0 where
  pub cur_thread_num : ℤ
  pub thread_num : ℤ
  pub threads : List Thread
  pub name : List ℕ
  pub thread_func : Option ℕ
  pub tid : ℤ
  pub started : Bool

-- How often `for (int i = 0; i < n; i++)` goes round.
abbrev pub rounds : ℤ → ℕ
rounds (pos n) = n
rounds (negsuc n) = 0

abbrev pub replicate {ℓ} : {A : Type ℓ} → ℕ → A → List A
replicate zero a = []
replicate (suc n) a = a ∷ replicate n a

module _ (ndebug : Bool) (caller : ℤ) where
  -- `ThreadPool(threadNum, func, name)`
  unfoldable pub make : ℤ → Option ℕ → List ℕ → Outcome ThreadPool
  make thread_num func name = do
    assert_that ndebug (not (is_neg thread_num))
    ok (record {
      cur_thread_num = pos 0;
      thread_num = thread_num;
      threads = [];
      name = name;
      thread_func = func;
      tid = caller;
      started = false;
    })

  abbrev pub assert_in_owner_thread : ThreadPool → Outcome (Unit {0})
  assert_in_owner_thread p = assert_that ndebug (caller == p.tid)

  -- `updateThreadFunc(func)`
  unfoldable pub update_thread_func : Option ℕ → ThreadPool → Outcome ThreadPool
  update_thread_func func p = do
    assert_in_owner_thread p
    assert_that ndebug (not p.started)
    ok (record p { thread_func = func })

  -- `updateThreadNum(newNum)`
  unfoldable pub update_thread_num : ℤ → ThreadPool → Outcome ThreadPool
  update_thread_num new_num p = do
    assert_in_owner_thread p
    assert_that ndebug (not p.started)
    assert_that ndebug (not (is_neg new_num))
    ok (record p { thread_num = new_num })

module _ {S : Type 0} (api : Pthreads S) where
  -- The threads are started in order, up to the first that cannot be: how many could.
  unfoldable pub start_threads : List Thread → S → S × List Thread × ℕ
  start_threads [] s = (s, [], 0)
  start_threads (t ∷ ts) s =
      let (s₁, t', b) = Thread.start api t s in
      let (s₂, ts', n) = start_threads ts s₁ in
      if b then (s₂, t' ∷ ts', suc n) else (s₁, t' ∷ ts, 0)

  -- `start()`
  unfoldable pub start : Bool → ℤ → ThreadPool → S → Outcome (S × ThreadPool × Bool)
  start ndebug caller p s = do
    assert_in_owner_thread ndebug caller p
    assert_that ndebug (not p.started)
    let threads = p.threads ++ replicate (rounds p.thread_num) (Thread.make p.thread_func [])
    let (s', ts, count) = start_threads threads s
    ok (s', record p { threads = ts; started = true }, pos count == p.thread_num)

  unfoldable pub join_threads : List Thread → S → S
  join_threads [] s = s
  join_threads (t ∷ ts) s = join_threads ts (Thread.join api t s).0

  -- `~ThreadPool()`
  unfoldable pub destroy : ThreadPool → S → S
  destroy p s = if p.started then join_threads p.threads s else s
