-- ===== src/Tests/ThreadTests.antt =====
-- Tests of base/Thread.cpp and base/ThreadPool.cpp.
use fasco.Base.{ℕ, suc, ◌+◌, ◌≡◌, refl, true, false, Bool, some, List, [], ◌∷◌, if◌then◌else◌, ltb}
use fasco.Base.Int.{pos, int_eq}
use fasco.Base.Outcome.{ok}
use fasco.Thread
use fasco.Thread.{Thread, Pthreads, set_thread_func}
use fasco.ThreadPool.{ThreadPool, start, start_threads, destroy, join_threads}
use fasco.ThreadPool.Start.{Launch, join_ids, start-destroy}

-- Room for two threads, with the ids 70 and 71; what is joined, the last first.
abbrev two_threads : Pthreads (ℕ × List ℕ)
two_threads = record {
  create = λ s t. if ltb s.0 2 then ((suc s.0, s.1), 70 + s.0, pos 0) else (s, 5, pos 11);
  join = λ s id. ((s.0, id ∷ s.1), pos 0);
}

abbrev pool_of_four : ThreadPool
pool_of_four = record {
  cur_thread_num = pos 0;
  thread_num = pos 4;
  threads = [];
  name = [];
  thread_func = some 3;
  tid = pos 100;
  started = false;
}

-- The destructor joins the id that the failed call left, and the id 0.
joins_all :
    (let r =
        start_threads two_threads
          (Thread.make (some 3) []
            ∷ Thread.make (some 3) []
            ∷ Thread.make (some 3) []
            ∷ Thread.make (some 3) []
            ∷ [])
          (0, []) in
      (destroy two_threads (record pool_of_four { threads = r.1; started = true }) r.0).1)
    ≡ 0 ∷ 5 ∷ 71 ∷ 70 ∷ []
unfolding start_threads destroy join_threads Thread.start Thread.join
joins_all = refl

refuses_second_func : (set_thread_func (some 4) (Thread.make (some 3) [])).1 ≡ false
unfolding set_thread_func
refuses_second_func = refl

start-destroy_example :
    (s' : ℕ × List ℕ) × (p' : ThreadPool) × (ids : List ℕ) × (b : Bool) × (start two_threads false
        (pos 100)
        pool_of_four
        (0, [])
      ≡ ok (s', p', b))
    × Launch two_threads (Thread.make (some 3) []) 4 (0, []) s' ids b
    × ((u : ℕ × List ℕ) → destroy two_threads p' u ≡ join_ids two_threads ids u)
start-destroy_example = start-destroy two_threads false pool_of_four 4 (0, []) refl refl refl
