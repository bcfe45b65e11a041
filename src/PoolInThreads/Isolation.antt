-- ===== src/PoolInThreads/Isolation.antt =====
-- Threads do not share the objects of tools/PoolInThreads.hpp.
use fasco.Base.{
  ℕ, suc, ◌<◌, ◌≡◌, refl, none, some, nat_beq, nat_beq_iff, if◌then◌else◌, arith, ap, inl, inr,
  Option-cases,
}
use fasco.Base.Int.{ℤ, int_eq, int_beq_iff}
use fasco.Base.Map.{find, assign, find-assign}
use fasco.PoolInThreads.{PoolInThreads, get_t}

-- Every object is allocated, and no two threads have the same one.
pub record IsOwned {T : Type 0} (p : PoolInThreads T) : Type 0 where
  pub allocated : (t : ℤ) (a : ℕ) → find t p.pools ≡ some a → a < p.fresh
  pub separate : (t u : ℤ) (a : ℕ) → find t p.pools ≡ some a → find u p.pools ≡ some a → t ≡ u

module _ {T : Type 0} (made : T) (tid : ℤ) where
  -- The pool with a new object for the thread.
  abbrev pub grown : PoolInThreads T → PoolInThreads T
  grown p = record {
    pools = assign tid p.fresh p.pools;
    objects = λ a. if nat_beq a p.fresh then made else p.objects a;
    fresh = suc p.fresh;
  }

  made_new : (p : PoolInThreads T) → find tid p.pools ≡ none → get_t made tid p ≡ (grown p, p.fresh)
  unfolding get_t
  made_new p e = rw (e, get_t)

  found : (p : PoolInThreads T) (a : ℕ) → find tid p.pools ≡ some a → get_t made tid p ≡ (p, a)
  unfolding get_t
  found p a e = rw (e, get_t)

  grown-IsOwned : (p : PoolInThreads T) → IsOwned p → find tid p.pools ≡ none → IsOwned (grown p)
  grown-IsOwned p v e = record {
    allocated = λ t a h. ground (arith, find-assign tid t p.fresh p.pools, v.allocated t a);
    separate = λ t u a h g. ground (
      arith,
      find-assign tid t p.fresh p.pools,
      find-assign tid u p.fresh p.pools,
      v.allocated t a,
      v.allocated u a,
      v.separate t u a,
      int_beq_iff tid t,
      int_beq_iff tid u,
    );
  }

  -- A thread that asks gets an object of its own and keeps it: the pool stays one in which no two
  -- threads share an object, the thread finds the object it was given, asking again changes
  -- nothing and gives the same object, and all objects that were there are as they were.
  pub get_t-IsOwned :
      (p : PoolInThreads T)
      → IsOwned p
      → IsOwned (get_t made tid p).0
        × (find tid (get_t made tid p).0.pools ≡ some (get_t made tid p).1)
        × (get_t made tid (get_t made tid p).0 ≡ get_t made tid p)
        × ((t : ℤ) (a : ℕ)
            → find t p.pools ≡ some a
            → (find t (get_t made tid p).0.pools ≡ some a)
              × ((get_t made tid p).0.objects a ≡ p.objects a))
  get_t-IsOwned p v = elim (Option-cases (find tid p.pools)) [
    | inl e ↦
        let self : find tid (grown p).pools ≡ some p.fresh =
          ground (arith, find-assign tid tid p.fresh p.pools, int_beq_iff tid tid) in
        rw (made_new p e) (
          grown-IsOwned p v e,
          self,
          found (grown p) p.fresh self,
          λ t a h. (
            ground (
              arith,
              find-assign tid t p.fresh p.pools,
              int_beq_iff tid t,
              ap (λ u. find u p.pools) {x = tid} {y = t},
            ),
            ground (arith, v.allocated t a h, nat_beq_iff a p.fresh),
          ),
        )
    | inr (a, e) ↦ rw (found p a e) (v, e, found p a e, λ t b h. (h, refl))
  ]
