-- ===== src/PoolInThreads.antt =====
-- tools/PoolInThreads.hpp: one object for each thread, made when the thread first asks. Both
-- templates, over T and over T*, have this code; objects are named by their addresses, and `new`
-- takes the next address. The mutex is held from end to end, so `item` is one step.
pub mod Isolation
use fasco.Base.{ℕ, suc, Option, none, some, [], nat_beq, if◌then◌else◌}
use fasco.Base.Int.{ℤ, int_eq}
use fasco.Base.Map.{Map, find, assign}

pub record PoolInThreads (T : Type 0) : Type 0 where
  pub pools : Map ℤ ℕ
  pub objects : ℕ → T
  pub fresh : ℕ

module _ {T : Type 0} (made : T) where
  -- `new PoolInThreads`: what lies at addresses that are not allocated does not matter.
  abbrev pub instance_new : PoolInThreads T
  instance_new = record { pools = []; objects = λ a. made; fresh = 0 }

  -- `getT(tid)`, where `made` is what `T`'s constructor builds.
  unfoldable pub get_t : ℤ → PoolInThreads T → PoolInThreads T × ℕ
  get_t tid p = elim (find tid p.pools) [
    | some a ↦ (p, a)
    | none ↦ (
      record {
        pools = assign tid p.fresh p.pools;
        objects = λ a. if nat_beq a p.fresh then made else p.objects a;
        fresh = suc p.fresh;
      },
      p.fresh,
    )
  ]

  -- `Item(tid)`: the instance is made by the first call.
  unfoldable pub item : ℤ → Option (PoolInThreads T) → Option (PoolInThreads T) × ℕ
  unfolding get_t
  item tid none = let r = get_t tid instance_new in (some r.0, r.1)
  item tid (some p) = let r = get_t tid p in (some r.0, r.1)
