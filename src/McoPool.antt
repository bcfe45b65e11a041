-- ===== src/McoPool.antt =====
-- base/McoPool.h, base/McoPool.cpp: the coroutines of one thread, by the descriptor that each waits
-- for, and the coroutine that runs. A Continuation is named by its address.
use fasco.Base.{ℕ, [], Option, none, Bool, is_some}
use fasco.Base.Int.{ℤ, int_eq}
use fasco.Base.Map.{Map, find, assign, erase}

pub record McoPool : Type 0 where
  pub cur : Option ℕ
  pub fd_mcos : Map ℤ ℕ

abbrev pub empty : McoPool
empty = record { cur = none; fd_mcos = [] }

abbrev pub get_cur_mco : McoPool → Option ℕ
get_cur_mco p = p.cur

abbrev pub set_cur_mco : Option ℕ → McoPool → McoPool
set_cur_mco mco p = record p { cur = mco }

unfoldable pub get_mco_routine : ℤ → McoPool → Option ℕ
get_mco_routine fd p = find fd p.fd_mcos

-- The flag says whether there was an entry.
unfoldable pub remove_mco_routine : ℤ → McoPool → McoPool × Bool
remove_mco_routine fd p = (record p { fd_mcos = erase fd p.fd_mcos }, is_some (find fd p.fd_mcos))

unfoldable pub set_mco_routine : ℤ → ℕ → McoPool → McoPool
set_mco_routine fd co p = record p { fd_mcos = assign fd co p.fd_mcos }
