-- ===== src/CallStack.antt =====
-- tools/CallStack.hpp: a stack of anything, as a map from positions and the index of its top. Its
-- operator[] makes an entry where there is none.
use fasco.Base.{ℕ, Bool, Option, none, some, [], nat_beq, length, nat_eq}
use fasco.Base.Map.{Map, find, assign}

pub record CallStack (T : Type 0) : Type 0 where
  pub call_stack : Map ℕ T
  pub cur_index : ℕ

module _ {T : Type 0} where
  -- `CallStack()`
  abbrev pub make : CallStack T
  make = record { call_stack = []; cur_index = 0 }

  -- `getCurrIndex()`, and an assignment through the reference that it returns.
  abbrev pub get_curr_index : CallStack T → ℕ
  get_curr_index s = s.cur_index

  abbrev pub set_curr_index : ℕ → CallStack T → CallStack T
  set_curr_index n s = record s { cur_index = n }

  -- `operator[](index)`: the entry, which is `default` if it is made; and an assignment through it.
  unfoldable pub at_index : T → ℕ → CallStack T → CallStack T × T
  at_index default index s = entry (find index s.call_stack)
    where
      entry : Option T → CallStack T × T
      entry none = (record s { call_stack = assign index default s.call_stack }, default)
      entry (some v) = (s, v)

  unfoldable pub set_at : ℕ → T → CallStack T → CallStack T
  set_at index v s = record s { call_stack = assign index v s.call_stack }

  -- `empty()`
  unfoldable pub is_empty : CallStack T → Bool
  is_empty s = nat_beq (length s.call_stack) 0
