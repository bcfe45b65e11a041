-- ===== src/McoCallStack.antt =====
-- mco/McoCallStack.h: the coroutines of a thread that wait for the one above them, the current one
-- last. Pointers to coroutines are addresses, nullptr is `none`. `ndebug` compiles the asserts out;
-- the build files leave them in.
use fasco.Base.{
  ℕ, ◌+◌, ◌-◌, ◌%◌, ◌^◌, Bool, Option, none, some, [], length, if◌then◌else◌, nat_beq, nat_eq, ltb,
}
use fasco.Base.Map.{Map, find, assign}
use fasco.Base.Outcome.{Outcome, ok, ◌>>◌, assert_that}

pub record McoCallStack : Type 0 where
  pub call_stack : Map ℕ (Option ℕ)
  pub index : ℕ

-- `McoCallStack()`
abbrev pub no_calls : McoCallStack
no_calls = record { call_stack = []; index = 0 }

-- Subtraction of size_t.
abbrev pub down : ℕ → ℕ → ℕ
down i n = (i + (2 ^ 64 - n)) % 2 ^ 64

-- `callStack_[i]` of a std::map: an entry that is not there is made, with nullptr.
abbrev entered : ℕ → McoCallStack → Option (Option ℕ) → McoCallStack × Option ℕ
entered i c (some co) = (c, co)
entered i c none = (record c { call_stack = assign i none c.call_stack }, none)

unfoldable pub entry : ℕ → McoCallStack → McoCallStack × Option ℕ
entry i c = entered i c (find i c.call_stack)

module _ (ndebug : Bool) where
  -- `operator[](i)`, read.
  unfoldable pub slot : ℕ → McoCallStack → Outcome (McoCallStack × Option ℕ)
  unfolding entry
  slot i c = do assert_that ndebug (nat_beq (length c.call_stack) c.index); ok (entry i c)

  -- `callstack[index++] = co`: the index counts up before `operator[]` is called.
  unfoldable pub push : ℕ → McoCallStack → Outcome McoCallStack
  push co c = do
    assert_that ndebug (nat_beq (length c.call_stack) (c.index + 1))
    ok (record { call_stack = assign c.index (some co) c.call_stack; index = c.index + 1 })

  -- `getCurMco()`
  unfoldable pub get_cur_mco : McoCallStack → Outcome (McoCallStack × Option ℕ)
  unfolding entry
  get_cur_mco c = do
    assert_that ndebug (nat_beq (length c.call_stack) c.index)
    (if ltb 0 (length c.call_stack) then ok (entry (down c.index 1) c) else ok (c, none))
