-- ===== src/McoStack.antt =====
-- mco/McoStack.h and mco/McoStack.cpp: the stacks of coroutines. A common stack lies in a memory
-- that all coroutines of a thread with a common stack run on; what a coroutine had on it is copied
-- to a buffer of its own before another one takes it, and copied back. Addresses are numbers, a
-- null pointer is 0, memory is a function of addresses; each `new char[n]` is a buffer of its own,
-- held as its contents.
pub mod SaveRestore
use fasco.Base.{
  ℕ, zero, suc, ◌+◌, ◌-◌, ◌*◌, ◌/◌, ◌%◌, ◌^◌, ◌≤◌, ◌<◌, Bool, true, false, ◌||◌, ◌&&◌, Option, none,
  some, List, [], ◌∷◌, length, get_elem?, if◌then◌else◌, leb, ltb, nat_beq, bit_and,
}

pub record McoStack : Type 0 where
  pub stack : ℕ
  pub size : ℕ
  pub stack_bp : ℕ
  pub stack_sp : ℕ
  -- The buffer, if there is one.
  pub stack_tmp : Option (List ℕ)
  pub is_private : Bool
  pub restore_size : ℕ

-- `McoStack()`
abbrev pub empty : McoStack
empty = record {
  stack = 0;
  size = 0;
  stack_bp = 0;
  stack_sp = 0;
  stack_tmp = none;
  is_private = false;
  restore_size = 0;
}

-- The commonOccupy_ of a manager is the coroutine whose frames lie on the common stack.
pub record McoStackManager : Type 0 where
  pub common_size : ℕ
  pub private_size : ℕ
  pub common_stack : ℕ
  pub ready : Bool
  pub common_occupy : Option ℕ

-- The constructor's rounding of a size_t to whole pages; `~0xFFF` is extended to 64 bits.
unfoldable pub page_rounded : ℕ → ℕ
page_rounded common_size =
    if nat_beq (bit_and common_size 0xfff) 0
    then common_size
    else (bit_and common_size (2 ^ 64 - 1 - 0xfff) + 0x1000) % 2 ^ 64

-- `McoStackManager(commonSize, privateSize)`: the address of the common stack, or `none` where
-- `new` throws.
unfoldable pub make_manager : ℕ → ℕ → Option ℕ → McoStackManager
unfolding page_rounded
make_manager common_size private_size memory = elim memory [
  | some a ↦ record {
    common_size = page_rounded common_size;
    private_size = private_size;
    common_stack = a;
    ready = true;
    common_occupy = none;
  }
  | none ↦ record {
    common_size = page_rounded common_size;
    private_size = private_size;
    common_stack = 0;
    ready = false;
    common_occupy = none;
  }
]

abbrev pub set_common_occupy : Option ℕ → McoStackManager → McoStackManager
set_common_occupy co m = record m { common_occupy = co }

-- `createCommonMcoStack()`
unfoldable pub create_common_mco_stack : McoStackManager → McoStack
create_common_mco_stack m = record empty {
  stack = m.common_stack;
  size = m.common_size;
  stack_bp = m.common_stack + m.common_size;
  restore_size = 0;
  stack_tmp = none;
  is_private = false;
}

-- `createPrivateMcoStack()`, whose `new char[privateSize_]` gave the address.
unfoldable pub create_private_mco_stack : ℕ → McoStackManager → McoStack
create_private_mco_stack memory m = record empty {
  stack = memory;
  size = m.private_size;
  stack_tmp = none;
  is_private = true;
}

abbrev pub Memory : Type 0
Memory = ℕ → ℕ

-- `memcpy` out of the memory: n bytes from an address on.
unfoldable pub read_bytes : ℕ → ℕ → Memory → List ℕ
read_bytes zero a mem = []
read_bytes (suc n) a mem = mem a ∷ read_bytes n (a + 1) mem

-- `memcpy` into the memory.
unfoldable pub write_bytes : List ℕ → ℕ → Memory → Memory
write_bytes [] a mem = mem
write_bytes (x ∷ xs) a mem = write_bytes xs (a + 1) (λ b. if nat_beq a b then x else mem b)

-- `StoreUsedCommonStack(stack)`; a null pointer is `none`. The difference of the two pointers is
-- taken for a stack pointer at or below the base.
unfoldable pub store_used_common_stack : Option McoStack → Memory → Option McoStack
store_used_common_stack none mem = none
store_used_common_stack (some s) mem =
    if s.is_private
    then some s
    else some (record s {
      restore_size = s.stack_bp - s.stack_sp;
      stack_tmp = some (read_bytes (s.stack_bp - s.stack_sp) s.stack_sp mem);
    })

-- The source of the copy: the buffer's bytes.
abbrev pub buffered : Option (List ℕ) → List ℕ
buffered none = []
buffered (some xs) = xs

-- `RecoverUsedCommonStack(stack)`
unfoldable pub recover_used_common_stack : Option McoStack → Memory → Memory
recover_used_common_stack none mem = mem
recover_used_common_stack (some s) mem =
    if nat_beq s.restore_size 0 then mem else write_bytes (buffered s.stack_tmp) s.stack_sp mem
