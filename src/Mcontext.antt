-- ===== src/Mcontext.antt =====
-- mco/Mcontext.h and mco/Mcontext.cpp on x86_64: the registers that a coroutine starts with.
-- Pointers and size_t are numbers below 2 ^ 64; subtraction wraps round.
pub mod Alignment
pub mod Narrow
use fasco.Base.{ℕ, zero, suc, ◌+◌, ◌-◌, ◌%◌, ◌^◌, if◌then◌else◌, nat_beq, bit_and}

pub record Mcontext : Type 0 where
  -- By the numbers of the registers.
  pub regs : ℕ → ℕ
  pub ss_size : ℕ
  pub ss_sp : ℕ

abbrev pub rdi : ℕ
rdi = 4

abbrev pub ret : ℕ
ret = 15

abbrev pub rsp : ℕ
rsp = 16

-- `McontextInit(ctx)`: all of it is zero.
abbrev pub mcontext_init : Mcontext
mcontext_init = record { regs = λ _. 0; ss_size = 0; ss_sp = 0 }

-- The stack's last byte, down to a multiple of 16.
unfoldable pub aligned_top : Mcontext → ℕ
aligned_top ctx = bit_and ((ctx.ss_sp + ctx.ss_size + (2 ^ 64 - 1)) % 2 ^ 64) (2 ^ 64 - 16)

-- `McontextMake(ctx, pfn, conarg)`
unfoldable pub mcontext_make : ℕ → ℕ → Mcontext → Mcontext
unfolding aligned_top
mcontext_make pfn conarg ctx = record ctx {
  regs = λ r.
      if nat_beq r rdi
      then conarg
      else if nat_beq r rsp
      then (aligned_top ctx + (2 ^ 64 - 8)) % 2 ^ 64
      else if nat_beq r ret
      then pfn
      else 0;
}
