-- ===== src/Mcontext/Alignment.antt =====
-- Where the stack pointer of a new coroutine stands.
use fasco.Base.{ℕ, ◌+◌, ◌-◌, ◌%◌, ◌^◌, ◌≤◌, ◌<◌, ◌≡◌, refl, arith}
use fasco.Base.Bits.{and_low_four, and_split}
use fasco.Mcontext.{Mcontext, mcontext_make, aligned_top, rsp, rdi, ret}

aligned_top_lem :
    (ctx : Mcontext)
    → 24 ≤ ctx.ss_size
    → ctx.ss_sp + ctx.ss_size < 2 ^ 64
    → (aligned_top ctx % 16 ≡ 0)
      × (aligned_top ctx < ctx.ss_sp + ctx.ss_size)
      × (ctx.ss_sp + ctx.ss_size ≤ aligned_top ctx + 16)
unfolding aligned_top
aligned_top_lem ctx large fits =
    let a = (ctx.ss_sp + ctx.ss_size + (2 ^ 64 - 1)) % 2 ^ 64 in
    let last : a ≡ ctx.ss_sp + ctx.ss_size - 1 = omega arith in
    ground (arith, last, and_low_four a, and_split 64 a 15 (omega arith) (omega arith))

-- In a stack of 24 bytes or more below the end of the address space, McontextMake lets a coroutine
-- start with its function as the return address, its argument in RDI, and its stack pointer 8 below
-- a multiple of 16, as at the entry of a function, with the word at the stack pointer inside the
-- stack and fewer than 24 bytes of the stack above it.
pub mcontext_make_lem :
    (pfn conarg : ℕ) (ctx : Mcontext)
    → 24 ≤ ctx.ss_size
    → ctx.ss_sp + ctx.ss_size < 2 ^ 64
    → let made = mcontext_make pfn conarg ctx in
      (made.regs ret ≡ pfn)
      × (made.regs rdi ≡ conarg)
      × ((made.regs rsp + 8) % 16 ≡ 0)
      × (ctx.ss_sp ≤ made.regs rsp)
      × (made.regs rsp + 8 < ctx.ss_sp + ctx.ss_size)
      × (ctx.ss_sp + ctx.ss_size ≤ made.regs rsp + 24)
unfolding mcontext_make aligned_top
mcontext_make_lem pfn conarg ctx large fits =
    let top = aligned_top ctx in
    let (even, below, near) = aligned_top_lem ctx large fits in
    let down : (top + (2 ^ 64 - 8)) % 2 ^ 64 ≡ top - 8 = omega arith in
    (refl, refl, omega arith, omega arith, omega arith, omega arith)
