-- ===== src/Mcontext/Narrow.antt =====
-- mco/Mcontext.h and mco/Mcontext.cpp on i386: the argument goes over the stack. Pointers and size_t
-- are numbers below 2 ^ 32; subtraction wraps round. `memory` is the words by their addresses.
use fasco.Base.{
  true, ℕ, ◌≢◌, ◌∙◌, Bool-cases, inl, inr, ◌+◌, ◌-◌, ◌%◌, ◌^◌, ◌≤◌, ◌<◌, ◌≡◌, refl, if◌then◌else◌,
  nat_beq, nat_beq_iff, bit_and, arith, sym,
}
use fasco.Base.Bits.{and_low_four, and_split}
use fasco.Mcontext.{Mcontext}

abbrev pub eret : ℕ
eret = 7

abbrev pub esp : ℕ
esp = 8

-- The address of the argument: the stack's last word, down to a multiple of 16.
unfoldable argument_slot : Mcontext → ℕ
argument_slot ctx = bit_and ((ctx.ss_sp + ctx.ss_size + (2 ^ 32 - 4)) % 2 ^ 32) (2 ^ 32 - 16)

-- `McontextMake(ctx, pfn, s)`
unfoldable pub mcontext_make_narrow : ℕ → ℕ → Mcontext → (ℕ → ℕ) → Mcontext × (ℕ → ℕ)
unfolding argument_slot
mcontext_make_narrow pfn s ctx memory =
    let sp = argument_slot ctx in
    (
      record ctx {
        regs = λ r.
            if nat_beq r esp
            then (sp + (2 ^ 32 - 4)) % 2 ^ 32
            else if nat_beq r eret
            then pfn
            else 0;
      },
      λ a. if nat_beq sp a then s else memory a,
    )

argument_slot_lem :
    (ctx : Mcontext)
    → 24 ≤ ctx.ss_size
    → ctx.ss_sp + ctx.ss_size < 2 ^ 32
    → (argument_slot ctx % 16 ≡ 0)
      × (argument_slot ctx + 4 ≤ ctx.ss_sp + ctx.ss_size)
      × (ctx.ss_sp + ctx.ss_size < argument_slot ctx + 20)
unfolding argument_slot
argument_slot_lem ctx large fits =
    let a = (ctx.ss_sp + ctx.ss_size + (2 ^ 32 - 4)) % 2 ^ 32 in
    let last : a ≡ ctx.ss_sp + ctx.ss_size - 4 = omega arith in
    ground (arith, last, and_low_four a, and_split 32 a 15 (omega arith) (omega arith))

-- In a stack of 24 bytes or more below the end of the address space a coroutine starts with its
-- function as the return address, and with the argument in the word above its stack pointer, as at
-- the entry of a function; that word is at a multiple of 16, both words are inside the stack, fewer
-- than 24 bytes of which lie above the stack pointer, and no other word of the memory is written.
pub mcontext_make_narrow_lem :
    (pfn s : ℕ) (ctx : Mcontext) (memory : ℕ → ℕ)
    → 24 ≤ ctx.ss_size
    → ctx.ss_sp + ctx.ss_size < 2 ^ 32
    → let made = mcontext_make_narrow pfn s ctx memory in
      (made.0.regs eret ≡ pfn)
      × (made.1 (made.0.regs esp + 4) ≡ s)
      × ((made.0.regs esp + 4) % 16 ≡ 0)
      × (ctx.ss_sp ≤ made.0.regs esp)
      × (made.0.regs esp + 8 ≤ ctx.ss_sp + ctx.ss_size)
      × (ctx.ss_sp + ctx.ss_size < made.0.regs esp + 24)
      × ((a : ℕ) → a ≢ made.0.regs esp + 4 → made.1 a ≡ memory a)
unfolding mcontext_make_narrow
mcontext_make_narrow_lem pfn s ctx memory large fits =
    let sp = argument_slot ctx in
    let (even, below, near) = argument_slot_lem ctx large fits in
    let down : (sp + (2 ^ 32 - 4)) % 2 ^ 32 ≡ sp - 4 = omega arith in
    let up : (sp + (2 ^ 32 - 4)) % 2 ^ 32 + 4 ≡ sp = omega arith in
    let hit : nat_beq sp ((sp + (2 ^ 32 - 4)) % 2 ^ 32 + 4) ≡ true =
      (nat_beq_iff sp ((sp + (2 ^ 32 - 4)) % 2 ^ 32 + 4)).1 (sym up) in
    (
      refl,
      simp hit refl,
      omega arith,
      omega arith,
      omega arith,
      omega arith,
      λ a other. elim (Bool-cases (nat_beq sp a)) [
        | inl same ↦ absurd (other (sym ((nat_beq_iff sp a).0 same) ∙ sym up))
        | inr apart ↦ simp apart refl
      ],
    )
