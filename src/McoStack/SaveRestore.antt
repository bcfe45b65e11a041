-- ===== src/McoStack/SaveRestore.antt =====
-- What mco/McoStack.cpp saves of the common stack it brings back.
use fasco.Base.{
  ℕ, zero, suc, ◌+◌, ◌-◌, ◌%◌, ◌≤◌, ◌<◌, ◌≡◌, refl, false, some, List, [], ◌∷◌, length,
  if◌then◌else◌, nat_beq, nat_beq_iff, arith, ap, sym, ◌∙◌, inl, inr, ◌⊎◌, Bool-cases, ◌^◌,
}
use native.Mathlib.Decide.{dec_lt}
use mathlib.Core.Option.{some-injective}
use fasco.Base.Bits.{and_low_twelve, and_split}
use fasco.McoStack.{
  McoStack, Memory, read_bytes, write_bytes, store_used_common_stack, recover_used_common_stack,
  page_rounded,
}

length-read_bytes : (n a : ℕ) (mem : Memory) → length (read_bytes n a mem) ≡ n
unfolding read_bytes
length-read_bytes zero a mem = refl
length-read_bytes (suc n) a mem = ap suc (length-read_bytes n (a + 1) mem)

-- Outside the range that is written nothing changes.
write_bytes_outside :
    (xs : List ℕ) (a b : ℕ) (mem : Memory)
    → (b < a) ⊎ (a + length xs ≤ b)
    → write_bytes xs a mem b ≡ mem b
unfolding write_bytes
write_bytes_outside [] a b mem h = refl
write_bytes_outside (x ∷ xs) a b mem h =
    write_bytes_outside xs (a + 1) b (λ c. if nat_beq a c then x else mem c) (ground arith)
    ∙ ground arith

-- What was read from a range is put back there, whatever the memory became.
write-read_bytes :
    (n a b : ℕ) (mem later : Memory)
    → a ≤ b
    → b < a + n
    → write_bytes (read_bytes n a mem) a later b ≡ mem b
unfolding write_bytes read_bytes
write-read_bytes zero a b mem later p q = absurd (omega arith)
write-read_bytes (suc n) a b mem later p q = elim (Bool-cases (nat_beq a b)) [
  | inl here ↦
      write_bytes_outside (read_bytes n (a + 1) mem) (a + 1) b
        (λ c. if nat_beq a c then mem a else later c) (inl (ground arith))
      ∙ rw here (ap mem ((nat_beq_iff a b).0 here))
  | inr further ↦
      write-read_bytes n (a + 1) b mem (λ c. if nat_beq a c then mem a else later c) (ground arith)
        (ground arith)
]

-- The part of a common stack that is in use.
abbrev pub InUse : McoStack → ℕ → Type 0
InUse s a = (s.stack_sp ≤ a) × (a < s.stack_bp)

-- The stack after it was stored.
abbrev stored : McoStack → Memory → McoStack
stored s mem = record s {
  restore_size = s.stack_bp - s.stack_sp;
  stack_tmp = some (read_bytes (s.stack_bp - s.stack_sp) s.stack_sp mem);
}

store_common :
    (s : McoStack) (mem : Memory)
    → s.is_private ≡ false
    → store_used_common_stack (some s) mem ≡ some (stored s mem)
unfolding store_used_common_stack
store_common s mem e = simp e

recover_stored :
    (s : McoStack) (a : ℕ) (mem later : Memory)
    → s.stack_sp ≤ s.stack_bp
    → (InUse s a → recover_used_common_stack (some (stored s mem)) later a ≡ mem a)
      × (¬ InUse s a → recover_used_common_stack (some (stored s mem)) later a ≡ later a)
unfolding recover_used_common_stack
recover_stored s a mem later below = elim (Bool-cases (nat_beq (s.stack_bp - s.stack_sp) 0)) [
  | inl nothing ↦ rw nothing ((λ u. absurd (ground arith)), (λ u. refl))
  | inr some_ ↦
      let n = s.stack_bp - s.stack_sp in
      rw some_ (
        (λ u. write-read_bytes n s.stack_sp a mem later u.0 (omega arith)),
        (λ u.
            write_bytes_outside (read_bytes n s.stack_sp mem) s.stack_sp a later
              (outside (dec_lt a s.stack_sp) u)),
      )
]
  where
    outside :
        Dec (a < s.stack_sp)
        → ¬ InUse s a
        → (a < s.stack_sp)
          ⊎ (s.stack_sp + length (read_bytes (s.stack_bp - s.stack_sp) s.stack_sp mem) ≤ a)
    outside (yes lt) u = inl lt
    outside (no ge) u = inr (elim (dec_lt a s.stack_bp) [
      | yes lt ↦ absurd (u (omega arith, lt))
      | no top ↦ omega (arith, length-read_bytes (s.stack_bp - s.stack_sp) s.stack_sp mem)
    ])

-- A common stack that was stored is brought back byte for byte between its stack pointer and its
-- base, whatever ran on that memory in between, and the rest of the memory is left as it is.
pub recover-store :
    (s s' : McoStack) (a : ℕ) (mem later : Memory)
    → s.is_private ≡ false
    → s.stack_sp ≤ s.stack_bp
    → store_used_common_stack (some s) mem ≡ some s'
    → (InUse s a → recover_used_common_stack (some s') later a ≡ mem a)
      × (¬ InUse s a → recover_used_common_stack (some s') later a ≡ later a)
recover-store s s' a mem later common below h =
    let same : stored s mem ≡ s' = some-injective _ _ (sym (store_common s mem common) ∙ h) in
    rw (← same) (recover_stored s a mem later below)

-- The constructor rounds the size of the common stack up to whole pages of 4096 bytes, by less than
-- a page, where a size_t holds the result.
pub page_rounded_lem :
    (n : ℕ)
    → n < 2 ^ 64 - 0x1000
    → (page_rounded n % 0x1000 ≡ 0) × (n ≤ page_rounded n) × (page_rounded n < n + 0x1000)
unfolding page_rounded
page_rounded_lem n h =
    ground (arith, and_low_twelve n, and_split 64 n 0xfff (omega arith) (omega arith))
