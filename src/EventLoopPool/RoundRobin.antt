-- ===== src/EventLoopPool/RoundRobin.antt =====
-- getNextLoop of base/EventLoopPool.cpp hands the loops out in turn.
use fasco.Base.{
  ℕ, zero, suc, ◌+◌, ◌%◌, ◌<◌, ◌≡◌, false, length, get_elem?, if◌then◌else◌, leb, nat_beq, arith,
  ap, sym, ◌∙◌, inl, inr, Bool-cases,
}
use native.Mathlib.Nat.{mod-add-mod, mod_self, mod-eq_of_lt}
use fasco.EventLoopPool.{EventLoopPool, get_next_loop}

-- The pool after some calls of getNextLoop.
unfoldable pub after_calls : ℕ → EventLoopPool → EventLoopPool
after_calls zero p = p
after_calls (suc n) p = after_calls n (get_next_loop p).0

-- Where the next call reads.
abbrev pub cursor : EventLoopPool → ℕ
cursor p = if leb (length p.next_loops) p.next then 0 else p.next

-- The cursor goes round.
step_round : (c n : ℕ) → c < n → (if leb n (c + 1) then 0 else c + 1) ≡ (c + 1) % n
step_round c n h = elim (Bool-cases (leb n (c + 1))) [
  | inl full ↦ let last : c + 1 ≡ n = ground arith in rw full (rw last (sym (mod_self n)))
  | inr room ↦ rw room (sym (mod-eq_of_lt {n = c + 1} {m = n} (ground arith)))
]

add_round : (c i n : ℕ) → 0 < n → ((c + 1) % n + i) % n ≡ (c + suc i) % n
add_round c i n h = mod-add-mod (c + 1) n i ∙ ap (λ m. m % n) (omega arith)

cursor-lt : (p : EventLoopPool) → 0 < length p.next_loops → cursor p < length p.next_loops
cursor-lt p h = ground arith

next_call :
    (p : EventLoopPool)
    → 0 < length p.next_loops
    → get_next_loop p ≡ (record p { next = cursor p + 1 }, get_elem? p.next_loops (cursor p))
unfolding get_next_loop
next_call p h = rw (not_empty (length p.next_loops) h)
  where
    not_empty : (n : ℕ) → 0 < n → nat_beq n 0 ≡ false
    not_empty n h = ground arith

-- With n loops registered, call number i from now (counted from 0) gets the loop at place
-- (c + i) mod n, where c is where the next call reads: n calls in a row serve every loop once.
pub get_next_loop-after_calls :
    (i : ℕ) (p : EventLoopPool)
    → 0 < length p.next_loops
    → (get_next_loop (after_calls i p)).1
      ≡ get_elem? p.next_loops ((cursor p + i) % length p.next_loops)
unfolding after_calls
get_next_loop-after_calls zero p h =
    ap (λ r. r.1) (next_call p h)
    ∙ ap (get_elem? p.next_loops) (in_range (cursor p) (length p.next_loops) (cursor-lt p h))
  where
    in_range : (c n : ℕ) → c < n → c ≡ (c + 0) % n
    in_range c n lt = grind arith
get_next_loop-after_calls (suc i) p h =
    let p' = record p { next = cursor p + 1 } in
    ap (λ r. (get_next_loop (after_calls i r.0)).1) (next_call p h)
    ∙ get_next_loop-after_calls i p' h
    ∙ ap (get_elem? p.next_loops) (
        ap (λ c. (c + i) % length p.next_loops)
          (step_round (cursor p) (length p.next_loops) (cursor-lt p h))
        ∙ add_round (cursor p) i (length p.next_loops) h)
