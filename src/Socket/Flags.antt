-- ===== src/Socket/Flags.antt =====
-- The flags that base/Socket.cpp sets by fcntl(2).
use fasco.Base.{
  ℕ, ◌≡◌, refl, ◌≢◌, ◌∙◌, Bool, true, false, ◌⊎◌, inl, inr, if◌then◌else◌, ◌==◌, Bool-cases, arith,
  bit_or,
}
use fasco.Base.Int.{ℤ, pos, negsuc, minus_one, int_eq, int_beq_iff}
use fasco.Base.Bits.{bit, bit_not, bit-or, bit-and, bit-le-one}
use fasco.Socket.{
  SocketApi, Socket, int_or, flag_on, o_nonblock, fd_cloexec, set_no_blocking, set_exec_close,
  set_no_blocking_or_exec,
}

-- What fcntl(2) says of two flags: F_SETFL sets O_NONBLOCK of the open file and F_SETFD FD_CLOEXEC
-- of the descriptor, each leaves the other alone, and a call that fails changes nothing.
pub record FcntlLaws {S : Type 0} (api : SocketApi S) : Type 0 where
  pub nonblocking : S → ℤ → Bool
  pub cloexec : S → ℤ → Bool
  pub setfl_sets :
      (s : S) (fd flags : ℤ)
      → (api.setfl s fd flags).1 ≢ minus_one
      → nonblocking (api.setfl s fd flags).0 fd ≡ flag_on 11 flags
  pub setfl_keeps : (s : S) (fd flags : ℤ) → cloexec (api.setfl s fd flags).0 fd ≡ cloexec s fd
  pub setfl_fails :
      (s : S) (fd flags : ℤ)
      → (api.setfl s fd flags).1 ≡ minus_one
      → nonblocking (api.setfl s fd flags).0 fd ≡ nonblocking s fd
  pub setfd_sets :
      (s : S) (fd flags : ℤ)
      → (api.setfd s fd flags).1 ≢ minus_one
      → cloexec (api.setfd s fd flags).0 fd ≡ flag_on 0 flags
  pub setfd_keeps :
      (s : S) (fd flags : ℤ) → nonblocking (api.setfd s fd flags).0 fd ≡ nonblocking s fd
  pub setfd_fails :
      (s : S) (fd flags : ℤ)
      → (api.setfd s fd flags).1 ≡ minus_one
      → cloexec (api.setfd s fd flags).0 fd ≡ cloexec s fd

-- A flag that was put in is on.
flag_on-or : (j m : ℕ) (i : ℤ) → bit j m ≡ 1 → bit j (bit_not m) ≡ 0 → flag_on j (int_or i m) ≡ true
unfolding flag_on int_or
flag_on-or j m (pos n) h z =
    let one : bit j (bit_or n m) ≡ 1 = omega (arith, bit-or j n m, bit-le-one j n, h) in
    simp one refl
flag_on-or j m (negsuc n) h z =
    let none_ = bit-and j n (bit_not m) in simp (none_, z) (ground arith)

nonblock_on : (i : ℤ) → flag_on 11 (int_or i o_nonblock) ≡ true
nonblock_on i = flag_on-or 11 o_nonblock i (unfold bit in refl) (unfold bit bit_not in refl)

cloexec_on : (i : ℤ) → flag_on 0 (int_or i fd_cloexec) ≡ true
cloexec_on i = flag_on-or 0 fd_cloexec i (unfold bit in refl) (unfold bit bit_not in refl)

-- A test of a result for -1.
failed_or :
    (r : ℤ)
    → ((r == minus_one) ≡ true) × (r ≡ minus_one) ⊎ ((r == minus_one) ≡ false) × (r ≢ minus_one)
failed_or r = elim (Bool-cases (r == minus_one)) [
  | inl yes_ ↦ inl (yes_, (int_beq_iff r minus_one).0 yes_)
  | inr no_ ↦ inr (no_, λ e. cc ((int_beq_iff r minus_one).1 e, no_))
]

module _ {S : Type 0} (api : SocketApi S) (laws : FcntlLaws api) (x : Socket) (s : S) where
  -- What a setter says, and the two flags afterwards: the one it is for, and the other one.
  abbrev Sets : Bool → Bool → Bool → Bool → Bool → Type 0
  Sets done before after other other' = (after ≡ (if done then true else before)) × (other' ≡ other)

  no_blocking :
      let r = set_no_blocking api x s in
      Sets r.1
        (laws.nonblocking s x.socket)
        (laws.nonblocking r.0 x.socket)
        (laws.cloexec s x.socket)
        (laws.cloexec r.0 x.socket)
  unfolding set_no_blocking
  no_blocking =
      let flags = int_or (api.getfl s x.socket) o_nonblock in
      let kept = laws.setfl_keeps s x.socket flags in
      elim (failed_or (api.setfl s x.socket flags).1) [
        | inl (t, e) ↦ simp t (laws.setfl_fails s x.socket flags e, kept)
        | inr (t, n) ↦
            simp t (laws.setfl_sets s x.socket flags n ∙ nonblock_on (api.getfl s x.socket), kept)
      ]

  exec_close :
      let r = set_exec_close api x s in
      Sets r.1
        (laws.cloexec s x.socket)
        (laws.cloexec r.0 x.socket)
        (laws.nonblocking s x.socket)
        (laws.nonblocking r.0 x.socket)
  unfolding set_exec_close
  exec_close =
      let flags = int_or (api.getfd s x.socket) fd_cloexec in
      let kept = laws.setfd_keeps s x.socket flags in
      elim (failed_or (api.setfd s x.socket flags).1) [
        | inl (t, e) ↦ simp t (laws.setfd_fails s x.socket flags e, kept)
        | inr (t, n) ↦
            simp t (laws.setfd_sets s x.socket flags n ∙ cloexec_on (api.getfd s x.socket), kept)
      ]

  or_exec :
      let r = set_no_blocking_or_exec api x.socket s in
      (laws.nonblocking r.0 x.socket ≡ (if r.1 then true else laws.nonblocking s x.socket))
      × ((laws.cloexec r.0 x.socket ≡ laws.cloexec s x.socket)
          ⊎ (r.1 ≡ true) × (laws.cloexec r.0 x.socket ≡ true))
  unfolding set_no_blocking_or_exec
  or_exec =
      let fd = x.socket in
      let nflag = int_or (api.getfl s fd) o_nonblock in
      let s₁ = (api.setfl s fd nflag).0 in
      let flags = int_or nflag fd_cloexec in
      let kept = laws.setfl_keeps s fd nflag in
      elim (failed_or (api.setfl s fd nflag).1) [
        | inl (t, e) ↦ simp t (laws.setfl_fails s fd nflag e, inl kept)
        | inr (t, n) ↦
            let on =
              laws.setfd_keeps s₁ fd flags
              ∙ laws.setfl_sets s fd nflag n
              ∙ nonblock_on (api.getfl s fd) in
            elim (failed_or (api.setfd s₁ fd flags).1) [
              | inl (t', e) ↦ simp t (on, inl (laws.setfd_fails s₁ fd flags e ∙ kept))
              | inr (t', n') ↦
                  simp t (on, inr (refl, laws.setfd_sets s₁ fd flags n' ∙ cloexec_on nflag))
            ]
      ]

  -- setNoBlocking and setExecClose turn their flag on when they say true, leave it as it was when
  -- they say false, and leave the other flag alone. SetNoBlockingOrExec turns O_NONBLOCK on when it
  -- says true and leaves it when it says false; FD_CLOEXEC is as it was, or on and the result true.
  pub set_flags :
      (let r = set_no_blocking api x s in
        (laws.nonblocking r.0 x.socket ≡ (if r.1 then true else laws.nonblocking s x.socket))
        × (laws.cloexec r.0 x.socket ≡ laws.cloexec s x.socket))
      × (let r = set_exec_close api x s in
          (laws.cloexec r.0 x.socket ≡ (if r.1 then true else laws.cloexec s x.socket))
          × (laws.nonblocking r.0 x.socket ≡ laws.nonblocking s x.socket))
      × (let r = set_no_blocking_or_exec api x.socket s in
          (laws.nonblocking r.0 x.socket ≡ (if r.1 then true else laws.nonblocking s x.socket))
          × ((laws.cloexec r.0 x.socket ≡ laws.cloexec s x.socket)
              ⊎ (r.1 ≡ true) × (laws.cloexec r.0 x.socket ≡ true)))
  set_flags = (no_blocking, exec_close, or_exec)
