-- ===== src/Socket.antt =====
-- base/Socket.h and base/Socket.cpp. The system calls are an interface, over the kernel's state;
-- logging is left out.
pub mod Flags
use fasco.Base.{
  ℕ, ◌≡◌, ◌≢◌, Bool, true, false, not, Option, some, bit_and, bit_or, if◌then◌else◌, nat_beq, ◌==◌,
}
use fasco.Base.Int.{ℤ, pos, negsuc, minus_one, int_eq}
use fasco.Base.Bits.{bit, bit_not}
use fasco.NetAddress.{NetAddress, SockAddr, addr_ptr, addr_len}

abbrev pub o_nonblock : ℕ
o_nonblock = 0x800

abbrev pub fd_cloexec : ℕ
fd_cloexec = 1

abbrev pub einprogress : ℤ
einprogress = pos 115

-- `i | m` on int, in two's complement.
unfoldable pub int_or : ℤ → ℕ → ℤ
int_or (pos n) m = pos (bit_or n m)
int_or (negsuc n) m = negsuc (bit_and n (bit_not m))

-- Bit number `j` of an int.
unfoldable pub flag_on : ℕ → ℤ → Bool
flag_on j (pos n) = nat_beq (bit j n) 1
flag_on j (negsuc n) = nat_beq (bit j n) 0

-- socket(2), bind(2), listen(2), connect(2), accept(2), close(2) and fcntl(2): a descriptor or a
-- number, or -1. `accept` also gives the peer's address.
pub record SocketApi (S : Type 0) : Type 0 where
  pub socket : S → ℤ → ℤ → ℤ → S × ℤ
  pub bind : S → ℤ → SockAddr → ℕ → S × ℤ
  pub listen : S → ℤ → ℕ → S × ℤ
  pub connect : S → ℤ → SockAddr → ℕ → S × ℤ
  pub accept : S → ℤ → SockAddr → ℕ → S × ℤ × SockAddr
  pub close : S → ℤ → S
  pub errno : S → ℤ
  pub getfl : S → ℤ → ℤ
  pub setfl : S → ℤ → ℤ → S × ℤ
  pub getfd : S → ℤ → ℤ
  pub setfd : S → ℤ → ℤ → S × ℤ

-- `Socket::STATE`
pub data State : Type 0 where
  closed opened : State

pub record Socket : Type 0 where
  pub socket : ℤ
  pub state : State

-- `Socket(sd)`
abbrev pub of_descriptor : ℤ → Socket
of_descriptor sd = record { socket = sd; state = closed }

-- `operator=(sd)`
abbrev pub assign : ℤ → Socket → Socket × ℤ
assign sd x = (record x { socket = sd }, sd)

abbrev pub get_socket : Socket → ℤ
get_socket x = x.socket

module _ {S : Type 0} (api : SocketApi S) where
  -- `ret == -1` of a call, turned into the member functions' results.
  abbrev pub succeeded : S × ℤ → S × Bool
  succeeded r = (r.0, not (r.1 == minus_one))

  -- `Socket(domain, type, protocol)`
  abbrev pub make : ℤ → ℤ → ℤ → S → S × Socket
  make domain type protocol s =
      let r = api.socket s domain type protocol in (r.0, record { socket = r.1; state = opened })

  -- `setNoBlocking()`
  unfoldable pub set_no_blocking : Socket → S → S × Bool
  set_no_blocking x s =
      let flag = int_or (api.getfl s x.socket) o_nonblock in succeeded (api.setfl s x.socket flag)

  -- `setExecClose()`
  unfoldable pub set_exec_close : Socket → S → S × Bool
  set_exec_close x s =
      let flag = int_or (api.getfd s x.socket) fd_cloexec in succeeded (api.setfd s x.socket flag)

  -- `bind(addr)`
  unfoldable pub bind : NetAddress → Socket → S → S × Bool
  bind a x s = succeeded (api.bind s x.socket (addr_ptr a) (addr_len a))

  -- `listen(backlog)`
  unfoldable pub listen : ℕ → Socket → S → S × Bool
  listen backlog x s = succeeded (api.listen s x.socket backlog)

  -- `connect(addr)`: EINPROGRESS counts as success.
  unfoldable pub connect : NetAddress → Socket → S → S × Bool
  connect a x s =
      let (s', ret) = api.connect s x.socket (addr_ptr a) (addr_len a) in
      if ret == minus_one then (s', api.errno s' == einprogress) else (s', true)

  -- `SetNoBlockingOrExec(sd)`: what F_GETFD gives is not used, nor is the result of F_SETFD, whose
  -- argument is made from the flags of the open file.
  unfoldable pub set_no_blocking_or_exec : ℤ → S → S × Bool
  set_no_blocking_or_exec sd s =
      let nflag = int_or (api.getfl s sd) o_nonblock in
      let (s₁, ret) = api.setfl s sd nflag in
      if ret == minus_one
      then (s₁, false)
      else ((api.setfd s₁ sd (int_or nflag fd_cloexec)).0, true)

  -- `accept(addr, noblockingexec)`
  unfoldable pub accept : NetAddress → Bool → Socket → S → S × ℤ × NetAddress
  accept a noblockingexec x s =
      let (s₁, ret, peer) = api.accept s x.socket (addr_ptr a) (addr_len a) in
      let a' = record a { sock_addr = peer } in
      if ret == minus_one
      then (s₁, ret, a')
      else if not noblockingexec
      then (s₁, ret, a')
      else ((set_no_blocking_or_exec ret s₁).0, ret, a')

  -- `close()`; the socket keeps its descriptor.
  abbrev pub close : Socket → S → S
  close x s = api.close s x.socket
