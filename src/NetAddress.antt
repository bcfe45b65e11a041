-- ===== src/NetAddress.antt =====
-- base/NetAddress.h and base/NetAddress.cpp: an address of a socket, with the sockaddr_in or
-- sockaddr_in6 that the constructor fills in. `inet_pton` is a parameter: what it writes for a text,
-- or nothing.
pub mod Port
use fasco.Base.{
  ℕ, ◌+◌, ◌-◌, ◌*◌, ◌/◌, ◌%◌, Bool, true, false, Option, none, some, List, [], ◌∷◌, if◌then◌else◌,
  nat_beq,
}
use fasco.Base.Int.{ℤ, pos, negsuc}

abbrev pub af_inet : ℕ
af_inet = 2

-- The union's member that is in use: family, port and address as they lie in memory.
pub data SockAddr : Type 0 where
  addr addr6 : ℕ → ℕ → List ℕ → SockAddr

pub record NetAddress : Type 0 where
  pub family : ℕ
  pub sock_addr : SockAddr
  pub ip : List ℕ
  pub port : ℤ

-- The conversion of an int to a uint16_t.
unfoldable pub u16 : ℤ → ℕ
u16 (pos n) = n % 65536
u16 (negsuc n) = 65535 - n % 65536

-- `htobe16` and `be16toh` on a little-endian machine.
unfoldable pub htobe16 : ℕ → ℕ
htobe16 x = x % 256 * 256 + x / 256 % 256

-- What `inet_pton` leaves in memory that was zero.
abbrev written : Option (List ℕ) → List ℕ → List ℕ
written (some bytes) zeros = bytes
written none zeros = zeros

abbrev zeros4 : List ℕ
zeros4 = 0 ∷ 0 ∷ 0 ∷ 0 ∷ []

abbrev zeros16 : List ℕ
zeros16 = 0 ∷ 0 ∷ 0 ∷ 0 ∷ 0 ∷ 0 ∷ 0 ∷ 0 ∷ 0 ∷ 0 ∷ 0 ∷ 0 ∷ 0 ∷ 0 ∷ 0 ∷ 0 ∷ []

-- `NetAddress(sa_family, sa_port, sa_ip)`
unfoldable pub make : (ℕ → List ℕ → Option (List ℕ)) → ℕ → ℤ → List ℕ → NetAddress
make inet_pton sa_family sa_port sa_ip = record {
  family = sa_family;
  sock_addr =
      if nat_beq sa_family af_inet
      then addr sa_family (htobe16 (u16 sa_port)) (written (inet_pton sa_family sa_ip) zeros4)
      else addr6 sa_family (htobe16 (u16 sa_port)) (written (inet_pton sa_family sa_ip) zeros16);
  ip = sa_ip;
  port = sa_port;
}

abbrev pub get_ip : NetAddress → List ℕ
get_ip a = a.ip

abbrev pub get_port : NetAddress → ℤ
get_port a = a.port

-- `*addrPtr()`: every family but AF_INET has the second member.
abbrev pub addr_ptr : NetAddress → SockAddr
addr_ptr a = a.sock_addr

-- `sizeof` of the member.
unfoldable pub addr_len : NetAddress → ℕ
addr_len a = if nat_beq a.family af_inet then 16 else 28
