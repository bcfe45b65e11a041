-- ===== src/NetAddress/Port.antt =====
-- The port of base/NetAddress.cpp.
use fasco.Base.{ℕ, suc, ◌+◌, ◌%◌, ◌<◌, ◌≡◌}
use fasco.Base.Int.{ℤ, pos, negsuc}
use fasco.NetAddress.{SockAddr, addr, addr6, htobe16}

-- The port that the kernel reads out of an address, in the machine's order.
abbrev pub sin_port : SockAddr → ℕ
sin_port (addr f p a) = htobe16 p
sin_port (addr6 f p a) = htobe16 p

-- A number that is a port.
abbrev pub IsPort : ℤ → Type 0
IsPort (pos n) = n < 65536
IsPort (negsuc n) = ⊥

-- A number that differs from an integer by a multiple of 65536.
abbrev pub IsCut : ℤ → ℕ → Type 0
IsCut (pos n) x = x % 65536 ≡ n % 65536
IsCut (negsuc n) x = (x + suc n) % 65536 ≡ 0

abbrev number : ℤ → ℕ
number (pos n) = n
number (negsuc n) = 0
