-- ===== src/Events.antt =====
-- base/Events.h and base/Events.cpp: what one descriptor is watched for. A mask is a `uint32_t`,
-- held as a number; the flags are those of <poll.h> on Linux. The calling thread's id and the
-- object that a pointer denotes are arguments.
pub mod Masks
pub mod Access
use fasco.Base.{
  ℕ, ◌%◌, ◌^◌, Bool, true, false, ◌&&◌, not, bit_and, bit_or, if◌then◌else◌, nat_beq, ◌==◌, ◌≡◌,
}
use fasco.Base.Int.{ℤ, pos, minus_one, int_eq}
use fasco.Base.Bits.{bit_not, IsU32}

abbrev pub pollin : ℕ
pollin = 0x1

abbrev pub pollpri : ℕ
pollpri = 0x2

abbrev pub pollout : ℕ
pollout = 0x4

abbrev pub pollerr : ℕ
pollerr = 0x8

abbrev pub pollhup : ℕ
pollhup = 0x10

abbrev pub pollnval : ℕ
pollnval = 0x20

abbrev pub pollrdhup : ℕ
pollrdhup = 0x2000

abbrev pub k_none_event : ℕ
k_none_event = 0

abbrev pub k_read_event : ℕ
k_read_event = bit_or pollin pollpri

abbrev pub k_write_event : ℕ
k_write_event = pollout

abbrev pub event_type_start : ℤ
event_type_start = pos 0

abbrev pub event_type_tcpcon : ℤ
event_type_tcpcon = pos 1

abbrev pub event_type_timer : ℤ
event_type_timer = pos 2

abbrev pub event_type_tcpser : ℤ
event_type_tcpser = pos 3

abbrev pub event_type_event : ℤ
event_type_event = pos 4

-- NEW, MOD (`mod` is a reserved word), USED, DEL and INVAILD.
pub data State : Type 0 where
  new modified used del invaild : State

abbrev pub state_beq : State → State → Bool
state_beq State.new State.new = true
state_beq State.modified State.modified = true
state_beq State.used State.used = true
state_beq State.del State.del = true
state_beq State.invaild State.invaild = true
state_beq _ _ = false

pub record Events : Type 0 where
  pub fd : ℤ
  pub tid : ℤ
  pub state : State
  pub type : ℤ
  pub eorigin : ℕ
  pub mutable : ℕ

-- struct epoll_event, as far as the program fills it in.
pub record EpollEvent : Type 0 where
  pub events : ℕ
  pub data_fd : ℤ

-- struct pollfd: `events` and `revents` are 16 bits wide.
pub record PollFd : Type 0 where
  pub fd : ℤ
  pub events : ℕ
  pub revents : ℕ

-- `Events(fd, events)` in thread `tid`.
unfoldable pub make : ℤ → ℕ → ℤ → Events
make fd events tid = record {
  fd = fd;
  tid = tid;
  state = State.new;
  type = event_type_start;
  eorigin = events;
  mutable = k_none_event;
}

unfoldable pub of_epoll_event : EpollEvent → ℤ → Events
unfolding make
of_epoll_event ev tid = make ev.data_fd ev.events tid

unfoldable pub of_pollfd : PollFd → ℤ → Events
unfolding make
of_pollfd p tid = make p.fd p.revents tid

unfoldable pub reset : Events → Events
reset e = record e {
  fd = minus_one;
  type = event_type_start;
  state = State.invaild;
  eorigin = k_none_event;
  mutable = k_none_event;
}

-- The live objects, by address.
abbrev pub Heap : Type 0
Heap = ℕ → Events

abbrev pub put : Heap → ℕ → Events → Heap
put h p e q = if nat_beq p q then e else h q

-- `*this = std::move(that)`; that guards against a move to itself.
unfoldable pub move_assign : ℕ → ℕ → Heap → Heap
unfolding reset
move_assign this that h =
    if nat_beq that this then h else put (put h this (h that)) that (reset (h that))

abbrev pub is_invaild : Events → Bool
is_invaild e = state_beq e.state State.invaild

abbrev pub ismod : Events → Bool
ismod e = state_beq e.state State.modified

abbrev pub isdel : Events → Bool
isdel e = state_beq e.state State.del

abbrev pub isnew : Events → Bool
isnew e = state_beq e.state State.new

abbrev pub isused : Events → Bool
isused e = state_beq e.state State.used

abbrev pub set_type : ℤ → Events → Events
set_type tp e = record e { type = tp }

abbrev pub set_tid : ℤ → Events → Events
set_tid tid e = record e { tid = tid }

abbrev pub set_state : State → Events → Events
set_state sta e = record e { state = sta }

abbrev pub set_mutable : ℕ → Events → Events
set_mutable event e = record e { mutable = event }

unfoldable pub update_events : ℕ → Events → Events
update_events events e = record e { eorigin = events; state = State.modified }

unfoldable pub add_event : ℕ → Events → Events
add_event event e = record e { eorigin = bit_or e.eorigin event; state = State.modified }

unfoldable pub delete_event : ℕ → Events → Events
delete_event event e = record e {
  eorigin = bit_and e.eorigin (bit_not event);
  state = State.modified;
}

unfoldable pub add_event_mutable : ℕ → Events → Events
add_event_mutable event e = record e { mutable = bit_or e.mutable event; state = State.modified }

unfoldable pub delete_event_mutable : ℕ → Events → Events
delete_event_mutable event e = record e {
  mutable = bit_and e.mutable (bit_not event);
  state = State.modified;
}

unfoldable pub contains_events : ℕ → ℕ → Bool
contains_events emutable events = nat_beq (bit_and emutable events) events

unfoldable pub contains_at_least_one_events : ℕ → ℕ → Bool
contains_at_least_one_events emutable events = not (nat_beq (bit_and emutable events) 0)

abbrev pub read_flags : ℕ
read_flags = bit_or (bit_or pollin pollpri) pollrdhup

unfoldable pub is_read : Events → Bool
is_read e = contains_at_least_one_events e.mutable read_flags

unfoldable pub is_write : Events → Bool
is_write e = contains_at_least_one_events e.mutable pollout

unfoldable pub is_error : Events → Bool
is_error e = contains_at_least_one_events e.mutable (bit_or pollerr pollnval)

unfoldable pub is_close : Events → Bool
is_close e =
    contains_at_least_one_events e.mutable pollhup
    && not (contains_at_least_one_events e.mutable pollin)

unfoldable pub origin_read : Events → Bool
origin_read e = contains_at_least_one_events e.eorigin read_flags

unfoldable pub origin_write : Events → Bool
origin_write e = contains_at_least_one_events e.eorigin pollout

abbrev pub epoll_events : Events → EpollEvent
epoll_events e = record { events = e.eorigin; data_fd = e.fd }

-- The mask is cut to the 16 bits of `pollfd::events`.
abbrev pub poll_events : Events → PollFd
poll_events e = record { fd = e.fd; events = e.eorigin % 2 ^ 16; revents = 0 }

-- Both masks fit a `uint32_t`.
pub record IsWellFormed (e : Events) : Type 0 where
  pub origin_fits : IsU32 e.eorigin
  pub mutable_fits : IsU32 e.mutable
