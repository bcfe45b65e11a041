-- ===== src/Events/Access.antt =====
-- base/Events.h and base/Events.cpp: what of an Events object is read from outside, its copy, and its
-- end.
use fasco.Base.{ℕ}
use fasco.Base.Int.{ℤ}
use fasco.Events.{Events, State, make}

abbrev pub get_fd : Events → ℤ
get_fd e = e.fd

abbrev pub get_tid : Events → ℤ
get_tid e = e.tid

abbrev pub get_type : Events → ℤ
get_type e = e.type

abbrev pub get_state : Events → State
get_state e = e.state

abbrev pub get_events : Events → ℕ
get_events e = e.eorigin

abbrev pub get_mutable : Events → ℕ
get_mutable e = e.mutable

-- The copy constructor, in thread `tid`: a new object for the descriptor and the mask.
unfoldable pub copy : Events → ℤ → Events
unfolding make
copy events tid = make events.fd events.eorigin tid

-- The destructor closes the descriptor, with the system call and not with the hook.
unfoldable pub destroy : {S : Type 0} → (S → ℤ → S × ℤ) → Events → S → S
destroy uni_close e s = (uni_close s e.fd).0
