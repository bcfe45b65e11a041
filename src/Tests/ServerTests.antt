-- ===== src/Tests/ServerTests.antt =====
-- Tests of base/TcpServer.cpp, base/Socket.cpp and base/NetAddress.cpp.
use fasco.Base.{
  ℕ, ◌≡◌, refl, ◌≢◌, ◌⊎◌, Bool, true, false, none, some, Option, List, [], ◌∷◌, if◌then◌else◌,
}
use fasco.Base.Bits.{bit}
use fasco.Base.Int.{ℤ, pos, minus_one, int_eq}
use fasco.Base.Map.{find}
use fasco.Base.Outcome.{ok}
use fasco.Kernel.Table.{table_kernel, TableState}
use fasco.Events.{make, k_read_event}
use fasco.EventLoop.Step.{known}
use fasco.EventLoopPool.{get_next_loop, get_main_loop}
use fasco.NetAddress
use fasco.NetAddress.{NetAddress}
use fasco.Socket.{
  bind, listen, opened, SocketApi, of_descriptor, flag_on, set_no_blocking, set_exec_close,
  set_no_blocking_or_exec,
}
use fasco.Socket.Flags.{FcntlLaws, set_flags}
use fasco.Process.{Process, view, put_event}
use fasco.Hook.Wait.{Waits}
use fasco.TcpServer.{TcpServer, start, accepted, init, asserted_call}
use fasco.TcpServer.Serve.{Served, accepted_lem}
use fasco.TcpServer.Init.{init-start-Waits}
use fasco.TcpServer.Client.{accepted-wakes}
use fasco.Hook.Session.{woken}
use fasco.EventLoop.{handle_event}
use fasco.Tests.Samples.{quitting}
use fasco.Tests.HookTests.{running}

abbrev no_addr : ℕ → List ℕ → Option (List ℕ)
no_addr family ip = none

-- The flags of one open file, those of its descriptor, and whether F_SETFD works.
abbrev Flags : Type 0
Flags = ℤ × ℤ × Bool

abbrev flag_api : SocketApi Flags
flag_api = record {
  socket = λ s d t p. (s, pos 7);
  bind = λ s fd a n. (s, pos 0);
  listen = λ s fd n. (s, pos 0);
  connect = λ s fd a n. (s, pos 0);
  accept = λ s fd a n. (s, pos 8, a);
  close = λ s fd. s;
  errno = λ s. pos 0;
  getfl = λ s fd. s.0;
  setfl = λ s fd flags. ((flags, s.1, s.2), pos 0);
  getfd = λ s fd. s.1;
  setfd =
      λ s fd flags. ((s.0, (if s.2 then flags else s.1), s.2), if s.2 then pos 0 else minus_one);
}

setfd_by :
    (works : Bool) (fl fd flags : ℤ)
    → let r = flag_api.setfd (fl, fd, works) (pos 7) flags in
      (r.1 ≢ minus_one → flag_on 0 r.0.1 ≡ flag_on 0 flags)
      × (r.1 ≡ minus_one → flag_on 0 r.0.1 ≡ flag_on 0 fd)
setfd_by true fl fd flags = (λ n. refl, λ e. absurd (cc e))
setfd_by false fl fd flags = (λ n. absurd (n refl), λ e. refl)

abbrev flag_laws : FcntlLaws flag_api
flag_laws = record {
  nonblocking = λ s fd. flag_on 11 s.0;
  cloexec = λ s fd. flag_on 0 s.1;
  setfl_sets = λ s fd flags n. refl;
  setfl_keeps = λ s fd flags. refl;
  setfl_fails = λ s fd flags e. absurd (cc e);
  setfd_sets = λ s fd flags n. (setfd_by s.2 s.0 s.1 flags).0 n;
  setfd_keeps = λ s fd flags. refl;
  setfd_fails = λ s fd flags e. (setfd_by s.2 s.0 s.1 flags).1 e;
}

-- The descriptor blocks, is kept over exec, and F_SETFD fails.
abbrev stubborn : Flags
stubborn = (pos 2, pos 0, false)

-- The failure of F_SETFD does not show.
cloexec_unset : flag_on 0 (set_no_blocking_or_exec flag_api (pos 7) stubborn).0.1 ≡ false
unfolding flag_on set_no_blocking_or_exec bit
cloexec_unset = refl

claims_success : (set_no_blocking_or_exec flag_api (pos 7) stubborn).1 ≡ true
unfolding set_no_blocking_or_exec
claims_success = refl

set_flags_example :
    (let r = set_no_blocking flag_api (of_descriptor (pos 7)) stubborn in
      (flag_on 11 r.0.0 ≡ (if r.1 then true else flag_on 11 (pos 2)))
      × (flag_on 0 r.0.1 ≡ flag_on 0 (pos 0)))
    × (let r = set_exec_close flag_api (of_descriptor (pos 7)) stubborn in
        (flag_on 0 r.0.1 ≡ (if r.1 then true else flag_on 0 (pos 0)))
        × (flag_on 11 r.0.0 ≡ flag_on 11 (pos 2)))
    × (let r = set_no_blocking_or_exec flag_api (pos 7) stubborn in
        (flag_on 11 r.0.0 ≡ (if r.1 then true else flag_on 11 (pos 2)))
        × ((flag_on 0 r.0.1 ≡ flag_on 0 (pos 0)) ⊎ (r.1 ≡ true) × (flag_on 0 r.0.1 ≡ true)))
set_flags_example = set_flags flag_api flag_laws (of_descriptor (pos 7)) stubborn

-- One loop, at address 50, is the main loop and the one that serves.
abbrev serving_process : Process table_kernel
serving_process = record running {
  registry = record {
    main_loop = some 50;
    loops = (pos 100, 50) ∷ [];
    next_loops = 50 ∷ [];
    next = 0;
  };
}

fifty_next : (get_next_loop serving_process.registry).1 ≡ some 50
unfolding get_next_loop
fifty_next = refl

unknown_there : (fd : ℤ) → known table_kernel (view table_kernel 50 serving_process) fd ≡ none
unfolding find
unknown_there fd = refl

accepted_lem_example :
    (w' : Process table_kernel) × (accepted table_kernel false
        (pos 100)
        (pos 7)
        6
        11
        serving_process
      ≡ ok w')
    × ((w'.registry ≡ (get_next_loop serving_process.registry).0)
        × Served table_kernel false (pos 100) (pos 7) 50 6 11 serving_process w')
accepted_lem_example =
    accepted_lem table_kernel false (pos 100) (pos 7) 50 6 11 serving_process fifty_next (λ e. cc)
      (unknown_there (pos 7))

abbrev table_sockets : SocketApi TableState
table_sockets = record {
  socket = λ s d t p. (s, pos 7);
  bind = λ s fd a n. (s, pos 0);
  listen = λ s fd n. (s, pos 0);
  connect = λ s fd a n. (s, pos 0);
  accept = λ s fd a n. (s, pos 8, a);
  close = λ s fd. s;
  errno = λ s. pos 0;
  getfl = λ s fd. pos 2;
  setfl = λ s fd flags. (s, pos 0);
  getfd = λ s fd. pos 0;
  setfd = λ s fd flags. (s, pos 0);
}

abbrev address : NetAddress
address = NetAddress.make no_addr 2 (pos 8899) []

abbrev pub server : TcpServer
server = record {
  loop = none;
  server = record { socket = pos 7; state = opened };
  events = 6;
  addr = address;
  listen_backlog = 50;
}

abbrev with_server : Process table_kernel
with_server = put_event table_kernel 6 (make (pos 7) k_read_event (pos 100)) serving_process

makes_server :
    init table_kernel false (pos 100) table_sockets address 6 serving_process
    ≡ ok (with_server, server)
unfolding init asserted_call bind listen make
makes_server = refl

fifty_main : get_main_loop serving_process.registry ≡ some 50
unfolding get_main_loop
fifty_main = refl

init-start-Waits_example :
    (w'' : Process table_kernel) × (start table_kernel false (pos 100) 11 server with_server
      ≡ ok (w'', record server { loop = some 50 }, true))
    × Waits table_kernel 50 (pos 100) (pos 7) 6 11 w''
init-start-Waits_example =
    init-start-Waits table_kernel false (pos 100) table_sockets address 6 11 50 serving_process
      with_server server makes_server fifty_main (λ e. cc) refl (unknown_there (pos 7))

seven_pollin : bit 0 1 ≡ 1
unfolding bit
seven_pollin = refl

accepted-wakes_example :
    (w' : Process table_kernel) × (accepted table_kernel false
        (pos 200)
        (pos 7)
        6
        11
        serving_process
      ≡ ok w')
    × (handle_event table_kernel quitting
          (record { fd = pos 7; event = 1 })
          (view table_kernel 50 w')
        ≡ quitting 11 (view table_kernel 50 (woken table_kernel (pos 100) 6 11 1 w')))
accepted-wakes_example =
    accepted-wakes table_kernel false (pos 200) (pos 7) 50 6 11 serving_process 1 quitting refl
      fifty_next (λ e. cc) (unknown_there (pos 7)) (λ e. cc) seven_pollin
