-- ===== src/Tests/Samples.antt =====
-- A small world: an event loop on epoll descriptor 3 with its eventfd 4, and two connections.
use fasco.Base.{ℕ, [], ◌∷◌, none, true, false}
use fasco.Base.Int.{pos}
use fasco.Base.Outcome.{Outcome, ok}
use fasco.Events.{Events, State}
use fasco.Kernel.Table.{table_kernel, TableState, quiet}
use fasco.Kernel.{ready, interrupted}
use fasco.Epoll.{Epoll}
use fasco.EventLoop.{World, EventLoop}
use fasco.McoPool
use fasco.McoPool.{McoPool}

-- A NEW object for descriptor 7 that asks for reading.
abbrev pub fresh_event : Events
fresh_event = record {
  fd = pos 7;
  tid = pos 100;
  state = State.new;
  type = pos 0;
  eorigin = 3;
  mutable = 0;
}

abbrev pub poll : Epoll
poll = record { epoll_fd = pos 3; size = 20; capacity = 20; max_num = 20; add_step = 15 }

abbrev pub loop : EventLoop
loop = record {
  poll = poll;
  poll_delta = 200;
  events = [];
  tid = pos 100;
  quit_ = false;
  wake_fd = pos 4;
  wake_event = 0;
}

-- The object at every address is the given one.
abbrev pub world : Events → World table_kernel
world e = record { loop = loop; heap = λ a. e; sys = quiet; pool = McoPool.empty }

-- The loop knows the object at address 1 for descriptor 7, and coroutine 9 waits for it.
abbrev pub serving : Events → World table_kernel
serving e = record (world e) {
  loop = record loop { events = (pos 7, 1) ∷ [] };
  pool = record { cur = none; fd_mcos = (pos 7, 9) ∷ [] };
}

-- A coroutine that ends the loop, and touches nothing else.
abbrev pub quitting : ℕ → World table_kernel → Outcome (World table_kernel)
quitting m w = ok (record w { loop = record (w.loop) { quit_ = true } })

-- One interruption, then an event for descriptor 7.
abbrev pub script : TableState
script = record quiet {
  script = interrupted ∷ ready (record { events = 1; data_fd = pos 7 } ∷ []) ∷ [];
}
