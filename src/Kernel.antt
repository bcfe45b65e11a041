-- ===== src/Kernel.antt =====
-- The system calls under an event loop, which the program calls and does not implement: epoll(7)
-- and eventfd(2). An interface: the operations, and what their manual pages say of them.
pub mod Table
use fasco.Base.{ℕ, ◌≤◌, ◌≡◌, ◌≢◌, Option, none, some, List, length, if◌then◌else◌, ◌==◌}
use fasco.Base.Int.{ℤ, minus_one, int_eq}
use fasco.Events.{EpollEvent}

-- EPOLL_CTL_ADD, EPOLL_CTL_MOD, EPOLL_CTL_DEL.
pub data CtlOp : Type 0 where
  ctl_add ctl_mod ctl_del : CtlOp

-- What epoll_wait comes back with: events, or -1 with errno EINTR, or -1 with another errno.
pub data WaitReply : Type 0 where
  ready : List EpollEvent → WaitReply
  interrupted : WaitReply
  failed : WaitReply

pub record Kernel : Type 1 where
  pub State : Type 0
  -- The new descriptor, or -1.
  pub epoll_create : State → State × ℤ
  -- epoll_ctl(epfd, op, fd, event): 0, or -1.
  pub epoll_ctl : State → ℤ → CtlOp → ℤ → EpollEvent → State × ℤ
  -- epoll_wait(epfd, _, maxevents, timeout).
  pub epoll_wait : State → ℤ → ℕ → ℕ → State × WaitReply
  -- eventfd(0, EFD_NONBLOCK | EFD_CLOEXEC): the new descriptor, or -1.
  pub eventfd : State → State × ℤ
  -- `read` and `write` of the eight bytes of an eventfd: how many bytes, or -1.
  pub read_eventfd : State → ℤ → State × ℤ
  pub write_eventfd : State → ℤ → State × ℤ
  -- The interest list: the mask under which an epoll descriptor watches a descriptor.
  pub interest : State → ℤ → ℤ → Option ℕ
  -- A new epoll instance watches nothing; the others are as they were.
  pub create_effect :
      (s : State) (epfd j : ℤ)
      → interest (epoll_create s).0 epfd j
        ≡ (if (epoll_create s).1 == epfd then none else interest s epfd j)
  pub eventfd_interest :
      (s : State) (epfd j : ℤ) → interest (eventfd s).0 epfd j ≡ interest s epfd j
  -- EEXIST: what is added was not in the list.
  pub add_was_new :
      (s : State) (epfd fd : ℤ) (ev : EpollEvent)
      → (epoll_ctl s epfd ctl_add fd ev).1 ≢ minus_one
      → interest s epfd fd ≡ none
  -- ENOENT: what is modified was in the list.
  pub mod_was_there :
      (s : State) (epfd fd : ℤ) (ev : EpollEvent)
      → (epoll_ctl s epfd ctl_mod fd ev).1 ≢ minus_one
      → interest s epfd fd ≢ none
  pub add_effect :
      (s : State) (epfd fd j : ℤ) (ev : EpollEvent)
      → (epoll_ctl s epfd ctl_add fd ev).1 ≢ minus_one
      → interest (epoll_ctl s epfd ctl_add fd ev).0 epfd j
        ≡ (if fd == j then some ev.events else interest s epfd j)
  pub mod_effect :
      (s : State) (epfd fd j : ℤ) (ev : EpollEvent)
      → (epoll_ctl s epfd ctl_mod fd ev).1 ≢ minus_one
      → interest (epoll_ctl s epfd ctl_mod fd ev).0 epfd j
        ≡ (if fd == j then some ev.events else interest s epfd j)
  -- Whether or not it succeeds: a descriptor that cannot be taken off was not in the list.
  pub del_effect :
      (s : State) (epfd fd j : ℤ) (ev : EpollEvent)
      → interest (epoll_ctl s epfd ctl_del fd ev).0 epfd j
        ≡ (if fd == j then none else interest s epfd j)
  -- A call that fails changes nothing.
  pub ctl_refused :
      (s : State) (epfd fd j : ℤ) (op : CtlOp) (ev : EpollEvent)
      → (epoll_ctl s epfd op fd ev).1 ≡ minus_one
      → interest (epoll_ctl s epfd op fd ev).0 epfd j ≡ interest s epfd j
  -- One epoll instance has nothing to do with another's list.
  pub ctl_elsewhere :
      (s : State) (epfd fd other j : ℤ) (op : CtlOp) (ev : EpollEvent)
      → other ≢ epfd
      → interest (epoll_ctl s epfd op fd ev).0 other j ≡ interest s other j
  -- No more events than there is room for.
  pub wait_fits :
      (s : State) (epfd : ℤ) (maxevents timeout : ℕ) (events : List EpollEvent)
      → (epoll_wait s epfd maxevents timeout).1 ≡ ready events
      → length events ≤ maxevents
  pub wait_interest :
      (s : State) (epfd j : ℤ) (maxevents timeout : ℕ)
      → interest (epoll_wait s epfd maxevents timeout).0 epfd j ≡ interest s epfd j
  pub wait_elsewhere :
      (s : State) (epfd other j : ℤ) (maxevents timeout : ℕ)
      → interest (epoll_wait s epfd maxevents timeout).0 other j ≡ interest s other j
  pub read_interest :
      (s : State) (fd epfd j : ℤ) → interest (read_eventfd s fd).0 epfd j ≡ interest s epfd j
  pub write_interest :
      (s : State) (fd epfd j : ℤ) → interest (write_eventfd s fd).0 epfd j ≡ interest s epfd j
