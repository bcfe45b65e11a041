-- ===== src/Kernel/Table.antt =====
-- A kernel that can be run: interest lists as a function, and a script of replies to epoll_wait.
-- Descriptors below 0 are bad.
use fasco.Base.{
  ℕ, zero, suc, ◌+◌, ◌≤◌, ◌≡◌, refl, ◌≢◌, Option, none, some, List, [], ◌∷◌, length, if◌then◌else◌,
  ◌==◌, is_some, ◌&&◌, ◌||◌, arith,
}
use fasco.Base.Int.{ℤ, pos, minus_one, is_neg, int_eq, int_beq_iff}
use fasco.Events.{EpollEvent}
use fasco.Kernel.{Kernel, CtlOp, ctl_add, ctl_mod, ctl_del, WaitReply, ready, interrupted, failed}

pub record TableState : Type 0 where
  pub watched : ℤ → ℤ → Option ℕ
  pub script : List WaitReply
  pub wakes : ℕ

abbrev watch : TableState → ℤ → ℤ → Option ℕ → TableState
watch s epfd fd m = record s { watched = λ e j. if e == epfd && fd == j then m else s.watched e j }

abbrev pub ctl : TableState → ℤ → CtlOp → ℤ → EpollEvent → TableState × ℤ
ctl s epfd ctl_add fd ev =
    if is_neg fd || is_some (s.watched epfd fd)
    then (s, minus_one)
    else (watch s epfd fd (some ev.events), pos 0)
ctl s epfd ctl_mod fd ev =
    if is_some (s.watched epfd fd)
    then (watch s epfd fd (some ev.events), pos 0)
    else (s, minus_one)
ctl s epfd ctl_del fd ev =
    if is_some (s.watched epfd fd) then (watch s epfd fd none, pos 0) else (s, minus_one)

abbrev pub first : ℕ → List EpollEvent → List EpollEvent
first zero xs = []
first (suc n) [] = []
first (suc n) (x ∷ xs) = x ∷ first n xs

length-first-le : (n : ℕ) (xs : List EpollEvent) → length (first n xs) ≤ n
length-first-le zero xs = omega arith
length-first-le (suc n) [] = omega arith
length-first-le (suc n) (x ∷ xs) = omega (arith, length-first-le n xs)

abbrev cut : ℕ → WaitReply → WaitReply
cut n (ready events) = ready (first n events)
cut n interrupted = interrupted
cut n failed = failed

abbrev pub wait_from : TableState → ℕ → List WaitReply → TableState × WaitReply
wait_from s n [] = (s, ready [])
wait_from s n (r ∷ rest) = (record s { script = rest }, cut n r)

abbrev pub wait : TableState → ℤ → ℕ → ℕ → TableState × WaitReply
wait s epfd n timeout = wait_from s n s.script

cut-fits :
    (n : ℕ) (r : WaitReply) (events : List EpollEvent) → cut n r ≡ ready events → length events ≤ n
cut-fits n (ready xs) events h = ground (arith, length-first-le n xs)
cut-fits n interrupted events h = ground arith
cut-fits n failed events h = ground arith

pub wait_from-fits :
    (s : TableState) (n : ℕ) (script : List WaitReply) (events : List EpollEvent)
    → (wait_from s n script).1 ≡ ready events
    → length events ≤ n
wait_from-fits s n [] events h = ground arith
wait_from-fits s n (r ∷ rest) events h = cut-fits n r events h

pub wait_from-watched :
    (s : TableState) (n : ℕ) (script : List WaitReply) (epfd j : ℤ)
    → (wait_from s n script).0.watched epfd j ≡ s.watched epfd j
wait_from-watched s n [] epfd j = refl
wait_from-watched s n (r ∷ rest) epfd j = refl

module _ (s : TableState) (epfd fd : ℤ) (ev : EpollEvent) where
  pub add_was_new : (ctl s epfd ctl_add fd ev).1 ≢ minus_one → s.watched epfd fd ≡ none
  add_was_new h = ground arith

  pub mod_was_there : (ctl s epfd ctl_mod fd ev).1 ≢ minus_one → s.watched epfd fd ≢ none
  mod_was_there h = ground arith

  pub add_effect :
      (j : ℤ)
      → (ctl s epfd ctl_add fd ev).1 ≢ minus_one
      → (ctl s epfd ctl_add fd ev).0.watched epfd j
        ≡ (if fd == j then some ev.events else s.watched epfd j)
  add_effect j h = ground (arith, int_beq_iff epfd epfd)

  pub mod_effect :
      (j : ℤ)
      → (ctl s epfd ctl_mod fd ev).1 ≢ minus_one
      → (ctl s epfd ctl_mod fd ev).0.watched epfd j
        ≡ (if fd == j then some ev.events else s.watched epfd j)
  mod_effect j h = ground (arith, int_beq_iff epfd epfd)

  pub del_effect :
      (j : ℤ)
      → (ctl s epfd ctl_del fd ev).0.watched epfd j ≡ (if fd == j then none else s.watched epfd j)
  del_effect j = ground (arith, int_beq_iff epfd epfd, int_beq_iff fd j)

  pub ctl_refused :
      (j : ℤ) (op : CtlOp)
      → (ctl s epfd op fd ev).1 ≡ minus_one
      → (ctl s epfd op fd ev).0.watched epfd j ≡ s.watched epfd j
  ctl_refused j ctl_add h = ground arith
  ctl_refused j ctl_mod h = ground arith
  ctl_refused j ctl_del h = ground arith

pub ctl_elsewhere :
    (s : TableState) (epfd fd other j : ℤ) (op : CtlOp) (ev : EpollEvent)
    → other ≢ epfd
    → (ctl s epfd op fd ev).0.watched other j ≡ s.watched other j
ctl_elsewhere s epfd fd other j ctl_add ev h = ground (arith, int_beq_iff other epfd)
ctl_elsewhere s epfd fd other j ctl_mod ev h = ground (arith, int_beq_iff other epfd)
ctl_elsewhere s epfd fd other j ctl_del ev h = ground (arith, int_beq_iff other epfd)

-- epoll descriptor 3; every eventfd transfer is whole.
abbrev pub table_kernel : Kernel
table_kernel = record {
  State = TableState;
  epoll_create =
      λ s. (record s { watched = λ e j. if pos 3 == e then none else s.watched e j }, pos 3);
  epoll_ctl = ctl;
  epoll_wait = wait;
  eventfd = λ s. (s, pos 4);
  read_eventfd = λ s fd. (s, pos 8);
  write_eventfd = λ s fd. (record s { wakes = s.wakes + 1 }, pos 8);
  interest = λ s. s.watched;
  create_effect = λ s epfd j. refl;
  eventfd_interest = λ s epfd j. refl;
  add_was_new = add_was_new;
  mod_was_there = mod_was_there;
  add_effect = λ s epfd fd j ev. add_effect s epfd fd ev j;
  mod_effect = λ s epfd fd j ev. mod_effect s epfd fd ev j;
  del_effect = λ s epfd fd j ev. del_effect s epfd fd ev j;
  ctl_refused = λ s epfd fd j op ev. ctl_refused s epfd fd ev j op;
  ctl_elsewhere = ctl_elsewhere;
  wait_elsewhere = λ s epfd other j n timeout. wait_from-watched s n s.script other j;
  wait_fits = λ s epfd n timeout events. wait_from-fits s n s.script events;
  wait_interest = λ s epfd j n timeout. wait_from-watched s n s.script epfd j;
  read_interest = λ s fd epfd j. refl;
  write_interest = λ s fd epfd j. refl;
}

-- Nothing is watched, and every wait comes back empty.
abbrev pub quiet : TableState
quiet = record { watched = λ e j. none; script = []; wakes = 0 }
