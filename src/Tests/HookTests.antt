-- ===== src/Tests/HookTests.antt =====
-- Tests of base/SysapiHook.cpp and base/Eventsops.h.
use fasco.Base.{
  ◌≡◌, refl, Bool, true, false, not, ◌&&◌, none, some, [], ◌∷◌, inl, if◌then◌else◌, ◌==◌,
}
use fasco.Base.Int.{ℤ, pos, int_eq}
use fasco.Base.Map.{find}
use fasco.Base.Outcome.{ok}
use fasco.Kernel.Table.{table_kernel, quiet}
use fasco.McoPool.{get_mco_routine}
use fasco.McoRoutine.{same_mco}
use fasco.EventLoop.{World, update_events}
use fasco.EventLoop.Step.{known, watches}
use fasco.EventLoop.Total.{update_events_returns}
use fasco.EventLoopPool
use fasco.Process.{Process, view}
use fasco.Hook.{Files, close}
use fasco.Hook.Session.{woken}
use fasco.Hook.Close.{close_lem}
use fasco.Tests.Samples.{fresh_event, loop, world}

-- Every descriptor blocks, and every transfer is of five bytes.
abbrev pub table_files : Files table_kernel
table_files = record {
  getfl = λ s fd. pos 2;
  setfl = λ s fd flags. s;
  uni_read = λ s fd nbyte. (s, pos 5);
  uni_accept = λ s fd. (s, pos 8);
  uni_close = λ s fd. (s, pos 0);
  read_keeps = λ s fd nbyte epfd j. refl;
  setfl_keeps = λ s fd flags epfd j. refl;
  close_drops = λ s fd epfd j. inl refl;
  accept_keeps = λ s fd epfd j. refl;
}

-- One loop, at address 50 in thread 100, in which coroutine 9 runs.
abbrev pub running : Process table_kernel
running = record {
  loops = λ a. loop;
  heap = λ a. fresh_event;
  sys = quiet;
  pools = λ t. record { cur = some 9; fd_mcos = [] };
  registry = record EventLoopPool.empty { loops = (pos 100, 50) ∷ [] };
}

fd_blocks : EventLoopPool.get_loop (pos 100) running.registry ≡ some 50
unfolding EventLoopPool.get_loop find
fd_blocks = refl

unknown : known table_kernel (view table_kernel 50 running) (pos 7) ≡ none
unfolding find
unknown = refl

update_events_returns_example :
    (w' : World table_kernel) × (b : Bool) × (update_events table_kernel false 1 (world fresh_event)
      ≡ ok (w', b))
update_events_returns_example =
    update_events_returns table_kernel false 1 (world fresh_event) (λ e. cc) (λ e. unknown)
      (λ e. absurd (cc))

-- Coroutine 9 waits for descriptor 7 with the object at address 1.
abbrev waiting_process : Process table_kernel
waiting_process = record running {
  loops = λ a. record loop { events = (pos 7, 1) ∷ [] };
  pools = λ t. record { cur = some 9; fd_mcos = (pos 7, 9) ∷ [] };
}

abbrev nine_awake : Process table_kernel
nine_awake = woken table_kernel (pos 100) 1 9 17 waiting_process

seven_known : known table_kernel (view table_kernel 50 waiting_process) (pos 7) ≡ some 1
unfolding find
seven_known = refl

close_lem_example :
    (w' : Process table_kernel) × (close table_kernel table_files false true
        (pos 100)
        (pos 7)
        waiting_process
      ≡ ok (w', pos 0))
    × ((j : ℤ)
        → known table_kernel (view table_kernel 50 w') j ≡ (
            if not false && pos 7 == j
            then none
            else known table_kernel (view table_kernel 50 waiting_process) j))
    × ((j : ℤ)
        → watches table_kernel (view table_kernel 50 w') j ≡ (
            if pos 7 == j
            then none
            else watches table_kernel (view table_kernel 50 waiting_process) j))
    × ((j : ℤ)
        → get_mco_routine j (w'.pools (pos 100))
          ≡ (if pos 7 == j then none else get_mco_routine j (waiting_process.pools (pos 100))))
    × ((w'.pools (pos 100)).cur ≡ (
        if same_mco (some 9) (get_mco_routine (pos 7) (waiting_process.pools (pos 100)))
        then none
        else some 9))
close_lem_example =
    close_lem table_kernel table_files false 50 (pos 100) (pos 7) waiting_process fd_blocks
      (λ e. cc) (1, seven_known, refl, refl)
