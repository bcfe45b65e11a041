-- ===== src/TcpServer/Life.antt =====
-- The life of a server process (test/MultiThreadServer.cpp over base/TcpServer.cpp,
-- base/EventLoop.cpp, base/Eventsops.h and base/SysapiHook.cpp): what its threads do, in any order. A
-- step is what a thread does between two points where another thread may be seen: the part of a call
-- before its yield, the part behind it, a wait of a loop, the handling of one event up to the
-- coroutine that it resumes.
use fasco.Base.{ℕ, ◌≡◌, ◌≢◌, Bool, some, none, ◌⊎◌, sym, subst, List}
use fasco.Base.Int.{ℤ, int_eq}
use fasco.Base.Map.{find}
use fasco.Base.Outcome.{Outcome, ok, OnOk-at}
use fasco.Events.{Events}
use fasco.Kernel.{Kernel}
use fasco.McoPool.{McoPool}
use fasco.Epoll.{PollerEvent}
use fasco.EventLoop
use fasco.EventLoopPool.{get_loop, get_main_loop, empty}
use fasco.Process.{Process, view, put_event, put_loop, update_loop_events, remove_event_from_loop}
use fasco.Process.Sound.{Live, Fresh, Sound}
use fasco.Process.Steps.{
  Keeps, SameHome, put_event-Sound, put_sys-Sound, put_pools-Sound, update_loop_events-Sound,
  remove_event_from_loop-Sound,
}
use fasco.Process.Rounds.{wait, handle, wait-Sound, handle-Sound, quit-Sound}
use fasco.Process.Spawn.{NewLoop, spawn}
use fasco.Process.Started.{spawn-Sound}
use fasco.Hook.{Files, Call, read_begin, read_end, accept_begin, accept_end, close}
use fasco.Hook.Calls.{
  read_begin-Sound, read_end-Sound, accept_begin-Sound, accept_end-Sound, close-Sound,
}
use fasco.TcpServer.{TcpServer, start, accepted, client_read}
use fasco.TcpServer.Keeps.{start-Sound, accepted-Sound, client_read-Sound}

module _ (k : Kernel) (io : Files k) (ndebug hookable : Bool) where
  pub data Step (w w' : Process k) : Type 0 where
    -- A thread makes a loop and registers it. The kernel gives the new epoll instance a descriptor
    -- that no registered loop's poller has.
    spawns :
        (l p : ℕ) (tid : ℤ) (ismain b : Bool)
        → NewLoop k w l
        → Fresh k w p
        → ((a : ℕ) → Live k w a → (w.loops a).poll.epoll_fd ≢ (k.epoll_create w.sys).1)
        → spawn k ndebug l p tid ismain w ≡ ok (w', b)
        → Step w w'
    -- The server, whose object is of the main loop's thread, starts.
    starts :
        (tid : ℤ) (m : ℕ) (server server' : TcpServer) (b : Bool)
        → ((l : ℕ)
            → get_main_loop w.registry ≡ some l
            → (w.heap server.events).tid ≡ (w.loops l).tid)
        → start k ndebug tid m server w ≡ ok (w', server', b)
        → Step w w'
    accepts :
        (tid fd : ℤ) (p m : ℕ) → Fresh k w p → accepted k ndebug tid fd p m w ≡ ok w' → Step w w'
    client_reads :
        (tid fd ret : ℤ) (b : Bool)
        → client_read k ndebug tid io hookable fd ret w ≡ ok (w', b)
        → Step w w'
    read_begins :
        (tid fd : ℤ) (nbyte p : ℕ) (c : Call)
        → Fresh k w p
        → read_begin k io ndebug hookable tid fd nbyte p w ≡ ok (w', c)
        → Step w w'
    read_ends :
        (tid fd ret : ℤ) (nbyte p : ℕ)
        → read_end k io ndebug hookable tid fd nbyte p w ≡ ok (w', ret)
        → Step w w'
    accept_begins :
        (tid fd : ℤ) (p : ℕ) (c : Call)
        → Fresh k w p
        → accept_begin k io ndebug hookable tid fd p w ≡ ok (w', c)
        → Step w w'
    accept_ends :
        (tid fd ret : ℤ) (p : ℕ)
        → accept_end k io ndebug hookable tid fd p w ≡ ok (w', ret)
        → Step w w'
    closes : (tid fd ret : ℤ) → close k io ndebug hookable tid fd w ≡ ok (w', ret) → Step w w'
    -- Any thread hands any object to Eventsops.
    updates : (p : ℕ) (b : Bool) → update_loop_events k ndebug p w ≡ ok (w', b) → Step w w'
    removes : (p : ℕ) (b : Bool) → remove_event_from_loop k ndebug p w ≡ ok (w', b) → Step w w'
    -- Any object is changed, in all but its descriptor and its thread, or a new one is made.
    changes :
        (p : ℕ) (e : Events)
        → Fresh k w p ⊎ SameHome (w.heap p) e
        → w' ≡ put_event k p e w
        → Step w w'
    waits : (tries l : ℕ) (occur : List PollerEvent) → wait k tries l w ≡ ok (w', occur) → Step w w'
    handles : (l : ℕ) (pe : PollerEvent) → handle k l pe w ≡ ok w' → Step w w'
    quits :
        (caller : ℤ) (l : ℕ)
        → w' ≡ put_loop k l (EventLoop.quit k caller (view k l w)) w
        → Step w w'
    -- Coroutines are scheduled.
    schedules : (pools : ℤ → McoPool) → w' ≡ record w { pools = pools } → Step w w'
    -- Anything else in the kernel: data arrives, descriptors are made and closed.
    elsewhere :
        (s : k.State)
        → ((e j : ℤ) → (k.interest s e j ≡ k.interest w.sys e j) ⊎ (k.interest s e j ≡ none))
        → w' ≡ record w { sys = s }
        → Step w w'

  pub data Reach (w : Process k) : Process k → Type 0 where
    here : Reach w w
    later : {w' w'' : Process k} → Reach w w' → Step w' w'' → Reach w w''

  at_value :
      {A : Type 0} {w' : Process k} {a : A} (m : Outcome (Process k × A))
      → m ≡ ok (w', a)
      → Keeps k m
      → Sound k w'
  at_value m e h = OnOk-at (λ r. Sound k r.0) m e h

  -- No step of any thread breaks it.
  Step-Sound : (w w' : Process k) → Step w w' → Sound k w → Sound k w'
  Step-Sound w w' (spawns l p tid ismain b new fresh own e) s =
      at_value _ e (spawn-Sound k ndebug l p tid w s new fresh own ismain)
  Step-Sound w w' (starts tid m server server' b home e) s =
      OnOk-at {A = Process k × TcpServer × Bool} (λ r. Sound k r.0) _ e
        (start-Sound k ndebug tid m server w home s)
  Step-Sound w w' (accepts tid fd p m fresh e) s =
      OnOk-at (Sound k) _ e (accepted-Sound k ndebug tid fd p m w fresh s)
  Step-Sound w w' (client_reads tid fd ret b e) s =
      at_value _ e (client_read-Sound k ndebug tid io hookable fd ret w s)
  Step-Sound w w' (read_begins tid fd nbyte p c fresh e) s =
      at_value _ e (read_begin-Sound k io ndebug hookable tid fd nbyte p w fresh s)
  Step-Sound w w' (read_ends tid fd ret nbyte p e) s =
      at_value _ e (read_end-Sound k io ndebug hookable tid fd nbyte p w s)
  Step-Sound w w' (accept_begins tid fd p c fresh e) s =
      at_value _ e (accept_begin-Sound k io ndebug hookable tid fd p w fresh s)
  Step-Sound w w' (accept_ends tid fd ret p e) s =
      at_value _ e (accept_end-Sound k io ndebug hookable tid fd p w s)
  Step-Sound w w' (closes tid fd ret e) s =
      at_value _ e (close-Sound k io ndebug hookable tid fd w s)
  Step-Sound w w' (updates p b e) s = at_value _ e (update_loop_events-Sound k ndebug p w s)
  Step-Sound w w' (removes p b e) s = at_value _ e (remove_event_from_loop-Sound k ndebug p w s)
  Step-Sound w w' (changes p o f e) s = subst (Sound k) (sym e) (put_event-Sound k p o w f s)
  Step-Sound w w' (waits tries l occur e) s = at_value _ e (wait-Sound k tries l w s)
  Step-Sound w w' (handles l pe e) s = OnOk-at (Sound k) _ e (handle-Sound k l pe w s)
  Step-Sound w w' (quits caller l e) s = subst (Sound k) (sym e) (quit-Sound k caller l w s)
  Step-Sound w w' (schedules pools e) s = subst (Sound k) (sym e) (put_pools-Sound k pools w s)
  Step-Sound w w' (elsewhere t lists e) s = subst (Sound k) (sym e) (put_sys-Sound k t w lists s)

  -- A process without loops.
  empty-Sound : (w : Process k) → w.registry ≡ empty → Sound k w
  unfolding get_loop find
  empty-Sound w e = record {
    home = λ tid l h. absurd (cc);
    in_turn = λ i l h. absurd (cc);
    main = λ l h. absurd (cc);
    apart = λ a b la lb n. absurd (cc);
    own = λ l j p live h. absurd (cc);
    no_stray = λ l live. absurd (cc);
  }

  Reach-keeps : (w w' : Process k) → Reach w w' → Sound k w → Sound k w'
  Reach-keeps w w' here s = s
  Reach-keeps w w'' (later {w'} before step) s = Step-Sound w' w'' step (Reach-keeps w w' before s)

  -- Whatever the threads of a server do, from a process without loops on and in any order: the kernel
  -- watches nothing for a registered loop but what the loop knows, what a loop knows for a descriptor
  -- is an object of that descriptor and of the loop's thread, every loop is registered under the thread
  -- that it runs in, the loops that take turns and the main loop are registered, and no two loops share
  -- an epoll instance. This asks that loops and objects are made at addresses that no registered loop
  -- or thread has, that an object once made keeps its descriptor and its thread, that a new epoll
  -- instance gets a descriptor that no registered loop's has, and that the object of a server that is
  -- started is of the main loop's thread.
  pub Reach-Sound : (w w' : Process k) → w.registry ≡ empty → Reach w w' → Sound k w'
  Reach-Sound w w' e r = Reach-keeps w w' r (empty-Sound w e)
