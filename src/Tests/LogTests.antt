-- ===== src/Tests/LogTests.antt =====
-- Tests of base/Log.cpp, base/Timestamp.cpp (toFormattedString), base/Handler.h and tools/CallStack.hpp.
use fasco.Base.{
  ℕ, ◌≡◌, refl, ◌≢◌, ◌∙◌, ap, sym, true, false, List, [], ◌∷◌, length, if◌then◌else◌, nat_beq,
  nat_beq_iff, Bool-cases, inl, inr, arith,
}
use fasco.Base.Map.{find, assign}
use fasco.Base.Int.{ℤ, pos}
use fasco.Base.Outcome.{ok, pending}
use fasco.Events.{set_state, State}
use fasco.Log.{Glog, Severity, info, warning, error, fatal, LogConf, Logging}
use fasco.Log.Open.{Destinations}
use fasco.Timestamp.Calendar.{
  Tm, calendar, formatted, to_formatted_string, length-to_formatted_string,
}
use fasco.Handler.{do_handle}
use fasco.CallStack.{CallStack, at_index, set_at, is_empty}
use fasco.CallStack
use fasco.Tests.Samples.{fresh_event}

abbrev code : Severity → ℕ
code info = 0
code warning = 1
code error = 2
code fatal = 3

abbrev severity : ℕ → Severity
severity n =
    if nat_beq n 0
    then info
    else if nat_beq n 1
    then warning
    else if nat_beq n 2
    then error
    else fatal

severity-code : (a : Severity) → severity (code a) ≡ a
severity-code info = refl
severity-code warning = refl
severity-code error = refl
severity-code fatal = refl

abbrev put : (Severity → List ℕ) → Severity → List ℕ → Severity → List ℕ
put s a d b = if nat_beq (code a) (code b) then d else s b

put-there : (s : Severity → List ℕ) (a : Severity) (d : List ℕ) → put s a d a ≡ d
put-there s a d = rw ((nat_beq_iff (code a) (code a)).1 refl) refl

put-elsewhere : (s : Severity → List ℕ) (a b : Severity) (d : List ℕ) → a ≢ b → put s a d b ≡ s b
put-elsewhere s a b d n = elim (Bool-cases (nat_beq (code a) (code b))) [
  | inl same ↦ absurd (
      n (
        sym (severity-code a)
        ∙ ap severity ((nat_beq_iff (code a) (code b)).0 same)
        ∙ severity-code b))
  | inr other ↦ simp other refl
]

abbrev table_glog : Glog
table_glog = record {
  State = Severity → List ℕ;
  access = λ s path. pos 0;
  init_google_logging = λ s name. ok s;
  set_log_destination = put;
  set_log_filename_extension = λ s e. s;
  shutdown = λ s. s;
  destination = λ s a. s a;
}

abbrev table_destinations : Destinations table_glog
table_destinations = record {
  set_there = put-there;
  set_elsewhere = put-elsewhere;
  extension_keeps = λ s e a. refl;
}

-- The directory "/a", the suffixes "w" and "n", and no limit.
abbrev conf : LogConf
conf = record {
  logdir = 47 ∷ 97 ∷ [];
  minlevelout = pos 2;
  warnsuffix = 119 ∷ [];
  noticesuffix = 110 ∷ [];
  logbufsecs = pos 0;
  maxlogsize = pos 0;
  logtostderr = false;
  alsologtostderr = true;
}

abbrev unopened : Logging table_glog
unopened = record {
  log = record { logdir_ = []; noticesuffix_ = []; warnsuffix_ = [] };
  flags = record {
    logbufsecs = pos 0;
    max_log_size = pos 0;
    stop_logging_if_full_disk = false;
    logtostderr = false;
    colorlogtostderr = false;
    alsologtostderr = false;
    minloglevel = pos 0;
  };
  sys = λ a. [];
}

-- 2001-09-09 01:46:40 and 7 microseconds.
abbrev gmtime : ℤ → Tm
gmtime s = calendar 101 8 9 1 46 40 7

length-to_formatted_string_example :
    (to_formatted_string gmtime (record { micro_seconds_since_epoch = pos 1000000000000007 })
      ≡ formatted (calendar 101 8 9 1 46 40 7) (pos 7))
    × (length
          (to_formatted_string gmtime (record { micro_seconds_since_epoch = pos 1000000000000007 }))
        ≡ 24)
length-to_formatted_string_example =
    length-to_formatted_string 101 8 9 1 46 40 7 gmtime 1000000000000007 refl (omega arith)
      (omega arith) (omega arith) (omega arith) (omega arith) (omega arith) refl

-- A handler that deletes the object in its first call, and one that never does.
handled_once :
    do_handle (set_state State.del) (λ e. e) 5 fresh_event ≡ ok (set_state State.del fresh_event)
unfolding do_handle
handled_once = refl

never_handled : do_handle (λ e. e) (λ e. e) 5 fresh_event ≡ pending
unfolding do_handle
never_handled = refl

-- Reading a position makes its entry.
read_makes : is_empty (at_index 9 0 (CallStack.make {T = ℕ})).0 ≡ false
unfolding is_empty at_index find assign
read_makes = refl
