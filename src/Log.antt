-- ===== src/Log.antt =====
-- base/Log.h and base/Log.cpp. glog and access(2) are an interface; the FLAGS_ variables of glog that
-- the program assigns are a record. Strings are lists of bytes. The singleton's creation is not
-- synchronised in the source and is one step here; its outlevel_ is never written. Messages to
-- std::cerr are left out.
pub mod Open
use fasco.Base.{
  ℕ, Bool, true, false, not, Option, none, some, List, [], ◌∷◌, ◌++◌, if◌then◌else◌, ◌==◌,
}
use fasco.Base.Int.{ℤ, pos, is_pos, int_eq}
use fasco.Base.Outcome.{Outcome, ok, fault, null_deref, ◌>>=◌}

-- LOG_WARN
abbrev pub log_warn : ℤ
log_warn = pos 2

pub record LogConf : Type 0 where
  pub logdir : List ℕ
  pub minlevelout : ℤ
  pub warnsuffix : List ℕ
  pub noticesuffix : List ℕ
  pub logbufsecs : ℤ
  pub maxlogsize : ℤ
  pub logtostderr : Bool
  pub alsologtostderr : Bool

-- `LogConf::init()` writes every field.
abbrev pub conf_init : LogConf → LogConf × Bool
conf_init conf = (
  record {
    logdir = [];
    minlevelout = log_warn;
    warnsuffix = [];
    noticesuffix = [];
    logbufsecs = pos 0;
    maxlogsize = pos 10;
    logtostderr = false;
    alsologtostderr = false;
  },
  true,
)

pub record CommonLog : Type 0 where
  pub logdir_ : List ℕ
  pub noticesuffix_ : List ℕ
  pub warnsuffix_ : List ℕ

pub record Flags : Type 0 where
  pub logbufsecs : ℤ
  pub max_log_size : ℤ
  pub stop_logging_if_full_disk : Bool
  pub logtostderr : Bool
  pub colorlogtostderr : Bool
  pub alsologtostderr : Bool
  pub minloglevel : ℤ

-- google::GLOG_INFO, GLOG_WARNING, GLOG_ERROR, GLOG_FATAL.
pub data Severity : Type 0 where
  info warning error fatal : Severity

pub record Glog : Type 1 where
  pub State : Type 0
  -- access(path, F_OK|W_OK|R_OK): 0, or -1.
  pub access : State → List ℕ → ℤ
  -- A second call without a shutdown between is fatal.
  pub init_google_logging : State → List ℕ → Outcome State
  pub set_log_destination : State → Severity → List ℕ → State
  pub set_log_filename_extension : State → List ℕ → State
  pub shutdown : State → State
  -- The base name of the file that a severity goes to.
  pub destination : State → Severity → List ℕ

-- "/" and ".log."
abbrev pub slash : List ℕ
slash = 47 ∷ []

abbrev pub extension : List ℕ
extension = 46 ∷ 108 ∷ 111 ∷ 103 ∷ 46 ∷ []

module _ (glog : Glog) where
  -- The logger, glog's flags, and glog.
  pub record Logging : Type 0 where
    pub log : CommonLog
    pub flags : Flags
    pub sys : glog.State

  -- The four destinations.
  unfoldable pub set_destinations : CommonLog → glog.State → glog.State
  set_destinations l s =
      let fataldir = l.logdir_ ++ slash ++ l.warnsuffix_ in
      let errordir = l.logdir_ ++ slash ++ l.warnsuffix_ in
      let warndir = l.logdir_ ++ slash ++ l.warnsuffix_ in
      let noticedir = l.logdir_ ++ slash ++ l.noticesuffix_ in
      let s₁ = glog.set_log_destination s fatal fataldir in
      let s₂ = glog.set_log_destination s₁ error errordir in
      let s₃ = glog.set_log_destination s₂ warning warndir in
      glog.set_log_destination s₃ info noticedir

  unfoldable pub set_flags_of : LogConf → Flags → Flags
  set_flags_of conf f = record f {
    logbufsecs = conf.logbufsecs;
    max_log_size = if is_pos conf.maxlogsize then conf.maxlogsize else pos 6;
    stop_logging_if_full_disk = true;
    logtostderr = conf.logtostderr;
    colorlogtostderr = conf.logtostderr;
    alsologtostderr = conf.alsologtostderr;
    minloglevel = conf.minlevelout;
  }

  -- `openLog(conf)` once the directory has been looked at.
  unfoldable pub open_in : LogConf → Logging → Outcome (Logging × Bool)
  unfolding set_destinations set_flags_of
  open_in conf w = do
    s ← glog.init_google_logging w.sys []
    let log = record (w.log) { noticesuffix_ = conf.noticesuffix; warnsuffix_ = conf.warnsuffix }
    let s' = glog.set_log_filename_extension (set_destinations log s) extension
    ok (record { log = log; flags = set_flags_of conf w.flags; sys = s' }, true)

  -- `openLog(conf)`
  unfoldable pub open_log : LogConf → Logging → Outcome (Logging × Bool)
  unfolding open_in
  open_log conf w =
      let w' = record w { log = record (w.log) { logdir_ = conf.logdir } } in
      if not (glog.access w.sys conf.logdir == pos 0) then ok (w', false) else open_in conf w'

  -- `closeLog()`, and `~CommonLog()`.
  abbrev pub close_log : Logging → Logging
  close_log w = record w { sys = glog.shutdown w.sys }

-- `Instance()`: with `made` as what `new (std::nothrow) CommonLog()` gives.
abbrev pub instance_of : Option CommonLog → Option CommonLog → Option CommonLog
instance_of none made = made
instance_of (some log) made = some log

module _ (glog : Glog) where
  -- The process: `logger_`, the flags and glog.
  pub record Process : Type 0 where
    pub logger : Option CommonLog
    pub flags : Flags
    pub sys : glog.State

  abbrev put : Logging glog → Process
  put w = record { logger = some w.log; flags = w.flags; sys = w.sys }

  open_through : Option CommonLog → LogConf → Process → Outcome (Process × Bool)
  unfolding open_log
  open_through none conf p = fault null_deref
  open_through (some log) conf p =
      open_log glog conf (record { log = log; flags = p.flags; sys = p.sys }) >>= λ r.
      ok (put r.0, r.1)

  -- `OpenLog(conf)` and `CloseLog()`
  unfoldable pub open_common : Option CommonLog → LogConf → Process → Outcome (Process × Bool)
  unfolding open_through
  open_common made conf p = open_through (instance_of p.logger made) conf p

  close_through : Option CommonLog → Process → Outcome Process
  close_through none p = fault null_deref
  close_through (some log) p =
      ok (put (close_log glog (record { log = log; flags = p.flags; sys = p.sys })))

  unfoldable pub close_common : Option CommonLog → Process → Outcome Process
  unfolding close_through
  close_common made p = close_through (instance_of p.logger made) p
