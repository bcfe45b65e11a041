-- ===== src/Log/Open.antt =====
-- openLog of base/Log.cpp: where the messages go afterwards, and what a refusal leaves.
use fasco.Base.{ℕ, ◌≡◌, ◌≢◌, List}
use fasco.Base.Int.{int_eq}
use fasco.Log.{Glog, Severity, info, warning, error, fatal, LogConf}

-- What glog promises of destinations.
pub record Destinations (glog : Glog) : Type 0 where
  pub set_there :
      (s : glog.State) (a : Severity) (d : List ℕ)
      → glog.destination (glog.set_log_destination s a d) a ≡ d
  pub set_elsewhere :
      (s : glog.State) (a b : Severity) (d : List ℕ)
      → a ≢ b
      → glog.destination (glog.set_log_destination s a d) b ≡ glog.destination s b
  pub extension_keeps :
      (s : glog.State) (e : List ℕ) (a : Severity)
      → glog.destination (glog.set_log_filename_extension s e) a ≡ glog.destination s a

-- The suffix of a severity's file.
abbrev pub suffix : LogConf → Severity → List ℕ
suffix conf info = conf.noticesuffix
suffix conf warning = conf.warnsuffix
suffix conf error = conf.warnsuffix
suffix conf fatal = conf.warnsuffix
