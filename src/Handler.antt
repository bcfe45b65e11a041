-- ===== src/Handler.antt =====
-- base/Handler.h: DoHandle calls the handler until the object's state is DEL. What the virtual
-- doHandle does, with the time that it is given, is a parameter: it may do anything to the object and
-- to the rest of the world, `S`. The fuel bounds the calls; the source has no bound.
pub mod Done
use fasco.Base.{ℕ, zero, suc, Bool, true, false, not, if◌then◌else◌}
use fasco.Base.Outcome.{Outcome, ok, pending}
use fasco.Events.{Events, isdel}

module _ {S : Type 0} (do_handle_ : S → S) (events : S → Events) where
  -- `DoHandle(handler, events)`
  unfoldable pub do_handle : ℕ → S → Outcome S
  do_handle zero s = pending
  do_handle (suc fuel) s =
      let s' = do_handle_ s in
      let rest = do_handle fuel s' in if not (isdel (events s')) then rest else ok s'
