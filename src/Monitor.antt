-- ===== src/Monitor.antt =====
-- fengnet-src/fengnet_monitor.cpp: the watch over the worker threads for endless loops. The version
-- is an `int` held by its bits.
pub mod Suspect
use fengnet.Base.{
  ℕ, ◌+◌, ◌%◌, ◌^◌, Bool, true, false, not, ◌&&◌, Option, none, some, ◌==◌, if◌then◌else◌,
}
use fengnet.Server.{Node, inc, context_endless}

-- `fengnet_monitor`.
pub record Monitor : Type 0 where
  pub version : ℕ
  pub check_version : ℕ
  pub source : ℕ
  pub destination : ℕ

-- `fengnet_monitor_new`.
abbrev pub monitor_new : Monitor
monitor_new = record { version = 0; check_version = 0; source = 0; destination = 0 }

-- `fengnet_monitor_trigger`.
abbrev pub monitor_trigger : ℕ → ℕ → Monitor → Monitor
monitor_trigger source destination sm = record sm {
  source = source;
  destination = destination;
  version = inc sm.version;
}

-- The two tests before the call of `fengnet_context_endless`.
abbrev pub suspects : Monitor → Bool
suspects sm = (sm.version == sm.check_version) && not (sm.destination == 0)

-- The `else` of `fengnet_monitor_check`; where it is not taken the versions are the same.
abbrev pub checked : Monitor → Monitor
checked sm = record sm {
  check_version = if sm.version == sm.check_version then sm.check_version else sm.version;
}

-- `fengnet_monitor_check`, less its log line.
unfoldable pub with_monitor : Monitor → Option Node → Option (Monitor × Node)
with_monitor sm none = none
with_monitor sm (some n) = some (sm, n)

unfoldable pub monitor_check : Monitor → Node → Option (Monitor × Node)
monitor_check sm n =
    let marked = with_monitor (checked sm) (context_endless sm.destination n) in
    if suspects sm then marked else some (checked sm, n)
