-- ===== src/Probe/Graph.antt =====
-- The state machine of a probe.
use n_dhcp.Base.{◌≡◌, true}
use n_dhcp.Probe.{
  State, init, init_reboot, selecting, rebooting, requesting, granted, bound, renewing, rebinding,
}
use n_dhcp.Probe.Transitions.{has_lease, is_pending}

pub data Edge : State → State → Type 0 where
  stays : (s : State) → Edge s s
  reboots : Edge init_reboot rebooting
  discovers : Edge init selecting
  rediscovers : Edge rebooting selecting
  selects : Edge selecting requesting
  grants : Edge requesting granted
  regrants : Edge rebooting granted
  accepts : Edge granted bound
  declines : Edge granted init
  renews : Edge bound renewing
  rebinds : Edge bound rebinding
  rebinds_late : Edge renewing rebinding
  extends : Edge renewing bound
  extends_late : Edge rebinding bound
  expires : (s : State) → has_lease s ≡ true → Edge s init
  retracts : (s : State) → is_pending s ≡ true → Edge s init
