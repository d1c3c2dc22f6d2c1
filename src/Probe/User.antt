-- ===== src/Probe/User.antt =====
-- The calls of n-dhcp4-c-lease.c that a user makes for a lease; a lease is linked if it stands in
-- the list of its probe.
use n_dhcp.Base.{ℕ, Bool, false, ◌||◌, not, Option, none, some, List, [], ◌∷◌, ◌==◌, if◌then◌else◌}
use n_dhcp.Protocol.{enotrecoverable}
use n_dhcp.Lease.{is_none}
use n_dhcp.Probe.{Probe, Env, Run, Held}
use n_dhcp.Probe.Transitions.{transition_select, transition_accept, transition_decline}

abbrev pub is_linked : ℕ → List Held → Bool
is_linked id [] = false
is_linked id (l ∷ ls) = l.id == id || is_linked id ls

abbrev pub is_current : ℕ → Option Held → Bool
is_current id none = false
is_current id (some l) = l.id == id

unfoldable pub lease_select : Env → Probe → Held → Run
lease_select env p l =
    if not (is_linked l.id p.lease_list)
    then some (p, some enotrecoverable)
    else if not (is_none p.current_lease)
    then some (p, some enotrecoverable)
    else transition_select env p l.message env.clock

unfoldable pub lease_accept : Env → Probe → Held → Run
lease_accept env p l =
    if not (is_linked l.id p.lease_list)
    then some (p, some enotrecoverable)
    else if not (is_current l.id p.current_lease)
    then some (p, some enotrecoverable)
    else transition_accept env p l.message

unfoldable pub lease_decline : Env → Probe → Held → Option (List ℕ) → Run
lease_decline env p l error =
    if not (is_linked l.id p.lease_list)
    then some (p, some enotrecoverable)
    else if not (is_current l.id p.current_lease)
    then some (p, some enotrecoverable)
    else transition_decline env p l.message error env.clock
