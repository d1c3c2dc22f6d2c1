-- ===== src/Probe/Malformed.antt =====
-- A lease that cannot be created, after its event was raised.
use n_dhcp.Base.{ℕ, ◌≡◌, refl, true, none, some, List, [], ◌∷◌, ◌++◌}
use n_dhcp.Protocol.{malformed, err}
use n_dhcp.Protocol.Opt
use n_dhcp.Incoming.{Incoming}
use n_dhcp.Incoming.Refine.{Parsed, lookup_option}
use n_dhcp.Incoming.Typed.{read_u32}
use n_dhcp.Lease
use n_dhcp.Lease.{get_timeouts}
use n_dhcp.Lease.Ordered.{get_timeouts-eq}
use n_dhcp.Probe.{
  Probe, Env, offer, granted_event, extended, selecting, requesting, renewing, raise,
}
use n_dhcp.Probe.Transitions.{transition_offer, transition_ack}

no_lease :
    (raw : List ℕ) (i : Incoming)
    → Parsed raw i
    → read_u32 (lookup_option raw Opt.ip_address_lease_time) ≡ err malformed
    → Lease.new true i ≡ some (err malformed)
unfolding Lease.new
no_lease raw i p short = rw (get_timeouts-eq raw i p, short) refl

-- If the lifetime option of a parsed OFFER or ACK is too short, the transition reports the message as
-- malformed, but the OFFER, GRANTED or EXTENDED event stays in the queue without a lease.
pub malformed-event :
    (env : Env) (p : Probe) (raw : List ℕ) (i : Incoming)
    → Parsed raw i
    → read_u32 (lookup_option raw Opt.ip_address_lease_time) ≡ err malformed
    → env.node_memory ≡ true
    → env.lease_memory ≡ true
    → (p.state ≡ selecting
        → transition_offer env p i
          ≡ some (record p { events = p.events ++ (offer none ∷ []) }, some malformed))
      × (p.state ≡ requesting
          → transition_ack env p i
            ≡ some (record p { events = p.events ++ (granted_event none ∷ []) }, some malformed))
      × (p.state ≡ renewing
          → transition_ack env p i
            ≡ some (record p { events = p.events ++ (extended none ∷ []) }, some malformed))
unfolding transition_offer transition_ack raise
malformed-event env p raw i parsed short nodes leases = (
  λ e. rw (e, nodes, leases, no_lease raw i parsed short) refl,
  λ e. rw (e, nodes, leases, no_lease raw i parsed short) refl,
  λ e. rw (e, nodes, leases, no_lease raw i parsed short) refl,
)
