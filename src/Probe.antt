-- ===== src/Probe.antt =====
-- n-dhcp4-c-probe.c: a probe, which obtains and keeps a lease. The object is its state, its
-- connection, its leases and the events that it raised at the client. What the allocator, system
-- calls, clocks and random numbers give to one call is an argument; freeing memory and log
-- messages are left out.
pub mod Transitions
pub mod Runs
pub mod Graph
pub mod Inv
pub mod User
pub mod Steps
pub mod Malformed
pub mod InTime
pub mod Progress
mod Tests
use n_dhcp.Base.{
  ℕ, ◌+◌, Bool, true, false, not, Option, none, some, List, [], ◌∷◌, ◌++◌, ◌==◌, if◌then◌else◌,
  ◌>>=◌,
}
use n_dhcp.Protocol.{Error, no_space, enomem, Result, ok, err}
use n_dhcp.Incoming.{Incoming}
use n_dhcp.Outgoing.{Outgoing, append}
use n_dhcp.Outgoing.Carries.{Item}
use n_dhcp.Lease
use n_dhcp.Lease.{Timeouts, get_timeouts}
use n_dhcp.Connection.{Connection}
use n_dhcp.Connection.Io.{start_request}

-- N_DHCP4_CLIENT_PROBE_STATE_*
pub data State : Type 0 where
  init init_reboot selecting rebooting requesting granted bound renewing rebinding expired : State

abbrev pub code : State → ℕ
code init = 0
code init_reboot = 1
code selecting = 2
code rebooting = 3
code requesting = 4
code granted = 5
code bound = 6
code renewing = 7
code rebinding = 8
code expired = 9

abbrev pub in_state : State → State → Bool
in_state s t = code s == code t

-- A lease object, by the number of its creation.
pub record Held : Type 0 where
  pub id : ℕ
  pub message : Incoming
  pub timeouts : Timeouts

-- The events of a probe; the lease of an event is set after the event was raised.
pub data Event : Type 0 where
  offer granted_event extended : Option Held → Event
  retracted expired_event cancelled : Event

-- `struct NDhcp4ClientProbe`, with the events of the client, its `preempted` flag, and the number
-- of leases created. The options are those of the configuration, in their order.
pub record Probe : Type 0 where
  pub options : List Item
  pub state : State
  pub last_address : ℕ
  pub ns_deferred : ℕ
  pub ns_reinit : ℕ
  pub ns_nak_restart_delay : ℕ
  pub ns_decline_restart_delay : ℕ
  pub current_lease : Option Held
  pub lease_list : List Held
  pub events : List Event
  pub n_leases : ℕ
  pub preempted : Bool
  pub connection : Connection

-- What the surroundings give to one call.
pub record Env : Type 0 where
  pub memory : ℕ → Bool
  pub node_memory : Bool
  pub lease_memory : Bool
  pub socket : Option Error
  pub epoll : Option Error
  pub shutdown : Option Error
  pub xid : ℕ
  pub jitter : ℕ
  pub clock : ℕ

abbrev pub Run : Type 0
Run = Option (Probe × Option Error)

-- n_dhcp4_client_probe_outgoing_append_options, from the k-th option on: the options that do not
-- fit are left out.
abbrev pub stop_at : Error → Outgoing → Result Outgoing
stop_at no_space o = ok o
stop_at e o = err e

unfoldable pub append_options : (ℕ → Bool) → ℕ → List Item → Outgoing → Option (Result Outgoing)
append_options memory k [] o = some (ok o)
append_options memory k ((option, value) ∷ xs) o = elim (append (memory k) o option value) [
  | none ↦ none
  | some (o', none) ↦ append_options memory (k + 1) xs o'
  | some (o', some e) ↦ some (stop_at e o')
]

-- The connection after a call of one of its functions, and what follows if it returned 0.
abbrev pub with_connection : Probe → Option (Connection × Option Error) → (Probe → Run) → Run
with_connection p none k = none
with_connection p (some (c, none)) k = k (record p { connection = c })
with_connection p (some (c, some e)) k = some (record p { connection = c }, some e)

abbrev pub with_request : Probe → Option (Result Outgoing) → (Outgoing → Run) → Run
with_request p none k = none
with_request p (some (err e)) k = some (p, some e)
with_request p (some (ok o)) k = k o

abbrev pub with_value : Probe → Option (Result ℕ) → (ℕ → Run) → Run
with_value p none k = none
with_value p (some (err e)) k = some (p, some e)
with_value p (some (ok n)) k = k n

-- Append the options of the configuration, and start the request.
abbrev pub start : Env → ℕ → Probe → Outgoing → (Probe → Probe) → Run
start env ns_now p o done = do
  (c, via) ← start_request p.connection o env.xid env.jitter ns_now
  some (done (record p { connection = c }), none)

unfoldable pub send : Env → ℕ → Probe → Option (Result Outgoing) → (Probe → Probe) → Run
send env ns_now p request done =
    with_request p request λ o.
      with_request p (append_options env.memory 10 p.options o) λ o'. start env ns_now p o' done

-- n_dhcp4_client_probe_raise: append an event, whose lease is not set yet.
unfoldable pub raise : Bool → Event → Probe → (Probe → Run) → Run
raise node_memory event p k =
    if not node_memory
    then some (p, some enomem)
    else k (record p { events = p.events ++ (event ∷ []) })

-- `node->event.*.lease = ...`, on the event raised last.
abbrev pub with_lease : Held → Event → Event
with_lease l (offer _) = offer (some l)
with_lease l (granted_event _) = granted_event (some l)
with_lease l (extended _) = extended (some l)
with_lease l retracted = retracted
with_lease l expired_event = expired_event
with_lease l cancelled = cancelled

abbrev pub set_last : (Event → Event) → List Event → List Event
set_last f [] = []
set_last f (e ∷ []) = f e ∷ []
set_last f (e ∷ e' ∷ es) = e ∷ set_last f (e' ∷ es)

-- n_dhcp4_client_lease_new and n_dhcp4_client_lease_link, and the lease of the event.
abbrev pub linked : Incoming → Timeouts → Probe → Held
linked message timeouts p = record { id = p.n_leases; message = message; timeouts = timeouts }

abbrev pub with_new_lease :
    Incoming → Probe → Option (Result Lease.Lease) → (Held → Probe → Run) → Run
with_new_lease message p none k = none
with_new_lease message p (some (err e)) k = some (p, some e)
with_new_lease message p (some (ok lease)) k =
    let l = linked message lease.timeouts p in
    k l (record p {
      n_leases = p.n_leases + 1;
      lease_list = p.lease_list ++ (l ∷ []);
      events = set_last (with_lease l) p.events;
    })

-- n_dhcp4_client_lease_unlink
abbrev pub without : ℕ → List Held → List Held
without id [] = []
without id (l ∷ ls) = if l.id == id then without id ls else l ∷ without id ls

abbrev pub unlink_current : Option Held → List Held → List Held
unlink_current none ls = ls
unlink_current (some l) ls = without l.id ls

-- `case state: body`, in front of the other cases.
abbrev pub case_of : State → State → Run → Run → Run
case_of s t body others = if in_state s t then body else others
