-- ===== src/Probe/Tests.antt =====
-- A probe on concrete inputs.
use n_dhcp.Base.{ℕ, ◌≡◌, refl, inl, true, false, none, some, List, [], ◌∷◌, ◌++◌, arith, replicate}
use n_dhcp.Protocol.{malformed, ok, err, magic}
use n_dhcp.Protocol.Opt
use n_dhcp.Protocol.Message
use n_dhcp.Incoming.{Incoming, new, has_magic}
use n_dhcp.Incoming.Scan.{message_entries, section, scan, kind}
use n_dhcp.Incoming.Linearize.{overload_of}
use n_dhcp.Incoming.Refine.{Parsed, new-Parsed, starts_magic, lookup_option, entries_of}
use n_dhcp.Incoming.Typed.{read_u32}
use n_dhcp.Connection.{ClientConfig, ethernet, init_connection, listen}
use n_dhcp.Probe.{
  Probe, Env, offer, granted_event, extended, State, selecting, requesting, renewing, init_reboot,
  Run, send, append_options,
}
use n_dhcp.Probe.Transitions.{
  transition_offer, transition_ack, on_timer, dispatch_timer, dispatch_connection,
  transition_reboot, probe_timeout,
}
use n_dhcp.Probe.Graph.{Edge}
use n_dhcp.Probe.Inv.{Inv}
use n_dhcp.Probe.Steps.{timed, Step-After}
use n_dhcp.Probe.Progress.{dispatch_timer-Fresh}
use n_dhcp.Connection.Fresh.{Fresh}
use n_dhcp.Probe.Malformed.{malformed-event}
use n_dhcp.Connection.Io
use n_dhcp.Connection.Io.{
  start_request, send_request, restamp, outgoing_set_secs, route, request_timeout,
}
use n_dhcp.Connection.Requests.{
  reboot_new, new_message, message_type_of, append_parameters, init_header, append_to,
}
use n_dhcp.Outgoing
use n_dhcp.Outgoing.{append, append_option}
use n_dhcp.Outgoing.Setters.{set_header, set_secs, set_xid}
use n_dhcp.Memory.{write, calloc}

abbrev config : ClientConfig
config = record {
  transport = ethernet;
  request_broadcast = false;
  mac = λ j. j;
  n_mac = 6;
  client_id = 1 ∷ [];
}

abbrev probe : State → Probe
probe state = record {
  options = [];
  state = state;
  last_address = 0;
  ns_deferred = 0;
  ns_reinit = 0;
  ns_nak_restart_delay = 0;
  ns_decline_restart_delay = 0;
  current_lease = none;
  lease_list = [];
  events = [];
  n_leases = 0;
  preempted = false;
  connection = init_connection config [] true;
}

abbrev env : Env
env = record {
  memory = λ k. true;
  node_memory = true;
  lease_memory = true;
  socket = none;
  epoll = none;
  shutdown = none;
  xid = 1;
  jitter = 2;
  clock = 9;
}

-- An OFFER whose lifetime has two bytes.
abbrev short : List ℕ
short =
    replicate 236 0
    ++ magic
    ++ (Opt.message_type ∷ 1 ∷ Message.offer ∷ Opt.ip_address_lease_time ∷ 2 ∷ 0 ∷ 1
        ∷ Opt.option_end ∷ [])

short-starts_magic : starts_magic short ≡ true
unfolding starts_magic has_magic
short-starts_magic = refl

parsed : (i : Incoming) × (new true short ≡ some (ok i)) × Parsed short i
parsed = new-Parsed short (omega arith) (omega arith) short-starts_magic

short-malformed : read_u32 (lookup_option short Opt.ip_address_lease_time) ≡ err malformed
unfolding lookup_option entries_of message_entries section scan kind overload_of
short-malformed = refl

malformed-event_example :
    (selecting ≡ selecting
      → transition_offer env (probe selecting) parsed.0
        ≡ some (record (probe selecting) { events = offer none ∷ [] }, some malformed))
    × (selecting ≡ requesting
        → transition_ack env (probe selecting) parsed.0
          ≡ some (record (probe selecting) { events = granted_event none ∷ [] }, some malformed))
    × (selecting ≡ renewing
        → transition_ack env (probe selecting) parsed.0
          ≡ some (record (probe selecting) { events = extended none ∷ [] }, some malformed))
malformed-event_example =
    malformed-event env (probe selecting) short parsed.0 parsed.2 short-malformed refl refl

abbrev left_by : Run → Probe
left_by none = probe init_reboot
left_by (some r) = r.0

-- The timer of a probe that starts with a known address sends the request of REBOOTING.
abbrev reboots : Probe
reboots = left_by (dispatch_timer env (probe init_reboot) 5)

reboots-eq : dispatch_timer env (probe init_reboot) 5 ≡ some (reboots, none)
unfolding dispatch_timer on_timer dispatch_connection Io.dispatch_timer init_connection
    transition_reboot listen send reboot_new new_message message_type_of append_parameters
    init_header set_header append_to append append_option Outgoing.append_options append_options
    start_request send_request restamp outgoing_set_secs set_secs set_xid route request_timeout
    write calloc Outgoing.new
reboots-eq = refl

reboots-timeout : probe_timeout reboots ≡ some 2000000005
unfolding probe_timeout Io.get_timeout dispatch_timer on_timer dispatch_connection Io.dispatch_timer
    init_connection transition_reboot listen send reboot_new new_message message_type_of
    append_parameters init_header set_header append_to append append_option Outgoing.append_options
    append_options start_request send_request restamp outgoing_set_secs set_secs set_xid route
    request_timeout write calloc Outgoing.new
reboots-timeout = refl

dispatch_timer-Fresh_example : Fresh 5 2000000005
dispatch_timer-Fresh_example =
    dispatch_timer-Fresh env (probe init_reboot) 5 (omega arith) (omega arith) reboots reboots-eq
      2000000005 reboots-timeout

start-Inv : Inv (probe init_reboot)
start-Inv = (refl, (inl refl, inl refl))

Step-After_example : Inv reboots × Edge init_reboot reboots.state
Step-After_example =
    Step-After (probe init_reboot) reboots (timed env 5 reboots none reboots-eq) start-Inv
