-- ===== src/Client/Tests.antt =====
-- A client on concrete inputs.
use n_dhcp.Base.{ℕ, ◌≡◌, refl, inl, inr, Bool, true, false, none, some, List, [], ◌∷◌, arith}
use n_dhcp.Protocol.{enomem, ok}
use n_dhcp.Outgoing
use n_dhcp.Outgoing.{append, append_option}
use n_dhcp.Outgoing.Setters.{set_header, set_secs, set_xid}
use n_dhcp.Memory.{write, calloc}
use n_dhcp.Connection.{ethernet, init_connection, listen}
use n_dhcp.Connection.Io
use n_dhcp.Connection.Io.{
  start_request, send_request, restamp, outgoing_set_secs, route, request_timeout, get_timeout,
}
use n_dhcp.Connection.Requests.{
  reboot_new, new_message, message_type_of, append_parameters, init_header, append_to,
}
use n_dhcp.Probe.{Probe, Env, State, init, init_reboot, bound, send, raise, append_options}
use n_dhcp.Probe.Transitions.{
  on_timer, dispatch_connection, transition_reboot, transition_lifetime, probe_timeout,
}
use n_dhcp.Probe.Transitions
use n_dhcp.ProbeConfig.{fresh, probe_new, config_dup, dup_options, start_delay}
use n_dhcp.Client.{
  Client, Call, Turn, timer, ticks, on_probe, client_dispatch_timer, client_timeout, arm_timer,
  handle, settle, dispatch_turns, finish, dispatch, is_private,
}
use n_dhcp.Client.Settings.{
  Config, null_config, set_ifindex, set_transport, set_mac, set_broadcast_mac, to_connection,
}
use n_dhcp.Client.Queue.{down_event, lost, log}
use n_dhcp.Client.Queue.Fifo.{
  Op, raised, logged, popped, run, Fifo, fifo_run, waits_lost, nodes_of, run-Fifo,
}
use n_dhcp.Client.New.{System, empty, client_new, IsValid, HasRoom, client_new-Valid}
use n_dhcp.Client.Scheduled.{IsArmed, IsScheduled}
use n_dhcp.Client.Armed.{expiry, dispatch-IsArmed}
use n_dhcp.Client.Failed.{dispatch-unarmed}
use n_dhcp.Client.Calls.{Start, client_probe, Follows, client_probe-Follows}

abbrev address : List ℕ
address = 2 ∷ 0 ∷ 0 ∷ 0 ∷ 0 ∷ 1 ∷ []

abbrev config : Config
config =
    record (set_broadcast_mac (set_mac (set_transport (set_ifindex null_config 2) ethernet) address)
      (255 ∷ 255 ∷ 255 ∷ 255 ∷ 255 ∷ 255 ∷ [])) { client_id = 1 ∷ 7 ∷ [] }

abbrev system : System
system = record {
  memory = true;
  config_memory = true;
  id_memory = true;
  epoll = none;
  boottime = none;
  monotonic = none;
  add = none;
}

client_new-Valid_example :
    ((c : Client) → client_new system config ≡ ok c → IsValid config × (c ≡ empty config))
    × (IsValid config → HasRoom system → client_new system config ≡ ok (empty config))
client_new-Valid_example = client_new-Valid system config

-- A message without memory, one that is dropped, and one after the caller saw that some are lost.
abbrev calls : List Op
calls =
    raised down_event
    ∷ logged false none (some 7) 3
    ∷ logged true (some (65 ∷ [])) (some 7) 3
    ∷ popped
    ∷ popped
    ∷ popped
    ∷ logged true (some (66 ∷ [])) (some 7) 3
    ∷ popped
    ∷ []

abbrev idle : Fifo
idle = record { given = none; waiting = [] }

calls-events :
    fifo_run calls idle
    ≡ none ∷ none ∷ none ∷ some down_event ∷ some lost ∷ none ∷ none ∷ some (log 3 (66 ∷ [])) ∷ []
unfolding fifo_run waits_lost
calls-events = refl

run-Fifo_example : run calls (nodes_of idle) ≡ fifo_run calls idle
run-Fifo_example = run-Fifo calls idle

abbrev probe : State → Probe
probe state = record {
  options = [];
  state = state;
  last_address = 0;
  ns_deferred = 0;
  ns_reinit = 0;
  ns_nak_restart_delay = 0;
  ns_decline_restart_delay = 0;
  current_lease = none;
  lease_list = [];
  events = [];
  n_leases = 0;
  preempted = false;
  connection = init_connection (to_connection config) [] true;
}

abbrev env : Bool → Env
env node_memory = record {
  memory = λ k. true;
  node_memory = node_memory;
  lease_memory = true;
  socket = none;
  epoll = none;
  shutdown = none;
  xid = 1;
  jitter = 2;
  clock = 9;
}

abbrev turn : Bool → Turn
turn node_memory = record {
  polled = timer false true ticks 5;
  env = env node_memory;
  event_memory = true;
  log_memory = true;
  log_text = none;
}

-- A client whose probe requests its last address again.
abbrev client : Client
client = record (empty config) {
  current_probe = some (probe init_reboot);
  scheduled_timeout = 1;
  armed = some (3, 1);
}

abbrev left_by : Call → Client
left_by none = client
left_by (some r) = r.0

abbrev rebooted : Client
rebooted = left_by (client_dispatch_timer (env true) false true ticks 5 client)

rebooted-eq : client_dispatch_timer (env true) false true ticks 5 client ≡ some (rebooted, none)
unfolding client_dispatch_timer on_probe Transitions.dispatch_timer on_timer dispatch_connection
    Io.dispatch_timer init_connection transition_reboot listen send reboot_new new_message
    message_type_of append_parameters init_header set_header append_to append append_option
    Outgoing.append_options append_options start_request send_request restamp outgoing_set_secs
    set_secs set_xid route request_timeout write calloc Outgoing.new
rebooted-eq = refl

abbrev rearmed : Client
rearmed = record rebooted { scheduled_timeout = 2000000005; armed = some (9, 1999999996) }

rearmed-eq : dispatch (ok (turn true ∷ [])) 9 client ≡ some (rearmed, none)
unfolding dispatch finish dispatch_turns settle handle arm_timer client_timeout probe_timeout
    get_timeout client_dispatch_timer on_probe Transitions.dispatch_timer on_timer
    dispatch_connection Io.dispatch_timer init_connection transition_reboot listen send reboot_new
    new_message message_type_of append_parameters init_header set_header append_to append
    append_option Outgoing.append_options append_options start_request send_request restamp
    outgoing_set_secs set_secs set_xid route request_timeout write calloc Outgoing.new
rearmed-eq = refl

client-IsScheduled : IsScheduled client
client-IsScheduled = inr (omega arith, inr (omega arith, refl))

dispatch-IsArmed_example : IsArmed rearmed
dispatch-IsArmed_example =
    dispatch-IsArmed (turn true ∷ []) 9 client rebooted
      (expiry (turn true) client rebooted false true ticks 5 refl (omega arith) (omega arith)
        (omega arith) rebooted-eq)
      client-IsScheduled rearmed none rearmed-eq

-- A lease that ends at the time 4, at a client without memory for the event.
abbrev ended : Probe
ended = record (probe bound) {
  current_lease = some (record {
    id = 0;
    message = record {
      options = λ code. none;
      type = 0;
      start_time = 0;
      base_time = 0;
      n_message = 0;
      message = record { size = 0; byte = λ j. 0 };
    };
    timeouts = record { t1 = 2; t2 = 3; lifetime = 4 };
  });
}

abbrev leased : Client
leased = record (empty config) {
  current_probe = some ended;
  scheduled_timeout = 2;
  armed = some (1, 1);
}

ended-fails : Transitions.dispatch_timer (env false) ended 5 ≡ some (ended, some enomem)
unfolding Transitions.dispatch_timer on_timer transition_lifetime raise
ended-fails = refl

ended-timeout : probe_timeout ended ≡ some 2
unfolding probe_timeout get_timeout init_connection
ended-timeout = refl

enomem-public : is_private enomem ≡ false
unfolding is_private
enomem-public = refl

dispatch-unarmed_example :
    (c' : Client) × (dispatch (ok (turn false ∷ [])) 9 leased ≡ some (c', some enomem))
    × (c'.armed ≡ none)
    × ((later : ℕ) → arm_timer later c' ≡ some c')
dispatch-unarmed_example =
    dispatch-unarmed (turn false) leased ended ended enomem 5 9 refl refl ended-fails enomem-public
      ended-timeout

abbrev begin : Start
begin = record {
  allocated = true;
  memory = λ j. true;
  node_memory = true;
  random = 40;
  ns_now = 1000;
  clock = 1001;
}

-- The new probe, which waits for 40 nanoseconds.
abbrev waiting : Probe
waiting = record (probe init) { ns_deferred = 1040 }

abbrev probing : Client
probing = record (empty config) {
  current_probe = some waiting;
  scheduled_timeout = 1040;
  armed = some (1001, 39);
}

probing-eq : client_probe begin (empty config) fresh ≡ some (probing, ok waiting)
unfolding client_probe probe_new config_dup dup_options start_delay init_connection arm_timer
    client_timeout probe_timeout get_timeout
probing-eq = refl

client_probe-Follows_example : IsArmed probing × Follows (empty config) none waiting probing
client_probe-Follows_example =
    client_probe-Follows begin (empty config) probing waiting fresh probing-eq (inl refl)
