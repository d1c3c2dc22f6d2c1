-- ===== src/Probe/Transitions.antt =====
-- The transitions of n-dhcp4-c-probe.c, and the dispatch of timers and messages.
use n_dhcp.Base.{
  ℕ, ◌+◌, ◌*◌, ◌%◌, ◌^◌, Bool, true, false, ◌&&◌, ◌||◌, not, Option, none, some, List, [], ltb, leb,
  ◌==◌, if◌then◌else◌, ◌>>=◌,
}
use n_dhcp.Protocol.{Error, enotrecoverable, again, malformed, unexpected, Result, ok, err}
use n_dhcp.Protocol.Message
use n_dhcp.Incoming.{Incoming}
use n_dhcp.Incoming.Query
use n_dhcp.Incoming.Query.{query_server_identifier, query_message_type, and_then}
use n_dhcp.Outgoing.{Outgoing}
use n_dhcp.Outgoing.Setters.{append_requested_ip}
use n_dhcp.Lease
use n_dhcp.Connection.{Connection, listen, connect}
use n_dhcp.Connection.Requests.{
  discover_new, select_new, reboot_new, renew_new, rebind_new, decline_new,
}
use n_dhcp.Connection.Io.{clamp, dispatch_io, get_timeout}
use n_dhcp.Connection.Io
use n_dhcp.Probe.{
  Probe, Env, Run, Held, State, init, init_reboot, selecting, rebooting, requesting, granted, bound,
  renewing, rebinding, in_state, case_of, offer, granted_event, extended, retracted, expired_event,
  with_connection, with_request, with_value, start, send, raise, with_new_lease, unlink_current,
}

unfoldable pub transition_reboot : Env → Probe → ℕ → Run
transition_reboot env p ns_now =
    case_of p.state init_reboot
      (with_connection p (listen env.socket env.epoll p.connection) λ p₁.
        send env ns_now p₁ (reboot_new env.memory p₁.connection p₁.last_address)
          λ p₂. record p₂ { state = rebooting; ns_reinit = (ns_now + 2000000000) % 2 ^ 64 })
      none

-- The DISCOVER with the last address, if there is one.
abbrev pub discover_with : (ℕ → Bool) → Connection → ℕ → Option (Result Outgoing)
discover_with memory c last_address = and_then (discover_new memory c) λ o.
    if last_address == 0
    then some (ok o)
    else do (o', e) ← append_requested_ip (memory 5) o last_address; some (result e o')
  where
    result : Option Error → Outgoing → Result Outgoing
    result none o = ok o
    result (some e) o = err e

abbrev pub send_discover : Env → Probe → ℕ → Run
send_discover env p ns_now =
    send env ns_now p (discover_with env.memory p.connection p.last_address)
      λ p'. record p' { state = selecting; ns_deferred = 0 }

unfoldable pub transition_deferred : Env → Probe → ℕ → Run
transition_deferred env p ns_now =
    case_of p.state init
      (with_connection p (listen env.socket env.epoll p.connection)
        λ p₁. send_discover env p₁ ns_now)
      (case_of p.state rebooting (send_discover env p ns_now) none)

unfoldable pub transition_t1 : Env → Probe → ℕ → Run
transition_t1 env p ns_now =
    case_of p.state bound
      (send env ns_now p (renew_new env.memory p.connection) λ p'. record p' { state = renewing })
      none

abbrev pub send_rebind : Env → Probe → ℕ → Run
send_rebind env p ns_now = with_connection p (listen env.socket env.epoll p.connection) λ p₁.
    send env ns_now p₁ (rebind_new env.memory p₁.connection) λ p₂. record p₂ { state = rebinding }

unfoldable pub transition_t2 : Env → Probe → ℕ → Run
transition_t2 env p ns_now =
    case_of p.state bound (send_rebind env p ns_now)
      (case_of p.state renewing (send_rebind env p ns_now) none)

-- The states in which a probe has a lease.
abbrev pub has_lease : State → Bool
has_lease granted = true
has_lease bound = true
has_lease renewing = true
has_lease rebinding = true
has_lease _ = false

-- The assertion that the probe is the current one of its client is left out: a probe that is
-- detached has no timer and no input.
unfoldable pub transition_lifetime : Env → Probe → Run
transition_lifetime env p =
    if has_lease p.state
    then (raise env.node_memory expired_event p λ p'. some (
      record p' { current_lease = none; state = init; ns_deferred = (env.clock + 1) % 2 ^ 64 },
      none,
    ))
    else none

unfoldable pub transition_offer : Env → Probe → Incoming → Run
transition_offer env p message =
    case_of p.state selecting
      (raise env.node_memory (offer none) p λ p₁.
        with_new_lease message p₁ (Lease.new env.lease_memory message) λ l p₂. some (p₂, none))
      (some (p, none))

-- The part of n_dhcp4_client_probe_transition_ack for RENEWING, which REBINDING falls through to.
abbrev pub extend : Env → Probe → Incoming → Run
extend env p message = raise env.node_memory (extended none) p λ p₁.
    with_new_lease message p₁ (Lease.new env.lease_memory message) λ l p₂. some (
      record p₂ {
        current_lease = some l;
        state = bound;
        last_address = Query.get_yiaddr message;
        ns_nak_restart_delay = 0;
      },
      none,
    )

abbrev pub grant : Env → Probe → Incoming → Run
grant env p message = raise env.node_memory (granted_event none) p λ p₁.
    with_new_lease message p₁ (Lease.new env.lease_memory message) λ l p₂.
      some (record p₂ { current_lease = some l; state = granted; ns_nak_restart_delay = 0 }, none)

unfoldable pub transition_ack : Env → Probe → Incoming → Run
transition_ack env p message =
    case_of p.state rebinding
      (with_value p (query_server_identifier message) λ server.
        with_connection p
          (connect env.socket env.epoll env.shutdown (Query.get_yiaddr message) server p.connection)
          λ p₁. extend env p₁ message)
      (case_of p.state renewing (extend env p message) (
        case_of p.state requesting (grant env p message)
          (case_of p.state rebooting (grant env p message) (some (p, none)))))

-- The states in which a NAK restarts the probe.
abbrev pub is_pending : State → Bool
is_pending rebooting = true
is_pending requesting = true
is_pending renewing = true
is_pending rebinding = true
is_pending _ = false

abbrev pub nak_delay : ℕ → ℕ
nak_delay delay = clamp 2000000000 300000000000 (delay * 2 % 2 ^ 64)

unfoldable pub transition_nak : Env → Probe → Run
transition_nak env p =
    if is_pending p.state
    then (raise env.node_memory retracted p λ p'. some (
      record p' {
        current_lease = none;
        state = init;
        ns_deferred = (env.clock + p'.ns_nak_restart_delay) % 2 ^ 64;
        ns_nak_restart_delay = nak_delay p'.ns_nak_restart_delay;
      },
      none,
    ))
    else some (p, none)

unfoldable pub transition_select : Env → Probe → Incoming → ℕ → Run
transition_select env p message ns_now =
    case_of p.state selecting
      (send env ns_now p (select_new env.memory p.connection message)
        λ p'. record p' { state = requesting; lease_list = [] })
      (some (p, some enotrecoverable))

unfoldable pub transition_accept : Env → Probe → Incoming → Run
transition_accept env p message =
    case_of p.state granted
      (with_value p (query_server_identifier message) λ server.
        with_connection p
          (connect env.socket env.epoll env.shutdown (Query.get_yiaddr message) server p.connection)
          λ p₁. some (
            record p₁ {
              state = bound;
              ns_decline_restart_delay = 0;
              lease_list = unlink_current p₁.current_lease p₁.lease_list;
            },
            none,
          ))
      (some (p, some enotrecoverable))

abbrev pub decline_delay : ℕ → ℕ
decline_delay delay = clamp 10000000000 300000000000 (delay * 2 % 2 ^ 64)

-- The state after a DECLINE.
abbrev pub declined : Env → Probe → Probe
declined env p =
    let delay = decline_delay p.ns_decline_restart_delay in
    record p {
      lease_list = unlink_current p.current_lease p.lease_list;
      current_lease = none;
      state = init;
      ns_decline_restart_delay = delay;
      ns_deferred = (env.clock + delay) % 2 ^ 64;
    }

unfoldable pub transition_decline : Env → Probe → Incoming → Option (List ℕ) → ℕ → Run
transition_decline env p message error ns_now =
    case_of p.state granted
      (with_request p (decline_new env.memory p.connection message error)
        λ o. start env ns_now p o (declined env))
      (some (p, some enotrecoverable))

-- The least of the timeouts that are set.
abbrev pub earliest : ℕ → ℕ → ℕ
earliest t timeout = if not (t == 0) && (timeout == 0 || ltb t timeout) then t else timeout

-- n_dhcp4_client_probe_get_timeout
abbrev pub timeouts_of : Option Held → ℕ × ℕ × ℕ
timeouts_of none = (0, 0, 0)
timeouts_of (some l) = (l.timeouts.t1, l.timeouts.t2, l.timeouts.lifetime)

abbrev pub timeout_in : Probe → State → ℕ → ℕ × ℕ × ℕ → ℕ
timeout_in p init_reboot timeout ts = 1
timeout_in p rebooting timeout ts = earliest p.ns_reinit timeout
timeout_in p init timeout ts = earliest p.ns_deferred timeout
timeout_in p bound timeout (t1, t2, lifetime) =
    earliest lifetime (earliest t2 (earliest t1 timeout))
timeout_in p renewing timeout (t1, t2, lifetime) = earliest lifetime (earliest t2 timeout)
timeout_in p rebinding timeout (t1, t2, lifetime) = earliest lifetime timeout
timeout_in p granted timeout (t1, t2, lifetime) = earliest lifetime timeout
timeout_in p _ timeout ts = timeout

unfoldable pub probe_timeout : Probe → Option ℕ
probe_timeout p = do
  timeout ← get_timeout p.connection
  some (timeout_in p p.state timeout (timeouts_of p.current_lease))

-- The last call of n_dhcp4_client_probe_dispatch_timer.
unfoldable pub dispatch_connection : Env → ℕ → Probe → Run
dispatch_connection env ns_now p = do
  (c, via) ← Io.dispatch_timer p.connection env.xid env.jitter ns_now
  some (record p { connection = c }, none)

abbrev pub then_connection : Env → ℕ → Run → Run
then_connection env ns_now none = none
then_connection env ns_now (some (p, none)) = dispatch_connection env ns_now p
then_connection env ns_now (some (p, some e)) = some (p, some e)

-- BOUND, RENEWING and REBINDING, with the timeouts of the current lease.
abbrev pub leased : Env → Probe → ℕ → Option Held → Run
leased env p ns_now none = none
leased env p ns_now (some l) =
    if leb l.timeouts.lifetime ns_now
    then transition_lifetime env p
    else if leb l.timeouts.t2 ns_now && not (in_state p.state rebinding)
    then transition_t2 env p ns_now
    else if leb l.timeouts.t1 ns_now && in_state p.state bound
    then transition_t1 env p ns_now
    else some (p, none)

abbrev pub granted_only : Env → Probe → ℕ → Option Held → Run
granted_only env p ns_now none = none
granted_only env p ns_now (some l) =
    if leb l.timeouts.lifetime ns_now then transition_lifetime env p else some (p, none)

unfoldable pub on_timer : Env → Probe → ℕ → State → Run
on_timer env p ns_now init_reboot = transition_reboot env p ns_now
on_timer env p ns_now rebooting =
    if leb p.ns_reinit ns_now then transition_deferred env p ns_now else some (p, none)
on_timer env p ns_now init =
    if leb p.ns_deferred ns_now then transition_deferred env p ns_now else some (p, none)
on_timer env p ns_now granted = granted_only env p ns_now p.current_lease
on_timer env p ns_now bound = leased env p ns_now p.current_lease
on_timer env p ns_now renewing = leased env p ns_now p.current_lease
on_timer env p ns_now rebinding = leased env p ns_now p.current_lease
on_timer env p ns_now _ = some (p, none)

unfoldable pub dispatch_timer : Env → Probe → ℕ → Run
dispatch_timer env p ns_now = then_connection env ns_now (on_timer env p ns_now p.state)

-- The switch of n_dhcp4_client_probe_dispatch_io on the message type.
unfoldable pub on_message : Env → Probe → Incoming → Result ℕ → Run
on_message env p message (err e) = some (p, none)
on_message env p message (ok type) =
    if type == Message.offer
    then transition_offer env p message
    else if type == Message.ack
    then transition_ack env p message
    else if type == Message.nak
    then transition_nak env p
    else some (p, none)

-- The errors of the connection: whether there may be more data. All that are not listed abort.
abbrev pub io_preempts : Error → Option Bool
io_preempts again = some false
io_preempts malformed = some true
io_preempts unexpected = some true
io_preempts _ = none

abbrev pub on_io_error : Probe → Option Bool → Run
on_io_error p none = none
on_io_error p (some true) = some (record p { preempted = true }, none)
on_io_error p (some false) = some (p, none)

abbrev pub received : Env → Probe → Option (Connection × Result Incoming) → Run
received env p none = none
received env p (some (c, err e)) = on_io_error (record p { connection = c }) (io_preempts e)
received env p (some (c, ok message)) = do
  r ← query_message_type message
  on_message env (record p { connection = c; preempted = true }) message r

-- n_dhcp4_client_probe_dispatch_io, with what malloc and the two sockets give.
unfoldable pub dispatch_message : Env → Probe → Bool → Result Incoming → Result Incoming → Run
dispatch_message env p allocated from_packet from_udp =
    received env p (dispatch_io allocated from_packet from_udp p.connection)
