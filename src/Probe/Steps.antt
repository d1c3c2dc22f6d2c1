-- ===== src/Probe/Steps.antt =====
-- All calls of a probe, by timers, messages and the user.
use n_dhcp.Base.{
  ℕ, ◌≡◌, Bool, true, false, ◌&&◌, not, Option, none, some, List, leb, ◌==◌, if◌then◌else◌, ◌>>=◌,
}
use n_dhcp.Protocol.{Error, enotrecoverable, Result, ok, err}
use n_dhcp.Protocol.Message
use n_dhcp.Incoming.{Incoming}
use n_dhcp.Incoming.Query.{query_message_type}
use n_dhcp.Connection.{Connection}
use n_dhcp.Connection.Io.{Route, dispatch_io}
use n_dhcp.Connection.Io
use n_dhcp.Probe.{
  Probe, Env, Run, Held, State, init, init_reboot, selecting, rebooting, requesting, granted, bound,
  renewing, rebinding, expired, in_state,
}
use n_dhcp.Probe.Transitions.{
  transition_t1, transition_t2, transition_lifetime, transition_offer, transition_ack,
  transition_nak, transition_deferred, dispatch_connection, then_connection, leased, granted_only,
  on_timer, dispatch_timer, on_message, io_preempts, on_io_error, received, dispatch_message,
}
use n_dhcp.Lease.{is_none}
use n_dhcp.Probe.User.{is_linked, is_current, lease_select, lease_accept, lease_decline}
use n_dhcp.Probe.Graph.{Edge}
use n_dhcp.Probe.Runs.{Leaves, Leaves-some, fault-Leaves, ok-Leaves, if-Leaves}
use n_dhcp.Probe.Inv
use n_dhcp.Probe.Inv.{Inv, After, same}

pub data Step (p : Probe) : Probe → Type 0 where
  timed :
      (env : Env) (ns_now : ℕ) (p' : Probe) (e : Option Error)
      → dispatch_timer env p ns_now ≡ some (p', e)
      → Step p p'
  messaged :
      (env : Env) (allocated : Bool) (from_packet from_udp : Result Incoming) (p' : Probe)
      (e : Option Error)
      → dispatch_message env p allocated from_packet from_udp ≡ some (p', e)
      → Step p p'
  selects :
      (env : Env) (l : Held) (p' : Probe) (e : Option Error)
      → lease_select env p l ≡ some (p', e)
      → Step p p'
  accepts :
      (env : Env) (l : Held) (p' : Probe) (e : Option Error)
      → lease_accept env p l ≡ some (p', e)
      → Step p p'
  declines :
      (env : Env) (l : Held) (error : Option (List ℕ)) (p' : Probe) (e : Option Error)
      → lease_decline env p l error ≡ some (p', e)
      → Step p p'

module _ (env : Env) (p : Probe) (inv : Inv p) where
  leased-Leaves : (ns_now : ℕ) (lease : Option Held) → Leaves (After p) (leased env p ns_now lease)
  leased-Leaves ns_now none = fault-Leaves (After p)
  leased-Leaves ns_now (some l) =
      if-Leaves (After p) (leb l.timeouts.lifetime ns_now) (transition_lifetime env p) _
        (λ e. Inv.lifetime-Leaves env p inv)
        (if-Leaves (After p) (leb l.timeouts.t2 ns_now && not (in_state p.state rebinding))
          (transition_t2 env p ns_now) _ (λ e. Inv.t2-Leaves env p inv ns_now)
          (if-Leaves (After p) (leb l.timeouts.t1 ns_now && in_state p.state bound)
            (transition_t1 env p ns_now) _ (λ e. Inv.t1-Leaves env p inv ns_now)
            (ok-Leaves (After p) p none (same env p inv))))

  granted-Leaves :
      (ns_now : ℕ) (lease : Option Held) → Leaves (After p) (granted_only env p ns_now lease)
  granted-Leaves ns_now none = fault-Leaves (After p)
  granted-Leaves ns_now (some l) =
      if-Leaves (After p) (leb l.timeouts.lifetime ns_now) (transition_lifetime env p) _
        (λ e. Inv.lifetime-Leaves env p inv) (ok-Leaves (After p) p none (same env p inv))

  on_timer-Leaves : (ns_now : ℕ) (s : State) → Leaves (After p) (on_timer env p ns_now s)
  unfolding on_timer
  on_timer-Leaves ns_now init_reboot = Inv.reboot-Leaves env p inv ns_now
  on_timer-Leaves ns_now rebooting =
      if-Leaves (After p) (leb p.ns_reinit ns_now) (transition_deferred env p ns_now) _
        (λ e. Inv.deferred-Leaves env p inv ns_now) (ok-Leaves (After p) p none (same env p inv))
  on_timer-Leaves ns_now init =
      if-Leaves (After p) (leb p.ns_deferred ns_now) (transition_deferred env p ns_now) _
        (λ e. Inv.deferred-Leaves env p inv ns_now) (ok-Leaves (After p) p none (same env p inv))
  on_timer-Leaves ns_now granted = granted-Leaves ns_now p.current_lease
  on_timer-Leaves ns_now bound = leased-Leaves ns_now p.current_lease
  on_timer-Leaves ns_now renewing = leased-Leaves ns_now p.current_lease
  on_timer-Leaves ns_now rebinding = leased-Leaves ns_now p.current_lease
  on_timer-Leaves ns_now selecting = ok-Leaves (After p) p none (same env p inv)
  on_timer-Leaves ns_now requesting = ok-Leaves (After p) p none (same env p inv)
  on_timer-Leaves ns_now expired = ok-Leaves (After p) p none (same env p inv)

  -- The timer of the connection changes the connection only.
  dispatch-Leaves :
      (ns_now : ℕ) (p' : Probe) → After p p' → Leaves (After p) (dispatch_connection env ns_now p')
  unfolding dispatch_connection Leaves
  dispatch-Leaves ns_now p' a = after (Io.dispatch_timer p'.connection env.xid env.jitter ns_now)
    where
      after :
          (run : Option (Connection × Option Route))
          → Leaves (After p) (run >>= λ r. some (record p' { connection = r.0 }, none))
      after none = tt
      after (some r) = a

  then-Leaves :
      (ns_now : ℕ) (run : Run)
      → Leaves (After p) run
      → Leaves (After p) (then_connection env ns_now run)
  unfolding Leaves
  then-Leaves ns_now none l = tt
  then-Leaves ns_now (some (p', none)) l = dispatch-Leaves ns_now p' l
  then-Leaves ns_now (some (p', some e)) l = l

  message-Leaves :
      (message : Incoming) (r : Result ℕ) → Leaves (After p) (on_message env p message r)
  unfolding on_message
  message-Leaves message (err e) = ok-Leaves (After p) p none (same env p inv)
  message-Leaves message (ok type) =
      if-Leaves (After p) (type == Message.offer) (transition_offer env p message) _
        (λ e. Inv.offer-Leaves env p inv message)
        (if-Leaves (After p) (type == Message.ack) (transition_ack env p message) _
          (λ e. Inv.ack-Leaves env p inv message)
          (if-Leaves (After p) (type == Message.nak) (transition_nak env p) _
            (λ e. Inv.nak-Leaves env p inv) (ok-Leaves (After p) p none (same env p inv))))

-- A probe whose connection or flag changed is a probe of the same state.
with_connection-Leaves :
    (p : Probe) (c : Connection) (run : Run)
    → Leaves (After (record p { connection = c; preempted = true })) run
    → Leaves (After p) run
unfolding Leaves
with_connection-Leaves p c none l = tt
with_connection-Leaves p c (some r) l = l

module _ (env : Env) (p : Probe) (inv : Inv p) where
  error-Leaves :
      (c : Connection) (m : Option Bool)
      → Leaves (After p) (on_io_error (record p { connection = c }) m)
  error-Leaves c none = fault-Leaves (After p)
  error-Leaves c (some true) = ok-Leaves (After p) _ none (same env p inv)
  error-Leaves c (some false) = ok-Leaves (After p) _ none (same env p inv)

  received-Leaves :
      (run : Option (Connection × Result Incoming)) → Leaves (After p) (received env p run)
  received-Leaves none = fault-Leaves (After p)
  received-Leaves (some (c, err e)) = error-Leaves c (io_preempts e)
  received-Leaves (some (c, ok message)) = queried (query_message_type message)
    where
      queried :
          (r : Option (Result ℕ))
          → Leaves
              (After p)
              (r >>= λ r. on_message env (record p { connection = c; preempted = true }) message r)
      queried none = fault-Leaves (After p)
      queried (some r) =
          with_connection-Leaves p c _
            (message-Leaves env (record p { connection = c; preempted = true }) inv message r)

module _ (env : Env) (p : Probe) (inv : Inv p) (l : Held) where
  -- The two checks of a call of the user, which return an error.
  checked-Leaves :
      (a b : Bool) (run : Run)
      → Leaves (After p) run
      → Leaves (After p) (
          if a
          then some (p, some enotrecoverable)
          else if b
          then some (p, some enotrecoverable)
          else run)
  checked-Leaves a b run k =
      if-Leaves (After p) a _ _ (λ e. ok-Leaves (After p) p _ (same env p inv))
        (if-Leaves (After p) b _ run (λ e. ok-Leaves (After p) p _ (same env p inv)) k)

  select-Leaves : Leaves (After p) (lease_select env p l)
  unfolding lease_select
  select-Leaves =
      checked-Leaves (not (is_linked l.id p.lease_list)) (not (is_none p.current_lease)) _
        (Inv.select-Leaves env p inv l.message env.clock)

  accept-Leaves : Leaves (After p) (lease_accept env p l)
  unfolding lease_accept
  accept-Leaves =
      checked-Leaves (not (is_linked l.id p.lease_list)) (not (is_current l.id p.current_lease)) _
        (Inv.accept-Leaves env p inv l.message)

  decline-Leaves : (error : Option (List ℕ)) → Leaves (After p) (lease_decline env p l error)
  unfolding lease_decline
  decline-Leaves error =
      checked-Leaves (not (is_linked l.id p.lease_list)) (not (is_current l.id p.current_lease)) _
        (Inv.decline-Leaves env p inv l.message error env.clock)

step-After : (p p' : Probe) → Step p p' → Inv p → After p p'
unfolding dispatch_timer dispatch_message
step-After p _ (timed env ns_now p' e h) inv =
    Leaves-some (After p) _ p' e
      (then-Leaves env p inv ns_now (on_timer env p ns_now p.state)
        (on_timer-Leaves env p inv ns_now p.state))
      h
step-After p _ (messaged env allocated from_packet from_udp p' e h) inv =
    Leaves-some (After p) _ p' e
      (received-Leaves env p inv (dispatch_io allocated from_packet from_udp p.connection)) h
step-After p _ (selects env l p' e h) inv =
    Leaves-some (After p) _ p' e (select-Leaves env p inv l) h
step-After p _ (accepts env l p' e h) inv =
    Leaves-some (After p) _ p' e (accept-Leaves env p inv l) h
step-After p _ (declines env l error p' e h) inv =
    Leaves-some (After p) _ p' e (decline-Leaves env p inv l error) h

-- Every call that returns, by a timer, a message or the user, with any results of the surroundings,
-- keeps the invariant of the probe and moves it along an edge of the state machine.
pub Step-After : (p p' : Probe) → Step p p' → Inv p → Inv p' × Edge p.state p'.state
Step-After p p' step inv = step-After p p' step inv
