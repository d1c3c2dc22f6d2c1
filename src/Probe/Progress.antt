-- ===== src/Probe/Progress.antt =====
-- A timer call that succeeds leaves no deadline of a probe that is due.
use n_dhcp.Base.{
  ℕ, ◌≤◌, ◌<◌, ◌≡◌, inr, refl, sym, ap, subst, Bool, true, false, ◌&&◌, not, Option, none, some,
  arith, leb, some_inj, leb→lt,
}
use n_dhcp.Protocol.{Error}
use n_dhcp.Connection.{Connection, listen}
use n_dhcp.Connection.Requests.{reboot_new, renew_new, rebind_new}
use n_dhcp.Connection.Io.{Route, start_request, get_timeout, timeout_of}
use n_dhcp.Connection.Io
use n_dhcp.Connection.Fresh.{Fresh, IsFresh, bind_inv, dispatch_timer-IsFresh}
use n_dhcp.Probe.{
  State, init, init_reboot, selecting, rebooting, requesting, granted, bound, renewing, rebinding,
  expired, Probe, Env, Run, Held, expired_event, in_state, case_of,
}
use n_dhcp.Probe.Runs.{in_state-eq}
use n_dhcp.Probe.Transitions.{
  has_lease, discover_with, send_discover, send_rebind, transition_reboot, transition_deferred,
  transition_t1, transition_t2, transition_lifetime, timeouts_of, probe_timeout, leased,
  granted_only, on_timer, then_connection, dispatch_connection, dispatch_timer,
}
use n_dhcp.Probe.InTime.{
  InTime, IsInTime, timeout_in-Fresh, Succeeds, fault, success, if-Succeeds, connection-Succeeds,
  raise-Succeeds, send-Succeeds,
}

-- What is left of the deadlines of a lease when none of the tests of the timer holds.
abbrev IsLeased : State → Type 0
IsLeased bound = Unit {0}
IsLeased renewing = Unit {0}
IsLeased rebinding = Unit {0}
IsLeased _ = ⊥

settled :
    (now : ℕ) (p : Probe) (s : State) (t1 t2 lifetime : ℕ)
    → IsLeased s
    → leb lifetime now ≡ false
    → (leb t2 now && not (in_state s rebinding)) ≡ false
    → (leb t1 now && in_state s bound) ≡ false
    → InTime now p s (t1, t2, lifetime)
settled now p bound t1 t2 lifetime i a b c = (ground arith, ground arith, ground arith)
settled now p renewing t1 t2 lifetime i a b c = (ground arith, ground arith)
settled now p rebinding t1 t2 lifetime i a b c = ground arith
settled now p init t1 t2 lifetime i a b c = absurd i
settled now p init_reboot t1 t2 lifetime i a b c = absurd i
settled now p selecting t1 t2 lifetime i a b c = absurd i
settled now p rebooting t1 t2 lifetime i a b c = absurd i
settled now p requesting t1 t2 lifetime i a b c = absurd i
settled now p granted t1 t2 lifetime i a b c = absurd i
settled now p expired t1 t2 lifetime i a b c = absurd i

and_right : (a b : Bool) → (a && b) ≡ true → b ≡ true
and_right true b h = h
and_right false b h = cc

module _ (env : Env) (p : Probe) (now : ℕ) (small : env.clock < 9223372036854775808)
    (later : now ≤ env.clock) where
  abbrev P : Probe → Type 0
  P = IsInTime now

  case-Succeeds :
      (t : State) (x y : Run)
      → (p.state ≡ t → Succeeds P x)
      → Succeeds P y
      → Succeeds P (case_of p.state t x y)
  case-Succeeds t x y h k =
      if-Succeeds P (in_state p.state t) x y (λ e. h (in_state-eq p.state t e)) (λ e. k)

  reboot-Succeeds : Succeeds P (transition_reboot env p now)
  unfolding transition_reboot
  reboot-Succeeds =
      case-Succeeds init_reboot _ _
        (λ e. connection-Succeeds P p (listen env.socket env.epoll p.connection) _ λ c.
          send-Succeeds P env now (record p { connection = c })
            (reboot_new env.memory c p.last_address) _ λ c'. inr (omega arith))
        (fault P)

  discover-Succeeds :
      (c : Connection) → Succeeds P (send_discover env (record p { connection = c }) now)
  discover-Succeeds c =
      send-Succeeds P env now (record p { connection = c })
        (discover_with env.memory c p.last_address) _ λ c'. tt

  deferred-Succeeds : Succeeds P (transition_deferred env p now)
  unfolding transition_deferred
  deferred-Succeeds =
      case-Succeeds init _ _
        (λ e.
          connection-Succeeds P p (listen env.socket env.epoll p.connection) _
            λ c. discover-Succeeds c)
        (case-Succeeds rebooting _ _ (λ e. discover-Succeeds p.connection) (fault P))

  lifetime-Succeeds : Succeeds P (transition_lifetime env p)
  unfolding transition_lifetime
  lifetime-Succeeds =
      if-Succeeds P (has_lease p.state) _ _
        (λ e.
          raise-Succeeds P env.node_memory expired_event p _ λ es. success P _ (inr (omega arith)))
        (λ e. fault P)

  module _ (l : Held) (e : p.current_lease ≡ some l) where
    t1-Succeeds :
        now < l.timeouts.t2 → now < l.timeouts.lifetime → Succeeds P (transition_t1 env p now)
    unfolding transition_t1
    t1-Succeeds a b =
        case-Succeeds bound _ _
          (λ s.
            send-Succeeds P env now p (renew_new env.memory p.connection) _
              λ c. rw e (inr a, inr b))
          (fault P)

    rebind-Succeeds : now < l.timeouts.lifetime → Succeeds P (send_rebind env p now)
    rebind-Succeeds b = connection-Succeeds P p (listen env.socket env.epoll p.connection) _ λ c.
        send-Succeeds P env now (record p { connection = c }) (rebind_new env.memory c) _
          λ c'. rw e (inr b)

    t2-Succeeds : now < l.timeouts.lifetime → Succeeds P (transition_t2 env p now)
    unfolding transition_t2
    t2-Succeeds b =
        case-Succeeds bound _ _ (λ s. rebind-Succeeds b)
          (case-Succeeds renewing _ _ (λ s. rebind-Succeeds b) (fault P))

    before_t2 :
        (t2 : ℕ)
        → p.state ≡ bound
        → (leb t2 now && not (in_state p.state rebinding)) ≡ false
        → now < t2
    before_t2 t2 s h = let k = rw s at h in ground arith

    granted-Succeeds : p.state ≡ granted → Succeeds P (granted_only env p now (some l))
    granted-Succeeds s =
        if-Succeeds P (leb l.timeouts.lifetime now) (transition_lifetime env p) _
          (λ h. lifetime-Succeeds)
          (λ h. success P p (rw (s, e) (inr (leb→lt l.timeouts.lifetime now h))))

    leased-Succeeds : IsLeased p.state → Succeeds P (leased env p now (some l))
    leased-Succeeds i =
        if-Succeeds P (leb l.timeouts.lifetime now) (transition_lifetime env p) _
          (λ h. lifetime-Succeeds)
          λ a.
            if-Succeeds P (leb l.timeouts.t2 now && not (in_state p.state rebinding))
              (transition_t2 env p now) _ (λ h. t2-Succeeds (leb→lt l.timeouts.lifetime now a))
              λ b.
                if-Succeeds P (leb l.timeouts.t1 now && in_state p.state bound)
                  (transition_t1 env p now) _
                  (λ h.
                    t1-Succeeds
                      (before_t2 l.timeouts.t2
                        (in_state-eq p.state bound
                          (and_right (leb l.timeouts.t1 now) (in_state p.state bound) h))
                        b)
                      (leb→lt l.timeouts.lifetime now a))
                  λ c. success P p (
                    rw e (
                      settled now p p.state l.timeouts.t1 l.timeouts.t2 l.timeouts.lifetime i a b
                        c))

  with_lease :
      (lease : Option Held)
      → p.current_lease ≡ lease
      → (f : Option Held → Run) → f none ≡ none
      → ((l : Held) → p.current_lease ≡ some l → Succeeds P (f (some l)))
      → Succeeds P (f lease)
  with_lease none e f z k = rw z (fault P)
  with_lease (some l) e f z k = k l e

  waits :
      (s : State)
      → p.state ≡ s
      → InTime now p s (timeouts_of p.current_lease)
      → Succeeds P (some (p, none))
  waits s e h =
      success P p (subst (λ (s : State). InTime now p s (timeouts_of p.current_lease)) (sym e) h)

  on_timer-Succeeds : (s : State) → p.state ≡ s → Succeeds P (on_timer env p now s)
  unfolding on_timer
  on_timer-Succeeds init_reboot e = reboot-Succeeds
  on_timer-Succeeds rebooting e =
      if-Succeeds P (leb p.ns_reinit now) _ _ (λ h. deferred-Succeeds)
        (λ h. waits rebooting e (inr (leb→lt p.ns_reinit now h)))
  on_timer-Succeeds init e =
      if-Succeeds P (leb p.ns_deferred now) _ _ (λ h. deferred-Succeeds)
        (λ h. waits init e (inr (leb→lt p.ns_deferred now h)))
  on_timer-Succeeds granted e =
      with_lease p.current_lease refl (granted_only env p now) refl λ l h. granted-Succeeds l h e
  on_timer-Succeeds bound e =
      with_lease p.current_lease refl (leased env p now) refl λ l h. leased-Succeeds l h (rw e tt)
  on_timer-Succeeds renewing e =
      with_lease p.current_lease refl (leased env p now) refl λ l h. leased-Succeeds l h (rw e tt)
  on_timer-Succeeds rebinding e =
      with_lease p.current_lease refl (leased env p now) refl λ l h. leased-Succeeds l h (rw e tt)
  on_timer-Succeeds selecting e = waits selecting e tt
  on_timer-Succeeds requesting e = waits requesting e tt
  on_timer-Succeeds expired e = waits expired e tt

  connection_last :
      (run : Run) (p' : Probe)
      → Succeeds P run
      → then_connection env now run ≡ some (p', none)
      → (t : ℕ) → probe_timeout p' ≡ some t
      → Fresh now t
  unfolding Succeeds dispatch_connection probe_timeout get_timeout
  connection_last none p' h run t g = cc
  connection_last (some (q, some x)) p' h run t g = cc
  connection_last (some (q, none)) p' h run t g =
      let a = bind_inv (Io.dispatch_timer q.connection env.xid env.jitter now) _ run in
      let b : record q { connection = a.0.0 } ≡ p' =
        ap (λ (r : Probe × Option Error). r.0) (some_inj a.2) in
      let c = bind_inv (timeout_of p'.connection.request) _ g in
      let f =
        dispatch_timer-IsFresh q.connection env.xid env.jitter now a.0.0 a.0.1 (omega arith) a.1 in
      subst (Fresh now) (some_inj c.2) (
        timeout_in-Fresh now p' p'.state c.0 (timeouts_of p'.current_lease)
          (subst (IsInTime now) b h)
          (subst (λ (q : Probe). IsFresh now q.connection.request) b f c.0 c.1))

  -- If the timer call of a probe returns 0, at a time that is not after the clock that it reads, which
  -- is below 2^63, no timeout of the probe is due: it has none, or one after that time.
  pub dispatch_timer-Fresh :
      (p' : Probe)
      → dispatch_timer env p now ≡ some (p', none)
      → (t : ℕ) → probe_timeout p' ≡ some t
      → Fresh now t
  unfolding dispatch_timer
  dispatch_timer-Fresh p' h =
      connection_last (on_timer env p now p.state) p' (on_timer-Succeeds p.state refl) h
