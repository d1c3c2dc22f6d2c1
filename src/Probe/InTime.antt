-- ===== src/Probe/InTime.antt =====
-- The deadlines of a probe, and runs that succeed.
use n_dhcp.Base.{
  ℕ, ◌≡◌, refl, Bool, true, false, Option, none, some, List, arith, ◌>>=◌, if◌then◌else◌,
}
use n_dhcp.Protocol.{Error, Result, ok, err}
use n_dhcp.Outgoing.{Outgoing}
use n_dhcp.Connection.{Connection}
use n_dhcp.Connection.Io.{Route, start_request}
use n_dhcp.Connection.Fresh.{Fresh}
use n_dhcp.Probe.{
  State, init, init_reboot, selecting, rebooting, requesting, granted, bound, renewing, rebinding,
  expired, Probe, Env, Run, Event, append_options, with_connection, with_request, send, raise,
}
use n_dhcp.Probe.Transitions.{earliest, timeouts_of, timeout_in}

-- The deadlines that a state has besides that of the connection, none of which is due.
abbrev pub InTime : ℕ → Probe → State → ℕ × ℕ × ℕ → Type 0
InTime now p init_reboot ts = ⊥
InTime now p rebooting ts = Fresh now p.ns_reinit
InTime now p init ts = Fresh now p.ns_deferred
InTime now p bound (t1, t2, lifetime) = Fresh now t1 × Fresh now t2 × Fresh now lifetime
InTime now p renewing (t1, t2, lifetime) = Fresh now t2 × Fresh now lifetime
InTime now p rebinding (t1, t2, lifetime) = Fresh now lifetime
InTime now p granted (t1, t2, lifetime) = Fresh now lifetime
InTime now p selecting ts = Unit {0}
InTime now p requesting ts = Unit {0}
InTime now p expired ts = Unit {0}

abbrev pub IsInTime : ℕ → Probe → Type 0
IsInTime now p = InTime now p p.state (timeouts_of p.current_lease)

earliest-Fresh :
    (now t timeout : ℕ) → Fresh now t → Fresh now timeout → Fresh now (earliest t timeout)
earliest-Fresh now t timeout a b = ground arith

pub timeout_in-Fresh :
    (now : ℕ) (p : Probe) (s : State) (timeout : ℕ) (ts : ℕ × ℕ × ℕ)
    → InTime now p s ts
    → Fresh now timeout
    → Fresh now (timeout_in p s timeout ts)
timeout_in-Fresh now p init_reboot timeout ts h f = absurd h
timeout_in-Fresh now p rebooting timeout ts h f = earliest-Fresh now p.ns_reinit timeout h f
timeout_in-Fresh now p init timeout ts h f = earliest-Fresh now p.ns_deferred timeout h f
timeout_in-Fresh now p bound timeout (t1, t2, lifetime) h f =
    earliest-Fresh now lifetime _ h.2
      (earliest-Fresh now t2 _ h.1 (earliest-Fresh now t1 timeout h.0 f))
timeout_in-Fresh now p renewing timeout (t1, t2, lifetime) h f =
    earliest-Fresh now lifetime _ h.1 (earliest-Fresh now t2 timeout h.0 f)
timeout_in-Fresh now p rebinding timeout (t1, t2, lifetime) h f =
    earliest-Fresh now lifetime timeout h f
timeout_in-Fresh now p granted timeout (t1, t2, lifetime) h f =
    earliest-Fresh now lifetime timeout h f
timeout_in-Fresh now p selecting timeout ts h f = f
timeout_in-Fresh now p requesting timeout ts h f = f
timeout_in-Fresh now p expired timeout ts h f = f

-- The probe that a run leaves with success has the property.
unfoldable pub Succeeds : (Probe → Type 0) → Run → Type 0
Succeeds P none = Unit
Succeeds P (some (p, none)) = P p
Succeeds P (some (p, some e)) = Unit

module _ (P : Probe → Type 0) where
  pub fault : Succeeds P none
  unfolding Succeeds
  fault = tt

  pub success : (p : Probe) → P p → Succeeds P (some (p, none))
  unfolding Succeeds
  success p h = h

  pub if-Succeeds :
      (b : Bool) (x y : Run)
      → (b ≡ true → Succeeds P x)
      → (b ≡ false → Succeeds P y)
      → Succeeds P (if b then x else y)
  if-Succeeds true x y h k = h refl
  if-Succeeds false x y h k = k refl

  pub connection-Succeeds :
      (p : Probe) (run : Option (Connection × Option Error)) (k : Probe → Run)
      → ((c : Connection) → Succeeds P (k (record p { connection = c })))
      → Succeeds P (with_connection p run k)
  unfolding Succeeds
  connection-Succeeds p none k l = tt
  connection-Succeeds p (some (c, none)) k l = l c
  connection-Succeeds p (some (c, some e)) k l = tt

  pub request-Succeeds :
      (p : Probe) (run : Option (Result Outgoing)) (k : Outgoing → Run)
      → ((o : Outgoing) → Succeeds P (k o))
      → Succeeds P (with_request p run k)
  unfolding Succeeds
  request-Succeeds p none k l = tt
  request-Succeeds p (some (ok o)) k l = l o
  request-Succeeds p (some (err e)) k l = tt

  pub raise-Succeeds :
      (node_memory : Bool) (event : Event) (p : Probe) (k : Probe → Run)
      → ((es : List Event) → Succeeds P (k (record p { events = es })))
      → Succeeds P (raise node_memory event p k)
  unfolding Succeeds raise
  raise-Succeeds true event p k l = l _
  raise-Succeeds false event p k l = tt

  pub bind-Succeeds :
      (run : Option (Connection × Route)) (f : Connection × Route → Run)
      → ((r : Connection × Route) → Succeeds P (f r))
      → Succeeds P (run >>= f)
  bind-Succeeds none f h = fault
  bind-Succeeds (some r) f h = h r

  pub send-Succeeds :
      (env : Env) (ns_now : ℕ) (p : Probe) (request : Option (Result Outgoing))
      (done : Probe → Probe)
      → ((c : Connection) → P (done (record p { connection = c })))
      → Succeeds P (send env ns_now p request done)
  unfolding send
  send-Succeeds env ns_now p request done k = request-Succeeds p request _ λ o.
      request-Succeeds p (append_options env.memory 10 p.options o) _ λ o'.
        bind-Succeeds (start_request p.connection o' env.xid env.jitter ns_now) _
          λ r. success (done (record p { connection = r.0 })) (k r.0)
