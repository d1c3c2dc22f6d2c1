-- ===== src/Probe/Runs.antt =====
-- Properties that a run of a probe leaves, over the steps that it is made of.
use n_dhcp.Base.{
  ℕ, ◌≡◌, refl, sym, ap, ◌∙◌, ◌==◌, ==→eq, subst, Bool, true, false, Option, none, some, List, [],
  ◌∷◌, ◌++◌, if◌then◌else◌, ◌>>=◌,
}
use n_dhcp.Protocol.{Error, Result, ok, err}
use n_dhcp.Incoming.{Incoming}
use n_dhcp.Outgoing.{Outgoing}
use n_dhcp.Lease
use n_dhcp.Connection.{Connection}
use n_dhcp.Connection.Io.{Route, start_request}
use n_dhcp.Probe.{
  State, code, in_state, case_of, init, init_reboot, selecting, rebooting, requesting, granted,
  bound, renewing, rebinding, expired, Probe, Env, Run, Held, Event, append_options,
  with_connection, with_request, with_value, start, send, raise, linked, with_new_lease,
}

state_of : ℕ → State
state_of n =
    if n == 0
    then init
    else if n == 1
    then init_reboot
    else if n == 2
    then selecting
    else if n == 3
    then rebooting
    else if n == 4
    then requesting
    else if n == 5
    then granted
    else if n == 6
    then bound
    else if n == 7
    then renewing
    else if n == 8
    then rebinding
    else expired

state_of-code : (s : State) → state_of (code s) ≡ s
unfolding state_of
state_of-code init = refl
state_of-code init_reboot = refl
state_of-code selecting = refl
state_of-code rebooting = refl
state_of-code requesting = refl
state_of-code granted = refl
state_of-code bound = refl
state_of-code renewing = refl
state_of-code rebinding = refl
state_of-code expired = refl

pub in_state-eq : (s t : State) → in_state s t ≡ true → s ≡ t
in_state-eq s t e =
    sym (state_of-code s) ∙ ap state_of (==→eq (code s) (code t) e) ∙ state_of-code t

-- The probe that a run leaves, if it returns, has the property.
unfoldable pub Leaves : (Probe → Type 0) → Run → Type 0
Leaves P none = Unit
Leaves P (some r) = P r.0

pub Leaves-some :
    (P : Probe → Type 0) (run : Run) (p : Probe) (e : Option Error)
    → Leaves P run
    → run ≡ some (p, e)
    → P p
unfolding Leaves
Leaves-some P run p e l h = subst (Leaves P) h l

module _ (P : Probe → Type 0) where
  pub fault-Leaves : Leaves P none
  unfolding Leaves
  fault-Leaves = tt

  pub ok-Leaves : (p : Probe) (e : Option Error) → P p → Leaves P (some (p, e))
  unfolding Leaves
  ok-Leaves p e h = h

  pub if-Leaves :
      (b : Bool) (x y : Run) → (b ≡ true → Leaves P x) → Leaves P y → Leaves P (if b then x else y)
  if-Leaves true x y h k = h refl
  if-Leaves false x y h k = k

  pub connection-Leaves :
      (p : Probe) (run : Option (Connection × Option Error)) (k : Probe → Run)
      → ((c : Connection) → P (record p { connection = c }))
      → ((c : Connection) → Leaves P (k (record p { connection = c })))
      → Leaves P (with_connection p run k)
  unfolding Leaves
  connection-Leaves p none k h l = tt
  connection-Leaves p (some (c, none)) k h l = l c
  connection-Leaves p (some (c, some e)) k h l = h c

  pub request-Leaves :
      (p : Probe) (run : Option (Result Outgoing)) (k : Outgoing → Run)
      → P p
      → ((o : Outgoing) → Leaves P (k o))
      → Leaves P (with_request p run k)
  unfolding Leaves
  request-Leaves p none k h l = tt
  request-Leaves p (some (ok o)) k h l = l o
  request-Leaves p (some (err e)) k h l = h

  pub value-Leaves :
      (p : Probe) (run : Option (Result ℕ)) (k : ℕ → Run)
      → P p
      → ((n : ℕ) → Leaves P (k n))
      → Leaves P (with_value p run k)
  unfolding Leaves
  value-Leaves p none k h l = tt
  value-Leaves p (some (ok n)) k h l = l n
  value-Leaves p (some (err e)) k h l = h

  pub raise-Leaves :
      (node_memory : Bool) (event : Event) (p : Probe) (k : Probe → Run)
      → P p
      → Leaves P (k (record p { events = p.events ++ (event ∷ []) }))
      → Leaves P (raise node_memory event p k)
  unfolding Leaves raise
  raise-Leaves true event p k h l = l
  raise-Leaves false event p k h l = h

  pub lease-Leaves :
      (message : Incoming) (p : Probe) (run : Option (Result Lease.Lease)) (k : Held → Probe → Run)
      → P p
      → ((l : Held) (n : ℕ) (ls : List Held) (es : List Event)
          → Leaves P (k l (record p { n_leases = n; lease_list = ls; events = es })))
      → Leaves P (with_new_lease message p run k)
  unfolding Leaves
  lease-Leaves message p none k h l = tt
  lease-Leaves message p (some (err e)) k h l = h
  lease-Leaves message p (some (ok lease)) k h l = l (linked message lease.timeouts p) _ _ _

  pub case-Leaves :
      (s t : State) (x y : Run) → (s ≡ t → Leaves P x) → Leaves P y → Leaves P (case_of s t x y)
  case-Leaves s t x y h k = if-Leaves (in_state s t) x y (λ e. h (in_state-eq s t e)) k

  bind-Leaves :
      (run : Option (Connection × Route)) (f : Connection × Route → Run)
      → ((r : Connection × Route) → Leaves P (f r))
      → Leaves P (run >>= f)
  unfolding Leaves
  bind-Leaves none f h = tt
  bind-Leaves (some r) f h = h r

  pub start-Leaves :
      (env : Env) (ns_now : ℕ) (p : Probe) (o : Outgoing) (done : Probe → Probe)
      → ((c : Connection) → P (done (record p { connection = c })))
      → Leaves P (start env ns_now p o done)
  start-Leaves env ns_now p o done h =
      bind-Leaves (start_request p.connection o env.xid env.jitter ns_now) _
        λ r. ok-Leaves (done (record p { connection = r.0 })) none (h r.0)

  pub send-Leaves :
      (env : Env) (ns_now : ℕ) (p : Probe) (request : Option (Result Outgoing))
      (done : Probe → Probe)
      → P p
      → ((c : Connection) → P (done (record p { connection = c })))
      → Leaves P (send env ns_now p request done)
  unfolding send
  send-Leaves env ns_now p request done h k = request-Leaves p request _ h λ o.
      request-Leaves p (append_options env.memory 10 p.options o) _ h
        λ o'. start-Leaves env ns_now p o' done k
