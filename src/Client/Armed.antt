-- ===== src/Client/Armed.antt =====
-- The timer of a client after a call of n_dhcp4_client_dispatch.
use n_dhcp.Base.{
  ℕ, ◌+◌, ◌≤◌, ◌<◌, ◌≡◌, ◌⊎◌, inl, inr, refl, sym, ap, fun_ext, subst, ◌∙◌, Bool, true, false,
  Option, none, some, List, [], ◌∷◌, arith, ◌>>=◌, some_inj,
}
use n_dhcp.Protocol.{Error, Result, ok}
use n_dhcp.Incoming.{Incoming}
use n_dhcp.Connection.Fresh.{bind_inv}
use n_dhcp.Probe.{
  State, init, init_reboot, selecting, rebooting, requesting, granted, bound, renewing, rebinding,
  expired, Probe, Env, Run,
}
use n_dhcp.Connection.Io.{get_timeout}
use n_dhcp.Probe.Transitions.{probe_timeout, timeout_in, timeouts_of}
use n_dhcp.Probe.Progress.{dispatch_timer-Fresh}
use n_dhcp.Client.{
  Client, client_timeout, arm_timer, lend, give_back, on_probe, Read, failed, ticks, other, expire,
  client_dispatch_timer, io_in, client_dispatch_io, Polled, timer, io, Turn, handle, settle,
  dispatch_turns, finish, dispatch,
}
use n_dhcp.Client.Scheduled.{
  SetFor, IsScheduled, IsArmed, IsReady, arm_timer-IsArmed, IsScheduled-IsReady,
}

-- The time for which the timer is set is over.
abbrev pub HasElapsed : Option (ℕ × ℕ) → ℕ → Type 0
HasElapsed none now = Unit {0}
HasElapsed (some (clock, offset)) now = (clock + offset) ≤ now

past :
    (armed : Option (ℕ × ℕ)) (now scheduled : ℕ)
    → HasElapsed armed now
    → (scheduled ≡ 0) ⊎ SetFor armed scheduled
    → scheduled ≤ now
past armed now scheduled h (inl z) = omega (arith, z)
past none now scheduled h (inr s) = absurd s
past (some (clock, offset)) now scheduled h (inr (pos, inl e)) = omega (arith, e, h)
past (some (clock, offset)) now scheduled h (inr (pos, inr (le, one))) = omega (arith, le, one, h)

timeout_in-events :
    (p : Probe) (s : State) (timeout : ℕ) (ts : ℕ × ℕ × ℕ)
    → timeout_in (record p { events = [] }) s timeout ts ≡ timeout_in p s timeout ts
timeout_in-events p init timeout ts = refl
timeout_in-events p init_reboot timeout ts = refl
timeout_in-events p selecting timeout ts = refl
timeout_in-events p rebooting timeout ts = refl
timeout_in-events p requesting timeout ts = refl
timeout_in-events p granted timeout ts = refl
timeout_in-events p bound timeout ts = refl
timeout_in-events p renewing timeout ts = refl
timeout_in-events p rebinding timeout ts = refl
timeout_in-events p expired timeout ts = refl

-- A probe whose events were taken has the same timeout.
pub timeout-events : (p : Probe) → probe_timeout (record p { events = [] }) ≡ probe_timeout p
unfolding probe_timeout
timeout-events p =
    ap (λ (f : ℕ → ℕ). get_timeout p.connection >>= λ t. some (f t))
      (fun_ext λ t. timeout_in-events p p.state t (timeouts_of p.current_lease))

on_probe-inv :
    (c c' : Client) (run : Run)
    → on_probe c run ≡ some (c', none)
    → (p : Probe) × (run ≡ some (p, none)) × (c' ≡ give_back c p)
unfolding on_probe
on_probe-inv c c' none h = cc
on_probe-inv c c' (some (p, none)) h =
    (p, refl, sym (ap (λ (r : Client × Option Error). r.0) (some_inj h)))
on_probe-inv c c' (some (p, some e)) h = cc

-- Input keeps what the timer is set for.
io-IsScheduled :
    (env : Env) (allocated : Bool) (from_packet from_udp : Result Incoming) (c c' : Client)
    (probe : Option Probe)
    → io_in env allocated from_packet from_udp c probe ≡ some (c', none)
    → IsScheduled c
    → IsScheduled c'
io-IsScheduled env allocated from_packet from_udp c c' none h s = cc
io-IsScheduled env allocated from_packet from_udp c c' (some p) h s =
    let k = on_probe-inv c c' _ h in subst IsScheduled (sym k.2) s

input-IsScheduled :
    (env : Env) (allocated : Bool) (from_packet from_udp : Result Incoming) (c c' : Client)
    → client_dispatch_io env allocated from_packet from_udp c ≡ some (c', none)
    → IsScheduled c
    → IsScheduled c'
unfolding client_dispatch_io
input-IsScheduled env allocated from_packet from_udp c c' h s =
    io-IsScheduled env allocated from_packet from_udp c c' c.current_probe h s

module _ (env : Env) (now : ℕ) (c c' : Client) (small : env.clock < 9223372036854775808)
    (later : now ≤ env.clock) (set : IsScheduled c) (over : HasElapsed c.armed now) where
  expire-IsReady :
      (probe : Option Probe)
      → c.current_probe ≡ probe
      → expire env now (record c { armed = none }) probe ≡ some (c', none)
      → IsReady c'
  unfolding client_timeout
  expire-IsReady none e h =
      subst IsReady (ap (λ (r : Client × Option Error). r.0) (some_inj h))
        λ t g same. inl (sym (some_inj (rw e at g)))
  expire-IsReady (some p) e h =
      let k = on_probe-inv (record c { armed = none }) c' _ h in
      subst IsReady (sym k.2) λ t g same.
        elim (dispatch_timer-Fresh env (lend c p) now small later k.0 k.1 t
          (sym (timeout-events k.0) ∙ g)) [
            | inl z ↦ inl z
            | inr lt ↦ absurd (
                not_past t lt (
                  subst (λ (n : ℕ). n ≤ now) (sym same)
                    (past c.armed now c.scheduled_timeout over set)))
          ]
    where
      not_past : (t : ℕ) → now < t → t ≤ now → ⊥
      not_past t a b = omega arith

  timer-IsReady :
      (hup_or_err readable : Bool) (result : Read)
      → client_dispatch_timer env hup_or_err readable result now c ≡ some (c', none)
      → IsReady c'
  unfolding client_dispatch_timer
  timer-IsReady true readable result h = cc
  timer-IsReady false false result h =
      subst IsReady (ap (λ (r : Client × Option Error). r.0) (some_inj h))
        (IsScheduled-IsReady c set)
  timer-IsReady false true (failed e) h =
      subst IsReady (ap (λ (r : Client × Option Error). r.0) (some_inj h))
        (IsScheduled-IsReady c set)
  timer-IsReady false true ticks h = expire-IsReady c.current_probe refl h
  timer-IsReady false true other h = cc

-- The events of one call, each of which is handled with success: input, and last an event of the
-- timer, which was not set for a later time than the one that its handler reads.
pub data Handled : List Turn → Client → Client → Type 0 where
  nothing : (c : Client) → Handled [] c c
  input :
      (turn : Turn) (turns : List Turn) (c c' c'' : Client) (allocated : Bool)
      (from_packet from_udp : Result Incoming)
      → turn.polled ≡ io allocated from_packet from_udp
      → client_dispatch_io turn.env allocated from_packet from_udp c ≡ some (c', none)
      → Handled turns c' c''
      → Handled (turn ∷ turns) c c''
  expiry :
      (turn : Turn) (c c' : Client) (hup_or_err readable : Bool) (result : Read) (now : ℕ)
      → turn.polled ≡ timer hup_or_err readable result now
      → now ≤ turn.env.clock
      → turn.env.clock < 9223372036854775808
      → HasElapsed c.armed now
      → client_dispatch_timer turn.env hup_or_err readable result now c ≡ some (c', none)
      → Handled (turn ∷ []) c c'

-- A handler that returns 0 is followed by the next one.
turns-next :
    (turn : Turn) (turns : List Turn) (c c' : Client) (polled : Polled)
    → turn.polled ≡ polled
    → handle polled turn.env c ≡ some (c', none)
    → dispatch_turns (turn ∷ turns) c ≡ dispatch_turns turns c'
unfolding dispatch_turns settle
turns-next turn turns c c' polled e h =
    rw (dispatch_turns, ap (λ (p : Polled). handle p turn.env c) e ∙ h) refl

turns-lem :
    (turns : List Turn) (c c' : Client)
    → Handled turns c c'
    → IsScheduled c
    → (dispatch_turns turns c ≡ some (c', none)) × IsReady c'
unfolding dispatch_turns handle
turns-lem _ _ _ (nothing c) s = (refl, IsScheduled-IsReady c s)
turns-lem _ _ _ (input turn turns c c' c'' allocated from_packet from_udp e h rest) s =
    let set = input-IsScheduled turn.env allocated from_packet from_udp c c' h s in
    let r = turns-lem turns c' c'' rest set in
    (turns-next turn turns c c' (io allocated from_packet from_udp) e h ∙ r.0, r.1)
turns-lem _ _ _ (expiry turn c c' hup_or_err readable result now e later small over h) s = (
  turns-next turn [] c c' (timer hup_or_err readable result now) e h,
  timer-IsReady turn.env now c c' small later s over hup_or_err readable result h,
)

-- If the timer of a client is set for the scheduled timeout, and dispatch gets events of input,
-- each handled with success, and after them at most one event of the timer, then, if it returns,
-- the timeout of the client is scheduled and the timer is set for it, or for the next nanosecond
-- if it has passed. The timer event is handled with success at a time that is not before the one
-- for which the timer was set and not after the clock of the handler, which is below 2^63. Input
-- after the timer event is not covered.
pub dispatch-IsArmed :
    (turns : List Turn) (clock : ℕ) (c c' : Client)
    → Handled turns (record c { preempted = false }) c'
    → IsScheduled c
    → (c'' : Client) (r : Option Error) → dispatch (ok turns) clock c ≡ some (c'', r)
    → IsArmed c''
unfolding dispatch finish
dispatch-IsArmed turns clock c c' h s c'' r run =
    let t = turns-lem turns (record c { preempted = false }) c' h s in
    let b = bind_inv (arm_timer clock c') _ (rw t.0 at run) in
    subst IsArmed (ap (λ (r : Client × Option Error). r.0) (some_inj b.2))
      (arm_timer-IsArmed clock c' b.0 t.1 b.1)
