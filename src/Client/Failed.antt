-- ===== src/Client/Failed.antt =====
-- A call of n_dhcp4_client_dispatch whose timer handler fails.
use n_dhcp.Base.{ℕ, ◌≡◌, refl, ap, ◌∙◌, true, false, none, some, List, [], ◌∷◌, ==_refl}
use n_dhcp.Protocol.{
  Error, preempted, internal, invalid_ifindex, invalid_transport, invalid_address,
  invalid_client_id, duplicate_option, unset, unexpected, no_space, malformed, dropped, down, again,
  enomem, enotrecoverable, os, ok,
}
use n_dhcp.Probe.{Probe, Env}
use n_dhcp.Probe.Transitions.{probe_timeout}
use n_dhcp.Probe.Transitions
use n_dhcp.Client.{
  Client, client_timeout, arm_timer, lend, give_back, on_probe, ticks, expire,
  client_dispatch_timer, Polled, timer, Turn, handle, is_private, is_down, settle, dispatch_turns,
  finish, dispatch,
}
use n_dhcp.Client.Armed.{timeout-events}

public_not_down : (e : Error) → is_private e ≡ false → is_down e ≡ false
unfolding is_private is_down
public_not_down preempted h = refl
public_not_down internal h = refl
public_not_down invalid_ifindex h = refl
public_not_down invalid_transport h = refl
public_not_down invalid_address h = refl
public_not_down invalid_client_id h = refl
public_not_down duplicate_option h = refl
public_not_down unset h = refl
public_not_down unexpected h = refl
public_not_down no_space h = refl
public_not_down malformed h = refl
public_not_down dropped h = refl
public_not_down down h = cc
public_not_down again h = refl
public_not_down enomem h = refl
public_not_down enotrecoverable h = refl
public_not_down (os n) h = refl

settle-stop :
    (turn : Turn) (c : Client) (e : Error)
    → is_private e ≡ false
    → settle turn (some (c, some e)) ≡ some (c, some e)
unfolding settle
settle-stop turn c e public = rw (public_not_down e public, public) refl

-- A handler that fails with an error of the API ends the loop.
turns-stop :
    (turn : Turn) (turns : List Turn) (c c' : Client) (e : Error)
    → handle turn.polled turn.env c ≡ some (c', some e)
    → is_private e ≡ false
    → dispatch_turns (turn ∷ turns) c ≡ some (c', some e)
unfolding dispatch_turns
turns-stop turn turns c c' e h public = rw (dispatch_turns, h, settle-stop turn c' e public) refl

-- The handler of an expired timer, whose probe fails.
expire-fails :
    (env : Env) (c : Client) (now : ℕ) (p p' : Probe) (e : Error)
    → c.current_probe ≡ some p
    → Transitions.dispatch_timer env (lend c p) now ≡ some (p', some e)
    → client_dispatch_timer env false true ticks now c
      ≡ some (give_back (record c { armed = none }) p', some e)
unfolding client_dispatch_timer on_probe
expire-fails env c now p p' e running fails =
    ap (expire env now (record c { armed = none })) running
    ∙ ap (on_probe (record c { armed = none })) fails

module _ (turn : Turn) (c : Client) (p p' : Probe) (e : Error) (now clock : ℕ)
    (event : turn.polled ≡ timer false true ticks now) (running : c.current_probe ≡ some p) where
  -- If the timer expires and the call of the probe fails with an error of the API, and leaves the
  -- timeout that is scheduled, dispatch returns the error without setting the timer, and to arm the
  -- timer later, at any time, does not set it.
  pub dispatch-unarmed :
      Transitions.dispatch_timer turn.env (lend (record c { preempted = false }) p) now
        ≡ some (p', some e)
      → is_private e ≡ false
      → probe_timeout p' ≡ some c.scheduled_timeout
      → (c' : Client) × (dispatch (ok (turn ∷ [])) clock c ≡ some (c', some e))
        × (c'.armed ≡ none)
        × ((later : ℕ) → arm_timer later c' ≡ some c')
  unfolding dispatch finish handle arm_timer client_timeout
  dispatch-unarmed fails public same =
      let started = record c { preempted = false } in
      let h = expire-fails turn.env started now p p' e running fails in
      let c' = give_back (record started { armed = none }) p' in
      (
        c',
        ap (finish clock) (
            turns-stop turn [] started c' e
              (ap (λ (q : Polled). handle q turn.env started) event ∙ h) public),
        refl,
        λ later. rw (timeout-events p' ∙ same, ==_refl c.scheduled_timeout) refl,
      )
