-- ===== src/Client/Calls.antt =====
-- The calls of n-dhcp4-client.c on a client besides dispatch and pop_event.
use n_dhcp.Base.{
  ℕ, ◌≡◌, inl, inr, refl, ap, subst, ◌∙◌, Bool, true, false, Option, none, some, List, [], ◌∷◌,
  ◌++◌, map, ◌==◌, if◌then◌else◌, ◌>>=◌, some_inj, Bool-cases,
}
use n_dhcp.Protocol.{Error, Result, ok, err, ok_inj}
use n_dhcp.Connection.{ClientConfig}
use n_dhcp.Connection.Fresh.{bind_inv}
use n_dhcp.Probe.{Probe, Event, cancelled}
use n_dhcp.ProbeConfig.{ProbeConfig, probe_new, create, config_dup}
use n_dhcp.Client.{Client, client_timeout, settime, arm_timer}
use n_dhcp.Client.Queue.{Level, linked, from_probe}
use n_dhcp.Client.Settings.{to_connection}
use n_dhcp.Client.Scheduled.{IsScheduled, IsArmed, IsScheduled-IsReady, arm_timer-IsArmed}

-- n_dhcp4_client_set_log_level
abbrev pub set_log_level : Client → Level → Client
set_log_level c level = record c { log_level = level }

-- n_dhcp4_client_update_mtu and n_dhcp4_client_probe_update_mtu, which returns 0.
abbrev pub probe_update_mtu : Probe → ℕ → Probe × Option Error
probe_update_mtu p mtu = (p, none)

abbrev pub update_probe : Client → ℕ → Option Probe → Client × Option Error
update_probe c mtu none = (record c { mtu = mtu }, none)
update_probe c mtu (some p) = updated (probe_update_mtu p mtu)
  where
    updated : Probe × Option Error → Client × Option Error
    updated (p', none) = (record c { current_probe = some p'; mtu = mtu }, none)
    updated (p', some e) = (record c { current_probe = some p' }, some e)

unfoldable pub update_mtu : Client → ℕ → Client × Option Error
update_mtu c mtu = if mtu == c.mtu then (c, none) else update_probe c mtu c.current_probe

-- What the surroundings give to n_dhcp4_client_probe: memory, a random number, and the clock at the
-- start and when the timer is armed.
pub record Start : Type 0 where
  pub allocated : Bool
  pub memory : ℕ → Bool
  pub node_memory : Bool
  pub random : ℕ
  pub ns_now : ℕ
  pub clock : ℕ

abbrev pub is_active : Option Probe → Bool
is_active none = true
is_active (some p) = false

-- The new probe becomes the current one, or is detached and leaves its event at the client.
abbrev pub attach : Client → Option Probe → Probe → Client
attach c none p = record c { current_probe = some p }
attach c (some q) p = record c { nodes = c.nodes ++ map (λ e. linked (from_probe e)) p.events }

abbrev pub started : Start → Client → Option (Result Probe) → Option (Client × Result Probe)
started s c none = none
started s c (some (err e)) = some (c, err e)
started s c (some (ok p)) = do c' ← arm_timer s.clock (attach c c.current_probe p); some (c', ok p)

-- n_dhcp4_client_probe
unfoldable pub client_probe : Start → Client → ProbeConfig → Option (Client × Result Probe)
client_probe s c config = started s c (
    probe_new s.allocated s.memory s.node_memory s.random (to_connection c.config)
      (is_active c.current_probe) config s.ns_now)

attach-IsScheduled :
    (c : Client) (q : Option Probe) (p : Probe) → IsScheduled c → IsScheduled (attach c q p)
attach-IsScheduled c none p s = s
attach-IsScheduled c (some q) p s = s

abbrev Kept : Client → Client → Type 0
Kept c c' = (c'.current_probe ≡ c.current_probe) × (c'.nodes ≡ c.nodes)

settime-Kept : (clock t : ℕ) (c : Client) → Kept c (settime clock c t)
settime-Kept clock t c = elim (Bool-cases (t == c.scheduled_timeout)) [
  | inl y ↦ rw y (refl, refl)
  | inr n ↦ rw n (refl, refl)
]

arm_timer-keeps : (clock : ℕ) (c c' : Client) → arm_timer clock c ≡ some c' → Kept c c'
unfolding arm_timer
arm_timer-keeps clock c c' h =
    let b = bind_inv (client_timeout c) _ h in
    subst (Kept c) (some_inj b.2) (settime-Kept clock b.0 c)

-- The current probe and the events after a call that created the probe p.
abbrev pub Follows : Client → Option Probe → Probe → Client → Type 0
Follows c none p c' = (c'.current_probe ≡ some p) × (c'.nodes ≡ c.nodes)
Follows c (some q) p c' =
    (c'.current_probe ≡ some q) × (c'.nodes ≡ c.nodes ++ (linked (from_probe cancelled) ∷ []))

-- A detached probe leaves one event.
cancel-events :
    (client_config : ClientConfig) (node_memory : Bool) (random ns_now : ℕ) (r : Result ProbeConfig)
    (p : Probe)
    → create client_config false node_memory random ns_now r ≡ some (ok p)
    → p.events ≡ cancelled ∷ []
cancel-events client_config node_memory random ns_now (err e) p h = cc
cancel-events client_config true random ns_now (ok config) p h =
    subst (λ (p : Probe). p.events ≡ cancelled ∷ []) (ok_inj (some_inj h)) refl
cancel-events client_config false random ns_now (ok config) p h = cc

detached-events :
    (allocated : Bool) (memory : ℕ → Bool) (node_memory : Bool) (random : ℕ)
    (client_config : ClientConfig) (config : ProbeConfig) (ns_now : ℕ) (p : Probe)
    → probe_new allocated memory node_memory random client_config false config ns_now ≡ some (ok p)
    → p.events ≡ cancelled ∷ []
unfolding probe_new
detached-events true memory node_memory random client_config config ns_now p h =
    cancel-events client_config node_memory random ns_now (config_dup memory config) p h
detached-events false memory node_memory random client_config config ns_now p h = cc

module _ (s : Start) (c c' : Client) (p : Probe) where
  started-inv :
      (r : Option (Result Probe))
      → started s c r ≡ some (c', ok p)
      → (r ≡ some (ok p)) × (arm_timer s.clock (attach c c.current_probe p) ≡ some c')
  started-inv none h = cc
  started-inv (some (err e)) h = cc
  started-inv (some (ok q)) h =
      let b = bind_inv (arm_timer s.clock (attach c c.current_probe q)) _ h in
      let e : q ≡ p = ok_inj (ap (λ (r : Client × Result Probe). r.1) (some_inj b.2)) in
      let d : b.0 ≡ c' = ap (λ (r : Client × Result Probe). r.0) (some_inj b.2) in
      (
        ap (λ (q : Probe). some (ok q)) e,
        subst (λ (q : Probe). arm_timer s.clock (attach c c.current_probe q) ≡ some c') e
            (b.1 ∙ ap (λ (d : Client). some d) d),
      )

  Kept-Follows :
      (q : Option Probe)
      → (is_active q ≡ false → p.events ≡ cancelled ∷ [])
      → c.current_probe ≡ q
      → Kept (attach c q p) c'
      → Follows c q p c'
  Kept-Follows none events e k = k
  Kept-Follows (some q) events e k = (
    k.0 ∙ e,
    k.1 ∙ ap (λ (es : List Event). c.nodes ++ map (λ e. linked (from_probe e)) es) (events refl),
  )

  -- If the timer of a client is set for the scheduled timeout, and a new probe is created, then the
  -- timeout of the current probe is scheduled and the timer is set for it. The new probe is the
  -- current one if there was none, and else it only leaves an event at the end of the queue, which
  -- says that it is cancelled.
  pub client_probe-Follows :
      (config : ProbeConfig)
      → client_probe s c config ≡ some (c', ok p)
      → IsScheduled c
      → IsArmed c' × Follows c c.current_probe p c'
  unfolding client_probe
  client_probe-Follows config h set =
      let k = started-inv _ h in
      let now_set = attach-IsScheduled c c.current_probe p set in
      (
        arm_timer-IsArmed s.clock (attach c c.current_probe p) c'
            (IsScheduled-IsReady (attach c c.current_probe p) now_set) k.1,
        Kept-Follows c.current_probe
            (λ detached.
              detached-events s.allocated s.memory s.node_memory s.random (to_connection c.config)
                config s.ns_now p (rw detached at k.0))
            refl (arm_timer-keeps s.clock (attach c c.current_probe p) c' k.1),
      )
