-- ===== src/Probe/Inv.antt =====
-- The invariant of a probe, and that every call moves along an edge of its state machine.
use n_dhcp.Base.{
  ℕ, ◌*◌, ◌%◌, ◌^◌, ◌≤◌, ◌≡◌, ◌⊎◌, inl, inr, refl, sym, subst, ap, ◌∙◌, true, false, not, Option,
  none, some, List, arith,
}
use n_dhcp.Protocol.{enotrecoverable}
use n_dhcp.Incoming.{Incoming}
use n_dhcp.Incoming.Query
use n_dhcp.Incoming.Query.{query_server_identifier}
use n_dhcp.Lease
use n_dhcp.Lease.{is_none}
use n_dhcp.Connection.{Connection, listen, connect}
use n_dhcp.Connection.Requests.{select_new, reboot_new, renew_new, rebind_new, decline_new}
use n_dhcp.Connection.Io.{clamp}
use n_dhcp.Probe.{
  Probe, Env, State, init, init_reboot, selecting, rebooting, requesting, granted, bound, renewing,
  rebinding, offer, granted_event, extended, retracted, expired_event,
}
use n_dhcp.Probe.Transitions.{
  has_lease, is_pending, declined, discover_with, send_discover, send_rebind, extend, grant,
  transition_reboot, transition_deferred, transition_t1, transition_t2, transition_lifetime,
  transition_offer, transition_ack, transition_nak, transition_select, transition_accept,
  transition_decline,
}
use n_dhcp.Probe.Graph.{
  Edge, stays, reboots, discovers, rediscovers, selects, grants, regrants, accepts, declines,
  renews, rebinds, rebinds_late, extends, extends_late, expires, retracts,
}
use n_dhcp.Probe.Runs.{
  Leaves, fault-Leaves, ok-Leaves, if-Leaves, case-Leaves, connection-Leaves, request-Leaves,
  value-Leaves, raise-Leaves, lease-Leaves, start-Leaves, send-Leaves,
}

-- A delay that is not set, or between two bounds.
abbrev pub InRange : ℕ → ℕ → ℕ → Type 0
InRange lo hi delay = (delay ≡ 0) ⊎ ((lo ≤ delay) × (delay ≤ hi))

-- A probe has a lease exactly in the states that need one, and its restart delays are in bounds.
abbrev pub Inv : Probe → Type 0
Inv p =
    (is_none p.current_lease ≡ not (has_lease p.state))
    × (InRange 2000000000 300000000000 p.ns_nak_restart_delay
        × InRange 10000000000 300000000000 p.ns_decline_restart_delay)

clamp-InRange : (lo hi n : ℕ) → lo ≤ hi → InRange lo hi (clamp lo hi n)
clamp-InRange lo hi n h = inr (ground arith)

-- What a call leaves of a probe: the invariant, and the same state or one that an edge leads to.
abbrev pub After : Probe → Probe → Type 0
After p p' = Inv p' × Edge p.state p'.state

module _ (env : Env) (p : Probe) (inv : Inv p) where
  -- The invariant after a change of the state, from the lease of the new state.
  moved : (s : State) → p.state ≡ s → is_none p.current_lease ≡ not (has_lease s)
  moved s e = inv.0 ∙ ap (λ (s : State). not (has_lease s)) e

  edge : (s t : State) → p.state ≡ s → Edge s t → Edge p.state t
  edge s t e g = subst (λ (s : State). Edge s t) (sym e) g

  pub same : Inv p × Edge p.state p.state
  same = (inv, stays p.state)

  pub reboot-Leaves : (ns_now : ℕ) → Leaves (After p) (transition_reboot env p ns_now)
  unfolding transition_reboot
  reboot-Leaves ns_now =
      case-Leaves (After p) p.state init_reboot _ _
        (λ e.
          connection-Leaves (After p) p (listen env.socket env.epoll p.connection) _ (λ c. same)
            λ c.
              send-Leaves (After p) env ns_now (record p { connection = c })
                (reboot_new env.memory c p.last_address) _ same
                λ c'. ((moved init_reboot e, inv.1), edge init_reboot rebooting e reboots))
        (fault-Leaves (After p))

  discover-Leaves :
      (ns_now : ℕ) (c : Connection) (s : State)
      → p.state ≡ s
      → has_lease s ≡ false
      → Edge s selecting
      → Leaves (After p) (send_discover env (record p { connection = c }) ns_now)
  discover-Leaves ns_now c s e free g =
      send-Leaves (After p) env ns_now (record p { connection = c })
        (discover_with env.memory c p.last_address) _ same
        λ c'. ((moved s e ∙ (rw free refl), inv.1), edge s selecting e g)

  pub deferred-Leaves : (ns_now : ℕ) → Leaves (After p) (transition_deferred env p ns_now)
  unfolding transition_deferred
  deferred-Leaves ns_now =
      case-Leaves (After p) p.state init _ _
        (λ e.
          connection-Leaves (After p) p (listen env.socket env.epoll p.connection) _ (λ c. same)
            λ c. discover-Leaves ns_now c init e refl discovers)
        (case-Leaves (After p) p.state rebooting _ _
          (λ e. discover-Leaves ns_now p.connection rebooting e refl rediscovers)
          (fault-Leaves (After p)))

  pub t1-Leaves : (ns_now : ℕ) → Leaves (After p) (transition_t1 env p ns_now)
  unfolding transition_t1
  t1-Leaves ns_now =
      case-Leaves (After p) p.state bound _ _
        (λ e.
          send-Leaves (After p) env ns_now p (renew_new env.memory p.connection) _ same
            λ c. ((moved bound e, inv.1), edge bound renewing e renews))
        (fault-Leaves (After p))

  rebind-Leaves :
      (ns_now : ℕ) (s : State)
      → p.state ≡ s
      → has_lease s ≡ true
      → Edge s rebinding
      → Leaves (After p) (send_rebind env p ns_now)
  rebind-Leaves ns_now s e held g =
      connection-Leaves (After p) p (listen env.socket env.epoll p.connection) _ (λ c. same)
        λ c.
          send-Leaves (After p) env ns_now (record p { connection = c }) (rebind_new env.memory c) _
            same λ c'. ((moved s e ∙ (rw held refl), inv.1), edge s rebinding e g)

  pub t2-Leaves : (ns_now : ℕ) → Leaves (After p) (transition_t2 env p ns_now)
  unfolding transition_t2
  t2-Leaves ns_now =
      case-Leaves (After p) p.state bound _ _ (λ e. rebind-Leaves ns_now bound e refl rebinds)
        (case-Leaves (After p) p.state renewing _ _
          (λ e. rebind-Leaves ns_now renewing e refl rebinds_late) (fault-Leaves (After p)))

  pub lifetime-Leaves : Leaves (After p) (transition_lifetime env p)
  unfolding transition_lifetime
  lifetime-Leaves =
      if-Leaves (After p) (has_lease p.state) _ _
        (λ e.
          raise-Leaves (After p) env.node_memory expired_event p _ same
            (ok-Leaves (After p) _ none ((refl, inv.1), expires p.state e)))
        (fault-Leaves (After p))

  pub offer-Leaves : (message : Incoming) → Leaves (After p) (transition_offer env p message)
  unfolding transition_offer
  offer-Leaves message =
      case-Leaves (After p) p.state selecting _ _
        (λ e. raise-Leaves (After p) env.node_memory (offer none) p _ same (
          lease-Leaves (After p) message _ (Lease.new env.lease_memory message) _ same
            λ l n ls es. ok-Leaves (After p) _ none same))
        (ok-Leaves (After p) p none same)

  extend-Leaves :
      (message : Incoming) (c : Connection) (s : State)
      → p.state ≡ s
      → Edge s bound
      → Leaves (After p) (extend env (record p { connection = c }) message)
  extend-Leaves message c s e g =
      raise-Leaves (After p) env.node_memory (extended none) (record p { connection = c }) _ same
        (lease-Leaves (After p) message _ (Lease.new env.lease_memory message) _ same
          λ l n ls es. ok-Leaves (After p) _ none ((refl, (inl refl, inv.1.1)), edge s bound e g))

  grant-Leaves :
      (message : Incoming) (s : State)
      → p.state ≡ s
      → Edge s granted
      → Leaves (After p) (grant env p message)
  grant-Leaves message s e g =
      raise-Leaves (After p) env.node_memory (granted_event none) p _ same (
        lease-Leaves (After p) message _ (Lease.new env.lease_memory message) _ same
          λ l n ls es. ok-Leaves (After p) _ none ((refl, (inl refl, inv.1.1)), edge s granted e g))

  pub ack-Leaves : (message : Incoming) → Leaves (After p) (transition_ack env p message)
  unfolding transition_ack
  ack-Leaves message =
      case-Leaves (After p) p.state rebinding _ _
        (λ e. value-Leaves (After p) p (query_server_identifier message) _ same λ server.
          connection-Leaves (After p) p
            (connect env.socket env.epoll env.shutdown (Query.get_yiaddr message) server
              p.connection)
            _ (λ c. same) λ c. extend-Leaves message c rebinding e extends_late)
        (case-Leaves (After p) p.state renewing _ _
          (λ e. extend-Leaves message p.connection renewing e extends)
          (case-Leaves (After p) p.state requesting _ _
            (λ e. grant-Leaves message requesting e grants)
            (case-Leaves (After p) p.state rebooting _ _
              (λ e. grant-Leaves message rebooting e regrants) (ok-Leaves (After p) p none same))))

  pub nak-Leaves : Leaves (After p) (transition_nak env p)
  unfolding transition_nak
  nak-Leaves =
      if-Leaves (After p) (is_pending p.state) _ _
        (λ e. raise-Leaves (After p) env.node_memory retracted p _ same (
          ok-Leaves (After p) _ none (
            (
              refl,
              (
                clamp-InRange 2000000000 300000000000 (p.ns_nak_restart_delay * 2 % 2 ^ 64)
                    (omega arith),
                inv.1.1,
              ),
            ),
            retracts p.state e,
          )))
        (ok-Leaves (After p) p none same)

  pub select-Leaves :
      (message : Incoming) (ns_now : ℕ) → Leaves (After p) (transition_select env p message ns_now)
  unfolding transition_select
  select-Leaves message ns_now =
      case-Leaves (After p) p.state selecting _ _
        (λ e.
          send-Leaves (After p) env ns_now p (select_new env.memory p.connection message) _ same
            λ c. ((moved selecting e, inv.1), edge selecting requesting e selects))
        (ok-Leaves (After p) p (some enotrecoverable) same)

  pub accept-Leaves : (message : Incoming) → Leaves (After p) (transition_accept env p message)
  unfolding transition_accept
  accept-Leaves message =
      case-Leaves (After p) p.state granted _ _
        (λ e. value-Leaves (After p) p (query_server_identifier message) _ same λ server.
          connection-Leaves (After p) p
            (connect env.socket env.epoll env.shutdown (Query.get_yiaddr message) server
              p.connection)
            _ (λ c. same)
            λ c.
              ok-Leaves (After p) _ none
                ((moved granted e, (inv.1.0, inl refl)), edge granted bound e accepts))
        (ok-Leaves (After p) p (some enotrecoverable) same)

  pub decline-Leaves :
      (message : Incoming) (error : Option (List ℕ)) (ns_now : ℕ)
      → Leaves (After p) (transition_decline env p message error ns_now)
  unfolding transition_decline
  decline-Leaves message error ns_now =
      case-Leaves (After p) p.state granted _ _
        (λ e.
          request-Leaves (After p) p (decline_new env.memory p.connection message error) _ same λ o.
            start-Leaves (After p) env ns_now p o (declined env) λ c. (
              (
                refl,
                (
                  inv.1.0,
                  clamp-InRange 10000000000 300000000000 (p.ns_decline_restart_delay * 2 % 2 ^ 64)
                      (omega arith),
                ),
              ),
              edge granted init e declines,
            ))
        (ok-Leaves (After p) p (some enotrecoverable) same)
