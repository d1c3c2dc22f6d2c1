-- ===== src/ProbeConfig/New.antt =====
-- The probe that n_dhcp4_client_probe_new creates.
use n_dhcp.Base.{
  ℕ, ◌+◌, ◌*◌, ◌%◌, ◌^◌, ◌≤◌, ◌<◌, ◌≡◌, ◌≢◌, refl, inl, inr, Bool, true, ◌&&◌, not, some, [], arith,
  ◌==◌, Bool-cases, ne→==,
}
use n_dhcp.Protocol.{ok}
use n_dhcp.Connection.{ClientConfig, init_connection, init}
use n_dhcp.Probe.{Probe, Event, cancelled}
use n_dhcp.Probe
use n_dhcp.Probe.Inv.{Inv}
use n_dhcp.ProbeConfig.{ProbeConfig, start_delay, first_state, blank, probe_new}
use n_dhcp.ProbeConfig.Options.{config_dup-eq}

-- The probe of a client that has none: the first DISCOVER waits for less than the start delay, in
-- milliseconds, unless the last address is requested again at once.
abbrev pub IsStarted : ClientConfig → ProbeConfig → ℕ → Probe → Type 0
IsStarted client_config c ns_now p =
    Inv p
    × (p.state ≡ first_state c)
    × (p.connection.state ≡ init)
    × (p.options ≡ c.options)
    × (p.last_address ≡ c.requested_ip)
    × (p.events ≡ [])
    × (first_state c ≡ Probe.init
        → (ns_now ≤ p.ns_deferred)
          × (p.ns_deferred < ns_now + c.ms_start_delay * 1000000)
          × (p.ns_deferred < ns_now + 4294967296))

reboot≢init : Probe.init_reboot ≢ Probe.init
reboot≢init h = cc h

below : (m random : ℕ) → 0 < m → (random % m < m) × (random % m ≤ random)
below m random h = (grind arith, grind arith)

delayed :
    (m random now : ℕ)
    → 0 < m
    → m ≤ 9000000000000000
    → now < 9223372036854775808
    → random < 4294967296
    → (now ≤ (now + random % m) % 2 ^ 64)
      × ((now + random % m) % 2 ^ 64 < now + m)
      × ((now + random % m) % 2 ^ 64 < now + 4294967296)
delayed m random now pos small h r32 =
    let r = below m random pos in (omega arith, omega arith, omega arith)

module _ (memory : ℕ → Bool) (found : (j : ℕ) → memory j ≡ true) (random : ℕ)
    (client_config : ClientConfig) (c : ProbeConfig) (ns_now : ℕ) where
  -- Given memory, a client without a probe, a start delay of 1 to 9000000000 milliseconds, a time
  -- below 2^63 and a random number below 2^32, the probe starts in its first state with the invariant
  -- and without events, and has the options and the address of its configuration. If the first state
  -- is INIT, its first DISCOVER waits for less than the start delay and less than 2^32 nanoseconds.
  pub probe_new-IsStarted :
      0 < c.ms_start_delay
      → c.ms_start_delay ≤ 9000000000
      → ns_now < 9223372036854775808
      → random < 4294967296
      → (p : Probe) × (probe_new true memory true random client_config true c ns_now ≡ some (ok p))
        × IsStarted client_config c ns_now p
  unfolding probe_new start_delay init_connection
  probe_new-IsStarted pos small now r32 =
      let e : c.ms_start_delay * 1000000 % 2 ^ 64 ≡ c.ms_start_delay * 1000000 = omega arith in
      let m = config_dup-eq memory c found in
      elim (Bool-cases (c.init_reboot && not (c.requested_ip == 0))) [
        | inl y ↦ (
          blank client_config true c,
          rw (m, y) refl,
          rw y (
            (refl, (inl refl, inl refl)),
            refl,
            refl,
            refl,
            refl,
            refl,
            λ h. absurd (reboot≢init h),
          ),
        )
        | inr n ↦ (
          record (blank client_config true c) {
            ns_deferred = (ns_now + random % (c.ms_start_delay * 1000000)) % 2 ^ 64;
          },
          rw (m, n, e, ne→== (c.ms_start_delay * 1000000) 0 (omega arith)) refl,
          rw n (
            (refl, (inl refl, inl refl)),
            refl,
            refl,
            refl,
            refl,
            refl,
            λ h.
                delayed (c.ms_start_delay * 1000000) random ns_now (omega arith) (omega arith) now
                  r32,
          ),
        )
      ]
