-- ===== src/Lease/Overflow.antt =====
-- The default of T2 for a lifetime whose multiple does not fit into 64 bits.
use n_dhcp.Base.{ℕ, ◌+◌, ◌-◌, ◌*◌, ◌/◌, ◌≤◌, ◌<◌, ◌≡◌, refl, ◌∙◌, ap, some, List, arith, ne→==}
use n_dhcp.Protocol.{ok, err, unset, uint32_max, uint64_max}
use n_dhcp.Protocol.Opt
use n_dhcp.Incoming.{Incoming}
use n_dhcp.Incoming.Refine.{Parsed, lookup_option}
use n_dhcp.Incoming.Typed.{read_u32}
use n_dhcp.Lease.{Timeouts, get_timeouts, nanoseconds, seven_eighths}
use n_dhcp.Lease.Ordered.{timeouts_of, get_timeouts-eq, from_base-finite}

wraps :
    (v : ℕ)
    → 2635249153 < v
    → v < uint32_max
    → seven_eighths (v * 1000000000) ≡ (v * 7000000000 - 18446744073709551616) / 8
wraps v lo hi = omega arith

nanoseconds-eq : (v : ℕ) → v < uint32_max → nanoseconds v ≡ v * 1000000000
nanoseconds-eq v h = rw (ne→== v uint32_max (λ e. omega arith)) (omega arith)

timeouts_of-wrap :
    (base v : ℕ)
    → base ≤ 9223372036854775808
    → 2635249153 < v
    → v < uint32_max
    → (t : Timeouts) × (timeouts_of base (ok v) (err unset) (err unset) ≡ ok t)
      × (t.lifetime ≡ v * 1000000000 + base)
      × (t.t2 ≡ (v * 7000000000 - 18446744073709551616) / 8 + base)
timeouts_of-wrap base v h lo hi =
    let ns = nanoseconds-eq v hi in
    (
      _,
      refl,
      rw (ns, from_base-finite base (v * 1000000000) h (omega arith)) refl,
      rw
          (
            ns,
            ne→== (v * 1000000000) uint64_max (λ e. omega arith),
            wraps v lo hi,
            from_base-finite base ((v * 7000000000 - 18446744073709551616) / 8) h (omega arith),
          )
          refl,
    )

-- A finite lifetime above 2635249153 seconds, without T1 and T2 options: seven times the lifetime
-- wraps around in 64 bits, and T2 is 2^64 / 8 nanoseconds earlier than 7/8 of the lifetime.
pub get_timeouts-wrap :
    (raw : List ℕ) (i : Incoming) (v : ℕ)
    → Parsed raw i
    → i.base_time ≤ 9223372036854775808
    → 2635249153 < v
    → v < uint32_max
    → read_u32 (lookup_option raw Opt.ip_address_lease_time) ≡ ok v
    → read_u32 (lookup_option raw Opt.rebinding_t2_time) ≡ err unset
    → read_u32 (lookup_option raw Opt.renewal_t1_time) ≡ err unset
    → (t : Timeouts) × (get_timeouts i ≡ some (ok t))
      × (t.lifetime ≡ v * 1000000000 + i.base_time)
      × (t.t2 + 2305843009213693952 ≡ v * 1000000000 * 7 / 8 + i.base_time)
get_timeouts-wrap raw i v p h lo hi lifetime no_t2 no_t1 =
    let w = timeouts_of-wrap i.base_time v h lo hi in
    (
      w.0,
      get_timeouts-eq raw i p ∙ (rw (lifetime, no_t2, no_t1) (ap some w.1)),
      w.2,
      omega (arith, w.3),
    )
