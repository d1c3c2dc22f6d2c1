-- ===== src/Connection/Secs.antt =====
-- The `secs` field of a request that is sent for the first time.
use n_dhcp.Base.{
  ℕ, ◌+◌, ◌-◌, ◌/◌, ◌%◌, ◌^◌, ◌<◌, ◌≡◌, inl, inr, refl, ◌∙◌, some, arith, if◌then◌else◌, Bool-cases,
}
use n_dhcp.Protocol.{be16, uint16_max}
use n_dhcp.Outgoing.{Outgoing}
use n_dhcp.Outgoing.Valid.{Valid}
use n_dhcp.Outgoing.Header.{userdata-Valid}
use n_dhcp.Connection.{Connection}
use n_dhcp.Connection.Io.{clamp, secs_of, Route, route, restamps, start_request}
use n_dhcp.Connection.Timer.{Sent, send_request-Sent}

started : Outgoing → ℕ → Outgoing
started o timestamp = record o { start_time = timestamp }

started-Valid : (o : Outgoing) (timestamp : ℕ) → Valid o → Valid (started o timestamp)
unfolding started
started-Valid o timestamp v =
    userdata-Valid o o.type o.message_type o.client_addr o.server_id timestamp o.base_time
      o.send_time o.send_jitter o.n_send v

elapsed-none :
    (t : ℕ)
    → t < 9223372036854775808
    → clamp 1 uint16_max ((t + 2 ^ 64 - t) % 2 ^ 64 / 1000000000) ≡ 1
elapsed-none t h = let e : (t + 2 ^ 64 - t) % 2 ^ 64 / 1000000000 ≡ 0 = omega arith in rw e refl

elapsed-wrap :
    (t : ℕ)
    → 0 < t
    → t < 9223372036854775808
    → clamp 1 uint16_max ((0 + 2 ^ 64 - t) % 2 ^ 64 / 1000000000) ≡ 65535
elapsed-wrap t lo hi =
    let e : 65535 < (0 + 2 ^ 64 - t) % 2 ^ 64 / 1000000000 = omega arith in ground (arith, e)

-- A new request, with no times set yet, is sent with `secs` 1 if its transaction starts with it;
-- but a DECLINE or RELEASE, whose base time stays 0, is sent with `secs` 65535, since the start time
-- is subtracted from it.
pub start_request-secs :
    (c : Connection) (o : Outgoing) (xid jitter timestamp : ℕ) (via : Route)
    → Valid o
    → route c.state o.type ≡ some via
    → o.start_time ≡ 0
    → o.base_time ≡ 0
    → 0 < timestamp
    → timestamp < 9223372036854775808
    → (o' : Outgoing) × (start_request c o xid jitter timestamp
        ≡ some (record c { request = some o' }, via))
      × Valid o'
      × (be16 (o'.message.byte 8) (o'.message.byte 9) ≡ (if restamps o.type then 1 else 65535))
unfolding start_request started
start_request-secs c o xid jitter timestamp via v r no_start no_base lo hi =
    let s =
      send_request-Sent c.state (started o timestamp) xid jitter timestamp via
        (started-Valid o timestamp v) r in
    (s.0, rw (no_start, s.1) refl, s.2.valid, s.2.secs_are ∙ secs s.0 s.2)
  where
    secs :
        (o' : Outgoing)
        → Sent (started o timestamp) jitter timestamp o'
        → secs_of o' ≡ (if restamps o.type then 1 else 65535)
    secs o' s = elim (Bool-cases (restamps o.type)) [
      | inl y ↦ let b = rw y at s.base_is in rw (s.start_kept, b, y) (elapsed-none timestamp hi)
      | inr n ↦
          let b = rw n at s.base_is in
          rw (s.start_kept, b, no_base, n) (elapsed-wrap timestamp lo hi)
    ]
