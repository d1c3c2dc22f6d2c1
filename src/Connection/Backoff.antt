-- ===== src/Connection/Backoff.antt =====
-- When a request is sent again.
use n_dhcp.Base.{
  ℕ, zero, suc, ◌+◌, ◌*◌, ◌^◌, ◌≤◌, ◌<◌, ◌≡◌, ◌⊎◌, inl, inr, refl, ap, ◌∙◌, true, false, none, some,
  arith, leb, leb→lt, if◌then◌else◌, Bool-cases, lt→ltb, le→ltb,
}
use n_dhcp.Outgoing.{Outgoing}
use n_dhcp.Outgoing.Valid.{Valid}
use n_dhcp.Connection.{Connection, State}
use n_dhcp.Connection.Io.{
  backs_off, is_steady, is_final, clamp_sends, request_timeout, Route, route, dispatch_timer,
}
use n_dhcp.Connection.Timer.{Sent, send_request-Sent}

-- The delay between two sends, without the jitter: 2, 4, 8, ... 64 seconds after the first, second,
-- ... send, or a minute.
abbrev pub delay_of : Outgoing → ℕ
delay_of o = if backs_off o.type then 2 ^ clamp_sends o.n_send * 1000000000 else 60000000000

small_power : (n : ℕ) → n < 6 → (1 ≤ 2 ^ n) × (2 ^ n ≤ 64)
small_power zero h = (omega arith, omega arith)
small_power (suc zero) h = (omega arith, omega arith)
small_power (suc (suc zero)) h = (omega arith, omega arith)
small_power (suc (suc (suc zero))) h = (omega arith, omega arith)
small_power (suc (suc (suc (suc zero)))) h = (omega arith, omega arith)
small_power (suc (suc (suc (suc (suc zero))))) h = (omega arith, omega arith)
small_power (suc (suc (suc (suc (suc (suc n)))))) h = absurd (omega arith)

power-bounds : (n : ℕ) → (1 ≤ 2 ^ clamp_sends n) × (2 ^ clamp_sends n ≤ 64)
power-bounds n = elim (Bool-cases (leb 6 n)) [
  | inl y ↦ rw y (omega arith, omega arith)
  | inr y ↦ rw y (small_power n (leb→lt 6 n y))
]

pub delay-bounds : (o : Outgoing) → (1000000000 ≤ delay_of o) × (delay_of o ≤ 64000000000)
delay-bounds o = elim (Bool-cases (backs_off o.type)) [
  | inl y ↦ let b = power-bounds o.n_send in rw y (omega (arith, b), omega (arith, b))
  | inr y ↦ rw y (omega arith, omega arith)
]

-- The next timeout of a request, from the time of its last send on.
abbrev pub NextTimeout : Outgoing → ℕ → Type 0
NextTimeout o timeout =
    if is_final o.type
    then timeout ≡ 0
    else (o.send_time + delay_of o ≤ timeout) × (timeout < o.send_time + delay_of o + 1000000000)

-- The three classes of requests that can be sent.
classes :
    (state : State) (type : ℕ) (via : Route)
    → route state type ≡ some via
    → ((backs_off type ≡ true) × (is_final type ≡ false))
      ⊎ (((backs_off type ≡ false) × (is_steady type ≡ true) × (is_final type ≡ false))
          ⊎ ((backs_off type ≡ false) × (is_steady type ≡ false) × (is_final type ≡ true)))
unfolding route
classes state type via h = ground arith

pub request_timeout-lem :
    (state : State) (o : Outgoing) (via : Route)
    → route state o.type ≡ some via
    → o.send_time < 9223372036854775808
    → o.send_jitter < 1000000000
    → (timeout : ℕ) × (request_timeout o ≡ some timeout) × NextTimeout o timeout
unfolding request_timeout
request_timeout-lem state o via r h j =
    let b = power-bounds o.n_send in
    elim (classes state o.type via r) [
      | inl k ↦ rw (k.0, k.1) (_, refl, (omega (arith, b), omega (arith, b)))
      | inr (inl k) ↦ rw (k.0, k.1, k.2) (_, refl, (omega arith, omega arith))
      | inr (inr k) ↦ rw (k.0, k.1, k.2) (0, refl, refl)
    ]

-- The timer of a connection with a valid pinned request, in a state that has the socket for it,
-- whose clock is below 2^63: before the timeout nothing happens; from then on the request is sent
-- once, and its next timeout is the doubled delay, or a minute, later, with at most a second of
-- jitter. The timeout of DECLINE and RELEASE is 0.
pub dispatch_timer-lem :
    (c : Connection) (o : Outgoing) (xid jitter timestamp : ℕ) (via : Route)
    → c.request ≡ some o
    → Valid o
    → route c.state o.type ≡ some via
    → o.send_time < 9223372036854775808
    → o.send_jitter < 1000000000
    → timestamp < 9223372036854775808
    → (timeout : ℕ) × (request_timeout o ≡ some timeout)
      × ((timestamp < timeout → dispatch_timer c xid jitter timestamp ≡ some (c, none))
          × (timeout ≤ timestamp
              → (o' : Outgoing) × (dispatch_timer c xid jitter timestamp
                  ≡ some (record c { request = some o' }, some via))
                × Sent o jitter timestamp o'
                × ((next : ℕ) × (request_timeout o' ≡ some next) × NextTimeout o' next)))
unfolding dispatch_timer
dispatch_timer-lem c o xid jitter timestamp via e v r h j now =
    let t = request_timeout-lem c.state o via r h j in
    let s = send_request-Sent c.state o xid jitter timestamp via v r in
    (
      t.0,
      t.1,
      (
        (λ k. rw (e, t.1, lt→ltb timestamp t.0 k) refl),
        λ k. (
          s.0,
          rw (e, t.1, le→ltb timestamp t.0 k, s.1) refl,
          s.2,
          request_timeout-lem c.state s.0 via (ap (route c.state) s.2.type_kept ∙ r)
              (omega (arith, s.2.sent_at)) (omega (arith, s.2.jitter_is)),
        ),
      ),
    )
