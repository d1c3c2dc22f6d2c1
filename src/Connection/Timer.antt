-- ===== src/Connection/Timer.antt =====
-- Sending and resending the pinned request.
use n_dhcp.Base.{
  ℕ, ◌+◌, ◌-◌, ◌/◌, ◌%◌, ◌^◌, ◌≤◌, ◌≡◌, ◌⊎◌, inl, inr, refl, sym, ◌∙◌, true, false, some, arith,
  if◌then◌else◌, Bool-cases, lt→ltb,
}
use mathlib.Core.Bool.{false≢true}
use n_dhcp.Protocol.{bytes16, bytes32, be16, uint16_max}
use n_dhcp.Outgoing.{Outgoing}
use n_dhcp.Outgoing.Setters
use n_dhcp.Outgoing.Setters.{set_secs, set_xid}
use n_dhcp.Outgoing.Valid.{Valid}
use n_dhcp.Outgoing.Header.{with_header, set_header-eq, with_header-Valid, userdata-Valid}
use n_dhcp.Connection.{State}
use n_dhcp.Connection.Io.{
  clamp, secs_of, outgoing_set_secs, Route, route, restamps, keeps, restamp, send_request,
}

route-known :
    (state : State) (type : ℕ) (via : Route)
    → route state type ≡ some via
    → (restamps type ≡ true) ⊎ ((restamps type ≡ false) × (keeps type ≡ true))
unfolding route
route-known state type via h = ground arith

-- What a sent request keeps of the request, and what is set.
pub record Sent (o : Outgoing) (jitter timestamp : ℕ) (o' : Outgoing) : Type 0 where
  pub valid : Valid o'
  pub type_kept : o'.type ≡ o.type
  pub start_kept : o'.start_time ≡ o.start_time
  pub server_kept : o'.server_id ≡ o.server_id
  pub sent_at : o'.send_time ≡ timestamp
  pub jitter_is : o'.send_jitter ≡ jitter % 1000000000
  pub counted : o'.n_send ≡ (o.n_send + 1) % 2 ^ 64
  pub base_is : o'.base_time ≡ (if restamps o.type then timestamp else o.base_time)
  pub secs_are : be16 (o'.message.byte 8) (o'.message.byte 9) ≡ secs_of o'
  pub xid_kept : restamps o.type ≡ false → Setters.get_xid o' ≡ Setters.get_xid o

-- The request between restamp and outgoing_set_secs.
abbrev stamped : Outgoing → ℕ → ℕ → ℕ → Outgoing
stamped o xid jitter timestamp =
    if restamps o.type
    then record (with_header (record o { base_time = timestamp }) 4 (bytes32 xid)) {
      send_time = timestamp;
      send_jitter = jitter % 1000000000;
    }
    else record o { send_time = timestamp; send_jitter = jitter % 1000000000 }

clamp-bounds : (n : ℕ) → (1 ≤ clamp 1 uint16_max n) × (clamp 1 uint16_max n ≤ 65535)
clamp-bounds n = (ground arith, ground arith)

set_secs-eq :
    (o : Outgoing) → Valid o → outgoing_set_secs o ≡ some (with_header o 8 (bytes16 (secs_of o)))
unfolding outgoing_set_secs set_secs
set_secs-eq o v =
    let b = clamp-bounds ((o.base_time + 2 ^ 64 - o.start_time) % 2 ^ 64 / 1000000000) in
    rw (lt→ltb 0 (secs_of o) b.0) (set_header-eq o 8 (bytes16 (secs_of o)) v (omega arith))

be16-bytes16 : (n : ℕ) → n ≤ 65535 → be16 (n / 256 % 256) (n % 256) ≡ n
be16-bytes16 n h = omega arith

sent_of : Outgoing → Outgoing
sent_of o = record (with_header o 8 (bytes16 (secs_of o))) { n_send = (o.n_send + 1) % 2 ^ 64 }

stamped-Valid :
    (o : Outgoing) (xid jitter timestamp : ℕ) → Valid o → Valid (stamped o xid jitter timestamp)
stamped-Valid o xid jitter timestamp v = elim (Bool-cases (restamps o.type)) [
  | inl y ↦ rw y (
      userdata-Valid (with_header o 4 (bytes32 xid)) o.type o.message_type o.client_addr o.server_id
        o.start_time timestamp timestamp (jitter % 1000000000) o.n_send
        (with_header-Valid o 4 (bytes32 xid) v (omega arith)))
  | inr n ↦ rw n (
      userdata-Valid o o.type o.message_type o.client_addr o.server_id o.start_time o.base_time
        timestamp (jitter % 1000000000) o.n_send v)
]

sent_of-Valid : (o : Outgoing) → Valid o → Valid (sent_of o)
unfolding sent_of
sent_of-Valid o v =
    userdata-Valid (with_header o 8 (bytes16 (secs_of o))) o.type o.message_type o.client_addr
      o.server_id o.start_time o.base_time o.send_time o.send_jitter ((o.n_send + 1) % 2 ^ 64)
      (with_header-Valid o 8 (bytes16 (secs_of o)) v (omega arith))

base_Valid : (o : Outgoing) (timestamp : ℕ) → Valid o → Valid (record o { base_time = timestamp })
base_Valid o timestamp v =
    userdata-Valid o o.type o.message_type o.client_addr o.server_id o.start_time timestamp
      o.send_time o.send_jitter o.n_send v

send_request-eq :
    (state : State) (o : Outgoing) (xid jitter timestamp : ℕ) (via : Route)
    → Valid o
    → route state o.type ≡ some via
    → send_request state o xid jitter timestamp
      ≡ some (sent_of (stamped o xid jitter timestamp), via)
unfolding send_request restamp set_xid sent_of
send_request-eq state o xid jitter timestamp via v r = elim (route-known state o.type via r) [
  | inl y ↦
      let w = rw y at (stamped-Valid o xid jitter timestamp v) in
      rw
        (
          y,
          set_header-eq (record o { base_time = timestamp }) 4 (bytes32 xid)
              (base_Valid o timestamp v) (omega arith),
          set_secs-eq _ w,
          r,
        )
        refl
  | inr n ↦
      let w = rw n.0 at (stamped-Valid o xid jitter timestamp v) in
      rw (n.0, n.1, set_secs-eq _ w, r) refl
]

secs_bytes :
    (o : Outgoing) → be16 ((sent_of o).message.byte 8) ((sent_of o).message.byte 9) ≡ secs_of o
unfolding sent_of
secs_bytes o =
    be16-bytes16 (secs_of o)
      (clamp-bounds ((o.base_time + 2 ^ 64 - o.start_time) % 2 ^ 64 / 1000000000)).1

stamped-Sent :
    (o : Outgoing) (xid jitter timestamp : ℕ)
    → Valid o
    → Sent o jitter timestamp (sent_of (stamped o xid jitter timestamp))
unfolding sent_of Setters.get_xid
stamped-Sent o xid jitter timestamp v = elim (Bool-cases (restamps o.type)) [
  | inl y ↦
      let w = rw y at (sent_of-Valid _ (stamped-Valid o xid jitter timestamp v)) in
      let b = rw y at (secs_bytes (stamped o xid jitter timestamp)) in
      rw y (record {
        valid = w;
        type_kept = refl;
        start_kept = refl;
        server_kept = refl;
        sent_at = refl;
        jitter_is = refl;
        counted = refl;
        base_is = rw y refl;
        secs_are = b;
        xid_kept = λ n. absurd (false≢true (sym n ∙ y));
      })
  | inr n ↦
      let w = rw n at (sent_of-Valid _ (stamped-Valid o xid jitter timestamp v)) in
      let b = rw n at (secs_bytes (stamped o xid jitter timestamp)) in
      rw n (record {
        valid = w;
        type_kept = refl;
        start_kept = refl;
        server_kept = refl;
        sent_at = refl;
        jitter_is = refl;
        counted = refl;
        base_is = rw n refl;
        secs_are = b;
        xid_kept = λ n. refl;
      })
]

-- Sending a valid request from a state that has its socket does not fail, and gives a valid request
-- with the same type, start time and server, with its times and count of sends set, with its `secs`
-- field computed, and, for SELECT, DECLINE and RELEASE, with the same transaction id.
pub send_request-Sent :
    (state : State) (o : Outgoing) (xid jitter timestamp : ℕ) (via : Route)
    → Valid o
    → route state o.type ≡ some via
    → (o' : Outgoing) × (send_request state o xid jitter timestamp ≡ some (o', via))
      × Sent o jitter timestamp o'
send_request-Sent state o xid jitter timestamp via v r = (
  sent_of (stamped o xid jitter timestamp),
  send_request-eq state o xid jitter timestamp via v r,
  stamped-Sent o xid jitter timestamp v,
)
