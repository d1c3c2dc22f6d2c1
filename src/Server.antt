-- ===== src/Server.antt =====
-- n-dhcp4-s-connection.c and n-dhcp4-server.c: the server, which classifies the requests of clients
-- and builds and routes replies. Addresses are numbers in network order. What the allocator and the
-- sockets give is an argument.
pub mod Classify
pub mod Replies
pub mod Routes
pub mod Rounds
mod Tests
use n_dhcp.Base.{
  ℕ, zero, suc, ◌+◌, ◌*◌, ◌/◌, ◌%◌, ◌^◌, Bool, true, false, ◌&&◌, not, Option, none, some, List, [],
  ◌∷◌, ltb, leb, ◌==◌, if◌then◌else◌, ◌>>=◌, ◌>>◌, assert, length,
}
use n_dhcp.Protocol.{
  Error, unset, malformed, unexpected, again, preempted, enotrecoverable, enomem, os, Result, ok,
  err, bytes32, be32,
}
use n_dhcp.Protocol.Opt
use n_dhcp.Protocol.Message
use n_dhcp.Protocol.Request
use n_dhcp.Memory.{load_bytes}
use n_dhcp.Incoming.{Incoming, Slot}
use n_dhcp.Incoming.Query.{
  and_then, query, query_message_type, query_server_identifier, query_requested_ip,
  query_max_message_size,
}
use n_dhcp.Outgoing.{Outgoing, new}
use n_dhcp.Outgoing.Setters.{set_header, set_yiaddr}
use n_dhcp.Connection.Requests.{append_to}
use n_dhcp.Connection.Io.{or_malformed}

-- `struct NDhcp4SConnection`: the linked address.
pub record SConnection : Type 0 where
  pub ifindex : ℕ
  pub ip : Option ℕ

-- n_dhcp4_s_connection_init, with the results of the two sockets.
unfoldable pub init_connection : Option Error → Option Error → ℕ → Result SConnection
init_connection (some e) udp ifindex = err e
init_connection none (some e) ifindex = err e
init_connection none none ifindex = ok (record { ifindex = ifindex; ip = none })

-- n_dhcp4_server_add_ip: only one address can be linked.
abbrev pub ebusy : Error
ebusy = os 16

unfoldable pub add_ip : Bool → ℕ → SConnection → SConnection × Option Error
add_ip allocated addr c = go c.ip
  where
    go : Option ℕ → SConnection × Option Error
    go (some other) = (c, some ebusy)
    go none = if allocated then (record c { ip = some addr }, none) else (c, some enomem)

-- n_dhcp4_s_connection_ip_unlink
unfoldable pub unlink_ip : SConnection → SConnection
unlink_ip c = record c { ip = none }

-- n_dhcp4_s_connection_owns_ip
abbrev pub owns : Option ℕ → ℕ → Bool
owns none addr = false
owns (some ip) addr = ip == addr

-- The case of REQUEST in n_dhcp4_s_connection_verify_incoming.
abbrev pub without_server : Bool → Result ℕ → Result ℕ
without_server broadcast (ok requested) = ok Request.reboot
without_server broadcast (err unset) = ok (if broadcast then Request.rebind else Request.renew)
without_server broadcast (err e) = err e

abbrev pub request_kind : SConnection → Incoming → Bool → Result ℕ → Option (Result ℕ)
request_kind c i broadcast (ok server) =
    some (ok (if owns c.ip server then Request.select else Request.ignore))
request_kind c i broadcast (err unset) = do
  r ← query_requested_ip i
  some (without_server broadcast r)
request_kind c i broadcast (err e) = some (err e)

abbrev pub kind : SConnection → Incoming → Bool → ℕ → Option (Result ℕ)
kind c i broadcast type =
    if type == Message.discover
    then some (ok Request.discover)
    else if type == Message.request
    then (do r ← query_server_identifier i; request_kind c i broadcast r)
    else if type == Message.decline
    then some (ok Request.decline)
    else if type == Message.release
    then some (ok Request.release)
    else some (err unexpected)

-- The message gets its kind as the type of its userdata.
unfoldable pub verify_incoming : SConnection → Incoming → Bool → Option (Result Incoming)
verify_incoming c i broadcast =
    and_then (do r ← query_message_type i; some (or_malformed r))
      λ type. and_then (kind c i broadcast type) λ t. some (ok (record i { type = t }))

-- n_dhcp4_s_connection_dispatch_io, on what the socket gives: a message with its destination. A
-- message that is discarded leaves none.
abbrev pub verified : Result Incoming → Result (Option Incoming)
verified (ok i) = ok (some i)
verified (err malformed) = ok none
verified (err unexpected) = ok none
verified (err e) = err enotrecoverable

unfoldable pub dispatch_io : SConnection → Result (Incoming × ℕ) → Option (Result (Option Incoming))
dispatch_io c (err e) = some (err e)
dispatch_io c (ok (i, dest)) = do r ← verify_incoming c i (dest == 0xffffffff); some (verified r)

-- The loop of n_dhcp4_server_dispatch, over what the socket gives from its k-th call on.
abbrev pub after_round :
    Option (Result (Option Incoming)) → Option (Option Error) → Option (Option Error)
after_round none rest = none
after_round (some (ok m)) rest = rest
after_round (some (err again)) rest = some none
after_round (some (err e)) rest = some (some e)

unfoldable pub dispatch_rounds :
    SConnection → (ℕ → Result (Incoming × ℕ)) → ℕ → ℕ → Option (Option Error)
dispatch_rounds c recv k zero = some (some preempted)
dispatch_rounds c recv k (suc rounds) =
    let rest = dispatch_rounds c recv (k + 1) rounds in after_round (dispatch_io c (recv k)) rest

-- n_dhcp4_server_dispatch
unfoldable pub server_dispatch : SConnection → (ℕ → Result (Incoming × ℕ)) → Option (Option Error)
server_dispatch c recv = dispatch_rounds c recv 0 128

-- n_dhcp4_s_connection_init_reply_header; `hlen` bytes of the hardware address are copied.
abbrev pub field : Incoming → ℕ → ℕ → Option (List ℕ)
field request at n = load_bytes request.message at n

abbrev pub copy_field : Incoming → ℕ → ℕ → Outgoing → Option Outgoing
copy_field request at n o = do bytes ← field request at n; set_header o at bytes

unfoldable pub init_reply_header : Incoming → Outgoing → Option Outgoing
init_reply_header request o = do
  o₁ ← set_header o 0 (2 ∷ [])
  o₂ ← copy_field request 1 1 o₁
  o₃ ← copy_field request 2 1 o₂
  o₄ ← copy_field request 10 2 o₃
  o₅ ← copy_field request 4 4 o₄
  o₆ ← copy_field request 12 4 o₅
  o₇ ← copy_field request 24 4 o₆
  copy_field request 28 (request.message.byte 2) o₇

-- n_dhcp4_s_connection_new_reply
abbrev pub append_client_id : Bool → Incoming → Result Slot → Outgoing → Option (Result Outgoing)
append_client_id allocated request (err unset) o = some (ok o)
append_client_id allocated request (err e) o = some (err e)
append_client_id allocated request (ok s) o = do
  id ← load_bytes request.message s.value s.size
  append_to allocated Opt.client_identifier id o

unfoldable pub new_reply : (ℕ → Bool) → Incoming → ℕ → ℕ → Option (Result Outgoing)
new_reply memory request type server_address =
    and_then (query_max_message_size request) λ max_message_size.
      and_then (new (memory 0) max_message_size 3) λ o. do
        o₁ ← init_reply_header request o
        and_then (append_to (memory 1) Opt.message_type (type ∷ []) o₁) λ o₂.
            and_then (append_to (memory 2) Opt.server_identifier (bytes32 server_address) o₂)
              λ o₃. append_client_id (memory 3) request (query request Opt.client_identifier) o₃

-- n_dhcp4_s_connection_outgoing_set_yiaddr
abbrev pub t1_for : ℕ → ℕ
t1_for lifetime = lifetime / 2

abbrev pub t2_for : ℕ → ℕ
t2_for lifetime = lifetime * 7 % 2 ^ 64 / 8 % 2 ^ 32

unfoldable pub outgoing_set_yiaddr : (ℕ → Bool) → ℕ → ℕ → Outgoing → Option (Result Outgoing)
outgoing_set_yiaddr memory yiaddr lifetime o =
    and_then (append_to (memory 4) Opt.ip_address_lease_time (bytes32 lifetime) o) λ o₁.
      and_then (append_to (memory 5) Opt.renewal_t1_time (bytes32 (t1_for lifetime)) o₁) λ o₂.
        and_then (append_to (memory 6) Opt.rebinding_t2_time (bytes32 (t2_for lifetime)) o₂)
          λ o₃. do o₄ ← set_yiaddr o₃ yiaddr; some (ok o₄)

unfoldable pub offer_new : (ℕ → Bool) → Incoming → ℕ → ℕ → ℕ → Option (Result Outgoing)
offer_new memory request server_address client_address lifetime =
    and_then (new_reply memory request Message.offer server_address)
      λ o. outgoing_set_yiaddr memory client_address lifetime o

unfoldable pub ack_new : (ℕ → Bool) → Incoming → ℕ → ℕ → ℕ → Option (Result Outgoing)
ack_new memory request server_address client_address lifetime =
    and_then (new_reply memory request Message.ack server_address)
      λ o. outgoing_set_yiaddr memory client_address lifetime o

unfoldable pub nak_new : (ℕ → Bool) → Incoming → ℕ → Option (Result Outgoing)
nak_new memory request server_address = new_reply memory request Message.nak server_address

-- Where n_dhcp4_s_connection_send_reply sends a reply to.
pub data Destination : Type 0 where
  unicast : ℕ → Destination
  broadcast : Destination
  hardware : ℕ → List ℕ → Destination

abbrev pub address_at : Outgoing → ℕ → ℕ
address_at o at =
    be32 (o.message.byte at) (o.message.byte (at + 1)) (o.message.byte (at + 2))
      (o.message.byte (at + 3))

-- The packet socket asserts that the hardware address has at most 32 bytes, before it copies them.
abbrev pub to_hardware : Outgoing → Option Destination
to_hardware o = do
  assert (leb (o.message.byte 2) 32)
  chaddr ← load_bytes o.message 28 (o.message.byte 2)
  some (hardware (address_at o 16) chaddr)

unfoldable pub reply_destination : Outgoing → Option Destination
reply_destination o =
    if not (address_at o 24 == 0)
    then some (unicast (address_at o 24))
    else if not (address_at o 12 == 0)
    then some (unicast (address_at o 12))
    else if leb 128 (o.message.byte 10)
    then some broadcast
    else to_hardware o
