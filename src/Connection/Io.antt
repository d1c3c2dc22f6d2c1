-- ===== src/Connection/Io.antt =====
-- n-dhcp4-c-connection.c: sending the pinned request, and receiving replies.
use n_dhcp.Base.{
  ℕ, ◌+◌, ◌-◌, ◌*◌, ◌/◌, ◌%◌, ◌^◌, Bool, true, false, ◌&&◌, ◌||◌, not, Option, none, some, List, [],
  ◌∷◌, ltb, leb, ◌==◌, if◌then◌else◌, ◌>>=◌, ◌>>◌, assert, length,
}
use n_dhcp.Protocol.{
  Error, Result, ok, err, unset, malformed, unexpected, again, enomem, uint16_max,
}
use n_dhcp.Protocol.Opt
use n_dhcp.Protocol.Message
use n_dhcp.Protocol.Request
use n_dhcp.Memory.{slice, load_bytes}
use n_dhcp.Incoming.{Incoming, Slot}
use n_dhcp.Incoming.Query
use n_dhcp.Incoming.Query.{and_then, query, query_message_type, query_server_identifier}
use n_dhcp.Outgoing.{Outgoing}
use n_dhcp.Outgoing.Setters
use n_dhcp.Outgoing.Setters.{set_secs, set_xid}
use n_dhcp.Connection.{
  Connection, ClientConfig, Transport, ethernet, infiniband, unknown, State, packet, draining, udp,
  init, closed, is_packet, is_udp,
}

-- memcmp(xs, ys, n) == 0, on the n bytes of both.
abbrev pub same_bytes : List ℕ → List ℕ → Bool
same_bytes [] [] = true
same_bytes [] (y ∷ ys) = false
same_bytes (x ∷ xs) [] = false
same_bytes (x ∷ xs) (y ∷ ys) = x == y && same_bytes xs ys

-- `!connection->request`, or the transaction id differs.
abbrev pub matches_request : Option Outgoing → ℕ → Bool
matches_request none xid = false
matches_request (some o) xid = xid == Setters.get_xid o

-- The first switch of n_dhcp4_c_connection_verify_incoming.
abbrev pub verify_type : Connection → Incoming → ℕ → Bool
verify_type c i type =
    if type == Message.offer || (type == Message.ack || type == Message.nak)
    then matches_request c.request (Query.get_xid i)
    else type == Message.forcerenew

-- Its second switch, on the `hlen` and `chaddr` fields.
abbrev pub verify_address : ClientConfig → Transport → Incoming → Option Bool
verify_address config ethernet i = do
  assert (config.n_mac == 6)
  some (i.message.byte 2 == 6 && same_bytes (slice i.message.byte 28 6) (slice config.mac 0 6))
verify_address config infiniband i = some (i.message.byte 2 == 0)
verify_address config unknown i = some true

-- The client id that the server passes back.
abbrev pub verify_client_id : ClientConfig → Incoming → Result Slot → Option (Result Bool)
verify_client_id config i (err unset) = some (ok true)
verify_client_id config i (err e) = some (err e)
verify_client_id config i (ok s) =
    if not (s.size == length config.client_id)
    then some (ok false)
    else do id ← load_bytes i.message s.value s.size; some (ok (same_bytes id config.client_id))

abbrev pub or_malformed : Result ℕ → Result ℕ
or_malformed (err unset) = err malformed
or_malformed r = r

-- The checks behind the query of the message type.
unfoldable pub verify_rest : Connection → Incoming → ℕ → Option (Result ℕ)
verify_rest c i type = if not (verify_type c i type) then some (err unexpected) else do
  address ← verify_address c.client_config c.client_config.transport i
  if not address
      then some (err unexpected)
      else (and_then (verify_client_id c.client_config i (query i Opt.client_identifier))
          λ same. if same then some (ok type) else some (err unexpected))

unfoldable pub verify_incoming : Connection → Incoming → Option (Result ℕ)
verify_incoming c i =
    and_then (do r ← query_message_type i; some (or_malformed r)) (verify_rest c i)

-- Requests that are repeated with exponential backoff, and those that are repeated every minute.
abbrev pub backs_off : ℕ → Bool
backs_off type = type == Request.discover || (type == Request.select || type == Request.inform)

abbrev pub is_steady : ℕ → Bool
is_steady type = type == Request.rebind || (type == Request.renew || type == Request.reboot)

abbrev pub is_final : ℕ → Bool
is_final type = type == Request.decline || type == Request.release

abbrev pub clamp_sends : ℕ → ℕ
clamp_sends n_send = if leb 6 n_send then 6 else n_send

unfoldable pub request_timeout : Outgoing → Option ℕ
request_timeout o =
    if backs_off o.type
    then some ((o.send_time + 2 ^ clamp_sends o.n_send * 1000000000 + o.send_jitter) % 2 ^ 64)
    else if is_steady o.type
    then some ((o.send_time + 60 * 1000000000 + o.send_jitter) % 2 ^ 64)
    else if is_final o.type
    then some 0
    else none

abbrev pub timeout_of : Option Outgoing → Option ℕ
timeout_of none = some 0
timeout_of (some o) = request_timeout o

unfoldable pub get_timeout : Connection → Option ℕ
get_timeout c = timeout_of c.request

-- The seconds that n_dhcp4_c_connection_outgoing_set_secs computes.
abbrev pub clamp : ℕ → ℕ → ℕ → ℕ
clamp lo hi n = if ltb n lo then lo else if ltb hi n then hi else n

abbrev pub secs_of : Outgoing → ℕ
secs_of o = clamp 1 uint16_max ((o.base_time + 2 ^ 64 - o.start_time) % 2 ^ 64 / 1000000000)

unfoldable pub outgoing_set_secs : Outgoing → Option Outgoing
outgoing_set_secs o = set_secs o (secs_of o)

-- The socket call that sends a request, with the assertion on the state that it makes.
pub data Route : Type 0 where
  packet_broadcast udp_broadcast udp_send : Route

unfoldable pub route : State → ℕ → Option Route
route state type =
    if type == Request.discover
      || (type == Request.select
          || (type == Request.reboot || (type == Request.decline || type == Request.rebind)))
    then (do assert (is_packet state); some packet_broadcast)
    else if type == Request.inform
    then (do assert (is_udp state); some udp_broadcast)
    else if type == Request.renew || type == Request.release
    then (do assert (is_udp state); some udp_send)
    else none

-- The first switch of n_dhcp4_c_connection_send_request.
abbrev pub restamps : ℕ → Bool
restamps type = type == Request.discover || (type == Request.inform || is_steady type)

abbrev pub keeps : ℕ → Bool
keeps type = type == Request.select || is_final type

unfoldable pub restamp : Outgoing → ℕ → ℕ → Option Outgoing
restamp o xid timestamp =
    if restamps o.type
    then set_xid (record o { base_time = timestamp }) xid
    else if keeps o.type
    then some o
    else none

-- n_dhcp4_c_connection_send_request, with the two random numbers. The result of the socket call is
-- only logged, so that the request counts as sent in any case.
unfoldable pub send_request : State → Outgoing → ℕ → ℕ → ℕ → Option (Outgoing × Route)
send_request state o xid jitter timestamp = do
  o₁ ← restamp o xid timestamp
  o₂ ← outgoing_set_secs (record o₁ { send_time = timestamp; send_jitter = jitter % 1000000000 })
  via ← route state o₂.type
  some (record o₂ { n_send = (o₂.n_send + 1) % 2 ^ 64 }, via)

unfoldable pub start_request : Connection → Outgoing → ℕ → ℕ → ℕ → Option (Connection × Route)
start_request c o xid jitter timestamp = do
  let o' : Outgoing = if o.start_time == 0 then record o { start_time = timestamp } else o
  (sent, via) ← send_request c.state o' xid jitter timestamp
  some (record c { request = some sent }, via)

-- n_dhcp4_c_connection_dispatch_timer; nothing is sent on `none`.
abbrev pub resend : Connection → Option Outgoing → ℕ → ℕ → ℕ → Option (Connection × Option Route)
resend c none xid jitter timestamp = some (c, none)
resend c (some o) xid jitter timestamp = do
  timeout ← request_timeout o
  if ltb timestamp timeout then some (c, none) else do
    (sent, via) ← send_request c.state o xid jitter timestamp
    some (record c { request = some sent }, some via)

unfoldable pub dispatch_timer : Connection → ℕ → ℕ → ℕ → Option (Connection × Option Route)
dispatch_timer c xid jitter timestamp = resend c c.request xid jitter timestamp

-- What the code makes of an error of a socket: MALFORMED is passed on, all others mean to try again.
abbrev pub socket_error : Error → Error
socket_error malformed = malformed
socket_error _ = again

abbrev pub received : Result Incoming → Result Incoming
received (ok i) = ok i
received (err e) = err (socket_error e)

-- The first switch of n_dhcp4_c_connection_dispatch_io, on what the two sockets give. The packet
-- socket is in the epoll set, from which it must be removed, if and only if it is open.
abbrev pub is_again : Error → Bool
is_again again = true
is_again _ = false

abbrev pub receive_in :
    State → Result Incoming → Result Incoming → Connection → Option (Connection × Result Incoming)
receive_in packet from_packet from_udp c = some (c, received from_packet)
receive_in draining (ok i) from_udp c = some (c, ok i)
receive_in draining (err e) from_udp c =
    if is_again e
    then (do
      assert c.fd_packet
      some (record c { fd_packet = false; state = udp }, received from_udp))
    else some (c, err (socket_error e))
receive_in udp from_packet from_udp c = some (c, received from_udp)
receive_in init from_packet from_udp c = none
receive_in closed from_packet from_udp c = none

unfoldable pub receive :
    Result Incoming → Result Incoming → Connection → Option (Connection × Result Incoming)
receive from_packet from_udp c = receive_in c.state from_packet from_udp c

abbrev pub verify_error : Error → Error
verify_error malformed = malformed
verify_error unexpected = unexpected
verify_error _ = again

-- Whether a NAK is discarded: it must come from the server that was asked.
abbrev pub other_server : ℕ → Result ℕ → Bool
other_server server_id (err e) = true
other_server server_id (ok server) = not (server_id == server)

abbrev pub nak_of_other : Option Outgoing → Incoming → Option Bool
nak_of_other none i = none
nak_of_other (some o) i =
    if o.server_id == 0
    then some false
    else do r ← query_server_identifier i; some (other_server o.server_id r)

unfoldable pub discards_nak : Option Outgoing → Incoming → ℕ → Option Bool
discards_nak request i type =
    if not (type == Message.nak) then some false else nak_of_other request i

-- The last switch: the times of the request are those of its reply, and ACK and NAK end the request.
abbrev pub is_reply : ℕ → Bool
is_reply type = type == Message.offer || (type == Message.ack || type == Message.nak)

abbrev pub accept_reply :
    Option Outgoing → Connection → Incoming → ℕ → Option (Connection × Incoming)
accept_reply none c i type = none
accept_reply (some o) c i type = some (
  if type == Message.offer then c else record c { request = none },
  record i { start_time = o.start_time; base_time = o.base_time },
)

unfoldable pub accept : Connection → Incoming → ℕ → Option (Connection × Incoming)
accept c i type = if is_reply type then accept_reply c.request c i type else some (c, i)

abbrev pub handle : Connection → Incoming → Result ℕ → Option (Connection × Result Incoming)
handle c i (err e) = some (c, err (verify_error e))
handle c i (ok type) = do
  discarded ← discards_nak c.request i type
  if discarded then some (c, err again) else do (c', i') ← accept c i type; some (c', ok i')

abbrev pub reply : Connection → Result Incoming → Option (Connection × Result Incoming)
reply c (err e) = some (c, err e)
reply c (ok i) = do r ← verify_incoming c i; handle c i r

-- n_dhcp4_c_connection_dispatch_io, with the result of malloc and of the sockets.
unfoldable pub dispatch_io :
    Bool → Result Incoming → Result Incoming → Connection → Option (Connection × Result Incoming)
dispatch_io allocated from_packet from_udp c =
    if not allocated
    then some (c, err enomem)
    else do (c', r) ← receive from_packet from_udp c; reply c' r
