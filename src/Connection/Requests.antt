-- ===== src/Connection/Requests.antt =====
-- The requests that n-dhcp4-c-connection.c builds. `memory k` says whether the k-th allocation of a
-- function finds the memory; addresses are numbers in network order.
use n_dhcp.Base.{
  ℕ, ◌+◌, ◌%◌, Bool, true, false, ◌||◌, not, Option, none, some, List, [], ◌∷◌, ◌++◌, ltb, ◌==◌,
  if◌then◌else◌, ◌>>=◌, ◌>>◌, assert, length, take,
}
use n_dhcp.Protocol.{Result, ok, err, bytes16, bytes32, ip_minimum_max_size, uint16_max}
use n_dhcp.Protocol.Opt
use n_dhcp.Protocol.Message
use n_dhcp.Protocol.Request
use n_dhcp.Memory.{slice}
use n_dhcp.Incoming.{Incoming}
use n_dhcp.Incoming.Query
use n_dhcp.Incoming.Query.{and_then, query_server_identifier}
use n_dhcp.Outgoing.{Outgoing, append, new}
use n_dhcp.Outgoing.Setters.{set_header, set_xid}
use n_dhcp.Connection.{Connection, Transport, ethernet, infiniband, unknown, on_error}

-- A length that is passed as an uint8_t.
abbrev pub as_n_data : List ℕ → List ℕ
as_n_data xs = take (length xs % 256) xs

-- `r = n_dhcp4_outgoing_append(...); if (r) return r;`
unfoldable pub append_to : Bool → ℕ → List ℕ → Outgoing → Option (Result Outgoing)
append_to allocated option value o = do
  (o', e) ← append allocated o option (as_n_data value)
  some (on_error e err (ok o'))

-- `header->flags |= N_DHCP4_MESSAGE_FLAG_BROADCAST`, the highest bit of the first byte of the flags.
unfoldable pub set_broadcast : Outgoing → Option Outgoing
set_broadcast o =
    let b = o.message.byte 10 in set_header o 10 ((if ltb b 128 then b + 128 else b) ∷ [])

-- The part of n_dhcp4_c_connection_init_header behind the switch.
abbrev pub init_address : Connection → Bool → Outgoing → Option Outgoing
init_address c broadcast o =
    if not (c.client_ip == 0)
    then set_header o 12 (bytes32 c.client_ip)
    else if broadcast
    then set_broadcast o
    else some o

unfoldable pub init_header : Connection → Outgoing → Option Outgoing
init_header c o = do o₁ ← set_header o 0 (1 ∷ []); go c.client_config.transport o₁
  where
    go : Transport → Outgoing → Option Outgoing
    go ethernet o₁ = do
      assert (c.client_config.n_mac == 6)
      o₂ ← set_header o₁ 1 (1 ∷ 6 ∷ [])
      o₃ ← set_header o₂ 28 (slice c.client_config.mac 0 6)
      init_address c c.client_config.request_broadcast o₃
    go infiniband o₁ = do o₂ ← set_header o₁ 1 (32 ∷ 0 ∷ []); init_address c true o₂
    go unknown o₁ = none

-- The MESSAGE_TYPE value of a request, and whether it goes through the packet socket.
unfoldable pub message_type_of : ℕ → Option (ℕ × Bool)
message_type_of type =
    if type == Request.discover
    then some (Message.discover, true)
    else if type == Request.inform
    then some (Message.inform, false)
    else if type == Request.select
    then some (Message.request, true)
    else if type == Request.renew
    then some (Message.request, false)
    else if type == Request.rebind
    then some (Message.request, false)
    else if type == Request.reboot
    then some (Message.request, true)
    else if type == Request.release
    then some (Message.release, false)
    else if type == Request.decline
    then some (Message.decline, true)
    else none

abbrev pub max_message_size : Connection → Bool → ℕ
max_message_size c via_packet_socket =
    if via_packet_socket then (if c.mtu == 0 then ip_minimum_max_size else c.mtu) else uint16_max

-- The second switch of n_dhcp4_c_connection_new_message.
unfoldable pub append_parameters :
    (ℕ → Bool) → Connection → ℕ → Bool → Outgoing → Option (Result Outgoing)
append_parameters memory c message_type via_packet_socket o =
    if message_type == Message.discover
      || (message_type == Message.request || message_type == Message.inform)
    then (and_then
        (if ltb 0 (length c.request_parameters)
          then append_to (memory 3) Opt.parameter_request_list c.request_parameters o
          else some (ok o))
        λ o'.
          append_to (memory 4) Opt.maximum_message_size
            (bytes16 (max_message_size c via_packet_socket)) o')
    else some (ok o)

unfoldable pub new_message : (ℕ → Bool) → Connection → ℕ → Option (Result Outgoing)
new_message memory c type = do
  (message_type, via_packet_socket) ← message_type_of type
  and_then (new (memory 0) 0 3) λ o. do
    o₁ ← init_header c o
    and_then
        (append_to (memory 1) Opt.message_type (message_type ∷ [])
          (record o₁ { type = type; message_type = message_type }))
        λ o₂.
          and_then (append_to (memory 2) Opt.client_identifier c.client_config.client_id o₂)
            λ o₃. append_parameters memory c message_type via_packet_socket o₃

unfoldable pub discover_new : (ℕ → Bool) → Connection → Option (Result Outgoing)
discover_new memory c = new_message memory c Request.discover

unfoldable pub select_new : (ℕ → Bool) → Connection → Incoming → Option (Result Outgoing)
select_new memory c offer = and_then (query_server_identifier offer) λ server.
    and_then (new_message memory c Request.select) λ o.
      and_then (append_to (memory 5) Opt.requested_ip_address (bytes32 (Query.get_yiaddr offer)) o)
        λ o₁. and_then (append_to (memory 6) Opt.server_identifier (bytes32 server) o₁) λ o₂. do
          o₃ ←
              set_xid
                (record o₂ {
                  start_time = offer.start_time;
                  base_time = offer.base_time;
                  client_addr = Query.get_yiaddr offer;
                  server_id = server;
                })
                (Query.get_xid offer)
          some (ok o₃)

unfoldable pub reboot_new : (ℕ → Bool) → Connection → ℕ → Option (Result Outgoing)
reboot_new memory c client =
    and_then (new_message memory c Request.reboot)
      λ o. append_to (memory 5) Opt.requested_ip_address (bytes32 client) o

abbrev from_client : Connection → Option (Result Outgoing) → Option (Result Outgoing)
from_client c run = and_then run λ o. some (ok (record o { client_addr = c.client_ip }))

unfoldable pub renew_new : (ℕ → Bool) → Connection → Option (Result Outgoing)
renew_new memory c = from_client c (new_message memory c Request.renew)

unfoldable pub rebind_new : (ℕ → Bool) → Connection → Option (Result Outgoing)
rebind_new memory c = from_client c (new_message memory c Request.rebind)

unfoldable pub inform_new : (ℕ → Bool) → Connection → Option (Result Outgoing)
inform_new memory c = from_client c (new_message memory c Request.inform)

-- `if (error) ...`; the string is passed with the zero at its end.
abbrev pub append_error : Bool → Option (List ℕ) → Outgoing → Option (Result Outgoing)
append_error allocated none o = some (ok o)
append_error allocated (some error) o = append_to allocated Opt.error_message (error ++ (0 ∷ [])) o

unfoldable pub decline_new :
    (ℕ → Bool) → Connection → Incoming → Option (List ℕ) → Option (Result Outgoing)
decline_new memory c ack error = and_then (query_server_identifier ack) λ server.
    and_then (new_message memory c Request.decline) λ o.
      and_then (append_to (memory 5) Opt.requested_ip_address (bytes32 (Query.get_yiaddr ack)) o)
        λ o₁. and_then (append_to (memory 6) Opt.server_identifier (bytes32 server) o₁) λ o₂.
          and_then (append_error (memory 7) error o₂)
            λ o₃. some (ok (record o₃ { client_addr = Query.get_yiaddr ack }))

unfoldable pub release_new : (ℕ → Bool) → Connection → Option (List ℕ) → Option (Result Outgoing)
release_new memory c error = and_then (new_message memory c Request.release) λ o.
    and_then (append_to (memory 5) Opt.server_identifier (bytes32 c.server_ip) o)
      λ o₁. append_error (memory 6) error o₁
