-- ===== src/Connection/Tests.antt =====
-- A connection on concrete inputs.
use n_dhcp.Base.{
  ℕ, ◌≤◌, ◌<◌, ◌≡◌, refl, Bool, true, false, none, some, List, [], ◌∷◌, ◌++◌, arith, replicate,
}
use n_dhcp.Protocol.{Result, ok, magic, be16}
use n_dhcp.Protocol.Opt
use n_dhcp.Protocol.Message
use n_dhcp.Protocol.Request
use n_dhcp.Incoming.{Incoming, new, has_magic}
use n_dhcp.Incoming.Query
use n_dhcp.Incoming.Refine.{Parsed, new-Parsed, starts_magic}
use n_dhcp.Outgoing.{Outgoing, blank}
use n_dhcp.Outgoing.Valid.{Valid, fresh, blank-Valid}
use n_dhcp.Outgoing.Header.{userdata-Valid}
use n_dhcp.Connection.{Connection, ClientConfig, ethernet, packet, init_connection, listen}
use n_dhcp.Connection.Requests.{
  discover_new, select_new, reboot_new, renew_new, rebind_new, inform_new, decline_new, release_new,
}
use n_dhcp.Connection.Io.{
  verify_incoming, reply, send_request, start_request, dispatch_timer, request_timeout, route,
  packet_broadcast,
}
use n_dhcp.Connection.Verify.{IsConfig, Accepted, verify_incoming-Accepted}
use n_dhcp.Connection.Timer.{Sent, send_request-Sent}
use n_dhcp.Connection.Backoff.{NextTimeout, dispatch_timer-lem}
use n_dhcp.Connection.Secs.{start_request-secs}
use n_dhcp.Connection.Sockets.{initial, after, listened, Matches, Reachable-Matches}
use n_dhcp.Connection.Replies.{Handled, reply-Handled}
use n_dhcp.Connection.Build.{Gives, Made, Accepts}
use n_dhcp.Connection.Made.{request_data}
use n_dhcp.Connection.All.{IsSelect, from_address, requests-Gives}

abbrev config : ClientConfig
config = record {
  transport = ethernet;
  request_broadcast = false;
  mac = λ j. j;
  n_mac = 6;
  client_id = 1 ∷ 2 ∷ [];
}

-- A DISCOVER that was sent once, at the fifth second.
abbrev discover : Outgoing
discover = record (blank fresh 0 3) { type = Request.discover; send_time = 5000000000; n_send = 1 }

discover-Valid : Valid discover
discover-Valid =
    userdata-Valid (blank fresh 0 3) Request.discover 0 0 0 0 0 5000000000 0 1
      (blank-Valid 0 3 (omega arith) (omega arith))

abbrev connection : Connection
connection = record (init_connection config (1 ∷ 3 ∷ []) true) {
  state = packet;
  fd_packet = true;
  request = some discover;
}

-- An OFFER of a server, with the transaction id 0.
abbrev offer : List ℕ
offer =
    (2 ∷ 1 ∷ 6 ∷ replicate 25 0)
    ++ (0 ∷ 1 ∷ 2 ∷ 3 ∷ 4 ∷ 5 ∷ [])
    ++ replicate 202 0
    ++ magic
    ++ (Opt.message_type ∷ 1 ∷ Message.offer ∷ Opt.server_identifier ∷ 4 ∷ 10 ∷ 0 ∷ 0 ∷ 1
        ∷ Opt.option_end ∷ [])

offer-starts_magic : starts_magic offer ≡ true
unfolding starts_magic has_magic
offer-starts_magic = refl

parsed_offer : (i : Incoming) × (new true offer ≡ some (ok i)) × Parsed offer i
parsed_offer = new-Parsed offer (omega arith) (omega arith) offer-starts_magic

sample-IsConfig : IsConfig connection.client_config
unfolding init_connection
sample-IsConfig e = refl

verify_incoming-Accepted_example :
    (r : Result ℕ) × (verify_incoming connection parsed_offer.0 ≡ some r)
    × ((type : ℕ) → r ≡ ok type → Accepted connection offer parsed_offer.0 type)
verify_incoming-Accepted_example =
    verify_incoming-Accepted offer parsed_offer.0 parsed_offer.2 connection sample-IsConfig

reply-Handled_example :
    (r : Connection × Result Incoming) × (reply connection (ok parsed_offer.0) ≡ some r)
    × Handled connection offer parsed_offer.0 r
reply-Handled_example = reply-Handled connection offer parsed_offer.0 parsed_offer.2 sample-IsConfig

sends : route packet Request.discover ≡ some packet_broadcast
unfolding route
sends = refl

send_request-Sent_example :
    (o : Outgoing) × (send_request packet discover 17 23 7000000000 ≡ some (o, packet_broadcast))
    × Sent discover 23 7000000000 o
send_request-Sent_example =
    send_request-Sent packet discover 17 23 7000000000 packet_broadcast discover-Valid sends

dispatch_timer-lem_example :
    (timeout : ℕ) × (request_timeout discover ≡ some timeout)
    × ((7000000000 < timeout → dispatch_timer connection 17 23 7000000000 ≡ some (connection, none))
        × (timeout ≤ 7000000000
            → (o : Outgoing) × (dispatch_timer connection 17 23 7000000000
                ≡ some (record connection { request = some o }, some packet_broadcast))
              × Sent discover 23 7000000000 o
              × ((next : ℕ) × (request_timeout o ≡ some next) × NextTimeout o next)))
dispatch_timer-lem_example =
    dispatch_timer-lem connection discover 17 23 7000000000 packet_broadcast refl discover-Valid
      sends (omega arith) (omega arith) (omega arith)

abbrev decline : Outgoing
decline = record (blank fresh 0 3) { type = Request.decline }

decline-Valid : Valid decline
decline-Valid =
    userdata-Valid (blank fresh 0 3) Request.decline 0 0 0 0 0 0 0 0
      (blank-Valid 0 3 (omega arith) (omega arith))

declines : route packet Request.decline ≡ some packet_broadcast
unfolding route
declines = refl

start_request-secs_example :
    (o : Outgoing) × (start_request connection decline 17 23 7000000000
      ≡ some (record connection { request = some o }, packet_broadcast))
    × Valid o
    × (be16 (o.message.byte 8) (o.message.byte 9) ≡ 65535)
start_request-secs_example =
    start_request-secs connection decline 17 23 7000000000 packet_broadcast decline-Valid declines
      refl refl (omega arith) (omega arith)

abbrev listening : Connection
listening = record (init_connection config [] true) {
  state = packet;
  fd_packet = true;
  fd_udp = false;
}

listening-eq : listen none none (init_connection config [] true) ≡ some (listening, none)
unfolding listen init_connection
listening-eq = refl

Reachable-Matches_example : Matches listening
Reachable-Matches_example = Reachable-Matches config [] true listening (
    after (init_connection config [] true) listening initial
      (listened none none listening none listening-eq))

sample-Accepts : Accepts connection.client_config connection.client_config.transport
unfolding init_connection
sample-Accepts = refl

abbrev memory : ℕ → Bool
memory k = true

requests-Gives_example :
    Gives (Made (request_data Request.discover Message.discover)) (discover_new memory connection)
    × Gives
        (IsSelect memory connection sample-Accepts offer parsed_offer.0 parsed_offer.2)
        (select_new memory connection parsed_offer.0)
    × Gives
        (Made (request_data Request.reboot Message.request))
        (reboot_new memory connection 167772161)
    × Gives
        (Made (from_address (request_data Request.renew Message.request) connection.client_ip))
        (renew_new memory connection)
    × Gives
        (Made (from_address (request_data Request.rebind Message.request) connection.client_ip))
        (rebind_new memory connection)
    × Gives
        (Made (from_address (request_data Request.inform Message.inform) connection.client_ip))
        (inform_new memory connection)
    × Gives
        (Made (
          from_address
            (request_data Request.decline Message.decline)
            (Query.get_yiaddr parsed_offer.0)))
        (decline_new memory connection parsed_offer.0 none)
    × Gives
        (Made (request_data Request.release Message.release))
        (release_new memory connection none)
requests-Gives_example =
    requests-Gives memory connection sample-Accepts offer parsed_offer.0 parsed_offer.2 167772161
      none
