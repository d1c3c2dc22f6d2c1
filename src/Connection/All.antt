-- ===== src/Connection/All.antt =====
-- All the requests that a connection builds.
use n_dhcp.Base.{
  ℕ, ◌≡◌, refl, ap, Bool, true, false, Option, none, some, List, [], ◌∷◌, ◌++◌, arith, ◌>>=◌,
}
use n_dhcp.Protocol.{Result, ok, err, bytes32}
use n_dhcp.Protocol.Opt
use n_dhcp.Protocol.Message
use n_dhcp.Protocol.Request
use n_dhcp.Incoming.{Incoming}
use n_dhcp.Incoming.Query
use n_dhcp.Incoming.Query.{and_then, query_server_identifier, query_in_addr}
use n_dhcp.Incoming.Refine.{Parsed, lookup_option}
use n_dhcp.Incoming.Typed.{query-reads, read_u32}
use n_dhcp.Outgoing.{Outgoing}
use n_dhcp.Outgoing.Setters.{set_xid}
use n_dhcp.Outgoing.Overload.{IsPlain}
use n_dhcp.Outgoing.Header.{userdata-Valid}
use n_dhcp.Outgoing.Userdata.{Userdata}
use n_dhcp.Connection.{Connection}
use n_dhcp.Connection.Requests.{
  append_to, message_type_of, new_message, discover_new, select_new, reboot_new, renew_new,
  rebind_new, inform_new, decline_new, release_new, append_error,
}
use n_dhcp.Connection.Build.{
  Gives, GivesOne, Made, Accepts, append_to-Gives, and_then-Gives, set_header-GivesOne,
}
use n_dhcp.Connection.Made.{request_data, new_message-Gives, ok-Gives, is_plain}

requested : IsPlain Opt.requested_ip_address
requested =
    is_plain Opt.requested_ip_address (λ e. omega arith) (λ e. omega arith) (λ e. omega arith)

server : IsPlain Opt.server_identifier
server = is_plain Opt.server_identifier (λ e. omega arith) (λ e. omega arith) (λ e. omega arith)

error_text : IsPlain Opt.error_message
error_text = is_plain Opt.error_message (λ e. omega arith) (λ e. omega arith) (λ e. omega arith)

-- With the address of the client.
abbrev pub from_address : Userdata → ℕ → Userdata
from_address u client_addr = record u { client_addr = client_addr }

with_client :
    (u : Userdata) (o : Outgoing) (client_addr : ℕ)
    → Made u o
    → Made (from_address u client_addr) (record o { client_addr = client_addr })
with_client u o client_addr m = record {
  valid =
      userdata-Valid o o.type o.message_type client_addr o.server_id o.start_time o.base_time
        o.send_time o.send_jitter o.n_send m.valid;
  data_are = ap (λ (u : Userdata). from_address u client_addr) m.data_are;
}

append_error-Gives :
    (allocated : Bool) (error : Option (List ℕ)) (u : Userdata) (o : Outgoing)
    → Made u o
    → Gives (Made u) (append_error allocated error o)
append_error-Gives allocated none u o m = ok-Gives u o m
append_error-Gives allocated (some error) u o m =
    append_to-Gives allocated Opt.error_message (error ++ (0 ∷ [])) o u error_text m

with_server :
    (i : Incoming) (r : Result ℕ) (P : Outgoing → Type 0) (f : ℕ → Option (Result Outgoing))
    → query_server_identifier i ≡ some r
    → ((n : ℕ) → r ≡ ok n → Gives P (f n))
    → Gives P (and_then (query_server_identifier i) f)
unfolding Gives
with_server i (ok n) P f e k = let g = k n refl in (g.0, rw e g.1, g.2)
with_server i (err x) P f e k = (err x, rw e refl, λ o h. cc)

-- The userdata of the SELECT of an offer.
abbrev pub select_data : Incoming → ℕ → Userdata
select_data offer server_id = record (request_data Request.select Message.request) {
  client_addr = Query.get_yiaddr offer;
  server_id = server_id;
  start_time = offer.start_time;
  base_time = offer.base_time;
}

set_xid-Gives :
    (u : Userdata) (o : Outgoing) (xid : ℕ)
    → Made u o
    → Gives (Made u) (do o' ← set_xid o xid; some (ok o'))
unfolding set_xid GivesOne
set_xid-Gives u o xid m =
    let s = set_header-GivesOne u o 4 (bytes32 xid) m (omega arith) in rw s.1 (ok-Gives u s.0 s.2)

module _ (memory : ℕ → Bool) (c : Connection)
    (a : Accepts c.client_config c.client_config.transport) (raw : List ℕ) (i : Incoming)
    (p : Parsed raw i) where
  server_of : query_server_identifier i ≡ some (read_u32 (lookup_option raw Opt.server_identifier))
  unfolding query_server_identifier query_in_addr
  server_of = (query-reads raw i p Opt.server_identifier).2

  base :
      (type message_type : ℕ) (via : Bool)
      → message_type_of type ≡ some (message_type, via)
      → Gives (Made (request_data type message_type)) (new_message memory c type)
  base type message_type via t = new_message-Gives memory c type message_type via a t

  client_request :
      (type message_type : ℕ) (via : Bool)
      → message_type_of type ≡ some (message_type, via)
      → Gives (Made (from_address (request_data type message_type) c.client_ip)) (
          and_then
            (new_message memory c type)
            λ o. some (ok (record o { client_addr = c.client_ip })))
  client_request type message_type via t =
      and_then-Gives (Made (request_data type message_type)) _ _ _ (base type message_type via t)
        λ o m.
          ok-Gives (from_address (request_data type message_type) c.client_ip)
            (record o { client_addr = c.client_ip })
            (with_client (request_data type message_type) o c.client_ip m)

  -- The requested address and the server, as SELECT and DECLINE append them.
  two_addresses :
      (u : Userdata) (address server_id : ℕ) (o : Outgoing) (P : Outgoing → Type 0)
      (f : Outgoing → Option (Result Outgoing))
      → Made u o
      → ((o' : Outgoing) → Made u o' → Gives P (f o'))
      → Gives P (
          and_then
            (append_to (memory 5) Opt.requested_ip_address (bytes32 address) o)
            λ o₁. and_then (append_to (memory 6) Opt.server_identifier (bytes32 server_id) o₁) f)
  two_addresses u address server_id o P f m k =
      and_then-Gives (Made u) P _ _
        (append_to-Gives (memory 5) Opt.requested_ip_address (bytes32 address) o u requested m)
        λ o₁ m₁.
          and_then-Gives (Made u) P _ _
            (append_to-Gives (memory 6) Opt.server_identifier (bytes32 server_id) o₁ u server m₁) k

  -- A valid SELECT, for the server that the offer names.
  abbrev pub IsSelect : Outgoing → Type 0
  IsSelect o =
      (n : ℕ) × (read_u32 (lookup_option raw Opt.server_identifier) ≡ ok n)
      × Made (select_data i n) o

  finish_select :
      (n : ℕ) (o : Outgoing)
      → read_u32 (lookup_option raw Opt.server_identifier) ≡ ok n
      → Made (request_data Request.select Message.request) o
      → Gives IsSelect (do
        o' ←
            set_xid
              (record o {
                start_time = i.start_time;
                base_time = i.base_time;
                client_addr = Query.get_yiaddr i;
                server_id = n;
              })
              (Query.get_xid i)
        some (ok o'))
  unfolding Gives
  finish_select n o e m =
      let g =
        set_xid-Gives (select_data i n)
          (record o {
            start_time = i.start_time;
            base_time = i.base_time;
            client_addr = Query.get_yiaddr i;
            server_id = n;
          })
          (Query.get_xid i)
          (record {
            valid =
                userdata-Valid o o.type o.message_type (Query.get_yiaddr i) n i.start_time
                  i.base_time o.send_time o.send_jitter o.n_send m.valid;
            data_are =
                ap
                  (λ (u : Userdata). record u {
                    client_addr = Query.get_yiaddr i;
                    server_id = n;
                    start_time = i.start_time;
                    base_time = i.base_time;
                  })
                  m.data_are;
          }) in
      (g.0, g.1, λ o' h. (n, e, g.2 o' h))

  select_new-Gives : Gives IsSelect (select_new memory c i)
  unfolding select_new message_type_of
  select_new-Gives =
      let u = request_data Request.select Message.request in
      with_server i (read_u32 (lookup_option raw Opt.server_identifier)) _ _ server_of λ n e.
        and_then-Gives (Made u) _ _ _ (base Request.select Message.request true refl) λ o m.
          two_addresses u (Query.get_yiaddr i) n o IsSelect _ m λ o₂ m₂. finish_select n o₂ e m₂

  decline_new-Gives :
      (error : Option (List ℕ))
      → Gives
          (Made (from_address (request_data Request.decline Message.decline) (Query.get_yiaddr i)))
          (decline_new memory c i error)
  unfolding decline_new message_type_of
  decline_new-Gives error =
      let u = request_data Request.decline Message.decline in
      with_server i (read_u32 (lookup_option raw Opt.server_identifier)) _ _ server_of λ n e.
        and_then-Gives (Made u) _ _ _ (base Request.decline Message.decline true refl) λ o m.
          two_addresses u (Query.get_yiaddr i) n o _ _ m λ o₂ m₂.
            and_then-Gives (Made u) _ _ _ (append_error-Gives (memory 7) error u o₂ m₂) λ o₃ m₃.
              ok-Gives (from_address u (Query.get_yiaddr i))
                (record o₃ { client_addr = Query.get_yiaddr i })
                (with_client u o₃ (Query.get_yiaddr i) m₃)

  reboot_new-Gives :
      (client : ℕ)
      → Gives (Made (request_data Request.reboot Message.request)) (reboot_new memory c client)
  unfolding reboot_new message_type_of
  reboot_new-Gives client =
      let u = request_data Request.reboot Message.request in
      and_then-Gives (Made u) _ _ _ (base Request.reboot Message.request true refl)
        λ o m. append_to-Gives (memory 5) Opt.requested_ip_address (bytes32 client) o u requested m

  release_new-Gives :
      (error : Option (List ℕ))
      → Gives (Made (request_data Request.release Message.release)) (release_new memory c error)
  unfolding release_new message_type_of
  release_new-Gives error =
      let u = request_data Request.release Message.release in
      and_then-Gives (Made u) _ _ _ (base Request.release Message.release false refl) λ o m.
        and_then-Gives (Made u) _ _ _
          (append_to-Gives (memory 5) Opt.server_identifier (bytes32 c.server_ip) o u server m)
          λ o₁ m₁. append_error-Gives (memory 6) error u o₁ m₁

  -- With a configuration that the client accepts, all the functions that build a request have a
  -- result without a fault, whatever memory is found, and an object that they return is a valid
  -- message with the types of the request. RENEW, REBIND and INFORM have the address of the
  -- connection, SELECT and DECLINE that of the parsed message that they are given; SELECT has the
  -- times of this message and the server that it names.
  pub requests-Gives :
      (client : ℕ) (error : Option (List ℕ))
      → Gives (Made (request_data Request.discover Message.discover)) (discover_new memory c)
        × Gives IsSelect (select_new memory c i)
        × Gives (Made (request_data Request.reboot Message.request)) (reboot_new memory c client)
        × Gives
            (Made (from_address (request_data Request.renew Message.request) c.client_ip))
            (renew_new memory c)
        × Gives
            (Made (from_address (request_data Request.rebind Message.request) c.client_ip))
            (rebind_new memory c)
        × Gives
            (Made (from_address (request_data Request.inform Message.inform) c.client_ip))
            (inform_new memory c)
        × Gives
            (Made
              (from_address (request_data Request.decline Message.decline) (Query.get_yiaddr i)))
            (decline_new memory c i error)
        × Gives (Made (request_data Request.release Message.release)) (release_new memory c error)
  unfolding discover_new renew_new rebind_new inform_new message_type_of
  requests-Gives client error = (
    base Request.discover Message.discover true refl,
    select_new-Gives,
    reboot_new-Gives client,
    client_request Request.renew Message.request false refl,
    client_request Request.rebind Message.request false refl,
    client_request Request.inform Message.inform false refl,
    decline_new-Gives error,
    release_new-Gives error,
  )
