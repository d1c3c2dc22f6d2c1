-- ===== src/Connection.antt =====
-- n-dhcp4-c-connection.c: the transport of a client, in the state PACKET, DRAINING or UDP, with the
-- pinned request. What the system calls, the allocator and the random numbers give is an argument;
-- log messages are left out. An epoll set holds the sockets that are open.
pub mod Requests
pub mod Io
pub mod Sockets
pub mod Verify
pub mod Timer
pub mod Backoff
pub mod Secs
pub mod Fresh
pub mod Replies
pub mod Build
pub mod Made
pub mod All
mod Tests
use n_dhcp.Base.{
  ℕ, zero, suc, ◌+◌, Bool, true, false, ◌&&◌, ◌||◌, not, Option, none, some, List, [], ◌∷◌, ltb,
  leb, ◌==◌, if◌then◌else◌, ◌>>=◌, ◌>>◌, assert,
}
use n_dhcp.Protocol.{Error}
use n_dhcp.Outgoing.{Outgoing}

-- N_DHCP4_TRANSPORT_*
pub data Transport : Type 0 where
  ethernet infiniband unknown : Transport

-- `struct NDhcp4ClientConfig`, as far as the connection reads it.
pub record ClientConfig : Type 0 where
  pub transport : Transport
  pub request_broadcast : Bool
  pub mac : ℕ → ℕ
  pub n_mac : ℕ
  pub client_id : List ℕ

pub data State : Type 0 where
  init packet draining udp closed : State

-- `struct NDhcp4CConnection`; a file descriptor is there or -1. The list is the used part of
-- `probe_config->request_parameters`.
pub record Connection : Type 0 where
  pub client_config : ClientConfig
  pub request_parameters : List ℕ
  pub fd_epoll : Bool
  pub state : State
  pub fd_packet : Bool
  pub fd_udp : Bool
  pub request : Option Outgoing
  pub client_ip : ℕ
  pub server_ip : ℕ
  pub mtu : ℕ

abbrev pub is_packet : State → Bool
is_packet packet = true
is_packet _ = false

abbrev pub is_udp : State → Bool
is_udp draining = true
is_udp udp = true
is_udp _ = false

abbrev pub is_init : State → Bool
is_init init = true
is_init _ = false

-- n_dhcp4_c_connection_init
unfoldable pub init_connection : ClientConfig → List ℕ → Bool → Connection
init_connection client_config request_parameters fd_epoll = record {
  client_config = client_config;
  request_parameters = request_parameters;
  fd_epoll = fd_epoll;
  state = if fd_epoll then init else closed;
  fd_packet = false;
  fd_udp = false;
  request = none;
  client_ip = 0;
  server_ip = 0;
  mtu = 0;
}

-- The first of the calls that fails, if any does.
abbrev pub first_error : List (Option Error) → Option Error
first_error [] = none
first_error (none ∷ es) = first_error es
first_error (some e ∷ es) = some e

-- The two branches of a call that returns 0 or an error.
abbrev pub on_error {ℓ} : {A : Type ℓ} → Option Error → (Error → A) → A → A
on_error none failed done = done
on_error (some e) failed done = failed e

-- n_dhcp4_c_connection_listen; `socket` and `epoll` are what n_dhcp4_c_socket_packet_new and
-- epoll_ctl return.
unfoldable pub listen :
    Option Error → Option Error → Connection → Option (Connection × Option Error)
listen socket epoll c = if is_packet c.state then some (c, none) else do
  assert (is_init c.state || is_udp c.state)
  let c' : Connection = record c { fd_packet = false; fd_udp = false }
  some (
      on_error socket (λ e. (c', some e))
        (on_error epoll (λ e. (c', some e)) (record c' { state = packet; fd_packet = true }, none)))

-- n_dhcp4_c_connection_connect; `shutdown` is what packet_shutdown returns.
unfoldable pub connect :
    Option Error
    → Option Error
    → Option Error
    → ℕ
    → ℕ
    → Connection
    → Option (Connection × Option Error)
connect socket epoll shutdown client server c = do
  assert (is_packet c.state)
  some (
      on_error (first_error (socket ∷ epoll ∷ shutdown ∷ [])) (λ e. (c, some e))
        (
          record c { state = draining; fd_udp = true; client_ip = client; server_ip = server },
          none,
        ))

unfoldable pub close : Connection → Connection
close c = record c { fd_udp = false; fd_packet = false; fd_epoll = false; state = closed }
