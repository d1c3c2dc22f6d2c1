-- ===== src/Client/Settings.antt =====
-- The configuration of a client in n-dhcp4-client.c, and the checks of n_dhcp4_client_new.
use n_dhcp.Base.{
  ℕ, Bool, false, ◌||◌, not, Option, none, some, List, [], ltb, leb, ◌==◌, if◌then◌else◌, length,
  get_or, min,
}
use n_dhcp.Protocol.{
  Error, invalid_ifindex, invalid_transport, invalid_address, invalid_client_id, os, enomem, Result,
  ok, err,
}
use n_dhcp.Connection.{Transport, ethernet, infiniband, unknown, ClientConfig}

-- `struct NDhcp4ClientConfig`. The index is an int, by its 32 bits.
pub record Config : Type 0 where
  pub ifindex : ℕ
  pub transport : Transport
  pub request_broadcast : Bool
  pub mac : ℕ → ℕ
  pub n_mac : ℕ
  pub broadcast_mac : ℕ → ℕ
  pub n_broadcast_mac : ℕ
  pub client_id : List ℕ

-- The part that a connection reads.
abbrev pub to_connection : Config → ClientConfig
to_connection c = record {
  transport = c.transport;
  request_broadcast = c.request_broadcast;
  mac = c.mac;
  n_mac = c.n_mac;
  client_id = c.client_id;
}

-- N_DHCP4_CLIENT_CONFIG_NULL
abbrev pub null_config : Config
null_config = record {
  ifindex = 0;
  transport = unknown;
  request_broadcast = false;
  mac = λ j. 0;
  n_mac = 0;
  broadcast_mac = λ j. 0;
  n_broadcast_mac = 0;
  client_id = [];
}

-- n_dhcp4_client_config_new
unfoldable pub client_config_new : Bool → Result Config
client_config_new allocated = if allocated then ok null_config else err enomem

abbrev pub set_ifindex : Config → ℕ → Config
set_ifindex c ifindex = record c { ifindex = ifindex }

abbrev pub set_transport : Config → Transport → Config
set_transport c transport = record c { transport = transport }

abbrev pub set_request_broadcast : Config → Bool → Config
set_request_broadcast c request_broadcast = record c { request_broadcast = request_broadcast }

-- memcpy into a buffer of 32 bytes, of an address that may be longer.
abbrev pub copy_address : (ℕ → ℕ) → List ℕ → ℕ → ℕ
copy_address old mac j = if ltb j (min (length mac) 32) then get_or mac j 0 else old j

abbrev pub set_mac : Config → List ℕ → Config
set_mac c mac = record c { mac = copy_address c.mac mac; n_mac = length mac }

abbrev pub set_broadcast_mac : Config → List ℕ → Config
set_broadcast_mac c mac = record c {
  broadcast_mac = copy_address c.broadcast_mac mac;
  n_broadcast_mac = length mac;
}

-- n_dhcp4_client_config_set_client_id; EINVAL is 22.
unfoldable pub set_client_id : Bool → Config → List ℕ → Config × Option Error
set_client_id allocated c id =
    if length id == 0
    then (record c { client_id = [] }, none)
    else if ltb (length id) 2 || ltb 255 (length id)
    then (c, some (os 22))
    else if allocated
    then (record c { client_id = id }, none)
    else (c, some enomem)

abbrev pub duplicated : Config × Option Error → Result Config
duplicated (c, none) = ok c
duplicated (c, some e) = err e

-- n_dhcp4_client_config_dup
unfoldable pub client_config_dup : Bool → Bool → Config → Result Config
client_config_dup allocated id_allocated c =
    if allocated
    then duplicated (set_client_id id_allocated (record c { client_id = [] }) c.client_id)
    else err enomem

abbrev pub verify_addresses : Config → Transport → Option Error
verify_addresses c ethernet =
    if not (c.n_mac == 6) || not (c.n_broadcast_mac == 6) then some invalid_address else none
verify_addresses c infiniband =
    if not (c.n_mac == 20) || not (c.n_broadcast_mac == 20) then some invalid_address else none
verify_addresses c unknown = some invalid_transport

abbrev pub verify_client_id : Config → Option Error → Option Error
verify_client_id c none = if ltb (length c.client_id) 1 then some invalid_client_id else none
verify_client_id c (some e) = some e

-- The block "verify configuration" of n_dhcp4_client_new.
unfoldable pub verify : Config → Option Error
verify c =
    if c.ifindex == 0 || leb 2147483648 c.ifindex
    then some invalid_ifindex
    else verify_client_id c (verify_addresses c c.transport)
