-- ===== src/Outgoing/Setters.antt =====
-- The typed appends and the header setters of n-dhcp4-outgoing.c.
use n_dhcp.Base.{ℕ, Bool, Option, some, ltb, List, ◌>>=◌, ◌>>◌, assert}
use n_dhcp.Protocol.{Error, bytes16, bytes32, be32}
use n_dhcp.Protocol.Opt
use n_dhcp.Memory.{write}
use n_dhcp.Outgoing.{Outgoing, append}

unfoldable pub append_u32 : Bool → Outgoing → ℕ → ℕ → Option (Outgoing × Option Error)
append_u32 allocated o option u32 = append allocated o option (bytes32 u32)

unfoldable pub append_in_addr : Bool → Outgoing → ℕ → ℕ → Option (Outgoing × Option Error)
append_in_addr allocated o option addr = append allocated o option (bytes32 addr)

unfoldable pub append_t1 : Bool → Outgoing → ℕ → Option (Outgoing × Option Error)
append_t1 allocated o t1 = append_u32 allocated o Opt.renewal_t1_time t1

unfoldable pub append_t2 : Bool → Outgoing → ℕ → Option (Outgoing × Option Error)
append_t2 allocated o t2 = append_u32 allocated o Opt.rebinding_t2_time t2

unfoldable pub append_lifetime : Bool → Outgoing → ℕ → Option (Outgoing × Option Error)
append_lifetime allocated o lifetime = append_u32 allocated o Opt.ip_address_lease_time lifetime

unfoldable pub append_server_identifier : Bool → Outgoing → ℕ → Option (Outgoing × Option Error)
append_server_identifier allocated o addr = append_in_addr allocated o Opt.server_identifier addr

unfoldable pub append_requested_ip : Bool → Outgoing → ℕ → Option (Outgoing × Option Error)
append_requested_ip allocated o addr = append_in_addr allocated o Opt.requested_ip_address addr

-- A write into the header, which stands at the start of the message.
unfoldable pub set_header : Outgoing → ℕ → List ℕ → Option Outgoing
set_header o at value = do m ← write o.message at value; some (record o { message = m })

unfoldable pub set_secs : Outgoing → ℕ → Option Outgoing
unfolding set_header
set_secs o secs = do assert (ltb 0 secs); set_header o 8 (bytes16 secs)

-- The transaction id is kept as its four bytes.
unfoldable pub set_xid : Outgoing → ℕ → Option Outgoing
unfolding set_header
set_xid o xid = set_header o 4 (bytes32 xid)

unfoldable pub get_xid : Outgoing → ℕ
get_xid o = be32 (o.message.byte 4) (o.message.byte 5) (o.message.byte 6) (o.message.byte 7)

unfoldable pub set_yiaddr : Outgoing → ℕ → Option Outgoing
unfolding set_header
set_yiaddr o yiaddr = set_header o 16 (bytes32 yiaddr)
