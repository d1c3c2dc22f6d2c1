-- ===== src/Incoming/Query.antt =====
-- The accessors of n-dhcp4-incoming.c. `*datap` and `*n_datap` are the slot; the bytes of an
-- address are read in network order, as those of the numbers are.
use n_dhcp.Base.{ℕ, ◌+◌, Option, none, some, ltb, if◌then◌else◌, ◌>>=◌}
use n_dhcp.Protocol.{unset, malformed, Result, ok, err, be16, be32}
use n_dhcp.Protocol.Opt
use n_dhcp.Memory.{load}
use n_dhcp.Incoming.{Incoming, Slot}

-- The result of a run that may fault, passed on if it is an error.
abbrev pub and_then {ℓ κ} :
    {A : Type ℓ} {B : Type κ} → Option (Result A) → (A → Option (Result B)) → Option (Result B)
and_then none f = none
and_then (some (err e)) f = some (err e)
and_then (some (ok a)) f = f a

abbrev pub slot_result : Option Slot → Result Slot
slot_result none = err unset
slot_result (some s) = ok s

unfoldable pub query : Incoming → ℕ → Result Slot
query i option = slot_result (i.options option)

unfoldable pub query_u8 : Incoming → ℕ → Option (Result ℕ)
unfolding query
query_u8 i option =
    and_then (some (query i option))
      λ s. if ltb s.size 1 then some (err malformed) else do a ← load i.message s.value; some (ok a)

unfoldable pub query_u16 : Incoming → ℕ → Option (Result ℕ)
unfolding query
query_u16 i option = and_then (some (query i option)) λ s.
    if ltb s.size 2
    then some (err malformed)
    else do a ← load i.message s.value; b ← load i.message (s.value + 1); some (ok (be16 a b))

unfoldable pub query_u32 : Incoming → ℕ → Option (Result ℕ)
unfolding query
query_u32 i option = and_then (some (query i option)) λ s.
    if ltb s.size 4 then some (err malformed) else do
      a ← load i.message s.value
      b ← load i.message (s.value + 1)
      c ← load i.message (s.value + 2)
      d ← load i.message (s.value + 3)
      some (ok (be32 a b c d))

unfoldable pub query_in_addr : Incoming → ℕ → Option (Result ℕ)
unfolding query_u32
query_in_addr i option = query_u32 i option

unfoldable pub query_message_type : Incoming → Option (Result ℕ)
query_message_type i = query_u8 i Opt.message_type

unfoldable pub query_lifetime : Incoming → Option (Result ℕ)
query_lifetime i = query_u32 i Opt.ip_address_lease_time

unfoldable pub query_t2 : Incoming → Option (Result ℕ)
query_t2 i = query_u32 i Opt.rebinding_t2_time

unfoldable pub query_t1 : Incoming → Option (Result ℕ)
query_t1 i = query_u32 i Opt.renewal_t1_time

unfoldable pub query_server_identifier : Incoming → Option (Result ℕ)
query_server_identifier i = query_in_addr i Opt.server_identifier

unfoldable pub query_max_message_size : Incoming → Option (Result ℕ)
query_max_message_size i = query_u16 i Opt.maximum_message_size

unfoldable pub query_requested_ip : Incoming → Option (Result ℕ)
query_requested_ip i = query_in_addr i Opt.requested_ip_address

-- The header fields at their offsets in the message; addresses in network order, `xid` as stored.
unfoldable pub get_xid : Incoming → ℕ
get_xid i = be32 (i.message.byte 4) (i.message.byte 5) (i.message.byte 6) (i.message.byte 7)

unfoldable pub get_yiaddr : Incoming → ℕ
get_yiaddr i = be32 (i.message.byte 16) (i.message.byte 17) (i.message.byte 18) (i.message.byte 19)

unfoldable pub get_raw : Incoming → ℕ
get_raw i = i.n_message
