-- ===== src/Server/Routes.antt =====
-- Where n_dhcp4_s_connection_send_reply sends a reply, by the request that it answers.
use n_dhcp.Base.{ℕ, ◌+◌, ◌≤◌, ◌<◌, ◌≡◌, ◌≢◌, Option, none, some, [], ◌∷◌}
use n_dhcp.Protocol.{be32, bytes32}
use n_dhcp.Memory.{slice}
use n_dhcp.Incoming.{Incoming}
use n_dhcp.Outgoing.{Outgoing}
use n_dhcp.Outgoing.Header.{with_header}
use n_dhcp.Server.{Destination, unicast, broadcast, hardware}

-- A big-endian number of four bytes of a request.
abbrev pub number_at : Incoming → ℕ → ℕ
number_at i at =
    be32 (i.message.byte at) (i.message.byte (at + 1)) (i.message.byte (at + 2))
      (i.message.byte (at + 3))

-- The addresses of the relay and of the client, the byte with the broadcast bit, and the length of
-- the hardware address in a request, at their offsets in RFC 2131.
abbrev pub giaddr : Incoming → ℕ
giaddr i = number_at i 24

abbrev pub ciaddr : Incoming → ℕ
ciaddr i = number_at i 12

abbrev pub flags : Incoming → ℕ
flags i = i.message.byte 10

abbrev pub hlen : Incoming → ℕ
hlen i = i.message.byte 2

-- The rules of RFC 2131, section 4.1, for a reply that offers an address. The last case is that of a
-- fault: a hardware address of more than 32 bytes.
pub data Rule (i : Incoming) (yiaddr : ℕ) : Option Destination → Type 0 where
  to_relay : giaddr i ≢ 0 → Rule i yiaddr (some (unicast (giaddr i)))
  to_client : giaddr i ≡ 0 → ciaddr i ≢ 0 → Rule i yiaddr (some (unicast (ciaddr i)))
  to_all : giaddr i ≡ 0 → ciaddr i ≡ 0 → 128 ≤ flags i → Rule i yiaddr (some broadcast)
  to_address :
      giaddr i ≡ 0
      → ciaddr i ≡ 0
      → flags i < 128
      → hlen i ≤ 32
      → Rule i yiaddr (some (hardware yiaddr (slice i.message.byte 28 (hlen i))))
  aborts : giaddr i ≡ 0 → ciaddr i ≡ 0 → flags i < 128 → 32 < hlen i → Rule i yiaddr none

-- A copy of n bytes of the request into the reply.
abbrev copied : Incoming → ℕ → ℕ → Outgoing → Outgoing
copied i at n o = with_header o at (slice i.message.byte at n)

-- The steps of the header.
abbrev copied_1 : Incoming → Outgoing → Outgoing
copied_1 i o = copied i 1 1 (with_header o 0 (2 ∷ []))

abbrev copied_2 : Incoming → Outgoing → Outgoing
copied_2 i o = copied i 2 1 (copied_1 i o)

abbrev copied_3 : Incoming → Outgoing → Outgoing
copied_3 i o = copied i 10 2 (copied_2 i o)

abbrev copied_4 : Incoming → Outgoing → Outgoing
copied_4 i o = copied i 4 4 (copied_3 i o)

abbrev copied_5 : Incoming → Outgoing → Outgoing
copied_5 i o = copied i 12 4 (copied_4 i o)

abbrev headed : Incoming → Outgoing → Outgoing
headed i o = copied i 24 4 (copied_5 i o)

abbrev replied : Incoming → Outgoing → Outgoing
replied i o = copied i 28 (hlen i) (headed i o)

abbrev offered : Incoming → ℕ → Outgoing → Outgoing
offered i yiaddr o = with_header (replied i o) 16 (bytes32 yiaddr)
