-- ===== src/Packet/Tests.antt =====
-- Concrete packets.
use n_dhcp.Base.{
  ℕ, ◌≡◌, refl, none, some, true, List, [], ◌∷◌, ◌++◌, arith, AreBytes, append-AreBytes, replicate,
  replicate-AreBytes, length, take,
}
use n_dhcp.Protocol.{ok}
use n_dhcp.Incoming.{Incoming, has_magic}
use n_dhcp.Incoming.Accept.{well_formed}
use n_dhcp.Incoming.Refine.{Parsed, starts_magic}
use n_dhcp.Checksum.{packet_internet_checksum}
use n_dhcp.Checksum.Sum.{checksum_zero}
use n_dhcp.Packet.{
  packet_datagram, packet_recvfrom_udp, socket_packet_send, socket_packet_recv, received, sent,
  Reception,
}
use n_dhcp.Packet.RoundTrip.{address, sendto-recvfrom, send-recv}
use n_dhcp.Packet.Checked.{Fits, recvfrom-Fits, recvfrom_short}

abbrev client : List ℕ
client = address 0 0 0 0

abbrev server : List ℕ
server = address 192 168 0 1

abbrev sample : List ℕ
sample = 1 ∷ 2 ∷ 3 ∷ []

sendto-recvfrom_example :
    (d : List ℕ) × (packet_datagram client server 68 67 sample ≡ some d)
    × (length d ≡ 31)
    × (packet_recvfrom_udp none none d none 100
        ≡ some
            (received (record { n_transmitted = 3; address = client; port = 68; bytes = sample })))
sendto-recvfrom_example =
    sendto-recvfrom 0 0 0 0 192 168 0 1 68 67 sample (omega arith) (omega arith) (omega arith)
      (omega arith) (omega arith) (omega arith) 100 none (omega arith)

abbrev message : List ℕ
message = replicate 236 0 ++ (0x63 ∷ 0x82 ∷ 0x53 ∷ 0x63 ∷ 255 ∷ [])

message-AreBytes : AreBytes message
message-AreBytes =
    append-AreBytes (replicate 236 0) (0x63 ∷ 0x82 ∷ 0x53 ∷ 0x63 ∷ 255 ∷ [])
      (replicate-AreBytes 236 0 (omega arith)) (omega arith)

send-recv_example :
    (socket_packet_send (λ d. sent (length d)) 6 server client 67 68 message ≡ some none)
    × ((d : List ℕ) × (packet_datagram server client 67 68 message ≡ some d)
        × ((i : Incoming) × (socket_packet_recv true none none d (some true) 1500 ≡ some (ok i))
            × Parsed message i))
unfolding well_formed starts_magic has_magic
send-recv_example =
    send-recv 192 168 0 1 0 0 0 0 67 68 message (omega arith) (omega arith) (omega arith)
      (omega arith) message-AreBytes (omega arith) 6 1500 (some true) (omega arith) (omega arith)
      refl

-- A UDP header of length 3 with a checksum, and one of length 11 without.
abbrev short : List ℕ
short =
    0x45 ∷ 0 ∷ 0 ∷ 31 ∷ 0 ∷ 0 ∷ 0 ∷ 0 ∷ 64 ∷ 17 ∷ 0xba ∷ 0x25 ∷ 192 ∷ 168 ∷ 0 ∷ 1 ∷ 255 ∷ 255 ∷ 255
    ∷ 255 ∷ 0 ∷ 67 ∷ 0 ∷ 68 ∷ 0 ∷ 3 ∷ 1 ∷ 1 ∷ 1 ∷ 2 ∷ 3 ∷ []

short_checksum : packet_internet_checksum (take 20 short) ≡ some 0
short_checksum =
    checksum_zero (take 20 short) (omega arith) (omega arith) (omega arith) (omega arith)

recvfrom_short_example : packet_recvfrom_udp none none short none 1500 ≡ none
recvfrom_short_example =
    recvfrom_short short 1500 (omega arith) refl (omega arith) (omega arith) (omega arith)
      (omega arith) refl refl short_checksum (omega arith) (omega arith)

abbrev unchecked : List ℕ
unchecked = take 24 short ++ (0 ∷ 11 ∷ 0 ∷ 0 ∷ 1 ∷ 2 ∷ 3 ∷ [])

recvfrom-Fits_example :
    (r : Reception) × (packet_recvfrom_udp none none unchecked none 1500 ≡ some r) × Fits 1500 r
recvfrom-Fits_example = recvfrom-Fits unchecked 1500 none none none (omega arith) (omega arith)
