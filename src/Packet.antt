-- ===== src/Packet.antt =====
-- util/packet.c: UDP packets on packet sockets, and the functions of n-dhcp4-socket.c that send and
-- receive messages by them. A datagram is a list of bytes. The kernel gives a datagram, whether it
-- is marked as one whose checksum is not computed yet, and the errors of recv, recvmsg and sendmsg.
pub mod Words
pub mod RoundTrip
pub mod Checked
mod Tests
use n_dhcp.Base.{
  ℕ, zero, suc, ◌+◌, ◌-◌, ◌*◌, ◌/◌, ◌%◌, ◌^◌, Bool, true, false, ◌&&◌, not, Option, none, some,
  List, [], ◌∷◌, ◌++◌, ltb, leb, ◌==◌, if◌then◌else◌, ◌>>=◌, ◌>>◌, assert, length, get_or, take,
}
use n_dhcp.Protocol.{Error, Result, ok, err, be16, malformed, dropped, down, again, os, uint16_max}
use n_dhcp.Incoming.{Incoming}
use n_dhcp.Incoming
use n_dhcp.Checksum.{net16, packet_internet_checksum, packet_internet_checksum_udp}

-- The errno codes that the callers tell apart.
pub data Errno : Type 0 where
  eagain enobufs enetdown enxio : Errno
  other : ℕ → Errno

abbrev pub drop {ℓ} : {A : Type ℓ} → ℕ → List A → List A
drop zero xs = xs
drop (suc n) [] = []
drop (suc n) (x ∷ xs) = drop n xs

-- A uint16_t as its bytes on a little-endian host.
abbrev pub native16 : ℕ → List ℕ
native16 n = (n % 256) ∷ (n / 256 % 256) ∷ []

-- The iphdr of packet_sendto_udp: version 4 with 5 words, CS6, DF, a TTL of 64, UDP.
abbrev pub ip_header : List ℕ → List ℕ → ℕ → ℕ → List ℕ
ip_header src dst n_buf check =
    (0x45 ∷ 0xc0 ∷ [])
    ++ (net16 (20 + 8 + n_buf)
        ++ ((0 ∷ 0 ∷ 0x40 ∷ 0 ∷ 64 ∷ 17 ∷ []) ++ (native16 check ++ (src ++ dst))))

abbrev pub udp_header : ℕ → ℕ → ℕ → ℕ → List ℕ
udp_header src_port dst_port n_buf check =
    net16 src_port ++ (net16 dst_port ++ (net16 (8 + n_buf) ++ native16 check))

-- `check ?: 0xffff`
abbrev pub or_ones : ℕ → ℕ
or_ones c = if c == 0 then 0xffff else c

-- What packet_sendto_udp hands to sendmsg.
unfoldable pub packet_datagram : List ℕ → List ℕ → ℕ → ℕ → List ℕ → Option (List ℕ)
packet_datagram src dst src_port dst_port buf = do
  ip_check ← packet_internet_checksum (ip_header src dst (length buf) 0)
  udp_check ← packet_internet_checksum_udp src dst src_port dst_port buf 0
  some (
      ip_header src dst (length buf) ip_check
      ++ (udp_header src_port dst_port (length buf) (or_ones udp_check) ++ buf))

-- What sendmsg returns: the length sent, or an errno.
pub data Sent : Type 0 where
  sent : ℕ → Sent
  unsent : Errno → Sent

-- packet_sendto_udp; the result is the number of bytes transmitted.
abbrev pub transmitted : ℕ → Sent → Option Sent
transmitted n_buf (unsent e) = some (unsent e)
transmitted n_buf (sent pktlen) = do assert (leb (20 + 8 + n_buf) pktlen); some (sent n_buf)

unfoldable pub packet_sendto_udp : (List ℕ → Sent) → List ℕ → List ℕ → ℕ → ℕ → List ℕ → Option Sent
packet_sendto_udp sendmsg src dst src_port dst_port buf = do
  d ← packet_datagram src dst src_port dst_port buf
  transmitted (length buf) (sendmsg d)

-- n_dhcp4_socket_packet_send, behind the copy of the hardware address of `halen` bytes.
abbrev pub send_error : Errno → Error
send_error eagain = dropped
send_error enobufs = dropped
send_error enetdown = down
send_error enxio = down
send_error (other n) = os n

abbrev pub send_result : ℕ → Sent → Option Error
send_result n_buf (unsent e) = some (send_error e)
send_result n_buf (sent len) = if not (len == n_buf) then some dropped else none

unfoldable pub socket_packet_send :
    (List ℕ → Sent) → ℕ → List ℕ → List ℕ → ℕ → ℕ → List ℕ → Option (Option Error)
socket_packet_send sendmsg halen src dst src_port dst_port buf = do
  assert (leb halen 32)
  r ← packet_sendto_udp sendmsg src dst src_port dst_port buf
  some (send_result (length buf) r)

-- What packet_recvfrom_udp leaves for its caller: the length, the address and the port in network
-- order of the sender, and the bytes at the start of the buffer.
pub record Received : Type 0 where
  pub n_transmitted : ℕ
  pub address : List ℕ
  pub port : ℕ
  pub bytes : List ℕ

-- An error, or 0; a packet that is discarded leaves a length of 0.
pub data Reception : Type 0 where
  failed : Errno → Reception
  discarded : Reception
  received : Received → Reception

abbrev pub byte : List ℕ → ℕ → ℕ
byte d i = get_or d i 0

abbrev pub net16_at : List ℕ → ℕ → ℕ
net16_at d i = be16 (byte d i) (byte d (i + 1))

abbrev pub native16_at : List ℕ → ℕ → ℕ
native16_at d i = byte d i + 256 * byte d (i + 1)

-- The payload as packet_internet_checksum_udp reads it from the buffer; `size` is a size_t.
abbrev pub payload : List ℕ → ℕ → ℕ → ℕ → Option (List ℕ)
payload d hdrlen n_buf size =
    if leb size n_buf then some (take size (drop (hdrlen + 8) d)) else none

-- The two checksums; `checksum` says whether the kernel computed them.
abbrev pub ip_fails : Bool → List ℕ → ℕ → Option Bool
ip_fails false d hdrlen = some false
ip_fails true d hdrlen = do c ← packet_internet_checksum (take hdrlen d); some (not (c == 0))

abbrev pub udp_fails : Bool → List ℕ → ℕ → ℕ → ℕ → Option Bool
udp_fails checksum d hdrlen n_buf size =
    if checksum && not (native16_at d (hdrlen + 6) == 0)
    then (do
      bytes ← payload d hdrlen n_buf size
      c ←
          packet_internet_checksum_udp (take 4 (drop 12 d)) (take 4 (drop 16 d)) (net16_at d hdrlen)
            (net16_at d (hdrlen + 2)) bytes (native16_at d (hdrlen + 6))
      some (not (c == 0)))
    else some false

-- The checks behind recvmsg; `pktlen` is the length of the UDP payload, a size_t.
abbrev pub accepted : Bool → List ℕ → ℕ → ℕ → ℕ → Option Reception
accepted checksum d hdrlen n_buf pktlen =
    if not (byte d 9 == 17)
    then some discarded
    else if not (net16_at d 6 % 2 ^ 14 == 0)
    then some discarded
    else do
      ip_bad ← ip_fails checksum d hdrlen
      if ip_bad then some discarded else do
        udp_bad ← udp_fails checksum d hdrlen n_buf pktlen
        if udp_bad
            then some discarded
            else some (
                received (record {
                  n_transmitted = pktlen;
                  address = take 4 (drop 12 d);
                  port = net16_at d hdrlen;
                  bytes = take n_buf (drop (hdrlen + 8) d);
                }))

-- The number of bytes that recvmsg copies into the three parts.
abbrev pub copied : List ℕ → ℕ → ℕ → ℕ
copied d hdrlen n_buf = if leb (length d) (hdrlen + 8 + n_buf) then length d else hdrlen + 8 + n_buf

unfoldable pub check_packet : Bool → List ℕ → ℕ → ℕ → Option Reception
check_packet checksum d hdrlen n_buf =
    let tot_len = net16_at d 2 in
    let udp_len = net16_at d (hdrlen + 4) in
    if ltb (copied d hdrlen n_buf) tot_len
    then some discarded
    else if ltb tot_len (hdrlen + 8)
    then some discarded
    else if ltb tot_len (hdrlen + udp_len)
    then some discarded
    else accepted checksum d hdrlen n_buf ((udp_len + 2 ^ 64 - 8) % 2 ^ 64)

-- The auxiliary data of the packet, if there is any: whether its checksum is not ready.
abbrev pub computes_checksum : Option Bool → Bool
computes_checksum none = true
computes_checksum (some not_ready) = not not_ready

abbrev pub unless_error : Option Errno → Option Reception → Option Reception
unless_error (some e) r = some (failed e)
unless_error none r = r

-- packet_recvfrom_udp, with the errors of the recv that peeks and of recvmsg. The datagram is the
-- next one of the queue.
unfoldable pub packet_recvfrom_udp :
    Option Errno → Option Errno → List ℕ → Option Bool → ℕ → Option Reception
packet_recvfrom_udp peek_error recv_error d aux n_buf = unless_error peek_error (
    let hdrlen = byte d 0 % 16 * 4 in
    if ltb (length d) 20
    then some discarded
    else if not (byte d 0 / 16 == 4)
    then some discarded
    else if ltb hdrlen 20
    then some discarded
    else unless_error recv_error (check_packet (computes_checksum aux) d hdrlen n_buf))

-- n_dhcp4_c_socket_packet_recv
abbrev pub recv_error : Errno → Error
recv_error enetdown = down
recv_error eagain = again
recv_error enobufs = os 105
recv_error enxio = os 6
recv_error (other n) = os n

-- n_dhcp4_incoming_new on the first `len` bytes of the buffer, whose length it checks first.
abbrev pub incoming_of : Bool → List ℕ → ℕ → Option (Result Incoming)
incoming_of allocated buf len =
    if ltb uint16_max len then some (err malformed) else Incoming.new allocated (take len buf)

abbrev pub message_of : Bool → Reception → Option (Result Incoming)
message_of allocated (failed e) = some (err (recv_error e))
message_of allocated discarded = some (err malformed)
message_of allocated (received r) =
    if r.n_transmitted == 0
    then some (err malformed)
    else incoming_of allocated r.bytes r.n_transmitted

unfoldable pub socket_packet_recv :
    Bool → Option Errno → Option Errno → List ℕ → Option Bool → ℕ → Option (Result Incoming)
socket_packet_recv allocated peek recv d aux n_buf = do
  r ← packet_recvfrom_udp peek recv d aux n_buf
  message_of allocated r
