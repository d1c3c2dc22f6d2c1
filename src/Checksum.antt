-- ===== src/Checksum.antt =====
-- util/packet.c: the internet checksum of RFC 1071, on a little-endian host. The bytes of the data
-- are a list.
pub mod Sum
mod Tests
use n_dhcp.Base.{
  ℕ, zero, suc, ◌+◌, ◌-◌, ◌*◌, ◌/◌, ◌%◌, ◌^◌, Option, none, some, List, [], ◌∷◌, ◌++◌, length, ◌==◌,
  if◌then◌else◌, ◌>>=◌,
}

-- memcpy(&local, data, 4)
abbrev pub le32 : ℕ → ℕ → ℕ → ℕ → ℕ
le32 a b c d = a + 256 * b + 65536 * c + 16777216 * d

-- The words of the data, and what is left, padded with zeros, added to `acc`.
unfoldable pub add_words : ℕ → List ℕ → ℕ
add_words acc [] = acc
add_words acc (a ∷ []) = (acc + le32 a 0 0 0) % 2 ^ 64
add_words acc (a ∷ b ∷ []) = (acc + le32 a b 0 0) % 2 ^ 64
add_words acc (a ∷ b ∷ c ∷ []) = (acc + le32 a b c 0) % 2 ^ 64
add_words acc (a ∷ b ∷ c ∷ d ∷ xs) = add_words ((acc + le32 a b c d) % 2 ^ 64) xs

-- `while (acc >> 16) acc = (acc & 0xffff) + (acc >> 16)`, with fuel for its rounds.
unfoldable pub fold : ℕ → ℕ → Option ℕ
fold zero acc = none
fold (suc f) acc = if acc / 65536 == 0 then some acc else fold f (acc % 65536 + acc / 65536)

-- packet_internet_checksum. Every round makes `acc` less, so the fuel is enough.
unfoldable pub packet_internet_checksum : List ℕ → Option ℕ
packet_internet_checksum bytes = do
  let acc = add_words 0 bytes
  folded ← fold (acc + 1) acc
  some (65535 - folded)

-- htons(n), as bytes in memory.
abbrev pub net16 : ℕ → List ℕ
net16 n = (n / 256 % 256) ∷ (n % 256) ∷ []

-- packet_internet_checksum_udp, which adds the pseudo header in front of the data: the addresses as
-- they are in memory, the protocol and the ports in network order.
abbrev pub udp_phdr : List ℕ → List ℕ → ℕ → ℕ → ℕ → ℕ → List ℕ
udp_phdr src dst src_port dst_port length checksum =
    src
    ++ dst
    ++ (0 ∷ 17 ∷ [])
    ++ net16 length
    ++ net16 src_port
    ++ net16 dst_port
    ++ net16 length
    ++ (checksum % 256 ∷ checksum / 256 % 256 ∷ [])

unfoldable pub packet_internet_checksum_udp : List ℕ → List ℕ → ℕ → ℕ → List ℕ → ℕ → Option ℕ
packet_internet_checksum_udp src dst src_port dst_port bytes checksum = do
  let acc =
      add_words (add_words 0 (udp_phdr src dst src_port dst_port (8 + length bytes) checksum)) bytes
  folded ← fold (acc + 1) acc
  some (65535 - folded)
