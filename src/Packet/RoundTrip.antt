-- ===== src/Packet/RoundTrip.antt =====
-- A packet of packet_sendto_udp that packet_recvfrom_udp receives.
use n_dhcp.Base.{
  ℕ, ◌+◌, ◌*◌, ◌/◌, ◌%◌, ◌≤◌, ◌<◌, ◌≡◌, refl, sym, ap, ◌∙◌, Bool, true, false, Option, none, some,
  List, [], ◌∷◌, ◌++◌, leb, ◌==◌, length, arith, AreBytes, ==_refl, Bool-cases, inl, inr, le→leb,
  leb→le, ne→==, le→ltb,
}
use n_dhcp.Protocol.{ok}
use n_dhcp.Incoming.{Incoming}
use n_dhcp.Incoming.Accept
use n_dhcp.Incoming.Accept.{well_formed}
use n_dhcp.Incoming.Refine.{Parsed}
use n_dhcp.Checksum.{udp_phdr, packet_internet_checksum, packet_internet_checksum_udp}
use n_dhcp.Checksum.Sum.{
  sum16, packet_internet_checksum-lem, packet_internet_checksum_udp-lem, checksum_zero,
  checksum_udp_zero,
}
use n_dhcp.Packet.{
  native16_at, ip_header, udp_header, or_ones, packet_datagram, ip_fails, udp_fails,
  computes_checksum, received, packet_recvfrom_udp, packet_sendto_udp, socket_packet_send, sent,
  socket_packet_recv,
}
use n_dhcp.Packet.Words.{take_all, recvfrom_accepts}

-- An IPv4 address is four bytes.
abbrev pub address : ℕ → ℕ → ℕ → ℕ → List ℕ
address a b c d = a ∷ b ∷ c ∷ d ∷ []

or_ones-lem :
    (c s : ℕ)
    → c < 65536
    → (c + s) % 65535 ≡ 0
    → ((or_ones c + s) % 65535 ≡ 0) × (or_ones c < 65536)
or_ones-lem c s h e = ground arith

well_formed-le : (buf : List ℕ) → well_formed buf ≡ true → 240 ≤ length buf
unfolding well_formed
well_formed-le buf h = elim (Bool-cases (leb 240 (length buf))) [
  | inl e ↦ leb→le 240 (length buf) e
  | inr e ↦ absurd (ground (arith, e, h))
]

module _ (s₀ s₁ s₂ s₃ d₀ d₁ d₂ d₃ src_port dst_port : ℕ) (buf : List ℕ)
    (src : AreBytes (address s₀ s₁ s₂ s₃)) (dst : AreBytes (address d₀ d₁ d₂ d₃))
    (sp : src_port < 65536) (dp : dst_port < 65536) (bytes : AreBytes buf)
    (small : length buf ≤ 65507) where
  abbrev from : List ℕ
  from = address s₀ s₁ s₂ s₃

  abbrev to : List ℕ
  to = address d₀ d₁ d₂ d₃

  byte_of : (n : ℕ) → n % 256 < 256
  byte_of n = omega arith

  header-AreBytes : (c : ℕ) → c < 65536 → AreBytes (ip_header from to (length buf) c)
  header-AreBytes c h = omega arith

  phdr-AreBytes :
      (c : ℕ) → c < 65536 → AreBytes (udp_phdr from to src_port dst_port (8 + length buf) c)
  phdr-AreBytes c h = omega arith

  sum_header :
      (c : ℕ)
      → c < 65536
      → sum16 (ip_header from to (length buf) c) ≡ c + sum16 (ip_header from to (length buf) 0)
  sum_header c h = omega arith

  sum_phdr :
      (c : ℕ)
      → c < 65536
      → sum16 (udp_phdr from to src_port dst_port (8 + length buf) c)
        ≡ c + sum16 (udp_phdr from to src_port dst_port (8 + length buf) 0)
  sum_phdr c h = omega arith

  abbrev datagram : ℕ → ℕ → List ℕ
  datagram c₁ c₂ =
      ip_header from to (length buf) c₁ ++ (udp_header src_port dst_port (length buf) c₂ ++ buf)

  module _ (c₁ c₂ : ℕ) (h₁ : c₁ < 65536) (h₂ : c₂ < 65536)
      (z₁ : (c₁ + sum16 (ip_header from to (length buf) 0)) % 65535 ≡ 0)
      (z₂ : (c₂ + (sum16 (udp_phdr from to src_port dst_port (8 + length buf) 0) + sum16 buf))
          % 65535
        ≡ 0) where
    ip_zero : packet_internet_checksum (ip_header from to (length buf) c₁) ≡ some 0
    ip_zero =
        checksum_zero (ip_header from to (length buf) c₁) (header-AreBytes c₁ h₁) (omega arith)
          (ap (λ n. n % 65535) (sum_header c₁ h₁) ∙ z₁) (omega arith)

    ip_holds : (b : Bool) → ip_fails b (datagram c₁ c₂) 20 ≡ some false
    ip_holds true = rw ip_zero refl
    ip_holds false = refl

    native : native16_at (datagram c₁ c₂) (20 + 6) ≡ c₂
    native = omega arith

    port_of : (i p : ℕ) → p < 65536 → p / 256 % 256 * 256 + p % 256 ≡ p
    port_of i p h = omega arith

    udp_zero : packet_internet_checksum_udp from to src_port dst_port buf c₂ ≡ some 0
    udp_zero =
        checksum_udp_zero from to src_port dst_port buf c₂ (phdr-AreBytes c₂ h₂) refl bytes small
          (ap (λ n. (n + sum16 buf) % 65535) (sum_phdr c₂ h₂) ∙ assoc c₂ _ (sum16 buf) z₂)
          (omega arith)
      where
        assoc : (a b c : ℕ) → (a + (b + c)) % 65535 ≡ 0 → (a + b + c) % 65535 ≡ 0
        assoc a b c e = omega arith

    module _ (n_buf : ℕ) (fits : length buf ≤ n_buf) where
      udp_holds : (b : Bool) → udp_fails b (datagram c₁ c₂) 20 n_buf (length buf) ≡ some false
      udp_holds false = refl
      udp_holds true = elim (Bool-cases (native16_at (datagram c₁ c₂) (20 + 6) == 0)) [
        | inl z ↦ rw z refl
        | inr nz ↦
            rw
              (
                nz,
                le→leb (length buf) n_buf fits,
                take_all (length buf) buf (omega arith),
                native,
                port_of 0 src_port sp,
                port_of 0 dst_port dp,
                udp_zero,
              )
              refl
      ]

      receives :
          (aux : Option Bool)
          → packet_recvfrom_udp none none (datagram c₁ c₂) aux n_buf
            ≡ some (
                received (record {
                  n_transmitted = length buf;
                  address = from;
                  port = src_port;
                  bytes = buf;
                }))
      receives aux =
          recvfrom_accepts (datagram c₁ c₂) (length buf) n_buf (omega arith) (omega arith) fits refl
            refl (omega arith) refl refl (omega arith) aux (ip_holds (computes_checksum aux))
            (udp_holds (computes_checksum aux))
          ∙ rw (port_of 0 src_port sp, take_all n_buf buf fits) refl

  -- A payload of up to 65507 bytes that packet_sendto_udp sends is what packet_recvfrom_udp receives
  -- into a buffer that is large enough, with the address and the port of its sender, whether or not
  -- the kernel marks the checksum as not ready; the headers are 28 bytes.
  pub sendto-recvfrom :
      (n_buf : ℕ) (aux : Option Bool)
      → length buf ≤ n_buf
      → (d : List ℕ) × (packet_datagram from to src_port dst_port buf ≡ some d)
        × (length d ≡ 20 + 8 + length buf)
        × (packet_recvfrom_udp none none d aux n_buf
            ≡ some (
                received (record {
                  n_transmitted = length buf;
                  address = from;
                  port = src_port;
                  bytes = buf;
                })))
  unfolding packet_datagram
  sendto-recvfrom n_buf aux fits =
      let ip =
        packet_internet_checksum-lem (ip_header from to (length buf) 0)
          (header-AreBytes 0 (omega arith)) (omega arith) in
      let udp =
        packet_internet_checksum_udp-lem from to src_port dst_port buf 0
          (phdr-AreBytes 0 (omega arith)) refl bytes small in
      let o = or_ones-lem udp.0 _ udp.2 udp.3 in
      (
        datagram ip.0 (or_ones udp.0),
        rw (ip.1, udp.1) refl,
        omega arith,
        receives ip.0 (or_ones udp.0) ip.2 o.1 ip.3 o.0 n_buf fits aux,
      )

  -- A well-formed message of up to 65507 bytes that is sent to a hardware address of up to 32 bytes,
  -- by a kernel that takes all of it, is sent with success, and the receiver, if its buffer is large
  -- enough and it finds memory, parses that message.
  pub send-recv :
      (halen n_buf : ℕ) (aux : Option Bool)
      → halen ≤ 32
      → length buf ≤ n_buf
      → well_formed buf ≡ true
      → (socket_packet_send (λ d. sent (length d)) halen from to src_port dst_port buf ≡ some none)
        × ((d : List ℕ) × (packet_datagram from to src_port dst_port buf ≡ some d)
            × ((i : Incoming) × (socket_packet_recv true none none d aux n_buf ≡ some (ok i))
                × Parsed buf i))
  unfolding socket_packet_send socket_packet_recv packet_sendto_udp
  send-recv halen n_buf aux h fits good =
      let r = sendto-recvfrom n_buf aux fits in
      let long : 240 ≤ length buf = well_formed-le buf good in
      elim (Accept.new-total buf) [
        | inl bad ↦ absurd (ground (arith, sym bad.0 ∙ good))
        | inr parsed ↦ (
          rw (le→leb halen 32 h, r.1)
              (rw
                (
                  le→leb (20 + 8 + length buf) (length r.0) (omega (arith, r.2)),
                  ==_refl (length buf),
                )
                refl),
          (
            r.0,
            r.1,
            (
              parsed.1.0,
              rw r.3 (
                  rw
                    (
                      ne→== (length buf) 0 (omega (arith, long)),
                      le→ltb 65535 (length buf) (omega arith),
                      take_all (length buf) buf (omega arith),
                    )
                    parsed.1.1),
              parsed.1.2,
            ),
          ),
        )
      ]
