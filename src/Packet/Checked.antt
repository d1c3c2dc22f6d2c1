-- ===== src/Packet/Checked.antt =====
-- packet_recvfrom_udp on any datagram.
use n_dhcp.Base.{
  ℕ, zero, suc, ◌+◌, ◌-◌, ◌*◌, ◌/◌, ◌%◌, ◌^◌, ◌≤◌, ◌<◌, ◌≡◌, refl, Bool, true, false, ◌&&◌, not,
  Option, none, some, List, [], ◌∷◌, ltb, ◌==◌, if◌then◌else◌, length, take, arith, Bool-cases, inl,
  inr, ltb→le, le→leb, lt→leb, le→ltb, ne→==, ◌≢◌, AreBytes, get_or-AreBytes,
}
use n_dhcp.Checksum.{add_words, udp_phdr, packet_internet_checksum, packet_internet_checksum_udp}
use n_dhcp.Checksum.Sum.{fold-lem}
use n_dhcp.Packet.{
  Errno, Reception, failed, discarded, received, drop, byte, net16_at, native16_at, copied,
  ip_fails, udp_fails, accepted, computes_checksum, unless_error, packet_recvfrom_udp, check_packet,
}

-- What a caller relies on: the length fits into its buffer, and the buffer has as many bytes of the
-- datagram.
abbrev pub Fits : ℕ → Reception → Type 0
Fits n_buf (failed e) = Unit {0}
Fits n_buf discarded = Unit {0}
Fits n_buf (received r) = (r.n_transmitted ≤ n_buf) × (r.n_transmitted ≤ length r.bytes)

-- A run without a fault, whose result fits.
abbrev pub Returns : ℕ → Option Reception → Type 0
Returns n_buf none = ⊥
Returns n_buf (some r) = Fits n_buf r

pub Returns-some :
    (n_buf : ℕ) (run : Option Reception)
    → Returns n_buf run
    → (r : Reception) × (run ≡ some r) × Fits n_buf r
Returns-some n_buf none h = absurd h
Returns-some n_buf (some r) h = (r, refl, h)

if-Returns :
    (n_buf : ℕ) (b : Bool) (x y : Option Reception)
    → (b ≡ true → Returns n_buf x)
    → (b ≡ false → Returns n_buf y)
    → Returns n_buf (if b then x else y)
if-Returns n_buf true x y f g = f refl
if-Returns n_buf false x y f g = g refl

unless_error-Returns :
    (n_buf : ℕ) (e : Option Errno) (run : Option Reception)
    → Returns n_buf run
    → Returns n_buf (unless_error e run)
unless_error-Returns n_buf none run h = h
unless_error-Returns n_buf (some e) run h = tt

-- The checksums are computed for any data.
checksum_total : (xs : List ℕ) → (c : ℕ) × (packet_internet_checksum xs ≡ some c)
unfolding packet_internet_checksum
checksum_total xs =
    let r = fold-lem (add_words 0 xs + 1) (add_words 0 xs) (omega arith) in
    (65535 - r.0, rw r.1 refl)

checksum_udp_total :
    (src dst : List ℕ) (sp dp : ℕ) (xs : List ℕ) (c : ℕ)
    → (r : ℕ) × (packet_internet_checksum_udp src dst sp dp xs c ≡ some r)
unfolding packet_internet_checksum_udp
checksum_udp_total src dst sp dp xs c =
    let acc = add_words (add_words 0 (udp_phdr src dst sp dp (8 + length xs) c)) xs in
    let r = fold-lem (acc + 1) acc (omega arith) in (65535 - r.0, rw r.1 refl)

ip_fails_total : (b : Bool) (d : List ℕ) (hdrlen : ℕ) → (r : Bool) × (ip_fails b d hdrlen ≡ some r)
ip_fails_total false d hdrlen = (false, refl)
ip_fails_total true d hdrlen =
    let c = checksum_total (take hdrlen d) in (not (c.0 == 0), rw c.1 refl)

udp_fails_total :
    (b : Bool) (d : List ℕ) (hdrlen n_buf size : ℕ)
    → size ≤ n_buf
    → (r : Bool) × (udp_fails b d hdrlen n_buf size ≡ some r)
udp_fails_total b d hdrlen n_buf size h =
    elim (Bool-cases (b && not (native16_at d (hdrlen + 6) == 0))) [
      | inl e ↦
          let c =
            checksum_udp_total (take 4 (drop 12 d)) (take 4 (drop 16 d)) (net16_at d hdrlen)
              (net16_at d (hdrlen + 2)) (take size (drop (hdrlen + 8) d))
              (native16_at d (hdrlen + 6)) in
          (not (c.0 == 0), rw (e, le→leb size n_buf h, c.1) refl)
      | inr e ↦ (false, rw e refl)
    ]

length-drop {ℓ} : {A : Type ℓ} (n : ℕ) (xs : List A) → length (drop n xs) ≡ length xs - n
length-drop zero xs = omega arith
length-drop (suc n) [] = omega arith
length-drop (suc n) (x ∷ xs) = omega (arith, length-drop n xs)

le-length-take {ℓ} :
    {A : Type ℓ} (k n : ℕ) (xs : List A) → k ≤ n → k ≤ length xs → k ≤ length (take n xs)
le-length-take k zero xs h l = h
le-length-take k (suc n) [] h l = l
le-length-take zero (suc n) (x ∷ xs) h l = omega arith
le-length-take (suc k) (suc n) (x ∷ xs) h l =
    omega (arith, le-length-take k n xs (omega arith) (omega arith))

abbrev pub header_length : List ℕ → ℕ
header_length d = byte d 0 % 16 * 4

module _ (d : List ℕ) (hdrlen n_buf size : ℕ) (fits : size ≤ n_buf)
    (there : hdrlen + 8 + size ≤ length d) where
  accepted-Returns : (b : Bool) → Returns n_buf (accepted b d hdrlen n_buf size)
  accepted-Returns b =
      if-Returns n_buf (not (byte d 9 == 17)) _ _ (λ e. tt)
        λ e.
          if-Returns n_buf (not (net16_at d 6 % 2 ^ 14 == 0)) _ _ (λ e. tt)
            λ e.
              let ip = ip_fails_total b d hdrlen in
              let udp = udp_fails_total b d hdrlen n_buf size fits in
              rw (ip.1, udp.1)
                (if-Returns n_buf ip.0 _ _ (λ e. tt)
                  λ e.
                    if-Returns n_buf udp.0 _ _ (λ e. tt)
                      λ e. (
                        fits,
                        le-length-take size n_buf (drop (hdrlen + 8) d) fits
                            (omega (arith, length-drop (hdrlen + 8) d)),
                      ))

module _ (d : List ℕ) (n_buf : ℕ) where
  check_packet-Returns :
      (b : Bool) (hdrlen : ℕ)
      → 8 ≤ net16_at d (hdrlen + 4)
      → net16_at d (hdrlen + 4) < 65536
      → Returns n_buf (check_packet b d hdrlen n_buf)
  unfolding check_packet
  check_packet-Returns b hdrlen h small =
      if-Returns n_buf (ltb (copied d hdrlen n_buf) (net16_at d 2)) _ _ (λ e. tt)
        λ e₁.
          if-Returns n_buf (ltb (net16_at d 2) (hdrlen + 8)) _ _ (λ e. tt)
            λ e₂.
              if-Returns n_buf (ltb (net16_at d 2) (hdrlen + net16_at d (hdrlen + 4))) _ _ (λ e. tt)
                λ e₃.
                  let l₁ = ltb→le _ _ e₁ in
                  let l₃ = ltb→le _ _ e₃ in
                  accepted-Returns d hdrlen n_buf ((net16_at d (hdrlen + 4) + 2 ^ 64 - 8) % 2 ^ 64)
                    (ground arith) (ground arith) b

  -- On a datagram whose UDP header says a length of 8 bytes at least, packet_recvfrom_udp has a
  -- result without a fault, whatever recv and recvmsg return, and the length of a packet that it
  -- receives fits into the buffer, which has as many bytes of the datagram.
  pub recvfrom-Fits :
      (peek_error recv_error : Option Errno) (aux : Option Bool)
      → AreBytes d
      → 8 ≤ net16_at d (header_length d + 4)
      → (r : Reception) × (packet_recvfrom_udp peek_error recv_error d aux n_buf ≡ some r)
        × Fits n_buf r
  unfolding packet_recvfrom_udp
  recvfrom-Fits peek_error recv_error aux p h = Returns-some n_buf _ (
      unless_error-Returns n_buf peek_error _ (
        if-Returns n_buf (ltb (length d) 20) _ _ (λ e. tt)
          λ e.
            if-Returns n_buf (not (byte d 0 / 16 == 4)) _ _ (λ e. tt)
              λ e.
                if-Returns n_buf (ltb (header_length d) 20) _ _ (λ e. tt)
                  λ e. unless_error-Returns n_buf recv_error _ (
                    check_packet-Returns (computes_checksum aux) (header_length d) h (
                      let a = get_or-AreBytes d (header_length d + 4) p in
                      let b = get_or-AreBytes d (header_length d + 4 + 1) p in
                      omega (arith, a, b)))))

  -- On an unfragmented UDP packet whose IP header is right, but whose UDP header says a length of
  -- less than 8 bytes and has a checksum, packet_recvfrom_udp reads outside its buffer, if that is
  -- smaller than 2^64 - 8 bytes and the kernel has computed the checksums.
  pub recvfrom_short :
      20 ≤ length d
      → byte d 0 / 16 ≡ 4
      → 20 ≤ header_length d
      → net16_at d 2 ≤ copied d (header_length d) n_buf
      → header_length d + 8 ≤ net16_at d 2
      → net16_at d (header_length d + 4) < 8
      → byte d 9 ≡ 17
      → net16_at d 6 % 2 ^ 14 ≡ 0
      → packet_internet_checksum (take (header_length d) d) ≡ some 0
      → native16_at d (header_length d + 6) ≢ 0
      → n_buf < 18446744073709551608
      → packet_recvfrom_udp none none d none n_buf ≡ none
  unfolding packet_recvfrom_udp check_packet
  recvfrom_short l v hl tot room short protocol frag ip check small =
      let len = header_length d in
      rw
        (
          le→ltb (length d) 20 l,
          v,
          le→ltb len 20 hl,
          le→ltb (copied d len n_buf) (net16_at d 2) tot,
          le→ltb (net16_at d 2) (len + 8) room,
          le→ltb (net16_at d 2) (len + net16_at d (len + 4)) (omega arith),
          protocol,
          frag,
          ip,
          ne→== (native16_at d (len + 6)) 0 check,
          lt→leb ((net16_at d (len + 4) + 2 ^ 64 - 8) % 2 ^ 64) n_buf (omega arith),
        )
        refl
