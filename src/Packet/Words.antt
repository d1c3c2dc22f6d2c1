-- ===== src/Packet/Words.antt =====
-- Lists of bytes and words of datagrams, and a packet that passes all checks of
-- packet_recvfrom_udp.
use n_dhcp.Base.{
  ℕ, zero, suc, ◌+◌, ◌-◌, ◌*◌, ◌/◌, ◌%◌, ◌^◌, ◌≤◌, ◌<◌, ◌≡◌, refl, ap, Bool, false, Option, none,
  some, List, [], ◌∷◌, length, take, arith, le→ltb, le→leb,
}
use n_dhcp.Packet.{
  drop, byte, net16_at, copied, ip_fails, udp_fails, computes_checksum, received,
  packet_recvfrom_udp, check_packet,
}

pub take_all {ℓ} : {A : Type ℓ} (n : ℕ) (xs : List A) → length xs ≤ n → take n xs ≡ xs
take_all zero [] h = refl
take_all zero (x ∷ xs) h = absurd (omega arith)
take_all (suc n) [] h = refl
take_all (suc n) (x ∷ xs) h = ap (λ ys. x ∷ ys) (take_all n xs (omega arith))

pub size_of : (n : ℕ) → n < 65536 → (8 + n + 2 ^ 64 - 8) % 2 ^ 64 ≡ n
size_of n h = omega arith

-- A packet of a header of 20 bytes that is as long as its lengths say.
module _ (d : List ℕ) (n n_buf : ℕ) (h : length d ≡ 28 + n) (small : n < 65508)
    (fits : n ≤ n_buf) where
  pub copied-eq : copied d 20 n_buf ≡ 28 + n
  copied-eq = rw (le→leb (length d) (20 + 8 + n_buf) (omega arith)) h

  module _ (version : byte d 0 / 16 ≡ 4) (ihl : byte d 0 % 16 * 4 ≡ 20)
      (tot_len : net16_at d 2 ≡ 28 + n) (frag_off : net16_at d 6 % 2 ^ 14 ≡ 0)
      (protocol : byte d 9 ≡ 17) (udp_len : net16_at d (20 + 4) ≡ 8 + n) (aux : Option Bool)
      (ip : ip_fails (computes_checksum aux) d 20 ≡ some false)
      (udp : udp_fails (computes_checksum aux) d 20 n_buf n ≡ some false) where
    pub check_packet_accepts :
        check_packet (computes_checksum aux) d 20 n_buf
        ≡ some (
            received (record {
              n_transmitted = n;
              address = take 4 (drop 12 d);
              port = net16_at d 20;
              bytes = take n_buf (drop 28 d);
            }))
    unfolding check_packet
    check_packet_accepts =
        rw
          (
            tot_len,
            udp_len,
            copied-eq,
            le→ltb (28 + n) (28 + n) (omega arith),
            le→ltb (28 + n) (20 + 8) (omega arith),
            le→ltb (28 + n) (20 + (8 + n)) (omega arith),
            size_of n (omega arith),
            protocol,
            frag_off,
            ip,
            udp,
          )
          refl

    pub recvfrom_accepts :
        packet_recvfrom_udp none none d aux n_buf
        ≡ some (
            received (record {
              n_transmitted = n;
              address = take 4 (drop 12 d);
              port = net16_at d 20;
              bytes = take n_buf (drop 28 d);
            }))
    unfolding packet_recvfrom_udp
    recvfrom_accepts = rw (le→ltb (length d) 20 (omega arith), version, ihl) check_packet_accepts
