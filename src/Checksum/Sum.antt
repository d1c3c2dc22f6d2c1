-- ===== src/Checksum/Sum.antt =====
-- The checksum against the sum of the 16-bit words of the data.
use n_dhcp.Base.{
  ℕ, zero, suc, ◌+◌, ◌-◌, ◌*◌, ◌/◌, ◌%◌, ◌^◌, ◌≤◌, ◌<◌, ◌≡◌, refl, ap, ◌∙◌, some, List, [], ◌∷◌,
  arith, ◌==◌, length, AreBytes, Bool-cases, inl, inr, ==→eq, ==→ne,
}
use n_dhcp.Checksum.{
  le32, add_words, fold, udp_phdr, packet_internet_checksum, packet_internet_checksum_udp,
}

-- The sum of the 16-bit words, the last one padded with a zero.
abbrev pub sum16 : List ℕ → ℕ
sum16 [] = 0
sum16 (a ∷ []) = a
sum16 (a ∷ b ∷ xs) = a + 256 * b + sum16 xs

add_words-lem :
    (acc : ℕ) (xs : List ℕ)
    → AreBytes xs
    → acc + length xs * 4294967296 < 18446744073709551616
    → add_words acc xs % 65535 ≡ (acc + sum16 xs) % 65535
unfolding add_words
add_words-lem acc [] p h = omega arith
add_words-lem acc (a ∷ []) p h = omega (arith, p.0)
add_words-lem acc (a ∷ b ∷ []) p h = omega (arith, p.0, p.1.0)
add_words-lem acc (a ∷ b ∷ c ∷ []) p h = omega (arith, p.0, p.1.0, p.1.1.0)
add_words-lem acc (a ∷ b ∷ c ∷ d ∷ xs) p h =
    let a8 = p.0 in
    let b8 = p.1.0 in
    let c8 = p.1.1.0 in
    let d8 = p.1.1.1.0 in
    let e : (acc + le32 a b c d) % 2 ^ 64 ≡ acc + le32 a b c d = omega arith in
    rw e (add_words-lem (acc + le32 a b c d) xs p.1.1.1.1 (omega arith) ∙ omega arith)

-- The loop ends, and keeps the sum modulo 2^16 - 1, and a sum that is not 0.
pub fold-lem :
    (f acc : ℕ)
    → acc < f
    → (r : ℕ) × (fold f acc ≡ some r) × (r < 65536) × (r % 65535 ≡ acc % 65535) × (0 < acc → 0 < r)
unfolding fold
fold-lem zero acc h = absurd (omega arith)
fold-lem (suc f) acc h = elim (Bool-cases (acc / 65536 == 0)) [
  | inl z ↦ let q = ==→eq (acc / 65536) 0 z in (acc, rw z refl, omega arith, refl, λ p. p)
  | inr n ↦
      let q = ==→ne (acc / 65536) 0 n in
      let ih = fold-lem f (acc % 65536 + acc / 65536) (omega (arith, q)) in
      (ih.0, rw n ih.1, ih.2, ih.3 ∙ omega arith, λ p. ih.4 (omega (arith, q)))
]

pub add_words_pos :
    (acc : ℕ) (xs : List ℕ)
    → AreBytes xs
    → acc + length xs * 4294967296 < 18446744073709551616
    → 0 < acc + sum16 xs
    → 0 < add_words acc xs
unfolding add_words
add_words_pos acc [] p h q = omega arith
add_words_pos acc (a ∷ []) p h q = omega (arith, p.0)
add_words_pos acc (a ∷ b ∷ []) p h q = omega (arith, p.0, p.1.0)
add_words_pos acc (a ∷ b ∷ c ∷ []) p h q = omega (arith, p.0, p.1.0, p.1.1.0)
add_words_pos acc (a ∷ b ∷ c ∷ d ∷ xs) p h q =
    let a8 = p.0 in
    let b8 = p.1.0 in
    let c8 = p.1.1.0 in
    let d8 = p.1.1.1.0 in
    let e : (acc + le32 a b c d) % 2 ^ 64 ≡ acc + le32 a b c d = omega arith in
    rw e (add_words_pos (acc + le32 a b c d) xs p.1.1.1.1 (omega arith) (omega arith))

complement : (r s : ℕ) → r < 65536 → r % 65535 ≡ s % 65535 → (65535 - r + s) % 65535 ≡ 0
complement r s h e = omega arith

drop_zero : (n : ℕ) → (0 + n) % 65535 ≡ n % 65535
drop_zero n = omega arith

-- The checksum of up to 2^31 bytes is computed, has 16 bits, and is the complement of the sum of
-- the 16-bit words modulo 2^16 - 1: together they are 0.
pub packet_internet_checksum-lem :
    (bytes : List ℕ)
    → AreBytes bytes
    → length bytes ≤ 2147483648
    → (c : ℕ) × (packet_internet_checksum bytes ≡ some c)
      × (c < 65536)
      × ((c + sum16 bytes) % 65535 ≡ 0)
unfolding packet_internet_checksum
packet_internet_checksum-lem xs p h =
    let w = add_words-lem 0 xs p (omega arith) in
    let r = fold-lem (add_words 0 xs + 1) (add_words 0 xs) (omega arith) in
    (
      65535 - r.0,
      rw r.1 refl,
      omega arith,
      complement r.0 (sum16 xs) r.2 (r.3 ∙ w ∙ drop_zero (sum16 xs)),
    )

add_words_le :
    (acc : ℕ) (xs : List ℕ) → AreBytes xs → add_words acc xs ≤ acc + length xs * 4294967296
unfolding add_words
add_words_le acc [] p = omega arith
add_words_le acc (a ∷ []) p = omega (arith, p.0)
add_words_le acc (a ∷ b ∷ []) p = omega (arith, p.0, p.1.0)
add_words_le acc (a ∷ b ∷ c ∷ []) p = omega (arith, p.0, p.1.0, p.1.1.0)
add_words_le acc (a ∷ b ∷ c ∷ d ∷ xs) p =
    let a8 = p.0 in
    let b8 = p.1.0 in
    let c8 = p.1.1.0 in
    let d8 = p.1.1.1.0 in omega (arith, add_words_le ((acc + le32 a b c d) % 2 ^ 64) xs p.1.1.1.1)

add_mod : (a b c : ℕ) → a % 65535 ≡ (0 + b) % 65535 → (a + c) % 65535 ≡ (b + c) % 65535
add_mod a b c e = omega arith

-- If the pseudo header is 20 bytes, the checksum of an UDP packet of up to 65507 bytes is computed,
-- has 16 bits, and is the complement, modulo 2^16 - 1, of the sum of the 16-bit words of the pseudo
-- header and of the data.
pub packet_internet_checksum_udp-lem :
    (src dst : List ℕ) (src_port dst_port : ℕ) (bytes : List ℕ) (checksum : ℕ)
    → AreBytes (udp_phdr src dst src_port dst_port (8 + length bytes) checksum)
    → length (udp_phdr src dst src_port dst_port (8 + length bytes) checksum) ≡ 20
    → AreBytes bytes
    → length bytes ≤ 65507
    → (c : ℕ) × (packet_internet_checksum_udp src dst src_port dst_port bytes checksum ≡ some c)
      × (c < 65536)
      × ((c
              + (sum16 (udp_phdr src dst src_port dst_port (8 + length bytes) checksum)
                  + sum16 bytes))
            % 65535
          ≡ 0)
unfolding packet_internet_checksum_udp
packet_internet_checksum_udp-lem src dst src_port dst_port xs checksum ph n p h =
    let hdr = udp_phdr src dst src_port dst_port (8 + length xs) checksum in
    let le = add_words_le 0 hdr ph in
    let v = add_words-lem 0 hdr ph (omega arith) in
    let w = add_words-lem (add_words 0 hdr) xs p (omega arith) in
    let r =
      fold-lem (add_words (add_words 0 hdr) xs + 1) (add_words (add_words 0 hdr) xs)
        (omega arith) in
    (
      65535 - r.0,
      rw r.1 refl,
      omega arith,
      complement r.0 (sum16 hdr + sum16 xs) r.2
          (r.3 ∙ w ∙ add_mod (add_words 0 hdr) (sum16 hdr) (sum16 xs) v),
    )

-- A sum that is a multiple of 2^16 - 1 and not 0 has the checksum 0.
pub full : (r : ℕ) → r < 65536 → r % 65535 ≡ 0 → 0 < r → 65535 - r ≡ 0
full r h e p = omega arith

pub checksum_zero :
    (xs : List ℕ)
    → AreBytes xs
    → length xs ≤ 2147483648
    → sum16 xs % 65535 ≡ 0
    → 0 < sum16 xs
    → packet_internet_checksum xs ≡ some 0
unfolding packet_internet_checksum
checksum_zero xs p h e pos =
    let w = add_words-lem 0 xs p (omega arith) in
    let v = add_words_pos 0 xs p (omega arith) (omega arith) in
    let r = fold-lem (add_words 0 xs + 1) (add_words 0 xs) (omega arith) in
    rw r.1 (ap some (full r.0 r.2 (r.3 ∙ w ∙ drop_zero (sum16 xs) ∙ e) (r.4 v)))

pub checksum_udp_zero :
    (src dst : List ℕ) (src_port dst_port : ℕ) (bytes : List ℕ) (checksum : ℕ)
    → AreBytes (udp_phdr src dst src_port dst_port (8 + length bytes) checksum)
    → length (udp_phdr src dst src_port dst_port (8 + length bytes) checksum) ≡ 20
    → AreBytes bytes
    → length bytes ≤ 65507
    → (sum16 (udp_phdr src dst src_port dst_port (8 + length bytes) checksum) + sum16 bytes) % 65535
      ≡ 0
    → 0 < sum16 (udp_phdr src dst src_port dst_port (8 + length bytes) checksum)
    → packet_internet_checksum_udp src dst src_port dst_port bytes checksum ≡ some 0
unfolding packet_internet_checksum_udp
checksum_udp_zero src dst src_port dst_port xs checksum ph n p h e pos =
    let hdr = udp_phdr src dst src_port dst_port (8 + length xs) checksum in
    let le = add_words_le 0 hdr ph in
    let v = add_words-lem 0 hdr ph (omega arith) in
    let w = add_words-lem (add_words 0 hdr) xs p (omega arith) in
    let a = add_words_pos 0 hdr ph (omega arith) (omega arith) in
    let b = add_words_pos (add_words 0 hdr) xs p (omega arith) (omega arith) in
    let r =
      fold-lem (add_words (add_words 0 hdr) xs + 1) (add_words (add_words 0 hdr) xs)
        (omega arith) in
    rw r.1 (
      ap some
        (full r.0 r.2 (r.3 ∙ w ∙ add_mod (add_words 0 hdr) (sum16 hdr) (sum16 xs) v ∙ e) (r.4 b)))
