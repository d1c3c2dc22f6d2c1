-- ===== src/Checksum/Tests.antt =====
-- Checksums of concrete data.
use n_dhcp.Base.{ℕ, ◌+◌, ◌%◌, ◌<◌, ◌≡◌, refl, some, List, [], ◌∷◌, arith, AreBytes}
use n_dhcp.Checksum.{packet_internet_checksum, packet_internet_checksum_udp, udp_phdr}
use n_dhcp.Checksum.Sum.{sum16, packet_internet_checksum-lem, packet_internet_checksum_udp-lem}

abbrev sample : List ℕ
sample = 1 ∷ 2 ∷ 3 ∷ 4 ∷ 255 ∷ []

sample-AreBytes : AreBytes sample
sample-AreBytes = (omega arith, (omega arith, (omega arith, (omega arith, (omega arith, tt)))))

packet_internet_checksum-lem_example :
    (c : ℕ) × (packet_internet_checksum sample ≡ some c)
    × (c < 65536)
    × ((c + sum16 sample) % 65535 ≡ 0)
packet_internet_checksum-lem_example =
    packet_internet_checksum-lem sample sample-AreBytes (omega arith)

abbrev address : List ℕ
address = 10 ∷ 0 ∷ 0 ∷ 1 ∷ []

abbrev header : List ℕ
header = udp_phdr address address 68 67 13 0

header-AreBytes : AreBytes header
header-AreBytes = (
  omega arith,
  (
    omega arith,
    (
      omega arith,
      (
        omega arith,
        (
          omega arith,
          (
            omega arith,
            (
              omega arith,
              (
                omega arith,
                (
                  omega arith,
                  (
                    omega arith,
                    (
                      omega arith,
                      (
                        omega arith,
                        (
                          omega arith,
                          (
                            omega arith,
                            (
                              omega arith,
                              (
                                omega arith,
                                (omega arith, (omega arith, (omega arith, (omega arith, tt)))),
                              ),
                            ),
                          ),
                        ),
                      ),
                    ),
                  ),
                ),
              ),
            ),
          ),
        ),
      ),
    ),
  ),
)

packet_internet_checksum_udp-lem_example :
    (c : ℕ) × (packet_internet_checksum_udp address address 68 67 sample 0 ≡ some c)
    × (c < 65536)
    × ((c + (sum16 header + sum16 sample)) % 65535 ≡ 0)
packet_internet_checksum_udp-lem_example =
    packet_internet_checksum_udp-lem address address 68 67 sample 0 header-AreBytes refl
      sample-AreBytes (omega arith)
