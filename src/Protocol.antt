-- ===== src/Protocol.antt =====
-- n-dhcp4-private.h and n-dhcp4.h: the numbers of the protocol, the layout of a message, and the
-- codes that functions return.
pub mod Opt
pub mod Message
pub mod Request
use n_dhcp.Base.{ℕ, ◌≡◌, ◌+◌, ◌*◌, ◌/◌, ◌%◌, Bool, List, [], ◌∷◌, ◌==◌}

-- The return codes of this library, and the negative errno codes that it returns.
pub data Error : Type 0 where
  preempted internal invalid_ifindex invalid_transport invalid_address : Error
  invalid_client_id duplicate_option unset : Error
  unexpected no_space malformed dropped down again : Error
  enomem enotrecoverable : Error
  os : ℕ → Error

pub data Result {ℓ} (A : Type ℓ) : Type ℓ where
  ok : A → Result A
  err : Error → Result A

pub ok_inj {ℓ} : {A : Type ℓ} {a b : A} → ok a ≡ ok b → a ≡ b
ok_inj e = cc

-- offsetof(NDhcp4Message, ...), for the packed structure.
abbrev pub header_size : ℕ
header_size = 44

abbrev pub sname_offset : ℕ
sname_offset = 44

abbrev pub sname_size : ℕ
sname_size = 64

abbrev pub file_offset : ℕ
file_offset = 108

abbrev pub file_size : ℕ
file_size = 128

abbrev pub magic_offset : ℕ
magic_offset = 236

abbrev pub magic_size : ℕ
magic_size = 4

abbrev pub options_offset : ℕ
options_offset = 240

abbrev pub uint8_max : ℕ
uint8_max = 255

abbrev pub uint16_max : ℕ
uint16_max = 65535

abbrev pub uint32_max : ℕ
uint32_max = 4294967295

abbrev pub uint64_max : ℕ
uint64_max = 18446744073709551615

-- N_DHCP4_MESSAGE_MAGIC, as its four bytes in network order.
abbrev pub magic : List ℕ
magic = 0x63 ∷ 0x82 ∷ 0x53 ∷ 0x63 ∷ []

-- N_DHCP4_NETWORK_IP_*
abbrev pub ip_maximum_header_size : ℕ
ip_maximum_header_size = 60

abbrev pub ip_minimum_max_size : ℕ
ip_minimum_max_size = 576

-- N_DHCP4_OVERLOAD_FILE and N_DHCP4_OVERLOAD_SNAME, bits 0 and 1.
abbrev pub overloads_file : ℕ → Bool
overloads_file overload = overload % 2 == 1

abbrev pub overloads_sname : ℕ → Bool
overloads_sname overload = overload / 2 % 2 == 1

-- ntohs and ntohl, on the bytes in memory order.
abbrev pub be16 : ℕ → ℕ → ℕ
be16 a b = a * 256 + b

abbrev pub be32 : ℕ → ℕ → ℕ → ℕ → ℕ
be32 a b c d = ((a * 256 + b) * 256 + c) * 256 + d

-- htons and htonl.
abbrev pub bytes16 : ℕ → List ℕ
bytes16 n = (n / 256 % 256) ∷ (n % 256) ∷ []

abbrev pub bytes32 : ℕ → List ℕ
bytes32 n = (n / 16777216 % 256) ∷ (n / 65536 % 256) ∷ (n / 256 % 256) ∷ (n % 256) ∷ []
