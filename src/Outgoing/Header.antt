-- ===== src/Outgoing/Header.antt =====
-- The header of a message: the setters of n-dhcp4-outgoing.c, and its userdata.
use n_dhcp.Base.{
  ℕ, ◌+◌, ◌/◌, ◌%◌, ◌≤◌, ◌<◌, ◌≡◌, ◌⊎◌, ◌∙◌, Option, some, List, arith, length, le→leb,
}
use n_dhcp.Protocol.{header_size, bytes32, be16, be32}
use n_dhcp.Memory.{write, written}
use n_dhcp.Outgoing.{Outgoing}
use n_dhcp.Outgoing.Setters.{set_header, set_xid, get_xid}
use n_dhcp.Outgoing.Valid.{Valid, Place, in_options, in_file, in_sname, has_magic_kept}
use n_dhcp.Outgoing.Carries.{Item, Carries}

abbrev pub with_header : Outgoing → ℕ → List ℕ → Outgoing
with_header o at value = record o { message = written o.message at value }

pub behind :
    (o : Outgoing) (at : ℕ) (value : List ℕ) (j : ℕ)
    → at + length value ≤ j
    → (with_header o at value).message.byte j ≡ o.message.byte j
behind o at value j h = ground arith

pub set_header-eq :
    (o : Outgoing) (at : ℕ) (value : List ℕ)
    → Valid o
    → at + length value ≤ header_size
    → set_header o at value ≡ some (with_header o at value)
unfolding set_header write
set_header-eq o at value v h =
    rw (le→leb (at + length value) o.message.size (omega (arith, v.size_is, v.at_least)))

place_kept :
    (o : Outgoing) (at : ℕ) (value : List ℕ)
    → at + length value ≤ header_size
    → Place o
    → Place (with_header o at value)
place_kept o at value h (in_options a b) = in_options a b
place_kept o at value h (in_file a b c d) =
    in_file a b c (λ s. behind o at value 44 (omega arith) ∙ d s)
place_kept o at value h (in_sname a b c) = in_sname a b c

iterator_behind : (o : Outgoing) → Place o → header_size ≤ o.i_message
iterator_behind o (in_options a b) = omega arith
iterator_behind o (in_file a b c d) = omega arith
iterator_behind o (in_sname a b c) = omega arith

pub with_header-Valid :
    (o : Outgoing) (at : ℕ) (value : List ℕ)
    → Valid o
    → at + length value ≤ header_size
    → Valid (with_header o at value)
with_header-Valid o at value v h = record {
  size_is = v.size_is;
  at_least = v.at_least;
  at_most = v.at_most;
  no_wrap = v.no_wrap;
  two_bits = v.two_bits;
  place = place_kept o at value h v.place;
  end_marked =
      behind o at value o.i_message (omega (arith, iterator_behind o v.place)) ∙ v.end_marked;
  magic_set =
      has_magic_kept o.message (with_header o at value).message
        (λ j a b. behind o at value j (omega arith)) v.magic_set;
}

pub be32-bytes32 :
    (n : ℕ)
    → n < 4294967296
    → be32 (n / 16777216 % 256) (n / 65536 % 256) (n / 256 % 256) (n % 256) ≡ n
be32-bytes32 n h = omega arith

-- A setter succeeds on a message, keeps it valid with its options, and changes no byte but the n
-- ones from an offset on.
abbrev pub Sets : Outgoing → List Item → ℕ → ℕ → Option Outgoing → (Outgoing → Type 0) → Type 0
Sets o xs at n run P =
    (o' : Outgoing) × (run ≡ some o')
    × Valid o'
    × Carries o' xs
    × P o'
    × ((j : ℕ) → (j < at) ⊎ (at + n ≤ j) → o'.message.byte j ≡ o.message.byte j)

-- The fields of the header, at their offsets in RFC 2131, in network order.
abbrev pub secs_at : Outgoing → ℕ
secs_at o = be16 (o.message.byte 8) (o.message.byte 9)

abbrev pub yiaddr_at : Outgoing → ℕ
yiaddr_at o = be32 (o.message.byte 16) (o.message.byte 17) (o.message.byte 18) (o.message.byte 19)

abbrev pub xid_at : Outgoing → ℕ
xid_at o = be32 (o.message.byte 4) (o.message.byte 5) (o.message.byte 6) (o.message.byte 7)

-- The transaction id that is set is the one that is read.
pub set_xid-get_xid :
    (o : Outgoing) (xid : ℕ)
    → Valid o
    → xid < 4294967296
    → (o' : Outgoing) × (set_xid o xid ≡ some o') × Valid o' × (get_xid o' ≡ xid)
unfolding set_xid get_xid
set_xid-get_xid o xid v h = (
  with_header o 4 (bytes32 xid),
  set_header-eq o 4 (bytes32 xid) v (omega arith),
  with_header-Valid o 4 (bytes32 xid) v (omega arith),
  be32-bytes32 xid h,
)

-- The fields of `userdata`, which no function of n-dhcp4-outgoing.c reads.
abbrev pub with_userdata : Outgoing → ℕ → ℕ → ℕ → ℕ → ℕ → ℕ → ℕ → ℕ → ℕ → Outgoing
with_userdata o type message_type client_addr server_id start_time base_time send_time send_jitter
      n_send =
    record o {
      type = type;
      message_type = message_type;
      client_addr = client_addr;
      server_id = server_id;
      start_time = start_time;
      base_time = base_time;
      send_time = send_time;
      send_jitter = send_jitter;
      n_send = n_send;
    }

userdata-Place :
    (o : Outgoing) (a b c d e f g h i : ℕ) → Place o → Place (with_userdata o a b c d e f g h i)
userdata-Place o a b c d e f g h i (in_options x y) = in_options x y
userdata-Place o a b c d e f g h i (in_file x y z w) = in_file x y z w
userdata-Place o a b c d e f g h i (in_sname x y z) = in_sname x y z

pub userdata-Valid :
    (o : Outgoing) (a b c d e f g h i : ℕ) → Valid o → Valid (with_userdata o a b c d e f g h i)
userdata-Valid o a b c d e f g h i v = record {
  size_is = v.size_is;
  at_least = v.at_least;
  at_most = v.at_most;
  no_wrap = v.no_wrap;
  two_bits = v.two_bits;
  place = userdata-Place o a b c d e f g h i v.place;
  end_marked = v.end_marked;
  magic_set = v.magic_set;
}
