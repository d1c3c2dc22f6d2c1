-- ===== src/Server/Replies.antt =====
-- The replies of the server are valid messages.
use n_dhcp.Base.{
  ℕ, ◌+◌, ◌≤◌, ◌<◌, ◌≡◌, refl, subst, inl, inr, Bool, true, false, some, List, [], ◌∷◌, arith, ltb,
  ◌==◌, ◌>>=◌, length, Bool-cases, le→leb, AreBytes, get_or-AreBytes, get_or,
}
use n_dhcp.Protocol.{enomem, unset, Result, ok, ok_inj, err, bytes32, be16, malformed}
use n_dhcp.Protocol.Opt
use n_dhcp.Protocol.Message
use n_dhcp.Memory.{load_bytes, slice, write, calloc}
use n_dhcp.Memory.Laws.{length-slice}
use n_dhcp.Incoming.{Incoming, Slot}
use n_dhcp.Incoming.Query.{and_then, query, query_max_message_size}
use n_dhcp.Incoming.Refine.{Parsed, lookup_option, byte_of, entries_of, query_bytes, bytes_at}
use n_dhcp.Incoming.Scan.{has_code, message_entries}
use n_dhcp.Incoming.Typed.{query-reads, read_u16}
use n_dhcp.Lease.Reads.{contents-AreBytes}
use n_dhcp.Outgoing.{Outgoing, new, blank}
use n_dhcp.Outgoing.Setters.{set_yiaddr}
use n_dhcp.Outgoing.Valid.{fresh, blank-Valid}
use n_dhcp.Outgoing.Overload.{IsPlain}
use n_dhcp.Outgoing.Userdata.{Userdata}
use n_dhcp.Connection.Requests.{append_to}
use n_dhcp.Connection.Build.{
  Gives, GivesOne, Made, append_to-Gives, and_then-Gives, bind-GivesOne, set_header-GivesOne,
}
use n_dhcp.Connection.Made.{request_data, ok-Gives, is_plain}
use n_dhcp.Server.{
  copy_field, init_reply_header, append_client_id, new_reply, t1_for, t2_for, outgoing_set_yiaddr,
  offer_new, ack_new, nak_new,
}

-- A valid message without userdata.
abbrev pub IsReply : Outgoing → Type 0
IsReply o = Made (request_data 0 0) o

copy_field-GivesOne :
    (i : Incoming) (at n : ℕ) (o : Outgoing)
    → at + n ≤ 44
    → 44 ≤ i.message.size
    → IsReply o
    → GivesOne IsReply (copy_field i at n o)
unfolding load_bytes
copy_field-GivesOne i at n o h size m = rw (le→leb (at + n) i.message.size (omega arith)) (
    set_header-GivesOne (request_data 0 0) o at (slice i.message.byte at n) m
      (omega (arith, length-slice i.message.byte at n)))

module _ (i : Incoming) (size : 44 ≤ i.message.size) (hlen : i.message.byte 2 ≤ 16) where
  header-GivesOne : (o : Outgoing) → IsReply o → GivesOne IsReply (init_reply_header i o)
  unfolding init_reply_header
  header-GivesOne o m =
      bind-GivesOne IsReply IsReply _ _
        (set_header-GivesOne (request_data 0 0) o 0 (2 ∷ []) m (omega arith))
        λ o₁ m₁.
          bind-GivesOne IsReply IsReply _ _ (copy_field-GivesOne i 1 1 o₁ (omega arith) size m₁)
            λ o₂ m₂.
              bind-GivesOne IsReply IsReply _ _ (copy_field-GivesOne i 2 1 o₂ (omega arith) size m₂)
                λ o₃ m₃.
                  bind-GivesOne IsReply IsReply _ _
                    (copy_field-GivesOne i 10 2 o₃ (omega arith) size m₃)
                    λ o₄ m₄.
                      bind-GivesOne IsReply IsReply _ _
                        (copy_field-GivesOne i 4 4 o₄ (omega arith) size m₄)
                        λ o₅ m₅.
                          bind-GivesOne IsReply IsReply _ _
                            (copy_field-GivesOne i 12 4 o₅ (omega arith) size m₅)
                            λ o₆ m₆.
                              bind-GivesOne IsReply IsReply _ _
                                (copy_field-GivesOne i 24 4 o₆ (omega arith) size m₆)
                                λ o₇ m₇.
                                  copy_field-GivesOne i 28 (i.message.byte 2) o₇ (omega arith) size
                                    m₇

-- A query for an u16 gives a number below 2^16, or says that the option is missing or too short.
data Size : Result ℕ → Type 0 where
  sized : (n : ℕ) → n < 65536 → Size (ok n)
  unsized : Size (err unset)
  cut : Size (err malformed)

read_u16-Size : (xs : List ℕ) → AreBytes xs → Size (read_u16 (ok xs))
read_u16-Size xs p = elim (Bool-cases (ltb (length xs) 2)) [
  | inl h ↦ rw h cut
  | inr h ↦
      let a = get_or-AreBytes xs 0 p in
      let b = get_or-AreBytes xs 1 p in
      rw h (sized (be16 (get_or xs 0 0) (get_or xs 1 0)) (omega arith))
]

lookup-Size :
    (raw : List ℕ) (option : ℕ) → AreBytes raw → Size (read_u16 (lookup_option raw option))
unfolding lookup_option
lookup-Size raw option bytes =
    let mem = λ (j : ℕ). get_or-AreBytes raw j bytes in
    elim (Bool-cases (option == Opt.overload)) [
      | inl h ↦ rw h (
          read_u16-Size _ (
            contents-AreBytes (byte_of raw) mem Opt.overload
              (message_entries (byte_of raw) (length raw) 0)))
      | inr h ↦ elim (Bool-cases (has_code option (entries_of raw))) [
        | inl k ↦
            rw (h, k)
              (read_u16-Size _ (contents-AreBytes (byte_of raw) mem option (entries_of raw)))
        | inr k ↦ rw (h, k) unsized
      ]
    ]

new-Gives : (allocated : Bool) (n : ℕ) → n < 65536 → Gives IsReply (new allocated n 3)
unfolding new write calloc Gives
new-Gives false n h = (err enomem, refl, λ o e. cc)
new-Gives true n h = (
  ok (blank fresh n 3),
  refl,
  λ o e.
      subst IsReply (ok_inj e)
        (record { valid = blank-Valid n 3 (omega arith) (omega arith); data_are = refl }),
)

plain_type : IsPlain Opt.message_type
plain_type = is_plain Opt.message_type (λ e. omega arith) (λ e. omega arith) (λ e. omega arith)

plain_server : IsPlain Opt.server_identifier
plain_server =
    is_plain Opt.server_identifier (λ e. omega arith) (λ e. omega arith) (λ e. omega arith)

plain_id : IsPlain Opt.client_identifier
plain_id = is_plain Opt.client_identifier (λ e. omega arith) (λ e. omega arith) (λ e. omega arith)

plain_lifetime : IsPlain Opt.ip_address_lease_time
plain_lifetime =
    is_plain Opt.ip_address_lease_time (λ e. omega arith) (λ e. omega arith) (λ e. omega arith)

plain_t1 : IsPlain Opt.renewal_t1_time
plain_t1 = is_plain Opt.renewal_t1_time (λ e. omega arith) (λ e. omega arith) (λ e. omega arith)

plain_t2 : IsPlain Opt.rebinding_t2_time
plain_t2 = is_plain Opt.rebinding_t2_time (λ e. omega arith) (λ e. omega arith) (λ e. omega arith)

abbrev none_yet : Userdata
none_yet = request_data 0 0

-- The OVERLOAD option has a slot in every parsed message, and it stands behind the bytes of the
-- message.
Parsed-size : (raw : List ℕ) (i : Incoming) → Parsed raw i → length raw ≤ i.message.size
unfolding query_bytes lookup_option
Parsed-size raw i p = go (query i Opt.overload) refl (p.answers Opt.overload)
  where
    go :
        (r : Result Slot)
        → query i Opt.overload ≡ r
        → bytes_at i (query i Opt.overload) ≡ lookup_option raw Opt.overload
        → length raw ≤ i.message.size
    go (ok s) e a =
        omega (arith, (p.in_bounds Opt.overload s e).0, (p.in_bounds Opt.overload s e).1)
    go (err x) e a = cc (rw e at a)

module _ (memory : ℕ → Bool) (raw : List ℕ) (i : Incoming) (p : Parsed raw i) (bytes : AreBytes raw)
    (long : 240 ≤ length raw) (short_address : byte_of raw 2 ≤ 16) where
  size : 44 ≤ i.message.size
  size = omega (arith, Parsed-size raw i p)

  hlen : i.message.byte 2 ≤ 16
  hlen = omega (arith, p.raw_kept 2 (omega arith))

  id-Gives :
      (r : Result Slot) (o : Outgoing)
      → query i Opt.client_identifier ≡ r
      → IsReply o
      → Gives IsReply (append_client_id (memory 3) i r o)
  unfolding load_bytes Gives
  id-Gives (err unset) o e m = ok-Gives none_yet o m
  id-Gives (ok s) o e m =
      rw (le→leb (s.value + s.size) i.message.size (p.in_bounds Opt.client_identifier s e).1) (
        append_to-Gives (memory 3) Opt.client_identifier (slice i.message.byte s.value s.size) o
          none_yet plain_id m)
  id-Gives (err x) o e m = (err x, refl, λ o' h. cc)

  sized-Gives :
      (type server_address : ℕ) (r : Result ℕ)
      → Size r
      → Gives IsReply (
          and_then (some r) λ n. and_then (new (memory 0) n 3) λ o. do
            o₁ ← init_reply_header i o
            and_then (append_to (memory 1) Opt.message_type (type ∷ []) o₁) λ o₂.
                and_then
                  (append_to (memory 2) Opt.server_identifier (bytes32 server_address) o₂)
                  λ o₃. append_client_id (memory 3) i (query i Opt.client_identifier) o₃)
  unfolding Gives GivesOne
  sized-Gives type server_address _ unsized = (err unset, refl, λ o h. cc)
  sized-Gives type server_address _ cut = (err malformed, refl, λ o h. cc)
  sized-Gives type server_address _ (sized n h) =
      and_then-Gives IsReply IsReply _ _ (new-Gives (memory 0) n h) λ o m.
        let g = header-GivesOne i size hlen o m in
        rw g.1 (
          and_then-Gives IsReply IsReply _ _
            (append_to-Gives (memory 1) Opt.message_type (type ∷ []) g.0 none_yet plain_type g.2)
            λ o₂ m₂.
              and_then-Gives IsReply IsReply _ _
                (append_to-Gives (memory 2) Opt.server_identifier (bytes32 server_address) o₂
                  none_yet plain_server m₂)
                λ o₃ m₃. id-Gives (query i Opt.client_identifier) o₃ refl m₃)

  new_reply-Gives :
      (type server_address : ℕ) → Gives IsReply (new_reply memory i type server_address)
  unfolding new_reply query_max_message_size
  new_reply-Gives type server_address =
      rw (query-reads raw i p Opt.maximum_message_size).1
        (sized-Gives type server_address _ (lookup-Size raw Opt.maximum_message_size bytes))

  yiaddr-Gives :
      (yiaddr lifetime : ℕ) (o : Outgoing)
      → IsReply o
      → Gives IsReply (outgoing_set_yiaddr memory yiaddr lifetime o)
  unfolding outgoing_set_yiaddr set_yiaddr GivesOne
  yiaddr-Gives yiaddr lifetime o m =
      and_then-Gives IsReply IsReply _ _
        (append_to-Gives (memory 4) Opt.ip_address_lease_time (bytes32 lifetime) o none_yet
          plain_lifetime m)
        λ o₁ m₁.
          and_then-Gives IsReply IsReply _ _
            (append_to-Gives (memory 5) Opt.renewal_t1_time (bytes32 (t1_for lifetime)) o₁ none_yet
              plain_t1 m₁)
            λ o₂ m₂.
              and_then-Gives IsReply IsReply _ _
                (append_to-Gives (memory 6) Opt.rebinding_t2_time (bytes32 (t2_for lifetime)) o₂
                  none_yet plain_t2 m₂)
                λ o₃ m₃.
                  let g = set_header-GivesOne none_yet o₃ 16 (bytes32 yiaddr) m₃ (omega arith) in
                  rw g.1 (ok-Gives none_yet g.0 g.2)

  -- On a parsed message of at least 240 bytes whose header says that the hardware address has at most
  -- 16 bytes, OFFER, ACK and NAK are built without a fault, whatever memory is found: the result is an
  -- error or a valid message.
  pub replies-Gives :
      (server_address client_address lifetime : ℕ)
      → Gives IsReply (offer_new memory i server_address client_address lifetime)
        × Gives IsReply (ack_new memory i server_address client_address lifetime)
        × Gives IsReply (nak_new memory i server_address)
  unfolding offer_new ack_new nak_new
  replies-Gives server_address client_address lifetime = (
    and_then-Gives IsReply IsReply _ _ (new_reply-Gives Message.offer server_address)
        λ o m. yiaddr-Gives client_address lifetime o m,
    and_then-Gives IsReply IsReply _ _ (new_reply-Gives Message.ack server_address)
        λ o m. yiaddr-Gives client_address lifetime o m,
    new_reply-Gives Message.nak server_address,
  )
