-- ===== src/Connection/Verify.antt =====
-- Which replies n_dhcp4_c_connection_verify_incoming accepts.
use n_dhcp.Base.{
  ℕ, ◌+◌, ◌≡◌, ◌⊎◌, inl, inr, refl, subst, sym, ap, ap₂, ◌∙◌, Bool, true, false, ◌&&◌, Option, none,
  some, List, [], ◌∷◌, ◌==◌, length, Bool-cases, ==→eq, le→leb,
}
use mathlib.Core.Bool.{false≢true}
use n_dhcp.Protocol.{Result, ok, ok_inj, err, unset, malformed, unexpected}
use n_dhcp.Protocol.Opt
use n_dhcp.Protocol.Message
use n_dhcp.Memory.{slice, load_bytes}
use n_dhcp.Incoming.{Incoming, Slot}
use n_dhcp.Incoming.Query
use n_dhcp.Incoming.Query.{and_then, query, query_message_type, slot_result}
use n_dhcp.Incoming.Refine.{Parsed, lookup_option, query_bytes}
use n_dhcp.Incoming.Typed.{query-reads, read_u8, Answer, value, missing, short, lookup-Answer}
use n_dhcp.Outgoing.{Outgoing}
use n_dhcp.Outgoing.Setters
use n_dhcp.Connection.{Connection, ClientConfig, Transport, ethernet, infiniband, unknown}
use n_dhcp.Connection.Io.{
  same_bytes, matches_request, verify_type, verify_address, verify_client_id, or_malformed,
  verify_rest, verify_incoming,
}

-- The client of the library sets the length of the hardware address.
abbrev pub IsConfig : ClientConfig → Type 0
IsConfig config = config.transport ≡ ethernet → config.n_mac ≡ 6

same_bytes→eq : (xs ys : List ℕ) → same_bytes xs ys ≡ true → xs ≡ ys
same_bytes→eq [] [] h = refl
same_bytes→eq [] (y ∷ ys) h = cc
same_bytes→eq (x ∷ xs) [] h = cc
same_bytes→eq (x ∷ xs) (y ∷ ys) h = elim (Bool-cases (x == y)) [
  | inl e ↦ ap₂ ◌∷◌ (==→eq x y e) (same_bytes→eq xs ys (rw e at h))
  | inr e ↦ cc (rw e at h)
]

-- The reply is one to the pending request.
abbrev pub Answers : Connection → Incoming → Type 0
Answers c i = (o : Outgoing) × (c.request ≡ some o) × (Query.get_xid i ≡ Setters.get_xid o)

abbrev pub AddressMatches : ClientConfig → Transport → Incoming → Type 0
AddressMatches config ethernet i =
    (i.message.byte 2 ≡ 6) × (slice i.message.byte 28 6 ≡ slice config.mac 0 6)
AddressMatches config infiniband i = i.message.byte 2 ≡ 0
AddressMatches config unknown i = Unit

-- What a reply that is accepted with this message type has.
pub record Accepted (c : Connection) (raw : List ℕ) (i : Incoming) (type : ℕ) : Type 0 where
  pub type_is : read_u8 (lookup_option raw Opt.message_type) ≡ ok type
  pub pending :
      (type ≡ Message.forcerenew)
      ⊎ (((type ≡ Message.offer) ⊎ ((type ≡ Message.ack) ⊎ (type ≡ Message.nak))) × Answers c i)
  pub address : AddressMatches c.client_config c.client_config.transport i
  pub client_id :
      (lookup_option raw Opt.client_identifier ≡ err unset)
      ⊎ (lookup_option raw Opt.client_identifier ≡ ok c.client_config.client_id)

matches-Answers :
    (c : Connection) (i : Incoming) (request : Option Outgoing)
    → c.request ≡ request
    → matches_request request (Query.get_xid i) ≡ true
    → Answers c i
matches-Answers c i none e h = cc
matches-Answers c i (some o) e h = (o, e, ==→eq (Query.get_xid i) (Setters.get_xid o) h)

verify_type-pending :
    (c : Connection) (i : Incoming) (type : ℕ)
    → verify_type c i type ≡ true
    → (type ≡ Message.forcerenew)
      ⊎ (((type ≡ Message.offer) ⊎ ((type ≡ Message.ack) ⊎ (type ≡ Message.nak))) × Answers c i)
verify_type-pending c i type h = elim (Bool-cases (type == Message.offer)) [
  | inl e ↦ inr (inl (==→eq type Message.offer e), matches-Answers c i c.request refl (rw e at h))
  | inr n ↦ elim (Bool-cases (type == Message.ack)) [
    | inl e ↦
        inr (
          inr (inl (==→eq type Message.ack e)),
          matches-Answers c i c.request refl (rw (n, e) at h),
        )
    | inr n' ↦ elim (Bool-cases (type == Message.nak)) [
      | inl e ↦ inr (
        inr (inr (==→eq type Message.nak e)),
        matches-Answers c i c.request refl (rw (n, n', e) at h),
      )
      | inr n'' ↦ inl (==→eq type Message.forcerenew (rw (n, n', n'') at h))
    ]
  ]
]

verify_address-lem :
    (config : ClientConfig) (t : Transport) (i : Incoming)
    → (t ≡ ethernet → config.n_mac ≡ 6)
    → (b : Bool) × (verify_address config t i ≡ some b) × (b ≡ true → AddressMatches config t i)
verify_address-lem config ethernet i conf = (
  i.message.byte 2 == 6 && same_bytes (slice i.message.byte 28 6) (slice config.mac 0 6),
  rw (conf refl) refl,
  λ h. both h,
)
  where
    both :
        (i.message.byte 2 == 6 && same_bytes (slice i.message.byte 28 6) (slice config.mac 0 6))
          ≡ true
        → AddressMatches config ethernet i
    both h = elim (Bool-cases (i.message.byte 2 == 6)) [
      | inl e ↦ (==→eq (i.message.byte 2) 6 e, same_bytes→eq _ _ (rw e at h))
      | inr n ↦ absurd (false≢true (rw n at h))
    ]
verify_address-lem config infiniband i conf =
    (i.message.byte 2 == 0, refl, λ h. ==→eq (i.message.byte 2) 0 h)
verify_address-lem config unknown i conf = (true, refl, λ h. tt)

module _ (raw : List ℕ) (i : Incoming) (p : Parsed raw i) (config : ClientConfig) where
  load_bytes-some :
      (s : Slot)
      → i.options Opt.client_identifier ≡ some s
      → load_bytes i.message s.value s.size ≡ some (slice i.message.byte s.value s.size)
  unfolding load_bytes query
  load_bytes-some s e =
      rw
        (le→leb (s.value + s.size) i.message.size
          (p.in_bounds Opt.client_identifier s (rw e refl)).1)
        refl

  client_id_at :
      (o : Option Slot)
      → i.options Opt.client_identifier ≡ o
      → (b : Bool) × (verify_client_id config i (slot_result o) ≡ some (ok b))
        × (b ≡ true
            → (lookup_option raw Opt.client_identifier ≡ err unset)
              ⊎ (lookup_option raw Opt.client_identifier ≡ ok config.client_id))
  unfolding query_bytes query
  client_id_at none e = (true, refl, λ h. inl (sym (p.answers Opt.client_identifier) ∙ (rw e)))
  client_id_at (some s) e = elim (Bool-cases (s.size == length config.client_id)) [
    | inr n ↦ (false, rw n refl, λ h. absurd (false≢true h))
    | inl q ↦ (
      same_bytes (slice i.message.byte s.value s.size) config.client_id,
      rw (q, load_bytes-some s e) refl,
      λ h. inr (sym (p.answers Opt.client_identifier) ∙ (rw e (ap ok (same_bytes→eq _ _ h)))),
    )
  ]

module _ (raw : List ℕ) (i : Incoming) (p : Parsed raw i) (c : Connection)
    (conf : IsConfig c.client_config) where
  Verdict : ℕ → Option (Result ℕ) → Type 0
  Verdict type run = (r : Result ℕ) × (run ≡ some r) × ((t : ℕ) → r ≡ ok t → Accepted c raw i t)

  rest_at :
      (type : ℕ)
      → read_u8 (lookup_option raw Opt.message_type) ≡ ok type
      → Verdict type (verify_rest c i type)
  unfolding verify_rest query Verdict
  rest_at type type_is =
      let a = verify_address-lem c.client_config c.client_config.transport i conf in
      let d = client_id_at raw i p c.client_config (i.options Opt.client_identifier) refl in
      elim (Bool-cases (verify_type c i type)) [
        | inr n ↦ (err unexpected, rw n refl, λ t e. cc)
        | inl y ↦ elim (Bool-cases a.0) [
          | inr n ↦ (err unexpected, rw (y, a.1, n) refl, λ t e. cc)
          | inl y' ↦ elim (Bool-cases d.0) [
            | inr n ↦ (err unexpected, rw (y, a.1, y', d.1, n) refl, λ t e. cc)
            | inl y'' ↦ (
              ok type,
              rw (y, a.1, y', d.1, y'') refl,
              λ t e. subst (Accepted c raw i) (ok_inj e) (record {
                type_is = type_is;
                pending = verify_type-pending c i type y;
                address = a.2 y';
                client_id = d.2 y'';
              }),
            )
          ]
        ]
      ]

  incoming_at :
      (r : Result ℕ)
      → Answer r
      → read_u8 (lookup_option raw Opt.message_type) ≡ r
      → Verdict 0 (and_then (some (or_malformed r)) (verify_rest c i))
  unfolding Verdict
  incoming_at _ (value u) e = rest_at u e
  incoming_at _ missing e = (err malformed, refl, λ t e. cc)
  incoming_at _ short e = (err malformed, refl, λ t e. cc)

  -- A parsed message is verified without a fault. Only replies are accepted that have a message
  -- type of a server; OFFER, ACK and NAK only with the transaction id of the pending request; only
  -- with the hardware address of the client, and with its client id if they have one.
  pub verify_incoming-Accepted :
      (r : Result ℕ) × (verify_incoming c i ≡ some r)
      × ((type : ℕ) → r ≡ ok type → Accepted c raw i type)
  unfolding verify_incoming query_message_type Verdict
  verify_incoming-Accepted = rw (query-reads raw i p Opt.message_type).0 (
      incoming_at (read_u8 (lookup_option raw Opt.message_type))
        (lookup-Answer raw Opt.message_type) refl)
