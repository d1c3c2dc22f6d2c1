-- ===== src/Server/Classify.antt =====
-- How n_dhcp4_s_connection_verify_incoming classifies a parsed message.
use n_dhcp.Base.{
  ℕ, ◌≡◌, ◌≢◌, refl, ap, ◌∙◌, inl, inr, Bool, true, false, Option, some, List, ltb, ◌==◌, length,
  Bool-cases, ==→eq, ==→ne,
}
use n_dhcp.Protocol.{unset, malformed, unexpected, Result, ok, err}
use n_dhcp.Protocol.Opt
use n_dhcp.Protocol.Message
use n_dhcp.Protocol.Request
use n_dhcp.Incoming.{Incoming}
use n_dhcp.Incoming.Query.{
  and_then, query_message_type, query_server_identifier, query_requested_ip, query_in_addr,
}
use n_dhcp.Incoming.Scan.{contents, has_code, message_entries}
use n_dhcp.Incoming.Refine.{Parsed, lookup_option, byte_of, entries_of}
use n_dhcp.Incoming.Typed.{
  query-reads, read_u8, read_u32, Answer, value, missing, short, lookup-Answer,
}
use n_dhcp.Connection.Io.{or_malformed}
use n_dhcp.Server.{SConnection, owns, without_server, request_kind, kind, verify_incoming}

read_u32-Answer : (xs : List ℕ) → Answer (read_u32 (ok xs))
read_u32-Answer xs = elim (Bool-cases (ltb (length xs) 4)) [
  | inl h ↦ rw h short
  | inr h ↦ rw h (value _)
]

lookup_u32-Answer : (raw : List ℕ) (option : ℕ) → Answer (read_u32 (lookup_option raw option))
unfolding lookup_option
lookup_u32-Answer raw option = elim (Bool-cases (option == Opt.overload)) [
  | inl h ↦ rw h (
      read_u32-Answer
        (contents (byte_of raw) Opt.overload (message_entries (byte_of raw) (length raw) 0)))
  | inr h ↦ elim (Bool-cases (has_code option (entries_of raw))) [
    | inl k ↦ rw (h, k) (read_u32-Answer (contents (byte_of raw) option (entries_of raw)))
    | inr k ↦ rw (h, k) missing
  ]
]

module _ (ip : Option ℕ) (broadcast : Bool) (raw : List ℕ) where
  abbrev type_of : Result ℕ
  type_of = read_u8 (lookup_option raw Opt.message_type)

  abbrev server_of : Result ℕ
  server_of = read_u32 (lookup_option raw Opt.server_identifier)

  abbrev requested_of : Result ℕ
  requested_of = read_u32 (lookup_option raw Opt.requested_ip_address)

  -- The kinds of messages from clients, by the options that a message has. A REQUEST that names a
  -- server selects an offer, of this server or another one; one that names an address only comes
  -- from INIT-REBOOT; one without both renews or rebinds a lease.
  pub data Kind (t : ℕ) : Type 0 where
    discovers : type_of ≡ ok Message.discover → t ≡ Request.discover → Kind t
    selects :
        (s : ℕ)
        → type_of ≡ ok Message.request
        → server_of ≡ ok s
        → owns ip s ≡ true
        → t ≡ Request.select
        → Kind t
    ignores :
        (s : ℕ)
        → type_of ≡ ok Message.request
        → server_of ≡ ok s
        → owns ip s ≡ false
        → t ≡ Request.ignore
        → Kind t
    reboots :
        (a : ℕ)
        → type_of ≡ ok Message.request
        → server_of ≡ err unset
        → requested_of ≡ ok a
        → t ≡ Request.reboot
        → Kind t
    rebinds :
        type_of ≡ ok Message.request
        → server_of ≡ err unset
        → requested_of ≡ err unset
        → broadcast ≡ true
        → t ≡ Request.rebind
        → Kind t
    renews :
        type_of ≡ ok Message.request
        → server_of ≡ err unset
        → requested_of ≡ err unset
        → broadcast ≡ false
        → t ≡ Request.renew
        → Kind t
    declines : type_of ≡ ok Message.decline → t ≡ Request.decline → Kind t
    releases : type_of ≡ ok Message.release → t ≡ Request.release → Kind t

  -- A message that has no type or one of no bytes, or a REQUEST whose first address, that of the
  -- server or else the requested one, has less than four bytes.
  pub data Malformed : Type 0 where
    no_type : type_of ≡ err unset → Malformed
    short_type : type_of ≡ err malformed → Malformed
    short_server : type_of ≡ ok Message.request → server_of ≡ err malformed → Malformed
    short_address :
        type_of ≡ ok Message.request
        → server_of ≡ err unset
        → requested_of ≡ err malformed
        → Malformed

  -- A message of a type that clients do not send to a server.
  pub record Unexpected : Type 0 where
    pub type : ℕ
    pub type_is : type_of ≡ ok type
    pub no_discover : type ≢ Message.discover
    pub no_request : type ≢ Message.request
    pub no_decline : type ≢ Message.decline
    pub no_release : type ≢ Message.release

  -- What the checks of a kind may find.
  pub data Found : Result ℕ → Type 0 where
    is_malformed : Malformed → Found (err malformed)
    is_unexpected : Unexpected → Found (err unexpected)
    is_kind : (t : ℕ) → Kind t → Found (ok t)

-- The same of a message.
pub data Verdict (ip : Option ℕ) (broadcast : Bool) (raw : List ℕ) (i : Incoming)
    : Result Incoming → Type 0 where
  rejects_malformed : Malformed ip broadcast raw → Verdict ip broadcast raw i (err malformed)
  rejects_unexpected : Unexpected ip broadcast raw → Verdict ip broadcast raw i (err unexpected)
  classifies :
      (t : ℕ) → Kind ip broadcast raw t → Verdict ip broadcast raw i (ok (record i { type = t }))

module _ (c : SConnection) (broadcast : Bool) (raw : List ℕ) (i : Incoming) (p : Parsed raw i) where
  abbrev FindsKind : Option (Result ℕ) → Type 0
  FindsKind run = (r : Result ℕ) × (run ≡ some r) × Found c.ip broadcast raw r

  type_reads : query_message_type i ≡ some (type_of c.ip broadcast raw)
  unfolding query_message_type
  type_reads = (query-reads raw i p Opt.message_type).0

  server_reads : query_server_identifier i ≡ some (server_of c.ip broadcast raw)
  unfolding query_server_identifier query_in_addr
  server_reads = (query-reads raw i p Opt.server_identifier).2

  requested_reads : query_requested_ip i ≡ some (requested_of c.ip broadcast raw)
  unfolding query_requested_ip query_in_addr
  requested_reads = (query-reads raw i p Opt.requested_ip_address).2

  module _ (t : type_of c.ip broadcast raw ≡ ok Message.request) where
    requested_kind :
        (r : Result ℕ)
        → Answer r
        → requested_of c.ip broadcast raw ≡ r
        → server_of c.ip broadcast raw ≡ err unset
        → FindsKind (some (without_server broadcast r))
    requested_kind _ (value a) e s =
        (ok Request.reboot, refl, is_kind Request.reboot (reboots a t s e refl))
    requested_kind _ short e s = (err malformed, refl, is_malformed (short_address t s e))
    requested_kind _ missing e s = elim (Bool-cases broadcast) [
      | inl b ↦ (ok Request.rebind, rw b refl, is_kind Request.rebind (rebinds t s e b refl))
      | inr b ↦ (ok Request.renew, rw b refl, is_kind Request.renew (renews t s e b refl))
    ]

    server_kind :
        (r : Result ℕ)
        → Answer r
        → server_of c.ip broadcast raw ≡ r
        → FindsKind (request_kind c i broadcast r)
    server_kind _ (value s) e = elim (Bool-cases (owns c.ip s)) [
      | inl o ↦ (ok Request.select, rw o refl, is_kind Request.select (selects s t e o refl))
      | inr o ↦ (ok Request.ignore, rw o refl, is_kind Request.ignore (ignores s t e o refl))
    ]
    server_kind _ short e = (err malformed, refl, is_malformed (short_server t e))
    server_kind _ missing e =
        let k =
          requested_kind (requested_of c.ip broadcast raw)
            (lookup_u32-Answer raw Opt.requested_ip_address) refl e in
        (k.0, rw requested_reads k.1, k.2)

  type_kind :
      (type : ℕ) → type_of c.ip broadcast raw ≡ ok type → FindsKind (kind c i broadcast type)
  type_kind type e = elim (Bool-cases (type == Message.discover)) [
    | inl d ↦ (
      ok Request.discover,
      rw d refl,
      is_kind Request.discover (discovers (e ∙ ap ok (==→eq type Message.discover d)) refl),
    )
    | inr d ↦ elim (Bool-cases (type == Message.request)) [
      | inl q ↦
          let k =
            server_kind (e ∙ ap ok (==→eq type Message.request q)) (server_of c.ip broadcast raw)
              (lookup_u32-Answer raw Opt.server_identifier) refl in
          (k.0, rw (d, q, server_reads) k.1, k.2)
      | inr q ↦ elim (Bool-cases (type == Message.decline)) [
        | inl n ↦ (
          ok Request.decline,
          rw (d, q, n) refl,
          is_kind Request.decline (declines (e ∙ ap ok (==→eq type Message.decline n)) refl),
        )
        | inr n ↦ elim (Bool-cases (type == Message.release)) [
          | inl l ↦ (
            ok Request.release,
            rw (d, q, n, l) refl,
            is_kind Request.release (releases (e ∙ ap ok (==→eq type Message.release l)) refl),
          )
          | inr l ↦ (
            err unexpected,
            rw (d, q, n, l) refl,
            is_unexpected (record {
              type = type;
              type_is = e;
              no_discover = ==→ne type Message.discover d;
              no_request = ==→ne type Message.request q;
              no_decline = ==→ne type Message.decline n;
              no_release = ==→ne type Message.release l;
            }),
          )
        ]
      ]
    ]
  ]

  marked :
      (run : Option (Result ℕ)) (r : Result ℕ)
      → run ≡ some r
      → Found c.ip broadcast raw r
      → (r' : Result Incoming) × (and_then run (λ t. some (ok (record i { type = t }))) ≡ some r')
        × Verdict c.ip broadcast raw i r'
  marked run _ e (is_malformed m) = (err malformed, rw e refl, rejects_malformed m)
  marked run _ e (is_unexpected u) = (err unexpected, rw e refl, rejects_unexpected u)
  marked run _ e (is_kind t k) = (ok (record i { type = t }), rw e refl, classifies t k)

  abbrev Judges : Option (Result Incoming) → Type 0
  Judges run = (r : Result Incoming) × (run ≡ some r) × Verdict c.ip broadcast raw i r

  judged :
      (r : Result ℕ)
      → Answer r
      → type_of c.ip broadcast raw ≡ r
      → Judges (
          and_then
            (some (or_malformed r))
            λ type. and_then (kind c i broadcast type) λ t. some (ok (record i { type = t })))
  judged _ (value type) e = let k = type_kind type e in marked (kind c i broadcast type) k.0 k.1 k.2
  judged _ short e = (err malformed, refl, rejects_malformed (short_type e))
  judged _ missing e = (err malformed, refl, rejects_malformed (no_type e))

  -- A parsed message is classified without a fault. It is malformed only if it has no whole type, or
  -- is a REQUEST whose server, or without one the requested address, is cut short. It is unexpected
  -- only if its type is none of DISCOVER, REQUEST, DECLINE and RELEASE. Else it gets the kind that
  -- its options, the address of the server and its destination say, and nothing else changes.
  pub verify_incoming-Judges : Judges (verify_incoming c i broadcast)
  unfolding verify_incoming
  verify_incoming-Judges =
      rw type_reads (judged (type_of c.ip broadcast raw) (lookup-Answer raw Opt.message_type) refl)
