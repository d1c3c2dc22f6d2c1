-- ===== src/Connection/Replies.antt =====
-- What n_dhcp4_c_connection_dispatch_io makes of a message that a socket gives.
use n_dhcp.Base.{
  ℕ, ◌≡◌, ◌≢◌, ◌⊎◌, inl, inr, refl, sym, subst, ap, ◌∙◌, Bool, true, false, not, ◌&&◌, some_inj,
  none, some, List, arith, ◌==◌, if◌then◌else◌, Bool-cases, ==→eq, ==→ne,
}
use mathlib.Core.Bool.{false≢true}
use n_dhcp.Protocol.{Result, ok, err, again}
use n_dhcp.Protocol.Opt
use n_dhcp.Protocol.Message
use n_dhcp.Incoming.{Incoming}
use n_dhcp.Incoming.Query.{query_server_identifier, query_in_addr}
use n_dhcp.Incoming.Refine.{Parsed, lookup_option, stamped-Parsed}
use n_dhcp.Incoming.Typed.{query-reads, read_u32}
use n_dhcp.Outgoing.{Outgoing}
use n_dhcp.Connection.{Connection}
use n_dhcp.Connection.Io.{is_reply, accept, handle, reply, discards_nak, other_server, verify_error}
use n_dhcp.Connection.Verify.{IsConfig, Accepted, verify_incoming-Accepted}

-- A reply that is passed on: it is an accepted one; a NAK is from the server that was asked. OFFER,
-- ACK and NAK have the times of the request, and ACK and NAK end it.
pub record Delivered (c : Connection) (raw : List ℕ) (i : Incoming) (c' : Connection)
    (i' : Incoming) : Type 0 where
  pub type : ℕ
  pub accepted : Accepted c raw i type
  pub parsed : Parsed raw i'
  pub from_server :
      (o : Outgoing)
      → c.request ≡ some o
      → type ≡ Message.nak
      → o.server_id ≢ 0
      → read_u32 (lookup_option raw Opt.server_identifier) ≡ ok o.server_id
  pub times :
      (o : Outgoing)
      → c.request ≡ some o
      → is_reply type ≡ true
      → (i'.start_time ≡ o.start_time) × (i'.base_time ≡ o.base_time)
  pub request_after :
      c' ≡ (if is_reply type && not (type == Message.offer) then record c { request = none } else c)

-- The two results: an error that leaves the connection as it is, or a reply that is passed on.
abbrev pub Handled : Connection → List ℕ → Incoming → Connection × Result Incoming → Type 0
Handled c raw i (c', err e) = c' ≡ c
Handled c raw i (c', ok i') = Delivered c raw i c' i'

server_at :
    (raw : List ℕ) (i : Incoming)
    → Parsed raw i
    → query_server_identifier i ≡ some (read_u32 (lookup_option raw Opt.server_identifier))
unfolding query_server_identifier query_in_addr
server_at raw i p = (query-reads raw i p Opt.server_identifier).2

not_other : (server_id : ℕ) (r : Result ℕ) → other_server server_id r ≡ false → r ≡ ok server_id
not_other server_id (err e) h = cc
not_other server_id (ok server) h = elim (Bool-cases (server_id == server)) [
  | inl y ↦ ap ok (sym (==→eq server_id server y))
  | inr n ↦ absurd (false≢true (sym h ∙ (rw n refl)))
]

-- The check of a NAK gives an answer if there is a request.
discards-lem :
    (raw : List ℕ) (i : Incoming) (o : Outgoing) (type : ℕ)
    → Parsed raw i
    → (d : Bool) × (discards_nak (some o) i type ≡ some d)
      × (d ≡ false
          → type ≡ Message.nak
          → o.server_id ≢ 0
          → read_u32 (lookup_option raw Opt.server_identifier) ≡ ok o.server_id)
unfolding discards_nak
discards-lem raw i o type p = elim (Bool-cases (type == Message.nak)) [
  | inr n ↦ (false, rw n refl, λ d e. absurd (==→ne type Message.nak n e))
  | inl y ↦ elim (Bool-cases (o.server_id == 0)) [
    | inl z ↦ (false, rw (y, z) refl, λ d e ne. absurd (ne (==→eq o.server_id 0 z)))
    | inr n ↦ (
      other_server o.server_id (read_u32 (lookup_option raw Opt.server_identifier)),
      rw (y, n, server_at raw i p) refl,
      λ d e ne. not_other o.server_id _ d,
    )
  ]
]

reply_types :
    (type : ℕ)
    → (type ≡ Message.offer) ⊎ ((type ≡ Message.ack) ⊎ (type ≡ Message.nak))
    → is_reply type ≡ true
reply_types type (inl e) = rw e refl
reply_types type (inr (inl e)) = rw e refl
reply_types type (inr (inr e)) = rw e refl

-- What accept gives for a reply to the request o.
abbrev accepted_pair : Connection → Incoming → Outgoing → ℕ → Connection × Incoming
accepted_pair c i o type = (
  if type == Message.offer then c else record c { request = none },
  record i { start_time = o.start_time; base_time = o.base_time },
)

after_pair :
    (c : Connection) (type : ℕ)
    → is_reply type ≡ true
    → (if type == Message.offer then c else record c { request = none })
      ≡ (if is_reply type && not (type == Message.offer) then record c { request = none } else c)
after_pair c type y = elim (Bool-cases (type == Message.offer)) [
  | inl e ↦ rw (y, e) refl
  | inr n ↦ rw (y, n) refl
]

module _ (c : Connection) (raw : List ℕ) (i : Incoming) (p : Parsed raw i) (type : ℕ)
    (a : Accepted c raw i type) where
  handle-forcerenew :
      type ≡ Message.forcerenew
      → (r : Connection × Result Incoming) × (handle c i (ok type) ≡ some r) × Handled c raw i r
  unfolding discards_nak accept
  handle-forcerenew e = (
    (c, ok i),
    rw e refl,
    record {
      type = type;
      accepted = a;
      parsed = p;
      from_server = λ o q nak. absurd (omega (arith, e, nak));
      times = λ o q y. absurd (false≢true (rw e at y));
      request_after = rw e refl;
    },
  )

  handle_reply :
      (o : Outgoing)
      → c.request ≡ some o
      → is_reply type ≡ true
      → (r : Connection × Result Incoming) × (handle c i (ok type) ≡ some r) × Handled c raw i r
  unfolding accept
  handle_reply o q y =
      let d = discards-lem raw i o type p in
      elim (Bool-cases d.0) [
        | inl y₁ ↦ ((c, err again), rw (q, d.1, y₁) refl, refl)
        | inr n ↦ (
          ((accepted_pair c i o type).0, ok (accepted_pair c i o type).1),
          rw (q, d.1, n, y) refl,
          record {
            type = type;
            accepted = a;
            parsed = stamped-Parsed raw i o.start_time o.base_time p;
            from_server = λ o' q' nak any. from_same o' (some_inj (sym q ∙ q')) (d.2 n nak) any;
            times = λ o' q' y'. times_same o' (some_inj (sym q ∙ q'));
            request_after = after_pair c type y;
          },
        )
      ]
    where
      from_same :
          (o' : Outgoing)
          → o ≡ o'
          → (o.server_id ≢ 0 → read_u32 (lookup_option raw Opt.server_identifier) ≡ ok o.server_id)
          → o'.server_id ≢ 0
          → read_u32 (lookup_option raw Opt.server_identifier) ≡ ok o'.server_id
      from_same o' e k =
          subst
            (λ (o' : Outgoing).
              o'.server_id ≢ 0
              → read_u32 (lookup_option raw Opt.server_identifier) ≡ ok o'.server_id)
            e k

      times_same :
          (o' : Outgoing) → o ≡ o' → (o.start_time ≡ o'.start_time) × (o.base_time ≡ o'.base_time)
      times_same o' e =
          (ap (λ (x : Outgoing). x.start_time) e, ap (λ (x : Outgoing). x.base_time) e)

  handle-Handled :
      (r : Connection × Result Incoming) × (handle c i (ok type) ≡ some r) × Handled c raw i r
  handle-Handled = elim a.pending [
    | inl e ↦ handle-forcerenew e
    | inr k ↦ handle_reply k.1.0 k.1.1 (reply_types type k.0)
  ]

-- A message that a socket gives is handled without a fault. Either the result is an error, which
-- leaves the connection as it is, or the message is passed on: then it was accepted, a NAK is from
-- the server that the request names, OFFER, ACK and NAK have the start and base times of the
-- pending request, and ACK and NAK, but not OFFER, end it.
pub reply-Handled :
    (c : Connection) (raw : List ℕ) (i : Incoming)
    → Parsed raw i
    → IsConfig c.client_config
    → (r : Connection × Result Incoming) × (reply c (ok i) ≡ some r) × Handled c raw i r
reply-Handled c raw i p conf =
    let v = verify_incoming-Accepted raw i p c conf in
    let h = verified v.0 v.2 in (h.0, rw v.1 h.1, h.2)
  where
    verified :
        (r : Result ℕ)
        → ((type : ℕ) → r ≡ ok type → Accepted c raw i type)
        → (s : Connection × Result Incoming) × (handle c i r ≡ some s) × Handled c raw i s
    verified (err e) k = ((c, err (verify_error e)), refl, refl)
    verified (ok type) k = handle-Handled c raw i p type (k type refl)
