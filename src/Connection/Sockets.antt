-- ===== src/Connection/Sockets.antt =====
-- Which sockets are open in which state, over all sequences of calls.
use n_dhcp.Base.{
  ℕ, ◌≡◌, inl, inr, refl, subst, Bool, true, false, ◌||◌, Option, none, some, List, [], ◌∷◌, ltb,
  ◌==◌, if◌then◌else◌, ◌>>=◌, ◌>>◌, assert, Bool-cases,
}
use n_dhcp.Protocol.{Error, Result, ok, err, again}
use n_dhcp.Incoming.{Incoming}
use n_dhcp.Outgoing.{Outgoing}
use n_dhcp.Connection.{
  Connection, ClientConfig, State, init, packet, draining, udp, closed, is_packet, is_init, is_udp,
  init_connection, listen, connect, close, on_error, first_error,
}
use n_dhcp.Protocol.Message
use n_dhcp.Connection.Io.{
  Route, receive, receive_in, is_again, accept, accept_reply, is_reply, handle, reply, discards_nak,
  verify_incoming, dispatch_io, start_request, dispatch_timer, resend, request_timeout,
  send_request,
}

-- A call on the connection that returns, with any results of the system calls.
pub data Step (c : Connection) : Connection → Type 0 where
  listened :
      (socket epoll : Option Error) (c' : Connection) (e : Option Error)
      → listen socket epoll c ≡ some (c', e)
      → Step c c'
  connected :
      (socket epoll shutdown : Option Error) (client server : ℕ) (c' : Connection)
      (e : Option Error)
      → connect socket epoll shutdown client server c ≡ some (c', e)
      → Step c c'
  closes : Step c (close c)
  started :
      (o : Outgoing) (xid jitter timestamp : ℕ) (c' : Connection) (via : Route)
      → start_request c o xid jitter timestamp ≡ some (c', via)
      → Step c c'
  timed :
      (xid jitter timestamp : ℕ) (c' : Connection) (via : Option Route)
      → dispatch_timer c xid jitter timestamp ≡ some (c', via)
      → Step c c'
  dispatched :
      (allocated : Bool) (from_packet from_udp : Result Incoming) (c' : Connection)
      (r : Result Incoming)
      → dispatch_io allocated from_packet from_udp c ≡ some (c', r)
      → Step c c'

pub data Reachable (config : ClientConfig) (parameters : List ℕ) (fd_epoll : Bool)
    : Connection → Type 0 where
  initial : Reachable config parameters fd_epoll (init_connection config parameters fd_epoll)
  after :
      (c c' : Connection)
      → Reachable config parameters fd_epoll c
      → Step c c'
      → Reachable config parameters fd_epoll c'

-- The sockets of a state. A call of listen that fails has closed both of them, and leaves the state.
abbrev pub SocketsMatch : State → Bool → Bool → Type 0
SocketsMatch init fd_packet fd_udp = (fd_packet ≡ false) × (fd_udp ≡ false)
SocketsMatch packet fd_packet fd_udp = (fd_packet ≡ true) × (fd_udp ≡ false)
SocketsMatch draining fd_packet fd_udp = fd_packet ≡ fd_udp
SocketsMatch udp fd_packet fd_udp = fd_packet ≡ false
SocketsMatch closed fd_packet fd_udp = (fd_packet ≡ false) × (fd_udp ≡ false)

abbrev pub Matches : Connection → Type 0
Matches c = SocketsMatch c.state c.fd_packet c.fd_udp

no_sockets : (state : State) → (is_packet state ≡ false) → SocketsMatch state false false
no_sockets init n = (refl, refl)
no_sockets packet n = cc
no_sockets draining n = refl
no_sockets udp n = refl
no_sockets closed n = (refl, refl)

-- A property of the connection that a run leaves, if it returns.
abbrev Leaves {ℓ} : {A : Type ℓ} → (Connection → Type 0) → Option (Connection × A) → Type 0
Leaves P none = Unit
Leaves P (some r) = P r.0

Leaves-some {ℓ} :
    {A : Type ℓ} (P : Connection → Type 0) (run : Option (Connection × A)) (c : Connection) (a : A)
    → Leaves P run
    → run ≡ some (c, a)
    → P c
Leaves-some P run c a l e = subst (Leaves P) e l

assert-Leaves {ℓ} :
    {A : Type ℓ} (P : Connection → Type 0) (b : Bool) (run : Option (Connection × A))
    → (b ≡ true → Leaves P run)
    → Leaves P (assert b >> run)
assert-Leaves P true run l = l refl
assert-Leaves P false run l = tt

on_error-Leaves {ℓ} :
    {A : Type ℓ} (P : Connection → Type 0) (e : Option Error) (f : Error → Connection × A)
    (r : Connection × A)
    → ((e : Error) → P (f e).0)
    → P r.0
    → Leaves P (some (on_error e f r))
on_error-Leaves P none f r p q = q
on_error-Leaves P (some e) f r p q = p e

listen-Leaves :
    (socket epoll : Option Error) (c : Connection)
    → Matches c
    → Leaves Matches (listen socket epoll c)
unfolding listen
listen-Leaves socket epoll c m = elim (Bool-cases (is_packet c.state)) [
  | inl y ↦ rw y m
  | inr n ↦
      let closed_both = no_sockets c.state n in
      rw n (
        assert-Leaves {A = Option Error} Matches (is_init c.state || is_udp c.state) _
          λ _. both socket epoll closed_both)
]
  where
    both :
        (socket epoll : Option Error)
        → SocketsMatch c.state false false
        → Leaves Matches (
            some (
              on_error socket
                (λ e. (record c { fd_packet = false; fd_udp = false }, some e))
                (on_error epoll
                  (λ e. (record c { fd_packet = false; fd_udp = false }, some e))
                  (record c { fd_packet = true; fd_udp = false; state = packet }, none))))
    both (some e) epoll n = n
    both none (some e) n = n
    both none none n = (refl, refl)

connected_sockets :
    (state : State) (fd_packet fd_udp : Bool)
    → is_packet state ≡ true
    → SocketsMatch state fd_packet fd_udp
    → SocketsMatch draining fd_packet true
connected_sockets packet fd_packet fd_udp y m = m.0
connected_sockets init fd_packet fd_udp y m = cc
connected_sockets draining fd_packet fd_udp y m = cc
connected_sockets udp fd_packet fd_udp y m = cc
connected_sockets closed fd_packet fd_udp y m = cc

connect-Leaves :
    (socket epoll shutdown : Option Error) (client server : ℕ) (c : Connection)
    → Matches c
    → Leaves Matches (connect socket epoll shutdown client server c)
unfolding connect
connect-Leaves socket epoll shutdown client server c m =
    assert-Leaves Matches (is_packet c.state) _ λ y.
      on_error-Leaves Matches (first_error (socket ∷ epoll ∷ shutdown ∷ [])) _ _ (λ e. m)
        (connected_sockets c.state c.fd_packet c.fd_udp y m)

bind-Leaves {ℓ κ} :
    {A : Type ℓ} {B : Type κ} (P : Connection → Type 0) (m : Option B)
    (f : B → Option (Connection × A))
    → ((b : B) → Leaves P (f b))
    → Leaves P (m >>= f)
bind-Leaves P none f k = tt
bind-Leaves P (some b) f k = k b

next-Leaves {ℓ κ} :
    {A : Type ℓ} {B : Type κ} (P : Connection → Type 0) (m : Option (Connection × B))
    (f : Connection × B → Option (Connection × A))
    → Leaves P m
    → ((r : Connection × B) → P r.0 → Leaves P (f r))
    → Leaves P (m >>= f)
next-Leaves P none f l k = tt
next-Leaves P (some r) f l k = k r l

start-Leaves :
    (c : Connection) (o : Outgoing) (xid jitter timestamp : ℕ)
    → Matches c
    → Leaves Matches (start_request c o xid jitter timestamp)
unfolding start_request
start-Leaves c o xid jitter timestamp m =
    bind-Leaves {A = Route} Matches
      (send_request c.state (if o.start_time == 0 then record o { start_time = timestamp } else o)
        xid jitter timestamp)
      _ λ b. m

resend-Leaves :
    (c : Connection) (request : Option Outgoing) (xid jitter timestamp : ℕ)
    → Matches c
    → Leaves Matches (resend c request xid jitter timestamp)
resend-Leaves c none xid jitter timestamp m = m
resend-Leaves c (some o) xid jitter timestamp m =
    bind-Leaves Matches (request_timeout o) _ λ timeout. elim (Bool-cases (ltb timestamp timeout)) [
      | inl y ↦ rw y m
      | inr n ↦ rw n (
          bind-Leaves {A = Option Route} Matches (send_request c.state o xid jitter timestamp) _
            λ b. m)
    ]

received-Leaves :
    (state : State) (from_packet from_udp : Result Incoming) (c : Connection)
    → Matches c
    → c.state ≡ state
    → Leaves Matches (receive_in state from_packet from_udp c)
received-Leaves packet from_packet from_udp c m e = m
received-Leaves draining (ok i) from_udp c m e = m
received-Leaves draining (err x) from_udp c m e = elim (Bool-cases (is_again x)) [
  | inl y ↦ rw y (assert-Leaves {A = Result Incoming} Matches c.fd_packet _ λ is_open. refl)
  | inr n ↦ rw n m
]
received-Leaves udp from_packet from_udp c m e = m
received-Leaves init from_packet from_udp c m e = tt
received-Leaves closed from_packet from_udp c m e = tt

accept_reply-Leaves :
    (request : Option Outgoing) (c : Connection) (i : Incoming) (type : ℕ)
    → Matches c
    → Leaves Matches (accept_reply request c i type)
accept_reply-Leaves none c i type m = tt
accept_reply-Leaves (some o) c i type m = elim (Bool-cases (type == Message.offer)) [
  | inl y ↦ rw y m
  | inr n ↦ rw n m
]

accept-Leaves :
    (c : Connection) (i : Incoming) (type : ℕ) → Matches c → Leaves Matches (accept c i type)
unfolding accept
accept-Leaves c i type m = elim (Bool-cases (is_reply type)) [
  | inl y ↦ rw y (accept_reply-Leaves c.request c i type m)
  | inr n ↦ rw n m
]

handle-Leaves :
    (c : Connection) (i : Incoming) (r : Result ℕ) → Matches c → Leaves Matches (handle c i r)
handle-Leaves c i (err e) m = m
handle-Leaves c i (ok type) m = bind-Leaves Matches (discards_nak c.request i type) _ λ d. rest d
  where
    rest :
        (d : Bool)
        → Leaves Matches
            (if d then some (c, err again) else do (c', i') ← accept c i type; some (c', ok i'))
    rest true = m
    rest false =
        next-Leaves {A = Result Incoming} Matches (accept c i type) _ (accept-Leaves c i type m)
          λ r p. p

reply-Leaves : (c : Connection) (r : Result Incoming) → Matches c → Leaves Matches (reply c r)
reply-Leaves c (err e) m = m
reply-Leaves c (ok i) m = bind-Leaves Matches (verify_incoming c i) _ λ r. handle-Leaves c i r m

dispatch-Leaves :
    (allocated : Bool) (from_packet from_udp : Result Incoming) (c : Connection)
    → Matches c
    → Leaves Matches (dispatch_io allocated from_packet from_udp c)
unfolding dispatch_io receive
dispatch-Leaves false from_packet from_udp c m = m
dispatch-Leaves true from_packet from_udp c m =
    next-Leaves {A = Result Incoming} Matches (receive from_packet from_udp c) _
      (received-Leaves c.state from_packet from_udp c m refl) λ r p. reply-Leaves r.0 r.1 p

step-Matches : (c c' : Connection) → Step c c' → Matches c → Matches c'
unfolding close dispatch_timer
step-Matches c _ (listened socket epoll c' e h) m =
    Leaves-some Matches _ c' e (listen-Leaves socket epoll c m) h
step-Matches c _ (connected socket epoll shutdown client server c' e h) m =
    Leaves-some Matches _ c' e (connect-Leaves socket epoll shutdown client server c m) h
step-Matches c _ closes m = (refl, refl)
step-Matches c _ (started o xid jitter timestamp c' via h) m =
    Leaves-some Matches _ c' via (start-Leaves c o xid jitter timestamp m) h
step-Matches c _ (timed xid jitter timestamp c' via h) m =
    Leaves-some Matches _ c' via (resend-Leaves c c.request xid jitter timestamp m) h
step-Matches c _ (dispatched allocated from_packet from_udp c' r h) m =
    Leaves-some Matches _ c' r (dispatch-Leaves allocated from_packet from_udp c m) h

-- After any sequence of calls on a new connection, with any results of the system calls, the open
-- sockets are those of its state: none in INIT and CLOSED, the packet socket in PACKET, no packet
-- socket in UDP, and both or none in DRAINING.
pub Reachable-Matches :
    (config : ClientConfig) (parameters : List ℕ) (fd_epoll : Bool) (c : Connection)
    → Reachable config parameters fd_epoll c
    → Matches c
unfolding init_connection
Reachable-Matches config parameters true _ initial = (refl, refl)
Reachable-Matches config parameters false _ initial = (refl, refl)
Reachable-Matches config parameters fd_epoll _ (after c c' reach step) =
    step-Matches c c' step (Reachable-Matches config parameters fd_epoll c reach)
