-- ===== src/Connection/Fresh.antt =====
-- After the timer of a connection was dispatched, it has no timeout that is due.
use n_dhcp.Base.{
  ℕ, ◌+◌, ◌%◌, ◌^◌, ◌<◌, ◌≡◌, ◌⊎◌, inl, inr, refl, sym, ap, subst, ◌∙◌, Option, none, some, List,
  arith, ltb, ◌>>=◌, Bool-cases, some_inj, ltb→lt,
}
use n_dhcp.Protocol.{bytes16}
use n_dhcp.Memory.{write}
use n_dhcp.Outgoing.{Outgoing}
use n_dhcp.Outgoing.Setters.{set_header, set_secs}
use n_dhcp.Connection.{Connection, State}
use n_dhcp.Connection.Io.{
  request_timeout, timeout_of, route, Route, restamp, is_final, secs_of, outgoing_set_secs,
  send_request, resend, dispatch_timer,
}
use n_dhcp.Connection.Backoff.{NextTimeout, delay-bounds, request_timeout-lem}

-- A timeout that is not set, or in the future.
abbrev pub Fresh : ℕ → ℕ → Type 0
Fresh now t = (t ≡ 0) ⊎ (now < t)

-- Inversion of a run that returns.
pub bind_inv {ℓ κ} :
    {A : Type ℓ} {B : Type κ} (m : Option A) (f : A → Option B) {b : B}
    → (m >>= f) ≡ some b
    → (a : A) × (m ≡ some a) × (f a ≡ some b)
bind_inv (some a) f h = (a, refl, h)
bind_inv none f h = cc

-- What a write into the header leaves as it is.
record Same (o o' : Outgoing) : Type 0 where
  type_kept : o'.type ≡ o.type
  time_kept : o'.send_time ≡ o.send_time
  jitter_kept : o'.send_jitter ≡ o.send_jitter

set_header-Same :
    (o o' : Outgoing) (at : ℕ) (value : List ℕ) → set_header o at value ≡ some o' → Same o o'
unfolding set_header
set_header-Same o o' at value h =
    let b = bind_inv (write o.message at value) _ h in
    subst (Same o) (some_inj b.2)
      (record { type_kept = refl; time_kept = refl; jitter_kept = refl })

secs-Same : (o o' : Outgoing) → outgoing_set_secs o ≡ some o' → Same o o'
unfolding outgoing_set_secs set_secs
secs-Same o o' h = elim (Bool-cases (ltb 0 (secs_of o))) [
  | inl y ↦ set_header-Same o o' 8 (bytes16 (secs_of o)) (rw y at h)
  | inr n ↦ cc (rw n at h)
]

-- A request that was sent carries its time and a jitter of less than a second, and its state has the
-- socket for it.
pub record Stamped (state : State) (timestamp : ℕ) (o : Outgoing) : Type 0 where
  pub via : Route
  pub routed : route state o.type ≡ some via
  pub time_is : o.send_time ≡ timestamp
  pub short : o.send_jitter < 1000000000

pub send_request-Stamped :
    (state : State) (o o' : Outgoing) (xid jitter timestamp : ℕ) (via : Route)
    → send_request state o xid jitter timestamp ≡ some (o', via)
    → Stamped state timestamp o'
unfolding send_request
send_request-Stamped state o o' xid jitter timestamp via h =
    let a = bind_inv (restamp o xid timestamp) _ h in
    let b =
      bind_inv
        (outgoing_set_secs
          (record a.0 { send_time = timestamp; send_jitter = jitter % 1000000000 }))
        _ a.2 in
    let c = bind_inv (route state b.0.type) _ b.2 in
    let w =
      secs-Same (record a.0 { send_time = timestamp; send_jitter = jitter % 1000000000 }) b.0 b.1 in
    let e : record b.0 { n_send = (b.0.n_send + 1) % 2 ^ 64 } ≡ o' =
      ap (λ (r : Outgoing × Route). r.0) (some_inj c.2) in
    subst (Stamped state timestamp) e (record {
      via = c.0;
      routed = c.1;
      time_is = w.time_kept;
      short = omega (arith, w.jitter_kept);
    })

next-Fresh :
    (o : Outgoing) (timestamp t : ℕ) → o.send_time ≡ timestamp → NextTimeout o t → Fresh timestamp t
next-Fresh o timestamp t e n = elim (Bool-cases (is_final o.type)) [
  | inl f ↦ inl (rw f at n)
  | inr f ↦ let b = delay-bounds o in let m = rw f at n in inr (omega (arith, b.0, m.0))
]

Stamped-Fresh :
    (state : State) (timestamp : ℕ) (o : Outgoing)
    → timestamp < 9223372036854775808
    → Stamped state timestamp o
    → (t : ℕ) → request_timeout o ≡ some t
    → Fresh timestamp t
Stamped-Fresh state timestamp o h s t e =
    let r = request_timeout-lem state o s.via s.routed (omega (arith, s.time_is)) s.short in
    subst (Fresh timestamp) (some_inj (sym r.1 ∙ e)) (next-Fresh o timestamp r.0 s.time_is r.2)

-- No timeout of the pinned request is due.
abbrev pub IsFresh : ℕ → Option Outgoing → Type 0
IsFresh now request = (t : ℕ) → timeout_of request ≡ some t → Fresh now t

moved :
    (c c' : Connection) (via via' : Option Route)
    → ◌≡◌ {A = Option (Connection × Option Route)} (some (c, via)) (some (c', via'))
    → c ≡ c'
moved c c' via via' e = ap (λ (r : Connection × Option Route). r.0) (some_inj e)

module _ (c : Connection) (xid jitter timestamp : ℕ) (c' : Connection) (via : Option Route)
    (small : timestamp < 9223372036854775808) where
  abbrev Leaves : Connection → Type 0
  Leaves c = IsFresh timestamp c.request

  resend-Leaves :
      (r : Option Outgoing)
      → c.request ≡ r
      → resend c r xid jitter timestamp ≡ some (c', via)
      → Leaves c'
  resend-Leaves none e run =
      subst Leaves (moved c c' none via run)
        (subst (IsFresh timestamp) (sym e) (λ t g. inl (sym (some_inj g))))
  resend-Leaves (some o) e run =
      let a = bind_inv (request_timeout o) _ run in
      elim (Bool-cases (ltb timestamp a.0)) [
        | inl y ↦ subst Leaves (moved c c' none via (rw y at a.2)) (
            subst (IsFresh timestamp) (sym e) (λ t g.
              inr (
                subst (λ (n : ℕ). timestamp < n) (some_inj (sym a.1 ∙ g))
                  (ltb→lt timestamp a.0 y))))
        | inr n ↦
            let b = bind_inv (send_request c.state o xid jitter timestamp) _ (rw n at a.2) in
            subst Leaves (moved (record c { request = some b.0.0 }) c' (some b.0.1) via b.2) (
              Stamped-Fresh c.state timestamp b.0.0 small
                (send_request-Stamped c.state o b.0.0 xid jitter timestamp b.0.1 b.1))
      ]

  -- Whatever request is pinned, the timer leaves no timeout that is due.
  pub dispatch_timer-IsFresh :
      dispatch_timer c xid jitter timestamp ≡ some (c', via) → IsFresh timestamp c'.request
  unfolding dispatch_timer
  dispatch_timer-IsFresh h = resend-Leaves c.request refl h
