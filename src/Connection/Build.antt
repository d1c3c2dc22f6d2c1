-- ===== src/Connection/Build.antt =====
-- The requests that are built are valid messages, and carry their times and addresses.
use n_dhcp.Base.{
  ℕ, ◌+◌, ◌%◌, ◌≤◌, ◌≡◌, refl, subst, ◌∙◌, inl, inr, Bool, true, Option, none, some, List, [], ◌∷◌,
  zero, suc, arith, ltb, ◌==◌, if◌then◌else◌, ◌>>=◌, length, take, Bool-cases,
}
use n_dhcp.Protocol.{Error, Result, ok, ok_inj, err, bytes32}
use n_dhcp.Memory.{slice}
use n_dhcp.Incoming.Query.{and_then}
use n_dhcp.Outgoing.{Outgoing, append}
use n_dhcp.Outgoing.Setters.{set_header}
use n_dhcp.Outgoing.Valid.{Valid}
use n_dhcp.Outgoing.Overload.{IsPlain, append-Valid}
use n_dhcp.Outgoing.Header.{with_header, set_header-eq, with_header-Valid}
use n_dhcp.Outgoing.Userdata.{Userdata, userdata_of, append-userdata_of}
use n_dhcp.Connection.{Connection, ClientConfig, Transport, ethernet, infiniband, unknown}
use n_dhcp.Connection.Requests.{as_n_data, append_to, set_broadcast, init_address, init_header}

-- A run that has a result, and if it is an object, one with this property.
unfoldable pub Gives : (Outgoing → Type 0) → Option (Result Outgoing) → Type 0
Gives P run = (r : Result Outgoing) × (run ≡ some r) × ((o : Outgoing) → r ≡ ok o → P o)

-- A valid message with this userdata.
pub record Made (u : Userdata) (o : Outgoing) : Type 0 where
  pub valid : Valid o
  pub data_are : userdata_of o ≡ u

length-take : (n : ℕ) (xs : List ℕ) → length (take n xs) ≤ n
length-take zero xs = omega arith
length-take (suc n) [] = omega arith
length-take (suc n) (x ∷ xs) = omega (arith, length-take n xs)

as_n_data-short : (xs : List ℕ) → length (as_n_data xs) ≤ 255
as_n_data-short xs = omega (arith, length-take (length xs % 256) xs)

pub append_to-Gives :
    (allocated : Bool) (option : ℕ) (value : List ℕ) (o : Outgoing) (u : Userdata)
    → IsPlain option
    → Made u o
    → Gives (Made u) (append_to allocated option value o)
unfolding append_to Gives
append_to-Gives allocated option value o u p m =
    let a = append-Valid allocated o option (as_n_data value) m.valid p (as_n_data-short value) in
    let d = append-userdata_of allocated o option (as_n_data value) a.0 a.1 in
    result a.0 a.1 a.2 (d ∙ m.data_are)
  where
    result :
        (r : Outgoing × Option Error)
        → append allocated o option (as_n_data value) ≡ some r
        → Valid r.0
        → userdata_of r.0 ≡ u
        → (s : Result Outgoing) × (append_to allocated option value o ≡ some s)
          × ((o' : Outgoing) → s ≡ ok o' → Made u o')
    result (o', none) e v d =
        (ok o', rw e refl, λ o'' h. subst (Made u) (ok_inj h) (record { valid = v; data_are = d }))
    result (o', some x) e v d = (err x, rw e refl, λ o'' h. cc)

pub and_then-Gives :
    (P Q : Outgoing → Type 0) (run : Option (Result Outgoing))
    (f : Outgoing → Option (Result Outgoing))
    → Gives P run
    → ((o : Outgoing) → P o → Gives Q (f o))
    → Gives Q (and_then run f)
unfolding Gives
and_then-Gives P Q run f (ok o, e, p) k = let g = k o (p o refl) in (g.0, rw e g.1, g.2)
and_then-Gives P Q run f (err x, e, p) k = (err x, rw e refl, λ o h. cc)

-- A run without errors, likewise.
unfoldable pub GivesOne : (Outgoing → Type 0) → Option Outgoing → Type 0
GivesOne P run = (o : Outgoing) × (run ≡ some o) × P o

pub bind-GivesOne :
    (P Q : Outgoing → Type 0) (run : Option Outgoing) (f : Outgoing → Option Outgoing)
    → GivesOne P run
    → ((o : Outgoing) → P o → GivesOne Q (f o))
    → GivesOne Q (run >>= f)
unfolding GivesOne
bind-GivesOne P Q run f (o, e, p) k = let g = k o p in (g.0, rw e g.1, g.2)

pub set_header-GivesOne :
    (u : Userdata) (o : Outgoing) (at : ℕ) (value : List ℕ)
    → Made u o
    → at + length value ≤ 44
    → GivesOne (Made u) (set_header o at value)
unfolding GivesOne
set_header-GivesOne u o at value m h = (
  with_header o at value,
  set_header-eq o at value m.valid h,
  record { valid = with_header-Valid o at value m.valid h; data_are = m.data_are },
)

init_address-GivesOne :
    (c : Connection) (broadcast : Bool) (u : Userdata) (o : Outgoing)
    → Made u o
    → GivesOne (Made u) (init_address c broadcast o)
unfolding set_broadcast GivesOne
init_address-GivesOne c broadcast u o m = elim (Bool-cases (c.client_ip == 0)) [
  | inr n ↦ rw n (set_header-GivesOne u o 12 (bytes32 c.client_ip) m (omega arith))
  | inl z ↦ elim (Bool-cases broadcast) [
    | inl y ↦
        rw (z, y)
          (set_header-GivesOne u o 10
            ((if ltb (o.message.byte 10) 128 then o.message.byte 10 + 128 else o.message.byte 10)
              ∷ [])
            m (omega arith))
    | inr n ↦ rw (z, n) (o, refl, m)
  ]
]

-- The configurations that n_dhcp4_client_new accepts have a known transport, and for Ethernet an
-- address of six bytes.
abbrev pub Accepts : ClientConfig → Transport → Type 0
Accepts config ethernet = config.n_mac ≡ 6
Accepts config infiniband = Unit
Accepts config unknown = ⊥

module _ (c : Connection) (u : Userdata) (o : Outgoing) (m : Made u o) where
  pub init_header-at :
      (t : Transport)
      → c.client_config.transport ≡ t
      → Accepts c.client_config t
      → GivesOne (Made u) (init_header c o)
  unfolding init_header
  init_header-at ethernet e n =
      rw (e, n)
        (bind-GivesOne (Made u) (Made u) (set_header o 0 (1 ∷ [])) _
          (set_header-GivesOne u o 0 (1 ∷ []) m (omega arith))
          λ o₁ m₁.
            bind-GivesOne (Made u) (Made u) (set_header o₁ 1 (1 ∷ 6 ∷ [])) _
              (set_header-GivesOne u o₁ 1 (1 ∷ 6 ∷ []) m₁ (omega arith))
              λ o₂ m₂.
                bind-GivesOne (Made u) (Made u) (set_header o₂ 28 (slice c.client_config.mac 0 6)) _
                  (set_header-GivesOne u o₂ 28 (slice c.client_config.mac 0 6) m₂ (omega arith))
                  λ o₃ m₃. init_address-GivesOne c c.client_config.request_broadcast u o₃ m₃)
  init_header-at infiniband e n = rw e (
      bind-GivesOne (Made u) (Made u) (set_header o 0 (1 ∷ [])) _
        (set_header-GivesOne u o 0 (1 ∷ []) m (omega arith))
        λ o₁ m₁.
          bind-GivesOne (Made u) (Made u) (set_header o₁ 1 (32 ∷ 0 ∷ [])) _
            (set_header-GivesOne u o₁ 1 (32 ∷ 0 ∷ []) m₁ (omega arith))
            λ o₂ m₂. init_address-GivesOne c true u o₂ m₂)
  init_header-at unknown e n = absurd n
