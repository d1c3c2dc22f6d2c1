-- ===== src/Client/New.antt =====
-- n_dhcp4_client_new, and the client that it returns.
use n_dhcp.Base.{
  ◌≤◌, ◌<◌, ◌≡◌, refl, sym, ap, inl, inr, Bool, true, false, ◌||◌, Option, none, some, [], arith,
  ltb, leb, ◌==◌, if◌then◌else◌, length, Bool-cases, ◌∙◌, ne→==, le→ltb, lt→leb,
}
use n_dhcp.Protocol.{Error, os, enomem, Result, ok, err, ok_inj}
use n_dhcp.Connection.{Transport, ethernet, infiniband, unknown}
use n_dhcp.Client.{Client}
use n_dhcp.Client.Settings.{
  Config, set_client_id, client_config_dup, duplicated, verify_addresses, verify_client_id, verify,
}

-- What the system gives to n_dhcp4_client_new: memory for the client, its configuration and the
-- client id, and the results of epoll_create1, the two calls of timerfd_create, and epoll_ctl.
pub record System : Type 0 where
  pub memory : Bool
  pub config_memory : Bool
  pub id_memory : Bool
  pub epoll : Option Error
  pub boottime : Option Error
  pub monotonic : Option Error
  pub add : Option Error

abbrev pub is_einval : Error → Bool
is_einval (os n) = n == 22
is_einval _ = false

-- The timer uses CLOCK_MONOTONIC if the other clock is refused.
abbrev pub create_timer : Option Error → Option Error → Option Error
create_timer none monotonic = none
create_timer (some e) monotonic = if is_einval e then monotonic else some e

abbrev pub or_else : Option Error → Option Error → Option Error
or_else none r = r
or_else (some e) r = some e

abbrev pub descriptors : System → Option Error
descriptors s = or_else s.epoll (or_else (create_timer s.boottime s.monotonic) s.add)

abbrev pub empty : Config → Client
empty config = record {
  config = config;
  nodes = [];
  log_level = none;
  mtu = 0;
  current_probe = none;
  scheduled_timeout = 0;
  armed = none;
  preempted = false;
}

abbrev pub open_client : Option Error → Result Config → Result Client
open_client e (err e') = err e'
open_client none (ok config) = ok (empty config)
open_client (some e) (ok config) = err e

-- What n_dhcp4_client_new does with a configuration that it verified.
abbrev pub build : System → Config → Result Client
build s config =
    if s.memory
    then open_client (descriptors s) (client_config_dup s.config_memory s.id_memory config)
    else err enomem

abbrev pub checked : System → Config → Option Error → Result Client
checked s config (some e) = err e
checked s config none = build s config

-- n_dhcp4_client_new
unfoldable pub client_new : System → Config → Result Client
client_new s config = checked s config (verify config)

-- The configurations that a client can be made of.
abbrev pub HasAddresses : Config → Transport → Type 0
HasAddresses config ethernet = (config.n_mac ≡ 6) × (config.n_broadcast_mac ≡ 6)
HasAddresses config infiniband = (config.n_mac ≡ 20) × (config.n_broadcast_mac ≡ 20)
HasAddresses config unknown = ⊥

abbrev pub IsValid : Config → Type 0
IsValid config =
    (0 < config.ifindex)
    × (config.ifindex < 2147483648)
    × HasAddresses config config.transport
    × (2 ≤ length config.client_id)
    × (length config.client_id ≤ 255)

-- A system that has memory and descriptors.
abbrev pub HasRoom : System → Type 0
HasRoom s =
    (s.memory ≡ true) × (s.config_memory ≡ true) × (s.id_memory ≡ true) × (descriptors s ≡ none)

addresses-Has : (c : Config) (t : Transport) → verify_addresses c t ≡ none → HasAddresses c t
addresses-Has c ethernet h = ground arith
addresses-Has c infiniband h = ground arith
addresses-Has c unknown h = cc

has_addresses : (c : Config) (t : Transport) → HasAddresses c t → verify_addresses c t ≡ none
has_addresses c ethernet h = rw (h.0, h.1) refl
has_addresses c infiniband h = rw (h.0, h.1) refl
has_addresses c unknown h = absurd h

client_id-inv :
    (c : Config) (r : Option Error)
    → verify_client_id c r ≡ none
    → (r ≡ none) × (1 ≤ length c.client_id)
client_id-inv c none h = (refl, ground arith)
client_id-inv c (some e) h = cc

-- The client id of a copy is the same, and was taken by the setter.
dup-inv :
    (a b : Bool) (c c' : Config)
    → client_config_dup a b c ≡ ok c'
    → 1 ≤ length c.client_id
    → (2 ≤ length c.client_id) × (length c.client_id ≤ 255) × (c' ≡ c)
unfolding client_config_dup set_client_id
dup-inv true b c c' h one =
    elim (Bool-cases (ltb (length c.client_id) 2 || ltb 255 (length c.client_id))) [
      | inl y ↦ cc (rw (some_id, y) at h)
      | inr n ↦ (ground arith, ground arith, copied b (rw (some_id, n) at h))
    ]
  where
    some_id : (length c.client_id == 0) ≡ false
    some_id = ne→== (length c.client_id) 0 (omega arith)

    copied :
        (b : Bool)
        → duplicated (
            if b
            then (record c { client_id = c.client_id }, none)
            else (record c { client_id = [] }, some enomem))
          ≡ ok c'
        → c' ≡ c
    copied true k = sym (ok_inj k)
    copied false k = cc
dup-inv false b c c' h one = cc

dup-ok :
    (c : Config)
    → 2 ≤ length c.client_id
    → length c.client_id ≤ 255
    → client_config_dup true true c ≡ ok c
unfolding client_config_dup set_client_id
dup-ok c lo hi =
    rw
      (
        ne→== (length c.client_id) 0 (omega arith),
        le→ltb (length c.client_id) 2 lo,
        le→ltb 255 (length c.client_id) hi,
      )
      refl

open-inv :
    (e : Option Error) (r : Result Config) (c : Client)
    → open_client e r ≡ ok c
    → (config : Config) × (r ≡ ok config) × (c ≡ empty config)
open-inv e (err e') c h = cc
open-inv none (ok config) c h = (config, refl, sym (ok_inj h))
open-inv (some e) (ok config) c h = cc

checked-inv :
    (s : System) (config : Config) (r : Option Error) (c : Client)
    → checked s config r ≡ ok c
    → (r ≡ none) × (build s config ≡ ok c)
checked-inv s config none c h = (refl, h)
checked-inv s config (some e) c h = cc

verify-inv :
    (c : Config)
    → verify c ≡ none
    → (0 < c.ifindex)
      × (c.ifindex < 2147483648)
      × HasAddresses c c.transport
      × (1 ≤ length c.client_id)
unfolding verify
verify-inv c h = elim (Bool-cases (c.ifindex == 0 || leb 2147483648 c.ifindex)) [
  | inl y ↦ cc (rw y at h)
  | inr n ↦
      let i = client_id-inv c (verify_addresses c c.transport) (rw n at h) in
      (ground arith, ground arith, addresses-Has c c.transport i.0, i.1)
]

verify-ok : (c : Config) → IsValid c → verify c ≡ none
unfolding verify
verify-ok c v =
    rw
      (
        ne→== c.ifindex 0 (omega (arith, v.0)),
        lt→leb 2147483648 c.ifindex v.1,
        has_addresses c c.transport v.2,
        le→ltb (length c.client_id) 1 (omega (arith, v.3)),
      )
      refl

module _ (s : System) (config : Config) where
  built-Valid :
      (c : Client)
      → build s config ≡ ok c
      → 1 ≤ length config.client_id
      → (2 ≤ length config.client_id) × (length config.client_id ≤ 255) × (c ≡ empty config)
  built-Valid c h one = elim (Bool-cases s.memory) [
    | inl y ↦
        let o =
          open-inv (descriptors s) (client_config_dup s.config_memory s.id_memory config) c
            (rw y at h) in
        let d = dup-inv s.config_memory s.id_memory config o.0 o.1 one in
        (d.0, d.1, o.2 ∙ ap empty d.2)
    | inr n ↦ cc (rw n at h)
  ]

  -- n_dhcp4_client_new returns a client only for a configuration with a positive index, a known
  -- transport with two addresses of its length, and a client id of 2 to 255 bytes; it is the empty
  -- client with this configuration. It does return one for each of these, given memory and
  -- descriptors.
  pub client_new-Valid :
      ((c : Client) → client_new s config ≡ ok c → IsValid config × (c ≡ empty config))
      × (IsValid config → HasRoom s → client_new s config ≡ ok (empty config))
  unfolding client_new
  client_new-Valid = (
    λ c h.
        let k = checked-inv s config (verify config) c h in
        let v = verify-inv config k.0 in
        let b = built-Valid c k.1 v.3 in ((v.0, v.1, v.2, b.0, b.1), b.2),
    λ v room. rw (verify-ok config v, room.0, room.1, room.2, room.3, dup-ok config v.3 v.4) refl,
  )
