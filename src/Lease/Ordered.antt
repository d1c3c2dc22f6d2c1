-- ===== src/Lease/Ordered.antt =====
-- The timeouts of a lease: T1, T2 and the lifetime are in this order.
use n_dhcp.Base.{
  ℕ, ◌+◌, ◌≤◌, ◌<◌, ◌≡◌, ◌≢◌, ◌⊎◌, inl, inr, refl, Option, some, List, arith, ltb, ◌==◌, Bool-cases,
  ==→eq, ==→ne, ne→==, ltb→le, ltb→lt,
}
use n_dhcp.Protocol.{Result, ok, err, unset, malformed, uint32_max, uint64_max}
use n_dhcp.Protocol.Opt
use n_dhcp.Incoming.{Incoming}
use n_dhcp.Incoming.Query.{query_lifetime, query_t2, query_t1, and_then}
use n_dhcp.Incoming.Refine.{Parsed, lookup_option}
use n_dhcp.Incoming.Typed.{read_u32, query-reads}
use n_dhcp.Lease.{
  Timeouts, lifetime_of, t2_of, t1_of, from_base, nanoseconds, seven_eighths, four_sevenths,
  get_timeouts,
}

abbrev pub or_error {ℓ κ} : {A : Type ℓ} {B : Type κ} → Result A → (A → Result B) → Result B
or_error (ok a) f = f a
or_error (err e) f = err e

-- What the timeouts are, from the values of the three options.
abbrev pub timeouts_of : ℕ → Result ℕ → Result ℕ → Result ℕ → Result Timeouts
timeouts_of base r r₂ r₁ = or_error (lifetime_of r) λ lifetime. or_error (t2_of lifetime r₂) λ t2.
    or_error (t1_of t2 r₁) λ t1. ok (record {
      t1 = from_base base t1;
      t2 = from_base base t2;
      lifetime = from_base base lifetime;
    })

abbrev pub options_of : ℕ → List ℕ → Result Timeouts
options_of base raw =
    timeouts_of base (read_u32 (lookup_option raw Opt.ip_address_lease_time))
      (read_u32 (lookup_option raw Opt.rebinding_t2_time))
      (read_u32 (lookup_option raw Opt.renewal_t1_time))

and_then-some {ℓ κ} :
    {A : Type ℓ} {B : Type κ} (r : Result A) (f : A → Option (Result B)) (g : A → Result B)
    → ((a : A) → f a ≡ some (g a))
    → and_then (some r) f ≡ some (or_error r g)
and_then-some (ok a) f g h = h a
and_then-some (err e) f g h = refl

-- On a parsed message the timeouts are computed without a fault from the values of the options.
pub get_timeouts-eq :
    (raw : List ℕ) (i : Incoming)
    → Parsed raw i
    → get_timeouts i ≡ some (options_of i.base_time raw)
unfolding get_timeouts query_lifetime query_t2 query_t1
get_timeouts-eq raw i p =
    rw
      (
        (query-reads raw i p Opt.ip_address_lease_time).2,
        (query-reads raw i p Opt.rebinding_t2_time).2,
        (query-reads raw i p Opt.renewal_t1_time).2,
      )
      (and_then-some (lifetime_of (read_u32 (lookup_option raw Opt.ip_address_lease_time))) _ _
        λ lifetime.
          and_then-some (t2_of lifetime (read_u32 (lookup_option raw Opt.rebinding_t2_time))) _ _
            λ t2.
              and_then-some (t1_of t2 (read_u32 (lookup_option raw Opt.renewal_t1_time))) _ _
                λ t1. refl)

-- What a query for an u32 returns.
pub data Reading : Result ℕ → Type 0 where
  value : (u : ℕ) → u < 4294967296 → Reading (ok u)
  missing : Reading (err unset)
  short : Reading (err malformed)

-- A relative time that the base time may be added to, and one that may be multiplied by seven too.
abbrev IsTime : ℕ → Type 0
IsTime t = (t ≡ uint64_max) ⊎ (t ≤ 4294967295000000000)

abbrev IsSmall : ℕ → Type 0
IsSmall t = (t ≡ uint64_max) ⊎ (t ≤ 2635249153000000000)

-- The claims on the results of the parts: a time of this kind up to a bound, or malformed.
abbrev pub Gives {ℓ} : {A : Type ℓ} → (A → Type 0) → Result A → Type 0
Gives P (ok t) = P t
Gives P (err e) = e ≡ malformed

nanoseconds-IsTime : (u : ℕ) → u < 4294967296 → IsTime (nanoseconds u)
nanoseconds-IsTime u h = elim (Bool-cases (u == uint32_max)) [
  | inl e ↦ rw e (inl refl)
  | inr e ↦ rw e (inr (omega arith))
]

-- No overflow of a lifetime times seven.
abbrev pub NoOverflow : Result ℕ → Type 0
NoOverflow r = (u : ℕ) → r ≡ ok u → (u ≤ 2635249153) ⊎ (u ≡ uint32_max)

lifetime-Gives : (r : Result ℕ) → Reading r → NoOverflow r → Gives IsSmall (lifetime_of r)
lifetime-Gives _ (value u h) k = elim (k u refl) [
  | inl small ↦ elim (Bool-cases (u == uint32_max)) [
    | inl e ↦ rw e (inl refl)
    | inr e ↦ rw e (inr (omega arith))
  ]
  | inr e ↦ rw e (inl refl)
]
lifetime-Gives _ missing k = inl refl
lifetime-Gives _ short k = refl

-- The default of T2, for a finite lifetime; and the times that do not exceed it.
finite : (t : ℕ) → IsSmall t → t ≢ uint64_max → t ≤ 2635249153000000000
finite t (inl e) ne = absurd (ne e)
finite t (inr h) ne = h

seven_eighths-IsTime :
    (t : ℕ) → t ≤ 2635249153000000000 → (seven_eighths t ≤ t) × IsTime (seven_eighths t)
seven_eighths-IsTime t h = (omega arith, inr (omega arith))

time_le : (t : ℕ) → IsTime t → t ≤ uint64_max
time_le t (inl e) = omega arith
time_le t (inr h) = omega arith

t2-Gives :
    (lifetime : ℕ) (r : Result ℕ)
    → Reading r
    → IsSmall lifetime
    → Gives (λ t2. (t2 ≤ lifetime) × IsTime t2) (t2_of lifetime r)
t2-Gives lifetime _ (value u h) k = elim (Bool-cases (ltb lifetime (nanoseconds u))) [
  | inl e ↦ rw e (
      seven_eighths-IsTime lifetime (
        finite lifetime k (λ i. omega (
          arith,
          i,
          time_le (nanoseconds u) (nanoseconds-IsTime u h),
          ltb→lt lifetime (nanoseconds u) e,
        ))))
  | inr e ↦ rw e (ltb→le lifetime (nanoseconds u) e, nanoseconds-IsTime u h)
]
t2-Gives lifetime _ missing k = elim (Bool-cases (lifetime == uint64_max)) [
  | inl e ↦ rw e (omega (arith, ==→eq lifetime uint64_max e), inl refl)
  | inr e ↦ rw e (seven_eighths-IsTime lifetime (finite lifetime k (==→ne lifetime uint64_max e)))
]
t2-Gives lifetime _ short k = refl

time : {t : ℕ} → IsTime t → t ≢ uint64_max → t ≤ 4294967295000000000
time (inl e) ne = absurd (ne e)
time (inr h) ne = h

below : (t : ℕ) → t ≤ 4294967295000000000 → (four_sevenths t ≤ t) × IsTime (four_sevenths t)
below t h = (omega arith, inr (omega arith))

t1-Gives :
    (t2 : ℕ) (r : Result ℕ)
    → Reading r
    → IsTime t2
    → Gives (λ t1. (t1 ≤ t2) × IsTime t1) (t1_of t2 r)
t1-Gives t2 _ (value u h) k = elim (Bool-cases (ltb t2 (nanoseconds u))) [
  | inl e ↦ rw e (
      below t2 (
        time k (λ i. omega (
          arith,
          i,
          time_le (nanoseconds u) (nanoseconds-IsTime u h),
          ltb→lt t2 (nanoseconds u) e,
        ))))
  | inr e ↦ rw e (ltb→le t2 (nanoseconds u) e, nanoseconds-IsTime u h)
]
t1-Gives t2 _ missing k = elim (Bool-cases (t2 == uint64_max)) [
  | inl e ↦ rw e (omega (arith, ==→eq t2 uint64_max e), inl refl)
  | inr e ↦ rw e (below t2 (time k (==→ne t2 uint64_max e)))
]
t1-Gives t2 _ short k = refl

pub from_base-finite :
    (base t : ℕ)
    → base ≤ 9223372036854775808
    → t ≤ 4294967295000000000
    → from_base base t ≡ t + base
from_base-finite base t h k = rw (ne→== t uint64_max (λ e. omega arith)) (omega arith)

from_base_mono :
    (base s t : ℕ)
    → base ≤ 9223372036854775808
    → IsTime s
    → IsTime t
    → s ≤ t
    → from_base base s ≤ from_base base t
from_base_mono base s t h (inl e) (inl e') le = rw (e, e') (omega arith)
from_base_mono base s t h (inl e) (inr k) le = absurd (omega arith)
from_base_mono base s t h (inr k) (inl e) le = rw (e, from_base-finite base s h k) (omega arith)
from_base_mono base s t h (inr k) (inr k') le =
    rw (from_base-finite base s h k, from_base-finite base t h k') (omega arith)

abbrev pub IsOrdered : Timeouts → Type 0
IsOrdered t = (t.t1 ≤ t.t2) × (t.t2 ≤ t.lifetime)

Gives-or_error :
    {A B : Type 0} (P : A → Type 0) (Q : B → Type 0) (r : Result A) (f : A → Result B)
    → Gives P r
    → ((a : A) → P a → Gives Q (f a))
    → Gives Q (or_error r f)
Gives-or_error P Q (ok a) f p k = k a p
Gives-or_error P Q (err e) f p k = p

small-IsTime : {t : ℕ} → IsSmall t → IsTime t
small-IsTime (inl e) = inl e
small-IsTime (inr h) = inr (omega arith)

-- The three values give timeouts in order, or are malformed.
pub timeouts_of-IsOrdered :
    (base : ℕ) (r r₂ r₁ : Result ℕ)
    → base ≤ 9223372036854775808
    → Reading r
    → Reading r₂
    → Reading r₁
    → NoOverflow r
    → Gives IsOrdered (timeouts_of base r r₂ r₁)
timeouts_of-IsOrdered base r r₂ r₁ h q q₂ q₁ no_overflow =
    Gives-or_error IsSmall IsOrdered (lifetime_of r) _ (lifetime-Gives r q no_overflow)
      λ lifetime small.
        Gives-or_error (λ t2. (t2 ≤ lifetime) × IsTime t2) IsOrdered (t2_of lifetime r₂) _
          (t2-Gives lifetime r₂ q₂ small)
          λ t2 p.
            Gives-or_error (λ t1. (t1 ≤ t2) × IsTime t1) IsOrdered (t1_of t2 r₁) _
              (t1-Gives t2 r₁ q₁ p.1)
              λ t1 p'. (
                from_base_mono base t1 t2 h p'.1 p.1 p'.0,
                from_base_mono base t2 lifetime h p.1 (small-IsTime small) p.0,
              )
