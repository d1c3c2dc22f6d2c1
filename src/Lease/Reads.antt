-- ===== src/Lease/Reads.antt =====
-- The options of a message of bytes are bytes, so that a query gives an u32.
use n_dhcp.Base.{
  ℕ, zero, suc, ◌+◌, ◌≤◌, ◌<◌, ◌≡◌, inl, inr, some, List, [], ◌∷◌, arith, ltb, ◌==◌, length, get_or,
  AreBytes, get_or-AreBytes, append-AreBytes, Bool-cases,
}
use n_dhcp.Protocol.{Result, ok, be32}
use n_dhcp.Protocol.Opt
use n_dhcp.Memory.{slice}
use n_dhcp.Incoming.{Incoming}
use n_dhcp.Incoming.Scan.{Entry, contents, has_code, message_entries}
use n_dhcp.Incoming.Refine.{Parsed, lookup_option, byte_of, entries_of}
use n_dhcp.Incoming.Typed.{read_u32}
use n_dhcp.Lease.{Timeouts, get_timeouts}
use n_dhcp.Lease.Ordered.{
  Reading, value, missing, short, Gives, NoOverflow, IsOrdered, options_of, get_timeouts-eq,
  timeouts_of-IsOrdered,
}

module _ (mem : ℕ → ℕ) (bytes : (j : ℕ) → mem j < 256) where
  slice-AreBytes : (i n : ℕ) → AreBytes (slice mem i n)
  slice-AreBytes i zero = tt
  slice-AreBytes i (suc n) = (bytes i, slice-AreBytes (i + 1) n)

  pub contents-AreBytes : (option : ℕ) (es : List Entry) → AreBytes (contents mem option es)
  contents-AreBytes option [] = tt
  contents-AreBytes option (e ∷ es) = elim (Bool-cases (e.code == option)) [
    | inl h ↦ rw h (
        append-AreBytes (slice mem e.value e.size) (contents mem option es)
          (slice-AreBytes e.value e.size) (contents-AreBytes option es))
    | inr h ↦ rw h (contents-AreBytes option es)
  ]

read_u32-Reading : (xs : List ℕ) → AreBytes xs → Reading (read_u32 (ok xs))
read_u32-Reading xs p = elim (Bool-cases (ltb (length xs) 4)) [
  | inl h ↦ rw h short
  | inr h ↦
      let a = get_or-AreBytes xs 0 p in
      let b = get_or-AreBytes xs 1 p in
      let c = get_or-AreBytes xs 2 p in
      let d = get_or-AreBytes xs 3 p in
      rw h
        (value (be32 (get_or xs 0 0) (get_or xs 1 0) (get_or xs 2 0) (get_or xs 3 0)) (omega arith))
]

-- A query for an u32 gives a number below 2^32, or says that the option is missing or too short.
lookup-Reading :
    (raw : List ℕ) (option : ℕ) → AreBytes raw → Reading (read_u32 (lookup_option raw option))
unfolding lookup_option
lookup-Reading raw option bytes = elim (Bool-cases (option == Opt.overload)) [
  | inl h ↦ rw h (
      read_u32-Reading _ (
        contents-AreBytes (byte_of raw) (λ j. get_or-AreBytes raw j bytes) Opt.overload
          (message_entries (byte_of raw) (length raw) 0)))
  | inr h ↦ elim (Bool-cases (has_code option (entries_of raw))) [
    | inl k ↦
        rw (h, k)
          (read_u32-Reading _ (
            contents-AreBytes (byte_of raw) (λ j. get_or-AreBytes raw j bytes) option
              (entries_of raw)))
    | inr k ↦ rw (h, k) missing
  ]
]

-- The timeouts of a parsed message are computed without a fault. If the lifetime is infinite or at
-- most 2635249153 seconds, and the base time at most 2^63 nanoseconds, they are in order, T1 not
-- after T2 and T2 not after the lifetime, whatever the server sent, unless one is malformed.
pub get_timeouts-IsOrdered :
    (raw : List ℕ) (i : Incoming)
    → Parsed raw i
    → AreBytes raw
    → i.base_time ≤ 9223372036854775808
    → NoOverflow (read_u32 (lookup_option raw Opt.ip_address_lease_time))
    → (r : Result Timeouts) × (get_timeouts i ≡ some r) × Gives IsOrdered r
get_timeouts-IsOrdered raw i p bytes h no_overflow = (
  options_of i.base_time raw,
  get_timeouts-eq raw i p,
  timeouts_of-IsOrdered i.base_time _ _ _ h (lookup-Reading raw Opt.ip_address_lease_time bytes)
      (lookup-Reading raw Opt.rebinding_t2_time bytes)
      (lookup-Reading raw Opt.renewal_t1_time bytes) no_overflow,
)
