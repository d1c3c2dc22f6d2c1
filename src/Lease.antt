-- ===== src/Lease.antt =====
-- n-dhcp4-c-lease.c: what the client API tells of a lease. The lease object is its message with
-- the absolute timeouts; a pointer into the message is its offset.
pub mod Ordered
pub mod Reads
pub mod Overflow
mod Tests
use n_dhcp.Base.{
  ℕ, zero, suc, ◌+◌, ◌*◌, ◌/◌, ◌%◌, ◌^◌, Bool, true, false, ◌&&◌, ◌||◌, not, Option, none, some,
  ltb, leb, ◌==◌, if◌then◌else◌, ◌-◌, ◌>>=◌, ◌>>◌, assert,
}
use n_dhcp.Protocol.{
  Error, internal, unset, enomem, Result, ok, err, uint32_max, uint64_max, file_offset, file_size,
  overloads_file, be32,
}
use n_dhcp.Protocol.Opt
use n_dhcp.Memory.{load}
use n_dhcp.Incoming.{Incoming, Slot}
use n_dhcp.Incoming.Query
use n_dhcp.Incoming.Query.{query, query_lifetime, query_t2, query_t1, and_then}

pub record Timeouts : Type 0 where
  pub t1 : ℕ
  pub t2 : ℕ
  pub lifetime : ℕ

-- `struct NDhcp4ClientLease`; `probe` is the probe that the lease is linked into.
pub record Lease : Type 0 where
  pub n_refs : ℕ
  pub probe : Option ℕ
  pub message : Incoming
  pub timeouts : Timeouts

-- Seconds as nanoseconds in an uint64_t, with UINT32_MAX for infinity.
abbrev pub nanoseconds : ℕ → ℕ
nanoseconds u32 = if u32 == uint32_max then uint64_max else u32 * 1000000000 % 2 ^ 64

abbrev pub seven_eighths : ℕ → ℕ
seven_eighths lifetime = lifetime * 7 % 2 ^ 64 / 8

abbrev pub four_sevenths : ℕ → ℕ
four_sevenths t2 = t2 * 4 % 2 ^ 64 / 7

-- The three parts of n_dhcp4_incoming_get_timeouts, on what the query returns.
abbrev pub or_unset : Result ℕ → (ℕ → ℕ) → ℕ → Result ℕ
or_unset (ok u32) f default = ok (f u32)
or_unset (err unset) f default = ok default
or_unset (err e) f default = err e

abbrev pub lifetime_of : Result ℕ → Result ℕ
lifetime_of r = or_unset r nanoseconds uint64_max

abbrev pub t2_of : ℕ → Result ℕ → Result ℕ
t2_of lifetime r =
    or_unset r
      (λ u32. let t2 = nanoseconds u32 in if ltb lifetime t2 then seven_eighths lifetime else t2)
      (if lifetime == uint64_max then uint64_max else seven_eighths lifetime)

abbrev pub t1_of : ℕ → Result ℕ → Result ℕ
t1_of t2 r =
    or_unset r (λ u32. let t1 = nanoseconds u32 in if ltb t2 t1 then four_sevenths t2 else t1)
      (if t2 == uint64_max then uint64_max else four_sevenths t2)

-- The relative time from the base time on, unless it is infinite.
abbrev pub from_base : ℕ → ℕ → ℕ
from_base base t = if t == uint64_max then t else (t + base) % 2 ^ 64

unfoldable pub get_timeouts : Incoming → Option (Result Timeouts)
get_timeouts message =
    and_then (do r ← query_lifetime message; some (lifetime_of r))
      λ lifetime.
        and_then (do r ← query_t2 message; some (t2_of lifetime r))
          λ t2.
            and_then (do r ← query_t1 message; some (t1_of t2 r))
              λ t1. some (
                ok (record {
                  t1 = from_base message.base_time t1;
                  t2 = from_base message.base_time t2;
                  lifetime = from_base message.base_time lifetime;
                }))

-- n_dhcp4_client_lease_new
unfoldable pub new : Bool → Incoming → Option (Result Lease)
new allocated message =
    if not allocated
    then some (err enomem)
    else (and_then (get_timeouts message) λ timeouts.
        some (ok (record { n_refs = 1; probe = none; message = message; timeouts = timeouts })))

-- n_dhcp4_client_lease_ref, and n_dhcp4_client_lease_unref, which frees the lease with its last
-- reference: `none` is a freed lease.
unfoldable pub ref : Lease → Lease
ref lease = record lease { n_refs = (lease.n_refs + 1) % 2 ^ 64 }

unfoldable pub unref : Lease → Option Lease
unref lease =
    let n = (lease.n_refs + (2 ^ 64 - 1)) % 2 ^ 64 in
    if n == 0 then none else some (record lease { n_refs = n })

abbrev pub is_none {ℓ} : {A : Type ℓ} → Option A → Bool
is_none none = true
is_none (some _) = false

-- n_dhcp4_client_lease_link and n_dhcp4_client_lease_unlink; a lease is in the list of its probe if
-- and only if it has a probe.
unfoldable pub link : Lease → ℕ → Option Lease
link lease probe = do assert (is_none lease.probe); some (record lease { probe = some probe })

unfoldable pub unlink : Lease → Lease
unlink lease = record lease { probe = none }

-- n_dhcp4_client_lease_get_yiaddr and its siblings.
unfoldable pub get_yiaddr : Lease → ℕ
get_yiaddr lease = Query.get_yiaddr lease.message

unfoldable pub get_siaddr : Lease → ℕ
get_siaddr lease =
    be32 (lease.message.message.byte 20) (lease.message.message.byte 21)
      (lease.message.message.byte 22) (lease.message.message.byte 23)

unfoldable pub get_basetime : Lease → ℕ
get_basetime lease = lease.message.base_time

unfoldable pub get_lifetime : Lease → ℕ
get_lifetime lease = lease.timeouts.lifetime

unfoldable pub get_server_identifier : Lease → Option (Result ℕ)
get_server_identifier lease = and_then (some (query lease.message Opt.server_identifier)) λ s.
    if ltb s.size 4 then some (err internal) else do
      a ← load lease.message.message s.value
      b ← load lease.message.message (s.value + 1)
      c ← load lease.message.message (s.value + 2)
      d ← load lease.message.message (s.value + 3)
      some (ok (be32 a b c d))

-- memchr(message->file, 0, sizeof(message->file)) on the n bytes from p on.
abbrev pub has_nul : (ℕ → ℕ) → ℕ → ℕ → Bool
has_nul byte p zero = false
has_nul byte p (suc n) = byte p == 0 || has_nul byte (p + 1) n

-- `options[OVERLOAD].size > 0 && (*options[OVERLOAD].value & N_DHCP4_OVERLOAD_FILE)`
abbrev pub file_is_overloaded : Incoming → Option Slot → Option Bool
file_is_overloaded m none = some false
file_is_overloaded m (some s) =
    if ltb 0 s.size then (do v ← load m.message s.value; some (overloads_file v)) else some false

unfoldable pub get_file : Lease → Option (Result ℕ)
get_file lease = do
  overloaded ← file_is_overloaded lease.message (lease.message.options Opt.overload)
  if overloaded
      then some (err unset)
      else if lease.message.message.byte file_offset == 0
      then some (err unset)
      else if not (has_nul lease.message.message.byte file_offset file_size)
      then some (err internal)
      else some (ok file_offset)

-- The options that n_dhcp4_client_lease_query refuses.
abbrev pub is_internal : ℕ → Bool
is_internal option =
    option == Opt.pad
    || (option == Opt.requested_ip_address
        || (option == Opt.ip_address_lease_time
            || (option == Opt.overload
                || (option == Opt.message_type
                    || (option == Opt.server_identifier
                        || (option == Opt.parameter_request_list
                            || (option == Opt.error_message
                                || (option == Opt.maximum_message_size
                                    || (option == Opt.renewal_t1_time
                                        || (option == Opt.rebinding_t2_time
                                            || option == Opt.option_end))))))))))

unfoldable pub query_lease : Lease → ℕ → Result Slot
query_lease lease option = if is_internal option then err internal else query lease.message option
