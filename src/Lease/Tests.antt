-- ===== src/Lease/Tests.antt =====
-- The timeouts of concrete leases.
use n_dhcp.Base.{
  ℕ, ◌+◌, ◌≡◌, inl, refl, sym, ◌∙◌, some, true, List, [], ◌∷◌, ◌++◌, arith, replicate, AreBytes,
  append-AreBytes, replicate-AreBytes,
}
use n_dhcp.Protocol.{Result, ok_inj, ok, err, unset, magic}
use n_dhcp.Protocol.Opt
use n_dhcp.Incoming.{Incoming, new, has_magic}
use n_dhcp.Incoming.Scan.{message_entries, section, scan, kind}
use n_dhcp.Incoming.Linearize.{overload_of}
use n_dhcp.Incoming.Refine.{
  Parsed, new-Parsed, lookup_option, entries_of, starts_magic, stamped-Parsed,
}
use n_dhcp.Incoming.Typed.{read_u32}
use n_dhcp.Lease.{Timeouts, get_timeouts}
use n_dhcp.Lease.Ordered.{Gives, IsOrdered}
use n_dhcp.Lease.Reads.{get_timeouts-IsOrdered}
use n_dhcp.Lease.Overflow.{get_timeouts-wrap}

abbrev tail_of : ℕ → ℕ → ℕ → ℕ → List ℕ
tail_of a b c d = magic ++ (Opt.ip_address_lease_time ∷ 4 ∷ a ∷ b ∷ c ∷ d ∷ Opt.option_end ∷ [])

-- A message with a lifetime of these four bytes.
abbrev lease_of : ℕ → ℕ → ℕ → ℕ → List ℕ
lease_of a b c d = replicate 236 0 ++ tail_of a b c d

-- One hour, and about 83 years.
abbrev hour : List ℕ
hour = lease_of 0 0 14 16

abbrev long : List ℕ
long = lease_of 157 18 182 2

hour-starts_magic : starts_magic hour ≡ true
unfolding starts_magic has_magic
hour-starts_magic = refl

long-starts_magic : starts_magic long ≡ true
unfolding starts_magic has_magic
long-starts_magic = refl

parsed_hour : (i : Incoming) × (new true hour ≡ some (ok i)) × Parsed hour i
parsed_hour = new-Parsed hour (omega arith) (omega arith) hour-starts_magic

parsed_long : (i : Incoming) × (new true long ≡ some (ok i)) × Parsed long i
parsed_long = new-Parsed long (omega arith) (omega arith) long-starts_magic

hour-lifetime : read_u32 (lookup_option hour Opt.ip_address_lease_time) ≡ ok 3600
unfolding lookup_option entries_of message_entries section scan kind overload_of
hour-lifetime = refl

long-lifetime : read_u32 (lookup_option long Opt.ip_address_lease_time) ≡ ok 2635249154
unfolding lookup_option entries_of message_entries section scan kind overload_of
long-lifetime = refl

no_t2 : read_u32 (lookup_option long Opt.rebinding_t2_time) ≡ err unset
unfolding lookup_option entries_of message_entries section scan kind overload_of
no_t2 = refl

no_t1 : read_u32 (lookup_option long Opt.renewal_t1_time) ≡ err unset
unfolding lookup_option entries_of message_entries section scan kind overload_of
no_t1 = refl

hour-AreBytes : AreBytes hour
hour-AreBytes =
    append-AreBytes (replicate 236 0) (tail_of 0 0 14 16) (replicate-AreBytes 236 0 (omega arith)) (
      omega arith,
      (
        omega arith,
        (
          omega arith,
          (
            omega arith,
            (
              omega arith,
              (
                omega arith,
                (omega arith, (omega arith, (omega arith, (omega arith, (omega arith, tt))))),
              ),
            ),
          ),
        ),
      ),
    )

abbrev at_ten : Incoming → Incoming
at_ten i = record i { start_time = 10; base_time = 10 }

get_timeouts-IsOrdered_example :
    (r : Result Timeouts) × (get_timeouts (at_ten parsed_hour.0) ≡ some r) × Gives IsOrdered r
get_timeouts-IsOrdered_example =
    get_timeouts-IsOrdered hour (at_ten parsed_hour.0)
      (stamped-Parsed hour parsed_hour.0 10 10 parsed_hour.2) hour-AreBytes (omega arith)
      (λ u e. inl (omega (arith, ok_inj (sym hour-lifetime ∙ e))))

get_timeouts-wrap_example :
    (t : Timeouts) × (get_timeouts (at_ten parsed_long.0) ≡ some (ok t))
    × (t.lifetime ≡ 2635249154000000010)
    × (t.t2 + 2305843009213693952 ≡ 2305843009750000010)
get_timeouts-wrap_example =
    get_timeouts-wrap long (at_ten parsed_long.0) 2635249154
      (stamped-Parsed long parsed_long.0 10 10 parsed_long.2) (omega arith) (omega arith)
      (omega arith) long-lifetime no_t2 no_t1
