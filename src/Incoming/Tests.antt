-- ===== src/Incoming/Tests.antt =====
-- The parser of n-dhcp4-incoming.c on concrete messages.
use n_dhcp.Base.{ℕ, ◌≡◌, ◌⊎◌, refl, true, false, some, List, [], ◌∷◌, ◌++◌, arith, replicate}
use n_dhcp.Protocol.{ok, err, malformed, magic}
use n_dhcp.Protocol.Opt
use n_dhcp.Incoming.{Incoming, new, has_magic}
use n_dhcp.Incoming.Query.{query_u8, query_u16, query_u32}
use n_dhcp.Incoming.Scan.{message_entries, section, scan, kind}
use n_dhcp.Incoming.Linearize.{overload_of}
use n_dhcp.Incoming.Refine.{Parsed, new-Parsed, lookup_option, entries_of, starts_magic}
use n_dhcp.Incoming.Accept.{new-total, well_formed}
use n_dhcp.Incoming.Typed.{query-reads, read_u8, read_u16, read_u32}

-- A header, the magic value, and two options, the second split in two.
abbrev sample : List ℕ
sample =
    replicate 236 0
    ++ magic
    ++ (Opt.message_type ∷ 1 ∷ 2 ∷ Opt.ip_address_lease_time ∷ 2 ∷ 0 ∷ 1 ∷ Opt.pad
        ∷ Opt.ip_address_lease_time ∷ 2 ∷ 2 ∷ 3 ∷ Opt.option_end ∷ [])

sample-starts_magic : starts_magic sample ≡ true
unfolding starts_magic has_magic
sample-starts_magic = refl

new-Parsed_example : (i : Incoming) × (new true sample ≡ some (ok i)) × Parsed sample i
new-Parsed_example = new-Parsed sample (omega arith) (omega arith) sample-starts_magic

new-total_example :
    ((well_formed sample ≡ false) × (new true sample ≡ some (err malformed)))
    ⊎ ((well_formed sample ≡ true)
        × ((i : Incoming) × (new true sample ≡ some (ok i)) × Parsed sample i))
new-total_example = new-total sample

sample-lifetime : lookup_option sample Opt.ip_address_lease_time ≡ ok (0 ∷ 1 ∷ 2 ∷ 3 ∷ [])
unfolding lookup_option entries_of message_entries section scan kind overload_of
sample-lifetime = refl

query-reads_example :
    (query_u8 new-Parsed_example.0 Opt.ip_address_lease_time
      ≡ some (read_u8 (lookup_option sample Opt.ip_address_lease_time)))
    × (query_u16 new-Parsed_example.0 Opt.ip_address_lease_time
        ≡ some (read_u16 (lookup_option sample Opt.ip_address_lease_time)))
    × (query_u32 new-Parsed_example.0 Opt.ip_address_lease_time
        ≡ some (read_u32 (lookup_option sample Opt.ip_address_lease_time)))
query-reads_example =
    query-reads sample new-Parsed_example.0 new-Parsed_example.2 Opt.ip_address_lease_time
