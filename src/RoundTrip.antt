-- ===== src/RoundTrip.antt =====
-- A message built by n-dhcp4-outgoing.c, read back by n-dhcp4-incoming.c.
pub mod Decode
pub mod Build
pub mod Overloaded
mod Tests
use n_dhcp.Base.{
  ℕ, ◌+◌, ◌≤◌, ◌<◌, ◌≡◌, ◌≢◌, refl, sym, ap, ap₂, subst, ◌∙◌, Bool, true, false, Option, some, List,
  [], ◌∷◌, ◌++◌, arith, ==→eq, Bool-cases, inl, inr, ◌==◌, if◌then◌else◌, length, get_or,
}
use n_dhcp.Protocol.{Result, ok, err, unset, options_offset, uint16_max, magic_offset}
use n_dhcp.Protocol.Opt
use n_dhcp.Memory.{Buf, slice}
use n_dhcp.Memory.Laws.{length-slice, get_or-slice}
use n_dhcp.Incoming
use n_dhcp.Incoming.{Incoming}
use n_dhcp.Incoming.Query
use n_dhcp.Incoming.Scan.{
  Entry, scan, section, message_entries, message_entries-zero, contents, has_code,
}
use n_dhcp.Incoming.Linearize.{overload_of}
use n_dhcp.Incoming.Refine.{
  query_bytes, byte_of, entries_of, lookup_option, starts_magic, Parsed, new-Parsed,
}
use n_dhcp.Outgoing.{Outgoing, get_raw}
use n_dhcp.Outgoing.Setters
use n_dhcp.Outgoing.Valid.{Valid, has_magic_kept}
use n_dhcp.Outgoing.Carries.{Item, ArePlain, Carries, Encodes-ext}
use n_dhcp.RoundTrip.Decode.{values, has_item, Decodes, scan-Decodes}

-- The bytes that n_dhcp4_outgoing_get_raw hands to the socket.
unfoldable pub raw_bytes : Outgoing → List ℕ
raw_bytes o = slice o.message.byte 0 (get_raw o)

values-overload : (xs : List Item) → ArePlain xs → values Opt.overload xs ≡ []
values-overload [] p = refl
values-overload ((code, value) ∷ xs) p = ground (arith, values-overload xs p.2)

module _ (o : Outgoing) (xs : List Item) (v : Valid o) (c : Carries o xs)
    (plain : ArePlain xs) where
  length-raw_bytes : length (raw_bytes o) ≡ o.i_message + 1
  unfolding raw_bytes get_raw
  length-raw_bytes = length-slice o.message.byte 0 (o.i_message + 1)

  raw_byte : (j : ℕ) → j < o.i_message + 1 → byte_of (raw_bytes o) j ≡ o.message.byte j
  unfolding raw_bytes get_raw
  raw_byte j h =
      get_or-slice o.message.byte 0 (o.i_message + 1) j h ∙ ap o.message.byte (omega arith)

  raw_magic : starts_magic (raw_bytes o) ≡ true
  unfolding starts_magic
  raw_magic =
      has_magic_kept o.message
        (record { size = length (raw_bytes o); byte = byte_of (raw_bytes o) })
        (λ j p q. raw_byte j (omega (arith, c.in_place))) v.magic_set

  raw_Decodes :
      Decodes
        (byte_of (raw_bytes o))
        xs
        (section (byte_of (raw_bytes o)) options_offset (length (raw_bytes o)))
  unfolding section
  raw_Decodes =
      scan-Decodes _ (byte_of (raw_bytes o)) (length (raw_bytes o)) options_offset xs o.i_message
        (Encodes-ext o.message.byte (byte_of (raw_bytes o)) options_offset xs o.i_message
          (λ j lo h. raw_byte j (omega arith)) c.encoded)
        (raw_byte o.i_message (omega arith) ∙ v.end_marked) (omega (arith, length-raw_bytes)) plain
        (omega (arith, c.in_place, length-raw_bytes))

  raw_overload : overload_of (byte_of (raw_bytes o)) (length (raw_bytes o)) ≡ 0
  unfolding overload_of
  raw_overload =
      rw (message_entries-zero, raw_Decodes.contents_are Opt.overload, values-overload xs plain)

  raw_entries :
      entries_of (raw_bytes o)
      ≡ section (byte_of (raw_bytes o)) options_offset (length (raw_bytes o))
  unfolding entries_of
  raw_entries = rw (raw_overload, message_entries-zero)

  raw_lookup :
      (code : ℕ)
      → code ≢ Opt.overload
      → lookup_option (raw_bytes o) code
        ≡ (if has_item code xs then ok (values code xs) else err unset)
  unfolding lookup_option
  raw_lookup code ne = elim (Bool-cases (code == Opt.overload)) [
    | inl over ↦ absurd (ne (==→eq code Opt.overload over))
    | inr other ↦ rw (other, raw_entries, raw_Decodes.codes_are code, raw_Decodes.contents_are code)
  ]

-- What the receiver of the raw bytes of o finds: the transaction id, and the options xs.
pub record ReadsBack (o : Outgoing) (xs : List Item) (i : Incoming) : Type 0 where
  pub xid_same : Query.get_xid i ≡ Setters.get_xid o
  pub options_same :
      (code : ℕ)
      → code ≢ Opt.overload
      → query_bytes i code ≡ (if has_item code xs then ok (values code xs) else err unset)

parsed-ReadsBack :
    (o : Outgoing) (xs : List Item) (i : Incoming)
    → Valid o
    → Carries o xs
    → ArePlain xs
    → Parsed (raw_bytes o) i
    → ReadsBack o xs i
unfolding Query.get_xid Setters.get_xid
parsed-ReadsBack o xs i v c plain p = record {
  xid_same =
      rw (same 4 (omega arith), same 5 (omega arith), same 6 (omega arith), same 7 (omega arith));
  options_same = λ code ne. p.answers code ∙ raw_lookup o xs v c plain code ne;
}
  where
    same : (j : ℕ) → j < 240 → i.message.byte j ≡ o.message.byte j
    same j h =
        p.raw_kept j (omega (arith, length-raw_bytes o xs v c plain, c.in_place))
        ∙ raw_byte o xs v c plain j (omega (arith, c.in_place))

-- A message whose options fit into the OPTIONS section is read back: the receiver of its raw bytes
-- accepts it, finds the transaction id, and for every option but OVERLOAD the values that were
-- appended for it, concatenated; an option that was not appended is reported as unset.
pub read_back :
    (o : Outgoing) (xs : List Item)
    → Valid o
    → Carries o xs
    → ArePlain xs
    → o.i_message < uint16_max
    → (i : Incoming) × (Incoming.new true (raw_bytes o) ≡ some (ok i)) × ReadsBack o xs i
read_back o xs v c plain short =
    let length_is = length-raw_bytes o xs v c plain in
    let p =
      new-Parsed (raw_bytes o) (omega (arith, c.in_place)) (omega arith)
        (raw_magic o xs v c plain) in
    (p.0, p.1, parsed-ReadsBack o xs p.0 v c plain p.2)
