-- ===== src/Incoming/Refine.antt =====
-- n_dhcp4_incoming_new against the description of a message by its entries.
use n_dhcp.Base.{
  ℕ, ◌+◌, ◌≤◌, ◌<◌, ◌≡◌, refl, sym, ap, ◌∙◌, Bool, true, false, Option, none, some, List, arith,
  ◌==◌, ==→eq, if◌then◌else◌, Bool-cases, ◌⊎◌, inl, inr, length, get_or, le→ltb, le→leb,
}
use mathlib.Core.Bool.{false≢true}
use n_dhcp.Protocol.{Result, ok, err, unset, malformed, options_offset, uint16_max}
use n_dhcp.Protocol.Opt
use n_dhcp.Memory.{Buf, slice, calloc, write, written}
use n_dhcp.Incoming.{Incoming, Slot, is_null, linearize, message_room, new, has_magic}
use n_dhcp.Incoming.Query.{query, slot_result}
use n_dhcp.Incoming.Scan.{Entry, message_entries, contents, has_code}
use n_dhcp.Incoming.Linearize.{Linearized, linearize_lem, overload_of}

-- The bytes that the caller of n_dhcp4_incoming_query can read.
abbrev pub bytes_at : Incoming → Result Slot → Result (List ℕ)
bytes_at i (ok s) = ok (slice i.message.byte s.value s.size)
bytes_at i (err e) = err e

unfoldable pub query_bytes : Incoming → ℕ → Result (List ℕ)
query_bytes i option = bytes_at i (query i option)

abbrev pub byte_of : List ℕ → ℕ → ℕ
byte_of raw j = get_or raw j 0

-- The options of the received bytes, with the sections that its OVERLOAD option enables.
unfoldable pub entries_of : List ℕ → List Entry
entries_of raw = message_entries (byte_of raw) (length raw) (overload_of (byte_of raw) (length raw))

-- What a message says of an option: the concatenation of its values, or that it is not there.
-- OVERLOAD is looked for in OPTIONS only, and is never reported as missing.
unfoldable pub lookup_option : List ℕ → ℕ → Result (List ℕ)
lookup_option raw option =
    if option == Opt.overload
    then ok (contents (byte_of raw) Opt.overload (message_entries (byte_of raw) (length raw) 0))
    else if has_code option (entries_of raw)
    then ok (contents (byte_of raw) option (entries_of raw))
    else err unset

unfoldable pub starts_magic : List ℕ → Bool
starts_magic raw = has_magic (record { size = length raw; byte = byte_of raw })

-- The object as n_dhcp4_incoming_new hands it to linearize.
abbrev start : List ℕ → Incoming
start raw = record {
  options = λ _. none;
  type = 0;
  start_time = 0;
  base_time = 0;
  n_message = length raw;
  message = written (record { size = message_room (length raw); byte = λ _. 0 }) 0 raw;
}

start_agrees : (raw : List ℕ) (j : ℕ) → j < length raw → (start raw).message.byte j ≡ byte_of raw j
start_agrees raw j h = ground arith

-- What n_dhcp4_incoming_new promises of the object that it returns for raw.
pub record Parsed (raw : List ℕ) (i : Incoming) : Type 0 where
  pub length_is : i.n_message ≡ length raw
  pub raw_kept : (j : ℕ) → j < length raw → i.message.byte j ≡ byte_of raw j
  pub answers : (option : ℕ) → query_bytes i option ≡ lookup_option raw option
  pub in_bounds :
      (option : ℕ) (s : Slot)
      → query i option ≡ ok s
      → (length raw ≤ s.value) × (s.value + s.size ≤ i.message.size)

slot_result-eq-ok : (s : Option Slot) (t : Slot) → slot_result s ≡ ok t → s ≡ some t
slot_result-eq-ok none t h = cc
slot_result-eq-ok (some s) t h = cc

module _ (raw : List ℕ) (i : Incoming) (o : ℕ)
    (l : Linearized (byte_of raw) (length raw) (overload_of (byte_of raw) (length raw)) i o) where
  answer :
      (option : ℕ) (s : Option Slot)
      → i.options option ≡ s
      → bytes_at i (slot_result s) ≡ lookup_option raw option
  unfolding lookup_option entries_of
  answer option none e = elim (Bool-cases (option == Opt.overload)) [
    | inl over ↦ absurd (
        false≢true
          (sym l.linear.overload_set ∙ ap is_null (rw (==→eq option Opt.overload over) at e)))
    | inr other ↦ elim (Bool-cases (has_code option (entries_of raw))) [
      | inl has ↦ absurd (false≢true (sym (l.slotted option has) ∙ ap is_null e))
      | inr misses ↦ rw (other, misses)
    ]
  ]
  answer option (some s) e = elim (Bool-cases (option == Opt.overload)) [
    | inl over ↦ rw over (
        ap ok (
          (l.linear.slots option s e).bytes
          ∙ (rw over)
          ∙ ap (λ c. contents (byte_of raw) c (message_entries (byte_of raw) (length raw) 0))
              (==→eq option Opt.overload over)))
    | inr other ↦
        let has : has_code option (entries_of raw) ≡ true =
          elim (l.linear.known option (ap is_null e)) [
            | inl over ↦ absurd (false≢true (sym other ∙ rw over))
            | inr h ↦ h
          ] in
        rw (other, has) (ap ok ((l.linear.slots option s e).bytes ∙ rw other))
  ]

  parsed : ((j : ℕ) → j < length raw → i.message.byte j ≡ byte_of raw j) → Parsed raw i
  unfolding query_bytes query
  parsed kept = record {
    length_is = l.linear.length_is;
    raw_kept = kept;
    answers = λ option. answer option (i.options option) refl;
    in_bounds = λ option s h. bounds option s (slot_result-eq-ok (i.options option) s h);
  }
    where
      bounds :
          (option : ℕ) (s : Slot)
          → i.options option ≡ some s
          → (length raw ≤ s.value) × (s.value + s.size ≤ i.message.size)
      bounds option s h =
          let held = l.linear.slots option s h in
          (held.behind, omega (arith, held.before, l.linear.space))

write-start :
    (raw : List ℕ)
    → options_offset ≤ length raw
    → write (calloc (message_room (length raw))) 0 raw ≡ some (start raw).message
unfolding write calloc
write-start raw lo = rw (le→leb (0 + length raw) (message_room (length raw)) (omega arith))

has_magic_ext :
    (m m' : Buf)
    → ((j : ℕ) → j < options_offset → m.byte j ≡ m'.byte j)
    → has_magic m ≡ has_magic m'
unfolding has_magic
has_magic_ext m m' h =
    rw (h 236 (omega arith), h 237 (omega arith), h 238 (omega arith), h 239 (omega arith))

magic_start :
    (raw : List ℕ) → options_offset ≤ length raw → has_magic (start raw).message ≡ starts_magic raw
unfolding starts_magic
magic_start raw lo =
    has_magic_ext (start raw).message (record { size = length raw; byte = byte_of raw })
      (λ j h. start_agrees raw j (omega arith))

new-eq :
    (raw : List ℕ) (i : Incoming)
    → options_offset ≤ length raw
    → length raw ≤ uint16_max
    → starts_magic raw ≡ true
    → linearize (start raw) ≡ some i
    → new true raw ≡ some (ok i)
unfolding new
new-eq raw i lo hi m e = rw (
  le→ltb (length raw) 240 lo,
  le→ltb 65535 (length raw) hi,
  write-start raw lo,
  magic_start raw lo ∙ m,
  e,
)

-- A well-formed message is parsed without a fault, and the object answers every query as the
-- description of the message does.
pub new-Parsed :
    (raw : List ℕ)
    → options_offset ≤ length raw
    → length raw ≤ uint16_max
    → starts_magic raw ≡ true
    → (i : Incoming) × (new true raw ≡ some (ok i)) × Parsed raw i
new-Parsed raw lo hi m =
    let l =
      linearize_lem (byte_of raw) (length raw) (start raw) lo refl refl (start_agrees raw) refl in
    (l.0, new-eq raw l.0 lo hi m l.2, parsed raw l.0 l.1 l.3 l.3.linear.agree)

pub new-malformed :
    (allocated : Bool) (raw : List ℕ)
    → (length raw < options_offset) ⊎ (uint16_max < length raw)
    → new allocated raw ≡ some (err malformed)
unfolding new
new-malformed allocated raw h = ground arith

pub new-no_magic :
    (raw : List ℕ)
    → options_offset ≤ length raw
    → length raw ≤ uint16_max
    → starts_magic raw ≡ false
    → new true raw ≡ some (err malformed)
unfolding new
new-no_magic raw lo hi m = rw (
  le→ltb (length raw) 240 lo,
  le→ltb 65535 (length raw) hi,
  write-start raw lo,
  magic_start raw lo ∙ m,
)

-- The receiver stores its times in the object, which changes no answer.
pub stamped-Parsed :
    (raw : List ℕ) (i : Incoming) (start base : ℕ)
    → Parsed raw i
    → Parsed raw (record i { start_time = start; base_time = base })
unfolding query_bytes query
stamped-Parsed raw i start base p = record {
  length_is = p.length_is;
  raw_kept = p.raw_kept;
  answers = p.answers;
  in_bounds = p.in_bounds;
}
