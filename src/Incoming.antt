-- ===== src/Incoming.antt =====
-- n-dhcp4-incoming.c: the parser of incoming messages. A pointer into `incoming->message` is its
-- offset from the start of the message; `options[o].value == NULL` is `none`.
pub mod Query
pub mod Scan
pub mod Prefetch
pub mod Merge
pub mod Walk
pub mod Linear
pub mod Linearize
pub mod Refine
pub mod Typed
pub mod Accept
mod Tests
use n_dhcp.Base.{
  ℕ, zero, suc, ◌+◌, ◌-◌, ◌*◌, Bool, true, false, ◌&&◌, ◌||◌, not, Option, none, some, List, [],
  ◌∷◌, ltb, leb, ◌==◌, if◌then◌else◌, ◌>>=◌, length,
}
use n_dhcp.Protocol.{
  Error, malformed, enomem, Result, ok, err, header_size, sname_offset, sname_size, file_offset,
  file_size, magic_offset, options_offset, uint16_max, overloads_file, overloads_sname,
}
use n_dhcp.Protocol.Opt
use n_dhcp.Memory.{Buf, calloc, load, write, copy}

pub record Slot : Type 0 where
  pub value : ℕ
  pub size : ℕ

pub record Incoming : Type 0 where
  pub options : ℕ → Option Slot
  pub type : ℕ
  pub start_time : ℕ
  pub base_time : ℕ
  pub n_message : ℕ
  pub message : Buf

-- The loop of n_dhcp4_incoming_prefetch, with fuel for its rounds.
unfoldable pub prefetch : ℕ → ℕ → ℕ → ℕ → ℕ → Buf → ℕ → Option (Buf × ℕ)
prefetch zero option raw n_raw pos m offset = none
prefetch (suc f) option raw n_raw pos m offset = if leb n_raw pos then some (m, offset) else do
  o ← load m (raw + pos)
  let skip = prefetch f option raw n_raw (pos + 1) m offset
  if o == Opt.pad
      then skip
      else if o == Opt.option_end || leb n_raw (pos + 1)
      then some (m, offset)
      else do
        l ← load m (raw + pos + 1)
        if ltb n_raw l || ltb (n_raw - l) (pos + 2) then some (m, offset) else do
          m' ← (if o == option then copy m offset (raw + pos + 2) l else some m)
          prefetch f option raw n_raw (pos + 2 + l) m' (if o == option then offset + l else offset)

-- One call of n_dhcp4_incoming_prefetch. Every round moves `pos` on, so the fuel is enough.
unfoldable pub prefetch_section : Bool → ℕ → ℕ → ℕ → Buf → ℕ → Option (Buf × ℕ)
prefetch_section enabled option raw n_raw m offset =
    if enabled then prefetch (n_raw + 1) option raw n_raw 0 m offset else some (m, offset)

abbrev pub set_slot : (ℕ → Option Slot) → ℕ → Slot → ℕ → Option Slot
set_slot options o s = λ i. if i == o then some s else options i

unfoldable pub merge : Incoming → ℕ → ℕ → ℕ → Option (Incoming × ℕ)
merge incoming pos overload option = do
  (m₁, o₁) ←
      prefetch_section true option options_offset (incoming.n_message - options_offset)
        incoming.message pos
  (m₂, o₂) ← prefetch_section (overloads_file overload) option file_offset file_size m₁ o₁
  (m₃, o₃) ← prefetch_section (overloads_sname overload) option sname_offset sname_size m₂ o₂
  some (
    record incoming {
      options = set_slot incoming.options option (record { value = pos; size = o₃ - pos });
      message = m₃;
    },
    o₃,
  )

abbrev pub is_null : Option Slot → Bool
is_null none = true
is_null (some _) = false

-- The inner loop of n_dhcp4_incoming_linearize, with fuel for its rounds.
unfoldable pub walk : ℕ → ℕ → ℕ → ℕ → Incoming → ℕ → Option (Incoming × ℕ)
walk zero end overload pos incoming offset = none
walk (suc f) end overload pos incoming offset = if leb end pos then some (incoming, offset) else do
  o ← load incoming.message pos
  let skip = walk f end overload (pos + 1) incoming offset
  if o == Opt.pad
      then skip
      else if o == Opt.option_end || leb end (pos + 1)
      then some (incoming, offset)
      else do
        l ← load incoming.message (pos + 1)
        if ltb end l || ltb (end - l) (pos + 2) then some (incoming, offset) else do
          (incoming', offset') ←
              (if is_null (incoming.options o)
                then merge incoming offset overload o
                else some (incoming, offset))
          walk f end overload (pos + 2 + l) incoming' offset'

-- One round of its outer loop, over the section from `pos` to `end`.
unfoldable pub walk_section : Bool → ℕ → ℕ → ℕ → Incoming → ℕ → Option (Incoming × ℕ)
walk_section enabled pos end overload incoming offset =
    if enabled
    then walk (end - pos + 1) end overload pos incoming offset
    else some (incoming, offset)

-- `*options[OVERLOAD].value`, if it has a byte.
unfoldable pub read_overload : Incoming → Option ℕ
read_overload incoming = read (incoming.options Opt.overload)
  where
    read : Option Slot → Option ℕ
    read none = some 0
    read (some s) = if leb 1 s.size then load incoming.message s.value else some 0

unfoldable pub linearize : Incoming → Option Incoming
linearize incoming = do
  (i₀, o₀) ← merge incoming incoming.n_message 0 Opt.overload
  overload ← read_overload i₀
  (i₁, o₁) ← walk_section true options_offset i₀.n_message overload i₀ o₀
  (i₂, o₂) ←
      walk_section (overloads_file overload) file_offset (file_offset + file_size) overload i₁ o₁
  (i₃, o₃) ←
      walk_section (overloads_sname overload) sname_offset (sname_offset + sname_size) overload i₂
        o₂
  some i₃

-- `message.magic != htobe32(N_DHCP4_MESSAGE_MAGIC)`
unfoldable pub has_magic : Buf → Bool
has_magic m =
    m.byte magic_offset == 0x63
    && (m.byte (magic_offset + 1) == 0x82
        && (m.byte (magic_offset + 2) == 0x53 && m.byte (magic_offset + 3) == 0x63))

-- The bytes from `&incoming->message` to the end of the allocation.
abbrev pub message_room : ℕ → ℕ
message_room n_raw = options_offset + (n_raw - options_offset) + (n_raw - header_size)

-- n_dhcp4_incoming_new. `allocated` says whether calloc found the memory.
unfoldable pub new : Bool → List ℕ → Option (Result Incoming)
new allocated raw =
    let n_raw = length raw in
    if ltb n_raw options_offset || ltb uint16_max n_raw
    then some (err malformed)
    else if not allocated
    then some (err enomem)
    else do
      m ← write (calloc (message_room n_raw)) 0 raw
      if not (has_magic m) then some (err malformed) else do
        let incoming : Incoming = record {
          options = λ _. none;
          type = 0;
          start_time = 0;
          base_time = 0;
          n_message = n_raw;
          message = m;
        }
        i ← linearize incoming
        some (ok i)
