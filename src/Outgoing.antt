-- ===== src/Outgoing.antt =====
-- n-dhcp4-outgoing.c: the builder of outgoing messages. A function that changes `*outgoing` returns
-- the new object beside its error code; `none` is the code 0.
pub mod Setters
pub mod Valid
pub mod Append
pub mod Safe
pub mod Options
pub mod Overload
pub mod Carries
pub mod Header
pub mod Userdata
use n_dhcp.Base.{
  ℕ, ◌+◌, ◌-◌, ◌%◌, ◌^◌, Bool, true, false, ◌&&◌, not, Option, none, some, List, [], ◌∷◌, ltb, leb,
  ◌==◌, if◌then◌else◌, ◌>>=◌, ◌>>◌, assert, length,
}
use n_dhcp.Protocol.{
  Error, no_space, enomem, Result, ok, err, sname_offset, sname_size, file_offset, file_size,
  magic_offset, options_offset, magic, ip_maximum_header_size, ip_minimum_max_size, overloads_file,
  overloads_sname,
}
use n_dhcp.Protocol.Opt
use n_dhcp.Memory.{Buf, calloc, write, clear_from}

-- `struct NDhcp4Outgoing`; the fields behind `overload` are its `userdata`.
pub record Outgoing : Type 0 where
  pub message : Buf
  pub n_message : ℕ
  pub i_message : ℕ
  pub max_size : ℕ
  pub overload : ℕ
  pub type : ℕ
  pub message_type : ℕ
  pub client_addr : ℕ
  pub server_id : ℕ
  pub start_time : ℕ
  pub base_time : ℕ
  pub send_time : ℕ
  pub send_jitter : ℕ
  pub n_send : ℕ

-- N_DHCP4_OUTGOING_MAX_PHDR: the IP header and the 8 bytes of the UDP header.
abbrev pub max_phdr : ℕ
max_phdr = ip_maximum_header_size + 8

-- `a - b` of type size_t.
abbrev pub sub_size : ℕ → ℕ → ℕ
sub_size a b = (a + 2 ^ 64 - b) % 2 ^ 64

abbrev pub minimum : ℕ
minimum = ip_minimum_max_size - max_phdr

abbrev pub blank : Buf → ℕ → ℕ → Outgoing
blank message max_size overload = record {
  message = message;
  n_message = minimum;
  i_message = options_offset;
  max_size = if ltb ip_minimum_max_size max_size then max_size - max_phdr else minimum;
  overload = overload;
  type = 0;
  message_type = 0;
  client_addr = 0;
  server_id = 0;
  start_time = 0;
  base_time = 0;
  send_time = 0;
  send_jitter = 0;
  n_send = 0;
}

-- n_dhcp4_outgoing_new. `allocated` says whether both callocs found the memory.
unfoldable pub new : Bool → ℕ → ℕ → Option (Result Outgoing)
new allocated max_size overload = do
  assert (ltb overload 4)
  if not allocated then some (err enomem) else do
    m₁ ← write (calloc minimum) magic_offset magic
    m₂ ← write m₁ options_offset (Opt.option_end ∷ [])
    some (ok (blank m₂ max_size overload))

unfoldable pub get_raw : Outgoing → ℕ
get_raw o = o.i_message + 1

-- n_dhcp4_outgoing_append_option; `n_data` is the length of the data.
unfoldable pub append_option : Outgoing → ℕ → List ℕ → Option Outgoing
append_option o option value = do
  let i = o.i_message
  m₁ ← write o.message i (option ∷ [])
  m₂ ← write m₁ (i + 1) (length value ∷ [])
  m₃ ← write m₂ (i + 2) value
  m₄ ← write m₃ (i + 2 + length value) (Opt.option_end ∷ [])
  some (record o { message = m₄; i_message = i + 2 + length value })

-- `n_dhcp4_outgoing_append_option(...); return 0;`
abbrev pub append_done : Outgoing → ℕ → List ℕ → Option (Outgoing × Option Error)
append_done o option value = do o' ← append_option o option value; some (o', none)

-- The SNAME section, as a last resort.
unfoldable pub append_sname : Outgoing → ℕ → List ℕ → Option (Outgoing × Option Error)
append_sname o option value =
    if leb sname_offset o.i_message
      && leb (length value + 2 + 1) (sub_size sname_size (sub_size o.i_message sname_offset))
    then append_done o option value
    else some (o, some no_space)

-- The FILE section, and SNAME behind it.
unfoldable pub append_file : Outgoing → ℕ → List ℕ → Option (Outgoing × Option Error)
unfolding append_sname
append_file o option value =
    if not (leb file_offset o.i_message)
    then append_sname o option value
    else if leb (length value + 2 + 1) (sub_size file_size (sub_size o.i_message file_offset))
    then append_done o option value
    else if overloads_sname o.overload
    then append_sname (record o { i_message = sname_offset }) option value
    else some (o, some no_space)

-- Insert the OVERLOAD option, and start the sections that it enables.
unfoldable pub start_overload : Outgoing → Option Outgoing
start_overload o = do
  o₁ ← append_option o Opt.overload (o.overload ∷ [])
  m₁ ←
      (if overloads_file o.overload
        then write o₁.message file_offset (Opt.option_end ∷ [])
        else some o₁.message)
  m₂ ← (if overloads_sname o.overload then write m₁ sname_offset (Opt.option_end ∷ []) else some m₁)
  some (record o₁ {
    message = m₂;
    i_message =
        if overloads_file o.overload
        then file_offset
        else if overloads_sname o.overload
        then sname_offset
        else o₁.i_message;
  })

-- The reallocated message, cleared from the iterator on.
abbrev pub grow : Outgoing → ℕ → Outgoing
grow o n = record o {
  message = clear_from (record o.message { size = n }) o.i_message;
  n_message = n;
}

-- The size that realloc is asked for. The sum does not wrap, since a block of memory is far smaller
-- than 2^64 bytes.
abbrev pub grown_size : Outgoing → ℕ → ℕ
grown_size o n_data =
    let n = o.n_message + n_data + 128 in if ltb o.max_size n then o.max_size else n

-- The OPTIONS section, with reallocation; if it is full, OVERLOAD.
unfoldable pub append_options : Bool → Outgoing → ℕ → List ℕ → Option (Outgoing × Option Error)
append_options allocated o option value =
    if leb (length value + 2 + 3 + 1) (sub_size o.n_message o.i_message)
    then append_done o option value
    else if leb (length value + 2 + 3 + 1) (sub_size o.max_size o.i_message)
    then (if not allocated
        then some (o, some enomem)
        else append_done (grow o (grown_size o (length value))) option value)
    else if o.overload == 0
    then some (o, some no_space)
    else do o' ← start_overload o; append_file o' option value

-- n_dhcp4_outgoing_append. `allocated` says whether realloc finds the memory.
unfoldable pub append : Bool → Outgoing → ℕ → List ℕ → Option (Outgoing × Option Error)
append allocated o option value = do
  assert (not (option == Opt.pad))
  assert (not (option == Opt.option_end))
  assert (not (option == Opt.overload))
  if leb options_offset o.i_message
      then append_options allocated o option value
      else append_file o option value
