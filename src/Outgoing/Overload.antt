-- ===== src/Outgoing/Overload.antt =====
-- The OVERLOAD option, and the whole of n_dhcp4_outgoing_append.
use n_dhcp.Base.{
  ℕ, ◌+◌, ◌-◌, ◌≤◌, ◌<◌, ◌≡◌, ◌≢◌, ◌⊎◌, inl, inr, refl, Bool, true, false, Option, some, List, [],
  ◌∷◌, arith, leb, ◌==◌, ne→==, if◌then◌else◌, length, ◌>>=◌, le→leb, lt→leb, leb→le, Bool-cases,
}
use n_dhcp.Protocol.{
  Error, no_space, enomem, sname_offset, file_offset, magic_offset, options_offset, overloads_file,
  overloads_sname,
}
use n_dhcp.Protocol.Opt
use n_dhcp.Memory.{Buf, write, written}
use n_dhcp.Outgoing.{Outgoing, append_file, append_options, append, start_overload}
use n_dhcp.Outgoing.Valid.{has_magic_kept, Valid, Place, in_options, in_file, in_sname}
use n_dhcp.Outgoing.Append.{appended, append_option-eq-some, Safe, write-eq-some}
use n_dhcp.Outgoing.Safe.{sub_size-eq, append_file-Safe}
use n_dhcp.Outgoing.Options.{Ends, refused, overloaded, stored-Ends, grown-Ends, grown_size_bounds}

-- The message with the OVERLOAD option, its sections started by an END marker as far as they are
-- enabled.
module _ (o : Outgoing) (file sname : Bool) where
  abbrev overload_option : Outgoing
  overload_option = appended o Opt.overload (o.overload ∷ [])

  abbrev file_started : Buf
  file_started =
      if file
      then written overload_option.message file_offset (Opt.option_end ∷ [])
      else overload_option.message

  abbrev sname_started : Buf
  sname_started =
      if sname then written file_started sname_offset (Opt.option_end ∷ []) else file_started

  abbrev started : Outgoing
  started = record overload_option {
    message = sname_started;
    i_message =
        if file then file_offset else if sname then sname_offset else overload_option.i_message;
  }

write_if :
    (b : Bool) (m : Buf) (i : ℕ)
    → i + 1 ≤ m.size
    → (if b then write m i (Opt.option_end ∷ []) else some m)
      ≡ some (if b then written m i (Opt.option_end ∷ []) else m)
write_if true m i h = write-eq-some m i (Opt.option_end ∷ []) (omega arith)
write_if false m i h = refl

file_room :
    (b : Bool) (m : Buf)
    → 45 ≤ m.size
    → 45 ≤ (if b then written m file_offset (Opt.option_end ∷ []) else m).size
file_room true m h = h
file_room false m h = h

-- The two bits of the overload value.
some_bit :
    (overload : ℕ)
    → overload < 4
    → overload ≢ 0
    → (overloads_file overload ≡ true) ⊎ (overloads_sname overload ≡ true)
some_bit overload h k = ground arith

module _ (o : Outgoing) (v : Valid o) (lo : options_offset ≤ o.i_message)
    (hi : o.i_message + 4 ≤ o.n_message) where
  started_magic :
      (file sname : Bool) (j : ℕ)
      → magic_offset ≤ j
      → j < options_offset
      → (started o file sname).message.byte j ≡ o.message.byte j
  started_magic true true j p q = ground arith
  started_magic true false j p q = ground arith
  started_magic false true j p q = ground arith
  started_magic false false j p q = ground arith

  started-Valid :
      (file sname : Bool)
      → overloads_file o.overload ≡ file
      → overloads_sname o.overload ≡ sname
      → (file ≡ true) ⊎ (sname ≡ true)
      → Valid (started o file sname) × ((started o file sname).i_message < options_offset)
  started-Valid true s ef es any = (
    record {
      size_is = ground (arith, v.size_is);
      at_least = v.at_least;
      at_most = v.at_most;
      no_wrap = v.no_wrap;
      two_bits = v.two_bits;
      place = in_file (omega arith) (omega arith) ef (λ h. ground arith);
      end_marked = ground arith;
      magic_set =
          has_magic_kept o.message (started o true s).message (started_magic true s) v.magic_set;
    },
    omega arith,
  )
  started-Valid false true ef es any = (
    record {
      size_is = v.size_is;
      at_least = v.at_least;
      at_most = v.at_most;
      no_wrap = v.no_wrap;
      two_bits = v.two_bits;
      place = in_sname (omega arith) (omega arith) es;
      end_marked = ground arith;
      magic_set =
          has_magic_kept o.message (started o false true).message (started_magic false true)
            v.magic_set;
    },
    omega arith,
  )
  started-Valid false false ef es any = ground arith

  start_overload-eq-some :
      (file sname : Bool)
      → overloads_file o.overload ≡ file
      → overloads_sname o.overload ≡ sname
      → start_overload o ≡ some (started o file sname)
  unfolding start_overload
  start_overload-eq-some file sname ef es =
      let m = overload_option o file sname in
      rw (
        append_option-eq-some o Opt.overload (o.overload ∷ []) (omega (arith, v.size_is)),
        ef,
        es,
        write_if file m.message file_offset (omega (arith, v.size_is)),
        write_if sname (file_started o file sname) sname_offset
            (file_room file m.message (omega (arith, v.size_is))),
      )

-- The append behind the OVERLOAD option leaves the iterator in an overloaded section.
overloaded-Safe :
    (o : Outgoing) (option : ℕ) (value : List ℕ)
    → Valid o
    → options_offset ≤ o.i_message
    → o.i_message + 4 ≤ o.n_message
    → o.overload ≢ 0
    → Safe (start_overload o >>= λ o'. append_file o' option value)
overloaded-Safe o option value v lo hi some_section =
    let file = overloads_file o.overload in
    let sname = overloads_sname o.overload in
    let s =
      started-Valid o v lo hi file sname refl refl (some_bit o.overload v.two_bits some_section) in
    rw (start_overload-eq-some o v lo hi file sname refl refl)
      (append_file-Safe (started o file sname) option value s.0 s.1 s.0.place)

overloaded-Ends :
    (o : Outgoing) (option : ℕ) (value : List ℕ)
    → Valid o
    → options_offset ≤ o.i_message
    → o.i_message + 4 ≤ o.n_message
    → o.overload ≢ 0
    → Ends o option value (start_overload o >>= λ o'. append_file o' option value)
overloaded-Ends o option value v lo hi some_section =
    let r = overloaded-Safe o option value v lo hi some_section in
    (r.0, r.1, r.2, overloaded r.0 some_section r.3)

append_options-Ends :
    (allocated : Bool) (o : Outgoing) (option : ℕ) (value : List ℕ)
    → Valid o
    → options_offset ≤ o.i_message
    → o.i_message + 4 ≤ o.n_message
    → length value ≤ 255
    → Ends o option value (append_options allocated o option value)
unfolding append_options
append_options-Ends allocated o option value v lo hi short =
    let n = length value + 2 + 3 + 1 in
    rw
      (
        sub_size-eq o.n_message o.i_message (omega arith) (omega (arith, v.at_most, v.no_wrap)),
        sub_size-eq o.max_size o.i_message (omega (arith, v.at_most)) v.no_wrap,
      )
      (elim (Bool-cases (leb n (o.n_message - o.i_message))) [
        | inl fits ↦
            let h = leb→le n (o.n_message - o.i_message) fits in
            rw fits (stored-Ends o option value v lo (omega arith))
        | inr full ↦ rw full (elim (Bool-cases (leb n (o.max_size - o.i_message))) [
          | inl grows ↦
              let h = leb→le n (o.max_size - o.i_message) grows in
              let (b, c, d) = grown_size_bounds o (length value) v.at_most in
              rw grows (elim (Bool-cases allocated) [
                | inl yes' ↦
                    rw yes'
                      (grown-Ends o option _ value v lo b c (omega (arith, d (omega arith) hi)))
                | inr no' ↦ rw no' ((o, some enomem), refl, v, refused enomem)
              ])
          | inr stuck ↦ rw stuck (elim (Bool-cases (o.overload == 0)) [
            | inl plain ↦ rw plain ((o, some no_space), refl, v, refused no_space)
            | inr over ↦ rw over (overloaded-Ends o option value v lo hi (λ e. ground arith))
          ])
        ])
      ])

abbrev pub IsPlain : ℕ → Type 0
IsPlain option = (option ≢ Opt.pad) × (option ≢ Opt.option_end) × (option ≢ Opt.overload)

append-plain :
    (allocated : Bool) (o : Outgoing) (option : ℕ) (value : List ℕ)
    → IsPlain option
    → append allocated o option value ≡ (
        if leb options_offset o.i_message
        then append_options allocated o option value
        else append_file o option value)
unfolding append
append-plain allocated o option value p = ground arith

-- While the iterator is in OPTIONS, an append ends without a fault in one of its outcomes.
pub append-Ends :
    (allocated : Bool) (o : Outgoing) (option : ℕ) (value : List ℕ)
    → Valid o
    → IsPlain option
    → length value ≤ 255
    → options_offset ≤ o.i_message
    → o.i_message + 4 ≤ o.n_message
    → Ends o option value (append allocated o option value)
append-Ends allocated o option value v p short lo hi =
    rw (append-plain allocated o option value p, le→leb options_offset o.i_message lo)
      (append_options-Ends allocated o option value v lo hi short)

append_at :
    (allocated : Bool) (o : Outgoing) (option : ℕ) (value : List ℕ)
    → Valid o
    → IsPlain option
    → length value ≤ 255
    → Place o
    → (r : Outgoing × Option Error) × (append allocated o option value ≡ some r) × Valid r.0
append_at allocated o option value v p short (in_options lo hi) =
    let e = append-Ends allocated o option value v p short lo hi in (e.0, e.1, e.2)
append_at allocated o option value v p short (in_file lo hi f m) =
    let e = append_file-Safe o option value v (omega arith) (in_file lo hi f m) in
    rw (append-plain allocated o option value p, lt→leb options_offset o.i_message (omega arith))
      (e.0, e.1, e.2)
append_at allocated o option value v p short (in_sname lo hi s) =
    let e = append_file-Safe o option value v (omega arith) (in_sname lo hi s) in
    rw (append-plain allocated o option value p, lt→leb options_offset o.i_message (omega arith))
      (e.0, e.1, e.2)

-- An append of any option that the caller may pass, to any valid message, ends without a fault and
-- leaves the message valid.
pub append-Valid :
    (allocated : Bool) (o : Outgoing) (option : ℕ) (value : List ℕ)
    → Valid o
    → IsPlain option
    → length value ≤ 255
    → (r : Outgoing × Option Error) × (append allocated o option value ≡ some r) × Valid r.0
append-Valid allocated o option value v p short =
    append_at allocated o option value v p short v.place

-- An option that does not fit into the OPTIONS section, neither into what is allocated nor into
-- what may be, goes to the sections that overloading enables.
pub append_full :
    (allocated : Bool) (o : Outgoing) (option : ℕ) (value : List ℕ)
    → Valid o
    → IsPlain option
    → options_offset ≤ o.i_message
    → o.i_message + 4 ≤ o.n_message
    → o.overload ≢ 0
    → o.max_size < o.i_message + length value + 6
    → Safe (append allocated o option value)
unfolding append_options
append_full allocated o option value v p lo hi any full =
    let n = length value + 2 + 3 + 1 in
    rw
      (
        append-plain allocated o option value p,
        le→leb options_offset o.i_message lo,
        sub_size-eq o.n_message o.i_message (omega arith) (omega (arith, v.at_most, v.no_wrap)),
        sub_size-eq o.max_size o.i_message (omega (arith, v.at_most)) v.no_wrap,
        lt→leb n (o.n_message - o.i_message) (omega (arith, v.at_most)),
        lt→leb n (o.max_size - o.i_message) (omega arith),
        ne→== o.overload 0 any,
      )
      (overloaded-Safe o option value v lo hi any)
