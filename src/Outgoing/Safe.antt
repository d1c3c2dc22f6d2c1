-- ===== src/Outgoing/Safe.antt =====
-- n_dhcp4_outgoing_append with growth and overloading: the cases of a whole append.
use n_dhcp.Base.{
  ℕ, ◌+◌, ◌-◌, ◌^◌, ◌≤◌, ◌<◌, ◌≡◌, inl, inr, refl, ◌∙◌, true, some, List, arith, leb, length,
  le→leb, lt→leb, leb→le, Bool-cases,
}
use n_dhcp.Protocol.{
  no_space, sname_offset, sname_size, file_offset, file_size, options_offset, overloads_file,
  overloads_sname,
}
use n_dhcp.Protocol.Opt
use n_dhcp.Outgoing.{Outgoing, append_sname, append_file, sub_size}
use n_dhcp.Outgoing.Valid.{Valid, Place, in_options, in_file, in_sname}
use n_dhcp.Outgoing.Append.{with_option_before, appended-Valid, Safe, append_done-Safe}

pub sub_size-eq : (a b : ℕ) → b ≤ a → a < 2 ^ 64 → sub_size a b ≡ a - b
sub_size-eq a b h k = omega arith

-- The free space of the two fixed sections, computed in size_t.
room_left :
    (section size i n : ℕ)
    → section ≤ 1000
    → size ≤ 1000
    → section ≤ i
    → i < section + size
    → leb (n + 2 + 1) (sub_size size (sub_size i section)) ≡ leb (i + 3 + n) (section + size)
room_left section size i n a b c d =
    rw
      (
        sub_size-eq i section c (omega arith),
        sub_size-eq size (i - section) (omega arith) (omega arith),
      )
      (ground arith)

append_sname-Safe :
    (o : Outgoing) (option : ℕ) (value : List ℕ)
    → Valid o
    → sname_offset ≤ o.i_message
    → o.i_message < sname_offset + sname_size
    → overloads_sname o.overload ≡ true
    → Safe (append_sname o option value)
unfolding append_sname
append_sname-Safe o option value v lo hi s =
    rw
      (
        le→leb sname_offset o.i_message lo,
        room_left sname_offset sname_size o.i_message (length value) (omega arith) (omega arith) lo
            hi,
      )
      (elim (Bool-cases (leb (o.i_message + 3 + length value) (sname_offset + sname_size))) [
        | inl fits ↦
            let h = leb→le (o.i_message + 3 + length value) 108 fits in
            rw fits (
              append_done-Safe o option value (omega (arith, v.size_is, v.at_least)) (omega arith) (
                appended-Valid o option value v (inr (omega arith))
                  (in_sname (omega arith) (omega arith) s)))
        | inr full ↦ rw full ((o, some no_space), refl, v, omega arith)
      ])

-- From FILE to SNAME.
to_sname-Valid :
    (o : Outgoing)
    → Valid o
    → o.message.byte sname_offset ≡ Opt.option_end
    → overloads_sname o.overload ≡ true
    → Valid (record o { i_message = sname_offset })
to_sname-Valid o v e s = record {
  size_is = v.size_is;
  at_least = v.at_least;
  at_most = v.at_most;
  no_wrap = v.no_wrap;
  two_bits = v.two_bits;
  place = in_sname (omega arith) (omega arith) s;
  end_marked = e;
  magic_set = v.magic_set;
}

append_file_in_file :
    (o : Outgoing) (option : ℕ) (value : List ℕ)
    → Valid o
    → file_offset ≤ o.i_message
    → o.i_message < file_offset + file_size
    → overloads_file o.overload ≡ true
    → (overloads_sname o.overload ≡ true → o.message.byte sname_offset ≡ Opt.option_end)
    → Safe (append_file o option value)
unfolding append_file
append_file_in_file o option value v lo hi f marked =
    rw
      (
        le→leb file_offset o.i_message lo,
        room_left file_offset file_size o.i_message (length value) (omega arith) (omega arith) lo
            hi,
      )
      (elim (Bool-cases (leb (o.i_message + 3 + length value) (file_offset + file_size))) [
        | inl fits ↦
            let h = leb→le (o.i_message + 3 + length value) 236 fits in
            rw fits (
              append_done-Safe o option value (omega (arith, v.size_is, v.at_least)) (omega arith) (
                appended-Valid o option value v (inr h) (
                  in_file (omega arith) (omega arith) f (λ s.
                    with_option_before o.message o.i_message option value sname_offset
                      (inl (omega arith))
                    ∙ marked s))))
        | inr full ↦ rw full (elim (Bool-cases (overloads_sname o.overload)) [
          | inl s ↦ rw s (
              append_sname-Safe (record o { i_message = sname_offset }) option value
                (to_sname-Valid o v (marked s) s) (omega arith) (omega arith) s)
          | inr n ↦ rw n ((o, some no_space), refl, v, omega arith)
        ])
      ])

append_file_in_sname :
    (o : Outgoing) (option : ℕ) (value : List ℕ)
    → Valid o
    → sname_offset ≤ o.i_message
    → o.i_message < sname_offset + sname_size
    → overloads_sname o.overload ≡ true
    → Safe (append_file o option value)
unfolding append_file
append_file_in_sname o option value v lo hi s =
    rw (lt→leb file_offset o.i_message (omega arith)) (append_sname-Safe o option value v lo hi s)

pub append_file-Safe :
    (o : Outgoing) (option : ℕ) (value : List ℕ)
    → Valid o
    → o.i_message < options_offset
    → Place o
    → Safe (append_file o option value)
append_file-Safe o option value v out (in_options lo _) = absurd (omega arith)
append_file-Safe o option value v out (in_file lo hi f m) =
    append_file_in_file o option value v lo hi f m
append_file-Safe o option value v out (in_sname lo hi s) =
    append_file_in_sname o option value v lo hi s
