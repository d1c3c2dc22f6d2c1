-- ===== src/Outgoing/Valid.antt =====
-- What holds of an outgoing message between two calls.
use n_dhcp.Base.{ℕ, max, ◌+◌, ◌^◌, ◌≤◌, ◌<◌, ◌≡◌, refl, true, some, [], ◌∷◌, arith, lt→ltb}
use n_dhcp.Protocol.{
  ok, sname_offset, sname_size, file_offset, file_size, magic_offset, options_offset, magic,
  overloads_file, overloads_sname,
}
use n_dhcp.Protocol.Opt
use n_dhcp.Memory.{Buf, calloc, write, written}
use n_dhcp.Incoming.{has_magic}
use n_dhcp.Outgoing.{Outgoing, new, minimum, blank}

-- Where the iterator stands, with the space that is kept free behind it.
pub data Place (o : Outgoing) : Type 0 where
  in_options : options_offset ≤ o.i_message → o.i_message + 4 ≤ o.n_message → Place o
  in_file :
      file_offset ≤ o.i_message
      → o.i_message < file_offset + file_size
      → overloads_file o.overload ≡ true
      → (overloads_sname o.overload ≡ true → o.message.byte sname_offset ≡ Opt.option_end)
      → Place o
  in_sname :
      sname_offset ≤ o.i_message
      → o.i_message < sname_offset + sname_size
      → overloads_sname o.overload ≡ true
      → Place o

pub record Valid (o : Outgoing) : Type 0 where
  pub size_is : o.message.size ≡ o.n_message
  pub at_least : minimum ≤ o.n_message
  pub at_most : o.n_message ≤ o.max_size
  pub no_wrap : o.max_size < 2 ^ 64
  pub two_bits : o.overload < 4
  pub place : Place o
  pub end_marked : o.message.byte o.i_message ≡ Opt.option_end
  pub magic_set : has_magic o.message ≡ true

abbrev pub fresh : Buf
fresh =
    written (written (record { size = minimum; byte = λ _. 0 }) magic_offset magic) options_offset
      (Opt.option_end ∷ [])

pub blank-Valid :
    (max_size overload : ℕ)
    → max_size < 2 ^ 64
    → overload < 4
    → Valid (blank fresh max_size overload)
unfolding has_magic
blank-Valid max_size overload h k = record {
  size_is = refl;
  at_least = omega arith;
  at_most = ground arith;
  no_wrap = ground arith;
  two_bits = k;
  place = in_options (omega arith) (omega arith);
  end_marked = refl;
  magic_set = refl;
}

-- A new message is valid and empty.
pub new-Valid :
    (max_size overload : ℕ)
    → max_size < 2 ^ 64
    → overload < 4
    → (o : Outgoing) × (new true max_size overload ≡ some (ok o))
      × Valid o
      × (o.i_message ≡ options_offset)
      × (o.overload ≡ overload)
      × (o.max_size ≤ max minimum max_size)
unfolding new write calloc
new-Valid max_size overload h k = (
  blank fresh max_size overload,
  rw (lt→ltb overload 4 k),
  blank-Valid max_size overload h k,
  refl,
  refl,
  ground arith,
)

pub has_magic_kept :
    (m m' : Buf)
    → ((j : ℕ) → magic_offset ≤ j → j < options_offset → m'.byte j ≡ m.byte j)
    → has_magic m ≡ true
    → has_magic m' ≡ true
unfolding has_magic
has_magic_kept m m' kept h =
    rw
      (
        kept 236 (omega arith) (omega arith),
        kept 237 (omega arith) (omega arith),
        kept 238 (omega arith) (omega arith),
        kept 239 (omega arith) (omega arith),
      )
      h
