-- ===== src/Outgoing/Append.antt =====
-- n_dhcp4_outgoing_append on a valid message: where it writes, and what is left.
use n_dhcp.Base.{
  ℕ, ◌+◌, ◌-◌, ◌≤◌, ◌<◌, ◌≡◌, ◌⊎◌, refl, Option, none, some, List, [], ◌∷◌, arith, length, get_or,
  le→leb, lt→ltb, lt→leb,
}
use n_dhcp.Protocol.{Error, magic_offset, options_offset}
use n_dhcp.Protocol.Opt
use n_dhcp.Memory.{Buf, write, written}
use n_dhcp.Outgoing.{Outgoing, append_option, append_done}
use n_dhcp.Outgoing.Valid.{has_magic_kept, Valid, Place}

-- The block with one more option and the END marker behind it.
abbrev pub with_option : Buf → ℕ → ℕ → List ℕ → Buf
with_option m i option value =
    written
      (written (written (written m i (option ∷ [])) (i + 1) (length value ∷ [])) (i + 2) value)
      (i + 2 + length value) (Opt.option_end ∷ [])

abbrev pub appended : Outgoing → ℕ → List ℕ → Outgoing
appended o option value = record o {
  message = with_option o.message o.i_message option value;
  i_message = o.i_message + 2 + length value;
}

pub write-eq-some :
    (b : Buf) (i : ℕ) (xs : List ℕ) → i + length xs ≤ b.size → write b i xs ≡ some (written b i xs)
unfolding write
write-eq-some b i xs h = rw (le→leb (i + length xs) b.size h)

pub append_option-eq-some :
    (o : Outgoing) (option : ℕ) (value : List ℕ)
    → o.i_message + 3 + length value ≤ o.message.size
    → append_option o option value ≡ some (appended o option value)
unfolding append_option
append_option-eq-some o option value h =
    let i = o.i_message in
    let m₁ = written o.message i (option ∷ []) in
    let m₂ = written m₁ (i + 1) (length value ∷ []) in
    let m₃ = written m₂ (i + 2) value in
    rw (
      write-eq-some o.message i (option ∷ []) (omega arith),
      write-eq-some m₁ (i + 1) (length value ∷ []) (omega arith),
      write-eq-some m₂ (i + 2) value (omega arith),
      write-eq-some m₃ (i + 2 + length value) (Opt.option_end ∷ []) (omega arith),
    )

-- What an append leaves alone, and what it writes.
pub with_option_before :
    (m : Buf) (i option : ℕ) (value : List ℕ) (j : ℕ)
    → (j < i) ⊎ (i + 3 + length value ≤ j)
    → (with_option m i option value).byte j ≡ m.byte j
with_option_before m i option value j h = ground arith

pub with_option_code :
    (m : Buf) (i option : ℕ) (value : List ℕ) → (with_option m i option value).byte i ≡ option
with_option_code m i option value = ground arith

pub with_option-length :
    (m : Buf) (i option : ℕ) (value : List ℕ)
    → (with_option m i option value).byte (i + 1) ≡ length value
with_option-length m i option value = ground arith

pub with_option_value :
    (m : Buf) (i option : ℕ) (value : List ℕ) (j : ℕ)
    → j < length value
    → (with_option m i option value).byte (i + 2 + j) ≡ get_or value j 0
with_option_value m i option value j h =
    let e : i + 2 + j - (i + 2) ≡ j = omega arith in
    rw (
      lt→leb (i + 2 + length value) (i + 2 + j) (omega arith),
      le→leb (i + 2) (i + 2 + j) (omega arith),
      lt→ltb (i + 2 + j) (i + 2 + length value) (omega arith),
      e,
    )

pub with_option_end :
    (m : Buf) (i option : ℕ) (value : List ℕ)
    → (with_option m i option value).byte (i + 2 + length value) ≡ Opt.option_end
with_option_end m i option value = ground arith

-- An append inside the allocation, and off the magic number, keeps the message valid.
pub appended-Valid :
    (o : Outgoing) (option : ℕ) (value : List ℕ)
    → Valid o
    → (options_offset ≤ o.i_message) ⊎ (o.i_message + 3 + length value ≤ magic_offset)
    → Place (appended o option value)
    → Valid (appended o option value)
appended-Valid o option value v off place = record {
  size_is = v.size_is;
  at_least = v.at_least;
  at_most = v.at_most;
  no_wrap = v.no_wrap;
  two_bits = v.two_bits;
  place = place;
  end_marked = with_option_end o.message o.i_message option value;
  magic_set =
      has_magic_kept o.message (with_option o.message o.i_message option value)
        (λ j p q. with_option_before o.message o.i_message option value j (omega arith))
        v.magic_set;
}

-- A run that ends without a fault in a valid message, its iterator in an overloaded section.
abbrev pub Safe : Option (Outgoing × Option Error) → Type 0
Safe run =
    (r : Outgoing × Option Error) × (run ≡ some r) × Valid r.0 × (r.0.i_message < options_offset)

pub append_done-Safe :
    (o : Outgoing) (option : ℕ) (value : List ℕ)
    → o.i_message + 3 + length value ≤ o.message.size
    → o.i_message + 2 + length value < options_offset
    → Valid (appended o option value)
    → Safe (append_done o option value)
append_done-Safe o option value fits below v =
    rw (append_option-eq-some o option value fits) ((appended o option value, none), refl, v, below)
