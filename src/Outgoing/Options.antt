-- ===== src/Outgoing/Options.antt =====
-- The OPTIONS section: what n_dhcp4_outgoing_append does while the iterator stands there.
use n_dhcp.Base.{
  ℕ, ◌+◌, ◌≤◌, ◌<◌, ◌≡◌, ◌≢◌, inl, refl, ◌∙◌, Option, none, some, List, arith, length, lt→leb,
}
use n_dhcp.Protocol.{Error, options_offset}
use n_dhcp.Memory.{clear_from}
use n_dhcp.Outgoing.{Outgoing, append_done, grow, grown_size}
use n_dhcp.Outgoing.Valid.{has_magic_kept, Valid, in_options}
use n_dhcp.Outgoing.Append.{
  with_option, with_option_before, with_option_end, appended, appended-Valid, append_option-eq-some,
}

-- The outcome of an append to the OPTIONS section: the option is stored behind the others (in a
-- message that may have grown), or the message is unchanged and the error says why, or it went on
-- to the overloaded sections.
pub data Outcome (o : Outgoing) (option : ℕ) (value : List ℕ)
    : Outgoing × Option Error → Type 0 where
  stored :
      (o' : Outgoing)
      → o'.i_message ≡ o.i_message
      → (o'.overload ≡ o.overload) × (o'.max_size ≡ o.max_size)
      → ((j : ℕ) → j < o.i_message → o'.message.byte j ≡ o.message.byte j)
      → Outcome o option value (appended o' option value, none)
  refused : (e : Error) → Outcome o option value (o, some e)
  overloaded :
      (r : Outgoing × Option Error)
      → o.overload ≢ 0
      → r.0.i_message < options_offset
      → Outcome o option value r

abbrev pub Ends : Outgoing → ℕ → List ℕ → Option (Outgoing × Option Error) → Type 0
Ends o option value run =
    (r : Outgoing × Option Error) × (run ≡ some r) × Valid r.0 × Outcome o option value r

clear_before :
    (o : Outgoing) (n j : ℕ) → j < o.i_message → (grow o n).message.byte j ≡ o.message.byte j
unfolding clear_from
clear_before o n j h = rw (lt→leb o.i_message j h)

pub grown_size_bounds :
    (o : Outgoing) (n : ℕ)
    → o.n_message ≤ o.max_size
    → (o.n_message ≤ grown_size o n)
      × (grown_size o n ≤ o.max_size)
      × (o.i_message + n + 6 ≤ o.max_size
          → o.i_message + 4 ≤ o.n_message
          → o.i_message + n + 6 ≤ grown_size o n)
grown_size_bounds o n h = (ground arith, ground arith, λ k l. ground arith)

grown-Valid :
    (o : Outgoing) (option n : ℕ) (value : List ℕ)
    → Valid o
    → options_offset ≤ o.i_message
    → o.n_message ≤ n
    → n ≤ o.max_size
    → o.i_message + length value + 6 ≤ n
    → Valid (appended (grow o n) option value)
unfolding clear_from
grown-Valid o option n value v lo grows fits room = record {
  size_is = refl;
  at_least = omega (arith, v.at_least);
  at_most = fits;
  no_wrap = v.no_wrap;
  two_bits = v.two_bits;
  place = in_options (omega arith) (omega arith);
  end_marked = with_option_end (grow o n).message o.i_message option value;
  magic_set =
      has_magic_kept o.message (with_option (grow o n).message o.i_message option value)
        (λ j p q.
          with_option_before (grow o n).message o.i_message option value j (inl (omega arith))
          ∙ clear_before o n j (omega arith))
        v.magic_set;
}

pub stored-Ends :
    (o : Outgoing) (option : ℕ) (value : List ℕ)
    → Valid o
    → options_offset ≤ o.i_message
    → o.i_message + length value + 6 ≤ o.n_message
    → Ends o option value (append_done o option value)
stored-Ends o option value v lo room =
    rw (append_option-eq-some o option value (omega (arith, v.size_is))) (
      (appended o option value, none),
      refl,
      appended-Valid o option value v (inl lo) (in_options (omega arith) (omega arith)),
      stored o refl (refl, refl) (λ j h. refl),
    )

pub grown-Ends :
    (o : Outgoing) (option n : ℕ) (value : List ℕ)
    → Valid o
    → options_offset ≤ o.i_message
    → o.n_message ≤ n
    → n ≤ o.max_size
    → o.i_message + length value + 6 ≤ n
    → Ends o option value (append_done (grow o n) option value)
unfolding clear_from
grown-Ends o option n value v lo grows fits room =
    rw (append_option-eq-some (grow o n) option value (omega arith)) (
      (appended (grow o n) option value, none),
      refl,
      grown-Valid o option n value v lo grows fits room,
      stored (grow o n) refl (refl, refl) (λ j h. clear_before o n j h),
    )
