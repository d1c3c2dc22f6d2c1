-- ===== src/RoundTrip/Overloaded.antt =====
-- What a receiver makes of a message that was overloaded.
use n_dhcp.Base.{ℕ, ◌+◌, ◌≤◌, ◌<◌, ◌≡◌, ◌≢◌, Bool, Option, some, List, arith, length, inl}
use n_dhcp.Protocol.{Error, err, malformed, options_offset}
use n_dhcp.Memory.Laws.{length-slice}
use n_dhcp.Incoming
use n_dhcp.Incoming.Refine.{new-malformed}
use n_dhcp.Outgoing.{Outgoing, append, get_raw}
use n_dhcp.Outgoing.Valid.{Valid, Place, in_options, in_file, in_sname}
use n_dhcp.Outgoing.Overload.{IsPlain, append_full}
use n_dhcp.RoundTrip.{raw_bytes}

length-raw_bytes : (o : Outgoing) → length (raw_bytes o) ≡ o.i_message + 1
unfolding raw_bytes get_raw
length-raw_bytes o = length-slice o.message.byte 0 (o.i_message + 1)

-- FILE and SNAME end in front of OPTIONS.
below : (o : Outgoing) → o.i_message < options_offset → Place o → o.i_message + 1 < options_offset
below o h (in_options a b) = absurd (omega arith)
below o h (in_file a b c d) = omega arith
below o h (in_sname a b c) = omega arith

-- An option that does not fit any more into the OPTIONS section of a message with overloading
-- enabled is accepted or refused, but the raw message is cut off from then on: it ends in front of
-- its OPTIONS, and a receiver finds it malformed.
pub append-cuts_off :
    (allocated received : Bool) (o : Outgoing) (option : ℕ) (value : List ℕ)
    → Valid o
    → IsPlain option
    → options_offset ≤ o.i_message
    → o.i_message + 4 ≤ o.n_message
    → o.overload ≢ 0
    → o.max_size < o.i_message + length value + 6
    → (r : Outgoing × Option Error) × (append allocated o option value ≡ some r)
      × (get_raw r.0 < options_offset)
      × (Incoming.new received (raw_bytes r.0) ≡ some (err malformed))
unfolding get_raw
append-cuts_off allocated received o option value v p lo hi any full =
    let s = append_full allocated o option value v p lo hi any full in
    let short = below s.0.0 s.3 s.2.place in
    (
      s.0,
      s.1,
      short,
      new-malformed received (raw_bytes s.0.0) (inl (omega (arith, length-raw_bytes s.0.0))),
    )
