-- ===== src/Incoming/Accept.antt =====
-- Which bytes n_dhcp4_incoming_new accepts, and what a query says of an option that is not there.
use n_dhcp.Base.{
  ℕ, ◌≡◌, ◌⊎◌, inl, inr, Bool, true, false, ◌&&◌, some, List, leb, leb→le, leb→lt, Bool-cases,
  length,
}
use n_dhcp.Protocol.{ok, err, malformed, options_offset, uint16_max}
use n_dhcp.Incoming.{Incoming, new}
use n_dhcp.Incoming.Refine.{starts_magic, Parsed, new-Parsed, new-malformed, new-no_magic}

-- A well-formed message: its length is in the bounds of the parser, and it has the magic value.
unfoldable pub well_formed : List ℕ → Bool
well_formed raw =
    leb options_offset (length raw) && (leb (length raw) uint16_max && starts_magic raw)

-- Given memory, n_dhcp4_incoming_new never leaves defined behaviour on any bytes: it refuses those that are not
-- well-formed as malformed, and it returns an object for all others, which answers every query as
-- the description of the message does.
pub new-total :
    (raw : List ℕ)
    → ((well_formed raw ≡ false) × (new true raw ≡ some (err malformed)))
      ⊎ ((well_formed raw ≡ true) × ((i : Incoming) × (new true raw ≡ some (ok i)) × Parsed raw i))
unfolding well_formed
new-total raw = elim (Bool-cases (leb options_offset (length raw))) [
  | inr low ↦ inl (rw low, new-malformed true raw (inl (leb→lt 240 (length raw) low)))
  | inl lo ↦ elim (Bool-cases (leb (length raw) uint16_max)) [
    | inr high ↦ inl (rw (lo, high), new-malformed true raw (inr (leb→lt (length raw) 65535 high)))
    | inl hi ↦ elim (Bool-cases (starts_magic raw)) [
      | inr m ↦ inl (
        rw (lo, hi, m),
        new-no_magic raw (leb→le 240 (length raw) lo) (leb→le (length raw) 65535 hi) m,
      )
      | inl m ↦ inr (
        rw (lo, hi, m),
        new-Parsed raw (leb→le 240 (length raw) lo) (leb→le (length raw) 65535 hi) m,
      )
    ]
  ]
]
