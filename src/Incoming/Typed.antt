-- ===== src/Incoming/Typed.antt =====
-- The typed queries of n-dhcp4-incoming.c, against the values that the message has.
use n_dhcp.Base.{
  ℕ, ◌+◌, ◌<◌, ◌≡◌, refl, sym, ap, ◌∙◌, some, List, arith, ltb, ltb→le, if◌then◌else◌, length,
  get_or, Bool-cases, ◌==◌, inl, inr,
}
use native.Mathlib.Nat.{add-zero}
use n_dhcp.Protocol.{Result, ok, err, unset, malformed, be16, be32}
use n_dhcp.Memory.{slice, load}
use n_dhcp.Memory.Laws.{load-eq-some, length-slice, get_or-slice}
use n_dhcp.Incoming.{Incoming, Slot}
use n_dhcp.Incoming.Query.{query, query_u8, query_u16, query_u32}
use n_dhcp.Protocol.Opt
use n_dhcp.Incoming.Scan.{contents, has_code, message_entries}
use n_dhcp.Incoming.Refine.{byte_of, entries_of, query_bytes, lookup_option, Parsed}

-- What a typed query makes of the bytes of an option.
abbrev pub read_u8 : Result (List ℕ) → Result ℕ
read_u8 (err e) = err e
read_u8 (ok xs) = if ltb (length xs) 1 then err malformed else ok (get_or xs 0 0)

abbrev pub read_u16 : Result (List ℕ) → Result ℕ
read_u16 (err e) = err e
read_u16 (ok xs) =
    if ltb (length xs) 2 then err malformed else ok (be16 (get_or xs 0 0) (get_or xs 1 0))

abbrev pub read_u32 : Result (List ℕ) → Result ℕ
read_u32 (err e) = err e
read_u32 (ok xs) =
    if ltb (length xs) 4
    then err malformed
    else ok (be32 (get_or xs 0 0) (get_or xs 1 0) (get_or xs 2 0) (get_or xs 3 0))

module _ (raw : List ℕ) (i : Incoming) (p : Parsed raw i) where
  value_byte :
      (s : Slot) (option k : ℕ)
      → query i option ≡ ok s
      → k < s.size
      → load i.message (s.value + k) ≡ some (get_or (slice i.message.byte s.value s.size) k 0)
  value_byte s option k q h =
      load-eq-some i.message (s.value + k) (omega (arith, p.in_bounds option s q))
      ∙ ap some (sym (get_or-slice i.message.byte s.value s.size k h))

  first_byte :
      (s : Slot) (option : ℕ)
      → query i option ≡ ok s
      → 0 < s.size
      → load i.message s.value ≡ some (get_or (slice i.message.byte s.value s.size) 0 0)
  first_byte s option q h = rw add-zero at (value_byte s option 0 q h)

  u8_at :
      (option : ℕ) (r : Result Slot)
      → query i option ≡ r
      → query_u8 i option ≡ some (read_u8 (query_bytes i option))
  unfolding query_u8 query_bytes
  u8_at option (err e) q = rw q
  u8_at option (ok s) q =
      rw (q, length-slice i.message.byte s.value s.size)
        (elim (Bool-cases (ltb s.size 1)) [
          | inl short ↦ rw short
          | inr enough ↦
              let h = ltb→le s.size 1 enough in rw (enough, first_byte s option q (omega arith))
        ])

  u16_at :
      (option : ℕ) (r : Result Slot)
      → query i option ≡ r
      → query_u16 i option ≡ some (read_u16 (query_bytes i option))
  unfolding query_u16 query_bytes
  u16_at option (err e) q = rw q
  u16_at option (ok s) q =
      rw (q, length-slice i.message.byte s.value s.size)
        (elim (Bool-cases (ltb s.size 2)) [
          | inl short ↦ rw short
          | inr enough ↦
              let h = ltb→le s.size 2 enough in
              rw
                (enough, first_byte s option q (omega arith), value_byte s option 1 q (omega arith))
        ])

  u32_at :
      (option : ℕ) (r : Result Slot)
      → query i option ≡ r
      → query_u32 i option ≡ some (read_u32 (query_bytes i option))
  unfolding query_u32 query_bytes
  u32_at option (err e) q = rw q
  u32_at option (ok s) q =
      rw (q, length-slice i.message.byte s.value s.size)
        (elim (Bool-cases (ltb s.size 4)) [
          | inl short ↦ rw short
          | inr enough ↦
              let h = ltb→le s.size 4 enough in
              rw (
                enough,
                first_byte s option q (omega arith),
                value_byte s option 1 q (omega arith),
                value_byte s option 2 q (omega arith),
                value_byte s option 3 q (omega arith),
              )
        ])

  -- The typed queries never read outside the allocation. They report a missing option as unset, one
  -- that is too short as malformed, and else read its first bytes in network order.
  pub query-reads :
      (option : ℕ)
      → (query_u8 i option ≡ some (read_u8 (lookup_option raw option)))
        × (query_u16 i option ≡ some (read_u16 (lookup_option raw option)))
        × (query_u32 i option ≡ some (read_u32 (lookup_option raw option)))
  query-reads option = (
    u8_at option (query i option) refl ∙ ap (λ r. some (read_u8 r)) (p.answers option),
    u16_at option (query i option) refl ∙ ap (λ r. some (read_u16 r)) (p.answers option),
    u32_at option (query i option) refl ∙ ap (λ r. some (read_u32 r)) (p.answers option),
  )

-- A query for one byte gives a number, or says that the option is missing or too short.
pub data Answer : Result ℕ → Type 0 where
  value : (u : ℕ) → Answer (ok u)
  missing : Answer (err unset)
  short : Answer (err malformed)

read_u8-Answer : (xs : List ℕ) → Answer (read_u8 (ok xs))
read_u8-Answer xs = elim (Bool-cases (ltb (length xs) 1)) [
  | inl h ↦ rw h short
  | inr h ↦ rw h (value (get_or xs 0 0))
]

pub lookup-Answer : (raw : List ℕ) (option : ℕ) → Answer (read_u8 (lookup_option raw option))
unfolding lookup_option
lookup-Answer raw option = elim (Bool-cases (option == Opt.overload)) [
  | inl h ↦ rw h (
      read_u8-Answer
        (contents (byte_of raw) Opt.overload (message_entries (byte_of raw) (length raw) 0)))
  | inr h ↦ elim (Bool-cases (has_code option (entries_of raw))) [
    | inl k ↦ rw (h, k) (read_u8-Answer (contents (byte_of raw) option (entries_of raw)))
    | inr k ↦ rw (h, k) missing
  ]
]
