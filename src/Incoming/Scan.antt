-- ===== src/Incoming/Scan.antt =====
-- The options of one section of a message, as an independent description: the entries of a
-- type-length-value sequence, in order, up to END, the end of the section or a broken entry.
use n_dhcp.Base.{
  ℕ, zero, suc, ◌+◌, ◌-◌, ◌≤◌, ◌≡◌, refl, Bool, true, false, ◌||◌, List, [], ◌∷◌, ◌++◌,
  append_assoc, append-nil, arith, ◌⊎◌, ltb, ◌==◌, leb, if◌then◌else◌, length, length-append,
  sum_map, sum_map-append, inl, inr,
}
use n_dhcp.Protocol.{
  header_size, sname_offset, sname_size, file_offset, file_size, magic_size, options_offset,
  overloads_file, overloads_sname,
}
use n_dhcp.Protocol.Opt
use n_dhcp.Memory.{slice}
use n_dhcp.Memory.Laws.{length-slice}

-- An option: its code, where its value starts, and how long it is.
pub record Entry : Type 0 where
  pub code : ℕ
  pub value : ℕ
  pub size : ℕ

-- What stands at `pos`: the end of the options, padding, or a whole entry.
pub data Kind : Type 0 where
  stop pad entry : Kind

unfoldable pub kind : (ℕ → ℕ) → ℕ → ℕ → Kind
kind mem end pos =
    if leb end pos
    then stop
    else if mem pos == Opt.pad
    then pad
    else if mem pos == Opt.option_end || leb end (pos + 1)
    then stop
    else if ltb end (pos + 2 + mem (pos + 1))
    then stop
    else entry

abbrev pub entry_at : (ℕ → ℕ) → ℕ → Entry
entry_at mem pos = record { code = mem pos; value = pos + 2; size = mem (pos + 1) }

-- The entries from `pos` on, before `end`; the fuel is more than the bytes left.
unfoldable pub scan : ℕ → (ℕ → ℕ) → ℕ → ℕ → List Entry
scan zero mem end pos = []
scan (suc f) mem end pos = elim (kind mem end pos) [
  | stop ↦ []
  | pad ↦ scan f mem end (pos + 1)
  | entry ↦ entry_at mem pos ∷ scan f mem end (pos + 2 + mem (pos + 1))
]

-- The three cases with their bounds.
pub data Round (mem : ℕ → ℕ) (end pos : ℕ) : Type 0 where
  stops : kind mem end pos ≡ stop → Round mem end pos
  pads : kind mem end pos ≡ pad → pos + 1 ≤ end → Round mem end pos
  enters : kind mem end pos ≡ entry → pos + 2 + mem (pos + 1) ≤ end → Round mem end pos

Kind-cases : (k : Kind) → (k ≡ stop) ⊎ (k ≡ pad) ⊎ (k ≡ entry)
Kind-cases stop = inl refl
Kind-cases pad = inr (inl refl)
Kind-cases entry = inr (inr refl)

pad_bound : (mem : ℕ → ℕ) (end pos : ℕ) → kind mem end pos ≡ pad → pos + 1 ≤ end
unfolding kind
pad_bound mem end pos h = ground arith

entry_bound : (mem : ℕ → ℕ) (end pos : ℕ) → kind mem end pos ≡ entry → pos + 2 + mem (pos + 1) ≤ end
unfolding kind
entry_bound mem end pos h = ground arith

pub round : (mem : ℕ → ℕ) (end pos : ℕ) → Round mem end pos
round mem end pos = elim (Kind-cases (kind mem end pos)) [
  | inl s ↦ stops s
  | inr (inl s) ↦ pads s (pad_bound mem end pos s)
  | inr (inr s) ↦ enters s (entry_bound mem end pos s)
]

module _ (f : ℕ) (mem : ℕ → ℕ) (end pos : ℕ) where
  pub scan-stop : kind mem end pos ≡ stop → scan (suc f) mem end pos ≡ []
  unfolding scan
  scan-stop h = ground arith

  pub scan-pad : kind mem end pos ≡ pad → scan (suc f) mem end pos ≡ scan f mem end (pos + 1)
  unfolding scan
  scan-pad h = ground arith

  pub scan-entry :
      kind mem end pos ≡ entry
      → scan (suc f) mem end pos ≡ entry_at mem pos ∷ scan f mem end (pos + 2 + mem (pos + 1))
  unfolding scan
  scan-entry h = ground arith

-- The value of the entry, if it is wanted.
abbrev pub value_if : (ℕ → ℕ) → Bool → Entry → List ℕ
value_if mem wanted e = if wanted then slice mem e.value e.size else []

-- The values of all the entries with this code, one behind the other.
abbrev pub contents : (ℕ → ℕ) → ℕ → List Entry → List ℕ
contents mem option [] = []
contents mem option (e ∷ es) = value_if mem (e.code == option) e ++ contents mem option es

abbrev pub has_code : ℕ → List Entry → Bool
has_code option [] = false
has_code option (e ∷ es) = e.code == option || has_code option es

abbrev pub total : List Entry → ℕ
total = sum_map (λ (e : Entry). e.size)

pub contents-append :
    (mem : ℕ → ℕ) (option : ℕ) (xs ys : List Entry)
    → contents mem option (xs ++ ys) ≡ contents mem option xs ++ contents mem option ys
contents-append mem option [] ys = refl
contents-append mem option (x ∷ xs) ys = rw (contents-append mem option xs ys) (
    rw (
      append_assoc (value_if mem (x.code == option) x) (contents mem option xs)
        (contents mem option ys)))

pub length-contents :
    (mem : ℕ → ℕ) (option : ℕ) (es : List Entry) → length (contents mem option es) ≤ total es
length-contents mem option [] = omega arith
length-contents mem option (e ∷ es) = ground (
  arith,
  length-contents mem option es,
  length-append (value_if mem (e.code == option) e) (contents mem option es),
  length-slice mem e.value e.size,
)

pub has_code-append :
    (option : ℕ) (xs ys : List Entry)
    → has_code option (xs ++ ys) ≡ (has_code option xs || has_code option ys)
has_code-append option [] ys = refl
has_code-append option (x ∷ xs) ys = ground (arith, has_code-append option xs ys)

-- The entries of a section fit into it.
pub total-scan : (f : ℕ) (mem : ℕ → ℕ) (end pos : ℕ) → total (scan f mem end pos) ≤ end - pos
unfolding scan
total-scan zero mem end pos = omega arith
total-scan (suc f) mem end pos = ground (
  arith,
  total-scan f mem end (pos + 1),
  total-scan f mem end (pos + 2 + mem (pos + 1)),
  entry_bound mem end pos,
)

-- The entries from `pos` to `end`.
unfoldable pub section : (ℕ → ℕ) → ℕ → ℕ → List Entry
unfolding scan
section mem pos end = scan (end - pos + 1) mem end pos

-- The options of a message of n bytes: those of OPTIONS, FILE and SNAME, in this order, the last
-- two as far as the OVERLOAD value enables them.
unfoldable pub message_entries : (ℕ → ℕ) → ℕ → ℕ → List Entry
message_entries mem n overload =
    section mem options_offset n
    ++ ((if overloads_file overload then section mem file_offset (file_offset + file_size) else [])
        ++ (if overloads_sname overload
            then section mem sname_offset (sname_offset + sname_size)
            else []))

total_if : (b : Bool) (es : List Entry) → total (if b then es else []) ≤ total es
total_if true es = omega arith
total_if false es = omega arith

pub total-section : (mem : ℕ → ℕ) (pos end : ℕ) → total (section mem pos end) ≤ end - pos
unfolding section
total-section mem pos end = total-scan (end - pos + 1) mem end pos

total-append : (xs ys : List Entry) → total (xs ++ ys) ≡ total xs + total ys
total-append = sum_map-append (λ e. e.size)

-- All of them together are shorter than the message without its header.
pub total-message_entries :
    (mem : ℕ → ℕ) (n overload : ℕ)
    → options_offset ≤ n
    → total (message_entries mem n overload) + header_size + magic_size ≤ n
unfolding message_entries
total-message_entries mem n overload h =
    bound _ _ _ _ _ (total-section mem 240 n)
      (total_if (overloads_file overload) (section mem 108 236)) (total-section mem 108 236)
      (total_if (overloads_sname overload) (section mem 44 108)) (total-section mem 44 108)
  where
    bound :
        (es fs ss fs' ss' : List Entry)
        → total es ≤ n - 240
        → total fs' ≤ total fs
        → total fs ≤ 128
        → total ss' ≤ total ss
        → total ss ≤ 64
        → total (es ++ (fs' ++ ss')) + 44 + 4 ≤ n
    bound es fs ss fs' ss' a b c d e =
        omega (arith, total-append es (fs' ++ ss'), total-append fs' ss')

-- Without overloading the options are those of the OPTIONS section.
pub message_entries-zero :
    (mem : ℕ → ℕ) (n : ℕ) → message_entries mem n 0 ≡ section mem options_offset n
unfolding message_entries
message_entries-zero mem n = append-nil (section mem options_offset n)
