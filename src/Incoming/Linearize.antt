-- ===== src/Incoming/Linearize.antt =====
-- n_dhcp4_incoming_linearize runs without a fault and gives every option of the message a slot.
use n_dhcp.Base.{
  ℕ, ◌+◌, ◌-◌, ◌≤◌, ◌<◌, ◌≡◌, refl, sym, ap, subst, ◌∙◌, Bool, true, false, Option, none, some,
  List, [], ◌∷◌, ◌++◌, arith, append-nil, leb, le→leb, if◌then◌else◌, ◌>>=◌, ◌⊎◌, inl, inr, length,
  get_or, length-append,
}
use n_dhcp.Protocol.{
  options_offset, file_offset, file_size, sname_offset, sname_size, overloads_file, overloads_sname,
}
use n_dhcp.Protocol.Opt
use n_dhcp.Memory.{Buf, slice, load}
use n_dhcp.Memory.Laws.{load-eq-some}
use n_dhcp.Incoming.{
  Incoming, Slot, merge, is_null, set_slot, walk_section, read_overload, linearize, message_room,
}
use n_dhcp.Incoming.Scan.{
  Entry, section, message_entries, contents, contents-append, length-contents, has_code,
  has_code-append, total, total-message_entries,
}
use n_dhcp.Incoming.Merge.{Merged, merge_lem}
use n_dhcp.Incoming.Linear.{
  Linear, Holds, remaining, remaining-set_slot, expected, set_slot_cases, Holds-new,
}
use n_dhcp.Incoming.Walk.{Walked, walk_lem}

-- The OVERLOAD value of a message: the first byte of that option in OPTIONS, or 0.
unfoldable pub overload_of : (ℕ → ℕ) → ℕ → ℕ
overload_of mem n = get_or (contents mem Opt.overload (message_entries mem n 0)) 0 0

remaining_all : (es : List Entry) → remaining (λ _. none) es ≡ total es
remaining_all [] = refl
remaining_all (e ∷ es) = omega (arith, remaining_all es)

contents-message_entries-zero :
    (mem : ℕ → ℕ) (code n overload : ℕ)
    → length (contents mem code (message_entries mem n 0))
      ≤ length (contents mem code (message_entries mem n overload))
unfolding message_entries
contents-message_entries-zero mem code n overload = bound (section mem options_offset n) _
  where
    bound :
        (xs ys : List Entry)
        → length (contents mem code (xs ++ [])) ≤ length (contents mem code (xs ++ ys))
    bound xs ys =
        rw (contents-append mem code xs [], contents-append mem code xs ys, append-nil)
          (omega (arith, length-append (contents mem code xs) (contents mem code ys)))

read_found :
    (m : Buf) (n : ℕ) (xs : List ℕ)
    → slice m.byte n (length xs) ≡ xs
    → n < m.size
    → (if leb 1 (length xs) then load m n else some 0) ≡ some (get_or xs 0 0)
read_found m n [] h k = refl
read_found m n (x ∷ xs) h k =
    rw (le→leb 1 (length (x ∷ xs)) (omega arith))
      (load-eq-some m n k ∙ ap (λ t. some (get_or t 0 0)) h)

-- The state before the walk.
module _ (mem : ℕ → ℕ) (n overload : ℕ) (i : Incoming) (r : Incoming × ℕ) (hn : options_offset ≤ n)
    (length_is : i.n_message ≡ n) (room_is : i.message.size ≡ message_room n)
    (agree : (j : ℕ) → j < n → i.message.byte j ≡ mem j) (empty : i.options ≡ (λ _. none))
    (m : Merged i n Opt.overload (contents mem Opt.overload (message_entries mem n 0)) r) where
  abbrev found : List ℕ
  found = contents mem Opt.overload (message_entries mem n 0)

  abbrev slot : Slot
  slot = record { value = n; size = length found }

  first_slots : r.0.options ≡ set_slot (λ _. none) Opt.overload slot
  first_slots = m.slots ∙ ap (λ t. set_slot t Opt.overload slot) empty

  first_space : r.1 + remaining r.0.options (message_entries mem n overload) ≤ r.0.message.size
  first_space = rw first_slots (
      omega (
        arith,
        m.appends.grown,
        m.appends.size_kept,
        remaining-set_slot mem (λ _. none) Opt.overload slot (message_entries mem n overload) refl,
        remaining_all (message_entries mem n overload),
        total-message_entries mem n overload hn,
        contents-message_entries-zero mem Opt.overload n overload,
      ))

  first_slot_is :
      (c : ℕ) (s : Slot)
      → r.0.options c ≡ some s
      → Holds n r.1 r.0.message s (expected mem n overload c)
  first_slot_is c s h =
      elim (set_slot_cases (λ _. none) Opt.overload slot c s (rw first_slots at h)) [
        | inl p ↦ rw (p.0, p.1) (Holds-new (omega arith) m.appends)
        | inr e ↦ cc
      ]

  first-Linear : Linear mem n overload r.0 r.1
  first-Linear = record {
    length_is = m.length_kept ∙ length_is;
    room_is = m.appends.size_kept ∙ room_is;
    agree = λ j h. m.appends.kept j h ∙ agree j h;
    behind = omega (arith, m.appends.grown);
    space = first_space;
    overload_set = rw first_slots;
    slots = first_slot_is;
    known = λ c h. inl (only c (rw first_slots at h));
  }
    where
      only : (c : ℕ) → is_null (set_slot (λ _. none) Opt.overload slot c) ≡ false → c ≡ Opt.overload
      only c h = ground arith

  read_overload_lem : read_overload r.0 ≡ some (overload_of mem n)
  unfolding read_overload overload_of
  read_overload_lem =
      rw first_slots
        (read_found r.0.message n found m.appends.holds (omega (arith, m.appends.size_kept)))

walk_section_lem :
    (enabled : Bool) (mem : ℕ → ℕ) (n overload pos end : ℕ) (i : Incoming) (o : ℕ)
    → options_offset ≤ n
    → end ≤ n
    → pos ≤ end
    → ((c : ℕ)
        → has_code c (if enabled then section mem pos end else []) ≡ true
        → has_code c (message_entries mem n overload) ≡ true)
    → Linear mem n overload i o
    → (r : Incoming × ℕ) × (walk_section enabled pos end overload i o ≡ some r)
      × Walked mem n overload i (if enabled then section mem pos end else []) r
unfolding walk_section section
walk_section_lem true mem n overload pos end i o hn he hp sub l =
    walk_lem (end - pos + 1) mem n overload end pos i o hn he hp (omega arith) sub l
walk_section_lem false mem n overload pos end i o hn he hp sub l =
    ((i, o), refl, record { linear = l; stay = λ c h. h; slotted = λ c h. cc })

-- The three walks, one after the other.
pub record Linearized (mem : ℕ → ℕ) (n overload : ℕ) (i : Incoming) (o : ℕ) : Type 0 where
  pub linear : Linear mem n overload i o
  pub slotted :
      (c : ℕ) → has_code c (message_entries mem n overload) ≡ true → is_null (i.options c) ≡ false

-- An option of the message is one of a section.
has_code_cases :
    (xs ys zs : List Entry) (c : ℕ)
    → has_code c (xs ++ (ys ++ zs)) ≡ true
    → (has_code c xs ≡ true) ⊎ (has_code c ys ≡ true) ⊎ (has_code c zs ≡ true)
has_code_cases xs ys zs c h =
    ground (arith, has_code-append c xs (ys ++ zs), has_code-append c ys zs)

has_code_in :
    (xs ys zs : List Entry) (c : ℕ)
    → (has_code c xs ≡ true) ⊎ (has_code c ys ≡ true) ⊎ (has_code c zs ≡ true)
    → has_code c (xs ++ (ys ++ zs)) ≡ true
has_code_in xs ys zs c h = ground (arith, has_code-append c xs (ys ++ zs), has_code-append c ys zs)

walk_all : ℕ → ℕ → Incoming → ℕ → Option (Incoming × ℕ)
walk_all n overload i o = do
  (i₁, o₁) ← walk_section true options_offset n overload i o
  (i₂, o₂) ←
      walk_section (overloads_file overload) file_offset (file_offset + file_size) overload i₁ o₁
  walk_section (overloads_sname overload) sname_offset (sname_offset + sname_size) overload i₂ o₂

module _ (mem : ℕ → ℕ) (n overload : ℕ) where
  abbrev options_part : List Entry
  options_part = section mem options_offset n

  abbrev file_part : List Entry
  file_part =
      if overloads_file overload then section mem file_offset (file_offset + file_size) else []

  abbrev sname_part : List Entry
  sname_part =
      if overloads_sname overload then section mem sname_offset (sname_offset + sname_size) else []

  part_has :
      (c : ℕ)
      → (has_code c options_part ≡ true)
        ⊎ (has_code c file_part ≡ true)
        ⊎ (has_code c sname_part ≡ true)
      → has_code c (message_entries mem n overload) ≡ true
  unfolding message_entries
  part_has = has_code_in options_part file_part sname_part

  has_part :
      (c : ℕ)
      → has_code c (message_entries mem n overload) ≡ true
      → (has_code c options_part ≡ true)
        ⊎ (has_code c file_part ≡ true)
        ⊎ (has_code c sname_part ≡ true)
  unfolding message_entries
  has_part = has_code_cases options_part file_part sname_part

  slotted_all :
      (i a b c : Incoming × ℕ)
      → Walked mem n overload i.0 options_part a
      → Walked mem n overload a.0 file_part b
      → Walked mem n overload b.0 sname_part c
      → Linearized mem n overload c.0 c.1
  slotted_all i a b c u v w = record {
    linear = w.linear;
    slotted = λ code h. each code (has_part code h);
  }
    where
      each :
          (code : ℕ)
          → (has_code code options_part ≡ true)
            ⊎ (has_code code file_part ≡ true)
            ⊎ (has_code code sname_part ≡ true)
          → is_null (c.0.options code) ≡ false
      each code (inl h) = w.stay code (v.stay code (u.slotted code h))
      each code (inr (inl h)) = w.stay code (v.slotted code h)
      each code (inr (inr h)) = w.slotted code h

  walk_all_lem :
      (i : Incoming) (o : ℕ)
      → options_offset ≤ n
      → Linear mem n overload i o
      → (r : Incoming × ℕ) × (walk_all n overload i o ≡ some r) × Linearized mem n overload r.0 r.1
  unfolding walk_all
  walk_all_lem i o hn l =
      let a =
        walk_section_lem true mem n overload options_offset n i o hn (omega arith) hn
          (λ c h. part_has c (inl h)) l in
      let b =
        walk_section_lem (overloads_file overload) mem n overload file_offset
          (file_offset + file_size) a.0.0 a.0.1 hn (omega arith) (omega arith)
          (λ c h. part_has c (inr (inl h))) a.2.linear in
      let c =
        walk_section_lem (overloads_sname overload) mem n overload sname_offset
          (sname_offset + sname_size) b.0.0 b.0.1 hn (omega arith) (omega arith)
          (λ c h. part_has c (inr (inr h))) b.2.linear in
      rw (a.1, b.1) (c.0, c.1, slotted_all (i, o) a.0 b.0 c.0 a.2 b.2 c.2)

linearize-eq :
    (i : Incoming) (r : Incoming × ℕ) (overload : ℕ)
    → merge i i.n_message 0 Opt.overload ≡ some r
    → read_overload r.0 ≡ some overload
    → linearize i ≡ (walk_all r.0.n_message overload r.0 r.1 >>= λ c. some c.0)
unfolding linearize walk_all
linearize-eq i r overload m o = rw (m, o) (ground arith)

-- Every access of linearize is inside the allocation, its loops end, and it leaves the state
-- well-formed with a slot for each option of the message.
pub linearize_lem :
    (mem : ℕ → ℕ) (n : ℕ) (i : Incoming)
    → options_offset ≤ n
    → i.n_message ≡ n
    → i.message.size ≡ message_room n
    → ((j : ℕ) → j < n → i.message.byte j ≡ mem j)
    → i.options ≡ (λ _. none)
    → (i' : Incoming) × (o : ℕ) × (linearize i ≡ some i')
      × Linearized mem n (overload_of mem n) i' o
linearize_lem mem n i hn e room agree empty =
    let m = merge_lem mem i n 0 Opt.overload n e agree hn (omega arith) (
      omega (
        arith,
        length-contents mem Opt.overload (message_entries mem n 0),
        total-message_entries mem n 0 hn,
      )) in
    let r = m.0 in
    let overload = overload_of mem n in
    let w =
      walk_all_lem mem n overload r.0 r.1 hn
        (first-Linear mem n overload i r hn e room agree empty m.2) in
    (
      w.0.0,
      w.0.1,
      linearize-eq i r overload (subst (λ k. merge i k 0 Opt.overload ≡ some r) (sym e) m.1)
            (read_overload_lem mem n overload i r hn e room agree empty m.2)
          ∙ (ap (λ k. walk_all k overload r.0 r.1 >>= λ c. some c.0) (m.2.length_kept ∙ e)
              ∙ rw w.1),
      w.2,
    )
