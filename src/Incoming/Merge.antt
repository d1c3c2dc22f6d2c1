-- ===== src/Incoming/Merge.antt =====
-- n_dhcp4_incoming_merge appends the values that the three sections hold for one option, and sets
-- its slot to them.
use n_dhcp.Base.{
  ℕ, ◌+◌, ◌-◌, ◌≤◌, ◌<◌, ◌≡◌, refl, ap, subst, ◌∙◌, Bool, true, false, some, List, [], ◌++◌, arith,
  if◌then◌else◌, length, length-append,
}
use n_dhcp.Protocol.{
  sname_offset, sname_size, file_offset, file_size, options_offset, overloads_file, overloads_sname,
}
use n_dhcp.Memory.{Buf}
use n_dhcp.Incoming.{Incoming, prefetch_section, merge, set_slot}
use n_dhcp.Incoming.Scan.{section, message_entries, contents, contents-append}
use n_dhcp.Incoming.Prefetch.{Appends, Appends-nil, Appends-trans, agree_after, prefetch_lem}

prefetch_section_lem :
    (enabled : Bool) (mem : ℕ → ℕ) (option raw n_raw end top : ℕ) (m : Buf) (o : ℕ)
    → end ≡ raw + n_raw
    → ((j : ℕ) → j < top → m.byte j ≡ mem j)
    → end ≤ top
    → top ≤ o
    → o + length (contents mem option (if enabled then section mem raw end else [])) ≤ m.size
    → (r : Buf × ℕ) × (prefetch_section enabled option raw n_raw m o ≡ some r)
      × Appends m o (contents mem option (if enabled then section mem raw end else [])) r.0 r.1
unfolding prefetch_section section
prefetch_section_lem true mem option raw n_raw end top m o e agree he ho room =
    let k : end - raw + 1 ≡ n_raw + 1 = omega arith in
    rw k (
      prefetch_lem (n_raw + 1) mem option raw n_raw 0 end raw top m o e (omega arith) agree he ho
        (rw k at room) (omega arith) (omega arith))
prefetch_section_lem false mem option raw n_raw end top m o e agree he ho room =
    ((m, o), refl, Appends-nil m o)

-- What a call of merge gives.
pub record Merged (i : Incoming) (pos option : ℕ) (xs : List ℕ) (r : Incoming × ℕ) : Type 0 where
  pub appends : Appends i.message pos xs r.0.message r.1
  pub slots : r.0.options ≡ set_slot i.options option (record { value = pos; size = length xs })
  pub length_kept : r.0.n_message ≡ i.n_message

-- The values of the option in the three sections.
module _ (mem : ℕ → ℕ) (n overload option : ℕ) where
  abbrev in_options : List ℕ
  in_options = contents mem option (section mem options_offset n)

  abbrev in_file : List ℕ
  in_file =
      contents mem option
        (if overloads_file overload then section mem file_offset (file_offset + file_size) else [])

  abbrev in_sname : List ℕ
  in_sname = contents mem option (
      if overloads_sname overload then section mem sname_offset (sname_offset + sname_size) else [])

  in_sections :
      contents mem option (message_entries mem n overload) ≡ in_options ++ (in_file ++ in_sname)
  unfolding message_entries
  in_sections =
      contents-append mem option (section mem options_offset n) _
      ∙ ap (λ t. in_options ++ t)
          (contents-append mem option
            (if overloads_file overload
              then section mem file_offset (file_offset + file_size)
              else [])
            _)

-- Merging when the three calls of prefetch gave r₁, r₂ and r₃.
merge_results :
    (i : Incoming) (pos overload option : ℕ) (xs ys zs : List ℕ) (r₁ r₂ r₃ : Buf × ℕ)
    → prefetch_section true option options_offset (i.n_message - options_offset) i.message pos
      ≡ some r₁
    → prefetch_section (overloads_file overload) option file_offset file_size r₁.0 r₁.1 ≡ some r₂
    → prefetch_section (overloads_sname overload) option sname_offset sname_size r₂.0 r₂.1 ≡ some r₃
    → Appends i.message pos xs r₁.0 r₁.1
    → Appends r₁.0 r₁.1 ys r₂.0 r₂.1
    → Appends r₂.0 r₂.1 zs r₃.0 r₃.1
    → (r : Incoming × ℕ) × (merge i pos overload option ≡ some r)
      × Merged i pos option (xs ++ (ys ++ zs)) r
unfolding merge
merge_results i pos overload option xs ys zs r₁ r₂ r₃ e₁ e₂ e₃ a b c =
    rw (e₁, e₂, e₃)
      (
        (
          record i {
            options = set_slot i.options option (record { value = pos; size = r₃.1 - pos });
            message = r₃.0;
          },
          r₃.1,
        ),
        refl,
        record {
          appends = abc;
          slots =
              ap (λ k. set_slot i.options option (record { value = pos; size = k }))
                (omega (arith, abc.grown));
          length_kept = refl;
        },
      )
  where
    abc : Appends i.message pos (xs ++ (ys ++ zs)) r₃.0 r₃.1
    abc = Appends-trans a (Appends-trans b c)

module _ (mem : ℕ → ℕ) (i : Incoming) (pos overload option : ℕ)
    (agree : (j : ℕ) → j < i.n_message → i.message.byte j ≡ mem j)
    (hn : options_offset ≤ i.n_message) (hp : i.n_message ≤ pos)
    (room : pos
        + length (
            in_options mem i.n_message overload option
            ++ (in_file mem i.n_message overload option
                ++ in_sname mem i.n_message overload option))
      ≤ i.message.size) where
  abbrev Outcome : Type 0
  Outcome =
      (r : Incoming × ℕ) × (merge i pos overload option ≡ some r)
      × Merged i pos option
          (in_options mem i.n_message overload option
            ++ (in_file mem i.n_message overload option
                ++ in_sname mem i.n_message overload option))
          r

  lengths :
      pos
        + (length (in_options mem i.n_message overload option)
            + (length (in_file mem i.n_message overload option)
                + length (in_sname mem i.n_message overload option)))
      ≤ i.message.size
  lengths = omega (
    arith,
    length-append (in_options mem i.n_message overload option)
        (in_file mem i.n_message overload option ++ in_sname mem i.n_message overload option),
    length-append (in_file mem i.n_message overload option)
        (in_sname mem i.n_message overload option),
  )

  merge_sname :
      (r₁ r₂ : Buf × ℕ)
      → prefetch_section true option options_offset (i.n_message - options_offset) i.message pos
        ≡ some r₁
      → prefetch_section (overloads_file overload) option file_offset file_size r₁.0 r₁.1 ≡ some r₂
      → Appends i.message pos (in_options mem i.n_message overload option) r₁.0 r₁.1
      → Appends r₁.0 r₁.1 (in_file mem i.n_message overload option) r₂.0 r₂.1
      → Outcome
  merge_sname r₁ r₂ e₁ e₂ a b =
      let c =
        prefetch_section_lem (overloads_sname overload) mem option sname_offset sname_size 108
          i.n_message r₂.0 r₂.1 refl (agree_after mem i.n_message (Appends-trans a b) hp agree)
          (omega arith) (omega (arith, a.grown, b.grown))
          (omega (arith, a.grown, a.size_kept, b.grown, b.size_kept, lengths)) in
      merge_results i pos overload option _ _ _ r₁ r₂ c.0 e₁ e₂ c.1 a b c.2

  merge_file :
      (r₁ : Buf × ℕ)
      → prefetch_section true option options_offset (i.n_message - options_offset) i.message pos
        ≡ some r₁
      → Appends i.message pos (in_options mem i.n_message overload option) r₁.0 r₁.1
      → Outcome
  merge_file r₁ e₁ a =
      let b =
        prefetch_section_lem (overloads_file overload) mem option file_offset file_size 236
          i.n_message r₁.0 r₁.1 refl (agree_after mem i.n_message a hp agree) (omega arith)
          (omega (arith, a.grown)) (omega (arith, a.grown, a.size_kept, lengths)) in
      merge_sname r₁ b.0 e₁ b.1 a b.2

  merge_sections : Outcome
  merge_sections =
      let a =
        prefetch_section_lem true mem option options_offset (i.n_message - options_offset)
          i.n_message i.n_message i.message pos (omega arith) agree (omega arith) hp
          (omega (arith, lengths)) in
      merge_file a.0 a.1 a.2

-- With room behind the message, merge ends without a fault, appends the contents of the whole
-- message for this option, and sets its slot.
abbrev MergesAt : (ℕ → ℕ) → Incoming → ℕ → ℕ → ℕ → ℕ → Type 0
MergesAt mem i pos overload option n =
    ((j : ℕ) → j < n → i.message.byte j ≡ mem j)
    → options_offset ≤ n
    → n ≤ pos
    → pos + length (contents mem option (message_entries mem n overload)) ≤ i.message.size
    → (r : Incoming × ℕ) × (merge i pos overload option ≡ some r)
      × Merged i pos option (contents mem option (message_entries mem n overload)) r

pub merge_lem :
    (mem : ℕ → ℕ) (i : Incoming) (pos overload option n : ℕ)
    → i.n_message ≡ n
    → ((j : ℕ) → j < n → i.message.byte j ≡ mem j)
    → options_offset ≤ n
    → n ≤ pos
    → pos + length (contents mem option (message_entries mem n overload)) ≤ i.message.size
    → (r : Incoming × ℕ) × (merge i pos overload option ≡ some r)
      × Merged i pos option (contents mem option (message_entries mem n overload)) r
merge_lem mem i pos overload option n e =
    subst (MergesAt mem i pos overload option) e (λ agree hn hp room.
      let split = in_sections mem i.n_message overload option in
      rw split (merge_sections mem i pos overload option agree hn hp (rw split at room)))
