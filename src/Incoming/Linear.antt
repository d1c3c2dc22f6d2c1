-- ===== src/Incoming/Linear.antt =====
-- The state of n_dhcp4_incoming_linearize between two merges: the received bytes are untouched, the
-- slots that are set hold what the message says, and the options still to come fit into the rest
-- of the allocation.
use n_dhcp.Base.{
  ℕ, ◌+◌, ◌≤◌, ◌<◌, ◌≡◌, ◌⊎◌, inl, inr, refl, sym, ◌∙◌, true, false, Option, none, some, List, [],
  ◌∷◌, arith, ◌==◌, ==→eq, if◌then◌else◌, length, length-append, Bool-cases,
}
use mathlib.Core.Bool.{false≢true}
use n_dhcp.Protocol.{options_offset}
use n_dhcp.Protocol.Opt
use n_dhcp.Memory.{Buf, slice}
use n_dhcp.Memory.Laws.{slice_ext, length-slice}
use n_dhcp.Incoming.{Incoming, Slot, merge, set_slot, is_null, message_room}
use n_dhcp.Incoming.Scan.{Entry, message_entries, contents, value_if, has_code}
use n_dhcp.Incoming.Prefetch.{Appends, agree_after}
use n_dhcp.Incoming.Merge.{Merged, merge_lem}

-- The sizes of the entries whose option is not merged yet.
abbrev pub remaining : (ℕ → Option Slot) → List Entry → ℕ
remaining options [] = 0
remaining options (e ∷ es) = (if is_null (options e.code) then e.size else 0) + remaining options es

-- Merging an option takes its values out of what remains.
pub remaining-set_slot :
    (mem : ℕ → ℕ) (options : ℕ → Option Slot) (code : ℕ) (s : Slot) (es : List Entry)
    → options code ≡ none
    → remaining (set_slot options code s) es + length (contents mem code es) ≡ remaining options es
remaining-set_slot mem options code s [] h = refl
remaining-set_slot mem options code s (e ∷ es) h = ground (
  arith,
  remaining-set_slot mem options code s es h,
  length-append (value_if mem (e.code == code) e) (contents mem code es),
  length-slice mem e.value e.size,
)

-- What the slot of an option holds: for OVERLOAD, its values in the OPTIONS section only.
abbrev pub expected : (ℕ → ℕ) → ℕ → ℕ → ℕ → List ℕ
expected mem n overload code =
    if code == Opt.overload
    then contents mem code (message_entries mem n 0)
    else contents mem code (message_entries mem n overload)

-- A slot that lies behind the message, before the next free byte, and holds xs.
pub record Holds (n o : ℕ) (m : Buf) (s : Slot) (xs : List ℕ) : Type 0 where
  pub behind : n ≤ s.value
  pub before : s.value + s.size ≤ o
  pub bytes : slice m.byte s.value s.size ≡ xs

Holds-later :
    {n o o' : ℕ} {m m' : Buf} {s : Slot} {xs ys : List ℕ}
    → Appends m o ys m' o'
    → Holds n o m s xs
    → Holds n o' m' s xs
Holds-later {m} {m'} {s} a h = record {
  behind = h.behind;
  before = omega (arith, a.grown, h.before);
  bytes =
      slice_ext m'.byte m.byte s.value s.size (λ j p q. a.kept j (omega (arith, h.before)))
      ∙ h.bytes;
}

pub Holds-new :
    {n o o' : ℕ} {m m' : Buf} {xs : List ℕ}
    → n ≤ o
    → Appends m o xs m' o'
    → Holds n o' m' (record { value = o; size = length xs }) xs
Holds-new h a = record { behind = h; before = omega (arith, a.grown); bytes = a.holds }

module _ (mem : ℕ → ℕ) (n overload : ℕ) where
  pub record Linear (i : Incoming) (o : ℕ) : Type 0 where
    pub length_is : i.n_message ≡ n
    pub room_is : i.message.size ≡ message_room n
    pub agree : (j : ℕ) → j < n → i.message.byte j ≡ mem j
    pub behind : n ≤ o
    pub space : o + remaining i.options (message_entries mem n overload) ≤ i.message.size
    pub overload_set : is_null (i.options Opt.overload) ≡ false
    pub slots :
        (code : ℕ) (s : Slot)
        → i.options code ≡ some s
        → Holds n o i.message s (expected mem n overload code)
    pub known :
        (code : ℕ)
        → is_null (i.options code) ≡ false
        → (code ≡ Opt.overload) ⊎ (has_code code (message_entries mem n overload) ≡ true)

null_none : (s : Option Slot) → is_null s ≡ true → s ≡ none
null_none none h = refl
null_none (some s) h = cc

pub set_slot_cases :
    (options : ℕ → Option Slot) (code : ℕ) (t : Slot) (c : ℕ) (s : Slot)
    → set_slot options code t c ≡ some s
    → ((c ≡ code) × (s ≡ t)) ⊎ (options c ≡ some s)
set_slot_cases options code t c s h = ground arith

-- An option that is still without a slot is not OVERLOAD.
expected_ne :
    (mem : ℕ → ℕ) (n overload : ℕ) (i : Incoming) (code : ℕ)
    → is_null (i.options Opt.overload) ≡ false
    → is_null (i.options code) ≡ true
    → expected mem n overload code ≡ contents mem code (message_entries mem n overload)
expected_ne mem n overload i code h fresh = elim (Bool-cases (code == Opt.overload)) [
  | inl e ↦ absurd (false≢true (sym h ∙ rw (==→eq code Opt.overload e) at fresh))
  | inr ne ↦ rw ne
]

module _ (mem : ℕ → ℕ) (n overload : ℕ) (i : Incoming) (o code : ℕ) (r : Incoming × ℕ)
    (l : Linear mem n overload i o) (fresh : is_null (i.options code) ≡ true)
    (has : has_code code (message_entries mem n overload) ≡ true)
    (m : Merged i o code (contents mem code (message_entries mem n overload)) r) where
  abbrev xs : List ℕ
  xs = contents mem code (message_entries mem n overload)

  null_after :
      (c : ℕ) → is_null (r.0.options c) ≡ (if c == code then false else is_null (i.options c))
  null_after c = rw m.slots (ground arith)

  slots_after :
      (c : ℕ) (s : Slot)
      → r.0.options c ≡ some s
      → Holds n r.1 r.0.message s (expected mem n overload c)
  slots_after c s h =
      elim (set_slot_cases i.options code (record { value = o; size = length xs }) c s
        (rw m.slots at h)) [
          | inl p ↦
              rw (p.0, p.1, expected_ne mem n overload i code l.overload_set fresh)
                (Holds-new l.behind m.appends)
          | inr old ↦ Holds-later m.appends (l.slots c s old)
        ]

  merged-Linear : Linear mem n overload r.0 r.1
  merged-Linear = record {
    length_is = m.length_kept ∙ l.length_is;
    room_is = m.appends.size_kept ∙ l.room_is;
    agree = agree_after mem n m.appends l.behind l.agree;
    behind = omega (arith, m.appends.grown, l.behind);
    space = rw m.slots (
        omega (
          arith,
          m.appends.grown,
          m.appends.size_kept,
          l.space,
          remaining-set_slot mem i.options code (record { value = o; size = length xs })
              (message_entries mem n overload) (null_none (i.options code) fresh),
        ));
    overload_set = ground (arith, null_after Opt.overload, l.overload_set);
    slots = slots_after;
    known = λ c h. ground (arith, null_after c, l.known c, has);
  }

-- Merging an option that has no slot keeps the state well-formed.
pub merge-Linear :
    (mem : ℕ → ℕ) (n overload : ℕ) (i : Incoming) (o code : ℕ)
    → options_offset ≤ n
    → Linear mem n overload i o
    → is_null (i.options code) ≡ true
    → has_code code (message_entries mem n overload) ≡ true
    → (r : Incoming × ℕ) × (merge i o overload code ≡ some r)
      × Linear mem n overload r.0 r.1
      × ((c : ℕ) → is_null (r.0.options c) ≡ (if c == code then false else is_null (i.options c)))
merge-Linear mem n overload i o code hn l fresh has =
    let fits =
      remaining-set_slot mem i.options code (record { value = o; size = 0 })
        (message_entries mem n overload) (null_none (i.options code) fresh) in
    let m =
      merge_lem mem i o overload code n l.length_is l.agree hn l.behind
        (omega (arith, fits, l.space)) in
    (
      m.0,
      m.1,
      merged-Linear mem n overload i o code m.0 l fresh has m.2,
      null_after mem n overload i o code m.0 l fresh has m.2,
    )
