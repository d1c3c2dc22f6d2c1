-- ===== src/Incoming/Walk.antt =====
-- The loops of n_dhcp4_incoming_linearize give every option of the walked section a slot.
use n_dhcp.Base.{
  ℕ, zero, suc, ◌+◌, ◌≤◌, ◌<◌, ◌≡◌, refl, subst, true, false, Option, some, List, ◌∷◌, arith, ◌==◌,
  ==→eq, ◌⊎◌, if◌then◌else◌, ◌>>=◌, Bool-cases, inl, inr,
}
use mathlib.Core.Bool.{false≢true}
use n_dhcp.Protocol.{options_offset}
use n_dhcp.Incoming.{Incoming, merge, is_null, walk}
use n_dhcp.Incoming.Scan.{
  stop, pad, entry, kind, stops, pads, enters, round, scan-stop, scan-pad, scan-entry, Entry,
  entry_at, scan, message_entries, has_code,
}
use n_dhcp.Incoming.Prefetch.{load_agree}
use n_dhcp.Incoming.Linear.{Linear, merge-Linear}

-- The call that a round makes for an option: none, if it has a slot.
abbrev merge_fresh : Incoming → ℕ → ℕ → ℕ → Option (Incoming × ℕ)
merge_fresh i o overload code =
    if is_null (i.options code) then merge i o overload code else some (i, o)

module _ (f : ℕ) (mem : ℕ → ℕ) (end overload p top : ℕ) (i : Incoming) (o : ℕ)
    (agree : (j : ℕ) → j < top → i.message.byte j ≡ mem j) (he : end ≤ top)
    (ht : top ≤ i.message.size) where
  walk-stop : kind mem end p ≡ stop → walk (suc f) end overload p i o ≡ some (i, o)
  unfolding walk kind
  walk-stop h = ground (
    arith,
    load_agree mem i.message top p p agree refl,
    load_agree mem i.message top (p + 1) (p + 1) agree refl,
  )

  walk-pad :
      kind mem end p ≡ pad → walk (suc f) end overload p i o ≡ walk f end overload (p + 1) i o
  unfolding walk kind
  walk-pad h = ground (arith, load_agree mem i.message top p p agree refl)

  walk-entry :
      kind mem end p ≡ entry
      → walk (suc f) end overload p i o ≡ (
          merge_fresh i o overload (mem p) >>= λ r.
          walk f end overload (p + 2 + mem (p + 1)) r.0 r.1)
  unfolding walk kind
  walk-entry h = ground (
    arith,
    load_agree mem i.message top p p agree refl,
    load_agree mem i.message top (p + 1) (p + 1) agree refl,
  )

-- What the walk over es makes of the state.
pub record Walked (mem : ℕ → ℕ) (n overload : ℕ) (i : Incoming) (es : List Entry) (r : Incoming × ℕ)
    : Type 0 where
  pub linear : Linear mem n overload r.0 r.1
  pub stay : (c : ℕ) → is_null (i.options c) ≡ false → is_null (r.0.options c) ≡ false
  pub slotted : (c : ℕ) → has_code c es ≡ true → is_null (r.0.options c) ≡ false

merge_fresh_lem :
    (mem : ℕ → ℕ) (n overload : ℕ) (i : Incoming) (o code : ℕ)
    → options_offset ≤ n
    → Linear mem n overload i o
    → has_code code (message_entries mem n overload) ≡ true
    → (r : Incoming × ℕ) × (merge_fresh i o overload code ≡ some r)
      × Linear mem n overload r.0 r.1
      × ((c : ℕ) → is_null (i.options c) ≡ false → is_null (r.0.options c) ≡ false)
      × (is_null (r.0.options code) ≡ false)
merge_fresh_lem mem n overload i o code hn l has = elim (Bool-cases (is_null (i.options code))) [
  | inl fresh ↦
      let m = merge-Linear mem n overload i o code hn l fresh has in
      rw fresh (m.0, m.1, m.2, (λ c h. ground (arith, m.3 c, h)), ground (arith, m.3 code))
  | inr old ↦ rw old ((i, o), refl, l, (λ c h. h), old)
]

Walked-cons :
    (mem : ℕ → ℕ) (n overload : ℕ) (i j : Incoming) (e : Entry) (es : List Entry) (r : Incoming × ℕ)
    → ((c : ℕ) → is_null (i.options c) ≡ false → is_null (j.options c) ≡ false)
    → is_null (j.options e.code) ≡ false
    → Walked mem n overload j es r
    → Walked mem n overload i (e ∷ es) r
Walked-cons mem n overload i j e es r stay here w = record {
  linear = w.linear;
  stay = λ c h. w.stay c (stay c h);
  slotted = λ c h. slots c h (Bool-cases (e.code == c));
}
  where
    slots :
        (c : ℕ)
        → has_code c (e ∷ es) ≡ true
        → (e.code == c ≡ true) ⊎ (e.code == c ≡ false)
        → is_null (r.0.options c) ≡ false
    slots c h (inl same) =
        subst (λ k. is_null (r.0.options k) ≡ false) (==→eq e.code c same) (w.stay e.code here)
    slots c h (inr other) = w.slotted c (rw other at h)

pub walk_lem :
    (f : ℕ) (mem : ℕ → ℕ) (n overload end p : ℕ) (i : Incoming) (o : ℕ)
    → options_offset ≤ n
    → end ≤ n
    → p ≤ end
    → end < p + f
    → ((c : ℕ)
        → has_code c (scan f mem end p) ≡ true
        → has_code c (message_entries mem n overload) ≡ true)
    → Linear mem n overload i o
    → (r : Incoming × ℕ) × (walk f end overload p i o ≡ some r)
      × Walked mem n overload i (scan f mem end p) r
walk_lem zero mem n overload end p i o hn he hp fuel sub l = absurd (omega arith)
walk_lem (suc f) mem n overload end p i o hn he hp fuel sub l =
    let size = l.room_is in
    elim (round mem end p) [
      | stops s ↦
          rw
            (
              scan-stop f mem end p s,
              walk-stop f mem end overload p n i o l.agree he (omega arith) s,
            )
            (
              (i, o),
              refl,
              record { linear = l; stay = λ c h. h; slotted = λ c h. absurd (false≢true h) },
            )
      | pads s b ↦
          rw
            (scan-pad f mem end p s, walk-pad f mem end overload p n i o l.agree he (omega arith) s)
            (walk_lem f mem n overload end (p + 1) i o hn he b (omega arith)
              (rw (scan-pad f mem end p s) at sub) l)
      | enters s b ↦
          let sub' = rw (scan-entry f mem end p s) at sub in
          let m = merge_fresh_lem mem n overload i o (mem p) hn l (sub' (mem p) (ground arith)) in
          let w =
            walk_lem f mem n overload end (p + 2 + mem (p + 1)) m.0.0 m.0.1 hn he b (omega arith)
              (λ c h. sub' c (ground (arith, h))) m.2 in
          rw
            (
              scan-entry f mem end p s,
              walk-entry f mem end overload p n i o l.agree he (omega arith) s,
              m.1,
            )
            (w.0, w.1, Walked-cons mem n overload i m.0.0 (entry_at mem p) _ w.0 m.3 m.4 w.2)
    ]
