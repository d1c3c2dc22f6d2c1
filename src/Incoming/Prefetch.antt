-- ===== src/Incoming/Prefetch.antt =====
-- n_dhcp4_incoming_prefetch appends the values that the scan of its section finds.
use n_dhcp.Base.{
  ℕ, zero, suc, ◌+◌, ◌-◌, ◌≤◌, ◌<◌, ◌≡◌, refl, ap, ap₂, ◌∙◌, Bool, true, false, ◌||◌, some, List,
  [], ◌++◌, arith, ltb, ◌==◌, leb, if◌then◌else◌, length, length-append, inl, ◌>>=◌,
}
use n_dhcp.Memory.{Buf, slice, load, copy, copied}
use n_dhcp.Memory.Laws.{
  length-slice, load-eq-some, copy-eq-some, copied-Copied, slice-Copied, slice-append, slice_ext,
}
use n_dhcp.Incoming.{prefetch}
use n_dhcp.Incoming.Scan.{
  stop, pad, entry, kind, stops, pads, enters, round, scan-stop, scan-pad, scan-entry, entry_at,
  value_if, scan, contents,
}

-- The block m' at offset o' is m at o with xs written behind o, and nothing before o changed.
pub record Appends (m : Buf) (o : ℕ) (xs : List ℕ) (m' : Buf) (o' : ℕ) : Type 0 where
  pub size_kept : m'.size ≡ m.size
  pub kept : (j : ℕ) → j < o → m'.byte j ≡ m.byte j
  pub grown : o' ≡ o + length xs
  pub holds : slice m'.byte o (length xs) ≡ xs

pub Appends-nil : (m : Buf) (o : ℕ) → Appends m o [] m o
Appends-nil m o = record { size_kept = refl; kept = λ j h. refl; grown = omega arith; holds = refl }

pub Appends-trans :
    {m₁ m₂ m₃ : Buf} {o₁ o₂ o₃ : ℕ} {xs ys : List ℕ}
    → Appends m₁ o₁ xs m₂ o₂
    → Appends m₂ o₂ ys m₃ o₃
    → Appends m₁ o₁ (xs ++ ys) m₃ o₃
Appends-trans {m₁} {m₂} {m₃} {o₁} {o₂} {o₃} {xs} {ys} a b = record {
  size_kept = b.size_kept ∙ a.size_kept;
  kept = λ j h. b.kept j (omega (arith, a.grown)) ∙ a.kept j h;
  grown = omega (arith, a.grown, b.grown, length-append xs ys);
  holds = rw (length-append xs ys) (
      slice-append m₃.byte o₁ (length xs) (length ys)
      ∙ ap₂ ◌++◌
          (slice_ext m₃.byte m₂.byte o₁ (length xs) (λ j p q. b.kept j (omega (arith, a.grown)))
            ∙ a.holds)
          (rw (← a.grown) b.holds));
}

pub Appends-copied :
    (mem : ℕ → ℕ) (m : Buf) (o src n : ℕ)
    → ((j : ℕ) → j < src + n → m.byte j ≡ mem j)
    → Appends m o (slice mem src n) (copied m o src n) (o + n)
Appends-copied mem m o src n agree =
    let c = copied-Copied m o src n in
    record {
      size_kept = refl;
      kept = λ j h. c.kept j (inl h);
      grown = omega (arith, length-slice mem src n);
      holds =
          rw (length-slice mem src n)
            (slice-Copied c ∙ slice_ext m.byte mem src n (λ j p q. agree j q));
    }

-- The end of one round that met an entry, wanted or not.
fetched :
    (wanted : Bool) (mem : ℕ → ℕ) (src n : ℕ) (m : Buf) (o : ℕ)
    → ((j : ℕ) → j < src + n → m.byte j ≡ mem j)
    → src + n ≤ o
    → o + length (if wanted then slice mem src n else []) ≤ m.size
    → (m' : Buf) × ((if wanted then copy m o src n else some m) ≡ some m')
      × Appends m o (if wanted then slice mem src n else []) m' (if wanted then o + n else o)
fetched true mem src n m o agree h room = (
  copied m o src n,
  copy-eq-some m o src n (omega (arith, length-slice mem src n)) h,
  Appends-copied mem m o src n agree,
)
fetched false mem src n m o agree h room = (m, refl, Appends-nil m o)

-- The section is unchanged by what is appended behind it.
pub agree_after :
    {m m' : Buf} {o o' : ℕ} {xs : List ℕ} (mem : ℕ → ℕ) (top : ℕ)
    → Appends m o xs m' o'
    → top ≤ o
    → ((j : ℕ) → j < top → m.byte j ≡ mem j)
    → (j : ℕ) → j < top
    → m'.byte j ≡ mem j
agree_after mem top a h agree j p = a.kept j (omega arith) ∙ agree j p

-- The tests of the loop, on positions in the section, are those of the scan, on positions in the message.
pub section_tests :
    (raw n_raw pos end p l : ℕ)
    → end ≡ raw + n_raw
    → p ≡ raw + pos
    → (leb n_raw pos ≡ leb end p)
      × (leb n_raw (pos + 1) ≡ leb end (p + 1))
      × ((ltb n_raw l || ltb (n_raw - l) (pos + 2)) ≡ ltb end (p + 2 + l))
section_tests raw n_raw pos end p l e h = (ground arith, ground arith, ground arith)

pub load_agree :
    (mem : ℕ → ℕ) (m : Buf) (top i p : ℕ)
    → ((j : ℕ) → j < top → m.byte j ≡ mem j)
    → p ≡ i
    → p < top
    → top ≤ m.size
    → load m i ≡ some (mem p)
load_agree mem m top i p agree e h k =
    rw (← e) (load-eq-some m p (omega arith) ∙ ap some (agree p h))

-- One round of the loop, for each thing that can stand at `p`.
module _ (f : ℕ) (mem : ℕ → ℕ) (option raw n_raw pos end p top : ℕ) (m : Buf) (o : ℕ)
    (ee : end ≡ raw + n_raw) (ep : p ≡ raw + pos) (agree : (j : ℕ) → j < top → m.byte j ≡ mem j)
    (he : end ≤ top) (ht : top ≤ m.size) where
  prefetch-stop : kind mem end p ≡ stop → prefetch (suc f) option raw n_raw pos m o ≡ some (m, o)
  unfolding prefetch kind
  prefetch-stop h = ground (
    arith,
    section_tests raw n_raw pos end p (mem (p + 1)),
    load_agree mem m top (raw + pos) p agree,
    load_agree mem m top (raw + pos + 1) (p + 1) agree,
  )

  prefetch-pad :
      kind mem end p ≡ pad
      → prefetch (suc f) option raw n_raw pos m o ≡ prefetch f option raw n_raw (pos + 1) m o
  unfolding prefetch kind
  prefetch-pad h = ground (
    arith,
    section_tests raw n_raw pos end p (mem (p + 1)),
    load_agree mem m top (raw + pos) p agree,
  )

  prefetch-entry :
      kind mem end p ≡ entry
      → prefetch (suc f) option raw n_raw pos m o ≡ (
          (if mem p == option then copy m o (p + 2) (mem (p + 1)) else some m) >>= λ m'.
          prefetch f option raw n_raw
            (pos + 2 + mem (p + 1))
            m'
            (if mem p == option then o + mem (p + 1) else o))
  unfolding prefetch kind
  prefetch-entry h = ground (
    arith,
    section_tests raw n_raw pos end p (mem (p + 1)),
    load_agree mem m top (raw + pos) p agree,
    load_agree mem m top (raw + pos + 1) (p + 1) agree,
  )

-- The loop ends, leaves no bounds, and appends the contents of the scan. `p` is the position in
-- the message that `pos` is in the section.
pub prefetch_lem :
    (f : ℕ) (mem : ℕ → ℕ) (option raw n_raw pos end p top : ℕ) (m : Buf) (o : ℕ)
    → end ≡ raw + n_raw
    → p ≡ raw + pos
    → ((j : ℕ) → j < top → m.byte j ≡ mem j)
    → end ≤ top
    → top ≤ o
    → o + length (contents mem option (scan f mem end p)) ≤ m.size
    → pos ≤ n_raw
    → n_raw < pos + f
    → (r : Buf × ℕ) × (prefetch f option raw n_raw pos m o ≡ some r)
      × Appends m o (contents mem option (scan f mem end p)) r.0 r.1
prefetch_lem zero mem option raw n_raw pos end p top m o ee ep agree he ho room hp fuel =
    absurd (omega arith)
prefetch_lem (suc f) mem option raw n_raw pos end p top m o ee ep agree he ho room hp fuel =
    elim (round mem end p) [
      | stops s ↦
          rw
            (
              scan-stop f mem end p s,
              prefetch-stop f mem option raw n_raw pos end p top m o ee ep agree he (omega arith) s,
            )
            ((m, o), refl, Appends-nil m o)
      | pads s b ↦
          rw
            (
              scan-pad f mem end p s,
              prefetch-pad f mem option raw n_raw pos end p top m o ee ep agree he (omega arith) s,
            )
            (prefetch_lem f mem option raw n_raw (pos + 1) end (p + 1) top m o ee (omega arith)
              agree he ho (rw (scan-pad f mem end p s) at room) (omega arith) (omega arith))
      | enters s b ↦
          let rest = scan f mem end (p + 2 + mem (p + 1)) in
          let value = value_if mem (mem p == option) (entry_at mem p) in
          let room' : o + length (value ++ contents mem option rest) ≤ m.size =
            rw (scan-entry f mem end p s) at room in
          let len = length-append value (contents mem option rest) in
          let step =
            fetched (mem p == option) mem (p + 2) (mem (p + 1)) m o (λ j q. agree j (omega arith))
              (omega arith) (omega arith) in
          let a = step.2 in
          let more =
            prefetch_lem f mem option raw n_raw (pos + 2 + mem (p + 1)) end (p + 2 + mem (p + 1))
              top step.0 (if mem p == option then o + mem (p + 1) else o) ee (omega arith)
              (agree_after mem top a ho agree) he (omega (arith, a.grown))
              (omega (arith, a.grown, a.size_kept)) (omega arith) (omega arith) in
          rw
            (
              scan-entry f mem end p s,
              prefetch-entry f mem option raw n_raw pos end p top m o ee ep agree he (omega arith)
                  s,
              step.1,
            )
            (more.0, more.1, Appends-trans a more.2)
    ]
