-- ===== src/Memory/Laws.antt =====
-- What the memory operations do: in bounds they succeed, and they change nothing else.
use n_dhcp.Base.{
  ℕ, zero, suc, ◌+◌, ◌-◌, ◌≤◌, ◌<◌, ◌≡◌, refl, ap, ap₂, subst, ◌∙◌, ◌⊎◌, some, List, [], ◌∷◌, ◌++◌,
  arith, le→leb, lt→ltb, length, get_or,
}
use native.Mathlib.Nat.{add-zero, zero-add, suc-add, add_assoc}
use n_dhcp.Memory.{Buf, load, copy, copied, slice}

pub load-eq-some : (b : Buf) (i : ℕ) → i < b.size → load b i ≡ some (b.byte i)
unfolding load
load-eq-some b i h = ground arith

-- A copy inside the block succeeds, writes the destination only, and the destination then holds the source.
pub record Copied (b : Buf) (dst src n : ℕ) (b' : Buf) : Type 0 where
  pub size_kept : b'.size ≡ b.size
  pub kept : (j : ℕ) → (j < dst) ⊎ (dst + n ≤ j) → b'.byte j ≡ b.byte j
  pub moved : (j : ℕ) → j < n → b'.byte (dst + j) ≡ b.byte (src + j)

copied-moved :
    (b : Buf) (dst src n j : ℕ) → j < n → (copied b dst src n).byte (dst + j) ≡ b.byte (src + j)
copied-moved b dst src n j h =
    let e : dst + j - dst ≡ j = omega arith in
    rw (le→leb dst (dst + j) (omega arith), lt→ltb (dst + j) (dst + n) (omega arith), e)

pub copy-eq-some :
    (b : Buf) (dst src n : ℕ)
    → dst + n ≤ b.size
    → src + n ≤ dst
    → copy b dst src n ≡ some (copied b dst src n)
unfolding copy
copy-eq-some b dst src n h k = ground arith

pub copied-Copied : (b : Buf) (dst src n : ℕ) → Copied b dst src n (copied b dst src n)
copied-Copied b dst src n = record {
  size_kept = refl;
  kept = λ j h. ground arith;
  moved = λ j h. copied-moved b dst src n j h;
}

pub slice_ext :
    (f g : ℕ → ℕ) (i n : ℕ) → ((j : ℕ) → i ≤ j → j < i + n → f j ≡ g j) → slice f i n ≡ slice g i n
slice_ext f g i zero h = refl
slice_ext f g i (suc n) h =
    ap₂ ◌∷◌ (h i (omega arith) (omega arith))
      (slice_ext f g (i + 1) n (λ j p q. h j (omega arith) (omega arith)))

pub length-slice : (f : ℕ → ℕ) (i n : ℕ) → length (slice f i n) ≡ n
length-slice f i zero = refl
length-slice f i (suc n) = omega (arith, length-slice f (i + 1) n)

slice_shift :
    (f g : ℕ → ℕ) (i k n : ℕ)
    → ((j : ℕ) → j < n → f (i + j) ≡ g (k + j))
    → slice f i n ≡ slice g k n
slice_shift f g i k zero h = refl
slice_shift f g i k (suc n) h = ap₂ ◌∷◌ (rw (add-zero, add-zero) at (h 0 (omega arith))) (
    slice_shift f g (i + 1) (k + 1) n (λ j p.
      rw (add_assoc i 1 j, add_assoc k 1 j)
        (subst (λ t. f (i + t) ≡ g (k + t)) (omega arith) (h (suc j) (omega arith)))))

-- The slice that a copy filled is the slice that it read.
pub slice-Copied :
    {b b' : Buf} {dst src n : ℕ} → Copied b dst src n b' → slice b'.byte dst n ≡ slice b.byte src n
slice-Copied {b} {b'} {dst} {src} {n} c = slice_shift b'.byte b.byte dst src n (λ j h. c.moved j h)

pub slice-append : (f : ℕ → ℕ) (i m n : ℕ) → slice f i (m + n) ≡ slice f i m ++ slice f (i + m) n
slice-append f i zero n = rw (zero-add, add-zero)
slice-append f i (suc m) n = rw (suc-add) (
    ap (λ t. f i ∷ t)
      (rw (slice-append f (i + 1) m n) (ap (λ k. slice f (i + 1) m ++ slice f k n) (omega arith))))

pub slice-get_or :
    (f : ℕ → ℕ) (i : ℕ) (xs : List ℕ)
    → ((j : ℕ) → j < length xs → f (i + j) ≡ get_or xs j 0)
    → slice f i (length xs) ≡ xs
slice-get_or f i [] h = refl
slice-get_or f i (x ∷ xs) h = ap₂ ◌∷◌ (rw add-zero at (h 0 (omega arith))) (
    slice-get_or f (i + 1) xs (λ j p.
      rw (add_assoc i 1 j)
        (subst (λ t. f (i + t) ≡ get_or xs j 0) (omega arith) (h (suc j) (omega arith)))))

pub get_or-slice : (f : ℕ → ℕ) (i n j : ℕ) → j < n → get_or (slice f i n) j 0 ≡ f (i + j)
get_or-slice f i zero j h = absurd (omega arith)
get_or-slice f i (suc n) zero h = rw add-zero
get_or-slice f i (suc n) (suc j) h = get_or-slice f (i + 1) n j (omega arith) ∙ ap f (omega arith)
