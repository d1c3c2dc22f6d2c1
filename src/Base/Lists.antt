-- ===== src/Base/Lists.antt =====
-- Lists measured and indexed by native numbers, under the library's names.
use Prim.Native.Nat.{ℕ, zero, suc, ◌+◌, ◌<◌}
use mathlib.Core.Path.{◌≡◌}
use mathlib.Core.List.{List, [], ◌∷◌, ◌++◌}
use native.Mathlib.Omega.{arith}

module _ {ℓ} {A : Type ℓ} where
  abbrev pub length : List A → ℕ
  length [] = 0
  length (x ∷ xs) = suc (length xs)

  abbrev pub get_or : List A → ℕ → A → A
  get_or [] i d = d
  get_or (x ∷ xs) zero d = x
  get_or (x ∷ xs) (suc i) d = get_or xs i d

  pub length-append : (xs ys : List A) → length (xs ++ ys) ≡ length xs + length ys
  length-append [] ys = omega arith
  length-append (x ∷ xs) ys = omega (arith, length-append xs ys)

abbrev pub take {ℓ} : {A : Type ℓ} → ℕ → List A → List A
take zero xs = []
take (suc n) [] = []
take (suc n) (x ∷ xs) = x ∷ take n xs

abbrev pub sum_map {ℓ} : {A : Type ℓ} → (A → ℕ) → List A → ℕ
sum_map f [] = 0
sum_map f (x ∷ xs) = f x + sum_map f xs

pub sum_map-append {ℓ} :
    {A : Type ℓ} (f : A → ℕ) (xs ys : List A) → sum_map f (xs ++ ys) ≡ sum_map f xs + sum_map f ys
sum_map-append f [] ys = omega arith
sum_map-append f (x ∷ xs) ys = omega (arith, sum_map-append f xs ys)

abbrev pub replicate {ℓ} : {A : Type ℓ} → ℕ → A → List A
replicate zero x = []
replicate (suc n) x = x ∷ replicate n x

-- The values of a uint8_t.
abbrev pub AreBytes : List ℕ → Type 0
AreBytes [] = Unit {0}
AreBytes (x ∷ xs) = (x < 256) × AreBytes xs

pub get_or-AreBytes : (xs : List ℕ) (k : ℕ) → AreBytes xs → get_or xs k 0 < 256
get_or-AreBytes [] k p = omega arith
get_or-AreBytes (x ∷ xs) zero p = p.0
get_or-AreBytes (x ∷ xs) (suc k) p = get_or-AreBytes xs k p.1

pub append-AreBytes : (xs ys : List ℕ) → AreBytes xs → AreBytes ys → AreBytes (xs ++ ys)
append-AreBytes [] ys p q = q
append-AreBytes (x ∷ xs) ys p q = (p.0, append-AreBytes xs ys p.1 q)

pub replicate-AreBytes : (n x : ℕ) → x < 256 → AreBytes (replicate n x)
replicate-AreBytes zero x h = tt
replicate-AreBytes (suc n) x h = (h, replicate-AreBytes n x h)
