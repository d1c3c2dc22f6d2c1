-- ===== src/Memory.antt =====
-- Memory that the code allocates: a size in bytes, and the bytes. The bytes past the size are
-- whatever the heap holds there, so that `realloc` to a larger size shows unknown contents.
pub mod Laws
use n_dhcp.Base.{
  ℕ, zero, suc, ◌+◌, ◌-◌, ◌%◌, Bool, ◌&&◌, ◌||◌, Option, none, some, List, [], ◌∷◌, ltb, leb, ◌==◌,
  if◌then◌else◌, length, get_or,
}

pub record Buf : Type 0 where
  pub size : ℕ
  pub byte : ℕ → ℕ

-- calloc(1, size)
unfoldable pub calloc : ℕ → Buf
calloc size = record { size = size; byte = λ _. 0 }

-- b[i]; a read outside the block is a fault.
unfoldable pub load : Buf → ℕ → Option ℕ
load b i = if ltb i b.size then some (b.byte i) else none

-- The n bytes from i on.
abbrev pub slice : (ℕ → ℕ) → ℕ → ℕ → List ℕ
slice byte i zero = []
slice byte i (suc n) = byte i ∷ slice byte (i + 1) n

-- The n bytes at b + i, read; a read outside the block is a fault.
unfoldable pub load_bytes : Buf → ℕ → ℕ → Option (List ℕ)
load_bytes b i n = if leb (i + n) b.size then some (slice b.byte i n) else none

-- The block with xs at i, and the block with its n bytes at src repeated at dst.
abbrev pub written : Buf → ℕ → List ℕ → Buf
written b i xs = record b {
  byte = λ j. if leb i j && ltb j (i + length xs) then get_or xs (j - i) 0 else b.byte j;
}

abbrev pub copied : Buf → ℕ → ℕ → ℕ → Buf
copied b dst src n = record b {
  byte = λ j. if leb dst j && ltb j (dst + n) then b.byte (src + (j - dst)) else b.byte j;
}

-- memcpy(b + i, bytes, length bytes), from memory outside the block; b[i] = v is the case of one
-- byte. A write outside the block is a fault.
unfoldable pub write : Buf → ℕ → List ℕ → Option Buf
write b i xs = if leb (i + length xs) b.size then some (written b i xs) else none

-- memcpy(b + dst, b + src, n) inside the block, whose parts must not overlap.
unfoldable pub copy : Buf → ℕ → ℕ → ℕ → Option Buf
copy b dst src n =
    if leb (dst + n) b.size && (leb (src + n) b.size && (leb (src + n) dst || leb (dst + n) src))
    then some (copied b dst src n)
    else none

-- memset(b + from, 0, b.size - from)
unfoldable pub clear_from : Buf → ℕ → Buf
clear_from b from = record b { byte = λ j. if leb from j && ltb j b.size then 0 else b.byte j }
