-- ===== src/Base/Buffer.antt =====
-- A byte buffer behind a C pointer: the byte at each offset. Its length is a value of its own, and
-- that nothing behind it is written is a theorem of each component.
use Prim.Native.Nat.{ℕ, ◌+◌, ◌*◌, ◌/◌, ◌%◌, ◌^◌, ◌<◌}
use mathlib.Core.List.{List, [], ◌∷◌}
use mathlib.Core.Path.{◌≡◌}
use mathlib.Core.Logic.{◌≢◌}
use native.Mathlib.Omega.{arith}
use molewire.Base.Tests.{◌==◌, if◌then◌else◌}

abbrev pub Bytes : Type 0
Bytes = ℕ → ℕ

-- `p[i] = v`
abbrev pub store : Bytes → ℕ → ℕ → Bytes
store p i v j = if j == i then v else p j

-- `((uint16_t)p[i] << 8) | p[i + 1]`
abbrev pub be16 : Bytes → ℕ → ℕ
be16 p i = p i * 256 + p (i + 1)

-- `p[i] = (uint8_t)(v >> 8); p[i + 1] = (uint8_t)v;`
abbrev pub put16 : Bytes → ℕ → ℕ → Bytes
put16 p i v = store (store p i (v / 256 % 256)) (i + 1) (v % 256)

pub be16-put16 : (p : Bytes) (i v : ℕ) → v < 65536 → be16 (put16 p i v) i ≡ v
be16-put16 p i v h = ground arith

pub put16-ne : (p : Bytes) (i v j : ℕ) → j ≢ i → j ≢ i + 1 → put16 p i v j ≡ p j
put16-ne p i v j h k = ground arith

-- A 32-bit word in memory, the low byte first.
abbrev pub word_bytes : ℕ → List ℕ
word_bytes v = (v % 256) ∷ (v / 2 ^ 8 % 256) ∷ (v / 2 ^ 16 % 256) ∷ (v / 2 ^ 24 % 256) ∷ []

-- The word that stands at `i`.
abbrev pub word_at : Bytes → ℕ → ℕ
word_at p i = p i + p (i + 1) * 2 ^ 8 + p (i + 2) * 2 ^ 16 + p (i + 3) * 2 ^ 24
