-- ===== src/Config/Checksum.antt =====
-- The checksum of src/config.c tells records apart that differ in one byte.
use molewire.Base.{
  ℕ, zero, suc, ◌+◌, ◌/◌, ◌%◌, ◌^◌, ◌≤◌, ◌<◌, ◌≡◌, ◌≢◌, inl, inr, refl, sym, ◌∙◌, ap, subst, arith,
  Bool-cases, Bytes, bit_xor, shr, bit_xor_lowest, bit_xor-lt, bit_xor-shr, shr-lt, differ-digit,
  ◌==◌, if◌then◌else◌,
}
use Prim.Native.Nat.{differ}
use native.Mathlib.Decide.{dec_lt}
use molewire.Config.Storage.{crc_bit, crc_bits, crc_bytes, crc32}
use molewire.Config.StorageLaws.{crc_bytes-agree}

differ-digit_cancel : (x y z : ℕ) → x < 2 → y < 2 → z < 2 → differ x z ≡ differ y z → x ≡ y
differ-digit_cancel zero zero z a b c e = refl
differ-digit_cancel (suc zero) (suc zero) z a b c e = refl
differ-digit_cancel zero (suc zero) zero a b c e = absurd (omega arith)
differ-digit_cancel zero (suc zero) (suc zero) a b c e = absurd (omega arith)
differ-digit_cancel (suc zero) zero zero a b c e = absurd (omega arith)
differ-digit_cancel (suc zero) zero (suc zero) a b c e = absurd (omega arith)
differ-digit_cancel x y z a b c e = absurd (omega arith)

xor_cancel : (n a b p : ℕ) → a ≤ n → b ≤ n → bit_xor a p ≡ bit_xor b p → a ≡ b
xor_cancel zero a b p h k e = omega arith
xor_cancel (suc n) a b p h k e =
    let la = bit_xor_lowest a p in
    let lb = bit_xor_lowest b p in
    let da = differ-digit (a % 2) (p % 2) (omega arith) (omega arith) in
    let db = differ-digit (b % 2) (p % 2) (omega arith) (omega arith) in
    let da0 = da.0 in
    let db0 = db.0 in
    let upper = xor_cancel n (a / 2) (b / 2) (p / 2) (omega arith) (omega arith) (omega arith) in
    let lower =
      differ-digit_cancel (a % 2) (b % 2) (p % 2) (omega arith) (omega arith) (omega arith)
        (omega arith) in
    omega arith

differ_comm : (x y : ℕ) → differ x y ≡ differ y x
differ_comm zero zero = refl
differ_comm zero (suc y) = refl
differ_comm (suc x) zero = refl
differ_comm (suc x) (suc y) = differ_comm x y

xor_comm : (n a b : ℕ) → a ≤ n → b ≤ n → bit_xor a b ≡ bit_xor b a
xor_comm zero a b h k =
    (let z : a ≡ 0 = omega arith in let y : b ≡ 0 = omega arith in rw (z, y) refl)
xor_comm (suc n) a b h k = omega (
  arith,
  bit_xor_lowest a b,
  bit_xor_lowest b a,
  xor_comm n (a / 2) (b / 2) (omega arith) (omega arith),
  differ_comm (a % 2) (b % 2),
)

-- On words of 32 bits a step of the checksum can be undone: its top bit says whether the polynomial
-- was added.
crc_bit-lt : (x : ℕ) → x < 2 ^ 32 → crc_bit x < 2 ^ 32
crc_bit-lt x h =
    bit_xor-lt 32 (x / 2) (if x % 2 == 1 then 0xEDB88320 else 0) (omega arith) (ground arith)

top_of : (x p : ℕ) → x < 2 ^ 32 → shr 31 (bit_xor (x / 2) p) ≡ bit_xor 0 (shr 31 p)
top_of x p h =
    let low = shr-lt 31 0 (x / 2) (omega arith) in
    let none_left : shr 31 (x / 2) ≡ 0 = omega arith in
    bit_xor-shr 31 (x / 2) p ∙ ap (λ t. bit_xor t (shr 31 p)) none_left

odd_even : (x y : ℕ) → x < 2 ^ 32 → y < 2 ^ 32 → bit_xor (x / 2) 0xEDB88320 ≢ bit_xor (y / 2) 0
odd_even x y h k e =
    let both : ◌≡◌ {A = ℕ} (bit_xor 0 (shr 31 0xEDB88320)) (bit_xor 0 (shr 31 0)) =
      sym (top_of x 0xEDB88320 h) ∙ ap (shr 31) e ∙ top_of y 0 k in
    omega arith

crc_bit-inj : (x y : ℕ) → x < 2 ^ 32 → y < 2 ^ 32 → crc_bit x ≡ crc_bit y → x ≡ y
crc_bit-inj x y h k e = elim (Bool-cases (x % 2 == 1)) [
  | inl odd_x ↦ elim (Bool-cases (y % 2 == 1)) [
    | inl odd_y ↦
        (let upper =
            xor_cancel (2 ^ 32) (x / 2) (y / 2) 0xEDB88320 (omega arith) (omega arith)
              (ground arith) in
          ground arith)
    | inr even_y ↦ absurd (odd_even x y h k (ground arith))
  ]
  | inr even_x ↦ elim (Bool-cases (y % 2 == 1)) [
    | inl odd_y ↦ absurd (odd_even y x k h (ground arith))
    | inr even_y ↦
        (let upper =
            xor_cancel (2 ^ 32) (x / 2) (y / 2) 0 (omega arith) (omega arith) (ground arith) in
          ground arith)
  ]
]

crc_bits-lt : (n x : ℕ) → x < 2 ^ 32 → crc_bits n x < 2 ^ 32
unfolding crc_bits
crc_bits-lt zero x h = h
crc_bits-lt (suc n) x h = crc_bits-lt n (crc_bit x) (crc_bit-lt x h)

crc_bits-inj : (n x y : ℕ) → x < 2 ^ 32 → y < 2 ^ 32 → crc_bits n x ≡ crc_bits n y → x ≡ y
unfolding crc_bits
crc_bits-inj zero x y h k e = e
crc_bits-inj (suc n) x y h k e =
    crc_bit-inj x y h k (crc_bits-inj n (crc_bit x) (crc_bit y) (crc_bit-lt x h) (crc_bit-lt y k) e)

-- A byte joins the checksum.
abbrev joined_byte : ℕ → ℕ → ℕ
joined_byte crc b = crc_bits 8 (bit_xor crc b)

joined_byte-lt : (crc b : ℕ) → crc < 2 ^ 32 → b < 256 → joined_byte crc b < 2 ^ 32
joined_byte-lt crc b h k = crc_bits-lt 8 (bit_xor crc b) (bit_xor-lt 32 crc b h (omega arith))

joined_byte-inj :
    (crc x y : ℕ) → crc < 2 ^ 32 → x < 256 → y < 256 → joined_byte crc x ≡ joined_byte crc y → x ≡ y
joined_byte-inj crc x y h a b e =
    let wide = 2 ^ 32 in
    let same =
      crc_bits-inj 8 (bit_xor crc x) (bit_xor crc y) (bit_xor-lt 32 crc x h (omega arith))
        (bit_xor-lt 32 crc y h (omega arith)) e in
    xor_cancel (2 ^ 32) x y crc (omega arith) (omega arith) (
      xor_comm (2 ^ 32) x crc (omega arith) (omega arith)
      ∙ same
      ∙ xor_comm (2 ^ 32) crc y (omega arith) (omega arith))

joined_byte-inj_crc :
    (c d x : ℕ) → c < 2 ^ 32 → d < 2 ^ 32 → x < 256 → joined_byte c x ≡ joined_byte d x → c ≡ d
joined_byte-inj_crc c d x h k a e = xor_cancel (2 ^ 32) c d x (omega arith) (omega arith) (
    crc_bits-inj 8 (bit_xor c x) (bit_xor d x) (bit_xor-lt 32 c x h (omega arith))
      (bit_xor-lt 32 d x k (omega arith)) e)

module _ (p : Bytes) (m : (j : ℕ) → p j < 256) where
  crc_bytes-lt : (left i crc : ℕ) → crc < 2 ^ 32 → crc_bytes left i p crc < 2 ^ 32
  unfolding crc_bytes
  crc_bytes-lt zero i crc h = h
  crc_bytes-lt (suc left) i crc h =
      crc_bytes-lt left (i + 1) (joined_byte crc (p i)) (joined_byte-lt crc (p i) h (m i))

  crc_bytes-inj :
      (left i c d : ℕ)
      → c < 2 ^ 32
      → d < 2 ^ 32
      → crc_bytes left i p c ≡ crc_bytes left i p d
      → c ≡ d
  unfolding crc_bytes
  crc_bytes-inj zero i c d h k e = e
  crc_bytes-inj (suc left) i c d h k e = joined_byte-inj_crc c d (p i) h k (m i) (
      crc_bytes-inj left (i + 1) (joined_byte c (p i)) (joined_byte d (p i))
        (joined_byte-lt c (p i) h (m i)) (joined_byte-lt d (p i) k (m i)) e)

  module _ (q : Bytes) (n : (j : ℕ) → q j < 256) (at : ℕ) (same : (j : ℕ) → j ≢ at → p j ≡ q j)
      (other : p at ≢ q at) where
    crc_bytes-tells :
        (left i crc : ℕ)
        → crc < 2 ^ 32
        → i ≤ at
        → at < i + left
        → crc_bytes left i p crc ≢ crc_bytes left i q crc
    unfolding crc_bytes
    crc_bytes-tells zero i crc h low high e = omega arith
    crc_bytes-tells (suc left) i crc h low high e = elim (dec_lt i at) [
      | yes more ↦
          crc_bytes-tells left (i + 1) (joined_byte crc (p i)) (joined_byte-lt crc (p i) h (m i))
            (omega arith) (omega arith)
            (e
              ∙ ap (λ x. crc_bytes left (i + 1) q (joined_byte crc x)) (sym (same i (omega arith))))
      | no here ↦
          let now : at ≡ i = omega arith in
          let tail =
            crc_bytes-agree left (i + 1) p q (joined_byte crc (q i))
              (λ j a b. same j (omega arith)) in
          other (
            subst (λ k. p k ≡ q k) (sym now)
              (joined_byte-inj crc (p i) (q i) h (m i) (n i) (
                crc_bytes-inj left (i + 1) (joined_byte crc (p i)) (joined_byte crc (q i))
                  (joined_byte-lt crc (p i) h (m i)) (joined_byte-lt crc (q i) h (n i))
                  (e ∙ sym tail))))
    ]

-- Two pieces of memory that differ in one byte, and that among the first `len`, have different
-- checksums over these.
pub crc32-tells :
    (p q : Bytes) (at len : ℕ)
    → ((j : ℕ) → p j < 256)
    → ((j : ℕ) → q j < 256)
    → ((j : ℕ) → j ≢ at → p j ≡ q j)
    → p at ≢ q at
    → at < len
    → crc32 p len ≢ crc32 q len
unfolding crc32
crc32-tells p q at len m n same other h e =
    let start : ℕ = 0xFFFFFFFF in
    let x = crc_bytes len 0 p start in
    let y = crc_bytes len 0 q start in
    let x_lt : x < 2 ^ 32 = crc_bytes-lt p m len 0 start (omega arith) in
    let y_lt : y < 2 ^ 32 = crc_bytes-lt q n len 0 start (omega arith) in
    let bx = bit_xor-lt 32 x start x_lt (omega arith) in
    let by = bit_xor-lt 32 y start y_lt (omega arith) in
    crc_bytes-tells p m q n at same other len 0 start (omega arith) (omega arith) (omega arith)
      (xor_cancel (2 ^ 32) x y start (omega arith) (omega arith) (omega arith))
