-- ===== src/Base/Bits.antt =====
-- What C's `^` and `&` with a shifted mask do to machine words.
use Prim.Native.Nat.{
  ℕ, zero, suc, ◌+◌, ◌-◌, ◌*◌, ◌/◌, ◌%◌, ◌^◌, ◌≤◌, ◌<◌, min, bit_and, bit_xor, differ, digits,
  bit_and-bitwise, bit_xor-bitwise,
}
use mathlib.Core.Logic.{◌≢◌, ◌⊎◌, inl, inr}
use mathlib.Core.Path.{◌≡◌, refl, ap, ◌∙◌}
use native.Mathlib.Nat.{pow-suc, one-le-pow}
use native.Mathlib.Numerals.{unary_clauses}
use native.Mathlib.Omega.{arith}

-- The native operations recur on the digits of the first operand under fuel; any fuel from it on
-- gives the same.
module _ (last : ℕ → ℕ) (join : ℕ → ℕ → ℕ) where
  digits-fuel : (n m a b : ℕ) → a ≤ n → a ≤ m → digits last join n a b ≡ digits last join m a b
  digits-fuel zero zero a b h k = refl
  digits-fuel zero (suc m) zero b h k = refl
  digits-fuel zero (suc m) (suc a) b h k = absurd (omega arith)
  digits-fuel (suc n) zero zero b h k = refl
  digits-fuel (suc n) zero (suc a) b h k = absurd (omega arith)
  digits-fuel (suc n) (suc m) zero b h k = refl
  digits-fuel (suc n) (suc m) (suc a) b h k =
      ap (λ t. t * 2 + join (suc a % 2) (b % 2))
        (digits-fuel n m (suc a / 2) (b / 2) (omega arith) (omega arith))

pub bit_and_lowest : (a b : ℕ) → bit_and a b ≡ bit_and (a / 2) (b / 2) * 2 + min (a % 2) (b % 2)
bit_and_lowest zero b = bit_and-bitwise 0 b ∙ omega (arith, bit_and-bitwise 0 (b / 2))
bit_and_lowest (suc a) b = omega (
  arith,
  bit_and-bitwise (suc a) b,
  bit_and-bitwise (suc a / 2) (b / 2),
  digits-fuel (λ y. zero) min a (suc a / 2) (suc a / 2) (b / 2) (omega arith) (omega arith),
)

pub bit_xor_lowest : (a b : ℕ) → bit_xor a b ≡ bit_xor (a / 2) (b / 2) * 2 + differ (a % 2) (b % 2)
bit_xor_lowest zero b = omega (arith, bit_xor-bitwise 0 b, bit_xor-bitwise 0 (b / 2))
bit_xor_lowest (suc a) b = omega (
  arith,
  bit_xor-bitwise (suc a) b,
  bit_xor-bitwise (suc a / 2) (b / 2),
  digits-fuel (λ y. y) differ a (suc a / 2) (suc a / 2) (b / 2) (omega arith) (omega arith),
)

half-shl : (b k : ℕ) → b * 2 ^ suc k ≡ 2 * (b * 2 ^ k)
half-shl b k = omega (arith, ap (λ (t : ℕ). b * t) (pow-suc 2 k))

differ_self : (x : ℕ) → differ x x ≡ 0
differ_self zero = refl
differ_self (suc x) = differ_self x

pub differ-digit : (x y : ℕ) → x < 2 → y < 2 → (differ x y < 2) × ((differ x y ≢ 0) ⊎ (x ≡ y))
differ-digit zero zero h k = (omega arith, inr refl)
differ-digit zero (suc zero) h k = (omega arith, inl (omega arith))
differ-digit (suc zero) zero h k = (omega arith, inl (omega arith))
differ-digit (suc zero) (suc zero) h k = (omega arith, inr refl)
differ-digit zero (suc (suc y)) h k = absurd (omega arith)
differ-digit (suc (suc x)) y h k = absurd (omega arith)
differ-digit (suc zero) (suc (suc y)) h k = absurd (omega arith)

pub bit_xor_self : (n a : ℕ) → a ≤ n → bit_xor a a ≡ 0
bit_xor_self n zero h = bit_xor-bitwise 0 0
bit_xor_self zero (suc a) h = absurd (omega arith)
bit_xor_self (suc n) (suc a) h = omega (
  arith,
  bit_xor_lowest (suc a) (suc a),
  bit_xor_self n (suc a / 2) (omega arith),
  differ_self (suc a % 2),
)

pub bit_xor-zero : (n a b : ℕ) → a ≤ n → b ≤ n → bit_xor a b ≡ 0 → a ≡ b
bit_xor-zero zero a b h k e = omega arith
bit_xor-zero (suc n) zero zero h k e = refl
bit_xor-zero (suc n) (suc a) b h k e =
    let low = bit_xor_lowest (suc a) b in
    let d = differ-digit (suc a % 2) (b % 2) (omega arith) (omega arith) in
    let upper = bit_xor-zero n (suc a / 2) (b / 2) (omega arith) (omega arith) (omega arith) in
    omega (arith, d.1)
bit_xor-zero (suc n) zero (suc b) h k e =
    let low = bit_xor_lowest 0 (suc b) in
    let d = differ-digit (0 % 2) (suc b % 2) (omega arith) (omega arith) in
    let upper = bit_xor-zero n (0 / 2) (suc b / 2) (omega arith) (omega arith) (omega arith) in
    omega (arith, d.1)

half-xor : (a b : ℕ) → bit_xor a b / 2 ≡ bit_xor (a / 2) (b / 2)
half-xor a b =
    omega (arith, bit_xor_lowest a b, (differ-digit (a % 2) (b % 2) (omega arith) (omega arith)).0)

-- `x >> k`
abbrev pub shr : ℕ → ℕ → ℕ
shr zero x = x
shr (suc k) x = shr k (x / 2)

pub bit_xor-shr : (k a b : ℕ) → shr k (bit_xor a b) ≡ bit_xor (shr k a) (shr k b)
bit_xor-shr zero a b = refl
bit_xor-shr (suc k) a b = ap (shr k) (half-xor a b) ∙ bit_xor-shr k (a / 2) (b / 2)

pub bit_and-mask_all : (p z : ℕ) → z < 2 ^ p → bit_and z (2 ^ p - 1) ≡ z
bit_and-mask_all zero zero h = refl
bit_and-mask_all zero (suc z) h = absurd (omega arith)
bit_and-mask_all (suc p) z h =
    let two = pow-suc 2 p in
    let one = one-le-pow p 2 (omega arith) in
    let half : (2 ^ suc p - 1) / 2 ≡ 2 ^ p - 1 = omega arith in
    let rest = bit_and-mask_all p (z / 2) (omega arith) in
    bit_and_lowest z (2 ^ suc p - 1) ∙ rw (half, rest) omega arith

pub bit_and-shl : (k m z : ℕ) → bit_and z (m * 2 ^ k) ≡ bit_and (shr k z) m * 2 ^ k
bit_and-shl zero m z = let one : m * 1 ≡ m = omega arith in ap (bit_and z) one ∙ omega arith
bit_and-shl (suc k) m z =
    let half : m * 2 ^ suc k / 2 ≡ m * 2 ^ k = omega (arith, half-shl m k) in
    let rest = bit_and-shl k m (z / 2) in
    bit_and_lowest z (m * 2 ^ suc k)
    ∙ rw half (omega (arith, rest, half-shl m k, half-shl (bit_and (shr k (z / 2)) m) k))

pub shr-lt : (k p z : ℕ) → z < 2 ^ (p + k) → shr k z < 2 ^ p
shr-lt zero p z h = simp unary_clauses at h
shr-lt (suc k) p z h =
    let out : p + suc k ≡ suc (p + k) = omega arith in
    shr-lt k p (z / 2) (omega (arith, pow-suc 2 (p + k), ap (λ t. 2 ^ t) out))

pub bit_xor-lt : (p a b : ℕ) → a < 2 ^ p → b < 2 ^ p → bit_xor a b < 2 ^ p
bit_xor-lt zero zero zero h k = omega (arith, bit_xor_self 0 0 (omega arith))
bit_xor-lt zero (suc a) b h k = absurd (omega arith)
bit_xor-lt zero zero (suc b) h k = absurd (omega arith)
bit_xor-lt (suc p) a b h k =
    let two = pow-suc 2 p in
    omega (
      arith,
      bit_xor_lowest a b,
      (differ-digit (a % 2) (b % 2) (omega arith) (omega arith)).0,
      bit_xor-lt p (a / 2) (b / 2) (omega arith) (omega arith),
    )
