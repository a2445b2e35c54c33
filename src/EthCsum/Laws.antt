-- ===== src/EthCsum/Laws.antt =====
-- What src/eth_csum.c restores: checksums that add up, in the bytes of the frame.
use molewire.Base.{
  ℕ, zero, suc, ◌+◌, ◌*◌, ◌%◌, ◌^◌, ◌≤◌, ◌<◌, ◌≡◌, refl, sym, ◌∙◌, arith, Bytes, be16, put16,
  be16-put16, put16-ne, ◌==◌, if◌then◌else◌,
}
use molewire.Napt.ChecksumLaws.{fold_carry-mod, fold_carry-lt}
use molewire.Napt.Sums.{IsBuffer}
use molewire.EthCsum.{csum_add, csum_finish, pseudo_header, udp_form}

-- The weight of a byte in a sum of 16-bit words: the high byte comes first.
abbrev pub byte_weight : ℕ → ℕ
byte_weight j = if j % 2 == 0 then 256 else 1

-- The sum of the `n` bytes from `at` on, each at its weight; a last odd byte is a high one.
unfoldable pub byte_sum : Bytes → ℕ → ℕ → ℕ
byte_sum f at zero = 0
byte_sum f at (suc n) = byte_sum f at n + f (at + n) * byte_weight n

-- The pseudo header of TCP and UDP: the two addresses, the protocol and the length.
abbrev pub pseudo_sum : Bytes → ℕ → ℕ
pseudo_sum f l4len = be16 f 26 + be16 f 28 + be16 f 30 + be16 f 32 + f 23 + l4len

byte_weight-two : (n : ℕ) → byte_weight (suc (suc n)) ≡ byte_weight n
byte_weight-two n = ground arith

-- The sum begins with a word.
byte_sum-word :
    (f : Bytes) (at n : ℕ) → byte_sum f at (suc (suc n)) ≡ be16 f at + byte_sum f (at + 2) n
unfolding byte_sum
byte_sum-word f at zero = (let e : at + 0 ≡ at = omega arith in rw e (omega arith))
byte_sum-word f at (suc n) =
    rw (byte_sum-word f at n, byte_weight-two n)
      (let e : at + suc (suc n) ≡ at + 2 + n = omega arith in rw e (omega arith))

byte_sum-byte : (f : Bytes) (at : ℕ) → byte_sum f at 1 ≡ f at * 256
unfolding byte_sum
byte_sum-byte f at = (let e : at + 0 ≡ at = omega arith in rw e (omega arith))

byte_sum-zero : (f : Bytes) (at : ℕ) → byte_sum f at 0 ≡ 0
unfolding byte_sum
byte_sum-zero f at = refl

pub csum_add-byte_sum :
    (sum : ℕ) (f : Bytes) (at n : ℕ) → csum_add sum f at n ≡ sum + byte_sum f at n
unfolding csum_add
csum_add-byte_sum sum f at zero = omega (arith, byte_sum-zero f at)
csum_add-byte_sum sum f at (suc zero) = omega (arith, byte_sum-byte f at)
csum_add-byte_sum sum f at (suc (suc n)) =
    omega (arith, csum_add-byte_sum (sum + be16 f at) f (at + 2) n, byte_sum-word f at n)

-- The code adds the addresses as eight bytes.
pub pseudo_header-eq : (f : Bytes) (l4len : ℕ) → pseudo_header f l4len ≡ pseudo_sum f l4len
unfolding csum_add
pseudo_header-eq f l4len = omega arith

pub byte_sum-cong :
    (f g : Bytes) (at n : ℕ)
    → ((j : ℕ) → at ≤ j → j < at + n → g j ≡ f j)
    → byte_sum g at n ≡ byte_sum f at n
byte_sum-cong f g at zero h = byte_sum-zero g at ∙ sym (byte_sum-zero f at)
byte_sum-cong f g at (suc zero) h =
    omega (arith, byte_sum-byte f at, byte_sum-byte g at, h at (omega arith) (omega arith))
byte_sum-cong f g at (suc (suc n)) h = omega (
  arith,
  byte_sum-word f at n,
  byte_sum-word g at n,
  h at (omega arith) (omega arith),
  h (at + 1) (omega arith) (omega arith),
  byte_sum-cong f g (at + 2) n (λ j a b. h j (omega arith) (omega arith)),
)

-- A 32-bit sum does not overflow on at most 65535 bytes.
pub byte_sum-le : (f : Bytes) (at n : ℕ) → IsBuffer f → byte_sum f at n ≤ 32768 * n + 32768
byte_sum-le f at zero b = omega (arith, byte_sum-zero f at)
byte_sum-le f at (suc zero) b = omega (arith, byte_sum-byte f at, b at)
byte_sum-le f at (suc (suc n)) b =
    omega (arith, byte_sum-word f at n, b at, b (at + 1), byte_sum-le f (at + 2) n b)

-- Writing a word where a zero word stood, at an even distance.
pub byte_sum-put16 :
    (f : Bytes) (at k n c q : ℕ)
    → q ≡ at + 2 * k
    → 2 * k + 2 ≤ n
    → c < 65536
    → be16 f q ≡ 0
    → byte_sum (put16 f q c) at n ≡ byte_sum f at n + c
byte_sum-put16 f at k zero c q e h i z = absurd (omega arith)
byte_sum-put16 f at k (suc zero) c q e h i z = absurd (omega arith)
byte_sum-put16 f at zero (suc (suc n)) c q e h i z =
    let here : at ≡ q = omega arith in
    rw here (
      omega (
        arith,
        byte_sum-word f q n,
        byte_sum-word (put16 f q c) q n,
        be16-put16 f q c i,
        byte_sum-cong f (put16 f q c) (q + 2) n
            (λ j a b. put16-ne f q c j (omega arith) (omega arith)),
      ))
byte_sum-put16 f at (suc k) (suc (suc n)) c q e h i z = omega (
  arith,
  byte_sum-word f at n,
  byte_sum-word (put16 f q c) at n,
  put16-ne f q c at (omega arith) (omega arith),
  put16-ne f q c (at + 1) (omega arith) (omega arith),
  byte_sum-put16 f (at + 2) k n c q (omega arith) (omega arith) i z,
)

-- A sum with its own finished checksum added is zero, modulo 65535.
pub csum_finish-mod : (s : ℕ) → s < 2 ^ 32 → (s + csum_finish s) % 65535 ≡ 0
unfolding csum_finish
csum_finish-mod s h = omega (arith, fold_carry-mod 3 s, fold_carry-lt s h)

pub csum_finish-lt : (s : ℕ) → csum_finish s < 65536
unfolding csum_finish
csum_finish-lt s = omega arith

-- The two forms of a UDP checksum are the same number modulo 65535.
pub udp_form-mod : (c : ℕ) → (udp_form c % 65535 ≡ c % 65535)
udp_form-mod c = ground arith
