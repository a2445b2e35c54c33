-- ===== src/Napt/ChecksumLaws.antt =====
-- What the incremental checksum update of src/napt.c keeps: the Internet checksum's sum, which is
-- a sum of 16-bit words modulo 65535.
use molewire.Base.{ℕ, zero, suc, ◌+◌, ◌-◌, ◌*◌, ◌/◌, ◌%◌, ◌^◌, ◌<◌, ◌≡◌, refl, arith, List}
use molewire.Napt.Checksum.{fold_carry, csum_words, csum_adjusted}
use molewire.Napt.Table.{Ip4, Port, ip_bytes, port_bytes}

-- One round keeps the value modulo 65535.
pub fold_carry-mod : (fuel s : ℕ) → fold_carry fuel s % 65535 ≡ s % 65535
unfolding fold_carry
fold_carry-mod zero s = refl
fold_carry-mod (suc fuel) s = ground (arith, fold_carry-mod fuel (s % 65536 + s / 65536))

-- Three rounds are enough for a 32-bit sum: the loop has ended by its test.
pub fold_carry-lt : (s : ℕ) → s < 2 ^ 32 → fold_carry 3 s < 65536
unfolding fold_carry
fold_carry-lt s h = ground arith

abbrev pub IsIp4 : Ip4 → Type 0
IsIp4 a = (a.b0 < 256) × (a.b1 < 256) × (a.b2 < 256) × (a.b3 < 256)

abbrev pub IsPort : Port → Type 0
IsPort k = (k.hi < 256) × (k.lo < 256)

-- The 16-bit words of an address and of a port, summed.
abbrev pub ip_words : Ip4 → ℕ
ip_words a = a.b0 * 256 + a.b1 + (a.b2 * 256 + a.b3)

abbrev pub port_word : Port → ℕ
port_word k = k.hi * 256 + k.lo

pub csum_adjusted-lt : (c : ℕ) (old new : List ℕ) → csum_adjusted c old new < 65536
unfolding csum_adjusted
csum_adjusted-lt c old new = omega arith

-- The new checksum and the new address have the sum of the old ones, modulo 65535.
pub csum_adjusted-ip :
    (c : ℕ) (a b : Ip4)
    → c < 65536
    → IsIp4 a
    → IsIp4 b
    → (csum_adjusted c (ip_bytes a) (ip_bytes b) + ip_words b) % 65535 ≡ (c + ip_words a) % 65535
unfolding csum_adjusted csum_words
csum_adjusted-ip c a b h ha hb =
    let s : ℕ = csum_words (65535 - c) (ip_bytes a) (ip_bytes b) in
    omega (arith, fold_carry-mod 3 s, fold_carry-lt s (omega arith))

pub csum_adjusted-port :
    (c : ℕ) (a b : Port)
    → c < 65536
    → IsPort a
    → IsPort b
    → (csum_adjusted c (port_bytes a) (port_bytes b) + port_word b) % 65535
      ≡ (c + port_word a) % 65535
unfolding csum_adjusted csum_words
csum_adjusted-port c a b h ha hb =
    let s : ℕ = csum_words (65535 - c) (port_bytes a) (port_bytes b) in
    omega (arith, fold_carry-mod 3 s, fold_carry-lt s (omega arith))
