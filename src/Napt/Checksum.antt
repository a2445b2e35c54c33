-- ===== src/Napt/Checksum.antt =====
-- `csum_adjust` and its two guarded forms, of src/napt.c.
use molewire.Base.{
  ℕ, zero, suc, ◌+◌, ◌-◌, ◌*◌, ◌/◌, ◌%◌, Bool, ◌&&◌, List, ◌∷◌, ◌==◌, if◌then◌else◌, Bytes, store,
  be16, put16,
}

-- `while (s >> 16) { s = (s & 0xFFFF) + (s >> 16); }`, of which a 32-bit sum takes two rounds.
unfoldable pub fold_carry : ℕ → ℕ → ℕ
fold_carry zero s = s
fold_carry (suc fuel) s =
    let rest = fold_carry fuel (s % 65536 + s / 65536) in if s / 65536 == 0 then s else rest

-- `(uint16_t)~w` of a 16-bit word.
abbrev pub complement16 : ℕ → ℕ
complement16 w = 65535 - w

-- The loop over the 16-bit words of `oldp` and `newp`.
unfoldable pub csum_words : ℕ → List ℕ → List ℕ → ℕ
csum_words sum (a ∷ b ∷ old) (c ∷ d ∷ new) =
    csum_words (sum + complement16 (a * 256 + b) + (c * 256 + d)) old new
csum_words sum _ _ = sum

-- The checksum that stands for the one at `csum`, over the bytes changed from `old` to `new`.
unfoldable pub csum_adjusted : ℕ → List ℕ → List ℕ → ℕ
csum_adjusted csum old new = complement16 (fold_carry 3 (csum_words (complement16 csum) old new))

unfoldable pub csum_adjust : Bytes → ℕ → List ℕ → List ℕ → Bytes
csum_adjust p at old new = put16 p at (csum_adjusted (be16 p at) old new)

-- `!(csum[0] | csum[1])`
abbrev pub csum_is_zero : Bytes → ℕ → Bool
csum_is_zero p at = p at == 0 && p (at + 1) == 0

unfoldable pub csum_adjust_nz : Bytes → ℕ → List ℕ → List ℕ → Bytes
csum_adjust_nz p at old new = if csum_is_zero p at then p else csum_adjust p at old new

unfoldable pub csum_adjust_udp : Bytes → ℕ → List ℕ → List ℕ → Bytes
csum_adjust_udp p at old new =
    if csum_is_zero p at
    then p
    else let q = csum_adjust p at old new in
      if csum_is_zero q at then store (store q at 255) (at + 1) 255 else q
