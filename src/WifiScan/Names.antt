-- ===== src/WifiScan/Names.antt =====
-- The comparison of names in src/wifi_scan.c.
use molewire.Base.{ℕ, zero, suc, ◌+◌, ◌≤◌, ◌<◌, ◌≡◌, ◌≢◌, refl, arith, true, Bytes}
use native.Mathlib.Decide.{dec_lt}
use molewire.WifiScan.Table.{same_text}

-- A text of `n` characters.
pub record IsText (a : Bytes) (n : ℕ) : Type 0 where
  pub shown : (j : ℕ) → j < n → a j ≢ 0
  pub ends : a n ≡ 0

-- Two texts that begin alike up to the end of the second are the same to the comparison.
pub same_text-sym : (n i : ℕ) (a b : Bytes) → same_text n i a b ≡ same_text n i b a
unfolding same_text
same_text-sym zero i a b = refl
same_text-sym (suc n) i a b = ground (arith, same_text-sym n (i + 1) a b)

-- What is behind the end of the second does not matter.
pub same_text-swap :
    (n i m : ℕ) (a b c : Bytes)
    → ((j : ℕ) → j ≤ m → b j ≡ c j)
    → b m ≡ 0
    → i ≤ m
    → same_text n i a b ≡ same_text n i a c
unfolding same_text
same_text-swap zero i m a b c h e low = refl
same_text-swap (suc n) i m a b c h e low = elim (dec_lt i m) [
  | yes more ↦ ground (arith, h i low, same_text-swap n (i + 1) m a b c h e (omega arith))
  | no last ↦ (let at : i ≡ m = omega arith in let f = h m (omega arith) in ground arith)
]

-- The texts agree up to the end of the second.
pub same_text-agree :
    (n i m : ℕ) (a b : Bytes)
    → same_text n i a b ≡ true
    → ((j : ℕ) → j < m → b j ≢ 0)
    → m < i + n
    → (j : ℕ) → i ≤ j
    → j ≤ m
    → a j ≡ b j
unfolding same_text
same_text-agree zero i m a b h shown few j low high = absurd (omega arith)
same_text-agree (suc n) i m a b h shown few j low high = elim (dec_lt i j) [
  | yes more ↦
      let on = shown i (omega arith) in
      same_text-agree n (i + 1) m a b (ground arith) shown (omega arith) j (omega arith) high
  | no here ↦ (let at : i ≡ j = omega arith in ground arith)
]
