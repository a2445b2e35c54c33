-- ===== src/Pcap/Holds.antt =====
-- A stream of records in the ring of src/pcap.c.
use molewire.Base.{
  ℕ, zero, suc, ◌+◌, ◌-◌, ◌*◌, ◌≤◌, ◌<◌, ◌≡◌, ◌⊎◌, refl, sym, ap, ap₂, ◌∙◌, arith, List, [], ◌∷◌,
  ◌++◌, Bytes, store, length,
}
use mathlib.Core.List.{append_assoc}
use molewire.Pcap.Ring.{rec_len_at, slice, copy_in}

-- From `a` to `b` the ring holds these records, one behind the other, each with its own length.
abbrev pub Holds : Bytes → ℕ → ℕ → List (List ℕ) → Type 0
Holds ring a b [] = a ≡ b
Holds ring a b (r ∷ rs) =
    (slice ring a (length r) ≡ r) × (rec_len_at ring a ≡ length r) × Holds ring (a + length r) b rs

abbrev pub concat : List (List ℕ) → List ℕ
concat [] = []
concat (r ∷ rs) = r ++ concat rs

pub concat-append : (rs ss : List (List ℕ)) → concat (rs ++ ss) ≡ concat rs ++ concat ss
concat-append [] ss = refl
concat-append (r ∷ rs) ss =
    ap (◌++◌ r) (concat-append rs ss) ∙ sym (append_assoc r (concat rs) (concat ss))

slice-cong :
    (p q : Bytes) (n at : ℕ)
    → ((j : ℕ) → at ≤ j → j < at + n → q j ≡ p j)
    → slice q at n ≡ slice p at n
unfolding slice
slice-cong p q zero at h = refl
slice-cong p q (suc n) at h =
    ap₂ ◌∷◌ (h at (omega arith) (omega arith))
      (slice-cong p q n (at + 1) (λ j a b. h j (omega arith) (omega arith)))

pub length-slice : (p : Bytes) (n at : ℕ) → length (slice p at n) ≡ n
unfolding slice
length-slice p zero at = refl
length-slice p (suc n) at = ap suc (length-slice p n (at + 1))

pub slice-add : (p : Bytes) (n m at : ℕ) → slice p at (n + m) ≡ slice p at n ++ slice p (at + n) m
unfolding slice
slice-add p zero m at =
    let e : 0 + m ≡ m = omega arith in let f : at + 0 ≡ at = omega arith in rw (e, f)
slice-add p (suc n) m at =
    let e : suc n + m ≡ suc (n + m) = omega arith in
    let f : at + suc n ≡ at + 1 + n = omega arith in
    rw (e, f) (ap (◌∷◌ (p at)) (slice-add p n m (at + 1)))

pub copy_in-ne :
    (p : Bytes) (at : ℕ) (xs : List ℕ) (j : ℕ)
    → (j < at) ⊎ (at + length xs ≤ j)
    → copy_in p at xs j ≡ p j
unfolding copy_in
copy_in-ne p at [] j h = refl
copy_in-ne p at (x ∷ xs) j h = ground (arith, copy_in-ne (store p at x) (at + 1) xs j)

pub slice-copy_in : (p : Bytes) (at : ℕ) (xs : List ℕ) → slice (copy_in p at xs) at (length xs) ≡ xs
unfolding slice copy_in
slice-copy_in p at [] = refl
slice-copy_in p at (x ∷ xs) =
    ap₂ ◌∷◌ (ground (arith, copy_in-ne (store p at x) (at + 1) xs at))
      (slice-copy_in (store p at x) (at + 1) xs)

pub length-record : (p : Bytes) (a n : ℕ) → rec_len_at p a ≡ n → 16 ≤ n
unfolding rec_len_at
length-record p a n h = omega arith

pub Holds-le : (p : Bytes) (a b : ℕ) (rs : List (List ℕ)) → Holds p a b rs → a + 16 * length rs ≤ b
unfolding rec_len_at
Holds-le p a b [] h = omega arith
Holds-le p a b (r ∷ rs) h = omega (arith, Holds-le p (a + length r) b rs h.2, h.1)

-- The records do not overlap what is written elsewhere.
pub Holds-cong :
    (p q : Bytes) (a b : ℕ) (rs : List (List ℕ))
    → ((j : ℕ) → a ≤ j → j < b → q j ≡ p j)
    → Holds p a b rs
    → Holds q a b rs
unfolding rec_len_at
Holds-cong p q a b [] same h = h
Holds-cong p q a b (r ∷ rs) same h =
    let end = Holds-le p (a + length r) b rs h.2 in
    let long : 16 ≤ length r = length-record p a (length r) h.1 in
    (
      slice-cong p q (length r) a (λ j x y. same j x (omega arith)) ∙ h.0,
      rw
          (
            same (a + 8) (omega arith) (omega arith),
            same (a + 9) (omega arith) (omega arith),
            same (a + 10) (omega arith) (omega arith),
            same (a + 11) (omega arith) (omega arith),
          )
          (h.1),
      Holds-cong p q (a + length r) b rs (λ j x y. same j (omega arith) y) h.2,
    )

pub Holds-append :
    (p : Bytes) (a b c : ℕ) (rs ss : List (List ℕ))
    → Holds p a b rs
    → Holds p b c ss
    → Holds p a c (rs ++ ss)
Holds-append p a b c [] ss h k = rw h k
Holds-append p a b c (r ∷ rs) ss h k = (h.0, h.1, Holds-append p (a + length r) b c rs ss h.2 k)

-- The bytes between the two ends are the records' bytes.
pub Holds-slice :
    (p : Bytes) (a b : ℕ) (rs : List (List ℕ)) → Holds p a b rs → slice p a (b - a) ≡ concat rs
unfolding slice
Holds-slice p a b [] h = let e : b - a ≡ 0 = omega arith in rw e
Holds-slice p a b (r ∷ rs) h =
    let end = Holds-le p (a + length r) b rs h.2 in
    let e : b - a ≡ length r + (b - (a + length r)) = omega arith in
    rw e (
      slice-add p (length r) (b - (a + length r)) a
      ∙ ap₂ ◌++◌ h.0 (Holds-slice p (a + length r) b rs h.2))
