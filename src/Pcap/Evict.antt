-- ===== src/Pcap/Evict.antt =====
-- The eviction loop of src/pcap.c drops whole records from the tail and stops at a record boundary.
use molewire.Base.{
  ℕ, zero, suc, ◌+◌, ◌≤◌, ◌<◌, ◌≡◌, ◌⊎◌, inl, inr, refl, arith, Bool-cases, true, false, List, [],
  ◌∷◌, leb, Bytes, length, drop,
}
use molewire.Pcap.Ring.{Oldest, evict_rounds}
use molewire.Pcap.Holds.{Holds, length-record}

pub drop-length : (rs : List (List ℕ)) → drop (length rs) rs ≡ []
drop-length [] = refl
drop-length (r ∷ rs) = drop-length rs

-- What the loop leaves of the old records: some at the top clear of the region, or none.
pub record Evicted (ring : Bytes) (head to high : ℕ) (old : List (List ℕ)) (o : Oldest)
    : Type 0 where
  pub dropped : ℕ
  pub rest :
      ((o.wrapped ≡ true)
        × (o.high ≡ high)
        × (to ≤ o.tail)
        × (o.tail < high)
        × Holds ring o.tail high (drop dropped old))
      ⊎ ((o.wrapped ≡ false) × (o.tail ≡ 0) × (o.high ≡ head) × (drop dropped old ≡ []))

pub evict_rounds-Evicted :
    (fuel : ℕ) (ring : Bytes) (head from need tail high : ℕ) (old : List (List ℕ))
    → length old < fuel
    → from ≤ tail
    → tail < high
    → Holds ring tail high old
    → Evicted ring head (from + need) high old (
        evict_rounds fuel ring head from need (record { tail = tail; high = high; wrapped = true }))
unfolding evict_rounds
evict_rounds-Evicted zero ring head from need tail high old n f t h = absurd (omega arith)
evict_rounds-Evicted (suc fuel) ring head from need tail high [] n f t h =
    let same : tail ≡ high = h in absurd (omega arith)
evict_rounds-Evicted (suc fuel) ring head from need tail high (r ∷ rs) n f t h =
    let long : 16 ≤ length r = length-record ring tail (length r) h.1 in
    let behind : leb (tail + length r) from ≡ false = ground arith in
    elim (Bool-cases (leb (from + need) tail)) [
      | inl e ↦ rw (h.1, e) (record { dropped = 0; rest = inl (refl, refl, ground arith, t, h) })
      | inr e ↦ elim (Bool-cases (leb high (tail + length r))) [
        | inl d ↦
            rw (h.1, e, behind, d)
              (record { dropped = suc (length rs); rest = inr (refl, refl, refl, drop-length rs) })
        | inr d ↦
            let next =
              evict_rounds-Evicted fuel ring head from need (tail + length r) high rs (omega arith)
                (omega arith) (ground arith) h.2 in
            rw (h.1, e, behind, d) (record { dropped = suc next.dropped; rest = next.rest })
      ]
    ]
