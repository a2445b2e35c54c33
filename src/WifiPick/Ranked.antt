-- ===== src/WifiPick/Ranked.antt =====
-- What the loops of src/wifi_pick.c build: a list in order, without repetition.
use molewire.Base.{
  ℕ, zero, suc, ◌+◌, ◌-◌, ◌≤◌, ◌<◌, ◌≡◌, ◌⊎◌, inl, inr, refl, arith, Bool-cases, true, false, ltb,
  leb, ◌==◌, if◌then◌else◌,
}
use native.Mathlib.Decide.{dec_lt}
use molewire.WifiPick.Order.{
  WifiProfState, Picks, set_pick, insert_from, insert_pick, is_candidate, score_of, seen_loop,
}

-- An entry went in at `place`: those from there on are one place further.
pub record Inserted (p q : Picks) (n i s : ℕ) : Type 0 where
  pub place : ℕ
  pub low : place ≤ n
  pub above : (place ≡ 0) ⊎ (s ≤ p.score (place - 1))
  pub below : (k : ℕ) → place ≤ k → k < n → p.score k < s
  pub out_is :
      (k : ℕ)
      → q.out k ≡ (
          if ltb k place
          then p.out k
          else if k == place
          then i
          else if leb k n
          then p.out (k - 1)
          else p.out k)
  pub score_is :
      (k : ℕ)
      → q.score k ≡ (
          if ltb k place
          then p.score k
          else if k == place
          then s
          else if leb k n
          then p.score (k - 1)
          else p.score k)

insert_from-Inserted : (n i s : ℕ) (p : Picks) → Inserted p (insert_from n i s p) n i s
unfolding insert_from
insert_from-Inserted zero i s p = record {
  place = 0;
  low = omega arith;
  above = inl refl;
  below = λ k a b. absurd (omega arith);
  out_is = λ k. ground arith;
  score_is = λ k. ground arith;
}
insert_from-Inserted (suc n) i s p = elim (Bool-cases (ltb (p.score n) s)) [
  | inl e ↦
      let d = insert_from-Inserted n i s (set_pick p (suc n) (p.out n) (p.score n)) in
      rw e (record {
        place = d.place;
        low = omega (arith, d.low);
        above = ground (arith, d.above, d.low);
        below = λ k a b. ground (arith, d.below k);
        out_is = λ k. ground (arith, d.out_is k, d.low);
        score_is = λ k. ground (arith, d.score_is k, d.low);
      })
  | inr e ↦ rw e (record {
    place = suc n;
    low = omega arith;
    above = inr (ground arith);
    below = λ k a b. absurd (omega arith);
    out_is = λ k. ground arith;
    score_is = λ k. ground arith;
  })
]

-- Where entry `a` is from: it is the new one, or an old one that stayed or moved up.
origin :
    {p q : Picks} {n i s : ℕ}
    → (d : Inserted p q n i s) → (a : ℕ) → a ≤ n
    → ((a ≡ d.place) × (q.out a ≡ i) × (q.score a ≡ s))
      ⊎ ((k : ℕ) × (k < n)
          × (((k ≡ a) × (a < d.place)) ⊎ ((a ≡ suc k) × (d.place ≤ k)))
          × (q.out a ≡ p.out k)
          × (q.score a ≡ p.score k))
origin {p} {q} {n} {i} {s} d a h =
    let at_most = d.low in
    let o = d.out_is a in
    let c = d.score_is a in
    elim (dec_lt a d.place) [
      | yes early ↦ inr (a, omega arith, inl (refl, early), ground arith, ground arith)
      | no late ↦ elim (dec_lt d.place a) [
        | yes moved ↦
            let e : a ≡ suc (a - 1) = omega arith in
            inr (a - 1, omega arith, inr (e, omega arith), ground arith, ground arith)
        | no here ↦ inl (omega arith, ground arith, ground arith)
      ]
    ]

module _ (st : ℕ → WifiProfState) (active : ℕ) where
  -- The candidates below `i`, each once, by falling score, and in list order where scores are equal.
  pub record Ranked (i : ℕ) (p : Picks) : Type 0 where
    pub n_le : p.n ≤ i
    pub room : (k : ℕ) → k < i → is_candidate st k ≡ false → p.n < i
    pub entry :
        (a : ℕ)
        → a < p.n
        → (p.out a < i)
          × (is_candidate st (p.out a) ≡ true)
          × (p.score a ≡ score_of st active (p.out a))
    pub sorted :
        (a b : ℕ)
        → a < b
        → b < p.n
        → (p.score b < p.score a) ⊎ ((p.score a ≡ p.score b) × (p.out a < p.out b))
    pub all : (k : ℕ) → k < i → is_candidate st k ≡ true → (a : ℕ) × (a < p.n) × (p.out a ≡ k)

  -- Equal or less, from the sorted order.
  falls : (i : ℕ) (p : Picks) (a b : ℕ) → Ranked i p → a ≤ b → b < p.n → p.score b ≤ p.score a
  falls i p a b r h low = ground (arith, r.sorted a b)

  insert-Ranked :
      (i : ℕ) (p : Picks)
      → is_candidate st i ≡ true
      → Ranked i p
      → Ranked (suc i) (insert_pick i (score_of st active i) p)
  unfolding insert_pick
  insert-Ranked i p fits r =
      let d = insert_from-Inserted p.n i (score_of st active i) p in
      record {
        n_le = omega (arith, r.n_le);
        room = λ k low c. elim (dec_lt k i) [
          | yes old ↦ omega (arith, r.room k old c)
          | no new ↦ (let e : k ≡ i = omega arith in absurd (ground (arith, fits, c, e)))
        ];
        entry = λ a low. elim (origin d a (omega arith)) [
          | inl new ↦ let (e, o, c) = new in rw (o, c) (omega arith, fits, refl)
          | inr (k, small, from, o, c) ↦
              let e = r.entry k small in rw (o, c) (omega (arith, e.0), e.1, e.2)
        ];
        sorted = λ a b h low. elim (origin d a (omega arith)) [
          | inl (ea, oa, ca) ↦ elim (origin d b (omega arith)) [
            | inl (eb, ob, cb) ↦ absurd (omega arith)
            | inr (k, small, from, ob, cb) ↦
                rw (oa, ca, ob, cb) (inl (d.below k (omega arith) small))
          ]
          | inr (k, small, from, oa, ca) ↦ elim (origin d b (omega arith)) [
            | inl (eb, ob, cb) ↦
                let early : k < d.place = omega arith in
                let fall = falls i p k (d.place - 1) r (omega arith) (omega (arith, d.low)) in
                let e = r.entry k small in rw (oa, ca, ob, cb) (ground (arith, d.above))
            | inr (j, small', from', ob, cb) ↦
                rw (oa, ca, ob, cb) (r.sorted k j (omega arith) small')
          ]
        ];
        all = λ k low c. elim (dec_lt k i) [
          | yes old ↦
              let (a, small, o) = r.all k old c in
              elim (dec_lt a d.place) [
                | yes early ↦ (a, omega arith, ground (arith, d.out_is a))
                | no late ↦ (suc a, omega arith, ground (arith, d.out_is (suc a)))
              ]
          | no new ↦ (d.place, omega (arith, d.low), ground (arith, d.out_is d.place))
        ];
      }

  skip-Ranked : (i : ℕ) (p : Picks) → is_candidate st i ≡ false → Ranked i p → Ranked (suc i) p
  skip-Ranked i p skip r = record {
    n_le = omega (arith, r.n_le);
    room = λ k low c. omega (arith, r.n_le);
    entry = λ a low. let e = r.entry a low in (omega (arith, e.0), e.1, e.2);
    sorted = r.sorted;
    all = λ k low c. elim (dec_lt k i) [
      | yes old ↦ r.all k old c
      | no new ↦ (let e : k ≡ i = omega arith in absurd (ground (arith, skip, c, e)))
    ];
  }

  pub seen_loop-Ranked :
      (left i : ℕ) (p : Picks) → Ranked i p → Ranked (i + left) (seen_loop st active left i p)
  unfolding seen_loop
  seen_loop-Ranked zero i p r = let e : i + 0 ≡ i = omega arith in rw e r
  seen_loop-Ranked (suc left) i p r =
      let e : i + suc left ≡ suc i + left = omega arith in
      elim (Bool-cases (is_candidate st i)) [
        | inl fits ↦
            rw (e, fits)
              (seen_loop-Ranked left (suc i) (insert_pick i (score_of st active i) p)
                (insert-Ranked i p fits r))
        | inr skip ↦ rw (e, skip) (seen_loop-Ranked left (suc i) p (skip-Ranked i p skip r))
      ]
