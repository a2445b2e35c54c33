-- ===== src/WifiPick/Laws.antt =====
-- The order that `wifi_pick_order` of src/wifi_pick.c gives.
use molewire.Base.{
  ℕ, zero, suc, ◌+◌, ◌-◌, ◌%◌, ◌≤◌, ◌<◌, ◌≡◌, ◌⊎◌, inl, inr, refl, sym, ap, ◌∙◌, subst, arith,
  Bool-cases, true, false,
}
use native.Mathlib.Decide.{dec_lt}
use native.Mathlib.Nat.{mod-lt, mod-add-mod, mod-eq_of_lt, add-mod_right}
use molewire.Config.Record.{config_profile_max}
use molewire.WifiPick.Order.{
  WifiProfState, Picks, set_pick, is_candidate, is_unseen, score_of, seen_loop, unseen_loop,
  clipped, no_picks, wifi_pick_order,
}
use molewire.WifiPick.Ranked.{Ranked, seen_loop-Ranked}

-- Counting on from any start meets every index.
rotation : (rr count i : ℕ) → i < count → (j : ℕ) × (j < count) × ((rr + j) % count ≡ i)
rotation rr count i h =
    let r = mod-lt rr {m = count} (omega arith) in
    elim (dec_lt i (rr % count)) [
      | yes behind ↦
          let j = i + count - rr % count in
          let e : rr % count + j ≡ i + count = omega arith in
          (
            j,
            omega arith,
            sym (mod-add-mod rr count j)
                ∙ ap (λ z. z % count) e
                ∙ add-mod_right i count
                ∙ mod-eq_of_lt h,
          )
      | no ahead ↦
          let j = i - rr % count in
          let e : rr % count + j ≡ i = omega arith in
          (j, omega arith, sym (mod-add-mod rr count j) ∙ ap (λ z. z % count) e ∙ mod-eq_of_lt h)
    ]

-- The second loop ends at an unseen profile, or there is none where it looked.
unseen_loop-cases :
    (st : ℕ → WifiProfState) (count rr left k : ℕ) (p : Picks)
    → 0 < count
    → ((i : ℕ) × (i < count)
        × (is_unseen st i ≡ true)
        × (unseen_loop st count rr left k p
            ≡ record (set_pick p p.n i (p.score p.n)) { n = p.n + 1 }))
      ⊎ ((unseen_loop st count rr left k p ≡ p)
          × ((j : ℕ) → k ≤ j → j < k + left → is_unseen st ((rr + j) % count) ≡ false))
unfolding unseen_loop
unseen_loop-cases st count rr zero k p h = inr (refl, λ j a b. absurd (omega arith))
unseen_loop-cases st count rr (suc left) k p h =
    elim (Bool-cases (is_unseen st ((rr + k) % count))) [
      | inl hit ↦ inl ((rr + k) % count, mod-lt (rr + k) h, hit, rw hit refl)
      | inr miss ↦ elim (unseen_loop-cases st count rr left (suc k) p h) [
        | inl (i, low, unseen, e) ↦ inl (i, low, unseen, rw miss e)
        | inr (e, none) ↦ inr (
          rw miss e,
          λ j a b. elim (dec_lt k j) [
            | yes later ↦ none j later (omega arith)
            | no here ↦ (let same : j ≡ k = omega arith in rw same miss)
          ],
        )
      ]
    ]

-- The profiles to try: the first `seen` of them are the seen ones that were not rejected, each once,
-- by falling score and in list order where scores are equal; behind them at most one unseen one.
pub record Ordered (st : ℕ → WifiProfState) (active count : ℕ) (q : Picks) : Type 0 where
  pub seen : ℕ
  pub fits : q.n ≤ count
  pub seen_is : (a : ℕ) → a < seen → (q.out a < count) × (is_candidate st (q.out a) ≡ true)
  pub falling :
      (a b : ℕ)
      → a < b
      → b < seen
      → (score_of st active (q.out b) < score_of st active (q.out a))
        ⊎ ((score_of st active (q.out a) ≡ score_of st active (q.out b)) × (q.out a < q.out b))
  pub all_seen :
      (k : ℕ) → k < count → is_candidate st k ≡ true → (a : ℕ) × (a < seen) × (q.out a ≡ k)
  pub last :
      ((q.n ≡ seen + 1) × (q.out seen < count) × (is_unseen st (q.out seen) ≡ true))
      ⊎ ((q.n ≡ seen) × ((k : ℕ) → k < count → is_unseen st k ≡ false))

-- What comes behind the ranked profiles leaves them as they are.
extended-Ordered :
    (st : ℕ → WifiProfState) (active count : ℕ) (p q : Picks)
    → Ranked st active count p
    → ((a : ℕ) → a < p.n → q.out a ≡ p.out a)
    → ((q.n ≡ p.n + 1) × (q.out p.n < count) × (is_unseen st (q.out p.n) ≡ true))
      ⊎ ((q.n ≡ p.n) × ((k : ℕ) → k < count → is_unseen st k ≡ false))
    → Ordered st active count q
extended-Ordered st active count p q r same last = record {
  seen = p.n;
  fits = elim last [
    | inl (e, low, unseen) ↦ omega (arith, r.room (q.out p.n) low (ground (arith, unseen)))
    | inr (e, none) ↦ omega (arith, r.n_le)
  ];
  seen_is = λ a low. let e = r.entry a low in rw (same a low) (e.0, e.1);
  falling = λ a b h low.
      let x = r.entry a (omega arith) in
      let y = r.entry b low in
      rw (same a (omega arith), same b low) (ground (arith, r.sorted a b, x, y));
  all_seen = λ k low c. let e = r.all k low c in (e.0, e.1, same e.0 e.1 ∙ e.2);
  last = last;
}

Ranked-Ordered :
    (st : ℕ → WifiProfState) (active count rr : ℕ) (p : Picks)
    → Ranked st active count p
    → 0 < count
    → Ordered st active count (unseen_loop st count rr count 0 p)
Ranked-Ordered st active count rr p r h = elim (unseen_loop-cases st count rr count 0 p h) [
  | inl (i, low, unseen, e) ↦ subst (Ordered st active count) (sym e) (
      extended-Ordered st active count p _ r (λ a small. ground arith)
        (inl (refl, ground arith, ground (arith, unseen))))
  | inr (e, none) ↦ subst (Ordered st active count) (sym e) (
      extended-Ordered st active count p p r (λ a small. refl)
        (inr (
          refl,
          λ k small.
              let (j, below, at) = rotation rr count k small in
              subst (λ z. is_unseen st z ≡ false) at (none j (omega arith) (omega arith)),
        )))
]

none-Ordered :
    (st : ℕ → WifiProfState) (active rr : ℕ)
    → Ordered st active 0 (unseen_loop st 0 rr 0 0 (seen_loop st active 0 0 no_picks))
unfolding unseen_loop seen_loop
none-Ordered st active rr = record {
  seen = 0;
  fits = omega arith;
  seen_is = λ a low. absurd (omega arith);
  falling = λ a b h low. absurd (omega arith);
  all_seen = λ k low c. absurd (omega arith);
  last = inr (refl, λ k low. absurd (omega arith));
}

-- For any states, active profile and turn: the profiles to try are the seen ones whose password was
-- not rejected, each once, by falling signal with the bonus of the active one and in list order where
-- that is equal; behind them comes one unseen profile that was not rejected, if there is any. Only the
-- first eight profiles of a longer list are looked at, and no index is written past the eighth place.
pub wifi_pick_order-Ordered :
    (st : ℕ → WifiProfState) (count active rr_unseen : ℕ)
    → Ordered st active (clipped count) (wifi_pick_order st count active rr_unseen)
      × (clipped count ≤ config_profile_max)
unfolding wifi_pick_order
wifi_pick_order-Ordered st count active rr_unseen =
    let none : Ranked st active 0 no_picks = record {
      n_le = omega arith;
      room = λ k low c. absurd (omega arith);
      entry = λ a low. absurd (omega arith);
      sorted = λ a b h low. absurd (omega arith);
      all = λ k low c. absurd (omega arith);
    } in
    (
      elim (dec_lt 0 (clipped count)) [
        | yes some_profile ↦
            let e : 0 + clipped count ≡ clipped count = omega arith in
            Ranked-Ordered st active (clipped count) rr_unseen
              (seen_loop st active (clipped count) 0 no_picks)
              (subst (λ z. Ranked st active z (seen_loop st active (clipped count) 0 no_picks)) e
                (seen_loop-Ranked st active (clipped count) 0 no_picks none))
              some_profile
        | no empty ↦
            let z : clipped count ≡ 0 = omega arith in rw z (none-Ordered st active rr_unseen)
      ],
      ground arith,
    )
