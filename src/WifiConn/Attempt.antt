-- ===== src/WifiConn/Attempt.antt =====
-- Which candidate src/wifi_conn.c tries.
use molewire.Base.{
  ℕ, zero, suc, ◌+◌, ◌-◌, ◌%◌, ◌≤◌, ◌<◌, ◌≡◌, ◌⊎◌, inl, inr, refl, sym, ◌∙◌, subst, arith,
  Bool-cases, true, false, ltb, if◌then◌else◌,
}
use native.Mathlib.Decide.{dec_lt}
use molewire.WifiPick.Order.{is_badpass, wifi_pick_order}
use molewire.WifiPick.Laws.{wifi_pick_order-Ordered}
use molewire.WifiConn.Machine.{
  st_try, st_wait, Conn, Radio, enter_wait, try_loop, try_from, build_and_try,
}

-- The first candidate from `from` on that the radio takes is in flight, or it takes none and the
-- machine waits.
abbrev pub Tried : Radio → (ℕ → ℕ) → ℕ → ℕ → Conn → Type 0
Tried radio order from order_n r =
    ((j : ℕ) × (from ≤ j)
      × (j < order_n)
      × (r.state ≡ st_try)
      × (r.trying ≡ order j)
      × (radio.takes_join (order j) ≡ true)
      × ((i : ℕ) → from ≤ i → i < j → radio.takes_join (order i) ≡ false))
    ⊎ ((r.state ≡ st_wait)
        × ((i : ℕ) → from ≤ i → i < order_n → radio.takes_join (order i) ≡ false))

try_loop-Tried :
    (left : ℕ) (radio : Radio) (now : ℕ) (c : Conn)
    → left ≡ c.order_n - c.order_ix
    → Tried radio c.order c.order_ix c.order_n (try_loop left radio now c)
unfolding try_loop enter_wait
try_loop-Tried zero radio now c e = inr (refl, λ i a b. absurd (omega arith))
try_loop-Tried (suc left) radio now c e =
    elim (Bool-cases (radio.takes_join (c.order c.order_ix))) [
      | inl taken ↦ rw taken (
          inl (
            c.order_ix,
            omega arith,
            omega arith,
            refl,
            refl,
            taken,
            λ i a b. absurd (omega arith),
          ))
      | inr refused ↦
          let before = λ (i : ℕ) (a : c.order_ix ≤ i) (b : i ≤ c.order_ix).
            (let same : i ≡ c.order_ix = omega arith in
              subst (λ k. radio.takes_join (c.order k) ≡ false) (sym same) refused) in
          rw refused
            (elim (try_loop-Tried left radio now (record c { order_ix = c.order_ix + 1 })
              (omega arith)) [
                | inl (j, a, b, s, t, takes, first) ↦ inl (
                  j,
                  omega arith,
                  b,
                  s,
                  t,
                  takes,
                  λ i x y. elim (dec_lt c.order_ix i) [
                    | yes later ↦ first i (omega arith) y
                    | no here ↦ before i x (omega arith)
                  ],
                )
                | inr (s, none) ↦ inr (
                  s,
                  λ i x y. elim (dec_lt c.order_ix i) [
                    | yes later ↦ none i (omega arith) y
                    | no here ↦ before i x (omega arith)
                  ],
                )
              ])
    ]

-- Only the candidates below `order_n` count.
Tried-cong :
    (radio : Radio) (o o' : ℕ → ℕ) (order_n : ℕ) (r : Conn)
    → ((j : ℕ) → j < order_n → o j ≡ o' j)
    → Tried radio o 0 order_n r
    → Tried radio o' 0 order_n r
Tried-cong radio o o' order_n r same (inl (j, a, b, s, t, takes, first)) = inl (
  j,
  a,
  b,
  s,
  t ∙ same j b,
  subst (λ k. radio.takes_join k ≡ true) (same j b) takes,
  λ i x y. subst (λ k. radio.takes_join k ≡ false) (same i (omega arith)) (first i x y),
)
Tried-cong radio o o' order_n r same (inr (s, none)) =
    inr (s, λ i x y. subst (λ k. radio.takes_join k ≡ false) (same i y) (none i x y))

-- Every candidate is a saved profile whose password was not rejected.
pick-not_rejected :
    (c : Conn) (j : ℕ)
    → j < (wifi_pick_order c.prof c.cfg.profile_count c.cfg.active c.rr_unseen).n
    → ((wifi_pick_order c.prof c.cfg.profile_count c.cfg.active c.rr_unseen).out j
        < c.cfg.profile_count)
      × (is_badpass
            (c.prof
              ((wifi_pick_order c.prof c.cfg.profile_count c.cfg.active c.rr_unseen).out j)).status
          ≡ false)
pick-not_rejected c j low =
    let o = (wifi_pick_order-Ordered c.prof c.cfg.profile_count c.cfg.active c.rr_unseen).0 in
    elim (dec_lt j o.seen) [
      | yes seen ↦ (let s = o.seen_is j seen in (ground (arith, s.0), ground (arith, s.1)))
      | no behind ↦ elim o.last [
        | inl (n, below, unseen) ↦
            let e : j ≡ o.seen = omega arith in rw e (ground (arith, below), ground (arith, unseen))
        | inr (n, none) ↦ absurd (omega arith)
      ]
    ]

-- A search that has its results tries the first candidate in the order of `wifi_pick_order` that the
-- radio takes, which is a saved network whose password was not rejected, or it goes to wait with
-- every candidate refused.
pub build_and_try-Tried :
    (radio : Radio) (now : ℕ) (c : Conn)
    → let q = wifi_pick_order c.prof c.cfg.profile_count c.cfg.active c.rr_unseen in
      Tried radio q.out 0 q.n (build_and_try radio now c)
      × ((j : ℕ)
          → j < q.n
          → (q.out j < c.cfg.profile_count) × (is_badpass (c.prof (q.out j)).status ≡ false))
unfolding build_and_try try_from
build_and_try-Tried radio now c =
    let q = wifi_pick_order c.prof c.cfg.profile_count c.cfg.active c.rr_unseen in
    let d = record c {
      order = λ j. if ltb j q.n then q.out j else c.order j;
      order_n = q.n;
      order_ix = 0;
      rr_unseen = (c.rr_unseen + 1) % 256;
    } in
    (
      Tried-cong radio d.order q.out q.n (try_loop (q.n - 0) radio now d) (λ j low. ground arith)
          (try_loop-Tried (q.n - 0) radio now d refl),
      pick-not_rejected c,
    )
