-- ===== src/WifiScan/Scanned.antt =====
-- `scan_cb` of src/wifi_scan.c on a beacon with a name.
use molewire.Base.{
  ℕ, ◌+◌, ◌-◌, ◌≤◌, ◌<◌, ◌≡◌, ◌≢◌, inl, inr, refl, sym, ◌∙◌, ap, ap₂, subst, arith, Bool, true,
  false, Bool-cases, ◌||◌, Option, none, some, ltb, ◌==◌, if◌then◌else◌,
}
use molewire.WifiScan.Table.{
  wifi_scan_max, Beacon, Results, same_text, fill_entry, fill_at, is_same, find_same, weakest_of,
  add_beacon, merge_beacon, length_of, scan_cb,
}
use molewire.WifiScan.Names.{same_text-sym, same_text-swap, same_text-agree}
use molewire.WifiScan.Merge.{
  IsPlain, IsNamed, names, IsTable, IsNew, Holds, FilledAt, fill_entry-Holds, Merged, stronger,
  not_stronger, added, replaced, too_weak, weakest_of_lem, find_same-some, find_same-none,
  fill_entry-IsNamed, fill_entry-same,
}

module _ (t : Results) (r : Beacon) (h : IsTable t) (p : IsPlain r) where
  -- The results with the entry at `i` filled, as many as `n`.
  abbrev filled : ℕ → ℕ → Results
  filled i n = record (fill_at t i r r.ssid_len) { result_count = n }

  names-filled :
      (i n k : ℕ)
      → (k == i) ≡ true
      → names (filled i n) k ≡ (fill_entry (t.entries i) r r.ssid_len).ssid
  names-filled i n k at =
      ap (λ (b : Bool). (if b then fill_entry (t.entries i) r r.ssid_len else t.entries k).ssid) at

  names-filled_other : (i n k : ℕ) → (k == i) ≡ false → names (filled i n) k ≡ names t k
  names-filled_other i n k other =
      ap (λ (b : Bool). (if b then fill_entry (t.entries i) r r.ssid_len else t.entries k).ssid)
        other

  filled-FilledAt : (i n : ℕ) → FilledAt t i r n (filled i n)
  filled-FilledAt i n = record {
    count_is = refl;
    holds =
        let at : (i == i) ≡ true = ground arith in
        subst (λ b. Holds (if b then fill_entry (t.entries i) r r.ssid_len else t.entries i) r)
          (sym at) (fill_entry-Holds r p (t.entries i));
    others_are = λ k ne.
        let other : (k == i) ≡ false = ground (arith, ne) in
        ap (λ (b : Bool). if b then fill_entry (t.entries i) r r.ssid_len else t.entries k) other;
  }

  filled-IsTable :
      (i n : ℕ)
      → n ≤ wifi_scan_max
      → ((k : ℕ) → k < n → k ≢ i → k < t.result_count)
      → ((k : ℕ) → k < t.result_count → k ≢ i → same_text 33 0 (names t k) r.ssid ≡ false)
      → IsTable (filled i n)
  filled-IsTable i n fits others differ =
      let new = fill_entry (t.entries i) r r.ssid_len in
      record {
        fits = fits;
        named = λ k low. elim (Bool-cases (k == i)) [
          | inl at ↦
              subst IsNamed (sym (names-filled i n k at)) (fill_entry-IsNamed r p (t.entries i))
          | inr other ↦
              subst IsNamed (sym (names-filled_other i n k other))
                (h.named k (others k low (λ e. ground arith)))
        ];
        apart = λ a b la lb ne. elim (Bool-cases (a == i)) [
          | inl at ↦
              let apart_b : b ≢ i = (λ e. ne (ground arith)) in
              let other : (b == i) ≡ false = ground (arith, apart_b) in
              ap₂ (same_text 33 0) (names-filled i n a at) (names-filled_other i n b other)
              ∙ (same_text-sym 33 0 new.ssid (names t b)
                  ∙ fill_entry-same r p (t.entries i) (names t b)
                  ∙ differ b (others b lb apart_b) apart_b)
          | inr apart_a ↦ elim (Bool-cases (b == i)) [
            | inl at ↦
                let ne_a : a ≢ i = (λ e. ground arith) in
                ap₂ (same_text 33 0) (names-filled_other i n a apart_a) (names-filled i n b at)
                ∙ (fill_entry-same r p (t.entries i) (names t a) ∙ differ a (others a la ne_a) ne_a)
            | inr apart_b ↦
                ap₂ (same_text 33 0) (names-filled_other i n a apart_a)
                  (names-filled_other i n b apart_b)
                ∙ (h.apart a b (others a la (λ e. ground arith)) (others b lb (λ e. ground arith))
                    ne)
          ]
        ];
      }

  -- A beacon that no entry is found for has a new name.
  not_found-IsNew : find_same t r r.ssid_len t.result_count 0 ≡ none → IsNew t r
  unfolding is_same
  not_found-IsNew missed k low = elim (Bool-cases (same_text 33 0 (names t k) r.ssid)) [
    | inr new ↦ new
    | inl same ↦
        let end =
          same_text-agree 33 0 r.ssid_len (names t k) r.ssid same p.text.shown
            (let f = p.fits in omega arith) r.ssid_len (omega arith) (omega arith) in
        let not_same =
          find_same-none t r r.ssid_len t.result_count 0 missed k (omega arith) (omega arith) in
        absurd (let e = p.text.ends in ground arith)
  ]

  -- An entry that is found has the beacon's name, and no other has it.
  found-only :
      (i k : ℕ)
      → i < t.result_count
      → k < t.result_count
      → k ≢ i
      → same_text 33 0 (names t i) r.ssid ≡ true
      → same_text 33 0 (names t k) r.ssid ≡ false
  found-only i k li lk ne same =
      sym (
        same_text-swap 33 0 r.ssid_len (names t k) (names t i) r.ssid
          (λ j low.
            same_text-agree 33 0 r.ssid_len (names t i) r.ssid same p.text.shown
              (let f = p.fits in omega arith) j (omega arith) low)
          (same_text-agree 33 0 r.ssid_len (names t i) r.ssid same p.text.shown
              (let f = p.fits in omega arith) r.ssid_len (omega arith) (omega arith)
            ∙ p.text.ends)
          (omega arith))
      ∙ h.apart k i lk li ne

  found_case :
      (i : ℕ)
      → find_same t r r.ssid_len t.result_count 0 ≡ some i
      → let u = merge_beacon t r r.ssid_len (some i) in IsTable u × Merged t r u
  unfolding merge_beacon is_same
  found_case i hit =
      let (low, high, same) = find_same-some t r r.ssid_len t.result_count 0 i hit in
      let name : same_text 33 0 (names t i) r.ssid ≡ true = ground arith in
      let at : i < t.result_count = omega arith in
      elim (Bool-cases (ltb (t.entries i).rssi r.rssi)) [
        | inl more ↦ rw more (
          filled-IsTable i t.result_count h.fits (λ k a b. a)
              (λ k lk ne. found-only i k at lk ne name),
          stronger i at name (ground arith) (filled-FilledAt i t.result_count),
        )
        | inr less ↦ rw less (h, not_stronger i at name (ground arith) refl)
      ]

  new_case :
      find_same t r r.ssid_len t.result_count 0 ≡ none
      → let u = merge_beacon t r r.ssid_len none in IsTable u × Merged t r u
  unfolding merge_beacon add_beacon
  new_case missed =
      let new = not_found-IsNew missed in
      let fits = h.fits in
      elim (Bool-cases (ltb t.result_count wifi_scan_max)) [
        | inl room ↦ rw room (
          filled-IsTable t.result_count (t.result_count + 1) (ground arith) (λ k a b. omega arith)
              (λ k lk ne. new k lk),
          added new (ground arith) (filled-FilledAt t.result_count (t.result_count + 1)),
        )
        | inr full ↦
            let all : t.result_count ≡ wifi_scan_max = ground arith in
            let w = weakest_of t (t.result_count - 1) 1 0 in
            let least =
              weakest_of_lem t (t.result_count - 1) 1 0 (omega arith)
                (λ k low. (let z : k ≡ 0 = omega arith in rw z (omega arith))) in
            let low : w < wifi_scan_max = (let l = least.0 in omega arith) in
            elim (Bool-cases (ltb (t.entries w).rssi r.rssi)) [
              | inl more ↦
                  rw (full, more)
                    (
                      filled-IsTable w t.result_count fits (λ k a b. a) (λ k lk ne. new k lk),
                      replaced w new all low (λ k lk. least.1 k (omega arith)) (ground arith)
                          (filled-FilledAt w t.result_count),
                    )
              | inr less ↦
                  rw (full, less)
                    (
                      h,
                      too_weak new all (λ k lk. (let l = least.1 k (omega arith) in ground arith))
                          refl,
                    )
            ]
      ]

-- Of results with names of which no two are the same, and a beacon with a name: `scan_cb` leaves such
-- results. An entry of the beacon's name takes over the beacon's name, signal, channel, address and
-- security if its signal is stronger, and else all stays; a new name is added or, in full results,
-- takes the place of a weakest entry if it is stronger than that. All other entries stay.
pub scan_cb-Merged :
    (t : Results) (r : Beacon)
    → IsTable t
    → IsPlain r
    → IsTable (scan_cb (some r) t) × Merged t r (scan_cb (some r) t)
unfolding scan_cb
scan_cb-Merged t r h p =
    let len : length_of r ≡ r.ssid_len = (let f = p.fits in ground arith) in
    let seen : (r.ssid_len == 0 || r.ssid 0 == 0) ≡ false =
      (let n = p.named in let s = p.text.shown 0 (omega arith) in ground arith) in
    rw (seen, len) (found (find_same t r r.ssid_len t.result_count 0) refl)
  where
    found :
        (o : Option ℕ)
        → find_same t r r.ssid_len t.result_count 0 ≡ o
        → let u = merge_beacon t r r.ssid_len o in IsTable u × Merged t r u
    found none missed = new_case t r h p missed
    found (some i) hit = found_case t r h p i hit
