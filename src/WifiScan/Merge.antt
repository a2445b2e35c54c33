-- ===== src/WifiScan/Merge.antt =====
-- What `scan_cb` of src/wifi_scan.c does with a beacon, and what the results always are.
use molewire.Base.{
  ℕ, zero, suc, ◌+◌, ◌≤◌, ◌<◌, ◌≡◌, ◌≢◌, inl, inr, refl, ◌∙◌, subst, arith, true, false, Bool-cases,
  none, some, ltb, Bytes,
}
use native.Mathlib.Decide.{dec_lt}
use molewire.WifiScan.Table.{
  wifi_scan_max, WifiScanEntry, Beacon, Results, same_text, fill_entry, is_same, find_same,
  weakest_of,
}
use molewire.WifiScan.Names.{IsText, same_text-swap}

-- A beacon with a name: of 1 to 32 characters, none of them NUL, and a NUL behind them.
pub record IsPlain (r : Beacon) : Type 0 where
  pub named : 1 ≤ r.ssid_len
  pub fits : r.ssid_len ≤ 32
  pub text : IsText r.ssid r.ssid_len

abbrev pub IsNamed : Bytes → Type 0
IsNamed a = (n : ℕ) × (1 ≤ n) × (n ≤ 32) × IsText a n

abbrev pub names : Results → ℕ → Bytes
names t i = (t.entries i).ssid

-- The results have names, no two of them the same, and there is room for them.
pub record IsTable (t : Results) : Type 0 where
  pub fits : t.result_count ≤ wifi_scan_max
  pub named : (i : ℕ) → i < t.result_count → IsNamed (names t i)
  pub apart :
      (i j : ℕ)
      → i < t.result_count
      → j < t.result_count
      → i ≢ j
      → same_text 33 0 (names t i) (names t j) ≡ false

abbrev pub IsNew : Results → Beacon → Type 0
IsNew t r = (k : ℕ) → k < t.result_count → same_text 33 0 (names t k) r.ssid ≡ false

-- An entry that holds a beacon: its name up to the NUL, its signal, channel, address and security.
pub record Holds (e : WifiScanEntry) (r : Beacon) : Type 0 where
  pub name_is : (j : ℕ) → j < r.ssid_len → e.ssid j ≡ r.ssid j
  pub name_ends : e.ssid r.ssid_len ≡ 0
  pub rssi_is : e.rssi ≡ r.rssi
  pub channel_is : e.channel ≡ r.channel
  pub bssid_is : (j : ℕ) → j < 6 → e.bssid j ≡ r.bssid j
  pub auth_is : e.auth ≡ r.auth_mode

-- From `t` to `u`, which has `n` results: entry `i` holds the beacon, and the others are as they were.
pub record FilledAt (t : Results) (i : ℕ) (r : Beacon) (n : ℕ) (u : Results) : Type 0 where
  pub count_is : u.result_count ≡ n
  pub holds : Holds (u.entries i) r
  pub others_are : (k : ℕ) → k ≢ i → u.entries k ≡ t.entries k

-- The five ways in which a beacon is merged; `len` is the length of its name.
pub data Merged (t : Results) (r : Beacon) (u : Results) : Type 0 where
  stronger :
      (i : ℕ)
      → i < t.result_count
      → same_text 33 0 (names t i) r.ssid ≡ true
      → (t.entries i).rssi < r.rssi
      → FilledAt t i r t.result_count u
      → Merged t r u
  not_stronger :
      (i : ℕ)
      → i < t.result_count
      → same_text 33 0 (names t i) r.ssid ≡ true
      → r.rssi ≤ (t.entries i).rssi
      → u ≡ t
      → Merged t r u
  added :
      IsNew t r
      → t.result_count < wifi_scan_max
      → FilledAt t t.result_count r (t.result_count + 1) u
      → Merged t r u
  replaced :
      (w : ℕ)
      → IsNew t r
      → t.result_count ≡ wifi_scan_max
      → w < wifi_scan_max
      → ((k : ℕ) → k < wifi_scan_max → (t.entries w).rssi ≤ (t.entries k).rssi)
      → (t.entries w).rssi < r.rssi
      → FilledAt t w r t.result_count u
      → Merged t r u
  too_weak :
      IsNew t r
      → t.result_count ≡ wifi_scan_max
      → ((k : ℕ) → k < wifi_scan_max → r.rssi ≤ (t.entries k).rssi)
      → u ≡ t
      → Merged t r u

module _ (t : Results) where
  pub weakest_of_lem :
      (left i w : ℕ)
      → w < i
      → ((k : ℕ) → k < i → (t.entries w).rssi ≤ (t.entries k).rssi)
      → let v = weakest_of t left i w in
        (v < i + left) × ((k : ℕ) → k < i + left → (t.entries v).rssi ≤ (t.entries k).rssi)
  unfolding weakest_of
  weakest_of_lem zero i w low least = (omega arith, λ k h. least k (omega arith))
  weakest_of_lem (suc left) i w low least =
      elim (Bool-cases (ltb (t.entries i).rssi (t.entries w).rssi)) [
        | inl weaker ↦
            let next = weakest_of_lem left (i + 1) i (omega arith) (λ k h. elim (dec_lt k i) [
              | yes p ↦ (let l = least k p in ground arith)
              | no p ↦ (let e : k ≡ i = omega arith in rw e (omega arith))
            ]) in
            rw weaker ((let f = next.0 in omega arith), λ k h. next.1 k (omega arith))
        | inr not_weaker ↦
            let next = weakest_of_lem left (i + 1) w (omega arith) (λ k h. elim (dec_lt k i) [
              | yes p ↦ least k p
              | no p ↦ (let e : k ≡ i = omega arith in rw e (ground arith))
            ]) in
            rw not_weaker ((let f = next.0 in omega arith), λ k h. next.1 k (omega arith))
      ]

  pub find_same-some :
      (r : Beacon) (len left i j : ℕ)
      → find_same t r len left i ≡ some j
      → (i ≤ j) × (j < i + left) × (is_same (t.entries j) r len ≡ true)
  unfolding find_same
  find_same-some r len zero i j h = absurd (cc)
  find_same-some r len (suc left) i j h = elim (Bool-cases (is_same (t.entries i) r len)) [
    | inl hit ↦
        (let at : i ≡ j = ground arith in
          (omega arith, omega arith, subst (λ k. is_same (t.entries k) r len ≡ true) at hit))
    | inr missed ↦
        let rest = find_same-some r len left (i + 1) j (ground arith) in
        let low = rest.0 in let high = rest.1 in (omega arith, omega arith, rest.2)
  ]

  pub find_same-none :
      (r : Beacon) (len left i : ℕ)
      → find_same t r len left i ≡ none
      → (k : ℕ) → i ≤ k
      → k < i + left
      → is_same (t.entries k) r len ≡ false
  unfolding find_same
  find_same-none r len zero i h k low high = absurd (omega arith)
  find_same-none r len (suc left) i h k low high = elim (Bool-cases (is_same (t.entries i) r len)) [
    | inl hit ↦ absurd (ground arith)
    | inr missed ↦ elim (dec_lt i k) [
      | yes more ↦ find_same-none r len left (i + 1) (ground arith) k (omega arith) (omega arith)
      | no here ↦
          (let at : i ≡ k = omega arith in
            subst (λ k. is_same (t.entries k) r len ≡ false) at missed)
    ]
  ]

module _ (r : Beacon) (p : IsPlain r) where
  pub fill_entry-text :
      (e : WifiScanEntry) (j : ℕ) → j ≤ r.ssid_len → (fill_entry e r r.ssid_len).ssid j ≡ r.ssid j
  unfolding fill_entry
  fill_entry-text e j h =
      let s = p.text.ends in
      elim (dec_lt j r.ssid_len) [
        | yes inside ↦ ground arith
        | no at ↦ (let same : j ≡ r.ssid_len = omega arith in ground arith)
      ]

  pub fill_entry-Holds : (e : WifiScanEntry) → Holds (fill_entry e r r.ssid_len) r
  unfolding fill_entry
  fill_entry-Holds e = record {
    name_is = λ j h. fill_entry-text e j (omega arith);
    name_ends = fill_entry-text e r.ssid_len (omega arith) ∙ p.text.ends;
    rssi_is = refl;
    channel_is = refl;
    bssid_is = λ j h. ground arith;
    auth_is = refl;
  }

  pub fill_entry-IsNamed : (e : WifiScanEntry) → IsNamed (fill_entry e r r.ssid_len).ssid
  fill_entry-IsNamed e = (
    r.ssid_len,
    p.named,
    p.fits,
    record {
      shown = λ j h.
          (let s = p.text.shown j h in let f = fill_entry-text e j (omega arith) in ground arith);
      ends = fill_entry-text e r.ssid_len (omega arith) ∙ p.text.ends;
    },
  )

  -- To the comparison, the entry that is filled has the beacon's name.
  pub fill_entry-same :
      (e : WifiScanEntry) (a : Bytes)
      → same_text 33 0 a (fill_entry e r r.ssid_len).ssid ≡ same_text 33 0 a r.ssid
  fill_entry-same e a =
      same_text-swap 33 0 r.ssid_len a (fill_entry e r r.ssid_len).ssid r.ssid (fill_entry-text e)
        (fill_entry-text e r.ssid_len (omega arith) ∙ p.text.ends) (omega arith)
