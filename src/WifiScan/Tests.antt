-- ===== src/WifiScan/Tests.antt =====
-- A scan of src/wifi_scan.c that sees two networks, one of them twice.
use molewire.Base.{ℕ, ◌<◌, ◌≡◌, ◌≢◌, refl, arith, some, [], ◌∷◌, get_or, Bytes}
use molewire.WifiScan.Table.{
  Beacon, Results, same_text, fill_entry, is_same, find_same, add_beacon, merge_beacon, scan_cb,
}
use molewire.WifiScan.Merge.{IsTable, Merged}
use molewire.WifiScan.Scanned.{scan_cb-Merged}

abbrev zeros : Bytes
zeros j = 0

-- The array as it is at the start.
abbrev no_results : Results
no_results = record {
  entries = λ i. record { ssid = zeros; rssi = 0; channel = 0; bssid = zeros; auth = 0 };
  result_count = 0;
}

abbrev home : ℕ → Beacon
home rssi = record {
  ssid_len = 4;
  ssid = λ j. get_or (104 ∷ 111 ∷ 109 ∷ 101 ∷ []) j 0;
  rssi = rssi;
  channel = 6;
  bssid = zeros;
  auth_mode = 4;
}

abbrev cafe : Beacon
cafe = record (home 32700) { ssid = λ j. get_or (99 ∷ 97 ∷ 102 ∷ 101 ∷ []) j 0; auth_mode = 0 }

unfoldable seen : Results
seen = scan_cb (some (home 32720)) (scan_cb (some cafe) (scan_cb (some (home 32710)) no_results))

seen_count : seen.result_count ≡ 2
unfolding seen scan_cb merge_beacon add_beacon find_same is_same same_text fill_entry
seen_count = refl

seen_strongest : (seen.entries 0).rssi ≡ 32720
unfolding seen scan_cb merge_beacon add_beacon find_same is_same same_text fill_entry
seen_strongest = refl

no_results-IsTable : IsTable no_results
no_results-IsTable = record {
  fits = omega arith;
  named = λ i low. absurd (omega (arith, low));
  apart = λ i j low lj ne. absurd (omega (arith, low));
}

home-shown : (j : ℕ) → j < 4 → (home 32710).ssid j ≢ 0
home-shown j h = λ e. ground arith

scan_cb-Merged_example :
    IsTable (scan_cb (some (home 32710)) no_results)
    × Merged no_results (home 32710) (scan_cb (some (home 32710)) no_results)
scan_cb-Merged_example = scan_cb-Merged no_results (home 32710) no_results-IsTable (record {
  named = omega arith;
  fits = omega arith;
  text = record { shown = home-shown; ends = refl };
})
