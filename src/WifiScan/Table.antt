-- ===== src/WifiScan/Table.antt =====
-- The results and `scan_cb` of src/wifi_scan.c. A signal strength is given by its distance from
-- INT16_MIN.
use molewire.Base.{
  ℕ, zero, suc, ◌+◌, ◌-◌, Bool, true, false, ◌&&◌, ◌||◌, Option, none, some, ltb, ◌==◌,
  if◌then◌else◌, Bytes,
}
use molewire.Config.Record.{config_ssid_max}

abbrev pub wifi_scan_max : ℕ
wifi_scan_max = 24

pub record WifiScanEntry : Type 0 where
  pub ssid : Bytes
  pub rssi : ℕ
  pub channel : ℕ
  pub bssid : Bytes
  pub auth : ℕ

-- What the driver reports of one beacon. `ssid` is all that can be read from the array on.
pub record Beacon : Type 0 where
  pub ssid_len : ℕ
  pub ssid : Bytes
  pub rssi : ℕ
  pub channel : ℕ
  pub bssid : Bytes
  pub auth_mode : ℕ

-- `results` and `result_count`.
pub record Results : Type 0 where
  pub entries : ℕ → WifiScanEntry
  pub result_count : ℕ

-- `strncmp(a, b, n) == 0`, from offset `i` on.
unfoldable pub same_text : ℕ → ℕ → Bytes → Bytes → Bool
same_text zero i a b = true
same_text (suc n) i a b =
    let rest = same_text n (i + 1) a b in if a i == b i then a i == 0 || rest else false

-- `memcpy(dst, src, n)`
abbrev pub copied : ℕ → Bytes → Bytes → Bytes
copied n src dst j = if ltb j n then src j else dst j

unfoldable pub fill_entry : WifiScanEntry → Beacon → ℕ → WifiScanEntry
fill_entry e r len = record {
  ssid = λ j. if j == len then 0 else copied len r.ssid e.ssid j;
  rssi = r.rssi;
  channel = r.channel;
  bssid = copied 6 r.bssid e.bssid;
  auth = r.auth_mode;
}

abbrev pub fill_at : Results → ℕ → Beacon → ℕ → Results
fill_at t i r len = record t {
  entries = λ k. if k == i then fill_entry (t.entries i) r len else t.entries k;
}

-- Whether an entry is of the beacon's network.
unfoldable pub is_same : WifiScanEntry → Beacon → ℕ → Bool
is_same e r len = same_text config_ssid_max 0 e.ssid r.ssid && e.ssid len == 0

-- The first such entry of `left` many from `i` on.
unfoldable pub find_same : Results → Beacon → ℕ → ℕ → ℕ → Option ℕ
find_same t r len zero i = none
find_same t r len (suc left) i =
    let rest = find_same t r len left (i + 1) in
    if is_same (t.entries i) r len then some i else rest

unfoldable pub weakest_of : Results → ℕ → ℕ → ℕ → ℕ
weakest_of t zero i weakest = weakest
weakest_of t (suc left) i weakest =
    weakest_of t left (i + 1)
      (if ltb (t.entries i).rssi (t.entries weakest).rssi then i else weakest)

unfoldable pub add_beacon : Results → Beacon → ℕ → Results
add_beacon t r len =
    if ltb t.result_count wifi_scan_max
    then record (fill_at t t.result_count r len) { result_count = t.result_count + 1 }
    else (let weakest = weakest_of t (t.result_count - 1) 1 0 in
        if ltb (t.entries weakest).rssi r.rssi then fill_at t weakest r len else t)

unfoldable pub merge_beacon : Results → Beacon → ℕ → Option ℕ → Results
merge_beacon t r len (some i) = if ltb (t.entries i).rssi r.rssi then fill_at t i r len else t
merge_beacon t r len none = add_beacon t r len

-- `len`
abbrev pub length_of : Beacon → ℕ
length_of r = if ltb 32 r.ssid_len then 32 else r.ssid_len

unfoldable pub scan_cb : Option Beacon → Results → Results
scan_cb none t = t
scan_cb (some r) t =
    if r.ssid_len == 0 || r.ssid 0 == 0
    then t
    else merge_beacon t r (length_of r) (find_same t r (length_of r) t.result_count 0)
