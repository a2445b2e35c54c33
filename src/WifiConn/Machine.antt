-- ===== src/WifiConn/Machine.antt =====
-- The state and the steps of src/wifi_conn.c, once `wifi_conn_init` has set `g_cfg`. What the radio
-- and the console answer is a record; what is printed is left out.
use molewire.Base.{
  ℕ, zero, suc, ◌+◌, ◌-◌, ◌*◌, ◌%◌, ◌^◌, Bool, true, false, ◌&&◌, List, [], ◌∷◌, ℤ, pos, negsuc,
  ltb, leb, ◌==◌, if◌then◌else◌,
}
use molewire.Config.Record.{CString, config_profile_max, Config}
use molewire.Config.Profiles.{config_find_profile, config_touch_profile}
use molewire.WifiPick.Order.{
  WifiProfStatus, untried, connected, nojoin, badpass, WifiProfState, wifi_rssi_unseen,
  wifi_pick_order,
}

abbrev pub join_timeout_ms : ℕ
join_timeout_ms = 12000

abbrev pub fast_retries : ℕ
fast_retries = 2

abbrev pub mgr_scan_passes : ℕ
mgr_scan_passes = 2

abbrev pub scan_fresh_ms : ℕ
scan_fresh_ms = 15000

abbrev pub backoff_min_ms : ℕ
backoff_min_ms = 8000

abbrev pub backoff_max_ms : ℕ
backoff_max_ms = 60000

abbrev pub badpass_retry_ms : ℕ
badpass_retry_ms = 600000

pub data ConnState : Type 0 where
  st_idle st_scan st_try st_wait st_up : ConnState

pub record Conn : Type 0 where
  pub cfg : Config
  pub state : ConnState
  pub prof : ℕ → WifiProfState
  pub badpass_at : ℕ → ℕ
  pub order : ℕ → ℕ
  pub order_n : ℕ
  pub order_ix : ℕ
  pub trying : ℕ
  pub rr_unseen : ℕ
  pub fast_tries : ℕ
  pub attempt_at : ℕ
  pub wait_until : ℕ
  pub backoff_ms : ℕ
  pub scan_passes_left : ℕ
  pub scan_done_at : ℕ
  pub scan_ever : Bool
  pub scan_requested : Bool
  pub creds_unsaved : Bool
  pub last_tick : ℕ

pub data LinkStatus : Type 0 where
  link_other link_badauth link_fail link_nonet : LinkStatus

-- A result of the scan.
pub record ScanEntry : Type 0 where
  pub ssid : CString
  pub rssi : ℕ

-- What the driver answers to the calls of one step: the results of the scan, the link and its
-- status, whether it takes a join of profile `i`, starts a scan or another pass, and still scans;
-- and whether the console owns the scan.
pub record Radio : Type 0 where
  pub results : List ScanEntry
  pub link : Bool
  pub status : LinkStatus
  pub takes_join : ℕ → Bool
  pub starts_scan : Bool
  pub scans_again : Bool
  pub in_progress : Bool
  pub console_owns : Bool

-- `now - then` of two 32-bit times.
abbrev pub elapsed : ℕ → ℕ → ℕ
elapsed now past = (now + 2 ^ 32 - past % 2 ^ 32) % 2 ^ 32

abbrev pub set_status : (ℕ → WifiProfState) → ℕ → WifiProfStatus → ℕ → WifiProfState
set_status prof i s j = if j == i then record (prof j) { status = s } else prof j

abbrev pub set_rssi : (ℕ → WifiProfState) → ℕ → ℕ → ℕ → WifiProfState
set_rssi prof i r j = if j == i then record (prof j) { rssi = r } else prof j

abbrev pub is_connected : WifiProfStatus → Bool
is_connected connected = true
is_connected untried = false
is_connected nojoin = false
is_connected badpass = false

-- The strength of a result, at the saved network that `config_find_profile` found for it.
unfoldable pub note_result : (ℕ → WifiProfState) → ℤ → ℕ → ℕ → WifiProfState
note_result prof (negsuc n) r = prof
note_result prof (pos p) r = set_rssi prof p r

unfoldable pub note_results : Config → List ScanEntry → (ℕ → WifiProfState) → ℕ → WifiProfState
note_results cfg [] prof = prof
note_results cfg (e ∷ es) prof =
    note_results cfg es (note_result prof (config_find_profile cfg e.ssid) e.rssi)

unfoldable pub snapshot_rssi : List ScanEntry → Conn → Conn
snapshot_rssi results c = record c {
  prof = note_results c.cfg results (λ i.
      if ltb i config_profile_max then record (c.prof i) { rssi = wifi_rssi_unseen } else c.prof i);
}

unfoldable pub enter_wait : ℕ → Conn → Conn
enter_wait now c = record c {
  state = st_wait;
  wait_until = (now + c.backoff_ms) % 2 ^ 32;
  backoff_ms = if ltb backoff_max_ms (c.backoff_ms * 2) then backoff_max_ms else c.backoff_ms * 2;
}

-- The loop of `try_from`, with `left` candidates left.
unfoldable pub try_loop : ℕ → Radio → ℕ → Conn → Conn
try_loop zero radio now c = enter_wait now c
try_loop (suc left) radio now c =
    let rest = try_loop left radio now (record c { order_ix = c.order_ix + 1 }) in
    if radio.takes_join (c.order c.order_ix)
    then record c { trying = c.order c.order_ix; attempt_at = now; state = st_try }
    else rest

unfoldable pub try_from : Radio → ℕ → Conn → Conn
try_from radio now c = try_loop (c.order_n - c.order_ix) radio now c

unfoldable pub build_and_try : Radio → ℕ → Conn → Conn
build_and_try radio now c =
    let q = wifi_pick_order c.prof c.cfg.profile_count c.cfg.active c.rr_unseen in
    try_from radio now (record c {
      order = λ j. if ltb j q.n then q.out j else c.order j;
      order_n = q.n;
      order_ix = 0;
      rr_unseen = (c.rr_unseen + 1) % 256;
    })

unfoldable pub start_cycle : Radio → ℕ → Conn → Conn
start_cycle radio now c =
    let s = record c { state = st_scan } in
    if c.cfg.profile_count == 0
    then record c { state = st_idle }
    else if c.scan_ever && ltb (elapsed now c.scan_done_at) scan_fresh_ms
    then build_and_try radio now (snapshot_rssi radio.results s)
    else if radio.starts_scan
    then record s { scan_passes_left = mgr_scan_passes }
    else enter_wait now s

-- The only candidate is the active profile.
unfoldable pub try_active : Radio → ℕ → Conn → Conn
try_active radio now c = try_from radio now (record c {
  order = λ j. if j == 0 then c.cfg.active else c.order j;
  order_n = 1;
  order_ix = 0;
})

-- No profile is marked as connected any more.
abbrev pub none_connected : (ℕ → WifiProfState) → ℕ → WifiProfState
none_connected prof i =
    if ltb i config_profile_max && is_connected (prof i).status
    then record (prof i) { status = untried }
    else prof i

-- Entry `i` to the front, those before it one place on.
abbrev pub rotate {ℓ} : {A : Type ℓ} → (ℕ → A) → ℕ → ℕ → A
rotate p i j = if j == 0 then p i else if leb j i then p (j - 1) else p j

-- The move of the joined profile to the front of the list.
unfoldable pub move_joined : Conn → Conn
move_joined c =
    if ltb 0 c.trying
    then record c {
      prof = rotate c.prof c.trying;
      badpass_at = rotate c.badpass_at c.trying;
      cfg = (config_touch_profile c.cfg (pos c.trying)).0;
      trying = 0;
    }
    else c

unfoldable pub mark_joined : Conn → Conn
mark_joined c = record c {
  prof = set_status c.prof c.trying connected;
  state = st_up;
  fast_tries = fast_retries;
  backoff_ms = backoff_min_ms;
  creds_unsaved = false;
}

unfoldable pub joined : Conn → Conn
joined c =
    if leb c.cfg.profile_count c.trying
    then record c { state = st_up; fast_tries = fast_retries }
    else mark_joined (
        move_joined
          (record c { prof = none_connected c.prof; cfg = record c.cfg { active = c.trying } }))
