-- ===== src/WifiConn/Task.antt =====
-- The entry points of src/wifi_conn.c: the start, the console's edits, and the tick.
use molewire.Base.{ℕ, ◌+◌, ◌-◌, ◌^◌, Bool, true, false, not, ◌&&◌, ltb, leb, ◌==◌, if◌then◌else◌}
use molewire.Config.Record.{Config}
use molewire.WifiPick.Order.{WifiProfStatus, untried, nojoin, badpass, is_badpass, WifiProfState}
use molewire.WifiConn.Machine.{
  join_timeout_ms, mgr_scan_passes, backoff_min_ms, badpass_retry_ms, ConnState, st_idle, st_scan,
  st_try, st_wait, st_up, Conn, LinkStatus, link_other, link_badauth, link_fail, link_nonet, Radio,
  elapsed, set_status, snapshot_rssi, try_from, build_and_try, start_cycle, try_active,
  none_connected, joined,
}

-- `memset(prof, 0, sizeof(prof))`: an RSSI of 0 dBm is 32768 above INT16_MIN.
abbrev pub cleared_prof : ℕ → WifiProfState
cleared_prof i = record { rssi = 32768; status = untried }

-- From the static state `c`, with the configuration that `g_cfg` is set to.
unfoldable pub wifi_conn_init : Radio → ℕ → Config → Conn → Conn
wifi_conn_init radio now cfg c =
    let s = snapshot_rssi radio.results (record c { cfg = cfg; prof = cleared_prof }) in
    if ltb cfg.active cfg.profile_count
    then try_active radio now s
    else if ltb 0 cfg.profile_count
    then record s { state = st_wait; wait_until = 0 }
    else record s { state = st_idle }

unfoldable pub wifi_conn_apply : Radio → ℕ → Conn → Conn
wifi_conn_apply radio now c =
    let s = record (snapshot_rssi radio.results (record c { prof = cleared_prof })) {
      backoff_ms = backoff_min_ms;
    } in
    if ltb s.cfg.active s.cfg.profile_count
    then try_active radio now s
    else record s { state = st_wait; wait_until = now }

unfoldable pub wifi_conn_mark_creds_unsaved : Conn → Conn
wifi_conn_mark_creds_unsaved c = record c { creds_unsaved = true }

unfoldable pub wifi_conn_note_saved : Conn → Conn
wifi_conn_note_saved c = record c { creds_unsaved = false }

unfoldable pub wifi_conn_request_scan : Conn → Conn
wifi_conn_request_scan c = record c { scan_requested = true }

-- A mark of a bad password is taken off after ten minutes.
unfoldable pub decay_badpass : ℕ → Conn → Conn
decay_badpass now c = record c {
  prof = λ i.
      if ltb i c.cfg.profile_count
        && is_badpass (c.prof i).status
        && leb badpass_retry_ms (elapsed now (c.badpass_at i))
      then record (c.prof i) { status = untried }
      else c.prof i;
}

abbrev pub is_try : ConnState → Bool
is_try st_try = true
is_try st_idle = false
is_try st_scan = false
is_try st_wait = false
is_try st_up = false

abbrev pub scan_after_wait : ConnState → ConnState
scan_after_wait st_wait = st_scan
scan_after_wait s = s

-- A search for a network goes on with the results.
unfoldable pub scan_next : ConnState → Radio → ℕ → Conn → Conn
scan_next st_scan radio now c = build_and_try radio now c
scan_next st_idle radio now c = c
scan_next st_try radio now c = c
scan_next st_wait radio now c = c
scan_next st_up radio now c = c

-- All passes are done: the results are taken.
unfoldable pub scan_complete : Radio → ℕ → Conn → Conn
scan_complete radio now c = scan_next c.state radio now (record (snapshot_rssi radio.results c) {
  scan_passes_left = 0;
  scan_done_at = now;
  scan_ever = true;
})

unfoldable pub drive_scan : Radio → ℕ → Conn → Conn
drive_scan radio now c =
    if ltb 0 c.scan_passes_left
    then (if radio.in_progress
        then c
        else if ltb 0 (c.scan_passes_left - 1) && radio.scans_again
        then record c { scan_passes_left = c.scan_passes_left - 1 }
        else scan_complete radio now c)
    else if c.scan_requested && not (is_try c.state)
    then (if radio.starts_scan
        then record c {
          scan_requested = false;
          scan_passes_left = mgr_scan_passes;
          state = scan_after_wait c.state;
        }
        else record c { scan_requested = false })
    else c

-- The link of an established association is gone.
unfoldable pub link_lost : Radio → ℕ → Conn → Conn
link_lost radio now c =
    let s = record c { prof = none_connected c.prof } in
    if ltb 0 c.fast_tries && ltb c.cfg.active c.cfg.profile_count
    then try_active radio now (record s { fast_tries = c.fast_tries - 1 })
    else start_cycle radio now s

-- The candidate in flight failed.
unfoldable pub try_next : WifiProfStatus → Radio → ℕ → Conn → Conn
try_next status radio now c =
    try_from radio now
      (record c { prof = set_status c.prof c.trying status; order_ix = c.order_ix + 1 })

unfoldable pub attempt : LinkStatus → Radio → ℕ → Conn → Conn
attempt link_badauth radio now c =
    try_next badpass radio now
      (record c { badpass_at = λ j. if j == c.trying then now else c.badpass_at j })
attempt link_fail radio now c = try_next nojoin radio now c
attempt link_nonet radio now c = try_next nojoin radio now c
attempt link_other radio now c =
    if leb join_timeout_ms (elapsed now c.attempt_at) then try_next nojoin radio now c else c

-- The `switch` at the end of the tick.
unfoldable pub act : ConnState → Radio → ℕ → Conn → Conn
act st_up radio now c = if radio.link then c else link_lost radio now c
act st_try radio now c = if radio.link then joined c else attempt radio.status radio now c
act st_scan radio now c = if radio.link then joined c else c
act st_wait radio now c =
    if radio.link
    then joined c
    else if ltb (elapsed now c.wait_until) (2 ^ 31)
    then start_cycle radio now c
    else c
act st_idle radio now c = if ltb 0 c.cfg.profile_count then start_cycle radio now c else c

unfoldable pub wifi_conn_task : Radio → ℕ → Conn → Conn
wifi_conn_task radio now c =
    let d = decay_badpass now (record c { last_tick = now }) in
    let s = drive_scan radio now d in
    if ltb (elapsed now c.last_tick) 100
    then c
    else if radio.console_owns
    then d
    else act s.state radio now s
