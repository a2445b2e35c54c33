-- ===== src/WifiConn/Reach.antt =====
-- Every state that src/wifi_conn.c reaches is sound.
use molewire.Base.{ℕ, arith, false, ltb}
use molewire.Config.Record.{Config}
use molewire.Config.ProfileLaws.{IsValid}
use molewire.WifiPick.Order.{untried}
use molewire.WifiConn.Machine.{backoff_min_ms, st_idle, st_wait, Conn, Radio, snapshot_rssi}
use molewire.WifiConn.Task.{
  cleared_prof, wifi_conn_init, wifi_conn_apply, wifi_conn_mark_creds_unsaved, wifi_conn_note_saved,
  wifi_conn_request_scan, wifi_conn_task,
}
use molewire.WifiConn.Invariant.{IsSearching, snapshot_rssi-IsSearching, try_active-IsSearching}
use molewire.WifiConn.Sound.{IsSound, searching-IsSound}
use molewire.WifiConn.Steps.{if-elim, cleared-Quiet, apply-IsSound, task-IsSound}

-- The static state before `wifi_conn_init`.
abbrev pub static_conn : Config → Conn
static_conn cfg = record {
  cfg = cfg;
  state = st_idle;
  prof = λ i. record { rssi = 32768; status = untried };
  badpass_at = λ i. 0;
  order = λ i. 0;
  order_n = 0;
  order_ix = 0;
  trying = 0;
  rr_unseen = 0;
  fast_tries = 0;
  attempt_at = 0;
  wait_until = 0;
  backoff_ms = backoff_min_ms;
  scan_passes_left = 0;
  scan_done_at = 0;
  scan_ever = false;
  scan_requested = false;
  creds_unsaved = false;
  last_tick = 0;
}

-- The states that the machine reaches, whatever the radio answers and the console edits. An edit
-- puts in a well-formed configuration.
pub data Reachable : Conn → Type 0 where
  init :
      (radio : Radio)
      → (now : ℕ) → (cfg : Config) → IsValid cfg
      → Reachable (wifi_conn_init radio now cfg (static_conn cfg))
  tick :
      {c : Conn}
      → (radio : Radio) → (now : ℕ) → Reachable c
      → Reachable (wifi_conn_task radio now c)
  apply :
      {c : Conn}
      → (radio : Radio) → (now : ℕ) → Reachable c
      → Reachable (wifi_conn_apply radio now c)
  edit :
      {c : Conn} → (cfg : Config) → IsValid cfg → Reachable c → Reachable (record c { cfg = cfg })
  mark_unsaved : {c : Conn} → Reachable c → Reachable (wifi_conn_mark_creds_unsaved c)
  note_saved : {c : Conn} → Reachable c → Reachable (wifi_conn_note_saved c)
  request_scan : {c : Conn} → Reachable c → Reachable (wifi_conn_request_scan c)

init-IsSound :
    (radio : Radio) (now : ℕ) (cfg : Config)
    → IsValid cfg
    → IsSound (wifi_conn_init radio now cfg (static_conn cfg))
unfolding wifi_conn_init snapshot_rssi
init-IsSound radio now cfg v =
    let start : IsSearching (record (static_conn cfg) { prof = cleared_prof }) = (
      record {
        cfg_ok = v;
        order_le = omega arith;
        order_in = λ j low. omega arith;
        trying_in = omega arith;
        backoff_in = omega arith;
      },
      cleared-Quiet,
    ) in
    let c = snapshot_rssi radio.results (record (static_conn cfg) { prof = cleared_prof }) in
    let s =
      snapshot_rssi-IsSearching radio.results (record (static_conn cfg) { prof = cleared_prof })
        start in
    if-elim IsSound (ltb cfg.active cfg.profile_count)
      (λ chosen.
        searching-IsSound _ (try_active-IsSearching radio now c s (ground (arith, chosen))))
      (λ unset.
        if-elim IsSound (ltb 0 cfg.profile_count)
          (λ some_profile. searching-IsSound (record c { state = st_wait; wait_until = 0 }) s)
          (λ empty. searching-IsSound (record c { state = st_idle }) s))

-- In every state that the machine reaches, whatever the radio answers and the console edits, the
-- candidates and the profile in flight are indices of the arrays of eight, the back-off is between 8
-- and 60 seconds, the configuration is well formed, and at most one profile is marked as connected,
-- and that only while the machine is up.
pub Reachable-IsSound : {c : Conn} → Reachable c → IsSound c
unfolding wifi_conn_mark_creds_unsaved wifi_conn_note_saved wifi_conn_request_scan
Reachable-IsSound (init radio now cfg v) = init-IsSound radio now cfg v
Reachable-IsSound (tick {c} radio now r) = task-IsSound radio now c (Reachable-IsSound r)
Reachable-IsSound (apply {c} radio now r) = apply-IsSound radio now c (Reachable-IsSound r)
Reachable-IsSound (edit {c} cfg v r) =
    let h = Reachable-IsSound r in
    record {
      in_range = record {
        cfg_ok = v;
        order_le = h.in_range.order_le;
        order_in = h.in_range.order_in;
        trying_in = h.in_range.trying_in;
        backoff_in = h.in_range.backoff_in;
      };
      the_one = h.the_one;
      only = h.only;
    }
Reachable-IsSound (mark_unsaved {c} r) =
    let h = Reachable-IsSound r in
    record { in_range = h.in_range; the_one = h.the_one; only = h.only }
Reachable-IsSound (note_saved {c} r) =
    let h = Reachable-IsSound r in
    record { in_range = h.in_range; the_one = h.the_one; only = h.only }
Reachable-IsSound (request_scan {c} r) =
    let h = Reachable-IsSound r in
    record { in_range = h.in_range; the_one = h.the_one; only = h.only }
