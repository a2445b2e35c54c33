-- ===== src/WifiConn/Tests.antt =====
-- Runs of the machine of src/wifi_conn.c with one saved network.
use molewire.Base.{ℕ, ◌<◌, ◌≡◌, inr, refl, arith, Bool, true, false, [], ◌∷◌}
use molewire.Config.Record.{CString, config_active_none, Config}
use molewire.Config.Profiles.{strncmp_eq, find_from, config_find_profile}
use molewire.Config.ProfileLaws.{IsValid}
use molewire.WifiPick.Order.{
  is_badpass, insert_from, insert_pick, seen_loop, unseen_loop, wifi_pick_order,
}
use molewire.WifiConn.Machine.{
  ConnState, st_up, Conn, link_other, Radio, note_result, note_results, snapshot_rssi, enter_wait,
  try_loop, try_from, build_and_try, start_cycle, try_active, move_joined, mark_joined, joined,
}
use molewire.WifiConn.Task.{
  wifi_conn_init, attempt, decay_badpass, scan_next, scan_complete, drive_scan, act, wifi_conn_task,
}
use molewire.WifiConn.Sound.{IsSound}
use molewire.WifiConn.Reach.{static_conn, init, tick, Reachable-IsSound}
use molewire.WifiConn.Attempt.{Tried, build_and_try-Tried}

abbrev home : CString
home = 104 ∷ 111 ∷ 109 ∷ 101 ∷ []

abbrev one_network : Config
one_network = record {
  profile_count = 1;
  active = config_active_none;
  debug_enabled = 0;
  country = 0;
  profiles = λ i. record { ssid = home; password = [] };
  wg = record {
    private_key = [];
    peer_public = [];
    psk = [];
    endpoint = [];
    endpoint_port = 0;
    keepalive = 0;
    host_mtu = 0;
    exit_enabled = 0;
    exit_lan = 0;
    addr = 0;
    host_addr = 0;
    dns = 0;
    prefix = 0;
    route_count = 0;
    routes = λ i. record { net = 0; prefix = 0 };
  };
  ap = record { addr = 0; client_addr = 0; prefix = 0; enabled = 0; ssid = []; password = [] };
}

-- The radio sees the network at -60 dBm and takes every call; `up` is the link.
abbrev radio : Bool → Radio
radio up = record {
  results = record { ssid = home; rssi = 32708 } ∷ [];
  link = up;
  status = link_other;
  takes_join = λ i. true;
  starts_scan = true;
  scans_again = true;
  in_progress = false;
  console_owns = false;
}

abbrev started : Conn
started = wifi_conn_init (radio false) 5 one_network (static_conn one_network)

-- A scan is started, has two passes, its result is tried, and the link comes up.
abbrev connected_run : Conn
connected_run = wifi_conn_task (radio true) 1300 (
    wifi_conn_task (radio false) 1200
      (wifi_conn_task (radio false) 1100 (wifi_conn_task (radio false) 1000 started)))

unfoldable run_state : ConnState
run_state = connected_run.state

run-up : run_state ≡ st_up
unfolding run_state wifi_conn_init attempt decay_badpass scan_next scan_complete drive_scan act
    wifi_conn_task note_result note_results snapshot_rssi enter_wait try_loop try_from build_and_try
    start_cycle try_active move_joined mark_joined joined insert_from insert_pick seen_loop
    unseen_loop wifi_pick_order strncmp_eq find_from config_find_profile
run-up = refl

one_network-IsValid : IsValid one_network
one_network-IsValid = record { fits = omega arith; active_in = inr refl }

Reachable-IsSound_example : IsSound connected_run
Reachable-IsSound_example = Reachable-IsSound (
    tick (radio true) 1300 (
      tick (radio false) 1200 (
        tick (radio false) 1100
          (tick (radio false) 1000 (init (radio false) 5 one_network one_network-IsValid)))))

build_and_try-Tried_example :
    let q =
      wifi_pick_order started.prof started.cfg.profile_count started.cfg.active started.rr_unseen in
    Tried (radio false) q.out 0 q.n (build_and_try (radio false) 7 started)
    × ((j : ℕ)
        → j < q.n
        → (q.out j < started.cfg.profile_count)
          × (is_badpass (started.prof (q.out j)).status ≡ false))
build_and_try-Tried_example = build_and_try-Tried (radio false) 7 started
