-- ===== src/WifiPick/Tests.antt =====
-- The order of src/wifi_pick.c for four profiles.
use molewire.Base.{ℕ, ◌≡◌, ◌≤◌, refl, ◌==◌, if◌then◌else◌, List, [], ◌∷◌}
use molewire.Config.Record.{config_profile_max}
use molewire.WifiPick.Order.{
  WifiProfState, untried, nojoin, badpass, insert_from, insert_pick, seen_loop, unseen_loop,
  clipped, wifi_pick_order,
}
use molewire.WifiPick.Laws.{Ordered, wifi_pick_order-Ordered}

-- Profile 0 is at -70 dBm, 1 is not seen, 2 is at -65 dBm, 3 is at -40 dBm with a rejected password.
abbrev around : ℕ → WifiProfState
around i =
    if i == 0
    then record { rssi = 32698; status = nojoin }
    else if i == 2
    then record { rssi = 32703; status = untried }
    else if i == 3
    then record { rssi = 32728; status = badpass }
    else record { rssi = 0; status = untried }

unfoldable picks : List ℕ
picks = let q = wifi_pick_order around 4 0 2 in q.out 0 ∷ q.out 1 ∷ q.out 2 ∷ q.n ∷ []

picks_in_order : picks ≡ 0 ∷ 2 ∷ 1 ∷ 3 ∷ []
unfolding picks wifi_pick_order seen_loop unseen_loop insert_pick insert_from
picks_in_order = refl

wifi_pick_order-Ordered_example :
    Ordered around 0 (clipped 4) (wifi_pick_order around 4 0 2) × (clipped 4 ≤ config_profile_max)
wifi_pick_order-Ordered_example = wifi_pick_order-Ordered around 4 0 2
