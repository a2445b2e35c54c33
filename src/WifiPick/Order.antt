-- ===== src/WifiPick/Order.antt =====
-- `wifi_pick_order` of src/wifi_pick.c. A signal strength and a score are given by their distance
-- from INT16_MIN, so that WIFI_RSSI_UNSEEN is 0; the order of scores is the same.
use molewire.Base.{
  ℕ, zero, suc, ◌+◌, ◌%◌, Bool, true, false, not, ◌&&◌, ◌||◌, ltb, ◌==◌, if◌then◌else◌,
}
use molewire.Config.Record.{config_profile_max}

pub data WifiProfStatus : Type 0 where
  untried connected nojoin badpass : WifiProfStatus

pub record WifiProfState : Type 0 where
  pub rssi : ℕ
  pub status : WifiProfStatus

abbrev pub wifi_rssi_unseen : ℕ
wifi_rssi_unseen = 0

abbrev pub wifi_pick_active_bonus_db : ℕ
wifi_pick_active_bonus_db = 10

abbrev pub is_badpass : WifiProfStatus → Bool
is_badpass badpass = true
is_badpass untried = false
is_badpass connected = false
is_badpass nojoin = false

-- The arrays `out` and `score` and the count `n`.
pub record Picks : Type 0 where
  pub out : ℕ → ℕ
  pub score : ℕ → ℕ
  pub n : ℕ

abbrev pub set_pick : Picks → ℕ → ℕ → ℕ → Picks
set_pick p j i s = record p {
  out = λ k. if k == j then i else p.out k;
  score = λ k. if k == j then s else p.score k;
}

-- The loop that moves lower scores up, and the store where it ends.
unfoldable pub insert_from : ℕ → ℕ → ℕ → Picks → Picks
insert_from zero i s p = set_pick p 0 i s
insert_from (suc j) i s p =
    if ltb (p.score j) s
    then insert_from j i s (set_pick p (suc j) (p.out j) (p.score j))
    else set_pick p (suc j) i s

unfoldable pub insert_pick : ℕ → ℕ → Picks → Picks
insert_pick i s p = record (insert_from p.n i s p) { n = p.n + 1 }

-- The number of profiles that are looked at.
abbrev pub clipped : ℕ → ℕ
clipped count = if ltb config_profile_max count then config_profile_max else count

abbrev pub no_picks : Picks
no_picks = record { out = λ k. 0; score = λ k. 0; n = 0 }

module _ (st : ℕ → WifiProfState) where
  abbrev pub is_candidate : ℕ → Bool
  is_candidate i = not ((st i).rssi == wifi_rssi_unseen || is_badpass (st i).status)

  abbrev pub is_unseen : ℕ → Bool
  is_unseen i = (st i).rssi == wifi_rssi_unseen && not (is_badpass (st i).status)

  abbrev pub score_of : ℕ → ℕ → ℕ
  score_of active i = (st i).rssi + (if i == active then wifi_pick_active_bonus_db else 0)

  -- The first loop, at index `i`.
  unfoldable pub seen_loop : ℕ → ℕ → ℕ → Picks → Picks
  seen_loop active zero i p = p
  seen_loop active (suc left) i p =
      seen_loop active left (suc i)
        (if is_candidate i then insert_pick i (score_of active i) p else p)

  -- The second loop, at `k`.
  unfoldable pub unseen_loop : ℕ → ℕ → ℕ → ℕ → Picks → Picks
  unseen_loop count rr_unseen zero k p = p
  unseen_loop count rr_unseen (suc left) k p =
      if is_unseen ((rr_unseen + k) % count)
      then record (set_pick p p.n ((rr_unseen + k) % count) (p.score p.n)) { n = p.n + 1 }
      else unseen_loop count rr_unseen left (suc k) p

  -- `out` and the count that is returned.
  unfoldable pub wifi_pick_order : ℕ → ℕ → ℕ → Picks
  wifi_pick_order count active rr_unseen =
      unseen_loop (clipped count) rr_unseen (clipped count) 0
        (seen_loop active (clipped count) 0 no_picks)
