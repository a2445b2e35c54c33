-- ===== src/Config/ProfileLaws.antt =====
-- The profile list of src/config.c stays well formed, and the active profile stays the same one.
use molewire.Base.{
  ℕ, zero, suc, ◌+◌, ◌-◌, ◌≤◌, ◌<◌, ◌≡◌, ◌≢◌, ◌⊎◌, arith, ◌&&◌, ℤ, pos, negsuc, ltb, leb, ◌==◌,
  if◌then◌else◌,
}
use molewire.Config.Record.{CString, config_profile_max, config_active_none, WifiProfile, Config}
use molewire.Config.Profiles.{
  set_profile, active_profile, shift_down, active_after_del, del_at, config_del_profile,
  append_profile, victim, evict_and_append, config_add_profile, active_after_touch, touch_at,
  config_touch_profile,
}

-- The list fits, and `active` is an entry or none.
pub record IsValid (c : Config) : Type 0 where
  pub fits : c.profile_count ≤ config_profile_max
  pub active_in : (c.active < c.profile_count) ⊎ (c.active ≡ config_active_none)

-- What the loop of `config_del_profile` leaves.
pub shift_down-eq :
    (left i : ℕ) (ps : ℕ → WifiProfile) (j : ℕ)
    → shift_down left i ps j ≡ (if leb i j && ltb j (i + left) then ps (suc j) else ps j)
unfolding shift_down
shift_down-eq zero i ps j = ground arith
shift_down-eq (suc left) i ps j =
    ground (arith, shift_down-eq left (suc i) (set_profile ps i (ps (suc i))) j)

pub config_del_profile-IsValid : (c : Config) (i : ℤ) → IsValid c → IsValid (config_del_profile c i)
unfolding config_del_profile del_at active_after_del
config_del_profile-IsValid c (negsuc n) v = v
config_del_profile-IsValid c (pos i) v = ground arith

pub config_touch_profile-IsValid :
    (c : Config) (i : ℤ) → IsValid c → IsValid (config_touch_profile c i).0
unfolding config_touch_profile touch_at active_after_touch
config_touch_profile-IsValid c (negsuc n) v = v
config_touch_profile-IsValid c (pos i) v = ground arith

append_profile-IsValid :
    (c : Config) (ssid : CString)
    → IsValid c
    → c.profile_count < config_profile_max
    → IsValid (append_profile c ssid).0
unfolding append_profile
append_profile-IsValid c ssid v h = ground arith

pub victim-lt :
    (c : Config) {i : ℕ}
    → victim c ≡ pos i
    → 0 < c.profile_count
    → (i < c.profile_count) × (i ≢ c.active)
unfolding victim
victim-lt c e h = ground arith

pub del_profile_count :
    (c : Config) (i : ℕ)
    → i < c.profile_count
    → (config_del_profile c (pos i)).profile_count ≡ c.profile_count - 1
unfolding config_del_profile del_at
del_profile_count c i h = ground arith

evict_and_append-IsValid :
    (c : Config) (ssid : CString) (i : ℤ)
    → IsValid c
    → victim c ≡ i
    → 0 < c.profile_count
    → IsValid (evict_and_append c ssid i).0
unfolding evict_and_append
evict_and_append-IsValid c ssid (negsuc n) v e h = v
evict_and_append-IsValid c ssid (pos i) v e h =
    append_profile-IsValid (config_del_profile c (pos i)) ssid
      (config_del_profile-IsValid c (pos i) v)
      (omega (arith, victim-lt c e h, del_profile_count c i, v.fits))

pub config_add_profile-IsValid :
    (c : Config) (ssid : CString) → IsValid c → IsValid (config_add_profile c ssid).0
unfolding config_add_profile
config_add_profile-IsValid c ssid v =
    ground (arith, append_profile-IsValid c ssid v, evict_and_append-IsValid c ssid (victim c) v)

-- Adding, deleting and touching a profile each keep a well-formed list well formed: it fits its
-- array, and the active profile is an entry or none.
pub profile_operations-IsValid :
    (c : Config) (ssid : CString) (i : ℤ)
    → IsValid c
    → IsValid (config_add_profile c ssid).0
      × IsValid (config_del_profile c i)
      × IsValid (config_touch_profile c i).0
profile_operations-IsValid c ssid i v = (
  config_add_profile-IsValid c ssid v,
  config_del_profile-IsValid c i v,
  config_touch_profile-IsValid c i v,
)

-- In a well-formed list, touching an entry moves it to the front, moves none out of the list, and
-- leaves the same profile active.
pub config_touch_profile-front :
    (c : Config) (i : ℕ)
    → IsValid c
    → i < c.profile_count
    → let d = (config_touch_profile c (pos i)).0 in
      (d.profiles 0 ≡ c.profiles i)
      × (active_profile d ≡ active_profile c)
      × (d.profile_count ≡ c.profile_count)
      × ((j : ℕ)
          → j < c.profile_count
          → (k : ℕ) × (k < c.profile_count) × (d.profiles k ≡ c.profiles j))
unfolding config_touch_profile touch_at active_after_touch active_profile
config_touch_profile-front c i v h =
    (ground arith, ground arith, ground arith, λ j low. (moved j, ground arith, ground arith))
  where
    -- Where entry `j` is now.
    moved : ℕ → ℕ
    moved j = if j == i then 0 else if ltb j i then j + 1 else j

-- In a well-formed list, deleting an entry that is not the active one leaves the same profile active.
pub config_del_profile-active :
    (c : Config) (i : ℕ)
    → IsValid c
    → i < c.profile_count
    → i ≢ c.active
    → active_profile (config_del_profile c (pos i)) ≡ active_profile c
unfolding config_del_profile del_at active_after_del active_profile
config_del_profile-active c i v h ne = ground (
  arith,
  shift_down-eq (c.profile_count - 1 - i) i c.profiles c.active,
  shift_down-eq (c.profile_count - 1 - i) i c.profiles (c.active - 1),
)
