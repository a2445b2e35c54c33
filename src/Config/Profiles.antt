-- ===== src/Config/Profiles.antt =====
-- The profile list operations of src/config.c.
use molewire.Base.{
  ℕ, zero, suc, ◌+◌, ◌-◌, Bool, true, false, not, ◌&&◌, ◌||◌, Option, none, some, [], ◌∷◌, take, ℤ,
  pos, negsuc, ltb, leb, ◌==◌, if◌then◌else◌,
}
use molewire.Config.Record.{
  CString, config_ssid_max, config_profile_max, config_active_none, WifiProfile, Config,
}

-- `strncmp(a, b, n) == 0`
unfoldable pub strncmp_eq : ℕ → CString → CString → Bool
strncmp_eq zero a b = true
strncmp_eq (suc n) [] [] = true
strncmp_eq (suc n) (x ∷ a) (y ∷ b) = x == y && strncmp_eq n a b
strncmp_eq (suc n) _ _ = false

-- A store into the array.
abbrev pub set_profile : (ℕ → WifiProfile) → ℕ → WifiProfile → ℕ → WifiProfile
set_profile ps i p j = if j == i then p else ps j

unfoldable pub active_profile : Config → Option WifiProfile
active_profile c = if ltb c.active c.profile_count then some (c.profiles c.active) else none

-- The loop of `config_find_profile` at index `i`.
unfoldable pub find_from : (ℕ → WifiProfile) → CString → ℕ → ℕ → ℤ
find_from ps ssid zero i = negsuc 0
find_from ps ssid (suc left) i =
    if strncmp_eq config_ssid_max (ps i).ssid ssid then pos i else find_from ps ssid left (suc i)

unfoldable pub config_find_profile : Config → CString → ℤ
config_find_profile c ssid = find_from c.profiles ssid c.profile_count 0

-- The loop that moves the later entries down, at index `j`.
unfoldable pub shift_down : ℕ → ℕ → (ℕ → WifiProfile) → ℕ → WifiProfile
shift_down zero j ps = ps
shift_down (suc left) j ps = shift_down left (suc j) (set_profile ps j (ps (suc j)))

-- `active` after entry `i` is gone and `count` entries are left.
unfoldable pub active_after_del : ℕ → ℕ → ℕ → ℕ
active_after_del active i count =
    if active == i || count == 0
    then (if count == 0 then config_active_none else 0)
    else if not (active == config_active_none) && ltb i active
    then active - 1
    else active

unfoldable pub del_at : Config → ℕ → Config
del_at c i = record c {
  profiles = shift_down (c.profile_count - 1 - i) i c.profiles;
  profile_count = c.profile_count - 1;
  active = active_after_del c.active i (c.profile_count - 1);
}

unfoldable pub config_del_profile : Config → ℤ → Config
config_del_profile c (negsuc n) = c
config_del_profile c (pos i) = if leb c.profile_count i then c else del_at c i

-- The new entry at the end of the list.
unfoldable pub append_profile : Config → CString → Config × ℤ
append_profile c ssid = (
  record c {
    profiles =
        set_profile c.profiles c.profile_count
          (record { ssid = take (config_ssid_max - 1) ssid; password = [] });
    profile_count = c.profile_count + 1;
  },
  pos c.profile_count,
)

-- The entry to evict from a full list: the last, or the one before it if the last is active.
unfoldable pub victim : Config → ℤ
victim c =
    if c.active == c.profile_count - 1
    then (if c.profile_count - 1 == 0 then negsuc 0 else pos (c.profile_count - 2))
    else pos (c.profile_count - 1)

unfoldable pub evict_and_append : Config → CString → ℤ → Config × ℤ
evict_and_append c ssid (negsuc n) = (c, negsuc 0)
evict_and_append c ssid (pos i) = append_profile (config_del_profile c (pos i)) ssid

unfoldable pub config_add_profile : Config → CString → Config × ℤ
config_add_profile c ssid =
    if leb config_profile_max c.profile_count
    then evict_and_append c ssid (victim c)
    else append_profile c ssid

-- Entry `i` to the front, those before it one place on.
abbrev pub move_to_front : (ℕ → WifiProfile) → ℕ → ℕ → WifiProfile
move_to_front ps i j = if j == 0 then ps i else if leb j i then ps (j - 1) else ps j

unfoldable pub active_after_touch : ℕ → ℕ → ℕ
active_after_touch active i =
    if active == i
    then 0
    else if not (active == config_active_none) && ltb active i
    then active + 1
    else active

unfoldable pub touch_at : Config → ℕ → Config × ℤ
touch_at c i =
    if ltb 0 i
    then (
      record c { profiles = move_to_front c.profiles i; active = active_after_touch c.active i },
      pos 0,
    )
    else (c, pos 0)

unfoldable pub config_touch_profile : Config → ℤ → Config × ℤ
config_touch_profile c (negsuc n) = (c, negsuc 0)
config_touch_profile c (pos i) = if leb c.profile_count i then (c, negsuc 0) else touch_at c i
