-- ===== src/ConfigProto/Stored.antt =====
-- The form in which src/config_proto.c keeps the configuration: texts fit their arrays, numbers are
-- in the range that the device takes.
use molewire.Base.{
  ℕ, zero, suc, ◌+◌, ◌-◌, ◌≤◌, ◌<◌, ◌≡◌, ◌⊎◌, inl, inr, refl, ap, arith, Bool-cases, [], ◌∷◌,
  length, take, ℤ, pos, negsuc, leb,
}
use molewire.Config.Record.{CString, WgConfig, ApConfig, WifiProfile, Config, config_profile_max}
use molewire.Config.Profiles.{
  set_profile, del_at, config_del_profile, append_profile, victim, evict_and_append,
  config_add_profile,
}
use molewire.Config.ProfileLaws.{IsValid, shift_down-eq}

-- Unset, or the prefix of a subnet with hosts.
abbrev pub IsPrefix : ℕ → Type 0
IsPrefix p = (p ≡ 0) ⊎ ((8 ≤ p) × (p ≤ 30))

pub record WgStored (w : WgConfig) : Type 0 where
  pub private_key : length w.private_key ≤ 45
  pub peer_public : length w.peer_public ≤ 45
  pub psk : length w.psk ≤ 45
  pub endpoint : length w.endpoint ≤ 63
  pub endpoint_port : w.endpoint_port ≤ 65535
  pub keepalive : w.keepalive ≤ 65000
  pub host_mtu : (w.host_mtu ≡ 0) ⊎ ((576 ≤ w.host_mtu) × (w.host_mtu ≤ 1420))
  pub exit_enabled : w.exit_enabled ≤ 1
  pub exit_lan : w.exit_lan ≤ 1
  pub prefix : IsPrefix w.prefix
  pub route_count : w.route_count ≤ 4
  pub routes : (i : ℕ) → i < w.route_count → (1 ≤ (w.routes i).prefix) × ((w.routes i).prefix ≤ 32)

pub record ApStored (a : ApConfig) : Type 0 where
  pub ssid : length a.ssid ≤ 32
  pub password : (a.password ≡ []) ⊎ ((8 ≤ length a.password) × (length a.password ≤ 63))
  pub prefix : IsPrefix a.prefix
  pub enabled : a.enabled ≤ 1

abbrev pub Texts : (ℕ → WifiProfile) → Type 0
Texts ps = (j : ℕ) → (length (ps j).ssid ≤ 32) × (length (ps j).password ≤ 63)

pub record IsStored (c : Config) : Type 0 where
  pub valid : IsValid c
  pub texts : Texts c.profiles
  pub wg : WgStored c.wg
  pub ap : ApStored c.ap
  pub debug : c.debug_enabled ≤ 1

pub length-take : (n : ℕ) (s : CString) → length (take n s) ≤ n
length-take zero s = omega arith
length-take (suc n) [] = omega arith
length-take (suc n) (x ∷ s) = omega (arith, length-take n s)

-- A change of the profiles, the choice among them and the country, and of nothing else.
abbrev pub SameButProfiles : Config → Config → Type 0
SameButProfiles c d = d ≡ record c {
  profile_count = d.profile_count;
  active = d.active;
  country = d.country;
  profiles = d.profiles;
}

append_profile-Texts :
    (c : Config) (ssid : CString) → Texts c.profiles → Texts (append_profile c ssid).0.profiles
unfolding append_profile
append_profile-Texts c ssid t j = ground (arith, t j, length-take 32 ssid)

pub config_del_profile-Texts :
    (c : Config) (i : ℕ) → Texts c.profiles → Texts (config_del_profile c (pos i)).profiles
unfolding config_del_profile del_at
config_del_profile-Texts c i t j =
    ground (arith, t j, t (suc j), shift_down-eq (c.profile_count - 1 - i) i c.profiles j)

-- The two results of adding a network.
pub record AddedOne (c : Config) (r : Config × ℤ) : Type 0 where
  pub index : ℕ
  pub returned : r.1 ≡ pos index
  pub inside : index < r.0.profile_count
  pub texts : Texts r.0.profiles
  pub rest : SameButProfiles c r.0

append_profile-AddedOne :
    (c d : Config) (ssid : CString)
    → SameButProfiles c d
    → Texts d.profiles
    → AddedOne c (append_profile d ssid)
unfolding append_profile
append_profile-AddedOne c d ssid same t = record {
  index = d.profile_count;
  returned = refl;
  inside = omega arith;
  texts = append_profile-Texts d ssid t;
  rest =
      ap
        (λ (x : Config). record x {
          profiles =
              set_profile d.profiles d.profile_count
                (record { ssid = take 32 ssid; password = [] });
          profile_count = d.profile_count + 1;
        })
        same;
}

pub config_del_profile-rest :
    (c : Config) (i : ℕ) → SameButProfiles c (config_del_profile c (pos i))
unfolding config_del_profile del_at
config_del_profile-rest c i = ground arith

evict_and_append-AddedOne :
    (c : Config) (ssid : CString) (i : ℤ)
    → Texts c.profiles
    → (AddedOne c (evict_and_append c ssid i))
      ⊎ (((evict_and_append c ssid i).1 ≡ negsuc 0) × ((evict_and_append c ssid i).0 ≡ c))
unfolding evict_and_append
evict_and_append-AddedOne c ssid (negsuc n) t = inr (refl, refl)
evict_and_append-AddedOne c ssid (pos i) t = inl (
    append_profile-AddedOne c (config_del_profile c (pos i)) ssid (config_del_profile-rest c i)
      (config_del_profile-Texts c i t))

pub config_add_profile-AddedOne :
    (c : Config) (ssid : CString)
    → Texts c.profiles
    → (AddedOne c (config_add_profile c ssid))
      ⊎ (((config_add_profile c ssid).1 ≡ negsuc 0) × ((config_add_profile c ssid).0 ≡ c))
unfolding config_add_profile
config_add_profile-AddedOne c ssid t = elim (Bool-cases (leb config_profile_max c.profile_count)) [
  | inl full ↦ rw full (evict_and_append-AddedOne c ssid (victim c) t)
  | inr room ↦ rw room (inl (append_profile-AddedOne c c ssid refl t))
]
