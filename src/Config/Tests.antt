-- ===== src/Config/Tests.antt =====
-- The profile list of src/config.c on two and on eight saved networks.
use molewire.Base.{
  ℕ, ◌+◌, ◌≡◌, ◌↔◌, inl, refl, arith, true, false, [], ◌∷◌, ℤ, pos, negsuc, ◌<◌, ◌≤◌, ◌≢◌, ◌⊎◌,
  Bytes, word_at, ◌==◌, if◌then◌else◌,
}
use molewire.Config.Record.{CString, WgConfig, ApConfig, Config}
use molewire.Config.Profiles.{
  strncmp_eq, active_profile, find_from, config_find_profile, active_after_del, del_at,
  config_del_profile, append_profile, victim, evict_and_append, config_add_profile,
  config_touch_profile,
}
use molewire.Config.ProfileLaws.{IsValid, profile_operations-IsValid}
use molewire.Config.Complete.{
  config_active_ssid, config_active_pass, config_wg_complete, config_ap_complete, bswap32,
  prefix_mask,
}
use molewire.Config.CompleteLaws.{IsUsable, config_ap_complete_iff}
use molewire.Config.Storage.{
  at_profiles, at_crc32, v1_at_crc32, crc32, Baked, baked_profile, config_defaults, migrated,
  config_load, sealed, config_save,
}
use molewire.Config.StorageLaws.{saved, config_load-config_save}
use molewire.Config.Damage.{damaged, config_load-damaged}
use molewire.Config.Lookup.{Added, config_add_profile-Added}

abbrev home : CString
home = 104 ∷ 111 ∷ 109 ∷ 101 ∷ []

abbrev cafe : CString
cafe = 99 ∷ 97 ∷ 102 ∷ 101 ∷ []

abbrev no_tunnel : WgConfig
no_tunnel = record {
  private_key = [];
  peer_public = [];
  psk = [];
  endpoint = [];
  endpoint_port = 0;
  keepalive = 0;
  host_mtu = 0;
  exit_enabled = 0;
  exit_lan = 0;
  addr = 0;
  host_addr = 0;
  dns = 0;
  prefix = 0;
  route_count = 0;
  routes = λ i. record { net = 0; prefix = 0 };
}

abbrev no_ap : ApConfig
no_ap = record { addr = 0; client_addr = 0; prefix = 0; enabled = 0; ssid = []; password = [] }

-- Network `i` is named by the byte 65 + `i`; the last is active.
abbrev full : Config
full = record {
  profile_count = 8;
  active = 7;
  debug_enabled = 0;
  country = 0;
  profiles = λ i. record { ssid = (65 + i) ∷ []; password = [] };
  wg = no_tunnel;
  ap = no_ap;
}

abbrev full-IsValid : IsValid full
full-IsValid = record { fits = omega arith; active_in = inl (omega arith) }

unfoldable added_index : ℤ
added_index = (config_add_profile full home).1

full-added : added_index ≡ pos 7
unfolding added_index config_add_profile victim evict_and_append append_profile config_del_profile
    del_at
full-added = refl

unfoldable active_index : ℕ
active_index = (config_add_profile full home).0.active

full-active : active_index ≡ 6
unfolding active_index config_add_profile victim evict_and_append append_profile config_del_profile
    del_at active_after_del
full-active = refl

full-unknown : config_find_profile full home ≡ negsuc 0
unfolding config_find_profile find_from strncmp_eq
full-unknown = refl

profile_operations-IsValid_example :
    IsValid (config_add_profile full home).0
    × IsValid (config_del_profile full (pos 3))
    × IsValid (config_touch_profile full (pos 3)).0
profile_operations-IsValid_example = profile_operations-IsValid full home (pos 3) full-IsValid

config_add_profile-Added_example : Added full home (config_add_profile full home)
config_add_profile-Added_example =
    config_add_profile-Added full home full-IsValid (omega arith) full-unknown

full-ssid : config_active_ssid full ≡ 72 ∷ []
unfolding config_active_ssid active_profile
full-ssid = refl

-- A list without networks has no active one, whatever `active` is.
full-ssid_none : config_active_ssid (record full { profile_count = 0 }) ≡ []
unfolding config_active_ssid active_profile
full-ssid_none = refl

full-pass : config_active_pass full ≡ []
unfolding config_active_pass active_profile
full-pass = refl

-- Addresses 10.0.0.2 and 10.0.0.1 in the tunnel, with a key of one character for each side.
abbrev tunnel : WgConfig
tunnel = record no_tunnel {
  private_key = home;
  peer_public = home;
  endpoint = cafe;
  endpoint_port = 51820;
  addr = 0x0200000A;
  host_addr = 0x0100000A;
  prefix = 30;
}

tunnel_complete : config_wg_complete (record full { wg = tunnel }) ≡ true
unfolding config_wg_complete
tunnel_complete = refl

tunnel_prefix : config_wg_complete (record full { wg = record tunnel { prefix = 31 } }) ≡ false
unfolding config_wg_complete
tunnel_prefix = refl

-- 192.168.8.1/30 and the client 192.168.8.2.
abbrev access_point : ApConfig
access_point = record {
  addr = 0x0108A8C0;
  client_addr = 0x0208A8C0;
  prefix = 30;
  enabled = 1;
  ssid = home;
  password = 49 ∷ 50 ∷ 51 ∷ 52 ∷ 53 ∷ 54 ∷ 55 ∷ 56 ∷ [];
}

abbrev with_ap : Config
with_ap = record full { ap = access_point }

with_ap_complete : config_ap_complete with_ap ≡ true
unfolding config_ap_complete bswap32 prefix_mask
with_ap_complete = refl

-- 192.168.8.5 is in the next subnet of four addresses.
with_ap_apart :
    config_ap_complete (record full { ap = record access_point { client_addr = 0x0508A8C0 } })
    ≡ false
unfolding config_ap_complete bswap32 prefix_mask
with_ap_apart = refl

config_ap_complete_iff_example : (config_ap_complete with_ap ≡ true) ↔ IsUsable with_ap
config_ap_complete_iff_example = config_ap_complete_iff with_ap

abbrev baked : Baked
baked = record { wifi_ssid = home; wifi_password = []; wifi_country = 0x5858 }

-- A record in memory and a flash that was erased.
abbrev memory : Bytes
memory j = if j == 40 then 7 else 0

abbrev erased : Bytes
erased j = 255

erased-loads : config_load baked erased at_profiles ≡ 104
unfolding config_load config_defaults baked_profile
erased-loads = refl

config_load-config_save_example :
    let saving = config_save true memory erased in
    let loaded = config_load baked saving.1 in
    (loaded 40 ≡ saving.0 40) × ((40 < 4) ⊎ ((at_crc32 ≤ 40) ⊎ (loaded 40 ≡ memory 40)))
config_load-config_save_example = config_load-config_save baked memory erased 40 (omega arith)

memory-bytes : (j : ℕ) → memory j < 256
memory-bytes j = ground arith

saved_byte : saved memory erased 40 ≢ 6
unfolding config_save sealed
saved_byte e = omega arith

config_load-damaged_example :
    let f = damaged (saved memory erased) 40 6 in
    (config_load baked f ≡ config_defaults baked)
    ⊎ ((crc32 f v1_at_crc32 ≡ word_at f v1_at_crc32) × (config_load baked f ≡ migrated baked f))
config_load-damaged_example =
    config_load-damaged baked memory erased 40 6 memory-bytes (omega arith) (omega arith) saved_byte
