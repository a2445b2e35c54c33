-- ===== src/Config/Record.antt =====
-- `config_t` of src/config.h. A C string is the list of its characters, without the NUL; an array
-- is a function from its indices.
use molewire.Base.{ℕ, List}

abbrev pub CString : Type 0
CString = List ℕ

abbrev pub config_ssid_max : ℕ
config_ssid_max = 33

abbrev pub config_pass_max : ℕ
config_pass_max = 64

abbrev pub config_profile_max : ℕ
config_profile_max = 8

abbrev pub config_active_none : ℕ
config_active_none = 0xFF

abbrev pub config_routes_max : ℕ
config_routes_max = 4

pub record WgRoute : Type 0 where
  pub net : ℕ
  pub prefix : ℕ

-- Addresses are 32-bit numbers in network byte order, 0 for unset.
pub record WgConfig : Type 0 where
  pub private_key : CString
  pub peer_public : CString
  pub psk : CString
  pub endpoint : CString
  pub endpoint_port : ℕ
  pub keepalive : ℕ
  pub host_mtu : ℕ
  pub exit_enabled : ℕ
  pub exit_lan : ℕ
  pub addr : ℕ
  pub host_addr : ℕ
  pub dns : ℕ
  pub prefix : ℕ
  pub route_count : ℕ
  pub routes : ℕ → WgRoute

pub record ApConfig : Type 0 where
  pub addr : ℕ
  pub client_addr : ℕ
  pub prefix : ℕ
  pub enabled : ℕ
  pub ssid : CString
  pub password : CString

pub record WifiProfile : Type 0 where
  pub ssid : CString
  pub password : CString

-- Without `magic` and `crc32`, which only storage reads.
pub record Config : Type 0 where
  pub profile_count : ℕ
  pub active : ℕ
  pub debug_enabled : ℕ
  pub country : ℕ
  pub profiles : ℕ → WifiProfile
  pub wg : WgConfig
  pub ap : ApConfig
