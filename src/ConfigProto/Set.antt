-- ===== src/ConfigProto/Set.antt =====
-- The command `set` of src/config_proto.c: `cmd_set`, a function for each key.
use Prim.Native.String.{String}
use molewire.Base.{
  ℕ, Bool, true, false, not, ◌&&◌, ◌||◌, Option, none, some, List, [], ◌∷◌, length, ℤ, pos, negsuc,
  ltb, leb, ◌==◌, if◌then◌else◌,
}
use molewire.Config.Record.{CString, config_ssid_max, config_pass_max, WgConfig, ApConfig, Config}
use molewire.Config.Profiles.{set_profile, config_add_profile}
use molewire.Config.Complete.{config_ap_complete}
use molewire.ConfigProto.Text.{
  codes, strcasecmp_eq, cut_at, clipped, strtol, is_between, low_bits, Libraries, parse_country,
  valid_wg_key, parse_ip4,
}

pub data SetResult : Type 0 where
  set_err set_wifi set_other set_wg set_ap : SetResult

-- The result, the configuration, whether `wifi_conn_mark_creds_unsaved` was called, and the lines
-- that were written.
pub record SetOut : Type 0 where
  pub result : SetResult
  pub cfg : Config
  pub marked : Bool
  pub said : List String

abbrev pub done : SetResult → Config → SetOut
done r c = record { result = r; cfg = c; marked = false; said = [] }

abbrev pub failed : Config → String → SetOut
failed c msg = record { result = set_err; cfg = c; marked = false; said = msg ∷ [] }

abbrev pub with_wg : Config → WgConfig → Config
with_wg c w = record c { wg = w }

abbrev pub with_ap : Config → ApConfig → Config
with_ap c a = record c { ap = a }

abbrev pub config_wgkey_max : ℕ
config_wgkey_max = 46

abbrev pub config_endpoint_max : ℕ
config_endpoint_max = 64

-- The profile that `config_add_profile` made becomes the active one.
unfoldable pub set_new_ssid : Config × ℤ → Config → SetOut
set_new_ssid (d, pos i) c = record {
  result = set_wifi;
  cfg = record d { active = i };
  marked = true;
  said = [];
}
set_new_ssid (d, negsuc n) c = failed d "ERR could not add a profile\n"

unfoldable pub set_ssid : CString → Config → SetOut
set_ssid val c =
    if ltb c.active c.profile_count
    then record {
      result = set_wifi;
      cfg = record c {
        profiles =
            set_profile c.profiles c.active
              (record (c.profiles c.active) { ssid = clipped config_ssid_max val });
      };
      marked = true;
      said = [];
    }
    else set_new_ssid (config_add_profile c val) c

unfoldable pub set_pass : CString → Config → SetOut
set_pass val c =
    if leb c.profile_count c.active
    then failed c "ERR no active profile -- set ssid (or join <ssid>) first\n"
    else record {
      result = set_wifi;
      cfg = record c {
        profiles =
            set_profile c.profiles c.active
              (record (c.profiles c.active) { password = clipped config_pass_max val });
      };
      marked = true;
      said = [];
    }

-- `on`, `off`, or neither.
abbrev pub on_off : CString → Option ℕ
on_off val =
    if strcasecmp_eq val (codes "on")
    then some 1
    else if strcasecmp_eq val (codes "off")
    then some 0
    else none

unfoldable pub set_debug : CString → Config → SetOut
set_debug val c = elim (on_off val) [
  | some flag ↦ done set_other (record c { debug_enabled = flag })
  | none ↦ failed c "ERR usage: set debug <on|off>\n"
]

unfoldable pub set_exit : CString → Config → SetOut
set_exit val c = elim (on_off val) [
  | some flag ↦ done set_wg (with_wg c (record c.wg { exit_enabled = flag }))
  | none ↦ failed c "ERR usage: set exit <on|off>\n"
]

unfoldable pub set_exitlan : CString → Config → SetOut
set_exitlan val c = elim (on_off val) [
  | some flag ↦ done set_wg (with_wg c (record c.wg { exit_lan = flag }))
  | none ↦
      failed c
        "ERR usage: set exitlan <on|off> (on = exit traffic may reach the\n    local LAN's private addresses; off = internet only)\n"
]

-- A number in a range, as the `uint16_t` that it is cast to.
abbrev pub number_in : ℕ → ℕ → CString → Option ℕ
number_in lo hi s =
    let v = (strtol s).0 in if is_between lo hi v then some (low_bits 16 v) else none

unfoldable pub set_keepalive : CString → Config → SetOut
set_keepalive val c = elim (number_in 0 65000 val) [
  | some k ↦ done set_wg (with_wg c (record c.wg { keepalive = k }))
  | none ↦ failed c "ERR usage: set keepalive <seconds> (0 = off)\n"
]

unfoldable pub set_mtu : CString → Config → SetOut
set_mtu val c =
    let m = (strtol val).0 in
    if not (is_between 0 0 m) && not (is_between 576 1420 m)
    then failed c "ERR usage: set mtu <576-1420> (0 = default 1420)\n"
    else done set_wg (with_wg c (record c.wg { host_mtu = low_bits 16 m }))

unfoldable pub set_endpoint : CString → Config → SetOut
set_endpoint val c = elim (cut_at 32 val) [
  | none ↦ failed c "ERR usage: set endpoint <host|ip> <port>\n"
  | some (host, port) ↦
      let p = (strtol port).0 in
      (if not (is_between 1 65535 p) || leb config_endpoint_max (length host)
        then failed c "ERR bad endpoint (name too long or port not 1-65535)\n"
        else done set_wg (
            with_wg c (record c.wg {
              endpoint = clipped config_endpoint_max host;
              endpoint_port = low_bits 16 p;
            })))
]

unfoldable pub set_apssid : CString → Config → SetOut
set_apssid val c = done set_ap (with_ap c (record c.ap { ssid = clipped config_ssid_max val }))

unfoldable pub set_appass : CString → Config → SetOut
set_appass val c =
    if ltb (length val) 8 || ltb 63 (length val)
    then failed c "ERR AP password must be 8-63 chars (an open AP is not allowed)\n"
    else done set_ap (with_ap c (record c.ap { password = clipped config_pass_max val }))

unfoldable pub set_ap_enabled : CString → Config → SetOut
set_ap_enabled val c =
    if strcasecmp_eq val (codes "off")
    then done set_ap (with_ap c (record c.ap { enabled = 0 }))
    else if not (strcasecmp_eq val (codes "on"))
    then failed c "ERR usage: set ap <on|off>\n"
    else if not (config_ap_complete c)
    then failed c
        "ERR AP config incomplete -- need apssid, appass (8-63 chars), and an\n    apaddr/apclient pair inside one subnet (both from tunnel space,\n    covered by the server's AllowedIPs)\n"
    else done set_ap (with_ap c (record c.ap { enabled = 1 }))

module _ (lib : Libraries) where
  unfoldable pub set_country : CString → Config → SetOut
  set_country val c = done set_wifi (record c { country = parse_country lib val })

  -- `put` stores a key of 46 bytes.
  unfoldable pub set_wg_key : (CString → Config) → CString → Bool → Config → SetOut
  set_wg_key put val allow_off c =
      if allow_off && strcasecmp_eq val (codes "off")
      then done set_wg (put [])
      else if not (valid_wg_key lib val)
      then failed c "ERR not a WireGuard key (base64, 32 bytes)\n"
      else done set_wg (put (clipped config_wgkey_max val))

  -- An address with a prefix of 8 to 30, for `set addr` and `set apaddr`.
  unfoldable pub addr_and_prefix : (ℕ → ℕ → Config) → SetResult → CString → String → Config → SetOut
  addr_and_prefix put r val usage c = elim (cut_at 47 val) [
    | none ↦ failed c usage
    | some (addr, prefix) ↦
        let a = parse_ip4 lib addr in
        let p = (strtol prefix).0 in
        (if a == 0 || not (is_between 8 30 p)
          then failed c "ERR bad address or prefix (prefix 8-30)\n"
          else done r (put a (low_bits 8 p)))
  ]

  unfoldable pub set_addr : CString → Config → SetOut
  set_addr val c =
      addr_and_prefix (λ a p. with_wg c (record c.wg { addr = a; prefix = p })) set_wg val
        "ERR usage: set addr <a.b.c.d/nn> (e.g. 10.66.0.249/30)\n" c

  unfoldable pub set_apaddr : CString → Config → SetOut
  set_apaddr val c =
      addr_and_prefix (λ a p. with_ap c (record c.ap { addr = a; prefix = p })) set_ap val
        "ERR usage: set apaddr <a.b.c.d/nn> (e.g. 10.66.0.253/30)\n" c

  -- A single address, for `set hostip`, `set apclient` and `set dns`.
  unfoldable pub one_address : (ℕ → Config) → SetResult → CString → String → Config → SetOut
  one_address put r val usage c =
      if parse_ip4 lib val == 0 then failed c usage else done r (put (parse_ip4 lib val))

  unfoldable pub set_hostip : CString → Config → SetOut
  set_hostip val c =
      one_address (λ a. with_wg c (record c.wg { host_addr = a })) set_wg val
        "ERR usage: set hostip <a.b.c.d>\n" c

  unfoldable pub set_apclient : CString → Config → SetOut
  set_apclient val c =
      one_address (λ a. with_ap c (record c.ap { client_addr = a })) set_ap val
        "ERR usage: set apclient <a.b.c.d>\n" c

  unfoldable pub set_dns : CString → Config → SetOut
  set_dns val c =
      if strcasecmp_eq val (codes "off")
      then done set_wg (with_wg c (record c.wg { dns = 0 }))
      else one_address (λ a. with_wg c (record c.wg { dns = a })) set_wg val
          "ERR usage: set dns <a.b.c.d|off>\n" c
