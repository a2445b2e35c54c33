-- ===== src/ConfigProto/Command.antt =====
-- The dispatch of `cmd_set` in src/config_proto.c.
use molewire.Base.{ℕ, true, false, none, some, if◌then◌else◌}
use molewire.Config.Record.{CString, WgRoute, Config}
use molewire.ConfigProto.Text.{codes, strcasecmp_eq, cut_at, Libraries}
use molewire.ConfigProto.Set.{
  SetOut, failed, with_wg, set_ssid, set_pass, set_debug, set_exit, set_exitlan, set_keepalive,
  set_mtu, set_endpoint, set_apssid, set_appass, set_ap_enabled, set_country, set_wg_key, set_addr,
  set_apaddr, set_hostip, set_apclient, set_dns,
}
use molewire.ConfigProto.Routes.{set_routes}

-- The keys that `cmd_set` knows, and any other.
pub data Key : Type 0 where
  ssid pass country debug key peer psk endpoint addr hostip dns routes keepalive mtu exit exitlan
        apssid appass apaddr apclient ap unknown :
      Key

-- The comparisons, in the order of the source.
unfoldable pub key_of : CString → Key
key_of s =
    if strcasecmp_eq s (codes "ssid")
    then ssid
    else if strcasecmp_eq s (codes "pass")
    then pass
    else if strcasecmp_eq s (codes "country")
    then country
    else if strcasecmp_eq s (codes "debug")
    then debug
    else if strcasecmp_eq s (codes "key")
    then key
    else if strcasecmp_eq s (codes "peer")
    then peer
    else if strcasecmp_eq s (codes "psk")
    then psk
    else if strcasecmp_eq s (codes "endpoint")
    then endpoint
    else if strcasecmp_eq s (codes "addr")
    then addr
    else if strcasecmp_eq s (codes "hostip")
    then hostip
    else if strcasecmp_eq s (codes "dns")
    then dns
    else if strcasecmp_eq s (codes "routes")
    then routes
    else if strcasecmp_eq s (codes "keepalive")
    then keepalive
    else if strcasecmp_eq s (codes "mtu")
    then mtu
    else if strcasecmp_eq s (codes "exit")
    then exit
    else if strcasecmp_eq s (codes "exitlan")
    then exitlan
    else if strcasecmp_eq s (codes "apssid")
    then apssid
    else if strcasecmp_eq s (codes "appass")
    then appass
    else if strcasecmp_eq s (codes "apaddr")
    then apaddr
    else if strcasecmp_eq s (codes "apclient")
    then apclient
    else if strcasecmp_eq s (codes "ap")
    then ap
    else unknown

module _ (lib : Libraries) (stack : ℕ → WgRoute) where
  unfoldable pub set_key : Key → CString → Config → SetOut
  set_key ssid val c = set_ssid val c
  set_key pass val c = set_pass val c
  set_key country val c = set_country lib val c
  set_key debug val c = set_debug val c
  set_key key val c = set_wg_key lib (λ k. with_wg c (record c.wg { private_key = k })) val false c
  set_key peer val c = set_wg_key lib (λ k. with_wg c (record c.wg { peer_public = k })) val false c
  set_key psk val c = set_wg_key lib (λ k. with_wg c (record c.wg { psk = k })) val true c
  set_key endpoint val c = set_endpoint val c
  set_key addr val c = set_addr lib val c
  set_key hostip val c = set_hostip lib val c
  set_key dns val c = set_dns lib val c
  set_key routes val c = set_routes lib stack val c
  set_key keepalive val c = set_keepalive val c
  set_key mtu val c = set_mtu val c
  set_key exit val c = set_exit val c
  set_key exitlan val c = set_exitlan val c
  set_key apssid val c = set_apssid val c
  set_key appass val c = set_appass val c
  set_key apaddr val c = set_apaddr lib val c
  set_key apclient val c = set_apclient lib val c
  set_key ap val c = set_ap_enabled val c
  set_key unknown val c =
      failed c
        "ERR unknown key (ssid|pass|country|debug|key|peer|psk|endpoint|addr|hostip|dns|keepalive|mtu|routes|exit|exitlan|apssid|appass|apaddr|apclient|ap)\n"

  unfoldable pub cmd_set : CString → Config → SetOut
  cmd_set args c = elim (cut_at 32 args) [
    | none ↦ failed c "ERR usage: set <key> <value> (see help)\n"
    | some (name, val) ↦ set_key (key_of name) val c
  ]
