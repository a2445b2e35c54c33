-- ===== src/ConfigProto/Menu.antt =====
-- The commands of the console in src/config_proto.c.
use Prim.Native.String.{String}
use molewire.Base.{
  ℕ, Bool, true, false, not, ◌&&◌, ◌||◌, Option, none, some, List, [], ◌∷◌, ◌++◌, get_or, ℤ, pos,
  negsuc, ◌==◌, if◌then◌else◌,
}
use molewire.Config.Record.{CString, config_ssid_max, Config}
use molewire.Config.Profiles.{
  strncmp_eq, config_find_profile, config_add_profile, config_del_profile,
}
use molewire.Config.Complete.{nonempty}
use molewire.ConfigProto.Text.{codes, toupper, strcasecmp_eq, parse_index, Libraries}
use molewire.ConfigProto.Set.{
  SetResult, SetOut, set_err, set_wifi, set_other, set_wg, set_ap, with_wg,
}
use molewire.ConfigProto.Command.{cmd_set}
use molewire.ConfigProto.Console.{
  Net, Effect, say, say_text, apply_wifi, apply_wg, apply_ap, dump, list_profiles,
  mark_creds_unsaved, note_saved, capture, capture_clear, reboot, Console, Answers, does, if_set,
  start_scan,
}

abbrev pub to_config : Config → Console → Console
to_config c k = record k { cfg = c }

-- The first network of the scan with the name: whether it is open; false if there is none.
unfoldable pub seen_open : List Net → CString → Bool
seen_open [] ssid = false
seen_open (n ∷ ns) ssid =
    let rest = seen_open ns ssid in
    if strncmp_eq config_ssid_max n.ssid ssid then n.is_open else rest

-- `join_ssid` from the choice of a profile on; `hint` is `open_hint`, none for -1.
unfoldable pub join_profile : Answers → CString → Option Bool → ℕ → Console → Console
join_profile a ssid hint p k =
    let j = to_config (record k.cfg { active = p }) k in
    let is_open : Bool = elim hint [ none ↦ seen_open k.nets ssid | some b ↦ b ] in
    let has_pass = nonempty (k.cfg.profiles p).password in
    if has_pass || is_open
    then does
        (say (
            if has_pass
            then "[*] joining with the saved password\n"
            else "[*] joining (open network)\n")
          ∷ if_set a.has_apply apply_wifi)
        j
    else does
        (say "[*] staged -- set pass <password> to join (saved automatically once it works)\n" ∷ [])
        j

-- With the result of `config_add_profile`.
unfoldable pub join_new : Answers → CString → Option Bool → Config × ℤ → Console → Console
join_new a ssid hint (d, negsuc n) k =
    does (say "ERR could not add a profile\n" ∷ []) (to_config d k)
join_new a ssid hint (d, pos p) k =
    join_profile a ssid hint p (does (mark_creds_unsaved ∷ []) (to_config d k))

unfoldable pub join_found : Answers → CString → Option Bool → ℤ → Console → Console
join_found a ssid hint (pos p) k = join_profile a ssid hint p k
join_found a ssid hint (negsuc n) k = join_new a ssid hint (config_add_profile k.cfg ssid) k

unfoldable pub join_ssid : Answers → CString → Option Bool → Console → Console
join_ssid a ssid hint k = join_found a ssid hint (config_find_profile k.cfg ssid) k

-- What `handle_main` does with the result of `cmd_set`.
unfoldable pub apply_set : Answers → SetResult → List Effect
apply_set a set_wifi =
    if a.has_apply then say "[*] applying -- re-associating\n" ∷ apply_wifi ∷ [] else []
apply_set a set_wg =
    if a.has_apply_wg then say "[*] applying -- restarting tunnel\n" ∷ apply_wg ∷ [] else []
apply_set a set_ap =
    if a.has_apply_ap then say "[*] applying -- reconfiguring AP\n" ∷ apply_ap ∷ [] else []
apply_set a set_other = say "[*] updated\n" ∷ []
apply_set a set_err = []

abbrev pub is_err : SetResult → Bool
is_err set_err = true
is_err _ = false

abbrev pub said_lines : List String → List Effect
said_lines [] = []
said_lines (s ∷ ss) = say s ∷ said_lines ss

unfoldable pub finish_set : Answers → SetOut → Console → Console
finish_set a o k =
    let j = does (said_lines o.said ++ if_set o.marked mark_creds_unsaved) (to_config o.cfg k) in
    if is_err o.result then j else does (apply_set a o.result ++ dump ∷ []) j

unfoldable pub main_use : Answers → CString → Console → Console
main_use a args k = elim (parse_index args k.cfg.profile_count) [
  | none ↦ does (say "ERR usage: use <n> (see list)\n" ∷ []) k
  | some i ↦
      does
        ((if a.has_apply then say "[*] applying -- re-associating\n" ∷ apply_wifi ∷ [] else [])
          ++ dump ∷ [])
        (to_config (record k.cfg { active = i }) k)
]

-- A list index, or else a name.
unfoldable pub del_index : CString → Config → ℤ
del_index args c = elim (parse_index args c.profile_count) [
  | some i ↦ pos i
  | none ↦ config_find_profile c args
]

unfoldable pub del_found : Answers → ℤ → Console → Console
del_found a (negsuc n) k = does (say "ERR usage: del <n|ssid> (see list)\n" ∷ []) k
del_found a (pos i) k =
    does (say "[*] deleted (save to persist)\n" ∷ (if_set a.has_apply apply_wifi ++ dump ∷ []))
      (to_config (config_del_profile k.cfg (pos i)) k)

unfoldable pub main_pcap : CString → Console → Console
main_pcap args k =
    if strcasecmp_eq args (codes "on")
    then does
        (capture true
          ∷ say "[*] capturing the USB link (download via the portal: /api/pcap)\n"
          ∷ [])
        k
    else if strcasecmp_eq args (codes "off")
    then does
        (capture false ∷ say "[*] capture stopped (ring kept -- 'pcap clear' to discard)\n" ∷ []) k
    else if strcasecmp_eq args (codes "clear")
    then does (capture_clear ∷ say "[*] capture ring cleared\n" ∷ []) k
    else does (say "ERR usage: pcap <on|off|clear>\n" ∷ []) k

abbrev pub is_force : Option CString → Bool
is_force none = false
is_force (some args) = strcasecmp_eq args (codes "force")

unfoldable pub store_keypair : Answers → Option (CString × CString) → Console → Console
store_keypair a none k = does (say "[!] key generation failed\n" ∷ []) k
store_keypair a (some (priv, pub_b64)) k =
    does
      (say "[*] keypair generated on-device; the private key never leaves it\n"
        ∷ say "    public key: "
        ∷ say_text pub_b64
        ∷ say "\n    give this to the WireGuard admin, then `save`\n"
        ∷ (if_set a.has_apply_wg apply_wg ++ dump ∷ []))
      (to_config (with_wg k.cfg (record k.cfg.wg { private_key = priv })) k)

unfoldable pub main_genkey : Answers → Option CString → Console → Console
main_genkey a args k =
    if nonempty k.cfg.wg.private_key && not (is_force args)
    then does
        (say
            "ERR a private key is already set -- 'genkey force' replaces it\n    (the server must then be given the new public key)\n"
          ∷ [])
        k
    else store_keypair a a.keypair k

unfoldable pub main_pubkey : Answers → Console → Console
main_pubkey a k = elim (a.pubkey k.cfg) [
  | some b64 ↦ does (say_text b64 ∷ say "\n" ∷ []) k
  | none ↦ does (say "ERR no usable private key -- genkey (or set key <b64>) first\n" ∷ []) k
]

-- The restart does not return; the model ends with it.
unfoldable pub main_reboot : CString → Console → Console
main_reboot cmd k =
    let to_bootloader = toupper (get_or cmd 0 0) == b'B' in
    does
      (say (if to_bootloader then "[*] rebooting to UF2 bootloader...\n" else "[*] rebooting...\n")
        ∷ reboot to_bootloader
        ∷ [])
      k

unfoldable pub main_save : Answers → Console → Console
main_save a k =
    does
      (if a.save_ok
        then note_saved ∷ say "[*] saved to flash\n" ∷ dump ∷ []
        else say "[!] save failed\n" ∷ dump ∷ [])
      k

unfoldable pub main_restore : Answers → Console → Console
main_restore a k =
    does
      (note_saved
        ∷ say "[*] restored saved settings\n"
        ∷ (if_set a.has_apply apply_wifi ++ (if_set a.has_apply_wg apply_wg ++ dump ∷ [])))
      (to_config a.stored k)

abbrev pub main_usage : String
main_usage =
    "[!] commands: set <ssid|pass|country|debug|key|peer|psk|endpoint|addr|hostip|dns|keepalive|mtu|routes|exit|exitlan|apssid|appass|apaddr|apclient|ap> <val> | genkey [force] | pubkey | pcap <on|off|clear> | list | join <ssid> | use <n> | del <n> | scan | save | restore | reboot | bootsel\n"

-- The commands that take an argument; without one they are unknown.
unfoldable pub main_with : Libraries → Answers → CString → CString → Console → Option Console
main_with lib a cmd args k =
    if strcasecmp_eq cmd (codes "SET")
    then some (finish_set a (cmd_set lib a.stack args k.cfg) k)
    else if strcasecmp_eq cmd (codes "LIST")
    then none
    else if strcasecmp_eq cmd (codes "JOIN")
    then some (does (dump ∷ []) (join_ssid a args none k))
    else if strcasecmp_eq cmd (codes "USE")
    then some (main_use a args k)
    else if strcasecmp_eq cmd (codes "DEL")
    then some (del_found a (del_index args k.cfg) k)
    else if strcasecmp_eq cmd (codes "PCAP")
    then some (main_pcap args k)
    else none

unfoldable pub main_plain : Answers → CString → Option CString → Console → Console
main_plain a cmd args k =
    if strcasecmp_eq cmd (codes "LIST")
    then does (list_profiles ∷ []) k
    else if strcasecmp_eq cmd (codes "GENKEY")
    then main_genkey a args k
    else if strcasecmp_eq cmd (codes "PUBKEY")
    then main_pubkey a k
    else if strcasecmp_eq cmd (codes "BOOTSEL") || strcasecmp_eq cmd (codes "REBOOT")
    then main_reboot cmd k
    else if strcasecmp_eq cmd (codes "SCAN")
    then start_scan a k
    else if strcasecmp_eq cmd (codes "SAVE")
    then main_save a k
    else if strcasecmp_eq cmd (codes "RESTORE")
    then main_restore a k
    else does (say main_usage ∷ []) k

abbrev pub or_plain : Option Console → Console → Console
or_plain none k = k
or_plain (some j) k = j

unfoldable pub handle_main : Libraries → Answers → CString → Option CString → Console → Console
handle_main lib a cmd none k = main_plain a cmd none k
handle_main lib a cmd (some args) k =
    or_plain (main_with lib a cmd args k) (main_plain a cmd (some args) k)
