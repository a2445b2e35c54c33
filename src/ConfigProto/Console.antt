-- ===== src/ConfigProto/Console.antt =====
-- The state of the console of src/config_proto.c and of the scan behind it (src/wifi_scan.c), and
-- what a command has done.
use Prim.Native.String.{String}
use molewire.Base.{
  ℕ, ◌-◌, Bool, true, false, not, ◌&&◌, ◌||◌, Option, List, [], ◌∷◌, ◌++◌, ltb, ◌==◌, if◌then◌else◌,
}
use molewire.Config.Record.{CString, Config, WgRoute}

pub data Mode : Type 0 where
  mode_main mode_scan mode_contscan : Mode

-- A network that the last scan saw; `is_open` is `auth == 0`.
pub record Net : Type 0 where
  pub ssid : CString
  pub is_open : Bool

-- What was done, in order: lines written, configuration applied, views printed, other components
-- called.
pub data Effect : Type 0 where
  say : String → Effect
  say_text : CString → Effect
  apply_wifi apply_wg apply_ap : Effect
  dump list_profiles list_scan stream_scan : Effect
  mark_creds_unsaved note_saved leave_wifi : Effect
  capture : Bool → Effect
  capture_clear : Effect
  reboot : Bool → Effect

-- `g_mode`, `scan_rounds`, the configuration, `scanning` and the results of src/wifi_scan.c.
pub record Console : Type 0 where
  pub mode : Mode
  pub scan_rounds : ℕ
  pub cfg : Config
  pub scanning : Bool
  pub nets : List Net
  pub effects : List Effect

-- The callbacks that are registered, and what other components answer: whether the station is
-- associated, whether the driver starts a scan and is still at it, whether a save succeeds, what a load gives, a new key pair in base64, and
-- the public key of a configuration.
pub record Answers : Type 0 where
  pub has_apply : Bool
  pub has_apply_wg : Bool
  pub has_apply_ap : Bool
  pub link_up : Bool
  pub scan_starts : Bool
  pub scan_active : Bool
  pub save_ok : Bool
  pub stored : Config
  pub keypair : Option (CString × CString)
  pub pubkey : Config → Option CString
  pub stack : ℕ → WgRoute

abbrev pub scan_passes : ℕ
scan_passes = 4

abbrev pub is_main : Mode → Bool
is_main mode_main = true
is_main _ = false

abbrev pub is_scan : Mode → Bool
is_scan mode_scan = true
is_scan _ = false

abbrev pub is_contscan : Mode → Bool
is_contscan mode_contscan = true
is_contscan _ = false

abbrev pub does : List Effect → Console → Console
does es k = record k { effects = k.effects ++ es }

-- A callback that may not be registered.
abbrev pub if_set : Bool → Effect → List Effect
if_set true e = e ∷ []
if_set false e = []

-- `wifi_scan_start` empties the results and gives up a join that is under way; `wifi_scan_again`
-- keeps them.
unfoldable pub wifi_scan_start : Answers → Console → Console × Bool
wifi_scan_start a k =
    let j = does (if_set (not a.link_up) leave_wifi) (record k { nets = [] }) in
    if k.scanning
    then (k, true)
    else if a.scan_starts
    then (record j { scanning = true }, true)
    else (j, false)

unfoldable pub wifi_scan_again : Answers → Console → Console × Bool
wifi_scan_again a k =
    if k.scanning
    then (k, true)
    else if a.scan_starts
    then (record k { scanning = true }, true)
    else (k, false)

unfoldable pub wifi_scan_poll : Answers → Console → Console × Bool
wifi_scan_poll a k =
    if k.scanning && not a.scan_active then (record k { scanning = false }, true) else (k, false)

unfoldable pub wifi_scan_stop : Console → Console
wifi_scan_stop k = record k { scanning = false }

unfoldable pub config_proto_reset : Console → Console
unfolding wifi_scan_stop
config_proto_reset k =
    record (if ltb 0 k.scan_rounds || is_contscan k.mode then wifi_scan_stop k else k) {
      mode = mode_main;
      scan_rounds = 0;
    }

unfoldable pub started : Console × Bool → Console
started (k, true) =
    does (say "[*] scanning" ∷ []) (record k { mode = mode_scan; scan_rounds = scan_passes })
started (k, false) = does (say "[!] scan failed to start\n" ∷ []) k

unfoldable pub start_scan : Answers → Console → Console
unfolding started
start_scan a k = started (wifi_scan_start a k)

unfoldable pub config_proto_scanning : Console → Bool
config_proto_scanning k = k.scanning || is_contscan k.mode || ltb 0 k.scan_rounds

unfoldable pub config_proto_owns_scan : Console → Bool
config_proto_owns_scan k = ltb 0 k.scan_rounds || not (is_main k.mode)

unfoldable pub config_proto_contscan_active : Console → Bool
config_proto_contscan_active k = is_contscan k.mode

unfoldable pub config_proto_contscan_stop : Console → Console
unfolding wifi_scan_stop
config_proto_contscan_stop k =
    does (say "\n[*] stopped\n" ∷ list_scan ∷ [])
      (record (wifi_scan_stop k) { scan_rounds = 0; mode = mode_scan })

unfoldable pub config_proto_prompt : Console → String
config_proto_prompt k =
    if is_contscan k.mode
    then ""
    else if is_scan k.mode
    then (if k.scanning then "" else "(back|join|scan|live) # ")
    else "(set|scan|join|list|use|save) # "

-- In the live scan a pass that is done is printed, and another is kept running.
unfoldable pub poll_live : Answers → Console → Console
poll_live a k =
    let p = wifi_scan_poll a k in
    let q = if p.1 then does (stream_scan ∷ []) p.0 else p.0 in
    if q.scanning then q else (wifi_scan_start a q).0

-- The end of a single scan: the list, if its view is still the one on show.
unfoldable pub poll_finish : Console → Console
poll_finish k =
    if is_scan k.mode then does (say "\n" ∷ list_scan ∷ say (config_proto_prompt k) ∷ []) k else k

-- `if (done && --scan_rounds > 0)` with what follows.
unfoldable pub poll_pass : Answers → Console × Bool → Console
unfolding poll_finish
poll_pass a (k, finished) =
    let r = record k { scan_rounds = if finished then k.scan_rounds - 1 else k.scan_rounds } in
    let s = if finished && ltb 0 r.scan_rounds then does (say "." ∷ []) r else r in
    if ltb 0 s.scan_rounds
    then (if s.scanning then s else (wifi_scan_again a s).0)
    else poll_finish s

unfoldable pub config_proto_poll : Answers → Console → Console
unfolding poll_live poll_pass
config_proto_poll a k =
    if is_contscan k.mode
    then poll_live a k
    else if k.scan_rounds == 0
    then k
    else poll_pass a (wifi_scan_poll a k)
