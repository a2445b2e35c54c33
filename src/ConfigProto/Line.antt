-- ===== src/ConfigProto/Line.antt =====
-- The scan menu and the dispatch of a line in src/config_proto.c.
use molewire.Base.{
  Bool, true, false, ◌||◌, Option, none, some, List, [], ◌∷◌, length, get_elem?, ◌==◌,
  if◌then◌else◌,
}
use mathlib.Core.List.{reverse}
use molewire.Config.Record.{CString}
use molewire.ConfigProto.Text.{codes, strcasecmp_eq, cut_at, parse_index, Libraries}
use molewire.ConfigProto.Console.{
  Net, say, dump, list_scan, leave_wifi, mode_main, mode_contscan, Console, Answers, does, is_scan,
  start_scan, wifi_scan_start,
}
use molewire.ConfigProto.Menu.{join_ssid, handle_main}

unfoldable pub live_started : Console × Bool → Console
live_started (k, true) =
    does (say "[*] live scan -- press any key to stop\n" ∷ []) (record k { mode = mode_contscan })
live_started (k, false) = does (say "[!] scan failed to start\n" ∷ []) k

unfoldable pub join_net : Answers → Option Net → Console → Console
join_net a none k = does (say "ERR usage: join <n> (see the list)\n" ∷ []) k
join_net a (some n) k =
    does (dump ∷ []) (join_ssid a n.ssid (some n.is_open) (record k { mode = mode_main }))

-- The network at a number of the list.
unfoldable pub net_at : CString → List Net → Option Net
net_at args nets = elim (parse_index args (length nets)) [ none ↦ none | some i ↦ get_elem? nets i ]

abbrev pub is_join : CString → Option CString → Bool
is_join cmd none = false
is_join cmd (some args) = strcasecmp_eq cmd (codes "JOIN")

abbrev pub args_of : Option CString → CString
args_of none = []
args_of (some args) = args

unfoldable pub handle_scan : Answers → CString → Option CString → Console → Console
handle_scan a cmd args k =
    if strcasecmp_eq cmd (codes "BACK")
    then does (dump ∷ []) (record k { mode = mode_main })
    else if strcasecmp_eq cmd (codes "SCAN")
    then start_scan a k
    else if strcasecmp_eq cmd (codes "LIVE")
    then live_started (wifi_scan_start a (does (leave_wifi ∷ []) k))
    else if is_join cmd args
    then join_net a (net_at (args_of args) k.nets) k
    else does (say "[!] scan: back | join <n> | scan | live\n" ∷ []) k

-- The end of the line without carriage returns and blanks: first of the text turned round.
unfoldable pub skip_blank : CString → CString
skip_blank [] = []
skip_blank (x ∷ s) = let rest = skip_blank s in if x == 13 || x == 32 then rest else x ∷ s

unfoldable pub trimmed : CString → CString
trimmed s = reverse (skip_blank (reverse s))

-- The command word, and the remainder of the line if there is a blank.
unfoldable pub words : CString → CString × Option CString
words s = elim (cut_at 32 s) [ none ↦ (s, none) | some (cmd, args) ↦ (cmd, some args) ]

unfoldable pub handle_words : Libraries → Answers → CString × Option CString → Console → Console
handle_words lib a (cmd, args) k =
    if is_scan k.mode then handle_scan a cmd args k else handle_main lib a cmd args k

unfoldable pub config_proto_handle_line : Libraries → Answers → CString → Console → Console
config_proto_handle_line lib a line k =
    if length (trimmed line) == 0
    then does ((if is_scan k.mode then list_scan else dump) ∷ []) k
    else handle_words lib a (words (trimmed line)) k
