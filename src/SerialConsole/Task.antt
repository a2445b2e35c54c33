-- ===== src/SerialConsole/Task.antt =====
-- The line editor and the task of src/serial_console.c.
use Prim.Native.String.{String}
use molewire.Base.{
  ℕ, ◌-◌, Bool, true, false, not, ◌&&◌, ◌||◌, List, [], ◌∷◌, ◌++◌, length, take, ltb, leb, ◌==◌,
  if◌then◌else◌,
}
use molewire.Config.Record.{CString}
use molewire.ConfigProto.Text.{Libraries}
use molewire.ConfigProto.Console.{
  say, say_text, dump, Console, Answers, does, config_proto_reset, config_proto_scanning,
  config_proto_poll, config_proto_contscan_active, config_proto_contscan_stop, config_proto_prompt,
}
use molewire.ConfigProto.Line.{config_proto_handle_line}

-- The console of the protocol with `line_buf`, `was_connected` and `banner_sent`. What is written to
-- the port is among the effects.
pub record Terminal : Type 0 where
  pub console : Console
  pub line_buf : CString
  pub was_connected : Bool
  pub banner_sent : Bool

abbrev pub line_max : ℕ
line_max = 191

-- A character that came in, with what the other components answer when it is read.
pub record Typed : Type 0 where
  pub ch : ℕ
  pub answers : Answers

abbrev pub with_console : Console → Terminal → Terminal
with_console k t = record t { console = k }

unfoldable pub console_prompt : Terminal → Terminal
console_prompt t = with_console (does (say (config_proto_prompt t.console) ∷ []) t.console) t

-- The banner, without the version that the build puts in.
abbrev pub banner : String
banner =
    "\r\nmolewire -- WireGuard USB dongle configuration console\r\nparams: ssid pass country debug key peer psk endpoint addr hostip dns keepalive mtu routes apssid appass apaddr apclient ap (set <param> <val>); genkey pubkey pcap list join use del scan save restore reboot bootsel; Enter for status\r\n"

unfoldable pub console_banner : Terminal → Terminal
console_banner t = record t { console = does (say banner ∷ []) t.console; banner_sent = true }

unfoldable pub tud_cdc_line_state_cb : Bool → Bool → Terminal → Terminal
tud_cdc_line_state_cb dtr rts t =
    if not dtr && not rts
    then record t { banner_sent = false }
    else if not t.banner_sent
    then console_banner t
    else t

unfoldable pub end_line : Libraries → Answers → Terminal → Terminal
end_line lib a t =
    let echoed = does (say_text (13 ∷ 10 ∷ []) ∷ []) t.console in
    record (console_prompt (with_console (config_proto_handle_line lib a t.line_buf echoed) t)) {
      line_buf = [];
    }

unfoldable pub erase : Terminal → Terminal
erase t =
    if ltb 0 (length t.line_buf)
    then record t {
      line_buf = take (length t.line_buf - 1) t.line_buf;
      console = does (say_text (8 ∷ 32 ∷ 8 ∷ []) ∷ []) t.console;
    }
    else t

unfoldable pub type_char : Libraries → Typed → Terminal → Terminal
type_char lib c t =
    if c.ch == 10 || c.ch == 13
    then end_line lib c.answers t
    else if c.ch == 8 || c.ch == 127
    then erase t
    else if leb 32 c.ch && ltb c.ch 127 && ltb (length t.line_buf) line_max
    then record t {
      line_buf = t.line_buf ++ c.ch ∷ [];
      console = does (say_text (c.ch ∷ []) ∷ []) t.console;
    }
    else t

-- The loop over what is available.
unfoldable pub type_all : Libraries → List Typed → Terminal → Terminal
type_all lib [] t = t
type_all lib (c ∷ cs) t = type_all lib cs (type_char lib c t)

unfoldable pub greet : Bool → Terminal → Terminal
greet connected t =
    if connected && not t.was_connected
    then record (console_prompt
        (with_console (does (dump ∷ []) (config_proto_reset t.console)) t)) { line_buf = [] }
    else if not connected && t.was_connected
    then record t { console = config_proto_reset t.console; banner_sent = false }
    else t

abbrev pub is_pending : List Typed → Bool
is_pending [] = false
is_pending (c ∷ cs) = true

unfoldable pub identify : List Typed → Terminal → Terminal
identify input t = if not t.banner_sent && is_pending input then console_banner t else t

unfoldable pub poll_scan : Answers → Bool → Terminal → Terminal
poll_scan a connected t =
    if connected && config_proto_scanning t.console
    then with_console (config_proto_poll a t.console) t
    else t

-- Any key stops a live scan; else the characters edit the line.
unfoldable pub read_input : Libraries → List Typed → Terminal → Terminal
read_input lib input t =
    if config_proto_contscan_active t.console
    then (if is_pending input
        then record (console_prompt (with_console (config_proto_contscan_stop t.console) t)) {
          line_buf = [];
        }
        else t)
    else type_all lib input t

unfoldable pub serial_console_task : Libraries → Answers → Bool → List Typed → Terminal → Terminal
serial_console_task lib a connected input t = read_input lib input (
    poll_scan a connected
      (identify input (record (greet connected t) { was_connected = connected })))
