-- ===== src/SerialConsole/Tests.antt =====
-- A line typed on the console of src/serial_console.c, with a mistake in it.
use molewire.Base.{ℕ, ◌+◌, ◌≡◌, inl, inr, refl, arith, true, false, none, List, [], ◌∷◌, ◌++◌}
use molewire.Config.Record.{CString, Config}
use molewire.ConfigProto.Text.{codes, Libraries}
use molewire.ConfigProto.Stored.{IsStored}
use molewire.ConfigProto.Console.{mode_main, say, say_text, Answers, does, config_proto_prompt}
use molewire.ConfigProto.Line.{config_proto_handle_line}
use molewire.ConfigProto.MenuLaws.{AreSound}
use molewire.SerialConsole.Task.{Terminal, Typed, erase, type_char, type_all, serial_console_task}
use molewire.SerialConsole.Laws.{IsKept, serial_console_task-IsKept}
use molewire.SerialConsole.Typing.{chars, echoes, type_all-handles}

abbrev blank : Config
blank = record {
  profile_count = 0;
  active = 255;
  debug_enabled = 0;
  country = 0;
  profiles = λ i. record { ssid = []; password = [] };
  wg = record {
    private_key = [];
    peer_public = [];
    psk = [];
    endpoint = [];
    endpoint_port = 0;
    keepalive = 0;
    host_mtu = 0;
    exit_enabled = 0;
    exit_lan = 0;
    addr = 0;
    host_addr = 0;
    dns = 0;
    prefix = 0;
    route_count = 0;
    routes = λ i. record { net = 0; prefix = 0 };
  };
  ap = record { addr = 0; client_addr = 0; prefix = 0; enabled = 0; ssid = []; password = [] };
}

blank-IsStored : IsStored blank
blank-IsStored = record {
  valid = record { fits = omega arith; active_in = inr refl };
  texts = λ j. (omega arith, omega arith);
  wg = record {
    private_key = omega arith;
    peer_public = omega arith;
    psk = omega arith;
    endpoint = omega arith;
    endpoint_port = omega arith;
    keepalive = omega arith;
    host_mtu = inl refl;
    exit_enabled = omega arith;
    exit_lan = omega arith;
    prefix = inl refl;
    route_count = omega arith;
    routes = λ i low. absurd (omega (arith, low));
  };
  ap = record { ssid = omega arith; password = inl refl; prefix = inl refl; enabled = omega arith };
  debug = omega arith;
}

abbrev lib : Libraries
lib = record {
  ip4addr_aton = λ s. none;
  base64_decode = λ s. none;
  country_worldwide = 0x5858;
  country_code = λ a b. a + b;
}

abbrev quiet : Answers
quiet = record {
  has_apply = false;
  has_apply_wg = false;
  has_apply_ap = false;
  link_up = true;
  scan_starts = true;
  scan_active = false;
  save_ok = true;
  stored = blank;
  keypair = none;
  pubkey = λ c. none;
  stack = λ i. record { net = 0; prefix = 0 };
}

quiet-AreSound : AreSound quiet
quiet-AreSound = record {
  stored = blank-IsStored;
  keypair = λ priv pub_b64 e. absurd (ground arith);
}

abbrev key : ℕ → Typed
key ch = record { ch = ch; answers = quiet }

abbrev keys : CString → List Typed
keys [] = []
keys (c ∷ cs) = key c ∷ keys cs

abbrev terminal : Terminal
terminal = record {
  console = record {
    mode = mode_main;
    scan_rounds = 0;
    cfg = blank;
    scanning = false;
    nets = [];
    effects = [];
  };
  line_buf = [];
  was_connected = true;
  banner_sent = true;
}

-- `lisr`, a deletion, and `t`.
unfoldable edited : CString
edited = (type_all lib (keys (108 ∷ 105 ∷ 115 ∷ 114 ∷ 127 ∷ 116 ∷ [])) terminal).line_buf

edited-line : edited ≡ codes "list"
unfolding edited type_all type_char erase
edited-line = refl

abbrev line : List Typed
line = keys (108 ∷ 105 ∷ 115 ∷ 116 ∷ [])

type_all-handles_example :
    let u = type_all lib (line ++ key 13 ∷ []) terminal in
    let k =
      config_proto_handle_line lib quiet
        (chars line)
        (does (say_text (13 ∷ 10 ∷ []) ∷ []) (does (echoes line) terminal.console)) in
    (u.console ≡ does (say (config_proto_prompt k) ∷ []) k) × (u.line_buf ≡ [])
type_all-handles_example =
    type_all-handles lib line (key 13) terminal
      (
        omega arith,
        omega arith,
        (omega arith, omega arith, (omega arith, omega arith, (omega arith, omega arith, tt))),
      )
      (omega arith) (inr refl) refl

serial_console_task-IsKept_example :
    IsKept (serial_console_task lib quiet true (line ++ key 13 ∷ []) terminal)
serial_console_task-IsKept_example =
    serial_console_task-IsKept lib quiet true (line ++ key 13 ∷ []) terminal
      (quiet-AreSound, (quiet-AreSound, (quiet-AreSound, (quiet-AreSound, (quiet-AreSound, tt)))))
      (record { form = blank-IsStored; fits = omega arith })
