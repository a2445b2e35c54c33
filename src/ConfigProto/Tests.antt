-- ===== src/ConfigProto/Tests.antt =====
-- The console of src/config_proto.c on typed lines.
use molewire.Base.{
  ℕ, ◌≡◌, inl, refl, arith, Bool, true, false, none, some, List, [], ◌∷◌, ◌+◌, ◌-◌, ◌*◌, leb,
  if◌then◌else◌,
}
use molewire.Config.Record.{CString, WgRoute, Config}
use molewire.ConfigProto.Text.{
  codes, cut_at, strtol, skip_space, sign_of, digits_of, strcasecmp_eq, Libraries,
}
use molewire.ConfigProto.Set.{set_mtu, set_endpoint, set_pass}
use molewire.ConfigProto.Command.{key_of, set_key, cmd_set}
use molewire.ConfigProto.Stored.{IsStored}
use molewire.ConfigProto.SetLaws.{Outcome}
use molewire.ConfigProto.KeyLaws.{cmd_set-Outcome}
use molewire.ConfigProto.Console.{mode_main, Console, Answers, start_scan}
use molewire.ConfigProto.Menu.{handle_main, main_with, finish_set}
use molewire.ConfigProto.Line.{config_proto_handle_line, handle_words, words, trimmed, skip_blank}
use molewire.ConfigProto.MenuLaws.{AreSound}
use molewire.ConfigProto.ScanLaws.{polls, passes, After, start_scan-After}

abbrev no_route : WgRoute
no_route = record { net = 0; prefix = 0 }

-- One saved network, which is the active one, and no tunnel.
abbrev device : Config
device = record {
  profile_count = 1;
  active = 0;
  debug_enabled = 0;
  country = 0;
  profiles = λ i. record { ssid = codes "home"; password = [] };
  wg = record {
    private_key = [];
    peer_public = [];
    psk = [];
    endpoint = [];
    endpoint_port = 0;
    keepalive = 25;
    host_mtu = 0;
    exit_enabled = 0;
    exit_lan = 0;
    addr = 0;
    host_addr = 0;
    dns = 0;
    prefix = 0;
    route_count = 0;
    routes = λ i. no_route;
  };
  ap = record { addr = 0; client_addr = 0; prefix = 0; enabled = 0; ssid = []; password = [] };
}

abbrev device-IsStored : IsStored device
device-IsStored = record {
  valid = record { fits = omega arith; active_in = inl (omega arith) };
  texts = λ j. (omega arith, omega arith);
  wg = record {
    private_key = omega arith;
    peer_public = omega arith;
    psk = omega arith;
    endpoint = omega arith;
    endpoint_port = omega arith;
    keepalive = omega arith;
    host_mtu = inl refl;
    exit_enabled = omega arith;
    exit_lan = omega arith;
    prefix = inl refl;
    route_count = omega arith;
    routes = λ i low. absurd (omega (arith, low));
  };
  ap = record { ssid = omega arith; password = inl refl; prefix = inl refl; enabled = omega arith };
  debug = omega arith;
}

-- An address parser that knows one address, and base64 that decodes 44 characters.
abbrev libraries : Libraries
libraries = record {
  ip4addr_aton = λ s. if strcasecmp_eq s (codes "10.66.0.249") then some 0xF900420A else none;
  base64_decode = λ s. none;
  country_worldwide = 0x5858;
  country_code = λ a b. a + 256 * b;
}

abbrev answers : Bool → Answers
answers busy = record {
  has_apply = true;
  has_apply_wg = true;
  has_apply_ap = false;
  link_up = true;
  scan_starts = true;
  scan_active = busy;
  save_ok = true;
  stored = device;
  keypair = none;
  pubkey = λ c. none;
  stack = λ i. no_route;
}

answers-AreSound : AreSound (answers false)
answers-AreSound = record {
  stored = device-IsStored;
  keypair = λ priv pub_b64 e. absurd (ground arith);
}

abbrev console : Console
console = record {
  mode = mode_main;
  scan_rounds = 0;
  cfg = device;
  scanning = false;
  nets = [];
  effects = [];
}

unfoldable mtu_of : CString → ℕ
mtu_of args = (cmd_set libraries (λ i. no_route) args device).cfg.wg.host_mtu

mtu-set : mtu_of (codes "MTU 1300") ≡ 1300
unfolding mtu_of cmd_set cut_at key_of strcasecmp_eq set_key set_mtu strtol skip_space sign_of
    digits_of
mtu-set = refl

mtu-refused : mtu_of (codes "mtu 300") ≡ 0
unfolding mtu_of cmd_set cut_at key_of strcasecmp_eq set_key set_mtu strtol skip_space sign_of
    digits_of
mtu-refused = refl

unfoldable endpoint_port_of : CString → ℕ
endpoint_port_of args = (cmd_set libraries (λ i. no_route) args device).cfg.wg.endpoint_port

endpoint-set : endpoint_port_of (codes "endpoint vpn.example 51820") ≡ 51820
unfolding endpoint_port_of cmd_set cut_at key_of strcasecmp_eq set_key set_endpoint strtol
    skip_space sign_of digits_of
endpoint-set = refl

unfoldable typed : CString → Console
typed line = config_proto_handle_line libraries (answers false) line console

typed-pass : ((typed (codes "set pass secret99 \r")).cfg.profiles 0).password ≡ codes "secret99"
unfolding typed config_proto_handle_line trimmed skip_blank words cut_at handle_words handle_main
    main_with strcasecmp_eq finish_set cmd_set key_of set_key set_pass
typed-pass = refl

cmd_set-Outcome_example :
    Outcome device (cmd_set libraries (λ i. no_route) (codes "pass secret99") device)
cmd_set-Outcome_example =
    cmd_set-Outcome libraries (λ i. no_route) (codes "pass secret99") device device-IsStored

abbrev five : List Answers
five = answers false ∷ answers true ∷ answers false ∷ answers false ∷ answers false ∷ []

start_scan-After_example :
    After
      (start_scan (answers true) console)
      (polls five (start_scan (answers true) console))
      (4 - passes five)
      (if leb 4 (passes five) then 1 else 0)
start_scan-After_example =
    start_scan-After (answers true) five console refl refl
      (refl, (refl, (refl, (refl, (refl, tt)))))
