-- ===== src/SerialBridge/Telnet.antt =====
-- The telnet layer and the COM port control of src/serial_bridge.c.
use molewire.Base.{
  ℕ, ◌+◌, ◌-◌, ◌*◌, ◌/◌, ◌%◌, ◌^◌, Bool, true, false, not, ◌&&◌, ◌||◌, Option, none, some, List, [],
  ◌∷◌, ◌++◌, length, get_or, drop, ltb, leb, ◌==◌, if◌then◌else◌,
}
use molewire.SerialBridge.State.{
  TnState, t_data, t_iac, t_verb, t_sb, t_sb_iac, Telnet, Parity, parity_none, parity_even,
  parity_odd, Port, Bridge, Env,
}

abbrev pub tn_iac : ℕ
tn_iac = 255

abbrev pub tn_dont : ℕ
tn_dont = 254

abbrev pub tn_do : ℕ
tn_do = 253

abbrev pub tn_wont : ℕ
tn_wont = 252

abbrev pub tn_will : ℕ
tn_will = 251

abbrev pub tn_sb : ℕ
tn_sb = 250

abbrev pub tn_se : ℕ
tn_se = 240

abbrev pub tnopt_binary : ℕ
tnopt_binary = 0

abbrev pub tnopt_sga : ℕ
tnopt_sga = 3

abbrev pub tnopt_comport : ℕ
tnopt_comport = 44

-- `sizeof(sb_buf)`
abbrev pub sb_max : ℕ
sb_max = 24

abbrev pub is_some {ℓ} : {A : Type ℓ} → Option A → Bool
is_some none = false
is_some (some a) = true

-- `tcp_write` on the client, whose refusal is ignored.
unfoldable pub tn_send : Env → List ℕ → Bridge → Bridge
tn_send e d b =
    if is_some b.client && e.takes d
    then record b { wires = record b.wires { tcp_out = b.wires.tcp_out ++ d } }
    else b

-- The loop of `tn_comport_ack`, with `w` bytes in the buffer.
unfoldable pub ack_body : ℕ → List ℕ → List ℕ
ack_body w [] = []
ack_body w (x ∷ xs) =
    let rest = ack_body (w + (if x == tn_iac then 2 else 1)) xs in
    if ltb w (24 - 3) then (if x == tn_iac then tn_iac ∷ x ∷ rest else x ∷ rest) else []

-- The bytes that `tn_comport_ack` sends.
unfoldable pub ack_frame : ℕ → List ℕ → List ℕ
ack_frame cmd payload =
    tn_iac
    ∷ tn_sb
    ∷ tnopt_comport
    ∷ ((cmd + 100) % 256)
    ∷ (ack_body 4 payload ++ (tn_iac ∷ tn_se ∷ []))

unfoldable pub tn_comport_ack : Env → ℕ → List ℕ → Bridge → Bridge
tn_comport_ack e cmd payload b = tn_send e (ack_frame cmd payload) b

unfoldable pub known_option : ℕ → Bool
known_option opt = opt == tnopt_binary || opt == tnopt_sga || opt == tnopt_comport

-- The answer to WILL or DO; WONT and DONT have none.
unfoldable pub answer_verb : Env → ℕ → ℕ → Bridge → Bridge
answer_verb e verb opt b =
    if verb == tn_will
    then tn_send e (tn_iac ∷ (if known_option opt then tn_do else tn_dont) ∷ opt ∷ []) b
    else if verb == tn_do
    then tn_send e (tn_iac ∷ (if known_option opt then tn_will else tn_wont) ∷ opt ∷ []) b
    else b

unfoldable pub tn_handle_verb : Env → ℕ → ℕ → Bridge → Bridge
tn_handle_verb e verb opt b =
    let c = answer_verb e verb opt b in
    if known_option opt && opt == tnopt_comport && not c.tn.comport_active
    then tn_comport_ack e 7 (0x30 ∷ []) (record c { tn = record c.tn { comport_active = true } })
    else c

-- A value of 32 bits as its bytes in network order, and back.
abbrev pub baud_bytes : ℕ → List ℕ
baud_bytes v = (v / 2 ^ 24 % 256) ∷ (v / 2 ^ 16 % 256) ∷ (v / 2 ^ 8 % 256) ∷ (v % 256) ∷ []

abbrev pub wanted_baud : List ℕ → ℕ
wanted_baud pl =
    get_or pl 0 0 * 2 ^ 24 + get_or pl 1 0 * 2 ^ 16 + get_or pl 2 0 * 2 ^ 8 + get_or pl 3 0

unfoldable pub apply_format : Port → Port
apply_format p = record p {
  uart = record p.uart { databits = p.cur_databits; stop = p.cur_stop; parity = p.cur_parity };
}

unfoldable pub set_baudrate : List ℕ → Port → Port
set_baudrate pl p =
    if leb 4 (length pl) && leb 300 (wanted_baud pl) && leb (wanted_baud pl) 1500000
    then record p { uart = record p.uart { baud = wanted_baud pl }; cur_baud = wanted_baud pl }
    else p

unfoldable pub set_datasize : List ℕ → Port → Port
unfolding apply_format
set_datasize pl p =
    if leb 1 (length pl) && leb 5 (get_or pl 0 0) && leb (get_or pl 0 0) 8
    then apply_format (record p { cur_databits = get_or pl 0 0 })
    else p

unfoldable pub set_parity : List ℕ → Port → Port
unfolding apply_format
set_parity pl p =
    if leb 1 (length pl) && leb 1 (get_or pl 0 0) && leb (get_or pl 0 0) 3
    then apply_format (record p {
      cur_parity =
          if get_or pl 0 0 == 2
          then parity_odd
          else if get_or pl 0 0 == 3
          then parity_even
          else parity_none;
    })
    else p

abbrev pub parity_code : Parity → ℕ
parity_code parity_odd = 2
parity_code parity_even = 3
parity_code parity_none = 1

unfoldable pub set_stopsize : List ℕ → Port → Port
unfolding apply_format
set_stopsize pl p =
    if leb 1 (length pl) && (get_or pl 0 0 == 1 || get_or pl 0 0 == 2)
    then apply_format (record p { cur_stop = get_or pl 0 0 })
    else p

unfoldable pub set_control : ℕ → Port → Port
set_control v p =
    if v == 8
    then record p { dtr_pin = 0 }
    else if v == 9
    then record p { dtr_pin = 1 }
    else if v == 11
    then record p { rts_pin = 0 }
    else if v == 12
    then record p { rts_pin = 1 }
    else p

-- The `switch` of `tn_handle_sb`: the port afterwards, and the payload of the answer.
unfoldable pub run_command : ℕ → List ℕ → Port → Port × Option (List ℕ)
run_command cmd pl p =
    if cmd == 1
    then (let q = set_baudrate pl p in (q, some (baud_bytes q.cur_baud)))
    else if cmd == 2
    then (let q = set_datasize pl p in (q, some (q.cur_databits ∷ [])))
    else if cmd == 3
    then (let q = set_parity pl p in (q, some (parity_code q.cur_parity ∷ [])))
    else if cmd == 4
    then (let q = set_stopsize pl p in (q, some (q.cur_stop ∷ [])))
    else if cmd == 5
    then (if leb 1 (length pl)
        then (set_control (get_or pl 0 0) p, some (get_or pl 0 0 ∷ []))
        else (p, none))
    else (p, some pl)

unfoldable pub answer_command : Env → ℕ → Option (List ℕ) → Bridge → Bridge
answer_command e cmd none b = b
answer_command e cmd (some payload) b = tn_comport_ack e cmd payload b

unfoldable pub tn_handle_sb : Env → Bridge → Bridge
tn_handle_sb e b =
    if ltb (length b.tn.sb_buf) 2 || not (get_or b.tn.sb_buf 0 0 == tnopt_comport)
    then b
    else (let cmd = get_or b.tn.sb_buf 1 0 in
        let r = run_command cmd (drop 2 b.tn.sb_buf) b.port in
        answer_command e cmd r.1 (record b { port = r.0 }))

abbrev pub to_state : TnState → Bridge → Bridge
to_state s b = record b { tn = record b.tn { tn_state = s } }

-- `if (sb_len < sizeof(sb_buf)) sb_buf[sb_len++] = x;`
unfoldable pub collect : ℕ → Telnet → Telnet
collect x t = if ltb (length t.sb_buf) sb_max then record t { sb_buf = t.sb_buf ++ x ∷ [] } else t

-- The `switch` of `tn_process`; a byte that is returned is data for the party line.
unfoldable pub tn_step : TnState → Env → ℕ → Bridge → Bridge × Option ℕ
tn_step t_data e x b = if x == tn_iac then (to_state t_iac b, none) else (b, some x)
tn_step t_iac e x b =
    if x == tn_iac
    then (to_state t_data b, some x)
    else if x == tn_sb
    then (record b { tn = record b.tn { tn_state = t_sb; sb_buf = [] } }, none)
    else if leb tn_will x && leb x tn_dont
    then (record b { tn = record b.tn { tn_verb = x; tn_state = t_verb } }, none)
    else (to_state t_data b, none)
tn_step t_verb e x b = (to_state t_data (tn_handle_verb e b.tn.tn_verb x b), none)
tn_step t_sb e x b =
    if x == tn_iac then (to_state t_sb_iac b, none) else (record b { tn = collect x b.tn }, none)
tn_step t_sb_iac e x b =
    if x == tn_iac
    then (to_state t_sb (record b { tn = collect tn_iac b.tn }), none)
    else (to_state t_data (tn_handle_sb e b), none)

unfoldable pub tn_process : Env → ℕ → Bridge → Bridge × Option ℕ
tn_process e x b = tn_step b.tn.tn_state e x b
