-- ===== src/SerialBridge/Line.antt =====
-- The endpoints of src/serial_bridge.c and the pump `serial_bridge_task`.
use molewire.Base.{
  ℕ, zero, suc, ◌+◌, Bool, true, false, not, ◌&&◌, ◌||◌, Option, none, some, List, [], ◌∷◌, ◌++◌,
  length, get_or, ltb, ◌==◌, if◌then◌else◌,
}
use molewire.SerialBridge.State.{TnState, t_data, t_iac, Bridge, Env}
use molewire.SerialBridge.Telnet.{tn_iac, is_some, tn_process}

pub data Src : Type 0 where
  src_uart src_cdc src_tcp : Src

abbrev pub is_uart : Src → Bool
is_uart src_uart = true
is_uart _ = false

abbrev pub is_cdc : Src → Bool
is_cdc src_cdc = true
is_cdc _ = false

abbrev pub is_tcp : Src → Bool
is_tcp src_tcp = true
is_tcp _ = false

abbrev pub is_empty {ℓ} : {A : Type ℓ} → List A → Bool
is_empty [] = true
is_empty (x ∷ xs) = false

-- What `tn_next_is_data` tests of the state of the telnet layer.
abbrev pub starts_data : TnState → ℕ → Bool
starts_data t_data x = not (x == tn_iac)
starts_data t_iac x = x == tn_iac
starts_data _ x = false

unfoldable pub tn_next_is_data : ℕ → Bridge → Bool
tn_next_is_data x b = not b.telnet_mode || starts_data b.tn.tn_state x

unfoldable pub sinks_ready : Env → Src → Bridge → Bool
sinks_ready e src b =
    if not (is_cdc src) && e.host_open && e.host_room == 0
    then false
    else if not (is_tcp src) && is_some b.client && ltb e.sndbuf 2
    then false
    else if not (is_uart src) && not e.uart_writable
    then false
    else true

-- A write to the host's port is lost where there is no room for it.
unfoldable pub to_cdc : Env → Src → ℕ → Bridge → Bridge
to_cdc e src x b =
    if not (is_cdc src) && e.host_open && ltb 0 e.host_room
    then record b { wires = record b.wires { cdc_out = b.wires.cdc_out ++ x ∷ [] } }
    else b

-- In telnet mode a data byte 0xFF is doubled.
unfoldable pub escaped : Bool → ℕ → List ℕ
escaped telnet x = if telnet && x == tn_iac then tn_iac ∷ tn_iac ∷ [] else x ∷ []

unfoldable pub to_tcp : Env → Src → ℕ → Bridge → Bridge
to_tcp e src x b =
    if not (is_tcp src) && is_some b.client && e.takes (escaped b.telnet_mode x)
    then record b {
      wires = record b.wires { tcp_out = b.wires.tcp_out ++ escaped b.telnet_mode x };
    }
    else b

unfoldable pub to_uart : Src → ℕ → Bridge → Bridge
to_uart src x b =
    if not (is_uart src)
    then record b { wires = record b.wires { uart_out = b.wires.uart_out ++ x ∷ [] } }
    else b

unfoldable pub fan_out : Env → Src → ℕ → Bridge → Bridge
fan_out e src x b = to_uart src x (to_tcp e src x (to_cdc e src x b))

-- The loops of `serial_bridge_task`, each with the budget that is left; the moment of a round is
-- named by it.
module _ (env : ℕ → Env) where
  unfoldable pub pump_uart : ℕ → List ℕ → Bridge → Bridge
  pump_uart zero input b = record b { wires = record b.wires { uart_in = input } }
  pump_uart (suc n) [] b = record b { wires = record b.wires { uart_in = [] } }
  pump_uart (suc n) (x ∷ input) b =
      let rest = pump_uart n input (fan_out (env n) src_uart x b) in
      if sinks_ready (env n) src_uart b
      then rest
      else record b { wires = record b.wires { uart_in = x ∷ input } }

  unfoldable pub pump_cdc : ℕ → List ℕ → Bridge → Bridge
  pump_cdc zero input b = record b { wires = record b.wires { cdc_in = input } }
  pump_cdc (suc n) [] b = record b { wires = record b.wires { cdc_in = [] } }
  pump_cdc (suc n) (x ∷ input) b =
      let rest = pump_cdc n input (fan_out (env n) src_cdc x b) in
      if sinks_ready (env n) src_cdc b
      then rest
      else record b { wires = record b.wires { cdc_in = x ∷ input } }

-- `fan_out` of the data that the telnet layer returns.
unfoldable pub fan_out_data : Env → Bridge × Option ℕ → Bridge
fan_out_data e (b, none) = b
fan_out_data e (b, some x) = fan_out e src_tcp x b

unfoldable pub deliver : Env → ℕ → Bridge → Bridge
deliver e x b =
    if not b.telnet_mode then fan_out e src_tcp x b else fan_out_data e (tn_process e x b)

-- The next buffer of the chain, once the first is drained.
abbrev pub drained : List (List ℕ) → ℕ → List (List ℕ) × ℕ
drained [] off = ([], off)
drained (p ∷ ps) off = if off == length p then (ps, 0) else (p ∷ ps, off)

unfoldable pub step_buffer : Bridge → Bridge
step_buffer b = let r = drained b.rx b.rx_off in record b { rx = r.0; rx_off = r.1 }

-- The byte that `rx` has next.
abbrev pub rx_byte : List (List ℕ) → ℕ → ℕ
rx_byte [] off = 0
rx_byte (p ∷ ps) off = get_or p off 0

unfoldable pub pump_tcp_once : Env → Bridge → Bridge
pump_tcp_once e b =
    step_buffer (deliver e (rx_byte b.rx b.rx_off) (record b { rx_off = b.rx_off + 1 }))

-- Whether the loop goes on.
unfoldable pub can_consume : Env → Bridge → Bool
can_consume e b =
    not (is_empty b.rx)
    && not (tn_next_is_data (rx_byte b.rx b.rx_off) b && not (sinks_ready e src_tcp b))

-- The state and the count `consumed`.
unfoldable pub pump_tcp : (ℕ → Env) → ℕ → Bridge → Bridge × ℕ
pump_tcp env zero b = (b, 0)
pump_tcp env (suc n) b =
    let rest = pump_tcp env n (pump_tcp_once (env n) b) in
    if can_consume (env n) b then (rest.0, rest.1 + 1) else (b, 0)

-- `tcp_recved`, if bytes were consumed and the client is there.
unfoldable pub reopen_window : Bridge × ℕ → Bridge
reopen_window (b, consumed) =
    if ltb 0 consumed && is_some b.client then record b { recved = b.recved + consumed } else b

abbrev pub tick_byte_budget : ℕ
tick_byte_budget = 128

unfoldable pub serial_bridge_task : (Src → ℕ → Env) → Bridge → Bridge
serial_bridge_task env b =
    if is_empty b.wires.uart_in && is_empty b.wires.cdc_in && is_empty b.rx
    then b
    else (let u = pump_uart (env src_uart) tick_byte_budget b.wires.uart_in b in
        let c = pump_cdc (env src_cdc) tick_byte_budget u.wires.cdc_in u in
        reopen_window (pump_tcp (env src_tcp) tick_byte_budget c))
