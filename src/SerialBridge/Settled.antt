-- ===== src/SerialBridge/Settled.antt =====
-- What a call of `serial_bridge_task` in src/serial_bridge.c keeps.
use molewire.Base.{
  ℕ, zero, suc, ◌+◌, ◌≤◌, ◌≡◌, refl, sym, ap, subst, ◌∙◌, false, not, Bool-cases, inl, inr, Option,
  none, some, List, [], ◌∷◌, length, ltb, ◌&&◌,
}
use molewire.SerialBridge.State.{t_data, Bridge, Env}
use molewire.SerialBridge.Telnet.{is_some, tn_step, tn_process}
use molewire.SerialBridge.Line.{
  Src, src_uart, src_cdc, src_tcp, fan_out, fan_out_data, deliver, step_buffer, rx_byte,
  pump_tcp_once, can_consume, pump_tcp, pump_uart, pump_cdc, reopen_window, serial_bridge_task,
  tick_byte_budget, is_empty,
}
use molewire.SerialBridge.Pump.{IsChain, pump_tcp-Pumped}
use molewire.SerialBridge.Moves.{Moved, fan_out-Moved, pump_uart-Moved, pump_cdc-Moved}
use molewire.SerialBridge.Invariant.{IsTuned, IsLayered, tn_step-IsLayered, if_keeps}

-- With no client the line is at rest: nothing is held, the layer awaits data, the reset lines are
-- released.
pub record IsAtRest (b : Bridge) : Type 0 where
  pub rx : b.rx ≡ []
  pub telnet_mode : b.telnet_mode ≡ false
  pub tn_state : b.tn.tn_state ≡ t_data
  pub comport_active : b.tn.comport_active ≡ false
  pub dtr_pin : b.port.dtr_pin ≡ 1
  pub rts_pin : b.port.rts_pin ≡ 1

pub record IsSettled (b : Bridge) : Type 0 where
  pub chain : IsChain b.rx b.rx_off
  pub layered : IsLayered b
  pub at_rest : is_some b.client ≡ false → IsAtRest b

Moved-IsLayered :
    (src : Src) (b c : Bridge) (xs : List ℕ) → Moved src b xs c → IsLayered b → IsLayered c
Moved-IsLayered src b c xs m h = record {
  buffered = subst (λ t. length t.sb_buf ≤ 24) (sym m.tn) h.buffered;
  tuned = subst IsTuned (sym m.port) h.tuned;
}

fan_out_data-IsLayered :
    (e : Env) (b : Bridge) (o : Option ℕ) → IsLayered b → IsLayered (fan_out_data e (b, o))
unfolding fan_out_data
fan_out_data-IsLayered e b none h = h
fan_out_data-IsLayered e b (some x) h =
    Moved-IsLayered src_tcp b (fan_out e src_tcp x b) (x ∷ []) (fan_out-Moved e x b src_tcp) h

deliver-IsLayered : (e : Env) (x : ℕ) (b : Bridge) → IsLayered b → IsLayered (deliver e x b)
unfolding deliver tn_process
deliver-IsLayered e x b h =
    let r = tn_step b.tn.tn_state e x b in
    if_keeps IsLayered (not b.telnet_mode)
      (Moved-IsLayered src_tcp b (fan_out e src_tcp x b) (x ∷ []) (fan_out-Moved e x b src_tcp) h)
      (fan_out_data-IsLayered e r.0 r.1 (tn_step-IsLayered b.tn.tn_state e x b h))

pump_tcp_once-IsLayered : (e : Env) (b : Bridge) → IsLayered b → IsLayered (pump_tcp_once e b)
unfolding pump_tcp_once step_buffer
pump_tcp_once-IsLayered e b h =
    let k =
      deliver-IsLayered e (rx_byte b.rx b.rx_off) (record b { rx_off = b.rx_off + 1 })
        (record { buffered = h.buffered; tuned = h.tuned }) in
    record { buffered = k.buffered; tuned = k.tuned }

pump_tcp-IsLayered :
    (env : ℕ → Env) (n : ℕ) (b : Bridge) → IsLayered b → IsLayered (pump_tcp env n b).0
unfolding pump_tcp
pump_tcp-IsLayered env zero b h = h
pump_tcp-IsLayered env (suc n) b h =
    let rest =
      pump_tcp-IsLayered env n (pump_tcp_once (env n) b) (pump_tcp_once-IsLayered (env n) b h) in
    elim (Bool-cases (can_consume (env n) b)) [ inl go ↦ rw go rest | inr stop ↦ rw stop h ]

pump_tcp-empty : (env : ℕ → Env) (n : ℕ) (b : Bridge) → b.rx ≡ [] → pump_tcp env n b ≡ (b, 0)
unfolding pump_tcp can_consume
pump_tcp-empty env zero b h = refl
pump_tcp-empty env (suc n) b h = simp h refl

reopen_window-IsSettled : (b : Bridge) (n : ℕ) → IsSettled b → IsSettled (reopen_window (b, n))
unfolding reopen_window
reopen_window-IsSettled b n h =
    if_keeps IsSettled (ltb 0 n && is_some b.client)
      (record {
        chain = h.chain;
        layered = record { buffered = h.layered.buffered; tuned = h.layered.tuned };
        at_rest = λ w.
            (let r = h.at_rest w in
              record {
                rx = r.rx;
                telnet_mode = r.telnet_mode;
                tn_state = r.tn_state;
                comport_active = r.comport_active;
                dtr_pin = r.dtr_pin;
                rts_pin = r.rts_pin;
              });
      })
      h

Moved-IsSettled :
    (src : Src) (b c : Bridge) (xs : List ℕ) → Moved src b xs c → IsSettled b → IsSettled c
Moved-IsSettled src b c xs m h = record {
  chain = rw (m.rx, m.rx_off) h.chain;
  layered = Moved-IsLayered src b c xs m h.layered;
  at_rest = λ w.
      (let r = h.at_rest (ap is_some (sym m.client) ∙ w) in
        record {
          rx = m.rx ∙ r.rx;
          telnet_mode = m.telnet_mode ∙ r.telnet_mode;
          tn_state = ap (λ t. t.tn_state) m.tn ∙ r.tn_state;
          comport_active = ap (λ t. t.comport_active) m.tn ∙ r.comport_active;
          dtr_pin = ap (λ t. t.dtr_pin) m.port ∙ r.dtr_pin;
          rts_pin = ap (λ t. t.rts_pin) m.port ∙ r.rts_pin;
        });
}

pump_tcp-IsSettled :
    (env : ℕ → Env) (n : ℕ) (b : Bridge) → IsSettled b → IsSettled (pump_tcp env n b).0
pump_tcp-IsSettled env n b h =
    let (xs, m, count, few) = pump_tcp-Pumped env n b h.chain in
    record {
      chain = m.chain;
      layered = pump_tcp-IsLayered env n b h.layered;
      at_rest = λ w.
          (let r = h.at_rest (ap is_some (sym m.passed.client) ∙ w) in
            subst (λ p. IsAtRest p.0) (sym (pump_tcp-empty env n b r.rx)) r);
    }

pub serial_bridge_task-IsSettled :
    (env : Src → ℕ → Env) (b : Bridge) → IsSettled b → IsSettled (serial_bridge_task env b)
unfolding serial_bridge_task
serial_bridge_task-IsSettled env b h =
    let u = pump_uart (env src_uart) tick_byte_budget b.wires.uart_in b in
    let c = pump_cdc (env src_cdc) tick_byte_budget u.wires.cdc_in u in
    let p = pump_tcp (env src_tcp) tick_byte_budget c in
    let um = pump_uart-Moved (env src_uart) tick_byte_budget b.wires.uart_in b in
    let cm = pump_cdc-Moved (env src_cdc) tick_byte_budget u.wires.cdc_in u in
    let uh = Moved-IsSettled src_uart b u um.0 um.1 h in
    let ch = Moved-IsSettled src_cdc u c cm.0 cm.1 uh in
    if_keeps IsSettled (is_empty b.wires.uart_in && is_empty b.wires.cdc_in && is_empty b.rx) h
      (reopen_window-IsSettled p.0 p.1 (pump_tcp-IsSettled (env src_tcp) tick_byte_budget c ch))
