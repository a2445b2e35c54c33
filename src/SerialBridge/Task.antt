-- ===== src/SerialBridge/Task.antt =====
-- One call of `serial_bridge_task` in src/serial_bridge.c.
use molewire.Base.{
  ℕ, ◌+◌, ◌≤◌, ◌≡◌, refl, sym, ap, ap₂, subst, ◌∙◌, arith, Bool-cases, ◌&&◌, inl, inr, List, [],
  ◌++◌, length, if◌then◌else◌,
}
use mathlib.Core.List.{append-nil, append_assoc}
use molewire.SerialBridge.State.{Bridge, Env}
use molewire.SerialBridge.Telnet.{is_some}
use molewire.SerialBridge.Line.{
  src_uart, src_cdc, src_tcp, Src, is_empty, pump_uart, pump_cdc, pump_tcp, reopen_window,
  serial_bridge_task, tick_byte_budget,
}
use molewire.SerialBridge.Delivery.{line_data, line_state, line_data-nil, line_state-nil}
use molewire.SerialBridge.Pump.{IsChain, pending, Pumped, pump_tcp-Pumped}
use molewire.SerialBridge.Moves.{Moved, pump_uart-Moved, pump_cdc-Moved}

-- What a call did: the bytes that it took from each endpoint, the host's and the client's data
-- written to the UART in that order, and the window opened again for what the client sent.
pub record Delivered (b c : Bridge) : Type 0 where
  pub from_uart : List ℕ
  pub from_host : List ℕ
  pub from_client : List ℕ
  pub uart_split : b.wires.uart_in ≡ from_uart ++ c.wires.uart_in
  pub host_split : b.wires.cdc_in ≡ from_host ++ c.wires.cdc_in
  pub client_split : pending b.rx b.rx_off ≡ from_client ++ pending c.rx c.rx_off
  pub budgets :
      (length from_uart ≤ tick_byte_budget)
      × (length from_host ≤ tick_byte_budget)
      × (length from_client ≤ tick_byte_budget)
  pub uart_out :
      c.wires.uart_out
      ≡ b.wires.uart_out ++ (from_host ++ line_data b.telnet_mode b.tn.tn_state from_client)
  pub tn_state : c.tn.tn_state ≡ line_state b.telnet_mode b.tn.tn_state from_client
  pub window : c.recved ≡ b.recved + (if is_some b.client then length from_client else 0)
  pub client : c.client ≡ b.client
  pub telnet_mode : c.telnet_mode ≡ b.telnet_mode
  pub chain : IsChain c.rx c.rx_off

Delivered-none : (b : Bridge) → IsChain b.rx b.rx_off → Delivered b b
Delivered-none b h = record {
  from_uart = [];
  from_host = [];
  from_client = [];
  uart_split = refl;
  host_split = refl;
  client_split = refl;
  budgets = omega arith;
  uart_out =
      sym (append-nil b.wires.uart_out)
      ∙ ap (λ t. b.wires.uart_out ++ t) (line_data-nil b.telnet_mode b.tn.tn_state);
  tn_state = line_state-nil b.telnet_mode b.tn.tn_state;
  window = ground arith;
  client = refl;
  telnet_mode = refl;
  chain = h;
}

reopen_window-recved :
    (b : Bridge) (n : ℕ)
    → (reopen_window (b, n)).recved ≡ b.recved + (if is_some b.client then n else 0)
unfolding reopen_window
reopen_window-recved b n = ground arith

-- `reopen_window` has no effect but on the window.
reopen_window-rest : (b : Bridge) (n : ℕ) → record (reopen_window (b, n)) { recved = b.recved } ≡ b
unfolding reopen_window
reopen_window-rest b n = ground arith

-- The loops before the client's leave the chain.
pub kept-IsChain :
    (b u c : Bridge) (us cs : List ℕ)
    → Moved src_uart b us u
    → Moved src_cdc u cs c
    → IsChain b.rx b.rx_off
    → IsChain c.rx c.rx_off
kept-IsChain b u c us cs um cm h = rw (cm.rx, cm.rx_off, um.rx, um.rx_off) h

-- The three loops one after the other.
module _ (b u c d : Bridge) (us cs xs : List ℕ) (um : Moved src_uart b us u)
    (cm : Moved src_cdc u cs c) (pm : Pumped c xs d) where
  uart_out-all :
      d.wires.uart_out ≡ b.wires.uart_out ++ (cs ++ line_data b.telnet_mode b.tn.tn_state xs)
  uart_out-all =
      let mode : c.telnet_mode ≡ b.telnet_mode = cm.telnet_mode ∙ um.telnet_mode in
      let state : c.tn.tn_state ≡ b.tn.tn_state = ap (λ t. t.tn_state) (cm.tn ∙ um.tn) in
      let quiet : u.wires.uart_out ≡ b.wires.uart_out = um.uart_out ∙ append-nil b.wires.uart_out in
      pm.passed.uart_out
      ∙ rw (cm.uart_out, quiet, mode, state)
          (append_assoc b.wires.uart_out cs (line_data b.telnet_mode b.tn.tn_state xs))

  window-all :
      (reopen_window (d, length xs)).recved ≡ b.recved + (if is_some b.client then length xs else 0)
  window-all =
      let who : d.client ≡ b.client = pm.passed.client ∙ cm.client ∙ um.client in
      let sum : d.recved ≡ b.recved = pm.passed.recved ∙ cm.recved ∙ um.recved in
      reopen_window-recved d (length xs) ∙ rw (who, sum) refl

  loops-Delivered :
      b.wires.uart_in ≡ us ++ u.wires.uart_in
      → u.wires.cdc_in ≡ b.wires.cdc_in
      → u.wires.cdc_in ≡ cs ++ c.wires.cdc_in
      → c.wires.uart_in ≡ u.wires.uart_in
      → (length us ≤ tick_byte_budget)
        × (length cs ≤ tick_byte_budget)
        × (length xs ≤ tick_byte_budget)
      → Delivered b (reopen_window (d, length xs))
  loops-Delivered usplit ucdc csplit cuart few =
      let rest = reopen_window-rest d (length xs) in
      let mode : c.telnet_mode ≡ b.telnet_mode = cm.telnet_mode ∙ um.telnet_mode in
      let state : c.tn.tn_state ≡ b.tn.tn_state = ap (λ t. t.tn_state) (cm.tn ∙ um.tn) in
      record {
        from_uart = us;
        from_host = cs;
        from_client = xs;
        uart_split =
            usplit
            ∙ ap (λ t. us ++ t) (sym (ap (λ t. t.wires.uart_in) rest ∙ pm.passed.uart_in ∙ cuart));
        host_split =
            sym ucdc
            ∙ csplit
            ∙ ap (λ t. cs ++ t) (sym (ap (λ t. t.wires.cdc_in) rest ∙ pm.passed.cdc_in));
        client_split =
            ap₂ pending (sym (cm.rx ∙ um.rx)) (sym (cm.rx_off ∙ um.rx_off))
            ∙ pm.taken
            ∙ ap (λ t. xs ++ pending t.rx t.rx_off) (sym rest);
        budgets = few;
        uart_out = ap (λ t. t.wires.uart_out) rest ∙ uart_out-all;
        tn_state = ap (λ t. t.tn.tn_state) rest ∙ pm.passed.tn_state ∙ rw (mode, state) refl;
        window = window-all;
        client = ap (λ t. t.client) rest ∙ pm.passed.client ∙ cm.client ∙ um.client;
        telnet_mode = ap (λ t. t.telnet_mode) rest ∙ pm.passed.telnet_mode ∙ mode;
        chain = subst (λ t. IsChain t.rx t.rx_off) (sym rest) pm.chain;
      }

-- Of a chain of filled buffers, a call of `serial_bridge_task` delivers what it takes: at most 128
-- bytes of each endpoint, from the front and in order; the UART gets the host's bytes and then the
-- data of the client's, which in telnet mode is what the framing says, whatever the endpoints answer.
pub serial_bridge_task-Delivered :
    (env : Src → ℕ → Env) (b : Bridge)
    → IsChain b.rx b.rx_off
    → Delivered b (serial_bridge_task env b)
unfolding serial_bridge_task
serial_bridge_task-Delivered env b h =
    let u = pump_uart (env src_uart) tick_byte_budget b.wires.uart_in b in
    let c = pump_cdc (env src_cdc) tick_byte_budget u.wires.cdc_in u in
    let p = pump_tcp (env src_tcp) tick_byte_budget c in
    let (us, um, usplit, ucdc, ufew) =
      pump_uart-Moved (env src_uart) tick_byte_budget b.wires.uart_in b in
    let (cs, cm, csplit, cuart, cfew) =
      pump_cdc-Moved (env src_cdc) tick_byte_budget u.wires.cdc_in u in
    let chained = kept-IsChain b u c us cs um cm h in
    let (xs, pm, count, xfew) = pump_tcp-Pumped (env src_tcp) tick_byte_budget c chained in
    let all =
      loops-Delivered b u c p.0 us cs xs um cm pm usplit ucdc csplit cuart (ufew, cfew, xfew) in
    elim (Bool-cases (is_empty b.wires.uart_in && is_empty b.wires.cdc_in && is_empty b.rx)) [
      | inl idle ↦ rw idle (Delivered-none b h)
      | inr busy ↦ rw busy (subst (λ n. Delivered b (reopen_window (p.0, n))) count all)
    ]
