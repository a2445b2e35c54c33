-- ===== src/SerialBridge/Moves.antt =====
-- The loops of `serial_bridge_task` in src/serial_bridge.c that read the UART and the host's port.
use molewire.Base.{
  ℕ, zero, suc, ◌≤◌, ◌≡◌, refl, sym, ap, ◌∙◌, arith, Bool-cases, inl, inr, List, [], ◌∷◌, ◌++◌,
  length,
}
use mathlib.Core.List.{append-nil, append_assoc}
use molewire.SerialBridge.State.{Bridge, Env}
use molewire.SerialBridge.Line.{
  src_uart, src_cdc, src_tcp, Src, to_cdc, to_tcp, to_uart, fan_out, pump_uart, pump_cdc,
  sinks_ready,
}

-- What of the bytes from a source the UART gets.
abbrev pub for_uart : Src → List ℕ → List ℕ
for_uart src_uart xs = []
for_uart _ xs = xs

-- Between `b` and `c` the bytes `xs` of a source were fanned out.
pub record Moved (src : Src) (b : Bridge) (xs : List ℕ) (c : Bridge) : Type 0 where
  pub client : c.client ≡ b.client
  pub telnet_mode : c.telnet_mode ≡ b.telnet_mode
  pub tn : c.tn ≡ b.tn
  pub port : c.port ≡ b.port
  pub rx : c.rx ≡ b.rx
  pub rx_off : c.rx_off ≡ b.rx_off
  pub recved : c.recved ≡ b.recved
  pub uart_out : c.wires.uart_out ≡ b.wires.uart_out ++ for_uart src xs

Moved-none :
    (src : Src) (b : Bridge) (us cs : List ℕ)
    → Moved src b [] (record b { wires = record b.wires { uart_in = us; cdc_in = cs } })
Moved-none src b us cs = record {
  client = refl;
  telnet_mode = refl;
  tn = refl;
  port = refl;
  rx = refl;
  rx_off = refl;
  recved = refl;
  uart_out = nothing src;
}
  where
    nothing : (s : Src) → b.wires.uart_out ≡ b.wires.uart_out ++ for_uart s []
    nothing src_uart = sym (append-nil b.wires.uart_out)
    nothing src_cdc = sym (append-nil b.wires.uart_out)
    nothing src_tcp = sym (append-nil b.wires.uart_out)

for_uart-append :
    (src : Src) (xs ys : List ℕ) → for_uart src (xs ++ ys) ≡ for_uart src xs ++ for_uart src ys
for_uart-append src_uart xs ys = refl
for_uart-append src_cdc xs ys = refl
for_uart-append src_tcp xs ys = refl

Moved-append :
    (src : Src) (b c d : Bridge) (xs ys : List ℕ)
    → Moved src b xs c
    → Moved src c ys d
    → Moved src b (xs ++ ys) d
Moved-append src b c d xs ys h k = record {
  client = k.client ∙ h.client;
  telnet_mode = k.telnet_mode ∙ h.telnet_mode;
  tn = k.tn ∙ h.tn;
  port = k.port ∙ h.port;
  rx = k.rx ∙ h.rx;
  rx_off = k.rx_off ∙ h.rx_off;
  recved = k.recved ∙ h.recved;
  uart_out =
      k.uart_out
      ∙ rw h.uart_out (
          append_assoc b.wires.uart_out (for_uart src xs) (for_uart src ys)
          ∙ ap (λ t. b.wires.uart_out ++ t) (sym (for_uart-append src xs ys)));
}

module _ (e : Env) (x : ℕ) (b : Bridge) where
  pub fan_out-Moved : (src : Src) → Moved src b (x ∷ []) (fan_out e src x b)
  unfolding fan_out to_cdc to_tcp to_uart
  fan_out-Moved src_uart = let same = append-nil b.wires.uart_out in ground arith
  fan_out-Moved src_cdc = ground arith
  fan_out-Moved src_tcp = ground arith

  fan_out-inputs :
      (src : Src)
      → ((fan_out e src x b).wires.cdc_in ≡ b.wires.cdc_in)
        × ((fan_out e src x b).wires.uart_in ≡ b.wires.uart_in)
  unfolding fan_out to_cdc to_tcp to_uart
  fan_out-inputs src = ground arith

pub pump_uart-Moved :
    (env : ℕ → Env) (n : ℕ) (input : List ℕ) (b : Bridge)
    → let c = pump_uart env n input b in
      (xs : List ℕ) × Moved src_uart b xs c
      × (input ≡ xs ++ c.wires.uart_in)
      × (c.wires.cdc_in ≡ b.wires.cdc_in)
      × (length xs ≤ n)
unfolding pump_uart
pump_uart-Moved env zero input b =
    ([], Moved-none src_uart b input b.wires.cdc_in, refl, refl, omega arith)
pump_uart-Moved env (suc n) [] b =
    ([], Moved-none src_uart b [] b.wires.cdc_in, refl, refl, omega arith)
pump_uart-Moved env (suc n) (x ∷ input) b = elim (Bool-cases (sinks_ready (env n) src_uart b)) [
  | inr stop ↦
      rw stop ([], Moved-none src_uart b (x ∷ input) b.wires.cdc_in, refl, refl, omega arith)
  | inl go ↦
      let one = fan_out-Moved (env n) x b src_uart in
      let keeps = fan_out-inputs (env n) x b src_uart in
      let c = fan_out (env n) src_uart x b in
      let (xs, more, split, other, few) = pump_uart-Moved env n input c in
      rw go (
        x ∷ xs,
        Moved-append src_uart b c (pump_uart env n input c) (x ∷ []) xs one more,
        ap (λ t. x ∷ t) split,
        other ∙ keeps.0,
        omega arith,
      )
]

pub pump_cdc-Moved :
    (env : ℕ → Env) (n : ℕ) (input : List ℕ) (b : Bridge)
    → let c = pump_cdc env n input b in
      (xs : List ℕ) × Moved src_cdc b xs c
      × (input ≡ xs ++ c.wires.cdc_in)
      × (c.wires.uart_in ≡ b.wires.uart_in)
      × (length xs ≤ n)
unfolding pump_cdc
pump_cdc-Moved env zero input b =
    ([], Moved-none src_cdc b b.wires.uart_in input, refl, refl, omega arith)
pump_cdc-Moved env (suc n) [] b =
    ([], Moved-none src_cdc b b.wires.uart_in [], refl, refl, omega arith)
pump_cdc-Moved env (suc n) (x ∷ input) b = elim (Bool-cases (sinks_ready (env n) src_cdc b)) [
  | inr stop ↦
      rw stop ([], Moved-none src_cdc b b.wires.uart_in (x ∷ input), refl, refl, omega arith)
  | inl go ↦
      let one = fan_out-Moved (env n) x b src_cdc in
      let keeps = fan_out-inputs (env n) x b src_cdc in
      let c = fan_out (env n) src_cdc x b in
      let (xs, more, split, other, few) = pump_cdc-Moved env n input c in
      rw go (
        x ∷ xs,
        Moved-append src_cdc b c (pump_cdc env n input c) (x ∷ []) xs one more,
        ap (λ t. x ∷ t) split,
        other ∙ keeps.1,
        omega arith,
      )
]
