-- ===== src/SerialBridge/Heard.antt =====
-- What the host and the client hear of the UART, through src/serial_bridge.c.
use molewire.Base.{
  ℕ, zero, suc, ◌≤◌, ◌≡◌, refl, sym, ap, ◌∙◌, arith, Bool, true, false, Bool-cases, inl, inr, List,
  [], ◌∷◌, ◌++◌, length,
}
use mathlib.Core.List.{append-nil, append_assoc}
use molewire.SerialBridge.State.{t_data, Bridge, Env}
use molewire.SerialBridge.Telnet.{is_some}
use molewire.SerialBridge.Line.{
  src_uart, escaped, fan_out, to_cdc, to_tcp, to_uart, sinks_ready, pump_uart,
}
use molewire.SerialBridge.Framing.{encode, receive, receive-encode}
use molewire.SerialBridge.Moves.{fan_out-Moved}

-- What goes to the client for bytes of data.
abbrev pub sent : Bool → List ℕ → List ℕ
sent true xs = encode xs
sent false xs = xs

sent-cons : (t : Bool) (x : ℕ) (xs : List ℕ) → sent t (x ∷ xs) ≡ escaped t x ++ sent t xs
unfolding encode escaped
sent-cons true x xs = refl
sent-cons false x xs = refl

sent-nil : (t : Bool) → sent t [] ≡ []
unfolding encode
sent-nil true = refl
sent-nil false = refl

escaped-short : (t : Bool) (x : ℕ) → length (escaped t x) ≤ 2
unfolding escaped
escaped-short t x = ground arith

fan_out-heard :
    (e : Env) (x : ℕ) (b : Bridge)
    → sinks_ready e src_uart b ≡ true
    → e.host_open ≡ true
    → is_some b.client ≡ true
    → (2 ≤ e.sndbuf → e.takes (escaped b.telnet_mode x) ≡ true)
    → ((fan_out e src_uart x b).wires.tcp_out ≡ b.wires.tcp_out ++ escaped b.telnet_mode x)
      × ((fan_out e src_uart x b).wires.cdc_out ≡ b.wires.cdc_out ++ x ∷ [])
unfolding sinks_ready fan_out to_cdc to_tcp to_uart
fan_out-heard e x b ready opened who takes = ground arith

-- What was read, and what of it the host and the client got.
pub record Heard (input : List ℕ) (b c : Bridge) : Type 0 where
  pub bytes : List ℕ
  pub split : input ≡ bytes ++ c.wires.uart_in
  pub host : c.wires.cdc_out ≡ b.wires.cdc_out ++ bytes
  pub wire : List ℕ
  pub client : c.wires.tcp_out ≡ b.wires.tcp_out ++ wire
  pub framed : wire ≡ sent b.telnet_mode bytes

Heard-none :
    (b : Bridge) (input : List ℕ)
    → Heard input b (record b { wires = record b.wires { uart_in = input } })
Heard-none b input = record {
  bytes = [];
  split = refl;
  host = sym (append-nil b.wires.cdc_out);
  wire = [];
  client = sym (append-nil b.wires.tcp_out);
  framed = sym (sent-nil b.telnet_mode);
}

-- The client's reading of what it gets: by a telnet layer that awaits data, or as it stands.
abbrev pub client_reads : Bool → Env → Bridge → List ℕ → List ℕ
client_reads true e peer wire = (receive e wire peer).1
client_reads false e peer wire = wire

client_reads-sent :
    (t : Bool) (e : Env) (peer : Bridge) (xs : List ℕ)
    → peer.tn.tn_state ≡ t_data
    → client_reads t e peer (sent t xs) ≡ xs
client_reads-sent true e peer xs h = ap (λ r. r.1) (receive-encode e xs peer h)
client_reads-sent false e peer xs h = refl

module _ (env : ℕ → Env) (open_port : (n : ℕ) → (env n).host_open ≡ true)
    (takes : (n : ℕ) (frame : List ℕ)
      → 2 ≤ (env n).sndbuf
      → length frame ≤ 2
      → (env n).takes frame ≡ true) where
  pump_uart-Heard :
      (n : ℕ) (input : List ℕ) (b : Bridge)
      → is_some b.client ≡ true
      → Heard input b (pump_uart env n input b)
  unfolding pump_uart
  pump_uart-Heard zero input b who = Heard-none b input
  pump_uart-Heard (suc n) [] b who = Heard-none b []
  pump_uart-Heard (suc n) (x ∷ input) b who = elim (Bool-cases (sinks_ready (env n) src_uart b)) [
    | inr stop ↦ rw stop (Heard-none b (x ∷ input))
    | inl go ↦
        let c = fan_out (env n) src_uart x b in
        let same = fan_out-Moved (env n) x b src_uart in
        let here =
          fan_out-heard (env n) x b go (open_port n) who
            (λ room. takes n (escaped b.telnet_mode x) room (escaped-short b.telnet_mode x)) in
        let more = pump_uart-Heard n input c (ap is_some same.client ∙ who) in
        rw go (record {
          bytes = x ∷ more.bytes;
          split = ap (λ t. x ∷ t) more.split;
          host =
              more.host
              ∙ ap (λ t. t ++ more.bytes) here.1
              ∙ (append_assoc b.wires.cdc_out (x ∷ []) more.bytes);
          wire = escaped b.telnet_mode x ++ more.wire;
          client =
              more.client
              ∙ ap (λ t. t ++ more.wire) here.0
              ∙ (append_assoc b.wires.tcp_out (escaped b.telnet_mode x) more.wire);
          framed =
              ap (λ t. escaped b.telnet_mode x ++ t)
                (more.framed ∙ ap (λ t. sent t more.bytes) same.telnet_mode)
              ∙ sym (sent-cons b.telnet_mode x more.bytes);
        })
  ]

  -- With the host's port open and a client, and a `tcp_write` that takes two bytes where there is
  -- room for them: the bytes that the pump reads of the UART are a front part of the input; the host
  -- gets just these, and what the client gets it reads, by telnet or raw, as just these.
  pub pump_uart-reaches_all :
      (n : ℕ) (b : Bridge) (e : Env) (peer : Bridge)
      → is_some b.client ≡ true
      → peer.tn.tn_state ≡ t_data
      → let c = pump_uart env n b.wires.uart_in b in
        (bytes wire : List ℕ) × (b.wires.uart_in ≡ bytes ++ c.wires.uart_in)
        × (c.wires.cdc_out ≡ b.wires.cdc_out ++ bytes)
        × (c.wires.tcp_out ≡ b.wires.tcp_out ++ wire)
        × (client_reads b.telnet_mode e peer wire ≡ bytes)
  pump_uart-reaches_all n b e peer who h =
      let r = pump_uart-Heard n b.wires.uart_in b who in
      (
        r.bytes,
        r.wire,
        r.split,
        r.host,
        r.client,
        ap (client_reads b.telnet_mode e peer) r.framed
            ∙ client_reads-sent b.telnet_mode e peer r.bytes h,
      )
