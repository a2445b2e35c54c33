-- ===== src/SerialBridge/Delivery.antt =====
-- What the pump of src/serial_bridge.c writes to the UART, against the framing of telnet by itself.
use molewire.Base.{
  ℕ, ◌≡◌, refl, sym, ap, ◌∙◌, arith, Bool, true, false, Bool-cases, ◌&&◌, inl, inr, Option, none,
  some, List, [], ◌∷◌, ◌++◌, drop, get_or, leb, ◌==◌, if◌then◌else◌,
}
use mathlib.Core.List.{append-nil, append_assoc}
use molewire.SerialBridge.State.{TnState, t_data, t_iac, t_verb, t_sb, t_sb_iac, Bridge, Env}
use molewire.SerialBridge.Telnet.{
  tn_iac, tn_sb, tn_will, tn_dont, tn_send, tn_comport_ack, answer_verb, tn_handle_verb,
  answer_command, ack_frame, run_command, tn_handle_sb, tn_step, tn_process, collect,
}
use molewire.SerialBridge.Line.{to_cdc, to_tcp, to_uart, fan_out, fan_out_data, deliver}
use molewire.SerialBridge.Framing.{prepend}

-- The state after a byte, and the byte of data that it completes, if it does.
abbrev pub next_state : TnState → ℕ → TnState
next_state t_data x = if x == tn_iac then t_iac else t_data
next_state t_iac x =
    if x == tn_iac
    then t_data
    else if x == tn_sb
    then t_sb
    else if leb tn_will x && leb x tn_dont
    then t_verb
    else t_data
next_state t_verb x = t_data
next_state t_sb x = if x == tn_iac then t_sb_iac else t_sb
next_state t_sb_iac x = if x == tn_iac then t_sb else t_data

abbrev pub data_byte : TnState → ℕ → Option ℕ
data_byte t_data x = if x == tn_iac then none else some x
data_byte t_iac x = if x == tn_iac then some x else none
data_byte _ x = none

-- The data in a stream of telnet that begins in a state.
abbrev pub telnet_data : TnState → List ℕ → List ℕ
telnet_data s [] = []
telnet_data s (x ∷ xs) = prepend (data_byte s x) (telnet_data (next_state s x) xs)

abbrev pub telnet_state : TnState → List ℕ → TnState
telnet_state s [] = s
telnet_state s (x ∷ xs) = telnet_state (next_state s x) xs

-- What the layer of telnet leaves as it is.
pub record Same (b c : Bridge) : Type 0 where
  pub client : c.client ≡ b.client
  pub rx : c.rx ≡ b.rx
  pub rx_off : c.rx_off ≡ b.rx_off
  pub telnet_mode : c.telnet_mode ≡ b.telnet_mode
  pub uart_in : c.wires.uart_in ≡ b.wires.uart_in
  pub cdc_in : c.wires.cdc_in ≡ b.wires.cdc_in
  pub uart_out : c.wires.uart_out ≡ b.wires.uart_out
  pub cdc_out : c.wires.cdc_out ≡ b.wires.cdc_out
  pub recved : c.recved ≡ b.recved

tn_send-Same : (e : Env) (d : List ℕ) (b : Bridge) → Same b (tn_send e d b)
unfolding tn_send
tn_send-Same e d b = ground arith

tn_send-tn : (e : Env) (d : List ℕ) (b : Bridge) → (tn_send e d b).tn ≡ b.tn
unfolding tn_send
tn_send-tn e d b = ground arith

tn_handle_verb-Same : (e : Env) (verb opt : ℕ) (b : Bridge) → Same b (tn_handle_verb e verb opt b)
unfolding tn_handle_verb answer_verb tn_comport_ack
tn_handle_verb-Same e verb opt b = grind (arith, tn_send-Same)

answer_command-Same :
    (e : Env) (cmd : ℕ) (o : Option (List ℕ)) (b : Bridge) → Same b (answer_command e cmd o b)
unfolding answer_command tn_comport_ack
answer_command-Same e cmd none b = ground arith
answer_command-Same e cmd (some d) b = tn_send-Same e (ack_frame cmd d) b

tn_handle_sb-Same : (e : Env) (b : Bridge) → Same b (tn_handle_sb e b)
unfolding tn_handle_sb
tn_handle_sb-Same e b =
    let cmd = get_or b.tn.sb_buf 1 0 in
    let r = run_command cmd (drop 2 b.tn.sb_buf) b.port in
    let h = answer_command-Same e cmd r.1 (record b { port = r.0 }) in ground arith

tn_step-Same : (s : TnState) (e : Env) (x : ℕ) (b : Bridge) → Same b (tn_step s e x b).0
unfolding tn_step
tn_step-Same t_data e x b = ground arith
tn_step-Same t_iac e x b = ground arith
tn_step-Same t_verb e x b = let h = tn_handle_verb-Same e b.tn.tn_verb x b in ground arith
tn_step-Same t_sb e x b = ground arith
tn_step-Same t_sb_iac e x b = let h = tn_handle_sb-Same e b in ground arith

tn_step-data :
    (s : TnState) (e : Env) (x : ℕ) (b : Bridge)
    → b.tn.tn_state ≡ s
    → ((tn_step s e x b).0.tn.tn_state ≡ next_state s x) × ((tn_step s e x b).1 ≡ data_byte s x)
unfolding tn_step collect
tn_step-data t_data e x b h = ground arith
tn_step-data t_iac e x b h = ground arith
tn_step-data t_verb e x b h = (refl, refl)
tn_step-data t_sb e x b h = ground arith
tn_step-data t_sb_iac e x b h = ground arith

-- The data of the line in bytes from the client, and the state of the layer behind them.
abbrev pub line_data : Bool → TnState → List ℕ → List ℕ
line_data true s xs = telnet_data s xs
line_data false s xs = xs

abbrev pub line_state : Bool → TnState → List ℕ → TnState
line_state true s xs = telnet_state s xs
line_state false s xs = s

line_data-append :
    (t : Bool) (s : TnState) (xs ys : List ℕ)
    → line_data t s (xs ++ ys) ≡ line_data t s xs ++ line_data t (line_state t s xs) ys
line_data-append false s xs ys = refl
line_data-append true s [] ys = refl
line_data-append true s (x ∷ xs) ys =
    prepended (data_byte s x) (telnet_data (next_state s x) (xs ++ ys))
      (telnet_data (next_state s x) xs) (telnet_data (telnet_state (next_state s x) xs) ys)
      (line_data-append true (next_state s x) xs ys)
  where
    prepended :
        (o : Option ℕ) (us vs ws : List ℕ) → us ≡ vs ++ ws → prepend o us ≡ prepend o vs ++ ws
    prepended none us vs ws h = h
    prepended (some x) us vs ws h = ap (λ t. x ∷ t) h

line_state-append :
    (t : Bool) (s : TnState) (xs ys : List ℕ)
    → line_state t s (xs ++ ys) ≡ line_state t (line_state t s xs) ys
line_state-append false s xs ys = refl
line_state-append true s [] ys = refl
line_state-append true s (x ∷ xs) ys = line_state-append true (next_state s x) xs ys

-- Between `b` and `c` the bytes `xs` of the client were passed on.
pub record Passed (b : Bridge) (xs : List ℕ) (c : Bridge) : Type 0 where
  pub client : c.client ≡ b.client
  pub telnet_mode : c.telnet_mode ≡ b.telnet_mode
  pub tn_state : c.tn.tn_state ≡ line_state b.telnet_mode b.tn.tn_state xs
  pub uart_out : c.wires.uart_out ≡ b.wires.uart_out ++ line_data b.telnet_mode b.tn.tn_state xs
  pub uart_in : c.wires.uart_in ≡ b.wires.uart_in
  pub cdc_in : c.wires.cdc_in ≡ b.wires.cdc_in
  pub recved : c.recved ≡ b.recved

pub line_state-nil : (t : Bool) (s : TnState) → s ≡ line_state t s []
line_state-nil true s = refl
line_state-nil false s = refl

pub line_data-nil : (t : Bool) (s : TnState) → [] ≡ line_data t s []
line_data-nil true s = refl
line_data-nil false s = refl

pub Passed-none : (b : Bridge) → Passed b [] b
Passed-none b = record {
  client = refl;
  telnet_mode = refl;
  tn_state = line_state-nil b.telnet_mode b.tn.tn_state;
  uart_out =
      sym (append-nil b.wires.uart_out)
      ∙ ap (λ t. b.wires.uart_out ++ t) (line_data-nil b.telnet_mode b.tn.tn_state);
  uart_in = refl;
  cdc_in = refl;
  recved = refl;
}

pub Passed-append :
    (b c d : Bridge) (xs ys : List ℕ) → Passed b xs c → Passed c ys d → Passed b (xs ++ ys) d
Passed-append b c d xs ys h k = record {
  client = k.client ∙ h.client;
  telnet_mode = k.telnet_mode ∙ h.telnet_mode;
  tn_state =
      k.tn_state
      ∙ rw (h.telnet_mode, h.tn_state) (sym (line_state-append b.telnet_mode b.tn.tn_state xs ys));
  uart_out =
      k.uart_out
      ∙ rw (h.uart_out, h.telnet_mode, h.tn_state)
          (append_assoc b.wires.uart_out (line_data b.telnet_mode b.tn.tn_state xs)
              (line_data (b.telnet_mode) (line_state b.telnet_mode b.tn.tn_state xs) ys)
            ∙ ap (λ t. b.wires.uart_out ++ t)
                (sym (line_data-append b.telnet_mode b.tn.tn_state xs ys)));
  uart_in = k.uart_in ∙ h.uart_in;
  cdc_in = k.cdc_in ∙ h.cdc_in;
  recved = k.recved ∙ h.recved;
}

-- A byte that goes to the line.
module _ (e : Env) (x : ℕ) (b : Bridge) where
  deliver-raw : b.telnet_mode ≡ false → Passed b (x ∷ []) (deliver e x b)
  unfolding deliver fan_out to_cdc to_tcp to_uart
  deliver-raw h = ground arith

  -- The data that a byte completes goes to the line.
  fan_out_data-Passed :
      (c : Bridge) (o : Option ℕ)
      → b.telnet_mode ≡ true
      → Same b c
      → c.tn.tn_state ≡ next_state b.tn.tn_state x
      → o ≡ data_byte b.tn.tn_state x
      → Passed b (x ∷ []) (fan_out_data e (c, o))
  unfolding fan_out_data fan_out to_cdc to_tcp to_uart
  fan_out_data-Passed c none h same st da = record {
    client = same.client;
    telnet_mode = same.telnet_mode;
    tn_state = rw h st;
    uart_out = rw (h, ← da) (same.uart_out ∙ sym (append-nil b.wires.uart_out));
    uart_in = same.uart_in;
    cdc_in = same.cdc_in;
    recved = same.recved;
  }
  fan_out_data-Passed c (some y) h same st da =
      let one : line_data b.telnet_mode b.tn.tn_state (x ∷ []) ≡ y ∷ [] = rw (h, ← da) refl in
      let state : line_state b.telnet_mode b.tn.tn_state (x ∷ []) ≡ next_state b.tn.tn_state x =
        rw h refl in
      ground arith

  deliver-telnet : b.telnet_mode ≡ true → Passed b (x ∷ []) (deliver e x b)
  unfolding deliver tn_process
  deliver-telnet h =
      let r = tn_step b.tn.tn_state e x b in
      let read = tn_step-data b.tn.tn_state e x b refl in
      simp h (fan_out_data-Passed r.0 r.1 h (tn_step-Same b.tn.tn_state e x b) read.0 read.1)

  pub deliver-Passed : Passed b (x ∷ []) (deliver e x b)
  deliver-Passed = elim (Bool-cases b.telnet_mode) [
    | inl h ↦ deliver-telnet h
    | inr h ↦ deliver-raw h
  ]

  fan_out_data-rx :
      (c : Bridge) (o : Option ℕ)
      → Same b c
      → ((fan_out_data e (c, o)).rx ≡ b.rx) × ((fan_out_data e (c, o)).rx_off ≡ b.rx_off)
  unfolding fan_out_data fan_out to_cdc to_tcp to_uart
  fan_out_data-rx c none same = (same.rx, same.rx_off)
  fan_out_data-rx c (some y) same = ground arith

  pub deliver-rx : ((deliver e x b).rx ≡ b.rx) × ((deliver e x b).rx_off ≡ b.rx_off)
  unfolding deliver tn_process fan_out to_cdc to_tcp to_uart
  deliver-rx =
      let r = tn_step b.tn.tn_state e x b in
      let h = fan_out_data-rx r.0 r.1 (tn_step-Same b.tn.tn_state e x b) in ground arith
