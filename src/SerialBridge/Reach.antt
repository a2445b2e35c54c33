-- ===== src/SerialBridge/Reach.antt =====
-- Every state of the party line of src/serial_bridge.c is sound, whatever the endpoints answer.
use molewire.Base.{
  ℕ, ◌≡◌, refl, arith, Bool, true, false, not, Bool-cases, inl, inr, Option, none, some, List, [],
  ◌∷◌, ◌++◌, ltb, ◌&&◌, ◌||◌,
}
use molewire.SerialBridge.State.{t_data, Bridge, Env}
use molewire.SerialBridge.Telnet.{is_some}
use molewire.SerialBridge.Line.{Src, serial_bridge_task, is_empty}
use molewire.SerialBridge.Tcp.{
  forget_client, is_client, bridge_recv, bridge_err, bridge_accept, Err, err_val, err_abrt,
  serial_bridge_init, serial_bridge_apply_coding,
}
use molewire.SerialBridge.Pump.{IsChain, AllFilled, AllFilled-IsChain}
use molewire.SerialBridge.Invariant.{if_keeps}
use molewire.SerialBridge.Settled.{IsSettled, serial_bridge_task-IsSettled}

forget_client-IsSettled : (b : Bridge) → IsSettled b → IsSettled (forget_client b)
unfolding forget_client
forget_client-IsSettled b h = record {
  chain = tt;
  layered = record {
    buffered = h.layered.buffered;
    tuned = (let t = h.layered.tuned in ground arith);
  };
  at_rest = λ w. record {
    rx = refl;
    telnet_mode = refl;
    tn_state = refl;
    comport_active = refl;
    dtr_pin = refl;
    rts_pin = refl;
  };
}

is_client-some : (pcb : ℕ) (c : Option ℕ) → is_client pcb c ≡ true → is_some c ≡ true
is_client-some pcb none h = h
is_client-some pcb (some c) h = refl

AllFilled-append : (ps qs : List (List ℕ)) → AllFilled ps → AllFilled qs → AllFilled (ps ++ qs)
AllFilled-append [] qs h k = k
AllFilled-append (p ∷ ps) qs h k = (h.0, AllFilled-append ps qs h.1 k)

IsChain-append :
    (ps qs : List (List ℕ)) (off : ℕ)
    → is_empty ps ≡ false
    → IsChain ps off
    → AllFilled qs
    → IsChain (ps ++ qs) off
IsChain-append [] qs off e h k = absurd (ground arith)
IsChain-append (p ∷ ps) qs off e h k = (h.0, AllFilled-append ps qs h.1 k)

-- With a client, any chain that is sound may be held.
held-IsSettled :
    (b : Bridge) (chunks : List (List ℕ)) (off : ℕ)
    → is_some b.client ≡ true
    → IsChain chunks off
    → IsSettled b
    → IsSettled (record b { rx = chunks; rx_off = off })
held-IsSettled b chunks off who c h = record {
  chain = c;
  layered = record { buffered = h.layered.buffered; tuned = h.layered.tuned };
  at_rest = λ w. cc;
}

bridge_close-IsSettled : (pcb : ℕ) (b : Bridge) → IsSettled b → IsSettled (bridge_recv pcb none b).0
unfolding bridge_recv
bridge_close-IsSettled pcb b h = elim (Bool-cases (is_client pcb b.client)) [
  | inl same ↦ rw same (forget_client-IsSettled b h)
  | inr other ↦ rw other h
]

bridge_recv-IsSettled :
    (pcb : ℕ) (chunks : List (List ℕ)) (b : Bridge)
    → AllFilled chunks
    → IsSettled b
    → IsSettled (bridge_recv pcb (some chunks) b).0
unfolding bridge_recv
bridge_recv-IsSettled pcb chunks b f h = elim (Bool-cases (is_client pcb b.client)) [
  | inr other ↦ rw other h
  | inl same ↦
      let who = is_client-some pcb b.client same in
      elim (Bool-cases (is_empty b.rx)) [
        | inl first ↦
            rw (same, first) (held-IsSettled b chunks 0 who (AllFilled-IsChain chunks f) h)
        | inr more ↦
            rw (same, more)
              (held-IsSettled b (b.rx ++ chunks) b.rx_off who
                (IsChain-append b.rx chunks b.rx_off more h.chain f) h)
      ]
]

bridge_accept-IsSettled :
    (telnet : Bool) (pcb : Option ℕ) (ok from_usb from_wg : Bool) (b : Bridge)
    → IsSettled b
    → IsSettled (bridge_accept telnet pcb ok from_usb from_wg b).0
unfolding bridge_accept
bridge_accept-IsSettled telnet none ok from_usb from_wg b h = h
bridge_accept-IsSettled telnet (some pcb) ok from_usb from_wg b h =
    let served : IsSettled (record b {
      client = some pcb;
      telnet_mode = telnet;
      tn = record b.tn { comport_active = false; tn_state = t_data };
    }) =
      record {
        chain = h.chain;
        layered = record { buffered = h.layered.buffered; tuned = h.layered.tuned };
        at_rest = λ w. cc;
      } in
    let sound = λ (r : Bridge × Err). IsSettled r.0 in
    if_keeps sound (not ok) {x = (b, err_val)} h (
      if_keeps sound (not from_usb && not from_wg) {x = (b, err_abrt)} h
        (if_keeps sound (is_some b.client) {x = (b, err_abrt)} h served))

serial_bridge_apply_coding-IsSettled :
    (rate bits parity stop : ℕ) (b : Bridge)
    → IsSettled b
    → IsSettled (serial_bridge_apply_coding rate bits parity stop b)
unfolding serial_bridge_apply_coding
serial_bridge_apply_coding-IsSettled rate bits parity stop b h =
    elim (Bool-cases (ltb rate 300 || ltb 1500000 rate)) [
      | inl out ↦ rw out h
      | inr in_range ↦ rw in_range (record {
        chain = h.chain;
        layered = record { buffered = h.layered.buffered; tuned = ground arith };
        at_rest = λ w.
            (let r = h.at_rest w in
              record {
                rx = r.rx;
                telnet_mode = r.telnet_mode;
                tn_state = r.tn_state;
                comport_active = r.comport_active;
                dtr_pin = r.dtr_pin;
                rts_pin = r.rts_pin;
              });
      })
    ]

-- The calls and events, in any order: bytes come in, lwIP calls back, the host sets its line coding,
-- the main loop runs the task.
pub data Step (b : Bridge) : Bridge → Type 0 where
  arrive :
      (us cs : List ℕ)
      → Step b (record b {
        wires = record b.wires { uart_in = b.wires.uart_in ++ us; cdc_in = b.wires.cdc_in ++ cs };
      })
  accept :
      (telnet : Bool) (pcb : Option ℕ) (ok from_usb from_wg : Bool)
      → Step b (bridge_accept telnet pcb ok from_usb from_wg b).0
  recv :
      (pcb : ℕ) (chunks : List (List ℕ))
      → AllFilled chunks
      → Step b (bridge_recv pcb (some chunks) b).0
  close : (pcb : ℕ) → Step b (bridge_recv pcb none b).0
  fail : Step b (bridge_err b)
  coding : (rate bits parity stop : ℕ) → Step b (serial_bridge_apply_coding rate bits parity stop b)
  task : (env : Src → ℕ → Env) → Step b (serial_bridge_task env b)

pub data Reachable : Bridge → Type 0 where
  start : Reachable serial_bridge_init
  next : {b c : Bridge} → Reachable b → Step b c → Reachable c

Step-IsSettled : {b c : Bridge} → Step b c → IsSettled b → IsSettled c
unfolding bridge_err
Step-IsSettled {b} (arrive us cs) h = record {
  chain = h.chain;
  layered = record { buffered = h.layered.buffered; tuned = h.layered.tuned };
  at_rest = λ w.
      (let r = h.at_rest w in
        record {
          rx = r.rx;
          telnet_mode = r.telnet_mode;
          tn_state = r.tn_state;
          comport_active = r.comport_active;
          dtr_pin = r.dtr_pin;
          rts_pin = r.rts_pin;
        });
}
Step-IsSettled {b} (accept telnet pcb ok from_usb from_wg) h =
    bridge_accept-IsSettled telnet pcb ok from_usb from_wg b h
Step-IsSettled {b} (recv pcb chunks f) h = bridge_recv-IsSettled pcb chunks b f h
Step-IsSettled {b} (close pcb) h = bridge_close-IsSettled pcb b h
Step-IsSettled {b} fail h = forget_client-IsSettled b h
Step-IsSettled {b} (coding rate bits parity stop) h =
    serial_bridge_apply_coding-IsSettled rate bits parity stop b h
Step-IsSettled {b} (task env) h = serial_bridge_task-IsSettled env b h

serial_bridge_init-IsSettled : IsSettled serial_bridge_init
unfolding serial_bridge_init
serial_bridge_init-IsSettled = record {
  chain = tt;
  layered = record { buffered = omega arith; tuned = ground arith };
  at_rest = λ w. ground arith;
}

-- In every state that the line reaches, if no buffer that comes in is empty: the place in the held
-- chain is in its first buffer, no buffer being empty; the buffer of subnegotiations holds 24 bytes
-- at most; rate and format are in the hardware's range and the hardware has them; with no client
-- nothing is held, the telnet layer is off and awaits data, and both reset lines are released.
pub Reachable-IsSettled : {b : Bridge} → Reachable b → IsSettled b
Reachable-IsSettled start = serial_bridge_init-IsSettled
Reachable-IsSettled (next r s) = Step-IsSettled s (Reachable-IsSettled r)
