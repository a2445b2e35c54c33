-- ===== src/SerialBridge/Drain.antt =====
-- What a call of `serial_bridge_task` in src/serial_bridge.c takes where the endpoints are ready.
use molewire.Base.{
  ℕ, zero, suc, ◌≤◌, ◌<◌, ◌≡◌, ◌⊎◌, refl, sym, ap, ap₂, ◌∙◌, arith, true, Bool-cases, ◌&&◌, inl,
  inr, List, [], ◌∷◌, ◌++◌, length, length-append, drop,
}
use molewire.SerialBridge.State.{Bridge, Env}
use molewire.SerialBridge.Line.{
  src_uart, src_cdc, src_tcp, Src, is_empty, fan_out, sinks_ready, pump_uart, pump_cdc,
  pump_tcp_once, can_consume, pump_tcp, reopen_window, serial_bridge_task, tick_byte_budget,
}
use molewire.SerialBridge.Pump.{IsChain, pending, pump_tcp-Pumped}
use molewire.SerialBridge.Task.{kept-IsChain}
use molewire.SerialBridge.Moves.{pump_uart-Moved, pump_cdc-Moved}

-- Every endpoint takes what is written.
pub record IsReady (e : Env) : Type 0 where
  pub writable : e.uart_writable ≡ true
  pub host_room : 0 < e.host_room
  pub sndbuf : 2 ≤ e.sndbuf

sinks_ready-ready : (e : Env) (src : Src) (b : Bridge) → IsReady e → sinks_ready e src b ≡ true
unfolding sinks_ready
sinks_ready-ready e src b h =
    let w = h.writable in let r = h.host_room in let s = h.sndbuf in ground arith

drop-nil : (n : ℕ) → ◌≡◌ {A = List ℕ} (drop n []) []
drop-nil zero = refl
drop-nil (suc n) = refl

drop-short : (n : ℕ) (xs : List ℕ) → length xs ≤ n → drop n xs ≡ []
drop-short n [] h = drop-nil n
drop-short zero (x ∷ xs) h = absurd (omega arith)
drop-short (suc n) (x ∷ xs) h = drop-short n xs (omega arith)

drop-append : (n : ℕ) (xs ys : List ℕ) → length xs ≡ n → drop n (xs ++ ys) ≡ ys
drop-append zero [] ys h = refl
drop-append zero (x ∷ xs) ys h = absurd (omega arith)
drop-append (suc n) [] ys h = absurd (omega arith)
drop-append (suc n) (x ∷ xs) ys h = drop-append n xs ys (omega arith)

pending-empty : (rx : List (List ℕ)) (off : ℕ) → is_empty rx ≡ true → pending rx off ≡ []
pending-empty [] off h = refl
pending-empty (p ∷ ps) off h = absurd (ground arith)

drop-empty : (n : ℕ) (xs : List ℕ) → is_empty xs ≡ true → xs ≡ drop n xs
drop-empty n [] h = sym (drop-nil n)
drop-empty n (x ∷ xs) h = absurd (ground arith)

-- What is left where a front part is taken: as much as the budget allows, or all.
left_over :
    (n : ℕ) (all xs rest : List ℕ)
    → all ≡ xs ++ rest
    → length xs ≤ n
    → (length xs ≡ n) ⊎ (rest ≡ [])
    → rest ≡ drop n all
left_over n all xs rest p few (inl full) = sym (ap (λ t. drop n t) p ∙ drop-append n xs rest full)
left_over n all xs rest p few (inr end) =
    end
    ∙ sym (
        drop-short n all
          (let q = ap length p in omega (arith, ap length end, length-append xs rest)))

module _ (env : ℕ → Env) (ready : (n : ℕ) → IsReady (env n)) where
  pump_uart-drop :
      (n : ℕ) (input : List ℕ) (b : Bridge) → (pump_uart env n input b).wires.uart_in ≡ drop n input
  unfolding pump_uart
  pump_uart-drop zero input b = refl
  pump_uart-drop (suc n) [] b = refl
  pump_uart-drop (suc n) (x ∷ input) b =
      rw (sinks_ready-ready (env n) src_uart b (ready n))
        (pump_uart-drop n input (fan_out (env n) src_uart x b))

  pump_cdc-drop :
      (n : ℕ) (input : List ℕ) (b : Bridge) → (pump_cdc env n input b).wires.cdc_in ≡ drop n input
  unfolding pump_cdc
  pump_cdc-drop zero input b = refl
  pump_cdc-drop (suc n) [] b = refl
  pump_cdc-drop (suc n) (x ∷ input) b =
      rw (sinks_ready-ready (env n) src_cdc b (ready n))
        (pump_cdc-drop n input (fan_out (env n) src_cdc x b))

  pump_tcp-goes_on :
      (n : ℕ) (b : Bridge) → ((pump_tcp env n b).1 ≡ n) ⊎ (is_empty (pump_tcp env n b).0.rx ≡ true)
  unfolding pump_tcp can_consume
  pump_tcp-goes_on zero b = inl refl
  pump_tcp-goes_on (suc n) b = elim (Bool-cases (is_empty b.rx)) [
    | inl none_left ↦ rw none_left (inr none_left)
    | inr some_left ↦
        let r = sinks_ready-ready (env n) src_tcp b (ready n) in
        let go : can_consume (env n) b ≡ true = ground arith in
        elim (pump_tcp-goes_on n (pump_tcp_once (env n) b)) [
          | inl all ↦ rw go (inl (omega arith))
          | inr drained ↦ rw go (inr drained)
        ]
  ]

  pump_tcp-drop :
      (n : ℕ) (b : Bridge)
      → IsChain b.rx b.rx_off
      → let c = (pump_tcp env n b).0 in pending c.rx c.rx_off ≡ drop n (pending b.rx b.rx_off)
  pump_tcp-drop n b h =
      let (xs, m, count, few) = pump_tcp-Pumped env n b h in
      let c = (pump_tcp env n b).0 in
      left_over n (pending b.rx b.rx_off) xs (pending c.rx c.rx_off) m.taken few
        (elim (pump_tcp-goes_on n b) [
          | inl all ↦ inl (count ∙ all)
          | inr drained ↦ inr (pending-empty c.rx c.rx_off drained)
        ])

reopen_window-keeps :
    (d : Bridge) (n : ℕ)
    → let c = reopen_window (d, n) in (c.wires ≡ d.wires) × (c.rx ≡ d.rx) × (c.rx_off ≡ d.rx_off)
unfolding reopen_window
reopen_window-keeps d n = ground arith

-- Where every endpoint takes what is written, a call of `serial_bridge_task` takes of each just the
-- first 128 bytes, or all if there are fewer.
pub serial_bridge_task-drop :
    (env : Src → ℕ → Env) (b : Bridge)
    → ((src : Src) (n : ℕ) → IsReady (env src n))
    → IsChain b.rx b.rx_off
    → let c = serial_bridge_task env b in
      (c.wires.uart_in ≡ drop tick_byte_budget b.wires.uart_in)
      × (c.wires.cdc_in ≡ drop tick_byte_budget b.wires.cdc_in)
      × (pending c.rx c.rx_off ≡ drop tick_byte_budget (pending b.rx b.rx_off))
unfolding serial_bridge_task
serial_bridge_task-drop env b ready h =
    let u = pump_uart (env src_uart) tick_byte_budget b.wires.uart_in b in
    let c = pump_cdc (env src_cdc) tick_byte_budget u.wires.cdc_in u in
    let p = pump_tcp (env src_tcp) tick_byte_budget c in
    let (us, um, usplit, ucdc, ufew) =
      pump_uart-Moved (env src_uart) tick_byte_budget b.wires.uart_in b in
    let (cs, cm, csplit, cuart, cfew) =
      pump_cdc-Moved (env src_cdc) tick_byte_budget u.wires.cdc_in u in
    let chain = kept-IsChain b u c us cs um cm h in
    let (xs, pm, count, xfew) = pump_tcp-Pumped (env src_tcp) tick_byte_budget c chain in
    let k = reopen_window-keeps p.0 p.1 in
    elim (Bool-cases (is_empty b.wires.uart_in && is_empty b.wires.cdc_in && is_empty b.rx)) [
      | inl idle ↦ rw idle (
        drop-empty tick_byte_budget b.wires.uart_in (ground arith),
        drop-empty tick_byte_budget b.wires.cdc_in (ground arith),
        (let gone : pending b.rx b.rx_off ≡ [] = pending-empty b.rx b.rx_off (ground arith) in
            rw gone refl),
      )
      | inr busy ↦ rw busy (
        ap (λ w. w.uart_in) k.0
            ∙ pm.passed.uart_in
            ∙ cuart
            ∙ pump_uart-drop (env src_uart) (ready src_uart) tick_byte_budget b.wires.uart_in b,
        ap (λ w. w.cdc_in) k.0
            ∙ pm.passed.cdc_in
            ∙ pump_cdc-drop (env src_cdc) (ready src_cdc) tick_byte_budget u.wires.cdc_in u
            ∙ ap (λ t. drop tick_byte_budget t) ucdc,
        ap₂ pending k.1 k.2
            ∙ pump_tcp-drop (env src_tcp) (ready src_tcp) tick_byte_budget c chain
            ∙ ap (λ t. drop tick_byte_budget t)
                (ap₂ pending (cm.rx ∙ um.rx) (cm.rx_off ∙ um.rx_off)),
      )
    ]
