-- ===== src/SerialBridge/Pump.antt =====
-- The loops of `serial_bridge_task` in src/serial_bridge.c: what they move, in order and whole.
use molewire.Base.{
  ℕ, zero, suc, ◌+◌, ◌≤◌, ◌<◌, ◌≡◌, refl, sym, ap, subst, ==_iff, ◌∙◌, arith, true, false,
  Bool-cases, inl, inr, List, [], ◌∷◌, ◌++◌, length, drop, get_or, ◌==◌,
}
use molewire.SerialBridge.State.{Bridge, Env}
use molewire.SerialBridge.Line.{
  is_empty, deliver, step_buffer, drained, rx_byte, pump_tcp_once, can_consume, pump_tcp,
}
use molewire.SerialBridge.Delivery.{Passed, Passed-none, Passed-append, deliver-Passed, deliver-rx}

-- No buffer of the chain is empty.
abbrev pub AllFilled : List (List ℕ) → Type 0
AllFilled [] = Unit {0}
AllFilled (p ∷ ps) = (0 < length p) × AllFilled ps

-- The place in the chain is in its first buffer.
abbrev pub IsChain : List (List ℕ) → ℕ → Type 0
IsChain [] off = Unit {0}
IsChain (p ∷ ps) off = (off < length p) × AllFilled ps

abbrev pub flatten : List (List ℕ) → List ℕ
flatten [] = []
flatten (p ∷ ps) = p ++ flatten ps

-- The bytes of the client that are held.
abbrev pub pending : List (List ℕ) → ℕ → List ℕ
pending [] off = []
pending (p ∷ ps) off = drop off p ++ flatten ps

drop-get_or :
    (off : ℕ) (p : List ℕ) → off < length p → drop off p ≡ get_or p off 0 ∷ drop (suc off) p
drop-get_or zero [] h = absurd (omega arith)
drop-get_or (suc off) [] h = absurd (omega arith)
drop-get_or zero (x ∷ p) h = refl
drop-get_or (suc off) (x ∷ p) h = drop-get_or off p (omega arith)

drop-length : (p : List ℕ) → drop (length p) p ≡ []
drop-length [] = refl
drop-length (x ∷ p) = drop-length p

pub AllFilled-IsChain : (ps : List (List ℕ)) → AllFilled ps → IsChain ps 0
AllFilled-IsChain [] h = tt
AllFilled-IsChain (p ∷ ps) h = h

pending-flatten : (ps : List (List ℕ)) → pending ps 0 ≡ flatten ps
pending-flatten [] = refl
pending-flatten (p ∷ ps) = refl

drained_lem :
    (rx : List (List ℕ)) (off : ℕ)
    → is_empty rx ≡ false
    → IsChain rx off
    → let r = drained rx (off + 1) in
      (pending rx off ≡ rx_byte rx off ∷ pending r.0 r.1) × IsChain r.0 r.1
drained_lem [] off h c = absurd (ground arith)
drained_lem (p ∷ ps) off h c =
    let plus : suc off ≡ off + 1 = omega arith in
    let here = subst (λ k. drop off p ≡ get_or p off 0 ∷ drop k p) plus (drop-get_or off p c.0) in
    elim (Bool-cases (off + 1 == length p)) [
      | inl last ↦
          let end : off + 1 ≡ length p = (==_iff (off + 1) (length p)).0 last in
          let gone : drop (off + 1) p ≡ [] = ap (λ k. drop k p) end ∙ drop-length p in
          rw last (
            ap (λ t. t ++ flatten ps) here
                ∙ ap (λ t. get_or p off 0 ∷ t)
                    (ap (λ t. t ++ flatten ps) gone ∙ sym (pending-flatten ps)),
            AllFilled-IsChain ps c.1,
          )
      | inr more ↦ rw more (ap (λ t. t ++ flatten ps) here, (ground arith, c.1))
    ]

-- The bytes `xs` were taken from the chain and passed on.
pub record Pumped (b : Bridge) (xs : List ℕ) (c : Bridge) : Type 0 where
  pub passed : Passed b xs c
  pub taken : pending b.rx b.rx_off ≡ xs ++ pending c.rx c.rx_off
  pub chain : IsChain c.rx c.rx_off

module _ (e : Env) (b : Bridge) (h : is_empty b.rx ≡ false) (c : IsChain b.rx b.rx_off) where
  step_buffer-Pumped :
      (d : Bridge)
      → Passed b (rx_byte b.rx b.rx_off ∷ []) d
      → d.rx ≡ b.rx
      → d.rx_off ≡ b.rx_off + 1
      → Pumped b (rx_byte b.rx b.rx_off ∷ []) (step_buffer d)
  unfolding step_buffer
  step_buffer-Pumped d p same at =
      let next = drained_lem b.rx b.rx_off h c in
      record {
        passed = record {
          client = p.client;
          telnet_mode = p.telnet_mode;
          tn_state = p.tn_state;
          uart_out = p.uart_out;
          uart_in = p.uart_in;
          cdc_in = p.cdc_in;
          recved = p.recved;
        };
        taken = rw (same, at) next.0;
        chain = rw (same, at) next.1;
      }

  pump_tcp_once-Pumped : Pumped b (rx_byte b.rx b.rx_off ∷ []) (pump_tcp_once e b)
  unfolding pump_tcp_once
  pump_tcp_once-Pumped =
      let x = rx_byte b.rx b.rx_off in
      let at = record b { rx_off = b.rx_off + 1 } in
      let p = deliver-Passed e x at in
      let r = deliver-rx e x at in
      step_buffer-Pumped (deliver e x at)
        (record {
          client = p.client;
          telnet_mode = p.telnet_mode;
          tn_state = p.tn_state;
          uart_out = p.uart_out;
          uart_in = p.uart_in;
          cdc_in = p.cdc_in;
          recved = p.recved;
        })
        r.0 r.1

can_consume-filled : (e : Env) (b : Bridge) → can_consume e b ≡ true → is_empty b.rx ≡ false
unfolding can_consume
can_consume-filled e b h = ground arith

pub pump_tcp-Pumped :
    (env : ℕ → Env) (n : ℕ) (b : Bridge)
    → IsChain b.rx b.rx_off
    → (xs : List ℕ) × Pumped b xs (pump_tcp env n b).0
      × (length xs ≡ (pump_tcp env n b).1)
      × (length xs ≤ n)
unfolding pump_tcp
pump_tcp-Pumped env zero b c =
    ([], record { passed = Passed-none b; taken = refl; chain = c }, refl, omega arith)
pump_tcp-Pumped env (suc n) b c = elim (Bool-cases (can_consume (env n) b)) [
  | inr stop ↦
      rw stop ([], record { passed = Passed-none b; taken = refl; chain = c }, refl, omega arith)
  | inl go ↦
      let some_left : is_empty b.rx ≡ false = can_consume-filled (env n) b go in
      let one = pump_tcp_once-Pumped (env n) b some_left c in
      let (xs, more, count, few) = pump_tcp-Pumped env n (pump_tcp_once (env n) b) one.chain in
      rw go (
        rx_byte b.rx b.rx_off ∷ xs,
        record {
          passed =
              Passed-append b (pump_tcp_once (env n) b) (pump_tcp env n (pump_tcp_once (env n) b)).0
                (rx_byte b.rx b.rx_off ∷ []) xs one.passed more.passed;
          taken = one.taken ∙ ap (λ t. rx_byte b.rx b.rx_off ∷ t) more.taken;
          chain = more.chain;
        },
        omega (arith, count),
        omega arith,
      )
]
