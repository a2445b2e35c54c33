-- ===== src/SerialBridge/Commands.antt =====
-- A whole request for the rate of the line, through the telnet layer of src/serial_bridge.c.
use molewire.Base.{
  ℕ, ◌^◌, ◌≤◌, ◌<◌, ◌≡◌, ◌≢◌, length, refl, ap, ◌∙◌, arith, Bool, true, Bool-cases, inl, inr, List,
  [], ◌∷◌, ◌++◌, leb, ◌&&◌, if◌then◌else◌,
}
use molewire.SerialBridge.State.{t_data, Bridge, Env}
use molewire.SerialBridge.Telnet.{
  tn_iac, tn_se, is_some, to_state, baud_bytes, wanted_baud, set_baudrate, run_command,
  answer_command, tn_comport_ack, tn_send, tn_handle_sb, tn_step, tn_process, ack_frame,
}
use molewire.SerialBridge.Framing.{receive, encode}
use molewire.SerialBridge.Subnegotiation.{receive-append, opened, awaiting_end, receive-opened}

-- The bytes of a request with a payload.
abbrev pub request : ℕ → List ℕ → List ℕ
request cmd payload = opened cmd (encode payload) ++ tn_se ∷ []

wanted_baud-baud_bytes : (v : ℕ) → v < 2 ^ 32 → wanted_baud (baud_bytes v) ≡ v
wanted_baud-baud_bytes v h = omega arith

abbrev pub in_range : ℕ → Bool
in_range v = leb 300 v && leb v 1500000

receive-request :
    (e : Env) (cmd : ℕ) (payload : List ℕ) (b : Bridge)
    → b.tn.tn_state ≡ t_data
    → cmd ≢ tn_iac
    → length payload ≤ 22
    → receive e (request cmd payload) b
      ≡ (to_state t_data (tn_handle_sb e (awaiting_end cmd payload b)), [])
unfolding receive tn_process tn_step
receive-request e cmd payload b h k n =
    receive-append e (opened cmd (encode payload)) (tn_se ∷ []) b
    ∙ ap (λ q. let s = receive e (tn_se ∷ []) q.0 in (s.0, q.1 ++ s.1))
        (receive-opened e cmd payload b h k n)

-- A request for a rate of 32 bits yields no data and leaves the layer ready for data. A rate from
-- 300 to 1500000 becomes that of the line and of the hardware, any other leaves both; the answer
-- names the rate of the line then, so that a rate that is taken is echoed byte for byte.
pub set_baudrate-echo :
    (e : Env) (v : ℕ) (b : Bridge)
    → b.tn.tn_state ≡ t_data
    → v < 2 ^ 32
    → is_some b.client ≡ true
    → ((frame : List ℕ) → e.takes frame ≡ true)
    → let r = receive e (request 1 (baud_bytes v)) b in
      let rate = if in_range v then v else b.port.cur_baud in
      (r.1 ≡ [])
      × (r.0.tn.tn_state ≡ t_data)
      × (r.0.port.cur_baud ≡ rate)
      × (r.0.port.uart.baud ≡ (if in_range v then v else b.port.uart.baud))
      × (r.0.wires.tcp_out ≡ b.wires.tcp_out ++ ack_frame 1 (baud_bytes rate))
unfolding tn_handle_sb run_command answer_command tn_comport_ack tn_send set_baudrate
set_baudrate-echo e v b h k c t =
    let value = wanted_baud-baud_bytes v k in
    let asked = receive-request e 1 (baud_bytes v) b h (omega arith) (omega arith) in
    elim (Bool-cases (in_range v)) [
      | inl good ↦
          rw (asked, c, value, good, t (ack_frame 1 (baud_bytes v))) (refl, refl, refl, refl, refl)
      | inr bad ↦
          rw (asked, c, value, bad, t (ack_frame 1 (baud_bytes b.port.cur_baud)))
            (refl, refl, refl, refl, refl)
    ]
