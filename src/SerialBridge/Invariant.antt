-- ===== src/SerialBridge/Invariant.antt =====
-- What holds of the party line of src/serial_bridge.c between two calls, and that each call keeps it.
use molewire.Base.{
  ℕ, ◌≤◌, ◌≡◌, arith, Bool, true, false, Option, none, some, List, [], ◌∷◌, length, length-append,
  drop, get_or, not, ltb, leb, ◌&&◌, ◌||◌, ◌==◌, if◌then◌else◌,
}
use molewire.SerialBridge.State.{
  TnState, t_data, t_iac, t_verb, t_sb, t_sb_iac, Telnet, Port, Bridge, Env,
}
use molewire.SerialBridge.Telnet.{
  is_some, sb_max, tn_iac, tn_sb, tn_will, tn_dont, tn_do, tnopt_comport, known_option, ack_frame,
  tn_send, tn_comport_ack, answer_verb, tn_handle_verb, set_baudrate, set_datasize, set_parity,
  set_stopsize, set_control, run_command, answer_command, tn_handle_sb, collect, tn_step,
}

-- The rate and the format are in the range of the hardware, and the hardware has them.
pub record IsTuned (p : Port) : Type 0 where
  pub baud_low : 300 ≤ p.cur_baud
  pub baud_high : p.cur_baud ≤ 1500000
  pub databits_low : 5 ≤ p.cur_databits
  pub databits_high : p.cur_databits ≤ 8
  pub stop_low : 1 ≤ p.cur_stop
  pub stop_high : p.cur_stop ≤ 2
  pub baud : p.uart.baud ≡ p.cur_baud
  pub databits : p.uart.databits ≡ p.cur_databits
  pub stop : p.uart.stop ≡ p.cur_stop
  pub parity : p.uart.parity ≡ p.cur_parity

module _ (pl : List ℕ) (p : Port) (h : IsTuned p) where
  set_baudrate-IsTuned : IsTuned (set_baudrate pl p)
  unfolding set_baudrate
  set_baudrate-IsTuned = ground arith

  set_datasize-IsTuned : IsTuned (set_datasize pl p)
  unfolding set_datasize
  set_datasize-IsTuned = ground arith

  set_parity-IsTuned : IsTuned (set_parity pl p)
  unfolding set_parity
  set_parity-IsTuned = ground arith

  set_stopsize-IsTuned : IsTuned (set_stopsize pl p)
  unfolding set_stopsize
  set_stopsize-IsTuned = ground arith

set_control-IsTuned : (v : ℕ) (p : Port) → IsTuned p → IsTuned (set_control v p)
unfolding set_control
set_control-IsTuned v p h = ground arith

-- A property of both branches.
pub if_keeps {ℓ κ} :
    {A : Type ℓ} (P : A → Type κ) (t : Bool) {x y : A} → P x → P y → P (if t then x else y)
if_keeps P true h k = h
if_keeps P false h k = k

IsTuned-if :
    (t : Bool) (x y : Port × Option (List ℕ))
    → IsTuned x.0
    → IsTuned y.0
    → IsTuned (if t then x else y).0
IsTuned-if true x y h k = h
IsTuned-if false x y h k = k

run_command-IsTuned :
    (cmd : ℕ) (pl : List ℕ) (p : Port) → IsTuned p → IsTuned (run_command cmd pl p).0
unfolding run_command
run_command-IsTuned cmd pl p h = IsTuned-if (cmd == 1) _ _ (set_baudrate-IsTuned pl p h) (
    IsTuned-if (cmd == 2) _ _ (set_datasize-IsTuned pl p h) (
      IsTuned-if (cmd == 3) _ _ (set_parity-IsTuned pl p h) (
        IsTuned-if (cmd == 4) _ _ (set_stopsize-IsTuned pl p h) (
          IsTuned-if (cmd == 5) _ _
            (IsTuned-if (leb 1 (length pl)) _ _ (set_control-IsTuned (get_or pl 0 0) p h) h) h))))

-- Of the telnet layer: its buffer is not overrun, and the port is tuned.
pub record IsLayered (b : Bridge) : Type 0 where
  pub buffered : length b.tn.sb_buf ≤ sb_max
  pub tuned : IsTuned b.port

collect-fits :
    (x : ℕ) (t : Telnet) → length t.sb_buf ≤ sb_max → length (collect x t).sb_buf ≤ sb_max
unfolding collect
collect-fits x t h = let n = length-append t.sb_buf (x ∷ []) in ground arith

tn_send-IsLayered : (e : Env) (d : List ℕ) (b : Bridge) → IsLayered b → IsLayered (tn_send e d b)
unfolding tn_send
tn_send-IsLayered e d b h =
    if_keeps IsLayered (is_some b.client && e.takes d)
      (record { buffered = h.buffered; tuned = h.tuned }) h

answer_verb-IsLayered :
    (e : Env) (verb opt : ℕ) (b : Bridge) → IsLayered b → IsLayered (answer_verb e verb opt b)
unfolding answer_verb
answer_verb-IsLayered e verb opt b h =
    if_keeps IsLayered (verb == tn_will) (tn_send-IsLayered e _ b h)
      (if_keeps IsLayered (verb == tn_do) (tn_send-IsLayered e _ b h) h)

tn_handle_verb-IsLayered :
    (e : Env) (verb opt : ℕ) (b : Bridge) → IsLayered b → IsLayered (tn_handle_verb e verb opt b)
unfolding tn_handle_verb tn_comport_ack
tn_handle_verb-IsLayered e verb opt b h =
    let c = answer_verb e verb opt b in
    let k = answer_verb-IsLayered e verb opt b h in
    if_keeps IsLayered (known_option opt && opt == tnopt_comport && not c.tn.comport_active)
      (tn_send-IsLayered e (ack_frame 7 (0x30 ∷ []))
        (record c { tn = record c.tn { comport_active = true } })
        (record { buffered = k.buffered; tuned = k.tuned }))
      k

answer_command-IsLayered :
    (e : Env) (cmd : ℕ) (o : Option (List ℕ)) (b : Bridge)
    → IsLayered b
    → IsLayered (answer_command e cmd o b)
unfolding answer_command tn_comport_ack
answer_command-IsLayered e cmd none b h = h
answer_command-IsLayered e cmd (some d) b h = tn_send-IsLayered e (ack_frame cmd d) b h

tn_handle_sb-IsLayered : (e : Env) (b : Bridge) → IsLayered b → IsLayered (tn_handle_sb e b)
unfolding tn_handle_sb
tn_handle_sb-IsLayered e b h =
    let cmd = get_or b.tn.sb_buf 1 0 in
    let r = run_command cmd (drop 2 b.tn.sb_buf) b.port in
    if_keeps IsLayered (ltb (length b.tn.sb_buf) 2 || not (get_or b.tn.sb_buf 0 0 == tnopt_comport))
      h
      (answer_command-IsLayered e cmd r.1 (record b { port = r.0 })
        (record {
          buffered = h.buffered;
          tuned = run_command-IsTuned cmd (drop 2 b.tn.sb_buf) b.port h.tuned;
        }))

Layered-like :
    (b : Bridge) (t : Telnet)
    → IsLayered b
    → length t.sb_buf ≤ sb_max
    → IsLayered (record b { tn = t })
Layered-like b t h n = record { buffered = n; tuned = h.tuned }

IsLayered-if :
    (t : Bool) (x y : Bridge × Option ℕ)
    → IsLayered x.0
    → IsLayered y.0
    → IsLayered (if t then x else y).0
IsLayered-if true x y h k = h
IsLayered-if false x y h k = k

pub tn_step-IsLayered :
    (s : TnState) (e : Env) (x : ℕ) (b : Bridge) → IsLayered b → IsLayered (tn_step s e x b).0
unfolding tn_step
tn_step-IsLayered t_data e x b h =
    IsLayered-if (x == tn_iac) _ _ (Layered-like b (record b.tn { tn_state = t_iac }) h h.buffered)
      h
tn_step-IsLayered t_iac e x b h =
    let like = λ (t : Telnet) (n : length t.sb_buf ≤ sb_max). Layered-like b t h n in
    IsLayered-if (x == tn_iac) _ _ (like (record b.tn { tn_state = t_data }) h.buffered) (
      IsLayered-if (x == tn_sb) _ _
        (like (record b.tn { tn_state = t_sb; sb_buf = [] }) (omega arith))
        (IsLayered-if (leb tn_will x && leb x tn_dont) _ _
          (like (record b.tn { tn_verb = x; tn_state = t_verb }) h.buffered)
          (like (record b.tn { tn_state = t_data }) h.buffered)))
tn_step-IsLayered t_verb e x b h =
    let k = tn_handle_verb-IsLayered e b.tn.tn_verb x b h in
    record { buffered = k.buffered; tuned = k.tuned }
tn_step-IsLayered t_sb e x b h =
    IsLayered-if (x == tn_iac) _ _
      (Layered-like b (record b.tn { tn_state = t_sb_iac }) h h.buffered)
      (Layered-like b (collect x b.tn) h (collect-fits x b.tn h.buffered))
tn_step-IsLayered t_sb_iac e x b h =
    let k = tn_handle_sb-IsLayered e b h in
    IsLayered-if (x == tn_iac) _ _
      (Layered-like b (record (collect tn_iac b.tn) { tn_state = t_sb }) h
        (collect-fits tn_iac b.tn h.buffered))
      (record { buffered = k.buffered; tuned = k.tuned })
