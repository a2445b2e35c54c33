-- ===== src/SerialBridge/Tests.antt =====
-- The party line of src/serial_bridge.c with a telnet client.
use molewire.Base.{
  ℕ, ◌≤◌, ◌≡◌, refl, arith, true, false, none, some, List, [], ◌∷◌, ◌++◌, length, drop,
}
use molewire.SerialBridge.State.{t_data, parity_none, Bridge, Env}
use molewire.SerialBridge.Telnet.{
  tn_se, tn_send, ack_body, ack_frame, tn_comport_ack, set_baudrate, run_command, answer_command,
  tn_handle_sb, collect, tn_step, tn_process,
}
use molewire.SerialBridge.Line.{
  src_uart, Src, escaped, fan_out, fan_out_data, to_cdc, to_tcp, to_uart, deliver, step_buffer,
  pump_tcp_once, can_consume, tn_next_is_data, pump_tcp, pump_uart, pump_cdc, sinks_ready,
  reopen_window, serial_bridge_task, tick_byte_budget,
}
use molewire.SerialBridge.Tcp.{serial_bridge_init, bridge_accept, bridge_recv}
use molewire.SerialBridge.Framing.{receive, encode}
use molewire.SerialBridge.Subnegotiation.{opened, awaiting_end, ack_frame-parses}
use molewire.SerialBridge.Heard.{client_reads, pump_uart-reaches_all}
use molewire.SerialBridge.Task.{Delivered, serial_bridge_task-Delivered}
use molewire.SerialBridge.Settled.{IsSettled}
use molewire.SerialBridge.Reach.{start, next, accept, recv, Reachable-IsSettled}
use molewire.SerialBridge.Pump.{pending}
use molewire.SerialBridge.Drain.{serial_bridge_task-drop}

abbrev idle : Bridge
idle = record {
  client = none;
  rx = [];
  rx_off = 0;
  telnet_mode = false;
  tn = record { tn_state = t_data; tn_verb = 0; sb_buf = []; comport_active = false };
  port = record {
    cur_baud = 115200;
    cur_databits = 8;
    cur_stop = 1;
    cur_parity = parity_none;
    uart = record { baud = 115200; databits = 8; stop = 1; parity = parity_none };
    dtr_pin = 1;
    rts_pin = 1;
  };
  wires = record { uart_in = []; cdc_in = []; uart_out = []; cdc_out = []; tcp_out = [] };
  recved = 0;
}

-- The client's bytes are `H`, 0xFF doubled across two buffers, and `i`.
abbrev online : Bridge
online = record idle {
  client = some 1;
  telnet_mode = true;
  rx = (72 ∷ 255 ∷ []) ∷ (255 ∷ 105 ∷ []) ∷ [];
  wires = record {
    uart_in = 65 ∷ 255 ∷ 66 ∷ [];
    cdc_in = 67 ∷ [];
    uart_out = [];
    cdc_out = [];
    tcp_out = [];
  };
}

abbrev open_wires : Env
open_wires = record {
  host_open = true;
  host_room = 64;
  sndbuf = 1000;
  uart_writable = true;
  takes = λ frame. true;
}

abbrev always : Src → ℕ → Env
always src n = open_wires

unfoldable after : Bridge
after = serial_bridge_task always online

after-uart : after.wires.uart_out ≡ 67 ∷ 72 ∷ 255 ∷ 105 ∷ []
unfolding after serial_bridge_task pump_uart pump_cdc pump_tcp sinks_ready fan_out to_cdc to_tcp
    to_uart escaped pump_tcp_once can_consume tn_next_is_data deliver fan_out_data tn_process
    tn_step step_buffer reopen_window
after-uart = refl

after-tcp : after.wires.tcp_out ≡ 65 ∷ 255 ∷ 255 ∷ 66 ∷ 67 ∷ []
unfolding after serial_bridge_task pump_uart pump_cdc pump_tcp sinks_ready fan_out to_cdc to_tcp
    to_uart escaped pump_tcp_once can_consume tn_next_is_data deliver fan_out_data tn_process
    tn_step step_buffer reopen_window
after-tcp = refl

unfoldable asked : Bridge
asked = (receive open_wires (255 ∷ 250 ∷ 44 ∷ 1 ∷ 0 ∷ 0 ∷ 37 ∷ 128 ∷ 255 ∷ 240 ∷ []) online).0

asked-baud : asked.port.cur_baud ≡ 9600
unfolding asked receive tn_process tn_step collect tn_handle_sb run_command set_baudrate
    answer_command tn_comport_ack tn_send
asked-baud = refl

asked-answer : asked.wires.tcp_out ≡ 255 ∷ 250 ∷ 44 ∷ 101 ∷ 0 ∷ 0 ∷ 37 ∷ 128 ∷ 255 ∷ 240 ∷ []
unfolding asked receive tn_process tn_step collect tn_handle_sb run_command set_baudrate
    answer_command tn_comport_ack tn_send ack_frame ack_body
asked-answer = refl

serial_bridge_task-Delivered_example : Delivered online (serial_bridge_task always online)
serial_bridge_task-Delivered_example = serial_bridge_task-Delivered always online (omega arith)

pump_uart-reaches_all_example :
    let c = pump_uart (always src_uart) 128 (65 ∷ 255 ∷ 66 ∷ []) online in
    (bytes wire : List ℕ) × (65 ∷ 255 ∷ 66 ∷ [] ≡ bytes ++ c.wires.uart_in)
    × (c.wires.cdc_out ≡ bytes)
    × (c.wires.tcp_out ≡ wire)
    × (client_reads true open_wires idle wire ≡ bytes)
pump_uart-reaches_all_example =
    pump_uart-reaches_all (always src_uart) (λ n. refl) (λ n frame room short. refl) 128 online
      open_wires idle refl refl

Reachable-IsSettled_example :
    IsSettled
      (bridge_recv 1
        (some ((72 ∷ []) ∷ []))
        (bridge_accept true (some 1) true false true serial_bridge_init).0).0
Reachable-IsSettled_example = Reachable-IsSettled (
    next (next start (accept true (some 1) true false true))
      (recv 1 ((72 ∷ []) ∷ []) (omega arith, tt)))

ack_frame-parses_example :
    (shown rest : List ℕ) × (37 ∷ 255 ∷ [] ≡ shown ++ rest)
    × (length {A = ℕ} (37 ∷ 255 ∷ []) ≤ 9 → rest ≡ [])
    × (length (ack_frame 1 (37 ∷ 255 ∷ [])) ≤ 24)
    × (ack_frame 1 (37 ∷ 255 ∷ []) ≡ opened 101 (encode shown) ++ tn_se ∷ [])
    × (receive open_wires (opened 101 (encode shown)) idle ≡ (awaiting_end 101 shown idle, []))
ack_frame-parses_example = ack_frame-parses open_wires 1 (37 ∷ 255 ∷ []) idle refl (omega arith)

serial_bridge_task-drop_example :
    let c = serial_bridge_task always online in
    (c.wires.uart_in ≡ drop tick_byte_budget online.wires.uart_in)
    × (c.wires.cdc_in ≡ drop tick_byte_budget online.wires.cdc_in)
    × (pending c.rx c.rx_off ≡ drop tick_byte_budget (pending online.rx online.rx_off))
serial_bridge_task-drop_example =
    serial_bridge_task-drop always online
      (λ src n. record { writable = refl; host_room = omega arith; sndbuf = omega arith })
      (omega arith)
