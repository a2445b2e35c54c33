-- ===== src/SerialBridge/Tcp.antt =====
-- The TCP callbacks and the set-up of src/serial_bridge.c.
use molewire.Base.{
  ℕ, Bool, false, not, ◌&&◌, ◌||◌, Option, none, some, List, [], ◌++◌, ltb, leb, ◌==◌,
  if◌then◌else◌,
}
use molewire.SerialBridge.State.{t_data, parity_none, parity_even, parity_odd, Port, Bridge}
use molewire.SerialBridge.Telnet.{is_some, apply_format}
use molewire.SerialBridge.Line.{is_empty}

abbrev pub released : Port → Port
released p = record p { dtr_pin = 1; rts_pin = 1 }

-- The reset that `tcp_drop_client` and `bridge_err` share.
unfoldable pub forget_client : Bridge → Bridge
forget_client b = record b {
  rx = [];
  rx_off = if is_empty b.rx then b.rx_off else 0;
  port = released b.port;
  telnet_mode = false;
  tn = record b.tn { comport_active = false; tn_state = t_data };
  client = none;
}

-- What lwIP is told to do with a control block. `closed` is `tcp_close`, with `tcp_abort` where that
-- fails.
pub data Fate : Type 0 where
  kept closed aborted : Fate

unfoldable pub tcp_drop_client : Bool → Bridge → Bridge × Fate
tcp_drop_client do_abort b =
    (forget_client b, if is_some b.client then (if do_abort then aborted else closed) else kept)

-- `pcb == client`
abbrev pub is_client : ℕ → Option ℕ → Bool
is_client pcb none = false
is_client pcb (some c) = pcb == c

-- `none` for the chain is the remote's close.
unfoldable pub bridge_recv : ℕ → Option (List (List ℕ)) → Bridge → Bridge × Fate
unfolding tcp_drop_client forget_client
bridge_recv pcb none b = if is_client pcb b.client then tcp_drop_client false b else (b, closed)
bridge_recv pcb (some p) b =
    if not (is_client pcb b.client)
    then (b, kept)
    else if is_empty b.rx
    then (record b { rx = p; rx_off = 0 }, kept)
    else (record b { rx = b.rx ++ p }, kept)

unfoldable pub bridge_err : Bridge → Bridge
unfolding forget_client
bridge_err b = forget_client b

pub data Err : Type 0 where
  err_ok err_val err_abrt : Err

-- `telnet` is whether the listener's argument is set, `from_usb` and `from_wg` whether the packet's
-- interface is the USB link or the tunnel.
unfoldable pub bridge_accept : Bool → Option ℕ → Bool → Bool → Bool → Bridge → Bridge × Err
bridge_accept telnet none ok from_usb from_wg b = (b, err_val)
bridge_accept telnet (some pcb) ok from_usb from_wg b =
    if not ok
    then (b, err_val)
    else if not from_usb && not from_wg
    then (b, err_abrt)
    else if is_some b.client
    then (b, err_abrt)
    else (
      record b {
        client = some pcb;
        telnet_mode = telnet;
        tn = record b.tn { comport_active = false; tn_state = t_data };
      },
      err_ok,
    )

-- The statics at the start, and the line that `serial_bridge_init` sets up; the format of the UART is
-- that of `uart_init`.
unfoldable pub serial_bridge_init : Bridge
serial_bridge_init = record {
  client = none;
  rx = [];
  rx_off = 0;
  telnet_mode = false;
  tn = record { tn_state = t_data; tn_verb = 0; sb_buf = []; comport_active = false };
  port = record {
    cur_baud = 115200;
    cur_databits = 8;
    cur_stop = 1;
    cur_parity = parity_none;
    uart = record { baud = 115200; databits = 8; stop = 1; parity = parity_none };
    dtr_pin = 1;
    rts_pin = 1;
  };
  wires = record { uart_in = []; cdc_in = []; uart_out = []; cdc_out = []; tcp_out = [] };
  recved = 0;
}

unfoldable pub serial_bridge_apply_coding : ℕ → ℕ → ℕ → ℕ → Bridge → Bridge
unfolding apply_format
serial_bridge_apply_coding bit_rate data_bits parity stop_bits b =
    if ltb bit_rate 300 || ltb 1500000 bit_rate then b else record b {
      port = apply_format (record b.port {
        uart = record b.port.uart { baud = bit_rate };
        cur_baud = bit_rate;
        cur_parity =
            if parity == 1 then parity_odd else if parity == 2 then parity_even else parity_none;
        cur_databits = if leb 5 data_bits && leb data_bits 8 then data_bits else 8;
        cur_stop = if stop_bits == 2 then 2 else 1;
      });
    }

unfoldable pub serial_bridge_client_connected : Bridge → Bool
serial_bridge_client_connected b = is_some b.client

unfoldable pub serial_bridge_baud : Bridge → ℕ
serial_bridge_baud b = b.port.cur_baud
