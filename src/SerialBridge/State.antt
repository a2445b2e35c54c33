-- ===== src/SerialBridge/State.antt =====
-- The static data of src/serial_bridge.c with the hardware and the streams that it works on.
use molewire.Base.{ℕ, Bool, Option, List}

pub data TnState : Type 0 where
  t_data t_iac t_verb t_sb t_sb_iac : TnState

-- `sb_buf` holds the `sb_len` bytes that are collected.
pub record Telnet : Type 0 where
  pub tn_state : TnState
  pub tn_verb : ℕ
  pub sb_buf : List ℕ
  pub comport_active : Bool

pub data Parity : Type 0 where
  parity_none parity_even parity_odd : Parity

-- What the last calls of `uart_set_baudrate` and `uart_set_format` set.
pub record Uart : Type 0 where
  pub baud : ℕ
  pub databits : ℕ
  pub stop : ℕ
  pub parity : Parity

-- `uart` is the hardware's; a pin is low when its line is asserted.
pub record Port : Type 0 where
  pub cur_baud : ℕ
  pub cur_databits : ℕ
  pub cur_stop : ℕ
  pub cur_parity : Parity
  pub uart : Uart
  pub dtr_pin : ℕ
  pub rts_pin : ℕ

-- What has come in and is not read yet, and all that was written.
pub record Wires : Type 0 where
  pub uart_in : List ℕ
  pub cdc_in : List ℕ
  pub uart_out : List ℕ
  pub cdc_out : List ℕ
  pub tcp_out : List ℕ

-- A control block is a number, a chain of buffers the list of their payloads. `recved` is the sum of
-- what was given to `tcp_recved`.
pub record Bridge : Type 0 where
  pub client : Option ℕ
  pub rx : List (List ℕ)
  pub rx_off : ℕ
  pub telnet_mode : Bool
  pub tn : Telnet
  pub port : Port
  pub wires : Wires
  pub recved : ℕ

-- What the endpoints answer at one moment; `takes` is whether `tcp_write` takes those bytes.
pub record Env : Type 0 where
  pub host_open : Bool
  pub host_room : ℕ
  pub sndbuf : ℕ
  pub uart_writable : Bool
  pub takes : List ℕ → Bool
