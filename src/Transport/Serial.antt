-- ===== src/Transport/Serial.antt =====
-- What `SerialTransport` uses of LibSerial and of its subclass: parameters of the model.
use my_diffbot.Common.{ℕ, List, Bool, Option}

-- `LibSerial::BaudRate`, the values that `ConvertBaudRate` returns.
pub data BaudRate : Type 0 where
  baud_1200 baud_1800 baud_2400 baud_4800 baud_9600 baud_19200 baud_38400 baud_57600 : BaudRate
  baud_115200 baud_230400 : BaudRate

-- `LibSerial::SerialPort`. A call returns what became of the device, which includes all that the
-- outside world will still send. `false` or `none` is an exception.
pub record SerialPort : Type 1 where
  pub Device : Type 0
  pub is_open : Device → Bool
  pub open_port : List ℕ → Device → Bool × Device
  pub set_baud_rate : BaudRate → Device → Bool × Device
  pub flush_io_buffers : Device → Bool × Device
  pub close_port : Device → Device
  pub bytes_available : Device → Option ℕ × Device
  pub read_bytes : ℕ → ℕ → Device → Option (List ℕ) × Device
  pub write_bytes : List ℕ → Device → Bool × Device

-- The protected members that a subclass writes to, with the subclass's own state.
pub record Shared (H : Type 0) : Type 0 where
  pub last_heartbeat_time : ℕ
  pub state : H

-- `OnMessageReceived`, with the reading of the steady clock at that moment.
abbrev pub Hook : Type 0 → Type 0
Hook H = ℕ → ℕ → List ℕ → Shared H → Shared H
