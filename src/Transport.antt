-- ===== src/Transport.antt =====
-- `SerialTransport` of serial_transport.hpp and serial_transport.cpp, over LibSerial and a subclass
-- that are parameters. Times are nanoseconds of the steady clock; within one call of `Read` the
-- clock stands still. `received_message_count_` is an `int` that the code never reads but to log.
pub mod Serial
pub mod Read
pub mod Session
pub mod Ack
pub mod Recorded
use my_diffbot.Common.{
  ℕ, zero, suc, ◌+◌, ◌-◌, ◌*◌, ◌/◌, ◌%◌, ◌^◌, List, [], ◌∷◌, ◌++◌, Bool, true, false, not, ◌&&◌,
  Option, none, some, u32, ◌==◌, ltb, leb, if◌then◌else◌, length, take, drop, get_or, min,
}
use my_diffbot.Protocol.MsgId
use my_diffbot.Protocol.AckStatus
use my_diffbot.Protocol.AckStatus.{AckStatus}
use my_diffbot.Protocol.Frame.{
  build_frame, Extraction, extract_frame, ExtractResult, ok, incomplete, crc_mismatch,
  no_start_byte, overflow,
}
use Serial.{
  SerialPort, Shared, Hook, BaudRate, baud_1200, baud_1800, baud_2400, baud_4800, baud_9600,
  baud_19200, baud_38400, baud_57600, baud_115200, baud_230400,
}

-- What the dispatch of frames writes to.
pub record Link (H : Type 0) : Type 0 where
  pub received_message_count : ℕ
  pub crc_error_count : ℕ
  pub ack_received : Bool
  pub pending_ack_msg_id : ℕ
  pub pending_ack_status : AckStatus
  pub shared : Shared H
  pub open shared use *

pub record Transport (D H : Type 0) : Type 0 where
  pub device : D
  pub rx_buffer : List ℕ
  pub port : List ℕ
  pub baud_rate : ℕ
  pub read_timeout_ms : ℕ
  pub configured : Bool
  pub firmware_version : ℕ
  pub link : Link H
  pub open link use *

pub convert_baud_rate : ℕ → BaudRate
convert_baud_rate r =
    if r == 1200
    then baud_1200
    else if r == 1800
    then baud_1800
    else if r == 2400
    then baud_2400
    else if r == 4800
    then baud_4800
    else if r == 9600
    then baud_9600
    else if r == 19200
    then baud_19200
    else if r == 38400
    then baud_38400
    else if r == 57600
    then baud_57600
    else if r == 115200
    then baud_115200
    else if r == 230400
    then baud_230400
    else baud_57600

-- An ACK frame is noted for `wait_for_ack`.
pub intercept_ack : {H : Type 0} → ℕ → List ℕ → Link H → Link H
intercept_ack msg_id payload l =
    if msg_id == MsgId.ack && leb 10 (length payload)
    then record l {
      pending_ack_msg_id = get_or payload 8 0;
      pending_ack_status = get_or payload 9 0;
      ack_received = true;
    }
    else l

-- The branch of `ExtractFrames` for a valid frame.
unfoldable pub dispatch : {H : Type 0} → Hook H → ℕ → ℕ → List ℕ → Link H → Link H
unfolding intercept_ack
dispatch on_message now msg_id payload l =
    let counted = record l { received_message_count = l.received_message_count + 1 } in
    let noted = intercept_ack msg_id payload counted in
    record noted { shared = on_message now msg_id payload noted.shared }

-- The branch for a corrupt frame.
unfoldable pub count_crc_error : {H : Type 0} → Link H → Link H
count_crc_error l = record l { crc_error_count = u32 (l.crc_error_count + 1) }
