-- ===== src/Protocol/Payload/Received/Status.antt =====
-- ACK, PID_DEBUG and HEARTBEAT of binary_protocol.hpp.
use my_diffbot.Common.{ℕ, ◌^◌, ◌<◌, List, [], ◌∷◌, get_or}
use my_diffbot.Common.Int.{ℤ, Fits, to_bits, signed}
use my_diffbot.Common.Bytes.{Layout, pack, unpack}

-- 0xF0 - 10 bytes
pub record AckPayload : Type 0 where
  pub timestamp_sec : ℕ
  pub timestamp_nsec : ℕ
  pub ack_msg_id : ℕ
  pub status_code : ℕ

abbrev pub ack_layout : Layout
ack_layout = 4 ∷ 4 ∷ 1 ∷ 1 ∷ []

abbrev pub ack_values : AckPayload → List ℕ
ack_values p = p.timestamp_sec ∷ p.timestamp_nsec ∷ p.ack_msg_id ∷ p.status_code ∷ []

unfoldable pub ack_to_bytes : AckPayload → List ℕ
ack_to_bytes p = pack ack_layout (ack_values p)

unfoldable pub ack_of_bytes : List ℕ → AckPayload
ack_of_bytes bytes =
    let v = unpack ack_layout bytes in
    record {
      timestamp_sec = get_or v 0 0;
      timestamp_nsec = get_or v 1 0;
      ack_msg_id = get_or v 2 0;
      status_code = get_or v 3 0;
    }

-- Every field is in the range of its type.
abbrev pub AckPayloadFits : AckPayload → Type 0
AckPayloadFits p =
    (p.timestamp_sec < 2 ^ 32)
    × (p.timestamp_nsec < 2 ^ 32)
    × (p.ack_msg_id < 2 ^ 8)
    × (p.status_code < 2 ^ 8)

-- 0x13 - 52 bytes
pub record PidDebugPayload : Type 0 where
  pub timestamp_sec : ℕ
  pub timestamp_nsec : ℕ
  pub left_duty_permille : ℤ
  pub right_duty_permille : ℤ
  pub left_setpoint_milli : ℤ
  pub right_setpoint_milli : ℤ
  pub left_integral_milli : ℤ
  pub right_integral_milli : ℤ
  pub left_encoder_ticks : ℤ
  pub right_encoder_ticks : ℤ
  pub status : ℕ

abbrev pub pid_debug_layout : Layout
pid_debug_layout = 4 ∷ 4 ∷ 4 ∷ 4 ∷ 4 ∷ 4 ∷ 4 ∷ 4 ∷ 8 ∷ 8 ∷ 4 ∷ []

abbrev pub pid_debug_values : PidDebugPayload → List ℕ
pid_debug_values p =
    p.timestamp_sec
    ∷ p.timestamp_nsec
    ∷ to_bits (2 ^ 31) p.left_duty_permille
    ∷ to_bits (2 ^ 31) p.right_duty_permille
    ∷ to_bits (2 ^ 31) p.left_setpoint_milli
    ∷ to_bits (2 ^ 31) p.right_setpoint_milli
    ∷ to_bits (2 ^ 31) p.left_integral_milli
    ∷ to_bits (2 ^ 31) p.right_integral_milli
    ∷ to_bits (2 ^ 63) p.left_encoder_ticks
    ∷ to_bits (2 ^ 63) p.right_encoder_ticks
    ∷ p.status
    ∷ []

unfoldable pub pid_debug_to_bytes : PidDebugPayload → List ℕ
pid_debug_to_bytes p = pack pid_debug_layout (pid_debug_values p)

unfoldable pub pid_debug_of_bytes : List ℕ → PidDebugPayload
pid_debug_of_bytes bytes =
    let v = unpack pid_debug_layout bytes in
    record {
      timestamp_sec = get_or v 0 0;
      timestamp_nsec = get_or v 1 0;
      left_duty_permille = signed (2 ^ 31) (get_or v 2 0);
      right_duty_permille = signed (2 ^ 31) (get_or v 3 0);
      left_setpoint_milli = signed (2 ^ 31) (get_or v 4 0);
      right_setpoint_milli = signed (2 ^ 31) (get_or v 5 0);
      left_integral_milli = signed (2 ^ 31) (get_or v 6 0);
      right_integral_milli = signed (2 ^ 31) (get_or v 7 0);
      left_encoder_ticks = signed (2 ^ 63) (get_or v 8 0);
      right_encoder_ticks = signed (2 ^ 63) (get_or v 9 0);
      status = get_or v 10 0;
    }

-- Every field is in the range of its type.
abbrev pub PidDebugPayloadFits : PidDebugPayload → Type 0
PidDebugPayloadFits p =
    (p.timestamp_sec < 2 ^ 32)
    × (p.timestamp_nsec < 2 ^ 32)
    × Fits (2 ^ 31) p.left_duty_permille
    × Fits (2 ^ 31) p.right_duty_permille
    × Fits (2 ^ 31) p.left_setpoint_milli
    × Fits (2 ^ 31) p.right_setpoint_milli
    × Fits (2 ^ 31) p.left_integral_milli
    × Fits (2 ^ 31) p.right_integral_milli
    × Fits (2 ^ 63) p.left_encoder_ticks
    × Fits (2 ^ 63) p.right_encoder_ticks
    × (p.status < 2 ^ 32)

-- 0x20 - 17 bytes
pub record HeartbeatPayload : Type 0 where
  pub timestamp_sec : ℕ
  pub timestamp_nsec : ℕ
  pub uptime_sec : ℕ
  pub crc_error_count : ℕ
  pub timeout_event_count : ℕ
  pub system_status : ℕ

abbrev pub heartbeat_layout : Layout
heartbeat_layout = 4 ∷ 4 ∷ 4 ∷ 2 ∷ 2 ∷ 1 ∷ []

abbrev pub heartbeat_values : HeartbeatPayload → List ℕ
heartbeat_values p =
    p.timestamp_sec ∷ p.timestamp_nsec ∷ p.uptime_sec ∷ p.crc_error_count ∷ p.timeout_event_count
    ∷ p.system_status ∷ []

unfoldable pub heartbeat_to_bytes : HeartbeatPayload → List ℕ
heartbeat_to_bytes p = pack heartbeat_layout (heartbeat_values p)

unfoldable pub heartbeat_of_bytes : List ℕ → HeartbeatPayload
heartbeat_of_bytes bytes =
    let v = unpack heartbeat_layout bytes in
    record {
      timestamp_sec = get_or v 0 0;
      timestamp_nsec = get_or v 1 0;
      uptime_sec = get_or v 2 0;
      crc_error_count = get_or v 3 0;
      timeout_event_count = get_or v 4 0;
      system_status = get_or v 5 0;
    }

-- Every field is in the range of its type.
abbrev pub HeartbeatPayloadFits : HeartbeatPayload → Type 0
HeartbeatPayloadFits p =
    (p.timestamp_sec < 2 ^ 32)
    × (p.timestamp_nsec < 2 ^ 32)
    × (p.uptime_sec < 2 ^ 32)
    × (p.crc_error_count < 2 ^ 16)
    × (p.timeout_event_count < 2 ^ 16)
    × (p.system_status < 2 ^ 8)
