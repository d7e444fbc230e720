-- ===== src/Tests/Kestrel.antt =====
-- The driver over the test device.
use my_diffbot.Common.{ℕ, ◌+◌, ◌≡◌, refl, arith, List, [], ◌∷◌, ◌++◌, some, true, false, u64}
use my_diffbot.Common.Int.{ℤ, pos, negsuc, to_bits}
use my_diffbot.Common.Bytes.{le_bytes, pack, unpack}
use my_diffbot.Protocol.MsgId
use my_diffbot.Protocol.AckStatus
use my_diffbot.Protocol.AckStatus.{AckStatus}
use my_diffbot.Protocol.Crc.{crc_bit, crc_bits, crc_byte, crc_bytes, crc16_ccitt}
use my_diffbot.Protocol.Frame.{build_frame}
use my_diffbot.Protocol.Payload.Sent.{handshake_to_bytes, wheel_velocity_layout}
use my_diffbot.Protocol.Payload.Received.{
  WheelFeedbackPayload, wheel_feedback_to_bytes, HeartbeatPayload, heartbeat_to_bytes,
}
use my_diffbot.Protocol.Stream.{Event, message, Decodes}
use my_diffbot.Transport.{Transport}
use my_diffbot.Transport.Session.{is_heartbeat_healthy}
use my_diffbot.Transport.Read.{read_raw, read}
use my_diffbot.Transport.Read.Received.{arrived}
use my_diffbot.Kestrel.{
  Kestrel, get_wheel_feedback_snapshot, wheel_dir, initial, on_message_received,
}
use my_diffbot.Kestrel.Feedback.Invariant.{
  IsConsistent, initial-IsConsistent, wheel_feedbacks, read-IsConsistent,
}
use my_diffbot.Kestrel.Feedback.Delivered.{
  read-get_wheel_feedback_snapshot, read-is_heartbeat_healthy,
}
use my_diffbot.Kestrel.Commands.{handshake_payload, handshake, set_wheel_velocity}
use my_diffbot.Kestrel.Commands.Sent.{set_wheel_velocity_sent}
use my_diffbot.Kestrel.Commands.Answered.{handshake_answered}
use my_diffbot.Tests.Wire.{
  Wire, wire_port, wire_port-DeliversBytes, five_ms, transport, receiving, whole,
}

abbrev robot : Wire → Transport Wire (Kestrel ℤ)
robot d = transport (initial whole) d

abbrev pub moved : WheelFeedbackPayload
moved = record {
  timestamp_sec = 12;
  timestamp_nsec = 500_000_000;
  left_encoder_ticks = negsuc 40;
  right_encoder_ticks = pos 70000;
  left_wheel_mrps = 900;
  right_wheel_mrps = 950;
}

abbrev pub moving : Transport Wire (Kestrel ℤ)
moving = robot (receiving (build_frame MsgId.wheel_feedback (wheel_feedback_to_bytes moved)))

pub arrived-moving :
    arrived wire_port moving ≡ build_frame MsgId.wheel_feedback (wheel_feedback_to_bytes moved)
unfolding arrived read_raw build_frame crc16_ccitt crc_bytes crc_byte crc_bits crc_bit
    wheel_feedback_to_bytes pack le_bytes to_bits
arrived-moving = refl

read-get_wheel_feedback_snapshot_example :
    (u : Transport Wire (Kestrel ℤ)) × (read wire_port (on_message_received whole) 1 moving
      ≡ some u)
    × (u.rx_buffer ≡ [])
    × (get_wheel_feedback_snapshot u.state ≡ record {
      count = 1;
      left_ticks = negsuc 40;
      right_ticks = pos 70000;
      left_mrps = pos 0;
      right_mrps = pos 950;
      stamp_sec = pos 12;
    })
unfolding wheel_dir
read-get_wheel_feedback_snapshot_example =
    read-get_wheel_feedback_snapshot wire_port whole 1 moved moving wire_port-DeliversBytes
      (omega arith) refl arrived-moving

abbrev pub alive : HeartbeatPayload
alive = record {
  timestamp_sec = 12;
  timestamp_nsec = 0;
  uptime_sec = 3;
  crc_error_count = 0;
  timeout_event_count = 0;
  system_status = 2;
}

abbrev beating : Transport Wire (Kestrel ℤ)
beating = robot (receiving (build_frame MsgId.heartbeat (heartbeat_to_bytes alive)))

arrived-beating : arrived wire_port beating ≡ build_frame MsgId.heartbeat (heartbeat_to_bytes alive)
unfolding arrived read_raw build_frame crc16_ccitt crc_bytes crc_byte crc_bits crc_bit
    heartbeat_to_bytes pack le_bytes
arrived-beating = refl

read-is_heartbeat_healthy_example :
    (u : Transport Wire (Kestrel ℤ)) × (read wire_port (on_message_received whole) 7 beating
      ≡ some u)
    × (u.state.imu_healthy ≡ true)
    × (is_heartbeat_healthy 5_000_007 5 u ≡ true)
read-is_heartbeat_healthy_example =
    read-is_heartbeat_healthy wire_port whole 7 5_000_007 5 alive beating wire_port-DeliversBytes
      (omega arith) (omega arith) refl arrived-beating

read-IsConsistent_example :
    (es : List Event) × (q : List ℕ) × (u : Transport Wire (Kestrel ℤ)) × Decodes
      (moving.rx_buffer ++ arrived wire_port moving)
      es
      q
    × (read wire_port (on_message_received whole) 1 moving ≡ some u)
    × IsConsistent whole u.state
    × (u.state.wheel_feedback_count ≡ u64 (moving.state.wheel_feedback_count + wheel_feedbacks es))
read-IsConsistent_example =
    read-IsConsistent wire_port whole 1 moving wire_port-DeliversBytes
      (record { waits = tt; bytes = tt }) (initial-IsConsistent whole) (omega arith)

-- One radian per second is 166 thousandths of a turn, with 3 in the place of pi.
set_wheel_velocity_sent_example :
    (bytes payload : List ℕ) × (set_wheel_velocity wire_port 0 whole
        (pos 1)
        (pos 2)
        (robot (receiving []))
      ≡ (
        AckStatus.ok,
        record (robot (receiving [])) { device = (wire_port.write_bytes bytes (receiving [])).1 },
      ))
    × Decodes bytes (message MsgId.wheel_velocity payload ∷ []) []
    × (unpack wheel_velocity_layout payload ≡ 0 ∷ 0 ∷ 166 ∷ 333 ∷ [])
unfolding to_bits
set_wheel_velocity_sent_example =
    set_wheel_velocity_sent wire_port 0 whole (pos 1) (pos 2) (robot (receiving [])) refl
      (omega arith) (omega arith)

-- Firmware version 3.
abbrev welcome : List ℕ
welcome = 0 ∷ 0 ∷ 0 ∷ 0 ∷ 0 ∷ 0 ∷ 0 ∷ 0 ∷ MsgId.handshake ∷ 3 ∷ []

abbrev asked : Wire
asked = record (receiving []) { answer = build_frame MsgId.ack welcome }

abbrev answered : Wire
answered =
    (wire_port.write_bytes (build_frame MsgId.handshake (handshake_to_bytes (handshake_payload 0)))
      asked).1

arrived-answered : arrived wire_port (robot answered) ≡ build_frame MsgId.ack welcome
unfolding arrived read_raw build_frame crc16_ccitt crc_bytes crc_byte crc_bits crc_bit
arrived-answered = refl

handshake_answered_example :
    (u : Transport Wire (Kestrel ℤ)) × (handshake wire_port
        (on_message_received whole)
        five_ms
        1
        0
        (robot asked)
      ≡ some (AckStatus.ok, u))
    × (u.firmware_version ≡ 3)
    × (u.ack_received ≡ false)
handshake_answered_example =
    handshake_answered wire_port (on_message_received whole) five_ms 0 0 welcome (robot asked)
      answered wire_port-DeliversBytes refl refl refl arrived-answered (omega arith) (omega arith)
      refl (omega arith)
