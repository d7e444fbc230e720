-- ===== src/Tests/Moved.antt =====
-- Frames of the firmware that reach the plugin over the test device.
use my_diffbot.Common.{ℕ, ◌∷◌, [], List, subst, sym, ◌≡◌, refl, arith, [], Option, some}
use my_diffbot.Common.Int.{ℤ, pos, negsuc, ◌-ℤ◌, to_bits}
use my_diffbot.Common.Bytes.{le_bytes, pack}
use my_diffbot.Protocol.MsgId
use my_diffbot.Protocol.Crc.{crc_bit, crc_bits, crc_byte, crc_bytes, crc16_ccitt}
use my_diffbot.Protocol.Frame.{build_frame}
use my_diffbot.Protocol.Payload.Received.{wheel_feedback_to_bytes, imu_data_to_bytes}
use my_diffbot.Transport.{Transport}
use my_diffbot.Transport.Read.{read_raw}
use my_diffbot.Transport.Read.Received.{arrived}
use my_diffbot.Kestrel.{Kestrel, initial}
use my_diffbot.System.Interfaces.{get_state}
use my_diffbot.System.Wheels.{ticks_to_rad}
use my_diffbot.System.Wheels.Joints.{position_of}
use my_diffbot.System.Imu.{DiagnosticStatus}
use my_diffbot.System.Component.{ReturnType, System}
use my_diffbot.System.Cycle.Moved.{read_moved}
use my_diffbot.Tests.Wire.{Wire, wire_port, wire_port-DeliversBytes, transport, receiving, micro}
use my_diffbot.System.Cycle.Sensed.{Reading, sensor, value_told, read_sensed}
use my_diffbot.Protocol.Stream.{Decodes, Decodes-build_frames, build_frames, events}
use my_diffbot.Protocol.Payload.RoundTrip.{length-wheel_feedback_to_bytes}
use my_diffbot.Kestrel.Feedback.Invariant.{wheel_feedbacks}
use my_diffbot.System.Cycle.Heard.{of_wheel, read_heard}
use my_diffbot.Kestrel.Feedback.Ticks.{ticks_heard}
use my_diffbot.Tests.Protocol.{at_rest}
use my_diffbot.Tests.Kestrel.{moved}
use my_diffbot.Tests.Wheels.{left_listed, turning, cpr}
use my_diffbot.Tests.Callbacks.{idle_over}

abbrev hearing : Transport Wire (Kestrel ℤ)
hearing =
    transport (initial micro)
      (receiving (build_frame MsgId.wheel_feedback (wheel_feedback_to_bytes moved)))

arrived-hearing :
    arrived wire_port hearing ≡ build_frame MsgId.wheel_feedback (wheel_feedback_to_bytes moved)
unfolding arrived read_raw build_frame crc16_ccitt crc_bytes crc_byte crc_bits crc_bit
    wheel_feedback_to_bytes pack le_bytes to_bits
arrived-hearing = refl

-- The wheels turned before, the left one to 1000 ticks.
abbrev rolling : System Wire ℤ
rolling = record (idle_over hearing) { wheels = turning }

read_moved_example :
    (diag : Option DiagnosticStatus) × (s' : System Wire ℤ) × (my_diffbot.System.Cycle.read
        wire_port micro 9 11 rolling
      ≡ some (ReturnType.ok, diag, s'))
    × (s'.kestrel.rx_buffer ≡ [])
    × (s'.wheels.left_encoder_prev ≡ negsuc 40)
    × (get_state (position_of "left_wheel_joint") s'.values
        ≡ micro.add (pos 0) (ticks_to_rad micro cpr (negsuc 40 -ℤ pos 1000)))
read_moved_example =
    read_moved wire_port micro 9 11 "left_wheel_joint" moved rolling wire_port-DeliversBytes
      left_listed refl (omega arith) refl (λ e. omega arith) refl refl refl arrived-hearing

abbrev feeling : Transport Wire (Kestrel ℤ)
feeling =
    transport (initial micro) (receiving (build_frame MsgId.imu_data (imu_data_to_bytes at_rest)))

arrived-feeling : arrived wire_port feeling ≡ build_frame MsgId.imu_data (imu_data_to_bytes at_rest)
unfolding arrived read_raw build_frame crc16_ccitt crc_bytes crc_byte crc_bits crc_bit
    imu_data_to_bytes pack le_bytes to_bits
arrived-feeling = refl

read_sensed_example :
    (diag : Option DiagnosticStatus) × (s' : System Wire ℤ) × (my_diffbot.System.Cycle.read
        wire_port micro 9 11
        (idle_over feeling)
      ≡ some (ReturnType.ok, diag, s'))
    × (s'.kestrel.rx_buffer ≡ [])
    × (get_state (sensor Reading.quat_w) s'.values ≡ value_told micro Reading.quat_w at_rest)
read_sensed_example =
    read_sensed wire_port micro 9 11 Reading.quat_w at_rest (idle_over feeling)
      wire_port-DeliversBytes (omega arith) refl refl refl refl arrived-feeling

-- Two frames at once, of which the second tells 1040 ticks of the left wheel.
abbrev two_feedbacks : List (ℕ × List ℕ)
two_feedbacks =
    (MsgId.wheel_feedback, wheel_feedback_to_bytes moved)
    ∷ (
      MsgId.wheel_feedback,
      wheel_feedback_to_bytes (record moved { left_encoder_ticks = pos 1040 }),
    )
    ∷ []

abbrev hearing_twice : Transport Wire (Kestrel ℤ)
hearing_twice = transport (initial micro) (receiving (build_frames two_feedbacks))

arrived-hearing_twice : arrived wire_port hearing_twice ≡ build_frames two_feedbacks
unfolding arrived read_raw build_frame crc16_ccitt crc_bytes crc_byte crc_bits crc_bit
    wheel_feedback_to_bytes pack le_bytes to_bits
arrived-hearing_twice = refl

two_feedbacks-Decodes : Decodes (arrived wire_port hearing_twice) (events two_feedbacks) []
two_feedbacks-Decodes =
    subst (λ (bytes : List ℕ). Decodes bytes (events two_feedbacks) []) (sym arrived-hearing_twice)
      (Decodes-build_frames two_feedbacks (
        omega (arith, length-wheel_feedback_to_bytes moved),
        (
          omega (
            arith,
            length-wheel_feedback_to_bytes (record moved { left_encoder_ticks = pos 1040 }),
          ),
          tt,
        ),
      ))

two_feedbacks-counted : wheel_feedbacks (events two_feedbacks) ≡ 2
unfolding wheel_feedback_to_bytes pack le_bytes
two_feedbacks-counted = refl

abbrev rolling_on : System Wire ℤ
rolling_on = record (idle_over hearing_twice) { wheels = turning }

read_heard_example :
    let told = of_wheel "left_wheel_joint" (ticks_heard (events two_feedbacks) (pos 0, pos 0)) in
    (diag : Option DiagnosticStatus) × (s' : System Wire ℤ) × (my_diffbot.System.Cycle.read
        wire_port micro 9 11 rolling_on
      ≡ some (ReturnType.ok, diag, s'))
    × (s'.kestrel.rx_buffer ≡ [])
    × (s'.wheels.left_encoder_prev ≡ told)
    × (get_state (position_of "left_wheel_joint") s'.values
        ≡ micro.add (pos 0) (ticks_to_rad micro cpr (told -ℤ pos 1000)))
read_heard_example =
    read_heard wire_port micro 9 11 "left_wheel_joint" (events two_feedbacks) [] rolling_on
      wire_port-DeliversBytes (record { waits = tt; bytes = tt }) two_feedbacks-Decodes left_listed
      refl refl (omega arith) (λ e. omega (arith, two_feedbacks-counted)) refl refl
