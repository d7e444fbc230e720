-- ===== src/Protocol/Payload/RoundTrip.antt =====
-- The structs that the firmware sends, from the fields to the bytes and back.
use my_diffbot.Common.{ℕ, ◌^◌, ◌≡◌, arith, List, ◌++◌, length}
use my_diffbot.Common.Int.{signed-to_bits, to_bits-lt}
use my_diffbot.Common.Bytes.{Holds, unpack-pack, length-pack}
use my_diffbot.Protocol.Payload.Received.{
  AckPayload, ack_layout, ack_values, ack_to_bytes, ack_of_bytes, AckPayloadFits,
  WheelFeedbackPayload, wheel_feedback_layout, wheel_feedback_values, wheel_feedback_to_bytes,
  wheel_feedback_of_bytes, WheelFeedbackPayloadFits, ImuDataPayload, imu_data_layout,
  imu_data_values, imu_data_to_bytes, imu_data_of_bytes, ImuDataPayloadFits, PidDebugPayload,
  pid_debug_layout, pid_debug_values, pid_debug_to_bytes, pid_debug_of_bytes, PidDebugPayloadFits,
  HeartbeatPayload, heartbeat_layout, heartbeat_values, heartbeat_to_bytes, heartbeat_of_bytes,
  HeartbeatPayloadFits,
}

ack-Holds : (p : AckPayload) → AckPayloadFits p → Holds ack_layout (ack_values p)
ack-Holds p h = omega arith

pub length-ack_to_bytes : (p : AckPayload) → length (ack_to_bytes p) ≡ 10
unfolding ack_to_bytes
length-ack_to_bytes p = length-pack ack_layout (ack_values p)

pub ack_of_bytes-to_bytes :
    (p : AckPayload) (rest : List ℕ) → AckPayloadFits p → ack_of_bytes (ack_to_bytes p ++ rest) ≡ p
unfolding ack_of_bytes ack_to_bytes
ack_of_bytes-to_bytes p rest h =
    rw (unpack-pack ack_layout (ack_values p) rest (ack-Holds p h)) (ground arith)

wheel_feedback-Holds :
    (p : WheelFeedbackPayload)
    → WheelFeedbackPayloadFits p
    → Holds wheel_feedback_layout (wheel_feedback_values p)
wheel_feedback-Holds p h =
    omega
      (arith, to_bits-lt (2 ^ 63) p.left_encoder_ticks, to_bits-lt (2 ^ 63) p.right_encoder_ticks)

pub length-wheel_feedback_to_bytes :
    (p : WheelFeedbackPayload) → length (wheel_feedback_to_bytes p) ≡ 32
unfolding wheel_feedback_to_bytes
length-wheel_feedback_to_bytes p = length-pack wheel_feedback_layout (wheel_feedback_values p)

-- A wheel feedback struct with its fields in range is read back from its bytes, whatever follows
-- them.
pub wheel_feedback_of_bytes-to_bytes :
    (p : WheelFeedbackPayload) (rest : List ℕ)
    → WheelFeedbackPayloadFits p
    → wheel_feedback_of_bytes (wheel_feedback_to_bytes p ++ rest) ≡ p
unfolding wheel_feedback_of_bytes wheel_feedback_to_bytes
wheel_feedback_of_bytes-to_bytes p rest h =
    rw (unpack-pack wheel_feedback_layout (wheel_feedback_values p) rest (wheel_feedback-Holds p h))
      (ground (
        arith,
        signed-to_bits (2 ^ 63) p.left_encoder_ticks,
        signed-to_bits (2 ^ 63) p.right_encoder_ticks,
      ))

imu_data-Holds :
    (p : ImuDataPayload) → ImuDataPayloadFits p → Holds imu_data_layout (imu_data_values p)
imu_data-Holds p h = omega (
  arith,
  to_bits-lt (2 ^ 15) p.lin_ax,
  to_bits-lt (2 ^ 15) p.lin_ay,
  to_bits-lt (2 ^ 15) p.lin_az,
  to_bits-lt (2 ^ 15) p.ang_vx,
  to_bits-lt (2 ^ 15) p.ang_vy,
  to_bits-lt (2 ^ 15) p.ang_vz,
  to_bits-lt (2 ^ 15) p.quat_w,
  to_bits-lt (2 ^ 15) p.quat_x,
  to_bits-lt (2 ^ 15) p.quat_y,
  to_bits-lt (2 ^ 15) p.quat_z,
  to_bits-lt (2 ^ 7) p.temp_c,
)

pub length-imu_data_to_bytes : (p : ImuDataPayload) → length (imu_data_to_bytes p) ≡ 33
unfolding imu_data_to_bytes
length-imu_data_to_bytes p = length-pack imu_data_layout (imu_data_values p)

-- An IMU struct with its fields in range is read back from its bytes, whatever follows them.
pub imu_data_of_bytes-to_bytes :
    (p : ImuDataPayload) (rest : List ℕ)
    → ImuDataPayloadFits p
    → imu_data_of_bytes (imu_data_to_bytes p ++ rest) ≡ p
unfolding imu_data_of_bytes imu_data_to_bytes
imu_data_of_bytes-to_bytes p rest h =
    rw (unpack-pack imu_data_layout (imu_data_values p) rest (imu_data-Holds p h)) (
      ground (
        arith,
        signed-to_bits (2 ^ 15) p.lin_ax,
        signed-to_bits (2 ^ 15) p.lin_ay,
        signed-to_bits (2 ^ 15) p.lin_az,
        signed-to_bits (2 ^ 15) p.ang_vx,
        signed-to_bits (2 ^ 15) p.ang_vy,
        signed-to_bits (2 ^ 15) p.ang_vz,
        signed-to_bits (2 ^ 15) p.quat_w,
        signed-to_bits (2 ^ 15) p.quat_x,
        signed-to_bits (2 ^ 15) p.quat_y,
        signed-to_bits (2 ^ 15) p.quat_z,
        signed-to_bits (2 ^ 7) p.temp_c,
      ))

pid_debug-Holds :
    (p : PidDebugPayload) → PidDebugPayloadFits p → Holds pid_debug_layout (pid_debug_values p)
pid_debug-Holds p h = omega (
  arith,
  to_bits-lt (2 ^ 31) p.left_duty_permille,
  to_bits-lt (2 ^ 31) p.right_duty_permille,
  to_bits-lt (2 ^ 31) p.left_setpoint_milli,
  to_bits-lt (2 ^ 31) p.right_setpoint_milli,
  to_bits-lt (2 ^ 31) p.left_integral_milli,
  to_bits-lt (2 ^ 31) p.right_integral_milli,
  to_bits-lt (2 ^ 63) p.left_encoder_ticks,
  to_bits-lt (2 ^ 63) p.right_encoder_ticks,
)

pub length-pid_debug_to_bytes : (p : PidDebugPayload) → length (pid_debug_to_bytes p) ≡ 52
unfolding pid_debug_to_bytes
length-pid_debug_to_bytes p = length-pack pid_debug_layout (pid_debug_values p)

pub pid_debug_of_bytes-to_bytes :
    (p : PidDebugPayload) (rest : List ℕ)
    → PidDebugPayloadFits p
    → pid_debug_of_bytes (pid_debug_to_bytes p ++ rest) ≡ p
unfolding pid_debug_of_bytes pid_debug_to_bytes
pid_debug_of_bytes-to_bytes p rest h =
    rw (unpack-pack pid_debug_layout (pid_debug_values p) rest (pid_debug-Holds p h)) (
      ground (
        arith,
        signed-to_bits (2 ^ 31) p.left_duty_permille,
        signed-to_bits (2 ^ 31) p.right_duty_permille,
        signed-to_bits (2 ^ 31) p.left_setpoint_milli,
        signed-to_bits (2 ^ 31) p.right_setpoint_milli,
        signed-to_bits (2 ^ 31) p.left_integral_milli,
        signed-to_bits (2 ^ 31) p.right_integral_milli,
        signed-to_bits (2 ^ 63) p.left_encoder_ticks,
        signed-to_bits (2 ^ 63) p.right_encoder_ticks,
      ))

heartbeat-Holds :
    (p : HeartbeatPayload) → HeartbeatPayloadFits p → Holds heartbeat_layout (heartbeat_values p)
heartbeat-Holds p h = omega arith

pub length-heartbeat_to_bytes : (p : HeartbeatPayload) → length (heartbeat_to_bytes p) ≡ 17
unfolding heartbeat_to_bytes
length-heartbeat_to_bytes p = length-pack heartbeat_layout (heartbeat_values p)

pub heartbeat_of_bytes-to_bytes :
    (p : HeartbeatPayload) (rest : List ℕ)
    → HeartbeatPayloadFits p
    → heartbeat_of_bytes (heartbeat_to_bytes p ++ rest) ≡ p
unfolding heartbeat_of_bytes heartbeat_to_bytes
heartbeat_of_bytes-to_bytes p rest h =
    rw (unpack-pack heartbeat_layout (heartbeat_values p) rest (heartbeat-Holds p h)) (ground arith)
