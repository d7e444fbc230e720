-- ===== src/Protocol/Payload/Received/Motion.antt =====
-- WHEEL_FEEDBACK and IMU_DATA of binary_protocol.hpp.
use my_diffbot.Common.{ℕ, ◌^◌, ◌<◌, List, [], ◌∷◌, get_or}
use my_diffbot.Common.Int.{ℤ, Fits, to_bits, signed}
use my_diffbot.Common.Bytes.{Layout, pack, unpack}

-- 0x10 - 32 bytes
pub record WheelFeedbackPayload : Type 0 where
  pub timestamp_sec : ℕ
  pub timestamp_nsec : ℕ
  pub left_encoder_ticks : ℤ
  pub right_encoder_ticks : ℤ
  pub left_wheel_mrps : ℕ
  pub right_wheel_mrps : ℕ

abbrev pub wheel_feedback_layout : Layout
wheel_feedback_layout = 4 ∷ 4 ∷ 8 ∷ 8 ∷ 4 ∷ 4 ∷ []

abbrev pub wheel_feedback_values : WheelFeedbackPayload → List ℕ
wheel_feedback_values p =
    p.timestamp_sec
    ∷ p.timestamp_nsec
    ∷ to_bits (2 ^ 63) p.left_encoder_ticks
    ∷ to_bits (2 ^ 63) p.right_encoder_ticks
    ∷ p.left_wheel_mrps
    ∷ p.right_wheel_mrps
    ∷ []

unfoldable pub wheel_feedback_to_bytes : WheelFeedbackPayload → List ℕ
wheel_feedback_to_bytes p = pack wheel_feedback_layout (wheel_feedback_values p)

unfoldable pub wheel_feedback_of_bytes : List ℕ → WheelFeedbackPayload
wheel_feedback_of_bytes bytes =
    let v = unpack wheel_feedback_layout bytes in
    record {
      timestamp_sec = get_or v 0 0;
      timestamp_nsec = get_or v 1 0;
      left_encoder_ticks = signed (2 ^ 63) (get_or v 2 0);
      right_encoder_ticks = signed (2 ^ 63) (get_or v 3 0);
      left_wheel_mrps = get_or v 4 0;
      right_wheel_mrps = get_or v 5 0;
    }

-- Every field is in the range of its type.
abbrev pub WheelFeedbackPayloadFits : WheelFeedbackPayload → Type 0
WheelFeedbackPayloadFits p =
    (p.timestamp_sec < 2 ^ 32)
    × (p.timestamp_nsec < 2 ^ 32)
    × Fits (2 ^ 63) p.left_encoder_ticks
    × Fits (2 ^ 63) p.right_encoder_ticks
    × (p.left_wheel_mrps < 2 ^ 32)
    × (p.right_wheel_mrps < 2 ^ 32)

-- 0x11 - 33 bytes
pub record ImuDataPayload : Type 0 where
  pub timestamp_sec : ℕ
  pub timestamp_nsec : ℕ
  pub lin_ax : ℤ
  pub lin_ay : ℤ
  pub lin_az : ℤ
  pub ang_vx : ℤ
  pub ang_vy : ℤ
  pub ang_vz : ℤ
  pub quat_w : ℤ
  pub quat_x : ℤ
  pub quat_y : ℤ
  pub quat_z : ℤ
  pub cal_sys : ℕ
  pub cal_acc : ℕ
  pub cal_gyro : ℕ
  pub cal_mag : ℕ
  pub temp_c : ℤ

abbrev pub imu_data_layout : Layout
imu_data_layout = 4 ∷ 4 ∷ 2 ∷ 2 ∷ 2 ∷ 2 ∷ 2 ∷ 2 ∷ 2 ∷ 2 ∷ 2 ∷ 2 ∷ 1 ∷ 1 ∷ 1 ∷ 1 ∷ 1 ∷ []

abbrev pub imu_data_values : ImuDataPayload → List ℕ
imu_data_values p =
    p.timestamp_sec
    ∷ p.timestamp_nsec
    ∷ to_bits (2 ^ 15) p.lin_ax
    ∷ to_bits (2 ^ 15) p.lin_ay
    ∷ to_bits (2 ^ 15) p.lin_az
    ∷ to_bits (2 ^ 15) p.ang_vx
    ∷ to_bits (2 ^ 15) p.ang_vy
    ∷ to_bits (2 ^ 15) p.ang_vz
    ∷ to_bits (2 ^ 15) p.quat_w
    ∷ to_bits (2 ^ 15) p.quat_x
    ∷ to_bits (2 ^ 15) p.quat_y
    ∷ to_bits (2 ^ 15) p.quat_z
    ∷ p.cal_sys
    ∷ p.cal_acc
    ∷ p.cal_gyro
    ∷ p.cal_mag
    ∷ to_bits (2 ^ 7) p.temp_c
    ∷ []

unfoldable pub imu_data_to_bytes : ImuDataPayload → List ℕ
imu_data_to_bytes p = pack imu_data_layout (imu_data_values p)

unfoldable pub imu_data_of_bytes : List ℕ → ImuDataPayload
imu_data_of_bytes bytes =
    let v = unpack imu_data_layout bytes in
    record {
      timestamp_sec = get_or v 0 0;
      timestamp_nsec = get_or v 1 0;
      lin_ax = signed (2 ^ 15) (get_or v 2 0);
      lin_ay = signed (2 ^ 15) (get_or v 3 0);
      lin_az = signed (2 ^ 15) (get_or v 4 0);
      ang_vx = signed (2 ^ 15) (get_or v 5 0);
      ang_vy = signed (2 ^ 15) (get_or v 6 0);
      ang_vz = signed (2 ^ 15) (get_or v 7 0);
      quat_w = signed (2 ^ 15) (get_or v 8 0);
      quat_x = signed (2 ^ 15) (get_or v 9 0);
      quat_y = signed (2 ^ 15) (get_or v 10 0);
      quat_z = signed (2 ^ 15) (get_or v 11 0);
      cal_sys = get_or v 12 0;
      cal_acc = get_or v 13 0;
      cal_gyro = get_or v 14 0;
      cal_mag = get_or v 15 0;
      temp_c = signed (2 ^ 7) (get_or v 16 0);
    }

-- Every field is in the range of its type.
abbrev pub ImuDataPayloadFits : ImuDataPayload → Type 0
ImuDataPayloadFits p =
    (p.timestamp_sec < 2 ^ 32)
    × (p.timestamp_nsec < 2 ^ 32)
    × Fits (2 ^ 15) p.lin_ax
    × Fits (2 ^ 15) p.lin_ay
    × Fits (2 ^ 15) p.lin_az
    × Fits (2 ^ 15) p.ang_vx
    × Fits (2 ^ 15) p.ang_vy
    × Fits (2 ^ 15) p.ang_vz
    × Fits (2 ^ 15) p.quat_w
    × Fits (2 ^ 15) p.quat_x
    × Fits (2 ^ 15) p.quat_y
    × Fits (2 ^ 15) p.quat_z
    × (p.cal_sys < 2 ^ 8)
    × (p.cal_acc < 2 ^ 8)
    × (p.cal_gyro < 2 ^ 8)
    × (p.cal_mag < 2 ^ 8)
    × Fits (2 ^ 7) p.temp_c
