-- ===== src/Kestrel.antt =====
-- `Kestrel` of kestrel_transport.hpp and kestrel_transport.cpp: the parsed feedback and
-- `OnMessageReceived`. The counters are `uint64_t`.
pub mod Feedback
pub mod Commands
use Prim.Native.Nat.{bit_and}
use my_diffbot.Common.{
  ℕ, suc, ◌+◌, ◌%◌, ◌^◌, Bool, true, false, not, List, if◌then◌else◌, ◌==◌, ltb, leb, length, u64,
}
use my_diffbot.Common.Int.{ℤ, pos, negsuc, ltb_ℤ, eqb_ℤ, negate}
use my_diffbot.Common.Bytes.{size_of}
use my_diffbot.Double.{Double}
use my_diffbot.Protocol.MsgId
use my_diffbot.Protocol.Payload.Received.{
  WheelFeedbackPayload, wheel_feedback_layout, wheel_feedback_of_bytes, ImuDataPayload,
  imu_data_layout, imu_data_of_bytes, PidDebugPayload, pid_debug_layout, pid_debug_of_bytes,
  HeartbeatPayload, heartbeat_layout, heartbeat_of_bytes,
}
use my_diffbot.Transport.Serial.{Shared, Hook}

pub record Vector3 (F : Type 0) : Type 0 where
  pub x : F
  pub y : F
  pub z : F

pub record Quaternion (F : Type 0) : Type 0 where
  pub w : F
  pub x : F
  pub y : F
  pub z : F

-- The calibration in the order of the snapshot.
pub record Calibration : Type 0 where
  pub sys : ℕ
  pub gyro : ℕ
  pub acc : ℕ
  pub mag : ℕ

pub record ImuSnapshot (F : Type 0) : Type 0 where
  pub count : ℕ
  pub lin_acc : Vector3 F
  pub ang_vel : Vector3 F
  pub quat : Quaternion F
  pub cal : Calibration
  pub temp_c : ℤ

pub record Kestrel (F : Type 0) : Type 0 where
  pub left_encoder_ticks : ℤ
  pub right_encoder_ticks : ℤ
  pub wheel_feedback_count : ℕ
  pub wheel_feedback_stamp_sec : F
  pub left_wheel_fw_mrps : F
  pub right_wheel_fw_mrps : F
  pub left_wheel_dir : ℤ
  pub right_wheel_dir : ℤ
  pub left_duty_permille : ℤ
  pub right_duty_permille : ℤ
  pub imu : ImuSnapshot F
  pub imu_healthy : Bool

pub record WheelFeedbackSnapshot (F : Type 0) : Type 0 where
  pub count : ℕ
  pub left_ticks : ℤ
  pub right_ticks : ℤ
  pub left_mrps : F
  pub right_mrps : F
  pub stamp_sec : F

unfoldable pub get_wheel_feedback_snapshot : {F : Type 0} → Kestrel F → WheelFeedbackSnapshot F
get_wheel_feedback_snapshot k = record {
  count = k.wheel_feedback_count;
  left_ticks = k.left_encoder_ticks;
  right_ticks = k.right_encoder_ticks;
  left_mrps = k.left_wheel_fw_mrps;
  right_mrps = k.right_wheel_fw_mrps;
  stamp_sec = k.wheel_feedback_stamp_sec;
}

-- The direction of a wheel, from the ticks of this frame and of the previous one.
unfoldable pub wheel_dir : ℤ → ℤ → ℤ → ℤ
wheel_dir ticks previous dir =
    if not (eqb_ℤ ticks previous) then (if ltb_ℤ previous ticks then pos 1 else negsuc 0) else dir

module _ (D : Double) where
  open D use {F, literal, of_int, add, mul, div, m_pi}

  abbrev pub k_bno055_acc_scale : F
  k_bno055_acc_scale = div (literal 1 0) (literal 100 0)

  abbrev pub k_bno055_gyro_scale : F
  k_bno055_gyro_scale = div (mul (div (literal 1 0) (literal 16 0)) m_pi) (literal 180 0)

  abbrev pub k_bno055_quat_scale : F
  k_bno055_quat_scale = div (literal 1 0) (literal 16384 0)

  -- The state before any message.
  abbrev pub initial : Kestrel F
  initial = record {
    left_encoder_ticks = pos 0;
    right_encoder_ticks = pos 0;
    wheel_feedback_count = 0;
    wheel_feedback_stamp_sec = literal 0 0;
    left_wheel_fw_mrps = literal 0 0;
    right_wheel_fw_mrps = literal 0 0;
    left_wheel_dir = pos 1;
    right_wheel_dir = pos 1;
    left_duty_permille = pos 0;
    right_duty_permille = pos 0;
    imu = record {
      count = 0;
      lin_acc = record { x = literal 0 0; y = literal 0 0; z = literal 0 0 };
      ang_vel = record { x = literal 0 0; y = literal 0 0; z = literal 0 0 };
      quat = record { w = literal 1 0; x = literal 0 0; y = literal 0 0; z = literal 0 0 };
      cal = record { sys = 0; gyro = 0; acc = 0; mag = 0 };
      temp_c = pos 0;
    };
    imu_healthy = false;
  }

  pub on_wheel_feedback : WheelFeedbackPayload → Kestrel F → Kestrel F
  unfolding wheel_dir
  on_wheel_feedback p k =
      let left_dir = wheel_dir p.left_encoder_ticks k.left_encoder_ticks k.left_wheel_dir in
      let right_dir = wheel_dir p.right_encoder_ticks k.right_encoder_ticks k.right_wheel_dir in
      record k {
        left_wheel_dir = left_dir;
        right_wheel_dir = right_dir;
        left_wheel_fw_mrps = mul (of_int left_dir) (of_int (pos p.left_wheel_mrps));
        right_wheel_fw_mrps = mul (of_int right_dir) (of_int (pos p.right_wheel_mrps));
        left_encoder_ticks = p.left_encoder_ticks;
        right_encoder_ticks = p.right_encoder_ticks;
        wheel_feedback_stamp_sec =
            add (of_int (pos p.timestamp_sec)) (mul (of_int (pos p.timestamp_nsec)) (literal 1 9));
        wheel_feedback_count = u64 (k.wheel_feedback_count + 1);
      }

  pub on_imu_data : ImuDataPayload → Kestrel F → Kestrel F
  on_imu_data p k =
      let acc = λ (raw : ℤ). mul (of_int raw) k_bno055_acc_scale in
      let gyro = λ (raw : ℤ). mul (of_int raw) k_bno055_gyro_scale in
      let quat = λ (raw : ℤ). mul (of_int raw) k_bno055_quat_scale in
      record k {
        imu = record {
          cal = record { sys = p.cal_sys; gyro = p.cal_gyro; acc = p.cal_acc; mag = p.cal_mag };
          lin_acc = record { x = acc p.lin_ax; y = acc p.lin_ay; z = acc p.lin_az };
          ang_vel = record { x = gyro p.ang_vx; y = gyro p.ang_vy; z = gyro p.ang_vz };
          quat = record {
            w = quat p.quat_w;
            x = quat p.quat_x;
            y = quat p.quat_y;
            z = quat p.quat_z;
          };
          temp_c = p.temp_c;
          count = u64 (k.imu.count + 1);
        };
      }

  pub on_pid_debug : PidDebugPayload → Kestrel F → Kestrel F
  on_pid_debug p k = record k {
    left_duty_permille = p.left_duty_permille;
    right_duty_permille = p.right_duty_permille;
  }

  -- The heartbeat also notes when it came.
  pub on_heartbeat : ℕ → HeartbeatPayload → Shared (Kestrel F) → Shared (Kestrel F)
  on_heartbeat now p s = record {
    last_heartbeat_time = now;
    state = record s.state { imu_healthy = not (bit_and p.system_status 0x02 == 0) };
  }

  unfoldable pub on_message_received : Hook (Kestrel F)
  unfolding on_wheel_feedback on_imu_data on_pid_debug on_heartbeat
  on_message_received now msg_id payload s =
      if msg_id == MsgId.wheel_feedback
      then (if ltb (length payload) (size_of wheel_feedback_layout)
          then s
          else record s { state = on_wheel_feedback (wheel_feedback_of_bytes payload) s.state })
      else if msg_id == MsgId.imu_data
      then (if ltb (length payload) (size_of imu_data_layout)
          then s
          else record s { state = on_imu_data (imu_data_of_bytes payload) s.state })
      else if msg_id == MsgId.pid_debug
      then (if ltb (length payload) (size_of pid_debug_layout)
          then s
          else record s { state = on_pid_debug (pid_debug_of_bytes payload) s.state })
      else if msg_id == MsgId.heartbeat
      then (if ltb (length payload) (size_of heartbeat_layout)
          then s
          else on_heartbeat now (heartbeat_of_bytes payload) s)
      else s
