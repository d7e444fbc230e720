-- ===== src/System/Cycle/Sensed.antt =====
-- From the bytes of a frame to the interfaces of the IMU: one call of `read` of
-- my_diffbot_system.cpp.
use Prim.Native.String.{String}
use text.Mathlib.Text.{◌==◌ as str_eq}
use my_diffbot.Common.{ℕ, ◌+◌, ◌≡◌, refl, ◌∙◌, [], true, false, Option, some, u64}
use my_diffbot.Double.{Double}
use my_diffbot.Protocol.MsgId
use my_diffbot.Protocol.Frame.{build_frame}
use my_diffbot.Protocol.Payload.Received.{ImuDataPayload, ImuDataPayloadFits, imu_data_to_bytes}
use my_diffbot.Transport.Serial.{SerialPort}
use my_diffbot.Transport.Read.Received.{DeliversBytes, arrived}
use my_diffbot.Kestrel.Feedback.Sensed.{sensed, read-sensed}
use my_diffbot.System.Interfaces.{Name, mem_name, get_state}
use my_diffbot.System.Wheels.{position, velocity}
use my_diffbot.System.Wheels.Others.{state-read_wheels}
use my_diffbot.System.Imu.{DiagnosticStatus, imu_value, set_imu_states, read_imu}
use my_diffbot.System.Imu.Diagnosed.{state-set_imu_states}
use my_diffbot.System.Component.{ReturnType, System}
use my_diffbot.System.Cycle.Published.{publish-eq}
use my_diffbot.System.Cycle.{mirror_led, after_read, read}

-- The ten values of the sensor.
pub data Reading : Type 0 where
  quat_w quat_x quat_y quat_z ang_vx ang_vy ang_vz lin_ax lin_ay lin_az : Reading

abbrev pub interface_of : Reading → String
interface_of quat_w = "orientation.w"
interface_of quat_x = "orientation.x"
interface_of quat_y = "orientation.y"
interface_of quat_z = "orientation.z"
interface_of ang_vx = "angular_velocity.x"
interface_of ang_vy = "angular_velocity.y"
interface_of ang_vz = "angular_velocity.z"
interface_of lin_ax = "linear_acceleration.x"
interface_of lin_ay = "linear_acceleration.y"
interface_of lin_az = "linear_acceleration.z"

abbrev pub sensor : Reading → Name
sensor r = record { prefix_name = "bno055_imu"; interface_name = interface_of r }

module _ (D : Double) where
  open D use {F, literal, of_int, mul, div, m_pi}

  -- A quaternion comes in parts of 2 ^ 14, an angular velocity in sixteenths of a degree per
  -- second, and an acceleration in hundredths of a metre per second squared.
  abbrev pub value_told : Reading → ImuDataPayload → F
  value_told quat_w p = mul (of_int p.quat_w) (div (literal 1 0) (literal 16384 0))
  value_told quat_x p = mul (of_int p.quat_x) (div (literal 1 0) (literal 16384 0))
  value_told quat_y p = mul (of_int p.quat_y) (div (literal 1 0) (literal 16384 0))
  value_told quat_z p = mul (of_int p.quat_z) (div (literal 1 0) (literal 16384 0))
  value_told ang_vx p =
      mul (of_int p.ang_vx) (div (mul (div (literal 1 0) (literal 16 0)) m_pi) (literal 180 0))
  value_told ang_vy p =
      mul (of_int p.ang_vy) (div (mul (div (literal 1 0) (literal 16 0)) m_pi) (literal 180 0))
  value_told ang_vz p =
      mul (of_int p.ang_vz) (div (mul (div (literal 1 0) (literal 16 0)) m_pi) (literal 180 0))
  value_told lin_ax p = mul (of_int p.lin_ax) (div (literal 1 0) (literal 100 0))
  value_told lin_ay p = mul (of_int p.lin_ay) (div (literal 1 0) (literal 100 0))
  value_told lin_az p = mul (of_int p.lin_az) (div (literal 1 0) (literal 100 0))

  imu_value-sensed :
      (r : Reading) (count : ℕ) (p : ImuDataPayload)
      → imu_value (interface_of r) (sensed D count p) ≡ some (value_told r p)
  unfolding imu_value
  imu_value-sensed quat_w count p = refl
  imu_value-sensed quat_x count p = refl
  imu_value-sensed quat_y count p = refl
  imu_value-sensed quat_z count p = refl
  imu_value-sensed ang_vx count p = refl
  imu_value-sensed ang_vy count p = refl
  imu_value-sensed ang_vz count p = refl
  imu_value-sensed lin_ax count p = refl
  imu_value-sensed lin_ay count p = refl
  imu_value-sensed lin_az count p = refl

no_position : (r : Reading) → str_eq position (interface_of r) ≡ false
no_position quat_w = refl
no_position quat_x = refl
no_position quat_y = refl
no_position quat_z = refl
no_position ang_vx = refl
no_position ang_vy = refl
no_position ang_vz = refl
no_position lin_ax = refl
no_position lin_ay = refl
no_position lin_az = refl

no_velocity : (r : Reading) → str_eq velocity (interface_of r) ≡ false
no_velocity quat_w = refl
no_velocity quat_x = refl
no_velocity quat_y = refl
no_velocity quat_z = refl
no_velocity ang_vx = refl
no_velocity ang_vy = refl
no_velocity ang_vz = refl
no_velocity lin_ax = refl
no_velocity lin_ay = refl
no_velocity lin_az = refl

module _ (S : SerialPort) (D : Double) where
  open S use {Device, is_open}
  open D use {F}

  -- If the publisher of the diagnostics is there, an IMU frame with fields in range that arrives
  -- whole at an open port with nothing waiting makes `read` succeed and leave nothing waiting; and
  -- each of the ten sensor interfaces that is listed has the value of its field in the frame: a
  -- quaternion in parts of 2 ^ 14, an angular velocity from sixteenths of a degree in radians per
  -- second, an acceleration from hundredths of a metre per second squared.
  pub read_sensed :
      (now steady : ℕ) (r : Reading) (p : ImuDataPayload) (s : System Device F)
      → DeliversBytes S
      → ImuDataPayloadFits p
      → mem_name (sensor r) s.interfaces.sensor_states ≡ true
      → is_open s.kestrel.device ≡ true
      → s.has_diag_pub ≡ true
      → s.kestrel.rx_buffer ≡ []
      → arrived S s.kestrel ≡ build_frame MsgId.imu_data (imu_data_to_bytes p)
      → (diag : Option DiagnosticStatus) × (s' : System Device F) × (read S D now steady s
          ≡ some (ReturnType.ok, diag, s'))
        × (s'.kestrel.rx_buffer ≡ [])
        × (get_state (sensor r) s'.values ≡ value_told D r p)
  unfolding read after_read read_imu
  read_sensed now steady r p s delivers fits listed opened published empty came =
      let (t, e, empty', seen) = read-sensed S D steady p s.kestrel delivers fits empty came in
      let k = t.link.shared.state in
      let names = s.interfaces in
      let mirrored = mirror_led names.gpio_commands s.values in
      let shown = set_imu_states names.sensor_states k.imu mirrored in
      let count = u64 (s.kestrel.state.imu.count + 1) in
      let told : get_state (sensor r) shown ≡ value_told D r p =
        state-set_imu_states (sensor r) names.sensor_states k.imu mirrored
        ∙ rw (listed, seen, imu_value-sensed D r count p) refl in
      rw (opened, e)
        (
          _,
          _,
          publish-eq S D _ _ (unfold after_read in published),
          empty',
          state-read_wheels D (sensor r) (no_position r) (no_velocity r) now s.config.cpr
                names.joint_states k (s.wheels, shown)
              ∙ told,
        )
