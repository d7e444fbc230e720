-- ===== src/System/Imu.antt =====
-- `ReadImu` of my_diffbot_system.cpp. Times are nanoseconds of the component's clock, which stands
-- still in one call. The diagnostic values are numbers, which the code prints.
pub mod Diagnosed
use Prim.Native.String.{String}
use text.Mathlib.Text.{◌==◌ as str_eq}
use my_diffbot.Common.{
  ℕ, ◌-◌, List, [], ◌∷◌, Bool, true, false, not, ◌||◌, Option, none, some, if◌then◌else◌, ◌==◌, ltb,
  leb,
}
use my_diffbot.Common.Int.{ℤ, pos}
use my_diffbot.Kestrel.{Kestrel, ImuSnapshot}
use my_diffbot.System.Interfaces.{Name, Values, set_state}
use my_diffbot.System.Component.{ImuWatch}

-- The levels of `diagnostic_msgs::msg::DiagnosticStatus` that the code gives.
pub data Level : Type 0 where
  ok warn error : Level

pub record DiagnosticStatus : Type 0 where
  pub level : Level
  pub message : String
  pub values : List (String × ℤ)

abbrev pub imu_stale_ns : ℕ
imu_stale_ns = 500_000_000

module _ {F : Type 0} where
  -- The value for an interface name of the sensor, if it is one of the ten.
  unfoldable pub imu_value : String → ImuSnapshot F → Option F
  imu_value iface imu =
      if str_eq iface "orientation.w"
      then some imu.quat.w
      else if str_eq iface "orientation.x"
      then some imu.quat.x
      else if str_eq iface "orientation.y"
      then some imu.quat.y
      else if str_eq iface "orientation.z"
      then some imu.quat.z
      else if str_eq iface "angular_velocity.x"
      then some imu.ang_vel.x
      else if str_eq iface "angular_velocity.y"
      then some imu.ang_vel.y
      else if str_eq iface "angular_velocity.z"
      then some imu.ang_vel.z
      else if str_eq iface "linear_acceleration.x"
      then some imu.lin_acc.x
      else if str_eq iface "linear_acceleration.y"
      then some imu.lin_acc.y
      else if str_eq iface "linear_acceleration.z"
      then some imu.lin_acc.z
      else none

  abbrev pub set_or_keep : Name → Option F → Values F → Values F
  set_or_keep name none v = v
  set_or_keep name (some x) v = set_state name x v

  -- The loop over the sensor states.
  unfoldable pub set_imu_states : List Name → ImuSnapshot F → Values F → Values F
  unfolding imu_value
  set_imu_states [] imu v = v
  set_imu_states (name ∷ names) imu v = set_imu_states names imu (
      if not (str_eq name.prefix_name "bno055_imu")
      then v
      else set_or_keep name (imu_value name.interface_name imu) v)

  unfoldable pub watch_imu : ℕ → ImuSnapshot F → ImuWatch → ImuWatch
  watch_imu now imu w =
      if not (imu.count == w.last_imu_count)
      then record w { last_imu_count = imu.count; last_imu_count_change = now }
      else w

  unfoldable pub diagnose : ℕ → Kestrel F → ImuWatch → DiagnosticStatus
  diagnose now k w =
      let stale = ltb imu_stale_ns (now - w.last_imu_count_change) in
      let cal = k.imu.cal in
      let values =
        ("cal_sys", pos cal.sys)
        ∷ ("cal_gyro", pos cal.gyro)
        ∷ ("cal_acc", pos cal.acc)
        ∷ ("cal_mag", pos cal.mag)
        ∷ ("temperature_c", k.imu.temp_c)
        ∷ ("frame_count", pos k.imu.count)
        ∷ [] in
      if not k.imu_healthy || stale
      then record {
        level = Level.error;
        message =
            if stale then "IMU data stale (no frames > 0.5 s)" else "MCU reports IMU unhealthy";
        values = values;
      }
      else if leb 2 cal.sys
      then record { level = Level.ok; message = "IMU OK"; values = values }
      else record {
        level = Level.warn;
        message = "IMU fusion calibration low (move robot / figure-8)";
        values = values;
      }

  -- The diagnosis is none unless one is to be published.
  unfoldable pub read_imu :
      ℕ
      → Bool
      → List Name
      → Kestrel F
      → ImuWatch × Values F
      → Option DiagnosticStatus × ImuWatch × Values F
  unfolding set_imu_states watch_imu diagnose
  read_imu now publish_diag sensor_states k (w, v) =
      let watched = watch_imu now k.imu w in
      (
        if not publish_diag then none else some (diagnose now k watched),
        watched,
        set_imu_states sensor_states k.imu v,
      )
