-- ===== src/Tests/Wheels.antt =====
-- The wheel feedback of the plugin over the test device.
use my_diffbot.Common.{ℕ, ◌*◌, ◌≡◌, refl, arith, List, [], ◌∷◌, true, false}
use mathlib.Core.List.{foldl}
use my_diffbot.Common.Int.{ℤ, pos, ◌-ℤ◌}
use my_diffbot.Kestrel.{Kestrel, initial, get_wheel_feedback_snapshot}
use my_diffbot.System.Interfaces.{Name, Values, get_state}
use my_diffbot.System.Wheels.{
  Wheels, ticks_to_rad, k_wheel_feedback_timeout_ns, watch, measure, move_joint, move_joints,
  follow, read_wheels,
}
use my_diffbot.System.Wheels.Joints.{IsJoint, position_of, velocity_of}
use my_diffbot.System.Wheels.Odometry.{
  ticks_of, ticks_prev, total, last_ticks, read_wheels-position,
}
use my_diffbot.System.Wheels.Stale.{IsNoWindow, read_wheels_stale, read_wheels_reactivated}
use my_diffbot.Tests.Wire.{micro}

micro-IsNoWindow : IsNoWindow micro
micro-IsNoWindow x = ground arith

abbrev pub joint_names : List Name
joint_names = position_of "left_wheel_joint" ∷ position_of "right_wheel_joint" ∷ []

abbrev pub left_listed : IsJoint "left_wheel_joint" joint_names
left_listed = record {
  before = [];
  after = position_of "right_wheel_joint" ∷ [];
  joints_eq = refl;
  not_before = tt;
  not_after = (refl, tt);
}

abbrev pub quiet_values : Values ℤ
quiet_values = record { state = λ n. pos 0; command = λ n. pos 0 }

abbrev pub wheels : Wheels ℤ
wheels = record {
  ticks_init = false;
  left_encoder_prev = pos 0;
  right_encoder_prev = pos 0;
  meas_left_prev = pos 0;
  meas_right_prev = pos 0;
  meas_stamp_prev = pos 0;
  meas_left_rad = pos 0;
  meas_right_rad = pos 0;
  last_wheel_count = 0;
  last_wheel_count_change = 0;
  wheel_feedback_stale = false;
  left_wheel_measured_velocity = pos 0;
  right_wheel_measured_velocity = pos 0;
  left_wheel_firmware_velocity = pos 0;
  right_wheel_firmware_velocity = pos 0;
  left_wheel_pwm = pos 0;
  right_wheel_pwm = pos 0;
}

abbrev pub turning : Wheels ℤ
turning = record wheels { ticks_init = true; left_encoder_prev = pos 1000 }

-- The driver after some feedback.
abbrev fed : ℕ → ℤ → Kestrel ℤ
fed count ticks = record (initial micro) {
  wheel_feedback_count = count;
  left_encoder_ticks = ticks;
  wheel_feedback_stamp_sec = pos (count * 20_000);
}

abbrev cycles : List (ℕ × Kestrel ℤ)
cycles = (10_000_000, fed 1 (pos 1040)) ∷ (20_000_000, fed 4 (pos 1010)) ∷ []

abbrev pub cpr : ℤ
cpr = pos 1_000_000_000

read_wheels-position_example :
    let name = position_of "left_wheel_joint" in
    (δs : List ℤ) × (get_state name
        (my_diffbot.System.Wheels.Odometry.run micro cpr joint_names "left_wheel_joint" left_listed
          cycles
          (turning, quiet_values)).1
      ≡ foldl (λ x δ. micro.add x (ticks_to_rad micro cpr δ)) (pos 0) δs)
    × (total δs ≡ pos 1010 -ℤ pos 1000)
read_wheels-position_example =
    read_wheels-position micro cpr joint_names "left_wheel_joint" left_listed cycles
      (turning, quiet_values) refl ((λ e. omega arith), ((λ e. omega arith), tt))

read_wheels_stale_example :
    let s1 =
      read_wheels micro 10_000_000 cpr joint_names (fed 1 (pos 1040)) (turning, quiet_values) in
    let s2 = read_wheels micro 600_000_000 cpr joint_names (fed 1 (pos 1040)) s1 in
    (get_state (velocity_of "left_wheel_joint") s2.1 ≡ pos 0)
    × (s2.0.wheel_feedback_stale ≡ true)
    × (get_state (position_of "left_wheel_joint") s2.1
        ≡ micro.add
            (get_state (position_of "left_wheel_joint") s1.1)
            (ticks_to_rad micro cpr (pos 0)))
unfolding read_wheels follow watch measure move_joints move_joint get_wheel_feedback_snapshot
read_wheels_stale_example =
    read_wheels_stale micro cpr joint_names "left_wheel_joint" left_listed 10_000_000 600_000_000
      (fed 1 (pos 1040)) (turning, quiet_values) micro-IsNoWindow refl (λ e. omega arith)
      (omega arith)

read_wheels_reactivated_example :
    let s1 =
      read_wheels micro 10_000_000 cpr joint_names (fed 1 (pos 5000)) (wheels, quiet_values) in
    let s2 = read_wheels micro 20_000_000 cpr joint_names (fed 2 (pos 0)) s1 in
    (s1.1 ≡ quiet_values)
    × (get_state (position_of "left_wheel_joint") s2.1
        ≡ micro.add (pos 0) (ticks_to_rad micro cpr (pos 0 -ℤ pos 5000)))
read_wheels_reactivated_example =
    read_wheels_reactivated micro cpr joint_names "left_wheel_joint" left_listed 10_000_000
      20_000_000 (fed 1 (pos 5000)) (fed 2 (pos 0)) (wheels, quiet_values) refl (λ e. omega arith)
      (λ e. omega arith)
