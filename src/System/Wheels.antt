-- ===== src/System/Wheels.antt =====
-- `ReadWheels` of my_diffbot_system.cpp: odometry, speed and staleness from the feedback of the
-- driver. Times are nanoseconds of the component's clock, which stands still in one call. A
-- difference of ticks is that of the integers.
pub mod Joints
pub mod Others
pub mod Odometry
pub mod Stale
use Prim.Native.String.{String}
use text.Mathlib.Text.{◌==◌ as str_eq}
use my_diffbot.Common.{
  ℕ, ◌-◌, List, [], ◌∷◌, Bool, true, false, not, ◌&&◌, ◌||◌, if◌then◌else◌, ◌==◌, ltb,
}
use my_diffbot.Common.Int.{ℤ, ◌-ℤ◌}
use my_diffbot.Double.{Double}
use my_diffbot.Kestrel.{Kestrel, WheelFeedbackSnapshot, get_wheel_feedback_snapshot}
use my_diffbot.System.Interfaces.{Name, contains, Values, get_state, set_state}

pub record Wheels (F : Type 0) : Type 0 where
  pub ticks_init : Bool
  pub left_encoder_prev : ℤ
  pub right_encoder_prev : ℤ
  pub meas_left_prev : ℤ
  pub meas_right_prev : ℤ
  pub meas_stamp_prev : F
  pub meas_left_rad : F
  pub meas_right_rad : F
  pub last_wheel_count : ℕ
  pub last_wheel_count_change : ℕ
  pub wheel_feedback_stale : Bool
  pub left_wheel_measured_velocity : F
  pub right_wheel_measured_velocity : F
  pub left_wheel_firmware_velocity : F
  pub right_wheel_firmware_velocity : F
  pub left_wheel_pwm : F
  pub right_wheel_pwm : F

-- kWheelFeedbackTimeoutSec.
abbrev pub k_wheel_feedback_timeout_ns : ℕ
k_wheel_feedback_timeout_ns = 500_000_000

abbrev pub position : String
position = "position"

abbrev pub velocity : String
velocity = "velocity"

module _ (D : Double) where
  open D use {F, literal, of_int, add, sub, mul, div, m_pi, lt, le}

  abbrev pub k_rad_to_mrps : F
  k_rad_to_mrps = div (literal 1000 0) (mul (literal 2 0) m_pi)

  abbrev pub k_meas_window_sec : F
  k_meas_window_sec = literal 4 2

  abbrev pub k_meas_ema_alpha : F
  k_meas_ema_alpha = literal 4 1

  -- The speed window begins at this frame.
  abbrev pub restart_window : WheelFeedbackSnapshot F → Wheels F → Wheels F
  restart_window f w = record w {
    meas_left_prev = f.left_ticks;
    meas_right_prev = f.right_ticks;
    meas_stamp_prev = f.stamp_sec;
  }

  -- The introspection mirrors, which are written on every call.
  abbrev pub mirror : Kestrel F → Wheels F → Wheels F
  mirror k w = record w {
    left_wheel_firmware_velocity = (get_wheel_feedback_snapshot k).left_mrps;
    right_wheel_firmware_velocity = (get_wheel_feedback_snapshot k).right_mrps;
    left_wheel_pwm = of_int k.left_duty_permille;
    right_wheel_pwm = of_int k.right_duty_permille;
  }

  -- The first feedback is only remembered.
  abbrev pub seed : WheelFeedbackSnapshot F → Wheels F → Wheels F
  seed f w = record (restart_window f w) {
    left_encoder_prev = f.left_ticks;
    right_encoder_prev = f.right_ticks;
    ticks_init = true;
  }

  -- Whether frames still come.
  unfoldable pub watch : ℕ → WheelFeedbackSnapshot F → Wheels F → Wheels F
  watch now f w =
      if not (f.count == w.last_wheel_count)
      then (let counted = record w { last_wheel_count = f.count; last_wheel_count_change = now } in
          if w.wheel_feedback_stale
          then restart_window f (record counted { wheel_feedback_stale = false })
          else counted)
      else if ltb k_wheel_feedback_timeout_ns (now - w.last_wheel_count_change)
      then record w {
        wheel_feedback_stale = true;
        meas_left_rad = literal 0 0;
        meas_right_rad = literal 0 0;
      }
      else w

  -- The ticks of this call become those of the previous one.
  abbrev pub advance : WheelFeedbackSnapshot F → Wheels F → Wheels F
  advance f w = record w { left_encoder_prev = f.left_ticks; right_encoder_prev = f.right_ticks }

  -- One step of the filter towards the speed of the window.
  abbrev pub filtered : F → ℤ → F → F
  filtered scale ticks rad = add rad (mul k_meas_ema_alpha (sub (mul (of_int ticks) scale) rad))

  -- The speed, from the ticks of the window if it is long enough.
  unfoldable pub measure : F → WheelFeedbackSnapshot F → Wheels F → Wheels F
  measure cpr f w =
      let window_sec = sub f.stamp_sec w.meas_stamp_prev in
      let scale = div (mul (literal 2 0) m_pi) (mul cpr window_sec) in
      if lt window_sec (literal 0 0) || lt (literal 1 0) window_sec
      then restart_window f w
      else if le k_meas_window_sec window_sec
      then restart_window f (record w {
        meas_left_rad = filtered scale (f.left_ticks -ℤ w.meas_left_prev) w.meas_left_rad;
        meas_right_rad = filtered scale (f.right_ticks -ℤ w.meas_right_prev) w.meas_right_rad;
      })
      else w

  -- One revolution is `cpr` ticks.
  abbrev pub ticks_to_rad : F → ℤ → F
  ticks_to_rad cpr ticks = div (mul (mul (of_int ticks) (literal 2 0)) m_pi) cpr

  -- The body of the loop over the joint states.
  unfoldable pub move_joint : F → ℤ → ℤ → Name → Wheels F × Values F → Wheels F × Values F
  move_joint cpr left_delta right_delta name (w, v) =
      let left = contains name.prefix_name "left" in
      let encoder_delta = if left then left_delta else right_delta in
      let speed = if left then w.meas_left_rad else w.meas_right_rad in
      let moved = set_state name (add (get_state name v) (ticks_to_rad cpr encoder_delta)) v in
      let name' : Name = record { prefix_name = name.prefix_name; interface_name = velocity } in
      let shown = mul speed k_rad_to_mrps in
      if not (str_eq name.interface_name position) then (w, v) else (
        if left
            then record w { left_wheel_measured_velocity = shown }
            else record w { right_wheel_measured_velocity = shown },
        set_state name' speed moved,
      )

  unfoldable pub move_joints : F → ℤ → ℤ → List Name → Wheels F × Values F → Wheels F × Values F
  unfolding move_joint
  move_joints cpr left_delta right_delta [] s = s
  move_joints cpr left_delta right_delta (name ∷ names) s =
      move_joints cpr left_delta right_delta names (move_joint cpr left_delta right_delta name s)

  -- From the test for staleness on.
  unfoldable pub follow :
      ℕ → F → List Name → WheelFeedbackSnapshot F → Wheels F × Values F → Wheels F × Values F
  unfolding watch measure move_joints
  follow now cpr joints f (w, v) =
      let watched = watch now f w in
      let left_delta = f.left_ticks -ℤ watched.left_encoder_prev in
      let right_delta = f.right_ticks -ℤ watched.right_encoder_prev in
      move_joints cpr left_delta right_delta joints (measure cpr f (advance f watched), v)

  unfoldable pub read_wheels :
      ℕ → F → List Name → Kestrel F → Wheels F × Values F → Wheels F × Values F
  unfolding get_wheel_feedback_snapshot
  read_wheels now cpr joints k (w, v) =
      let f = get_wheel_feedback_snapshot k in
      let mirrored = mirror k w in
      if f.count == 0
      then (mirrored, v)
      else if not w.ticks_init
      then (seed f mirrored, v)
      else follow now cpr joints f (mirrored, v)
