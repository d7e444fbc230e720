-- ===== src/System/Drive.antt =====
-- The wheel commands in `write` of my_diffbot_system.cpp. Times are nanoseconds of the component's
-- clock, which stands still in one call.
pub mod Grace
use my_diffbot.Common.{
  ℕ, ◌-◌, List, [], ◌∷◌, Bool, true, false, not, ◌&&◌, ◌||◌, if◌then◌else◌, ltb,
}
use my_diffbot.Double.{Double}
use my_diffbot.Transport.Serial.{SerialPort}
use my_diffbot.Transport.{Transport}
use my_diffbot.Kestrel.Commands.{set_wheel_velocity}
use my_diffbot.System.Interfaces.{Name, contains, Values, get_command}
use my_diffbot.System.Wheels.{k_rad_to_mrps}

pub record Drive (F : Type 0) : Type 0 where
  pub last_active_time : ℕ
  pub left_wheel_target_velocity : F
  pub right_wheel_target_velocity : F

abbrev pub one_sec_ns : ℕ
one_sec_ns = 1_000_000_000

-- The loop over the joint commands. An unknown joint is only logged.
unfoldable pub wheel_commands : {F : Type 0} → List Name → Values F → F × F → F × F
wheel_commands [] v (left_cmd, right_cmd) = (left_cmd, right_cmd)
wheel_commands (name ∷ names) v (left_cmd, right_cmd) =
    let cmd = get_command name v in
    wheel_commands names v (
      if contains name.prefix_name "left"
      then (cmd, right_cmd)
      else if contains name.prefix_name "right"
      then (left_cmd, cmd)
      else (left_cmd, right_cmd))

abbrev pub is_stopped : (D : Double) → D.F × D.F → Bool
is_stopped D (left_cmd, right_cmd) = D.eq left_cmd (D.literal 0 0) && D.eq right_cmd (D.literal 0 0)

module _ (S : SerialPort) (D : Double) {H : Type 0} where
  open S use {Device}
  open D use {F, mul}

  -- From the commands on; `wall` is the time stamp of the frame.
  unfoldable pub write_wheels :
      ℕ → ℕ → F × F → Drive F × Transport Device H → Drive F × Transport Device H
  write_wheels now wall (left_cmd, right_cmd) (d, t) =
      let stopped = is_stopped D (left_cmd, right_cmd) in
      let active = if not stopped then now else d.last_active_time in
      let d' : Drive F = record {
        last_active_time = active;
        left_wheel_target_velocity = mul left_cmd (k_rad_to_mrps D);
        right_wheel_target_velocity = mul right_cmd (k_rad_to_mrps D);
      } in
      let in_stop_grace = ltb (now - active) one_sec_ns in
      if not stopped || in_stop_grace
      then (d', (set_wheel_velocity S wall D left_cmd right_cmd t).1)
      else (d', t)
