-- ===== src/System/Cycle/Wanted.antt =====
-- The commands that one call of `write` of my_diffbot_system.cpp is to send, in their order.
use my_diffbot.Common.{
  ℕ, ◌-◌, List, [], ◌∷◌, ◌++◌, not, ◌&&◌, Option, none, some, if◌then◌else◌, ltb, leb,
}
use my_diffbot.Common.Int.{pos, pos_part}
use my_diffbot.Double.{Double}
use my_diffbot.Protocol.Led.{LedOutput}
use my_diffbot.Kestrel.Commands.Written.{Command}
use my_diffbot.System.Interfaces.{mem_name}
use my_diffbot.System.Clamp.{int32_lowest, int32_max, uint16_max, clamp_cast}
use my_diffbot.System.Drive.{one_sec_ns, wheel_commands, is_stopped}
use my_diffbot.System.Tuning.{Gains, Tuning, Clocks, map_gains, read_tunings, same_gains}
use my_diffbot.System.Led.{Led, led_mode, was_sent, wanted_led}
use my_diffbot.System.Component.{System}
use my_diffbot.System.Cycle.{WriteTimes}

module _ (D : Double) where
  open D use {F, literal, eq}

  -- The gains are sent if one of them differs from what was sent, the timeout likewise.
  abbrev pub gains_commands : Clocks → Gains F → Tuning F → List (Command F)
  gains_commands at g c =
      let sent = map_gains (clamp_cast D int32_lowest int32_max) g in
      if same_gains D g c.sent_pid_gains
      then []
      else Command.set_pid_gains at.wall sent.kp_l sent.ki_l sent.kd_l sent.kp_r sent.ki_r sent.kd_r
        ∷ []

  abbrev pub timeout_commands : Clocks → F → Tuning F → List (Command F)
  timeout_commands at x c =
      if eq x c.sent_cmd_timeout_ms
      then []
      else Command.set_command_timeout at.wall (pos_part (clamp_cast D (pos 0) uint16_max x)) ∷ []

  -- The LED frame is sent if it is another one, or a second after the last.
  abbrev pub led_commands : ℕ → ℕ → Led → Option LedOutput → List (Command F)
  led_commands now wall l none = []
  led_commands now wall l (some led) =
      if was_sent l.sent_led led && not (leb one_sec_ns (now - l.last_led_send))
      then []
      else Command.rgb_led wall led ∷ []

  -- The speed is sent while the robot moves, and for a second after.
  abbrev pub velocity_commands : ℕ → ℕ → F × F → ℕ → List (Command F)
  velocity_commands now wall (left, right) moved =
      let moved' = if is_stopped D (left, right) then moved else now in
      if ltb (now - moved') one_sec_ns then Command.wheel_velocity wall left right ∷ [] else []

  -- The commands of a cycle, in their order.
  abbrev pub cycle_commands : {Device : Type 0} → WriteTimes F → System Device F → List (Command F)
  cycle_commands w s =
      let names = s.interfaces in
      let wanted = read_tunings D names.gpio_commands s.values s.tuning in
      let led =
        if mem_name led_mode names.gpio_commands then wanted_led D w.t_sec s.values else none in
      let cmds = wheel_commands names.joint_commands s.values (literal 0 0, literal 0 0) in
      gains_commands w.at_gains wanted.sent_pid_gains s.tuning
      ++ (timeout_commands w.at_timeout wanted.sent_cmd_timeout_ms s.tuning
          ++ (led_commands w.now w.wall_led s.led led
              ++ velocity_commands w.now w.wall_wheels cmds s.drive.last_active_time))
