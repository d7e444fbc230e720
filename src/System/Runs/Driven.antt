-- ===== src/System/Runs/Driven.antt =====
-- The commands of one call of `write` as a step of the line.
use my_diffbot.Common.{
  ℕ, ◌≡◌, refl, true, not, ◌&&◌, Option, none, some, if◌then◌else◌, ltb, leb, ◌-◌, Bool, Bool-cases,
  inl, inr,
}
use my_diffbot.Common.Int.{ℤ, pos, pos_part}
use my_diffbot.Double.{Double}
use my_diffbot.Protocol.Led.{LedOutput}
use my_diffbot.System.Drive.{one_sec_ns, wheel_commands, is_stopped}
use my_diffbot.System.Clamp.{int32_lowest, int32_max, uint16_max, clamp_cast}
use my_diffbot.System.Tuning.{Gains, Tuning, Clocks, map_gains, same_gains, read_tunings}
use my_diffbot.System.Led.{Led, was_sent, led_mode, wanted_led}
use my_diffbot.System.Interfaces.{mem_name}
use my_diffbot.System.Component.{System}
use my_diffbot.System.Cycle.{WriteTimes}
use my_diffbot.System.Cycle.Wanted.{
  gains_commands, timeout_commands, led_commands, velocity_commands, cycle_commands,
}
use my_diffbot.System.Runs.{write_cycle}
use my_diffbot.System.Runs.Line.{Step, gains_sent, timeout_sent, led_sent, velocity_sent}

-- The commands of a cycle are at most one of each kind.
module _ (D : Double) where
  open D use {F, literal, eq}

  gains_commands-sent :
      (at : Clocks) (g : Gains F) (c : Tuning F)
      → (o : Option (Gains ℤ)) × (gains_commands D at g c ≡ gains_sent at.wall o)
  gains_commands-sent at g c = elim (Bool-cases (same_gains D g c.sent_pid_gains)) [
    | inl same ↦ rw same (none, refl)
    | inr changed ↦ rw changed (some (map_gains (clamp_cast D int32_lowest int32_max) g), refl)
  ]

  timeout_commands-sent :
      (at : Clocks) (x : F) (c : Tuning F)
      → (o : Option ℕ) × (timeout_commands D at x c ≡ timeout_sent at.wall o)
  timeout_commands-sent at x c = elim (Bool-cases (eq x c.sent_cmd_timeout_ms)) [
    | inl same ↦ rw same (none, refl)
    | inr changed ↦ rw changed (some (pos_part (clamp_cast D (pos 0) uint16_max x)), refl)
  ]

  led_commands-sent :
      (now wall : ℕ) (l : Led) (wanted : Option LedOutput)
      → (o : Option LedOutput) × (led_commands D now wall l wanted ≡ led_sent wall o)
  led_commands-sent now wall l none = (none, refl)
  led_commands-sent now wall l (some led) =
      elim (Bool-cases (was_sent l.sent_led led && not (leb one_sec_ns (now - l.last_led_send)))) [
        | inl shown ↦ rw shown (none, refl)
        | inr due ↦ rw due (some led, refl)
      ]

  velocity_commands-sent :
      (now wall : ℕ) (cmds : F × F) (moved : ℕ)
      → (o : Option (F × F)) × (velocity_commands D now wall cmds moved ≡ velocity_sent wall o)
  velocity_commands-sent now wall (left, right) moved =
      let moved' = if is_stopped D (left, right) then moved else now in
      elim (Bool-cases (ltb (now - moved') one_sec_ns)) [
        | inl due ↦ rw due (some (left, right), refl)
        | inr over ↦ rw over (none, refl)
      ]

  pub cycle_commands-Step :
      (clean : Bool) {Device : Type 0} (w : WriteTimes F) (s : System Device F)
      → Step D clean s.config (write_cycle w) true (cycle_commands D w s) true
  cycle_commands-Step clean w s =
      let names = s.interfaces in
      let wanted = read_tunings D names.gpio_commands s.values s.tuning in
      let shown =
        if mem_name led_mode names.gpio_commands then wanted_led D w.t_sec s.values else none in
      let cmds = wheel_commands names.joint_commands s.values (literal 0 0, literal 0 0) in
      let (gains, e1) = gains_commands-sent w.at_gains wanted.sent_pid_gains s.tuning in
      let (timeout, e2) = timeout_commands-sent w.at_timeout wanted.sent_cmd_timeout_ms s.tuning in
      let (led, e3) = led_commands-sent w.now w.wall_led s.led shown in
      let (velocity, e4) =
        velocity_commands-sent w.now w.wall_wheels cmds s.drive.last_active_time in
      Step.drove w gains timeout led velocity (cycle_commands D w s) (cc)
