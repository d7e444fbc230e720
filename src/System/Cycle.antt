-- ===== src/System/Cycle.antt =====
-- `read` and `write` of my_diffbot_system.cpp. `now` is the component's clock in nanoseconds, which
-- stands still in one call. `none` is a call without a result: fuel that ran out, or, in `read`, a
-- publisher of the diagnostics that is not there when it is used.
pub mod Published
pub mod Wanted
pub mod Retuned
pub mod Sent
pub mod Moved
pub mod Heard
pub mod Sensed
pub mod Silent
pub mod Closed
pub mod Ready
pub mod Ends
use Prim.Native.String.{String}
use text.Mathlib.Text.{◌==◌ as str_eq}
use my_diffbot.Common.{
  ℕ, ◌-◌, List, [], ◌∷◌, Bool, true, false, not, Option, none, some, if◌then◌else◌, leb,
}
use my_diffbot.Double.{Double}
use my_diffbot.Transport.Serial.{SerialPort}
use my_diffbot.Transport.{Transport}
use my_diffbot.Transport.Read.{◌>>=◌, read as read_serial}
use my_diffbot.Kestrel.{Kestrel, on_message_received}
use my_diffbot.System.Interfaces.{Name, Values, get_command, set_state}
use my_diffbot.System.Wheels.{read_wheels}
use my_diffbot.System.Drive.{one_sec_ns, wheel_commands, write_wheels}
use my_diffbot.System.Tuning.{Tuning, Clocks, write_tuning}
use my_diffbot.System.Led.{write_led}
use my_diffbot.System.Imu.{DiagnosticStatus, read_imu}
use my_diffbot.System.Component.{ReturnType, System}

-- The times of one call of `write`: those of the wheel command and of the LED frame are readings
-- of the system clock, and `t_sec` is the time of the cycle in seconds.
pub record WriteTimes (F : Type 0) : Type 0 where
  pub now : ℕ
  pub t_sec : F
  pub at_gains : Clocks
  pub at_timeout : Clocks
  pub wall_led : ℕ
  pub wall_wheels : ℕ

-- The loop that mirrors the commands of the LED.
unfoldable pub mirror_led : {F : Type 0} → List Name → Values F → Values F
mirror_led [] v = v
mirror_led (name ∷ names) v =
    mirror_led names
      (if str_eq name.prefix_name "led" then set_state name (get_command name v) v else v)

module _ (S : SerialPort) (D : Double) where
  open S use {Device, is_open}
  open D use {F, literal}

  -- `read` after the serial port was read, up to `ReadWheels`: what is to be published, and the state.
  unfoldable pub after_read :
      ℕ → Transport Device (Kestrel F) → System Device F → Option DiagnosticStatus × System Device F
  unfolding mirror_led read_imu read_wheels
  after_read now t s =
      let k = t.link.shared.state in
      let mirrored = mirror_led s.interfaces.gpio_commands s.values in
      let publish_diag = leb one_sec_ns (now - s.imu_watch.last_diag_pub) in
      let marked =
        if publish_diag then record s.imu_watch { last_diag_pub = now } else s.imu_watch in
      let imu = read_imu now publish_diag s.interfaces.sensor_states k (marked, mirrored) in
      let wheels = read_wheels D now s.config.cpr s.interfaces.joint_states k (s.wheels, imu.2) in
      (imu.0, record s { kestrel = t; imu_watch = imu.1; wheels = wheels.0; values = wheels.1 })

  -- The end of `read`. Without the publisher it dereferences a null pointer, and has no result.
  unfoldable pub publish :
      Option DiagnosticStatus
      → System Device F
      → Option (ReturnType × Option DiagnosticStatus × System Device F)
  publish none s = some (ReturnType.ok, none, s)
  publish (some status) s = if s.has_diag_pub then some (ReturnType.ok, some status, s) else none

  unfoldable pub read :
      ℕ → ℕ → System Device F → Option (ReturnType × Option DiagnosticStatus × System Device F)
  unfolding after_read publish
  read now steady s =
      if not (is_open s.kestrel.device)
      then some (ReturnType.error, none, s)
      else (read_serial S (on_message_received D) steady s.kestrel >>= λ t.
          let after = after_read now t s in publish after.0 after.1)

  -- `write` after `WriteTuning`.
  unfoldable pub after_tuning :
      WriteTimes F → Tuning F × Transport Device (Kestrel F) → System Device F → System Device F
  unfolding write_led wheel_commands write_wheels
  after_tuning w (c, t) s =
      let names = s.interfaces in
      let lit = write_led S D w.now w.wall_led w.t_sec names.gpio_commands s.values (s.led, t) in
      let cmds = wheel_commands names.joint_commands s.values (literal 0 0, literal 0 0) in
      let driven = write_wheels S D w.now w.wall_wheels cmds (s.drive, lit.1) in
      record s { tuning = c; led = lit.0; drive = driven.0; kestrel = driven.1 }

  unfoldable pub write : ℕ → WriteTimes F → System Device F → Option (ReturnType × System Device F)
  unfolding write_tuning after_tuning
  write fuel w s =
      let names = s.interfaces.gpio_commands in
      if not (is_open s.kestrel.device)
      then some (ReturnType.error, s)
      else (write_tuning S D (on_message_received D) fuel w.at_gains w.at_timeout names s.values
            (s.tuning, s.kestrel)
          >>= λ r. some (ReturnType.ok, after_tuning w r s))
