-- ===== src/System/Led.antt =====
-- `WriteLed` of my_diffbot_system.cpp. Times are nanoseconds of the component's clock, which stands
-- still in one call; `t_sec` is the time of the cycle in seconds.
pub mod Refresh
use my_diffbot.Common.{
  ℕ, ◌-◌, List, Bool, true, false, not, ◌&&◌, Option, none, some, ◌==◌, leb, if◌then◌else◌,
}
use my_diffbot.Common.Int.{ℤ, pos, pos_part}
use my_diffbot.Double.{Double}
use my_diffbot.Protocol.Led.{LedOutput, resolve_led}
use my_diffbot.Transport.Serial.{SerialPort}
use my_diffbot.Transport.{Transport}
use my_diffbot.Kestrel.Commands.{set_rgb_led}
use my_diffbot.System.Interfaces.{Name, mem_name, Values, get_command}
use my_diffbot.System.Clamp.{int32_lowest, int32_max, uint32_max, clamp_cast}
use my_diffbot.System.Drive.{one_sec_ns}

pub record Led : Type 0 where
  pub sent_led : Option LedOutput
  pub last_led_send : ℕ

abbrev pub led_mode : Name
led_mode = record { prefix_name = "led"; interface_name = "led_mode" }

abbrev pub led_color : Name
led_color = record { prefix_name = "led"; interface_name = "led_color" }

abbrev pub led_color_alt : Name
led_color_alt = record { prefix_name = "led"; interface_name = "led_color_alt" }

abbrev pub led_period_ms : Name
led_period_ms = record { prefix_name = "led"; interface_name = "led_period_ms" }

-- `LedOutput::operator==`, and the comparison with an optional that may be empty.
unfoldable pub same_led : LedOutput → LedOutput → Bool
same_led a b = a.r == b.r && (a.g == b.g && (a.b == b.b && a.fw_mode == b.fw_mode))

unfoldable pub was_sent : Option LedOutput → LedOutput → Bool
unfolding same_led
was_sent none led = false
was_sent (some old) led = same_led old led

-- The commands, resolved into a frame.
unfoldable pub wanted_led : (D : Double) → D.F → Values D.F → Option LedOutput
wanted_led D t_sec v =
    let period = get_command led_period_ms v in
    resolve_led D (clamp_cast D int32_lowest int32_max (get_command led_mode v))
      (pos_part (clamp_cast D (pos 0) uint32_max (get_command led_color v)))
      (pos_part (clamp_cast D (pos 0) uint32_max (get_command led_color_alt v)))
      (if D.is_finite period then period else D.literal 0 0) t_sec

module _ (S : SerialPort) {H : Type 0} where
  open S use {Device}

  -- From the resolved frame on.
  unfoldable pub show_led :
      ℕ → ℕ → Option LedOutput → Led × Transport Device H → Led × Transport Device H
  unfolding was_sent
  show_led now wall none s = s
  show_led now wall (some led) (l, t) =
      let refresh_due = leb one_sec_ns (now - l.last_led_send) in
      if was_sent l.sent_led led && not refresh_due then (l, t) else (
        record { sent_led = some led; last_led_send = now },
        (set_rgb_led S wall led.r led.g led.b led.fw_mode t).1,
      )

  unfoldable pub write_led :
      (D : Double)
      → ℕ
      → ℕ
      → D.F
      → List Name
      → Values D.F
      → Led × Transport Device H
      → Led × Transport Device H
  write_led D now wall t_sec gpio_commands v s =
      if not (mem_name led_mode gpio_commands)
      then s
      else show_led now wall (wanted_led D t_sec v) s
