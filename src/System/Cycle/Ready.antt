-- ===== src/System/Cycle/Ready.antt =====
-- The sends in `write` of my_diffbot_system.cpp leave the transport ready for the next call.
use my_diffbot.Common.{
  ℕ, List, Option, none, some, if◌then◌else◌, leb, ltb, not, ◌||◌, ◌&&◌, ◌-◌, Bool-cases, inl, inr,
}
use my_diffbot.Double.{Double}
use my_diffbot.Protocol.MsgId
use my_diffbot.Protocol.Led.{LedOutput}
use my_diffbot.Protocol.Payload.Sent.{wheel_velocity_to_bytes, rgb_led_set_to_bytes}
use my_diffbot.Transport.Serial.{SerialPort}
use my_diffbot.Transport.{Transport}
use my_diffbot.Transport.Session.{write_command}
use my_diffbot.Transport.Read.Chunks.{IsReady}
use my_diffbot.Kestrel.Commands.{
  wheel_velocity_payload, rgb_led_set_payload, set_wheel_velocity, set_rgb_led,
}
use my_diffbot.System.Interfaces.{Name, Values, mem_name}
use my_diffbot.System.Drive.{Drive, one_sec_ns, is_stopped, write_wheels}
use my_diffbot.System.Led.{Led, led_mode, was_sent, wanted_led, show_led, write_led}
use my_diffbot.System.Activate.Sound.{write_command-IsReady}

module _ (S : SerialPort) {H : Type 0} where
  open S use {Device}

  -- A command without an ACK leaves the transport ready.
  pub set_wheel_velocity-IsReady :
      (wall : ℕ) (D : Double) (left right : D.F) (t : Transport Device H)
      → IsReady t
      → IsReady (set_wheel_velocity S wall D left right t).1
  unfolding set_wheel_velocity
  set_wheel_velocity-IsReady wall D left right t ready =
      let bytes = wheel_velocity_to_bytes (wheel_velocity_payload wall D left right) in
      let (sent, t') = write_command S MsgId.wheel_velocity bytes t in
      let kept = write_command-IsReady S MsgId.wheel_velocity bytes t ready in
      elim (Bool-cases sent) [ inl e ↦ rw e kept | inr e ↦ rw e kept ]

  set_rgb_led-IsReady :
      (wall red green blue mode : ℕ) (t : Transport Device H)
      → IsReady t
      → IsReady (set_rgb_led S wall red green blue mode t).1
  unfolding set_rgb_led
  set_rgb_led-IsReady wall red green blue mode t ready =
      let bytes = rgb_led_set_to_bytes (rgb_led_set_payload wall red green blue mode) in
      let (sent, t') = write_command S MsgId.rgb_led_set bytes t in
      let kept = write_command-IsReady S MsgId.rgb_led_set bytes t ready in
      elim (Bool-cases sent) [ inl e ↦ rw e kept | inr e ↦ rw e kept ]

  pub write_wheels-IsReady :
      (D : Double) (now wall : ℕ) (cmds : D.F × D.F) (d : Drive D.F) (t : Transport Device H)
      → IsReady t
      → IsReady (write_wheels S D now wall cmds (d, t)).1
  unfolding write_wheels
  write_wheels-IsReady D now wall (left, right) d t ready =
      let stopped = is_stopped D (left, right) in
      let active = if not stopped then now else d.last_active_time in
      let moved = set_wheel_velocity-IsReady wall D left right t ready in
      elim (Bool-cases (not stopped || ltb (now - active) one_sec_ns)) [
        | inl e ↦ rw e moved
        | inr e ↦ rw e ready
      ]

  show_led-IsReady :
      (now wall : ℕ) (wanted : Option LedOutput) (l : Led) (t : Transport Device H)
      → IsReady t
      → IsReady (show_led S now wall wanted (l, t)).1
  unfolding show_led
  show_led-IsReady now wall none l t ready = ready
  show_led-IsReady now wall (some led) l t ready =
      let sent = set_rgb_led-IsReady wall led.r led.g led.b led.fw_mode t ready in
      elim (Bool-cases (was_sent l.sent_led led && not (leb one_sec_ns (now - l.last_led_send)))) [
        | inl e ↦ rw e ready
        | inr e ↦ rw e sent
      ]

  pub write_led-IsReady :
      (D : Double) (now wall : ℕ) (t_sec : D.F) (names : List Name) (v : Values D.F) (l : Led)
      (t : Transport Device H)
      → IsReady t
      → IsReady (write_led S D now wall t_sec names v (l, t)).1
  unfolding write_led
  write_led-IsReady D now wall t_sec names v l t ready =
      elim (Bool-cases (mem_name led_mode names)) [
        | inl e ↦ rw e (show_led-IsReady now wall (wanted_led D t_sec v) l t ready)
        | inr e ↦ rw e ready
      ]
