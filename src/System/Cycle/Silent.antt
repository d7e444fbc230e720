-- ===== src/System/Cycle/Silent.antt =====
-- `write` of my_diffbot_system.cpp in a robot that stands still.
use my_diffbot.Common.{
  ℕ, suc, ◌-◌, ◌*◌, ◌≤◌, ◌<◌, ◌≡◌, refl, arith, true, some, Bool-cases, inl, inr,
}
use my_diffbot.Double.{Double}
use my_diffbot.Protocol.Led.{LedOutput}
use my_diffbot.Transport.Serial.{SerialPort}
use my_diffbot.Transport.{Transport}
use my_diffbot.Transport.Read.Received.{DeliversBytes}
use my_diffbot.Transport.Ack.Ends.{IsTicking}
use my_diffbot.Kestrel.{on_message_received}
use my_diffbot.System.Interfaces.{mem_name}
use my_diffbot.System.Drive.{Drive, one_sec_ns, wheel_commands, is_stopped, write_wheels}
use my_diffbot.System.Tuning.{write_tuning, k_runtime_ack_timeout_ms}
use my_diffbot.System.Tuning.Finite.{IsEqReflexive}
use my_diffbot.System.Tuning.Once.{updated}
use my_diffbot.System.Tuning.Settled.{write_tuning-Ended, write_tuning-updated}
use my_diffbot.System.Led.{led_mode, wanted_led, write_led}
use my_diffbot.System.Led.Refresh.{write_led-sent, write_led-quiet}
use my_diffbot.System.Component.{ReturnType, System}
use my_diffbot.System.Activate.Sound.{IsSound}
use my_diffbot.System.Cycle.{WriteTimes, after_tuning, write}

module _ (S : SerialPort) (D : Double) where
  open S use {Device, is_open}
  open D use {F, literal}

  abbrev pub wheels_of : System Device F → F × F
  wheels_of s = wheel_commands s.interfaces.joint_commands s.values (literal 0 0, literal 0 0)

  write_wheels-stopped :
      {H : Type 0} (now wall : ℕ) (cmds : F × F) (d : Drive F) (t : Transport Device H)
      → is_stopped D cmds ≡ true
      → ((write_wheels S D now wall cmds (d, t)).0.last_active_time ≡ d.last_active_time)
        × (one_sec_ns ≤ now - d.last_active_time → (write_wheels S D now wall cmds (d, t)).1 ≡ t)
  unfolding write_wheels
  write_wheels-stopped now wall (l, r) d t stopped = (ground arith, λ late. ground arith)

  -- A cycle with nothing to send leaves the transport as it was, whether or not the port is open.
  write_nothing :
      (fuel : ℕ) (w : WriteTimes F) (led : LedOutput) (s : System Device F)
      → write_tuning S D
          (on_message_received D)
          fuel
          w.at_gains
          w.at_timeout
          s.interfaces.gpio_commands
          s.values
          (s.tuning, s.kestrel)
        ≡ some (s.tuning, s.kestrel)
      → write_led S D w.now w.wall_led w.t_sec s.interfaces.gpio_commands s.values
          (s.led, s.kestrel)
        ≡ (s.led, s.kestrel)
      → is_stopped D (wheels_of s) ≡ true
      → one_sec_ns ≤ w.now - s.drive.last_active_time
      → (x : ReturnType) × (s' : System Device F) × (write S D fuel w s ≡ some (x, s'))
        × (s'.kestrel ≡ s.kestrel)
  unfolding write after_tuning
  write_nothing fuel w led s tuned lit stopped late = elim (Bool-cases (is_open s.kestrel.device)) [
    | inr closed ↦ rw closed (ReturnType.error, s, refl, refl)
    | inl opened ↦
        let cmds = wheel_commands s.interfaces.joint_commands s.values (literal 0 0, literal 0 0) in
        rw (opened, tuned)
          (
            ReturnType.ok,
            after_tuning S D w (s.tuning, s.kestrel) s,
            refl,
            rw lit
                ((write_wheels-stopped w.now w.wall_wheels cmds s.drive s.kestrel stopped).1 late),
          )
  ]

  module _ (fuel : ℕ) (enough : k_runtime_ack_timeout_ms ≤ 5 * fuel)
      (delivers : DeliversBytes S) where
    -- With a fuel above a fifth of the runtime timeout, waits of which each round sleeps five
    -- milliseconds before the next test, a device that delivers bytes and a finite `double` that
    -- equals itself, a cycle of `write` on an open port from a sound state succeeds. Let the wheel
    -- commands be zero and the last movement a second or more before the next cycle, let the LED
    -- mode be an interface and both cycles resolve to the same LED frame, and let the next cycle
    -- come less than a second after this one and after the last LED frame before it. Then the next
    -- cycle, with the same commands, writes nothing: the transport stays as it was.
    pub write_silent :
        (w w' : WriteTimes F) (led : LedOutput) (s : System Device F)
        → IsEqReflexive D
        → IsSound D s
        → IsTicking w.at_gains.steady
        → IsTicking w.at_timeout.steady
        → is_open s.kestrel.device ≡ true
        → mem_name led_mode s.interfaces.gpio_commands ≡ true
        → wanted_led D w.t_sec s.values ≡ some led
        → wanted_led D w'.t_sec s.values ≡ some led
        → w'.now - s.led.last_led_send < one_sec_ns
        → w'.now - w.now < one_sec_ns
        → is_stopped D (wheels_of s) ≡ true
        → one_sec_ns ≤ w'.now - s.drive.last_active_time
        → (s1 : System Device F) × (write S D (suc fuel) w s ≡ some (ReturnType.ok, s1))
          × (x : ReturnType) × (s2 : System Device F) × (write S D (suc fuel) w' s1 ≡ some (x, s2))
          × (s2.kestrel ≡ s1.kestrel)
    unfolding write after_tuning
    write_silent w w' led s refl_eq sound ticking1 ticking2 opened listed first second soon next
          stopped late =
        let names = s.interfaces.gpio_commands in
        let v = s.values in
        let c = updated D names v s.tuning in
        let cmds = wheels_of s in
        let (t, ready, e) =
          write_tuning-Ended S D (on_message_received D) fuel enough delivers w.at_gains
            w.at_timeout names v s.tuning s.kestrel ticking1 ticking2 sound.ready in
        let (l1, t1) = write_led S D w.now w.wall_led w.t_sec names v (s.led, t) in
        let (lit, when) =
          write_led-sent S D w.now w.wall_led w.t_sec names v led s.led t listed first in
        let active = (write_wheels-stopped w.now w.wall_wheels cmds s.drive t1 stopped).0 in
        let s1 : System Device F = after_tuning S D w (c, t) s in
        let last : one_sec_ns ≤ w'.now - s1.drive.last_active_time = rw active late in
        let due : w'.now - l1.last_led_send < one_sec_ns = elim when [
          | inl same ↦ rw same soon
          | inr new ↦ rw new next
        ] in
        let (x, s2, e2, kept) =
          write_nothing (suc fuel) w' led s1
            (write_tuning-updated S D (on_message_received D) fuel enough delivers w'.at_gains
              w'.at_timeout names v s.tuning s1.kestrel refl_eq sound.sent)
            (write_led-quiet S D w'.now w'.wall_led w'.t_sec names v led l1 s1.kestrel listed second
              lit due)
            stopped last in
        (s1, rw (opened, e), x, s2, e2, kept)
