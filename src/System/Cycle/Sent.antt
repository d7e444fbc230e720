-- ===== src/System/Cycle/Sent.antt =====
-- The frames of one call of `write` of my_diffbot_system.cpp.
use mathlib.Core.List.{map-append}
use my_diffbot.Common.{
  ℕ, suc, ◌-◌, ◌*◌, ◌≤◌, ◌≡◌, refl, ◌∙◌, arith, List, ◌++◌, map, append_assoc, true, not, ◌&&◌,
  Option, none, some, if◌then◌else◌, ltb, leb, Bool-cases, inl, inr,
}
use my_diffbot.Double.{Double}
use my_diffbot.Protocol.MsgId
use my_diffbot.Protocol.Led.{LedOutput}
use my_diffbot.Protocol.Payload.Sent.{wheel_velocity_to_bytes, rgb_led_set_to_bytes}
use my_diffbot.Transport.Serial.{SerialPort}
use my_diffbot.Transport.Read.Received.{DeliversBytes}
use my_diffbot.Transport.Ack.Ends.{IsTicking}
use my_diffbot.Transport.Recorded.{
  recorded, Logged, StaysOpen, Wrote, written, recorded-DeliversBytes,
}
use my_diffbot.Kestrel.{Kestrel, on_message_received}
use my_diffbot.Kestrel.Commands.{
  wheel_velocity_payload, rgb_led_set_payload, set_wheel_velocity, set_rgb_led,
}
use my_diffbot.Kestrel.Commands.Written.{frame_of, send-Wrote}
use my_diffbot.System.Interfaces.{Name, mem_name, Values}
use my_diffbot.System.Drive.{Drive, one_sec_ns, wheel_commands, is_stopped, write_wheels}
use my_diffbot.System.Tuning.{k_runtime_ack_timeout_ms, read_tunings}
use my_diffbot.System.Tuning.Finite.{IsEqReflexive}
use my_diffbot.System.Tuning.Once.{updated}
use my_diffbot.System.Tuning.Settled.{write_tuning-Ended}
use my_diffbot.System.Led.{Led, led_mode, was_sent, wanted_led, show_led, write_led}
use my_diffbot.System.Component.{ReturnType, System}
use my_diffbot.System.Activate.Sound.{IsSound}
use my_diffbot.System.Cycle.{WriteTimes, after_tuning, write}
use my_diffbot.System.Cycle.Wanted.{
  gains_commands, timeout_commands, led_commands, velocity_commands, cycle_commands,
}
use my_diffbot.System.Cycle.Retuned.{After, no_commands, write_tuning-Wrote}

map_four :
    {A B : Type 0} (f : A → B) (start : List B) (a b c d : List A)
    → (((start ++ map f a) ++ map f b) ++ map f c) ++ map f d
      ≡ start ++ map f (a ++ (b ++ (c ++ d)))
map_four f start a b c d = simp (append_assoc, map-append)

module _ (S : SerialPort) (D : Double) (stays : StaysOpen S) (delivers : DeliversBytes S) where
  open D use {F, literal, eq}

  show_led-Wrote :
      (now wall : ℕ) (wanted : Option LedOutput) (l : Led) (t : Logged S (Kestrel F))
      (frames : List (List ℕ))
      → Wrote S frames t
      → After S D frames
          (led_commands D now wall l wanted)
          (show_led (recorded S) now wall wanted (l, t)).1
  unfolding show_led set_rgb_led
  show_led-Wrote now wall none l t frames wrote = no_commands S D frames t wrote
  show_led-Wrote now wall (some led) l t frames wrote =
      let bytes = rgb_led_set_to_bytes (rgb_led_set_payload wall led.r led.g led.b led.fw_mode) in
      elim (Bool-cases (was_sent l.sent_led led && not (leb one_sec_ns (now - l.last_led_send)))) [
        | inl shown ↦ rw shown (no_commands S D frames t wrote)
        | inr due ↦ rw due (send-Wrote S stays MsgId.rgb_led_set bytes frames t wrote)
      ]

  write_led-Wrote :
      (now wall : ℕ) (t_sec : F) (names : List Name) (v : Values F) (l : Led)
      (t : Logged S (Kestrel F)) (frames : List (List ℕ))
      → Wrote S frames t
      → After S D frames
          (led_commands D now wall l
            (if mem_name led_mode names then wanted_led D t_sec v else none))
          (write_led (recorded S) D now wall t_sec names v (l, t)).1
  unfolding write_led
  write_led-Wrote now wall t_sec names v l t frames wrote =
      elim (Bool-cases (mem_name led_mode names)) [
        | inr absent ↦ rw absent (no_commands S D frames t wrote)
        | inl listed ↦ rw listed (show_led-Wrote now wall (wanted_led D t_sec v) l t frames wrote)
      ]

  write_wheels-Wrote :
      (now wall : ℕ) (cmds : F × F) (d : Drive F) (t : Logged S (Kestrel F))
      (frames : List (List ℕ))
      → Wrote S frames t
      → After S D frames
          (velocity_commands D now wall cmds d.last_active_time)
          (write_wheels (recorded S) D now wall cmds (d, t)).1
  unfolding write_wheels set_wheel_velocity
  write_wheels-Wrote now wall (left, right) d t frames wrote =
      let bytes = wheel_velocity_to_bytes (wheel_velocity_payload wall D left right) in
      let sent = send-Wrote S stays MsgId.wheel_velocity bytes frames t wrote in
      elim (Bool-cases (is_stopped D (left, right))) [
        | inr moving ↦
            let now_moves : ltb (now - now) one_sec_ns ≡ true = ground arith in
            rw (moving, now_moves) sent
        | inl stopped ↦ elim (Bool-cases (ltb (now - d.last_active_time) one_sec_ns)) [
          | inl grace ↦ rw (stopped, grace) sent
          | inr over ↦ rw (stopped, over) (no_commands S D frames t wrote)
        ]
      ]

  -- If neither reading nor writing closes the port, the device delivers bytes, each round of a wait
  -- sleeps five milliseconds before the next test, the fuel is above a fifth of the runtime timeout
  -- and a finite `double` equals itself, then a cycle of `write` from a sound state on an open port
  -- succeeds, and gives to the port the frames of these commands in this order, and no other: the
  -- gains if one of the six differs from what was sent last; the timeout likewise; the LED frame if
  -- its mode is listed and known, and the frame is another than the last one or a second has passed
  -- since; and the wheel speed if it is not zero, or less than a second has passed since it last
  -- was not. The port stays open, and the configuration is not changed.
  pub write_sent :
      (fuel : ℕ) (w : WriteTimes F) (s : System (S.Device × List (List ℕ)) F)
      → k_runtime_ack_timeout_ms ≤ 5 * fuel
      → IsEqReflexive D
      → IsTicking w.at_gains.steady
      → IsTicking w.at_timeout.steady
      → IsSound D s
      → S.is_open s.kestrel.device.0 ≡ true
      → (s' : System (S.Device × List (List ℕ)) F) × (write (recorded S) D (suc fuel) w s
          ≡ some (ReturnType.ok, s'))
        × (written S s'.kestrel ≡ written S s.kestrel ++ map (frame_of D) (cycle_commands D w s))
        × (S.is_open s'.kestrel.device.0 ≡ true)
        × (s'.config ≡ s.config)
  unfolding write after_tuning
  write_sent fuel w s enough refl_eq ticking1 ticking2 sound opened =
      let names = s.interfaces.gpio_commands in
      let frames = written S s.kestrel in
      let c = updated D names s.values s.tuning in
      let wanted = read_tunings D names s.values s.tuning in
      let gains = gains_commands D w.at_gains wanted.sent_pid_gains s.tuning in
      let timeout = timeout_commands D w.at_timeout wanted.sent_cmd_timeout_ms s.tuning in
      let led =
        led_commands D w.now w.wall_led s.led
          (if mem_name led_mode names then wanted_led D w.t_sec s.values else none) in
      let cmds = wheel_commands s.interfaces.joint_commands s.values (literal 0 0, literal 0 0) in
      let sent1 = frames ++ map (frame_of D) gains in
      let wrote : Wrote S frames s.kestrel = record {
        ready = sound.ready;
        opened = opened;
        frames_eq = refl;
      } in
      let (t, ready, e) =
        write_tuning-Ended (recorded S) D (on_message_received D) fuel enough
          (recorded-DeliversBytes S delivers) w.at_gains w.at_timeout names s.values s.tuning
          s.kestrel ticking1 ticking2 sound.ready in
      let tuned =
        write_tuning-Wrote S D stays delivers (suc fuel) w names s.values s.tuning c s.kestrel t
          frames e wrote in
      let lit =
        write_led-Wrote w.now w.wall_led w.t_sec names s.values s.led t
          (sent1 ++ map (frame_of D) timeout) tuned in
      let (l1, t1) = write_led (recorded S) D w.now w.wall_led w.t_sec names s.values (s.led, t) in
      let driven =
        write_wheels-Wrote w.now w.wall_wheels cmds s.drive t1
          ((sent1 ++ map (frame_of D) timeout) ++ map (frame_of D) led) lit in
      (
        after_tuning (recorded S) D w (c, t) s,
        rw (opened, e),
        driven.frames_eq
            ∙ map_four (frame_of D) frames gains timeout led
                (velocity_commands D w.now w.wall_wheels cmds s.drive.last_active_time),
        driven.opened,
        refl,
      )
