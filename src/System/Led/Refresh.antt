-- ===== src/System/Led/Refresh.antt =====
-- `WriteLed` of my_diffbot_system.cpp from one cycle to the next.
use my_diffbot.Common.{ℕ, ◌-◌, ◌<◌, ◌≡◌, ◌⊎◌, arith, List, true, Option, none, some}
use my_diffbot.Double.{Double}
use my_diffbot.Protocol.Led.{LedOutput}
use my_diffbot.Transport.Serial.{SerialPort}
use my_diffbot.Transport.{Transport}
use my_diffbot.System.Interfaces.{Name, mem_name, Values}
use my_diffbot.System.Drive.{one_sec_ns}
use my_diffbot.System.Led.{Led, led_mode, was_sent, wanted_led, show_led, write_led}

eq_of_was_sent :
    (old : Option LedOutput) (led : LedOutput) → was_sent old led ≡ true → old ≡ some led
unfolding was_sent
eq_of_was_sent none led h = cc
eq_of_was_sent (some old) led h = ground arith

was_sent_self : (led : LedOutput) → was_sent (some led) led ≡ true
unfolding was_sent
was_sent_self led = ground arith

module _ (S : SerialPort) {H : Type 0} where
  open S use {Device}

  show_led-again :
      (now now' wall wall' : ℕ) (led : LedOutput) (s : Led × Transport Device H)
      → let s' = show_led S now wall (some led) s in
        now' - s'.0.last_led_send < one_sec_ns
        → (s'.0.sent_led ≡ some led)
          × (now - s'.0.last_led_send < one_sec_ns)
          × (show_led S now' wall' (some led) s' ≡ s')
  unfolding show_led
  show_led-again now now' wall wall' led s soon =
      ground (arith, was_sent_self led, eq_of_was_sent s.0.sent_led led)

  -- If the LED mode is an interface, then after a cycle whose commands resolve to a frame, that
  -- frame is the one last sent, less than a second ago; and it is not sent again by a later cycle
  -- with the same frame less than a second after the last send.
  pub write_led_again :
      (D : Double) (now now' wall wall' : ℕ) (t_sec t_sec' : D.F) (gpio_commands : List Name)
      (v v' : Values D.F) (led : LedOutput) (s : Led × Transport Device H)
      → mem_name led_mode gpio_commands ≡ true
      → wanted_led D t_sec v ≡ some led
      → wanted_led D t_sec' v' ≡ some led
      → let s' = write_led S D now wall t_sec gpio_commands v s in
        now' - s'.0.last_led_send < one_sec_ns
        → (s'.0.sent_led ≡ some led)
          × (now - s'.0.last_led_send < one_sec_ns)
          × (write_led S D now' wall' t_sec' gpio_commands v' s' ≡ s')
  unfolding write_led
  write_led_again D now now' wall wall' t_sec t_sec' gpio_commands v v' led s listed first second =
      rw (listed, first, second) (show_led-again now now' wall wall' led s)

  -- What a cycle leaves, and a frame that needs no new send, whatever was sent in between.
  pub write_led-sent :
      (D : Double) (now wall : ℕ) (t_sec : D.F) (names : List Name) (v : Values D.F)
      (led : LedOutput) (l : Led) (t : Transport Device H)
      → mem_name led_mode names ≡ true
      → wanted_led D t_sec v ≡ some led
      → let l' = (write_led S D now wall t_sec names v (l, t)).0 in
        (l'.sent_led ≡ some led) × ((l'.last_led_send ≡ l.last_led_send) ⊎ (l'.last_led_send ≡ now))
  unfolding write_led show_led
  write_led-sent D now wall t_sec names v led l t listed wanted =
      rw (listed, wanted) (ground (arith, eq_of_was_sent l.sent_led led))

  pub write_led-quiet :
      (D : Double) (now wall : ℕ) (t_sec : D.F) (names : List Name) (v : Values D.F)
      (led : LedOutput) (l : Led) (t : Transport Device H)
      → mem_name led_mode names ≡ true
      → wanted_led D t_sec v ≡ some led
      → l.sent_led ≡ some led
      → now - l.last_led_send < one_sec_ns
      → write_led S D now wall t_sec names v (l, t) ≡ (l, t)
  unfolding write_led show_led
  write_led-quiet D now wall t_sec names v led l t listed wanted sent soon =
      let known : was_sent l.sent_led led ≡ true = rw sent (was_sent_self led) in
      rw (listed, wanted, known) (ground arith)
