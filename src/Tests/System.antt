-- ===== src/Tests/System.antt =====
-- The plugin over the test device.
use my_diffbot.Common.{◌-◌, ◌<◌, ◌≡◌, ◌⊎◌, refl, arith, List, [], ◌∷◌, true, false, none, some}
use my_diffbot.Common.Int.{ℤ, pos, negsuc, ltb_ℤ}
use my_diffbot.Protocol.Led.{LedOutput, is_alternate_phase, resolve_led}
use my_diffbot.Transport.{Transport}
use my_diffbot.Transport.Read.Chunks.{IsReady}
use my_diffbot.Kestrel.{Kestrel, initial, on_message_received}
use my_diffbot.System.Interfaces.{Name, Values}
use my_diffbot.System.Clamp.{IsBetween, IsCast, uint16_max, clamp_cast, clamp_cast_lem}
use my_diffbot.System.Drive.{Drive, one_sec_ns}
use my_diffbot.System.Drive.Grace.{Cycle, write_wheels-run}
use my_diffbot.System.Tuning.{Tuning, Clocks, write_tuning}
use my_diffbot.System.Tuning.Finite.{IsEqReflexive, IsFinite}
use my_diffbot.System.Tuning.Settled.{write_tuning_once}
use my_diffbot.System.Led.{Led, wanted_led, write_led}
use my_diffbot.System.Led.Refresh.{write_led_again}
use my_diffbot.Tests.Wire.{
  Wire, wire_port, wire_port-DeliversBytes, five_ms, transport, receiving, micro,
}
use my_diffbot.Tests.Transport.{five_ms-IsTicking}
use my_diffbot.Tests.Wheels.{quiet_values}

pub micro-IsEqReflexive : IsEqReflexive micro
micro-IsEqReflexive x h = ground arith

uint16-IsBetween :
    (v : ℤ)
    → ltb_ℤ v (pos 0) ≡ false
    → ltb_ℤ (pos 65_535_000_000) v ≡ false
    → IsBetween (pos 0) uint16_max (micro.trunc v)
uint16-IsBetween (pos n) lo hi = ground arith
uint16-IsBetween (negsuc n) lo hi = ground arith

micro-IsCast : IsCast micro (pos 0) uint16_max
micro-IsCast = record {
  at_lowest = refl;
  at_max = refl;
  between = λ v lo hi fine. uint16-IsBetween v lo hi;
}

abbrev pub settled : Tuning ℤ
settled = record {
  sent_pid_gains = record {
    kp_l = pos 0;
    ki_l = pos 0;
    kd_l = pos 0;
    kp_r = pos 0;
    ki_r = pos 0;
    kd_r = pos 0;
  };
  sent_cmd_timeout_ms = pos 0;
}

pub all-IsFinite : (c : Tuning ℤ) → IsFinite micro c
all-IsFinite c = record {
  kp_l = refl;
  ki_l = refl;
  kd_l = refl;
  kp_r = refl;
  ki_r = refl;
  kd_r = refl;
  timeout = refl;
}

clamp_cast_lem_example :
    let z = clamp_cast micro (pos 0) uint16_max (pos 70_000_000_000) in
    IsBetween (pos 0) uint16_max z
    × (((true ≡ false) × (z ≡ pos 0))
        ⊎ ((true ≡ true) × (ltb_ℤ (pos 70_000_000_000) (pos 0) ≡ true) × (z ≡ pos 0))
        ⊎ ((true ≡ true)
            × (ltb_ℤ (pos 70_000_000_000) (pos 0) ≡ false)
            × (ltb_ℤ (pos 65_535_000_000) (pos 70_000_000_000) ≡ true)
            × (z ≡ uint16_max))
        ⊎ ((true ≡ true)
            × (ltb_ℤ (pos 70_000_000_000) (pos 0) ≡ false)
            × (ltb_ℤ (pos 65_535_000_000) (pos 70_000_000_000) ≡ false)
            × (z ≡ pos 70_000)))
clamp_cast_lem_example =
    clamp_cast_lem micro (pos 0) uint16_max (pos 70_000_000_000) micro-IsCast (refl, refl) refl

abbrev pub robot : Transport Wire (Kestrel ℤ)
robot = transport (initial micro) (receiving [])

abbrev pub drive : Drive ℤ
drive = record {
  last_active_time = 0;
  left_wheel_target_velocity = pos 0;
  right_wheel_target_velocity = pos 0;
}

-- A movement, a stop half a second later, and one more than a second later.
abbrev stopping : List (Cycle ℤ)
stopping =
    record { now = 2_000_000_000; wall = 1; commands = (pos 1_000_000, pos 0) }
    ∷ record { now = 2_500_000_000; wall = 2; commands = (pos 0, pos 0) }
    ∷ record { now = 3_500_000_000; wall = 3; commands = (pos 0, pos 0) }
    ∷ []

write_wheels-run_example :
    (my_diffbot.System.Drive.Grace.run wire_port micro stopping (drive, robot)).1
    ≡ my_diffbot.System.Drive.Grace.sent wire_port micro 0 stopping robot
write_wheels-run_example = write_wheels-run wire_port micro stopping (drive, robot)

abbrev pub clocks : Clocks
clocks = record { steady = five_ms; wall = 0 }

abbrev tuned : Values ℤ
tuned = record quiet_values { command = λ n. pos 7_000_000 }

abbrev pub gpio_names : List Name
gpio_names =
    record { prefix_name = "kestrel_pid"; interface_name = "kp_l" }
    ∷ record { prefix_name = "led"; interface_name = "led_mode" }
    ∷ []

pub robot-IsReady : IsReady robot
robot-IsReady = record { waits = tt; bytes = tt }

write_tuning_once_example :
    (c' : Tuning ℤ) × (t' : Transport Wire (Kestrel ℤ)) × IsReady t'
    × IsFinite micro c'
    × (write_tuning wire_port micro
          (on_message_received micro)
          5
          clocks
          clocks
          gpio_names
          tuned
          (settled, robot)
        ≡ some (c', t'))
    × (write_tuning wire_port micro
          (on_message_received micro)
          5
          clocks
          clocks
          gpio_names
          tuned
          (c', t')
        ≡ some (c', t'))
write_tuning_once_example =
    write_tuning_once wire_port micro (on_message_received micro) 4 (omega arith)
      wire_port-DeliversBytes clocks clocks clocks clocks gpio_names tuned settled robot
      micro-IsEqReflexive (all-IsFinite settled) five_ms-IsTicking five_ms-IsTicking robot-IsReady

abbrev pub unlit : Led
unlit = record { sent_led = none; last_led_send = 0 }

-- Solid, in the colour one.
abbrev pub lit_values : Values ℤ
lit_values = record quiet_values { command = λ n. pos 1_000_000 }

abbrev frame : LedOutput
frame = record { r = 0; g = 0; b = 1; fw_mode = 1 }

write_led_again_example :
    let s' = write_led wire_port micro 5 0 (pos 0) gpio_names lit_values (unlit, robot) in
    (s'.0.sent_led ≡ some frame)
    × (5 - s'.0.last_led_send < one_sec_ns)
    × (write_led wire_port micro 900 0 (pos 0) gpio_names lit_values s' ≡ s')
unfolding wanted_led resolve_led is_alternate_phase clamp_cast
write_led_again_example =
    write_led_again wire_port micro 5 900 0 0 (pos 0) (pos 0) gpio_names lit_values lit_values frame
      (unlit, robot) refl refl refl (omega arith)
