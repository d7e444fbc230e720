-- ===== src/Tests/Callbacks.antt =====
-- The callbacks of the plugin over the test device.
use my_diffbot.Common.{
  ℕ, ◌≤◌, ◌≡◌, ◌≢◌, ◌↔◌, ◌⊎◌, refl, arith, List, [], ◌∷◌, true, false, Option, none, some,
}
use my_diffbot.Common.Int.{ℤ, pos}
use my_diffbot.Transport.{Transport}
use my_diffbot.Kestrel.{Kestrel, initial, on_message_received}
use my_diffbot.System.Interfaces.{Name, get_state}
use my_diffbot.System.Tuning.{write_tuning}
use my_diffbot.System.Component.{CallbackReturn, ReturnType, System}
use my_diffbot.System.Activate.{sent_tuning, on_activate}
use my_diffbot.System.Activate.Sound.{IsSound}
use my_diffbot.System.Activate.Ends.{on_activate_lem}
use my_diffbot.System.Lifecycle.{on_cleanup}
use my_diffbot.System.Cycle.{WriteTimes}
use my_diffbot.Protocol.Led.{LedOutput, resolve_led}
use my_diffbot.System.Clamp.{clamp_cast}
use my_diffbot.System.Drive.{wheel_commands}
use my_diffbot.System.Led.{wanted_led}
use my_diffbot.System.Cycle.Silent.{write_silent}
use my_diffbot.System.Cycle.Closed.{on_cleanup_closed}
use my_diffbot.System.Runs.{
  Event, configure, activate, deactivate, cleanup, read_cycle, write_cycle, IsOrdered,
}
use my_diffbot.System.Init.{HardwareInfo, on_init}
use my_diffbot.System.Init.Wheel.{IsWheel, on_init_success}
use my_diffbot.System.Init.Numbers.{Numbers, IsRead, set_up_with}
use my_diffbot.System.Imu.{Level, DiagnosticStatus, imu_stale_ns, imu_value, read_imu}
use my_diffbot.System.Imu.Diagnosed.{read_imu_lem}
use my_diffbot.Tests.Wire.{Wire, wire_port, wire_port-DeliversBytes, micro}
use my_diffbot.Tests.Transport.{five_ms-IsTicking}
use my_diffbot.Tests.System.{
  micro-IsEqReflexive, settled, all-IsFinite, robot, drive, clocks, gpio_names, robot-IsReady,
  unlit,
}
use my_diffbot.Tests.Wheels.{joint_names, quiet_values, wheels, cpr}

abbrev orientation_w : Name
orientation_w = record { prefix_name = "bno055_imu"; interface_name = "orientation.w" }

abbrev pub idle_over : {Device : Type 0} → Transport Device (Kestrel ℤ) → System Device ℤ
idle_over t = record {
  kestrel = t;
  config = record {
    cpr = cpr;
    gains = record {
      kp_l = pos 1500;
      ki_l = pos 3000;
      kd_l = pos 0;
      kp_r = pos 1500;
      ki_r = pos 3000;
      kd_r = pos 0;
    };
    cmd_timeout_ms = 250;
  };
  interfaces = record {
    joint_states = joint_names;
    joint_commands = [];
    gpio_states = [];
    gpio_commands = gpio_names;
    sensor_states = orientation_w ∷ [];
  };
  values = quiet_values;
  wheels = wheels;
  drive = drive;
  tuning = settled;
  led = unlit;
  imu_watch = record { last_diag_pub = 0; last_imu_count = 0; last_imu_count_change = 0 };
  has_diag_pub = true;
}

abbrev idle : System Wire ℤ
idle = idle_over robot

idle-IsSound : IsSound micro idle
idle-IsSound = record {
  ready = robot-IsReady;
  sent = all-IsFinite settled;
  config = all-IsFinite (sent_tuning micro idle.config);
}

on_activate_lem_example :
    (s' : System Wire ℤ) × IsSound micro s'
    × ((on_activate wire_port micro 601 7 (λ k. clocks) idle ≡ some (CallbackReturn.failure, s'))
        ⊎ ((on_activate wire_port micro 601 7 (λ k. clocks) idle
              ≡ some (CallbackReturn.success, s'))
            × (s'.tuning ≡ sent_tuning micro idle.config)
            × (s'.wheels.ticks_init ≡ false)
            × (s'.drive.last_active_time ≡ 7)
            × (write_tuning wire_port micro
                  (on_message_received micro)
                  601
                  clocks
                  clocks
                  s'.interfaces.gpio_commands
                  s'.values
                  (s'.tuning, s'.kestrel)
                ≡ some (s'.tuning, s'.kestrel))))
on_activate_lem_example =
    on_activate_lem wire_port micro 600 (omega arith) wire_port-DeliversBytes (λ k. clocks)
      (λ k. five_ms-IsTicking) 7 clocks clocks idle micro-IsEqReflexive idle-IsSound

abbrev pub times : WriteTimes ℤ
times = record {
  now = 2_000_000_000;
  t_sec = pos 2_000_000;
  at_gains = clocks;
  at_timeout = clocks;
  wall_led = 0;
  wall_wheels = 0;
}

abbrev pub session : List (Event ℤ)
session =
    configure
    ∷ activate 7 (λ k. clocks)
    ∷ read_cycle 1_000_000_000 9
    ∷ write_cycle times
    ∷ deactivate (λ k. clocks)
    ∷ cleanup
    ∷ []

pub session-IsOrdered : IsOrdered true session
session-IsOrdered = (tt, (tt, (refl, (tt, (tt, (tt, tt))))))

on_cleanup_closed_example :
    let s' = (on_cleanup wire_port micro idle).1 in
    (my_diffbot.System.Cycle.read wire_port micro 1 2 s' ≡ some (ReturnType.error, none, s'))
    × (my_diffbot.System.Cycle.write wire_port micro 601 times s' ≡ some (ReturnType.error, s'))
on_cleanup_closed_example = on_cleanup_closed wire_port micro 601 1 2 times idle (λ d. refl)

-- A text of one byte is that number.
abbrev one_byte : List ℕ → Option ℤ
one_byte (b ∷ []) = some (pos b)
one_byte bytes = none

abbrev description : HardwareInfo
description = record {
  hardware_parameters = λ key. some (5 ∷ []);
  joints =
      record {
        command_interfaces = "velocity" ∷ [];
        state_interfaces = "position" ∷ "velocity" ∷ [];
      }
      ∷ [];
}

abbrev five : Numbers
five = record {
  baud_rate = pos 5;
  timeout_ms = pos 5;
  cpr = pos 5;
  cmd_timeout_ms = pos 5;
  gains = record {
    kp_l = pos 5;
    ki_l = pos 5;
    kd_l = pos 5;
    kp_r = pos 5;
    ki_r = pos 5;
    kd_r = pos 5;
  };
}

abbrev initialised : System Wire ℤ
initialised = set_up_with one_byte description micro five idle

on_init_success_example :
    (on_init one_byte description micro true idle ≡ some (CallbackReturn.success, initialised)) ↔ (
      (true ≡ true)
      × (n : Numbers) × IsRead one_byte description n
      × (initialised ≡ set_up_with one_byte description micro n idle)
      × (IsWheel (record {
        command_interfaces = "velocity" ∷ [];
        state_interfaces = "position" ∷ "velocity" ∷ [];
      })
          × Unit {0}))
on_init_success_example = on_init_success one_byte description micro true idle initialised

read_imu_lem_example :
    let (diag, w', v') =
      read_imu 3_000_000_000 true
        (orientation_w ∷ [])
        (initial micro)
        (idle.imu_watch, quiet_values) in
    (get_state orientation_w v' ≡ pos 1_000_000)
    × (w'.last_imu_count ≡ 0)
    × (((true ≡ false) × (diag ≡ none))
        ⊎ ((true ≡ true)
            × (d : DiagnosticStatus) × (diag ≡ some d)
            × ((d.level ≡ Level.ok) ↔ (
                (false ≡ true)
                × (2 ≤ 0)
                × (((initial micro).imu.count ≢ idle.imu_watch.last_imu_count)
                    ⊎ (3_000_000_000 ≤ imu_stale_ns))))))
unfolding imu_value
read_imu_lem_example =
    read_imu_lem 3_000_000_000 true orientation_w (orientation_w ∷ []) (initial micro)
      idle.imu_watch quiet_values

-- A LED frame half a second before the first cycle.
abbrev standing : System Wire ℤ
standing = record idle { led = record { sent_led = none; last_led_send = 1_500_000_000 } }

standing-IsSound : IsSound micro standing
standing-IsSound = record {
  ready = robot-IsReady;
  sent = all-IsFinite settled;
  config = all-IsFinite (sent_tuning micro idle.config);
}

abbrev next_times : WriteTimes ℤ
next_times = record times { now = 2_010_000_000; t_sec = pos 2_010_000 }

abbrev dark : LedOutput
dark = record { r = 0; g = 0; b = 0; fw_mode = 0 }

write_silent_example :
    (s1 : System Wire ℤ) × (my_diffbot.System.Cycle.write wire_port micro 5 times standing
      ≡ some (ReturnType.ok, s1))
    × (x : ReturnType) × (s2 : System Wire ℤ) × (my_diffbot.System.Cycle.write wire_port micro 5
          next_times s1
        ≡ some (x, s2))
    × (s2.kestrel ≡ s1.kestrel)
unfolding wanted_led resolve_led clamp_cast wheel_commands
write_silent_example =
    write_silent wire_port micro 4 (omega arith) wire_port-DeliversBytes times next_times dark
      standing micro-IsEqReflexive standing-IsSound five_ms-IsTicking five_ms-IsTicking refl refl
      refl refl (omega arith) (omega arith) refl (omega arith)
