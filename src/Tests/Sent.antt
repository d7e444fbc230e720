-- ===== src/Tests/Sent.antt =====
-- What the callbacks of the plugin give to the test device.
use my_diffbot.Common.{true, ℕ, ◌≡◌, refl, arith, List, [], ◌∷◌, some}
use my_diffbot.Common.Int.{ℤ, pos}
use my_diffbot.Protocol.Led.{resolve_led}
use my_diffbot.Transport.{Transport}
use my_diffbot.Transport.Recorded.{recorded, written}
use my_diffbot.Kestrel.{Kestrel, initial}
use my_diffbot.Kestrel.Commands.Written.{Command, frame_of}
use my_diffbot.System.Interfaces.{Name, get_command}
use my_diffbot.System.Clamp.{clamp_cast}
use my_diffbot.System.Tuning.{read_tuning, read_tunings, same_gains}
use my_diffbot.System.Drive.{wheel_commands}
use my_diffbot.System.Led.{wanted_led, was_sent}
use my_diffbot.System.Component.{CallbackReturn, ReturnType, System}
use my_diffbot.System.Activate.{sent_tuning, on_activate}
use my_diffbot.System.Activate.Sound.{IsSound}
use my_diffbot.System.Activate.Sent.{Activation, on_activate_sent}
use my_diffbot.System.Lifecycle.{on_deactivate}
use my_diffbot.System.Lifecycle.Sent.{on_deactivate_sent}
use my_diffbot.System.Cycle.{WriteTimes}
use my_diffbot.System.Cycle.Sent.{write_sent}
use my_diffbot.Tests.Wire.{
  Wire, wire_port, wire_port-DeliversBytes, wire_port-StaysOpen, transport, receiving, micro,
}
use my_diffbot.Tests.Transport.{five_ms-IsTicking}
use my_diffbot.Tests.System.{micro-IsEqReflexive, settled, all-IsFinite, clocks, lit_values}
use my_diffbot.Tests.Callbacks.{idle_over, times}

-- An open port to which nothing was given yet.
abbrev fresh : Transport (Wire × List (List ℕ)) (Kestrel ℤ)
fresh = transport (initial micro) (receiving [], [])

abbrev left_velocity : Name
left_velocity = record { prefix_name = "left_wheel_joint"; interface_name = "velocity" }

abbrev resting : System (Wire × List (List ℕ)) ℤ
resting = idle_over fresh

-- A velocity, a gain and a mode of the LED are commanded, each of them one.
abbrev commanded : System (Wire × List (List ℕ)) ℤ
commanded = record resting {
  interfaces = record resting.interfaces { joint_commands = left_velocity ∷ [] };
  values = lit_values;
}

commanded-IsSound : IsSound micro commanded
commanded-IsSound = record {
  ready = record { waits = tt; bytes = tt };
  sent = all-IsFinite settled;
  config = all-IsFinite (sent_tuning micro commanded.config);
}

write_sent_example :
    (s' : System (Wire × List (List ℕ)) ℤ) × (my_diffbot.System.Cycle.write
        (recorded wire_port)
        micro
        21
        times
        commanded
      ≡ some (ReturnType.ok, s'))
    × (written wire_port s'.kestrel
        ≡ frame_of micro (Command.set_pid_gains 0 (pos 1) (pos 0) (pos 0) (pos 0) (pos 0) (pos 0))
          ∷ frame_of micro (Command.rgb_led 0 (record { r = 0; g = 0; b = 1; fw_mode = 1 }))
          ∷ frame_of micro (Command.wheel_velocity 0 (pos 1_000_000) (pos 0))
          ∷ [])
    × (s'.kestrel.device.0.opened ≡ true)
    × (s'.config ≡ commanded.config)
unfolding read_tunings read_tuning same_gains clamp_cast wheel_commands wanted_led resolve_led
    was_sent
write_sent_example =
    write_sent wire_port micro wire_port-StaysOpen wire_port-DeliversBytes 20 times commanded
      (omega arith) micro-IsEqReflexive five_ms-IsTicking five_ms-IsTicking commanded-IsSound refl

on_deactivate_sent_example :
    (s' : System (Wire × List (List ℕ)) ℤ) × (on_deactivate
        (recorded wire_port)
        micro
        601
        (λ k. clocks)
        resting
      ≡ some (CallbackReturn.success, s'))
    × (written wire_port s'.kestrel
        ≡ frame_of micro (Command.wheel_velocity 0 (pos 0) (pos 0))
          ∷ frame_of micro (Command.deactivate 0)
          ∷ frame_of micro (Command.reset 0)
          ∷ [])
    × (s'.kestrel.device.0.opened ≡ true)
    × (s'.config ≡ resting.config)
    × (get_command (record { prefix_name = "led"; interface_name = "led_mode" }) s'.values ≡ pos 0)
on_deactivate_sent_example =
    on_deactivate_sent wire_port micro wire_port-StaysOpen wire_port-DeliversBytes 600 (λ k. clocks)
      (record { prefix_name = "led"; interface_name = "led_mode" }) resting (omega arith)
      (λ k. five_ms-IsTicking) (record { waits = tt; bytes = tt }) refl

on_activate_sent_example :
    (x : CallbackReturn) × (s' : System (Wire × List (List ℕ)) ℤ) × (on_activate
        (recorded wire_port)
        micro
        601
        7
        (λ k. clocks)
        resting
      ≡ some (x, s'))
    × Activation wire_port micro (λ k. clocks) resting x s'
on_activate_sent_example =
    on_activate_sent wire_port micro wire_port-StaysOpen wire_port-DeliversBytes (λ k. clocks) 600
      (omega arith) (λ k. five_ms-IsTicking) 7 resting (record { waits = tt; bytes = tt })
