-- ===== src/System/Activate/Wanted.antt =====
-- The commands that `on_activate` of my_diffbot_system.cpp is to send.
use my_diffbot.Common.{ℕ, zero, suc, ◌+◌, List, [], ◌∷◌}
use my_diffbot.Kestrel.Commands.Written.{Command}
use my_diffbot.System.Tuning.{Clocks}
use my_diffbot.System.Component.{Config}

-- So many handshakes, from this attempt on.
abbrev pub handshake_commands : {F : Type 0} → (ℕ → Clocks) → ℕ → ℕ → List (Command F)
handshake_commands at zero attempt = []
handshake_commands at (suc left) attempt =
    Command.handshake (at attempt).wall ∷ handshake_commands at left (attempt + 1)

abbrev pub config_commands : {F : Type 0} → (ℕ → Clocks) → Config F → List (Command F)
config_commands at c =
    let g = c.gains in
    Command.set_pid_gains (at 10).wall g.kp_l g.ki_l g.kd_l g.kp_r g.ki_r g.kd_r
    ∷ Command.set_command_timeout (at 11).wall c.cmd_timeout_ms
    ∷ []
