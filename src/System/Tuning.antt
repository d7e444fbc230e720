-- ===== src/System/Tuning.antt =====
-- `WriteTuning` of my_diffbot_system.cpp. `none` is fuel of a wait that ran out.
pub mod Picked
pub mod Finite
pub mod Once
pub mod Settled
use Prim.Native.String.{String}
use text.Mathlib.Text.{◌==◌ as str_eq}
use my_diffbot.Common.{
  ℕ, List, [], ◌∷◌, Bool, true, false, not, ◌&&◌, Option, none, some, if◌then◌else◌,
}
use my_diffbot.Common.Int.{ℤ, pos, pos_part}
use my_diffbot.Double.{Double}
use my_diffbot.Protocol.AckStatus.{AckStatus}
use my_diffbot.Transport.Serial.{SerialPort, Hook}
use my_diffbot.Transport.{Transport}
use my_diffbot.Transport.Read.{◌>>=◌}
use my_diffbot.Kestrel.Commands.{set_pid_gains, set_command_timeout}
use my_diffbot.System.Interfaces.{Name, Values, get_command}
use my_diffbot.System.Clamp.{int32_lowest, int32_max, uint16_max, clamp_cast}

-- Six gains, in the order of kGainOrder.
pub record Gains (A : Type 0) : Type 0 where
  pub kp_l : A
  pub ki_l : A
  pub kd_l : A
  pub kp_r : A
  pub ki_r : A
  pub kd_r : A

abbrev pub map_gains : {A B : Type 0} → (A → B) → Gains A → Gains B
map_gains f g = record {
  kp_l = f g.kp_l;
  ki_l = f g.ki_l;
  kd_l = f g.kd_l;
  kp_r = f g.kp_r;
  ki_r = f g.ki_r;
  kd_r = f g.kd_r;
}

-- sent_pid_gains_ and sent_cmd_timeout_ms_.
pub record Tuning (F : Type 0) : Type 0 where
  pub sent_pid_gains : Gains F
  pub sent_cmd_timeout_ms : F

-- What the clocks show during one command: the steady clock at each reading, and the system clock.
pub record Clocks : Type 0 where
  pub steady : ℕ → ℕ
  pub wall : ℕ

abbrev pub k_runtime_ack_timeout_ms : ℕ
k_runtime_ack_timeout_ms = 20

module _ (D : Double) where
  open D use {F, eq, is_finite}

  -- One gain of one interface.
  abbrev pub pick : String → String → F → F → F
  pick wanted iface cmd old = if str_eq iface wanted && is_finite cmd then cmd else old

  abbrev pub pick_gains : String → F → Gains F → Gains F
  pick_gains iface cmd g = record {
    kp_l = pick "kp_l" iface cmd g.kp_l;
    ki_l = pick "ki_l" iface cmd g.ki_l;
    kd_l = pick "kd_l" iface cmd g.kd_l;
    kp_r = pick "kp_r" iface cmd g.kp_r;
    ki_r = pick "ki_r" iface cmd g.ki_r;
    kd_r = pick "kd_r" iface cmd g.kd_r;
  }

  -- The body of the loop over the gpio commands.
  unfoldable pub read_tuning : Name → F → Tuning F → Tuning F
  read_tuning name cmd c =
      if str_eq name.prefix_name "kestrel_pid"
      then record c { sent_pid_gains = pick_gains name.interface_name cmd c.sent_pid_gains }
      else if str_eq name.prefix_name "kestrel_watchdog"
          && (str_eq name.interface_name "cmd_timeout_ms" && is_finite cmd)
      then record c { sent_cmd_timeout_ms = cmd }
      else c

  -- The loop: `pid_cmd` and `timeout_cmd`, which begin as the values that were sent.
  unfoldable pub read_tunings : List Name → Values F → Tuning F → Tuning F
  read_tunings [] v c = c
  read_tunings (name ∷ names) v c = read_tunings names v (read_tuning name (get_command name v) c)

  -- `a == b` of two arrays of `double`.
  unfoldable pub same_gains : Gains F → Gains F → Bool
  same_gains a b =
      eq a.kp_l b.kp_l
      && (eq a.ki_l b.ki_l
          && (eq a.kd_l b.kd_l && (eq a.kp_r b.kp_r && (eq a.ki_r b.ki_r && eq a.kd_r b.kd_r))))

module _ (S : SerialPort) (D : Double) {H : Type 0} (on_message : Hook H) (fuel : ℕ) where
  open S use {Device}
  open D use {F, eq}

  abbrev to_int32 : F → ℤ
  to_int32 v = clamp_cast D int32_lowest int32_max v

  -- `SetPIDGains` with the gains of a record.
  abbrev pub send_gains :
      Clocks → Gains ℤ → ℕ → Transport Device H → Option (AckStatus × Transport Device H)
  send_gains at g ack_timeout_ms t =
      set_pid_gains S on_message at.steady fuel at.wall g.kp_l g.ki_l g.kd_l g.kp_r g.ki_r g.kd_r
        ack_timeout_ms t

  -- The two sends of `WriteTuning`; the values count as sent whether or not an ACK came.
  unfoldable pub retune_gains :
      Clocks → Gains F → Tuning F × Transport Device H → Option (Tuning F × Transport Device H)
  unfolding clamp_cast
  retune_gains at pid_cmd (c, t) =
      if same_gains D pid_cmd c.sent_pid_gains
      then some (c, t)
      else (send_gains at (map_gains to_int32 pid_cmd) k_runtime_ack_timeout_ms t >>= λ r.
          some (record c { sent_pid_gains = pid_cmd }, r.1))

  unfoldable pub retune_timeout :
      Clocks → F → Tuning F × Transport Device H → Option (Tuning F × Transport Device H)
  retune_timeout at timeout_cmd (c, t) =
      if eq timeout_cmd c.sent_cmd_timeout_ms
      then some (c, t)
      else (set_command_timeout S on_message at.steady fuel at.wall
            (pos_part (clamp_cast D (pos 0) uint16_max timeout_cmd)) k_runtime_ack_timeout_ms t
          >>= λ r. some (record c { sent_cmd_timeout_ms = timeout_cmd }, r.1))

  unfoldable pub write_tuning :
      Clocks
      → Clocks
      → List Name
      → Values F
      → Tuning F × Transport Device H
      → Option (Tuning F × Transport Device H)
  write_tuning at_gains at_timeout gpio_commands v (c, t) =
      let wanted = read_tunings D gpio_commands v c in
      retune_gains at_gains wanted.sent_pid_gains (c, t)
      >>= retune_timeout at_timeout wanted.sent_cmd_timeout_ms
