-- ===== src/System/Activate.antt =====
-- `HandshakeWithRetry` and `on_activate` of my_diffbot_system.cpp. `now` is the component's clock in
-- nanoseconds, which stands still in one call, and `at k` are the clocks of the k-th command that
-- waits for its ACK: the handshakes from zero on, then the gains and the timeout. What arrives while
-- the thread sleeps is part of the device. `none` is fuel of a wait that ran out.
pub mod Sound
pub mod Ends
pub mod Seeded
pub mod Wanted
pub mod Shaken
pub mod Sent
use Prim.Native.String.{String}
use my_diffbot.Common.{
  ℕ, zero, suc, ◌+◌, List, [], ◌∷◌, Bool, true, false, not, Option, none, some, if◌then◌else◌, ◌==◌,
}
use my_diffbot.Common.Int.{ℤ, pos}
use my_diffbot.Double.{Double}
use my_diffbot.Protocol.AckStatus
use my_diffbot.Transport.Serial.{SerialPort}
use my_diffbot.Transport.{Transport}
use my_diffbot.Transport.Read.{◌>>=◌}
use my_diffbot.Transport.Session.{connect}
use my_diffbot.Kestrel.{Kestrel, on_message_received}
use my_diffbot.Kestrel.Commands.{default_timeout_ms, handshake, set_command_timeout}
use my_diffbot.System.Interfaces.{Name, mem_name, Values, get_state, set_command}
use my_diffbot.System.Tuning.{Gains, Tuning, Clocks, map_gains, send_gains}
use my_diffbot.System.Component.{CallbackReturn, Config, System}

abbrev pub k_max_attempts : ℕ
k_max_attempts = 10

-- The name of a gain's interface.
abbrev pub kestrel_pid : String → Name
kestrel_pid interface_name = record { prefix_name = "kestrel_pid"; interface_name = interface_name }

abbrev pub cmd_timeout_ms : Name
cmd_timeout_ms = record { prefix_name = "kestrel_watchdog"; interface_name = "cmd_timeout_ms" }

module _ {F : Type 0} where
  -- The loop that makes the commands equal to the states.
  unfoldable pub copy_states : List Name → Values F → Values F
  copy_states [] v = v
  copy_states (name ∷ names) v = copy_states names (set_command name (get_state name v) v)

  -- `tuning_seeds`, in its order.
  abbrev pub tuning_seeds : Tuning F → List (Name × F)
  tuning_seeds c =
      let g = c.sent_pid_gains in
      (kestrel_pid "kp_l", g.kp_l)
      ∷ (kestrel_pid "ki_l", g.ki_l)
      ∷ (kestrel_pid "kd_l", g.kd_l)
      ∷ (kestrel_pid "kp_r", g.kp_r)
      ∷ (kestrel_pid "ki_r", g.ki_r)
      ∷ (kestrel_pid "kd_r", g.kd_r)
      ∷ (cmd_timeout_ms, c.sent_cmd_timeout_ms)
      ∷ []

  -- The loop over the seeds: those of the interfaces that exist.
  unfoldable pub seed_commands : List (Name × F) → List Name → Values F → Values F
  seed_commands [] gpio_commands v = v
  seed_commands ((name, value) ∷ seeds) gpio_commands v =
      seed_commands seeds gpio_commands
        (if mem_name name gpio_commands then set_command name value v else v)

module _ (D : Double) where
  open D use {F, literal, of_int}

  -- The runtime state of a fresh activation.
  abbrev pub restart : {Device : Type 0} → ℕ → System Device F → System Device F
  restart now s = record s {
    drive = record s.drive { last_active_time = now };
    imu_watch = record { last_imu_count_change = now; last_diag_pub = now; last_imu_count = 0 };
    led = record { last_led_send = now; sent_led = none };
    wheels = record s.wheels {
      last_wheel_count = 0;
      last_wheel_count_change = now;
      wheel_feedback_stale = false;
      ticks_init = false;
      meas_left_rad = literal 0 0;
      meas_right_rad = literal 0 0;
    };
  }

  -- What counts as sent after an activation.
  abbrev pub sent_tuning : Config F → Tuning F
  sent_tuning c = record {
    sent_pid_gains = map_gains of_int c.gains;
    sent_cmd_timeout_ms = of_int (pos c.cmd_timeout_ms);
  }

module _ (S : SerialPort) (D : Double) (fuel : ℕ) where
  open S use {Device}
  open D use {F}

  -- The loop of `HandshakeWithRetry`, with this many attempts left.
  unfoldable pub handshake_attempts :
      (ℕ → Clocks)
      → ℕ
      → ℕ
      → Transport Device (Kestrel F)
      → Option (Bool × Transport Device (Kestrel F))
  handshake_attempts at zero attempt t = some (false, t)
  handshake_attempts at (suc left) attempt t =
      handshake S (on_message_received D) (at attempt).steady fuel (at attempt).wall t >>= λ r.
      if r.0 == AckStatus.ok then some (true, r.1) else handshake_attempts at left (attempt + 1) r.1

  unfoldable pub handshake_with_retry :
      (ℕ → Clocks) → Transport Device (Kestrel F) → Option (Bool × Transport Device (Kestrel F))
  unfolding handshake_attempts
  handshake_with_retry at t = handshake_attempts at k_max_attempts 0 t

  -- The two sends of `on_activate`, whose ACKs are only logged.
  unfoldable pub send_config :
      (ℕ → Clocks) → Config F → Transport Device (Kestrel F) → Option (Transport Device (Kestrel F))
  send_config at c t =
      let a = at k_max_attempts in
      let b = at (k_max_attempts + 1) in
      send_gains S D (on_message_received D) fuel a c.gains default_timeout_ms t >>= λ r.
      set_command_timeout S (on_message_received D) b.steady fuel b.wall c.cmd_timeout_ms
        default_timeout_ms r.1
      >>= λ q. some q.1

  -- `on_activate` from the handshake's success on.
  unfoldable pub activated :
      ℕ → (ℕ → Clocks) → System Device F → Option (CallbackReturn × System Device F)
  unfolding send_config seed_commands
  activated now at s =
      let tuning = sent_tuning D s.config in
      send_config at s.config s.kestrel >>= λ t. some (
        CallbackReturn.success,
        record (restart D now s) {
          kestrel = t;
          tuning = tuning;
          values = seed_commands (tuning_seeds tuning) s.interfaces.gpio_commands s.values;
        },
      )

  unfoldable pub on_activate :
      ℕ → (ℕ → Clocks) → System Device F → Option (CallbackReturn × System Device F)
  unfolding copy_states connect handshake_with_retry activated
  on_activate now at s =
      let copied = copy_states s.interfaces.joint_commands s.values in
      let (connected, t) = connect S s.kestrel in
      let s1 : System Device F = record s { values = copied; kestrel = t } in
      if not connected
      then some (CallbackReturn.failure, s1)
      else (handshake_with_retry at t >>= λ r.
          if not r.0
          then some (CallbackReturn.failure, record s1 { kestrel = r.1 })
          else activated now at (record s1 { kestrel = r.1 }))
