-- ===== src/System/Lifecycle.antt =====
-- `on_configure`, `on_deactivate` and `on_cleanup` of my_diffbot_system.cpp. `at k` are the clocks
-- of the k-th command, and `none` is fuel of a wait that ran out. Logging and the registrations for
-- introspection are left out, and of the publisher of the diagnostics there is only whether it
-- exists.
pub mod Values
pub mod Sent
use my_diffbot.Common.{true, false, ℕ, Bool, true, false, Option, none, some}
use my_diffbot.Double.{Double}
use my_diffbot.Transport.Serial.{SerialPort}
use my_diffbot.Transport.Read.{◌>>=◌}
use my_diffbot.Transport.Session.{shutdown}
use my_diffbot.Kestrel.{Kestrel, on_message_received}
use my_diffbot.Kestrel.Commands.{set_wheel_velocity, deactivate, reset}
use my_diffbot.System.Interfaces.{set_states, set_commands}
use my_diffbot.System.Tuning.{Clocks}
use my_diffbot.System.Component.{CallbackReturn, System}

module _ (D : Double) {Device : Type 0} where
  open D use {F, literal}

  unfoldable pub on_configure : System Device F → CallbackReturn × System Device F
  unfolding set_states set_commands
  on_configure s =
      let zero_value = literal 0 0 in
      let names = s.interfaces in
      let v1 = set_states names.joint_states zero_value s.values in
      let v2 = set_commands names.joint_commands zero_value v1 in
      let v3 = set_states names.gpio_states zero_value v2 in
      let v4 = set_commands names.gpio_commands zero_value v3 in
      (
        CallbackReturn.success,
        record s { values = set_states names.sensor_states zero_value v4; has_diag_pub = true },
      )

module _ (S : SerialPort) (D : Double) where
  open S use {Device}
  open D use {F, literal}

  unfoldable pub on_deactivate :
      ℕ → (ℕ → Clocks) → System Device F → Option (CallbackReturn × System Device F)
  unfolding set_commands
  on_deactivate fuel at s =
      let zeroed = set_commands s.interfaces.gpio_commands (literal 0 0) s.values in
      let stopped = set_wheel_velocity S (at 0).wall D (literal 0 0) (literal 0 0) s.kestrel in
      deactivate S (on_message_received D) (at 1).steady fuel (at 1).wall stopped.1 >>= λ r.
      reset S (on_message_received D) (at 2).steady fuel (at 2).wall r.1 >>= λ q.
      some (CallbackReturn.success, record s { values = zeroed; kestrel = q.1 })

  unfoldable pub on_cleanup : System Device F → CallbackReturn × System Device F
  unfolding shutdown
  on_cleanup s =
      (CallbackReturn.success, record s { has_diag_pub = false; kestrel = shutdown S s.kestrel })
