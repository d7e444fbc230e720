-- ===== src/System/Lifecycle/Sent.antt =====
-- The frames of one call of `on_deactivate` of my_diffbot_system.cpp.
use my_diffbot.Common.{
  ℕ, suc, ◌*◌, ◌≤◌, ◌≡◌, refl, ◌∙◌, List, [], ◌∷◌, ◌++◌, map, append_assoc, some, true,
  if◌then◌else◌,
}
use my_diffbot.Double.{Double}
use my_diffbot.Protocol.MsgId
use my_diffbot.Protocol.Payload.Sent.{wheel_velocity_to_bytes, timestamp_to_bytes}
use my_diffbot.Transport.Serial.{SerialPort}
use my_diffbot.Transport.Read.Chunks.{IsReady}
use my_diffbot.Transport.Read.Received.{DeliversBytes}
use my_diffbot.Transport.Ack.Ends.{IsTicking}
use my_diffbot.Transport.Recorded.{
  recorded, Logged, StaysOpen, Wrote, written, recorded-DeliversBytes,
}
use my_diffbot.Kestrel.{Kestrel, on_message_received}
use my_diffbot.Kestrel.Commands.{
  default_timeout_ms, wheel_velocity_payload, timestamp_payload, set_wheel_velocity,
}
use my_diffbot.Kestrel.Commands.Answered.{request-Returned}
use my_diffbot.Kestrel.Commands.Written.{Command, frame_of, send-Wrote, request-Wrote}
use my_diffbot.System.Interfaces.{Name, mem_name, get_command, set_commands}
use my_diffbot.System.Tuning.{Clocks}
use my_diffbot.System.Component.{CallbackReturn, System}
use my_diffbot.System.Lifecycle.{on_deactivate}
use my_diffbot.System.Lifecycle.Values.{command-set_commands}

-- The robot is stopped before it is deactivated and reset.
abbrev pub deactivate_commands : (D : Double) → (ℕ → Clocks) → List (Command D.F)
deactivate_commands D at =
    Command.wheel_velocity (at 0).wall (D.literal 0 0) (D.literal 0 0)
    ∷ Command.deactivate (at 1).wall
    ∷ Command.reset (at 2).wall
    ∷ []

module _ (S : SerialPort) (D : Double) (stays : StaysOpen S) (delivers : DeliversBytes S) where
  open D use {F, literal}

  set_wheel_velocity-Wrote :
      (wall : ℕ) (left right : F) (frames : List (List ℕ)) (t : Logged S (Kestrel F))
      → Wrote S frames t
      → Wrote S
          (frames ++ (frame_of D (Command.wheel_velocity wall left right) ∷ []))
          (set_wheel_velocity (recorded S) wall D left right t).1
  unfolding set_wheel_velocity
  set_wheel_velocity-Wrote wall left right frames t wrote =
      send-Wrote S stays MsgId.wheel_velocity
        (wheel_velocity_to_bytes (wheel_velocity_payload wall D left right)) frames t wrote

  -- If neither reading nor writing closes the port, the device delivers bytes, each round of a wait
  -- sleeps five milliseconds before the next test and the fuel is above a fifth of the default
  -- timeout, then `on_deactivate` on an open port whose transport is ready succeeds, sends the
  -- speed zero, then the deactivation, then the reset, whether or not they are acknowledged, and
  -- nothing else; the port stays open and the configuration is not changed; and of the commands
  -- exactly those of the gpio interfaces become zero.
  pub on_deactivate_sent :
      (fuel : ℕ) (at : ℕ → Clocks) (name : Name) (s : System (S.Device × List (List ℕ)) F)
      → default_timeout_ms ≤ 5 * fuel
      → ((k : ℕ) → IsTicking (at k).steady)
      → IsReady s.kestrel
      → S.is_open s.kestrel.device.0 ≡ true
      → (s' : System (S.Device × List (List ℕ)) F) × (on_deactivate (recorded S) D (suc fuel) at s
          ≡ some (CallbackReturn.success, s'))
        × (written S s'.kestrel
            ≡ written S s.kestrel ++ map (frame_of D) (deactivate_commands D at))
        × (S.is_open s'.kestrel.device.0 ≡ true)
        × (s'.config ≡ s.config)
        × (get_command name s'.values ≡ (
            if mem_name name s.interfaces.gpio_commands
            then literal 0 0
            else get_command name s.values))
  unfolding on_deactivate
  on_deactivate_sent fuel at name s enough ticking ready opened =
      let a = at 1 in
      let b = at 2 in
      let message = on_message_received D in
      let bytes_a = timestamp_to_bytes (timestamp_payload a.wall) in
      let bytes_b = timestamp_to_bytes (timestamp_payload b.wall) in
      let frames = written S s.kestrel in
      let delivers' = recorded-DeliversBytes S delivers in
      let stop = frame_of D (Command.wheel_velocity (at 0).wall (literal 0 0) (literal 0 0)) in
      let bye = frame_of D (Command.deactivate a.wall) in
      let over = frame_of D (Command.reset b.wall) in
      let t =
        (set_wheel_velocity (recorded S) (at 0).wall D (literal 0 0) (literal 0 0) s.kestrel).1 in
      let stopped =
        set_wheel_velocity-Wrote (at 0).wall (literal 0 0) (literal 0 0) frames s.kestrel
          (record { ready = ready; opened = opened; frames_eq = refl }) in
      let (status, t1, ready1, e1) =
        request-Returned (recorded S) message a.steady fuel a.wall MsgId.deactivate bytes_a
          default_timeout_ms t (ticking 1) delivers' stopped.ready enough in
      let first =
        request-Wrote S stays delivers message a.steady (suc fuel) a.wall MsgId.deactivate bytes_a
          default_timeout_ms (frames ++ (stop ∷ [])) t t1 status e1 stopped in
      let (status', t2, ready2, e2) =
        request-Returned (recorded S) message b.steady fuel b.wall MsgId.reset bytes_b
          default_timeout_ms t1 (ticking 2) delivers' ready1 enough in
      let second =
        request-Wrote S stays delivers message b.steady (suc fuel) b.wall MsgId.reset bytes_b
          default_timeout_ms ((frames ++ (stop ∷ [])) ++ (bye ∷ [])) t1 t2 status' e2 first in
      let names = s.interfaces.gpio_commands in
      rw (e1, e2)
        (
          record s { values = set_commands names (literal 0 0) s.values; kestrel = t2 },
          refl,
          second.frames_eq ∙ simp (append_assoc),
          second.opened,
          refl,
          command-set_commands name names (literal 0 0) s.values,
        )
