-- ===== src/Kestrel/Commands/Written.antt =====
-- The frames that the commands of kestrel_transport.cpp give to the port.
use my_diffbot.Common.{ℕ, ◌≡◌, ap, List, [], ◌∷◌, ◌++◌, some, Bool-cases, inl, inr}
use my_diffbot.Common.Int.{ℤ}
use my_diffbot.Double.{Double}
use my_diffbot.Protocol.MsgId
use my_diffbot.Protocol.AckStatus
use my_diffbot.Protocol.AckStatus.{AckStatus}
use my_diffbot.Protocol.Frame.{build_frame}
use my_diffbot.Protocol.Led.{LedOutput}
use my_diffbot.Protocol.Payload.Sent.{
  handshake_to_bytes, wheel_velocity_to_bytes, set_pid_gains_to_bytes, set_command_timeout_to_bytes,
  timestamp_to_bytes, rgb_led_set_to_bytes,
}
use my_diffbot.Transport.Serial.{SerialPort, Hook}
use my_diffbot.Transport.Session.{write_command}
use my_diffbot.Transport.Read.Received.{DeliversBytes}
use my_diffbot.Transport.Ack.Keeps.{same_result, wait_for_ack-keeps}
use my_diffbot.Transport.Recorded.{recorded, Logged, StaysOpen, Wrote, Wrote-Keeps}
use my_diffbot.Kestrel.Commands.{
  handshake_payload, wheel_velocity_payload, set_pid_gains_payload, set_command_timeout_payload,
  timestamp_payload, rgb_led_set_payload, send, request,
}

-- A command to the board, with the reading of the system clock for its time stamp.
pub data Command (F : Type 0) : Type 0 where
  handshake deactivate reset : ℕ → Command F
  set_pid_gains : ℕ → ℤ → ℤ → ℤ → ℤ → ℤ → ℤ → Command F
  set_command_timeout : ℕ → ℕ → Command F
  wheel_velocity : ℕ → F → F → Command F
  rgb_led : ℕ → LedOutput → Command F

-- The frame of a command.
abbrev pub frame_of : (D : Double) → Command D.F → List ℕ
frame_of D (handshake wall) =
    build_frame MsgId.handshake (handshake_to_bytes (handshake_payload wall))
frame_of D (deactivate wall) =
    build_frame MsgId.deactivate (timestamp_to_bytes (timestamp_payload wall))
frame_of D (reset wall) = build_frame MsgId.reset (timestamp_to_bytes (timestamp_payload wall))
frame_of D (set_pid_gains wall kp_l ki_l kd_l kp_r ki_r kd_r) =
    build_frame MsgId.set_pid_gains
      (set_pid_gains_to_bytes (set_pid_gains_payload wall kp_l ki_l kd_l kp_r ki_r kd_r))
frame_of D (set_command_timeout wall timeout_ms) =
    build_frame MsgId.set_cmd_timeout
      (set_command_timeout_to_bytes (set_command_timeout_payload wall timeout_ms))
frame_of D (wheel_velocity wall left_rad_s right_rad_s) =
    build_frame MsgId.wheel_velocity
      (wheel_velocity_to_bytes (wheel_velocity_payload wall D left_rad_s right_rad_s))
frame_of D (rgb_led wall led) =
    build_frame MsgId.rgb_led_set
      (rgb_led_set_to_bytes (rgb_led_set_payload wall led.r led.g led.b led.fw_mode))

module _ (S : SerialPort) {H : Type 0} (stays : StaysOpen S) where
  pub write_command-Wrote :
      (msg_id : ℕ) (payload : List ℕ) (frames : List (List ℕ)) (t : Logged S H)
      → Wrote S frames t
      → Wrote S
          (frames ++ (build_frame msg_id payload ∷ []))
          (write_command (recorded S) msg_id payload t).1
  unfolding write_command
  write_command-Wrote msg_id payload frames t wrote = rw wrote.opened (record {
    ready = record { waits = wrote.ready.waits; bytes = wrote.ready.bytes };
    opened = stays.writes (build_frame msg_id payload) t.device.0 wrote.opened;
    frames_eq = ap (λ (l : List (List ℕ)). l ++ (build_frame msg_id payload ∷ [])) wrote.frames_eq;
  })

  pub send-Wrote :
      (msg_id : ℕ) (payload : List ℕ) (frames : List (List ℕ)) (t : Logged S H)
      → Wrote S frames t
      → Wrote S (frames ++ (build_frame msg_id payload ∷ [])) (send (recorded S) msg_id payload t).1
  send-Wrote msg_id payload frames t wrote =
      let after = write_command-Wrote msg_id payload frames t wrote in
      elim (Bool-cases (write_command (recorded S) msg_id payload t).0) [
        | inl sent ↦ rw sent after
        | inr failed ↦ rw failed after
      ]

  -- A command that waits for its ACK, and returned.
  pub request-Wrote :
      (delivers : DeliversBytes S) (on_message : Hook H) (clock : ℕ → ℕ) (fuel wall msg_id : ℕ)
      (payload : List ℕ) (ack_timeout_ms : ℕ) (frames : List (List ℕ)) (t u : Logged S H)
      (status : AckStatus)
      → request (recorded S) on_message clock fuel wall msg_id payload ack_timeout_ms t
        ≡ some (status, u)
      → Wrote S frames t
      → Wrote S (frames ++ (build_frame msg_id payload ∷ [])) u
  unfolding request
  request-Wrote delivers on_message clock fuel wall msg_id payload ack_timeout_ms frames t u status
        e wrote =
      let frames' = frames ++ (build_frame msg_id payload ∷ []) in
      let (sent, v) = write_command (recorded S) msg_id payload t in
      let after = write_command-Wrote msg_id payload frames t wrote in
      elim (Bool-cases sent) [
        | inr failed ↦
            same_result (Wrote S frames') AckStatus.command_failed status v u (rw failed at e) after
        | inl done ↦
            wait_for_ack-keeps (recorded S) on_message (Wrote S frames')
              (Wrote-Keeps S stays delivers on_message frames') clock fuel msg_id ack_timeout_ms v u
              status (rw done at e) after
      ]
