-- ===== src/Kestrel/Commands/Sent.antt =====
-- What a command puts on the wire, and what it does when it cannot.
use my_diffbot.Common.{
  ℕ, ◌^◌, ◌<◌, ◌≡◌, refl, arith, List, [], ◌∷◌, append-nil, true, false, some, if◌then◌else◌,
  length,
}
use my_diffbot.Common.Int.{Fits, to_bits-lt}
use my_diffbot.Common.Bytes.{Layout, Holds, pack, unpack, unpack-pack, length-pack}
use my_diffbot.Double.{Double}
use my_diffbot.Protocol.MsgId
use my_diffbot.Protocol.AckStatus
use my_diffbot.Protocol.Frame.{build_frame}
use my_diffbot.Protocol.Payload.Sent.{
  wheel_velocity_layout, wheel_velocity_values, wheel_velocity_to_bytes,
}
use my_diffbot.Protocol.Stream.{message, Decodes, Decodes-build_frames}
use my_diffbot.Transport.Serial.{SerialPort, Hook}
use my_diffbot.Transport.{Transport}
use my_diffbot.Transport.Session.{write_command}
use my_diffbot.Kestrel.Commands.{
  request, send, wheel_velocity_payload, set_wheel_velocity, set_rgb_led,
}

frame-Decodes :
    (msg_id : ℕ) (payload : List ℕ)
    → length payload < 256
    → Decodes (build_frame msg_id payload) (message msg_id payload ∷ []) []
frame-Decodes msg_id payload fits =
    rw append-nil at (Decodes-build_frames ((msg_id, payload) ∷ []) (fits, tt))

unpack-pack_nil : (ns : Layout) (vs : List ℕ) → Holds ns vs → unpack ns (pack ns vs) ≡ vs
unpack-pack_nil ns vs h = rw append-nil at (unpack-pack ns vs [] h)

module _ (S : SerialPort) {H : Type 0} where
  open S use {Device, is_open, write_bytes}

  -- On a closed port every command fails at once and changes nothing: nothing is written, and no ACK
  -- is waited for.
  pub commands_closed :
      (on_message : Hook H) (clock : ℕ → ℕ) (fuel wall msg_id : ℕ) (payload : List ℕ)
      (ack_timeout_ms : ℕ) (D : Double) (left_rad_s right_rad_s : D.F) (red green blue mode : ℕ)
      (t : Transport Device H)
      → is_open t.device ≡ false
      → (request S on_message clock fuel wall msg_id payload ack_timeout_ms t
          ≡ some (AckStatus.command_failed, t))
        × (set_wheel_velocity S wall D left_rad_s right_rad_s t ≡ (AckStatus.command_failed, t))
        × (set_rgb_led S wall red green blue mode t ≡ (AckStatus.command_failed, t))
  unfolding request set_wheel_velocity set_rgb_led write_command
  commands_closed on_message clock fuel wall msg_id payload ack_timeout_ms D l r red green blue mode
        t closed =
      (rw closed refl, rw closed refl, rw closed refl)

  send_open :
      (msg_id : ℕ) (payload : List ℕ) (t : Transport Device H)
      → is_open t.device ≡ true
      → let written = write_bytes (build_frame msg_id payload) t.device in
        send S msg_id payload t ≡ (
          if written.0 then AckStatus.ok else AckStatus.command_failed,
          record t { device = written.1 },
        )
  unfolding write_command
  send_open msg_id payload t opened = ground arith

  -- A velocity command on an open port makes one write, of bytes that decode to exactly one message
  -- WHEEL_VELOCITY, whose payload holds the time stamp and the speeds in thousandths of a turn per
  -- second, if these are in the range of `int32_t`. It succeeds if the write does.
  pub set_wheel_velocity_sent :
      (wall : ℕ) (D : Double) (left_rad_s right_rad_s : D.F) (t : Transport Device H)
      → is_open t.device ≡ true
      → let p = wheel_velocity_payload wall D left_rad_s right_rad_s in
        Fits (2 ^ 31) p.left_wheel_mrps
        → Fits (2 ^ 31) p.right_wheel_mrps
        → (bytes payload : List ℕ) × (set_wheel_velocity S wall D left_rad_s right_rad_s t ≡ (
          if (write_bytes bytes t.device).0 then AckStatus.ok else AckStatus.command_failed,
          record t { device = (write_bytes bytes t.device).1 },
        ))
          × Decodes bytes (message MsgId.wheel_velocity payload ∷ []) []
          × (unpack wheel_velocity_layout payload ≡ wheel_velocity_values p)
  unfolding set_wheel_velocity wheel_velocity_to_bytes
  set_wheel_velocity_sent wall D left_rad_s right_rad_s t opened hl hr =
      let p = wheel_velocity_payload wall D left_rad_s right_rad_s in
      let payload = wheel_velocity_to_bytes p in
      (
        build_frame MsgId.wheel_velocity payload,
        payload,
        send_open MsgId.wheel_velocity payload t opened,
        frame-Decodes MsgId.wheel_velocity payload
            (omega (arith, length-pack wheel_velocity_layout (wheel_velocity_values p))),
        unpack-pack_nil wheel_velocity_layout (wheel_velocity_values p) (
            omega (
              arith,
              to_bits-lt (2 ^ 31) p.left_wheel_mrps,
              to_bits-lt (2 ^ 31) p.right_wheel_mrps,
            )),
      )
