-- ===== src/Kestrel/Commands/Answered.antt =====
-- What a command that waits for its ACK returns.
use my_diffbot.Common.{
  ℕ, suc, ◌+◌, ◌*◌, ◌≤◌, ◌<◌, ◌≡◌, refl, ap, ◌∙◌, List, [], true, false, Bool-cases, inl, inr, some,
  length, get_or,
}
use my_diffbot.Protocol.MsgId
use my_diffbot.Protocol.AckStatus
use my_diffbot.Protocol.AckStatus.{AckStatus}
use my_diffbot.Protocol.Frame.{build_frame}
use my_diffbot.Protocol.Payload.Sent.{handshake_to_bytes}
use my_diffbot.Transport.Serial.{SerialPort, Hook}
use my_diffbot.Transport.{Transport}
use my_diffbot.Transport.Session.{write_command}
use my_diffbot.Transport.Read.Chunks.{IsReady}
use my_diffbot.Transport.Read.Received.{DeliversBytes, arrived}
use my_diffbot.Transport.Ack.{wait_for_ack}
use my_diffbot.Transport.Ack.Ends.{IsTicking, Returned, wait_for_ack-Returned}
use my_diffbot.Transport.Ack.Answers.{wait_for_ack_answered}
use my_diffbot.Kestrel.Commands.{request, handshake_payload, handshake, default_timeout_ms}

module _ (S : SerialPort) {H : Type 0} (on_message : Hook H) (clock : ℕ → ℕ) where
  open S use {Device, is_open, write_bytes}

  request_written :
      (fuel wall msg_id : ℕ) (payload : List ℕ) (ack_timeout_ms : ℕ) (t : Transport Device H)
      (d : Device)
      → is_open t.device ≡ true
      → write_bytes (build_frame msg_id payload) t.device ≡ (true, d)
      → request S on_message clock fuel wall msg_id payload ack_timeout_ms t
        ≡ wait_for_ack S on_message clock fuel msg_id ack_timeout_ms (record t { device = d })
  unfolding request write_command
  request_written fuel wall msg_id payload ack_timeout_ms t d opened sent = rw (opened, sent)

  -- If every round of the wait sleeps five milliseconds, the device delivers bytes and the buffer
  -- holds bytes that wait for more, a command that waits for an ACK returns a status, whether or
  -- not its frame could be written, and leaves the transport ready for the next call, given a
  -- fuel above a fifth of its timeout.
  pub request-Returned :
      (fuel wall msg_id : ℕ) (payload : List ℕ) (ack_timeout_ms : ℕ) (t : Transport Device H)
      → IsTicking clock
      → DeliversBytes S
      → IsReady t
      → ack_timeout_ms ≤ 5 * fuel
      → Returned (request S on_message clock (suc fuel) wall msg_id payload ack_timeout_ms t)
  unfolding request write_command
  request-Returned fuel wall msg_id payload ack_timeout_ms t ticking delivers ready enough =
      let (sent, d) = write_bytes (build_frame msg_id payload) t.device in
      elim (Bool-cases (is_open t.device)) [
        | inr closed ↦ rw closed (AckStatus.command_failed, t, ready, refl)
        | inl opened ↦ elim (Bool-cases sent) [
          | inr failed ↦
              rw (opened, failed)
                (
                  AckStatus.command_failed,
                  record t { device = d },
                  record { waits = ready.waits; bytes = ready.bytes },
                  refl,
                )
          | inl written ↦
              rw (opened, written)
                (wait_for_ack-Returned S on_message clock fuel msg_id ack_timeout_ms
                  (record t { device = d }) ticking delivers
                  (record { waits = ready.waits; bytes = ready.bytes }) enough)
        ]
      ]

  -- A handshake that is written on an open port, and answered before the deadline by an ACK for
  -- it as what arrives at an empty buffer, returns OK whatever the status byte; the status byte
  -- is the firmware version, and the ACK is consumed.
  pub handshake_answered :
      (fuel wall : ℕ) (payload : List ℕ) (t : Transport Device H) (d : Device)
      → DeliversBytes S
      → is_open t.device ≡ true
      → write_bytes
          (build_frame MsgId.handshake (handshake_to_bytes (handshake_payload wall)))
          t.device
        ≡ (true, d)
      → t.rx_buffer ≡ []
      → arrived S (record t { device = d }) ≡ build_frame MsgId.ack payload
      → 10 ≤ length payload
      → length payload < 256
      → get_or payload 8 0 ≡ MsgId.handshake
      → clock 1 < clock 0 + default_timeout_ms * 1_000_000
      → (u : Transport Device H) × (handshake S on_message clock (suc fuel) wall t
          ≡ some (AckStatus.ok, u))
        × (u.firmware_version ≡ get_or payload 9 0)
        × (u.ack_received ≡ false)
  handshake_answered fuel wall payload t d delivers opened written empty came long fits hit early =
      let (status, u, e, answer, version, consumed) =
        wait_for_ack_answered S on_message clock fuel MsgId.handshake default_timeout_ms payload
          (record t { device = d }) delivers empty came long fits hit early in
      (
        u,
        request_written (suc fuel) wall MsgId.handshake
              (handshake_to_bytes (handshake_payload wall)) default_timeout_ms t d opened written
            ∙ e
            ∙ ap (λ (s : AckStatus). some (s, u)) answer,
        version,
        consumed,
      )
