-- ===== src/Transport/Ack/Answers.antt =====
-- What `wait_for_ack` answers: to the ACK that it waits for, to silence, and to an ACK that was
-- received before the call.
use my_diffbot.Common.{
  ℕ, zero, suc, ◌+◌, ◌*◌, ◌≤◌, ◌<◌, ◌≡◌, ◌≢◌, ◌∙◌, arith, List, [], true, false, some, ◌==◌,
  if◌then◌else◌, length, get_or, ◌⊎◌, dec_lt,
}
use my_diffbot.Protocol.MsgId
use my_diffbot.Protocol.AckStatus
use my_diffbot.Protocol.AckStatus.{AckStatus}
use my_diffbot.Protocol.Frame.{build_frame}
use my_diffbot.Transport.Serial.{SerialPort, Hook}
use my_diffbot.Transport.{Transport, dispatch}
use my_diffbot.Transport.Read.{read}
use my_diffbot.Transport.Read.Received.{
  DeliversBytes, arrived, device_after, read_nothing, IsQuiet, read_quiet,
}
use my_diffbot.Transport.Read.One.{read_one}
use my_diffbot.Transport.Ack.{is_acked, take_ack, after_poll, wait_loop, wait_for_ack}
use my_diffbot.Transport.Ack.Ends.{IsTicking, wait_loop_late, wait_loop_early}

module _ (S : SerialPort) {H : Type 0} (on_message : Hook H) (clock : ℕ → ℕ) where
  open S use {Device, is_open, bytes_available}

  -- The ACK is there after the first poll.
  wait_for_ack_first :
      (fuel expected timeout_ms : ℕ) (t u : Transport Device H)
      → clock 1 < clock 0 + timeout_ms * 1_000_000
      → read S on_message (clock 1) t ≡ some u
      → is_acked expected u ≡ true
      → wait_for_ack S on_message clock (suc fuel) expected timeout_ms t
        ≡ some (take_ack expected u)
  unfolding wait_for_ack after_poll
  wait_for_ack_first fuel expected timeout_ms t u early polled acked =
      wait_loop_early S on_message clock fuel 1 (clock 0 + timeout_ms * 1_000_000) expected t early
      ∙ rw (polled, acked)

  -- If what arrives before the deadline at an empty buffer is an ACK for the message waited for,
  -- of 10 to 255 bytes, its status byte is returned and the ACK is consumed; for a handshake the
  -- byte becomes the firmware version and the status is OK.
  pub wait_for_ack_answered :
      (fuel expected timeout_ms : ℕ) (payload : List ℕ) (t : Transport Device H)
      → DeliversBytes S
      → t.rx_buffer ≡ []
      → arrived S t ≡ build_frame MsgId.ack payload
      → 10 ≤ length payload
      → length payload < 256
      → get_or payload 8 0 ≡ expected
      → clock 1 < clock 0 + timeout_ms * 1_000_000
      → (status : AckStatus) × (u : Transport Device H) × (wait_for_ack S on_message clock
            (suc fuel)
            expected
            timeout_ms
            t
          ≡ some (status, u))
        × (status ≡ (if expected == MsgId.handshake then AckStatus.ok else get_or payload 9 0))
        × (u.firmware_version
            ≡ (if expected == MsgId.handshake then get_or payload 9 0 else t.firmware_version))
        × (u.ack_received ≡ false)
  unfolding dispatch is_acked take_ack
  wait_for_ack_answered fuel expected timeout_ms payload t delivers empty came long short hit
        early =
      let link = dispatch on_message (clock 1) MsgId.ack payload t.link in
      let u : Transport Device H = record t {
        device = device_after S t;
        rx_buffer = [];
        link = link;
      } in
      let polled = read_one S on_message (clock 1) MsgId.ack payload t delivers empty short came in
      (
        (take_ack expected u).0,
        (take_ack expected u).1,
        wait_for_ack_first fuel expected timeout_ms t u early polled (ground arith),
        ground arith,
        ground arith,
        ground arith,
      )

  -- An ACK that was received before the call and not consumed answers for the new command: if the
  -- noted id is that of the message waited for, which is not a handshake, and nothing arrives,
  -- the old status is returned.
  pub wait_for_ack_stale :
      (fuel expected timeout_ms : ℕ) (t : Transport Device H)
      → t.ack_received ≡ true
      → t.pending_ack_msg_id ≡ expected
      → expected ≢ MsgId.handshake
      → arrived S t ≡ []
      → clock 1 < clock 0 + timeout_ms * 1_000_000
      → wait_for_ack S on_message clock (suc fuel) expected timeout_ms t
        ≡ some (
          t.pending_ack_status,
          record t { device = device_after S t; link = record t.link { ack_received = false } },
        )
  unfolding is_acked take_ack
  wait_for_ack_stale fuel expected timeout_ms t pending same ne none_came early =
      wait_for_ack_first fuel expected timeout_ms t (record t { device = device_after S t }) early
        (read_nothing S on_message (clock 1) t none_came) (ground arith)
      ∙ ground arith

  wait_loop_quiet :
      (fuel k deadline expected : ℕ) (t : Transport Device H)
      → IsTicking clock
      → IsQuiet S t.device
      → is_acked expected t ≡ false
      → 1 ≤ k
      → deadline ≤ clock k + 5_000_000 * fuel
      → wait_loop S on_message clock (suc fuel) k deadline expected t ≡ some (AckStatus.timeout, t)
  unfolding after_poll
  wait_loop_quiet zero k deadline expected t ticking quiet silent later enough =
      wait_loop_late S on_message clock 0 k deadline expected t (omega arith)
  wait_loop_quiet (suc fuel) k deadline expected t ticking quiet silent later enough =
      elim (dec_lt (clock k) deadline) [
        | no late ↦ wait_loop_late S on_message clock (suc fuel) k deadline expected t (omega arith)
        | yes early ↦
            wait_loop_early S on_message clock (suc fuel) k deadline expected t early
            ∙ rw (read_quiet S on_message (clock k) t quiet, silent)
                (wait_loop_quiet fuel (k + 1) deadline expected t ticking quiet silent (omega arith)
                  (omega (arith, ticking.sleeps k later)))
      ]

  -- If no byte is available, no ACK for the message is pending, every round sleeps five
  -- milliseconds before the next test and the fuel is above a fifth of the timeout, the result is
  -- TIMEOUT, and the transport is as it was.
  pub wait_for_ack-timeout :
      (fuel expected timeout_ms : ℕ) (t : Transport Device H)
      → IsTicking clock
      → bytes_available t.device ≡ (some 0, t.device)
      → (t.ack_received ≡ false) ⊎ (t.pending_ack_msg_id ≢ expected)
      → timeout_ms ≤ 5 * fuel
      → wait_for_ack S on_message clock (suc fuel) expected timeout_ms t
        ≡ some (AckStatus.timeout, t)
  unfolding wait_for_ack is_acked
  wait_for_ack-timeout fuel expected timeout_ms t ticking quiet silent enough =
      wait_loop_quiet fuel 1 (clock 0 + timeout_ms * 1_000_000) expected t ticking quiet
        (ground arith) (omega arith) (omega (arith, ticking.starts))
