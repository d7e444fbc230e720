-- ===== src/Transport/Ack.antt =====
-- `WaitForAck` of serial_transport.cpp. `clock k` is the reading of the steady clock, in
-- nanoseconds, at the test of round k; `clock 0` is the reading from which the deadline is counted.
-- What arrives while the thread sleeps is part of the device. `none` is fuel that ran out.
pub mod Ends
pub mod Answers
pub mod Keeps
use my_diffbot.Common.{
  ℕ, zero, suc, ◌+◌, ◌*◌, List, Bool, true, false, ◌&&◌, Option, none, some, ◌==◌, ltb,
  if◌then◌else◌,
}
use my_diffbot.Protocol.MsgId
use my_diffbot.Protocol.AckStatus
use my_diffbot.Protocol.AckStatus.{AckStatus}
use my_diffbot.Transport.Serial.{SerialPort, Hook}
use my_diffbot.Transport.{Link, Transport}
use my_diffbot.Transport.Read.{read}

module _ {D H : Type 0} where
  -- The test for the expected ACK.
  pub is_acked : ℕ → Transport D H → Bool
  is_acked expected t = t.ack_received && t.pending_ack_msg_id == expected

  -- A handshake's status byte is the firmware version, and the status becomes OK.
  pub take_ack : ℕ → Transport D H → AckStatus × Transport D H
  take_ack expected t =
      let consumed : Transport D H = record t { link = record t.link { ack_received = false } } in
      if expected == MsgId.handshake
      then (
        AckStatus.ok,
        record consumed {
          firmware_version = t.pending_ack_status;
          link = record consumed.link { pending_ack_status = AckStatus.ok };
        },
      )
      else (t.pending_ack_status, consumed)

  -- The body of the loop after `Read`; `again` is the next round.
  pub after_poll :
      ℕ
      → (Transport D H → Option (AckStatus × Transport D H))
      → Option (Transport D H)
      → Option (AckStatus × Transport D H)
  unfolding is_acked take_ack
  after_poll expected again none = none
  after_poll expected again (some t) =
      if is_acked expected t then some (take_ack expected t) else again t

module _ (S : SerialPort) {H : Type 0} (on_message : Hook H) (clock : ℕ → ℕ) where
  open S use {Device}

  pub wait_loop : ℕ → ℕ → ℕ → ℕ → Transport Device H → Option (AckStatus × Transport Device H)
  unfolding after_poll
  wait_loop zero k deadline expected t = none
  wait_loop (suc fuel) k deadline expected t =
      let polled =
        after_poll expected (wait_loop fuel (k + 1) deadline expected)
          (read S on_message (clock k) t) in
      if ltb (clock k) deadline then polled else some (AckStatus.timeout, t)

  unfoldable pub wait_for_ack :
      ℕ → ℕ → ℕ → Transport Device H → Option (AckStatus × Transport Device H)
  unfolding wait_loop
  wait_for_ack fuel expected timeout_ms t =
      wait_loop fuel 1 (clock 0 + timeout_ms * 1_000_000) expected t
