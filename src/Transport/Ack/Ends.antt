-- ===== src/Transport/Ack/Ends.antt =====
-- How many rounds `WaitForAck` of serial_transport.cpp takes, if each of them sleeps.
use my_diffbot.Common.{
  ℕ, zero, suc, ◌+◌, ◌*◌, ◌≤◌, ◌<◌, ◌≡◌, arith, true, false, Bool-cases, dec_lt, Option, some, ltb,
  ◌==◌, inl, inr,
}
use my_diffbot.Protocol.MsgId
use my_diffbot.Protocol.AckStatus
use my_diffbot.Protocol.AckStatus.{AckStatus}
use my_diffbot.Transport.Serial.{SerialPort, Hook}
use my_diffbot.Transport.{Transport}
use my_diffbot.Transport.Read.{read}
use my_diffbot.Transport.Read.Chunks.{IsReady}
use my_diffbot.Transport.Read.Received.{DeliversBytes, read-IsReady}
use my_diffbot.Transport.Ack.{is_acked, take_ack, after_poll, wait_loop, wait_for_ack}

-- The first test comes no earlier than the reading for the deadline, without a sleep between them,
-- and from then on every round sleeps before the next test.
pub record IsTicking (clock : ℕ → ℕ) : Type 0 where
  pub starts : clock 0 ≤ clock 1
  pub sleeps : (k : ℕ) → 1 ≤ k → clock k + 5_000_000 ≤ clock (k + 1)

-- A call that returned, with the transport ready for more.
abbrev pub Returned : {D H : Type 0} → Option (AckStatus × Transport D H) → Type 0
Returned {D} {H} r = (status : AckStatus) × (t : Transport D H) × IsReady t × (r ≡ some (status, t))

module _ {D H : Type 0} (expected : ℕ) where
  take_ack-IsReady : (t : Transport D H) → IsReady t → IsReady (take_ack expected t).1
  unfolding take_ack
  take_ack-IsReady t r = elim (Bool-cases (expected == MsgId.handshake)) [
    | inl e ↦ rw e (record { waits = r.waits; bytes = r.bytes })
    | inr e ↦ rw e (record { waits = r.waits; bytes = r.bytes })
  ]

  after_poll-Returned :
      (again : Transport D H → Option (AckStatus × Transport D H)) (t : Transport D H)
      → IsReady t
      → Returned (again t)
      → Returned (after_poll expected again (some t))
  unfolding after_poll
  after_poll-Returned again t ready next = elim (Bool-cases (is_acked expected t)) [
    | inl e ↦ ((take_ack expected t).0, (take_ack expected t).1, take_ack-IsReady t ready, rw e)
    | inr e ↦ rw e next
  ]

module _ (S : SerialPort) {H : Type 0} (on_message : Hook H) (clock : ℕ → ℕ) where
  open S use {Device}

  module _ (fuel k deadline expected : ℕ) (t : Transport Device H) where
    pub wait_loop_late :
        deadline ≤ clock k
        → wait_loop S on_message clock (suc fuel) k deadline expected t
          ≡ some (AckStatus.timeout, t)
    unfolding wait_loop
    wait_loop_late late = let e : ltb (clock k) deadline ≡ false = ground arith in rw e

    pub wait_loop_early :
        clock k < deadline
        → wait_loop S on_message clock (suc fuel) k deadline expected t
          ≡ after_poll expected
              (wait_loop S on_message clock fuel (k + 1) deadline expected)
              (read S on_message (clock k) t)
    unfolding wait_loop
    wait_loop_early early = let e : ltb (clock k) deadline ≡ true = ground arith in rw e

  wait_loop-Returned :
      (fuel k deadline expected : ℕ) (t : Transport Device H)
      → IsTicking clock
      → DeliversBytes S
      → IsReady t
      → 1 ≤ k
      → deadline ≤ clock k + 5_000_000 * fuel
      → Returned (wait_loop S on_message clock (suc fuel) k deadline expected t)
  wait_loop-Returned zero k deadline expected t ticking delivers ready later enough =
      (AckStatus.timeout, t, ready, wait_loop_late 0 k deadline expected t (omega arith))
  wait_loop-Returned (suc fuel) k deadline expected t ticking delivers ready later enough =
      elim (dec_lt (clock k) deadline) [
        | no late ↦ (
          AckStatus.timeout,
          t,
          ready,
          wait_loop_late (suc fuel) k deadline expected t (omega arith),
        )
        | yes early ↦
            let (u, e, ready') = read-IsReady S on_message (clock k) t delivers ready in
            let next =
              wait_loop-Returned fuel (k + 1) deadline expected u ticking delivers ready'
                (omega arith) (omega (arith, ticking.sleeps k later)) in
            rw (wait_loop_early (suc fuel) k deadline expected t early, e)
              (after_poll-Returned expected
                (wait_loop S on_message clock (suc fuel) (k + 1) deadline expected) u ready' next)
      ]

  -- If every round sleeps five milliseconds before the next test, the device delivers bytes and the
  -- buffer holds bytes that wait for more, a wait with a fuel above a fifth of the timeout in
  -- milliseconds returns a status, and leaves the transport ready for the next call.
  pub wait_for_ack-Returned :
      (fuel expected timeout_ms : ℕ) (t : Transport Device H)
      → IsTicking clock
      → DeliversBytes S
      → IsReady t
      → timeout_ms ≤ 5 * fuel
      → Returned (wait_for_ack S on_message clock (suc fuel) expected timeout_ms t)
  unfolding wait_for_ack
  wait_for_ack-Returned fuel expected timeout_ms t ticking delivers ready enough =
      wait_loop-Returned fuel 1 (clock 0 + timeout_ms * 1_000_000) expected t ticking delivers ready
        (omega arith) (omega (arith, ticking.starts))
