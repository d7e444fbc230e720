-- ===== src/Transport/Ack/Keeps.antt =====
-- What `WaitForAck` of serial_transport.cpp keeps.
use mathlib.Core.Option.{some-injective}
use my_diffbot.Common.{
  ℕ, zero, suc, ◌+◌, ◌*◌, ◌≡◌, refl, ap, subst, arith, false, Option, none, some, ltb, Bool-cases,
  Option-cases, inl, inr,
}
use my_diffbot.Protocol.AckStatus
use my_diffbot.Protocol.AckStatus.{AckStatus}
use my_diffbot.Transport.Serial.{SerialPort, Hook}
use my_diffbot.Transport.{Transport}
use my_diffbot.Transport.Read.{◌>>=◌, read}
use my_diffbot.Transport.Ack.{is_acked, take_ack, after_poll, wait_loop, wait_for_ack}

-- A pair that a call returned is the pair that it is known to return.
pub same_result :
    {A B : Type 0} (P : B → Type 0) (a b : A) (t u : B)
    → ◌≡◌ {A = Option (A × B)} (some (a, t)) (some (b, u))
    → P t
    → P u
same_result {A = A} {B = B} P a b t u e h =
    subst P (ap (λ (r : A × B). r.1) (some-injective (a, t) (b, u) e)) h

-- What a chain of two calls that returned went through.
pub >>=-eq-some :
    {A B : Type 0} (m : Option A) (f : A → Option B) {b : B}
    → (m >>= f) ≡ some b
    → (a : A) × (m ≡ some a) × (f a ≡ some b)
>>=-eq-some none f h = absurd (cc)
>>=-eq-some (some a) f h = (a, refl, h)

-- The use of an ACK changes the firmware version and what is noted of the ACK.
pub take_ack-eq :
    {D H : Type 0} (expected : ℕ) (t : Transport D H)
    → let u = (take_ack expected t).1 in
      u ≡ record t {
        firmware_version = u.firmware_version;
        link = record t.link {
          ack_received = false;
          pending_ack_status = u.link.pending_ack_status;
        };
      }
unfolding take_ack
take_ack-eq expected t = ground arith

-- A property of the transport that a call of `read` and the use of an ACK keep.
pub record Keeps (S : SerialPort) {H : Type 0} (on_message : Hook H)
    (P : Transport S.Device H → Type 0) : Type 0 where
  pub reads : (now : ℕ) (t u : Transport S.Device H) → P t → read S on_message now t ≡ some u → P u
  pub acks : (expected : ℕ) (t : Transport S.Device H) → P t → P (take_ack expected t).1

module _ (S : SerialPort) {H : Type 0} (on_message : Hook H) (P : Transport S.Device H → Type 0)
    (keeps : Keeps S on_message P) (clock : ℕ → ℕ) where
  open S use {Device}

  wait_loop-keeps :
      (fuel k deadline expected : ℕ) (t u : Transport Device H) (status : AckStatus)
      → wait_loop S on_message clock fuel k deadline expected t ≡ some (status, u)
      → P t
      → P u
  unfolding wait_loop after_poll
  wait_loop-keeps zero k deadline expected t u status e h = absurd (ground arith)
  wait_loop-keeps (suc fuel) k deadline expected t u status e h =
      elim (Bool-cases (ltb (clock k) deadline)) [
        | inr late ↦ same_result P AckStatus.timeout status t u (rw late at e) h
        | inl early ↦ elim (Option-cases (read S on_message (clock k) t)) [
          | inl stuck ↦ absurd (cc (rw (early, stuck) at e))
          | inr (v, came) ↦
              let hv = keeps.reads (clock k) t v h came in
              elim (Bool-cases (is_acked expected v)) [
                | inl acked ↦
                    let taken = take_ack expected v in
                    same_result P taken.0 status taken.1 u (rw (early, came, acked) at e)
                      (keeps.acks expected v hv)
                | inr waits ↦
                    wait_loop-keeps fuel (k + 1) deadline expected v u status
                      (rw (early, came, waits) at e) hv
              ]
        ]
      ]

  pub wait_for_ack-keeps :
      (fuel expected timeout_ms : ℕ) (t u : Transport Device H) (status : AckStatus)
      → wait_for_ack S on_message clock fuel expected timeout_ms t ≡ some (status, u)
      → P t
      → P u
  unfolding wait_for_ack
  wait_for_ack-keeps fuel expected timeout_ms t u status e h =
      wait_loop-keeps fuel 1 (clock 0 + timeout_ms * 1_000_000) expected t u status e h
