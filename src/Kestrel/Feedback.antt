-- ===== src/Kestrel/Feedback.antt =====
-- What a received message does to the feedback of `Kestrel`.
pub mod Invariant
pub mod Delivered
pub mod Sensed
pub mod Ticks
use my_diffbot.Common.{
  ℕ, suc, ◌+◌, ◌*◌, ◌/◌, ◌%◌, ◌^◌, ◌<◌, ◌≤◌, ◌≡◌, ◌≢◌, ◌⊎◌, refl, ap, ◌∙◌, arith, List, Bool, true,
  false, not, inl, inr, Bool-cases, if◌then◌else◌, ◌==◌, ltb, length, u64, bit_and,
}
use my_diffbot.Common.Bits.{bit_and-pow}
use my_diffbot.Common.Int.{ℤ, pos, negsuc, ltb_ℤ, eqb_ℤ}
use my_diffbot.Double.{Double}
use my_diffbot.Protocol.MsgId
use my_diffbot.Protocol.Payload.Received.{heartbeat_of_bytes}
use my_diffbot.Transport.Serial.{Shared}
use my_diffbot.Kestrel.{
  Kestrel, wheel_dir, on_wheel_feedback, on_imu_data, on_pid_debug, on_heartbeat,
  on_message_received,
}

-- The direction is that of the movement since the previous frame: forwards when the ticks grew,
-- backwards when they shrank, the direction of before when the wheel stood still.
pub wheel_dir_lem :
    (ticks previous dir : ℤ)
    → ((ltb_ℤ previous ticks ≡ true) × (wheel_dir ticks previous dir ≡ pos 1))
      ⊎ ((ltb_ℤ ticks previous ≡ true) × (wheel_dir ticks previous dir ≡ negsuc 0))
      ⊎ ((eqb_ℤ ticks previous ≡ true) × (wheel_dir ticks previous dir ≡ dir))
unfolding wheel_dir
wheel_dir_lem ticks previous dir = ground arith

module _ (D : Double) where
  -- A message that the driver does not know, or that is shorter than its payload, changes nothing.
  pub on_message_received_ignored :
      (now msg_id : ℕ) (payload : List ℕ) (s : Shared (Kestrel D.F))
      → (msg_id ≡ MsgId.wheel_feedback → length payload < 32)
      → (msg_id ≡ MsgId.imu_data → length payload < 33)
      → (msg_id ≡ MsgId.pid_debug → length payload < 52)
      → (msg_id ≡ MsgId.heartbeat → length payload < 17)
      → on_message_received D now msg_id payload s ≡ s
  unfolding on_message_received
  on_message_received_ignored now msg_id payload s hw hi hp hh = ground arith
