-- ===== src/Kestrel/Feedback/Ticks.antt =====
-- The ticks that `OnMessageReceived` of kestrel_transport.cpp keeps of some messages.
use my_diffbot.Common.{
  ℕ, ◌≡◌, refl, ap, ◌∙◌, arith, List, [], ◌∷◌, ◌&&◌, if◌then◌else◌, ◌==◌, leb, length,
}
use my_diffbot.Common.Int.{ℤ}
use my_diffbot.Double.{Double}
use my_diffbot.Protocol.MsgId
use my_diffbot.Protocol.Payload.Received.{wheel_feedback_of_bytes}
use my_diffbot.Protocol.Stream.{Event, message, corrupt}
use my_diffbot.Transport.Serial.{Shared}
use my_diffbot.Transport.{Link, dispatch, count_crc_error}
use my_diffbot.Transport.Read.Frames.{handle, shared-dispatch}
use my_diffbot.Kestrel.{
  Kestrel, on_wheel_feedback, on_imu_data, on_pid_debug, on_heartbeat, on_message_received,
}

-- The ticks of the two wheels that the last complete wheel feedback tells, if there is one.
abbrev pub ticks_heard : List Event → ℤ × ℤ → ℤ × ℤ
ticks_heard [] ticks = ticks
ticks_heard (message msg_id payload ∷ es) ticks = ticks_heard es (
    if msg_id == MsgId.wheel_feedback && leb 32 (length payload)
    then (
      (wheel_feedback_of_bytes payload).left_encoder_ticks,
      (wheel_feedback_of_bytes payload).right_encoder_ticks,
    )
    else ticks)
ticks_heard (corrupt ∷ es) ticks = ticks_heard es ticks

module _ (D : Double) where
  open D use {F}

  abbrev pub both_ticks : Kestrel F → ℤ × ℤ
  both_ticks k = (k.left_encoder_ticks, k.right_encoder_ticks)

  heard :
      (now msg_id : ℕ) (payload : List ℕ) (s : Shared (Kestrel F))
      → both_ticks (on_message_received D now msg_id payload s).state ≡ (
          if msg_id == MsgId.wheel_feedback && leb 32 (length payload)
          then (
            (wheel_feedback_of_bytes payload).left_encoder_ticks,
            (wheel_feedback_of_bytes payload).right_encoder_ticks,
          )
          else both_ticks s.state)
  unfolding on_message_received on_wheel_feedback on_imu_data on_pid_debug on_heartbeat
  heard now msg_id payload s = ground arith

  pub handle-ticks_heard :
      (now : ℕ) (es : List Event) (l : Link (Kestrel F))
      → both_ticks (handle (on_message_received D) now es l).state
        ≡ ticks_heard es (both_ticks l.state)
  unfolding handle count_crc_error
  handle-ticks_heard now [] l = refl
  handle-ticks_heard now (message msg_id payload ∷ es) l =
      handle-ticks_heard now es (dispatch (on_message_received D) now msg_id payload l)
      ∙ ap (ticks_heard es) (
          ap (λ (s : Shared (Kestrel F)). both_ticks s.state)
            (shared-dispatch (on_message_received D) now msg_id payload l)
          ∙ heard now msg_id payload l.shared)
  handle-ticks_heard now (corrupt ∷ es) l = handle-ticks_heard now es (count_crc_error l)
