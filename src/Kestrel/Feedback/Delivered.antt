-- ===== src/Kestrel/Feedback/Delivered.antt =====
-- From a frame of the firmware to what the driver's getters return.
use my_diffbot.Common.{
  ℕ, ◌+◌, ◌-◌, ◌/◌, ◌%◌, ◌<◌, ◌≡◌, refl, sym, ap, ◌∙◌, arith, [], append-nil, some, ◌==◌, leb, u64,
}
use my_diffbot.Common.Bits.{bit_and-pow}
use my_diffbot.Common.Int.{pos}
use my_diffbot.Double.{Double}
use my_diffbot.Protocol.MsgId
use my_diffbot.Protocol.Frame.{build_frame}
use my_diffbot.Protocol.Payload.Received.{
  WheelFeedbackPayload, WheelFeedbackPayloadFits, wheel_feedback_to_bytes, wheel_feedback_of_bytes,
  HeartbeatPayload, HeartbeatPayloadFits, heartbeat_to_bytes, heartbeat_of_bytes,
}
use my_diffbot.Protocol.Payload.RoundTrip.{
  length-wheel_feedback_to_bytes, wheel_feedback_of_bytes-to_bytes, length-heartbeat_to_bytes,
  heartbeat_of_bytes-to_bytes,
}
use my_diffbot.Transport.Serial.{Shared, SerialPort}
use my_diffbot.Transport.{Transport, dispatch}
use my_diffbot.Transport.Read.{read}
use my_diffbot.Transport.Read.Frames.{shared-dispatch}
use my_diffbot.Transport.Read.Received.{DeliversBytes, arrived, device_after}
use my_diffbot.Transport.Session.{is_heartbeat_healthy}
use my_diffbot.Transport.Read.One.{read_one}
use my_diffbot.Kestrel.{
  Kestrel, get_wheel_feedback_snapshot, wheel_dir, on_wheel_feedback, on_heartbeat,
  on_message_received,
}

module _ (D : Double) where
  open D use {F, literal, of_int, add, mul}

  received_wheel_feedback :
      (now : ℕ) (p : WheelFeedbackPayload) (s : Shared (Kestrel F))
      → WheelFeedbackPayloadFits p
      → on_message_received D now MsgId.wheel_feedback (wheel_feedback_to_bytes p) s
        ≡ record s { state = on_wheel_feedback D p s.state }
  unfolding on_message_received
  received_wheel_feedback now p s h = rw (
    length-wheel_feedback_to_bytes p,
    sym (ap wheel_feedback_of_bytes (append-nil (wheel_feedback_to_bytes p)))
        ∙ wheel_feedback_of_bytes-to_bytes p [] h,
  )

  received_heartbeat :
      (now : ℕ) (p : HeartbeatPayload) (s : Shared (Kestrel F))
      → HeartbeatPayloadFits p
      → on_message_received D now MsgId.heartbeat (heartbeat_to_bytes p) s ≡ on_heartbeat D now p s
  unfolding on_message_received
  received_heartbeat now p s h = rw (
    length-heartbeat_to_bytes p,
    sym (ap heartbeat_of_bytes (append-nil (heartbeat_to_bytes p)))
        ∙ heartbeat_of_bytes-to_bytes p [] h,
  )

module _ (S : SerialPort) (D : Double) where
  open S use {Device}
  open D use {F, literal, of_int, add, mul}

  -- A wheel feedback frame with fields in range that arrives at an empty buffer is what the
  -- snapshot then shows: the ticks of the firmware, its speeds with the direction of each wheel,
  -- its time stamp in seconds, and a count that is one higher. Nothing stays in the buffer.
  pub read-get_wheel_feedback_snapshot :
      (now : ℕ) (p : WheelFeedbackPayload) (t : Transport Device (Kestrel F))
      → DeliversBytes S
      → WheelFeedbackPayloadFits p
      → t.rx_buffer ≡ []
      → arrived S t ≡ build_frame MsgId.wheel_feedback (wheel_feedback_to_bytes p)
      → (u : Transport Device (Kestrel F)) × (read S (on_message_received D) now t ≡ some u)
        × (u.rx_buffer ≡ [])
        × (get_wheel_feedback_snapshot u.state ≡ record {
          count = u64 (t.state.wheel_feedback_count + 1);
          left_ticks = p.left_encoder_ticks;
          right_ticks = p.right_encoder_ticks;
          left_mrps =
              mul
                (of_int (
                  wheel_dir p.left_encoder_ticks t.state.left_encoder_ticks t.state.left_wheel_dir))
                (of_int (pos p.left_wheel_mrps));
          right_mrps =
              mul
                (of_int (
                  wheel_dir p.right_encoder_ticks t.state.right_encoder_ticks
                    t.state.right_wheel_dir))
                (of_int (pos p.right_wheel_mrps));
          stamp_sec =
              add
                (of_int (pos p.timestamp_sec))
                (mul (of_int (pos p.timestamp_nsec)) (literal 1 9));
        })
  unfolding get_wheel_feedback_snapshot on_wheel_feedback
  read-get_wheel_feedback_snapshot now p t delivers h empty came =
      let payload = wheel_feedback_to_bytes p in
      let seen =
        shared-dispatch (on_message_received D) now MsgId.wheel_feedback payload t.link
        ∙ received_wheel_feedback D now p t.shared h in
      (
        record t {
          device = device_after S t;
          rx_buffer = [];
          link = dispatch (on_message_received D) now MsgId.wheel_feedback payload t.link;
        },
        read_one S (on_message_received D) now MsgId.wheel_feedback payload t delivers empty
            (omega (arith, length-wheel_feedback_to_bytes p)) came,
        refl,
        ap (λ (s : Shared (Kestrel F)). get_wheel_feedback_snapshot s.state) seen,
      )

  -- A heartbeat frame with fields in range that arrives at an empty buffer sets the health of the
  -- IMU to bit 1 of its status. From then on the heartbeat is healthy just as long as its age in
  -- whole milliseconds is at most the maximal age, if the clock did not stand at zero when it
  -- arrived.
  pub read-is_heartbeat_healthy :
      (now later max_age_ms : ℕ) (p : HeartbeatPayload) (t : Transport Device (Kestrel F))
      → DeliversBytes S
      → HeartbeatPayloadFits p
      → 0 < now
      → t.rx_buffer ≡ []
      → arrived S t ≡ build_frame MsgId.heartbeat (heartbeat_to_bytes p)
      → (u : Transport Device (Kestrel F)) × (read S (on_message_received D) now t ≡ some u)
        × (u.state.imu_healthy ≡ (p.system_status / 2 % 2 == 1))
        × (is_heartbeat_healthy later max_age_ms u ≡ leb ((later - now) / 1_000_000) max_age_ms)
  unfolding on_heartbeat is_heartbeat_healthy
  read-is_heartbeat_healthy now later max_age_ms p t delivers h started empty came =
      let payload = heartbeat_to_bytes p in
      let seen =
        shared-dispatch (on_message_received D) now MsgId.heartbeat payload t.link
        ∙ received_heartbeat D now p t.shared h in
      let u : Transport Device (Kestrel F) = record t {
        device = device_after S t;
        rx_buffer = [];
        link = dispatch (on_message_received D) now MsgId.heartbeat payload t.link;
      } in
      let time : u.last_heartbeat_time ≡ now =
        ap (λ (s : Shared (Kestrel F)). s.last_heartbeat_time) seen in
      (
        u,
        read_one S (on_message_received D) now MsgId.heartbeat payload t delivers empty
            (omega (arith, length-heartbeat_to_bytes p)) came,
        ap (λ (s : Shared (Kestrel F)). s.state.imu_healthy) seen
            ∙ ground (arith, bit_and-pow 1 p.system_status),
        rw time (ground arith),
      )
