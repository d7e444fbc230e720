-- ===== src/Kestrel/Feedback/Invariant.antt =====
-- The feedback of `Kestrel` after any bytes.
use my_diffbot.Common.{
  ℕ, ◌+◌, ◌^◌, ◌<◌, ◌≡◌, ◌⊎◌, refl, ap, ◌∙◌, arith, List, [], ◌∷◌, ◌++◌, some, inl, inr,
  if◌then◌else◌, if-elim, ◌==◌, ltb, leb, ◌&&◌, length, u64,
}
use my_diffbot.Common.Int.{ℤ, pos, negsuc}
use my_diffbot.Double.{Double}
use my_diffbot.Protocol.MsgId
use my_diffbot.Protocol.Payload.Received.{
  wheel_feedback_of_bytes, imu_data_of_bytes, pid_debug_of_bytes, heartbeat_of_bytes,
  WheelFeedbackPayload, ImuDataPayload, PidDebugPayload, HeartbeatPayload,
}
use my_diffbot.Protocol.Stream.{Event, message, corrupt, Decodes}
use my_diffbot.Transport.Serial.{Shared, SerialPort}
use my_diffbot.Transport.{Link, Transport, dispatch, count_crc_error}
use my_diffbot.Transport.Read.{read}
use my_diffbot.Transport.Read.Frames.{handle, shared-dispatch}
use my_diffbot.Transport.Read.Chunks.{IsReady}
use my_diffbot.Transport.Read.Received.{DeliversBytes, arrived, device_after, read-Received}
use my_diffbot.Kestrel.{
  Kestrel, initial, wheel_dir, on_wheel_feedback, on_imu_data, on_pid_debug, on_heartbeat,
  on_message_received,
}

-- The number of complete wheel feedback messages among the events.
abbrev pub wheel_feedbacks : List Event → ℕ
wheel_feedbacks [] = 0
wheel_feedbacks (message msg_id payload ∷ es) =
    (if msg_id == MsgId.wheel_feedback && leb 32 (length payload) then 1 else 0)
    + wheel_feedbacks es
wheel_feedbacks (corrupt ∷ es) = wheel_feedbacks es

module _ (D : Double) where
  open D use {F, literal, of_int, mul}

  abbrev IsDirection : ℤ → Type 0
  IsDirection dir = (dir ≡ pos 1) ⊎ (dir ≡ negsuc 0)

  -- A speed is still the initial one, or a number of the firmware with the sign of the direction.
  abbrev IsSigned : ℤ → F → Type 0
  IsSigned dir mrps = (mrps ≡ literal 0 0) ⊎ ((n : ℕ) × (mrps ≡ mul (of_int dir) (of_int (pos n))))

  pub record IsConsistent (k : Kestrel F) : Type 0 where
    pub left_direction : IsDirection k.left_wheel_dir
    pub right_direction : IsDirection k.right_wheel_dir
    pub left_speed : IsSigned k.left_wheel_dir k.left_wheel_fw_mrps
    pub right_speed : IsSigned k.right_wheel_dir k.right_wheel_fw_mrps

  wheel_dir-IsDirection :
      (ticks previous dir : ℤ) → IsDirection dir → IsDirection (wheel_dir ticks previous dir)
  unfolding wheel_dir
  wheel_dir-IsDirection ticks previous dir h = ground arith

  -- The initial state is consistent.
  pub initial-IsConsistent : IsConsistent (initial D)
  initial-IsConsistent = record {
    left_direction = inl refl;
    right_direction = inl refl;
    left_speed = inl refl;
    right_speed = inl refl;
  }

  -- What a message can do to the state: nothing, or what its handler does.
  on_message_received_cases :
      (P : Shared (Kestrel F) → Type 0) (now msg_id : ℕ) (payload : List ℕ) (s : Shared (Kestrel F))
      → P s
      → ((p : WheelFeedbackPayload) → P (record s { state = on_wheel_feedback D p s.state }))
      → ((p : ImuDataPayload) → P (record s { state = on_imu_data D p s.state }))
      → ((p : PidDebugPayload) → P (record s { state = on_pid_debug D p s.state }))
      → ((p : HeartbeatPayload) → P (on_heartbeat D now p s))
      → P (on_message_received D now msg_id payload s)
  unfolding on_message_received
  on_message_received_cases P now msg_id payload s nothing wheel imu pid heartbeat =
      if-elim P (msg_id == MsgId.wheel_feedback)
        (if-elim P (ltb (length payload) 32) nothing (wheel (wheel_feedback_of_bytes payload)))
        (if-elim P (msg_id == MsgId.imu_data)
          (if-elim P (ltb (length payload) 33) nothing (imu (imu_data_of_bytes payload)))
          (if-elim P (msg_id == MsgId.pid_debug)
            (if-elim P (ltb (length payload) 52) nothing (pid (pid_debug_of_bytes payload)))
            (if-elim P (msg_id == MsgId.heartbeat)
              (if-elim P (ltb (length payload) 17) nothing (heartbeat (heartbeat_of_bytes payload)))
              nothing)))

  pub on_message_received-IsConsistent :
      (now msg_id : ℕ) (payload : List ℕ) (s : Shared (Kestrel F))
      → IsConsistent s.state
      → IsConsistent (on_message_received D now msg_id payload s).state
  unfolding on_wheel_feedback on_imu_data on_pid_debug on_heartbeat
  on_message_received-IsConsistent now msg_id payload s h =
      on_message_received_cases (λ (s : Shared (Kestrel F)). IsConsistent s.state) now msg_id
        payload s h
        (λ p. record {
          left_direction =
              wheel_dir-IsDirection p.left_encoder_ticks s.state.left_encoder_ticks
                s.state.left_wheel_dir h.left_direction;
          right_direction =
              wheel_dir-IsDirection p.right_encoder_ticks s.state.right_encoder_ticks
                s.state.right_wheel_dir h.right_direction;
          left_speed = inr (p.left_wheel_mrps, refl);
          right_speed = inr (p.right_wheel_mrps, refl);
        })
        (λ p. record {
          left_direction = h.left_direction;
          right_direction = h.right_direction;
          left_speed = h.left_speed;
          right_speed = h.right_speed;
        })
        (λ p. record {
          left_direction = h.left_direction;
          right_direction = h.right_direction;
          left_speed = h.left_speed;
          right_speed = h.right_speed;
        })
        (λ p. record {
          left_direction = h.left_direction;
          right_direction = h.right_direction;
          left_speed = h.left_speed;
          right_speed = h.right_speed;
        })

  pub handle-IsConsistent :
      (now : ℕ) (es : List Event) (l : Link (Kestrel F))
      → IsConsistent l.state
      → IsConsistent (handle (on_message_received D) now es l).state
  unfolding handle count_crc_error
  handle-IsConsistent now [] l h = h
  handle-IsConsistent now (message msg_id payload ∷ es) l h =
      handle-IsConsistent now es (dispatch (on_message_received D) now msg_id payload l) (
        rw (shared-dispatch (on_message_received D) now msg_id payload l)
          (on_message_received-IsConsistent now msg_id payload l.shared h))
  handle-IsConsistent now (corrupt ∷ es) l h = handle-IsConsistent now es (count_crc_error l) h

  counted :
      (now msg_id : ℕ) (payload : List ℕ) (s : Shared (Kestrel F))
      → (on_message_received D now msg_id payload s).state.wheel_feedback_count ≡ (
          if msg_id == MsgId.wheel_feedback && leb 32 (length payload)
          then u64 (s.state.wheel_feedback_count + 1)
          else s.state.wheel_feedback_count)
  unfolding on_message_received on_wheel_feedback on_imu_data on_pid_debug on_heartbeat
  counted now msg_id payload s = ground arith

  -- The feedback counter counts the complete wheel feedback messages, modulo 2 ^ 64.
  pub handle-wheel_feedback_count :
      (now : ℕ) (es : List Event) (l : Link (Kestrel F))
      → l.state.wheel_feedback_count < 2 ^ 64
      → (handle (on_message_received D) now es l).state.wheel_feedback_count
        ≡ u64 (l.state.wheel_feedback_count + wheel_feedbacks es)
  unfolding handle count_crc_error
  handle-wheel_feedback_count now [] l h = omega arith
  handle-wheel_feedback_count now (message msg_id payload ∷ es) l h =
      let shared_eq = shared-dispatch (on_message_received D) now msg_id payload l in
      let one =
        ap (λ (s : Shared (Kestrel F)). s.state.wheel_feedback_count) shared_eq
        ∙ counted now msg_id payload l.shared in
      handle-wheel_feedback_count now es (dispatch (on_message_received D) now msg_id payload l)
        (ground (arith, one))
      ∙ ground (arith, one)
  handle-wheel_feedback_count now (corrupt ∷ es) l h =
      handle-wheel_feedback_count now es (count_crc_error l) h

module _ (S : SerialPort) (D : Double) where
  open S use {Device}

  -- A call of `read` at a buffer that holds bytes that wait for more keeps the feedback
  -- consistent, whatever bytes the device delivers: each direction is 1 or -1, and each speed the
  -- initial zero or a firmware value times that direction. The feedback counter, of 64 bits,
  -- grows by the number of complete wheel feedback messages that arrived.
  pub read-IsConsistent :
      (now : ℕ) (t : Transport Device (Kestrel D.F))
      → DeliversBytes S
      → IsReady t
      → IsConsistent D t.state
      → t.state.wheel_feedback_count < 2 ^ 64
      → (es : List Event) × (q : List ℕ) × (u : Transport Device (Kestrel D.F)) × Decodes
          (t.rx_buffer ++ arrived S t)
          es
          q
        × (read S (on_message_received D) now t ≡ some u)
        × IsConsistent D u.state
        × (u.state.wheel_feedback_count ≡ u64 (t.state.wheel_feedback_count + wheel_feedbacks es))
  read-IsConsistent now t delivers ready h small =
      let (es, q, d, _, _, e) = read-Received S (on_message_received D) now t delivers ready in
      (
        es,
        q,
        record t {
          device = device_after S t;
          rx_buffer = q;
          link = handle (on_message_received D) now es t.link;
        },
        d,
        e,
        handle-IsConsistent D now es t.link h,
        handle-wheel_feedback_count D now es t.link small,
      )
