-- ===== src/System/Cycle/Moved.antt =====
-- From the bytes of a frame to the position of a joint: one call of `read` of
-- my_diffbot_system.cpp.
use Prim.Native.String.{String}
use text.Mathlib.Text.{◌==◌ as str_eq}
use my_diffbot.Common.{
  ℕ, ◌+◌, ◌≡◌, ◌≢◌, refl, sym, ap, ap₂, ◌∙◌, List, [], ◌∷◌, true, false, ◌&&◌, Option, some,
  if◌then◌else◌, Bool-cases, if-elim, inl, inr, u64,
}
use my_diffbot.Common.Int.{ℤ, ◌-ℤ◌}
use my_diffbot.Double.{Double}
use my_diffbot.Protocol.MsgId
use my_diffbot.Protocol.Frame.{build_frame}
use my_diffbot.Protocol.Payload.Received.{
  WheelFeedbackPayload, WheelFeedbackPayloadFits, wheel_feedback_to_bytes,
}
use my_diffbot.Transport.Serial.{SerialPort}
use my_diffbot.Transport.{Transport}
use my_diffbot.Transport.Read.Received.{DeliversBytes, arrived}
use my_diffbot.Kestrel.{Kestrel, ImuSnapshot, WheelFeedbackSnapshot, get_wheel_feedback_snapshot}
use my_diffbot.Kestrel.Feedback.Delivered.{read-get_wheel_feedback_snapshot}
use my_diffbot.System.Interfaces.{Name, same_name, mem_name, eq_of_same_name, Values, get_state}
use my_diffbot.System.Wheels.{ticks_to_rad}
use my_diffbot.System.Wheels.Joints.{IsJoint, position_of, is_left}
use my_diffbot.System.Wheels.Odometry.{ticks_of, ticks_prev, read_wheels-Moved}
use my_diffbot.System.Imu.{DiagnosticStatus, imu_value, set_imu_states, read_imu}
use my_diffbot.System.Imu.Diagnosed.{state-set_imu_states}
use my_diffbot.System.Component.{ReturnType, System}
use my_diffbot.System.Cycle.Published.{publish-eq}
use my_diffbot.System.Cycle.{mirror_led, after_read, read}

module _ {F : Type 0} where
  -- The mirrored interfaces are those of the LED.
  mirror_led-other :
      (name : Name) (names : List Name) (v : Values F)
      → str_eq name.prefix_name "led" ≡ false
      → get_state name (mirror_led names v) ≡ get_state name v
  unfolding mirror_led
  mirror_led-other name [] v other = refl
  mirror_led-other name (m ∷ names) v other =
      mirror_led-other name names _ other ∙ elim (Bool-cases (str_eq m.prefix_name "led")) [
        | inr foreign ↦ rw foreign refl
        | inl own ↦ elim (Bool-cases (same_name m name)) [
          | inr differs ↦ rw (own, differs) refl
          | inl same ↦
              let m_eq =
                ap (λ (n : Name). str_eq n.prefix_name "led") (eq_of_same_name m name same) in
              absurd (cc)
        ]
      ]

  -- The sensor has no position.
  position-set_imu_states :
      (joint : String) (names : List Name) (imu : ImuSnapshot F) (v : Values F)
      → get_state (position_of joint) (set_imu_states names imu v) ≡ get_state (position_of joint) v
  unfolding imu_value
  position-set_imu_states joint names imu v =
      state-set_imu_states (position_of joint) names imu v
      ∙ if-elim (λ (x : F). x ≡ get_state (position_of joint) v)
          (mem_name (position_of joint) names && str_eq joint "bno055_imu") refl refl

module _ (S : SerialPort) (D : Double) where
  open S use {Device, is_open}
  open D use {F, add}

  -- The position after a call of `read`, from the ticks that the driver then holds.
  pub after_read-position :
      (now : ℕ) (joint : String) (t : Transport Device (Kestrel F)) (s : System Device F)
      → IsJoint joint s.interfaces.joint_states
      → str_eq joint "led" ≡ false
      → s.wheels.ticks_init ≡ true
      → t.state.wheel_feedback_count ≢ 0
      → let s' = (after_read S D now t s).1 in
        (ticks_prev joint s'.wheels ≡ ticks_of joint t.state)
        × (get_state (position_of joint) s'.values
            ≡ add
                (get_state (position_of joint) s.values)
                (ticks_to_rad D s.config.cpr (ticks_of joint t.state -ℤ ticks_prev joint s.wheels)))
  unfolding after_read read_imu
  after_read-position now joint t s listed not_led known counted =
      let k = t.link.shared.state in
      let names = s.interfaces in
      let mirrored = mirror_led names.gpio_commands s.values in
      let shown = set_imu_states names.sensor_states k.imu mirrored in
      let (_, prev, moved) =
        read_wheels-Moved D s.config.cpr names.joint_states joint listed now k (s.wheels, shown)
          known counted in
      let kept : get_state (position_of joint) shown ≡ get_state (position_of joint) s.values =
        position-set_imu_states joint names.sensor_states k.imu mirrored
        ∙ mirror_led-other (position_of joint) names.gpio_commands s.values not_led in
      (
        prev,
        moved
            ∙ ap
                (λ (x : F).
                  add x
                    (ticks_to_rad D s.config.cpr (ticks_of joint k -ℤ ticks_prev joint s.wheels)))
                kept,
      )

  -- The ticks that a frame tells of the wheel that a joint follows.
  abbrev pub ticks_told : String → WheelFeedbackPayload → ℤ
  ticks_told joint p = if is_left joint then p.left_encoder_ticks else p.right_encoder_ticks

  -- Once the ticks of the wheels are known and the publisher of the diagnostics is there, a wheel
  -- feedback frame with fields in range that arrives whole at an open port with nothing waiting
  -- makes `read` succeed and leave nothing waiting. The position of a joint that is listed once,
  -- and is not the LED, moves by the ticks that the frame tells of its wheel, less those of the
  -- call before, in radians; and the told ticks are those that the next call counts from. The count
  -- of frames must not come back to zero.
  pub read_moved :
      (now steady : ℕ) (joint : String) (p : WheelFeedbackPayload) (s : System Device F)
      → DeliversBytes S
      → IsJoint joint s.interfaces.joint_states
      → str_eq joint "led" ≡ false
      → WheelFeedbackPayloadFits p
      → s.wheels.ticks_init ≡ true
      → u64 (s.kestrel.state.wheel_feedback_count + 1) ≢ 0
      → is_open s.kestrel.device ≡ true
      → s.has_diag_pub ≡ true
      → s.kestrel.rx_buffer ≡ []
      → arrived S s.kestrel ≡ build_frame MsgId.wheel_feedback (wheel_feedback_to_bytes p)
      → (diag : Option DiagnosticStatus) × (s' : System Device F) × (read S D now steady s
          ≡ some (ReturnType.ok, diag, s'))
        × (s'.kestrel.rx_buffer ≡ [])
        × (ticks_prev joint s'.wheels ≡ ticks_told joint p)
        × (get_state (position_of joint) s'.values
            ≡ add
                (get_state (position_of joint) s.values)
                (ticks_to_rad D s.config.cpr (ticks_told joint p -ℤ ticks_prev joint s.wheels)))
  unfolding read get_wheel_feedback_snapshot
  read_moved now steady joint p s delivers listed not_led fits known counted opened published empty
        came =
      let (t, e, empty', seen) =
        read-get_wheel_feedback_snapshot S D steady p s.kestrel delivers fits empty came in
      let k = t.link.shared.state in
      let count_eq = ap (λ (f : WheelFeedbackSnapshot F). f.count) seen in
      let told : ticks_of joint k ≡ ticks_told joint p =
        ap₂ (λ (l r : ℤ). if is_left joint then l else r)
          (ap (λ (f : WheelFeedbackSnapshot F). f.left_ticks) seen)
          (ap (λ (f : WheelFeedbackSnapshot F). f.right_ticks) seen) in
      let (prev, moved) =
        after_read-position now joint t s listed not_led known
          (λ zero. counted (sym count_eq ∙ zero)) in
      rw (opened, e)
        (
          _,
          _,
          publish-eq S D _ _ (unfold after_read in published),
          unfold after_read in empty',
          prev ∙ told,
          moved
              ∙ ap
                  (λ (ticks : ℤ).
                    add (get_state (position_of joint) s.values)
                      (ticks_to_rad D s.config.cpr (ticks -ℤ ticks_prev joint s.wheels)))
                  told,
        )
