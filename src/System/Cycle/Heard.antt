-- ===== src/System/Cycle/Heard.antt =====
-- From any bytes to the position of a joint: one call of `read` of my_diffbot_system.cpp.
use Prim.Native.String.{String}
use text.Mathlib.Text.{◌==◌ as str_eq}
use my_diffbot.Common.{
  ℕ, ◌+◌, ◌^◌, ◌<◌, ◌≡◌, ◌≢◌, sym, ap, ◌∙◌, List, ◌++◌, true, false, Option, some, if◌then◌else◌,
  u64,
}
use my_diffbot.Common.Int.{ℤ, ◌-ℤ◌}
use my_diffbot.Double.{Double}
use my_diffbot.Protocol.Stream.{Event, Decodes}
use my_diffbot.Protocol.Stream.Unique.{Decodes_unique}
use my_diffbot.Transport.Serial.{SerialPort}
use my_diffbot.Transport.{Transport}
use my_diffbot.Transport.Read.Chunks.{IsReady}
use my_diffbot.Transport.Read.Frames.{handle}
use my_diffbot.Transport.Read.Received.{DeliversBytes, arrived, device_after, read-Received}
use my_diffbot.Kestrel.{Kestrel, on_message_received}
use my_diffbot.Kestrel.Feedback.Invariant.{wheel_feedbacks, handle-wheel_feedback_count}
use my_diffbot.Kestrel.Feedback.Ticks.{ticks_heard, both_ticks, handle-ticks_heard}
use my_diffbot.System.Interfaces.{get_state}
use my_diffbot.System.Wheels.{ticks_to_rad}
use my_diffbot.System.Wheels.Joints.{IsJoint, position_of, is_left}
use my_diffbot.System.Wheels.Odometry.{ticks_prev}
use my_diffbot.System.Imu.{DiagnosticStatus}
use my_diffbot.System.Component.{ReturnType, System}
use my_diffbot.System.Cycle.Published.{publish-eq}
use my_diffbot.System.Cycle.{after_read, read}
use my_diffbot.System.Cycle.Moved.{after_read-position}

abbrev pub of_wheel : String → ℤ × ℤ → ℤ
of_wheel joint (left, right) = if is_left joint then left else right

module _ (S : SerialPort) (D : Double) where
  open S use {Device, is_open}
  open D use {F, add}

  -- Once the ticks of the wheels are known and the publisher of the diagnostics is there, whatever
  -- bytes the device delivers at an open port: `read` succeeds and keeps what waits for more. The
  -- position of a joint that is listed once, and is not the LED, moves by the ticks that the last
  -- complete wheel feedback among the decoded messages tells of its wheel, or those that were last
  -- told before, less those of the call before, in radians; and these are the ticks that the next
  -- call counts from. The count of wheel feedbacks must be one of 64 bits and not come back to
  -- zero.
  pub read_heard :
      (now steady : ℕ) (joint : String) (es : List Event) (q : List ℕ) (s : System Device F)
      → DeliversBytes S
      → IsReady s.kestrel
      → Decodes (s.kestrel.rx_buffer ++ arrived S s.kestrel) es q
      → IsJoint joint s.interfaces.joint_states
      → str_eq joint "led" ≡ false
      → s.wheels.ticks_init ≡ true
      → s.kestrel.state.wheel_feedback_count < 2 ^ 64
      → u64 (s.kestrel.state.wheel_feedback_count + wheel_feedbacks es) ≢ 0
      → is_open s.kestrel.device ≡ true
      → s.has_diag_pub ≡ true
      → let told = of_wheel joint (ticks_heard es (both_ticks D s.kestrel.state)) in
        (diag : Option DiagnosticStatus) × (s' : System Device F) × (read S D now steady s
          ≡ some (ReturnType.ok, diag, s'))
        × (s'.kestrel.rx_buffer ≡ q)
        × (ticks_prev joint s'.wheels ≡ told)
        × (get_state (position_of joint) s'.values
            ≡ add
                (get_state (position_of joint) s.values)
                (ticks_to_rad D s.config.cpr (told -ℤ ticks_prev joint s.wheels)))
  unfolding read
  read_heard now steady joint es q s delivers ready decoded listed not_led known small counted
        opened published =
      let message = on_message_received D in
      let (es', q', decoded', _, _, e) = read-Received S message steady s.kestrel delivers ready in
      let (es_eq, q_eq) = Decodes_unique decoded' decoded in
      let t : Transport Device (Kestrel F) = record s.kestrel {
        device = device_after S s.kestrel;
        rx_buffer = q';
        link = handle message steady es' s.kestrel.link;
      } in
      let count_eq =
        handle-wheel_feedback_count D steady es' s.kestrel.link small
        ∙ ap (λ (l : List Event). u64 (s.kestrel.state.wheel_feedback_count + wheel_feedbacks l))
            es_eq in
      let told = ap (of_wheel joint) (
        handle-ticks_heard D steady es' s.kestrel.link
        ∙ ap (λ (l : List Event). ticks_heard l (both_ticks D s.kestrel.state)) es_eq) in
      let (prev, moved) =
        after_read-position S D now joint t s listed not_led known
          (λ zero. counted (sym count_eq ∙ zero)) in
      rw (opened, e)
        (
          _,
          _,
          publish-eq S D _ _ (unfold after_read in published),
          unfold after_read in q_eq,
          prev ∙ told,
          moved
              ∙ ap
                  (λ (ticks : ℤ).
                    add (get_state (position_of joint) s.values)
                      (ticks_to_rad D s.config.cpr (ticks -ℤ ticks_prev joint s.wheels)))
                  told,
        )
