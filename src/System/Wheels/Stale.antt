-- ===== src/System/Wheels/Stale.antt =====
-- `ReadWheels` after an activation, and when no more frames come.
use Prim.Native.String.{String}
use my_diffbot.Common.{
  ℕ, ◌-◌, ◌<◌, ◌≡◌, ◌≢◌, refl, sym, ap, ap₂, subst, ◌∙◌, arith, List, true, false, if◌then◌else◌,
  if-same,
}
use my_diffbot.Common.Int.{ℤ, pos, ◌-ℤ◌}
use my_diffbot.Double.{Double}
use my_diffbot.Kestrel.{Kestrel, WheelFeedbackSnapshot, get_wheel_feedback_snapshot}
use my_diffbot.System.Interfaces.{Name, Values, get_state}
use my_diffbot.System.Wheels.{
  Wheels, k_wheel_feedback_timeout_ns, k_meas_window_sec, mirror, seed, watch, advance, measure,
  ticks_to_rad, follow, read_wheels,
}
use my_diffbot.System.Wheels.Joints.{
  position_of, velocity_of, is_left, IsJoint, move_joints-velocity, move_joints-wheels,
}
use my_diffbot.System.Wheels.Odometry.{total_none, ticks_of, read_wheels-follow, read_wheels-Moved}

-- The difference of a `double` with itself, which is zero or not a number, is no speed window.
abbrev pub IsNoWindow : Double → Type 0
IsNoWindow D = (x : D.F) → D.le (k_meas_window_sec D) (D.sub x x) ≡ false

module _ (D : Double) where
  open D use {F, literal, add, sub, le}

  -- The frame of this feedback makes no speed window.
  abbrev IsSettled : F → Wheels F → Type 0
  IsSettled stamp w = le (k_meas_window_sec D) (sub stamp w.meas_stamp_prev) ≡ false

  measure-IsSettled :
      (cpr : F) (f : WheelFeedbackSnapshot F) (w : Wheels F)
      → IsNoWindow D
      → IsSettled f.stamp_sec (measure D cpr f w)
  unfolding measure
  measure-IsSettled cpr f w none_left = ground (arith, none_left f.stamp_sec)

  measure_settled :
      (cpr : F) (f : WheelFeedbackSnapshot F) (w : Wheels F)
      → IsSettled f.stamp_sec w
      → ((measure D cpr f w).meas_left_rad ≡ w.meas_left_rad)
        × ((measure D cpr f w).meas_right_rad ≡ w.meas_right_rad)
        × ((measure D cpr f w).wheel_feedback_stale ≡ w.wheel_feedback_stale)
  unfolding measure
  measure_settled cpr f w h = ground arith

  measure-keeps :
      (cpr : F) (f : WheelFeedbackSnapshot F) (w : Wheels F)
      → ((measure D cpr f w).last_wheel_count ≡ w.last_wheel_count)
        × ((measure D cpr f w).ticks_init ≡ w.ticks_init)
  unfolding measure
  measure-keeps cpr f w = ground arith

  watch-keeps :
      (now : ℕ) (f : WheelFeedbackSnapshot F) (w : Wheels F)
      → ((watch D now f w).last_wheel_count ≡ f.count)
        × ((watch D now f w).ticks_init ≡ w.ticks_init)
  unfolding watch
  watch-keeps now f w = ground arith

  watch_timeout :
      (now : ℕ) (f : WheelFeedbackSnapshot F) (w : Wheels F)
      → f.count ≡ w.last_wheel_count
      → k_wheel_feedback_timeout_ns < now - w.last_wheel_count_change
      → watch D now f w ≡ record w {
        wheel_feedback_stale = true;
        meas_left_rad = literal 0 0;
        meas_right_rad = literal 0 0;
      }
  unfolding watch
  watch_timeout now f w same late = ground arith

  module _ (cpr : F) (joints : List Name) (joint : String) (listed : IsJoint joint joints) where
    -- What a call leaves for the next call with the same feedback.
    abbrev Seen : Kestrel F → Wheels F → Type 0
    Seen k w =
        IsSettled k.wheel_feedback_stamp_sec w
        × (w.last_wheel_count ≡ k.wheel_feedback_count)
        × (w.ticks_init ≡ true)

    follow-Seen :
        (now : ℕ) (k : Kestrel F) (w : Wheels F) (v : Values F)
        → IsNoWindow D
        → w.ticks_init ≡ true
        → Seen k (follow D now cpr joints (get_wheel_feedback_snapshot k) (w, v)).0
    unfolding follow get_wheel_feedback_snapshot
    follow-Seen now k w v none_left ready =
        let f = get_wheel_feedback_snapshot k in
        let watched = watch D now f w in
        let advanced = advance D f watched in
        let s : Wheels F × Values F = (measure D cpr f advanced, v) in
        let dl = f.left_ticks -ℤ watched.left_encoder_prev in
        let dr = f.right_ticks -ℤ watched.right_encoder_prev in
        let wheels_eq = move_joints-wheels D cpr dl dr joint joints s in
        let (measured_count, measured_init) = measure-keeps cpr f advanced in
        let (watched_count, watched_init) = watch-keeps now f w in
        (
          ap (λ (w : Wheels F). le (k_meas_window_sec D) (sub f.stamp_sec w.meas_stamp_prev))
                wheels_eq
              ∙ measure-IsSettled cpr f advanced none_left,
          ap (λ (w : Wheels F). w.last_wheel_count) wheels_eq ∙ measured_count ∙ watched_count,
          ap (λ (w : Wheels F). w.ticks_init) wheels_eq ∙ measured_init ∙ watched_init ∙ ready,
        )

    read_wheels-Seen :
        (now : ℕ) (k : Kestrel F) (s : Wheels F × Values F)
        → IsNoWindow D
        → s.0.ticks_init ≡ true
        → k.wheel_feedback_count ≢ 0
        → Seen k (read_wheels D now cpr joints k s).0
    read_wheels-Seen now k s none_left ready some_count =
        subst (λ (s : Wheels F × Values F). Seen k s.0)
          (sym (read_wheels-follow D cpr joints joint listed now k s ready some_count))
          (follow-Seen now k (mirror D k s.0) s.1 none_left ready)

    -- The speed that is shown and the mark of staleness.
    abbrev Stopped : Wheels F × Values F → Type 0
    Stopped s =
        (get_state (velocity_of joint) s.1 ≡ literal 0 0) × (s.0.wheel_feedback_stale ≡ true)

    follow-Stopped :
        (now : ℕ) (k : Kestrel F) (w : Wheels F) (v : Values F)
        → Seen k w
        → k_wheel_feedback_timeout_ns < now - w.last_wheel_count_change
        → Stopped (follow D now cpr joints (get_wheel_feedback_snapshot k) (w, v))
    unfolding follow get_wheel_feedback_snapshot
    follow-Stopped now k w v (settled, counted, ready) late =
        let f = get_wheel_feedback_snapshot k in
        let stopped : Wheels F = record w {
          wheel_feedback_stale = true;
          meas_left_rad = literal 0 0;
          meas_right_rad = literal 0 0;
        } in
        let advanced = advance D f stopped in
        let s : Wheels F × Values F = (measure D cpr f advanced, v) in
        let dl = f.left_ticks -ℤ w.left_encoder_prev in
        let dr = f.right_ticks -ℤ w.right_encoder_prev in
        let (left_zero, right_zero, stale) = measure_settled cpr f advanced settled in
        rw (watch_timeout now f w (sym counted) late) (
          move_joints-velocity D cpr dl dr joint joints s listed
              ∙ ap₂ (λ (l r : F). if is_left joint then l else r) left_zero right_zero
              ∙ if-same (is_left joint) (literal 0 0),
          ap (λ (w : Wheels F). w.wheel_feedback_stale)
                (move_joints-wheels D cpr dl dr joint joints s)
              ∙ stale,
        )

    -- Let the difference of a `double` with itself make no speed window, and the ticks have been
    -- seeded. After a cycle with some feedback, a later cycle more than half a second after the
    -- last change of the feedback counter, at which no new feedback has come, shows the speed
    -- zero at a joint that is listed once, marks the feedback as stale, and moves the position by
    -- zero ticks.
    pub read_wheels_stale :
        (now now' : ℕ) (k : Kestrel F) (s : Wheels F × Values F)
        → IsNoWindow D
        → s.0.ticks_init ≡ true
        → k.wheel_feedback_count ≢ 0
        → let s1 = read_wheels D now cpr joints k s in
          k_wheel_feedback_timeout_ns < now' - s1.0.last_wheel_count_change
          → let s2 = read_wheels D now' cpr joints k s1 in
            (get_state (velocity_of joint) s2.1 ≡ literal 0 0)
            × (s2.0.wheel_feedback_stale ≡ true)
            × (get_state (position_of joint) s2.1
                ≡ add (get_state (position_of joint) s1.1) (ticks_to_rad D cpr (pos 0)))
    read_wheels_stale now now' k s none_left ready some_count late =
        let s1 = read_wheels D now cpr joints k s in
        let (settled, counted, ready1) = read_wheels-Seen now k s none_left ready some_count in
        let (_, prev1, _) = read_wheels-Moved D cpr joints joint listed now k s ready some_count in
        let (_, _, moved) =
          read_wheels-Moved D cpr joints joint listed now' k s1 ready1 some_count in
        let (zero_speed, stale) =
          subst Stopped
            (sym (read_wheels-follow D cpr joints joint listed now' k s1 ready1 some_count))
            (follow-Stopped now' k (mirror D k s1.0) s1.1 (settled, counted, ready1) late) in
        (
          zero_speed,
          stale,
          moved
              ∙ ap (λ (δ : ℤ). add (get_state (position_of joint) s1.1) (ticks_to_rad D cpr δ))
                  (ap (λ (t : ℤ). ticks_of joint k -ℤ t) prev1
                    ∙ sym (total_none (ticks_of joint k))),
        )

    first :
        (now : ℕ) (k : Kestrel F) (s : Wheels F × Values F)
        → s.0.ticks_init ≡ false
        → k.wheel_feedback_count ≢ 0
        → read_wheels D now cpr joints k s
          ≡ (seed D (get_wheel_feedback_snapshot k) (mirror D k s.0), s.1)
    unfolding read_wheels get_wheel_feedback_snapshot
    first now k s fresh some_count = ground arith

    -- If the driver holds some feedback, the first cycle after an activation moves nothing, and takes
    -- that feedback as the beginning, also one from before the activation; the next cycle then moves
    -- a joint that is listed once by all the ticks in between.
    pub read_wheels_reactivated :
        (now now' : ℕ) (old new : Kestrel F) (s : Wheels F × Values F)
        → s.0.ticks_init ≡ false
        → old.wheel_feedback_count ≢ 0
        → new.wheel_feedback_count ≢ 0
        → let s1 = read_wheels D now cpr joints old s in
          let s2 = read_wheels D now' cpr joints new s1 in
          (s1.1 ≡ s.1)
          × (get_state (position_of joint) s2.1
              ≡ add
                  (get_state (position_of joint) s.1)
                  (ticks_to_rad D cpr (ticks_of joint new -ℤ ticks_of joint old)))
    unfolding get_wheel_feedback_snapshot
    read_wheels_reactivated now now' old new s fresh some_old some_new =
        let s0 : Wheels F × Values F =
          (seed D (get_wheel_feedback_snapshot old) (mirror D old s.0), s.1) in
        let seeded = first now old s fresh some_old in
        let (_, _, moved) = read_wheels-Moved D cpr joints joint listed now' new s0 refl some_new in
        (
          ap (λ (s : Wheels F × Values F). s.1) seeded,
          ap
                (λ (s : Wheels F × Values F).
                  get_state (position_of joint) (read_wheels D now' cpr joints new s).1)
                seeded
              ∙ moved,
        )
