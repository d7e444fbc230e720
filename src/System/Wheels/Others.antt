-- ===== src/System/Wheels/Others.antt =====
-- The interfaces that `ReadWheels` of my_diffbot_system.cpp leaves alone.
use text.Mathlib.Text.{◌==◌ as str_eq}
use text.Mathlib.TextEquality.{eq_iff}
use my_diffbot.Common.{
  ℕ, ◌≡◌, refl, ◌∙◌, arith, List, [], ◌∷◌, false, not, if-elim, Bool-cases, inl, inr, ◌==◌,
}
use my_diffbot.Common.Int.{ℤ, ◌-ℤ◌}
use my_diffbot.Double.{Double}
use my_diffbot.Kestrel.{Kestrel, WheelFeedbackSnapshot, get_wheel_feedback_snapshot}
use my_diffbot.System.Interfaces.{Name, Values, get_state}
use my_diffbot.System.Wheels.{
  Wheels, position, velocity, move_joint, move_joints, watch, advance, measure, mirror, follow,
  read_wheels,
}

module _ (D : Double) (name : Name) (no_position : str_eq position name.interface_name ≡ false)
    (no_velocity : str_eq velocity name.interface_name ≡ false) where
  open D use {F}

  state-move_joint :
      (cpr : F) (left_delta right_delta : ℤ) (m : Name) (s : Wheels F × Values F)
      → get_state name (move_joint D cpr left_delta right_delta m s).1 ≡ get_state name s.1
  unfolding move_joint
  state-move_joint cpr left_delta right_delta m s =
      elim (Bool-cases (str_eq m.interface_name position)) [
        | inr other ↦ rw other refl
        | inl own ↦
            let here = (eq_iff m.interface_name position).0 own in
            ground (arith, own, here, no_position, no_velocity)
      ]

  state-move_joints :
      (cpr : F) (left_delta right_delta : ℤ) (joints : List Name) (s : Wheels F × Values F)
      → get_state name (move_joints D cpr left_delta right_delta joints s).1 ≡ get_state name s.1
  unfolding move_joints
  state-move_joints cpr left_delta right_delta [] s = refl
  state-move_joints cpr left_delta right_delta (m ∷ joints) s =
      state-move_joints cpr left_delta right_delta joints
        (move_joint D cpr left_delta right_delta m s)
      ∙ state-move_joint cpr left_delta right_delta m s

  state-follow :
      (now : ℕ) (cpr : F) (joints : List Name) (f : WheelFeedbackSnapshot F)
      (s : Wheels F × Values F)
      → get_state name (follow D now cpr joints f s).1 ≡ get_state name s.1
  unfolding follow
  state-follow now cpr joints f (w, v) =
      let watched = watch D now f w in
      state-move_joints cpr (f.left_ticks -ℤ watched.left_encoder_prev)
        (f.right_ticks -ℤ watched.right_encoder_prev) joints
        (measure D cpr f (advance D f watched), v)

  -- A state that is neither a position nor a velocity is not changed.
  pub state-read_wheels :
      (now : ℕ) (cpr : F) (joints : List Name) (k : Kestrel F) (s : Wheels F × Values F)
      → get_state name (read_wheels D now cpr joints k s).1 ≡ get_state name s.1
  unfolding read_wheels
  state-read_wheels now cpr joints k (w, v) =
      let f = get_wheel_feedback_snapshot k in
      let Kept = λ (r : Wheels F × Values F). get_state name r.1 ≡ get_state name v in
      if-elim Kept (f.count == 0) refl
        (if-elim Kept (not w.ticks_init) refl (state-follow now cpr joints f (mirror D k w, v)))
