-- ===== src/System/Wheels/Joints.antt =====
-- The loop over the joint states in `ReadWheels` of my_diffbot_system.cpp, for a joint listed once.
use Prim.Native.String.{String}
use text.Mathlib.TextPositions.{eq_refl}
use my_diffbot.Common.{
  ◌≡◌, refl, ap, ◌∙◌, arith, List, [], ◌∷◌, ◌++◌, Bool, false, if◌then◌else◌, All,
}
use my_diffbot.Common.Int.{ℤ}
use my_diffbot.Double.{Double}
use my_diffbot.System.Interfaces.{Name, contains, same_name, Values, get_state}
use my_diffbot.System.Wheels.{Wheels, position, ticks_to_rad, move_joint, move_joints}
use my_diffbot.System.Wheels.{velocity}

-- The position of the joint with this prefix.
abbrev pub position_of : String → Name
position_of joint = record { prefix_name = joint; interface_name = position }

abbrev pub is_left : String → Bool
is_left joint = contains joint "left"

abbrev pub velocity_of : String → Name
velocity_of joint = record { prefix_name = joint; interface_name = velocity }

-- The joint stands among the interfaces, and only once.
pub record IsJoint (joint : String) (joints : List Name) : Type 0 where
  pub before : List Name
  pub after : List Name
  pub joints_eq : joints ≡ before ++ (position_of joint ∷ after)
  pub not_before : All (λ m. same_name m (position_of joint) ≡ false) before
  pub not_after : All (λ m. same_name m (position_of joint) ≡ false) after

module _ (D : Double) where
  open D use {F, add}

  module _ (cpr : F) (left_delta right_delta : ℤ) (joint : String) where
    abbrev pub position_in : Wheels F × Values F → F
    position_in s = get_state (position_of joint) s.1

    move_joint-other :
        (m : Name) (s : Wheels F × Values F)
        → same_name m (position_of joint) ≡ false
        → position_in (move_joint D cpr left_delta right_delta m s) ≡ position_in s
    unfolding move_joint
    move_joint-other m s h = ground arith

    move_joints-other :
        (names : List Name) (s : Wheels F × Values F)
        → All (λ m. same_name m (position_of joint) ≡ false) names
        → position_in (move_joints D cpr left_delta right_delta names s) ≡ position_in s
    unfolding move_joints
    move_joints-other [] s h = refl
    move_joints-other (m ∷ names) s (h, hs) =
        move_joints-other names (move_joint D cpr left_delta right_delta m s) hs
        ∙ move_joint-other m s h

    move_joint_self :
        (s : Wheels F × Values F)
        → position_in (move_joint D cpr left_delta right_delta (position_of joint) s)
          ≡ add
              (position_in s)
              (ticks_to_rad D cpr (if is_left joint then left_delta else right_delta))
    unfolding move_joint
    move_joint_self s = ground (arith, eq_refl joint)

    pub move_joints-append :
        (names names' : List Name) (s : Wheels F × Values F)
        → move_joints D cpr left_delta right_delta (names ++ names') s
          ≡ move_joints D cpr left_delta right_delta names'
              (move_joints D cpr left_delta right_delta names s)
    unfolding move_joints
    move_joints-append [] names' s = refl
    move_joints-append (m ∷ names) names' s =
        move_joints-append names names' (move_joint D cpr left_delta right_delta m s)

    pub move_joints-position :
        (joints : List Name) (s : Wheels F × Values F)
        → IsJoint joint joints
        → position_in (move_joints D cpr left_delta right_delta joints s)
          ≡ add
              (position_in s)
              (ticks_to_rad D cpr (if is_left joint then left_delta else right_delta))
    unfolding move_joints
    move_joints-position joints s h =
        let s1 = move_joints D cpr left_delta right_delta h.before s in
        rw h.joints_eq (
          rw (move_joints-append h.before (position_of joint ∷ h.after) s) (
            move_joints-other h.after
              (move_joint D cpr left_delta right_delta (position_of joint) s1) h.not_after
            ∙ move_joint_self s1
            ∙ ap
                (λ (x : F).
                  add x (ticks_to_rad D cpr (if is_left joint then left_delta else right_delta)))
                (move_joints-other h.before s h.not_before)))

    pub move_joints-wheels :
        (joints : List Name) (s : Wheels F × Values F)
        → let w = (move_joints D cpr left_delta right_delta joints s).0 in
          w ≡ record s.0 {
            left_wheel_measured_velocity = w.left_wheel_measured_velocity;
            right_wheel_measured_velocity = w.right_wheel_measured_velocity;
          }
    unfolding move_joints move_joint
    move_joints-wheels [] s = refl
    move_joints-wheels (m ∷ joints) s =
        move_joints-wheels joints (move_joint D cpr left_delta right_delta m s) ∙ ground arith

    abbrev pub velocity_in : Wheels F × Values F → F
    velocity_in s = get_state (velocity_of joint) s.1

    abbrev pub speed_in : Wheels F × Values F → F
    speed_in s = if is_left joint then s.0.meas_left_rad else s.0.meas_right_rad

    velocity-other :
        (m : Name) (s : Wheels F × Values F)
        → same_name m (position_of joint) ≡ false
        → velocity_in (move_joint D cpr left_delta right_delta m s) ≡ velocity_in s
    unfolding move_joint
    velocity-other m s h = ground arith

    velocity-others :
        (names : List Name) (s : Wheels F × Values F)
        → All (λ m. same_name m (position_of joint) ≡ false) names
        → velocity_in (move_joints D cpr left_delta right_delta names s) ≡ velocity_in s
    unfolding move_joints
    velocity-others [] s h = refl
    velocity-others (m ∷ names) s (h, hs) =
        velocity-others names (move_joint D cpr left_delta right_delta m s) hs
        ∙ velocity-other m s h

    velocity_self :
        (s : Wheels F × Values F)
        → velocity_in (move_joint D cpr left_delta right_delta (position_of joint) s) ≡ speed_in s
    unfolding move_joint
    velocity_self s = ground (arith, eq_refl joint)

    pub move_joints-velocity :
        (joints : List Name) (s : Wheels F × Values F)
        → IsJoint joint joints
        → velocity_in (move_joints D cpr left_delta right_delta joints s) ≡ speed_in s
    unfolding move_joints
    move_joints-velocity joints s h =
        let s1 = move_joints D cpr left_delta right_delta h.before s in
        let wheels_eq = move_joints-wheels h.before s in
        rw h.joints_eq (
          rw (move_joints-append h.before (position_of joint ∷ h.after) s) (
            velocity-others h.after (move_joint D cpr left_delta right_delta (position_of joint) s1)
              h.not_after
            ∙ velocity_self s1
            ∙ ap (λ (w : Wheels F). if is_left joint then w.meas_left_rad else w.meas_right_rad)
                wheels_eq))
