-- ===== src/System/Wheels/Odometry.antt =====
-- The joint positions of `ReadWheels` over any number of calls.
use Prim.Native.String.{String}
use mathlib.Core.List.{foldl}
use my_diffbot.Common.{
  ℕ, ◌≡◌, ◌≢◌, refl, sym, ap, ap₂, subst, ◌∙◌, arith, List, [], ◌∷◌, Bool, true, false,
  if◌then◌else◌, All,
}
use my_diffbot.Common.Int.{ℤ, pos, ◌+ℤ◌, ◌-ℤ◌}
use my_diffbot.Double.{Double}
use my_diffbot.Kestrel.{Kestrel, WheelFeedbackSnapshot, get_wheel_feedback_snapshot}
use my_diffbot.System.Interfaces.{Name, Values, get_state}
use my_diffbot.System.Wheels.Joints.{
  position_of, is_left, IsJoint, move_joints-position, move_joints-wheels,
}
use my_diffbot.System.Wheels.{
  Wheels, mirror, watch, advance, measure, ticks_to_rad, follow, read_wheels,
}

-- The ticks of the wheel that a joint follows.
abbrev pub ticks_of : {F : Type 0} → String → Kestrel F → ℤ
ticks_of joint k = if is_left joint then k.left_encoder_ticks else k.right_encoder_ticks

abbrev pub ticks_prev : {F : Type 0} → String → Wheels F → ℤ
ticks_prev joint w = if is_left joint then w.left_encoder_prev else w.right_encoder_prev

if-sub :
    (c : Bool) (l l' r r' : ℤ)
    → (if c then l -ℤ l' else r -ℤ r') ≡ (if c then l else r) -ℤ (if c then l' else r')
if-sub true l l' r r' = refl
if-sub false l l' r r' = refl

-- The sum of some tick counts.
abbrev pub total : List ℤ → ℤ
total [] = pos 0
total (δ ∷ δs) = δ +ℤ total δs

pub total_none : (a : ℤ) → pos 0 ≡ a -ℤ a
unfolding ◌-ℤ◌
total_none a = ground arith

total_step : (a b c : ℤ) → (b -ℤ a) +ℤ (c -ℤ b) ≡ c -ℤ a
unfolding ◌+ℤ◌ ◌-ℤ◌
total_step a b c = ground arith

module _ (D : Double) where
  open D use {F, add}

  watch-keeps :
      (now : ℕ) (f : WheelFeedbackSnapshot F) (w : Wheels F)
      → ((watch D now f w).left_encoder_prev ≡ w.left_encoder_prev)
        × ((watch D now f w).right_encoder_prev ≡ w.right_encoder_prev)
        × ((watch D now f w).ticks_init ≡ w.ticks_init)
  unfolding watch
  watch-keeps now f w = ground arith

  measure-keeps :
      (cpr : F) (f : WheelFeedbackSnapshot F) (w : Wheels F)
      → ((measure D cpr f w).left_encoder_prev ≡ w.left_encoder_prev)
        × ((measure D cpr f w).right_encoder_prev ≡ w.right_encoder_prev)
        × ((measure D cpr f w).ticks_init ≡ w.ticks_init)
  unfolding measure
  measure-keeps cpr f w = ground arith

  module _ (cpr : F) (joints : List Name) (joint : String) (listed : IsJoint joint joints) where
    follow-position :
        (now : ℕ) (f : WheelFeedbackSnapshot F) (w : Wheels F) (v : Values F)
        → let s' = follow D now cpr joints f (w, v) in
          (s'.0.ticks_init ≡ w.ticks_init)
          × (s'.0.left_encoder_prev ≡ f.left_ticks)
          × (s'.0.right_encoder_prev ≡ f.right_ticks)
          × (get_state (position_of joint) s'.1
              ≡ add (get_state (position_of joint) v) (
                  ticks_to_rad D cpr (
                    if is_left joint
                    then f.left_ticks -ℤ w.left_encoder_prev
                    else f.right_ticks -ℤ w.right_encoder_prev)))
    unfolding follow
    follow-position now f w v =
        let watched = watch D now f w in
        let measured = measure D cpr f (advance D f watched) in
        let dl = f.left_ticks -ℤ watched.left_encoder_prev in
        let dr = f.right_ticks -ℤ watched.right_encoder_prev in
        let s : Wheels F × Values F = (measured, v) in
        let (kept_left, kept_right, kept_init) = watch-keeps now f w in
        let (set_left, set_right, set_init) = measure-keeps cpr f (advance D f watched) in
        let wheels_eq = move_joints-wheels D cpr dl dr joint joints s in
        (
          ap (λ (x : Wheels F). x.ticks_init) wheels_eq ∙ set_init ∙ kept_init,
          ap (λ (x : Wheels F). x.left_encoder_prev) wheels_eq ∙ set_left,
          ap (λ (x : Wheels F). x.right_encoder_prev) wheels_eq ∙ set_right,
          move_joints-position D cpr dl dr joint joints s listed
              ∙ ap₂
                  (λ (l r : ℤ). add (get_state (position_of joint) v) (
                    ticks_to_rad D cpr
                      (if is_left joint then f.left_ticks -ℤ l else f.right_ticks -ℤ r)))
                  kept_left kept_right,
        )

    -- The feedback of a call, and the position and the ticks that it leaves behind.
    abbrev pub Moved : Kestrel F → Wheels F × Values F → Wheels F × Values F → Type 0
    Moved k s s' =
        (s'.0.ticks_init ≡ true)
        × (ticks_prev joint s'.0 ≡ ticks_of joint k)
        × (get_state (position_of joint) s'.1
            ≡ add (get_state (position_of joint) s.1)
                (ticks_to_rad D cpr (ticks_of joint k -ℤ ticks_prev joint s.0)))

    pub read_wheels-follow :
        (now : ℕ) (k : Kestrel F) (s : Wheels F × Values F)
        → s.0.ticks_init ≡ true
        → k.wheel_feedback_count ≢ 0
        → read_wheels D now cpr joints k s
          ≡ follow D now cpr joints (get_wheel_feedback_snapshot k) (mirror D k s.0, s.1)
    unfolding read_wheels
    read_wheels-follow now k s ready some_count = ground arith

    pub read_wheels-Moved :
        (now : ℕ) (k : Kestrel F) (s : Wheels F × Values F)
        → s.0.ticks_init ≡ true
        → k.wheel_feedback_count ≢ 0
        → Moved k s (read_wheels D now cpr joints k s)
    unfolding get_wheel_feedback_snapshot
    read_wheels-Moved now k s ready some_count =
        let (kept_init, left_prev, right_prev, moved) =
          follow-position now (get_wheel_feedback_snapshot k) (mirror D k s.0) s.1 in
        subst (Moved k s) (sym (read_wheels-follow now k s ready some_count)) (
          kept_init ∙ ready,
          ap₂ (λ (l r : ℤ). if is_left joint then l else r) left_prev right_prev,
          moved
              ∙ ap (λ (δ : ℤ). add (get_state (position_of joint) s.1) (ticks_to_rad D cpr δ))
                  (if-sub (is_left joint) k.left_encoder_ticks s.0.left_encoder_prev
                    k.right_encoder_ticks s.0.right_encoder_prev),
        )

    -- The calls of some control cycles, each with the time and the state of the driver.
    abbrev pub run : List (ℕ × Kestrel F) → Wheels F × Values F → Wheels F × Values F
    run [] s = s
    run ((now, k) ∷ calls) s = run calls (read_wheels D now cpr joints k s)

    abbrev pub last_ticks : ℤ → List (ℕ × Kestrel F) → ℤ
    last_ticks a [] = a
    last_ticks a ((now, k) ∷ calls) = last_ticks (ticks_of joint k) calls

    -- Over any number of cycles after the first, each with some feedback received before, the position
    -- of a joint that is listed once moves by steps of ticks, whose sum is the difference between the
    -- wheel's ticks at the end and at the beginning: no tick is lost and none is counted twice,
    -- whatever the times, the lost frames and the speed window.
    pub read_wheels-position :
        (calls : List (ℕ × Kestrel F)) (s : Wheels F × Values F)
        → s.0.ticks_init ≡ true
        → All (λ (c : ℕ × Kestrel F). c.1.wheel_feedback_count ≢ 0) calls
        → (δs : List ℤ) × (get_state (position_of joint) (run calls s).1
            ≡ foldl (λ x δ. add x (ticks_to_rad D cpr δ)) (get_state (position_of joint) s.1) δs)
          × (total δs ≡ last_ticks (ticks_prev joint s.0) calls -ℤ ticks_prev joint s.0)
    read_wheels-position [] s ready counts = ([], refl, total_none (ticks_prev joint s.0))
    read_wheels-position ((now, k) ∷ calls) s ready (some_count, counts) =
        let s' = read_wheels D now cpr joints k s in
        let (ready', prev', moved) = read_wheels-Moved now k s ready some_count in
        let (δs, position_eq, total_eq) = read_wheels-position calls s' ready' counts in
        let a = ticks_prev joint s.0 in
        let b = ticks_of joint k in
        (
          (b -ℤ a) ∷ δs,
          position_eq ∙ ap (λ (x : F). foldl (λ x δ. add x (ticks_to_rad D cpr δ)) x δs) moved,
          ap (◌+ℤ◌ (b -ℤ a)) (total_eq ∙ ap (λ (t : ℤ). last_ticks t calls -ℤ t) prev')
              ∙ total_step a b (last_ticks b calls),
        )
