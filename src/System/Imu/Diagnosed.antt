-- ===== src/System/Imu/Diagnosed.antt =====
-- What `ReadImu` of my_diffbot_system.cpp reports.
use text.Mathlib.Text.{◌==◌ as str_eq}
use mathlib.Core.Option.{get_or}
use my_diffbot.Common.{
  ℕ, ◌-◌, ◌≤◌, ◌≡◌, ◌≢◌, ◌↔◌, ◌⊎◌, refl, sym, ap, ◌∙◌, arith, List, [], ◌∷◌, Bool, true, false, not,
  ◌&&◌, Option, none, some, if◌then◌else◌, Bool-cases, if-elim, subst, inl, inr,
}
use my_diffbot.Kestrel.{Kestrel, ImuSnapshot}
use my_diffbot.System.Interfaces.{Name, same_name, mem_name, eq_of_same_name, Values, get_state}
use my_diffbot.System.Component.{ImuWatch}
use my_diffbot.System.Tuning.Picked.{get_or_twice}
use my_diffbot.System.Imu.{
  Level, DiagnosticStatus, imu_stale_ns, imu_value, set_or_keep, set_imu_states, watch_imu,
  diagnose, read_imu,
}

module _ {F : Type 0} where
  -- The state of an interface after the loop, from its state before.
  abbrev pub imu_state : Name → List Name → ImuSnapshot F → F → F
  imu_state name names imu old =
      if mem_name name names && str_eq name.prefix_name "bno055_imu"
      then get_or (imu_value name.interface_name imu) old
      else old

  -- The body of the loop.
  abbrev imu_step : Name → ImuSnapshot F → Values F → Values F
  imu_step m imu v =
      if not (str_eq m.prefix_name "bno055_imu")
      then v
      else set_or_keep m (imu_value m.interface_name imu) v

  state-set_or_keep :
      (name m : Name) (o : Option F) (v : Values F)
      → get_state name (set_or_keep m o v)
        ≡ (if same_name m name then get_or o (get_state name v) else get_state name v)
  state-set_or_keep name m none v = ground arith
  state-set_or_keep name m (some x) v = refl

  imu_step_self :
      (name : Name) (names : List Name) (imu : ImuSnapshot F) (v : Values F)
      → same_name name name ≡ true
      → imu_state name names imu (get_state name (imu_step name imu v))
        ≡ imu_state name (name ∷ names) imu (get_state name v)
  imu_step_self name names imu v same =
      let o = imu_value name.interface_name imu in
      let old = get_state name v in
      elim (Bool-cases (str_eq name.prefix_name "bno055_imu")) [
        | inr other ↦ rw (other, same) (ground arith)
        | inl own ↦
            rw (own, state-set_or_keep name name o v, same)
              (if-elim (λ (x : F). x ≡ get_or o old) (mem_name name names && true)
                (get_or_twice o old) refl)
      ]

  imu_step_other :
      (name m : Name) (names : List Name) (imu : ImuSnapshot F) (v : Values F)
      → same_name m name ≡ false
      → imu_state name names imu (get_state name (imu_step m imu v))
        ≡ imu_state name (m ∷ names) imu (get_state name v)
  imu_step_other name m names imu v other =
      let o = imu_value m.interface_name imu in
      elim (Bool-cases (str_eq m.prefix_name "bno055_imu")) [
        | inr foreign ↦ rw (foreign, other) refl
        | inl own ↦ rw (own, state-set_or_keep name m o v, other) refl
      ]

  pub state-set_imu_states :
      (name : Name) (names : List Name) (imu : ImuSnapshot F) (v : Values F)
      → get_state name (set_imu_states names imu v) ≡ imu_state name names imu (get_state name v)
  unfolding set_imu_states
  state-set_imu_states name [] imu v = refl
  state-set_imu_states name (m ∷ names) imu v =
      let step : imu_state name names imu (get_state name (imu_step m imu v))
          ≡ imu_state name (m ∷ names) imu (get_state name v) =
        elim (Bool-cases (same_name m name)) [
          | inr other ↦ imu_step_other name m names imu v other
          | inl same ↦
              subst
                (λ (n : Name).
                  imu_state name names imu (get_state name (imu_step n imu v))
                  ≡ imu_state name (n ∷ names) imu (get_state name v))
                (sym (eq_of_same_name m name same))
                (imu_step_self name names imu v
                  (ap (λ (n : Name). same_name n name) (sym (eq_of_same_name m name same)) ∙ same))
        ] in
      state-set_imu_states name names imu (imu_step m imu v) ∙ step

  -- Whether a diagnosis is to be published or not, of the sensor states exactly the listed ones of
  -- the IMU change, to the values of the snapshot, and the count of its frames is noted. Either none is
  -- to be published, and none is; or one is, and it is OK exactly if the board reports a healthy IMU,
  -- the calibration is two at least, and a frame came since the last call or the last one that was
  -- seen to come is no more than half a second old.
  pub read_imu_lem :
      (now : ℕ) (publish_diag : Bool) (name : Name) (names : List Name) (k : Kestrel F)
      (w : ImuWatch) (v : Values F)
      → let (diag, w', v') = read_imu now publish_diag names k (w, v) in
        (get_state name v' ≡ imu_state name names k.imu (get_state name v))
        × (w'.last_imu_count ≡ k.imu.count)
        × (((publish_diag ≡ false) × (diag ≡ none))
            ⊎ ((publish_diag ≡ true)
                × (d : DiagnosticStatus) × (diag ≡ some d)
                × ((d.level ≡ Level.ok) ↔ (
                    (k.imu_healthy ≡ true)
                    × (2 ≤ k.imu.cal.sys)
                    × ((k.imu.count ≢ w.last_imu_count)
                        ⊎ (now - w.last_imu_count_change ≤ imu_stale_ns))))))
  unfolding read_imu watch_imu diagnose
  read_imu_lem now false name names k w v =
      (state-set_imu_states name names k.imu v, ground arith, inl (refl, refl))
  read_imu_lem now true name names k w v = (
    state-set_imu_states name names k.imu v,
    ground arith,
    inr (
      refl,
      diagnose now k (watch_imu now k.imu w),
      refl,
      (
        λ h. (ground arith, ground arith, ground arith),
        λ (healthy, calibrated, fresh). ground arith,
      ),
    ),
  )
