-- ===== src/System/Activate/Seeded.antt =====
-- The commands that `on_activate` of my_diffbot_system.cpp leaves for the first `WriteTuning`.
use mathlib.Core.Option.{get_or}
use my_diffbot.Common.{
  ℕ, ◌≡◌, refl, sym, ap, ◌∙◌, arith, List, [], ◌∷◌, Bool, true, ◌||◌, Option, none, some,
  if◌then◌else◌, if-elim, Bool-cases, inl, inr,
}
use my_diffbot.Double.{Double}
use my_diffbot.Transport.Serial.{SerialPort, Hook}
use my_diffbot.Transport.{Transport}
use my_diffbot.System.Interfaces.{
  eq_of_same_name, Name, same_name, mem_name, Values, get_command, set_command,
}
use my_diffbot.System.Tuning.{
  Tuning, Clocks, read_tunings, retune_gains, retune_timeout, write_tuning,
}
use my_diffbot.System.Tuning.Picked.{
  Field, finite_command, or_else, last_finite, get_or-or_else, read_tunings-value, timeout_field,
}
use my_diffbot.System.Tuning.Finite.{
  IsEqReflexive, IsFinite, Tuning-ext, kp_l_field, ki_l_field, kd_l_field, kp_r_field, ki_r_field,
  kd_r_field,
}
use my_diffbot.System.Tuning.Once.{same_gains_refl}
use my_diffbot.System.Activate.{tuning_seeds, seed_commands}

or-true : (x y : Bool) → y ≡ true → x || y ≡ true
or-true x y h = ground arith

module _ {F : Type 0} where
  -- The last seed of an interface.
  abbrev last_seed : Name → List (Name × F) → Option F
  last_seed wanted [] = none
  last_seed wanted ((name, x) ∷ seeds) =
      or_else (last_seed wanted seeds) (if same_name name wanted then some x else none)

  command-seed :
      (wanted name : Name) (x : F) (names : List Name) (v : Values F)
      → mem_name wanted names ≡ true
      → get_command wanted (if mem_name name names then set_command name x v else v)
        ≡ get_or (if same_name name wanted then some x else none) (get_command wanted v)
  command-seed wanted name x names v listed = elim (Bool-cases (same_name name wanted)) [
    | inl same ↦
        let there : mem_name name names ≡ true =
          ap (λ (n : Name). mem_name n names) (eq_of_same_name name wanted same) ∙ listed in
        rw (there, same) refl
    | inr other ↦
        if-elim
          (λ (u : Values F).
            get_command wanted u
            ≡ get_or (if same_name name wanted then some x else none) (get_command wanted v))
          (mem_name name names) (rw other refl) (rw other refl)
  ]

  command-seed_commands :
      (wanted : Name) (seeds : List (Name × F)) (names : List Name) (v : Values F)
      → mem_name wanted names ≡ true
      → get_command wanted (seed_commands seeds names v)
        ≡ get_or (last_seed wanted seeds) (get_command wanted v)
  unfolding seed_commands
  command-seed_commands wanted [] names v listed = refl
  command-seed_commands wanted ((name, x) ∷ seeds) names v listed =
      let here = if same_name name wanted then some x else none in
      command-seed_commands wanted seeds names
        (if mem_name name names then set_command name x v else v) listed
      ∙ ap (get_or (last_seed wanted seeds)) (command-seed wanted name x names v listed)
      ∙ get_or-or_else (last_seed wanted seeds) here (get_command wanted v)

module _ (D : Double) where
  open D use {F, eq, is_finite}

  last_finite_same :
      (wanted : Name) (names : List Name) (v : Values F) (x : F)
      → (mem_name wanted names ≡ true → get_command wanted v ≡ x)
      → get_or (last_finite D wanted names v) x ≡ x
  last_finite_same wanted [] v x h = refl
  last_finite_same wanted (name ∷ names) v x h =
      let command = finite_command D wanted name (get_command name v) in
      let here : get_or command x ≡ x = elim (Bool-cases (same_name name wanted)) [
        | inl same ↦
            let value : get_command name v ≡ x =
              ap (λ (n : Name). get_command n v) (eq_of_same_name name wanted same)
              ∙ h (rw same refl) in
            rw same (
              if-elim (λ (o : Option F). get_or o x ≡ x) (is_finite (get_command name v)) value
                refl)
        | inr other ↦ rw other refl
      ] in
      let later = λ (listed : mem_name wanted names ≡ true).
        h (or-true (same_name name wanted) (mem_name wanted names) listed) in
      sym (get_or-or_else (last_finite D wanted names v) command x)
      ∙ ap (get_or (last_finite D wanted names v)) here
      ∙ last_finite_same wanted names v x later

  module _ (names : List Name) (v : Values F) (c : Tuning F) where
    abbrev after : Values F
    after = seed_commands (tuning_seeds c) names v

    field_kept :
        (field : Field D)
        → last_seed field.wanted (tuning_seeds c) ≡ some (field.value c)
        → field.value (read_tunings D names after c) ≡ field.value c
    field_kept field seed =
        read_tunings-value D field names after c
        ∙ last_finite_same field.wanted names after (field.value c) (λ listed.
          command-seed_commands field.wanted (tuning_seeds c) names v listed ∙ rw seed refl)

    -- The seeds read as the values that were sent.
    pub read_tunings-seed_commands : read_tunings D names after c ≡ c
    read_tunings-seed_commands =
        Tuning-ext (read_tunings D names after c) c (field_kept (kp_l_field D) refl)
          (field_kept (ki_l_field D) refl) (field_kept (kd_l_field D) refl)
          (field_kept (kp_r_field D) refl) (field_kept (ki_r_field D) refl)
          (field_kept (kd_r_field D) refl) (field_kept (timeout_field D) refl)

module _ (S : SerialPort) (D : Double) {H : Type 0} (on_message : Hook H) (fuel : ℕ) where
  open S use {Device}
  open D use {F}

  -- `write_tuning` with the seeds sends nothing and changes nothing.
  pub write_tuning-seed_commands :
      (a1 a2 : Clocks) (names : List Name) (v : Values F) (c : Tuning F) (t : Transport Device H)
      → IsEqReflexive D
      → IsFinite D c
      → write_tuning S D on_message fuel a1 a2 names (seed_commands (tuning_seeds c) names v) (c, t)
        ≡ some (c, t)
  unfolding write_tuning retune_gains retune_timeout
  write_tuning-seed_commands a1 a2 names v c t refl_eq h = rw (
    read_tunings-seed_commands D names v c,
    same_gains_refl D names v c refl_eq h,
    refl_eq c.sent_cmd_timeout_ms h.timeout,
  )
