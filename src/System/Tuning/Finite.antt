-- ===== src/System/Tuning/Finite.antt =====
-- The values that `WriteTuning` of my_diffbot_system.cpp sends stay finite.
use mathlib.Core.Option.{get_or}
use my_diffbot.Common.{◌≡◌, refl, sym, ap, ◌∙◌, arith, List, [], ◌∷◌, true}
use my_diffbot.Double.{Double}
use my_diffbot.System.Interfaces.{Name, Values, get_command}
use my_diffbot.System.Tuning.{Tuning, read_tunings}
use my_diffbot.System.Tuning.Picked.{
  Field, finite_command, last_finite, get_or-or_else, read_tunings-value, timeout_field, gain_field,
}

-- A finite `double` equals itself.
abbrev pub IsEqReflexive : Double → Type 0
IsEqReflexive D = (x : D.F) → D.is_finite x ≡ true → D.eq x x ≡ true

-- The gains that were sent and the timeout that was sent are finite.
pub record IsFinite (D : Double) (c : Tuning D.F) : Type 0 where
  pub kp_l : D.is_finite c.sent_pid_gains.kp_l ≡ true
  pub ki_l : D.is_finite c.sent_pid_gains.ki_l ≡ true
  pub kd_l : D.is_finite c.sent_pid_gains.kd_l ≡ true
  pub kp_r : D.is_finite c.sent_pid_gains.kp_r ≡ true
  pub ki_r : D.is_finite c.sent_pid_gains.ki_r ≡ true
  pub kd_r : D.is_finite c.sent_pid_gains.kd_r ≡ true
  pub timeout : D.is_finite c.sent_cmd_timeout_ms ≡ true

pub Tuning-ext :
    {F : Type 0} (a b : Tuning F)
    → a.sent_pid_gains.kp_l ≡ b.sent_pid_gains.kp_l
    → a.sent_pid_gains.ki_l ≡ b.sent_pid_gains.ki_l
    → a.sent_pid_gains.kd_l ≡ b.sent_pid_gains.kd_l
    → a.sent_pid_gains.kp_r ≡ b.sent_pid_gains.kp_r
    → a.sent_pid_gains.ki_r ≡ b.sent_pid_gains.ki_r
    → a.sent_pid_gains.kd_r ≡ b.sent_pid_gains.kd_r
    → a.sent_cmd_timeout_ms ≡ b.sent_cmd_timeout_ms
    → a ≡ b
Tuning-ext a b h1 h2 h3 h4 h5 h6 h7 = cc

module _ (D : Double) where
  open D use {F, eq, is_finite}

  command-finite :
      (wanted name : Name) (cmd x : F)
      → is_finite x ≡ true
      → is_finite (get_or (finite_command D wanted name cmd) x) ≡ true
  command-finite wanted name cmd x h = ground arith

  last_finite-finite :
      (wanted : Name) (names : List Name) (v : Values F) (x : F)
      → is_finite x ≡ true
      → is_finite (get_or (last_finite D wanted names v) x) ≡ true
  last_finite-finite wanted [] v x h = h
  last_finite-finite wanted (name ∷ names) v x h =
      let command = finite_command D wanted name (get_command name v) in
      ap is_finite (sym (get_or-or_else (last_finite D wanted names v) command x))
      ∙ last_finite-finite wanted names v (get_or command x)
          (command-finite wanted name (get_command name v) x h)

  abbrev pub kp_l_field : Field D
  kp_l_field = gain_field D "kp_l" (λ g. g.kp_l) (λ i cmd g. refl)

  abbrev pub ki_l_field : Field D
  ki_l_field = gain_field D "ki_l" (λ g. g.ki_l) (λ i cmd g. refl)

  abbrev pub kd_l_field : Field D
  kd_l_field = gain_field D "kd_l" (λ g. g.kd_l) (λ i cmd g. refl)

  abbrev pub kp_r_field : Field D
  kp_r_field = gain_field D "kp_r" (λ g. g.kp_r) (λ i cmd g. refl)

  abbrev pub ki_r_field : Field D
  ki_r_field = gain_field D "ki_r" (λ g. g.ki_r) (λ i cmd g. refl)

  abbrev pub kd_r_field : Field D
  kd_r_field = gain_field D "kd_r" (λ g. g.kd_r) (λ i cmd g. refl)

  module _ (names : List Name) (v : Values F) where
    value-finite :
        (field : Field D) (c : Tuning F)
        → is_finite (field.value c) ≡ true
        → is_finite (field.value (read_tunings D names v c)) ≡ true
    value-finite field c h =
        ap is_finite (read_tunings-value D field names v c)
        ∙ last_finite-finite field.wanted names v (field.value c) h

    pub read_tunings-IsFinite :
        (c : Tuning F) → IsFinite D c → IsFinite D (read_tunings D names v c)
    read_tunings-IsFinite c h = record {
      kp_l = value-finite kp_l_field c h.kp_l;
      ki_l = value-finite ki_l_field c h.ki_l;
      kd_l = value-finite kd_l_field c h.kd_l;
      kp_r = value-finite kp_r_field c h.kp_r;
      ki_r = value-finite ki_r_field c h.ki_r;
      kd_r = value-finite kd_r_field c h.kd_r;
      timeout = value-finite (timeout_field D) c h.timeout;
    }
