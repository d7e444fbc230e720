-- ===== src/System/Tuning/Once.antt =====
-- `WriteTuning` of my_diffbot_system.cpp in one cycle and in the next.
use Prim.Native.String.{String}
use mathlib.Core.Option.{get_or}
use my_diffbot.Common.{
  ◌≡◌, refl, sym, ap, ◌∙◌, arith, List, Bool, true, false, if◌then◌else◌, if-elim, Bool-cases, ◌⊎◌,
  inl, inr,
}
use my_diffbot.Double.{Double}
use my_diffbot.System.Interfaces.{Name, Values}
use my_diffbot.System.Tuning.{Gains, Tuning, pick, pick_gains, read_tunings, same_gains}
use my_diffbot.System.Tuning.Picked.{
  Field, last_finite, get_or_twice, read_tunings-value, timeout_field, gain_field,
}
use my_diffbot.System.Tuning.Finite.{IsEqReflexive, IsFinite, Tuning-ext, read_tunings-IsFinite}

if-either :
    {A B : Type 0} (f : A → B) (c : Bool) (a b : A)
    → (f (if c then a else b) ≡ f a) ⊎ (f (if c then a else b) ≡ f b)
if-either f true a b = inl refl
if-either f false a b = inr refl

-- Where `same b`, so too at the choice of `a` if `same a` and else of `b`.
if_self :
    {A : Type 0} (same : A → Bool) (a b : A) → same b ≡ true → same (if same a then a else b) ≡ true
if_self same a b h = elim (Bool-cases (same a)) [ inl e ↦ rw e e | inr e ↦ rw e h ]

module _ (D : Double) where
  open D use {F, eq, is_finite}

  module _ (names : List Name) (v : Values F) where
    -- Reading again from the values of a first reading, or from those before it, changes nothing.
    value_again :
        (field : Field D) (c c' : Tuning F)
        → (field.value c' ≡ field.value c)
          ⊎ (field.value c' ≡ field.value (read_tunings D names v c))
        → field.value (read_tunings D names v c') ≡ field.value (read_tunings D names v c)
    value_again field c c' (inl same) =
        read_tunings-value D field names v c'
        ∙ ap (get_or (last_finite D field.wanted names v)) same
        ∙ sym (read_tunings-value D field names v c)
    value_again field c c' (inr read) =
        read_tunings-value D field names v c'
        ∙ ap (get_or (last_finite D field.wanted names v))
            (read ∙ read_tunings-value D field names v c)
        ∙ get_or_twice (last_finite D field.wanted names v) (field.value c)
        ∙ sym (read_tunings-value D field names v c)

    -- The values after a call: those of before where they equal the wanted ones, else the wanted ones.
    abbrev pub updated_gains : Tuning F → Gains F
    updated_gains c =
        let w = read_tunings D names v c in
        if same_gains D w.sent_pid_gains c.sent_pid_gains
        then c.sent_pid_gains
        else w.sent_pid_gains

    abbrev pub updated_timeout : Tuning F → F
    updated_timeout c =
        let w = read_tunings D names v c in
        if eq w.sent_cmd_timeout_ms c.sent_cmd_timeout_ms
        then c.sent_cmd_timeout_ms
        else w.sent_cmd_timeout_ms

    abbrev pub updated : Tuning F → Tuning F
    updated c = record { sent_pid_gains = updated_gains c; sent_cmd_timeout_ms = updated_timeout c }

    pub updated-IsFinite : (c : Tuning F) → IsFinite D c → IsFinite D (updated c)
    updated-IsFinite c h =
        let w = read_tunings D names v c in
        let wh = read_tunings-IsFinite D names v c h in
        let gains = same_gains D w.sent_pid_gains c.sent_pid_gains in
        let pick2 =
          λ (gain : Gains F → F) (p : is_finite (gain c.sent_pid_gains) ≡ true)
              (q : is_finite (gain w.sent_pid_gains) ≡ true).
            if-elim (λ (g : Gains F). is_finite (gain g) ≡ true) gains p q in
        record {
          kp_l = pick2 (λ g. g.kp_l) h.kp_l wh.kp_l;
          ki_l = pick2 (λ g. g.ki_l) h.ki_l wh.ki_l;
          kd_l = pick2 (λ g. g.kd_l) h.kd_l wh.kd_l;
          kp_r = pick2 (λ g. g.kp_r) h.kp_r wh.kp_r;
          ki_r = pick2 (λ g. g.ki_r) h.ki_r wh.ki_r;
          kd_r = pick2 (λ g. g.kd_r) h.kd_r wh.kd_r;
          timeout =
              if-elim (λ (x : F). is_finite x ≡ true)
                (eq w.sent_cmd_timeout_ms c.sent_cmd_timeout_ms) h.timeout wh.timeout;
        }

    gain_again :
        (iface : String) (gain : Gains F → F)
        → ((i : String) (cmd : F) (g : Gains F)
            → gain (pick_gains D i cmd g) ≡ pick D iface i cmd (gain g))
        → (c : Tuning F)
        → gain (read_tunings D names v (updated c)).sent_pid_gains
          ≡ gain (read_tunings D names v c).sent_pid_gains
    gain_again iface gain picks c =
        let w = read_tunings D names v c in
        value_again (gain_field D iface gain picks) c (updated c) (
          if-either (λ (g : Gains F). gain g) (same_gains D w.sent_pid_gains c.sent_pid_gains)
            c.sent_pid_gains w.sent_pid_gains)

    pub read_tunings-updated :
        (c : Tuning F) → read_tunings D names v (updated c) ≡ read_tunings D names v c
    read_tunings-updated c =
        let w = read_tunings D names v c in
        Tuning-ext (read_tunings D names v (updated c)) w
          (gain_again "kp_l" (λ g. g.kp_l) (λ i cmd g. refl) c)
          (gain_again "ki_l" (λ g. g.ki_l) (λ i cmd g. refl) c)
          (gain_again "kd_l" (λ g. g.kd_l) (λ i cmd g. refl) c)
          (gain_again "kp_r" (λ g. g.kp_r) (λ i cmd g. refl) c)
          (gain_again "ki_r" (λ g. g.ki_r) (λ i cmd g. refl) c)
          (gain_again "kd_r" (λ g. g.kd_r) (λ i cmd g. refl) c)
          (value_again (timeout_field D) c (updated c) (
            if-either (λ (x : F). x) (eq w.sent_cmd_timeout_ms c.sent_cmd_timeout_ms)
              c.sent_cmd_timeout_ms w.sent_cmd_timeout_ms))

    pub same_gains_refl :
        (c : Tuning F)
        → IsEqReflexive D
        → IsFinite D c
        → same_gains D c.sent_pid_gains c.sent_pid_gains ≡ true
    unfolding same_gains
    same_gains_refl c refl_eq h =
        let g = c.sent_pid_gains in
        ground (
          arith,
          refl_eq g.kp_l h.kp_l,
          refl_eq g.ki_l h.ki_l,
          refl_eq g.kd_l h.kd_l,
          refl_eq g.kp_r h.kp_r,
          refl_eq g.ki_r h.ki_r,
          refl_eq g.kd_r h.kd_r,
        )

    -- The wanted values equal the updated ones, so that nothing is to be sent.
    pub updated-same :
        (c : Tuning F)
        → IsEqReflexive D
        → IsFinite D c
        → let w = read_tunings D names v c in
          (same_gains D w.sent_pid_gains (updated_gains c) ≡ true)
          × (eq w.sent_cmd_timeout_ms (updated_timeout c) ≡ true)
    updated-same c refl_eq h =
        let w = read_tunings D names v c in
        let wh = read_tunings-IsFinite D names v c h in
        (
          if_self (same_gains D w.sent_pid_gains) c.sent_pid_gains w.sent_pid_gains
              (same_gains_refl w refl_eq wh),
          if_self (eq w.sent_cmd_timeout_ms) c.sent_cmd_timeout_ms w.sent_cmd_timeout_ms
              (refl_eq w.sent_cmd_timeout_ms wh.timeout),
        )
