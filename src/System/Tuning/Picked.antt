-- ===== src/System/Tuning/Picked.antt =====
-- What the loop of `WriteTuning` of my_diffbot_system.cpp reads: for each gain and for the timeout,
-- the last finite command of its interface, or the value of before.
use Prim.Native.String.{String}
use text.Mathlib.Text.{◌==◌ as str_eq}
use text.Mathlib.TextEquality.{eq_iff}
use mathlib.Core.Option.{get_or}
use my_diffbot.Common.{
  ◌≡◌, refl, ap, ◌∙◌, arith, List, [], ◌∷◌, false, ◌&&◌, Option, none, some, if◌then◌else◌,
  Bool-cases, inl, inr,
}
use my_diffbot.Double.{Double}
use my_diffbot.System.Interfaces.{Name, same_name, Values, get_command}
use my_diffbot.System.Tuning.{Gains, Tuning, pick, pick_gains, read_tuning, read_tunings}

module _ {F : Type 0} where
  abbrev pub or_else : Option F → Option F → Option F
  or_else none o = o
  or_else (some x) o = some x

  pub get_or-or_else : (o o' : Option F) (x : F) → get_or o (get_or o' x) ≡ get_or (or_else o o') x
  get_or-or_else none o' x = refl
  get_or-or_else (some y) o' x = refl

  pub get_or_twice : (o : Option F) (x : F) → get_or o (get_or o x) ≡ get_or o x
  get_or_twice none x = refl
  get_or_twice (some y) x = refl

module _ (D : Double) where
  open D use {F, is_finite}

  abbrev pub finite_command : Name → Name → F → Option F
  finite_command wanted name cmd = if same_name name wanted && is_finite cmd then some cmd else none

  abbrev pub last_finite : Name → List Name → Values F → Option F
  last_finite wanted [] v = none
  last_finite wanted (name ∷ names) v =
      or_else (last_finite wanted names v) (finite_command wanted name (get_command name v))

  -- One of the seven values, with its interface.
  pub record Field : Type 0 where
    pub wanted : Name
    pub value : Tuning F → F
    pub step :
        (name : Name) (cmd : F) (c : Tuning F)
        → value (read_tuning D name cmd c) ≡ get_or (finite_command wanted name cmd) (value c)

  pub read_tunings-value :
      (field : Field) (names : List Name) (v : Values F) (c : Tuning F)
      → field.value (read_tunings D names v c)
        ≡ get_or (last_finite field.wanted names v) (field.value c)
  unfolding read_tunings
  read_tunings-value field [] v c = refl
  read_tunings-value field (name ∷ names) v c =
      read_tunings-value field names v (read_tuning D name (get_command name v) c)
      ∙ ap (get_or (last_finite field.wanted names v)) (field.step name (get_command name v) c)
      ∙ get_or-or_else (last_finite field.wanted names v)
          (finite_command field.wanted name (get_command name v)) (field.value c)

  abbrev pub cmd_timeout_ms : Name
  cmd_timeout_ms = record { prefix_name = "kestrel_watchdog"; interface_name = "cmd_timeout_ms" }

  pub timeout-step :
      (name : Name) (cmd : F) (c : Tuning F)
      → (read_tuning D name cmd c).sent_cmd_timeout_ms
        ≡ get_or (finite_command cmd_timeout_ms name cmd) c.sent_cmd_timeout_ms
  unfolding read_tuning
  timeout-step name cmd c = elim (Bool-cases (str_eq name.prefix_name "kestrel_pid")) [
    | inl is_pid ↦
        let other : str_eq name.prefix_name "kestrel_watchdog" ≡ false =
          rw ((eq_iff name.prefix_name "kestrel_pid").0 is_pid) refl in
        rw (is_pid, other) refl
    | inr not_pid ↦ rw not_pid (ground arith)
  ]

  abbrev pub timeout_field : Field
  timeout_field = record {
    wanted = cmd_timeout_ms;
    value = λ c. c.sent_cmd_timeout_ms;
    step = timeout-step;
  }

  -- One of the six gains.
  module _ (iface : String) (gain : Gains F → F)
      (picks : (i : String) (cmd : F) (g : Gains F)
        → gain (pick_gains D i cmd g) ≡ pick D iface i cmd (gain g)) where
    abbrev pub gain_name : Name
    gain_name = record { prefix_name = "kestrel_pid"; interface_name = iface }

    pub gain-step :
        (name : Name) (cmd : F) (c : Tuning F)
        → gain (read_tuning D name cmd c).sent_pid_gains
          ≡ get_or (finite_command gain_name name cmd) (gain c.sent_pid_gains)
    unfolding read_tuning
    gain-step name cmd c = elim (Bool-cases (str_eq name.prefix_name "kestrel_pid")) [
      | inl is_pid ↦ rw is_pid (picks name.interface_name cmd c.sent_pid_gains ∙ ground arith)
      | inr not_pid ↦ rw not_pid (ground arith)
    ]

    abbrev pub gain_field : Field
    gain_field = record { wanted = gain_name; value = λ c. gain c.sent_pid_gains; step = gain-step }
