-- ===== src/System/Lifecycle/Values.antt =====
-- The interfaces after `on_configure` and `on_deactivate` of my_diffbot_system.cpp.
use my_diffbot.Common.{◌≡◌, refl, ◌∙◌, arith, List, [], ◌∷◌, ◌||◌, if◌then◌else◌}
use my_diffbot.Double.{Double}
use my_diffbot.System.Interfaces.{
  Name, mem_name, Values, get_state, get_command, set_state, set_command, set_states, set_commands,
}
use my_diffbot.System.Component.{System}
use my_diffbot.System.Lifecycle.{on_configure}

module _ {F : Type 0} (name : Name) where
  state-set_states :
      (names : List Name) (x : F) (v : Values F)
      → get_state name (set_states names x v)
        ≡ (if mem_name name names then x else get_state name v)
  unfolding set_states
  state-set_states [] x v = refl
  state-set_states (m ∷ names) x v = state-set_states names x (set_state m x v) ∙ ground arith

  command-set_states :
      (names : List Name) (x : F) (v : Values F)
      → get_command name (set_states names x v) ≡ get_command name v
  unfolding set_states
  command-set_states [] x v = refl
  command-set_states (m ∷ names) x v = command-set_states names x (set_state m x v)

  pub command-set_commands :
      (names : List Name) (x : F) (v : Values F)
      → get_command name (set_commands names x v)
        ≡ (if mem_name name names then x else get_command name v)
  unfolding set_commands
  command-set_commands [] x v = refl
  command-set_commands (m ∷ names) x v =
      command-set_commands names x (set_command m x v) ∙ ground arith

  state-set_commands :
      (names : List Name) (x : F) (v : Values F)
      → get_state name (set_commands names x v) ≡ get_state name v
  unfolding set_commands
  state-set_commands [] x v = refl
  state-set_commands (m ∷ names) x v = state-set_commands names x (set_command m x v)

module _ (D : Double) {Device : Type 0} where
  open D use {F, literal}

  -- After `on_configure` every state interface of a joint, a gpio or a sensor is zero, and so is
  -- every command interface of a joint or a gpio; no other value changes.
  pub on_configure_lem :
      (name : Name) (s : System Device F)
      → let names = s.interfaces in
        let states =
          mem_name name names.joint_states
          || (mem_name name names.gpio_states || mem_name name names.sensor_states) in
        let commands = mem_name name names.joint_commands || mem_name name names.gpio_commands in
        let v = (on_configure D s).1.values in
        (get_state name v ≡ (if states then literal 0 0 else get_state name s.values))
        × (get_command name v ≡ (if commands then literal 0 0 else get_command name s.values))
  unfolding on_configure
  on_configure_lem name s =
      let names = s.interfaces in
      let o = literal 0 0 in
      let v1 = set_states names.joint_states o s.values in
      let v2 = set_commands names.joint_commands o v1 in
      let v3 = set_states names.gpio_states o v2 in
      let v4 = set_commands names.gpio_commands o v3 in
      (
        rw
            (
              state-set_states name names.sensor_states o v4,
              state-set_commands name names.gpio_commands o v3,
              state-set_states name names.gpio_states o v2,
              state-set_commands name names.joint_commands o v1,
              state-set_states name names.joint_states o s.values,
            )
            (ground arith),
        rw
            (
              command-set_states name names.sensor_states o v4,
              command-set_commands name names.gpio_commands o v3,
              command-set_states name names.gpio_states o v2,
              command-set_commands name names.joint_commands o v1,
              command-set_states name names.joint_states o s.values,
            )
            (ground arith),
      )
