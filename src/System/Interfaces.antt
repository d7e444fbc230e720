-- ===== src/System/Interfaces.antt =====
-- The state and command interfaces that `hardware_interface::SystemInterface` keeps for
-- my_diffbot_system.cpp: a value for each name. A name is its prefix and its interface name, which
-- the code joins by a slash. The accessors of the base class are taken at names that exist.
use Prim.Native.String.{String}
use text.Mathlib.Text.{◌==◌ as str_eq, find?}
use text.Mathlib.TextEquality.{eq_iff}
use my_diffbot.Common.{
  ◌≡◌, ap₂, arith, List, [], ◌∷◌, Bool, true, false, none, some, ◌&&◌, ◌||◌, if◌then◌else◌,
}

pub record Name : Type 0 where
  pub prefix_name : String
  pub interface_name : String

abbrev pub same_name : Name → Name → Bool
same_name a b = str_eq a.prefix_name b.prefix_name && str_eq a.interface_name b.interface_name

and-true : (x y : Bool) → x && y ≡ true → (x ≡ true) × (y ≡ true)
and-true x y h = ground arith

pub eq_of_same_name : (a b : Name) → same_name a b ≡ true → a ≡ b
eq_of_same_name a b h =
    let (p, i) =
      and-true (str_eq a.prefix_name b.prefix_name) (str_eq a.interface_name b.interface_name) h in
    ap₂ (λ (x y : String). record { prefix_name = x; interface_name = y })
      ((eq_iff a.prefix_name b.prefix_name).0 p) ((eq_iff a.interface_name b.interface_name).0 i)

-- `s.find(t) != std::string::npos`.
abbrev pub contains : String → String → Bool
contains s t = elim (find? s t) [ none ↦ false | some i ↦ true ]

pub record Values (F : Type 0) : Type 0 where
  pub state : Name → F
  pub command : Name → F

-- The names of each kind, in the order in which the maps are read.
pub record Interfaces : Type 0 where
  pub joint_states : List Name
  pub joint_commands : List Name
  pub gpio_states : List Name
  pub gpio_commands : List Name
  pub sensor_states : List Name

abbrev pub mem_name : Name → List Name → Bool
mem_name n [] = false
mem_name n (m ∷ names) = same_name m n || mem_name n names

module _ {F : Type 0} where
  abbrev pub get_state : Name → Values F → F
  get_state name v = v.state name

  abbrev pub get_command : Name → Values F → F
  get_command name v = v.command name

  abbrev pub set_state : Name → F → Values F → Values F
  set_state name x v = record v { state = λ n. if same_name name n then x else v.state n }

  abbrev pub set_command : Name → F → Values F → Values F
  set_command name x v = record v { command = λ n. if same_name name n then x else v.command n }

  -- The loops that write one value to each interface of a kind.
  unfoldable pub set_states : List Name → F → Values F → Values F
  set_states [] x v = v
  set_states (name ∷ names) x v = set_states names x (set_state name x v)

  unfoldable pub set_commands : List Name → F → Values F → Values F
  set_commands [] x v = v
  set_commands (name ∷ names) x v = set_commands names x (set_command name x v)
