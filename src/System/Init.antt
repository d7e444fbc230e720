-- ===== src/System/Init.antt =====
-- `on_init` of my_diffbot_system.cpp. The parameters of the hardware are texts by their bytes;
-- `std::stoi` is a parameter of the model, and `none` is an exception that it throws.
pub mod Numbers
pub mod Wheel
use Prim.Native.String.{String}
use text.Mathlib.Text.{◌==◌ as str_eq}
use mathlib.Core.Option.{get_or}
use my_diffbot.Common.{
  ℕ, zero, suc, ◌^◌, List, [], ◌∷◌, Bool, true, false, not, ◌&&◌, Option, none, some, if◌then◌else◌,
  ◌==◌, length,
}
use my_diffbot.Common.Int.{ℤ, pos, to_bits}
use my_diffbot.Double.{Double}
use my_diffbot.Transport.Session.{configure}
use my_diffbot.Transport.Read.{◌>>=◌}
use my_diffbot.System.Wheels.{position, velocity}
use my_diffbot.System.Tuning.{Gains}
use my_diffbot.System.Component.{CallbackReturn, Config, System}

-- A joint of the description, by the names of its interfaces.
pub record Joint : Type 0 where
  pub command_interfaces : List String
  pub state_interfaces : List String

pub record HardwareInfo : Type 0 where
  pub hardware_parameters : String → Option (List ℕ)
  pub joints : List Joint

abbrev pub name_at : ℕ → List String → String
name_at i [] = ""
name_at zero (name ∷ names) = name
name_at (suc i) (name ∷ names) = name_at i names

-- The body of the loop over the joints; `false` is an error.
unfoldable pub check_joint : Joint → Bool
check_joint joint =
    if not (length joint.command_interfaces == 1)
    then false
    else if not (str_eq (name_at 0 joint.command_interfaces) velocity)
    then false
    else if not (length joint.state_interfaces == 2)
    then false
    else if not (str_eq (name_at 0 joint.state_interfaces) position)
    then false
    else if not (str_eq (name_at 1 joint.state_interfaces) velocity)
    then false
    else true

unfoldable pub check_joints : List Joint → Bool
check_joints [] = true
check_joints (joint ∷ joints) = check_joint joint && check_joints joints

module _ (stoi : List ℕ → Option ℤ) (info : HardwareInfo) where
  abbrev pub param_int : String → ℤ → Option ℤ
  param_int key fallback = elim (info.hardware_parameters key) [
    | none ↦ some fallback
    | some text ↦ stoi text
  ]

  -- A missing parameter reads as an empty text.
  abbrev pub text_at : String → List ℕ
  text_at key = get_or (info.hardware_parameters key) []

  unfoldable pub read_config : (D : Double) → Option (Config D.F)
  read_config D = stoi (text_at "encoder_counts_per_revolution") >>= λ cpr.
      param_int "cmd_timeout_ms" (pos 250) >>= λ cmd_timeout_ms.
      param_int "kp_l" (pos 1500) >>= λ kp_l. param_int "ki_l" (pos 3000) >>= λ ki_l.
      param_int "kd_l" (pos 0) >>= λ kd_l. param_int "kp_r" (pos 1500) >>= λ kp_r.
      param_int "ki_r" (pos 3000) >>= λ ki_r. param_int "kd_r" (pos 0) >>= λ kd_r. some (record {
        cpr = D.of_int cpr;
        cmd_timeout_ms = to_bits (2 ^ 15) cmd_timeout_ms;
        gains = record {
          kp_l = kp_l;
          ki_l = ki_l;
          kd_l = kd_l;
          kp_r = kp_r;
          ki_r = ki_r;
          kd_r = kd_r;
        };
      })

  -- The end of `on_init`, from the loop on. A negative rate is its bit pattern, which
  -- `ConvertBaudRate` takes for the default like any unknown rate.
  unfoldable pub accept :
      {Device F : Type 0} → ℤ → ℤ → System Device F → CallbackReturn × System Device F
  unfolding check_joints configure
  accept baud_rate timeout_ms s =
      if check_joints info.joints
      then (
        CallbackReturn.success,
        record s {
          kestrel =
              configure (text_at "serial_port") (to_bits (2 ^ 31) baud_rate)
                (to_bits (2 ^ 63) timeout_ms) s.kestrel;
        },
      )
      else (CallbackReturn.error, s)

  -- `base_ok` tells whether `SystemInterface::on_init` succeeded.
  unfoldable pub on_init :
      {Device : Type 0}
      → (D : Double) → Bool
      → System Device D.F
      → Option (CallbackReturn × System Device D.F)
  unfolding read_config accept
  on_init D base_ok s =
      if not base_ok
      then some (CallbackReturn.error, s)
      else (stoi (text_at "baud_rate") >>= λ baud_rate.
          stoi (text_at "timeout_ms") >>= λ timeout_ms. read_config D >>= λ config.
          some (accept baud_rate timeout_ms (record s { config = config })))
