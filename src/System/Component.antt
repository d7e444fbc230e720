-- ===== src/System/Component.antt =====
-- The state of `My_diffbotSystemHardware` of my_diffbot_system.hpp, and what its callbacks return.
-- `diag_node_` and `diag_pub_` are set and reset together: `has_diag_pub` tells whether they are there.
-- The registrations for introspection are left out.
use my_diffbot.Common.{ℕ, Bool}
use my_diffbot.Common.Int.{ℤ}
use my_diffbot.Transport.{Transport}
use my_diffbot.Kestrel.{Kestrel}
use my_diffbot.System.Interfaces.{Values, Interfaces}
use my_diffbot.System.Wheels.{Wheels}
use my_diffbot.System.Drive.{Drive}
use my_diffbot.System.Tuning.{Gains, Tuning}
use my_diffbot.System.Led.{Led}

-- `hardware_interface::CallbackReturn`, by the values that the callbacks return.
pub data CallbackReturn : Type 0 where
  success failure error : CallbackReturn

-- `hardware_interface::return_type`, likewise.
pub data ReturnType : Type 0 where
  ok error : ReturnType

-- What `on_init` reads.
pub record Config (F : Type 0) : Type 0 where
  pub cpr : F
  pub gains : Gains ℤ
  pub cmd_timeout_ms : ℕ

-- Whether IMU frames come, and when the diagnostics were published last.
pub record ImuWatch : Type 0 where
  pub last_diag_pub : ℕ
  pub last_imu_count : ℕ
  pub last_imu_count_change : ℕ

pub record System (Device F : Type 0) : Type 0 where
  pub kestrel : Transport Device (Kestrel F)
  pub config : Config F
  pub interfaces : Interfaces
  pub values : Values F
  pub wheels : Wheels F
  pub drive : Drive F
  pub tuning : Tuning F
  pub led : Led
  pub imu_watch : ImuWatch
  pub has_diag_pub : Bool
