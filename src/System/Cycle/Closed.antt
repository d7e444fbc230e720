-- ===== src/System/Cycle/Closed.antt =====
-- The control cycle of my_diffbot_system.cpp without an open port.
use my_diffbot.Common.{ℕ, ◌≡◌, false, none, some, Bool-cases, inl, inr}
use my_diffbot.Double.{Double}
use my_diffbot.Transport.Serial.{SerialPort}
use my_diffbot.Transport.{Transport}
use my_diffbot.Transport.Session.{shutdown}
use my_diffbot.System.Component.{ReturnType, System}
use my_diffbot.System.Lifecycle.{on_cleanup}
use my_diffbot.System.Cycle.{WriteTimes, read, write}

module _ (S : SerialPort) (D : Double) where
  open S use {Device, is_open, close_port}
  open D use {F}

  shutdown-closed :
      {H : Type 0} (t : Transport Device H)
      → ((d : Device) → is_open (close_port d) ≡ false)
      → is_open (shutdown S t).device ≡ false
  unfolding shutdown
  shutdown-closed t closes = elim (Bool-cases (is_open t.device)) [
    | inl e ↦ rw e (closes t.device)
    | inr e ↦ rw e e
  ]

  -- If closing a port leaves it closed, then after `on_cleanup` both `read` and `write` report an
  -- error, publish nothing and change nothing: no value, no clock and no byte to the device.
  pub on_cleanup_closed :
      (fuel now steady : ℕ) (w : WriteTimes F) (s : System Device F)
      → ((d : Device) → is_open (close_port d) ≡ false)
      → let s' = (on_cleanup S D s).1 in
        (read S D now steady s' ≡ some (ReturnType.error, none, s'))
        × (write S D fuel w s' ≡ some (ReturnType.error, s'))
  unfolding read write on_cleanup
  on_cleanup_closed fuel now steady w s closes =
      (rw (shutdown-closed s.kestrel closes), rw (shutdown-closed s.kestrel closes))
