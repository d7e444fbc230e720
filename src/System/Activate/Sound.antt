-- ===== src/System/Activate/Sound.antt =====
-- The invariant of `My_diffbotSystemHardware` between two callbacks.
use my_diffbot.Common.{ℕ, ◌≡◌, List, Option, some, Bool-cases, inl, inr}
use my_diffbot.Double.{Double}
use my_diffbot.Transport.Serial.{SerialPort}
use my_diffbot.Transport.{Transport}
use my_diffbot.Transport.Session.{shutdown, write_command}
use my_diffbot.Transport.Read.Chunks.{IsReady}
use my_diffbot.System.Tuning.Finite.{IsFinite}
use my_diffbot.System.Component.{System}
use my_diffbot.System.Activate.{sent_tuning}

-- The transport waits for more bytes, and the values that were sent, and those that an activation
-- sends, are finite.
pub record IsSound (D : Double) {Device : Type 0} (s : System Device D.F) : Type 0 where
  pub ready : IsReady s.kestrel
  pub sent : IsFinite D s.tuning
  pub config : IsFinite D (sent_tuning D s.config)

-- A call that ended, with a sound state.
abbrev pub Ended : (D : Double) {Device A : Type 0} → Option (A × System Device D.F) → Type 0
Ended D {Device} {A} r = (x : A) × (s : System Device D.F) × IsSound D s × (r ≡ some (x, s))

module _ (S : SerialPort) {H : Type 0} where
  open S use {Device, is_open, write_bytes}

  -- A new device leaves the buffer alone.
  pub device-IsReady :
      (d : Device) (t : Transport Device H) → IsReady t → IsReady (record t { device = d })
  device-IsReady d t ready = record { waits = ready.waits; bytes = ready.bytes }

  pub write_command-IsReady :
      (msg_id : ℕ) (payload : List ℕ) (t : Transport Device H)
      → IsReady t
      → IsReady (write_command S msg_id payload t).1
  unfolding write_command
  write_command-IsReady msg_id payload t ready = elim (Bool-cases (is_open t.device)) [
    | inl e ↦ rw e (record { waits = ready.waits; bytes = ready.bytes })
    | inr e ↦ rw e ready
  ]

  pub shutdown-IsReady : (t : Transport Device H) → IsReady (shutdown S t)
  unfolding shutdown
  shutdown-IsReady t = elim (Bool-cases (is_open t.device)) [
    | inl e ↦ rw e (record { waits = tt; bytes = tt })
    | inr e ↦ rw e (record { waits = tt; bytes = tt })
  ]
