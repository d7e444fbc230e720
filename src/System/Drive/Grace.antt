-- ===== src/System/Drive/Grace.antt =====
-- The stop grace of `write` of my_diffbot_system.cpp over any number of cycles.
use my_diffbot.Common.{ℕ, ◌-◌, ◌≡◌, refl, ap₂, ◌∙◌, arith, List, [], ◌∷◌, if◌then◌else◌, ltb}
use my_diffbot.Double.{Double}
use my_diffbot.Transport.Serial.{SerialPort}
use my_diffbot.Transport.{Transport}
use my_diffbot.Kestrel.Commands.{set_wheel_velocity}
use my_diffbot.System.Drive.{Drive, one_sec_ns, is_stopped, write_wheels}

-- A cycle: the time, the time stamp of its frame, and the two commands.
pub record Cycle (F : Type 0) : Type 0 where
  pub now : ℕ
  pub wall : ℕ
  pub commands : F × F

-- The time of the last movement, with this cycle.
abbrev pub moved_at : (D : Double) → ℕ → Cycle D.F → ℕ
moved_at D moved c = if is_stopped D c.commands then moved else c.now

module _ (S : SerialPort) (D : Double) {H : Type 0} where
  open S use {Device}
  open D use {F}

  abbrev pub run : List (Cycle F) → Drive F × Transport Device H → Drive F × Transport Device H
  run [] s = s
  run (c ∷ cycles) s = run cycles (write_wheels S D c.now c.wall c.commands s)

  -- The specification: a frame for each cycle that is less than a second after the last movement.
  abbrev pub sent : ℕ → List (Cycle F) → Transport Device H → Transport Device H
  sent moved [] t = t
  sent moved (c ∷ cycles) t = sent (moved_at D moved c) cycles (
      if ltb (c.now - moved_at D moved c) one_sec_ns
      then (set_wheel_velocity S c.wall D c.commands.0 c.commands.1 t).1
      else t)

  write_wheels-sent :
      (c : Cycle F) (s : Drive F × Transport Device H)
      → ((write_wheels S D c.now c.wall c.commands s).0.last_active_time
          ≡ moved_at D s.0.last_active_time c)
        × ((write_wheels S D c.now c.wall c.commands s).1 ≡ sent s.0.last_active_time (c ∷ []) s.1)
  unfolding write_wheels
  write_wheels-sent c s = ground arith

  -- Over any number of cycles, what is sent is one frame for each cycle that is less than a second
  -- after the last movement, that is after the last cycle with a command that is not zero, this one
  -- included, or after the time of the last movement before all of them; and nothing else.
  pub write_wheels-run :
      (cycles : List (Cycle F)) (s : Drive F × Transport Device H)
      → (run cycles s).1 ≡ sent s.0.last_active_time cycles s.1
  write_wheels-run [] s = refl
  write_wheels-run (c ∷ cycles) s =
      let s' = write_wheels S D c.now c.wall c.commands s in
      let (active, one) = write_wheels-sent c s in
      write_wheels-run cycles s'
      ∙ ap₂ (λ (moved : ℕ) (t : Transport Device H). sent moved cycles t) active one
