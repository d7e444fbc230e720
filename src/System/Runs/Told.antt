-- ===== src/System/Runs/Told.antt =====
-- What one callback of `My_diffbotSystemHardware` gives to the port.
use my_diffbot.Common.{ℕ, ◌≡◌, sym, subst, ◌∙◌, List, [], ◌++◌, map, append-nil, Bool, some}
use my_diffbot.Double.{Double}
use my_diffbot.Transport.Serial.{SerialPort}
use my_diffbot.Transport.Recorded.{recorded, written}
use my_diffbot.Kestrel.Commands.Written.{Command, frame_of}
use my_diffbot.System.Component.{System}
use my_diffbot.System.Runs.{Event, run_event}
use my_diffbot.System.Runs.Line.{Step}

module _ (S : SerialPort) (D : Double) where
  open D use {F}

  abbrev pub Logging : Type 0
  Logging = System (S.Device × List (List ℕ)) F

  abbrev pub line : Logging → Bool
  line s = S.is_open s.kestrel.device.0

  -- From one state to another, with these commands between them.
  pub record Told (s : Logging) (commands : List (Command F)) (s' : Logging) : Type 0 where
    pub written_eq : written S s'.kestrel ≡ written S s.kestrel ++ map (frame_of D) commands
    pub config_eq : s'.config ≡ s.config

  -- A call is a step of the line.
  abbrev pub Stepped : Bool → ℕ → Event F → Logging → Type 0
  Stepped clean fuel event s =
      (commands : List (Command F)) × (s' : Logging) × (run_event (recorded S) D fuel event s
        ≡ some s')
      × Told s commands s'
      × Step D clean s.config event (line s) commands (line s')

  -- The step of a call from its lines before and after it.
  pub stepped :
      (clean : Bool) (fuel : ℕ) (event : Event F) (s s' : Logging) (commands : List (Command F))
      (before after : Bool)
      → run_event (recorded S) D fuel event s ≡ some s'
      → Told s commands s'
      → line s ≡ before
      → line s' ≡ after
      → Step D clean s.config event before commands after
      → Stepped clean fuel event s
  stepped clean fuel event s s' commands before after e told is_before is_after step = (
    commands,
    s',
    e,
    told,
    subst (λ (b : Bool). Step D clean s.config event b commands (line s')) (sym is_before)
        (subst (Step D clean s.config event before commands) (sym is_after) step),
  )

  pub Told-nil :
      (s s' : Logging)
      → written S s'.kestrel ≡ written S s.kestrel
      → s'.config ≡ s.config
      → Told s [] s'
  Told-nil s s' same config_eq = record {
    written_eq = same ∙ sym (append-nil (written S s.kestrel));
    config_eq = config_eq;
  }
