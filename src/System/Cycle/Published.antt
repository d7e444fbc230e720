-- ===== src/System/Cycle/Published.antt =====
-- The publisher of the diagnostics in `read` and `write` of my_diffbot_system.cpp.
use mathlib.Core.Option.{some-injective}
use my_diffbot.Common.{ℕ, ◌≡◌, refl, ap, subst, true, Option, none, some, Bool-cases, inl, inr}
use my_diffbot.Double.{Double}
use my_diffbot.Transport.Serial.{SerialPort}
use my_diffbot.Transport.Read.{read as read_serial}
use my_diffbot.Transport.Ack.Keeps.{same_result, >>=-eq-some}
use my_diffbot.Kestrel.{on_message_received}
use my_diffbot.System.Tuning.{write_tuning}
use my_diffbot.System.Imu.{DiagnosticStatus}
use my_diffbot.System.Component.{ReturnType, System}
use my_diffbot.System.Cycle.{WriteTimes, after_read, publish, read, after_tuning, write}

module _ (S : SerialPort) (D : Double) where
  open S use {Device, is_open}
  open D use {F}

  pub publish-eq :
      (diag : Option DiagnosticStatus) (s : System Device F)
      → s.has_diag_pub ≡ true
      → publish S D diag s ≡ some (ReturnType.ok, diag, s)
  unfolding publish
  publish-eq none s published = refl
  publish-eq (some status) s published = rw published refl

  -- The same publisher as before.
  abbrev pub Kept : System Device F → System Device F → Type 0
  Kept s s' = s'.has_diag_pub ≡ s.has_diag_pub

  published_same :
      (x x' : ReturnType) (d d' : Option DiagnosticStatus) (s s' : System Device F)
      → ◌≡◌ {A = Option (ReturnType × Option DiagnosticStatus × System Device F)}
          (some (x, d, s))
          (some (x', d', s'))
      → Kept s s'
  published_same x x' d d' s s' e =
      subst (Kept s)
        (ap (λ (r : ReturnType × Option DiagnosticStatus × System Device F). r.2)
          (some-injective (x, d, s) (x', d', s') e))
        refl

  publish-Kept :
      (diag : Option DiagnosticStatus) (s s' : System Device F) (x : ReturnType)
      (d : Option DiagnosticStatus)
      → publish S D diag s ≡ some (x, d, s')
      → Kept s s'
  unfolding publish
  publish-Kept none s s' x d e = published_same ReturnType.ok x none d s s' e
  publish-Kept (some status) s s' x d e = elim (Bool-cases s.has_diag_pub) [
    | inr missing ↦
        let bad : ◌≡◌ {A = Option (ReturnType × Option DiagnosticStatus × System Device F)} none
            (some (x, d, s')) =
          simp missing at e in
        (cc)
    | inl there ↦ published_same ReturnType.ok x (some status) d s s' (simp there at e)
  ]

  pub read-Kept :
      (now steady : ℕ) (s s' : System Device F) (x : ReturnType) (d : Option DiagnosticStatus)
      → read S D now steady s ≡ some (x, d, s')
      → Kept s s'
  unfolding read after_read
  read-Kept now steady s s' x d e = elim (Bool-cases (is_open s.kestrel.device)) [
    | inr closed ↦ published_same ReturnType.error x none d s s' (rw closed at e)
    | inl opened ↦
        let (t, _, e') =
          >>=-eq-some (read_serial S (on_message_received D) steady s.kestrel)
            (λ t. publish S D (after_read S D now t s).0 (after_read S D now t s).1)
            (rw opened at e) in
        publish-Kept (after_read S D now t s).0 (after_read S D now t s).1 s' x d e'
  ]

  pub write-Kept :
      (fuel : ℕ) (w : WriteTimes F) (s s' : System Device F) (x : ReturnType)
      → write S D fuel w s ≡ some (x, s')
      → Kept s s'
  unfolding write after_tuning
  write-Kept fuel w s s' x e = elim (Bool-cases (is_open s.kestrel.device)) [
    | inr closed ↦ same_result (Kept s) ReturnType.error x s s' (rw closed at e) refl
    | inl opened ↦
        let (r, _, e') =
          >>=-eq-some
            (write_tuning S D (on_message_received D) fuel w.at_gains w.at_timeout
              s.interfaces.gpio_commands s.values (s.tuning, s.kestrel))
            (λ r. some (ReturnType.ok, after_tuning S D w r s)) (rw opened at e) in
        same_result (Kept s) ReturnType.ok x (after_tuning S D w r s) s' e' refl
  ]
