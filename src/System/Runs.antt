-- ===== src/System/Runs.antt =====
-- The callbacks of `My_diffbotSystemHardware` in some order: the controller manager, which calls
-- them, is a list of events. `none` is fuel that ran out, or a `read` without its publisher.
pub mod Line
pub mod Driven
pub mod Told
pub mod Calls
pub mod Sent
use mathlib.Core.Option.{some-injective}
use my_diffbot.Common.{
  ℕ, suc, ◌*◌, ◌≤◌, ◌≡◌, refl, List, [], ◌∷◌, inl, inr, Option, some, Bool, true, false, ap, subst,
  sym,
}
use my_diffbot.Double.{Double}
use my_diffbot.Transport.Serial.{SerialPort}
use my_diffbot.Transport.Read.{◌>>=◌}
use my_diffbot.Transport.Read.Received.{DeliversBytes}
use my_diffbot.Transport.Ack.Ends.{IsTicking}
use my_diffbot.Kestrel.Commands.{default_timeout_ms}
use my_diffbot.System.Tuning.{Clocks}
use my_diffbot.System.Tuning.Finite.{IsEqReflexive}
use my_diffbot.System.Component.{System}
use my_diffbot.System.Activate.{on_activate}
use my_diffbot.System.Activate.Sound.{IsSound}
use my_diffbot.System.Activate.Ends.{on_activate_lem}
use my_diffbot.System.Lifecycle.{on_configure, on_deactivate, on_cleanup}
use my_diffbot.System.Cycle.{WriteTimes, read, write}
use my_diffbot.System.Cycle.Published.{Kept, read-Kept, write-Kept}
use my_diffbot.System.Published.{on_deactivate-Kept, on_activate-Kept}
use my_diffbot.Transport.Ack.Keeps.{>>=-eq-some}
use my_diffbot.System.Cycle.Ends.{read-Ended, on_cleanup-IsSound, on_deactivate-Ended, write-Ended}

-- A call, with the readings of the clocks during it.
pub data Event (F : Type 0) : Type 0 where
  configure : Event F
  activate : ℕ → (ℕ → Clocks) → Event F
  deactivate : (ℕ → Clocks) → Event F
  cleanup : Event F
  read_cycle : ℕ → ℕ → Event F
  write_cycle : WriteTimes F → Event F

-- Each round of the waits sleeps before the next test.
abbrev pub IsTimely : {F : Type 0} → Event F → Type 0
IsTimely configure = Unit {0}
IsTimely (activate now at) = (k : ℕ) → IsTicking (at k).steady
IsTimely (deactivate at) = (k : ℕ) → IsTicking (at k).steady
IsTimely cleanup = Unit {0}
IsTimely (read_cycle now steady) = Unit {0}
IsTimely (write_cycle w) = IsTicking w.at_gains.steady × IsTicking w.at_timeout.steady

-- Whether the publisher of the diagnostics is there after a call, from whether it is before.
abbrev pub publisher_after : {F : Type 0} → Event F → Bool → Bool
publisher_after configure before = true
publisher_after (activate now at) before = before
publisher_after (deactivate at) before = before
publisher_after cleanup before = false
publisher_after (read_cycle now steady) before = before
publisher_after (write_cycle w) before = before

-- The controller manager reads only from a configured component, which has the publisher.
abbrev pub IsAllowed : {F : Type 0} → Bool → Event F → Type 0
IsAllowed configured configure = Unit {0}
IsAllowed configured (activate now at) = Unit {0}
IsAllowed configured (deactivate at) = Unit {0}
IsAllowed configured cleanup = Unit {0}
IsAllowed configured (read_cycle now steady) = configured ≡ true
IsAllowed configured (write_cycle w) = Unit {0}

-- Each `read` of these calls finds the publisher, which `on_configure` makes and `on_cleanup`
-- removes.
abbrev pub IsOrdered : {F : Type 0} → Bool → List (Event F) → Type 0
IsOrdered configured [] = Unit {0}
IsOrdered configured (event ∷ events) =
    IsAllowed configured event × IsOrdered (publisher_after event configured) events

module _ (S : SerialPort) (D : Double) (fuel : ℕ) where
  open S use {Device}
  open D use {F}

  unfoldable pub run_event : Event F → System Device F → Option (System Device F)
  run_event configure s = some (on_configure D s).1
  run_event (activate now at) s = on_activate S D fuel now at s >>= λ r. some r.1
  run_event (deactivate at) s = on_deactivate S D fuel at s >>= λ r. some r.1
  run_event cleanup s = some (on_cleanup S D s).1
  run_event (read_cycle now steady) s = read S D now steady s >>= λ r. some r.2
  run_event (write_cycle w) s = write S D fuel w s >>= λ r. some r.1

  unfoldable pub run_events : List (Event F) → System Device F → Option (System Device F)
  unfolding run_event
  run_events [] s = some s
  run_events (event ∷ events) s = run_event event s >>= run_events events

module _ (S : SerialPort) (D : Double) (fuel : ℕ) where
  open S use {Device}
  open D use {F}

  -- The publisher after one call.
  pub run_event-Published :
      (event : Event F) (s s' : System Device F)
      → run_event S D fuel event s ≡ some s'
      → s'.has_diag_pub ≡ publisher_after event s.has_diag_pub
  unfolding run_event on_configure on_cleanup
  run_event-Published configure s s' e =
      ap (λ (u : System Device F). u.has_diag_pub) (some-injective s' (on_configure D s).1 (sym e))
  run_event-Published (activate now at) s s' e =
      let ((x, u), e1, e2) = >>=-eq-some (on_activate S D fuel now at s) (λ r. some r.1) e in
      subst (Kept S D s) (some-injective u s' e2) (on_activate-Kept S D fuel now at s u x e1)
  run_event-Published (deactivate at) s s' e =
      let ((x, u), e1, e2) = >>=-eq-some (on_deactivate S D fuel at s) (λ r. some r.1) e in
      subst (Kept S D s) (some-injective u s' e2) (on_deactivate-Kept S D fuel at s u x e1)
  run_event-Published cleanup s s' e =
      ap (λ (u : System Device F). u.has_diag_pub) (some-injective s' (on_cleanup S D s).1 (sym e))
  run_event-Published (read_cycle now steady) s s' e =
      let ((x, d, u), e1, e2) = >>=-eq-some (read S D now steady s) (λ r. some r.2) e in
      subst (Kept S D s) (some-injective u s' e2) (read-Kept S D now steady s u x d e1)
  run_event-Published (write_cycle w) s s' e =
      let ((x, u), e1, e2) = >>=-eq-some (write S D fuel w s) (λ r. some r.1) e in
      subst (Kept S D s) (some-injective u s' e2) (write-Kept S D fuel w s u x e1)

module _ (S : SerialPort) (D : Double) (fuel : ℕ) where
  open S use {Device}
  open D use {F}

  pub run_event-IsSound :
      (event : Event F) (s : System Device F)
      → default_timeout_ms ≤ 5 * fuel
      → DeliversBytes S
      → IsEqReflexive D
      → IsTimely event
      → IsAllowed s.has_diag_pub event
      → IsSound D s
      → (s' : System Device F) × IsSound D s' × (run_event S D (suc fuel) event s ≡ some s')
  unfolding run_event
  run_event-IsSound configure s enough delivers refl_eq timely allowed sound = (
    (on_configure D s).1,
    unfold on_configure in record { ready = sound.ready; sent = sound.sent; config = sound.config },
    refl,
  )
  run_event-IsSound (activate now at) s enough delivers refl_eq timely allowed sound =
      let (s', sound', outcome) =
        on_activate_lem S D fuel enough delivers at timely now (at 0) (at 0) s refl_eq sound in
      elim outcome [
        | inl failed ↦ rw failed (s', sound', refl)
        | inr done ↦ rw done.0 (s', sound', refl)
      ]
  run_event-IsSound (deactivate at) s enough delivers refl_eq timely allowed sound =
      let (x, s', sound', e) = on_deactivate-Ended S D delivers fuel enough at s timely sound in
      rw e (s', sound', refl)
  run_event-IsSound cleanup s enough delivers refl_eq timely allowed sound =
      ((on_cleanup S D s).1, on_cleanup-IsSound S D delivers s sound, refl)
  run_event-IsSound (read_cycle now steady) s enough delivers refl_eq timely allowed sound =
      let (x, diag, s', sound', e) = read-Ended S D delivers now steady s sound allowed in
      rw e (s', sound', refl)
  run_event-IsSound (write_cycle w) s enough delivers refl_eq (ticking1, ticking2) allowed sound =
      let (x, s', sound', e) =
        write-Ended S D delivers fuel enough w s refl_eq ticking1 ticking2 sound in
      rw e (s', sound', refl)
