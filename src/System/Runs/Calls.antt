-- ===== src/System/Runs/Calls.antt =====
-- Each callback of `My_diffbotSystemHardware` as a step of the line.
use my_diffbot.Common.{
  ℕ, suc, ◌*◌, ◌≤◌, ◌≡◌, refl, sym, ap, Bool, ◌∙◌, arith, [], ◌++◌, true, false, Bool-cases, inl,
  inr,
}
use my_diffbot.Double.{Double}
use my_diffbot.Protocol.MsgId
use my_diffbot.Protocol.Payload.Sent.{timestamp_to_bytes}
use my_diffbot.Transport.Serial.{SerialPort}
use my_diffbot.Transport.Session.{connect}
use my_diffbot.Transport.Session.Closing.{
  Closes, OpensCleanly, connect_failed, connect_failed_open, shutdown_closed,
}
use my_diffbot.Transport.Read.Received.{DeliversBytes, read-IsReady}
use my_diffbot.Transport.Ack.Ends.{IsTicking}
use my_diffbot.Transport.Recorded.{
  recorded, Logged, StaysOpen, Wrote-Keeps, written, recorded-DeliversBytes, recorded-OpensCleanly,
  shutdown-written,
}
use my_diffbot.Kestrel.{Kestrel, on_message_received}
use my_diffbot.Kestrel.Commands.{default_timeout_ms, timestamp_payload}
use my_diffbot.Kestrel.Commands.Sent.{commands_closed}
use my_diffbot.System.Tuning.{Clocks, k_runtime_ack_timeout_ms}
use my_diffbot.System.Tuning.Finite.{IsEqReflexive}
use my_diffbot.System.Interfaces.{Name, set_commands}
use my_diffbot.System.Activate.{k_max_attempts}
use my_diffbot.System.Activate.Sound.{IsSound}
use my_diffbot.System.Activate.Wanted.{handshake_commands, config_commands}
use my_diffbot.System.Activate.Sent.{on_activate_sent}
use my_diffbot.System.Lifecycle.{on_configure, on_deactivate, on_cleanup}
use my_diffbot.System.Lifecycle.Sent.{deactivate_commands, on_deactivate_sent}
use my_diffbot.System.Cycle.{WriteTimes, after_read, read, write}
use my_diffbot.System.Cycle.Published.{publish-eq}
use my_diffbot.System.Cycle.Wanted.{cycle_commands}
use my_diffbot.System.Cycle.Sent.{write_sent}
use my_diffbot.System.Runs.{
  Event, configure, activate, deactivate, cleanup, read_cycle, write_cycle, IsTimely, IsAllowed,
  run_event,
}
use my_diffbot.System.Runs.Line.{Step}
use my_diffbot.System.Runs.Driven.{cycle_commands-Step}
use my_diffbot.System.Runs.Told.{Logging, line, Told-nil, Stepped, stepped}

module _ (S : SerialPort) (D : Double) (stays : StaysOpen S) (delivers : DeliversBytes S)
    (closes : Closes S) (clean : Bool) (opens : clean ≡ true → OpensCleanly S) (fuel : ℕ)
    (enough : default_timeout_ms ≤ 5 * fuel) where
  open D use {F, literal}

  configure-Stepped : (s : Logging S D) → Stepped S D clean (suc fuel) configure s
  unfolding run_event on_configure
  configure-Stepped s =
      let s' = (on_configure D s).1 in
      stepped S D clean (suc fuel) configure s s' [] (line S D s) (line S D s) refl
        (Told-nil S D s s' refl refl) refl refl (Step.set_up (line S D s))

  cleanup-Stepped : (s : Logging S D) → Stepped S D clean (suc fuel) cleanup s
  unfolding run_event on_cleanup
  cleanup-Stepped s =
      let s' = (on_cleanup (recorded S) D s).1 in
      stepped S D clean (suc fuel) cleanup s s' [] (line S D s) false refl
        (Told-nil S D s s' (shutdown-written S s.kestrel) refl) refl
        (shutdown_closed (recorded S) s.kestrel (λ d. closes d.0)) (Step.closed_down (line S D s))

  read_cycle-Stepped :
      (now steady : ℕ) (s : Logging S D)
      → IsSound D s
      → s.has_diag_pub ≡ true
      → Stepped S D clean (suc fuel) (read_cycle now steady) s
  unfolding run_event read after_read
  read_cycle-Stepped now steady s sound published =
      let event : Event F = read_cycle now steady in
      let looked = Step.looked now steady in
      elim (Bool-cases (line S D s)) [
        | inr closed ↦
            stepped S D clean (suc fuel) event s s [] false false (rw closed refl)
              (Told-nil S D s s refl refl) closed closed (looked false)
        | inl opened ↦
            let message = on_message_received D in
            let (t, e, ready) =
              read-IsReady (recorded S) message steady s.kestrel (recorded-DeliversBytes S delivers)
                sound.ready in
            let after =
              (Wrote-Keeps S stays delivers message (written S s.kestrel)).reads steady s.kestrel t
                (record { ready = sound.ready; opened = opened; frames_eq = refl }) e in
            let (diag, s') = after_read (recorded S) D now t s in
            let done = publish-eq (recorded S) D diag s' published in
            stepped S D clean (suc fuel) event s s' [] true true (rw (opened, e, done) refl)
              (Told-nil S D s s' after.frames_eq refl) opened after.opened (looked true)
      ]

  write_cycle-Stepped :
      (w : WriteTimes F) (s : Logging S D)
      → IsEqReflexive D
      → IsTicking w.at_gains.steady
      → IsTicking w.at_timeout.steady
      → IsSound D s
      → Stepped S D clean (suc fuel) (write_cycle w) s
  unfolding run_event
  write_cycle-Stepped w s refl_eq ticking1 ticking2 sound =
      let event : Event F = write_cycle w in
      elim (Bool-cases (line S D s)) [
        | inr closed ↦
            stepped S D clean (suc fuel) event s s [] false false (unfold write in rw closed refl)
              (Told-nil S D s s refl refl) closed closed (Step.missed w)
        | inl opened ↦
            let short : k_runtime_ack_timeout_ms ≤ 5 * fuel = omega (arith, enough) in
            let (s', e, written_eq, open_after, config_eq) =
              write_sent S D stays delivers fuel w s short refl_eq ticking1 ticking2 sound opened in
            stepped S D clean (suc fuel) event s s' (cycle_commands D w s) true true (rw e refl)
              (record { written_eq = written_eq; config_eq = config_eq }) opened open_after
              (cycle_commands-Step D clean w s)
      ]

  deactivate-Stepped :
      (at : ℕ → Clocks) (s : Logging S D)
      → ((k : ℕ) → IsTicking (at k).steady)
      → IsSound D s
      → Stepped S D clean (suc fuel) (deactivate at) s
  unfolding run_event
  deactivate-Stepped at s ticking sound =
      let event : Event F = deactivate at in
      elim (Bool-cases (line S D s)) [
        | inr closed ↦
            let s' = record s {
              values = set_commands s.interfaces.gpio_commands (literal 0 0) s.values;
            } in
            let closed_at = λ (k msg_id : ℕ).
              commands_closed (recorded S) (on_message_received D) (at k).steady (suc fuel)
                (at k).wall msg_id (timestamp_to_bytes (timestamp_payload (at k).wall))
                default_timeout_ms D (literal 0 0) (literal 0 0) 0 0 0 0 s.kestrel closed in
            let stop = (closed_at 0 MsgId.deactivate).1 in
            let bye = (closed_at 1 MsgId.deactivate).0 in
            let over = (closed_at 2 MsgId.reset).0 in
            stepped S D clean (suc fuel) event s s' [] false false
              (unfold on_deactivate in rw (stop, bye, over) refl) (Told-nil S D s s' refl refl)
              closed closed (Step.unheard at)
        | inl opened ↦
            let name : Name = record { prefix_name = ""; interface_name = "" } in
            let (s', e, written_eq, open_after, config_eq, _) =
              on_deactivate_sent S D stays delivers fuel at name s enough ticking sound.ready
                opened in
            stepped S D clean (suc fuel) event s s' (deactivate_commands D at) true true (rw e refl)
              (record { written_eq = written_eq; config_eq = config_eq }) opened open_after
              (Step.stopped at (deactivate_commands D at) refl)
      ]

  -- An activation whose `Connect` fails.
  failed_open-Step :
      (now : ℕ) (at : ℕ → Clocks) (s : Logging S D)
      → (connect (recorded S) s.kestrel).0 ≡ false
      → (after : Bool) × (S.is_open (connect (recorded S) s.kestrel).1.device.0 ≡ after)
        × Step D clean s.config (activate now at) (line S D s) [] after
  failed_open-Step now at s failed = elim (Bool-cases clean) [
    | inl neat ↦ (
      line S D s,
      connect_failed (recorded S) (recorded-OpensCleanly S (opens neat)) s.kestrel failed,
      Step.unplugged now at (line S D s),
    )
    | inr unclean ↦ elim (Bool-cases (line S D s)) [
      | inl opened ↦ (
        line S D s,
        connect_failed_open (recorded S) s.kestrel opened failed ∙ sym opened,
        Step.unplugged now at (line S D s),
      )
      | inr closed ↦ elim (Bool-cases (S.is_open (connect (recorded S) s.kestrel).1.device.0)) [
        | inl left_open ↦ (true, left_open, rw closed (Step.half_opened now at unclean))
        | inr shut ↦ (false, shut, rw closed (Step.unplugged now at false))
      ]
    ]
  ]

  activate-Stepped :
      (now : ℕ) (at : ℕ → Clocks) (s : Logging S D)
      → ((k : ℕ) → IsTicking (at k).steady)
      → IsSound D s
      → Stepped S D clean (suc fuel) (activate now at) s
  unfolding run_event
  activate-Stepped now at s ticking sound =
      let event : Event F = activate now at in
      let before = line S D s in
      let (x, s', e, activation) =
        on_activate_sent S D stays delivers at fuel enough ticking now s sound.ready in
      let config_eq = activation.0 in
      elim activation.1 [
        | inl (_, same, kestrel_eq, failed) ↦
            let is_open_eq : line S D s' ≡ S.is_open (connect (recorded S) s.kestrel).1.device.0 =
              ap (λ (t : Logged S (Kestrel F)). S.is_open t.device.0) kestrel_eq in
            let (after, is_after, step) = failed_open-Step now at s failed in
            stepped S D clean (suc fuel) event s s' [] before after (rw e refl)
              (Told-nil S D s s' same config_eq) refl (is_open_eq ∙ is_after) step
        | inr (inl (_, written_eq, open_after)) ↦
            let commands = handshake_commands at k_max_attempts 0 in
            stepped S D clean (suc fuel) event s s' commands before true (rw e refl)
              (record { written_eq = written_eq; config_eq = config_eq }) refl open_after
              (Step.unanswered now at before commands refl)
        | inr (inr (n, _, some_n, few, written_eq, open_after)) ↦
            let commands = handshake_commands at n 0 ++ config_commands at s.config in
            stepped S D clean (suc fuel) event s s' commands before true (rw e refl)
              (record { written_eq = written_eq; config_eq = config_eq }) refl open_after
              (Step.agreed now at before n commands some_n few refl)
      ]

  pub run_event-Stepped :
      (event : Event F) (s : Logging S D)
      → IsEqReflexive D
      → IsTimely event
      → IsAllowed s.has_diag_pub event
      → IsSound D s
      → Stepped S D clean (suc fuel) event s
  run_event-Stepped configure s refl_eq timely allowed sound = configure-Stepped s
  run_event-Stepped (activate now at) s refl_eq timely allowed sound =
      activate-Stepped now at s timely sound
  run_event-Stepped (deactivate at) s refl_eq timely allowed sound =
      deactivate-Stepped at s timely sound
  run_event-Stepped cleanup s refl_eq timely allowed sound = cleanup-Stepped s
  run_event-Stepped (read_cycle now steady) s refl_eq timely allowed sound =
      read_cycle-Stepped now steady s sound allowed
  run_event-Stepped (write_cycle w) s refl_eq (ticking1, ticking2) allowed sound =
      write_cycle-Stepped w s refl_eq ticking1 ticking2 sound
