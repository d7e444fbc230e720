-- ===== src/System/Cycle/Ends.antt =====
-- `read`, `write`, `on_deactivate` and `on_cleanup` of my_diffbot_system.cpp end.
use my_diffbot.Common.{
  ℕ, suc, ◌*◌, ◌≤◌, ◌≡◌, refl, arith, true, Option, none, some, Bool-cases, inl, inr,
}
use my_diffbot.Double.{Double}
use my_diffbot.Protocol.MsgId
use my_diffbot.Protocol.Payload.Sent.{timestamp_to_bytes}
use my_diffbot.Transport.Serial.{SerialPort}
use my_diffbot.Transport.{Transport}
use my_diffbot.Transport.Read.Chunks.{IsReady}
use my_diffbot.Transport.Read.Received.{DeliversBytes, read-IsReady}
use my_diffbot.Transport.Ack.Ends.{IsTicking}
use my_diffbot.Kestrel.{Kestrel, on_message_received}
use my_diffbot.Kestrel.Commands.{default_timeout_ms, timestamp_payload, set_wheel_velocity}
use my_diffbot.Kestrel.Commands.Answered.{request-Returned}
use my_diffbot.System.Interfaces.{set_commands}
use my_diffbot.System.Drive.{wheel_commands}
use my_diffbot.System.Tuning.{Tuning, Clocks, k_runtime_ack_timeout_ms}
use my_diffbot.System.Tuning.Finite.{IsEqReflexive, IsFinite}
use my_diffbot.System.Tuning.Settled.{write_tuning_once}
use my_diffbot.System.Led.{write_led}
use my_diffbot.System.Component.{CallbackReturn, ReturnType, System}
use my_diffbot.System.Activate.Sound.{IsSound, Ended, shutdown-IsReady}
use my_diffbot.System.Lifecycle.{on_deactivate, on_cleanup}
use my_diffbot.System.Cycle.Ready.{
  set_wheel_velocity-IsReady, write_wheels-IsReady, write_led-IsReady,
}
use my_diffbot.System.Cycle.Published.{publish-eq}
use my_diffbot.System.Cycle.{WriteTimes, after_read, after_tuning, read, write}

module _ (S : SerialPort) (D : Double) (delivers : DeliversBytes S) where
  open S use {Device, is_open}
  open D use {F, literal}

  pub read-Ended :
      (now steady : ℕ) (s : System Device F)
      → IsSound D s
      → s.has_diag_pub ≡ true
      → (status : ReturnType) × (diag : Option my_diffbot.System.Imu.DiagnosticStatus)
        × (s' : System Device F) × IsSound D s'
        × (read S D now steady s ≡ some (status, diag, s'))
  unfolding read
  read-Ended now steady s sound published = elim (Bool-cases (is_open s.kestrel.device)) [
    | inr closed ↦ rw closed (ReturnType.error, none, s, sound, refl)
    | inl opened ↦
        let (t, e, ready) =
          read-IsReady S (on_message_received D) steady s.kestrel delivers sound.ready in
        let (diag, s') = after_read S D now t s in
        rw (opened, e)
          (
            ReturnType.ok,
            diag,
            s',
            unfold after_read in record { ready = ready; sent = sound.sent; config = sound.config },
            publish-eq S D diag s' (unfold after_read in published),
          )
  ]

  pub on_cleanup-IsSound : (s : System Device F) → IsSound D s → IsSound D (on_cleanup S D s).1
  unfolding on_cleanup
  on_cleanup-IsSound s sound = record {
    ready = shutdown-IsReady S s.kestrel;
    sent = sound.sent;
    config = sound.config;
  }

  after_tuning-IsSound :
      (w : WriteTimes F) (c : Tuning F) (t : Transport Device (Kestrel F)) (s : System Device F)
      → IsReady t
      → IsFinite D c
      → IsSound D s
      → IsSound D (after_tuning S D w (c, t) s)
  unfolding after_tuning
  after_tuning-IsSound w c t s ready finite sound =
      let names = s.interfaces in
      let lit = write_led S D w.now w.wall_led w.t_sec names.gpio_commands s.values (s.led, t) in
      let cmds = wheel_commands names.joint_commands s.values (literal 0 0, literal 0 0) in
      let lit_ready =
        write_led-IsReady S D w.now w.wall_led w.t_sec names.gpio_commands s.values s.led t ready in
      record {
        ready = write_wheels-IsReady S D w.now w.wall_wheels cmds s.drive lit.1 lit_ready;
        sent = finite;
        config = sound.config;
      }

  module _ (fuel : ℕ) (enough : default_timeout_ms ≤ 5 * fuel) where
    pub on_deactivate-Ended :
        (at : ℕ → Clocks) (s : System Device F)
        → ((k : ℕ) → IsTicking (at k).steady)
        → IsSound D s
        → Ended D (on_deactivate S D (suc fuel) at s)
    unfolding on_deactivate
    on_deactivate-Ended at s ticking sound =
        let stopped = set_wheel_velocity S (at 0).wall D (literal 0 0) (literal 0 0) s.kestrel in
        let a = at 1 in
        let b = at 2 in
        let (status, t1, ready1, e1) =
          request-Returned S (on_message_received D) a.steady fuel a.wall MsgId.deactivate
            (timestamp_to_bytes (timestamp_payload a.wall)) default_timeout_ms stopped.1 (ticking 1)
            delivers
            (set_wheel_velocity-IsReady S (at 0).wall D (literal 0 0) (literal 0 0) s.kestrel
              sound.ready)
            enough in
        let (status', t2, ready2, e2) =
          request-Returned S (on_message_received D) b.steady fuel b.wall MsgId.reset
            (timestamp_to_bytes (timestamp_payload b.wall)) default_timeout_ms t1 (ticking 2)
            delivers ready1 enough in
        let zeroed = set_commands s.interfaces.gpio_commands (literal 0 0) s.values in
        rw (e1, e2)
          (
            CallbackReturn.success,
            record s { values = zeroed; kestrel = t2 },
            record { ready = ready2; sent = sound.sent; config = sound.config },
            refl,
          )

    pub write-Ended :
        (w : WriteTimes F) (s : System Device F)
        → IsEqReflexive D
        → IsTicking w.at_gains.steady
        → IsTicking w.at_timeout.steady
        → IsSound D s
        → Ended D (write S D (suc fuel) w s)
    unfolding write
    write-Ended w s refl_eq ticking1 ticking2 sound = elim (Bool-cases (is_open s.kestrel.device)) [
      | inr closed ↦ rw closed (ReturnType.error, s, sound, refl)
      | inl opened ↦
          let names = s.interfaces.gpio_commands in
          let short : k_runtime_ack_timeout_ms ≤ 5 * fuel = omega (arith, enough) in
          let (c, t, ready, finite, e, again) =
            write_tuning_once S D (on_message_received D) fuel short delivers w.at_gains
              w.at_timeout w.at_gains w.at_timeout names s.values s.tuning s.kestrel refl_eq
              sound.sent ticking1 ticking2 sound.ready in
          rw (opened, e)
            (
              ReturnType.ok,
              after_tuning S D w (c, t) s,
              after_tuning-IsSound w c t s ready finite sound,
              refl,
            )
    ]
