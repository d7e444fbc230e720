-- ===== src/System/Activate/Ends.antt =====
-- `on_activate` of my_diffbot_system.cpp ends, at once or after ten handshakes, and what it leaves.
use my_diffbot.Common.{
  ℕ, zero, suc, ◌+◌, ◌*◌, ◌≤◌, ◌≡◌, ◌⊎◌, inl, inr, refl, sym, subst, Bool, true, false, Option,
  some, ◌==◌, Bool-cases,
}
use my_diffbot.Double.{Double}
use my_diffbot.Protocol.MsgId
use my_diffbot.Protocol.AckStatus
use my_diffbot.Protocol.AckStatus.{AckStatus}
use my_diffbot.Protocol.Payload.Sent.{
  handshake_to_bytes, set_pid_gains_to_bytes, set_command_timeout_to_bytes,
}
use my_diffbot.Transport.Serial.{SerialPort}
use my_diffbot.Transport.{Transport}
use my_diffbot.Transport.Session.{connect}
use my_diffbot.Transport.Session.Opening.{connect-true}
use my_diffbot.Transport.Read.Chunks.{IsReady}
use my_diffbot.Transport.Read.Received.{DeliversBytes}
use my_diffbot.Transport.Ack.Ends.{IsTicking}
use my_diffbot.Kestrel.{Kestrel, on_message_received}
use my_diffbot.Kestrel.Commands.{
  default_timeout_ms, handshake_payload, set_pid_gains_payload, set_command_timeout_payload,
}
use my_diffbot.Kestrel.Commands.Answered.{request-Returned}
use my_diffbot.System.Tuning.{Clocks, write_tuning}
use my_diffbot.System.Tuning.Finite.{IsEqReflexive}
use my_diffbot.System.Component.{CallbackReturn, Config, System}
use my_diffbot.System.Activate.{
  k_max_attempts, copy_states, tuning_seeds, seed_commands, restart, sent_tuning,
  handshake_attempts, handshake_with_retry, send_config, activated, on_activate,
}
use my_diffbot.System.Activate.Sound.{IsSound, device-IsReady}
use my_diffbot.System.Activate.Seeded.{write_tuning-seed_commands}

module _ (S : SerialPort) (D : Double) (fuel : ℕ) where
  open S use {Device}
  open D use {F}

  module _ (enough : default_timeout_ms ≤ 5 * fuel) (delivers : DeliversBytes S) (at : ℕ → Clocks)
      (ticking : (k : ℕ) → IsTicking (at k).steady) where
    pub handshake_attempts-Ended :
        (left attempt : ℕ) (t : Transport Device (Kestrel F))
        → IsReady t
        → (b : Bool) × (t' : Transport Device (Kestrel F)) × IsReady t'
          × (handshake_attempts S D (suc fuel) at left attempt t ≡ some (b, t'))
    unfolding handshake_attempts
    handshake_attempts-Ended zero attempt t ready = (false, t, ready, refl)
    handshake_attempts-Ended (suc left) attempt t ready =
        let a = at attempt in
        let (status, t', ready', e) =
          request-Returned S (on_message_received D) a.steady fuel a.wall MsgId.handshake
            (handshake_to_bytes (handshake_payload a.wall)) default_timeout_ms t (ticking attempt)
            delivers ready enough in
        elim (Bool-cases (status == AckStatus.ok)) [
          | inl ok ↦ rw (e, ok) (true, t', ready', refl)
          | inr other ↦ rw (e, other) (handshake_attempts-Ended left (attempt + 1) t' ready')
        ]

    pub send_config-Ended :
        (c : Config F) (t : Transport Device (Kestrel F))
        → IsReady t
        → (t' : Transport Device (Kestrel F)) × IsReady t'
          × (send_config S D (suc fuel) at c t ≡ some t')
    unfolding send_config
    send_config-Ended c t ready =
        let a = at 10 in
        let b = at 11 in
        let g = c.gains in
        let (status, t1, ready1, e1) =
          request-Returned S (on_message_received D) a.steady fuel a.wall MsgId.set_pid_gains
            (set_pid_gains_to_bytes
              (set_pid_gains_payload a.wall g.kp_l g.ki_l g.kd_l g.kp_r g.ki_r g.kd_r))
            default_timeout_ms t (ticking 10) delivers ready enough in
        let (status', t2, ready2, e2) =
          request-Returned S (on_message_received D) b.steady fuel b.wall MsgId.set_cmd_timeout
            (set_command_timeout_to_bytes (set_command_timeout_payload b.wall c.cmd_timeout_ms))
            default_timeout_ms t1 (ticking 11) delivers ready1 enough in
        rw (e1, e2) (t2, ready2, refl)

    -- What a call of `on_activate` leaves: a failure, or an activation.
    abbrev Activated :
        ℕ → Clocks → Clocks → System Device F → Option (CallbackReturn × System Device F) → Type 0
    Activated now a1 a2 s r =
        (s' : System Device F) × IsSound D s'
        × ((r ≡ some (CallbackReturn.failure, s'))
            ⊎ ((r ≡ some (CallbackReturn.success, s'))
                × (s'.tuning ≡ sent_tuning D s.config)
                × (s'.wheels.ticks_init ≡ false)
                × (s'.drive.last_active_time ≡ now)
                × (write_tuning S D (on_message_received D) (suc fuel) a1 a2
                      s'.interfaces.gpio_commands s'.values (s'.tuning, s'.kestrel)
                    ≡ some (s'.tuning, s'.kestrel))))

    activated-Activated :
        (now : ℕ) (a1 a2 : Clocks) (s : System Device F)
        → IsEqReflexive D
        → IsSound D s
        → Activated now a1 a2 s (activated S D (suc fuel) now at s)
    unfolding activated
    activated-Activated now a1 a2 s refl_eq sound =
        let (t, ready, e) = send_config-Ended s.config s.kestrel sound.ready in
        let tuning = sent_tuning D s.config in
        let names = s.interfaces.gpio_commands in
        let s' : System Device F = record (restart D now s) {
          kestrel = t;
          tuning = tuning;
          values = seed_commands (tuning_seeds tuning) names s.values;
        } in
        (
          s',
          record { ready = ready; sent = sound.config; config = sound.config },
          inr (
            rw e refl,
            refl,
            refl,
            refl,
            write_tuning-seed_commands S D (on_message_received D) (suc fuel) a1 a2 names s.values
                tuning t refl_eq sound.config,
          ),
        )

    -- If the fuel is above a fifth of the default timeout, the device delivers bytes, each round of
    -- a wait sleeps five milliseconds before the next test and a finite `double` equals itself,
    -- then `on_activate` ends, from a sound state, and leaves a sound one. It reports a failure; or
    -- it succeeds, counts the configured gains and timeout as sent, forgets the ticks of before and
    -- starts the grace of a stop, and the next `write_tuning` sends nothing.
    pub on_activate_lem :
        (now : ℕ) (a1 a2 : Clocks) (s : System Device F)
        → IsEqReflexive D
        → IsSound D s
        → Activated now a1 a2 s (on_activate S D (suc fuel) now at s)
    unfolding on_activate handshake_with_retry
    on_activate_lem now a1 a2 s refl_eq sound =
        let (connected, t) = connect S s.kestrel in
        let copied = copy_states s.interfaces.joint_commands s.values in
        let same = (connect-true S s.kestrel).1 in
        let ready : IsReady t =
          subst IsReady (sym same) (device-IsReady S t.device s.kestrel sound.ready) in
        elim (Bool-cases connected) [
          | inr failed ↦ rw failed (
            record s { values = copied; kestrel = t },
            record { ready = ready; sent = sound.sent; config = sound.config },
            inl refl,
          )
          | inl done ↦
              let (shook, t', ready', e) = handshake_attempts-Ended k_max_attempts 0 t ready in
              let s1 : System Device F = record s { values = copied; kestrel = t' } in
              let sound1 : IsSound D s1 = record {
                ready = ready';
                sent = sound.sent;
                config = sound.config;
              } in
              elim (Bool-cases shook) [
                | inr refused ↦ rw (done, e, refused) (s1, sound1, inl refl)
                | inl agreed ↦
                    rw (done, e, agreed) (activated-Activated now a1 a2 s1 refl_eq sound1)
              ]
        ]
