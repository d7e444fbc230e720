-- ===== src/System/Tuning/Settled.antt =====
-- `WriteTuning` of my_diffbot_system.cpp with its sends: it always ends, and sends a change once.
use my_diffbot.Common.{
  ℕ, suc, ◌*◌, ◌≤◌, ◌≡◌, refl, ap, ◌∙◌, List, Option, some, if◌then◌else◌, Bool-cases, inl, inr,
}
use my_diffbot.Common.Int.{pos, pos_part}
use my_diffbot.Double.{Double}
use my_diffbot.Protocol.MsgId
use my_diffbot.Protocol.Payload.Sent.{set_pid_gains_to_bytes, set_command_timeout_to_bytes}
use my_diffbot.Transport.Serial.{SerialPort, Hook}
use my_diffbot.Transport.{Transport}
use my_diffbot.Transport.Read.{◌>>=◌}
use my_diffbot.Transport.Read.Chunks.{IsReady}
use my_diffbot.Transport.Read.Received.{DeliversBytes}
use my_diffbot.Transport.Ack.Ends.{IsTicking}
use my_diffbot.Kestrel.Commands.{set_pid_gains_payload, set_command_timeout_payload}
use my_diffbot.Kestrel.Commands.Answered.{request-Returned}
use my_diffbot.System.Interfaces.{Name, Values}
use my_diffbot.System.Clamp.{uint16_max, clamp_cast}
use my_diffbot.System.Tuning.{
  Gains, Tuning, Clocks, map_gains, to_int32, k_runtime_ack_timeout_ms, read_tunings, same_gains,
  retune_gains, retune_timeout, write_tuning,
}
use my_diffbot.System.Tuning.Finite.{IsEqReflexive, IsFinite}
use my_diffbot.System.Tuning.Once.{
  updated_gains, updated, updated-IsFinite, read_tunings-updated, updated-same,
}

module _ (S : SerialPort) (D : Double) {H : Type 0} (on_message : Hook H) where
  open S use {Device}
  open D use {F, eq}

  -- A call that ended with these values, and with the transport ready for more.
  abbrev pub Ended : Tuning F → Option (Tuning F × Transport Device H) → Type 0
  Ended c r = (t' : Transport Device H) × IsReady t' × (r ≡ some (c, t'))

  module _ (fuel : ℕ) (enough : k_runtime_ack_timeout_ms ≤ 5 * fuel)
      (delivers : DeliversBytes S) where
    retune_gains-Ended :
        (at : Clocks) (g : Gains F) (c : Tuning F) (t : Transport Device H)
        → IsTicking at.steady
        → IsReady t
        → Ended
            (record c {
              sent_pid_gains = if same_gains D g c.sent_pid_gains then c.sent_pid_gains else g;
            })
            (retune_gains S D on_message (suc fuel) at g (c, t))
    unfolding retune_gains
    retune_gains-Ended at g c t ticking ready =
        elim (Bool-cases (same_gains D g c.sent_pid_gains)) [
          | inl same ↦ rw same (t, ready, refl)
          | inr changed ↦
              let sent = map_gains (to_int32 S D on_message (suc fuel)) g in
              let payload = set_pid_gains_to_bytes (
                set_pid_gains_payload at.wall sent.kp_l sent.ki_l sent.kd_l sent.kp_r sent.ki_r
                  sent.kd_r) in
              let (status, t', ready', e) =
                request-Returned S on_message at.steady fuel at.wall MsgId.set_pid_gains payload
                  k_runtime_ack_timeout_ms t ticking delivers ready enough in
              rw (changed, e) (t', ready', refl)
        ]

    retune_timeout-Ended :
        (at : Clocks) (x : F) (c : Tuning F) (t : Transport Device H)
        → IsTicking at.steady
        → IsReady t
        → Ended
            (record c {
              sent_cmd_timeout_ms = if eq x c.sent_cmd_timeout_ms then c.sent_cmd_timeout_ms else x;
            })
            (retune_timeout S D on_message (suc fuel) at x (c, t))
    unfolding retune_timeout
    retune_timeout-Ended at x c t ticking ready = elim (Bool-cases (eq x c.sent_cmd_timeout_ms)) [
      | inl same ↦ rw same (t, ready, refl)
      | inr changed ↦
          let payload =
            set_command_timeout_to_bytes (
              set_command_timeout_payload at.wall (pos_part (clamp_cast D (pos 0) uint16_max x))) in
          let (status, t', ready', e) =
            request-Returned S on_message at.steady fuel at.wall MsgId.set_cmd_timeout payload
              k_runtime_ack_timeout_ms t ticking delivers ready enough in
          rw (changed, e) (t', ready', refl)
    ]

    pub write_tuning-Ended :
        (a1 a2 : Clocks) (names : List Name) (v : Values F) (c : Tuning F) (t : Transport Device H)
        → IsTicking a1.steady
        → IsTicking a2.steady
        → IsReady t
        → Ended (updated D names v c) (write_tuning S D on_message (suc fuel) a1 a2 names v (c, t))
    unfolding write_tuning
    write_tuning-Ended a1 a2 names v c t ticking1 ticking2 ready =
        let w = read_tunings D names v c in
        let (t1, ready1, e1) = retune_gains-Ended a1 w.sent_pid_gains c t ticking1 ready in
        let c1 : Tuning F = record c { sent_pid_gains = updated_gains D names v c } in
        let (t2, ready2, e2) =
          retune_timeout-Ended a2 w.sent_cmd_timeout_ms c1 t1 ticking2 ready1 in
        (
          t2,
          ready2,
          ap
                (λ (r : Option (Tuning F × Transport Device H)).
                  r >>= retune_timeout S D on_message (suc fuel) a2 w.sent_cmd_timeout_ms)
                e1
              ∙ e2,
        )

    -- The values after a call are not sent again.
    pub write_tuning-updated :
        (b1 b2 : Clocks) (names : List Name) (v : Values F) (c : Tuning F) (t : Transport Device H)
        → IsEqReflexive D
        → IsFinite D c
        → write_tuning S D on_message (suc fuel) b1 b2 names v (updated D names v c, t)
          ≡ some (updated D names v c, t)
    unfolding write_tuning retune_gains retune_timeout
    write_tuning-updated b1 b2 names v c t refl_eq h =
        let (gains_same, timeout_same) = updated-same D names v c refl_eq h in
        rw (read_tunings-updated D names v c, gains_same, timeout_same)

    -- If the fuel is above a fifth of the runtime timeout, the device delivers bytes, each round of
    -- a wait of the first call sleeps five milliseconds before the next test, the transport is
    -- ready, a finite `double` equals itself and the values sent before are finite, then a call of
    -- `write_tuning` ends, and leaves the transport ready and the values sent finite. If it is
    -- called again with the same commands, whatever the clocks, it sends nothing and changes
    -- nothing: a change is sent once, acknowledged or not.
    pub write_tuning_once :
        (a1 a2 b1 b2 : Clocks) (names : List Name) (v : Values F) (c : Tuning F)
        (t : Transport Device H)
        → IsEqReflexive D
        → IsFinite D c
        → IsTicking a1.steady
        → IsTicking a2.steady
        → IsReady t
        → (c' : Tuning F) × (t' : Transport Device H) × IsReady t'
          × IsFinite D c'
          × (write_tuning S D on_message (suc fuel) a1 a2 names v (c, t) ≡ some (c', t'))
          × (write_tuning S D on_message (suc fuel) b1 b2 names v (c', t') ≡ some (c', t'))
    write_tuning_once a1 a2 b1 b2 names v c t refl_eq h ticking1 ticking2 ready =
        let (t', ready', e) = write_tuning-Ended a1 a2 names v c t ticking1 ticking2 ready in
        (
          updated D names v c,
          t',
          ready',
          updated-IsFinite D names v c h,
          e,
          write_tuning-updated b1 b2 names v c t' refl_eq h,
        )
