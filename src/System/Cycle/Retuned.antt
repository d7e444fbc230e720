-- ===== src/System/Cycle/Retuned.antt =====
-- The frames of `WriteTuning` of my_diffbot_system.cpp.
use mathlib.Core.Option.{some-injective}
use my_diffbot.Common.{
  ℕ, ◌≡◌, refl, sym, subst, List, [], ◌++◌, map, append-nil, some, Bool-cases, inl, inr,
}
use my_diffbot.Common.Int.{pos, pos_part}
use my_diffbot.Double.{Double}
use my_diffbot.Protocol.MsgId
use my_diffbot.Protocol.Payload.Sent.{set_pid_gains_to_bytes, set_command_timeout_to_bytes}
use my_diffbot.Transport.Serial.{SerialPort}
use my_diffbot.Transport.Read.Received.{DeliversBytes}
use my_diffbot.Transport.Ack.Keeps.{same_result, >>=-eq-some}
use my_diffbot.Transport.Recorded.{recorded, Logged, StaysOpen, Wrote}
use my_diffbot.Kestrel.{Kestrel, on_message_received}
use my_diffbot.Kestrel.Commands.{
  set_pid_gains_payload, set_command_timeout_payload, set_command_timeout,
}
use my_diffbot.Kestrel.Commands.Written.{Command, frame_of, request-Wrote}
use my_diffbot.System.Interfaces.{Name, Values}
use my_diffbot.System.Clamp.{int32_lowest, int32_max, uint16_max, clamp_cast}
use my_diffbot.System.Tuning.{
  Gains, Tuning, Clocks, map_gains, k_runtime_ack_timeout_ms, read_tunings, same_gains, send_gains,
  retune_gains, retune_timeout, write_tuning,
}
use my_diffbot.System.Cycle.{WriteTimes}
use my_diffbot.System.Cycle.Wanted.{gains_commands, timeout_commands}

module _ (S : SerialPort) (D : Double) where
  open D use {F, literal, eq}

  -- After some commands more.
  abbrev pub After : List (List ℕ) → List (Command F) → Logged S (Kestrel F) → Type 0
  After frames commands t = Wrote S (frames ++ map (frame_of D) commands) t

  pub no_commands :
      (frames : List (List ℕ)) (t : Logged S (Kestrel F)) → Wrote S frames t → After frames [] t
  no_commands frames t wrote =
      subst (λ (l : List (List ℕ)). Wrote S l t) (sym (append-nil frames)) wrote

module _ (S : SerialPort) (D : Double) (stays : StaysOpen S) (delivers : DeliversBytes S) where
  open D use {F, literal, eq}

  module _ (fuel : ℕ) where
    retune_gains-Wrote :
        (at : Clocks) (g : Gains F) (c c' : Tuning F) (t u : Logged S (Kestrel F))
        (frames : List (List ℕ))
        → retune_gains (recorded S) D (on_message_received D) fuel at g (c, t) ≡ some (c', u)
        → Wrote S frames t
        → After S D frames (gains_commands D at g c) u
          × (c'.sent_cmd_timeout_ms ≡ c.sent_cmd_timeout_ms)
    unfolding retune_gains
    retune_gains-Wrote at g c c' t u frames e wrote =
        let commands = gains_commands D at g c in
        let Done = λ (r : Tuning F × Logged S (Kestrel F)).
          After S D frames commands r.1 × (r.0.sent_cmd_timeout_ms ≡ c.sent_cmd_timeout_ms) in
        elim (Bool-cases (same_gains D g c.sent_pid_gains)) [
          | inl same ↦
              subst Done (some-injective (c, t) (c', u) (rw same at e))
                (rw same (no_commands S D frames t wrote), refl)
          | inr changed ↦
              let c1 : Tuning F = record c { sent_pid_gains = g } in
              let sent = map_gains (clamp_cast D int32_lowest int32_max) g in
              let payload = set_pid_gains_to_bytes (
                set_pid_gains_payload at.wall sent.kp_l sent.ki_l sent.kd_l sent.kp_r sent.ki_r
                  sent.kd_r) in
              let (r, es, er) =
                >>=-eq-some
                  (send_gains (recorded S) D (on_message_received D) fuel at sent
                    k_runtime_ack_timeout_ms t)
                  (λ r. some (c1, r.1)) (rw changed at e) in
              subst Done (some-injective (c1, r.1) (c', u) er) (
                rw changed (
                    request-Wrote S stays delivers (on_message_received D) at.steady fuel at.wall
                      MsgId.set_pid_gains payload k_runtime_ack_timeout_ms frames t r.1 r.0 es
                      wrote),
                refl,
              )
        ]

    retune_timeout-Wrote :
        (at : Clocks) (x : F) (c c' : Tuning F) (t u : Logged S (Kestrel F))
        (frames : List (List ℕ))
        → retune_timeout (recorded S) D (on_message_received D) fuel at x (c, t) ≡ some (c', u)
        → Wrote S frames t
        → After S D frames (timeout_commands D at x c) u
    unfolding retune_timeout
    retune_timeout-Wrote at x c c' t u frames e wrote =
        let Done = After S D frames (timeout_commands D at x c) in
        elim (Bool-cases (eq x c.sent_cmd_timeout_ms)) [
          | inl same ↦
              same_result Done c c' t u (rw same at e) (rw same (no_commands S D frames t wrote))
          | inr changed ↦
              let c1 : Tuning F = record c { sent_cmd_timeout_ms = x } in
              let timeout_ms = pos_part (clamp_cast D (pos 0) uint16_max x) in
              let payload =
                set_command_timeout_to_bytes (set_command_timeout_payload at.wall timeout_ms) in
              let (r, es, er) =
                >>=-eq-some
                  (set_command_timeout (recorded S) (on_message_received D) at.steady fuel at.wall
                    timeout_ms k_runtime_ack_timeout_ms t)
                  (λ r. some (c1, r.1)) (rw changed at e) in
              same_result Done c1 c' r.1 u er (
                rw changed (
                  request-Wrote S stays delivers (on_message_received D) at.steady fuel at.wall
                    MsgId.set_cmd_timeout payload k_runtime_ack_timeout_ms frames t r.1 r.0 es
                    wrote))
        ]

    pub write_tuning-Wrote :
        (w : WriteTimes F) (names : List Name) (v : Values F) (c c' : Tuning F)
        (t u : Logged S (Kestrel F)) (frames : List (List ℕ))
        → write_tuning
            (recorded S)
            D
            (on_message_received D)
            fuel
            w.at_gains
            w.at_timeout
            names
            v
            (c, t)
          ≡ some (c', u)
        → Wrote S frames t
        → let wanted = read_tunings D names v c in
          Wrote S
            ((frames ++ map (frame_of D) (gains_commands D w.at_gains wanted.sent_pid_gains c))
              ++ map (frame_of D) (timeout_commands D w.at_timeout wanted.sent_cmd_timeout_ms c))
            u
    unfolding write_tuning
    write_tuning-Wrote w names v c c' t u frames e wrote =
        let wanted = read_tunings D names v c in
        let x = wanted.sent_cmd_timeout_ms in
        let gains = gains_commands D w.at_gains wanted.sent_pid_gains c in
        let ((c1, t1), e1, e2) =
          >>=-eq-some
            (retune_gains (recorded S) D (on_message_received D) fuel w.at_gains
              wanted.sent_pid_gains (c, t))
            (retune_timeout (recorded S) D (on_message_received D) fuel w.at_timeout x) e in
        let (after, kept) =
          retune_gains-Wrote w.at_gains wanted.sent_pid_gains c c1 t t1 frames e1 wrote in
        subst
          (λ (old : F).
            Wrote S
              ((frames ++ map (frame_of D) gains)
                ++ map (frame_of D)
                    (timeout_commands D w.at_timeout x (record c { sent_cmd_timeout_ms = old })))
              u)
          kept
          (retune_timeout-Wrote w.at_timeout x c1 c' t1 u (frames ++ map (frame_of D) gains) e2
            after)
