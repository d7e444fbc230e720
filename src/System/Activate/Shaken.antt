-- ===== src/System/Activate/Shaken.antt =====
-- The frames of the handshakes and of the configuration in `on_activate` of my_diffbot_system.cpp.
use mathlib.Core.Option.{some-injective}
use my_diffbot.Common.{
  ℕ, zero, suc, ◌+◌, ◌≤◌, ◌≡◌, ◌⊎◌, refl, sym, ap, subst, arith, List, [], ◌∷◌, ◌++◌, map,
  append-nil, append_assoc, Bool, true, false, some, if◌then◌else◌, ◌==◌, Bool-cases, inl, inr,
}
use my_diffbot.Double.{Double}
use my_diffbot.Protocol.MsgId
use my_diffbot.Protocol.AckStatus
use my_diffbot.Protocol.Payload.Sent.{
  handshake_to_bytes, set_pid_gains_to_bytes, set_command_timeout_to_bytes,
}
use my_diffbot.Transport.Serial.{SerialPort}
use my_diffbot.Transport.Read.{◌>>=◌}
use my_diffbot.Transport.Read.Received.{DeliversBytes}
use my_diffbot.Transport.Ack.Keeps.{>>=-eq-some}
use my_diffbot.Transport.Recorded.{recorded, Logged, StaysOpen, Wrote}
use my_diffbot.Kestrel.{Kestrel, on_message_received}
use my_diffbot.Kestrel.Commands.{
  default_timeout_ms, handshake_payload, set_pid_gains_payload, set_command_timeout_payload,
  handshake, set_command_timeout,
}
use my_diffbot.Kestrel.Commands.Written.{Command, frame_of, request-Wrote}
use my_diffbot.System.Tuning.{Clocks, send_gains}
use my_diffbot.System.Component.{Config}
use my_diffbot.System.Activate.{handshake_attempts, send_config}
use my_diffbot.System.Activate.Wanted.{handshake_commands, config_commands}

module _ (S : SerialPort) (D : Double) (stays : StaysOpen S) (delivers : DeliversBytes S)
    (at : ℕ → Clocks) where
  open D use {F}

  module _ (fuel : ℕ) where
    pub handshake_attempts-Wrote :
        (left attempt : ℕ) (t u : Logged S (Kestrel F)) (b : Bool) (frames : List (List ℕ))
        → handshake_attempts (recorded S) D fuel at left attempt t ≡ some (b, u)
        → Wrote S frames t
        → (n : ℕ) × Wrote S (frames ++ map (frame_of D) (handshake_commands at n attempt)) u
          × (((b ≡ false) × (n ≡ left)) ⊎ ((b ≡ true) × (1 ≤ n) × (n ≤ left)))
    unfolding handshake_attempts
    handshake_attempts-Wrote zero attempt t u b frames e wrote =
        let r = some-injective (false, t) (b, u) e in
        (
          0,
          subst (λ (u : Logged S (Kestrel F)). Wrote S (frames ++ []) u)
              (ap (λ (r : Bool × Logged S (Kestrel F)). r.1) r)
              (subst (λ (l : List (List ℕ)). Wrote S l t) (sym (append-nil frames)) wrote),
          inl (sym (ap (λ (r : Bool × Logged S (Kestrel F)). r.0) r), refl),
        )
    handshake_attempts-Wrote (suc left) attempt t u b frames e wrote =
        let a = at attempt in
        let bytes = handshake_to_bytes (handshake_payload a.wall) in
        let frame = frame_of D (Command.handshake a.wall) in
        let (r, es, er) =
          >>=-eq-some (handshake (recorded S) (on_message_received D) a.steady fuel a.wall t)
            (λ r.
              if r.0 == AckStatus.ok
              then some (true, r.1)
              else handshake_attempts (recorded S) D fuel at left (attempt + 1) r.1)
            e in
        let after =
          request-Wrote S stays delivers (on_message_received D) a.steady fuel a.wall
            MsgId.handshake bytes default_timeout_ms frames t r.1 r.0 es wrote in
        elim (Bool-cases (r.0 == AckStatus.ok)) [
          | inl answered ↦
              let p = some-injective (true, r.1) (b, u) (rw answered at er) in
              (
                1,
                subst (λ (u : Logged S (Kestrel F)). Wrote S (frames ++ (frame ∷ [])) u)
                    (ap (λ (r : Bool × Logged S (Kestrel F)). r.1) p) after,
                inr (
                  sym (ap (λ (r : Bool × Logged S (Kestrel F)). r.0) p),
                  omega arith,
                  omega arith,
                ),
              )
          | inr refused ↦
              let (n, later, count) =
                handshake_attempts-Wrote left (attempt + 1) r.1 u b (frames ++ (frame ∷ []))
                  (rw refused at er) after in
              (
                suc n,
                subst (λ (l : List (List ℕ)). Wrote S l u)
                    (append_assoc frames (frame ∷ [])
                      (map (frame_of D) (handshake_commands at n (attempt + 1))))
                    later,
                elim count [
                  | inl all ↦ inl (all.0, ap suc all.1)
                  | inr some_n ↦ inr (some_n.0, omega arith, omega (arith, some_n.2))
                ],
              )
        ]

    pub send_config-Wrote :
        (c : Config F) (t u : Logged S (Kestrel F)) (frames : List (List ℕ))
        → send_config (recorded S) D fuel at c t ≡ some u
        → Wrote S frames t
        → Wrote S (frames ++ map (frame_of D) (config_commands at c)) u
    unfolding send_config
    send_config-Wrote c t u frames e wrote =
        let a = at 10 in
        let b = at 11 in
        let g = c.gains in
        let gains_frame =
          frame_of D (Command.set_pid_gains a.wall g.kp_l g.ki_l g.kd_l g.kp_r g.ki_r g.kd_r) in
        let timeout_frame = frame_of D (Command.set_command_timeout b.wall c.cmd_timeout_ms) in
        let message = on_message_received D in
        let (r, es, er) =
          >>=-eq-some (send_gains (recorded S) D message fuel a g default_timeout_ms t)
            (λ r.
              set_command_timeout (recorded S) message b.steady fuel b.wall c.cmd_timeout_ms
                default_timeout_ms r.1
              >>= λ q. some q.1)
            e in
        let (q, eq, eu) =
          >>=-eq-some
            (set_command_timeout (recorded S) message b.steady fuel b.wall c.cmd_timeout_ms
              default_timeout_ms r.1)
            (λ q. some q.1) er in
        let after =
          request-Wrote S stays delivers message a.steady fuel a.wall MsgId.set_pid_gains
            (set_pid_gains_to_bytes
              (set_pid_gains_payload a.wall g.kp_l g.ki_l g.kd_l g.kp_r g.ki_r g.kd_r))
            default_timeout_ms frames t r.1 r.0 es wrote in
        let last =
          request-Wrote S stays delivers message b.steady fuel b.wall MsgId.set_cmd_timeout
            (set_command_timeout_to_bytes (set_command_timeout_payload b.wall c.cmd_timeout_ms))
            default_timeout_ms (frames ++ (gains_frame ∷ [])) r.1 q.1 q.0 eq after in
        subst (λ (l : List (List ℕ)). Wrote S l u)
          (append_assoc frames (gains_frame ∷ []) (timeout_frame ∷ []))
          (subst (Wrote S ((frames ++ (gains_frame ∷ [])) ++ (timeout_frame ∷ [])))
            (some-injective q.1 u eu) last)
