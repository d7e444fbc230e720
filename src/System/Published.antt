-- ===== src/System/Published.antt =====
-- The publisher of the diagnostics in `on_activate` and `on_deactivate` of my_diffbot_system.cpp.
use my_diffbot.Common.{ℕ, ◌≡◌, refl, not, Bool-cases, if◌then◌else◌, some, inl, inr}
use my_diffbot.Double.{Double}
use my_diffbot.Transport.Serial.{SerialPort}
use my_diffbot.Transport.Read.{◌>>=◌}
use my_diffbot.Transport.Session.{connect}
use my_diffbot.Transport.Ack.Keeps.{same_result, >>=-eq-some}
use my_diffbot.Kestrel.{on_message_received}
use my_diffbot.Kestrel.Commands.{set_wheel_velocity, deactivate, reset}
use my_diffbot.System.Interfaces.{set_commands}
use my_diffbot.System.Tuning.{Clocks}
use my_diffbot.System.Component.{CallbackReturn, System}
use my_diffbot.System.Activate.{
  copy_states, handshake_with_retry, send_config, activated, on_activate,
}
use my_diffbot.System.Lifecycle.{on_deactivate}
use my_diffbot.System.Cycle.Published.{Kept}

module _ (S : SerialPort) (D : Double) (fuel : ℕ) where
  open S use {Device}
  open D use {F, literal}

  pub on_deactivate-Kept :
      (at : ℕ → Clocks) (s s' : System Device F) (x : CallbackReturn)
      → on_deactivate S D fuel at s ≡ some (x, s')
      → Kept S D s s'
  unfolding on_deactivate
  on_deactivate-Kept at s s' x e =
      let zeroed = set_commands s.interfaces.gpio_commands (literal 0 0) s.values in
      let stopped = set_wheel_velocity S (at 0).wall D (literal 0 0) (literal 0 0) s.kestrel in
      let (r, _, e1) =
        >>=-eq-some (deactivate S (on_message_received D) (at 1).steady fuel (at 1).wall stopped.1)
          (λ r. reset S (on_message_received D) (at 2).steady fuel (at 2).wall r.1 >>= λ q.
            some (CallbackReturn.success, record s { values = zeroed; kestrel = q.1 }))
          e in
      let (q, _, e2) =
        >>=-eq-some (reset S (on_message_received D) (at 2).steady fuel (at 2).wall r.1)
          (λ q. some (CallbackReturn.success, record s { values = zeroed; kestrel = q.1 })) e1 in
      same_result (Kept S D s) CallbackReturn.success x
        (record s { values = zeroed; kestrel = q.1 }) s' e2 refl

  activated-Kept :
      (now : ℕ) (at : ℕ → Clocks) (s s' : System Device F) (x : CallbackReturn)
      → activated S D fuel now at s ≡ some (x, s')
      → Kept S D s s'
  unfolding activated
  activated-Kept now at s s' x e =
      let (t, _, e1) = >>=-eq-some (send_config S D fuel at s.config s.kestrel) _ e in
      same_result (Kept S D s) CallbackReturn.success x _ s' e1 refl

  pub on_activate-Kept :
      (now : ℕ) (at : ℕ → Clocks) (s s' : System Device F) (x : CallbackReturn)
      → on_activate S D fuel now at s ≡ some (x, s')
      → Kept S D s s'
  unfolding on_activate
  on_activate-Kept now at s s' x e =
      let copied = copy_states s.interfaces.joint_commands s.values in
      let (connected, t) = connect S s.kestrel in
      let s1 : System Device F = record s { values = copied; kestrel = t } in
      elim (Bool-cases (connect S s.kestrel).0) [
        | inr failed ↦ same_result (Kept S D s) CallbackReturn.failure x s1 s' (rw failed at e) refl
        | inl opened ↦
            let (r, _, e1) =
              >>=-eq-some (handshake_with_retry S D fuel at t)
                (λ r.
                  if not r.0
                  then some (CallbackReturn.failure, record s1 { kestrel = r.1 })
                  else activated S D fuel now at (record s1 { kestrel = r.1 }))
                (rw opened at e) in
            elim (Bool-cases r.0) [
              | inr refused ↦
                  same_result (Kept S D s) CallbackReturn.failure x (record s1 { kestrel = r.1 }) s'
                    (rw refused at e1) refl
              | inl shaken ↦
                  activated-Kept now at (record s1 { kestrel = r.1 }) s' x (rw shaken at e1)
            ]
      ]
