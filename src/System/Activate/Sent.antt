-- ===== src/System/Activate/Sent.antt =====
-- The frames of one call of `on_activate` of my_diffbot_system.cpp.
use mathlib.Core.List.{map-append}
use my_diffbot.Common.{
  if◌then◌else◌, not, ℕ, suc, ◌*◌, ◌≤◌, ◌≡◌, ◌⊎◌, refl, sym, ap, subst, ◌∙◌, arith, List, ◌++◌, map,
  append_assoc, true, false, some, Bool-cases, inl, inr,
}
use my_diffbot.Double.{Double}
use my_diffbot.Transport.Serial.{SerialPort}
use my_diffbot.Transport.Session.{connect}
use my_diffbot.Transport.Read.{◌>>=◌}
use my_diffbot.Transport.Session.Opening.{connect-true}
use my_diffbot.Transport.Read.Chunks.{IsReady}
use my_diffbot.Transport.Read.Received.{DeliversBytes}
use my_diffbot.Transport.Ack.Ends.{IsTicking}
use my_diffbot.Transport.Recorded.{
  recorded, Logged, StaysOpen, Wrote, written, recorded-DeliversBytes,
}
use my_diffbot.Kestrel.{Kestrel}
use my_diffbot.Kestrel.Commands.{default_timeout_ms}
use my_diffbot.Kestrel.Commands.Written.{frame_of}
use my_diffbot.System.Tuning.{Clocks}
use my_diffbot.System.Component.{CallbackReturn, System}
use my_diffbot.System.Activate.{
  k_max_attempts, copy_states, handshake_with_retry, activated, on_activate,
}
use my_diffbot.System.Activate.Sound.{device-IsReady}
use my_diffbot.System.Activate.Ends.{handshake_attempts-Ended, send_config-Ended}
use my_diffbot.System.Activate.Wanted.{handshake_commands, config_commands}
use my_diffbot.System.Activate.Shaken.{handshake_attempts-Wrote, send_config-Wrote}

module _ (S : SerialPort) (D : Double) (at : ℕ → Clocks) where
  open D use {F}

  connect-written : (t : Logged S (Kestrel F)) → written S (connect (recorded S) t).1 ≡ written S t
  unfolding connect
  connect-written t = ground arith

  -- From the handshake on, what was sent and how it ended: ten handshakes, and a failure; or up to
  -- ten handshakes, the gains and the timeout, and a success.
  abbrev pub Greeted :
      System (S.Device × List (List ℕ)) F
      → CallbackReturn
      → System (S.Device × List (List ℕ)) F
      → Type 0
  Greeted s x s' =
      ((x ≡ CallbackReturn.failure)
        × (written S s'.kestrel
            ≡ written S s.kestrel ++ map (frame_of D) (handshake_commands at k_max_attempts 0))
        × (S.is_open s'.kestrel.device.0 ≡ true))
      ⊎ ((n : ℕ) × (x ≡ CallbackReturn.success)
          × (1 ≤ n)
          × (n ≤ k_max_attempts)
          × (written S s'.kestrel
              ≡ written S s.kestrel
                ++ map (frame_of D) (handshake_commands at n 0 ++ config_commands at s.config))
          × (S.is_open s'.kestrel.device.0 ≡ true))

  -- The whole call: nothing was sent, and a failure; or the above.
  abbrev pub Activation :
      System (S.Device × List (List ℕ)) F
      → CallbackReturn
      → System (S.Device × List (List ℕ)) F
      → Type 0
  Activation s x s' =
      (s'.config ≡ s.config)
      × (((x ≡ CallbackReturn.failure)
            × (written S s'.kestrel ≡ written S s.kestrel)
            × (s'.kestrel ≡ (connect (recorded S) s.kestrel).1)
            × ((connect (recorded S) s.kestrel).0 ≡ false))
          ⊎ Greeted s x s')

  Greeted-written :
      (s s1 : System (S.Device × List (List ℕ)) F) (x : CallbackReturn)
      (s' : System (S.Device × List (List ℕ)) F)
      → written S s1.kestrel ≡ written S s.kestrel
      → s1.config ≡ s.config
      → Greeted s1 x s'
      → Greeted s x s'
  Greeted-written s s1 x s' same config_eq ended = rw (same, config_eq) at ended

module _ (S : SerialPort) (D : Double) (stays : StaysOpen S) (delivers : DeliversBytes S)
    (at : ℕ → Clocks) where
  open D use {F}

  module _ (fuel : ℕ) (enough : default_timeout_ms ≤ 5 * fuel)
      (ticking : (k : ℕ) → IsTicking (at k).steady) where
    activated-Activation :
        (now : ℕ) (s : System (S.Device × List (List ℕ)) F) (frames : List (List ℕ))
        → Wrote S frames s.kestrel
        → (s' : System (S.Device × List (List ℕ)) F) × (activated (recorded S) D (suc fuel) now at s
            ≡ some (CallbackReturn.success, s'))
          × (written S s'.kestrel ≡ frames ++ map (frame_of D) (config_commands at s.config))
          × (S.is_open s'.kestrel.device.0 ≡ true)
          × (s'.config ≡ s.config)
    unfolding activated
    activated-Activation now s frames wrote =
        let (t, ready, e) =
          send_config-Ended (recorded S) D fuel enough (recorded-DeliversBytes S delivers) at
            ticking s.config s.kestrel wrote.ready in
        let after =
          send_config-Wrote S D stays delivers at (suc fuel) s.config s.kestrel t frames e wrote in
        rw e (_, refl, after.frames_eq, after.opened, refl)

    handshake_with_retry-Greeted :
        (now : ℕ) (s : System (S.Device × List (List ℕ)) F)
        → Wrote S (written S s.kestrel) s.kestrel
        → (x : CallbackReturn) × (s' : System (S.Device × List (List ℕ)) F) × ((handshake_with_retry
                (recorded S)
                D
                (suc fuel)
                at
                s.kestrel
              >>= λ r.
                  if not r.0
                  then some (CallbackReturn.failure, record s { kestrel = r.1 })
                  else activated (recorded S) D (suc fuel) now at (record s { kestrel = r.1 }))
            ≡ some (x, s'))
          × (s'.config ≡ s.config)
          × Greeted S D at s x s'
    unfolding handshake_with_retry
    handshake_with_retry-Greeted now s wrote =
        let frames = written S s.kestrel in
        let (shook, u, ready, e) =
          handshake_attempts-Ended (recorded S) D fuel enough (recorded-DeliversBytes S delivers) at
            ticking k_max_attempts 0 s.kestrel wrote.ready in
        let (n, after, count) =
          handshake_attempts-Wrote S D stays delivers at (suc fuel) k_max_attempts 0 s.kestrel u
            shook frames e wrote in
        let s1 : System (S.Device × List (List ℕ)) F = record s { kestrel = u } in
        elim count [
          | inl (refused, all) ↦
              rw (e, refused)
                (
                  CallbackReturn.failure,
                  s1,
                  refl,
                  refl,
                  inl (refl, rw all at after.frames_eq, after.opened),
                )
          | inr (agreed, some_n, few) ↦
              let shaken = map (frame_of D) (handshake_commands at n 0) in
              let (s', e', sent, open_after, config_eq) =
                activated-Activation now s1 (frames ++ shaken) after in
              rw (e, agreed)
                (
                  CallbackReturn.success,
                  s',
                  e',
                  config_eq,
                  inr (
                    n,
                    refl,
                    some_n,
                    few,
                    sent
                        ∙ append_assoc frames shaken
                            (map (frame_of D) (config_commands at s.config))
                        ∙ ap (◌++◌ frames) (
                            sym (
                              map-append (frame_of D) (handshake_commands at n 0)
                                (config_commands at s.config))),
                    open_after,
                  ),
                )
        ]

    -- If neither reading nor writing closes the port, the device delivers bytes, each round of a
    -- wait sleeps five milliseconds before the next test and the fuel is above a fifth of the
    -- default timeout, then `on_activate` from a state whose transport is ready ends in one of
    -- three ways: it fails before anything is sent, since `Connect` fails; it fails after exactly
    -- ten handshakes; or it succeeds after one to ten handshakes, followed by the configured gains
    -- and the configured timeout. It sends nothing else, and after a handshake the port is still
    -- open. The configuration is not changed.
    pub on_activate_sent :
        (now : ℕ) (s : System (S.Device × List (List ℕ)) F)
        → IsReady s.kestrel
        → (x : CallbackReturn) × (s' : System (S.Device × List (List ℕ)) F) × (on_activate
              (recorded S)
              D
              (suc fuel)
              now
              at
              s
            ≡ some (x, s'))
          × Activation S D at s x s'
    unfolding on_activate
    on_activate_sent now s ready =
        let (connected, t) = connect (recorded S) s.kestrel in
        let s1 : System (S.Device × List (List ℕ)) F = record s {
          values = copy_states s.interfaces.joint_commands s.values;
          kestrel = t;
        } in
        let (outcome, same) = connect-true (recorded S) s.kestrel in
        let kept = connect-written S D at s.kestrel in
        elim (Bool-cases connected) [
          | inr failed ↦
              rw failed (CallbackReturn.failure, s1, refl, (refl, inl (refl, kept, refl, refl)))
          | inl done ↦
              let opened : S.is_open t.device.0 ≡ true = elim outcome [
                | inl failed ↦ absurd (cc)
                | inr (configured, is_open) ↦ is_open
              ] in
              let ready' : IsReady t =
                subst IsReady (sym same) (device-IsReady (recorded S) t.device s.kestrel ready) in
              let (x, s', e, config_eq, ended) =
                handshake_with_retry-Greeted now s1
                  (record { ready = ready'; opened = opened; frames_eq = refl }) in
              rw done
                (x, s', e, (config_eq, inr (Greeted-written S D at s s1 x s' kept refl ended)))
        ]
