-- ===== src/System/Runs/Line.antt =====
-- The line to the board under the callbacks of my_diffbot_system.cpp, as a specification: it is open
-- or closed, and each call gives some commands to it.
use my_diffbot.Common.{
  ℕ, ◌≤◌, ◌≡◌, ◌⊎◌, refl, sym, ap, subst, ◌∙◌, arith, List, [], ◌∷◌, ◌++◌, Bool, true, false,
  Option, none, some, inl, inr, zero, suc,
}
use my_diffbot.Common.Int.{ℤ}
use my_diffbot.Double.{Double}
use my_diffbot.Protocol.Led.{LedOutput}
use my_diffbot.Kestrel.Commands.Written.{Command}
use my_diffbot.System.Tuning.{Clocks, Gains}
use my_diffbot.System.Component.{Config}
use my_diffbot.System.Cycle.{WriteTimes}
use my_diffbot.System.Activate.{k_max_attempts}
use my_diffbot.System.Activate.Wanted.{handshake_commands, config_commands}
use my_diffbot.System.Lifecycle.Sent.{deactivate_commands}
use my_diffbot.System.Runs.{
  Event, configure, activate, deactivate, cleanup, read_cycle, write_cycle,
}

module _ {F : Type 0} where
  -- At most one command of each kind, in the order of `write`.
  abbrev pub gains_sent : ℕ → Option (Gains ℤ) → List (Command F)
  gains_sent wall none = []
  gains_sent wall (some g) =
      Command.set_pid_gains wall g.kp_l g.ki_l g.kd_l g.kp_r g.ki_r g.kd_r ∷ []

  abbrev pub timeout_sent : ℕ → Option ℕ → List (Command F)
  timeout_sent wall none = []
  timeout_sent wall (some timeout_ms) = Command.set_command_timeout wall timeout_ms ∷ []

  abbrev pub led_sent : ℕ → Option LedOutput → List (Command F)
  led_sent wall none = []
  led_sent wall (some led) = Command.rgb_led wall led ∷ []

  abbrev pub velocity_sent : ℕ → Option (F × F) → List (Command F)
  velocity_sent wall none = []
  velocity_sent wall (some (left, right)) = Command.wheel_velocity wall left right ∷ []

-- One call: whether the line is open before it, the commands, and whether it is open after it;
-- `config` is the configuration of the plugin, and `clean` says that a `Connect` that fails leaves
-- the line as it was.
pub data Step (D : Double) (clean : Bool) (config : Config D.F)
    : Event D.F → Bool → List (Command D.F) → Bool → Type 0 where
  set_up : (line : Bool) → Step D clean config configure line [] line
  looked : (now steady : ℕ) (line : Bool) → Step D clean config (read_cycle now steady) line [] line
  closed_down : (line : Bool) → Step D clean config cleanup line [] false
  missed : (w : WriteTimes D.F) → Step D clean config (write_cycle w) false [] false
  drove :
      (w : WriteTimes D.F) (gains : Option (Gains ℤ)) (timeout : Option ℕ) (led : Option LedOutput)
      (velocity : Option (D.F × D.F)) (commands : List (Command D.F))
      → commands
        ≡ gains_sent w.at_gains.wall gains
          ++ (timeout_sent w.at_timeout.wall timeout
              ++ (led_sent w.wall_led led ++ velocity_sent w.wall_wheels velocity))
      → Step D clean config (write_cycle w) true commands true
  unheard : (at : ℕ → Clocks) → Step D clean config (deactivate at) false [] false
  stopped :
      (at : ℕ → Clocks) (commands : List (Command D.F))
      → commands ≡ deactivate_commands D at
      → Step D clean config (deactivate at) true commands true
  unplugged :
      (now : ℕ) (at : ℕ → Clocks) (line : Bool) → Step D clean config (activate now at) line [] line
  half_opened :
      (now : ℕ) (at : ℕ → Clocks)
      → clean ≡ false
      → Step D clean config (activate now at) false [] true
  unanswered :
      (now : ℕ) (at : ℕ → Clocks) (line : Bool) (commands : List (Command D.F))
      → commands ≡ handshake_commands at k_max_attempts 0
      → Step D clean config (activate now at) line commands true
  agreed :
      (now : ℕ) (at : ℕ → Clocks) (line : Bool) (n : ℕ) (commands : List (Command D.F))
      → 1 ≤ n
      → n ≤ k_max_attempts
      → commands ≡ handshake_commands at n 0 ++ config_commands at config
      → Step D clean config (activate now at) line commands true

-- Some calls, one after the other.
pub data Session (D : Double) (clean : Bool) (config : Config D.F)
    : List (Event D.F) → Bool → List (Command D.F) → Bool → Type 0 where
  over : (line : Bool) → Session D clean config [] line [] line
  next :
      (event : Event D.F) (events : List (Event D.F)) (line line1 line2 : Bool)
      (now later commands : List (Command D.F))
      → Step D clean config event line now line1
      → Session D clean config events line1 later line2
      → commands ≡ now ++ later
      → Session D clean config (event ∷ events) line commands line2

module _ {F : Type 0} where
  abbrev pub IsShaken : List (Command F) → Type 0
  IsShaken commands =
      (wall : ℕ) × (rest : List (Command F)) × (commands ≡ Command.handshake wall ∷ rest)

  handshakes-IsShaken :
      (at : ℕ → Clocks) (n : ℕ) (rest commands : List (Command F))
      → 1 ≤ n
      → commands ≡ handshake_commands at n 0 ++ rest
      → IsShaken commands
  handshakes-IsShaken at zero rest commands some_n e = absurd (omega (arith, some_n))
  handshakes-IsShaken at (suc n) rest commands some_n e = ((at 0).wall, _, e)

module _ (D : Double) (config : Config D.F) where
  -- A call on a closed line.
  Step-IsShaken :
      (event : Event D.F) (line line' : Bool) (commands : List (Command D.F))
      → Step D true config event line commands line'
      → line ≡ false
      → ((commands ≡ []) × (line' ≡ false)) ⊎ IsShaken commands
  Step-IsShaken _ _ _ _ (set_up line) closed = inl (refl, closed)
  Step-IsShaken _ _ _ _ (looked now steady line) closed = inl (refl, closed)
  Step-IsShaken _ _ _ _ (closed_down line) closed = inl (refl, refl)
  Step-IsShaken _ _ _ _ (missed w) closed = inl (refl, refl)
  Step-IsShaken _ _ _ _ (drove w gains timeout led velocity commands e) closed = (cc)
  Step-IsShaken _ _ _ _ (unheard at) closed = inl (refl, refl)
  Step-IsShaken _ _ _ _ (stopped at commands e) closed = (cc)
  Step-IsShaken _ _ _ _ (unplugged now at line) closed = inl (refl, closed)
  Step-IsShaken _ _ _ _ (half_opened now at unclean) closed = absurd (cc)
  Step-IsShaken _ _ _ _ (unanswered now at line commands e) closed = inr ((at 0).wall, _, e)
  Step-IsShaken _ _ _ _ (agreed now at line n commands some_n few e) closed =
      inr (handshakes-IsShaken at n (config_commands at config) commands some_n e)

  -- In a clean session from a closed line nothing is sent before a handshake.
  pub Session-IsShaken :
      (events : List (Event D.F)) (line line' : Bool) (commands : List (Command D.F))
      → Session D true config events line commands line'
      → line ≡ false
      → (commands ≡ []) ⊎ IsShaken commands
  Session-IsShaken _ _ _ _ (over line) closed = inl refl
  Session-IsShaken _ _ _ _ (next event events line line1 line2 now later commands step session e)
        closed =
      elim (Step-IsShaken event line line1 now step closed) [
        | inl (none_now, still) ↦
            subst (λ (l : List (Command D.F)). (l ≡ []) ⊎ IsShaken l)
              (sym (e ∙ ap (λ (l : List (Command D.F)). l ++ later) none_now))
              (Session-IsShaken events line1 line2 later session still)
        | inr (wall, rest, first) ↦
            inr (wall, rest ++ later, e ∙ ap (λ (l : List (Command D.F)). l ++ later) first)
      ]
