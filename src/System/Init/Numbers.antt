-- ===== src/System/Init/Numbers.antt =====
-- The parameters that `on_init` of my_diffbot_system.cpp reads, and their fallbacks.
use Prim.Native.String.{String}
use mathlib.Core.Option.{some-injective}
use my_diffbot.Common.{
  ℕ, ◌^◌, ◌≡◌, ◌⊎◌, refl, sym, List, Option, none, some, Option-cases, inl, inr,
}
use my_diffbot.Common.Int.{ℤ, pos, to_bits}
use my_diffbot.Double.{Double}
use my_diffbot.Transport.Session.{configure}
use my_diffbot.Transport.Ack.Keeps.{>>=-eq-some}
use my_diffbot.System.Tuning.{Gains}
use my_diffbot.System.Component.{Config, System}
use my_diffbot.System.Init.{HardwareInfo, text_at, param_int, read_config}

-- The numbers.
pub record Numbers : Type 0 where
  pub baud_rate : ℤ
  pub timeout_ms : ℤ
  pub cpr : ℤ
  pub cmd_timeout_ms : ℤ
  pub gains : Gains ℤ

abbrev pub numbers : ℤ → ℤ → ℤ → ℤ → Gains ℤ → Numbers
numbers baud_rate timeout_ms cpr cmd_timeout_ms gains = record {
  baud_rate = baud_rate;
  timeout_ms = timeout_ms;
  cpr = cpr;
  cmd_timeout_ms = cmd_timeout_ms;
  gains = gains;
}

abbrev pub config_of : (D : Double) → Numbers → Config D.F
config_of D n = record {
  cpr = D.of_int n.cpr;
  cmd_timeout_ms = to_bits (2 ^ 15) n.cmd_timeout_ms;
  gains = n.gains;
}

module _ (stoi : List ℕ → Option ℤ) (info : HardwareInfo) where
  -- A parameter that may be missing.
  abbrev pub IsValue : String → ℤ → ℤ → Type 0
  IsValue key fallback z =
      ((info.hardware_parameters key ≡ none) × (z ≡ fallback))
      ⊎ ((text : List ℕ) × (info.hardware_parameters key ≡ some text) × (stoi text ≡ some z))

  -- A text that is missing is read as an empty one.
  pub record IsRead (n : Numbers) : Type 0 where
    pub baud_rate : stoi (text_at stoi info "baud_rate") ≡ some n.baud_rate
    pub timeout_ms : stoi (text_at stoi info "timeout_ms") ≡ some n.timeout_ms
    pub cpr : stoi (text_at stoi info "encoder_counts_per_revolution") ≡ some n.cpr
    pub cmd_timeout_ms : IsValue "cmd_timeout_ms" (pos 250) n.cmd_timeout_ms
    pub kp_l : IsValue "kp_l" (pos 1500) n.gains.kp_l
    pub ki_l : IsValue "ki_l" (pos 3000) n.gains.ki_l
    pub kd_l : IsValue "kd_l" (pos 0) n.gains.kd_l
    pub kp_r : IsValue "kp_r" (pos 1500) n.gains.kp_r
    pub ki_r : IsValue "ki_r" (pos 3000) n.gains.ki_r
    pub kd_r : IsValue "kd_r" (pos 0) n.gains.kd_r

  param_int-IsValue :
      (key : String) (fallback z : ℤ)
      → param_int stoi info key fallback ≡ some z
      → IsValue key fallback z
  param_int-IsValue key fallback z e = elim (Option-cases (info.hardware_parameters key)) [
    | inl missing ↦ inl (missing, sym (some-injective fallback z (rw (missing, param_int) at e)))
    | inr (text, given) ↦ inr (text, given, rw (given, param_int) at e)
  ]

  param_int-eq :
      (key : String) (fallback z : ℤ)
      → IsValue key fallback z
      → param_int stoi info key fallback ≡ some z
  param_int-eq key fallback z value = elim value [
    | inl (missing, same) ↦ rw (missing, same, param_int) refl
    | inr (text, given, reads) ↦ rw (given, param_int) reads
  ]

  module _ (D : Double) where
    open D use {F}

    -- The state after a success.
    abbrev pub set_up_with : {Device : Type 0} → Numbers → System Device F → System Device F
    set_up_with n s = record s {
      config = config_of D n;
      kestrel =
          configure (text_at stoi info "serial_port") (to_bits (2 ^ 31) n.baud_rate)
            (to_bits (2 ^ 63) n.timeout_ms) s.kestrel;
    }

    pub read_config-eq : (n : Numbers) → IsRead n → read_config stoi info D ≡ some (config_of D n)
    unfolding read_config
    read_config-eq n reads =
        rw
          (
            reads.cpr,
            param_int-eq "cmd_timeout_ms" (pos 250) n.cmd_timeout_ms reads.cmd_timeout_ms,
            param_int-eq "kp_l" (pos 1500) n.gains.kp_l reads.kp_l,
            param_int-eq "ki_l" (pos 3000) n.gains.ki_l reads.ki_l,
            param_int-eq "kd_l" (pos 0) n.gains.kd_l reads.kd_l,
            param_int-eq "kp_r" (pos 1500) n.gains.kp_r reads.kp_r,
            param_int-eq "ki_r" (pos 3000) n.gains.ki_r reads.ki_r,
            param_int-eq "kd_r" (pos 0) n.gains.kd_r reads.kd_r,
          )
          refl

    pub read_config-Numbers :
        (b m : ℤ) (c : Config F)
        → stoi (text_at stoi info "baud_rate") ≡ some b
        → stoi (text_at stoi info "timeout_ms") ≡ some m
        → read_config stoi info D ≡ some c
        → (cpr timeout : ℤ) × (gains : Gains ℤ) × (c ≡ config_of D (numbers b m cpr timeout gains))
          × IsRead (numbers b m cpr timeout gains)
    unfolding read_config
    read_config-Numbers b m c eb em e =
        let (cpr, r0, e0) =
          >>=-eq-some (stoi (text_at stoi info "encoder_counts_per_revolution")) _ e in
        let (timeout, r1, e1) = >>=-eq-some (param_int stoi info "cmd_timeout_ms" (pos 250)) _ e0 in
        let (kp_l, r2, e2) = >>=-eq-some (param_int stoi info "kp_l" (pos 1500)) _ e1 in
        let (ki_l, r3, e3) = >>=-eq-some (param_int stoi info "ki_l" (pos 3000)) _ e2 in
        let (kd_l, r4, e4) = >>=-eq-some (param_int stoi info "kd_l" (pos 0)) _ e3 in
        let (kp_r, r5, e5) = >>=-eq-some (param_int stoi info "kp_r" (pos 1500)) _ e4 in
        let (ki_r, r6, e6) = >>=-eq-some (param_int stoi info "ki_r" (pos 3000)) _ e5 in
        let (kd_r, r7, e7) = >>=-eq-some (param_int stoi info "kd_r" (pos 0)) _ e6 in
        let gains : Gains ℤ = record {
          kp_l = kp_l;
          ki_l = ki_l;
          kd_l = kd_l;
          kp_r = kp_r;
          ki_r = ki_r;
          kd_r = kd_r;
        } in
        (
          cpr,
          timeout,
          gains,
          sym (some-injective (config_of D (numbers b m cpr timeout gains)) c e7),
          record {
            baud_rate = eb;
            timeout_ms = em;
            cpr = r0;
            cmd_timeout_ms = param_int-IsValue "cmd_timeout_ms" (pos 250) timeout r1;
            kp_l = param_int-IsValue "kp_l" (pos 1500) kp_l r2;
            ki_l = param_int-IsValue "ki_l" (pos 3000) ki_l r3;
            kd_l = param_int-IsValue "kd_l" (pos 0) kd_l r4;
            kp_r = param_int-IsValue "kp_r" (pos 1500) kp_r r5;
            ki_r = param_int-IsValue "ki_r" (pos 3000) ki_r r6;
            kd_r = param_int-IsValue "kd_r" (pos 0) kd_r r7;
          },
        )
