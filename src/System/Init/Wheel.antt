-- ===== src/System/Init/Wheel.antt =====
-- Which descriptions `on_init` of my_diffbot_system.cpp accepts.
use Prim.Native.String.{String}
use text.Mathlib.Text.{◌==◌ as str_eq}
use text.Mathlib.TextEquality.{eq_iff}
use my_diffbot.Common.{
  ℕ, ◌≡◌, ◌↔◌, refl, sym, subst, ap, ap₂, arith, List, [], ◌∷◌, Bool, true, Option, none, some, All,
  Bool-cases, inl, inr, length, ◌==◌, Option-cases,
}
use my_diffbot.Common.Int.{ℤ}
use my_diffbot.Double.{Double}
use my_diffbot.System.Wheels.{position, velocity}
use my_diffbot.System.Component.{CallbackReturn, Config, System}
use mathlib.Core.Option.{some-injective}
use my_diffbot.System.Init.Numbers.{
  Numbers, numbers, IsRead, config_of, set_up_with, read_config-Numbers, read_config-eq,
}
use my_diffbot.System.Init.{
  Joint, HardwareInfo, name_at, check_joint, check_joints, read_config, text_at, accept, on_init,
}

-- One velocity command, and a position and a velocity state, in this order.
abbrev pub IsWheel : Joint → Type 0
IsWheel joint =
    (joint.command_interfaces ≡ velocity ∷ []) × (joint.state_interfaces ≡ position ∷ velocity ∷ [])

eq_of_same : (s t : String) → str_eq s t ≡ true → s ≡ t
eq_of_same s t h = (eq_iff s t).0 h

one_name :
    (names : List String) (x : String)
    → length names == 1 ≡ true
    → str_eq (name_at 0 names) x ≡ true
    → names ≡ x ∷ []
one_name [] x h e = ground arith
one_name (a ∷ []) x h e = ap (λ (n : String). n ∷ []) (eq_of_same a x e)
one_name (a ∷ b ∷ names) x h e = ground arith

two_names :
    (names : List String) (x y : String)
    → length names == 2 ≡ true
    → str_eq (name_at 0 names) x ≡ true
    → str_eq (name_at 1 names) y ≡ true
    → names ≡ x ∷ y ∷ []
two_names [] x y h e e' = ground arith
two_names (a ∷ []) x y h e e' = ground arith
two_names (a ∷ b ∷ []) x y h e e' =
    ap₂ (λ (n m : String). n ∷ m ∷ []) (eq_of_same a x e) (eq_of_same b y e')
two_names (a ∷ b ∷ c ∷ names) x y h e e' = ground arith

check_joint-IsWheel : (joint : Joint) → check_joint joint ≡ true → IsWheel joint
unfolding check_joint
check_joint-IsWheel joint h =
    let cs = joint.command_interfaces in
    let ss = joint.state_interfaces in
    (
      one_name cs velocity (ground arith) (ground arith),
      two_names ss position velocity (ground arith) (ground arith) (ground arith),
    )

check_joint-true : (joint : Joint) → IsWheel joint → check_joint joint ≡ true
unfolding check_joint
check_joint-true joint (c, s) = rw (c, s)

check_joints-All : (joints : List Joint) → check_joints joints ≡ true → All IsWheel joints
unfolding check_joints
check_joints-All [] h = tt
check_joints-All (joint ∷ joints) h = elim (Bool-cases (check_joint joint)) [
  | inl good ↦ (check_joint-IsWheel joint good, check_joints-All joints (ground arith))
  | inr bad ↦ ground arith
]

check_joints-true : (joints : List Joint) → All IsWheel joints → check_joints joints ≡ true
unfolding check_joints
check_joints-true [] h = refl
check_joints-true (joint ∷ joints) (first, rest) =
    rw (check_joint-true joint first, check_joints-true joints rest)

module _ (stoi : List ℕ → Option ℤ) (info : HardwareInfo) (D : Double) {Device : Type 0} where
  open D use {F}

  not_none :
      (s' : System Device F)
      → ¬ (
          ◌≡◌ {A = Option (CallbackReturn × System Device F)} none
            (some (CallbackReturn.success, s')))
  not_none s' e = cc

  not_error :
      (s s' : System Device F)
      → ¬ (
          ◌≡◌ {A = Option (CallbackReturn × System Device F)}
            (some (CallbackReturn.error, s))
            (some (CallbackReturn.success, s')))
  not_error s s' e = ground arith

  accept-success :
      (n : Numbers) (s s' : System Device F)
      → ◌≡◌ {A = Option (CallbackReturn × System Device F)}
          (some (accept stoi info n.baud_rate n.timeout_ms (record s { config = config_of D n })))
          (some (CallbackReturn.success, s'))
      → (s' ≡ set_up_with stoi info D n s) × All IsWheel info.joints
  unfolding accept
  accept-success n s s' e = elim (Bool-cases (check_joints info.joints)) [
    | inl good ↦ (
      sym (
          ap (λ (r : CallbackReturn × System Device F). r.1)
            (some-injective (CallbackReturn.success, set_up_with stoi info D n s)
              (CallbackReturn.success, s') (rw good at e))),
      check_joints-All info.joints good,
    )
    | inr bad ↦
        let failed : CallbackReturn.error ≡ CallbackReturn.success =
          ap (λ (r : CallbackReturn × System Device F). r.0)
            (some-injective (CallbackReturn.error, record s { config = config_of D n })
              (CallbackReturn.success, s') (rw bad at e)) in
        (cc)
  ]

  -- A success accepts what was read.
  accepted :
      (base_ok : Bool) (s s' : System Device F)
      → on_init stoi info D base_ok s ≡ some (CallbackReturn.success, s')
      → (base_ok ≡ true)
        × (b m : ℤ) × (c : Config F) × (stoi (text_at stoi info "baud_rate") ≡ some b)
        × (stoi (text_at stoi info "timeout_ms") ≡ some m)
        × (read_config stoi info D ≡ some c)
        × (◌≡◌ {A = Option (CallbackReturn × System Device F)}
            (some (accept stoi info b m (record s { config = c })))
            (some (CallbackReturn.success, s')))
  unfolding on_init
  accepted base_ok s s' e = elim (Bool-cases base_ok) [
    | inr bad ↦ absurd (not_error s s' (rw bad at e))
    | inl ok ↦ elim (Option-cases (stoi (text_at stoi info "baud_rate"))) [
      | inl bad ↦ absurd (not_none s' (rw (ok, bad) at e))
      | inr (b, eb) ↦ elim (Option-cases (stoi (text_at stoi info "timeout_ms"))) [
        | inl bad ↦ absurd (not_none s' (rw (ok, eb, bad) at e))
        | inr (m, em) ↦ elim (Option-cases (read_config stoi info D)) [
          | inl bad ↦ absurd (not_none s' (rw (ok, eb, em, bad) at e))
          | inr (c, ec) ↦ (ok, b, m, c, eb, em, ec, rw (ok, eb, em, ec) at e)
        ]
      ]
    ]
  ]

  success_parts :
      (base_ok : Bool) (s s' : System Device F)
      → on_init stoi info D base_ok s ≡ some (CallbackReturn.success, s')
      → (base_ok ≡ true)
        × (n : Numbers) × IsRead stoi info n
        × (s' ≡ set_up_with stoi info D n s)
        × All IsWheel info.joints
  success_parts base_ok s s' e =
      let (ok, b, m, c, eb, em, ec, e') = accepted base_ok s s' e in
      let (cpr, timeout, gains, config_eq, reads) =
        read_config-Numbers stoi info D b m c eb em ec in
      let n = numbers b m cpr timeout gains in
      let (state_eq, wheels) = accept-success n s s' (
        subst
          (λ (c : Config F).
            ◌≡◌ {A = Option (CallbackReturn × System Device F)}
              (some (accept stoi info b m (record s { config = c })))
              (some (CallbackReturn.success, s')))
          config_eq e') in
      (ok, n, reads, state_eq, wheels)

  -- `on_init` succeeds exactly if the base class does, the three parameters that are asked for read
  -- as numbers, each of the seven others is missing or reads as a number, and every joint has one
  -- velocity command, and a position and a velocity state in this order; and then the state has the
  -- ticks of a revolution, the timeout and the gains that were read, or for the missing ones 250, and
  -- 1500, 3000 and 0 for each wheel, and the serial port is configured with what was read for it.
  pub on_init_success :
      (base_ok : Bool) (s s' : System Device F)
      → (on_init stoi info D base_ok s ≡ some (CallbackReturn.success, s')) ↔ (
          (base_ok ≡ true)
          × (n : Numbers) × IsRead stoi info n
          × (s' ≡ set_up_with stoi info D n s)
          × All IsWheel info.joints)
  unfolding on_init accept
  on_init_success base_ok s s' = (
    λ e. success_parts base_ok s s' e,
    λ (ok, n, reads, state_eq, wheels).
        rw
          (
            ok,
            reads.baud_rate,
            reads.timeout_ms,
            read_config-eq stoi info D n reads,
            check_joints-true info.joints wheels,
            state_eq,
          )
          refl,
  )
