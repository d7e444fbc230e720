-- ===== src/System/Clamp.antt =====
-- `ClampCast` of my_diffbot_system.cpp: the cast of a command to an integer type, given by its least
-- and its greatest value.
use my_diffbot.Common.{
  ◌-◌, ◌^◌, ◌≡◌, ◌⊎◌, inl, inr, refl, arith, true, false, not, if◌then◌else◌, Bool-cases,
}
use my_diffbot.Common.Int.{ℤ, pos, negsuc, ltb_ℤ}
use my_diffbot.Double.{Double}

abbrev pub int32_lowest : ℤ
int32_lowest = negsuc (2 ^ 31 - 1)

abbrev pub int32_max : ℤ
int32_max = pos (2 ^ 31 - 1)

abbrev pub uint16_max : ℤ
uint16_max = pos (2 ^ 16 - 1)

abbrev pub uint32_max : ℤ
uint32_max = pos (2 ^ 32 - 1)

-- The value lies in the range.
abbrev pub IsBetween : ℤ → ℤ → ℤ → Type 0
IsBetween lo hi z = (ltb_ℤ z lo ≡ false) × (ltb_ℤ hi z ≡ false)

-- What the cast of a `double` in the range of an integer type does: the ends are exact, and cutting
-- the fraction off does not leave the range.
pub record IsCast (D : Double) (lo hi : ℤ) : Type 0 where
  pub at_lowest : D.trunc (D.of_int lo) ≡ lo
  pub at_max : D.trunc (D.of_int hi) ≡ hi
  pub between :
      (v : D.F)
      → D.lt v (D.of_int lo) ≡ false
      → D.lt (D.of_int hi) v ≡ false
      → D.is_finite v ≡ true
      → IsBetween lo hi (D.trunc v)

module _ (D : Double) where
  open D use {F, of_int, trunc, lt, is_finite}

  -- std::clamp.
  abbrev clamp : F → F → F → F
  clamp v lo hi = if lt v lo then lo else if lt hi v then hi else v

  unfoldable pub clamp_cast : ℤ → ℤ → F → ℤ
  clamp_cast lo hi v = if not (is_finite v) then pos 0 else trunc (clamp v (of_int lo) (of_int hi))

  -- For a type that holds zero, and whose ends the cast keeps and whose range it does not leave, the
  -- result is in the range of the type, whatever the command; and it is zero if the command is not
  -- finite, the least value if it is finite and below it, the greatest value if it is finite and
  -- above it, and the command without its fraction if it is finite and in the range. Exactly one of
  -- the four cases holds.
  pub clamp_cast_lem :
      (lo hi : ℤ) (v : F)
      → IsCast D lo hi
      → IsBetween lo hi (pos 0)
      → ltb_ℤ hi lo ≡ false
      → IsBetween lo hi (clamp_cast lo hi v)
        × (((is_finite v ≡ false) × (clamp_cast lo hi v ≡ pos 0))
            ⊎ ((is_finite v ≡ true) × (lt v (of_int lo) ≡ true) × (clamp_cast lo hi v ≡ lo))
            ⊎ ((is_finite v ≡ true)
                × (lt v (of_int lo) ≡ false)
                × (lt (of_int hi) v ≡ true)
                × (clamp_cast lo hi v ≡ hi))
            ⊎ ((is_finite v ≡ true)
                × (lt v (of_int lo) ≡ false)
                × (lt (of_int hi) v ≡ false)
                × (clamp_cast lo hi v ≡ trunc v)))
  unfolding clamp_cast
  clamp_cast_lem lo hi v cast zero_in nonempty = elim (Bool-cases (is_finite v)) [
    | inr bad ↦ rw bad (zero_in, inl (refl, refl))
    | inl fine ↦ elim (Bool-cases (lt v (of_int lo))) [
      | inl below ↦
          rw (fine, below, cast.at_lowest) ((ground arith, nonempty), inr (inl (refl, refl, refl)))
      | inr above ↦ elim (Bool-cases (lt (of_int hi) v)) [
        | inl over ↦
            rw (fine, above, over, cast.at_max)
              ((nonempty, ground arith), inr (inr (inl (refl, refl, refl, refl))))
        | inr inside ↦
            rw (fine, above, inside)
              (cast.between v above inside fine, inr (inr (inr (refl, refl, refl, refl))))
      ]
    ]
  ]
