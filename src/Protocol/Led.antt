-- ===== src/Protocol/Led.antt =====
-- `LedOutput` and `ResolveLed` of binary_protocol.hpp. A mode is an `int`, a colour a `uint32_t`, and
-- a period and a time are `double`.
use my_diffbot.Common.{
  ℕ, ◌+◌, ◌*◌, ◌%◌, ◌^◌, ◌<◌, ◌≡◌, ◌⊎◌, inl, inr, refl, arith, Bool-cases, Bool, true, false, not,
  ◌&&◌, ◌||◌, if◌then◌else◌, Option, none, some, u8, ◌>>>◌, ◌==◌,
}
use my_diffbot.Common.Int.{ℤ, pos, negsuc, ltb_ℤ, eqb_ℤ}
use my_diffbot.Double.{Double}

abbrev pub k_led_off : ℕ
k_led_off = 0

abbrev pub k_led_solid : ℕ
k_led_solid = 1

abbrev pub k_led_blink : ℕ
k_led_blink = 2

abbrev pub k_led_alternate : ℕ
k_led_alternate = 3

pub record LedOutput : Type 0 where
  pub r : ℕ
  pub g : ℕ
  pub b : ℕ
  pub fw_mode : ℕ

-- The test `n % 2 == 1`: the remainder of a negative number is not positive.
abbrev pub is_odd : ℤ → Bool
is_odd (pos n) = n % 2 == 1
is_odd (negsuc n) = false

eq_of_eqb_ℤ : (mode : ℤ) (n : ℕ) → eqb_ℤ mode (pos n) ≡ true → mode ≡ pos n
eq_of_eqb_ℤ (pos m) n h = ground arith
eq_of_eqb_ℤ (negsuc m) n h = ground arith

module _ (D : Double) where
  open D use {F, literal, mul, div, trunc, lt}

  -- Whether the second colour is shown.
  unfoldable pub is_alternate_phase : F → F → Bool
  is_alternate_phase period_ms t_sec =
      lt (literal 0 0) period_ms && is_odd (trunc (div (mul t_sec (literal 1000 0)) period_ms))

  unfoldable pub resolve_led : ℤ → ℕ → ℕ → F → F → Option LedOutput
  unfolding is_alternate_phase
  resolve_led mode color color_alt period_ms t_sec =
      if eqb_ℤ mode (pos k_led_off)
      then some (record { r = 0; g = 0; b = 0; fw_mode = k_led_off })
      else if ltb_ℤ mode (pos k_led_off) || ltb_ℤ (pos k_led_alternate) mode
      then none
      else (let alt = if eqb_ℤ mode (pos k_led_blink) then 0 else color_alt in
          let shown =
            if not (eqb_ℤ mode (pos k_led_solid)) && is_alternate_phase period_ms t_sec
            then alt
            else color in
          some (record {
            r = u8 (shown >>> 16);
            g = u8 (shown >>> 8);
            b = u8 shown;
            fw_mode = k_led_solid;
          }))

  -- The phase of the period is an odd one.
  abbrev pub is_second : F → F → Bool
  is_second period_ms t_sec =
      lt (literal 0 0) period_ms && is_odd (trunc (div (mul t_sec (literal 1000 0)) period_ms))

  shown_cases :
      (mode : ℤ) (color color_alt : ℕ) (period_ms t_sec : F)
      → eqb_ℤ mode (pos 0) ≡ false
      → (ltb_ℤ mode (pos 0) || ltb_ℤ (pos 3) mode) ≡ false
      → let shown =
          if not (eqb_ℤ mode (pos 1)) && is_alternate_phase period_ms t_sec
          then (if eqb_ℤ mode (pos 2) then 0 else color_alt)
          else color in
        ((mode ≡ pos 1) × (shown ≡ color))
        ⊎ ((mode ≡ pos 2) × (shown ≡ (if is_second period_ms t_sec then 0 else color)))
        ⊎ ((mode ≡ pos 3) × (shown ≡ (if is_second period_ms t_sec then color_alt else color)))
  unfolding is_alternate_phase
  shown_cases (pos n) color color_alt period_ms t_sec on known = ground arith
  shown_cases (negsuc n) color color_alt period_ms t_sec on known = ground arith

  -- Either the mode is unknown, and there is no frame; or it is off, and the frame is black with the
  -- firmware's mode off; or it is solid, blink or alternate, and the frame has the firmware's mode
  -- solid and the three bytes of a colour: of the first one in mode solid; in the modes blink and
  -- alternate of black and of the second colour in the odd phases of a positive period, and of the
  -- first one otherwise. Exactly one of the five cases holds.
  pub resolve_led_lem :
      (mode : ℤ) (color color_alt : ℕ) (period_ms t_sec : F)
      → (((ltb_ℤ mode (pos 0) ≡ true) ⊎ (ltb_ℤ (pos 3) mode ≡ true))
          × (resolve_led mode color color_alt period_ms t_sec ≡ none))
        ⊎ ((mode ≡ pos 0)
            × (resolve_led mode color color_alt period_ms t_sec
                ≡ some (record { r = 0; g = 0; b = 0; fw_mode = 0 })))
        ⊎ ((out : LedOutput) × (shown : ℕ) × (resolve_led mode color color_alt period_ms t_sec
              ≡ some out)
            × (out.fw_mode ≡ 1)
            × (out.g < 256)
            × (out.b < 256)
            × (out.r * 65536 + out.g * 256 + out.b ≡ shown % 2 ^ 24)
            × (((mode ≡ pos 1) × (shown ≡ color))
                ⊎ ((mode ≡ pos 2) × (shown ≡ (if is_second period_ms t_sec then 0 else color)))
                ⊎ ((mode ≡ pos 3)
                    × (shown ≡ (if is_second period_ms t_sec then color_alt else color)))))
  unfolding resolve_led
  resolve_led_lem mode color color_alt period_ms t_sec =
      let alt = if eqb_ℤ mode (pos 2) then 0 else color_alt in
      let shown =
        if not (eqb_ℤ mode (pos 1)) && is_alternate_phase period_ms t_sec then alt else color in
      elim (Bool-cases (eqb_ℤ mode (pos 0))) [
        | inl off ↦ inr (inl (eq_of_eqb_ℤ mode 0 off, rw off refl))
        | inr on ↦ elim (Bool-cases (ltb_ℤ mode (pos 0) || ltb_ℤ (pos 3) mode)) [
          | inl unknown ↦ inl (ground arith, rw (on, unknown) refl)
          | inr known ↦ inr (
              inr (
                record { r = u8 (shown >>> 16); g = u8 (shown >>> 8); b = u8 shown; fw_mode = 1 },
                shown,
                rw (on, known) refl,
                refl,
                omega arith,
                omega arith,
                omega arith,
                shown_cases mode color color_alt period_ms t_sec on known,
              ))
        ]
      ]
