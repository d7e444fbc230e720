-- ===== src/Common/Bits.antt =====
-- Bitwise operations at variables: the equation for the lowest binary digit, and the laws of
-- exclusive or, disjoint or and single-bit tests that the checksum and the byte order need.
use Prim.Native.Nat.{
  ℕ, zero, suc, ◌+◌, ◌-◌, ◌*◌, ◌/◌, ◌%◌, ◌^◌, ◌≤◌, ◌<◌, min, max, digits, bit_and, bit_or, bit_xor,
  differ, bit_and-bitwise, bit_or-bitwise, bit_xor-bitwise,
}
use mathlib.Core.Path.{◌≡◌, refl, sym, ap, ◌∙◌}
use native.Mathlib.Nat.{pow-suc, one-le-pow}
use native.Mathlib.Omega.{arith}

-- The native operations count the digits that are left; a count that is too high does no harm.
module _ (base : ℕ → ℕ) (digit : ℕ → ℕ → ℕ) where
  digits_none : (count y : ℕ) → digits base digit count 0 y ≡ base y
  digits_none zero y = refl
  digits_none (suc count) y = refl

  digits_spare :
      (spare count x y : ℕ)
      → x ≤ count
      → digits base digit (count + spare) x y ≡ digits base digit count x y
  digits_spare spare count zero y fits = digits_none (count + spare) y ∙ sym (digits_none count y)
  digits_spare spare zero (suc x) y fits = absurd (omega arith)
  digits_spare spare (suc count) (suc x) y fits =
      let one_more : suc count + spare ≡ suc (count + spare) = omega arith in
      rw one_more (
        ap (λ (high : ℕ). high * 2 + digit (suc x % 2) (y % 2))
          (digits_spare spare count (suc x / 2) (y / 2) (omega arith)))

  lowest_digit :
      (x y : ℕ)
      → digits base digit (suc x) (suc x) y
        ≡ digits base digit (suc x / 2) (suc x / 2) (y / 2) * 2 + digit (suc x % 2) (y % 2)
  lowest_digit x y =
      let half = suc x / 2 in
      let counts : half + (x - half) ≡ x = omega arith in
      ap (λ (high : ℕ). high * 2 + digit (suc x % 2) (y % 2))
        (rw counts at (digits_spare (x - half) half half (y / 2) (omega arith)))

bit_and_step : (x y : ℕ) → bit_and x y ≡ bit_and (x / 2) (y / 2) * 2 + min (x % 2) (y % 2)
bit_and_step zero y = simp bit_and-bitwise (omega arith)
bit_and_step (suc x) y = simp bit_and-bitwise (lowest_digit (λ t. 0) min x y)

bit_or_step : (x y : ℕ) → bit_or x y ≡ bit_or (x / 2) (y / 2) * 2 + max (x % 2) (y % 2)
bit_or_step zero y = simp bit_or-bitwise (omega arith)
bit_or_step (suc x) y = simp bit_or-bitwise (lowest_digit (λ t. t) max x y)

differ-eq : (a b : ℕ) → a < 2 → b < 2 → differ a b ≡ (a + b) % 2
differ-eq zero b p q = omega arith
differ-eq (suc zero) zero p q = refl
differ-eq (suc zero) (suc zero) p q = refl
differ-eq (suc zero) (suc (suc b)) p q = absurd (omega arith)
differ-eq (suc (suc a)) b p q = absurd (omega arith)

pub bit_xor_step : (a b : ℕ) → bit_xor a b ≡ bit_xor (a / 2) (b / 2) * 2 + (a + b) % 2
bit_xor_step zero b = simp bit_xor-bitwise (omega arith)
bit_xor_step (suc a) b = simp bit_xor-bitwise (
    lowest_digit (λ t. t) differ a b
    ∙ omega (arith, differ-eq (suc a % 2) (b % 2) (omega arith) (omega arith)))

-- Every law below goes from `a / 2` to `a`; the first argument bounds the digits left.
xor_comm_fuel : (n a b : ℕ) → a ≤ n → b ≤ n → bit_xor a b ≡ bit_xor b a
xor_comm_fuel zero zero zero p q = refl
xor_comm_fuel zero zero (suc b) p q = absurd (omega arith)
xor_comm_fuel zero (suc a) b p q = absurd (omega arith)
xor_comm_fuel (suc n) a b p q = omega (
  arith,
  bit_xor_step a b,
  bit_xor_step b a,
  xor_comm_fuel n (a / 2) (b / 2) (omega arith) (omega arith),
)

pub bit_xor_comm : (a b : ℕ) → bit_xor a b ≡ bit_xor b a
bit_xor_comm a b = xor_comm_fuel (a + b) a b (omega arith) (omega arith)

xor_cancel_fuel : (n a b : ℕ) → a ≤ n → b ≤ n → bit_xor (bit_xor a b) b ≡ a
xor_cancel_fuel zero zero zero p q = refl
xor_cancel_fuel zero zero (suc b) p q = absurd (omega arith)
xor_cancel_fuel zero (suc a) b p q = absurd (omega arith)
xor_cancel_fuel (suc n) a b p q =
    let low : bit_xor a b / 2 ≡ bit_xor (a / 2) (b / 2) = omega (arith, bit_xor_step a b) in
    bit_xor_step (bit_xor a b) b
    ∙ rw low (
        omega
          (arith, bit_xor_step a b, xor_cancel_fuel n (a / 2) (b / 2) (omega arith) (omega arith)))

-- Exclusive or by the same number twice gives the first number back.
pub bit_xor_cancel : (a b : ℕ) → bit_xor (bit_xor a b) b ≡ a
bit_xor_cancel a b = xor_cancel_fuel (a + b) a b (omega arith) (omega arith)

xor_assoc_fuel :
    (n a b c : ℕ) → a ≤ n → b ≤ n → c ≤ n → bit_xor (bit_xor a b) c ≡ bit_xor a (bit_xor b c)
xor_assoc_fuel zero zero zero zero p q r = refl
xor_assoc_fuel zero zero zero (suc c) p q r = absurd (omega arith)
xor_assoc_fuel zero zero (suc b) c p q r = absurd (omega arith)
xor_assoc_fuel zero (suc a) b c p q r = absurd (omega arith)
xor_assoc_fuel (suc n) a b c p q r =
    let left : bit_xor a b / 2 ≡ bit_xor (a / 2) (b / 2) = omega (arith, bit_xor_step a b) in
    let right : bit_xor b c / 2 ≡ bit_xor (b / 2) (c / 2) = omega (arith, bit_xor_step b c) in
    let rest = xor_assoc_fuel n (a / 2) (b / 2) (c / 2) (omega arith) (omega arith) (omega arith) in
    bit_xor_step (bit_xor a b) c
    ∙ rw (left, rest)
        (omega (
          arith,
          bit_xor_step a b,
          bit_xor_step b c,
          bit_xor_step a (bit_xor b c)
              ∙ ap (λ (t : ℕ). bit_xor (a / 2) t * 2 + (a + bit_xor b c) % 2) right,
        ))

pub bit_xor_assoc : (a b c : ℕ) → bit_xor (bit_xor a b) c ≡ bit_xor a (bit_xor b c)
bit_xor_assoc a b c = xor_assoc_fuel (a + b + c) a b c (omega arith) (omega arith) (omega arith)

-- Exclusive or stays within the width of its arguments.
pub bit_xor-lt : (k a b : ℕ) → a < 2 ^ k → b < 2 ^ k → bit_xor a b < 2 ^ k
bit_xor-lt zero a b p q =
    let a0 : a ≡ 0 = omega arith in let b0 : b ≡ 0 = omega arith in rw (a0, b0) (omega arith)
bit_xor-lt (suc k) a b p q = omega (
  arith,
  bit_xor_step a b,
  pow-suc 2 k,
  bit_xor-lt k (a / 2) (b / 2) (omega (arith, pow-suc 2 k)) (omega (arith, pow-suc 2 k)),
)

pub bit_xor-double : (a b : ℕ) → bit_xor (a * 2) (b * 2) ≡ bit_xor a b * 2
bit_xor-double a b =
    let ha : a * 2 / 2 ≡ a = omega arith in
    let hb : b * 2 / 2 ≡ b = omega arith in bit_xor_step (a * 2) (b * 2) ∙ rw (ha, hb) (omega arith)

-- Halving commutes with reduction to a width.
mod_halves : (m a : ℕ) → 0 < m → (a % (m * 2) ≡ a / 2 % m * 2 + a % 2)
mod_halves m a h = grind arith

div_halves : (m a : ℕ) → 0 < m → (a / (m * 2) ≡ a / 2 / m)
div_halves m a h = grind arith

-- Reduction to a width commutes with exclusive or.
pub bit_xor-mod : (k a b : ℕ) → bit_xor (a % 2 ^ k) (b % 2 ^ k) ≡ bit_xor a b % 2 ^ k
bit_xor-mod zero a b =
    let ha : a % 2 ^ 0 ≡ 0 = omega arith in
    let hb : b % 2 ^ 0 ≡ 0 = omega arith in rw (ha, hb) (omega arith)
bit_xor-mod (suc k) a b =
    let pos : 0 < 2 ^ k = one-le-pow k 2 (omega arith) in
    let ha : a % (2 ^ k * 2) / 2 ≡ a / 2 % 2 ^ k = omega (arith, mod_halves (2 ^ k) a pos) in
    let hb : b % (2 ^ k * 2) / 2 ≡ b / 2 % 2 ^ k = omega (arith, mod_halves (2 ^ k) b pos) in
    let low : bit_xor a b / 2 ≡ bit_xor (a / 2) (b / 2) = omega (arith, bit_xor_step a b) in
    rw
      (
        pow-suc 2 k,
        mod_halves (2 ^ k) (bit_xor a b) pos,
        bit_xor_step (a % (2 ^ k * 2)),
        ha,
        hb,
        low,
      )
      (omega (
        arith,
        bit_xor_step a b,
        mod_halves (2 ^ k) a pos,
        mod_halves (2 ^ k) b pos,
        bit_xor-mod k (a / 2) (b / 2),
      ))

-- So does a shift to the right.
pub bit_xor-div : (k a b : ℕ) → bit_xor (a / 2 ^ k) (b / 2 ^ k) ≡ bit_xor a b / 2 ^ k
bit_xor-div zero a b =
    let ha : a / 2 ^ 0 ≡ a = omega arith in
    let hb : b / 2 ^ 0 ≡ b = omega arith in rw (ha, hb) (omega arith)
bit_xor-div (suc k) a b =
    let pos : 0 < 2 ^ k = one-le-pow k 2 (omega arith) in
    let low : bit_xor a b / 2 ≡ bit_xor (a / 2) (b / 2) = omega (arith, bit_xor_step a b) in
    rw
      (
        pow-suc 2 k,
        div_halves (2 ^ k) (bit_xor a b) pos,
        div_halves (2 ^ k) a pos,
        div_halves (2 ^ k) b pos,
        low,
      )
      (bit_xor-div k (a / 2) (b / 2))

pub bit_xor_zero_left : (a : ℕ) → bit_xor 0 a ≡ a
bit_xor_zero_left a = bit_xor-bitwise 0 a

-- Exclusive or of two sums, regrouped.
pub bit_xor_swap :
    (a b c d : ℕ) → bit_xor (bit_xor a b) (bit_xor c d) ≡ bit_xor (bit_xor a c) (bit_xor b d)
bit_xor_swap a b c d = rw (
  bit_xor_assoc a b (bit_xor c d),
  bit_xor_assoc a c (bit_xor b d),
  ← bit_xor_assoc b c d,
  bit_xor_comm b c,
  bit_xor_assoc c b d,
)

-- A number is its own inverse, and nothing else is.
pub bit_xor_self : (a : ℕ) → bit_xor a a ≡ 0
bit_xor_self a = rw (bit_xor_zero_left a) at (bit_xor_cancel 0 a)

pub eq_of_bit_xor-zero : (a b : ℕ) → bit_xor a b ≡ 0 → a ≡ b
eq_of_bit_xor-zero a b h =
    sym (bit_xor_cancel a b) ∙ ap (λ (t : ℕ). bit_xor t b) h ∙ bit_xor_zero_left b

bit_and-zero_fuel : (n a : ℕ) → a ≤ n → bit_and a 0 ≡ 0
bit_and-zero_fuel zero zero h = refl
bit_and-zero_fuel zero (suc a) h = absurd (omega arith)
bit_and-zero_fuel (suc n) a h =
    omega (arith, bit_and_step a 0, bit_and-zero_fuel n (a / 2) (omega arith))

bit_and-zero : (a : ℕ) → bit_and a 0 ≡ 0
bit_and-zero a = bit_and-zero_fuel a a (omega arith)

-- The test of one bit.
pub bit_and-pow : (k a : ℕ) → bit_and a (2 ^ k) ≡ a / 2 ^ k % 2 * 2 ^ k
bit_and-pow zero a = omega (arith, bit_and_step a 1, bit_and-zero (a / 2))
bit_and-pow (suc k) a =
    let pos : 0 < 2 ^ k = one-le-pow k 2 (omega arith) in
    let half : 2 ^ k * 2 / 2 ≡ 2 ^ k = omega arith in
    rw
      (
        pow-suc 2 k,
        bit_and_step a (2 ^ k * 2),
        half,
        bit_and-pow k (a / 2),
        div_halves (2 ^ k) a pos,
      )
      (omega arith)

-- A mask of low bits is the remainder.
pub bit_and-mask : (k a : ℕ) → bit_and a (2 ^ k - 1) ≡ a % 2 ^ k
bit_and-mask zero a = omega (arith, bit_and-zero a)
bit_and-mask (suc k) a =
    let pos : 0 < 2 ^ k = one-le-pow k 2 (omega arith) in
    let half : (2 ^ k * 2 - 1) / 2 ≡ 2 ^ k - 1 = omega arith in
    rw
      (
        pow-suc 2 k,
        bit_and_step a (2 ^ k * 2 - 1),
        half,
        bit_and-mask k (a / 2),
        mod_halves (2 ^ k) a pos,
      )
      (omega arith)

bit_or-zero_fuel : (n a : ℕ) → a ≤ n → (bit_or a 0 ≡ a) × (bit_or 0 a ≡ a)
bit_or-zero_fuel zero zero h = (refl, refl)
bit_or-zero_fuel zero (suc a) h = absurd (omega arith)
bit_or-zero_fuel (suc n) a h =
    let rest = bit_or-zero_fuel n (a / 2) (omega arith) in
    (omega (arith, bit_or_step a 0, rest.0), omega (arith, bit_or_step 0 a, rest.1))

-- `r | (q << k)` is a sum when `r` fits `k` bits.
pub bit_or-fields : (k r q : ℕ) → r < 2 ^ k → bit_or r (q * 2 ^ k) ≡ q * 2 ^ k + r
bit_or-fields zero r q h =
    let r0 : r ≡ 0 = omega arith in
    let q1 : q * 2 ^ 0 ≡ q = omega arith in
    rw (r0, q1, (bit_or-zero_fuel q q (omega arith)).1) (omega arith)
bit_or-fields (suc k) r q h =
    let twice : q * 2 ^ suc k ≡ q * 2 ^ k * 2 =
      omega (arith, ap (λ (t : ℕ). q * t) (pow-suc 2 k)) in
    let half : q * 2 ^ k * 2 / 2 ≡ q * 2 ^ k = omega arith in
    rw
      (
        twice,
        bit_or_step r (q * 2 ^ k * 2),
        half,
        bit_or-fields k (r / 2) q (omega (arith, pow-suc 2 k)),
      )
      (omega arith)
