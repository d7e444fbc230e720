-- ===== src/Protocol/Crc/Linear.antt =====
-- The rounds of `crc16_ccitt` of binary_protocol.cpp as arithmetic over exclusive or.
use my_diffbot.Common.{
  ℕ, zero, suc, ◌*◌, ◌/◌, ◌%◌, ◌^◌, ◌≤◌, ◌<◌, bit_xor, ◌≡◌, refl, ap, ◌∙◌, arith, List, [], ◌∷◌,
  ◌++◌, take, length, take_all, take-append_exact, sym, inl, inr, ◌⊎◌,
}
use native.Mathlib.Nat.{pow-suc, one-le-pow}
use my_diffbot.Common.Bits.{
  bit_and-pow, bit_xor-lt, bit_xor_comm, bit_xor-double, bit_xor-mod, bit_xor_step, bit_xor-div,
  bit_xor_swap, bit_xor_zero_left, bit_xor_self, eq_of_bit_xor-zero,
}
use my_diffbot.Protocol.Crc.{crc_bit, crc_bits, crc_byte, crc_bytes, crc16_ccitt}

-- A round as arithmetic: the shifted low bits, and the polynomial if the top bit was set.
pub crc_bit_lem : (x : ℕ) → x < 65536 → crc_bit x ≡ bit_xor (x % 32768 * 2) (x / 32768 * 0x1021)
unfolding crc_bit
crc_bit_lem x h = elim (top x h) [
  | inl z ↦
      rw (z, bit_xor_comm (x % 32768 * 2) 0, bit_xor_zero_left) (ground (arith, bit_and-pow 15 x))
  | inr o ↦
      let fits : x * 2 % 65536 ≡ x % 32768 * 2 = omega arith in
      rw (o, ← fits, bit_xor-mod 16 (x * 2) 0x1021) (ground (arith, bit_and-pow 15 x))
]
  where
    top : (x : ℕ) → x < 65536 → (x / 32768 ≡ 0) ⊎ (x / 32768 ≡ 1)
    top x h = omega arith

pub crc_bit_low : (x : ℕ) → x < 32768 → crc_bit x ≡ x * 2
unfolding crc_bit
crc_bit_low x h = ground (arith, bit_and-pow 15 x)

pub crc_bit-lt : (x : ℕ) → crc_bit x < 65536
unfolding crc_bit
crc_bit-lt x = ground arith

scale : (p q : ℕ) → p < 2 → q < 2 → bit_xor p q * 0x1021 ≡ bit_xor (p * 0x1021) (q * 0x1021)
scale zero zero h k = refl
scale zero (suc zero) h k = refl
scale (suc zero) zero h k = refl
scale (suc zero) (suc zero) h k = refl
scale zero (suc (suc q)) h k = absurd (omega arith)
scale (suc zero) (suc (suc q)) h k = absurd (omega arith)
scale (suc (suc p)) q h k = absurd (omega arith)

pub crc_bit-bit_xor :
    (x y : ℕ) → x < 65536 → y < 65536 → crc_bit (bit_xor x y) ≡ bit_xor (crc_bit x) (crc_bit y)
crc_bit-bit_xor x y hx hy =
    rw
      (
        crc_bit_lem (bit_xor x y) (bit_xor-lt 16 x y hx hy),
        crc_bit_lem x hx,
        crc_bit_lem y hy,
        ← bit_xor-mod 15 x y,
        ← bit_xor-div 15 x y,
        ← bit_xor-double (x % 32768) (y % 32768),
        scale (x / 32768) (y / 32768) (omega arith) (omega arith),
      )
      (bit_xor_swap (x % 32768 * 2) (y % 32768 * 2) (x / 32768 * 0x1021) (y / 32768 * 0x1021))

-- Only zero is sent to zero: the polynomial is odd.
crc_bit-eq-zero : (x : ℕ) → x < 65536 → crc_bit x ≡ 0 → x ≡ 0
crc_bit-eq-zero x h e = omega (
  arith,
  crc_bit_lem x h,
  bit_xor_step (x % 32768 * 2) (x / 32768 * 0x1021),
  λ (p : x < 32768). crc_bit_low x p,
)

pub crc_bit_injective : (x y : ℕ) → x < 65536 → y < 65536 → crc_bit x ≡ crc_bit y → x ≡ y
crc_bit_injective x y hx hy e = eq_of_bit_xor-zero x y (
    crc_bit-eq-zero (bit_xor x y) (bit_xor-lt 16 x y hx hy)
      (crc_bit-bit_xor x y hx hy ∙ ap (λ (t : ℕ). bit_xor t (crc_bit y)) e ∙ bit_xor_self _))

pub crc_bits-lt : (j x : ℕ) → x < 65536 → crc_bits j x < 65536
unfolding crc_bits
crc_bits-lt zero x h = h
crc_bits-lt (suc j) x h = crc_bits-lt j (crc_bit x) (crc_bit-lt x)

pub crc_bits-bit_xor :
    (j x y : ℕ)
    → x < 65536
    → y < 65536
    → crc_bits j (bit_xor x y) ≡ bit_xor (crc_bits j x) (crc_bits j y)
unfolding crc_bits
crc_bits-bit_xor zero x y hx hy = refl
crc_bits-bit_xor (suc j) x y hx hy =
    ap (crc_bits j) (crc_bit-bit_xor x y hx hy)
    ∙ crc_bits-bit_xor j (crc_bit x) (crc_bit y) (crc_bit-lt x) (crc_bit-lt y)

pub crc_bits_injective : (j x y : ℕ) → x < 65536 → y < 65536 → crc_bits j x ≡ crc_bits j y → x ≡ y
unfolding crc_bits
crc_bits_injective zero x y hx hy e = e
crc_bits_injective (suc j) x y hx hy e =
    crc_bit_injective x y hx hy
      (crc_bits_injective j (crc_bit x) (crc_bit y) (crc_bit-lt x) (crc_bit-lt y) e)

-- As long as no bit is shifted out, a round doubles.
crc_bits_small : (j x : ℕ) → x * 2 ^ j < 65536 → crc_bits j x ≡ x * 2 ^ j
unfolding crc_bits
crc_bits_small zero x h = omega arith
crc_bits_small (suc j) x h =
    let pos : 0 < 2 ^ j = one-le-pow j 2 (omega arith) in
    let more : x * 2 ^ suc j ≡ x * 2 * 2 ^ j = rw (pow-suc 2 j) (omega arith) in
    let fits : x * 2 * 2 ^ j < 65536 = omega arith in
    let small : x * 2 ≤ x * 2 * 2 ^ j = grind arith in
    rw (more, crc_bit_low x (omega arith)) (crc_bits_small j (x * 2) fits)

-- Eight rounds move a byte to the upper half.
pub crc_bits_eight : (x : ℕ) → x < 256 → crc_bits 8 x ≡ x * 256
crc_bits_eight x h = crc_bits_small 8 x (omega arith)

pub crc_byte_lem :
    (crc b : ℕ) → crc < 65536 → b < 256 → crc_byte crc b ≡ crc_bits 8 (bit_xor crc (b * 256))
unfolding crc_byte
crc_byte_lem crc b hc hb =
    let within = bit_xor-lt 16 crc (b * 256) hc (omega arith) in
    ap (crc_bits 8) (omega (arith, within))

pub crc_byte-lt : (crc b : ℕ) → crc_byte crc b < 65536
unfolding crc_byte
crc_byte-lt crc b = crc_bits-lt 8 _ (omega arith)

pub crc_bytes-lt : (crc : ℕ) (bytes : List ℕ) → crc < 65536 → crc_bytes crc bytes < 65536
unfolding crc_bytes
crc_bytes-lt crc [] h = h
crc_bytes-lt crc (b ∷ rest) h = crc_bytes-lt (crc_byte crc b) rest (crc_byte-lt crc b)

pub crc_bytes-append :
    (crc : ℕ) (xs ys : List ℕ) → crc_bytes crc (xs ++ ys) ≡ crc_bytes (crc_bytes crc xs) ys
unfolding crc_bytes
crc_bytes-append crc [] ys = refl
crc_bytes-append crc (x ∷ xs) ys = crc_bytes-append (crc_byte crc x) xs ys

-- The checksum fits 16 bits.
pub crc16_ccitt-lt : (bytes : List ℕ) (n : ℕ) → crc16_ccitt bytes n < 65536
unfolding crc16_ccitt
crc16_ccitt-lt bytes n = crc_bytes-lt 0xFFFF (take n bytes) (omega arith)

-- Only the covered bytes count.
pub crc16_ccitt-append :
    (xs ys : List ℕ) (n : ℕ) → n ≡ length xs → crc16_ccitt (xs ++ ys) n ≡ crc16_ccitt xs n
unfolding crc16_ccitt
crc16_ccitt-append xs ys n h =
    ap (crc_bytes 0xFFFF) (take-append_exact n xs ys h ∙ sym (take_all n xs h))
