-- ===== src/Protocol/Crc/Detect.antt =====
-- `crc16_ccitt` of binary_protocol.cpp on two messages that differ in neighbouring bytes.
use my_diffbot.Common.{
  ℕ, ◌+◌, ◌*◌, ◌/◌, ◌%◌, ◌^◌, ◌<◌, bit_xor, ◌≡◌, ◌≢◌, sym, ap, ◌∙◌, arith, List, [], ◌∷◌, ◌++◌,
  length, IsBytes, take_all, length-append,
}
use my_diffbot.Common.Bits.{
  bit_xor-lt, bit_xor-mod, bit_xor-div, bit_xor_comm, bit_xor_assoc, bit_xor_cancel,
  bit_xor_zero_left,
}
use my_diffbot.Protocol.Crc.{crc_bits, crc_byte, crc_bytes, crc16_ccitt}
use my_diffbot.Protocol.Crc.Linear.{
  crc_bits-bit_xor, crc_bits_injective, crc_bits_eight, crc_byte_lem, crc_byte-lt, crc_bytes-lt,
  crc_bytes-append,
}

bit_xor_right_injective : (a x y : ℕ) → bit_xor a x ≡ bit_xor a y → x ≡ y
bit_xor_right_injective a x y e =
    sym (bit_xor_cancel x a)
    ∙ ap (λ (t : ℕ). bit_xor t a) (bit_xor_comm x a ∙ e ∙ bit_xor_comm a y)
    ∙ bit_xor_cancel y a

bit_xor_left_injective : (a x y : ℕ) → bit_xor x a ≡ bit_xor y a → x ≡ y
bit_xor_left_injective a x y e =
    sym (bit_xor_cancel x a) ∙ ap (λ (t : ℕ). bit_xor t a) e ∙ bit_xor_cancel y a

-- For a given byte the register is a function that forgets nothing.
crc_byte_injective :
    (b x y : ℕ) → b < 256 → x < 65536 → y < 65536 → crc_byte x b ≡ crc_byte y b → x ≡ y
crc_byte_injective b x y hb hx hy e = bit_xor_left_injective (b * 256) x y (
    crc_bits_injective 8 _ _ (bit_xor-lt 16 x _ hx (omega arith))
      (bit_xor-lt 16 y _ hy (omega arith))
      (sym (crc_byte_lem x b hx hb) ∙ e ∙ crc_byte_lem y b hy hb))

pub crc_bytes_injective :
    (rest : List ℕ) (x y : ℕ)
    → IsBytes rest
    → x < 65536
    → y < 65536
    → crc_bytes x rest ≡ crc_bytes y rest
    → x ≡ y
unfolding crc_bytes
crc_bytes_injective [] x y h hx hy e = e
crc_bytes_injective (b ∷ rest) x y (hb, h) hx hy e =
    crc_byte_injective b x y hb hx hy (
      crc_bytes_injective rest (crc_byte x b) (crc_byte y b) h (crc_byte-lt x b) (crc_byte-lt y b)
        e)

-- The register and two bytes: the bytes fill the register's sixteen bits.
window-lt : (a b : ℕ) → a < 256 → b < 256 → bit_xor (a * 256) b < 65536
window-lt a b ha hb = bit_xor-lt 16 (a * 256) b (omega arith) (omega arith)

window_high : (a b : ℕ) → b < 256 → bit_xor (a * 256) b / 2 ^ 8 ≡ a
window_high a b hb =
    let up : a * 256 / 2 ^ 8 ≡ a = omega arith in
    let down : b / 2 ^ 8 ≡ 0 = omega arith in
    sym (bit_xor-div 8 (a * 256) b) ∙ rw (up, down, bit_xor_comm a 0, bit_xor_zero_left)

window_low : (a b : ℕ) → b < 256 → bit_xor (a * 256) b % 2 ^ 8 ≡ b
window_low a b hb =
    let up : a * 256 % 2 ^ 8 ≡ 0 = omega arith in
    let down : b % 2 ^ 8 ≡ b = omega arith in
    sym (bit_xor-mod 8 (a * 256) b) ∙ rw (up, down, bit_xor_zero_left)

before-lt : (crc a b : ℕ) → b < 256 → bit_xor (crc_byte crc a) (b * 256) < 65536
before-lt crc a b hb = bit_xor-lt 16 _ _ (crc_byte-lt crc a) (omega arith)

-- The register before the last eight rounds, by linearity.
after_pair :
    (crc a b : ℕ)
    → crc < 65536
    → a < 256
    → b < 256
    → bit_xor (crc_byte crc a) (b * 256)
      ≡ bit_xor (crc_bits 8 crc) (crc_bits 8 (bit_xor (a * 256) b))
after_pair crc a b hr ha hb =
    rw
      (
        crc_byte_lem crc a hr ha,
        crc_bits-bit_xor 8 crc (a * 256) hr (omega arith),
        crc_bits-bit_xor 8 (a * 256) b (omega arith) (omega arith),
        crc_bits_eight b hb,
      )
      (bit_xor_assoc (crc_bits 8 crc) (crc_bits 8 (a * 256)) (b * 256))

-- Two bytes after the same register: the register afterwards tells them apart.
crc_pair_injective :
    (crc a b c d : ℕ)
    → crc < 65536
    → a < 256
    → b < 256
    → c < 256
    → d < 256
    → crc_byte (crc_byte crc a) b ≡ crc_byte (crc_byte crc c) d
    → (a ≡ c) × (b ≡ d)
crc_pair_injective crc a b c d hr ha hb hc hd e =
    let same : bit_xor (a * 256) b ≡ bit_xor (c * 256) d =
      crc_bits_injective 8 _ _ (window-lt a b ha hb) (window-lt c d hc hd) (
        bit_xor_right_injective (crc_bits 8 crc) _ _ (
          sym (after_pair crc a b hr ha hb)
          ∙ crc_bits_injective 8 _ _ (before-lt crc a b hb) (before-lt crc c d hd) (
              sym (crc_byte_lem _ b (crc_byte-lt crc a) hb)
              ∙ e
              ∙ crc_byte_lem _ d (crc_byte-lt crc c) hd)
          ∙ after_pair crc c d hr hc hd)) in
    (
      omega (arith, window_high a b hb, window_high c d hd, ap (λ (t : ℕ). t / 2 ^ 8) same),
      omega (arith, window_low a b hb, window_low c d hd, ap (λ (t : ℕ). t % 2 ^ 8) same),
    )

-- So the checksums of two messages that differ in two neighbouring bytes, or in one of them, differ.
pub crc_bytes_burst :
    (before after : List ℕ) (crc a b c d : ℕ)
    → IsBytes after
    → crc < 65536
    → a < 256
    → b < 256
    → c < 256
    → d < 256
    → crc_bytes crc (before ++ (a ∷ b ∷ after)) ≡ crc_bytes crc (before ++ (c ∷ d ∷ after))
    → (a ≡ c) × (b ≡ d)
unfolding crc_bytes
crc_bytes_burst before after crc a b c d h hr ha hb hc hd e =
    crc_pair_injective (crc_bytes crc before) a b c d (crc_bytes-lt crc before hr) ha hb hc hd (
      crc_bytes_injective after _ _ h (crc_byte-lt _ b) (crc_byte-lt _ d) (
        sym (crc_bytes-append crc before (a ∷ b ∷ after))
        ∙ e
        ∙ crc_bytes-append crc before (c ∷ d ∷ after)))

pub crc_bytes_change :
    (before after : List ℕ) (crc a c : ℕ)
    → IsBytes after
    → crc < 65536
    → a < 256
    → c < 256
    → crc_bytes crc (before ++ (a ∷ after)) ≡ crc_bytes crc (before ++ (c ∷ after))
    → a ≡ c
unfolding crc_bytes
crc_bytes_change before after crc a c h hr ha hc e =
    let there = crc_bytes crc before in
    let hs = crc_bytes-lt crc before hr in
    let same : crc_byte there a ≡ crc_byte there c =
      crc_bytes_injective after _ _ h (crc_byte-lt _ a) (crc_byte-lt _ c) (
        sym (crc_bytes-append crc before (a ∷ after))
        ∙ e
        ∙ crc_bytes-append crc before (c ∷ after)) in
    (crc_pair_injective there a 0 c 0 hs ha (omega arith) hc (omega arith)
      (ap (λ (t : ℕ). crc_byte t 0) same)).0

pub crc16_ccitt_burst :
    (before after : List ℕ) (a b c d n : ℕ)
    → IsBytes after
    → a < 256
    → b < 256
    → c < 256
    → d < 256
    → n ≡ length before + 2 + length after
    → crc16_ccitt (before ++ (a ∷ b ∷ after)) n ≡ crc16_ccitt (before ++ (c ∷ d ∷ after)) n
    → (a ≡ c) × (b ≡ d)
unfolding crc16_ccitt
crc16_ccitt_burst before after a b c d n h ha hb hc hd hn e =
    crc_bytes_burst before after 0xFFFF a b c d h (omega arith) ha hb hc hd (
      ap (crc_bytes 0xFFFF)
        (sym (take_all n _ (omega (arith, length-append before (a ∷ b ∷ after)))))
      ∙ e
      ∙ ap (crc_bytes 0xFFFF) (take_all n _ (omega (arith, length-append before (c ∷ d ∷ after)))))

-- Two messages of one length that differ in two neighbouring bytes, or in one of them, and agree
-- elsewhere, have different checksums.
pub crc16_ccitt_distinct :
    (before after : List ℕ) (a b c d n : ℕ)
    → IsBytes after
    → a < 256
    → b < 256
    → c < 256
    → d < 256
    → n ≡ length before + 2 + length after
    → ¬ ((a ≡ c) × (b ≡ d))
    → crc16_ccitt (before ++ (a ∷ b ∷ after)) n ≢ crc16_ccitt (before ++ (c ∷ d ∷ after)) n
crc16_ccitt_distinct before after a b c d n h ha hb hc hd hn differ e =
    differ (crc16_ccitt_burst before after a b c d n h ha hb hc hd hn e)
